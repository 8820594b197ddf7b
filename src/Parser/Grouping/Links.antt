-- ===== src/Parser/Grouping/Links.antt =====
-- Chains of operators and names in front of other tokens, and what is promised of parsing them.
use glsld.Prelude.{
  ℕ, ◌+◌, ◌*◌, ◌≤◌, ◌<◌, ◌≡◌, refl, Bool, true, false, List, [], ◌∷◌, ◌++◌, none, some, length,
  Each,
}
use glsld.Prelude.Outcome.{done, Good}
use glsld.Token.{TokenKlass, Bytes, is_klass}
use glsld.Parser.Tokens.{Parser, RawSyntaxToken, head_token}
use glsld.Parser.Syntax.{Expr}
use glsld.Parser.Operators.{BinaryOpDesc, try_parse_binary_op}
use glsld.Parser.Calls.{Calls}
use glsld.Parser.Grouping.{IsGrouped, Word, words, Link, IsLink, chain_tokens, chain_words}
use glsld.Parser.Grouping.Operand.{IsAt, follows_name, IsOperand}

-- What stands behind a chain: neither an operator nor more of the last name.
pub record IsEnd (rest : List RawSyntaxToken) : Type 0 where
  pub follows : follows_name (head_token rest).klass ≡ true
  pub no_operator : try_parse_binary_op (head_token rest).klass ≡ none

-- The first operator binds less tightly than that.
abbrev pub Below : ℕ → List Link → Type 0
Below n [] = Unit
Below n (l ∷ ls) = l.desc.precedence < n

pub operator_eof :
    (k : TokenKlass) (d : BinaryOpDesc)
    → try_parse_binary_op k ≡ some d
    → is_klass k TokenKlass.eof ≡ false
unfolding try_parse_binary_op is_klass
operator_eof (TokenKlass.keyword n) d h = cc
operator_eof TokenKlass.eof d h = cc
operator_eof k d h = refl

operator_follows :
    (k : TokenKlass) (d : BinaryOpDesc) → try_parse_binary_op k ≡ some d → follows_name k ≡ true
unfolding try_parse_binary_op follows_name is_klass
operator_follows (TokenKlass.keyword n) d h = cc
operator_follows TokenKlass.l_paren d h = cc
operator_follows TokenKlass.l_bracket d h = cc
operator_follows TokenKlass.dot d h = cc
operator_follows TokenKlass.increment d h = cc
operator_follows TokenKlass.decrement d h = cc
operator_follows k d h = refl

pub chain_follows :
    (is_struct_name : Bytes → Bool) (ls : List Link) (rest : List RawSyntaxToken)
    → Each (IsLink is_struct_name) ls
    → IsEnd rest
    → follows_name (head_token (chain_tokens ls rest)).klass ≡ true
unfolding chain_tokens
chain_follows is_struct_name [] rest h e = e.follows
chain_follows is_struct_name (l ∷ ls) rest h e =
    operator_follows l.operator.klass l.desc h.0.operator_read

-- What is parsed in front of the links that are left: the words are those of the chain so far, and the
-- operators are grouped down to the least precedence.
pub record IsParsed (is_struct_name : Bytes → Bool) (total : ℕ) (rest : List RawSyntaxToken)
    (min_precedence : ℕ) (before : List Word) (ls : List Link) (r : Expr × Parser) : Type 0 where
  pub left : List Link
  pub links : Each (IsLink is_struct_name) left
  pub fewer : length left ≤ length ls
  pub spelled : words r.0 ++ chain_words left ≡ before ++ chain_words ls
  pub grouped : IsGrouped min_precedence r.0
  pub below : Below min_precedence left
  pub behind : IsAt total (chain_tokens left rest) r.1

pub record IsGrouping (is_struct_name : Bytes → Bool) (total : ℕ) (rest : List RawSyntaxToken)
    (self : Calls) (fuel : ℕ) : Type 0 where
  pub unary_expr :
      (t : RawSyntaxToken) (ts : List RawSyntaxToken) (s : Parser)
      → IsAt total (t ∷ ts) s
      → is_klass t.klass TokenKlass.identifier ≡ true
      → is_struct_name t.text ≡ false
      → follows_name (head_token ts).klass ≡ true
      → 2 ≤ fuel
      → Good ⊥ (IsOperand total t ts) (self.unary_expr s)
  pub binary_expr :
      (begin : ℕ) (lhs : Expr) (bound min_precedence : ℕ) (ls : List Link) (s : Parser)
      → Each (IsLink is_struct_name) ls
      → IsAt total (chain_tokens ls rest) s
      → IsGrouped bound lhs
      → Below (bound + 1) ls
      → min_precedence ≤ bound
      → 2 * length ls + 3 ≤ fuel
      → Good ⊥
          (IsParsed is_struct_name total rest min_precedence (words lhs) ls)
          (self.binary_expr begin lhs min_precedence s)
  pub rhs_loop :
      (begin : ℕ) (rhs : Expr) (precedence : ℕ) (ls : List Link) (s : Parser)
      → Each (IsLink is_struct_name) ls
      → IsAt total (chain_tokens ls rest) s
      → ((n : ℕ) → IsGrouped n rhs)
      → 2 * length ls + 4 ≤ fuel
      → Good ⊥
          (IsParsed is_struct_name total rest (precedence + 1) (words rhs) ls)
          (self.rhs_loop begin rhs precedence s)
  pub rhs_loop_stops :
      (begin : ℕ) (rhs : Expr) (precedence : ℕ) (ls : List Link) (s : Parser)
      → Each (IsLink is_struct_name) ls
      → IsAt total (chain_tokens ls rest) s
      → Below (precedence + 1) ls
      → 1 ≤ fuel
      → self.rhs_loop begin rhs precedence s ≡ done (rhs, s)
