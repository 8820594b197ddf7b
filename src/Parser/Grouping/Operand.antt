-- ===== src/Parser/Grouping/Operand.antt =====
-- A name between operators is parsed as an operand.
use glsld.Prelude.{
  ℕ, suc, ◌+◌, length, ◌≡◌, inr, refl, sym, ap, ◌∙◌, Bool, true, false, not, ◌||◌, List, [], ◌∷◌,
  arith, if_cases,
}
use glsld.Prelude.Outcome.{done, Good}
use glsld.Token.{TokenKlass, Bytes, is_klass}
use glsld.Parser.Tokens.{
  Parser, RawSyntaxToken, head_token, second_token, next_tokens, peek_klass, peek_token, eof,
  try_test, try_test_second, consumed_token, consume_token, get_current_token, create_syntax_range,
  k_struct, is_builtin_type,
}
use glsld.Parser.Syntax.{Expr}
use glsld.Parser.Operators.{try_parse_prefix_unary_op}
use glsld.Parser.Exprs.{parse_primary_expr, unary_expr_body}
use glsld.Parser.Postfix.{parse_postfix_head, parse_postfix_expr, postfix_loop_body}
use glsld.Parser.Calls.{Calls}
use glsld.Parser.Run.{calls}
use glsld.Parser.Grouping.{IsGrouped, words}

-- The parser parses, these tokens are left, and with those in front of them they are `total`.
pub record IsAt (total : ℕ) (ts : List RawSyntaxToken) (s : Parser) : Type 0 where
  pub left : s.tokens ≡ ts
  pub count : s.token_index + length ts ≡ total
  pub parsing : s.recovering ≡ false

pub consume-IsAt :
    (total : ℕ) (t : RawSyntaxToken) (ts : List RawSyntaxToken) (s : Parser)
    → IsAt total (t ∷ ts) s
    → is_klass t.klass TokenKlass.eof ≡ false
    → IsAt total ts (consume_token s)
unfolding consume_token try_test
consume-IsAt total t ts s a n =
    if_cases (IsAt total ts) (eof s) s (consumed_token s) (λ e. absurd (end e))
      (λ e. record {
        left = ap next_tokens a.left;
        count = omega (arith, a.count);
        parsing = a.parsing;
      })
  where
    clash : true ≡ false → ⊥
    clash h = cc

    end : eof s ≡ true → ⊥
    end e = clash (sym e ∙ (ap (λ us. is_klass (head_token us).klass TokenKlass.eof) a.left ∙ n))

-- A token that does not make more of the name in front of it.
unfoldable pub follows_name : TokenKlass → Bool
unfolding is_klass
follows_name k = not (
    is_klass k TokenKlass.l_paren
    || (is_klass k TokenKlass.l_bracket
        || (is_klass k TokenKlass.dot
            || (is_klass k TokenKlass.increment || is_klass k TokenKlass.decrement))))

identifier_only :
    (k : TokenKlass) → is_klass k TokenKlass.identifier ≡ true → k ≡ TokenKlass.identifier
unfolding is_klass
identifier_only TokenKlass.identifier h = refl
identifier_only (TokenKlass.keyword n) h = absurd (ground arith)
identifier_only k h = cc

second_follows :
    (t : RawSyntaxToken) (ts : List RawSyntaxToken)
    → is_klass t.klass TokenKlass.identifier ≡ true
    → follows_name (head_token ts).klass ≡ true
    → is_klass (second_token (t ∷ ts)).klass TokenKlass.l_paren ≡ false
unfolding is_klass follows_name
second_follows t [] i f = ground arith
second_follows t (u ∷ ts) i f = ground arith

module _ (self : Calls) where
  head_name :
      (is_struct_name : Bytes → Bool) (s : Parser)
      → is_builtin_type (peek_klass s) ≡ false
      → try_test k_struct s ≡ false
      → try_test TokenKlass.identifier s ≡ true
      → is_struct_name (peek_token s).text ≡ false
      → try_test_second TokenKlass.l_paren s ≡ false
      → parse_postfix_head self is_struct_name s
        ≡ done (
          Expr.name_access_expr
              (create_syntax_range s.token_index (consume_token s))
              (get_current_token s),
          consume_token s,
        )
  unfolding parse_postfix_head parse_primary_expr
  head_name is_struct_name s b k i n l = rw (b, k, i, n, l) refl

  no_postfix :
      (begin : ℕ) (e : Expr) (s : Parser)
      → s.recovering ≡ false
      → follows_name (peek_klass s) ≡ true
      → postfix_loop_body self begin e s ≡ done (e, s)
  unfolding postfix_loop_body follows_name try_test is_klass
  no_postfix begin e s p f = rw (p, bracket, dot, increment, decrement) refl
    where
      bracket : try_test TokenKlass.l_bracket s ≡ false
      bracket = ground arith

      dot : try_test TokenKlass.dot s ≡ false
      dot = ground arith

      increment : try_test TokenKlass.increment s ≡ false
      increment = ground arith

      decrement : try_test TokenKlass.decrement s ≡ false
      decrement = ground arith

-- Such a name, as an operand.
pub record IsOperand (total : ℕ) (t : RawSyntaxToken) (ts : List RawSyntaxToken) (r : Expr × Parser)
    : Type 0 where
  pub grouped : (n : ℕ) → IsGrouped n r.0
  pub spelled : words r.0 ≡ inr t.text ∷ []
  pub behind : IsAt total ts r.1

pub operand-IsOperand :
    (is_struct_name : Bytes → Bool) (fuel total : ℕ) (t : RawSyntaxToken) (ts : List RawSyntaxToken)
    (s : Parser)
    → IsAt total (t ∷ ts) s
    → is_klass t.klass TokenKlass.identifier ≡ true
    → is_struct_name t.text ≡ false
    → follows_name (head_token ts).klass ≡ true
    → Good ⊥ (IsOperand total t ts) ((calls is_struct_name (suc (suc fuel))).unary_expr s)
unfolding calls unary_expr_body parse_postfix_expr try_parse_prefix_unary_op try_test
    try_test_second is_klass words IsGrouped
operand-IsOperand is_struct_name fuel total t ts s a i n f =
    let self = calls is_struct_name (suc fuel) in
    let k : peek_klass s ≡ TokenKlass.identifier =
      ap (λ us. (head_token us).klass) a.left ∙ identifier_only t.klass i in
    let first =
      head_name self is_struct_name s (ap is_builtin_type k) (ap (λ c. is_klass c k_struct) k)
        (ap (λ c. is_klass c TokenKlass.identifier) k)
        (ap (λ us. is_struct_name (head_token us).text) a.left ∙ n)
        (ap (λ us. is_klass (second_token us).klass TokenKlass.l_paren) a.left
          ∙ second_follows t ts i f) in
    let b =
      consume-IsAt total t ts s a
        (ap (λ c. is_klass c TokenKlass.eof) (identifier_only t.klass i)) in
    let last =
      no_postfix (calls is_struct_name fuel) s.token_index
        (Expr.name_access_expr (create_syntax_range s.token_index (consume_token s))
          (get_current_token s))
        (consume_token s) b.parsing (ap (λ us. follows_name (head_token us).klass) b.left ∙ f) in
    rw (ap try_parse_prefix_unary_op k, first, last)
      (record {
        grouped = λ m. tt;
        spelled = ap (λ us. inr (head_token us).text ∷ []) a.left;
        behind = b;
      })
