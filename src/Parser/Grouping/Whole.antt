-- ===== src/Parser/Grouping/Whole.antt =====
-- `ParseExpr` on a chain of operators and names.
use mathlib.Core.List.{append-nil}
use mathlib.Core.Path.{subst}
use glsld.Prelude.{
  ℕ, zero, suc, ◌+◌, ◌*◌, ◌≤◌, ◌<◌, ◌≡◌, inr, refl, sym, ap, ◌∙◌, Bool, true, false, List, [], ◌∷◌,
  ◌++◌, none, some, ◌==◌, length, Each, arith,
}
use glsld.Prelude.Outcome.{done, failed, out_of_fuel, Good, Good-bind}
use glsld.Token.{TokenKlass, Bytes, is_klass}
use glsld.Parser.Tokens.{Parser, RawSyntaxToken, head_token, peek_klass, try_test}
use glsld.Parser.Syntax.{Expr, expr_range}
use glsld.Parser.Operators.{BinaryOpDesc, try_parse_assignment_op, try_parse_binary_op}
use glsld.Parser.Calls.{Parsed, Calls}
use glsld.Parser.Exprs.{
  parse_expr, parse_comma_expr, parse_assignment_expr, parse_assignment_expr_with_lhs,
  parse_conditional_expr, comma_loop_body,
}
use glsld.Parser.Run.{calls, parse}
use glsld.Parser.Grouping.{IsGrouped, Word, words, Link, IsLink, chain_tokens, chain_words}
use glsld.Parser.Grouping.Operand.{IsAt, follows_name, IsOperand, operand-IsOperand}
use glsld.Parser.Grouping.Unique.{SameShape, same_words}
use glsld.Parser.Grouping.Links.{IsEnd, Below, IsParsed, IsGrouping, chain_follows}
use glsld.Parser.Grouping.Chain.{rhs_loop_stops, rhs_loop-Parses, binary_expr-Parses}

-- What stands behind a whole expression.
pub record IsClosed (rest : List RawSyntaxToken) : Type 0 where
  pub ending : IsEnd rest
  pub no_assignment : try_parse_assignment_op (head_token rest).klass ≡ none
  pub no_question : is_klass (head_token rest).klass TokenKlass.question ≡ false
  pub no_comma : is_klass (head_token rest).klass TokenKlass.comma ≡ false

-- The tree has the words of the chain and is grouped by the order of the operators, and the parser
-- parses behind it.
pub record IsWhole (before : List Word) (rest : List RawSyntaxToken) (r : Expr × Parser)
    : Type 0 where
  pub grouped : IsGrouped 0 r.0
  pub spelled : words r.0 ≡ before
  pub left : r.1.tokens ≡ rest
  pub parsing : r.1.recovering ≡ false

no_assignment_op :
    (k : TokenKlass) (d : BinaryOpDesc)
    → try_parse_binary_op k ≡ some d
    → try_parse_assignment_op k ≡ none
unfolding try_parse_binary_op try_parse_assignment_op
no_assignment_op TokenKlass.assign d h = cc
no_assignment_op TokenKlass.mul_assign d h = cc
no_assignment_op TokenKlass.div_assign d h = cc
no_assignment_op TokenKlass.mod_assign d h = cc
no_assignment_op TokenKlass.add_assign d h = cc
no_assignment_op TokenKlass.sub_assign d h = cc
no_assignment_op TokenKlass.l_shift_assign d h = cc
no_assignment_op TokenKlass.r_shift_assign d h = cc
no_assignment_op TokenKlass.and_assign d h = cc
no_assignment_op TokenKlass.xor_assign d h = cc
no_assignment_op TokenKlass.or_assign d h = cc
no_assignment_op k d h = refl

chain_assignment :
    (is_struct_name : Bytes → Bool) (ls : List Link) (rest : List RawSyntaxToken)
    → Each (IsLink is_struct_name) ls
    → IsClosed rest
    → try_parse_assignment_op (head_token (chain_tokens ls rest)).klass ≡ none
unfolding chain_tokens
chain_assignment is_struct_name [] rest h c = c.no_assignment
chain_assignment is_struct_name (l ∷ ls) rest h c =
    no_assignment_op l.operator.klass l.desc h.0.operator_read

calls-IsGrouping :
    (is_struct_name : Bytes → Bool) (total : ℕ) (rest : List RawSyntaxToken) (fuel : ℕ)
    → IsEnd rest
    → IsGrouping is_struct_name total rest (calls is_struct_name fuel) fuel
unfolding calls
calls-IsGrouping is_struct_name total rest zero e = record {
  unary_expr = λ t ts s a i n f h. absurd (omega (arith, h));
  binary_expr = λ begin lhs b m ls s h a g l k f. absurd (omega (arith, f));
  rhs_loop = λ begin rhs p ls s h a o f. absurd (omega (arith, f));
  rhs_loop_stops = λ begin rhs p ls s h a b f. absurd (omega (arith, f));
}
calls-IsGrouping is_struct_name total rest (suc fuel) e =
    let self = calls is_struct_name fuel in
    let g = calls-IsGrouping is_struct_name total rest fuel e in
    record {
      unary_expr = unary fuel;
      binary_expr = binary_expr-Parses is_struct_name total rest e self fuel g;
      rhs_loop = rhs_loop-Parses is_struct_name total rest e self fuel g;
      rhs_loop_stops = λ begin rhs p ls s h a b f.
          rhs_loop_stops is_struct_name total rest e self fuel g begin rhs p ls s h a b;
    }
  where
    unary :
        (fuel : ℕ) (t : RawSyntaxToken) (ts : List RawSyntaxToken) (s : Parser)
        → IsAt total (t ∷ ts) s
        → is_klass t.klass TokenKlass.identifier ≡ true
        → is_struct_name t.text ≡ false
        → follows_name (head_token ts).klass ≡ true
        → 2 ≤ suc fuel
        → Good ⊥ (IsOperand total t ts) ((calls is_struct_name (suc fuel)).unary_expr s)
    unary zero t ts s a i n f h = absurd (omega (arith, h))
    unary (suc fuel) t ts s a i n f h = operand-IsOperand is_struct_name fuel total t ts s a i n f

-- As before the loop for commas.
record IsDone (total : ℕ) (before : List Word) (rest : List RawSyntaxToken) (r : Expr × Parser)
    : Type 0 where
  grouped : IsGrouped 0 r.0
  spelled : words r.0 ≡ before
  behind : IsAt total rest r.1

-- No operator is left below the weakest.
parsed-IsDone :
    (is_struct_name : Bytes → Bool) (total : ℕ) (rest : List RawSyntaxToken) (before : List Word)
    (ls : List Link) (r : Expr × Parser)
    → IsParsed is_struct_name total rest 0 before ls r
    → IsDone total (before ++ chain_words ls) rest r
unfolding chain_tokens chain_words
parsed-IsDone is_struct_name total rest before ls r p = by_left p.left p.below p.spelled p.behind
  where
    by_left :
        (left : List Link)
        → Below 0 left
        → words r.0 ++ chain_words left ≡ before ++ chain_words ls
        → IsAt total (chain_tokens left rest) r.1
        → IsDone total (before ++ chain_words ls) rest r
    by_left [] b w a = record {
      grouped = p.grouped;
      spelled = sym (append-nil (words r.0)) ∙ w;
      behind = a;
    }
    by_left (l ∷ ls) b w a = absurd (omega (arith, b))

module _ (is_struct_name : Bytes → Bool) (total : ℕ) (rest : List RawSyntaxToken)
    (closed : IsClosed rest) where
  test_rest :
      (k : TokenKlass) (s : Parser)
      → IsAt total rest s
      → is_klass (head_token rest).klass k ≡ false
      → try_test k s ≡ false
  unfolding try_test is_klass
  test_rest k s a n = ap (λ us. is_klass (head_token us).klass k) a.left ∙ n

  module _ (self : Calls) (fuel : ℕ) (g : IsGrouping is_struct_name total rest self fuel) where
    conditional-IsDone :
        (begin : ℕ) (lhs : Expr) (ls : List Link) (s : Parser)
        → Each (IsLink is_struct_name) ls
        → IsAt total (chain_tokens ls rest) s
        → ((n : ℕ) → IsGrouped n lhs)
        → 2 * length ls + 3 ≤ fuel
        → Good ⊥
            (IsDone total (words lhs ++ chain_words ls) rest)
            (parse_conditional_expr self begin lhs s)
    unfolding parse_conditional_expr
    conditional-IsDone begin lhs ls s h a o f =
        Good-bind ⊥ (IsParsed is_struct_name total rest 0 (words lhs) ls)
          (IsDone total (words lhs ++ chain_words ls) rest) (self.binary_expr begin lhs 0 s) _
          (g.binary_expr begin lhs (bound ls) 0 ls s h a (o _) (below ls) (omega arith) f)
          (λ r p.
            let d = parsed-IsDone is_struct_name total rest (words lhs) ls r p in
            rw (test_rest TokenKlass.question r.1 d.behind closed.no_question) d)
      where
        bound : List Link → ℕ
        bound [] = 0
        bound (l ∷ ls) = l.desc.precedence

        below : (ls : List Link) → Below (bound ls + 1) ls
        below [] = tt
        below (l ∷ ls) = omega arith

    assignment-IsDone :
        (a : RawSyntaxToken) (ls : List Link) (s : Parser)
        → IsAt total (a ∷ chain_tokens ls rest) s
        → is_klass a.klass TokenKlass.identifier ≡ true
        → is_struct_name a.text ≡ false
        → Each (IsLink is_struct_name) ls
        → 2 * length ls + 3 ≤ fuel
        → Good ⊥ (IsDone total (inr a.text ∷ chain_words ls) rest) (parse_assignment_expr self s)
    unfolding parse_assignment_expr parse_assignment_expr_with_lhs
    assignment-IsDone a ls s at i n h f =
        Good-bind ⊥ (IsOperand total a (chain_tokens ls rest))
          (IsDone total (inr a.text ∷ chain_words ls) rest) (self.unary_expr s) _
          (g.unary_expr a (chain_tokens ls rest) s at i n
            (chain_follows is_struct_name ls rest h closed.ending) (omega (arith, f)))
          (λ r o.
            let none_there : try_parse_assignment_op (peek_klass r.1) ≡ none =
              ap (λ us. try_parse_assignment_op (head_token us).klass) o.behind.left
              ∙ chain_assignment is_struct_name ls rest h closed in
            rw none_there (
              subst
                (λ ws.
                  Good ⊥ (IsDone total (ws ++ chain_words ls) rest)
                    (parse_conditional_expr self (expr_range r.0).begin_id r.0 r.1))
                o.spelled
                (conditional-IsDone (expr_range r.0).begin_id r.0 ls r.1 h o.behind o.grouped f)))

chain_longer :
    (ls : List Link) (rest : List RawSyntaxToken) → length rest ≤ length (chain_tokens ls rest)
unfolding chain_tokens
chain_longer [] rest = omega arith
chain_longer (l ∷ ls) rest = omega (arith, chain_longer ls rest)

-- On a chain of names, none of a struct, with binary operators between them, `ParseExpr` in the parsing
-- mode builds a tree that has these names and operators from left to right, with each operator's left
-- operand made of operators that bind at least as tightly and its right operand of operators that bind
-- more tightly, provided that the calls of the AST builder return. It fails no assertion of Parser.cpp
-- or Parser.h, needs fuel for two calls for each operator and four more, stops behind the chain and
-- parses on. What stands there must not go on with the expression.
pub parse-IsWhole :
    (is_struct_name : Bytes → Bool) (fuel : ℕ) (a : RawSyntaxToken) (ls : List Link)
    (rest : List RawSyntaxToken) (s : Parser)
    → s.tokens ≡ a ∷ chain_tokens ls rest
    → s.recovering ≡ false
    → is_klass a.klass TokenKlass.identifier ≡ true
    → is_struct_name a.text ≡ false
    → Each (IsLink is_struct_name) ls
    → IsClosed rest
    → 2 * length ls + 4 ≤ fuel
    → Good ⊥ (IsWhole (inr a.text ∷ chain_words ls) rest) (parse is_struct_name fuel s)
unfolding parse parse_expr calls comma_loop_body
parse-IsWhole is_struct_name zero a ls rest s t p i n h c f = absurd (omega (arith, f))
parse-IsWhole is_struct_name (suc fuel) a ls rest s t p i n h c f =
    let total = s.token_index + length (a ∷ chain_tokens ls rest) in
    let at : IsAt total (a ∷ chain_tokens ls rest) s = record {
      left = t;
      count = refl;
      parsing = p;
    } in
    let self = calls is_struct_name fuel in
    Good-bind ⊥ (IsDone total (inr a.text ∷ chain_words ls) rest)
      (IsWhole (inr a.text ∷ chain_words ls) rest)
      (parse_comma_expr (calls is_struct_name (suc fuel)) s) _
      (Good-bind ⊥ (IsDone total (inr a.text ∷ chain_words ls) rest)
        (IsDone total (inr a.text ∷ chain_words ls) rest) (parse_assignment_expr self s) _
        (assignment-IsDone is_struct_name total rest c self fuel
          (calls-IsGrouping is_struct_name total rest fuel c.ending) a ls s at i n h
          (omega (arith, f)))
        (λ r d.
          rw (test_rest is_struct_name total rest c TokenKlass.comma r.1 d.behind c.no_comma) d))
      (λ r d.
        let later : (r.1.token_index == s.token_index) ≡ false = ground (
          arith,
          behind_start (length (chain_tokens ls rest)) (length rest) s.token_index r.1.token_index
              d.behind.count (chain_longer ls rest),
        ) in
        rw later (record {
          grouped = d.grouped;
          spelled = d.spelled;
          left = d.behind.left;
          parsing = d.behind.parsing;
        }))
  where
    behind_start : (m n i j : ℕ) → j + n ≡ i + suc m → n ≤ m → i < j
    behind_start m n i j e l = omega (arith, e, l)

-- A tree of names, none of a struct, whose operators are grouped by their order is read back by
-- `ParseExpr` in the parsing mode from its names and operators as it was, without parentheses, and with
-- what stands behind left. That must not go on with the expression. Fuel for two calls for each operator
-- and four more is enough.
pub parse-SameShape :
    (is_struct_name : Bytes → Bool) (fuel : ℕ) (e : Expr) (a : RawSyntaxToken) (ls : List Link)
    (rest : List RawSyntaxToken) (s : Parser)
    → IsGrouped 0 e
    → words e ≡ inr a.text ∷ chain_words ls
    → s.tokens ≡ a ∷ chain_tokens ls rest
    → s.recovering ≡ false
    → is_klass a.klass TokenKlass.identifier ≡ true
    → is_struct_name a.text ≡ false
    → Each (IsLink is_struct_name) ls
    → IsClosed rest
    → 2 * length ls + 4 ≤ fuel
    → Good ⊥ (λ r. SameShape e r.0 × (r.1.tokens ≡ rest)) (parse is_struct_name fuel s)
parse-SameShape is_struct_name fuel e a ls rest s g w t p i n h c f =
    same (parse is_struct_name fuel s) (parse-IsWhole is_struct_name fuel a ls rest s t p i n h c f)
  where
    same :
        (m : Parsed Expr)
        → Good ⊥ (IsWhole (inr a.text ∷ chain_words ls) rest) m
        → Good ⊥ (λ r. SameShape e r.0 × (r.1.tokens ≡ rest)) m
    same (done r) q = (same_words 0 0 e r.0 g q.grouped (w ∙ sym q.spelled), q.left)
    same failed q = q
    same out_of_fuel q = q
