-- ===== src/Parser/Total/Infix.antt =====
-- The functions for commas, assignments and conditionals keep the promises.
use glsld.Prelude.{
  ℕ, suc, ◌+◌, ◌*◌, ◌≤◌, ◌≡◌, inl, inr, refl, not, ◌&&◌, Option, none, some, arith, if_cases,
  Bool-cases,
}
use glsld.Prelude.Outcome.{done, failed, out_of_fuel, Good, Good-guard}
use glsld.Token.{TokenKlass, is_klass}
use glsld.Parser.Tokens.{Parser, peek_klass, try_test, consume_token, report_error}
use glsld.Parser.Syntax.{Expr, BinaryOp}
use glsld.Parser.Operators.{try_parse_assignment_op}
use glsld.Parser.Calls.{Parsed, Calls}
use glsld.Parser.Exprs.{
  parse_comma_expr, parse_false_expr, comma_loop_body, parse_conditional_expr, parse_assignment_of,
  parse_assignment_expr_with_lhs, parse_assignment_expr,
}
use glsld.Parser.Total.Ready.{
  size, stops, IsReady, Moved, Moved-refl, report-Moved, consume-Stepped, test_step, differ,
  assignment-stop,
}
use glsld.Parser.Total.Fine.{
  Ends, Ends-after, Ends-bind, BinaryEnded, IsFine, parse_comma_expr-Ends,
}

module _ (self : Calls) (fuel : ℕ) (fine : IsFine self fuel) where
  pub comma_loop-Ends :
      (begin : ℕ) (lhs : Expr) (s : Parser)
      → IsReady s
      → 4 * size s + 1 ≤ suc fuel
      → Ends s (comma_loop_body self begin lhs s)
  unfolding comma_loop_body stops is_klass
  comma_loop-Ends begin lhs s r h =
      if_cases (Ends s) (try_test TokenKlass.comma s) _ _
        (λ e.
          let c = test_step TokenKlass.comma s (λ d. refl) r e in
          Ends-after s (consume_token s) _ c.moved (
            Ends-bind (consume_token s) (self.assignment_expr (consume_token s)) _
              (fine.assignment_expr (consume_token s) c.moved.ended.ready (omega (arith, c.one, h)))
              (λ a m.
                fine.comma_loop begin _ a.1 m.ended.ready
                  (omega (arith, c.one, m.ended.fewer, h)))))
        (λ e. Moved-refl s r)

  -- Where the expression behind `?` began, a token was consumed.
  parse_false_expr-Ends :
      (begin : ℕ) (predicate : Expr) (true_expr : Expr × Parser)
      → IsReady true_expr.1
      → 4 * size true_expr.1 + 3 ≤ fuel
      → Ends true_expr.1 (parse_false_expr self begin predicate true_expr)
  unfolding parse_false_expr stops is_klass
  parse_false_expr-Ends begin predicate true_expr r h =
      let s = true_expr.1 in
      if_cases (Ends s) (not (try_test TokenKlass.colon s) && s.recovering) _ _
        (λ e. Moved-refl s r)
        (λ e. elim (Bool-cases (try_test TokenKlass.colon s)) [
          | inl c ↦
              let p = test_step TokenKlass.colon s (λ d. refl) r c in
              rw c (
                Ends-after s (consume_token s) _ p.moved (
                  Ends-bind (consume_token s) (self.assignment_expr (consume_token s)) _
                    (fine.assignment_expr (consume_token s) p.moved.ended.ready
                      (omega (arith, p.one, h)))
                    (λ a m. Moved-refl a.1 m.ended.ready)))
          | inr c ↦
              let p = report-Moved s r in
              rw c (
                Ends-after s (report_error s) _ p (
                  Ends-bind (report_error s) (self.assignment_expr (report_error s)) _
                    (fine.assignment_expr (report_error s) p.ended.ready h)
                    (λ a m. Moved-refl a.1 m.ended.ready)))
        ])

  pub binary_expr-Ends :
      (begin : ℕ) (lhs : Expr) (min_precedence : ℕ) (s : Parser)
      → IsReady s
      → 4 * size s + 1 ≤ fuel
      → Ends s (self.binary_expr begin lhs min_precedence s)
  binary_expr-Ends begin lhs min_precedence s r h =
      weaken (self.binary_expr begin lhs min_precedence s)
        (fine.binary_expr begin lhs min_precedence s r h)
    where
      weaken : (m : Parsed Expr) → Good ⊥ (λ r. BinaryEnded min_precedence s r.1) m → Ends s m
      weaken (done a) k = k.moved
      weaken failed k = k
      weaken out_of_fuel k = k

  parse_conditional_expr-Ends :
      (begin : ℕ) (first_term : Expr) (s : Parser)
      → IsReady s
      → 4 * size s + 1 ≤ fuel
      → Ends s (parse_conditional_expr self begin first_term s)
  unfolding parse_conditional_expr stops is_klass
  parse_conditional_expr-Ends begin first_term s r h =
      Ends-bind s (self.binary_expr begin first_term 0 s) _
        (binary_expr-Ends begin first_term 0 s r h)
        (λ p m.
          if_cases (Ends p.1) (try_test TokenKlass.question p.1) _ _
            (λ e.
              let c = test_step TokenKlass.question p.1 (λ d. refl) m.ended.ready e in
              let t = consume_token p.1 in
              Ends-after p.1 t _ c.moved (
                Ends-bind t (parse_comma_expr self t) _
                  (parse_comma_expr-Ends self fuel fine t c.moved.ended.ready
                    (omega (arith, c.one, m.ended.fewer, h)))
                  (λ a n.
                    parse_false_expr-Ends begin p.0 a n.ended.ready
                      (omega (arith, c.one, m.ended.fewer, n.ended.fewer, h)))))
            (λ e. Moved-refl p.1 m.ended.ready))

  parse_assignment_of-Ends :
      (lhs : Expr) (s : Parser) (op : Option BinaryOp)
      → IsReady s
      → 4 * size s + 1 ≤ fuel
      → try_parse_assignment_op (peek_klass s) ≡ op
      → Ends s (parse_assignment_of self lhs s op)
  parse_assignment_of-Ends lhs s none r h e = parse_conditional_expr-Ends _ lhs s r h
  parse_assignment_of-Ends lhs s (some op) r h e =
      let c = consume-Stepped s r (assignment-stop (peek_klass s) s.brace_depth op e) in
      Good-guard ⊥ (λ (a : Expr × Parser). Moved s a.1) (consume_token s).recovering _
        (λ p. differ p c.parsing)
        (Ends-after s (consume_token s) _ c.moved (
          Ends-bind (consume_token s) (self.assignment_expr (consume_token s)) _
            (fine.assignment_expr (consume_token s) c.moved.ended.ready (omega (arith, c.one, h)))
            (λ a m. Moved-refl a.1 m.ended.ready)))

  pub parse_assignment_expr-Ends :
      (s : Parser) → IsReady s → 4 * size s + 3 ≤ suc fuel → Ends s (parse_assignment_expr self s)
  unfolding parse_assignment_expr parse_assignment_expr_with_lhs
  parse_assignment_expr-Ends s r h =
      Ends-bind s (self.unary_expr s) _ (fine.unary_expr s r (omega (arith, h))) (λ a m.
        parse_assignment_of-Ends a.0 a.1 (try_parse_assignment_op (peek_klass a.1)) m.ended.ready
          (omega (arith, m.ended.fewer, h)) refl)
