-- ===== src/Parser/Total/Unary.antt =====
-- `ParsePostfixExpr` and `ParseUnaryExpr` keep the promises.
use glsld.Prelude.{
  ℕ, suc, ◌+◌, ◌*◌, ◌≤◌, ◌≡◌, refl, Bool, true, ◌&&◌, Option, none, some, arith, if_both, if_cases,
}
use glsld.Prelude.Outcome.{Good-bind}
use glsld.Token.{TokenKlass, Bytes, is_klass}
use glsld.Parser.Tokens.{
  Parser, AstSyntaxToken, peek_klass, try_test, try_test_second, consume_token,
}
use glsld.Parser.Recovery.{parse_optional_decl_id_helper}
use glsld.Parser.Syntax.{Expr, UnaryOp}
use glsld.Parser.Operators.{try_parse_prefix_unary_op}
use glsld.Parser.Calls.{Parsed, Calls}
use glsld.Parser.Exprs.{parse_bracket_wrapped_expr, unary_at, unary_expr_body}
use glsld.Parser.Postfix.{
  parse_postfix_head, is_length, postfix_dot, postfix_loop_body, parse_postfix_expr,
}
use glsld.Parser.Total.Ready.{
  size, stops, IsReady, Moved, Moved-refl, Moved-trans, report-Moved, Stepped, consume-Stepped,
  prefix-stop, test_step,
}
use glsld.Parser.Total.Fine.{Ends, Ends-after, Ends-bind, IsFine}
use glsld.Parser.Total.Wrapped.{Shorter, parse_bracket_wrapped_expr-Good}
use glsld.Parser.Total.Operands.{next_test, first_true, second_true, parse_postfix_head-Ends}

optional_id-Moved : (s : Parser) → IsReady s → Moved s (parse_optional_decl_id_helper s).1
unfolding parse_optional_decl_id_helper stops is_klass
optional_id-Moved s r =
    if_cases (λ (a : Option AstSyntaxToken × Parser). Moved s a.1)
      (try_test TokenKlass.identifier s) _ _
      (λ e. (test_step TokenKlass.identifier s (λ d. refl) r e).moved) (λ e. report-Moved s r)

-- Both parentheses of `length()` are consumed.
no_arguments-Moved :
    (t : Parser)
    → IsReady t
    → (try_test TokenKlass.l_paren t && try_test_second TokenKlass.r_paren t) ≡ true
    → Moved t (consume_token (consume_token t))
unfolding stops is_klass
no_arguments-Moved t r e =
    let l = first_true _ _ e in
    let c = test_step TokenKlass.l_paren t (λ d. refl) r l in
    let d =
      test_step TokenKlass.r_paren (consume_token t) (λ d. refl) c.moved.ended.ready
        (next_test TokenKlass.l_paren TokenKlass.r_paren t refl refl l (second_true _ _ e)) in
    Moved-trans t (consume_token t) (consume_token (consume_token t)) c.moved d.moved

module _ (self : Calls) (fuel : ℕ) (fine : IsFine self fuel) where
  postfix_dot-Ends :
      (begin : ℕ) (result : Expr) (name : Option AstSyntaxToken × Parser)
      → IsReady name.1
      → 4 * size name.1 + 1 ≤ fuel
      → Ends name.1 (postfix_dot self begin result name)
  postfix_dot-Ends begin result name r h =
      let t = name.1 in
      let u = consume_token (consume_token t) in
      if_cases (Ends t)
        (is_length name.0
          && (try_test TokenKlass.l_paren t && try_test_second TokenKlass.r_paren t))
        _ _
        (λ e.
          let m : Moved t u = no_arguments-Moved t r (second_true _ _ e) in
          Ends-after t u _ m
            (fine.postfix_loop begin _ u m.ended.ready (omega (arith, m.ended.fewer, h))))
        (λ e. fine.postfix_loop begin _ t r h)

  -- An operator of one token.
  step-Ends :
      (begin : ℕ) (result : Expr) (s t : Parser)
      → Stepped s t
      → 4 * size s + 1 ≤ suc fuel
      → Ends s (self.postfix_loop begin result t)
  step-Ends begin result s t c h =
      Ends-after s t _ c.moved
        (fine.postfix_loop begin result t c.moved.ended.ready (omega (arith, c.one, h)))

  pub postfix_loop-Ends :
      (begin : ℕ) (result : Expr) (s : Parser)
      → IsReady s
      → 4 * size s + 1 ≤ suc fuel
      → Ends s (postfix_loop_body self begin result s)
  unfolding postfix_loop_body stops is_klass
  postfix_loop-Ends begin result s r h = if_both (Ends s) s.recovering _ _ (Moved-refl s r) (
      if_cases (Ends s) (try_test TokenKlass.l_bracket s) _ _
        (λ e.
          Good-bind ⊥ (λ a. Shorter s a.1) (λ a. Moved s a.1)
            (parse_bracket_wrapped_expr self true s) _
            (parse_bracket_wrapped_expr-Good self fuel fine true s r h e)
            (λ a k.
              Ends-after s a.1 _ k.moved
                (fine.postfix_loop begin _ a.1 k.moved.ended.ready (omega (arith, k.shorter, h)))))
        (λ n.
          if_cases (Ends s) (try_test TokenKlass.dot s) _ _
            (λ e.
              let c = test_step TokenKlass.dot s (λ d. refl) r e in
              let t = consume_token s in
              let m = optional_id-Moved t c.moved.ended.ready in
              Ends-after s (parse_optional_decl_id_helper t).1 _
                (Moved-trans s t (parse_optional_decl_id_helper t).1 c.moved m)
                (postfix_dot-Ends begin result (parse_optional_decl_id_helper t) m.ended.ready
                  (omega (arith, c.one, m.ended.fewer, h))))
            (λ n.
              if_cases (Ends s) (try_test TokenKlass.increment s) _ _
                (λ e.
                  step-Ends begin _ s (consume_token s)
                    (test_step TokenKlass.increment s (λ d. refl) r e) h)
                (λ n.
                  if_cases (Ends s) (try_test TokenKlass.decrement s) _ _
                    (λ e.
                      step-Ends begin _ s (consume_token s)
                        (test_step TokenKlass.decrement s (λ d. refl) r e) h)
                    (λ n. Moved-refl s r)))))

  parse_postfix_expr-Ends :
      (is_struct_name : Bytes → Bool) (s : Parser)
      → IsReady s
      → 4 * size s + 2 ≤ suc fuel
      → Ends s (parse_postfix_expr self is_struct_name s)
  unfolding parse_postfix_expr
  parse_postfix_expr-Ends is_struct_name s r h =
      Ends-bind s (parse_postfix_head self is_struct_name s) _
        (parse_postfix_head-Ends self fuel fine is_struct_name s r (omega (arith, h)))
        (λ a m.
          fine.postfix_loop s.token_index a.0 a.1 m.ended.ready (omega (arith, m.ended.fewer, h)))

  unary_at-Ends :
      (s : Parser) (op : Option UnaryOp) (postfix : Parsed Expr)
      → IsReady s
      → 4 * size s + 2 ≤ suc fuel
      → try_parse_prefix_unary_op (peek_klass s) ≡ op
      → Ends s postfix
      → Ends s (unary_at self s op postfix)
  unary_at-Ends s none postfix r h e k = k
  unary_at-Ends s (some op) postfix r h e k =
      let c = consume-Stepped s r (prefix-stop (peek_klass s) s.brace_depth op e) in
      Ends-after s (consume_token s) _ c.moved (
        Ends-bind (consume_token s) (self.unary_expr (consume_token s)) _
          (fine.unary_expr (consume_token s) c.moved.ended.ready (omega (arith, c.one, h)))
          (λ a m. Moved-refl a.1 m.ended.ready))

  pub unary_expr-Ends :
      (is_struct_name : Bytes → Bool) (s : Parser)
      → IsReady s
      → 4 * size s + 2 ≤ suc fuel
      → Ends s (unary_expr_body self (parse_postfix_expr self is_struct_name) s)
  unfolding unary_expr_body
  unary_expr-Ends is_struct_name s r h =
      unary_at-Ends s (try_parse_prefix_unary_op (peek_klass s)) _ r h refl
        (parse_postfix_expr-Ends is_struct_name s r h)
