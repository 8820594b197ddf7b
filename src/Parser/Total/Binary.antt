-- ===== src/Parser/Total/Binary.antt =====
-- `ParseBinaryExpr` and the loop in it keep the promises.
use glsld.Prelude.{
  ℕ, suc, ◌+◌, ◌*◌, ◌≤◌, ◌<◌, ◌≡◌, refl, sym, ◌∙◌, true, false, Option, none, some, ltb, arith,
  if_cases,
}
use glsld.Prelude.Outcome.{done, failed, out_of_fuel, Good, Good-bind, ◌>>=◌}
use glsld.Parser.Tokens.{Parser, peek_klass, eof, consume_token, create_syntax_range}
use glsld.Parser.Syntax.{Expr}
use glsld.Parser.Operators.{BinaryOpDesc, try_parse_binary_op}
use glsld.Parser.Calls.{Parsed, Calls}
use glsld.Parser.Exprs.{binary_at, binary_expr_body, rhs_at, rhs_loop_body}
use glsld.Parser.Total.Ready.{
  size, IsReady, Moved, Moved-refl, Moved-trans, Stepped, parses, consume-Stepped, differ,
  binary-stop,
}
use glsld.Parser.Total.Infix.{binary_expr-Ends}
use glsld.Parser.Total.Fine.{Ends, Ends-after, Ends-bind, BinaryEnded, IsFine}

module _ (self : Calls) (fuel : ℕ) (fine : IsFine self fuel) where
  -- An operator in the loop of `ParseBinaryExpr`, with the operand behind it.
  operator-Ends :
      (begin : ℕ) (lhs : Expr) (min_precedence : ℕ) (s t : Parser) (op : BinaryOpDesc)
      → Stepped s t
      → 4 * size s + 1 ≤ suc fuel
      → Ends t (
          self.unary_expr t >>= λ r. self.rhs_loop t.token_index r.0 op.precedence r.1 >>= λ rhs.
          self.binary_expr begin
            (Expr.binary_expr (create_syntax_range begin rhs.1) lhs rhs.0 op.opcode)
            min_precedence
            rhs.1)
  operator-Ends begin lhs min_precedence s t op c h =
      Ends-bind t (self.unary_expr t) _
        (fine.unary_expr t c.moved.ended.ready (omega (arith, c.one, h)))
        (λ a m.
          Ends-bind a.1 (self.rhs_loop t.token_index a.0 op.precedence a.1) _
            (fine.rhs_loop t.token_index a.0 op.precedence a.1 m.ended.ready
              (omega (arith, c.one, m.ended.fewer, h)))
            (λ b n.
              binary_expr-Ends self fuel fine begin _ min_precedence b.1 n.ended.ready
                (omega (arith, c.one, m.ended.fewer, n.ended.fewer, h))))

  progress :
      (min_precedence : ℕ) (s t : Parser) (m : Parsed Expr)
      → Stepped s t
      → Ends t m
      → Good ⊥ (λ r. BinaryEnded min_precedence s r.1) m
  progress min_precedence s t (done a) c k = record {
    moved = Moved-trans s t a.1 c.moved k;
    consumed = λ op p e o l. omega (arith, c.one, k.ended.fewer);
  }
  progress min_precedence s t failed c k = k
  progress min_precedence s t out_of_fuel c k = k

  binary_at-Good :
      (begin : ℕ) (lhs : Expr) (min_precedence : ℕ) (s : Parser) (o : Option BinaryOpDesc)
      → IsReady s
      → 4 * size s + 1 ≤ suc fuel
      → try_parse_binary_op (peek_klass s) ≡ o
      → Good ⊥ (λ r. BinaryEnded min_precedence s r.1) (binary_at self begin lhs min_precedence s o)
  binary_at-Good begin lhs min_precedence s none r h e = record {
    moved = Moved-refl s r;
    consumed = λ op p n o l. absurd (missing op (sym e ∙ o));
  }
    where
      missing : (op : BinaryOpDesc) → none ≡ some op → ⊥
      missing op h = cc
  binary_at-Good begin lhs min_precedence s (some op) r h e =
      if_cases (Good ⊥ (λ r. BinaryEnded min_precedence s r.1)) (ltb op.precedence min_precedence) _
        _
        (λ b. record {
          moved = Moved-refl s r;
          consumed = λ op' p n o l. absurd (other op op' (sym e ∙ o) b l);
        })
        (λ b.
          let c = consume-Stepped s r (binary-stop (peek_klass s) s.brace_depth op e) in
          progress min_precedence s (consume_token s) _ c
            (operator-Ends begin lhs min_precedence s (consume_token s) op c h))
    where
      other :
          (a b : BinaryOpDesc)
          → some a ≡ some b
          → ltb a.precedence min_precedence ≡ true
          → ltb b.precedence min_precedence ≡ false
          → ⊥
      other a b e h k = cc

  pub binary_expr-Good :
      (begin : ℕ) (lhs : Expr) (min_precedence : ℕ) (s : Parser)
      → IsReady s
      → 4 * size s + 1 ≤ suc fuel
      → Good ⊥
          (λ r. BinaryEnded min_precedence s r.1)
          (binary_expr_body self begin lhs min_precedence s)
  unfolding binary_expr_body
  binary_expr-Good begin lhs min_precedence s r h =
      if_cases (Good ⊥ (λ r. BinaryEnded min_precedence s r.1)) (eof s) _ _
        (λ e. record { moved = Moved-refl s r; consumed = λ op p n o l. absurd (differ e n) })
        (λ e.
          if_cases (Good ⊥ (λ r. BinaryEnded min_precedence s r.1)) s.recovering _ _
            (λ p. record { moved = Moved-refl s r; consumed = λ op n e o l. absurd (differ p n) })
            (λ p.
              binary_at-Good begin lhs min_precedence s (try_parse_binary_op (peek_klass s)) r h
                refl))

  rhs_at-Ends :
      (begin : ℕ) (rhs : Expr) (precedence : ℕ) (s : Parser) (o : Option BinaryOpDesc)
      → IsReady s
      → 4 * size s + 2 ≤ suc fuel
      → eof s ≡ false
      → try_parse_binary_op (peek_klass s) ≡ o
      → Ends s (rhs_at self begin rhs precedence s o)
  rhs_at-Ends begin rhs precedence s none r h n e = Moved-refl s r
  rhs_at-Ends begin rhs precedence s (some op) r h n e =
      if_cases (Ends s) (ltb precedence op.precedence) _ _
        (λ b.
          let p = parses s r (binary-stop (peek_klass s) s.brace_depth op e) in
          Good-bind ⊥ (λ r. BinaryEnded (precedence + 1) s r.1) (λ r. Moved s r.1)
            (self.binary_expr begin rhs (precedence + 1) s) _
            (fine.binary_expr begin rhs (precedence + 1) s r (omega (arith, h)))
            (λ a m.
              let less : size a.1 < size s = m.consumed op p n e (ground (arith, b)) in
              Ends-after s a.1 _ m.moved (
                fine.rhs_loop begin a.0 precedence a.1 m.moved.ended.ready
                  (omega (arith, less, h)))))
        (λ b. Moved-refl s r)

  pub rhs_loop-Ends :
      (begin : ℕ) (rhs : Expr) (precedence : ℕ) (s : Parser)
      → IsReady s
      → 4 * size s + 2 ≤ suc fuel
      → Ends s (rhs_loop_body self begin rhs precedence s)
  unfolding rhs_loop_body
  rhs_loop-Ends begin rhs precedence s r h =
      if_cases (Ends s) (eof s) _ _ (λ e. Moved-refl s r)
        (λ e. rhs_at-Ends begin rhs precedence s (try_parse_binary_op (peek_klass s)) r h e refl)
