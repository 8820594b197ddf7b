-- ===== src/Parser/Growth/Bodies.antt =====
-- The bodies of the functions grow with the functions that they call.
use glsld.Prelude.{Bool, not, ◌&&◌, ℕ, ◌+◌, ltb, Option, none, some}
use glsld.Token.{TokenKlass}
use glsld.Parser.Tokens.{Parser, consume_token, eof, try_test, peek_klass, k_true, k_false}
use glsld.Parser.Syntax.{Expr, BinaryOp, UnaryOp}
use glsld.Parser.Operators.{
  BinaryOpDesc, try_parse_assignment_op, try_parse_binary_op, try_parse_prefix_unary_op,
}
use glsld.Parser.Calls.{Calls, Parsed}
use glsld.Parser.Exprs
use glsld.Parser.Growth.{Grows, Grows-refl, Grows-bind, Grows-if, Grow}

module _ (self self' : Calls) (g : Grow self self') where
  pub comma_expr :
      (s : Parser) → Grows (Exprs.parse_comma_expr self s) (Exprs.parse_comma_expr self' s)
  comma_expr s = Grows-bind _ _ _ _ (g.assignment_expr s) (λ a. g.comma_loop s.token_index a.0 a.1)

  pub comma_loop :
      (begin : ℕ) (lhs : Expr) (s : Parser)
      → Grows (Exprs.comma_loop_body self begin lhs s) (Exprs.comma_loop_body self' begin lhs s)
  unfolding Exprs.comma_loop_body
  comma_loop begin lhs s =
      Grows-if (try_test TokenKlass.comma s) _ _ _ _
        (Grows-bind _ _ _ _ (g.assignment_expr (consume_token s)) (λ a. g.comma_loop begin _ a.1))
        (Grows-refl _)

  pub expr : (s : Parser) → Grows (Exprs.parse_expr self s) (Exprs.parse_expr self' s)
  unfolding Exprs.parse_expr
  expr s = Grows-bind _ _ _ _ (comma_expr s) (λ a. Grows-refl _)

  pub expr_no_comma :
      (s : Parser) → Grows (Exprs.parse_expr_no_comma self s) (Exprs.parse_expr_no_comma self' s)
  unfolding Exprs.parse_expr_no_comma
  expr_no_comma s = Grows-bind _ _ _ _ (g.assignment_expr s) (λ a. Grows-refl _)

  false_expr :
      (begin : ℕ) (p : Expr) (t : Expr × Parser)
      → Grows (Exprs.parse_false_expr self begin p t) (Exprs.parse_false_expr self' begin p t)
  unfolding Exprs.parse_false_expr
  false_expr begin p t =
      Grows-if (not (try_test TokenKlass.colon t.1) && t.1.recovering) _ _ _ _ (Grows-refl _)
        (Grows-bind _ _ _ _ (g.assignment_expr _) (λ a. Grows-refl _))

  conditional_expr :
      (begin : ℕ) (e : Expr) (s : Parser)
      → Grows
          (Exprs.parse_conditional_expr self begin e s)
          (Exprs.parse_conditional_expr self' begin e s)
  unfolding Exprs.parse_conditional_expr
  conditional_expr begin e s = Grows-bind _ _ _ _ (g.binary_expr begin e 0 s) (λ p.
      Grows-if (try_test TokenKlass.question p.1) _ _ _ _
        (Grows-bind _ _ _ _ (comma_expr (consume_token p.1)) (λ t. false_expr begin p.0 t))
        (Grows-refl _))

  assignment_of :
      (lhs : Expr) (s : Parser) (o : Option BinaryOp)
      → Grows (Exprs.parse_assignment_of self lhs s o) (Exprs.parse_assignment_of self' lhs s o)
  assignment_of lhs s none = conditional_expr _ lhs s
  assignment_of lhs s (some op) =
      Grows-if (consume_token s).recovering _ _ _ _ (Grows-refl _)
        (Grows-bind _ _ _ _ (g.assignment_expr (consume_token s)) (λ a. Grows-refl _))

  pub assignment_expr :
      (s : Parser)
      → Grows (Exprs.parse_assignment_expr self s) (Exprs.parse_assignment_expr self' s)
  unfolding Exprs.parse_assignment_expr Exprs.parse_assignment_expr_with_lhs
  assignment_expr s =
      Grows-bind _ _ _ _ (g.unary_expr s)
        (λ a. assignment_of a.0 a.1 (try_parse_assignment_op (peek_klass a.1)))

  binary_at :
      (begin : ℕ) (lhs : Expr) (p : ℕ) (s : Parser) (o : Option BinaryOpDesc)
      → Grows (Exprs.binary_at self begin lhs p s o) (Exprs.binary_at self' begin lhs p s o)
  binary_at begin lhs p s none = Grows-refl _
  binary_at begin lhs p s (some op) = Grows-if (ltb op.precedence p) _ _ _ _ (Grows-refl _) (
      Grows-bind _ _ _ _ (g.unary_expr (consume_token s)) (λ a.
        Grows-bind _ _ _ _ (g.rhs_loop (consume_token s).token_index a.0 op.precedence a.1)
          (λ b. g.binary_expr begin _ p b.1)))

  pub binary_expr :
      (begin : ℕ) (lhs : Expr) (p : ℕ) (s : Parser)
      → Grows
          (Exprs.binary_expr_body self begin lhs p s)
          (Exprs.binary_expr_body self' begin lhs p s)
  unfolding Exprs.binary_expr_body
  binary_expr begin lhs p s = Grows-if (eof s) _ _ _ _ (Grows-refl _) (
      Grows-if s.recovering _ _ _ _ (Grows-refl _)
        (binary_at begin lhs p s (try_parse_binary_op (peek_klass s))))

  rhs_at :
      (begin : ℕ) (rhs : Expr) (p : ℕ) (s : Parser) (o : Option BinaryOpDesc)
      → Grows (Exprs.rhs_at self begin rhs p s o) (Exprs.rhs_at self' begin rhs p s o)
  rhs_at begin rhs p s none = Grows-refl _
  rhs_at begin rhs p s (some op) =
      Grows-if (ltb p op.precedence) _ _ _ _
        (Grows-bind _ _ _ _ (g.binary_expr begin rhs (p + 1) s) (λ a. g.rhs_loop begin a.0 p a.1))
        (Grows-refl _)

  pub rhs_loop :
      (begin : ℕ) (rhs : Expr) (p : ℕ) (s : Parser)
      → Grows (Exprs.rhs_loop_body self begin rhs p s) (Exprs.rhs_loop_body self' begin rhs p s)
  unfolding Exprs.rhs_loop_body
  rhs_loop begin rhs p s =
      Grows-if (eof s) _ _ _ _ (Grows-refl _)
        (rhs_at begin rhs p s (try_parse_binary_op (peek_klass s)))

  paren_wrapped :
      (s : Parser)
      → Grows (Exprs.parse_paren_wrapped_expr self s) (Exprs.parse_paren_wrapped_expr self' s)
  unfolding Exprs.parse_paren_wrapped_expr
  paren_wrapped s =
      let t = consume_token s in
      Grows-if (not (try_test TokenKlass.l_paren s)) _ _ _ _ (Grows-refl _) (
        Grows-bind _ _ _ _
          (Grows-if (try_test TokenKlass.r_paren t) _ _ _ _ (Grows-refl _) (expr t))
          (λ a. Grows-refl _))

  pub bracket_wrapped :
      (b : Bool) (s : Parser)
      → Grows
          (Exprs.parse_bracket_wrapped_expr self b s)
          (Exprs.parse_bracket_wrapped_expr self' b s)
  unfolding Exprs.parse_bracket_wrapped_expr
  bracket_wrapped b s =
      let t = consume_token s in
      Grows-if (not (try_test TokenKlass.l_bracket s)) _ _ _ _ (Grows-refl _) (
        Grows-bind _ _ _ _
          (Grows-if (try_test TokenKlass.r_bracket t) _ _ _ _ (Grows-refl _)
            (Grows-bind _ _ _ _ (expr t) (λ a. Grows-refl _)))
          (λ a. Grows-refl _))

  pub primary_expr :
      (s : Parser) → Grows (Exprs.parse_primary_expr self s) (Exprs.parse_primary_expr self' s)
  unfolding Exprs.parse_primary_expr
  primary_expr s = Grows-if (try_test TokenKlass.identifier s) _ _ _ _ (Grows-refl _) (
      Grows-if (try_test TokenKlass.number_literal s) _ _ _ _ (Grows-refl _) (
        Grows-if (try_test k_true s) _ _ _ _ (Grows-refl _) (
          Grows-if (try_test k_false s) _ _ _ _ (Grows-refl _)
            (Grows-if (try_test TokenKlass.l_paren s) _ _ _ _ (paren_wrapped s) (Grows-refl _)))))

  unary_at :
      (s : Parser) (o : Option UnaryOp) (m n : Parsed Expr)
      → Grows m n
      → Grows (Exprs.unary_at self s o m) (Exprs.unary_at self' s o n)
  unary_at s none m n h = h
  unary_at s (some op) m n h =
      Grows-bind _ _ _ _ (g.unary_expr (consume_token s)) (λ a. Grows-refl _)

  pub unary_expr :
      (p q : Parser → Parsed Expr) (s : Parser)
      → Grows (p s) (q s)
      → Grows (Exprs.unary_expr_body self p s) (Exprs.unary_expr_body self' q s)
  unfolding Exprs.unary_expr_body
  unary_expr p q s h = unary_at s (try_parse_prefix_unary_op (peek_klass s)) (p s) (q s) h
