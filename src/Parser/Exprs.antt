-- ===== src/Parser/Exprs.antt =====
-- Parser.cpp: expressions without the calls and types in them, `ParseExpr` to `ParseUnaryExpr`, and
-- `ParsePrimaryExpr` to `ParseBracketWrappedExpr`.
use glsld.Prelude.{ℕ, ◌+◌, Bool, not, ◌&&◌, Option, none, some, ◌==◌, ltb, if◌then◌else◌}
use glsld.Prelude.Outcome.{done, failed, ◌>>=◌}
use glsld.Token.{TokenKlass}
use glsld.Parser.Tokens.{
  Parser, peek_klass, peek_token, eof, try_test, consume_token, enter_recovery_mode, report_error,
  get_current_token, create_syntax_range, k_true, k_false,
}
use glsld.Parser.Recovery.{parse_closing_paren_helper, parse_closing_bracket_helper}
use glsld.Parser.Syntax.{
  Expr, BinaryOp, UnaryOp, error_expr, literal_expr, name_access_expr, unary_expr, binary_expr,
  select_expr, number, boolean_true, boolean_false, expr_range,
}
use glsld.Parser.Operators.{
  BinaryOpDesc, try_parse_assignment_op, try_parse_binary_op, try_parse_prefix_unary_op,
}
use glsld.Parser.Calls.{Parsed, Calls}

-- `CreateErrorExpr()`.
abbrev pub create_error_expr : Parser → Expr
create_error_expr s = error_expr (create_syntax_range s.token_index s)

module _ (self : Calls) where
  -- `ParseConditionalExpr`, behind the predicate.
  unfoldable pub parse_false_expr : ℕ → Expr → Expr × Parser → Parsed Expr
  unfolding try_test consume_token
  parse_false_expr begin predicate true_expr =
      let s = true_expr.1 in
      if not (try_test TokenKlass.colon s) && s.recovering
      then done
          (select_expr (create_syntax_range begin s) predicate true_expr.0 (create_error_expr s), s)
      else (self.assignment_expr
            (if try_test TokenKlass.colon s then consume_token s else report_error s)
          >>= λ false_expr. done (
            select_expr (create_syntax_range begin false_expr.1) predicate true_expr.0 false_expr.0,
            false_expr.1,
          ))

  -- `ParseCommaExpr`.
  abbrev pub parse_comma_expr : Parser → Parsed Expr
  parse_comma_expr s = self.assignment_expr s >>= λ r. self.comma_loop s.token_index r.0 r.1

  unfoldable pub comma_loop_body : ℕ → Expr → Parser → Parsed Expr
  unfolding try_test consume_token
  comma_loop_body begin lhs s =
      if try_test TokenKlass.comma s
      then (self.assignment_expr (consume_token s) >>= λ r.
          self.comma_loop begin (binary_expr (create_syntax_range begin r.1) lhs r.0 BinaryOp.comma)
            r.1)
      else done (lhs, s)

  -- `ParseExpr`: without progress the parser enters the recovery mode.
  unfoldable pub parse_expr : Parser → Parsed Expr
  parse_expr s = parse_comma_expr s >>= λ r.
      done (r.0, if r.1.token_index == s.token_index then enter_recovery_mode r.1 else r.1)

  -- `ParseExprNoComma`, likewise.
  unfoldable pub parse_expr_no_comma : Parser → Parsed Expr
  parse_expr_no_comma s = self.assignment_expr s >>= λ r.
      done (r.0, if r.1.token_index == s.token_index then enter_recovery_mode r.1 else r.1)

  unfoldable pub parse_conditional_expr : ℕ → Expr → Parser → Parsed Expr
  unfolding try_test consume_token parse_false_expr
  parse_conditional_expr begin first_term s = self.binary_expr begin first_term 0 s >>= λ predicate.
      if try_test TokenKlass.question predicate.1
      then (parse_comma_expr (consume_token predicate.1) >>= λ true_expr.
          parse_false_expr begin predicate.0 true_expr)
      else done predicate

  abbrev pub parse_assignment_of : Expr → Parser → Option BinaryOp → Parsed Expr
  parse_assignment_of lhs s none = parse_conditional_expr (expr_range lhs).begin_id lhs s
  parse_assignment_of lhs s (some op) =
      if (consume_token s).recovering
      then failed
      else (self.assignment_expr (consume_token s) >>= λ rhs.
          done
            (binary_expr (create_syntax_range (expr_range lhs).begin_id rhs.1) lhs rhs.0 op, rhs.1))

  -- `ParseAssignmentExprWithLhs`, which asserts the parsing mode behind an operator.
  unfoldable pub parse_assignment_expr_with_lhs : Expr → Parser → Parsed Expr
  unfolding parse_conditional_expr consume_token try_parse_assignment_op
  parse_assignment_expr_with_lhs lhs s =
      parse_assignment_of lhs s (try_parse_assignment_op (peek_klass s))

  -- `ParseAssignmentExpr`.
  unfoldable pub parse_assignment_expr : Parser → Parsed Expr
  unfolding parse_assignment_expr_with_lhs
  parse_assignment_expr s = self.unary_expr s >>= λ r. parse_assignment_expr_with_lhs r.0 r.1

  abbrev pub binary_at : ℕ → Expr → ℕ → Parser → Option BinaryOpDesc → Parsed Expr
  binary_at begin lhs min_precedence s none = done (lhs, s)
  binary_at begin lhs min_precedence s (some op) =
      if ltb op.precedence min_precedence
      then done (lhs, s)
      else (self.unary_expr (consume_token s) >>= λ r.
          self.rhs_loop (consume_token s).token_index r.0 op.precedence r.1 >>= λ rhs.
          self.binary_expr begin (binary_expr (create_syntax_range begin rhs.1) lhs rhs.0 op.opcode)
            min_precedence rhs.1)

  -- `ParseBinaryExpr`.
  unfoldable pub binary_expr_body : ℕ → Expr → ℕ → Parser → Parsed Expr
  unfolding consume_token try_parse_binary_op try_test
  binary_expr_body begin lhs min_precedence s =
      if eof s
      then done (lhs, s)
      else if s.recovering
      then done (lhs, s)
      else binary_at begin lhs min_precedence s (try_parse_binary_op (peek_klass s))

  abbrev pub rhs_at : ℕ → Expr → ℕ → Parser → Option BinaryOpDesc → Parsed Expr
  rhs_at begin rhs precedence s none = done (rhs, s)
  rhs_at begin rhs precedence s (some op) =
      if ltb precedence op.precedence
      then (self.binary_expr begin rhs (precedence + 1) s >>= λ r.
          self.rhs_loop begin r.0 precedence r.1)
      else done (rhs, s)

  unfoldable pub rhs_loop_body : ℕ → Expr → ℕ → Parser → Parsed Expr
  unfolding try_parse_binary_op try_test
  rhs_loop_body begin rhs precedence s =
      if eof s
      then done (rhs, s)
      else rhs_at begin rhs precedence s (try_parse_binary_op (peek_klass s))

  abbrev pub paren_content : Parser → Parsed Expr
  paren_content t =
      if try_test TokenKlass.r_paren t then done (create_error_expr t, t) else parse_expr t

  -- `ParseParenWrappedExpr`, with its guard.
  unfoldable pub parse_paren_wrapped_expr : Parser → Parsed Expr
  unfolding try_test consume_token parse_expr parse_closing_paren_helper
  parse_paren_wrapped_expr s =
      if not (try_test TokenKlass.l_paren s)
      then failed
      else let t = consume_token s in
        (paren_content t >>= λ r.
        parse_closing_paren_helper t.paren_depth r.1 >>= λ u. done (r.0, u))

  abbrev pub bracket_content : Bool → Parser → Parsed (Option Expr)
  bracket_content empty_is_error t =
      if try_test TokenKlass.r_bracket t
      then done (if empty_is_error then some (create_error_expr t) else none, t)
      else (parse_expr t >>= λ r. done (some r.0, r.1))

  -- `ParseBracketWrappedExpr`, with its guard. None is the missing size of `[]`.
  unfoldable pub parse_bracket_wrapped_expr : Bool → Parser → Parsed (Option Expr)
  unfolding try_test consume_token parse_expr parse_closing_bracket_helper
  parse_bracket_wrapped_expr empty_is_error s =
      if not (try_test TokenKlass.l_bracket s)
      then failed
      else let t = consume_token s in
        (bracket_content empty_is_error t >>= λ r.
        parse_closing_bracket_helper t.bracket_depth r.1 >>= λ u. done (r.0, u))

  -- `ParsePrimaryExpr`.
  unfoldable pub parse_primary_expr : Parser → Parsed Expr
  unfolding try_test consume_token parse_paren_wrapped_expr
  parse_primary_expr s =
      let t = consume_token s in
      let r = create_syntax_range s.token_index t in
      if try_test TokenKlass.identifier s
      then done (name_access_expr r (get_current_token s), t)
      else if try_test TokenKlass.number_literal s
      then done (literal_expr r (number (peek_token s).text), t)
      else if try_test k_true s
      then done (literal_expr r boolean_true, t)
      else if try_test k_false s
      then done (literal_expr r boolean_false, t)
      else if try_test TokenKlass.l_paren s
      then parse_paren_wrapped_expr s
      else done (create_error_expr (report_error s), report_error s)

  abbrev pub unary_at : Parser → Option UnaryOp → Parsed Expr → Parsed Expr
  unary_at s none postfix = postfix
  unary_at s (some op) postfix = self.unary_expr (consume_token s) >>= λ r.
      done (unary_expr (create_syntax_range s.token_index r.1) r.0 op, r.1)

  -- `ParseUnaryExpr`, with what `ParsePostfixExpr(nullptr)` does.
  unfoldable pub unary_expr_body : (Parser → Parsed Expr) → Parser → Parsed Expr
  unfolding consume_token try_parse_prefix_unary_op
  unary_expr_body parse_postfix_expr s =
      unary_at s (try_parse_prefix_unary_op (peek_klass s)) (parse_postfix_expr s)
