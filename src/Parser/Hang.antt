-- ===== src/Parser/Hang.antt =====
-- The loop of `ParseBinaryExpr` behind its right operand, in the recovery mode.
use glsld.Prelude.{ℕ, zero, suc, ◌+◌, ◌≡◌, refl, Bool, true, false, List, [], ◌∷◌, none, some, ltb}
use glsld.Prelude.Outcome.{done, out_of_fuel}
use glsld.Token.{TokenKlass, Bytes, is_klass}
use glsld.Parser.Tokens.{
  Parser, RawSyntaxToken, peek_klass, eof, try_test, try_test_second, consume_token,
  enter_recovery_mode, report_error, k_struct,
}
use glsld.Parser.Syntax.{Expr, BinaryOp, expr_range}
use glsld.Parser.Calls.{Calls}
use glsld.Parser.Operators.{BinaryOpDesc, try_parse_binary_op, try_parse_assignment_op}
use glsld.Parser.Exprs.{
  parse_assignment_expr, unary_expr_body, binary_at, binary_expr_body, rhs_loop_body,
  parse_assignment_expr_with_lhs, parse_conditional_expr, parse_expr,
}
use glsld.Parser.Types.{parse_type_spec, parse_struct_definition, parse_optional_array_spec}
use glsld.Parser.Postfix.{
  parse_postfix_expr, parse_postfix_head, parse_constructor_call_expr, postfix_loop_body,
}
use glsld.Parser.Run.{calls, parse}

-- In the recovery mode `ParseBinaryExpr` returns at once.
binary_expr_stays :
    (is_struct_name : Bytes → Bool) (fuel begin : ℕ) (lhs : Expr) (precedence : ℕ) (s : Parser)
    → s.recovering ≡ true
    → eof s ≡ false
    → (calls is_struct_name (suc fuel)).binary_expr begin lhs precedence s ≡ done (lhs, s)
unfolding calls binary_expr_body
binary_expr_stays is_struct_name fuel begin lhs precedence s p e = rw (e, p) refl

-- In the recovery mode, before an operator that binds tighter than the one that was consumed, the loop
-- for the right operand never ends: whatever the fuel, it is used up.
pub rhs_loop_hangs :
    (is_struct_name : Bytes → Bool) (fuel begin : ℕ) (rhs : Expr) (precedence : ℕ) (s : Parser)
    (op : BinaryOpDesc)
    → s.recovering ≡ true
    → eof s ≡ false
    → try_parse_binary_op (peek_klass s) ≡ some op
    → ltb precedence op.precedence ≡ true
    → (calls is_struct_name fuel).rhs_loop begin rhs precedence s ≡ out_of_fuel
unfolding calls rhs_loop_body
rhs_loop_hangs is_struct_name zero begin rhs precedence s op p e o l = refl
rhs_loop_hangs is_struct_name (suc zero) begin rhs precedence s op p e o l = rw (e, o, l) refl
rhs_loop_hangs is_struct_name (suc (suc fuel)) begin rhs precedence s op p e o l =
    rw (e, o, l, binary_expr_stays is_struct_name fuel begin rhs (precedence + 1) s p e)
      (rhs_loop_hangs is_struct_name (suc fuel) begin rhs precedence s op p e o l)

abbrev token : TokenKlass → RawSyntaxToken
token k = record { klass = k; text = [] }

-- `a + struct * ...` in the parsing mode.
abbrev pub sum_of_struct : List RawSyntaxToken → Parser
sum_of_struct rest = record {
  tokens =
      record { klass = TokenKlass.identifier; text = 97 ∷ [] }
      ∷ token TokenKlass.plus
      ∷ token k_struct
      ∷ token TokenKlass.star
      ∷ rest;
  token_index = 0;
  recovering = false;
  paren_depth = 0;
  bracket_depth = 0;
  brace_depth = 0;
  ilist_brace_depth = 0;
  errors = 0;
}

abbrev behind_name : List RawSyntaxToken → Parser
behind_name rest = consume_token (sum_of_struct rest)

name_parsed :
    (fuel : ℕ) (rest : List RawSyntaxToken)
    → (e : Expr) × ((calls (λ name. false) (suc (suc fuel))).unary_expr (sum_of_struct rest)
        ≡ done (e, behind_name rest))
unfolding calls unary_expr_body parse_postfix_expr parse_postfix_head postfix_loop_body try_test
    try_test_second is_klass consume_token
name_parsed fuel rest = (_, refl)

abbrev behind_plus : List RawSyntaxToken → Parser
behind_plus rest = consume_token (behind_name rest)

abbrev behind_struct : List RawSyntaxToken → Parser
behind_struct rest = report_error (enter_recovery_mode (consume_token (behind_plus rest)))

struct_parsed :
    (fuel : ℕ) (rest : List RawSyntaxToken)
    → (e : Expr) × ((calls (λ name. false) (suc (suc fuel))).unary_expr (behind_plus rest)
        ≡ done (e, behind_struct rest))
unfolding calls unary_expr_body parse_postfix_expr parse_postfix_head postfix_loop_body
    parse_type_spec parse_struct_definition parse_optional_array_spec parse_constructor_call_expr
    try_test try_test_second is_klass consume_token
struct_parsed fuel rest = (_, refl)

-- What is used up in a call is used up in the function that calls.
module _ (self : Calls) where
  operator_hangs :
      (begin : ℕ) (lhs : Expr) (s : Parser) (op : BinaryOpDesc) (r : Expr × Parser)
      → ltb op.precedence 0 ≡ false
      → self.unary_expr (consume_token s) ≡ done r
      → self.rhs_loop (consume_token s).token_index r.0 op.precedence r.1 ≡ out_of_fuel
      → binary_at self begin lhs 0 s (some op) ≡ out_of_fuel
  operator_hangs begin lhs s op r l u h = rw (l, u, h) refl

  assignment_hangs :
      (s : Parser) (r : Expr × Parser)
      → self.unary_expr s ≡ done r
      → try_parse_assignment_op (peek_klass r.1) ≡ none
      → self.binary_expr (expr_range r.0).begin_id r.0 0 r.1 ≡ out_of_fuel
      → parse_assignment_expr self s ≡ out_of_fuel
  unfolding parse_assignment_expr parse_assignment_expr_with_lhs parse_conditional_expr
  assignment_hangs s r u o h = rw (u, o, h) refl

  expr_hangs : (s : Parser) → self.assignment_expr s ≡ out_of_fuel → parse_expr self s ≡ out_of_fuel
  unfolding parse_expr
  expr_hangs s h = rw h refl

sum_hangs :
    (fuel begin : ℕ) (lhs : Expr) (rest : List RawSyntaxToken)
    → (calls (λ name. false) (suc (suc (suc fuel)))).binary_expr begin lhs 0 (behind_name rest)
      ≡ out_of_fuel
unfolding calls binary_expr_body try_test is_klass consume_token try_parse_binary_op
sum_hangs fuel begin lhs rest =
    let r = struct_parsed fuel rest in
    operator_hangs (calls (λ name. false) (suc (suc fuel))) begin lhs (behind_name rest)
      (record { opcode = BinaryOp.plus; precedence = 9 }) (r.0, behind_struct rest) refl r.1
      (rhs_loop_hangs (λ name. false) (suc (suc fuel)) 2 r.0 9 (behind_struct rest)
        (record { opcode = BinaryOp.mul; precedence = 10 }) refl refl refl refl)

-- On an expression that begins `a + struct *`, `ParseExpr` does not return: whatever tokens follow, and
-- however much fuel it has, all of it is used up.
pub parse_hangs :
    (fuel : ℕ) (rest : List RawSyntaxToken)
    → parse (λ name. false) fuel (sum_of_struct rest) ≡ out_of_fuel
unfolding parse parse_expr calls try_parse_assignment_op consume_token try_test is_klass
parse_hangs zero rest = refl
parse_hangs (suc zero) rest = refl
parse_hangs (suc (suc zero)) rest = refl
parse_hangs (suc (suc (suc zero))) rest = refl
parse_hangs (suc (suc (suc (suc fuel)))) rest =
    let self = calls (λ name. false) (suc (suc (suc fuel))) in
    let r = name_parsed (suc fuel) rest in
    expr_hangs (calls (λ name. false) (suc (suc (suc (suc fuel))))) (sum_of_struct rest) (
      assignment_hangs self (sum_of_struct rest) (r.0, behind_name rest) r.1 refl
        (sum_hangs fuel (expr_range r.0).begin_id r.0 rest))
