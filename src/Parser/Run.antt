-- ===== src/Parser/Run.antt =====
-- The functions of Parser.cpp that are defined over `Calls`, with themselves for the calls in them. The
-- fuel bounds how deep the calls and the turns of the loops are nested.
use glsld.Prelude.{ℕ, zero, suc, Bool}
use glsld.Token.{Bytes}
use glsld.Parser.Tokens.{Parser}
use glsld.Parser.Syntax.{Expr}
use glsld.Parser.Calls.{Parsed, Calls, no_calls}
use glsld.Parser.Exprs.{
  parse_assignment_expr, unary_expr_body, binary_expr_body, rhs_loop_body, comma_loop_body,
  parse_expr,
}
use glsld.Parser.Qualifiers.{layout_loop_body, qualifier_loop_body}
use glsld.Parser.Types.{size_loop_body, struct_loop_body, declarator_loop_body}
use glsld.Parser.Postfix.{postfix_loop_body, argument_loop_body, parse_postfix_expr}

-- `is_struct_name` is `AstBuilder::IsStructName`, which no function here changes.
abbrev pub bodies : (Bytes → Bool) → Calls → Calls
bodies is_struct_name self = record {
  assignment_expr = parse_assignment_expr self;
  unary_expr = unary_expr_body self (parse_postfix_expr self is_struct_name);
  binary_expr = binary_expr_body self;
  rhs_loop = rhs_loop_body self;
  comma_loop = comma_loop_body self;
  postfix_loop = postfix_loop_body self;
  argument_loop = argument_loop_body self;
  size_loop = size_loop_body self;
  layout_loop = layout_loop_body self;
  qualifier_loop = qualifier_loop_body self;
  struct_loop = struct_loop_body self;
  declarator_loop = declarator_loop_body self;
}

unfoldable pub calls : (Bytes → Bool) → ℕ → Calls
unfolding parse_assignment_expr unary_expr_body parse_postfix_expr binary_expr_body rhs_loop_body
    comma_loop_body postfix_loop_body argument_loop_body size_loop_body layout_loop_body
    qualifier_loop_body struct_loop_body declarator_loop_body
calls is_struct_name zero = no_calls
calls is_struct_name (suc fuel) = bodies is_struct_name (calls is_struct_name fuel)

-- `ParseExpr` with the fuel.
unfoldable pub parse : (Bytes → Bool) → ℕ → Parser → Parsed Expr
unfolding calls parse_expr
parse is_struct_name fuel s = parse_expr (calls is_struct_name fuel) s
