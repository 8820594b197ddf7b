-- ===== src/Parser/Calls.antt =====
-- The functions of the parser that call each other. What they do is defined over a record of such
-- functions, and `calls` of Parser/Run ties the knot. A loop is such a function too.
use glsld.Prelude.{ℕ, List}
use glsld.Prelude.Outcome.{Result, out_of_fuel}
use glsld.Parser.Tokens.{Parser}
use glsld.Parser.Syntax.{Expr, Exprs, Sizes, LayoutItems, StructFields, Declarators}

abbrev pub Parsed : Type 0 → Type 0
Parsed A = Result (A × Parser)

-- `binary_expr` is the loop of `ParseBinaryExpr`, with the begin of its range, what is parsed so far
-- and the least precedence; `rhs_loop` is the loop in it. `comma_loop` and `postfix_loop` have the
-- begin and what is parsed so far.
pub record Calls : Type 0 where
  pub assignment_expr : Parser → Parsed Expr
  pub unary_expr : Parser → Parsed Expr
  pub binary_expr : ℕ → Expr → ℕ → Parser → Parsed Expr
  pub rhs_loop : ℕ → Expr → ℕ → Parser → Parsed Expr
  pub comma_loop : ℕ → Expr → Parser → Parsed Expr
  pub postfix_loop : ℕ → Expr → Parser → Parsed Expr
  pub argument_loop : ℕ → Parser → Parsed Exprs
  pub size_loop : Parser → Parsed Sizes
  pub layout_loop : ℕ → Parser → Parsed LayoutItems
  pub qualifier_loop : Parser → Parsed (List ℕ × LayoutItems)
  pub struct_loop : Parser → Parsed StructFields
  pub declarator_loop : Parser → Parsed Declarators

abbrev pub no_calls : Calls
no_calls = record {
  assignment_expr = λ s. out_of_fuel;
  unary_expr = λ s. out_of_fuel;
  binary_expr = λ begin lhs min_precedence s. out_of_fuel;
  rhs_loop = λ begin rhs precedence s. out_of_fuel;
  comma_loop = λ begin lhs s. out_of_fuel;
  postfix_loop = λ begin result s. out_of_fuel;
  argument_loop = λ left_paren_depth s. out_of_fuel;
  size_loop = λ s. out_of_fuel;
  layout_loop = λ left_paren_depth s. out_of_fuel;
  qualifier_loop = λ s. out_of_fuel;
  struct_loop = λ s. out_of_fuel;
  declarator_loop = λ s. out_of_fuel;
}
