-- ===== src/Parser/Total/Knot.antt =====
-- Every function of expressions ends on every sequence of tokens without `struct`.
use glsld.Prelude.{ℕ, zero, suc, ◌+◌, ◌*◌, ◌≤◌, ◌≡◌, refl, Bool, arith}
use glsld.Prelude.Outcome.{done, failed, out_of_fuel, Good}
use glsld.Token.{Bytes}
use glsld.Parser.Tokens.{Parser}
use glsld.Parser.Syntax.{Expr}
use glsld.Parser.Calls.{Parsed}
use glsld.Parser.Growth.Fuel.{parse_more}
use glsld.Parser.Run.{calls, parse}
use glsld.Parser.Total.Ready.{size, IsReady}
use glsld.Parser.Total.Fine.{IsFine, Tried, parse_expr-Tried}
use glsld.Parser.Total.Infix.{comma_loop-Ends, parse_assignment_expr-Ends}
use glsld.Parser.Total.Binary.{binary_expr-Good, rhs_loop-Ends}
use glsld.Parser.Total.Wrapped.{size_loop-Ends}
use glsld.Parser.Total.Operands.{argument_loop-Ends}
use glsld.Parser.Total.Unary.{postfix_loop-Ends, unary_expr-Ends}

pub calls-IsFine :
    (is_struct_name : Bytes → Bool) (fuel : ℕ) → IsFine (calls is_struct_name fuel) fuel
unfolding calls
calls-IsFine is_struct_name zero = record {
  assignment_expr = λ s r h. absurd (omega (arith, h));
  unary_expr = λ s r h. absurd (omega (arith, h));
  binary_expr = λ begin lhs p s r h. absurd (omega (arith, h));
  rhs_loop = λ begin rhs p s r h. absurd (omega (arith, h));
  comma_loop = λ begin lhs s r h. absurd (omega (arith, h));
  postfix_loop = λ begin result s r h. absurd (omega (arith, h));
  argument_loop = λ left s l r h. absurd (omega (arith, h));
  size_loop = λ s r h. absurd (omega (arith, h));
}
calls-IsFine is_struct_name (suc fuel) =
    let self = calls is_struct_name fuel in
    let fine = calls-IsFine is_struct_name fuel in
    record {
      assignment_expr = parse_assignment_expr-Ends self fuel fine;
      unary_expr = unary_expr-Ends self fuel fine is_struct_name;
      binary_expr = binary_expr-Good self fuel fine;
      rhs_loop = rhs_loop-Ends self fuel fine;
      comma_loop = comma_loop-Ends self fuel fine;
      postfix_loop = postfix_loop-Ends self fuel fine;
      argument_loop = argument_loop-Ends self fuel fine;
      size_loop = size_loop-Ends self fuel fine;
    }

parse-Tried :
    (is_struct_name : Bytes → Bool) (fuel : ℕ) (s : Parser)
    → IsReady s
    → 4 * size s + 3 ≤ fuel
    → Good ⊥ (λ r. Tried s r.1) (parse is_struct_name fuel s)
unfolding parse
parse-Tried is_struct_name fuel s r h =
    parse_expr-Tried (calls is_struct_name fuel) fuel (calls-IsFine is_struct_name fuel) s r h

-- On every list of tokens without `struct`, from a parser that parses, or that recovers at a token where
-- recovery stops, `ParseExpr` returns and fails no assertion of Parser.cpp or Parser.h, provided that the
-- calls of the AST builder return: with fuel for four calls for each token and three more it has a
-- result, which is the same with any more fuel. It consumes none but the tokens that are left. The
-- parser is then ready again, or no depth has fallen.
pub parse_returns :
    (is_struct_name : Bytes → Bool) (s : Parser)
    → IsReady s
    → (r : Expr × Parser) × (Tried s r.1
        × ((extra : ℕ) → parse is_struct_name (extra + (4 * size s + 3)) s ≡ done r))
parse_returns is_struct_name s ready =
    by_result (parse is_struct_name (4 * size s + 3) s) refl
      (parse-Tried is_struct_name (4 * size s + 3) s ready (omega arith))
  where
    by_result :
        (m : Parsed Expr)
        → parse is_struct_name (4 * size s + 3) s ≡ m
        → Good ⊥ (λ r. Tried s r.1) m
        → (r : Expr × Parser) × (Tried s r.1
            × ((extra : ℕ) → parse is_struct_name (extra + (4 * size s + 3)) s ≡ done r))
    by_result (done r) e h =
        (r, (h, λ extra. parse_more is_struct_name (4 * size s + 3) extra s r e))
    by_result failed e h = absurd h
    by_result out_of_fuel e h = absurd h
