-- ===== src/Parser/Growth/Fuel.antt =====
-- What the parser returns does not depend on the fuel, as soon as there is enough.
use glsld.Prelude.{Bool, ◌≡◌, inl, inr, refl, sym, ◌∙◌, ℕ, zero, suc, ◌+◌, arith}
use glsld.Prelude.Outcome.{done, out_of_fuel}
use glsld.Token.{Bytes}
use glsld.Parser.Tokens.{Parser}
use glsld.Parser.Syntax.{Expr}
use glsld.Parser.Calls.{Parsed}
use glsld.Parser.Postfix.{parse_postfix_expr}
use glsld.Parser.Run.{calls, parse}
use glsld.Parser.Growth.{Grows, Grow}
use glsld.Parser.Growth.Bodies
use glsld.Parser.Growth.Types
use glsld.Parser.Growth.Postfix

calls-Grow :
    (is_struct_name : Bytes → Bool) (fuel : ℕ)
    → Grow (calls is_struct_name fuel) (calls is_struct_name (suc fuel))
unfolding calls
calls-Grow is_struct_name zero = record {
  assignment_expr = λ s. inl refl;
  unary_expr = λ s. inl refl;
  binary_expr = λ begin lhs p s. inl refl;
  rhs_loop = λ begin rhs p s. inl refl;
  comma_loop = λ begin lhs s. inl refl;
  postfix_loop = λ begin e s. inl refl;
  argument_loop = λ left s. inl refl;
  size_loop = λ s. inl refl;
  layout_loop = λ left s. inl refl;
  qualifier_loop = λ s. inl refl;
  struct_loop = λ s. inl refl;
  declarator_loop = λ s. inl refl;
}
calls-Grow is_struct_name (suc fuel) =
    let a = calls is_struct_name fuel in
    let b = calls is_struct_name (suc fuel) in
    let g = calls-Grow is_struct_name fuel in
    record {
      assignment_expr = Bodies.assignment_expr a b g;
      unary_expr = λ s.
          Bodies.unary_expr a b g (parse_postfix_expr a is_struct_name)
            (parse_postfix_expr b is_struct_name) s (Postfix.postfix_expr a b g is_struct_name s);
      binary_expr = Bodies.binary_expr a b g;
      rhs_loop = Bodies.rhs_loop a b g;
      comma_loop = Bodies.comma_loop a b g;
      postfix_loop = Postfix.postfix_loop a b g;
      argument_loop = Postfix.argument_loop a b g;
      size_loop = Types.size_loop a b g;
      layout_loop = Types.layout_loop a b g;
      qualifier_loop = Types.qualifier_loop a b g;
      struct_loop = Types.struct_loop a b g;
      declarator_loop = Types.declarator_loop a b g;
    }

parse-Grows :
    (is_struct_name : Bytes → Bool) (fuel : ℕ) (s : Parser)
    → Grows (parse is_struct_name fuel s) (parse is_struct_name (suc fuel) s)
unfolding parse
parse-Grows is_struct_name fuel s =
    Bodies.expr (calls is_struct_name fuel) (calls is_struct_name (suc fuel))
      (calls-Grow is_struct_name fuel) s

-- A result is kept with any more fuel.
pub parse_more :
    (is_struct_name : Bytes → Bool) (fuel extra : ℕ) (s : Parser) (r : Expr × Parser)
    → parse is_struct_name fuel s ≡ done r
    → parse is_struct_name (extra + fuel) s ≡ done r
parse_more is_struct_name fuel zero s r h = let same : zero + fuel ≡ fuel = omega arith in rw same h
parse_more is_struct_name fuel (suc extra) s r h =
    let more : suc extra + fuel ≡ suc (extra + fuel) = omega arith in
    rw more (
      by_growth (parse is_struct_name (extra + fuel) s) _
        (parse_more is_struct_name fuel extra s r h) (parse-Grows is_struct_name (extra + fuel) s))
  where
    clash : done r ≡ out_of_fuel → ⊥
    clash h = cc

    by_growth : (m n : Parsed Expr) → m ≡ done r → Grows m n → n ≡ done r
    by_growth m n h (inl e) = absurd (clash (sym h ∙ e))
    by_growth m n h (inr e) = sym e ∙ h
