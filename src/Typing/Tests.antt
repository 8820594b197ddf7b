-- ===== src/Typing/Tests.antt =====
-- Inputs for the theorems about scalar conversions.
use glsld.Prelude.{◌≡◌, refl, true, some}
use glsld.Typing.{
  is_scalar_promotion, is_kind, int8, int, float, has_better_conversion_aux, is_scalar_conversion,
}
use glsld.Typing.Ranking.{has_better_conversion_aux-cost, conversion_cost}

-- A promotion to `int` is preferred to a conversion to `float`.
has_better_conversion_aux-cost_example : has_better_conversion_aux int8 int float ≡ some true
unfolding conversion_cost is_scalar_conversion is_scalar_promotion is_kind
has_better_conversion_aux-cost_example = has_better_conversion_aux-cost int8 int float refl refl
