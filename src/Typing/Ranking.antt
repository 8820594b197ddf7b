-- ===== src/Typing/Ranking.antt =====
-- Implicit conversions ordered by a cost: overload resolution prefers the cheaper one.
use glsld.Prelude.{
  ℕ, ◌<◌, ◌≡◌, refl, Bool, true, false, not, ◌&&◌, ◌||◌, Option, none, some, ltb, if◌then◌else◌,
  arith,
}
use glsld.Typing.{
  ScalarKind, bool, int, uint, float, double, int8, int16, int64, uint8, uint16, uint64, float16,
  is_kind, is_scalar_promotion, is_scalar_conversion, is_integral_conversion, is_fp_conversion,
  has_better_conversion_aux,
}

-- The implicit conversions between different kinds.
abbrev pub is_implicit : ScalarKind → ScalarKind → Bool
is_implicit from to = is_scalar_promotion from to || is_scalar_conversion from to

-- 1 for a promotion, 2 for a conversion within the integers or within the floats, 3 for one from
-- an integer to `float`, and 4 for one from an integer to another float.
unfoldable pub conversion_cost : ScalarKind → ScalarKind → ℕ
conversion_cost from to =
    if is_scalar_promotion from to
    then 1
    else if is_integral_conversion from to || is_fp_conversion from to
    then 2
    else if is_kind to float
    then 3
    else 4

abbrev all_kinds : (ScalarKind → Bool) → Bool
all_kinds p =
    p bool
    && p int
    && p uint
    && p float
    && p double
    && p int8
    && p int16
    && p int64
    && p uint8
    && p uint16
    && p uint64
    && p float16

all_kinds_sound : (p : ScalarKind → Bool) → all_kinds p ≡ true → (k : ScalarKind) → p k ≡ true
all_kinds_sound p h bool = ground arith
all_kinds_sound p h _ = ground arith

abbrev agrees : Option Bool → Bool → Bool
agrees none b = false
agrees (some true) b = b
agrees (some false) b = not b

agrees-eq : (o : Option Bool) (b : Bool) → agrees o b ≡ true → o ≡ some b
agrees-eq none b h = cc
agrees-eq (some true) b h = ground arith
agrees-eq (some false) b h = ground arith

abbrev implies : Bool → Bool → Bool
implies a b = not a || b

ranked : ScalarKind → ScalarKind → ScalarKind → Bool
ranked from l r = implies (is_implicit from l && is_implicit from r) (
    agrees (has_better_conversion_aux from l r)
      (ltb (conversion_cost from l) (conversion_cost from r)))

ranked_table : all_kinds (λ from. all_kinds (λ l. all_kinds (λ r. ranked from l r))) ≡ true
unfolding ranked conversion_cost has_better_conversion_aux is_scalar_conversion
ranked_table = refl

-- For two implicit conversions from one kind, the answer is that the left one costs less; the
-- assertion at the end of the source's function is not reached.
pub has_better_conversion_aux-cost :
    (from l r : ScalarKind)
    → is_implicit from l ≡ true
    → is_implicit from r ≡ true
    → has_better_conversion_aux from l r
      ≡ some (ltb (conversion_cost from l) (conversion_cost from r))
unfolding ranked
has_better_conversion_aux-cost from l r hl hr = agrees-eq _ _ (ground (arith, use_table))
  where
    use_table : ranked from l r ≡ true
    use_table =
        all_kinds_sound (λ z. ranked from l z)
          (all_kinds_sound (λ y. all_kinds (λ z. ranked from y z))
            (all_kinds_sound (λ x. all_kinds (λ y. all_kinds (λ z. ranked x y z))) ranked_table
              from)
            l)
          r

pub cost_pos : (from to : ScalarKind) → 0 < conversion_cost from to
unfolding conversion_cost
cost_pos from to = ground arith

pub double-eq : (k : ScalarKind) → is_kind k double ≡ true → k ≡ double
unfolding is_kind
double-eq double h = refl
double-eq _ h = cc
