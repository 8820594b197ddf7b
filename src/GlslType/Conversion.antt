-- ===== src/GlslType/Conversion.antt =====
-- Overload resolution's comparison of two conversions is a comparison of costs.
use glsld.Prelude.{
  ℕ, ◌<◌, ◌≡◌, refl, Bool, true, false, not, ◌&&◌, Option, none, some, ltb, if◌then◌else◌, arith,
  ◌⊎◌, inl, inr, ap, sym, ◌∙◌,
}
use glsld.Token.{text_eq_iff}
use glsld.Typing.{ScalarKind}
use glsld.Typing.Ranking.{
  is_implicit, conversion_cost, has_better_conversion_aux-cost, cost_pos, double-eq,
}
use glsld.GlslType.{
  TypeDesc, scalar, vector, matrix, canonical_name, is_same_with, is_error, converts_to,
  is_convertible_to, better_by_kind, has_better_conversion,
}

-- A type is the same with itself.
pub is_same_with_refl : (t : TypeDesc) → is_same_with t t ≡ true
unfolding is_same_with
is_same_with_refl t = (text_eq_iff (canonical_name t) (canonical_name t)).1 refl

-- The cost of a conversion: none between types that are the same, and otherwise that of the
-- component kinds, in the order promotion, conversion, integer to `float`, integer to other.
abbrev pub kind_cost : TypeDesc → TypeDesc → ℕ
kind_cost (scalar k) (scalar l) = conversion_cost k l
kind_cost (vector k m) (vector l n) = conversion_cost k l
kind_cost (matrix k r c) (matrix l r' c') = conversion_cost k l
kind_cost _ _ = 1

pub type_cost : TypeDesc → TypeDesc → ℕ
type_cost from to =
    if is_same_with from to then 0 else if is_error from then 1 else kind_cost from to

-- The components of a matrix convert to `double` or are `double`, as those of the types `mat` and
-- `dmat` of GLSL do and are.
abbrev pub HasGlslMatrix : TypeDesc → Type 0
HasGlslMatrix (matrix k r c) = (is_implicit k ScalarKind.double ≡ true) ⊎ (k ≡ ScalarKind.double)
HasGlslMatrix _ = Unit

scalar-target :
    (k : ScalarKind) (t : TypeDesc)
    → converts_to (scalar k) t ≡ true
    → (l : ScalarKind) × (t ≡ scalar l) × (is_implicit k l ≡ true)
unfolding converts_to
scalar-target k (scalar l) h = (l, refl, h)
scalar-target k _ h = cc

vector-target :
    (k : ScalarKind) (n : ℕ) (t : TypeDesc)
    → converts_to (vector k n) t ≡ true
    → (l : ScalarKind) × (t ≡ vector l n) × (is_implicit k l ≡ true)
unfolding converts_to
vector-target k n (vector l m) h = (l, ground arith, ground arith)
vector-target k n _ h = cc

matrix-target :
    (k : ScalarKind) (r c : ℕ) (t : TypeDesc)
    → converts_to (matrix k r c) t ≡ true
    → t ≡ matrix ScalarKind.double r c
unfolding converts_to
matrix-target k r c (matrix l r' c') h = ground (arith, double-eq l)
matrix-target k r c _ h = cc

-- A matrix of `double` components converts only to its own type.
only_same :
    (k : ScalarKind) (r c : ℕ) (t : TypeDesc)
    → k ≡ ScalarKind.double
    → t ≡ matrix ScalarKind.double r c
    → is_same_with (matrix k r c) t ≡ false
    → ⊥
only_same k r c t d e s =
    let own : t ≡ matrix k r c = e ∙ ap (λ x. matrix x r c) (sym d) in
    let same : is_same_with (matrix k r c) t ≡ true = rw own (is_same_with_refl (matrix k r c)) in
    cc

-- Where the part of `IsConvertibleTo` behind the first two tests says yes twice, to types of which
-- the first is not the same.
better_by_kind-cost :
    (from l r : TypeDesc)
    → HasGlslMatrix from
    → is_same_with from l ≡ false
    → converts_to from l ≡ true
    → converts_to from r ≡ true
    → better_by_kind from l r ≡ some (ltb (kind_cost from l) (kind_cost from r))
unfolding better_by_kind
better_by_kind-cost (scalar k) l r w s hl hr =
    let (a, el, al) = scalar-target k l hl in
    let (b, er, br) = scalar-target k r hr in
    rw (el, er) (has_better_conversion_aux-cost k a b al br)
better_by_kind-cost (vector k n) l r w s hl hr =
    let (a, el, al) = vector-target k n l hl in
    let (b, er, br) = vector-target k n r hr in
    rw (el, er) (has_better_conversion_aux-cost k a b al br)
better_by_kind-cost (matrix k n m) l r w s hl hr =
    let el = matrix-target k n m l hl in
    let er = matrix-target k n m r hr in
    elim w [
      | inl f ↦
          rw (el, er) (has_better_conversion_aux-cost k ScalarKind.double ScalarKind.double f f)
      | inr d ↦ absurd (only_same k n m l d el s)
    ]
better_by_kind-cost _ l r w s hl hr = refl

kind_cost_pos : (from to : TypeDesc) → 0 < kind_cost from to
kind_cost_pos (scalar k) (scalar l) = cost_pos k l
kind_cost_pos (scalar k) _ = omega arith
kind_cost_pos (vector k n) (vector l m) = cost_pos k l
kind_cost_pos (vector k n) _ = omega arith
kind_cost_pos (matrix k r c) (matrix l r' c') = cost_pos k l
kind_cost_pos (matrix k r c) _ = omega arith
kind_cost_pos _ _ = omega arith

-- The ladder of tests, over the answers to them: sameness with either target, the error type, and
-- the rest of the two conversions.
ladder-cost :
    (sl sr e cl cr : Bool) (b : Option Bool) (m n : ℕ)
    → 0 < m
    → 0 < n
    → (if sl then true else if e then true else cl) ≡ true
    → (if sr then true else if e then true else cr) ≡ true
    → (sl ≡ false → cl ≡ true → cr ≡ true → b ≡ some (ltb m n))
    → (if sl
        then some (not sr)
        else if sr
        then some false
        else if e
        then some false
        else if (if sl then true else if e then true else cl)
            && (if sr then true else if e then true else cr)
        then b
        else none)
      ≡ some (ltb (if sl then 0 else if e then 1 else m) (if sr then 0 else if e then 1 else n))
ladder-cost true true e cl cr b m n hm hn hl hr k = ground arith
ladder-cost true false true cl cr b m n hm hn hl hr k = ground arith
ladder-cost true false false cl cr b m n hm hn hl hr k = ground arith
ladder-cost false true e cl cr b m n hm hn hl hr k = ground arith
ladder-cost false false true cl cr b m n hm hn hl hr k = ground arith
ladder-cost false false false true true b m n hm hn hl hr k = k refl refl refl
ladder-cost false false false false cr b m n hm hn hl hr k = cc
ladder-cost false false false true false b m n hm hn hl hr k = cc

pub has_better_conversion-cost :
    (from l r : TypeDesc)
    → HasGlslMatrix from
    → is_convertible_to from l ≡ true
    → is_convertible_to from r ≡ true
    → has_better_conversion from l r ≡ some (ltb (type_cost from l) (type_cost from r))
unfolding has_better_conversion type_cost
has_better_conversion-cost from l r w hl hr =
    ladder-cost (is_same_with from l) (is_same_with from r) (is_error from) (converts_to from l)
      (converts_to from r) (better_by_kind from l r) (kind_cost from l) (kind_cost from r)
      (kind_cost_pos from l) (kind_cost_pos from r) hl hr (better_by_kind-cost from l r w)
