-- ===== src/GlslType.antt =====
-- glsld-core/include/Ast/Type.h and src/Ast/Type.cpp: type descriptors, canonical names, sameness,
-- implicit conversion, and the comparison of two conversions.
pub mod Conversion
pub mod Tests
use glsld.Prelude.{
  ℕ, zero, suc, ◌+◌, ◌*◌, ◌/◌, ◌%◌, ◌<◌, Bool, true, false, not, ◌&&◌, ◌||◌, ltb, ◌==◌, Option,
  none, some, List, [], ◌∷◌, ◌++◌, if◌then◌else◌,
}
use glsld.Token.{Bytes, text_eq}
use glsld.Typing.{
  ScalarKind, is_integral_scalar_type, is_scalar_promotion, is_scalar_conversion, is_kind,
  has_better_conversion_aux,
}

pub data SamplingDim : Type 0 where
  one two three rect cube buffer : SamplingDim

-- A struct's members are a list of names and types; the declarations that the descriptors point to
-- play no part in the operations below.
mutual
  pub data TypeDesc : Type 0 where
    error : TypeDesc
    void : TypeDesc
    scalar : ScalarKind → TypeDesc
    vector : ScalarKind → ℕ → TypeDesc
    matrix : ScalarKind → ℕ → ℕ → TypeDesc
    sampler : SamplingDim → TypeDesc
    array : TypeDesc → ℕ → TypeDesc
    struct : Bytes → Bytes → Members → TypeDesc

  pub data Members : Type 0 where
    no_members : Members
    member : Bytes → TypeDesc → Members → Members

-- The decimal digits of a number in front of a text, as `fmt::format` prints it.
unfoldable pub decimal_onto : ℕ → ℕ → Bytes → Bytes
decimal_onto zero n tail = tail
decimal_onto (suc fuel) n tail =
    let more = decimal_onto fuel (n / 10) ((b'0' + n % 10) ∷ tail) in
    if ltb n 10 then (b'0' + n) ∷ tail else more

unfoldable pub decimal : ℕ → Bytes
unfolding decimal_onto
decimal n = decimal_onto (suc n) n []

unfoldable pub mangle_scalar : ScalarKind → Bytes
mangle_scalar ScalarKind.bool = b'b' ∷ []
mangle_scalar ScalarKind.int = b'i' ∷ []
mangle_scalar ScalarKind.uint = b'u' ∷ []
mangle_scalar ScalarKind.float = b'f' ∷ []
mangle_scalar ScalarKind.double = b'd' ∷ []
mangle_scalar ScalarKind.int8 = b'i' ∷ b'8' ∷ []
mangle_scalar ScalarKind.int16 = b'i' ∷ b'1' ∷ b'6' ∷ []
mangle_scalar ScalarKind.int64 = b'i' ∷ b'6' ∷ b'4' ∷ []
mangle_scalar ScalarKind.uint8 = b'u' ∷ b'8' ∷ []
mangle_scalar ScalarKind.uint16 = b'u' ∷ b'1' ∷ b'6' ∷ []
mangle_scalar ScalarKind.uint64 = b'u' ∷ b'6' ∷ b'4' ∷ []
mangle_scalar ScalarKind.float16 = b'f' ∷ b'1' ∷ b'6' ∷ []

unfoldable pub mangle_sampler : SamplingDim → Bytes
mangle_sampler one = b's' ∷ b'1' ∷ []
mangle_sampler two = b's' ∷ b'2' ∷ []
mangle_sampler three = b's' ∷ b'3' ∷ []
mangle_sampler rect = b's' ∷ b'r' ∷ b'e' ∷ b'c' ∷ b't' ∷ []
mangle_sampler cube = b's' ∷ b'c' ∷ b'u' ∷ b'b' ∷ b'e' ∷ []
mangle_sampler buffer = b's' ∷ b'b' ∷ b'u' ∷ b'f' ∷ b'f' ∷ b'e' ∷ b'r' ∷ []

-- `GetCanonicalName`: what the constructor stores.
unfoldable pub canonical_name : TypeDesc → Bytes
unfolding mangle_scalar mangle_sampler decimal
canonical_name error = b'e' ∷ []
canonical_name void = b'v' ∷ []
canonical_name (scalar k) = mangle_scalar k
canonical_name (vector k n) = mangle_scalar k ++ (b'v' ∷ decimal n)
canonical_name (matrix k r c) = mangle_scalar k ++ (b'm' ∷ (decimal r ++ (b'x' ∷ decimal c)))
canonical_name (sampler d) = mangle_sampler d
canonical_name (array t n) = canonical_name t ++ (b'[' ∷ (decimal n ++ (b']' ∷ [])))
canonical_name (struct name linkage ms) = b'#' ∷ linkage

unfoldable mutual
  pub is_opaque : TypeDesc → Bool
  is_opaque (sampler d) = true
  is_opaque (array t n) = is_opaque t
  is_opaque (struct name linkage ms) = any_opaque ms
  is_opaque _ = false

  pub any_opaque : Members → Bool
  any_opaque no_members = false
  any_opaque (member name t ms) = is_opaque t || any_opaque ms

unfoldable pub is_error : TypeDesc → Bool
is_error error = true
is_error _ = false

unfoldable pub is_scalar : TypeDesc → Bool
is_scalar (scalar k) = true
is_scalar _ = false

unfoldable pub is_same_with : TypeDesc → TypeDesc → Bool
unfolding canonical_name text_eq
is_same_with a b = text_eq (canonical_name a) (canonical_name b)

abbrev pub converts : ScalarKind → ScalarKind → Bool
converts from to = is_scalar_promotion from to || is_scalar_conversion from to

-- The part of `IsConvertibleTo` behind the tests for sameness and for the error type.
unfoldable pub converts_to : TypeDesc → TypeDesc → Bool
unfolding is_scalar_promotion is_scalar_conversion is_kind
converts_to (scalar k) (scalar l) = converts k l
converts_to (vector k m) (vector l n) = m == n && converts k l
converts_to (matrix k r c) (matrix l r' c') = (c == c' && r == r') && is_kind l ScalarKind.double
converts_to _ _ = false

unfoldable pub is_convertible_to : TypeDesc → TypeDesc → Bool
unfolding is_same_with is_error converts_to
is_convertible_to from to =
    if is_same_with from to then true else if is_error from then true else converts_to from to

unfoldable pub is_equal_comparable_to : TypeDesc → TypeDesc → Bool
unfolding is_opaque is_convertible_to
is_equal_comparable_to a b =
    not (is_opaque a) && not (is_opaque b) && (is_convertible_to a b || is_convertible_to b a)

unfoldable pub is_ordering_comparable_to : TypeDesc → TypeDesc → Bool
unfolding is_scalar is_convertible_to
is_ordering_comparable_to a b =
    not (is_scalar a) && not (is_scalar b) && (is_convertible_to a b || is_convertible_to b a)

-- The last part of `HasBetterConversion`. `none` is a failed assertion, or a read through a
-- descriptor that is not there.
unfoldable pub better_by_kind : TypeDesc → TypeDesc → TypeDesc → Option Bool
unfolding has_better_conversion_aux
better_by_kind (scalar k) (scalar l) (scalar r) = has_better_conversion_aux k l r
better_by_kind (scalar k) _ _ = none
better_by_kind (vector k _) (vector l _) (vector r _) = has_better_conversion_aux k l r
better_by_kind (vector k _) _ _ = none
better_by_kind (matrix k _ _) (matrix l _ _) (matrix r _ _) = has_better_conversion_aux k l r
better_by_kind (matrix k _ _) _ _ = none
better_by_kind _ _ _ = some false

unfoldable pub has_better_conversion : TypeDesc → TypeDesc → TypeDesc → Option Bool
unfolding is_same_with is_error is_convertible_to better_by_kind
has_better_conversion from lhs_to rhs_to =
    if is_same_with from lhs_to
    then some (not (is_same_with from rhs_to))
    else if is_same_with from rhs_to
    then some false
    else if is_error from
    then some false
    else if is_convertible_to from lhs_to && is_convertible_to from rhs_to
    then better_by_kind from lhs_to rhs_to
    else none
