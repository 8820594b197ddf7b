-- ===== src/Typing.antt =====
-- glsld-core/include/Language/Typing.h and src/Language/Typing.cpp: the scalar kinds of GLSL, which
-- of them convert implicitly, and which of two conversions overload resolution prefers.
pub mod Ranking
pub mod Tests
use glsld.Prelude.{
  ℕ, Bool, true, false, not, ◌&&◌, ◌||◌, ◌==◌, Option, none, some, if◌then◌else◌, ◌≡◌, refl, ◌↔◌,
  arith,
}

pub data ScalarKind : Type 0 where
  bool int uint float double : ScalarKind
  int8 int16 int64 uint8 uint16 uint64 float16 : ScalarKind

-- The enumerators compare by their value.
unfoldable pub kind_index : ScalarKind → ℕ
kind_index bool = 0
kind_index int = 1
kind_index uint = 2
kind_index float = 3
kind_index double = 4
kind_index int8 = 5
kind_index int16 = 6
kind_index int64 = 7
kind_index uint8 = 8
kind_index uint16 = 9
kind_index uint64 = 10
kind_index float16 = 11

unfoldable pub is_kind : ScalarKind → ScalarKind → Bool
unfolding kind_index
is_kind a b = kind_index a == kind_index b

unfoldable pub is_integral_scalar_type : ScalarKind → Bool
is_integral_scalar_type int = true
is_integral_scalar_type uint = true
is_integral_scalar_type int8 = true
is_integral_scalar_type int16 = true
is_integral_scalar_type int64 = true
is_integral_scalar_type uint8 = true
is_integral_scalar_type uint16 = true
is_integral_scalar_type uint64 = true
is_integral_scalar_type _ = false

unfoldable pub is_float_point_scalar_type : ScalarKind → Bool
is_float_point_scalar_type float = true
is_float_point_scalar_type double = true
is_float_point_scalar_type float16 = true
is_float_point_scalar_type _ = false

-- The sources of an integral promotion, whose target is `int`.
unfoldable pub is_intergral_promotion : ScalarKind → ScalarKind → Bool
is_intergral_promotion int8 int = true
is_intergral_promotion int16 int = true
is_intergral_promotion uint8 int = true
is_intergral_promotion uint16 int = true
is_intergral_promotion _ _ = false

unfoldable pub is_fp_promotion : ScalarKind → ScalarKind → Bool
is_fp_promotion float16 double = true
is_fp_promotion float double = true
is_fp_promotion _ _ = false

unfoldable pub is_scalar_promotion : ScalarKind → ScalarKind → Bool
unfolding is_intergral_promotion is_fp_promotion
is_scalar_promotion from to = is_intergral_promotion from to || is_fp_promotion from to

unfoldable pub is_integral_conversion : ScalarKind → ScalarKind → Bool
is_integral_conversion int uint = true
is_integral_conversion int int64 = true
is_integral_conversion int uint64 = true
is_integral_conversion uint int64 = true
is_integral_conversion uint uint64 = true
is_integral_conversion int8 uint8 = true
is_integral_conversion int8 int16 = true
is_integral_conversion int8 uint16 = true
is_integral_conversion int8 uint = true
is_integral_conversion int8 int64 = true
is_integral_conversion int8 uint64 = true
is_integral_conversion int16 uint16 = true
is_integral_conversion int16 uint = true
is_integral_conversion int16 int64 = true
is_integral_conversion int16 uint64 = true
is_integral_conversion int64 uint64 = true
is_integral_conversion uint8 int16 = true
is_integral_conversion uint8 uint16 = true
is_integral_conversion uint8 uint = true
is_integral_conversion uint8 int64 = true
is_integral_conversion uint8 uint64 = true
is_integral_conversion uint16 uint = true
is_integral_conversion uint16 int64 = true
is_integral_conversion uint16 uint64 = true
is_integral_conversion _ _ = false

unfoldable pub is_fp_conversion : ScalarKind → ScalarKind → Bool
is_fp_conversion float16 float = true
is_fp_conversion _ _ = false

unfoldable pub is_fp_integral_conversion : ScalarKind → ScalarKind → Bool
is_fp_integral_conversion int float = true
is_fp_integral_conversion int double = true
is_fp_integral_conversion uint float = true
is_fp_integral_conversion uint double = true
is_fp_integral_conversion int8 float16 = true
is_fp_integral_conversion int8 float = true
is_fp_integral_conversion int8 double = true
is_fp_integral_conversion uint8 float16 = true
is_fp_integral_conversion uint8 float = true
is_fp_integral_conversion uint8 double = true
is_fp_integral_conversion int16 float16 = true
is_fp_integral_conversion int16 float = true
is_fp_integral_conversion int16 double = true
is_fp_integral_conversion uint16 float16 = true
is_fp_integral_conversion uint16 float = true
is_fp_integral_conversion uint16 double = true
is_fp_integral_conversion _ _ = false

unfoldable pub is_scalar_conversion : ScalarKind → ScalarKind → Bool
unfolding is_integral_conversion is_fp_conversion is_fp_integral_conversion
is_scalar_conversion from to =
    is_integral_conversion from to || is_fp_conversion from to || is_fp_integral_conversion from to

-- `none` is a failed assertion, at the start or at the end. Both flags of the last step ask about `lhs_to`, as in
-- the source.
unfoldable pub has_better_conversion_aux : ScalarKind → ScalarKind → ScalarKind → Option Bool
unfolding is_kind is_scalar_promotion is_integral_conversion is_fp_conversion
    is_fp_integral_conversion
has_better_conversion_aux from lhs_to rhs_to =
    let is_promotion_lhs = is_scalar_promotion from lhs_to in
    let is_promotion_rhs = is_scalar_promotion from rhs_to in
    let is_conversion_lhs = is_integral_conversion from lhs_to || is_fp_conversion from lhs_to in
    let is_conversion_rhs = is_integral_conversion from rhs_to || is_fp_conversion from rhs_to in
    let is_fp_integral_conversion_lhs = is_fp_integral_conversion from lhs_to in
    let is_fp_integral_conversion_rhs = is_fp_integral_conversion from lhs_to in
    if is_kind from lhs_to || is_kind from rhs_to
    then none
    else if is_promotion_lhs
    then some (not is_promotion_rhs)
    else if is_promotion_rhs
    then some false
    else if is_conversion_lhs
    then some (not is_conversion_rhs)
    else if is_conversion_rhs
    then some false
    else if is_fp_integral_conversion_lhs && is_fp_integral_conversion_rhs
    then some (is_kind lhs_to float && not (is_kind rhs_to float))
    else none
