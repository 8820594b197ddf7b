-- ===== src/PpEval/Arith.antt =====
-- glsld-core/src/Compiler/PPEval.cpp, `EvaluatePPOperator`: one operator on two `int64_t`. Where
-- C++ leaves the result undefined (signed overflow, a shift by a negative count or by 64 and more)
-- the model has the outcome `undefined`.
use Prim.Native.Nat.{bit_and, bit_or, bit_xor}
use glsld.Prelude.{
  ℕ, ◌-◌, ◌*◌, ◌/◌, ◌%◌, ◌^◌, Bool, true, false, not, ◌&&◌, ◌||◌, ltb, if◌then◌else◌,
}
use glsld.Prelude.Int.{ℤ, pos, negsuc, ◌+ℤ◌, ◌-ℤ◌, ◌*ℤ◌, ◌/ℤ◌, ◌%ℤ◌, ltb_ℤ, leb_ℤ, eqb_ℤ}

pub data Outcome {ℓ} (A : Type ℓ) : Type ℓ where
  done : A → Outcome A
  rejected : Outcome A
  undefined : Outcome A

infixl 5 ◌>>=◌
abbrev pub ◌>>=◌ {ℓ κ} : {A : Type ℓ} {B : Type κ} → Outcome A → (A → Outcome B) → Outcome B
done a >>= f = f a
rejected >>= f = rejected
undefined >>= f = undefined

pub data PpOperator : Type 0 where
  paren_open : PpOperator
  identity negate bit_not logical_not : PpOperator
  multiply divide modulo : PpOperator
  add subtract : PpOperator
  left_shift right_shift : PpOperator
  less less_or_equal greater greater_or_equal : PpOperator
  equals differs : PpOperator
  bitwise_and bitwise_xor bitwise_or : PpOperator
  logical_and logical_or : PpOperator

-- -2^63 to 2^63 - 1.
abbrev pub fits_int64 : ℤ → Bool
fits_int64 (pos n) = ltb n (2 ^ 63)
fits_int64 (negsuc n) = ltb n (2 ^ 63)

-- The value of an arithmetic operation, where it is an `int64_t`.
abbrev pub checked : ℤ → Outcome ℤ
checked v = if fits_int64 v then done v else undefined

abbrev pub from_bool : Bool → ℤ
from_bool true = pos 1
from_bool false = pos 0

abbrev pub is_nonzero : ℤ → Bool
is_nonzero v = not (eqb_ℤ v (pos 0))

-- The bit pattern of an `int64_t`, and the number that a pattern stands for.
unfoldable pub to_bits : ℤ → ℕ
to_bits (pos n) = n % 2 ^ 64
to_bits (negsuc n) = 2 ^ 64 - 1 - n % 2 ^ 64

unfoldable pub from_bits : ℕ → ℤ
from_bits w =
    if ltb (w % 2 ^ 64) (2 ^ 63) then pos (w % 2 ^ 64) else negsuc (2 ^ 64 - 1 - w % 2 ^ 64)

unfoldable pub complement : ℤ → ℤ
complement (pos n) = negsuc n
complement (negsuc n) = pos n

-- Shifts are defined for counts from 0 to 63. A left shift keeps the low 64 bits; a right shift
-- rounds down.
unfoldable pub shift_left : ℤ → ℤ → Outcome ℤ
unfolding to_bits from_bits
shift_left a (pos k) = if ltb k 64 then done (from_bits (to_bits a * 2 ^ k)) else undefined
shift_left a (negsuc k) = undefined

unfoldable pub halve_floor : ℤ → ℕ → ℤ
halve_floor (pos n) k = pos (n / 2 ^ k)
halve_floor (negsuc n) k = negsuc (n / 2 ^ k)

unfoldable pub shift_right : ℤ → ℤ → Outcome ℤ
unfolding halve_floor
shift_right a (pos k) = if ltb k 64 then done (halve_floor a k) else undefined
shift_right a (negsuc k) = undefined

unfoldable pub evaluate_pp_operator : PpOperator → ℤ → ℤ → Outcome ℤ
unfolding to_bits from_bits complement shift_left shift_right ◌+ℤ◌ ◌-ℤ◌ ◌*ℤ◌ ◌/ℤ◌ ◌%ℤ◌
evaluate_pp_operator paren_open lhs rhs = done (pos 0)
evaluate_pp_operator identity lhs rhs = done lhs
evaluate_pp_operator negate lhs rhs = checked (pos 0 -ℤ lhs)
evaluate_pp_operator bit_not lhs rhs = done (complement lhs)
evaluate_pp_operator logical_not lhs rhs = done (from_bool (not (is_nonzero lhs)))
evaluate_pp_operator multiply lhs rhs = checked (lhs *ℤ rhs)
evaluate_pp_operator divide lhs rhs =
    if is_nonzero rhs then checked (◌/ℤ◌ lhs rhs) else done (pos 0)
evaluate_pp_operator modulo lhs rhs =
    if is_nonzero rhs
    then (if fits_int64 (◌/ℤ◌ lhs rhs) then done (◌%ℤ◌ lhs rhs) else undefined)
    else done (pos 0)
evaluate_pp_operator add lhs rhs = checked (lhs +ℤ rhs)
evaluate_pp_operator subtract lhs rhs = checked (lhs -ℤ rhs)
evaluate_pp_operator left_shift lhs rhs = shift_left lhs rhs
evaluate_pp_operator right_shift lhs rhs = shift_right lhs rhs
evaluate_pp_operator less lhs rhs = done (from_bool (ltb_ℤ lhs rhs))
evaluate_pp_operator less_or_equal lhs rhs = done (from_bool (leb_ℤ lhs rhs))
evaluate_pp_operator greater lhs rhs = done (from_bool (ltb_ℤ rhs lhs))
evaluate_pp_operator greater_or_equal lhs rhs = done (from_bool (leb_ℤ rhs lhs))
evaluate_pp_operator equals lhs rhs = done (from_bool (eqb_ℤ lhs rhs))
evaluate_pp_operator differs lhs rhs = done (from_bool (not (eqb_ℤ lhs rhs)))
evaluate_pp_operator bitwise_and lhs rhs = done (from_bits (bit_and (to_bits lhs) (to_bits rhs)))
evaluate_pp_operator bitwise_xor lhs rhs = done (from_bits (bit_xor (to_bits lhs) (to_bits rhs)))
evaluate_pp_operator bitwise_or lhs rhs = done (from_bits (bit_or (to_bits lhs) (to_bits rhs)))
evaluate_pp_operator logical_and lhs rhs = done (from_bool (is_nonzero lhs && is_nonzero rhs))
evaluate_pp_operator logical_or lhs rhs = done (from_bool (is_nonzero lhs || is_nonzero rhs))
