-- ===== src/Prelude/Outcome.antt =====
-- The outcome of a run, and what it satisfies.
use mathlib.Core.Path.{◌≡◌, refl}
use mathlib.Core.Bool.{Bool, true, false}
use glsld.Prelude.Tests.{if◌then◌else◌}

-- `failed` is a failed assertion or a read outside an array.
pub data Result {ℓ} (A : Type ℓ) : Type ℓ where
  done : A → Result A
  failed : Result A
  out_of_fuel : Result A

infixl 5 ◌>>=◌
abbrev pub ◌>>=◌ {ℓ κ} : {A : Type ℓ} {B : Type κ} → Result A → (A → Result B) → Result B
done a >>= f = f a
failed >>= f = failed
out_of_fuel >>= f = out_of_fuel

-- The result is `done` with a value of `P`, or it has failed and `F` holds: with `F` empty it has not
-- failed.
abbrev pub Good {ℓ} : Type 0 → {A : Type ℓ} → (A → Type 0) → Result A → Type 0
Good F P (done a) = P a
Good F P failed = F
Good F P out_of_fuel = ⊥

pub Good-bind {ℓ} :
    (F : Type 0) {A B : Type ℓ} (P : A → Type 0) (Q : B → Type 0) (m : Result A) (f : A → Result B)
    → Good F P m
    → ((a : A) → P a → Good F Q (f a))
    → Good F Q (m >>= f)
Good-bind F P Q (done a) f h k = k a h
Good-bind F P Q failed f h k = h
Good-bind F P Q out_of_fuel f h k = absurd h

-- `failed` stands on a branch that is allowed only where `F` holds.
pub Good-guard {ℓ} :
    (F : Type 0) {A : Type ℓ} (P : A → Type 0) (b : Bool) (m : Result A)
    → (b ≡ true → F)
    → Good F P m
    → Good F P (if b then failed else m)
Good-guard F P true m h k = h refl
Good-guard F P false m h k = k
