-- ===== src/Tokenizer/Loop.antt =====
-- The tokenizer's `while (true)` loops: a step gives the next state, or `none` for a `break`.
use mathlib.Core.Path.{subst}
use glsld.Prelude.{ℕ, zero, suc, ◌≤◌, ◌<◌, ◌≡◌, Option, none, some, arith, Option-cases, inl, inr}

unfoldable pub loop {ℓ} : {S : Type ℓ} → (S → Option S) → ℕ → S → S
loop step zero s = s
loop step (suc fuel) s = elim (step s) [ none ↦ s | some t ↦ loop step fuel t ]

-- What holds of the next state, if there is one.
abbrev pub Ensures {ℓ κ} : {S : Type ℓ} → (S → Type κ) → Option S → Type κ
Ensures P none = Unit
Ensures P (some t) = P t

-- What the step keeps, the loop keeps.
pub loop-keeps {ℓ κ} :
    {S : Type ℓ} (P : S → Type κ) (step : S → Option S)
    → ((s : S) → P s → Ensures P (step s))
    → (fuel : ℕ) (s : S) → P s
    → P (loop step fuel s)
unfolding loop
loop-keeps P step keeps zero s h = h
loop-keeps P step keeps (suc fuel) s h = elim (Option-cases (step s)) [
  | inl e ↦ rw (loop, e) h
  | inr (t, e) ↦ rw (loop, e) (loop-keeps P step keeps fuel t (subst (Ensures P) e (keeps s h)))
]

-- If every step makes a measure smaller, then with as much fuel as the measure the loop ends by its
-- `break`.
pub loop-ends {ℓ} :
    {S : Type ℓ} (measure : S → ℕ) (step : S → Option S)
    → ((s : S) → Ensures (λ t. measure t < measure s) (step s))
    → (fuel : ℕ) (s : S) → measure s ≤ fuel
    → step (loop step fuel s) ≡ none
unfolding loop
loop-ends measure step falls zero s h = elim (Option-cases (step s)) [
  | inl e ↦ e
  | inr (t, e) ↦
      let f : measure t < measure s = subst (Ensures (λ t. measure t < measure s)) e (falls s) in
      absurd (omega arith)
]
loop-ends measure step falls (suc fuel) s h = elim (Option-cases (step s)) [
  | inl e ↦ rw (loop, e) e
  | inr (t, e) ↦
      let f : measure t < measure s = subst (Ensures (λ t. measure t < measure s)) e (falls s) in
      rw (loop, e) (loop-ends measure step falls fuel t (omega arith))
]
