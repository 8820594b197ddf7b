-- ===== src/Conditional/Region.antt =====
-- Inactive regions: only the innermost conditional can be inactive, and what is nested in an
-- inactive branch leaves no trace.
use glsld.Prelude.{
  ℕ, ◌+◌, ◌≡◌, refl, ◌∙◌, Bool, true, false, not, List, [], ◌∷◌, none, some, arith, ltb,
  if◌then◌else◌, ap, Bool-cases, inl, inr, if_both, lt→ltb, suc, zero, ◌-◌,
}
use glsld.Conditional.{
  PpConditionalInfo, Conditionals, Directive, if_directive, ifdef_directive, elif_directive,
  else_directive, endif_directive, active_top, in_active_branch, handle, handle_all, change_top,
  elif_info, else_info, pop_top, opened,
}

abbrev pub AllActive : List PpConditionalInfo → Type 0
AllActive [] = Unit
AllActive (i ∷ is) = (i.active ≡ true) × AllActive is

abbrev pub AllActiveBelow : List PpConditionalInfo → Type 0
AllActiveBelow [] = Unit
AllActiveBelow (i ∷ is) = AllActive is

-- Every conditional but the innermost is active, and directives are counted as skipped only while
-- the innermost is inactive.
pub record IsNested (c : Conditionals) : Type 0 where
  pub below : AllActiveBelow c.conditional_stack
  pub counted : active_top c.conditional_stack ≡ true → c.skipped_inactive_conditional_count ≡ 0

AllActive-AllActiveBelow : (is : List PpConditionalInfo) → AllActive is → AllActiveBelow is
AllActive-AllActiveBelow [] h = tt
AllActive-AllActiveBelow (i ∷ is) h = h.1

AllActive-active_top : (is : List PpConditionalInfo) → AllActive is → active_top is ≡ true
AllActive-active_top [] h = refl
AllActive-active_top (i ∷ is) h = h.0

abbrev conditionals : List PpConditionalInfo → ℕ → Conditionals
conditionals is k = record { conditional_stack = is; skipped_inactive_conditional_count = k }

AllActive-below_top :
    (is : List PpConditionalInfo) → AllActiveBelow is → active_top is ≡ true → AllActive is
AllActive-below_top [] h t = tt
AllActive-below_top (i ∷ is) h t = (t, h)

open-IsNested :
    (is : List PpConditionalInfo) (k : ℕ) (pushed : Conditionals)
    → IsNested (conditionals is k)
    → (active_top is ≡ true → IsNested pushed)
    → IsNested (if not (active_top is) then conditionals is (k + 1) else pushed)
open-IsNested is k pushed n h = elim (Bool-cases (active_top is)) [
  | inl t ↦ rw t (h t)
  | inr f ↦ rw f (record { below = n.below; counted = λ t. absurd (clash t f) })
]
  where
    clash : {x : Bool} → x ≡ true → x ≡ false → ⊥
    clash t f = cc

push-IsNested :
    (b : Bool) (is : List PpConditionalInfo) (k : ℕ)
    → IsNested (conditionals is k)
    → active_top is ≡ true
    → IsNested (conditionals (opened b ∷ is) k)
push-IsNested b is k n t = record {
  below = AllActive-below_top is n.below t;
  counted = λ _. n.counted t;
}

change_top-IsNested :
    (f : PpConditionalInfo → PpConditionalInfo) (is : List PpConditionalInfo) (k : ℕ)
    → IsNested (conditionals is k)
    → IsNested (if ltb 0 k then conditionals is k else conditionals (change_top f is) k)
change_top-IsNested f is (suc k) n = rw (lt→ltb 0 (suc k) (omega arith)) n
change_top-IsNested f [] zero n = n
change_top-IsNested f (i ∷ is) zero n =
    if_both (λ s. IsNested (conditionals s 0)) i.seen_else (i ∷ is) (f i ∷ is) n
      (record { below = n.below; counted = λ _. refl })

pop_top-IsNested :
    (is : List PpConditionalInfo) (k : ℕ)
    → IsNested (conditionals is k)
    → IsNested (if ltb 0 k then conditionals is (k - 1) else conditionals (pop_top is) k)
pop_top-IsNested is (suc k) n =
    rw (lt→ltb 0 (suc k) (omega arith))
      (record { below = n.below; counted = λ t. absurd (omega (arith, n.counted t)) })
pop_top-IsNested [] zero n = n
pop_top-IsNested (i ∷ is) zero n = record {
  below = AllActive-AllActiveBelow is n.below;
  counted = λ _. refl;
}

-- Every directive keeps the invariant that all conditionals but the innermost are active, and that
-- directives are counted as skipped only while the innermost is inactive.
pub handle-IsNested : (d : Directive) (c : Conditionals) → IsNested c → IsNested (handle d c)
unfolding handle
handle-IsNested (if_directive b) c n =
    open-IsNested c.conditional_stack c.skipped_inactive_conditional_count _ n
      (push-IsNested b c.conditional_stack c.skipped_inactive_conditional_count n)
handle-IsNested (ifdef_directive none) c n =
    open-IsNested c.conditional_stack c.skipped_inactive_conditional_count c n (λ _. n)
handle-IsNested (ifdef_directive (some b)) c n =
    open-IsNested c.conditional_stack c.skipped_inactive_conditional_count _ n
      (push-IsNested b c.conditional_stack c.skipped_inactive_conditional_count n)
handle-IsNested (elif_directive b) c n =
    change_top-IsNested (elif_info b) c.conditional_stack c.skipped_inactive_conditional_count n
handle-IsNested else_directive c n =
    change_top-IsNested else_info c.conditional_stack c.skipped_inactive_conditional_count n
handle-IsNested endif_directive c n =
    pop_top-IsNested c.conditional_stack c.skipped_inactive_conditional_count n

abbrev pub is_opening : Directive → Bool
is_opening (if_directive b) = true
is_opening (ifdef_directive o) = true
is_opening _ = false

abbrev pub is_branching : Directive → Bool
is_branching (elif_directive b) = true
is_branching else_directive = true
is_branching _ = false

-- A sequence of directives that closes `n` conditionals that are open, and all that it opens.
pub data Closes : ℕ → List Directive → Type 0 where
  nothing : Closes 0 []
  opens :
      {n : ℕ} {d : Directive} {ds : List Directive}
      → is_opening d ≡ true
      → Closes (suc n) ds
      → Closes n (d ∷ ds)
  branches :
      {n : ℕ} {d : Directive} {ds : List Directive}
      → is_branching d ≡ true
      → Closes (suc n) ds
      → Closes (suc n) (d ∷ ds)
  ends : {n : ℕ} {ds : List Directive} → Closes n ds → Closes (suc n) (endif_directive ∷ ds)

skip_opening :
    (d : Directive) (is : List PpConditionalInfo) (k : ℕ)
    → active_top is ≡ false
    → is_opening d ≡ true
    → handle d (conditionals is k) ≡ conditionals is (suc k)
unfolding handle
skip_opening (if_directive b) is k f h = rw f (ap (conditionals is) (omega arith))
skip_opening (ifdef_directive o) is k f h = rw f (ap (conditionals is) (omega arith))
skip_opening _ is k f h = cc

skip_branching :
    (d : Directive) (is : List PpConditionalInfo) (k : ℕ)
    → is_branching d ≡ true
    → handle d (conditionals is (suc k)) ≡ conditionals is (suc k)
unfolding handle
skip_branching (elif_directive b) is k h = rw (lt→ltb 0 (suc k) (omega arith))
skip_branching else_directive is k h = rw (lt→ltb 0 (suc k) (omega arith))
skip_branching _ is k h = cc

skip_end :
    (is : List PpConditionalInfo) (k : ℕ)
    → handle endif_directive (conditionals is (suc k)) ≡ conditionals is k
unfolding handle
skip_end is k = rw (lt→ltb 0 (suc k) (omega arith)) (ap (conditionals is) (omega arith))

skips :
    {n : ℕ} {ds : List Directive} (is : List PpConditionalInfo) (k : ℕ)
    → active_top is ≡ false
    → Closes n ds
    → handle_all ds (conditionals is (n + k)) ≡ conditionals is k
unfolding handle_all
skips is k f nothing = ap (conditionals is) (omega arith)
skips is k f (opens {n} {d} {ds} h c) =
    ap (handle_all ds) (skip_opening d is (n + k) f h ∙ ap (conditionals is) (omega arith))
    ∙ skips is k f c
skips is k f (branches {n} {d} {ds} h c) =
    ap (handle_all ds) (
      ap (λ m. handle d (conditionals is m)) (omega arith)
      ∙ skip_branching d is (n + k) h
      ∙ ap (conditionals is) (omega arith))
    ∙ skips is k f c
skips is k f (ends {n} {ds} c) =
    ap (handle_all ds)
      (ap (λ m. handle endif_directive (conditionals is m)) (omega arith) ∙ skip_end is (n + k))
    ∙ skips is k f c

-- In an inactive branch, directives that close all the conditionals that they open change nothing,
-- whatever their conditions are.
pub handle_all-inactive :
    (c : Conditionals) (ds : List Directive)
    → in_active_branch c ≡ false
    → Closes 0 ds
    → handle_all ds c ≡ c
unfolding in_active_branch
handle_all-inactive c ds f h =
    ap (λ m. handle_all ds (conditionals c.conditional_stack m)) (omega arith)
    ∙ skips c.conditional_stack c.skipped_inactive_conditional_count f h
