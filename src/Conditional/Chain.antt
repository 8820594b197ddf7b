-- ===== src/Conditional/Chain.antt =====
-- One `#if` with its `#elif` and `#else` branches, met in an active region.
use mathlib.Core.List.{map-append, append_assoc, append-nil}
use glsld.Prelude.{
  ℕ, ◌≡◌, refl, ◌∙◌, sym, ap, Bool, true, false, not, ◌&&◌, List, [], ◌∷◌, ◌++◌, map,
}
use glsld.Conditional.{
  PpConditionalInfo, Conditionals, Directive, if_directive, elif_directive, else_directive,
  endif_directive, in_active_branch, handle, handle_all, elif_info, else_info, opened,
}

-- Nothing is being skipped: the innermost conditional, if any, is active.
pub record IsReading (c : Conditionals) : Type 0 where
  pub in_active : in_active_branch c ≡ true
  pub none_skipped : c.skipped_inactive_conditional_count ≡ 0

abbrev pub conditions : Bool → List Bool → List Directive
conditions b bs = if_directive b ∷ map elif_directive bs

-- The entry on top after some more conditions.
abbrev pub after_conditions : PpConditionalInfo → List Bool → PpConditionalInfo
after_conditions i [] = i
after_conditions i (b ∷ bs) = after_conditions (elif_info b i) bs

abbrev conditionals : List PpConditionalInfo → ℕ → Conditionals
conditionals is k = record { conditional_stack = is; skipped_inactive_conditional_count = k }

handle_all-append :
    (ds es : List Directive) (c : Conditionals)
    → handle_all (ds ++ es) c ≡ handle_all es (handle_all ds c)
unfolding handle_all
handle_all-append [] es c = refl
handle_all-append (d ∷ ds) es c = handle_all-append ds es (handle d c)

handle_elifs :
    (i : PpConditionalInfo) (is : List PpConditionalInfo) (bs : List Bool)
    → i.seen_else ≡ false
    → handle_all (map elif_directive bs) (conditionals (i ∷ is) 0)
      ≡ conditionals (after_conditions i bs ∷ is) 0
unfolding handle_all
handle_elifs i is [] h = refl
handle_elifs i is (b ∷ bs) h =
    ap (handle_all (map elif_directive bs)) (one i h)
    ∙ handle_elifs (elif_info b i) is bs (unfold elif_info in h)
  where
    one :
        (j : PpConditionalInfo)
        → j.seen_else ≡ false
        → handle (elif_directive b) (conditionals (j ∷ is) 0) ≡ conditionals (elif_info b j ∷ is) 0
    one j e = simp e

handle_conditions :
    (c : Conditionals) (b : Bool) (bs : List Bool)
    → IsReading c
    → handle_all (conditions b bs) c
      ≡ conditionals (after_conditions (opened b) bs ∷ c.conditional_stack) 0
unfolding handle_all in_active_branch
handle_conditions c b bs r =
    ap (handle_all (map elif_directive bs)) (simp (r.in_active, r.none_skipped))
    ∙ handle_elifs (opened b) c.conditional_stack bs refl

after_conditions-seen_else :
    (i : PpConditionalInfo) (bs : List Bool) → (after_conditions i bs).seen_else ≡ i.seen_else
after_conditions-seen_else i [] = refl
after_conditions-seen_else i (b ∷ bs) =
    after_conditions-seen_else (elif_info b i) bs ∙ (unfold elif_info in refl)

-- What the top entry becomes under the directive that follows some conditions.
follow :
    (c : Conditionals) (b : Bool) (bs : List Bool) (ds : List Directive)
    → IsReading c
    → handle_all (conditions b bs ++ ds) c
      ≡ handle_all ds (conditionals (after_conditions (opened b) bs ∷ c.conditional_stack) 0)
follow c b bs ds r =
    handle_all-append (conditions b bs) ds c ∙ ap (handle_all ds) (handle_conditions c b bs r)

handle_else :
    (i : PpConditionalInfo) (is : List PpConditionalInfo)
    → i.seen_else ≡ false
    → handle else_directive (conditionals (i ∷ is) 0) ≡ conditionals (else_info i ∷ is) 0
unfolding handle
handle_else i is e = simp e

not_ended : (b : Bool) (bs : List Bool) → (after_conditions (opened b) bs).seen_else ≡ false
not_ended b bs = after_conditions-seen_else (opened b) bs

-- A conditional that is met in an active region leaves behind the state in which it was met,
-- whatever its conditions are, with or without an `#else`.
pub handle_all-closed :
    (c : Conditionals) (b : Bool) (bs : List Bool)
    → IsReading c
    → (handle_all (conditions b bs ++ (endif_directive ∷ [])) c ≡ c)
      × (handle_all (conditions b bs ++ (else_directive ∷ endif_directive ∷ [])) c ≡ c)
unfolding handle_all
handle_all-closed c b bs r = (
  follow c b bs (endif_directive ∷ []) r ∙ restored,
  follow c b bs (else_directive ∷ endif_directive ∷ []) r
      ∙ ap (handle endif_directive)
          (handle_else (after_conditions (opened b) bs) c.conditional_stack (not_ended b bs))
      ∙ restored,
)
  where
    restored : conditionals c.conditional_stack 0 ≡ c
    restored = ap (conditionals c.conditional_stack) (sym r.none_skipped)

abbrev pub AllFalse : List Bool → Type 0
AllFalse [] = Unit
AllFalse (b ∷ bs) = (b ≡ false) × AllFalse bs

after_conditions-AllFalse :
    (bs : List Bool) → AllFalse bs → after_conditions (opened false) bs ≡ opened false
after_conditions-AllFalse [] h = refl
after_conditions-AllFalse (b ∷ bs) h =
    rw h.0 (ap (λ i. after_conditions i bs) (unfold elif_info in refl))
    ∙ after_conditions-AllFalse bs h.1

-- In an active region: while all conditions so far are false, their branches are inactive, an
-- `#elif` is active exactly if its condition is true, and an `#else` is active.
pub branch-AllFalse :
    (c : Conditionals) (bs : List Bool) (x : Bool)
    → IsReading c
    → AllFalse bs
    → (in_active_branch (handle_all (conditions false bs) c) ≡ false)
      × (in_active_branch (handle_all (conditions false bs ++ (elif_directive x ∷ [])) c) ≡ x)
      × (in_active_branch (handle_all (conditions false bs ++ (else_directive ∷ [])) c) ≡ true)
unfolding in_active_branch handle_all else_info
branch-AllFalse c bs x r h = (
  rw (handle_conditions c false bs r, after_conditions-AllFalse bs h),
  rw (follow c false bs (elif_directive x ∷ []) r, after_conditions-AllFalse bs h),
  rw (follow c false bs (else_directive ∷ []) r, after_conditions-AllFalse bs h),
)

after_conditions-seen :
    (i : PpConditionalInfo) (bs : List Bool)
    → i.seen_active_branch ≡ i.active
    → (after_conditions i bs).seen_active_branch ≡ (after_conditions i bs).active
after_conditions-seen i [] h = h
after_conditions-seen i (b ∷ bs) h =
    after_conditions-seen (elif_info b i) bs (unfold elif_info in refl)

-- The step of the handlers on a top entry whose two flags agree, as they do before any `#else`.
elif_info-active :
    (x : Bool) (i : PpConditionalInfo)
    → i.seen_active_branch ≡ i.active
    → (elif_info x i).active ≡ (not i.active && x)
unfolding elif_info
elif_info-active x i h = rw h

else_info-active :
    (i : PpConditionalInfo) → i.seen_active_branch ≡ i.active → (else_info i).active ≡ not i.active
unfolding else_info
else_info-active i h = rw h

active_after :
    (c : Conditionals) (b : Bool) (bs : List Bool)
    → IsReading c
    → in_active_branch (handle_all (conditions b bs) c) ≡ (after_conditions (opened b) bs).active
unfolding in_active_branch
active_after c b bs r = rw (handle_conditions c b bs r)

-- In an active region: behind any conditions, an `#elif` is active exactly if its condition is true and the branch
-- directly before it is inactive; an `#else` is active exactly if the branch directly before it is
-- inactive.
branch_next :
    (c : Conditionals) (b : Bool) (bs : List Bool) (x : Bool)
    → IsReading c
    → (in_active_branch (handle_all (conditions b bs ++ (elif_directive x ∷ [])) c)
        ≡ (not (in_active_branch (handle_all (conditions b bs) c)) && x))
      × (in_active_branch (handle_all (conditions b bs ++ (else_directive ∷ [])) c)
          ≡ not (in_active_branch (handle_all (conditions b bs) c)))
unfolding in_active_branch handle_all
branch_next c b bs x r =
    let top = after_conditions (opened b) bs in
    let seen = after_conditions-seen (opened b) bs refl in
    let before = active_after c b bs r in
    (
      ap in_active_branch (
            follow c b bs (elif_directive x ∷ []) r
            ∙ handle_elifs top c.conditional_stack (x ∷ []) (not_ended b bs))
          ∙ elif_info-active x top seen
          ∙ ap (λ a. not a && x) (sym before),
      ap in_active_branch (
            follow c b bs (else_directive ∷ []) r
            ∙ handle_else top c.conditional_stack (not_ended b bs))
          ∙ else_info-active top seen
          ∙ ap not (sym before),
    )

conditions-append :
    (b : Bool) (bs : List Bool) (x : Bool) (ds : List Directive)
    → conditions b bs ++ (elif_directive x ∷ ds) ≡ conditions b (bs ++ (x ∷ [])) ++ ds
conditions-append b bs x ds =
    ap (λ es. if_directive b ∷ es)
      (rw (map-append elif_directive bs (x ∷ []))
        (sym (append_assoc (map elif_directive bs) (elif_directive x ∷ []) ds)))

-- In an active region: if the last branch so far is active, then behind one more `#elif` the
-- `#else` branch is active too, so that a conditional has two active branches.
pub else_reopens :
    (c : Conditionals) (b : Bool) (bs : List Bool) (x : Bool)
    → IsReading c
    → in_active_branch (handle_all (conditions b bs) c) ≡ true
    → in_active_branch (handle_all (conditions b bs ++ (elif_directive x ∷ else_directive ∷ [])) c)
      ≡ true
else_reopens c b bs x r a =
    ap (λ ds. in_active_branch (handle_all ds c)) (conditions-append b bs x (else_directive ∷ []))
    ∙ (branch_next c b (bs ++ (x ∷ [])) x r).1
    ∙ ap not
        (ap (λ ds. in_active_branch (handle_all ds c)) (sym split) ∙ (branch_next c b bs x r).0)
    ∙ rw a refl
  where
    split : conditions b bs ++ (elif_directive x ∷ []) ≡ conditions b (bs ++ (x ∷ []))
    split = conditions-append b bs x [] ∙ append-nil (conditions b (bs ++ (x ∷ [])))
