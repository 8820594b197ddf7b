-- ===== src/Conditional/Tests.antt =====
-- Inputs for the theorems about conditionals.
use glsld.Prelude.{◌≡◌, refl, true, false, List, [], ◌∷◌, ◌++◌, some}
use glsld.Conditional.{
  Conditionals, Directive, if_directive, ifdef_directive, elif_directive, else_directive,
  endif_directive, in_active_branch, handle, handle_all, opened,
}
use glsld.Conditional.Region.{
  IsNested, handle-IsNested, Closes, nothing, opens, branches, ends, handle_all-inactive,
}
use glsld.Conditional.Chain.{
  IsReading, conditions, handle_all-closed, branch-AllFalse, else_reopens,
}

abbrev outside : Conditionals
outside = record { conditional_stack = []; skipped_inactive_conditional_count = 0 }

abbrev disabled : Conditionals
disabled = record { conditional_stack = opened false ∷ []; skipped_inactive_conditional_count = 0 }

outside-IsReading : IsReading outside
unfolding in_active_branch
outside-IsReading = record { in_active = refl; none_skipped = refl }

handle-IsNested_example : IsNested (handle (if_directive true) disabled)
handle-IsNested_example =
    handle-IsNested (if_directive true) disabled (record { below = tt; counted = λ e. refl })

abbrev nested : List Directive
nested =
    ifdef_directive (some true)
    ∷ elif_directive true
    ∷ if_directive true
    ∷ endif_directive
    ∷ else_directive
    ∷ endif_directive
    ∷ []

nested-Closes : Closes 0 nested
nested-Closes = opens refl (branches refl (opens refl (ends (branches refl (ends nothing)))))

handle_all-inactive_example : handle_all nested disabled ≡ disabled
unfolding in_active_branch
handle_all-inactive_example = handle_all-inactive disabled nested refl nested-Closes

handle_all-closed_example :
    (handle_all (conditions true (false ∷ []) ++ (endif_directive ∷ [])) outside ≡ outside)
    × (handle_all (conditions true (false ∷ []) ++ (else_directive ∷ endif_directive ∷ [])) outside
        ≡ outside)
handle_all-closed_example = handle_all-closed outside true (false ∷ []) outside-IsReading

branch-AllFalse_example :
    (in_active_branch (handle_all (conditions false (false ∷ [])) outside) ≡ false)
    × (in_active_branch
          (handle_all (conditions false (false ∷ []) ++ (elif_directive true ∷ [])) outside)
        ≡ true)
    × (in_active_branch
          (handle_all (conditions false (false ∷ []) ++ (else_directive ∷ [])) outside)
        ≡ true)
branch-AllFalse_example = branch-AllFalse outside (false ∷ []) true outside-IsReading (refl, tt)

-- `#if 1`, `#elif 0`, `#else`: both the first and the last branch are active.
else_reopens_example :
    in_active_branch
      (handle_all (conditions true [] ++ (elif_directive false ∷ else_directive ∷ [])) outside)
    ≡ true
unfolding in_active_branch handle_all
else_reopens_example = else_reopens outside true [] false outside-IsReading refl
