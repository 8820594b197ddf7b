-- ===== src/Conditional.antt =====
-- glsld-core/src/Compiler/Preprocessor.cpp, lines 713 to 868: the handlers of `#if`, `#ifdef`,
-- `#ifndef`, `#elif`, `#else` and `#endif` on the stack of conditionals. The head of the list is the
-- back of the stack. The callbacks only report, and are not modelled.
pub mod Region
pub mod Chain
pub mod Tests
use glsld.Prelude.{
  ℕ, zero, suc, ◌+◌, ◌-◌, Bool, true, false, not, ◌&&◌, List, [], ◌∷◌, Option, none, some, ltb,
  if◌then◌else◌,
}

pub record PpConditionalInfo : Type 0 where
  pub active : Bool
  pub seen_active_branch : Bool
  pub seen_else : Bool

pub record Conditionals : Type 0 where
  pub conditional_stack : List PpConditionalInfo
  pub skipped_inactive_conditional_count : ℕ

-- The directives with what they find: the value of the expression of `#if` and `#elif`; for
-- `#ifdef` and `#ifndef` whether the branch is active, or `none` if no macro name follows.
pub data Directive : Type 0 where
  if_directive : Bool → Directive
  ifdef_directive : Option Bool → Directive
  elif_directive : Bool → Directive
  else_directive : Directive
  endif_directive : Directive

-- `conditionalStack.empty() || conditionalStack.back().active`.
abbrev pub active_top : List PpConditionalInfo → Bool
active_top [] = true
active_top (i ∷ is) = i.active

unfoldable pub in_active_branch : Conditionals → Bool
in_active_branch c = active_top c.conditional_stack

abbrev pub opened : Bool → PpConditionalInfo
opened b = record { active = b; seen_active_branch = b; seen_else = false }

abbrev pub push_conditional : Bool → Conditionals → Conditionals
push_conditional b c = record c { conditional_stack = opened b ∷ c.conditional_stack }

abbrev pub skip_conditional : Conditionals → Conditionals
skip_conditional c = record c {
  skipped_inactive_conditional_count = c.skipped_inactive_conditional_count + 1;
}

unfoldable pub handle_if_directive : Bool → Conditionals → Conditionals
unfolding in_active_branch
handle_if_directive eval_to_true c =
    if not (in_active_branch c) then skip_conditional c else push_conditional eval_to_true c

abbrev pub push_if_named : Option Bool → Conditionals → Conditionals
push_if_named none c = c
push_if_named (some is_active) c = push_conditional is_active c

unfoldable pub handle_ifdef_directive : Option Bool → Conditionals → Conditionals
unfolding in_active_branch
handle_ifdef_directive is_active c =
    if not (in_active_branch c) then skip_conditional c else push_if_named is_active c

-- The assignments at the end of the two handlers, to the entry on top.
unfoldable pub elif_info : Bool → PpConditionalInfo → PpConditionalInfo
elif_info eval_to_true i =
    let active = not i.seen_active_branch && eval_to_true in
    record i { active = active; seen_active_branch = active }

unfoldable pub else_info : PpConditionalInfo → PpConditionalInfo
else_info i = record i {
  active = not i.seen_active_branch;
  seen_active_branch = true;
  seen_else = true;
}

abbrev pub change_top :
    (PpConditionalInfo → PpConditionalInfo) → List PpConditionalInfo → List PpConditionalInfo
change_top f [] = []
change_top f (i ∷ is) = if i.seen_else then i ∷ is else f i ∷ is

unfoldable pub handle_elif_directive : Bool → Conditionals → Conditionals
unfolding elif_info
handle_elif_directive eval_to_true c =
    if ltb 0 c.skipped_inactive_conditional_count
    then c
    else record c { conditional_stack = change_top (elif_info eval_to_true) c.conditional_stack }

unfoldable pub handle_else_directive : Conditionals → Conditionals
unfolding else_info
handle_else_directive c =
    if ltb 0 c.skipped_inactive_conditional_count
    then c
    else record c { conditional_stack = change_top else_info c.conditional_stack }

abbrev pub pop_top : List PpConditionalInfo → List PpConditionalInfo
pop_top [] = []
pop_top (i ∷ is) = is

unfoldable pub handle_endif_directive : Conditionals → Conditionals
handle_endif_directive c =
    if ltb 0 c.skipped_inactive_conditional_count
    then record c { skipped_inactive_conditional_count = c.skipped_inactive_conditional_count - 1 }
    else record c { conditional_stack = pop_top c.conditional_stack }

unfoldable pub handle : Directive → Conditionals → Conditionals
unfolding handle_if_directive handle_ifdef_directive handle_elif_directive handle_else_directive
    handle_endif_directive
handle (if_directive b) = handle_if_directive b
handle (ifdef_directive o) = handle_ifdef_directive o
handle (elif_directive b) = handle_elif_directive b
handle else_directive = handle_else_directive
handle endif_directive = handle_endif_directive

unfoldable pub handle_all : List Directive → Conditionals → Conditionals
unfolding handle
handle_all [] c = c
handle_all (d ∷ ds) c = handle_all ds (handle d c)
