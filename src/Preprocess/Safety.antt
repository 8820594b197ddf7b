-- ===== src/Preprocess/Safety.antt =====
-- The assertions on the state in the transitions of Preprocessor.h and Preprocessor.cpp: what keeps
-- them from failing before the end of the file.
use mathlib.Core.Path.{subst}
use glsld.Prelude.{
  ◌≡◌, ◌⊎◌, refl, sym, ap, ◌∙◌, Bool, true, false, List, [], ◌∷◌, ◌++◌, Option, none, some, inl,
  inr, Bool-cases,
}
use glsld.Token.{PpToken, TokenKlass, Bytes, text_eq, is_klass}
use glsld.Conditional.{in_active_branch}
use glsld.Conditional.Region.{IsNested}
use glsld.Preprocess.Atoms.{directive_include}
use glsld.Preprocess.Defs.{
  PreprocessorState, default, halt, inactive, expect_directive, expect_default_directive_tail,
  expect_include_directive_tail, Services, Machine,
}
use glsld.Preprocess.Steps.{
  is_directive_start, ends_directive, dispatch_pp_directive, is_expecting,
  transition_to_expect_directive_state, accept_on_default_state, accept_on_inactive_state,
  transition_to_default_state, transition_to_inactive_state, can_turn_inactive, finish_directive,
  state_after_name, may_change_conditionals, accept_on_expect_directive_state,
  accept_on_expect_directive_tail_state, dispatch_token_in, is_halted,
}
use glsld.Preprocess.Dispatch.{BufferFits, dispatch-Handled, dispatch-include}

-- The region that a state belongs to; behind a `#` it is either.
abbrev pub RegionFits : PreprocessorState → Bool → Type 0
RegionFits default active = active ≡ true
RegionFits inactive active = active ≡ false
RegionFits expect_include_directive_tail active = active ≡ true
RegionFits _ active = Unit

-- What holds of the result, which is there.
abbrev pub Runs : {A : Type 0} → (A → Type 0) → Option A → Type 0
Runs P none = ⊥
Runs P (some a) = P a

module _ (s : Services) where
  -- The state fits the conditionals and the buffered directive, and the machine has not halted. It
  -- holds of a machine in the default state with no conditionals.
  pub record IsSound (m : Machine s) : Type 0 where
    pub nested : IsNested m.conditionals
    pub region : RegionFits m.state (in_active_branch m.conditionals)
    pub buffered : BufferFits m.state m.directive_tok_buffer
    pub running : is_halted s m.state ≡ false

  default-IsSound :
      (t : PpToken) (m : Machine s)
      → m.state ≡ default
      → IsNested m.conditionals
      → in_active_branch m.conditionals ≡ true
      → Runs IsSound (accept_on_default_state s t m)
  unfolding accept_on_default_state transition_to_expect_directive_state
  default-IsSound t m e n a = elim (Bool-cases (is_klass t.klass TokenKlass.eof)) [
    | inl k ↦ rw k stays
    | inr k ↦ elim (Bool-cases (is_directive_start t)) [
      | inl d ↦ rw (k, d, e) (record { nested = n; region = tt; buffered = tt; running = refl })
      | inr d ↦ rw (k, d) stays
    ]
  ]
    where
      stays : {out : s.Output} → IsSound (record m { output = out })
      stays = record { nested = n; region = rw e a; buffered = rw e tt; running = rw e refl }

  inactive-IsSound :
      (t : PpToken) (m : Machine s)
      → m.state ≡ inactive
      → IsNested m.conditionals
      → in_active_branch m.conditionals ≡ false
      → Runs IsSound (accept_on_inactive_state s t m)
  unfolding accept_on_inactive_state transition_to_expect_directive_state
  inactive-IsSound t m e n a = elim (Bool-cases (is_klass t.klass TokenKlass.eof)) [
    | inl k ↦ rw k stays
    | inr k ↦ elim (Bool-cases (is_directive_start t)) [
      | inl d ↦ rw (k, d, e) (record { nested = n; region = tt; buffered = tt; running = refl })
      | inr d ↦ rw (k, d) stays
    ]
  ]
    where
      stays : IsSound m
      stays = record { nested = n; region = rw e a; buffered = rw e tt; running = rw e refl }

  finish_directive-IsSound :
      (t : PpToken) (m : Machine s)
      → IsNested m.conditionals
      → is_expecting s m.state ≡ true
      → (can_turn_inactive s m.state ≡ true)
        ⊎ (in_active_branch (dispatch_pp_directive s m.directive_tok_buffer m).conditionals ≡ true)
      → Runs IsSound (finish_directive s t m)
  unfolding finish_directive transition_to_default_state transition_to_inactive_state
  finish_directive-IsSound t m n e c =
      let m' = dispatch_pp_directive s m.directive_tok_buffer m in
      let h = dispatch-Handled s m.directive_tok_buffer m n in
      let e' : is_expecting s m'.state ≡ true = ap (is_expecting s) h.kept_state ∙ e in
      elim (Bool-cases (in_active_branch m'.conditionals)) [
        | inl a ↦ rw (a, e') (default-IsSound t (record m' { state = default }) refl h.handled a)
        | inr a ↦ elim c [
          | inl c ↦
              let c' : can_turn_inactive s m'.state ≡ true =
                ap (can_turn_inactive s) h.kept_state ∙ c in
              rw (a, c') (inactive-IsSound t (record m' { state = inactive }) refl h.handled a)
          | inr c ↦ absurd (clash c a)
        ]
      ]
    where
      clash : {x : Bool} → x ≡ true → x ≡ false → ⊥
      clash t f = cc

  -- The token behind the `#`, in the buffer.
  append_name-BufferFits :
      (b : Bool) (t : PpToken) (ts : List PpToken)
      → BufferFits expect_directive ts
      → BufferFits (state_after_name s b t.text) (ts ++ (t ∷ []))
  unfolding state_after_name
  append_name-BufferFits b t [] h = absurd h
  append_name-BufferFits true t (hash ∷ []) h =
      elim (Bool-cases (text_eq t.text directive_include)) [ inl e ↦ rw e e | inr e ↦ rw e tt ]
  append_name-BufferFits false t (hash ∷ []) h =
      elim (Bool-cases (may_change_conditionals s t.text)) [ inl e ↦ rw e tt | inr e ↦ rw e tt ]
  append_name-BufferFits b t (hash ∷ (u ∷ us)) h = absurd h

  state_after_name-RegionFits :
      (b : Bool) (name : Bytes)
      → RegionFits (state_after_name s b name) b × (is_halted s (state_after_name s b name) ≡ false)
  unfolding state_after_name
  state_after_name-RegionFits true name = elim (Bool-cases (text_eq name directive_include)) [
    | inl e ↦ rw e (refl, refl)
    | inr e ↦ rw e (tt, refl)
  ]
  state_after_name-RegionFits false name = elim (Bool-cases (may_change_conditionals s name)) [
    | inl e ↦ rw e (tt, refl)
    | inr e ↦ rw e (refl, refl)
  ]

  name-IsSound :
      (t : PpToken) (m : Machine s)
      → m.state ≡ expect_directive
      → IsSound m
      → Runs IsSound (accept_on_expect_directive_state s t m)
  unfolding accept_on_expect_directive_state
  name-IsSound t m e h = elim (Bool-cases (ends_directive t)) [
    | inl d ↦ rw d (finish_directive-IsSound t m h.nested (rw e refl) (inl (rw e refl)))
    | inr d ↦
        let r = state_after_name-RegionFits (in_active_branch m.conditionals) t.text in
        rw d (record {
          nested = h.nested;
          region = r.0;
          buffered =
              append_name-BufferFits _ t m.directive_tok_buffer
                (subst (λ st. BufferFits st m.directive_tok_buffer) e h.buffered);
          running = r.1;
        })
  ]

  append-BufferFits-default :
      (t : PpToken) (ts : List PpToken)
      → BufferFits expect_default_directive_tail ts
      → BufferFits expect_default_directive_tail (ts ++ (t ∷ []))
  append-BufferFits-default t [] b = absurd b
  append-BufferFits-default t (h ∷ []) b = absurd b
  append-BufferFits-default t (h ∷ (u ∷ us)) b = tt

  append-BufferFits-include :
      (t : PpToken) (ts : List PpToken)
      → BufferFits expect_include_directive_tail ts
      → BufferFits expect_include_directive_tail (ts ++ (t ∷ []))
  append-BufferFits-include t [] b = absurd b
  append-BufferFits-include t (h ∷ []) b = absurd b
  append-BufferFits-include t (h ∷ (u ∷ us)) b = b

  default_tail-IsSound :
      (t : PpToken) (m : Machine s)
      → m.state ≡ expect_default_directive_tail
      → IsSound m
      → Runs IsSound (accept_on_expect_directive_tail_state s t m)
  unfolding accept_on_expect_directive_tail_state
  default_tail-IsSound t m e h = elim (Bool-cases (ends_directive t)) [
    | inl d ↦ rw d (finish_directive-IsSound t m h.nested (rw e refl) (inl (rw e refl)))
    | inr d ↦ rw d (record {
      nested = h.nested;
      region = h.region;
      buffered = rw e (
          append-BufferFits-default t m.directive_tok_buffer
            (subst (λ st. BufferFits st m.directive_tok_buffer) e h.buffered));
      running = h.running;
    })
  ]

  -- Nothing that an `#include` does makes the region inactive, so the assertion holds that the
  -- machine does not turn inactive there.
  include_tail-IsSound :
      (t : PpToken) (m : Machine s)
      → m.state ≡ expect_include_directive_tail
      → IsSound m
      → Runs IsSound (accept_on_expect_directive_tail_state s t m)
  unfolding accept_on_expect_directive_tail_state
  include_tail-IsSound t m e h = elim (Bool-cases (ends_directive t)) [
    | inl d ↦ rw d (
        finish_directive-IsSound t m h.nested (rw e refl) (
          inr
            (ap in_active_branch (dispatch-include s m.directive_tok_buffer m buffered) ∙ active)))
    | inr d ↦ rw d (record {
      nested = h.nested;
      region = h.region;
      buffered = rw e (append-BufferFits-include t m.directive_tok_buffer buffered);
      running = h.running;
    })
  ]
    where
      buffered : BufferFits expect_include_directive_tail m.directive_tok_buffer
      buffered = subst (λ st. BufferFits st m.directive_tok_buffer) e h.buffered

      active : in_active_branch m.conditionals ≡ true
      active = subst (λ st. RegionFits st (in_active_branch m.conditionals)) e h.region

  pub dispatch_token_in-IsSound :
      (st : PreprocessorState) (t : PpToken) (m : Machine s)
      → m.state ≡ st
      → IsSound m
      → Runs IsSound (dispatch_token_in s st t m)
  unfolding dispatch_token_in
  dispatch_token_in-IsSound default t m e h =
      default-IsSound t m e h.nested
        (subst (λ st. RegionFits st (in_active_branch m.conditionals)) e h.region)
  dispatch_token_in-IsSound halt t m e h = absurd (halted (sym (ap (is_halted s) e) ∙ h.running))
    where
      halted : true ≡ false → ⊥
      halted c = cc
  dispatch_token_in-IsSound inactive t m e h =
      inactive-IsSound t m e h.nested
        (subst (λ st. RegionFits st (in_active_branch m.conditionals)) e h.region)
  dispatch_token_in-IsSound expect_directive t m e h = name-IsSound t m e h
  dispatch_token_in-IsSound expect_default_directive_tail t m e h = default_tail-IsSound t m e h
  dispatch_token_in-IsSound expect_include_directive_tail t m e h = include_tail-IsSound t m e h
