-- ===== src/Preprocess/Skip.antt =====
-- Inactive regions of a run: what the lines there leave as it is.
use mathlib.Core.Path.{subst}
use glsld.Prelude.{◌≡◌, refl, sym, ap, ◌∙◌, false, List, [], ◌∷◌, inl, inr, Bool-cases, ◌⊎◌}
use glsld.Token.{PpToken, TokenKlass, is_klass}
use glsld.MacroTable.{MacroTable}
use glsld.Conditional.{Conditionals, in_active_branch}
use glsld.Preprocess.Defs.{PreprocessorState, inactive, expect_directive, Services, Machine}
use glsld.Preprocess.Steps.{
  is_directive_start, ends_directive, dispatch_pp_directive, transition_to_expect_directive_state,
  transition_to_inactive_state, can_turn_inactive, accept_on_inactive_state, finish_directive,
  state_after_name, may_change_conditionals, accept_on_expect_directive_state, dispatch_token_in,
  dispatch_token_to_handler, flush_trivia, feed_pp_token, is_halted, is_fed, preprocess_tokens,
}
use glsld.Preprocess.Safety.{Runs}
use glsld.Preprocess.Run.{bind-Runs, preprocess-fed, preprocess-dropped}

module _ (s : Services) where
  -- Before a directive's name: between the lines, or behind the `#`.
  abbrev pub BeforeName : Machine s → Type 0
  BeforeName m =
      (m.state ≡ inactive)
      ⊎ ((m.state ≡ expect_directive) × ((hash : PpToken) × (m.directive_tok_buffer ≡ hash ∷ [])))

  -- In an inactive region with the conditionals `c` and the macros `macros`.
  pub record IsSkipping (c : Conditionals) (macros : MacroTable) (m : Machine s) : Type 0 where
    pub before_name : BeforeName m
    pub same_conditionals : m.conditionals ≡ c
    pub same_macros : m.macro_table ≡ macros

  -- Neither the end of the file nor the name of a directive that changes the conditionals.
  abbrev pub IsSkipped : PpToken → Type 0
  IsSkipped t =
      (is_klass t.klass TokenKlass.eof ≡ false) × (may_change_conditionals s t.text ≡ false)

  abbrev pub AllSkipped : List PpToken → Type 0
  AllSkipped [] = Unit
  AllSkipped (t ∷ ts) = IsSkipped t × AllSkipped ts

  dispatch-hash :
      (hash : PpToken) (ts : List PpToken) (m : Machine s)
      → ts ≡ hash ∷ []
      → dispatch_pp_directive s ts m ≡ m
  unfolding dispatch_pp_directive
  dispatch-hash hash ts m b = rw b refl

  module _ (c : Conditionals) (macros : MacroTable) (in_inactive : in_active_branch c ≡ false) where
    accept-IsSkipping :
        (t : PpToken) (m : Machine s)
        → m.state ≡ inactive
        → m.conditionals ≡ c
        → m.macro_table ≡ macros
        → IsSkipped t
        → Runs (IsSkipping c macros) (accept_on_inactive_state s t m)
    unfolding accept_on_inactive_state transition_to_expect_directive_state
    accept-IsSkipping t m e hc hm k = elim (Bool-cases (is_directive_start t)) [
      | inl d ↦
          rw (k.0, d, e)
            (record {
              before_name = inr (refl, (t, refl));
              same_conditionals = hc;
              same_macros = hm;
            })
      | inr d ↦
          rw (k.0, d) (record { before_name = inl e; same_conditionals = hc; same_macros = hm })
    ]

    finish-IsSkipping :
        (t hash : PpToken) (m : Machine s)
        → m.state ≡ expect_directive
        → m.directive_tok_buffer ≡ hash ∷ []
        → m.conditionals ≡ c
        → m.macro_table ≡ macros
        → IsSkipped t
        → Runs (IsSkipping c macros) (finish_directive s t m)
    unfolding finish_directive transition_to_inactive_state can_turn_inactive
    finish-IsSkipping t hash m e b hc hm k =
        let off : in_active_branch m.conditionals ≡ false = ap in_active_branch hc ∙ in_inactive in
        rw (dispatch-hash hash m.directive_tok_buffer m b, off, e)
          (accept-IsSkipping t (record m { state = inactive }) refl hc hm k)

    name-IsSkipping :
        (t hash : PpToken) (m : Machine s)
        → m.state ≡ expect_directive
        → m.directive_tok_buffer ≡ hash ∷ []
        → m.conditionals ≡ c
        → m.macro_table ≡ macros
        → IsSkipped t
        → Runs (IsSkipping c macros) (accept_on_expect_directive_state s t m)
    unfolding accept_on_expect_directive_state state_after_name
    name-IsSkipping t hash m e b hc hm k =
        let off : in_active_branch m.conditionals ≡ false = ap in_active_branch hc ∙ in_inactive in
        elim (Bool-cases (ends_directive t)) [
          | inl d ↦ rw d (finish-IsSkipping t hash m e b hc hm k)
          | inr d ↦ rw d (record {
            before_name = inl (rw (off, k.1) refl);
            same_conditionals = hc;
            same_macros = hm;
          })
        ]

    dispatch-IsSkipping :
        (t : PpToken) (m : Machine s)
        → IsSkipping c macros m
        → IsSkipped t
        → Runs (IsSkipping c macros) (dispatch_token_to_handler s t m)
    unfolding dispatch_token_to_handler dispatch_token_in
    dispatch-IsSkipping t m h k = elim h.before_name [
      | inl e ↦ in_state (sym e) (accept-IsSkipping t m e h.same_conditionals h.same_macros k)
      | inr (e, (hash, b)) ↦
          in_state (sym e) (name-IsSkipping t hash m e b h.same_conditionals h.same_macros k)
    ]
      where
        in_state :
            {st : PreprocessorState}
            → st ≡ m.state
            → Runs (IsSkipping c macros) (dispatch_token_in s st t m)
            → Runs (IsSkipping c macros) (dispatch_token_in s m.state t m)
        in_state = subst (λ st. Runs (IsSkipping c macros) (dispatch_token_in s st t m))

    feed-IsSkipping :
        (t : PpToken) (m : Machine s)
        → IsSkipping c macros m
        → IsSkipped t
        → Runs (IsSkipping c macros) (feed_pp_token s t m)
    unfolding feed_pp_token flush_trivia
    feed-IsSkipping t m h k = elim (Bool-cases (is_klass t.klass TokenKlass.comment)) [
      | inl d ↦ rw d (record {
        before_name = h.before_name;
        same_conditionals = h.same_conditionals;
        same_macros = h.same_macros;
      })
      | inr d ↦ rw d (
          bind-Runs s (IsSkipping c macros) (dispatch_token_to_handler s t (flush_trivia s t m)) _
            (dispatch-IsSkipping t (flush_trivia s t m)
              (record {
                before_name = h.before_name;
                same_conditionals = h.same_conditionals;
                same_macros = h.same_macros;
              })
              k)
            (λ m' h'. rw k.0 h'))
    ]

    not_halted : (m : Machine s) → BeforeName m → is_halted s m.state ≡ false
    not_halted m b = elim b [ inl e ↦ rw e refl | inr (e, q) ↦ rw e refl ]

    -- In an inactive region tokens that are neither the end of the file nor the name of a directive
    -- of conditionals run without a failed assertion of a transition, and leave the conditionals and the macro table
    -- as they are: what is defined or included there has no effect.
    pub preprocess_tokens-IsSkipping :
        (ts : List PpToken) (m : Machine s)
        → IsSkipping c macros m
        → AllSkipped ts
        → Runs (IsSkipping c macros) (preprocess_tokens s ts m)
    unfolding preprocess_tokens
    preprocess_tokens-IsSkipping [] m h k = h
    preprocess_tokens-IsSkipping (t ∷ ts) m h k = elim (Bool-cases (is_fed s m.state t)) [
      | inl f ↦ rw (preprocess-fed s t ts m (not_halted m h.before_name) k.0.0 f) (
          bind-Runs s (IsSkipping c macros) (feed_pp_token s t m) _ (feed-IsSkipping t m h k.0)
            (λ m' h'. preprocess_tokens-IsSkipping ts m' h' k.1))
      | inr f ↦
          rw (preprocess-dropped s t ts m (not_halted m h.before_name) k.0.0 f)
            (preprocess_tokens-IsSkipping ts m h k.1)
    ]
