-- ===== src/Preprocess/Dispatch.antt =====
-- What the handlers of directives leave as it is: the state of the machine, the nesting of the
-- conditionals, and, for `#include`, the conditionals altogether.
use mathlib.Core.Path.{subst}
use glsld.Prelude.{
  ◌≡◌, refl, sym, true, false, List, [], ◌∷◌, Option, none, some, inl, inr, Bool-cases, if_both,
}
use glsld.Token.{PpToken, Bytes, text_eq}
use glsld.MacroTable.{MacroTable}
use glsld.Conditional.{
  Directive, if_directive, ifdef_directive, elif_directive, else_directive, endif_directive,
}
use glsld.Conditional.Region.{IsNested, handle-IsNested}
use glsld.Preprocess.Atoms.{
  directive_include, directive_define, directive_undef, directive_if, directive_ifdef,
  directive_ifndef, directive_else, directive_elif, directive_endif,
}
use glsld.Preprocess.Defs.{
  PreprocessorState, expect_directive, expect_default_directive_tail, expect_include_directive_tail,
  Services, Machine, evaluate_pp_expression,
}
use glsld.Preprocess.Steps.{
  ifdef_condition, apply_directive, include_header, handle_include_directive, dispatch_named,
  dispatch_pp_directive,
}

-- The tokens of the directive that is being read: the `#` first, then its name.
abbrev pub BufferFits : PreprocessorState → List PpToken → Type 0
BufferFits expect_directive [] = ⊥
BufferFits expect_directive (h ∷ []) = Unit
BufferFits expect_directive (h ∷ (t ∷ ts)) = ⊥
BufferFits expect_default_directive_tail [] = ⊥
BufferFits expect_default_directive_tail (h ∷ []) = ⊥
BufferFits expect_default_directive_tail (h ∷ (t ∷ ts)) = Unit
BufferFits expect_include_directive_tail [] = ⊥
BufferFits expect_include_directive_tail (h ∷ []) = ⊥
BufferFits expect_include_directive_tail (h ∷ (t ∷ ts)) = text_eq t.text directive_include ≡ true
BufferFits _ ts = Unit

module _ (s : Services) where
  -- A directive leaves the state of the machine alone, and the stack of conditionals nested.
  pub record Handled (m m' : Machine s) : Type 0 where
    pub handled : IsNested m'.conditionals
    pub kept_state : m'.state ≡ m.state

  include_header-conditionals :
      (o : Option (PpToken × List PpToken)) (m : Machine s)
      → ((include_header s o m).conditionals ≡ m.conditionals)
        × ((include_header s o m).state ≡ m.state)
  include_header-conditionals none m = (refl, refl)
  include_header-conditionals (some (h, ts)) m = (refl, refl)

  handle_include-conditionals :
      (ts : List PpToken) (m : Machine s)
      → ((handle_include_directive s ts m).conditionals ≡ m.conditionals)
        × ((handle_include_directive s ts m).state ≡ m.state)
  unfolding handle_include_directive
  handle_include-conditionals ts m =
      if_both (λ m'. (m'.conditionals ≡ m.conditionals) × (m'.state ≡ m.state)) _ m _ (refl, refl)
        (include_header-conditionals _ m)

  dispatch_named-Handled :
      (name : Bytes) (ts : List PpToken) (m : Machine s)
      → IsNested m.conditionals
      → Handled m (dispatch_named s name ts m)
  unfolding dispatch_named
  dispatch_named-Handled name ts m n = elim (Bool-cases (text_eq name directive_include)) [
    | inl e ↦ rw e (include_kept _ (handle_include-conditionals ts m))
    | inr e ↦ rw e (elim (Bool-cases (text_eq name directive_define)) [
      | inl e ↦ rw e (kept _)
      | inr e ↦ rw e (elim (Bool-cases (text_eq name directive_undef)) [
        | inl e ↦ rw e (kept _)
        | inr e ↦ rw e (elim (Bool-cases (text_eq name directive_if)) [
          | inl e ↦ rw e (applied (if_directive (evaluate_pp_expression s m.macro_table ts)))
          | inr e ↦ rw e (elim (Bool-cases (text_eq name directive_ifdef)) [
            | inl e ↦ rw e (applied (ifdef_directive (ifdef_condition false m.macro_table ts)))
            | inr e ↦ rw e (elim (Bool-cases (text_eq name directive_ifndef)) [
              | inl e ↦ rw e (applied (ifdef_directive (ifdef_condition true m.macro_table ts)))
              | inr e ↦ rw e (elim (Bool-cases (text_eq name directive_else)) [
                | inl e ↦ rw e (applied else_directive)
                | inr e ↦ rw e (elim (Bool-cases (text_eq name directive_elif)) [
                  | inl e ↦
                      rw e (applied (elif_directive (evaluate_pp_expression s m.macro_table ts)))
                  | inr e ↦ rw e (elim (Bool-cases (text_eq name directive_endif)) [
                    | inl e ↦ rw e (applied endif_directive)
                    | inr e ↦ rw e (stays)
                  ])
                ])
              ])
            ])
          ])
        ])
      ])
    ])
  ]
    where
      kept : (t : MacroTable) → Handled m (record m { macro_table = t })
      kept t = (record { handled = n; kept_state = refl })

      stays : Handled m m
      stays = record { handled = n; kept_state = refl }

      applied : (d : Directive) → Handled m (apply_directive s d m)
      applied d = record { handled = handle-IsNested d m.conditionals n; kept_state = refl }

      include_kept :
          (m' : Machine s)
          → (m'.conditionals ≡ m.conditionals) × (m'.state ≡ m.state)
          → Handled m m'
      include_kept m' e = record { handled = subst IsNested (sym e.0) n; kept_state = e.1 }

  dispatch_named-include :
      (name : Bytes) (ts : List PpToken) (m : Machine s)
      → text_eq name directive_include ≡ true
      → (dispatch_named s name ts m).conditionals ≡ m.conditionals
  unfolding dispatch_named
  dispatch_named-include name ts m e = rw e (handle_include-conditionals ts m).0

  pub dispatch-Handled :
      (ts : List PpToken) (m : Machine s)
      → IsNested m.conditionals
      → Handled m (dispatch_pp_directive s ts m)
  unfolding dispatch_pp_directive
  dispatch-Handled [] m n = (record { handled = n; kept_state = refl })
  dispatch-Handled (hash ∷ []) m n = (record { handled = n; kept_state = refl })
  dispatch-Handled (hash ∷ (t ∷ ts)) m n = dispatch_named-Handled t.text ts m n

  pub dispatch-include :
      (ts : List PpToken) (m : Machine s)
      → BufferFits expect_include_directive_tail ts
      → (dispatch_pp_directive s ts m).conditionals ≡ m.conditionals
  unfolding dispatch_pp_directive
  dispatch-include [] m b = absurd b
  dispatch-include (hash ∷ []) m b = absurd b
  dispatch-include (hash ∷ (t ∷ ts)) m b = dispatch_named-include t.text ts m b
