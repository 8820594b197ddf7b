-- ===== src/Expansion/Sound.antt =====
-- What `Feed` keeps: the state of a processor in which the assertions of `Feed` hold.
use glsld.Prelude.{◌≡◌, ◌⊎◌, inl, inr, refl, true, false, List, [], ◌∷◌, Option, none, some, ◌==◌}
use glsld.Token.{PpToken, TokenKlass, Bytes, is_klass}
use glsld.MacroTable.{MacroTable}
use glsld.Expansion.State.{
  Result, done, failed, InvocationArgumentInfo, Entry, Fields, Processor, plain, collecting,
  new_processor,
}
use glsld.Expansion.Feed.{Expand, revoke, finalize_fields, finalize, is_nil}
use glsld.Expansion.Outcome.{Good, Each}
use glsld.Expansion.Disabled.{IsEnabled}

-- Only where `F` holds may the token be the end of the file.
abbrev pub Kept : Type 0 → PpToken → Type 0
Kept F t = is_klass t.klass TokenKlass.eof ≡ true → F

abbrev pub IsPending : MacroTable → List Bytes → Option Entry → Type 0
IsPending table disabled none = ⊥
IsPending table disabled (some entry) = IsEnabled table disabled entry

-- Nothing is withheld.
pub record IsIdle (f : Fields) : Type 0 where
  pub nothing_withheld : is_nil f.witheld_tokens ≡ true
  pub no_level : (f.arg_l_paren_counter == 0) ≡ true
  pub no_macro : f.pending_invoked_macro ≡ none

-- The name of an enabled function-like macro is withheld.
pub record IsNamed (table : MacroTable) (disabled : List Bytes) (f : Fields) : Type 0 where
  pub name_withheld : is_nil f.witheld_tokens ≡ false
  pub no_arguments : is_nil f.invocation_arguments ≡ true
  pub no_level : (f.arg_l_paren_counter == 0) ≡ true
  pub pending : IsPending table disabled f.pending_invoked_macro

-- An argument list is open.
pub record IsCollecting (F : Type 0) (table : MacroTable) (disabled : List Bytes) (f : Fields)
    : Type 0 where
  pub name_withheld : is_nil f.witheld_tokens ≡ false
  pub arguments : is_nil f.invocation_arguments ≡ false
  pub level : (f.arg_l_paren_counter == 0) ≡ false
  pub pending : IsPending table disabled f.pending_invoked_macro
  pub kept : Each (Kept F) f.witheld_tokens

abbrev pub IsSound : Type 0 → MacroTable → List Bytes → Processor → Type 0
IsSound F table disabled (plain f) =
    IsIdle f ⊎ (IsNamed table disabled f × Each (Kept F) f.witheld_tokens)
IsSound F table disabled (collecting f a) =
    IsCollecting F table disabled f × IsSound F table disabled a

abbrev pub IsFed : Type 0 → MacroTable → List Bytes → Processor × List PpToken → Type 0
IsFed F table disabled r = IsSound F table disabled r.0 × Each (Kept F) r.1

pub new_processor-IsSound :
    (F : Type 0) (table : MacroTable) (disabled : List Bytes)
    → IsSound F table disabled new_processor
new_processor-IsSound F table disabled =
    inl (record { nothing_withheld = refl; no_level = refl; no_macro = refl })

-- Expansions of enabled macros are good.
abbrev pub Expands : Type 0 → MacroTable → List Bytes → Expand → Type 0
Expands F table disabled expand =
    (name : PpToken) (entry : Entry) (witheld : List PpToken) (args : List InvocationArgumentInfo)
    → IsEnabled table disabled entry
    → Each (Kept F) witheld
    → Good F (Each (Kept F)) (expand disabled name entry witheld args)

pub revoke-Good :
    (F : Type 0) (table : MacroTable) (disabled : List Bytes) (f : Fields)
    → is_nil f.witheld_tokens ≡ false
    → IsPending table disabled f.pending_invoked_macro
    → Each (Kept F) f.witheld_tokens
    → Good F (Each (Kept F)) (revoke f)
unfolding revoke
revoke-Good F table disabled f e p k = by_fields f.pending_invoked_macro f.witheld_tokens e p k
  where
    by_fields :
        (o : Option Entry) (ts : List PpToken)
        → is_nil ts ≡ false
        → IsPending table disabled o
        → Each (Kept F) ts
        → Good F (Each (Kept F)) (elim o as (λ _. Result (List PpToken)) [
          | none ↦ failed
          | some entry ↦ elim ts [ [] ↦ failed | ◌∷◌ t ts ↦ done (t ∷ []) ]
        ])
    by_fields none ts e p k = absurd p
    by_fields (some entry) [] e p k = cc
    by_fields (some entry) (t ∷ ts) e p k = (k.0, tt)

finalize_idle :
    (F : Type 0) (f : Fields)
    → f.pending_invoked_macro ≡ none
    → Good F (Each (Kept F)) (finalize_fields f f.pending_invoked_macro)
unfolding revoke
finalize_idle F f h = rw h tt

finalize_pending :
    (F : Type 0) (table : MacroTable) (disabled : List Bytes) (f : Fields) (o : Option Entry)
    → IsPending table disabled o
    → Good F (Each (Kept F)) (revoke f)
    → Good F (Each (Kept F)) (finalize_fields f o)
finalize_pending F table disabled f none p h = absurd p
finalize_pending F table disabled f (some entry) p h = h

-- `Finalize` puts out tokens of the processor.
pub finalize-Good :
    (F : Type 0) (table : MacroTable) (disabled : List Bytes) (p : Processor)
    → IsSound F table disabled p
    → Good F (Each (Kept F)) (finalize p)
unfolding finalize
finalize-Good F table disabled (plain f) (inl i) = finalize_idle F f i.no_macro
finalize-Good F table disabled (plain f) (inr (n, k)) =
    finalize_pending F table disabled f f.pending_invoked_macro n.pending
      (revoke-Good F table disabled f n.name_withheld n.pending k)
finalize-Good F table disabled (collecting f a) h =
    finalize_pending F table disabled f f.pending_invoked_macro h.0.pending
      (revoke-Good F table disabled f h.0.name_withheld h.0.pending h.0.kept)
