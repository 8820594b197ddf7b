-- ===== src/Expansion/Disabled.antt =====
-- How many macros are enabled.
use glsld.Prelude.{
  ℕ, suc, ◌≤◌, ◌<◌, ◌≡◌, refl, sym, ap, ◌∙◌, Bool, true, false, List, [], ◌∷◌, Option, none, some,
  arith, if◌then◌else◌, length, Bool-cases, inl, inr,
}
use glsld.Token.{Bytes, text_eq, text_eq_iff}
use glsld.MacroTable.{MacroDefinition, MacroTable, find_macro_definition}
use glsld.Expansion.State.{Entry, is_disabled, find_enabled_macro_definition}

-- The entry is what a look-up finds that leaves the disabled macros out.
abbrev pub IsEnabled : MacroTable → List Bytes → Entry → Type 0
IsEnabled table disabled entry = find_enabled_macro_definition table disabled entry.0 ≡ some entry.1

abbrev add_enabled : Bool → ℕ → ℕ
add_enabled true n = n
add_enabled false n = suc n

pub enabled_count : MacroTable → List Bytes → ℕ
enabled_count [] disabled = 0
enabled_count (entry ∷ table) disabled =
    add_enabled (is_disabled disabled entry.0) (enabled_count table disabled)

pub enabled_count-le :
    (table : MacroTable) (disabled : List Bytes) → enabled_count table disabled ≤ length table
unfolding enabled_count
enabled_count-le [] disabled = omega arith
enabled_count-le (entry ∷ table) disabled = elim (Bool-cases (is_disabled disabled entry.0)) [
  | inl e ↦ rw e (omega (arith, enabled_count-le table disabled))
  | inr e ↦ rw e (omega (arith, enabled_count-le table disabled))
]

enabled_count_mono :
    (table : MacroTable) (name : Bytes) (disabled : List Bytes)
    → enabled_count table (name ∷ disabled) ≤ enabled_count table disabled
unfolding enabled_count is_disabled
enabled_count_mono [] name disabled = omega arith
enabled_count_mono (entry ∷ table) name disabled =
    let h = enabled_count_mono table name disabled in
    by_tests (text_eq name entry.0) (is_disabled disabled entry.0) h
  where
    by_tests :
        (a b : Bool) {m n : ℕ} → m ≤ n → add_enabled (if a then true else b) m ≤ add_enabled b n
    by_tests true true h = h
    by_tests true false h = omega arith
    by_tests false true h = h
    by_tests false false h = omega arith

found_count-lt :
    (table : MacroTable) (name : Bytes) (disabled : List Bytes) (d : MacroDefinition)
    → is_disabled disabled name ≡ false
    → find_macro_definition table name ≡ some d
    → enabled_count table (name ∷ disabled) < enabled_count table disabled
unfolding enabled_count is_disabled find_macro_definition
found_count-lt [] name disabled d e f = cc
found_count-lt ((key, d') ∷ table) name disabled d e f = elim (Bool-cases (text_eq key name)) [
  | inl k ↦
      let same : key ≡ name = (text_eq_iff key name).0 k in
      let t : text_eq name key ≡ true = (text_eq_iff name key).1 (sym same) in
      let free : is_disabled disabled key ≡ false = ap (is_disabled disabled) same ∙ e in
      rw (t, free) (omega (arith, enabled_count_mono table name disabled))
  | inr k ↦
      by_tests (text_eq name key) (is_disabled disabled key)
        (found_count-lt table name disabled d e (sym (later (text_eq key name) k) ∙ f))
]
  where
    by_tests :
        (a b : Bool) {m n : ℕ} → m < n → add_enabled (if a then true else b) m < add_enabled b n
    by_tests true true h = h
    by_tests true false h = omega arith
    by_tests false true h = h
    by_tests false false h = omega arith

    later :
        (b : Bool)
        → b ≡ false
        → (if b then some d' else find_macro_definition table name)
          ≡ find_macro_definition table name
    later b h = rw h

-- Disabling an enabled macro leaves fewer enabled ones.
pub enabled_count-lt :
    (table : MacroTable) (disabled : List Bytes) (entry : Entry)
    → IsEnabled table disabled entry
    → enabled_count table (entry.0 ∷ disabled) < enabled_count table disabled
unfolding find_enabled_macro_definition
enabled_count-lt table disabled entry h =
    let found = by_look_up (find_macro_definition table entry.0) (is_disabled disabled entry.0) h in
    found_count-lt table entry.0 disabled entry.1 found.0 found.1
  where
    by_look_up :
        (o : Option MacroDefinition) (b : Bool)
        → (elim o as (λ _. Option MacroDefinition) [
          | none ↦ none
          | some d ↦ if b then none else some d
        ])
          ≡ some entry.1
        → (b ≡ false) × (o ≡ some entry.1)
    by_look_up none b h = cc
    by_look_up (some d) true h = cc
    by_look_up (some d) false h = (refl, h)
