-- ===== src/MacroTable/Laws.antt =====
-- What a look-up finds after each operation on the macro table.
use glsld.Prelude.{
  ◌≡◌, Bool, false, List, [], ◌∷◌, Option, none, some, arith, if◌then◌else◌, inl, inr, Bool-cases,
  ◌&&◌, not, if_both,
}
use glsld.Token.{PpToken, Bytes, text_eq, text_eq_iff}
use glsld.MacroTable.{
  MacroDefinition, MacroTable, find_macro_definition, is_macro_defined, insert, erase,
  define_object_like_macro, define_function_like_macro, erase_unless_compiler_defined,
  undefine_macro,
}

-- No two entries have one name, as in a map.
abbrev pub HasDistinctNames : MacroTable → Type 0
HasDistinctNames [] = Unit
HasDistinctNames (e ∷ m) = (is_macro_defined m e.0 ≡ false) × HasDistinctNames m

-- A definition takes effect only if the name was not defined; no other name is affected.
pub find-insert :
    (key name : Bytes) (d : MacroDefinition) (m : MacroTable)
    → find_macro_definition (insert key d m) name ≡ (
        if text_eq key name && not (is_macro_defined m key)
        then some d
        else find_macro_definition m name)
unfolding insert
find-insert key name d m = ground arith

insert-HasDistinctNames :
    (key : Bytes) (d : MacroDefinition) (m : MacroTable)
    → HasDistinctNames m
    → HasDistinctNames (insert key d m)
unfolding insert
insert-HasDistinctNames key d m h = elim (Bool-cases (is_macro_defined m key)) [
  | inl old ↦ rw (old, insert) h
  | inr new ↦ rw (new, insert) (new, h)
]

find-erase :
    (a b : Bytes) (m : MacroTable)
    → HasDistinctNames m
    → find_macro_definition (erase a m) b
      ≡ (if text_eq a b then none else find_macro_definition m b)
unfolding erase find_macro_definition is_macro_defined
find-erase a b [] h = ground arith
find-erase a b ((key, d) ∷ m) h =
    ground (arith, text_eq_iff key a, text_eq_iff key b, text_eq_iff a b, find-erase a b m h.1)

is_macro_defined-erase :
    (a b : Bytes) (m : MacroTable)
    → HasDistinctNames m
    → is_macro_defined m b ≡ false
    → is_macro_defined (erase a m) b ≡ false
unfolding is_macro_defined
is_macro_defined-erase a b m h k = ground (arith, find-erase a b m h)

erase-HasDistinctNames :
    (a : Bytes) (m : MacroTable) → HasDistinctNames m → HasDistinctNames (erase a m)
unfolding erase
erase-HasDistinctNames a [] h = tt
erase-HasDistinctNames a ((key, d) ∷ m) h = elim (Bool-cases (text_eq key a)) [
  | inl same ↦ rw same h.1
  | inr other ↦ rw other (is_macro_defined-erase a key m h.1 h.0, erase-HasDistinctNames a m h.1)
]

-- Definition and removal keep the names of the table distinct.
operations-HasDistinctNames :
    (t : PpToken) (name : Bytes) (ps es : List PpToken) (m : MacroTable)
    → HasDistinctNames m
    → HasDistinctNames (define_object_like_macro t es m)
      × HasDistinctNames (define_function_like_macro t ps es m)
      × HasDistinctNames (undefine_macro name m)
unfolding define_object_like_macro define_function_like_macro undefine_macro
operations-HasDistinctNames t name ps es m h = (
  insert-HasDistinctNames t.text _ m h,
  insert-HasDistinctNames t.text _ m h,
  undefined (find_macro_definition m name),
)
  where
    undefined :
        (o : Option MacroDefinition) → HasDistinctNames (erase_unless_compiler_defined o name m)
    undefined none = h
    undefined (some d) =
        if_both HasDistinctNames d.is_compiler_defined m (erase name m) h
          (erase-HasDistinctNames name m h)

-- A macro that `#undef` may remove.
abbrev pub is_removable : Option MacroDefinition → Bool
is_removable none = false
is_removable (some d) = not d.is_compiler_defined

-- In a table with distinct names, `#undef` removes the macro of that name unless the compiler
-- defined it, and nothing else.
pub find-undefine :
    (a b : Bytes) (m : MacroTable)
    → HasDistinctNames m
    → find_macro_definition (undefine_macro a m) b ≡ (
        if text_eq a b && is_removable (find_macro_definition m a)
        then none
        else find_macro_definition m b)
unfolding undefine_macro
find-undefine a b m h = by_entry (find_macro_definition m a)
  where
    by_entry :
        (o : Option MacroDefinition)
        → find_macro_definition (erase_unless_compiler_defined o a m) b
          ≡ (if text_eq a b && is_removable o then none else find_macro_definition m b)
    by_entry none = ground arith
    by_entry (some d) = ground (arith, find-erase a b m h)

-- A name that is defined keeps its first definition through any later `#define`.
define-keeps :
    (t : PpToken) (ps es : List PpToken) (m : MacroTable) (d : MacroDefinition)
    → find_macro_definition m t.text ≡ some d
    → (define_object_like_macro t es m ≡ m) × (define_function_like_macro t ps es m ≡ m)
unfolding define_object_like_macro define_function_like_macro insert is_macro_defined
define-keeps t ps es m d h = (rw h, rw h)
