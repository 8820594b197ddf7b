-- ===== src/Atoms.antt =====
-- glsld-core/include/Basic/AtomTable.h and src/Basic/AtomTable.cpp: texts are interned, so that
-- pointers stand for them. A pointer is the number of its allocation.
pub mod Interning
pub mod Tests
use glsld.Prelude.{
  ℕ, ◌+◌, Bool, true, false, List, [], ◌∷◌, ◌++◌, Option, none, some, ◌==◌, get_elem?, length,
  if◌then◌else◌,
}
use glsld.Token.{Bytes, text_eq}

-- `none` is the null pointer.
abbrev pub AtomString : Type 0
AtomString = Option ℕ

-- The arena's memory is the list of what was allocated.
pub record AtomTable : Type 0 where
  pub arena : List Bytes
  pub atom_lookup : List (Bytes × ℕ)

-- The text of a C string ends at its null character.
unfoldable pub c_string : Bytes → Bytes
c_string [] = []
c_string (ch ∷ text) = let rest = c_string text in if ch == 0 then [] else ch ∷ rest

unfoldable pub find_atom : List (Bytes × ℕ) → Bytes → Option ℕ
unfolding text_eq
find_atom [] s = none
find_atom ((key, p) ∷ m) s = if text_eq key s then some p else find_atom m s

-- `atomLookup[key] = p`.
unfoldable pub assign_atom : Bytes → ℕ → List (Bytes × ℕ) → List (Bytes × ℕ)
unfolding text_eq
assign_atom key p [] = (key, p) ∷ []
assign_atom key p ((k, q) ∷ m) =
    let rest = assign_atom key p m in if text_eq k key then (k, p) ∷ m else (k, q) ∷ rest

abbrev pub text_at : Option Bytes → Bytes
text_at none = []
text_at (some text) = c_string text

-- `StrView` and `Str`.
unfoldable pub str_view : AtomTable → AtomString → Bytes
unfolding c_string
str_view t none = []
str_view t (some p) = text_at (get_elem? t.arena p)

-- `AddAtom`, and the key that its result is stored under.
abbrev pub add_atom : Bytes → AtomTable → AtomString × AtomTable
add_atom s t =
    let p = length t.arena in
    (
      some p,
      record {
        arena = t.arena ++ (s ∷ []);
        atom_lookup = assign_atom (c_string s) p t.atom_lookup;
      },
    )

abbrev pub found_or_added : Bytes → AtomTable → Option ℕ → AtomString × AtomTable
found_or_added s t (some p) = (some p, t)
found_or_added s t none = add_atom s t

unfoldable pub get_atom : Bytes → AtomTable → AtomString × AtomTable
unfolding find_atom assign_atom c_string
get_atom s t = found_or_added s t (find_atom t.atom_lookup s)

-- `GetAtom` on a constant table.
unfoldable pub get_atom_const : Bytes → AtomTable → AtomString
unfolding find_atom
get_atom_const s t = find_atom t.atom_lookup s

-- A table that starts with the atoms of the preamble's, whose memory it shares.
abbrev pub new_atom_table : Option AtomTable → AtomTable
new_atom_table none = record { arena = []; atom_lookup = [] }
new_atom_table (some preamble) = preamble

-- The texts in order with their atoms.
unfoldable pub get_atoms : List Bytes → AtomTable → List (Bytes × AtomString) × AtomTable
unfolding get_atom
get_atoms [] t = ([], t)
get_atoms (s ∷ ss) t = let r = get_atom s t in let rs = get_atoms ss r.1 in ((s, r.0) ∷ rs.0, rs.1)
