-- ===== src/Atoms/Tests.antt =====
-- A table of three atoms, of which two are one, and a text with a null character.
use glsld.Prelude.{◌≡◌, ◌↔◌, refl, List, [], ◌∷◌, none, some, Each}
use glsld.Token.{Bytes}
use glsld.Atoms.{
  AtomString, AtomTable, new_atom_table, get_atom_const, get_atoms, find_atom, str_view,
}
use glsld.Atoms.Interning.{IsCText, IsInterned, get_atoms_iff}

abbrev empty : AtomTable
empty = new_atom_table none

abbrev texts : List Bytes
texts = (b'a' ∷ b'b' ∷ []) ∷ (b'a' ∷ []) ∷ (b'a' ∷ b'b' ∷ []) ∷ []

empty-IsInterned : IsInterned empty
unfolding find_atom
empty-IsInterned s p h = cc

texts-IsCText : Each IsCText texts
texts-IsCText = ((refl, (refl, tt)), ((refl, tt), ((refl, (refl, tt)), tt)))

get_atoms_iff_example :
    (◌≡◌ {A = AtomString} (some 0) (some 0))
    ↔ (◌≡◌ {A = Bytes} (b'a' ∷ b'b' ∷ []) (b'a' ∷ b'b' ∷ []))
unfolding get_atoms
get_atoms_iff_example =
    get_atoms_iff texts empty 0 2 (b'a' ∷ b'b' ∷ [], some 0) (b'a' ∷ b'b' ∷ [], some 0)
      texts-IsCText empty-IsInterned refl refl

-- A text with a null character gets a new atom each time, and takes the place of the text before that
-- character.
twice :
    (get_atoms ((b'a' ∷ []) ∷ (b'a' ∷ 0 ∷ []) ∷ (b'a' ∷ []) ∷ []) empty).0
    ≡ (b'a' ∷ [], some 0) ∷ (b'a' ∷ 0 ∷ [], some 1) ∷ (b'a' ∷ [], some 1) ∷ []
unfolding get_atoms
twice = refl

read_back : str_view (get_atoms texts empty).1 (some 1) ≡ b'a' ∷ []
unfolding get_atoms str_view
read_back = refl

not_there : get_atom_const (b'c' ∷ []) (get_atoms texts empty).1 ≡ none
unfolding get_atoms get_atom_const
not_there = refl
