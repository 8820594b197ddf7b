-- ===== src/Atoms/Interning.antt =====
-- The equality of atoms, and that of their texts.
use mathlib.Core.Path.{subst}
use glsld.Prelude.{
  ℕ, zero, suc, ◌≡◌, ◌↔◌, refl, sym, ap, ◌∙◌, Bool, true, false, List, [], ◌∷◌, ◌++◌, Option, none,
  some, ◌==◌, get_elem?, length, if◌then◌else◌, Bool-cases, inl, inr, Each, if_cases,
}
use glsld.Token.{Bytes, text_eq, text_eq_iff}
use glsld.Atoms.{
  AtomString, AtomTable, c_string, find_atom, assign_atom, add_atom, found_or_added, get_atom,
  get_atoms,
}

-- A text in which no null character stands.
abbrev pub IsCText : Bytes → Type 0
IsCText s = Each (λ ch. (ch == 0) ≡ false) s

c_string-IsCText : (s : Bytes) → IsCText s → c_string s ≡ s
unfolding c_string
c_string-IsCText [] h = refl
c_string-IsCText (ch ∷ s) h = rw (h.0) (ap (λ r. ch ∷ r) (c_string-IsCText s h.1))

-- Every pointer of the table points to the text that it is stored under.
abbrev pub IsInterned : AtomTable → Type 0
IsInterned t =
    (s : Bytes) (p : ℕ) → find_atom t.atom_lookup s ≡ some p → get_elem? t.arena p ≡ some s

find-assign :
    (key s : Bytes) (p : ℕ) (m : List (Bytes × ℕ))
    → find_atom (assign_atom key p m) s ≡ (if text_eq key s then some p else find_atom m s)
unfolding find_atom assign_atom
find-assign key s p [] = refl
find-assign key s p ((k, q) ∷ m) = elim (Bool-cases (text_eq k key)) [
  | inl e ↦
      rw (assign_atom, e)
        (replaced (text_eq k s) (text_eq key s) (ap (λ x. text_eq x s) ((text_eq_iff k key).0 e)))
  | inr e ↦
      rw (assign_atom, e)
        (ap (λ o. if text_eq k s then some q else o) (find-assign key s p m)
          ∙ kept (text_eq k s) (text_eq key s) (apart e))
]
  where
    replaced :
        (a b : Bool)
        → a ≡ b
        → (if a then some p else find_atom m s)
          ≡ (if b then some p else if a then some q else find_atom m s)
    replaced true true h = refl
    replaced false false h = refl
    replaced true false h = cc
    replaced false true h = cc

    apart : text_eq k key ≡ false → text_eq k s ≡ true → text_eq key s ≡ true → ⊥
    apart e f g =
        let same : k ≡ key = (text_eq_iff k s).0 f ∙ sym ((text_eq_iff key s).0 g) in
        differ (sym e ∙ (text_eq_iff k key).1 same)
      where
        differ : false ≡ true → ⊥
        differ h = cc

    kept :
        (a b : Bool)
        → (a ≡ true → b ≡ true → ⊥)
        → (if a then some q else if b then some p else find_atom m s)
          ≡ (if b then some p else if a then some q else find_atom m s)
    kept true true h = absurd (h refl refl)
    kept true false h = refl
    kept false b h = refl

get_elem?-append :
    (xs : List Bytes) (y x : Bytes) (p : ℕ)
    → get_elem? xs p ≡ some x
    → get_elem? (xs ++ (y ∷ [])) p ≡ some x
get_elem?-append [] y x p h = cc
get_elem?-append (z ∷ xs) y x zero h = h
get_elem?-append (z ∷ xs) y x (suc p) h = get_elem?-append xs y x p h

get_elem?-last : (xs : List Bytes) (y : Bytes) → get_elem? (xs ++ (y ∷ [])) (length xs) ≡ some y
get_elem?-last [] y = refl
get_elem?-last (x ∷ xs) y = get_elem?-last xs y

-- The atom of a text in a table.
abbrev IsAtom : AtomTable → AtomString → Bytes → Type 0
IsAtom t none s = ⊥
IsAtom t (some p) s = find_atom t.atom_lookup s ≡ some p

-- What `GetAtom` leaves behind: an interned table that has the atom, and every atom it had before.
record Interns (s : Bytes) (t : AtomTable) (r : AtomString × AtomTable) : Type 0 where
  interned : IsInterned r.1
  has : IsAtom r.1 r.0 s
  keeps : (a : AtomString) (u : Bytes) → IsAtom t a u → IsAtom r.1 a u

find_key :
    (key : Bytes) (p : ℕ) (m : List (Bytes × ℕ)) → find_atom (assign_atom key p m) key ≡ some p
find_key key p m = find-assign key key p m ∙ rw ((text_eq_iff key key).1 refl) refl

added-Interns :
    (s : Bytes) (t : AtomTable)
    → IsCText s
    → IsInterned t
    → find_atom t.atom_lookup s ≡ none
    → Interns s t (add_atom s t)
added-Interns s t c i e = record {
  interned = λ u q h. by_test u q (text_eq s u) refl (sym (found u) ∙ h);
  has = ap (λ k. find_atom (assign_atom k p m) s) (c_string-IsCText s c) ∙ find_key s p m;
  keeps = still;
}
  where
    p : ℕ
    p = length t.arena

    m : List (Bytes × ℕ)
    m = t.atom_lookup

    found :
        (u : Bytes)
        → find_atom (assign_atom (c_string s) (length t.arena) t.atom_lookup) u
          ≡ (if text_eq s u then some (length t.arena) else find_atom t.atom_lookup u)
    found u =
        ap (λ k. find_atom (assign_atom k (length t.arena) t.atom_lookup) u) (c_string-IsCText s c)
        ∙ find-assign s u (length t.arena) t.atom_lookup

    by_test :
        (u : Bytes) (q : ℕ) (b : Bool)
        → text_eq s u ≡ b
        → (if b then some (length t.arena) else find_atom t.atom_lookup u) ≡ some q
        → get_elem? (t.arena ++ (s ∷ [])) q ≡ some u
    by_test u q true f h =
        sym (ap (λ o. or_none o) h)
        ∙ get_elem?-last t.arena s
        ∙ ap (λ x. some x) ((text_eq_iff s u).0 f)
      where
        or_none : Option ℕ → Option Bytes
        or_none none = none
        or_none (some k) = get_elem? (t.arena ++ (s ∷ [])) k
    by_test u q false f h = get_elem?-append t.arena s u q (i u q h)

    unfound : (u : Bytes) (q : ℕ) → find_atom t.atom_lookup u ≡ some q → text_eq s u ≡ true → ⊥
    unfound u q h f =
        let g : none ≡ some q = sym e ∙ ap (find_atom t.atom_lookup) ((text_eq_iff s u).0 f) ∙ h in
        cc

    still : (a : AtomString) (u : Bytes) → IsAtom t a u → IsAtom (add_atom s t).1 a u
    still none u h = absurd h
    still (some q) u h =
        found u
        ∙ if_cases (λ o. o ≡ some q) (text_eq s u) (some (length t.arena))
            (find_atom t.atom_lookup u) (λ f. absurd (unfound u q h f)) (λ f. h)

get_atom-Interns :
    (s : Bytes) (t : AtomTable) → IsCText s → IsInterned t → Interns s t (get_atom s t)
unfolding get_atom
get_atom-Interns s t c i = by_look_up (find_atom t.atom_lookup s) refl
  where
    by_look_up : (o : Option ℕ) → find_atom t.atom_lookup s ≡ o → Interns s t (found_or_added s t o)
    by_look_up none e = added-Interns s t c i e
    by_look_up (some p) e = record { interned = i; has = e; keeps = λ a u h. h }

abbrev AreAtoms : AtomTable → List (Bytes × AtomString) → Type 0
AreAtoms t ats = Each (λ (a : Bytes × AtomString). IsAtom t a.1 a.0) ats

record AllInterned (t : AtomTable) (r : List (Bytes × AtomString) × AtomTable) : Type 0 where
  interned : IsInterned r.1
  atoms : AreAtoms r.1 r.0
  keeps : (a : AtomString) (u : Bytes) → IsAtom t a u → IsAtom r.1 a u

get_atoms-AllInterned :
    (ss : List Bytes) (t : AtomTable)
    → Each IsCText ss
    → IsInterned t
    → AllInterned t (get_atoms ss t)
unfolding get_atoms
get_atoms-AllInterned [] t c i = record { interned = i; atoms = tt; keeps = λ a u h. h }
get_atoms-AllInterned (s ∷ ss) t c i =
    let one = get_atom-Interns s t c.0 i in
    let rest = get_atoms-AllInterned ss (get_atom s t).1 c.1 one.interned in
    record {
      interned = rest.interned;
      atoms = (rest.keeps (get_atom s t).0 s one.has, rest.atoms);
      keeps = λ a u h. rest.keeps a u (one.keeps a u h);
    }

same_atom :
    (t : AtomTable) (a b : AtomString) (s u : Bytes)
    → IsInterned t
    → IsAtom t a s
    → IsAtom t b u
    → (a ≡ b) ↔ (s ≡ u)
same_atom t none b s u i h k = absurd h
same_atom t (some p) none s u i h k = absurd k
same_atom t (some p) (some q) s u i h k = (
  (λ e. some_text s u (sym (i s p h) ∙ ap (λ o. text_of o) e ∙ i u q k)),
  (λ e. sym h ∙ ap (find_atom t.atom_lookup) e ∙ k),
)
  where
    text_of : Option ℕ → Option Bytes
    text_of none = none
    text_of (some p) = get_elem? t.arena p

    some_text : (x y : Bytes) → ◌≡◌ {A = Option Bytes} (some x) (some y) → x ≡ y
    some_text x y e = cc

get_elem?-Each :
    (P : Bytes × AtomString → Type 0) (ats : List (Bytes × AtomString)) (i : ℕ)
    (a : Bytes × AtomString)
    → Each P ats
    → get_elem? ats i ≡ some a
    → P a
get_elem?-Each P [] i a h e = cc
get_elem?-Each P (b ∷ ats) zero a h e = subst P (some_pair e) h.0
  where
    some_pair : ◌≡◌ {A = Option (Bytes × AtomString)} (some b) (some a) → b ≡ a
    some_pair e = cc
get_elem?-Each P (b ∷ ats) (suc i) a h e = get_elem?-Each P ats i a h.1 e

-- Of all atoms that a table gives for texts without null characters, two are the same pointer exactly
-- if their texts are the same, also if atoms were added in between.
pub get_atoms_iff :
    (ss : List Bytes) (t : AtomTable) (i j : ℕ) (x y : Bytes × AtomString)
    → Each IsCText ss
    → IsInterned t
    → get_elem? (get_atoms ss t).0 i ≡ some x
    → get_elem? (get_atoms ss t).0 j ≡ some y
    → (x.1 ≡ y.1) ↔ (x.0 ≡ y.0)
get_atoms_iff ss t i j x y c w e f =
    let r = get_atoms-AllInterned ss t c w in
    let P = λ (a : Bytes × AtomString). IsAtom (get_atoms ss t).1 a.1 a.0 in
    same_atom (get_atoms ss t).1 x.1 y.1 x.0 y.0 r.interned
      (get_elem?-Each P (get_atoms ss t).0 i x r.atoms e)
      (get_elem?-Each P (get_atoms ss t).0 j y r.atoms f)
