-- ===== src/Symbols/Scoping.antt =====
-- What a declaration makes visible.
use glsld.Prelude.{
  ℕ, ◌≡◌, refl, sym, ap, ◌∙◌, Bool, true, false, not, List, [], ◌∷◌, ◌++◌, Option, none, some,
  if◌then◌else◌, if_both, if_cases,
}
use glsld.Token.{Bytes, text_eq, text_eq_iff}
use glsld.Overload.{FunctionSymbolEntry}
use glsld.Symbols.{
  NameToken, Declarator, Declaration, SymbolTableLevel, look_up, insert_new, is_empty_text,
  try_add_symbol, add_declarators, add_members, add_function_decl, add_struct_decl, add_decl,
  SymbolTable, declare, find_in_levels, find_symbol, function_decl, interface_block_decl,
  variable_decl, param_decl,
}

-- The first of two results that is there.
abbrev pub first : Option ℕ → Option ℕ → Option ℕ
first none b = b
first (some a) b = some a

-- The specification of what a declaration makes visible: its names in order, with what they stand for.
abbrev pub named : Bool → NameToken → ℕ → List (Bytes × ℕ)
named b name d = if b then (if is_empty_text name.text then [] else (name.text, d) ∷ []) else []

abbrev pub names_of_declarators : List Declarator → List (Bytes × ℕ)
names_of_declarators [] = []
names_of_declarators ((name, d) ∷ ds) = named name.is_identifier name d ++ names_of_declarators ds

abbrev pub names_of_members : List (List Declarator) → List (Bytes × ℕ)
names_of_members [] = []
names_of_members (ds ∷ members) = names_of_declarators ds ++ names_of_members members

abbrev pub names_of_struct : Option (Option NameToken × ℕ) → List (Bytes × ℕ)
names_of_struct none = []
names_of_struct (some (none, d)) = []
names_of_struct (some (some name, d)) = named name.is_identifier name d

abbrev pub names_of : Declaration → List (Bytes × ℕ)
names_of (function_decl name entry) = []
names_of (interface_block_decl none d members) = names_of_members members
names_of (interface_block_decl (some name) d members) = named true name d
names_of (variable_decl s ds) = names_of_struct s ++ names_of_declarators ds
names_of (param_decl none d) = []
names_of (param_decl (some name) d) = named name.is_identifier name d

look_up-append :
    (a b : List (Bytes × ℕ)) (x : Bytes) → look_up (a ++ b) x ≡ first (look_up a x) (look_up b x)
unfolding look_up
look_up-append [] b x = refl
look_up-append ((key, d) ∷ a) b x = by_test (text_eq key x) (look_up-append a b x)
  where
    by_test :
        (t : Bool)
        → look_up (a ++ b) x ≡ first (look_up a x) (look_up b x)
        → (if t then some d else look_up (a ++ b) x)
          ≡ first (if t then some d else look_up a x) (look_up b x)
    by_test true h = refl
    by_test false h = h

-- The level behind gives the names where the level before gives nothing.
record Extends (l : SymbolTableLevel) (names : List (Bytes × ℕ)) (l' : SymbolTableLevel)
    : Type 0 where
  open_still : l'.freezed ≡ false
  finds : (x : Bytes) → look_up l'.decl_lookup x ≡ first (look_up l.decl_lookup x) (look_up names x)

first-none : (a : Option ℕ) → first a none ≡ a
first-none none = refl
first-none (some a) = refl

first_assoc : (a b c : Option ℕ) → first (first a b) c ≡ first a (first b c)
first_assoc none b c = refl
first_assoc (some a) b c = refl

Extends-refl : (l : SymbolTableLevel) → l.freezed ≡ false → Extends l [] l
unfolding look_up
Extends-refl l h = record {
  open_still = h;
  finds = λ x. sym (first-none (look_up l.decl_lookup x));
}

Extends-trans :
    (l l' l'' : SymbolTableLevel) (a b : List (Bytes × ℕ))
    → Extends l a l'
    → Extends l' b l''
    → Extends l (a ++ b) l''
Extends-trans l l' l'' a b h k = record {
  open_still = k.open_still;
  finds = λ x.
      k.finds x
      ∙ ap (λ o. first o (look_up b x)) (h.finds x)
      ∙ first_assoc (look_up l.decl_lookup x) (look_up a x) (look_up b x)
      ∙ sym (ap (first (look_up l.decl_lookup x)) (look_up-append a b x));
}

insert_new-finds :
    (m : List (Bytes × ℕ)) (text x : Bytes) (d : ℕ) (o : Option ℕ)
    → look_up m text ≡ o
    → look_up (elim o as (λ _. List (Bytes × ℕ)) [ none ↦ (text, d) ∷ m | some old ↦ m ]) x
      ≡ first (look_up m x) (if text_eq text x then some d else none)
unfolding look_up
insert_new-finds m text x d none e = by_test (text_eq text x) (look_up m x) (at_name text x)
  where
    at_name : (text x : Bytes) → text_eq text x ≡ true → look_up m text ≡ look_up m x
    at_name text x t = ap (look_up m) ((text_eq_iff text x).0 t)

    by_test :
        (t : Bool) (o : Option ℕ)
        → (t ≡ true → look_up m text ≡ o)
        → (if t then some d else o) ≡ first o (if t then some d else none)
    by_test true o q = ap (λ o. first o (some d)) (sym e ∙ q refl)
    by_test false o q = sym (first-none o)
insert_new-finds m text x d (some old) e =
    by_test (text_eq text x) (look_up m x) (λ t. ap (look_up m) ((text_eq_iff text x).0 t))
  where
    by_test :
        (t : Bool) (o : Option ℕ)
        → (t ≡ true → look_up m text ≡ o)
        → o ≡ first o (if t then some d else none)
    by_test true o q =
        let f : o ≡ some old = sym (q refl) ∙ e in f ∙ sym (ap (λ o. first o (some d)) f)
    by_test false o q = sym (first-none o)

inserted-Extends :
    (name : Bytes) (d : ℕ) (l : SymbolTableLevel) (o : Option ℕ)
    → l.freezed ≡ false
    → look_up l.decl_lookup name ≡ o
    → Extends l ((name, d) ∷ []) (insert_new o name d l)
unfolding look_up
inserted-Extends name d l none h e = record {
  open_still = h;
  finds = λ x. insert_new-finds l.decl_lookup name x d none e;
}
inserted-Extends name d l (some old) h e = record {
  open_still = h;
  finds = λ x. insert_new-finds l.decl_lookup name x d (some old) e;
}

try_add_symbol-Extends :
    (name : NameToken) (d : ℕ) (l : SymbolTableLevel)
    → l.freezed ≡ false
    → Extends l (named true name d) (try_add_symbol name d l)
unfolding try_add_symbol
try_add_symbol-Extends name d l h =
    if_cases (Extends l (named true name d)) l.freezed _ _ (λ e. absurd (both h e))
      (λ e. by_text name.text)
  where
    both : {b : Bool} → b ≡ false → b ≡ true → ⊥
    both h e = cc

    by_text :
        (text : Bytes)
        → Extends l
            (if is_empty_text text then [] else (text, d) ∷ [])
            (if is_empty_text text then l else insert_new (look_up l.decl_lookup text) text d l)
    by_text [] = Extends-refl l h
    by_text (ch ∷ text) =
        inserted-Extends (ch ∷ text) d l (look_up l.decl_lookup (ch ∷ text)) h refl

add_named-Extends :
    (b : Bool) (name : NameToken) (d : ℕ) (l : SymbolTableLevel)
    → l.freezed ≡ false
    → Extends l (named b name d) (if b then try_add_symbol name d l else l)
add_named-Extends true name d l h = try_add_symbol-Extends name d l h
add_named-Extends false name d l h = Extends-refl l h

add_declarators-Extends :
    (ds : List Declarator) (l : SymbolTableLevel)
    → l.freezed ≡ false
    → Extends l (names_of_declarators ds) (add_declarators ds l)
unfolding add_declarators
add_declarators-Extends [] l h = Extends-refl l h
add_declarators-Extends ((name, d) ∷ ds) l h =
    let added = add_named-Extends name.is_identifier name d l h in
    Extends-trans l _ _ (named name.is_identifier name d) (names_of_declarators ds) added (
      add_declarators-Extends ds (if name.is_identifier then try_add_symbol name d l else l)
        added.open_still)

add_members-Extends :
    (members : List (List Declarator)) (l : SymbolTableLevel)
    → l.freezed ≡ false
    → Extends l (names_of_members members) (add_members members l)
unfolding add_members
add_members-Extends [] l h = Extends-refl l h
add_members-Extends (ds ∷ members) l h =
    let added = add_declarators-Extends ds l h in
    Extends-trans l _ _ (names_of_declarators ds) (names_of_members members) added
      (add_members-Extends members (add_declarators ds l) added.open_still)

add_struct_decl-Extends :
    (s : Option (Option NameToken × ℕ)) (l : SymbolTableLevel)
    → l.freezed ≡ false
    → Extends l (names_of_struct s) (add_struct_decl s l)
add_struct_decl-Extends none l h = Extends-refl l h
add_struct_decl-Extends (some (none, d)) l h = Extends-refl l h
add_struct_decl-Extends (some (some name, d)) l h = add_named-Extends name.is_identifier name d l h

add_function_decl-Extends :
    (name : NameToken) (entry : FunctionSymbolEntry) (l : SymbolTableLevel)
    → l.freezed ≡ false
    → Extends l [] (add_function_decl name entry l)
unfolding add_function_decl
add_function_decl-Extends name entry l h =
    if_both (Extends l []) (not name.is_identifier) _ _ (Extends-refl l h) (
      if_both (Extends l []) (is_empty_text name.text) _ _ (Extends-refl l h)
        (record { open_still = h; finds = (Extends-refl l h).finds }))

add_decl-Extends :
    (d : Declaration) (l : SymbolTableLevel)
    → l.freezed ≡ false
    → Extends l (names_of d) (add_decl d l)
unfolding add_decl
add_decl-Extends (function_decl name entry) l h = add_function_decl-Extends name entry l h
add_decl-Extends (interface_block_decl none d members) l h = add_members-Extends members l h
add_decl-Extends (interface_block_decl (some name) d members) l h =
    try_add_symbol-Extends name d l h
add_decl-Extends (variable_decl s ds) l h =
    let added = add_struct_decl-Extends s l h in
    Extends-trans l _ _ (names_of_struct s) (names_of_declarators ds) added
      (add_declarators-Extends ds (add_struct_decl s l) added.open_still)
add_decl-Extends (param_decl none d) l h = Extends-refl l h
add_decl-Extends (param_decl (some name) d) l h = add_named-Extends name.is_identifier name d l h

-- What a look-up finds behind a declaration.
abbrev pub FindsBehind :
    Declaration → SymbolTableLevel → List SymbolTableLevel → Option SymbolTable → Type 0
FindsBehind d l ls none = ⊥
FindsBehind d l ls (some t) =
    (x : Bytes)
    → find_symbol t x
      ≡ first (first (look_up l.decl_lookup x) (look_up (names_of d) x)) (find_in_levels ls x)

-- Behind a declaration a look-up finds what the innermost scope had for the name; else what the
-- declaration gives the name, the first if it gives it twice; else what the outer scopes have.
pub find_symbol-declare :
    (d : Declaration) (n : ℕ) (l : SymbolTableLevel) (ls : List SymbolTableLevel)
    → l.freezed ≡ false
    → FindsBehind d l ls (declare d (record { imported_level_count = n; levels = l ∷ ls }))
unfolding declare find_symbol find_in_levels
find_symbol-declare d n l ls h x =
    by_first (look_up (add_decl d l).decl_lookup x)
    ∙ ap (λ o. first o (find_in_levels ls x)) ((add_decl-Extends d l h).finds x)
  where
    by_first :
        (o : Option ℕ)
        → (elim o as (λ _. Option ℕ) [ none ↦ find_in_levels ls x | some d ↦ some d ])
          ≡ first o (find_in_levels ls x)
    by_first none = refl
    by_first (some d) = refl
