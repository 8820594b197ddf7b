-- ===== src/Overload/Viable.antt =====
-- The function that a call resolves to is an exact match, or better than every other candidate.
use glsld.Prelude.{
  ℕ, ◌==◌, ==_iff, ◌≡◌, ◌⊎◌, refl, Bool, true, false, not, ◌&&◌, List, [], ◌∷◌, Option, none, some,
  if◌then◌else◌, inl, inr,
}
use glsld.GlslType.{TypeDesc}
use glsld.Overload.{
  FunctionSymbolEntry, is_exact, is_invocable, FirstPass, exact, candidates, ◌>>=◌, is_better,
  is_always_better,
}

abbrev pub IsIn : FunctionSymbolEntry → List FunctionSymbolEntry → Type 0
IsIn c [] = ⊥
IsIn c (o ∷ os) = (c ≡ o) ⊎ IsIn c os

-- Better than a candidate, or the same entry.
abbrev pub Beats : List TypeDesc → FunctionSymbolEntry → FunctionSymbolEntry → Type 0
Beats args c o = (c.address ≡ o.address) ⊎ (is_better args c o ≡ some true)

abbrev pub BeatsAll : List TypeDesc → FunctionSymbolEntry → List FunctionSymbolEntry → Type 0
BeatsAll args c [] = Unit
BeatsAll args c (o ∷ os) = Beats args c o × BeatsAll args c os

bind_true :
    (o rest : Option Bool)
    → (o >>= λ b. if b then rest else some false) ≡ some true
    → (o ≡ some true) × (rest ≡ some true)
bind_true none rest h = cc
bind_true (some true) rest h = (refl, h)
bind_true (some false) rest h = cc

pub is_always_better-BeatsAll :
    (args : List TypeDesc) (c : FunctionSymbolEntry) (os : List FunctionSymbolEntry)
    → is_always_better args c os ≡ some true
    → BeatsAll args c os
unfolding is_always_better
is_always_better-BeatsAll args c [] h = tt
is_always_better-BeatsAll args c (o ∷ os) h =
    by_address (c.address == o.address) refl h (is_always_better-BeatsAll args c os)
  where
    by_address :
        (b : Bool)
        → (c.address == o.address) ≡ b
        → (if b
            then is_always_better args c os
            else (is_better args c o >>= λ x. if x then is_always_better args c os else some false))
          ≡ some true
        → (is_always_better args c os ≡ some true → BeatsAll args c os)
        → BeatsAll args c (o ∷ os)
    by_address true e h rest = (inl ((==_iff c.address o.address).0 e), rest h)
    by_address false e h rest =
        let both = bind_true (is_better args c o) (is_always_better args c os) h in
        (inr both.0, rest both.1)

-- A candidate of a declaration that is better than all the others.
abbrev Best : List TypeDesc → List FunctionSymbolEntry → List FunctionSymbolEntry → ℕ → Type 0
Best args all cs d =
    (c : FunctionSymbolEntry) × IsIn c cs × (c.decl ≡ d) × (is_always_better args c all ≡ some true)

-- What the first pass keeps for the second.
abbrev pub is_viable : List TypeDesc → Bool → FunctionSymbolEntry → Bool
is_viable args require_exact_match c = is_invocable args c.param_entries && not require_exact_match

abbrev pub IsExactMatch : List TypeDesc → List FunctionSymbolEntry → ℕ → Type 0
IsExactMatch args cs d =
    (c : FunctionSymbolEntry) × IsIn c cs × (c.decl ≡ d) × (is_exact args c.param_entries ≡ true)

abbrev Kept : List TypeDesc → Bool → List FunctionSymbolEntry → FirstPass → Type 0
Kept args b cs (exact d) = IsExactMatch args cs d
Kept args b cs (candidates os) =
    (o : FunctionSymbolEntry)
    → (IsIn o os → IsIn o cs × (is_viable args b o ≡ true))
      × (IsIn o cs → is_viable args b o ≡ true → IsIn o os)

-- Every candidate is not viable, or is the same entry, or is beaten.
abbrev pub BeatsViable :
    List TypeDesc → Bool → FunctionSymbolEntry → List FunctionSymbolEntry → Type 0
BeatsViable args b c [] = Unit
BeatsViable args b c (o ∷ os) =
    ((is_viable args b o ≡ false) ⊎ Beats args c o) × BeatsViable args b c os

abbrev pub IsBestMatch : List TypeDesc → Bool → List FunctionSymbolEntry → ℕ → Type 0
IsBestMatch args b cs d =
    (c : FunctionSymbolEntry) × IsIn c cs
    × (c.decl ≡ d)
    × (is_viable args b c ≡ true)
    × BeatsViable args b c cs
