-- ===== src/Overload.antt =====
-- glsld-core/include/Compiler/SymbolTable.h and src/Compiler/SymbolTable.cpp, lines 114 to 199:
-- `FindFunction`, the resolution of an overloaded call. The candidates of the name are one list, in
-- the order in which the loops over the global levels meet them. `none` is a failed assertion of
-- `HasBetterConversion`.
pub mod Viable
pub mod Defined
pub mod Comparison
pub mod Unique
pub mod Tests
use mathlib.Core.Option
use glsld.Prelude.{
  ℕ, ◌+◌, ◌==◌, Bool, true, false, not, ◌&&◌, ◌||◌, List, [], ◌∷◌, ◌++◌, Option, none, some, ltb,
  if◌then◌else◌,
}
use glsld.GlslType.{TypeDesc, is_same_with, is_convertible_to, has_better_conversion}

pub record FunctionParamSymbolEntry : Type 0 where
  pub type : TypeDesc
  pub is_input : Bool
  pub is_output : Bool

-- `address` stands for the pointer to the entry, by which candidates are compared.
pub record FunctionSymbolEntry : Type 0 where
  pub address : ℕ
  pub decl : ℕ
  pub param_entries : List FunctionParamSymbolEntry

-- The test for an exact match, which includes that of the sizes.
unfoldable pub is_exact : List TypeDesc → List FunctionParamSymbolEntry → Bool
unfolding is_same_with
is_exact [] [] = true
is_exact (a ∷ args) (p ∷ params) = is_same_with p.type a && is_exact args params
is_exact _ _ = false

-- The loop that sets `convertible`, with the test of the sizes before it.
unfoldable pub is_invocable : List TypeDesc → List FunctionParamSymbolEntry → Bool
unfolding is_convertible_to
is_invocable [] [] = true
is_invocable (a ∷ args) (p ∷ params) =
    let rest = is_invocable args params in
    if p.is_input && not (is_convertible_to a p.type)
    then false
    else if p.is_output && not (is_convertible_to p.type a)
    then false
    else rest
is_invocable _ _ = false

pub data FirstPass : Type 0 where
  exact : ℕ → FirstPass
  candidates : List FunctionSymbolEntry → FirstPass

abbrev pub add_candidate : FunctionSymbolEntry → FirstPass → FirstPass
add_candidate c (exact d) = exact d
add_candidate c (candidates cs) = candidates (c ∷ cs)

unfoldable pub first_pass : List TypeDesc → Bool → List FunctionSymbolEntry → FirstPass
unfolding is_exact is_invocable
first_pass args require_exact_match [] = candidates []
first_pass args require_exact_match (c ∷ cs) =
    let rest = first_pass args require_exact_match cs in
    if is_exact args c.param_entries
    then exact c.decl
    else if is_invocable args c.param_entries && not require_exact_match
    then add_candidate c rest
    else rest

infixl 5 ◌>>=◌
abbrev pub ◌>>=◌ : {A B : Type 0} → Option A → (A → Option B) → Option B
none >>= f = none
some a >>= f = f a

abbrev pub from_bool : Bool → ℕ
from_bool true = 1
from_bool false = 0

-- The two counters, over the parameters from the back to the front.
unfoldable pub count_better :
    List TypeDesc → List FunctionParamSymbolEntry → List FunctionParamSymbolEntry → Option (ℕ × ℕ)
unfolding has_better_conversion
count_better (a ∷ args) (p ∷ params) (q ∷ others) =
    let rest = count_better args params others in
    if p.is_input && q.is_input
    then (rest >>= λ r. has_better_conversion a p.type q.type >>= λ x.
        has_better_conversion a q.type p.type >>= λ y. some (from_bool x + r.0, from_bool y + r.1))
    else rest
count_better _ _ _ = some (0, 0)

abbrev pub is_better : List TypeDesc → FunctionSymbolEntry → FunctionSymbolEntry → Option Bool
is_better args c o =
    count_better args c.param_entries o.param_entries >>= λ r. some (not (r.0 == 0 || ltb 0 r.1))

-- The inner loop, which ends at the first candidate that is not worse.
unfoldable pub is_always_better :
    List TypeDesc → FunctionSymbolEntry → List FunctionSymbolEntry → Option Bool
unfolding count_better
is_always_better args c [] = some true
is_always_better args c (o ∷ os) =
    let rest = is_always_better args c os in
    if c.address == o.address
    then rest
    else (is_better args c o >>= λ b. if b then rest else some false)

abbrev pub take_best :
    Option ℕ → FunctionSymbolEntry → (Option ℕ → Option (Option ℕ)) → Option (Option ℕ)
take_best none c continue = continue (some c.decl)
take_best (some best) c continue = some none

-- The outer loop over the candidates that are left, with the best one so far.
unfoldable pub second_pass :
    List TypeDesc
    → List FunctionSymbolEntry
    → List FunctionSymbolEntry
    → Option ℕ
    → Option (Option ℕ)
unfolding is_always_better
second_pass args all [] best = some best
second_pass args all (c ∷ cs) best = is_always_better args c all >>= λ b.
    if b then take_best best c (second_pass args all cs) else second_pass args all cs best

abbrev pub resolve : List TypeDesc → FirstPass → Option (Option ℕ)
resolve args (exact d) = some (some d)
resolve args (candidates cs) = second_pass args cs cs none

unfoldable pub find_function : List TypeDesc → Bool → List FunctionSymbolEntry → Option (Option ℕ)
unfolding first_pass second_pass
find_function args require_exact_match cs = resolve args (first_pass args require_exact_match cs)
