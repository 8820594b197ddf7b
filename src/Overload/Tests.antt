-- ===== src/Overload/Tests.antt =====
-- Calls of a function of one parameter that is declared for `vec3` and for `dvec3`.
use glsld.Prelude.{ℕ, ◌≡◌, refl, true, false, List, [], ◌∷◌, none, some}
use glsld.Typing.{ScalarKind}
use glsld.GlslType.{TypeDesc, vector}
use glsld.Overload.{FunctionSymbolEntry, find_function}

abbrev candidate : ℕ → TypeDesc → FunctionSymbolEntry
candidate n t = record {
  address = n;
  decl = n;
  param_entries = record { type = t; is_input = true; is_output = false } ∷ [];
}

abbrev overloads : List FunctionSymbolEntry
overloads = candidate 1 (vector ScalarKind.double 3) ∷ candidate 2 (vector ScalarKind.float 3) ∷ []

abbrev arguments : List TypeDesc
arguments = vector ScalarKind.int 3 ∷ []

exact_only : find_function arguments true overloads ≡ some none
unfolding find_function
exact_only = refl
