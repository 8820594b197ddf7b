-- ===== src/Symbols/Tests.antt =====
-- A struct with a variable of the same name, and a block that declares the name again.
use glsld.Prelude.{ℕ, ◌≡◌, refl, true, false, [], ◌∷◌, Option, none, some, arith}
use glsld.Token.{Bytes}
use glsld.Symbols.{
  DeclScope, NameToken, Declaration, SymbolTableLevel, SymbolTable, declare, new_level, find_symbol,
  get_candidates, run_item, variable_decl, function_decl, declaration, in_scope, end, then_item,
  Block,
}
use glsld.Symbols.Scoping.{FindsBehind, find_symbol-declare}
use glsld.Symbols.Leaving.{candidates_behind, scope-restores, get_candidates-declare}

abbrev name : ℕ → NameToken
name ch = record { is_identifier = true; text = ch ∷ [] }

-- `struct s { ... } s, v;`
abbrev declares : Declaration
declares = variable_decl (some (some (name b's'), 1)) ((name b's', 2) ∷ (name b'v', 3) ∷ [])

abbrev global_level : SymbolTableLevel
global_level = record (new_level DeclScope.global) { decl_lookup = (b'v' ∷ [], 7) ∷ [] }

abbrev globals : SymbolTable
globals = record { imported_level_count = 0; levels = global_level ∷ [] }

abbrev inner : SymbolTable
inner = record { imported_level_count = 0; levels = new_level DeclScope.block ∷ global_level ∷ [] }

abbrev found : Option SymbolTable → Bytes → Option ℕ
found none x = none
found (some t) x = find_symbol t x

found_struct : found (declare declares inner) (b's' ∷ []) ≡ some 1
unfolding declare find_symbol
found_struct = refl

found_shadowing : found (declare declares inner) (b'v' ∷ []) ≡ some 3
unfolding declare find_symbol
found_shadowing = refl

found_first : found (declare declares globals) (b'v' ∷ []) ≡ some 7
unfolding declare find_symbol
found_first = refl

find_symbol-declare_example :
    FindsBehind declares (new_level DeclScope.block) (global_level ∷ []) (declare declares inner)
find_symbol-declare_example =
    find_symbol-declare declares 0 (new_level DeclScope.block) (global_level ∷ []) refl

abbrev body : Block
body =
    then_item (declaration declares)
      (then_item (in_scope false (then_item (declaration declares) end)) end)

scope-restores_example : run_item (in_scope true body) globals ≡ some globals
scope-restores_example = scope-restores true body globals (omega arith)

abbrev overload : Declaration
overload = function_decl (name b'f') (record { address = 1; decl = 1; param_entries = [] })

get_candidates-declare_example :
    candidates_behind (declare overload inner) (b'f' ∷ []) ≡ some (get_candidates inner (b'f' ∷ []))
get_candidates-declare_example =
    get_candidates-declare overload 0 (new_level DeclScope.block) (global_level ∷ []) (b'f' ∷ [])
      (omega arith)
