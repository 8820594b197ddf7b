-- ===== src/Symbols.antt =====
-- glsld-core/include/Compiler/SymbolTable.h and src/Compiler/SymbolTable.cpp, lines 1 to 112: the
-- levels of scope, declarations and look-ups, and the scopes of AstBuilder.h. A declaration is a
-- number that stands for its node.
pub mod Scoping
pub mod Leaving
pub mod Tests
use mathlib.Core.Option
use glsld.Prelude.{
  ℕ, ◌+◌, ◌-◌, Bool, true, false, not, List, [], ◌∷◌, ◌++◌, Option, none, some, ltb, reverse, drop,
  length, if◌then◌else◌,
}
use glsld.Token.{Bytes, text_eq}
use glsld.GlslType.{TypeDesc}
use glsld.Overload.{FunctionSymbolEntry, ◌>>=◌}

pub data DeclScope : Type 0 where
  global function struct block : DeclScope

pub record NameToken : Type 0 where
  pub is_identifier : Bool
  pub text : Bytes

abbrev pub Declarator : Type 0
Declarator = NameToken × ℕ

-- What the functions below read of a declaration. A struct declaration may have no name.
pub data Declaration : Type 0 where
  function_decl : NameToken → FunctionSymbolEntry → Declaration
  interface_block_decl : Option NameToken → ℕ → List (List Declarator) → Declaration
  variable_decl : Option (Option NameToken × ℕ) → List Declarator → Declaration
  param_decl : Option NameToken → ℕ → Declaration

-- Functions of one name are in the order in which they were added, which C++ leaves open.
pub record SymbolTableLevel : Type 0 where
  pub func_decl_lookup : List (Bytes × FunctionSymbolEntry)
  pub decl_lookup : List (Bytes × ℕ)
  pub scope : DeclScope
  pub freezed : Bool

abbrev pub new_level : DeclScope → SymbolTableLevel
new_level s = record { func_decl_lookup = []; decl_lookup = []; scope = s; freezed = false }

unfoldable pub look_up : List (Bytes × ℕ) → Bytes → Option ℕ
unfolding text_eq
look_up [] name = none
look_up ((key, d) ∷ m) name = if text_eq key name then some d else look_up m name

abbrev pub insert_new : Option ℕ → Bytes → ℕ → SymbolTableLevel → SymbolTableLevel
insert_new (some old) name d l = l
insert_new none name d l = record l { decl_lookup = (name, d) ∷ l.decl_lookup }

abbrev pub is_empty_text : Bytes → Bool
is_empty_text [] = true
is_empty_text (ch ∷ text) = false

-- The level behind `TryAddSymbol`, whose result no caller reads. Its assertion never fails.
unfoldable pub try_add_symbol : NameToken → ℕ → SymbolTableLevel → SymbolTableLevel
unfolding look_up
try_add_symbol name d l =
    if l.freezed
    then l
    else if is_empty_text name.text
    then l
    else insert_new (look_up l.decl_lookup name.text) name.text d l

unfoldable pub add_declarators : List Declarator → SymbolTableLevel → SymbolTableLevel
unfolding try_add_symbol
add_declarators [] l = l
add_declarators ((name, d) ∷ ds) l =
    add_declarators ds (if name.is_identifier then try_add_symbol name d l else l)

unfoldable pub add_members : List (List Declarator) → SymbolTableLevel → SymbolTableLevel
unfolding add_declarators
add_members [] l = l
add_members (ds ∷ members) l = add_members members (add_declarators ds l)

unfoldable pub add_function_decl :
    NameToken → FunctionSymbolEntry → SymbolTableLevel → SymbolTableLevel
add_function_decl name entry l =
    if not name.is_identifier
    then l
    else if is_empty_text name.text
    then l
    else record l { func_decl_lookup = l.func_decl_lookup ++ ((name.text, entry) ∷ []) }

abbrev pub add_struct_decl : Option (Option NameToken × ℕ) → SymbolTableLevel → SymbolTableLevel
add_struct_decl none l = l
add_struct_decl (some (none, d)) l = l
add_struct_decl (some (some name, d)) l = if name.is_identifier then try_add_symbol name d l else l

abbrev pub add_param_decl : Option NameToken → ℕ → SymbolTableLevel → SymbolTableLevel
add_param_decl none d l = l
add_param_decl (some name) d l = if name.is_identifier then try_add_symbol name d l else l

abbrev pub add_interface_block_decl :
    Option NameToken → ℕ → List (List Declarator) → SymbolTableLevel → SymbolTableLevel
add_interface_block_decl none d members l = add_members members l
add_interface_block_decl (some name) d members l = try_add_symbol name d l

-- `AddFunctionDecl`, `AddInterfaceBlockDecl`, `AddVariableDecl` and `AddParamDecl`.
unfoldable pub add_decl : Declaration → SymbolTableLevel → SymbolTableLevel
unfolding add_function_decl add_members add_declarators try_add_symbol
add_decl (function_decl name entry) l = add_function_decl name entry l
add_decl (interface_block_decl declarator d members) l =
    add_interface_block_decl declarator d members l
add_decl (variable_decl s ds) l = add_declarators ds (add_struct_decl s l)
add_decl (param_decl declarator d) l = add_param_decl declarator d l

-- The head of the levels is their back. The levels that come from the preamble are the oldest.
pub record SymbolTable : Type 0 where
  pub imported_level_count : ℕ
  pub levels : List SymbolTableLevel

abbrev pub add_to_levels : Declaration → ℕ → List SymbolTableLevel → Option SymbolTable
add_to_levels d n [] = none
add_to_levels d n (l ∷ ls) = some (record { imported_level_count = n; levels = add_decl d l ∷ ls })

-- `GetCurrentLevel()->Add...`, with its assertion that there is a level.
unfoldable pub declare : Declaration → SymbolTable → Option SymbolTable
unfolding add_decl
declare d t = add_to_levels d t.imported_level_count t.levels

-- From the oldest to the newest.
unfoldable pub get_global_levels : SymbolTable → List SymbolTableLevel
get_global_levels t = reverse (drop (length t.levels - (t.imported_level_count + 1)) t.levels)

abbrev pub push_scope : DeclScope → SymbolTable → Option SymbolTable
push_scope DeclScope.global t = none
push_scope s t = some (record t { levels = new_level s ∷ t.levels })

-- `PushLevel`; `none` is its failed assertion.
unfoldable pub push_level : DeclScope → SymbolTable → Option SymbolTable
push_level s t = push_scope s t

-- `PopLevel`, likewise.
unfoldable pub pop_level : SymbolTable → Option SymbolTable
pop_level t =
    if ltb (t.imported_level_count + 1) (length t.levels)
    then some (record t { levels = drop 1 t.levels })
    else none

unfoldable pub find_in_levels : List SymbolTableLevel → Bytes → Option ℕ
unfolding look_up
find_in_levels [] name = none
find_in_levels (l ∷ ls) name =
    let rest = find_in_levels ls name in
    elim (look_up l.decl_lookup name) [ none ↦ rest | some d ↦ some d ]

unfoldable pub find_symbol : SymbolTable → Bytes → Option ℕ
unfolding find_in_levels
find_symbol t name = find_in_levels t.levels name

unfoldable pub find_function_candidate :
    List (Bytes × FunctionSymbolEntry) → Bytes → List FunctionSymbolEntry
unfolding text_eq
find_function_candidate [] name = []
find_function_candidate ((key, entry) ∷ m) name =
    let rest = find_function_candidate m name in if text_eq key name then entry ∷ rest else rest

-- The candidates that `FindFunction` looks at, in its order.
unfoldable pub candidates_in : List SymbolTableLevel → Bytes → List FunctionSymbolEntry
unfolding find_function_candidate
candidates_in [] name = []
candidates_in (l ∷ ls) name =
    find_function_candidate l.func_decl_lookup name ++ candidates_in ls name

unfoldable pub get_candidates : SymbolTable → Bytes → List FunctionSymbolEntry
unfolding candidates_in get_global_levels
get_candidates t name = candidates_in (get_global_levels t) name

-- What a program does to the table, with the scopes of functions and of blocks that it enters.
mutual
  pub data Item : Type 0 where
    declaration : Declaration → Item
    in_scope : Bool → Block → Item

  pub data Block : Type 0 where
    end : Block
    then_item : Item → Block → Block

-- `EnterFunctionScope` and `EnterLexicalBlockScope`.
abbrev pub scope_of : Bool → DeclScope
scope_of is_function = if is_function then DeclScope.function else DeclScope.block

unfoldable mutual
  unfolding declare push_level pop_level

  pub run_item : Item → SymbolTable → Option SymbolTable
  run_item (declaration d) t = declare d t
  run_item (in_scope is_function b) t = do
    entered ← push_level (scope_of is_function) t
    left ← run_block b entered
    pop_level left

  pub run_block : Block → SymbolTable → Option SymbolTable
  run_block end t = some t
  run_block (then_item i b) t = do t' ← run_item i t; run_block b t'
