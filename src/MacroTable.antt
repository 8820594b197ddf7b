-- ===== src/MacroTable.antt =====
-- glsld-core/include/Compiler/MacroTable.h and src/Compiler/MacroTable.cpp: the macros that are
-- defined. The hash map is a list of entries; `insert` leaves an entry that is there.
pub mod Laws
pub mod Tests
use glsld.Prelude.{ℕ, ◌-◌, ◌^◌, Bool, true, false, List, [], ◌∷◌, Option, none, some, if◌then◌else◌}
use glsld.Source.{TextPosition, TextRange}
use glsld.Token.{PpToken, TokenKlass, Bytes, text_eq}

pub record MacroDefinition : Type 0 where
  pub is_compiler_defined : Bool
  pub is_function_like : Bool
  pub def_token : PpToken
  pub param_tokens : List PpToken
  pub expansion_tokens : List PpToken

abbrev pub MacroTable : Type 0
MacroTable = List (Bytes × MacroDefinition)

unfoldable pub find_macro_definition : MacroTable → Bytes → Option MacroDefinition
unfolding text_eq
find_macro_definition [] name = none
find_macro_definition ((key, d) ∷ m) name =
    if text_eq key name then some d else find_macro_definition m name

abbrev pub is_some : {A : Type 0} → Option A → Bool
is_some none = false
is_some (some a) = true

unfoldable pub is_macro_defined : MacroTable → Bytes → Bool
unfolding find_macro_definition
is_macro_defined m name = is_some (find_macro_definition m name)

-- `std::unordered_map::insert`.
unfoldable pub insert : Bytes → MacroDefinition → MacroTable → MacroTable
unfolding is_macro_defined
insert key d m = if is_macro_defined m key then m else (key, d) ∷ m

unfoldable pub erase : Bytes → MacroTable → MacroTable
unfolding text_eq
erase name [] = []
erase name ((key, d) ∷ m) = if text_eq key name then m else (key, d) ∷ erase name m

unfoldable pub define_object_like_macro : PpToken → List PpToken → MacroTable → MacroTable
unfolding insert
define_object_like_macro def_token expansion m =
    insert def_token.text
      (record {
        is_compiler_defined = false;
        is_function_like = false;
        def_token = def_token;
        param_tokens = [];
        expansion_tokens = expansion;
      })
      m

unfoldable pub define_function_like_macro :
    PpToken → List PpToken → List PpToken → MacroTable → MacroTable
unfolding insert
define_function_like_macro def_token params expansion m =
    insert def_token.text
      (record {
        is_compiler_defined = false;
        is_function_like = true;
        def_token = def_token;
        param_tokens = params;
        expansion_tokens = expansion;
      })
      m

-- The id of the system preamble, -1 as `uint32_t`, and the empty range.
abbrev pub preamble_token : TokenKlass → Bytes → PpToken
preamble_token k s = record {
  klass = k;
  spelled_file = 2 ^ 32 - 1;
  spelled_range = record {
    start = record { line = 0; character = 0 };
    end = record { line = 0; character = 0 };
  };
  text = s;
  is_first_token_of_line = false;
  has_leading_whitespace = false;
}

-- `none` is the failed assertion that the name was not defined before.
unfoldable pub define_feature_macro : Bytes → Bytes → MacroTable → Option MacroTable
unfolding insert
define_feature_macro name number m =
    if is_macro_defined m name
    then none
    else some (
        insert name
          (record {
            is_compiler_defined = true;
            is_function_like = false;
            def_token = preamble_token TokenKlass.identifier name;
            param_tokens = [];
            expansion_tokens = preamble_token TokenKlass.number_literal number ∷ [];
          })
          m)

abbrev pub erase_unless_compiler_defined : Option MacroDefinition → Bytes → MacroTable → MacroTable
erase_unless_compiler_defined none name m = m
erase_unless_compiler_defined (some d) name m = if d.is_compiler_defined then m else erase name m

unfoldable pub undefine_macro : Bytes → MacroTable → MacroTable
unfolding erase find_macro_definition
undefine_macro name m = erase_unless_compiler_defined (find_macro_definition m name) name m
