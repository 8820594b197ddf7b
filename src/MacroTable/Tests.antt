-- ===== src/MacroTable/Tests.antt =====
-- A macro table with one macro of the compiler's and one of the program's.
use glsld.Prelude.{◌≡◌, refl, Bool, true, false, not, ◌&&◌, [], ◌∷◌, none, some, if◌then◌else◌}
use glsld.Source.{TextPosition}
use glsld.Token.{PpToken, TokenKlass, Bytes, text_eq}
use glsld.MacroTable.{
  MacroTable, MacroDefinition, find_macro_definition, insert, is_macro_defined, undefine_macro,
}
use glsld.MacroTable.Laws.{HasDistinctNames, is_removable, find-insert, find-undefine}

abbrev origin : TextPosition
origin = record { line = 0; character = 0 }

abbrev name_token : Bytes → PpToken
name_token s = record {
  klass = TokenKlass.identifier;
  spelled_file = 1;
  spelled_range = record { start = origin; end = origin };
  text = s;
  is_first_token_of_line = false;
  has_leading_whitespace = false;
}

abbrev macro : Bool → Bytes → MacroDefinition
macro b s = record {
  is_compiler_defined = b;
  is_function_like = false;
  def_token = name_token s;
  param_tokens = [];
  expansion_tokens = [];
}

abbrev table : MacroTable
table = (b'X' ∷ [], macro false (b'X' ∷ [])) ∷ (b'V' ∷ [], macro true (b'V' ∷ [])) ∷ []

table-HasDistinctNames : HasDistinctNames table
unfolding is_macro_defined
table-HasDistinctNames = (refl, (refl, tt))

find-insert_example :
    find_macro_definition (insert (b'Y' ∷ []) (macro false (b'Y' ∷ [])) table) (b'Y' ∷ []) ≡ (
      if text_eq (b'Y' ∷ []) (b'Y' ∷ []) && not (is_macro_defined table (b'Y' ∷ []))
      then some (macro false (b'Y' ∷ []))
      else find_macro_definition table (b'Y' ∷ []))
find-insert_example = find-insert (b'Y' ∷ []) (b'Y' ∷ []) (macro false (b'Y' ∷ [])) table

find-undefine_example : find_macro_definition (undefine_macro (b'X' ∷ []) table) (b'V' ∷ []) ≡ (
    if text_eq (b'X' ∷ []) (b'V' ∷ []) && is_removable (find_macro_definition table (b'X' ∷ []))
    then none
    else find_macro_definition table (b'V' ∷ []))
find-undefine_example = find-undefine (b'X' ∷ []) (b'V' ∷ []) table table-HasDistinctNames
