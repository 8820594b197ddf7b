-- ===== src/Expansion/Reference.antt =====
-- The specification of the expansion of object-like macros: a name is replaced by the tokens of its
-- body, each expanded with the name disabled.
use glsld.Prelude.{ℕ, zero, suc, ◌+◌, List, [], ◌∷◌, ◌++◌, Option, none, some, if◌then◌else◌}
use glsld.Token.{PpToken, TokenKlass, Bytes, text_eq, is_klass}
use glsld.MacroTable.{MacroDefinition}
use glsld.GlslType.{decimal}
use glsld.Expansion.State.{find_enabled_macro_definition}
use glsld.Expansion.Body.{relocate}
use glsld.Expansion.Feed.{
  Environment, builtin_line_macro, builtin_file_macro, builtin_version_macro, number_token,
}

unfoldable pub flat_map : (PpToken → List PpToken) → List PpToken → List PpToken
flat_map f [] = []
flat_map f (t ∷ ts) = f t ++ flat_map f ts

abbrev pub builtin_or : Environment → PpToken → List PpToken → List PpToken
builtin_or env t other =
    if text_eq t.text builtin_line_macro
    then number_token t (t.spelled_range.start.line + 1) ∷ []
    else if text_eq t.text builtin_file_macro
    then number_token t t.spelled_file ∷ []
    else if text_eq t.text builtin_version_macro
    then number_token t env.version ∷ []
    else other

abbrev pub replaced : PpToken → Option MacroDefinition → (PpToken → List PpToken) → List PpToken
replaced t none expand = t ∷ []
replaced t (some d) expand = flat_map (λ b. expand (relocate t b)) d.expansion_tokens

-- What a token becomes, where the fuel bounds how deep names stand in bodies.
unfoldable pub expansion_of : Environment → ℕ → List Bytes → PpToken → List PpToken
unfolding flat_map is_klass text_eq decimal find_enabled_macro_definition
expansion_of env zero disabled t = t ∷ []
expansion_of env (suc fuel) disabled t =
    if is_klass t.klass TokenKlass.identifier
    then builtin_or env t (
        replaced t (find_enabled_macro_definition env.macro_table disabled t.text)
          (expansion_of env fuel (t.text ∷ disabled)))
    else t ∷ []
