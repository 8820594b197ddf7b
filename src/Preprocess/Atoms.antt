-- ===== src/Preprocess/Atoms.antt =====
-- The texts of `LanguageAtoms` (glsld-core/include/Compiler/Preprocessor.h) that the preprocessor
-- compares tokens with.
use glsld.Prelude.{[], ◌∷◌}
use glsld.Token.{Bytes}

abbrev pub directive_include : Bytes
directive_include = b'i' ∷ b'n' ∷ b'c' ∷ b'l' ∷ b'u' ∷ b'd' ∷ b'e' ∷ []

abbrev pub directive_define : Bytes
directive_define = b'd' ∷ b'e' ∷ b'f' ∷ b'i' ∷ b'n' ∷ b'e' ∷ []

abbrev pub directive_undef : Bytes
directive_undef = b'u' ∷ b'n' ∷ b'd' ∷ b'e' ∷ b'f' ∷ []

abbrev pub directive_if : Bytes
directive_if = b'i' ∷ b'f' ∷ []

abbrev pub directive_ifdef : Bytes
directive_ifdef = b'i' ∷ b'f' ∷ b'd' ∷ b'e' ∷ b'f' ∷ []

abbrev pub directive_ifndef : Bytes
directive_ifndef = b'i' ∷ b'f' ∷ b'n' ∷ b'd' ∷ b'e' ∷ b'f' ∷ []

abbrev pub directive_else : Bytes
directive_else = b'e' ∷ b'l' ∷ b's' ∷ b'e' ∷ []

abbrev pub directive_elif : Bytes
directive_elif = b'e' ∷ b'l' ∷ b'i' ∷ b'f' ∷ []

abbrev pub directive_endif : Bytes
directive_endif = b'e' ∷ b'n' ∷ b'd' ∷ b'i' ∷ b'f' ∷ []

abbrev pub directive_error : Bytes
directive_error = b'e' ∷ b'r' ∷ b'r' ∷ b'o' ∷ b'r' ∷ []

abbrev pub directive_extension : Bytes
directive_extension = b'e' ∷ b'x' ∷ b't' ∷ b'e' ∷ b'n' ∷ b's' ∷ b'i' ∷ b'o' ∷ b'n' ∷ []

abbrev pub directive_version : Bytes
directive_version = b'v' ∷ b'e' ∷ b'r' ∷ b's' ∷ b'i' ∷ b'o' ∷ b'n' ∷ []

abbrev pub directive_pragma : Bytes
directive_pragma = b'p' ∷ b'r' ∷ b'a' ∷ b'g' ∷ b'm' ∷ b'a' ∷ []

abbrev pub directive_line : Bytes
directive_line = b'l' ∷ b'i' ∷ b'n' ∷ b'e' ∷ []

abbrev pub operator_defined : Bytes
operator_defined = b'd' ∷ b'e' ∷ b'f' ∷ b'i' ∷ b'n' ∷ b'e' ∷ b'd' ∷ []
