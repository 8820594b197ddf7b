-- ===== src/Literal/Tests.antt =====
-- A literal that is read.
use glsld.Prelude.{◌≡◌, refl, [], ◌∷◌}
use glsld.Token.{Bytes}
use glsld.Literal.{uint32, parse_number_literal}

abbrev hexadecimal : Bytes
hexadecimal = b'0' ∷ b'x' ∷ b'1' ∷ b'F' ∷ b'u' ∷ []

hexadecimal_value : parse_number_literal hexadecimal ≡ uint32 31
unfolding parse_number_literal
hexadecimal_value = refl
