-- ===== src/Version/Tests.antt =====
-- `#version` directives with and without a profile.
use glsld.Prelude.{◌≡◌, ◌↔◌, refl, true, false, List, [], ◌∷◌, some}
use glsld.Source.{TextPosition}
use glsld.Token.{PpToken, TokenKlass, Bytes, is_klass}
use glsld.GlslType.{decimal}
use glsld.Version.{
  ver450, version_number, core, parse_glsl_version, reported, ignored, handle_version_directive,
}
use glsld.Version.Reading.{
  is_desktop, is_failed, names_no_profile, Means, parse_glsl_version-decimal, handle_version-Means,
  handle_version-failed,
}

abbrev origin : TextPosition
origin = record { line = 0; character = 0 }

abbrev token : TokenKlass → Bytes → PpToken
token k s = record {
  klass = k;
  spelled_file = 1;
  spelled_range = record { start = origin; end = origin };
  text = s;
  is_first_token_of_line = false;
  has_leading_whitespace = true;
}

abbrev number : Bytes → PpToken
number = token TokenKlass.number_literal

abbrev four_fifty : PpToken
four_fifty = number (b'4' ∷ b'5' ∷ b'0' ∷ [])

parse_glsl_version-decimal_example :
    (parse_glsl_version four_fifty ≡ some ver450)
    ↔ ((four_fifty.text ≡ decimal (version_number ver450)) × (is_desktop ver450 ≡ true))
unfolding is_klass
parse_glsl_version-decimal_example = parse_glsl_version-decimal four_fifty ver450 refl

handle_version-Means_example :
    (handle_version_directive (four_fifty ∷ []) ≡ reported ver450 core)
    ↔ Means (four_fifty ∷ []) ver450 core
handle_version-Means_example = handle_version-Means (four_fifty ∷ []) ver450 core

-- `#version 450 1`.
abbrev numbered_profile : List PpToken
numbered_profile = four_fifty ∷ number (b'1' ∷ []) ∷ []

handle_version-failed_example :
    is_failed (handle_version_directive numbered_profile) ≡ names_no_profile numbered_profile
handle_version-failed_example = handle_version-failed numbered_profile

numbered_profile_fails : is_failed (handle_version_directive numbered_profile) ≡ true
unfolding handle_version_directive
numbered_profile_fails = refl

-- `#version 300 es` is not read.
es_ignored :
    handle_version_directive
      (number (b'3' ∷ b'0' ∷ b'0' ∷ []) ∷ token TokenKlass.identifier (b'e' ∷ b's' ∷ []) ∷ [])
    ≡ ignored
unfolding handle_version_directive
es_ignored = refl
