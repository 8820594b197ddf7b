-- ===== src/Version.antt =====
-- glsld-core/src/Compiler/Preprocessor.cpp, lines 924 to 1055, and include/Language/ShaderTarget.h:
-- the `#version` directive. Atoms are compared by their texts, which Preprocessor.h lists.
pub mod Reading
pub mod Tests
use glsld.Prelude.{ℕ, Bool, true, false, List, [], ◌∷◌, Option, none, some, if◌then◌else◌}
use glsld.Token.{PpToken, TokenKlass, Bytes, text_eq, is_klass}

pub data GlslVersion : Type 0 where
  ver110 ver120 ver130 ver140 ver150 ver300 ver310 ver330 : GlslVersion
  ver400 ver410 ver420 ver430 ver440 ver450 ver460 : GlslVersion

-- The values of the enumerators.
unfoldable pub version_number : GlslVersion → ℕ
version_number ver110 = 110
version_number ver120 = 120
version_number ver130 = 130
version_number ver140 = 140
version_number ver150 = 150
version_number ver300 = 300
version_number ver310 = 310
version_number ver330 = 330
version_number ver400 = 400
version_number ver410 = 410
version_number ver420 = 420
version_number ver430 = 430
version_number ver440 = 440
version_number ver450 = 450
version_number ver460 = 460

pub data GlslProfile : Type 0 where
  core compatibility es : GlslProfile

-- A chain of tests, each against one atom: the first that succeeds gives the result.
unfoldable pub first_match : {A : Type 0} → List (Bytes × A) → Bytes → Option A
unfolding text_eq
first_match [] text = none
first_match ((atom, a) ∷ tests) text = if text_eq text atom then some a else first_match tests text

abbrev pub version_tests : List (Bytes × GlslVersion)
version_tests =
    (b'1' ∷ b'1' ∷ b'0' ∷ [], ver110)
    ∷ (b'1' ∷ b'2' ∷ b'0' ∷ [], ver120)
    ∷ (b'1' ∷ b'3' ∷ b'0' ∷ [], ver130)
    ∷ (b'1' ∷ b'4' ∷ b'0' ∷ [], ver140)
    ∷ (b'1' ∷ b'5' ∷ b'0' ∷ [], ver150)
    ∷ (b'3' ∷ b'3' ∷ b'0' ∷ [], ver330)
    ∷ (b'4' ∷ b'0' ∷ b'0' ∷ [], ver400)
    ∷ (b'4' ∷ b'1' ∷ b'0' ∷ [], ver410)
    ∷ (b'4' ∷ b'2' ∷ b'0' ∷ [], ver420)
    ∷ (b'4' ∷ b'3' ∷ b'0' ∷ [], ver430)
    ∷ (b'4' ∷ b'4' ∷ b'0' ∷ [], ver440)
    ∷ (b'4' ∷ b'5' ∷ b'0' ∷ [], ver450)
    ∷ (b'4' ∷ b'6' ∷ b'0' ∷ [], ver460)
    ∷ []

unfoldable pub parse_glsl_version : PpToken → Option GlslVersion
unfolding is_klass first_match
parse_glsl_version t =
    if is_klass t.klass TokenKlass.number_literal then first_match version_tests t.text else none

abbrev pub profile_tests : List (Bytes × GlslProfile)
profile_tests =
    (b'c' ∷ b'o' ∷ b'r' ∷ b'e' ∷ [], core)
    ∷ (
      b'c' ∷ b'o' ∷ b'm' ∷ b'p' ∷ b'a' ∷ b't' ∷ b'i' ∷ b'b' ∷ b'i' ∷ b'l' ∷ b'i' ∷ b't' ∷ b'y' ∷ [],
      compatibility,
    )
    ∷ (b'e' ∷ b's' ∷ [], es)
    ∷ []

-- What comes of a directive: the version and profile that the callback is given, nothing, or a
-- failed assertion.
pub data VersionOutcome : Type 0 where
  reported : GlslVersion → GlslProfile → VersionOutcome
  ignored failed : VersionOutcome

abbrev pub report_profile : GlslVersion → Option GlslProfile → VersionOutcome
report_profile v none = ignored
report_profile v (some p) = reported v p

-- `ParseGlslProfile`, which asserts that its token is an identifier, and what follows on its result.
unfoldable pub parse_glsl_profile : GlslVersion → PpToken → VersionOutcome
unfolding is_klass first_match
parse_glsl_profile v t =
    if is_klass t.klass TokenKlass.identifier
    then report_profile v (first_match profile_tests t.text)
    else failed

unfoldable pub get_default_profile : GlslVersion → GlslProfile
get_default_profile ver110 = compatibility
get_default_profile ver120 = compatibility
get_default_profile ver130 = compatibility
get_default_profile ver140 = compatibility
get_default_profile ver150 = compatibility
get_default_profile ver300 = compatibility
get_default_profile ver310 = compatibility
get_default_profile _ = core

abbrev pub with_profile : Option GlslVersion → List PpToken → VersionOutcome
with_profile none ts = ignored
with_profile (some v) [] = reported v (get_default_profile v)
with_profile (some v) (t ∷ ts) = parse_glsl_profile v t

-- Behind the name `version`.
unfoldable pub handle_version_directive : List PpToken → VersionOutcome
unfolding parse_glsl_version parse_glsl_profile get_default_profile
handle_version_directive [] = ignored
handle_version_directive (t ∷ ts) = with_profile (parse_glsl_version t) ts
