-- ===== src/Version/Reading.antt =====
-- Which texts are read as a version, and what a directive reports.
use mathlib.Core.Path.{subst}
use glsld.Prelude.{
  ◌≡◌, ◌↔◌, refl, sym, ap, ◌∙◌, Bool, true, false, not, ◌&&◌, List, [], ◌∷◌, Option, none, some,
  Bool-cases, inl, inr, if◌then◌else◌, ltb,
}
use glsld.Token.{PpToken, TokenKlass, Bytes, text_eq, text_eq_iff, is_klass}
use glsld.GlslType.{decimal}
use glsld.Version.{
  GlslVersion, GlslProfile, ver110, ver120, ver130, ver140, ver150, ver330, ver400, ver410, ver420,
  ver430, ver440, ver450, ver460, get_default_profile, with_profile, ver300, ver310, version_number,
  first_match, version_tests, parse_glsl_version, VersionOutcome, reported, ignored, failed,
  handle_version_directive, parse_glsl_profile, report_profile, profile_tests, core, compatibility,
  es,
}

-- The versions of desktop GLSL, which have a core profile or none.
abbrev pub is_desktop : GlslVersion → Bool
is_desktop ver300 = false
is_desktop ver310 = false
is_desktop _ = true

-- Every test of a chain has the property.
abbrev AllTests : {A : Type 0} → (Bytes → A → Type 0) → List (Bytes × A) → Type 0
AllTests P [] = Unit
AllTests P ((atom, a) ∷ tests) = P atom a × AllTests P tests

first_match-AllTests :
    {A : Type 0} (P : Bytes → A → Type 0) (tests : List (Bytes × A)) (text : Bytes) (a : A)
    → AllTests P tests
    → first_match tests text ≡ some a
    → P text a
unfolding first_match
first_match-AllTests P [] text a h e = absurd (clash e)
  where
    clash : none ≡ some a → ⊥
    clash e = cc
first_match-AllTests {A} P ((atom, b) ∷ tests) text a h e =
    by_test (first_match-AllTests P tests text a h.1) (text_eq text atom) refl e
  where
    by_test :
        (first_match tests text ≡ some a → P text a)
        → (t : Bool) → text_eq text atom ≡ t
        → (if t then some b else first_match tests text) ≡ some a
        → P text a
    by_test rest true t e =
        let same : b ≡ a = cc in
        subst (λ x. P x a) (sym ((text_eq_iff text atom).0 t)) (subst (P atom) same h.0)
    by_test rest false t e = rest e

-- What a test of the version chain says of its atom.
abbrev ReadAs : Bytes → GlslVersion → Type 0
ReadAs text v = (text ≡ decimal (version_number v)) × (is_desktop v ≡ true)

version_tests-ReadAs : AllTests ReadAs version_tests
unfolding decimal version_number
version_tests-ReadAs = (
  (refl, refl),
  (
    (refl, refl),
    (
      (refl, refl),
      (
        (refl, refl),
        (
          (refl, refl),
          (
            (refl, refl),
            (
              (refl, refl),
              (
                (refl, refl),
                ((refl, refl), ((refl, refl), ((refl, refl), ((refl, refl), ((refl, refl), tt))))),
              ),
            ),
          ),
        ),
      ),
    ),
  ),
)

read_desktop :
    (v : GlslVersion)
    → is_desktop v ≡ true
    → first_match version_tests (decimal (version_number v)) ≡ some v
unfolding first_match decimal version_number
read_desktop ver300 h = cc
read_desktop ver310 h = cc
read_desktop _ h = refl

-- A number token is read as a version exactly if its text is the number of the version in decimal
-- and the version is one of desktop GLSL: no token is read as the versions 300 and 310.
pub parse_glsl_version-decimal :
    (t : PpToken) (v : GlslVersion)
    → is_klass t.klass TokenKlass.number_literal ≡ true
    → (parse_glsl_version t ≡ some v)
      ↔ ((t.text ≡ decimal (version_number v)) × (is_desktop v ≡ true))
unfolding parse_glsl_version
parse_glsl_version-decimal t v k = rw k (
  λ e. first_match-AllTests ReadAs version_tests t.text v version_tests-ReadAs e,
  λ h. ap (first_match version_tests) h.0 ∙ read_desktop v h.1,
)

-- The names of the profiles.
abbrev pub profile_name : GlslProfile → Bytes
profile_name core = b'c' ∷ b'o' ∷ b'r' ∷ b'e' ∷ []
profile_name compatibility =
    b'c' ∷ b'o' ∷ b'm' ∷ b'p' ∷ b'a' ∷ b't' ∷ b'i' ∷ b'b' ∷ b'i' ∷ b'l' ∷ b'i' ∷ b't' ∷ b'y' ∷ []
profile_name es = b'e' ∷ b's' ∷ []

-- The profile of a version without a name: compatibility before 3.30, and core from there on.
unfoldable pub default_profile : GlslVersion → GlslProfile
unfolding version_number
default_profile v = if ltb (version_number v) 330 then compatibility else core

-- The text of a token is the number of a version of desktop GLSL, in decimal.
pub record Spells (t : PpToken) (v : GlslVersion) : Type 0 where
  pub number : is_klass t.klass TokenKlass.number_literal ≡ true
  pub digits : t.text ≡ decimal (version_number v)
  pub desktop : is_desktop v ≡ true

-- A version that is spelled out in a number, and then nothing, which means the default profile, or an
-- identifier, which is the name of a profile.
pub data Means : List PpToken → GlslVersion → GlslProfile → Type 0 where
  by_default : (t : PpToken) (v : GlslVersion) → Spells t v → Means (t ∷ []) v (default_profile v)
  by_name :
      (t p : PpToken) (ts : List PpToken) (v : GlslVersion) (profile : GlslProfile)
      → Spells t v
      → is_klass p.klass TokenKlass.identifier ≡ true
      → p.text ≡ profile_name profile
      → Means (t ∷ (p ∷ ts)) v profile

parse_glsl_version-Spells :
    (t : PpToken) (v : GlslVersion) → parse_glsl_version t ≡ some v → Spells t v
unfolding parse_glsl_version
parse_glsl_version-Spells t v e = elim (Bool-cases (is_klass t.klass TokenKlass.number_literal)) [
  | inl k ↦
      let h = (parse_glsl_version-decimal t v k).0 e in
      record { number = k; digits = h.0; desktop = h.1 }
  | inr k ↦
      let unread : parse_glsl_version t ≡ none = rw k refl in absurd (none_is_some (sym unread ∙ e))
]
  where
    none_is_some : none ≡ some v → ⊥
    none_is_some e = cc

Spells-parse_glsl_version :
    (t : PpToken) (v : GlslVersion) → Spells t v → parse_glsl_version t ≡ some v
Spells-parse_glsl_version t v h = (parse_glsl_version-decimal t v h.number).1 (h.digits, h.desktop)

profile_tests-AllTests : AllTests (λ text q. text ≡ profile_name q) profile_tests
profile_tests-AllTests = (refl, (refl, (refl, tt)))

first_match-profile_name : (q : GlslProfile) → first_match profile_tests (profile_name q) ≡ some q
unfolding first_match
first_match-profile_name core = refl
first_match-profile_name compatibility = refl
first_match-profile_name es = refl

get_default_profile-default_profile : (v : GlslVersion) → get_default_profile v ≡ default_profile v
unfolding get_default_profile default_profile
get_default_profile-default_profile ver110 = refl
get_default_profile-default_profile ver120 = refl
get_default_profile-default_profile ver130 = refl
get_default_profile-default_profile ver140 = refl
get_default_profile-default_profile ver150 = refl
get_default_profile-default_profile ver300 = refl
get_default_profile-default_profile ver310 = refl
get_default_profile-default_profile ver330 = refl
get_default_profile-default_profile ver400 = refl
get_default_profile-default_profile ver410 = refl
get_default_profile-default_profile ver420 = refl
get_default_profile-default_profile ver430 = refl
get_default_profile-default_profile ver440 = refl
get_default_profile-default_profile ver450 = refl
get_default_profile-default_profile ver460 = refl

Means-reported :
    (ts : List PpToken) (v : GlslVersion) (p : GlslProfile)
    → Means ts v p
    → handle_version_directive ts ≡ reported v p
unfolding handle_version_directive parse_glsl_profile
Means-reported _ _ _ (by_default t v h) =
    rw (Spells-parse_glsl_version t v h) (ap (reported v) (get_default_profile-default_profile v))
Means-reported _ _ _ (by_name t p ts v profile h k f) =
    rw (Spells-parse_glsl_version t v h, k, f, first_match-profile_name profile) refl

same_report :
    (ts : List PpToken) (w v : GlslVersion) (q p : GlslProfile)
    → reported w q ≡ reported v p
    → Means ts w q
    → Means ts v p
same_report ts w v q p e h =
    let same_version : w ≡ v = cc in
    let same_profile : q ≡ p = cc in
    subst (λ x. Means ts x p) same_version (subst (Means ts w) same_profile h)

reported-Means :
    (ts : List PpToken) (v : GlslVersion) (p : GlslProfile)
    → handle_version_directive ts ≡ reported v p
    → Means ts v p
unfolding handle_version_directive parse_glsl_profile
reported-Means [] v p e = absurd (clash e)
  where
    clash : ignored ≡ reported v p → ⊥
    clash e = cc
reported-Means (t ∷ []) v p e = by_version (parse_glsl_version t) refl e
  where
    by_version :
        (o : Option GlslVersion)
        → parse_glsl_version t ≡ o
        → with_profile o [] ≡ reported v p
        → Means (t ∷ []) v p
    by_version none r e = cc
    by_version (some w) r e = same_report (t ∷ []) w v (get_default_profile w) p e (
        subst (Means (t ∷ []) w) (sym (get_default_profile-default_profile w))
          (by_default t w (parse_glsl_version-Spells t w r)))
reported-Means (t ∷ (u ∷ ts)) v p e = by_version (parse_glsl_version t) refl e
  where
    by_profile :
        (w : GlslVersion) (o : Option GlslProfile)
        → parse_glsl_version t ≡ some w
        → is_klass u.klass TokenKlass.identifier ≡ true
        → first_match profile_tests u.text ≡ o
        → report_profile w o ≡ reported v p
        → Means (t ∷ (u ∷ ts)) v p
    by_profile w none r k f e = cc
    by_profile w (some q) r k f e = same_report (t ∷ (u ∷ ts)) w v q p e (
        by_name t u ts w q (parse_glsl_version-Spells t w r) k (
          first_match-AllTests (λ text x. text ≡ profile_name x) profile_tests u.text q
            profile_tests-AllTests f))

    by_klass :
        (w : GlslVersion) (b : Bool)
        → parse_glsl_version t ≡ some w
        → is_klass u.klass TokenKlass.identifier ≡ b
        → (if b then report_profile w (first_match profile_tests u.text) else failed) ≡ reported v p
        → Means (t ∷ (u ∷ ts)) v p
    by_klass w true r k e = by_profile w (first_match profile_tests u.text) r k refl e
    by_klass w false r k e = cc

    by_version :
        (o : Option GlslVersion)
        → parse_glsl_version t ≡ o
        → with_profile o (u ∷ ts) ≡ reported v p
        → Means (t ∷ (u ∷ ts)) v p
    by_version none r e = cc
    by_version (some w) r e = by_klass w (is_klass u.klass TokenKlass.identifier) r refl e

-- A directive reports a version and a profile exactly if it is the decimal number of that version,
-- one of desktop GLSL, followed by nothing, where the profile is compatibility before 3.30 and core
-- from there on, or by the name of the profile and any further tokens.
pub handle_version-Means :
    (ts : List PpToken) (v : GlslVersion) (p : GlslProfile)
    → (handle_version_directive ts ≡ reported v p) ↔ Means ts v p
handle_version-Means ts v p = (reported-Means ts v p, Means-reported ts v p)

abbrev pub is_some : {A : Type 0} → Option A → Bool
is_some none = false
is_some (some a) = true

-- A version that is followed by a token that is not an identifier.
abbrev pub names_no_profile : List PpToken → Bool
names_no_profile [] = false
names_no_profile (t ∷ []) = false
names_no_profile (t ∷ (p ∷ ts)) =
    is_some (parse_glsl_version t) && not (is_klass p.klass TokenKlass.identifier)

abbrev pub is_failed : VersionOutcome → Bool
is_failed failed = true
is_failed _ = false

-- The assertion on the token of the profile fails exactly if a version that is read is followed by a
-- token that is not an identifier.
pub handle_version-failed :
    (ts : List PpToken) → is_failed (handle_version_directive ts) ≡ names_no_profile ts
unfolding handle_version_directive parse_glsl_profile
handle_version-failed [] = refl
handle_version-failed (t ∷ []) = by_version (parse_glsl_version t)
  where
    by_version : (o : Option GlslVersion) → is_failed (with_profile o []) ≡ false
    by_version none = refl
    by_version (some v) = refl
handle_version-failed (t ∷ (p ∷ ts)) = by_version (parse_glsl_version t)
  where
    reports_no_failure :
        (v : GlslVersion) (o : Option GlslProfile) → is_failed (report_profile v o) ≡ false
    reports_no_failure v none = refl
    reports_no_failure v (some q) = refl

    by_version :
        (o : Option GlslVersion)
        → is_failed (with_profile o (p ∷ ts))
          ≡ (is_some o && not (is_klass p.klass TokenKlass.identifier))
    by_version none = refl
    by_version (some v) = elim (Bool-cases (is_klass p.klass TokenKlass.identifier)) [
      | inl k ↦ rw k (reports_no_failure v (first_match profile_tests p.text))
      | inr k ↦ rw k refl
    ]
