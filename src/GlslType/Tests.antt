-- ===== src/GlslType/Tests.antt =====
-- Inputs for the theorems about types.
use glsld.Prelude.{◌≡◌, refl, some, false, inr}
use glsld.Typing.{ScalarKind}
use glsld.GlslType.{TypeDesc, vector, matrix, has_better_conversion}
use glsld.GlslType.Conversion.{HasGlslMatrix}

abbrev ivec3 : TypeDesc
ivec3 = vector ScalarKind.int 3

abbrev vec3 : TypeDesc
vec3 = vector ScalarKind.float 3

abbrev dvec3 : TypeDesc
dvec3 = vector ScalarKind.double 3

-- A matrix of doubles converts to its own type only.
abbrev dmat2 : TypeDesc
dmat2 = matrix ScalarKind.double 2 2

dmat2-HasGlslMatrix : HasGlslMatrix dmat2
dmat2-HasGlslMatrix = inr refl

dmat2_not_better : has_better_conversion dmat2 dmat2 dmat2 ≡ some false
unfolding has_better_conversion
dmat2_not_better = refl
