-- ===== src/Source/Tests.antt =====
-- Ranges for the theorems about overlaps.
use glsld.Prelude.{ℕ, ◌≡◌, refl, false}
use glsld.Source.{TextPosition, TextRange, position_lt, position_le, overlaps}
use glsld.Source.Overlap.{Meets, overlaps-Meets, overlaps_misses}

abbrev at : ℕ → ℕ → TextPosition
at l c = record { line = l; character = c }

-- 0:0 to 0:5, 0:3 to 0:8, and 0:1 to 0:9.
abbrev r : TextRange
r = record { start = at 0 0; end = at 0 5 }

abbrev s : TextRange
s = record { start = at 0 3; end = at 0 8 }

abbrev outer : TextRange
outer = record { start = at 0 1; end = at 0 9 }

overlaps-Meets_example : Meets s outer
unfolding position_lt overlaps
overlaps-Meets_example = overlaps-Meets s outer refl refl refl

overlaps_misses_example : (overlaps r s ≡ false) × Meets r s
unfolding position_lt position_le
overlaps_misses_example = overlaps_misses r s refl refl refl
