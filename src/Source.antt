-- ===== src/Source.antt =====
-- glsld-core/include/Basic/SourceInfo.h: positions and ranges in a text document. Lines and
-- characters are counted from zero; both stay below the range of `int`.
pub mod Overlap
pub mod Tests
use glsld.Prelude.{ℕ, ◌+◌, ◌-◌, Bool, ◌&&◌, ltb, leb, ◌==◌, if◌then◌else◌}

pub record TextPosition : Type 0 where
  pub line : ℕ
  pub character : ℕ

-- The defaulted `<=>` and `==` compare member by member.
unfoldable pub position_lt : TextPosition → TextPosition → Bool
position_lt a b = if a.line == b.line then ltb a.character b.character else ltb a.line b.line

unfoldable pub position_eq : TextPosition → TextPosition → Bool
position_eq a b = a.line == b.line && a.character == b.character

unfoldable pub position_le : TextPosition → TextPosition → Bool
position_le a b = if a.line == b.line then leb a.character b.character else ltb a.line b.line

pub record TextRange : Type 0 where
  pub start : TextPosition
  pub end : TextPosition

unfoldable pub is_empty : TextRange → Bool
unfolding position_eq
is_empty r = position_eq r.start r.end

-- The count of lines, for a range whose start does not lie behind its end.
unfoldable pub get_num_lines : TextRange → ℕ
get_num_lines r = r.end.line - r.start.line + 1

unfoldable pub contains : TextRange → TextPosition → Bool
unfolding position_le position_lt
contains r p = position_le r.start p && position_lt p r.end

unfoldable pub contains_extended : TextRange → TextPosition → Bool
unfolding position_le
contains_extended r p = position_le r.start p && position_le p r.end

unfoldable pub overlaps : TextRange → TextRange → Bool
unfolding contains position_lt
overlaps r s = if position_lt r.start s.start then contains r s.end else contains s r.start
