-- ===== src/Source/Overlap.antt =====
-- What `TextRange::Overlaps` decides, against the positions that two ranges share.
use glsld.Prelude.{◌≡◌, true, false, arith, inl, inr, Bool-cases}
use glsld.Source.{TextPosition, TextRange, position_lt, position_le, contains, overlaps}

pub lt→not_le : (a b : TextPosition) → position_lt a b ≡ true → position_le b a ≡ false
unfolding position_lt position_le
lt→not_le a b h = ground arith

pub not_lt→le : (a b : TextPosition) → position_lt a b ≡ false → position_le b a ≡ true
unfolding position_lt position_le
not_lt→le a b h = ground arith

pub lt→le : (a b : TextPosition) → position_lt a b ≡ true → position_le a b ≡ true
unfolding position_lt position_le
lt→le a b h = ground arith

pub le_refl : (a : TextPosition) → position_le a a ≡ true
unfolding position_le
le_refl a = ground arith

pub lt_trans :
    (a b c : TextPosition)
    → position_lt a b ≡ true
    → position_lt b c ≡ true
    → position_lt a c ≡ true
unfolding position_lt
lt_trans a b c h k = ground arith

pub le-lt_trans :
    (a b c : TextPosition)
    → position_le a b ≡ true
    → position_lt b c ≡ true
    → position_lt a c ≡ true
unfolding position_lt position_le
le-lt_trans a b c h k = ground arith

-- Two ranges share a position.
abbrev pub Meets : TextRange → TextRange → Type 0
Meets r s = (p : TextPosition) × (contains r p ≡ true) × (contains s p ≡ true)

-- For ranges that are not empty, `Overlaps` answers yes only if some position lies in both.
pub overlaps-Meets :
    (r s : TextRange)
    → position_lt r.start r.end ≡ true
    → position_lt s.start s.end ≡ true
    → overlaps r s ≡ true
    → Meets r s
unfolding overlaps contains
overlaps-Meets r s hr hs o = elim (Bool-cases (position_lt r.start s.start)) [
  | inl before ↦ (
    s.start,
    ground (arith, lt→le r.start s.start, lt_trans s.start s.end r.end),
    ground (arith, le_refl s.start),
  )
  | inr after ↦
      (r.start, ground (arith, le_refl r.start), ground (arith, not_lt→le r.start s.start))
]

-- If the first range starts first and ends inside the second, or where it ends, then `Overlaps`
-- answers no although the two ranges share a position.
pub overlaps_misses :
    (r s : TextRange)
    → position_lt r.start s.start ≡ true
    → position_lt s.start r.end ≡ true
    → position_le r.end s.end ≡ true
    → (overlaps r s ≡ false) × Meets r s
unfolding overlaps contains
overlaps_misses r s h k e = (
  ground (arith, lt→not_le s.end r.end, not_lt→le s.end r.end),
  (
    s.start,
    ground (arith, lt→le r.start s.start),
    ground (arith, le_refl s.start, lt_le s.start r.end s.end k e),
  ),
)
  where
    lt_le :
        (a b c : TextPosition)
        → position_lt a b ≡ true
        → position_le b c ≡ true
        → position_lt a c ≡ true
    lt_le a b c x y = elim (Bool-cases (position_lt a c)) [
      | inl yes' ↦ yes'
      | inr no' ↦ ground (arith, le-lt_trans c a b (not_lt→le a c no') x, lt→not_le c b)
    ]
