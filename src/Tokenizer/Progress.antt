-- ===== src/Tokenizer/Progress.antt =====
-- Consumption moves the cursor forward, and `endPos` stays between the begin of the token and the
-- cursor.
use mathlib.Core.Path.{subst}
use glsld.Prelude.{
  ℕ, zero, suc, ◌+◌, ◌≤◌, ◌<◌, ◌≡◌, Bool, true, false, [], ◌∷◌, none, some, ◌==◌, if◌then◌else◌,
  length, drop, length-drop, arith, inl, inr, Option-cases, refl, ap, not, ltb, if_cases,
}
use glsld.Source.{TextPosition, position_le}
use glsld.Source.Overlap.{le_refl}
use glsld.Token.{Bytes}
use glsld.Tokenizer.Cursor.{
  Cursor, Scan, continuation_at, newline_at, newline_only_at, skip_continuations,
  try_consume_line_continuation, settle, advance, next_line, get_text_position,
  consume_ascii_char_unsafe, consume_char_unsafe, consume_char, num_code_units, num_characters,
  peek, peek_code_unit, countl_one, assert_that, is_line_end, is_consumable_ascii,
}

pub le_trans :
    (a b c : TextPosition)
    → position_le a b ≡ true
    → position_le b c ≡ true
    → position_le a c ≡ true
unfolding position_le
le_trans a b c h k = ground arith

abbrev pub position : ℕ → ℕ → TextPosition
position l ch = record { line = l; character = ch }

le-next_character : (l ch n : ℕ) → position_le (position l ch) (position l (ch + n)) ≡ true
unfolding position_le
le-next_character l ch n = ground arith

le-next_line : (l ch n : ℕ) → position_le (position l ch) (position (l + 1) n) ≡ true
unfolding position_le
le-next_line l ch n = ground arith

-- No null character.
abbrev pub HasNoNull : Bytes → Type 0
HasNoNull [] = Unit
HasNoNull (ch ∷ rest) = ((ch == 0) ≡ false) × HasNoNull rest

pub drop-HasNoNull : (n : ℕ) (rest : Bytes) → HasNoNull rest → HasNoNull (drop n rest)
drop-HasNoNull zero rest h = h
drop-HasNoNull (suc n) [] h = tt
drop-HasNoNull (suc n) (ch ∷ rest) h = drop-HasNoNull n rest h.1

-- No more bytes are left, without a new null character, and the position is not before.
pub record Moves (c d : Cursor) : Type 0 where
  pub shorter : length d.rest ≤ length c.rest
  pub behind : position_le (get_text_position c) (get_text_position d) ≡ true
  pub clean : HasNoNull c.rest → HasNoNull d.rest

pub Moves-refl : (c : Cursor) → Moves c c
Moves-refl c = record {
  shorter = omega arith;
  behind = le_refl (get_text_position c);
  clean = λ h. h;
}

pub Moves-trans : (c d e : Cursor) → Moves c d → Moves d e → Moves c e
Moves-trans c d e h k = record {
  shorter = omega (arith, h.shorter, k.shorter);
  behind =
      le_trans (get_text_position c) (get_text_position d) (get_text_position e) h.behind k.behind;
  clean = λ x. k.clean (h.clean x);
}

pub advance-Moves : (n characters : ℕ) (c : Cursor) → Moves c (advance n characters c)
advance-Moves n characters c = record {
  shorter = omega (arith, length-drop n c.rest);
  behind = le-next_character c.line_counter c.character_counter characters;
  clean = drop-HasNoNull n c.rest;
}

pub next_line-Moves : (c : Cursor) → Moves c (next_line c)
next_line-Moves c = record {
  shorter = omega (arith, length-drop 1 c.rest);
  behind = le-next_line c.line_counter c.character_counter 0;
  clean = drop-HasNoNull 1 c.rest;
}

-- Less is left, without a new null character.
abbrev IsTail : Bytes → Bytes → Type 0
IsTail rest r = (length r < length rest) × (HasNoNull rest → HasNoNull r)

some_injective : (r s : Bytes) → some r ≡ some s → r ≡ s
some_injective r s h = cc

behind_char : (ch : ℕ) (rest r : Bytes) → some rest ≡ some r → IsTail (ch ∷ rest) r
behind_char ch rest r h =
    subst (IsTail (ch ∷ rest)) (some_injective rest r h) (omega arith, λ k. k.1)

further : (ch : ℕ) (rest r : Bytes) → IsTail rest r → IsTail (ch ∷ rest) r
further ch rest r h = (omega (arith, h.0), λ k. h.1 k.1)

newline_only_at-IsTail : (rest r : Bytes) → newline_only_at rest ≡ some r → IsTail rest r
newline_only_at-IsTail [] r h = cc
newline_only_at-IsTail (ch ∷ rest) r h = by_test (ch == b'\n') h
  where
    by_test : (b : Bool) → (if b then some rest else none) ≡ some r → IsTail (ch ∷ rest) r
    by_test true h = behind_char ch rest r h
    by_test false h = cc

newline_at-IsTail : (rest r : Bytes) → newline_at rest ≡ some r → IsTail rest r
newline_at-IsTail [] r h = cc
newline_at-IsTail (ch ∷ rest) r h = by_test (ch == b'\n') (ch == b'\r') h
  where
    by_test :
        (b d : Bool)
        → (if b then some rest else if d then newline_only_at rest else none) ≡ some r
        → IsTail (ch ∷ rest) r
    by_test true d h = behind_char ch rest r h
    by_test false true h = further ch rest r (newline_only_at-IsTail rest r h)
    by_test false false h = cc

pub continuation_at-IsTail : (rest r : Bytes) → continuation_at rest ≡ some r → IsTail rest r
unfolding continuation_at
continuation_at-IsTail [] r h = cc
continuation_at-IsTail (ch ∷ rest) r h = by_test (ch == b'\\') h
  where
    by_test : (b : Bool) → (if b then newline_at rest else none) ≡ some r → IsTail (ch ∷ rest) r
    by_test true h = further ch rest r (newline_at-IsTail rest r h)
    by_test false h = cc

abbrev pub behind_continuation : Cursor → Bytes → Cursor
behind_continuation c r = record c {
  rest = r;
  line_counter = c.line_counter + 1;
  character_counter = 0;
}

continuation-Moves :
    (c : Cursor) (r : Bytes) → continuation_at c.rest ≡ some r → Moves c (behind_continuation c r)
continuation-Moves c r e =
    let tail = continuation_at-IsTail c.rest r e in
    record {
      shorter = omega (arith, tail.0);
      behind = le-next_line c.line_counter c.character_counter 0;
      clean = tail.1;
    }

pub skip_continuations-Moves : (fuel : ℕ) (c : Cursor) → Moves c (skip_continuations fuel c)
unfolding skip_continuations
skip_continuations-Moves zero c = Moves-refl c
skip_continuations-Moves (suc fuel) c = elim (Option-cases (continuation_at c.rest)) [
  | inl e ↦ rw (skip_continuations, e) (Moves-refl c)
  | inr (r, e) ↦
      let d = behind_continuation c r in
      rw (skip_continuations, e)
        (Moves-trans c d (skip_continuations fuel d) (continuation-Moves c r e)
          (skip_continuations-Moves fuel d))
]

-- The scan of a token that begins at `c`: a byte has been consumed, `endPos` lies between, and no
-- assertion has failed.
pub record IsBehind (c : Cursor) (s : Scan) : Type 0 where
  pub shorter : length s.cursor.rest < length c.rest
  pub end_behind : position_le (get_text_position c) s.end_pos ≡ true
  pub cursor_behind : position_le s.end_pos (get_text_position s.cursor) ≡ true
  pub clean : HasNoNull c.rest → HasNoNull s.cursor.rest
  pub sound : s.failed ≡ false

IsBehind-Moves : (c : Cursor) (s : Scan) → IsBehind c s → Moves c s.cursor
IsBehind-Moves c s h = record {
  shorter = omega (arith, h.shorter);
  behind =
      le_trans (get_text_position c) s.end_pos (get_text_position s.cursor) h.end_behind
        h.cursor_behind;
  clean = h.clean;
}

settle-IsBehind :
    (c d : Cursor) (failed : Bool)
    → length d.rest < length c.rest
    → Moves c d
    → failed ≡ false
    → IsBehind c (settle failed d)
unfolding try_consume_line_continuation
settle-IsBehind c d failed h k sound =
    let m = skip_continuations-Moves (length d.rest) d in
    record {
      shorter = omega (arith, h, m.shorter);
      end_behind = k.behind;
      cursor_behind = m.behind;
      clean = λ x. m.clean (k.clean x);
      sound = sound;
    }

moved-IsBehind :
    (c : Cursor) (s : Scan) (d : Cursor) (failed : Bool)
    → IsBehind c s
    → Moves s.cursor d
    → failed ≡ false
    → IsBehind c (settle failed d)
moved-IsBehind c s d failed h k sound =
    settle-IsBehind c d failed (omega (arith, h.shorter, k.shorter))
      (Moves-trans c s.cursor d (IsBehind-Moves c s h) k) sound

-- An assertion that holds.
assert_that_sound :
    (holds : Bool) (s : Scan)
    → s.failed ≡ false
    → holds ≡ true
    → (assert_that holds s).failed ≡ false
assert_that_sound holds s h k = rw (h, k) refl

pub assert_that-IsBehind :
    (c : Cursor) (holds : Bool) (s : Scan)
    → IsBehind c s
    → holds ≡ true
    → IsBehind c (assert_that holds s)
assert_that-IsBehind c holds s h k = record {
  shorter = h.shorter;
  end_behind = h.end_behind;
  cursor_behind = h.cursor_behind;
  clean = h.clean;
  sound = assert_that_sound holds s h.sound k;
}

num_code_units_pos : (ch : ℕ) (rest : Bytes) → 0 < num_code_units (ch ∷ rest)
unfolding countl_one
num_code_units_pos ch rest = ground arith

num_code_units-pos : (rest : Bytes) → (peek rest == 0) ≡ false → 0 < num_code_units rest
num_code_units-pos [] h = cc
num_code_units-pos (ch ∷ rest) h = num_code_units_pos ch rest

not_null : (ch : ℕ) → is_line_end ch ≡ false → (ch == 0) ≡ false
not_null ch h = ground arith

ltb-true : (n : ℕ) → 0 < n → ltb 0 n ≡ true
ltb-true n h = ground arith

-- The assertions of `ConsumeCharUnsafe` hold of any other character.
consumed_sound :
    (s : Scan)
    → s.failed ≡ false
    → is_line_end (peek_code_unit s.cursor) ≡ false
    → (assert_that
        (ltb 0 (num_code_units s.cursor.rest))
        (assert_that (not (is_line_end (peek_code_unit s.cursor))) s)).failed
      ≡ false
consumed_sound s h e =
    let t = assert_that (not (is_line_end (peek_code_unit s.cursor))) s in
    let n = num_code_units s.cursor.rest in
    let positive : 0 < n =
      num_code_units-pos s.cursor.rest (not_null (peek_code_unit s.cursor) e) in
    assert_that_sound (ltb 0 n) t
      (assert_that_sound (not (is_line_end (peek_code_unit s.cursor))) s h (ap not e))
      (ltb-true n positive)

pub consume_ascii-IsBehind :
    (c : Cursor) (s : Scan)
    → IsBehind c s
    → is_consumable_ascii (peek_code_unit s.cursor) ≡ true
    → IsBehind c (consume_ascii_char_unsafe s)
unfolding consume_ascii_char_unsafe
consume_ascii-IsBehind c s h e =
    let ascii = is_consumable_ascii (peek_code_unit s.cursor) in
    moved-IsBehind c s (advance 1 1 s.cursor) (assert_that ascii s).failed h
      (advance-Moves 1 1 s.cursor) (assert_that_sound ascii s h.sound e)

pub consume_char_unsafe-IsBehind :
    (c : Cursor) (s : Scan)
    → IsBehind c s
    → is_line_end (peek_code_unit s.cursor) ≡ false
    → IsBehind c (consume_char_unsafe s).1
unfolding consume_char_unsafe
consume_char_unsafe-IsBehind c s h e =
    moved-IsBehind c s (advance (num_code_units s.cursor.rest) (num_characters s.cursor) s.cursor) _
      h (advance-Moves (num_code_units s.cursor.rest) (num_characters s.cursor) s.cursor)
      (consumed_sound s h.sound e)

line_end_parts : (ch : ℕ) → (ch == 0) ≡ false → (ch == b'\n') ≡ false → is_line_end ch ≡ false
line_end_parts ch h k = rw (h, k) refl

pub consume_char-IsBehind : (c : Cursor) (s : Scan) → IsBehind c s → IsBehind c (consume_char s).1
unfolding consume_char
consume_char-IsBehind c s h =
    if_cases (λ (u : Bytes × Scan). IsBehind c u.1) (peek_code_unit s.cursor == 0) _ _
      (λ e. moved-IsBehind c s s.cursor s.failed h (Moves-refl s.cursor) h.sound)
      (λ e.
        if_cases (λ (u : Bytes × Scan). IsBehind c u.1) (peek_code_unit s.cursor == b'\n') _ _
          (λ n.
            moved-IsBehind c s (next_line s.cursor) s.failed h (next_line-Moves s.cursor) h.sound)
          (λ n.
            let u = (consume_char_unsafe s).1 in
            let b =
              consume_char_unsafe-IsBehind c s h (line_end_parts (peek_code_unit s.cursor) e n) in
            moved-IsBehind c u u.cursor u.failed b (Moves-refl u.cursor) b.sound))

pub consumed-lt :
    (rest : Bytes) (n : ℕ) → (peek rest == 0) ≡ false → 0 < n → length (drop n rest) < length rest
consumed-lt [] n h k = cc
consumed-lt (ch ∷ rest) n h k = omega (arith, length-drop n (ch ∷ rest))

-- The first character of a token.
pub first_char-IsBehind :
    (c : Cursor) (p : TextPosition)
    → is_line_end (peek_code_unit c) ≡ false
    → IsBehind c (consume_char_unsafe (record { cursor = c; end_pos = p; failed = false })).1
unfolding consume_char_unsafe
first_char-IsBehind c p h =
    let e = not_null (peek_code_unit c) h in
    settle-IsBehind c (advance (num_code_units c.rest) (num_characters c) c) _
      (consumed-lt c.rest (num_code_units c.rest) e (num_code_units-pos c.rest e))
      (advance-Moves (num_code_units c.rest) (num_characters c) c)
      (consumed_sound (record { cursor = c; end_pos = p; failed = false }) refl h)
