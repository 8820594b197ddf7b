-- ===== src/Tokenizer/Cursor.antt =====
-- Tokenizer.h, and lines 6 to 144 of Tokenizer.cpp: the cursor and the consumption of characters. The
-- cursor is the list of the bytes up to the end of the source, whose terminator reads as 0.
use glsld.Prelude.{
  ℕ, zero, suc, ◌+◌, Bool, true, false, ◌&&◌, ◌||◌, [], ◌∷◌, Option, none, some, ltb, leb, ◌==◌,
  if◌then◌else◌, length, take, drop, not,
}
use glsld.Token.{Bytes}
use glsld.Source.{TextPosition}

abbrev pub is_ascii : ℕ → Bool
is_ascii ch = ltb ch 128

abbrev pub is_alpha : ℕ → Bool
is_alpha ch = (leb b'a' ch && leb ch b'z') || (leb b'A' ch && leb ch b'Z')

abbrev pub is_digit : ℕ → Bool
is_digit ch = leb b'0' ch && leb ch b'9'

pub record Cursor : Type 0 where
  pub rest : Bytes
  pub line_counter : ℕ
  pub character_counter : ℕ
  pub count_utf16_characters : Bool

abbrev pub peek : Bytes → ℕ
peek [] = 0
peek (ch ∷ rest) = ch

abbrev pub peek_code_unit : Cursor → ℕ
peek_code_unit c = peek c.rest

abbrev pub get_text_position : Cursor → TextPosition
get_text_position c = record { line = c.line_counter; character = c.character_counter }

abbrev pub exhausted : Cursor → Bool
exhausted c = elim c.rest [ [] ↦ true | _ ↦ false ]

abbrev pub compute_lsp_code_unit_num : Bool → ℕ → ℕ
compute_lsp_code_unit_num utf16 n = if utf16 then (if n == 4 then 2 else 1) else n

-- What is left behind a line break.
abbrev pub newline_only_at : Bytes → Option Bytes
newline_only_at [] = none
newline_only_at (ch ∷ rest) = if ch == b'\n' then some rest else none

abbrev pub newline_at : Bytes → Option Bytes
newline_at [] = none
newline_at (ch ∷ rest) =
    if ch == b'\n' then some rest else if ch == b'\r' then newline_only_at rest else none

unfoldable pub continuation_at : Bytes → Option Bytes
continuation_at [] = none
continuation_at (ch ∷ rest) = if ch == b'\\' then newline_at rest else none

-- The loop of `TryConsumeLineContinuation`, with as much fuel as bytes are left.
unfoldable pub skip_continuations : ℕ → Cursor → Cursor
unfolding continuation_at
skip_continuations zero c = c
skip_continuations (suc fuel) c = elim (continuation_at c.rest) [
  | none ↦ c
  | some rest ↦
      skip_continuations fuel
        (record c { rest = rest; line_counter = c.line_counter + 1; character_counter = 0 })
]

unfoldable pub try_consume_line_continuation : Cursor → Cursor
unfolding skip_continuations
try_consume_line_continuation c = skip_continuations (length c.rest) c

-- The tokenizer with the variable `endPos` of `Lex`, which the functions below assign, and whether an
-- assertion has failed since `Lex` was called: what is done behind a failed one does not matter.
pub record Scan : Type 0 where
  pub cursor : Cursor
  pub end_pos : TextPosition
  pub failed : Bool

-- `GLSLD_ASSERT`.
abbrev pub assert_that : Bool → Scan → Scan
assert_that holds s = record s { failed = s.failed || not holds }

-- `endPos = GetTextPosition(); TryConsumeLineContinuation();`
abbrev pub settle : Bool → Cursor → Scan
settle failed c = record {
  cursor = try_consume_line_continuation c;
  end_pos = get_text_position c;
  failed = failed;
}

-- A line break or the terminator.
abbrev pub is_line_end : ℕ → Bool
is_line_end ch = ch == 0 || ch == b'\n'

abbrev pub advance : ℕ → ℕ → Cursor → Cursor
advance bytes characters c = record c {
  rest = drop bytes c.rest;
  character_counter = c.character_counter + characters;
}

-- The assertion of `ConsumeAsciiCharUnsafe`.
abbrev pub is_consumable_ascii : ℕ → Bool
is_consumable_ascii ch = is_ascii ch && not (is_line_end ch)

unfoldable pub consume_ascii_char_unsafe : Scan → Scan
unfolding try_consume_line_continuation
consume_ascii_char_unsafe s =
    let t = assert_that (is_consumable_ascii (peek_code_unit s.cursor)) s in
    settle t.failed (advance 1 1 t.cursor)

-- `std::countl_one` on a byte.
unfoldable pub countl_one : ℕ → ℕ
countl_one b =
    if ltb b 128
    then 0
    else if ltb b 192
    then 1
    else if ltb b 224
    then 2
    else if ltb b 240
    then 3
    else if ltb b 248
    then 4
    else if ltb b 252
    then 5
    else if ltb b 254
    then 6
    else if ltb b 255
    then 7
    else 8

abbrev pub min : ℕ → ℕ → ℕ
min a b = if ltb b a then b else a

abbrev pub num_code_units : Bytes → ℕ
num_code_units rest = if is_ascii (peek rest) then 1 else min (countl_one (peek rest)) (length rest)

abbrev pub num_characters : Cursor → ℕ
num_characters c =
    if is_ascii (peek c.rest)
    then 1
    else compute_lsp_code_unit_num c.count_utf16_characters (num_code_units c.rest)

-- The view of the bytes consumed, and the state behind them. Of the two assertions the second says that
-- the view is not empty.
unfoldable pub consume_char_unsafe : Scan → Bytes × Scan
unfolding try_consume_line_continuation countl_one
consume_char_unsafe s = (
  take (num_code_units s.cursor.rest) s.cursor.rest,
  settle
      (assert_that (ltb 0 (num_code_units s.cursor.rest))
        (assert_that (not (is_line_end (peek_code_unit s.cursor))) s)).failed
      (advance (num_code_units s.cursor.rest) (num_characters s.cursor) s.cursor),
)

abbrev pub next_line : Cursor → Cursor
next_line c = record c {
  rest = drop 1 c.rest;
  line_counter = c.line_counter + 1;
  character_counter = 0;
}

-- `ConsumeCharUnsafe` sets `endPos` and consumes a line continuation, and then `ConsumeChar` does again.
unfoldable pub consume_char : Scan → Bytes × Scan
unfolding consume_char_unsafe try_consume_line_continuation
consume_char s =
    if peek_code_unit s.cursor == 0
    then (0 ∷ [], settle s.failed s.cursor)
    else if peek_code_unit s.cursor == b'\n'
    then (b'\n' ∷ [], settle s.failed (next_line s.cursor))
    else (let u = consume_char_unsafe s in (u.0, settle u.1.failed u.1.cursor))

-- The result of `TryConsumeAsciiChar`. The assertion on its argument holds of the literals that it is
-- called with.
abbrev pub sees : ℕ → Scan → Bool
sees ch s = peek_code_unit s.cursor == ch

-- `TryConsumeWhitespace` and the two flags it may set.
pub record Whitespace : Type 0 where
  pub cursor : Cursor
  pub skipped_whitespace : Bool
  pub skipped_newline : Bool

unfoldable pub whitespace_step : Whitespace → Option Whitespace
unfolding try_consume_line_continuation continuation_at
whitespace_step w =
    let ch = peek_code_unit w.cursor in
    if ch == b' ' || ch == b'\t' || ch == b'\r'
    then some (record w { cursor = advance 1 1 w.cursor; skipped_whitespace = true })
    else if ch == b'\n'
    then some (record w {
      cursor = next_line w.cursor;
      skipped_whitespace = true;
      skipped_newline = true;
    })
    else elim (continuation_at w.cursor.rest) [
      | none ↦ none
      | some rest ↦ some (record w { cursor = try_consume_line_continuation w.cursor })
    ]
