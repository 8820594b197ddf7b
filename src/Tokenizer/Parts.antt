-- ===== src/Tokenizer/Parts.antt =====
-- Tokenizer.cpp, lines 45 to 68 and 146 to 287: the loops over white space, identifiers, numbers,
-- comments and header names. Each has as much fuel as bytes are left.
use glsld.Prelude.{
  ℕ, Bool, true, false, not, ◌&&◌, ◌||◌, [], ◌∷◌, ◌++◌, Option, none, some, ◌==◌, if◌then◌else◌,
  length,
}
use glsld.Token.{Bytes, TokenKlass}
use glsld.Tokenizer.Loop.{loop}
use glsld.Tokenizer.Cursor.{
  Cursor, Scan, Whitespace, whitespace_step, is_alpha, is_digit, peek, peek_code_unit, sees,
  consume_ascii_char_unsafe, consume_char_unsafe, consume_char, assert_that, is_line_end,
}

unfoldable pub try_consume_whitespace : Bool → Cursor → Whitespace
unfolding loop whitespace_step
try_consume_whitespace at_begin c =
    loop whitespace_step (length c.rest)
      (record { cursor = c; skipped_whitespace = false; skipped_newline = at_begin })

-- The tokenizer with `tokenTextBuffer`.
pub record Text : Type 0 where
  pub scan : Scan
  pub token_text_buffer : Bytes

pub record Lexed : Type 0 where
  pub klass : TokenKlass
  pub text : Bytes
  pub scan : Scan

abbrev pub fuel_of : Scan → ℕ
fuel_of s = length s.cursor.rest

abbrev pub lexed : TokenKlass → Text → Lexed
lexed k t = record { klass = k; text = t.token_text_buffer; scan = t.scan }

abbrev pub is_identifier_char : ℕ → Bool
is_identifier_char ch = ch == b'_' || is_alpha ch || is_digit ch

-- The next code unit goes into the buffer.
abbrev pub push_char : Text → Text
push_char t = record {
  scan = consume_ascii_char_unsafe t.scan;
  token_text_buffer = t.token_text_buffer ++ (peek_code_unit t.scan.cursor ∷ []);
}

unfoldable pub identifier_step : Text → Option Text
unfolding consume_ascii_char_unsafe
identifier_step t =
    if is_identifier_char (peek_code_unit t.scan.cursor) then some (push_char t) else none

unfoldable pub lex_identifier : ℕ → Scan → Lexed
unfolding loop identifier_step
lex_identifier first_char s =
    let start = assert_that (first_char == b'_' || is_alpha first_char) s in
    lexed TokenKlass.identifier (
      loop identifier_step (fuel_of s)
        (record { scan = start; token_text_buffer = first_char ∷ [] }))

pub record Number : Type 0 where
  pub text : Text
  pub seen_hex_prefix : Bool
  pub seen_dot : Bool
  pub seen_exp : Bool

abbrev pub push_sign : Text → Text
push_sign t = if sees b'+' t.scan || sees b'-' t.scan then push_char t else t

unfoldable pub number_step : Number → Option Number
unfolding consume_ascii_char_unsafe
number_step n =
    let next_char = peek_code_unit n.text.scan.cursor in
    if next_char == b'.'
    then (if n.seen_dot || n.seen_exp
        then none
        else some (record n { text = push_char n.text; seen_dot = true }))
    else if not n.seen_hex_prefix && (next_char == b'e' || next_char == b'E')
    then (if n.seen_exp
        then none
        else some (record n { text = push_sign (push_char n.text); seen_exp = true }))
    else if is_digit next_char || is_alpha next_char
    then some (record n { text = push_char n.text })
    else none

-- The test for a hexadecimal prefix.
abbrev pub hex_prefix : ℕ → Text → Text × Bool
hex_prefix first_char t =
    if first_char == b'0' && (sees b'x' t.scan || sees b'X' t.scan)
    then (push_char t, true)
    else (t, false)

abbrev pub start_number : ℕ → Text × Bool → Number
start_number first_char p = record {
  text = p.0;
  seen_hex_prefix = p.1;
  seen_dot = first_char == b'.';
  seen_exp = false;
}

-- The assertion of `LexNumberLiteral`.
abbrev pub begins_number : ℕ → Scan → Bool
begins_number first_char s =
    is_digit first_char || (first_char == b'.' && is_digit (peek_code_unit s.cursor))

unfoldable pub lex_number_literal : ℕ → Scan → Lexed
unfolding loop number_step consume_ascii_char_unsafe
lex_number_literal first_char s =
    let checked = assert_that (begins_number first_char s) s in
    let start =
      start_number first_char
        (hex_prefix first_char (record { scan = checked; token_text_buffer = first_char ∷ [] })) in
    lexed TokenKlass.number_literal (loop number_step (fuel_of s) start).text

abbrev pub push_view : Text → Bytes × Scan → Text
push_view t view = record { scan = view.1; token_text_buffer = t.token_text_buffer ++ view.0 }

abbrev pub at_line_end : Scan → Bool
at_line_end s = is_line_end (peek_code_unit s.cursor)

unfoldable pub line_comment_step : Text → Option Text
unfolding consume_char_unsafe
line_comment_step t =
    if at_line_end t.scan then none else some (push_view t (consume_char_unsafe t.scan))

unfoldable pub lex_line_comment : Scan → Lexed
unfolding loop line_comment_step
lex_line_comment s =
    let t =
      loop line_comment_step (fuel_of s)
        (record { scan = s; token_text_buffer = b'/' ∷ b'/' ∷ [] }) in
    lexed TokenKlass.comment (record t { token_text_buffer = t.token_text_buffer ++ (b'\n' ∷ []) })

-- The states of the two loops that end by a `return` as well as by a `break`.
pub record Closing : Type 0 where
  pub text : Text
  pub prev_was_star : Bool
  pub closed : Bool

abbrev pub opening : Scan → Bytes → Closing
opening s buffer = record {
  text = record { scan = s; token_text_buffer = buffer };
  prev_was_star = false;
  closed = false;
}

-- What the loop of a block comment does with the next character.
abbrev pub block_comment_char : Closing → Bytes × Scan → Closing
block_comment_char b view =
    let ch = peek view.0 in
    record {
      text = push_view b.text view;
      prev_was_star = ch == b'*';
      closed = b.prev_was_star && ch == b'/';
    }

unfoldable pub block_comment_step : Closing → Option Closing
unfolding consume_char
block_comment_step b =
    if b.closed || sees 0 b.text.scan
    then none
    else some (block_comment_char b (consume_char b.text.scan))

abbrev pub closed_as : TokenKlass → Closing → Lexed
closed_as k b = if b.closed then lexed k b.text else lexed TokenKlass.unknown b.text

-- The loop breaks at the terminator, which `ConsumeChar` has read then: it sets `endPos`.
abbrev pub reach_end : Closing → Closing
reach_end b =
    if b.closed
    then b
    else record b { text = record b.text { scan = (consume_char b.text.scan).1 } }

unfoldable pub lex_block_comment : Scan → Lexed
unfolding loop block_comment_step consume_char
lex_block_comment s =
    closed_as TokenKlass.comment
      (reach_end (loop block_comment_step (fuel_of s) (opening s (b'/' ∷ b'*' ∷ []))))

unfoldable pub header_name_step : ℕ → Closing → Option Closing
unfolding consume_char_unsafe consume_ascii_char_unsafe
header_name_step quote_end b =
    if b.closed || at_line_end b.text.scan
    then none
    else if sees quote_end b.text.scan
    then some (record b { text = push_char b.text; closed = true })
    else some (record b { text = push_view b.text (consume_char_unsafe b.text.scan) })

unfoldable pub lex_header_name : ℕ → ℕ → TokenKlass → Scan → Lexed
unfolding loop header_name_step
lex_header_name quote_start quote_end k s =
    closed_as k (loop (header_name_step quote_end) (fuel_of s) (opening s (quote_start ∷ [])))
