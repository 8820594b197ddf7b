-- ===== src/Tokenizer/Lex.antt =====
-- Tokenizer.cpp, lines 288 to 650: `Lex`. A branch of the `switch` is a function of the state behind
-- the first character.
use glsld.Prelude.{
  ℕ, zero, suc, Bool, true, false, not, ◌&&◌, ◌||◌, List, [], ◌∷◌, Option, none, some, ◌==◌,
  if◌then◌else◌, length,
}
use glsld.Token.{Bytes, TokenKlass, PpToken, is_klass}
use glsld.Tokenizer.Cursor.{
  Cursor, Scan, Whitespace, is_alpha, is_digit, peek, peek_code_unit, sees, get_text_position,
  exhausted, consume_ascii_char_unsafe, consume_char_unsafe, is_line_end,
}
use glsld.Source.{position_le}
use glsld.Tokenizer.Parts.{
  Lexed, try_consume_whitespace, lex_identifier, lex_number_literal, lex_line_comment,
  lex_block_comment, lex_header_name,
}

abbrev pub Branch : Type 0
Branch = Scan → Lexed

unfoldable pub emit : TokenKlass → Bytes → Branch
emit k text s = record { klass = k; text = text; scan = s }

-- `if (TryConsumeAsciiChar(endPos, ch))`.
unfoldable pub if_char : ℕ → Branch → Branch → Branch
unfolding consume_ascii_char_unsafe
if_char ch consumed other s = if sees ch s then consumed (consume_ascii_char_unsafe s) else other s

-- An operator and the one with `=` behind it.
unfoldable pub assigning : ℕ → TokenKlass → TokenKlass → Branch
unfolding emit if_char
assigning ch with_equal alone =
    if_char b'=' (emit with_equal (ch ∷ b'=' ∷ [])) (emit alone (ch ∷ []))

abbrev pub number_behind_dot : Branch
number_behind_dot s =
    if is_digit (peek_code_unit s.cursor)
    then lex_number_literal b'.' s
    else emit TokenKlass.dot (b'.' ∷ []) s

-- The cases of the `switch` on punctuation.
abbrev pub cases : List (ℕ × Branch)
cases =
    (b'!', assigning b'!' TokenKlass.not_equal TokenKlass.bang)
    ∷ (
      b'#',
      if_char b'#' (emit TokenKlass.hash_hash (b'#' ∷ b'#' ∷ []))
          (emit TokenKlass.hash (b'#' ∷ [])),
    )
    ∷ (b'%', assigning b'%' TokenKlass.mod_assign TokenKlass.percent)
    ∷ (
      b'&',
      if_char b'&' (emit TokenKlass.and (b'&' ∷ b'&' ∷ []))
          (assigning b'&' TokenKlass.and_assign TokenKlass.ampersand),
    )
    ∷ (b'(', emit TokenKlass.l_paren (b'(' ∷ []))
    ∷ (b')', emit TokenKlass.r_paren (b')' ∷ []))
    ∷ (b'*', assigning b'*' TokenKlass.mul_assign TokenKlass.star)
    ∷ (
      b'+',
      if_char b'+' (emit TokenKlass.increment (b'+' ∷ b'+' ∷ []))
          (assigning b'+' TokenKlass.add_assign TokenKlass.plus),
    )
    ∷ (b',', emit TokenKlass.comma (b',' ∷ []))
    ∷ (
      b'-',
      if_char b'-' (emit TokenKlass.decrement (b'-' ∷ b'-' ∷ []))
          (assigning b'-' TokenKlass.sub_assign TokenKlass.dash),
    )
    ∷ (b'.', number_behind_dot)
    ∷ (
      b'/',
      if_char b'/' lex_line_comment
          (if_char b'*' lex_block_comment (assigning b'/' TokenKlass.div_assign TokenKlass.slash)),
    )
    ∷ (b':', emit TokenKlass.colon (b':' ∷ []))
    ∷ (b';', emit TokenKlass.semicolon (b';' ∷ []))
    ∷ (
      b'<',
      if_char b'=' (emit TokenKlass.less_eq (b'<' ∷ b'=' ∷ [])) (
          if_char b'<'
            (if_char b'=' (emit TokenKlass.l_shift_assign (b'<' ∷ b'<' ∷ b'=' ∷ []))
              (emit TokenKlass.l_shift (b'<' ∷ b'<' ∷ [])))
            (emit TokenKlass.l_angle (b'<' ∷ []))),
    )
    ∷ (b'=', assigning b'=' TokenKlass.equal TokenKlass.assign)
    ∷ (
      b'>',
      if_char b'=' (emit TokenKlass.greater_eq (b'>' ∷ b'=' ∷ [])) (
          if_char b'>'
            (if_char b'=' (emit TokenKlass.r_shift_assign (b'>' ∷ b'>' ∷ b'=' ∷ []))
              (emit TokenKlass.r_shift (b'>' ∷ b'>' ∷ [])))
            (emit TokenKlass.r_angle (b'>' ∷ []))),
    )
    ∷ (b'?', emit TokenKlass.question (b'?' ∷ []))
    ∷ (b'[', emit TokenKlass.l_bracket (b'[' ∷ []))
    ∷ (b']', emit TokenKlass.r_bracket (b']' ∷ []))
    ∷ (
      b'^',
      if_char b'=' (emit TokenKlass.xor_assign (b'^' ∷ b'=' ∷ [])) (
          if_char b'^' (emit TokenKlass.xor (b'^' ∷ b'^' ∷ []))
            (emit TokenKlass.caret (b'^' ∷ []))),
    )
    ∷ (b'{', emit TokenKlass.l_brace (b'{' ∷ []))
    ∷ (
      b'|',
      if_char b'=' (emit TokenKlass.or_assign (b'|' ∷ b'=' ∷ [])) (
          if_char b'|' (emit TokenKlass.or (b'|' ∷ b'|' ∷ []))
            (emit TokenKlass.vertical_bar (b'|' ∷ []))),
    )
    ∷ (b'}', emit TokenKlass.r_brace (b'}' ∷ []))
    ∷ (b'~', emit TokenKlass.tilde (b'~' ∷ []))
    ∷ []

-- Where a header name may stand, these cases take the place of the ones above.
abbrev pub header_cases : List (ℕ × Branch)
header_cases =
    (b'"', lex_header_name b'"' b'"' TokenKlass.user_header_name)
    ∷ (b'<', lex_header_name b'<' b'>' TokenKlass.system_header_name)
    ∷ []

unfoldable pub select : List (ℕ × Branch) → ℕ → Branch → Branch
select [] ch other = other
select ((label, branch) ∷ labels) ch other = if ch == label then branch else select labels ch other

-- The cases behind those of punctuation: digits, letters, and the default.
abbrev pub lex_word : Bytes → Branch
lex_word first_char s =
    if is_digit (peek first_char)
    then lex_number_literal (peek first_char) s
    else if peek first_char == b'_' || is_alpha (peek first_char)
    then lex_identifier (peek first_char) s
    else emit TokenKlass.unknown first_char s

unfoldable pub lex_from : Bool → Bytes → Branch
unfolding emit if_char assigning select lex_identifier lex_number_literal lex_line_comment
    lex_block_comment lex_header_name consume_ascii_char_unsafe
lex_from should_lex_header_name first_char =
    select (if should_lex_header_name then header_cases else []) (peek first_char)
      (select cases (peek first_char) (lex_word first_char))

abbrev pub eof_token : ℕ → Cursor → PpToken
eof_token file c = record {
  klass = TokenKlass.eof;
  spelled_file = file;
  spelled_range = record { start = get_text_position c; end = get_text_position c };
  text = [];
  is_first_token_of_line = true;
  has_leading_whitespace = true;
}

abbrev pub lexed_token : ℕ → Whitespace → Lexed → PpToken
lexed_token file w l = record {
  klass = l.klass;
  spelled_file = file;
  spelled_range = record { start = get_text_position w.cursor; end = l.scan.end_pos };
  text = l.text;
  is_first_token_of_line = w.skipped_newline;
  has_leading_whitespace = w.skipped_whitespace;
}

-- `endPos` before it is assigned.
abbrev pub start_scan : Cursor → Scan
start_scan c = record { cursor = c; end_pos = record { line = 0; character = 0 }; failed = false }

-- The first character and the `switch` on it.
abbrev pub lex_first : Bool → Whitespace → Lexed
lex_first should_lex_header_name w =
    let first = consume_char_unsafe (start_scan w.cursor) in
    lex_from should_lex_header_name first.0 first.1

abbrev pub lex_token : Bool → ℕ → Whitespace → PpToken × Cursor
lex_token should_lex_header_name file w =
    let l = lex_first should_lex_header_name w in (lexed_token file w l, l.scan.cursor)

-- The assertion of the constructor of `TextRange`, on the positions that the token's range is made of.
abbrev pub is_ordered_range : Whitespace → Lexed → Bool
is_ordered_range w l = position_le (get_text_position w.cursor) l.scan.end_pos

-- No assertion has failed behind the first one, that the first character is no line break and not null.
abbrev pub holds_all : Whitespace → Lexed → Bool
holds_all w l = not l.scan.failed && is_ordered_range w l

-- Behind the white space. `none` is a failed assertion, as that of `ConsumeCharUnsafe` on a null
-- character that stands before the end of the source.
abbrev pub lex_behind : Bool → ℕ → Whitespace → Option (PpToken × Cursor)
lex_behind should_lex_header_name file w =
    if exhausted w.cursor
    then some (eof_token file w.cursor, w.cursor)
    else if is_line_end (peek_code_unit w.cursor)
    then none
    else if holds_all w (lex_first should_lex_header_name w)
    then some (lex_token should_lex_header_name file w)
    else none

-- `source_length` is the length of the source, so that the cursor stands at `srcBegin` if as many
-- bytes are left.
unfoldable pub lex : Bool → ℕ → ℕ → Cursor → Option (PpToken × Cursor)
unfolding try_consume_whitespace lex_from consume_char_unsafe position_le
lex should_lex_header_name file source_length c =
    lex_behind should_lex_header_name file
      (try_consume_whitespace (length c.rest == source_length) c)

abbrev pub tokenize_with :
    (Cursor → Option (List PpToken)) → Option (PpToken × Cursor) → Option (List PpToken)
tokenize_with continue none = none
tokenize_with continue (some (t, c)) =
    if is_klass t.klass TokenKlass.eof
    then some (t ∷ [])
    else elim (continue c) [ none ↦ none | some ts ↦ some (t ∷ ts) ]

-- The loop of `PreprocessSourceFile` without the preprocessor, so that no header name is lexed.
-- `none` is a failed assertion, or the end of the fuel.
unfoldable pub tokenize : ℕ → ℕ → ℕ → Cursor → Option (List PpToken)
unfolding lex is_klass
tokenize zero file source_length c = none
tokenize (suc fuel) file source_length c =
    tokenize_with (tokenize fuel file source_length) (lex false file source_length c)
