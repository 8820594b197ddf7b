-- ===== src/Literal.antt =====
-- glsld-core/src/Language/ConstValue.cpp, lines 976 to 1040: `ParseNumberLiteral`, as far as the
-- preprocessor sees its result. A floating-point literal is told apart, not evaluated.
pub mod Tests
use glsld.Prelude.{
  ℕ, zero, suc, ◌+◌, ◌-◌, ◌*◌, ◌^◌, Bool, true, false, not, ◌&&◌, ◌||◌, List, [], ◌∷◌, Option, none,
  some, ltb, leb, ◌==◌, if◌then◌else◌, length, take, drop,
}
use glsld.Token.{Bytes, text_eq}

pub data LiteralValue : Type 0 where
  int32 : ℕ → LiteralValue
  uint32 : ℕ → LiteralValue
  floating : LiteralValue
  error : LiteralValue

-- The value of a character as a digit of the base, as `std::from_chars` reads it: letters of
-- either case count from ten.
unfoldable pub digit_value : ℕ → Option ℕ
digit_value c =
    if leb b'0' c && leb c b'9'
    then some (c - b'0')
    else if leb b'a' c && leb c b'z'
    then some (c - b'a' + 10)
    else if leb b'A' c && leb c b'Z'
    then some (c - b'A' + 10)
    else none

abbrev pub below_base : ℕ → Option ℕ → Option ℕ
below_base base none = none
below_base base (some d) = if ltb d base then some d else none

-- Reads digits up to the end of the text; `none` if a character is no digit of the base, since
-- the caller wants the whole text read.
unfoldable pub read_digits : ℕ → Bytes → ℕ → Option ℕ
unfolding digit_value
read_digits base [] acc = some acc
read_digits base (c ∷ cs) acc = elim (below_base base (digit_value c)) [
  | none ↦ none
  | some d ↦ read_digits base cs (acc * base + d)
]

-- `std::from_chars` on a text with no sign, with the two checks that `ParseIntegralLiteral` makes:
-- some digit is read, all is read, and the value is below the limit of the type.
unfoldable pub from_chars : ℕ → ℕ → Bytes → Option ℕ
unfolding read_digits
from_chars limit base [] = none
from_chars limit base (c ∷ cs) = elim (read_digits base (c ∷ cs) 0) [
  | none ↦ none
  | some v ↦ if ltb v limit then some v else none
]

unfoldable pub starts_with : Bytes → Bytes → Bool
starts_with [] cs = true
starts_with (p ∷ ps) [] = false
starts_with (p ∷ ps) (c ∷ cs) = p == c && starts_with ps cs

unfoldable pub contains_char : ℕ → Bytes → Bool
contains_char c [] = false
contains_char c (x ∷ xs) = c == x || contains_char c xs

unfoldable pub drop_back : ℕ → Bytes → Bytes
drop_back n cs = take (length cs - n) cs

unfoldable pub ends_with : Bytes → Bytes → Bool
unfolding text_eq
ends_with p cs = leb (length p) (length cs) && text_eq (drop (length cs - length p) cs) p

unfoldable pub has_hex_prefix : Bytes → Bool
unfolding starts_with
has_hex_prefix cs = starts_with (b'0' ∷ b'x' ∷ []) cs || starts_with (b'0' ∷ b'X' ∷ []) cs

-- The text of a number begins with a digit or a point, as that of every number token of the tokenizer does;
-- `std::from_chars` reads a minus sign before an `int32_t` too, which no such text has.
unfoldable pub parse_integral_literal : ℕ → Bytes → Option ℕ
unfolding has_hex_prefix starts_with from_chars
parse_integral_literal limit cs =
    if has_hex_prefix cs
    then from_chars limit 16 (drop 2 cs)
    else if starts_with (b'0' ∷ []) cs && ltb 1 (length cs)
    then from_chars limit 8 (drop 1 cs)
    else from_chars limit 10 cs

abbrev pub or_error : (ℕ → LiteralValue) → Option ℕ → LiteralValue
or_error f none = error
or_error f (some v) = f v

unfoldable pub parse_number_literal : Bytes → LiteralValue
unfolding has_hex_prefix contains_char ends_with drop_back parse_integral_literal
parse_number_literal cs =
    let has_decimal_point = contains_char b'.' cs in
    let has_exponent =
      not (has_hex_prefix cs) && (contains_char b'e' cs || contains_char b'E' cs) in
    if ends_with (b'u' ∷ []) cs || ends_with (b'U' ∷ []) cs
    then or_error uint32 (parse_integral_literal (2 ^ 32) (drop_back 1 cs))
    else if has_decimal_point || has_exponent
    then floating
    else or_error int32 (parse_integral_literal (2 ^ 31) cs)
