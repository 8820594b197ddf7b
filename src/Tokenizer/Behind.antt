-- ===== src/Tokenizer/Behind.antt =====
-- Every branch of `Lex` keeps the order of the begin of the token, `endPos` and the cursor, and fails no
-- assertion.
use glsld.Prelude.{
  ℕ, Bool, not, ◌&&◌, ◌||◌, List, [], ◌∷◌, none, some, ◌==◌, if◌then◌else◌, if_both, if_cases, ◌≡◌,
  refl, true, false, arith,
}
use glsld.Token.{Bytes, TokenKlass}
use glsld.Tokenizer.Loop.{loop, loop-keeps, Ensures}
use glsld.Tokenizer.Cursor.{
  Cursor, Scan, is_digit, is_alpha, peek, peek_code_unit, sees, consume_ascii_char_unsafe,
  assert_that, is_consumable_ascii, is_line_end, exhausted, Whitespace, consume_char_unsafe,
}
use glsld.Tokenizer.Progress.{
  IsBehind, consume_ascii-IsBehind, consume_char_unsafe-IsBehind, consume_char-IsBehind,
  assert_that-IsBehind, first_char-IsBehind,
}
use glsld.Tokenizer.Parts.{
  Text, Lexed, fuel_of, push_char, push_sign, identifier_step, lex_identifier, Number, number_step,
  lex_number_literal, line_comment_step, lex_line_comment, Closing, opening, block_comment_step,
  closed_as, reach_end, lex_block_comment, header_name_step, lex_header_name, is_identifier_char,
  at_line_end, begins_number,
}
use glsld.Tokenizer.Lex.{
  Branch, emit, if_char, assigning, number_behind_dot, cases, header_cases, select, lex_word,
  lex_from, lex_first, lex_behind, lex_token, holds_all, start_scan,
}

identifier_char-ascii : (ch : ℕ) → is_identifier_char ch ≡ true → is_consumable_ascii ch ≡ true
identifier_char-ascii ch h = ground arith

sign-ascii : (ch : ℕ) → (ch == b'+' || ch == b'-') ≡ true → is_consumable_ascii ch ≡ true
sign-ascii ch h = ground arith

dot-ascii : (ch : ℕ) → (ch == b'.') ≡ true → is_consumable_ascii ch ≡ true
dot-ascii ch h = ground arith

exponent-ascii :
    (hex : Bool) (ch : ℕ)
    → (not hex && (ch == b'e' || ch == b'E')) ≡ true
    → is_consumable_ascii ch ≡ true
exponent-ascii hex ch h = ground arith

digit_or_alpha-ascii :
    (ch : ℕ) → (is_digit ch || is_alpha ch) ≡ true → is_consumable_ascii ch ≡ true
digit_or_alpha-ascii ch h = ground arith

prefix-ascii :
    (zero_first : Bool) (ch : ℕ)
    → (zero_first && (ch == b'x' || ch == b'X')) ≡ true
    → is_consumable_ascii ch ≡ true
prefix-ascii zero_first ch h = ground arith

same-ascii :
    (ch label : ℕ)
    → is_consumable_ascii label ≡ true
    → (ch == label) ≡ true
    → is_consumable_ascii ch ≡ true
same-ascii ch label h k = ground arith

or_right : (a b : Bool) → (a || b) ≡ false → b ≡ false
or_right a b h = ground arith

digit-begins_number : (ch : ℕ) (s : Scan) → is_digit ch ≡ true → begins_number ch s ≡ true
digit-begins_number ch s h = rw h refl

module _ (c : Cursor) where
  push_sign-IsBehind : (t : Text) → IsBehind c t.scan → IsBehind c (push_sign t).scan
  push_sign-IsBehind t h =
      if_cases (λ u. IsBehind c u.scan) (sees b'+' t.scan || sees b'-' t.scan) _ t
        (λ e. consume_ascii-IsBehind c t.scan h (sign-ascii (peek_code_unit t.scan.cursor) e))
        (λ e. h)

  identifier_step-keeps :
      (t : Text) → IsBehind c t.scan → Ensures (λ u. IsBehind c u.scan) (identifier_step t)
  unfolding identifier_step
  identifier_step-keeps t h =
      let ch = peek_code_unit t.scan.cursor in
      if_cases (Ensures (λ u. IsBehind c u.scan)) (is_identifier_char ch) _ _
        (λ e. consume_ascii-IsBehind c t.scan h (identifier_char-ascii ch e)) (λ e. tt)

  pub lex_identifier-IsBehind :
      (ch : ℕ) (s : Scan)
      → IsBehind c s
      → (ch == b'_' || is_alpha ch) ≡ true
      → IsBehind c (lex_identifier ch s).scan
  unfolding lex_identifier
  lex_identifier-IsBehind ch s h e =
      loop-keeps (λ t. IsBehind c t.scan) identifier_step identifier_step-keeps (fuel_of s) _
        (assert_that-IsBehind c (ch == b'_' || is_alpha ch) s h e)

  abbrev NumberBehind : Number → Type 0
  NumberBehind n = IsBehind c n.text.scan

  number_step-keeps : (n : Number) → NumberBehind n → Ensures NumberBehind (number_step n)
  unfolding number_step
  number_step-keeps n h =
      let ch = peek_code_unit n.text.scan.cursor in
      let pushed = consume_ascii-IsBehind c n.text.scan h in
      if_cases (Ensures NumberBehind) (ch == b'.') _ _
        (λ e.
          if_both (Ensures NumberBehind) (n.seen_dot || n.seen_exp) none _ tt
            (pushed (dot-ascii ch e)))
        (λ d.
          if_cases (Ensures NumberBehind) (not n.seen_hex_prefix && (ch == b'e' || ch == b'E')) _ _
            (λ e. if_both (Ensures NumberBehind) n.seen_exp none _ tt (
              push_sign-IsBehind (push_char n.text)
                (pushed (exponent-ascii n.seen_hex_prefix ch e))))
            (λ f.
              if_cases (Ensures NumberBehind) (is_digit ch || is_alpha ch) _ none
                (λ e. pushed (digit_or_alpha-ascii ch e)) (λ e. tt)))

  pub lex_number_literal-IsBehind :
      (ch : ℕ) (s : Scan)
      → IsBehind c s
      → begins_number ch s ≡ true
      → IsBehind c (lex_number_literal ch s).scan
  unfolding lex_number_literal
  lex_number_literal-IsBehind ch s h b =
      let checked = assert_that (begins_number ch s) s in
      let k = assert_that-IsBehind c (begins_number ch s) s h b in
      loop-keeps NumberBehind number_step number_step-keeps (fuel_of s) _ (
        if_cases (λ (p : Text × Bool). IsBehind c p.0.scan)
          (ch == b'0' && (sees b'x' s || sees b'X' s)) _ _
          (λ e.
            consume_ascii-IsBehind c checked k
              (prefix-ascii (ch == b'0') (peek_code_unit s.cursor) e))
          (λ e. k))

  line_comment_step-keeps :
      (t : Text) → IsBehind c t.scan → Ensures (λ u. IsBehind c u.scan) (line_comment_step t)
  unfolding line_comment_step
  line_comment_step-keeps t h =
      if_cases (Ensures (λ u. IsBehind c u.scan)) (at_line_end t.scan) none _ (λ e. tt)
        (λ e. consume_char_unsafe-IsBehind c t.scan h e)

  pub lex_line_comment-IsBehind : (s : Scan) → IsBehind c s → IsBehind c (lex_line_comment s).scan
  unfolding lex_line_comment
  lex_line_comment-IsBehind s h =
      loop-keeps (λ t. IsBehind c t.scan) line_comment_step line_comment_step-keeps (fuel_of s) _ h

  abbrev ClosingBehind : Closing → Type 0
  ClosingBehind b = IsBehind c b.text.scan

  closed_as-IsBehind :
      (k : TokenKlass) (b : Closing) → ClosingBehind b → IsBehind c (closed_as k b).scan
  closed_as-IsBehind k b h = if_both (λ (l : Lexed). IsBehind c l.scan) b.closed _ _ h h

  block_comment_step-keeps :
      (b : Closing) → ClosingBehind b → Ensures ClosingBehind (block_comment_step b)
  unfolding block_comment_step
  block_comment_step-keeps b h =
      if_both (Ensures ClosingBehind) (b.closed || sees 0 b.text.scan) none _ tt
        (consume_char-IsBehind c b.text.scan h)

  reach_end-IsBehind : (b : Closing) → ClosingBehind b → ClosingBehind (reach_end b)
  reach_end-IsBehind b h =
      if_both ClosingBehind b.closed b _ h (consume_char-IsBehind c b.text.scan h)

  pub lex_block_comment-IsBehind : (s : Scan) → IsBehind c s → IsBehind c (lex_block_comment s).scan
  unfolding lex_block_comment
  lex_block_comment-IsBehind s h =
      let start = opening s (b'/' ∷ b'*' ∷ []) in
      let b = loop block_comment_step (fuel_of s) start in
      closed_as-IsBehind TokenKlass.comment (reach_end b) (
        reach_end-IsBehind b (
          loop-keeps ClosingBehind block_comment_step block_comment_step-keeps (fuel_of s) start h))

  header_name_step-keeps :
      (q : ℕ)
      → is_consumable_ascii q ≡ true
      → (b : Closing) → ClosingBehind b
      → Ensures ClosingBehind (header_name_step q b)
  unfolding header_name_step
  header_name_step-keeps q ascii b h =
      if_cases (Ensures ClosingBehind) (b.closed || at_line_end b.text.scan) none _ (λ e. tt)
        (λ e.
          if_cases (Ensures ClosingBehind) (sees q b.text.scan) _ _
            (λ f.
              consume_ascii-IsBehind c b.text.scan h
                (same-ascii (peek_code_unit b.text.scan.cursor) q ascii f))
            (λ f.
              consume_char_unsafe-IsBehind c b.text.scan h
                (or_right b.closed (at_line_end b.text.scan) e)))

  pub lex_header_name-IsBehind :
      (p q : ℕ) (k : TokenKlass)
      → is_consumable_ascii q ≡ true
      → (s : Scan) → IsBehind c s
      → IsBehind c (lex_header_name p q k s).scan
  unfolding lex_header_name
  lex_header_name-IsBehind p q k ascii s h =
      closed_as-IsBehind k (loop (header_name_step q) (fuel_of s) (opening s (p ∷ []))) (
        loop-keeps ClosingBehind (header_name_step q) (header_name_step-keeps q ascii) (fuel_of s)
          (opening s (p ∷ [])) h)

  -- A branch of the `switch` keeps the order.
  abbrev Keeps : Branch → Type 0
  Keeps b = (s : Scan) → IsBehind c s → IsBehind c (b s).scan

  if_char-Keeps :
      (ch : ℕ) (consumed other : Branch)
      → is_consumable_ascii ch ≡ true
      → Keeps consumed
      → Keeps other
      → Keeps (if_char ch consumed other)
  unfolding if_char
  if_char-Keeps ch consumed other ascii h k s b =
      if_cases (λ (l : Lexed). IsBehind c l.scan) (sees ch s) _ _
        (λ e.
          h (consume_ascii_char_unsafe s)
            (consume_ascii-IsBehind c s b (same-ascii (peek_code_unit s.cursor) ch ascii e)))
        (λ e. k s b)

  emit-Keeps : (k : TokenKlass) (text : Bytes) → Keeps (emit k text)
  unfolding emit
  emit-Keeps k text s b = b

  assigning-Keeps : (ch : ℕ) (k l : TokenKlass) → Keeps (assigning ch k l)
  unfolding assigning
  assigning-Keeps ch k l =
      if_char-Keeps b'=' (emit k (ch ∷ b'=' ∷ [])) (emit l (ch ∷ [])) refl
        (emit-Keeps k (ch ∷ b'=' ∷ [])) (emit-Keeps l (ch ∷ []))

  number_behind_dot-Keeps : Keeps number_behind_dot
  unfolding emit
  number_behind_dot-Keeps s b =
      if_cases (λ (l : Lexed). IsBehind c l.scan) (is_digit (peek_code_unit s.cursor)) _ _
        (λ e. lex_number_literal-IsBehind b'.' s b e) (λ e. b)

  abbrev AllKeep : List (ℕ × Branch) → Type 0
  AllKeep [] = Unit
  AllKeep ((label, branch) ∷ labels) = Keeps branch × AllKeep labels

  two :
      (ch : ℕ) (k : TokenKlass) (t : Bytes) (other : Branch)
      → is_consumable_ascii ch ≡ true
      → Keeps other
      → Keeps (if_char ch (emit k t) other)
  two ch k t other ascii h = if_char-Keeps ch (emit k t) other ascii (emit-Keeps k t) h

  cases-AllKeep : AllKeep cases
  cases-AllKeep = (
    assigning-Keeps _ _ _,
    (
      two _ _ _ _ refl (emit-Keeps _ _),
      (
        assigning-Keeps _ _ _,
        (
          two _ _ _ _ refl (assigning-Keeps _ _ _),
          (
            emit-Keeps _ _,
            (
              emit-Keeps _ _,
              (
                assigning-Keeps _ _ _,
                (
                  two _ _ _ _ refl (assigning-Keeps _ _ _),
                  (
                    emit-Keeps _ _,
                    (
                      two _ _ _ _ refl (assigning-Keeps _ _ _),
                      (
                        number_behind_dot-Keeps,
                        (
                          if_char-Keeps _ _ _ refl lex_line_comment-IsBehind (
                              if_char-Keeps _ _ _ refl lex_block_comment-IsBehind
                                (assigning-Keeps _ _ _)),
                          (
                            emit-Keeps _ _,
                            (
                              emit-Keeps _ _,
                              (
                                two _ _ _ _ refl (
                                    if_char-Keeps _ _ _ refl (two _ _ _ _ refl (emit-Keeps _ _))
                                      (emit-Keeps _ _)),
                                (
                                  assigning-Keeps _ _ _,
                                  (
                                    two _ _ _ _ refl (
                                        if_char-Keeps _ _ _ refl (two _ _ _ _ refl (emit-Keeps _ _))
                                          (emit-Keeps _ _)),
                                    (
                                      emit-Keeps _ _,
                                      (
                                        emit-Keeps _ _,
                                        (
                                          emit-Keeps _ _,
                                          (
                                            two _ _ _ _ refl (two _ _ _ _ refl (emit-Keeps _ _)),
                                            (
                                              emit-Keeps _ _,
                                              (
                                                two _ _ _ _ refl
                                                    (two _ _ _ _ refl (emit-Keeps _ _)),
                                                (emit-Keeps _ _, (emit-Keeps _ _, tt)),
                                              ),
                                            ),
                                          ),
                                        ),
                                      ),
                                    ),
                                  ),
                                ),
                              ),
                            ),
                          ),
                        ),
                      ),
                    ),
                  ),
                ),
              ),
            ),
          ),
        ),
      ),
    ),
  )

  header_cases-AllKeep : AllKeep header_cases
  header_cases-AllKeep = (
    lex_header_name-IsBehind b'"' b'"' TokenKlass.user_header_name refl,
    (lex_header_name-IsBehind b'<' b'>' TokenKlass.system_header_name refl, tt),
  )

  select-Keeps :
      (labels : List (ℕ × Branch)) (ch : ℕ) (other : Branch)
      → AllKeep labels
      → Keeps other
      → Keeps (select labels ch other)
  unfolding select
  select-Keeps [] ch other h k = k
  select-Keeps ((label, branch) ∷ labels) ch other h k =
      if_both Keeps (ch == label) branch (select labels ch other) h.0
        (select-Keeps labels ch other h.1 k)

  lex_word-Keeps : (first : Bytes) → Keeps (lex_word first)
  unfolding emit
  lex_word-Keeps first s b =
      let ch = peek first in
      if_cases (λ (l : Lexed). IsBehind c l.scan) (is_digit ch) _ _
        (λ e. lex_number_literal-IsBehind ch s b (digit-begins_number ch s e))
        (λ d.
          if_cases (λ (l : Lexed). IsBehind c l.scan) (ch == b'_' || is_alpha ch) _ _
            (λ e. lex_identifier-IsBehind ch s b e) (λ e. b))

  pub lex_from-IsBehind :
      (header : Bool) (first : Bytes) (s : Scan)
      → IsBehind c s
      → IsBehind c (lex_from header first s).scan
  unfolding lex_from
  lex_from-IsBehind header first =
      select-Keeps (if header then header_cases else []) (peek first) _
        (if_both AllKeep header header_cases [] header_cases-AllKeep tt)
        (select-Keeps cases (peek first) (lex_word first) cases-AllKeep (lex_word-Keeps first))

-- From the first character, which is no line break and not null.
pub lex_first-IsBehind :
    (header : Bool) (w : Whitespace)
    → is_line_end (peek_code_unit w.cursor) ≡ false
    → IsBehind w.cursor (lex_first header w).scan
lex_first-IsBehind header w e =
    let first = consume_char_unsafe (start_scan w.cursor) in
    lex_from-IsBehind w.cursor header first.0 first.1
      (first_char-IsBehind w.cursor (record { line = 0; character = 0 }) e)

-- No assertion fails behind a first character that is no line break and not null.
pub lex_behind-lex_token :
    (header : Bool) (file : ℕ) (w : Whitespace)
    → exhausted w.cursor ≡ false
    → is_line_end (peek_code_unit w.cursor) ≡ false
    → lex_behind header file w ≡ some (lex_token header file w)
lex_behind-lex_token header file w e n =
    let b = lex_first-IsBehind header w n in
    let h : holds_all w (lex_first header w) ≡ true = rw (b.sound, b.end_behind) refl in
    rw (e, n, h) refl
