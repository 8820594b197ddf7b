-- ===== src/Tokenizer/Words.antt =====
-- A word that is written between spaces.
use mathlib.Core.Path.{subst}
use glsld.Prelude.{
  ℕ, zero, suc, ◌≤◌, ◌≡◌, refl, sym, ap, ◌∙◌, Bool, true, false, ◌||◌, List, [], ◌∷◌, ◌++◌, Option,
  none, some, ◌==◌, length, drop, arith, Each, length-append,
}
use glsld.Token.{Bytes, PpToken, TokenKlass}
use glsld.Tokenizer.Loop.{loop}
use glsld.Tokenizer.Cursor.{
  Cursor, Scan, Whitespace, whitespace_step, continuation_at, skip_continuations,
  try_consume_line_continuation, advance, settle, peek, peek_code_unit, consume_char_unsafe,
  consume_ascii_char_unsafe, assert_that, is_ascii, is_alpha, is_digit,
}
use glsld.Tokenizer.Parts.{
  try_consume_whitespace, Text, Lexed, is_identifier_char, push_char, identifier_step,
  lex_identifier,
}
use glsld.Tokenizer.Behind.{lex_behind-lex_token}
use glsld.Tokenizer.Lex.{
  Branch, lex, lex_behind, lex_token, lex_from, lex_word, cases, select, start_scan,
}

abbrev pub is_word_start : ℕ → Bool
is_word_start ch = ch == b'_' || is_alpha ch

abbrev pub IsWordChar : ℕ → Type 0
IsWordChar ch = is_identifier_char ch ≡ true

not_backslash : (ch : ℕ) → is_identifier_char ch ≡ true → (ch == b'\\') ≡ false
not_backslash ch h = ground arith

-- What is written behind a word does not continue the line.
no_continuation :
    (cs rest : Bytes) → Each IsWordChar cs → continuation_at (cs ++ (b' ' ∷ rest)) ≡ none
unfolding continuation_at
no_continuation [] rest h = refl
no_continuation (ch ∷ cs) rest h = rw (not_backslash ch h.0) refl

no_continuation-settle :
    (c : Cursor) → continuation_at c.rest ≡ none → try_consume_line_continuation c ≡ c
unfolding try_consume_line_continuation skip_continuations
no_continuation-settle c h = by_fuel (length c.rest)
  where
    by_fuel : (n : ℕ) → skip_continuations n c ≡ c
    by_fuel zero = refl
    by_fuel (suc n) = rw (skip_continuations, h) refl

settled_rest :
    (failed : Bool) (c : Cursor) (cs rest : Bytes)
    → c.rest ≡ cs ++ (b' ' ∷ rest)
    → Each IsWordChar cs
    → (settle failed c).cursor.rest ≡ cs ++ (b' ' ∷ rest)
settled_rest failed c cs rest e h =
    ap (λ (d : Cursor). d.rest)
      (no_continuation-settle c (ap continuation_at e ∙ no_continuation cs rest h))
    ∙ e

-- The loop of an identifier takes the word.
record TakesWord (text rest : Bytes) (t : Text) : Type 0 where
  whole : t.token_text_buffer ≡ text
  left : t.scan.cursor.rest ≡ b' ' ∷ rest

append_one : (xs ys : Bytes) (y : ℕ) → (xs ++ (y ∷ [])) ++ ys ≡ xs ++ (y ∷ ys)
append_one [] ys y = refl
append_one (x ∷ xs) ys y = ap (λ zs. x ∷ zs) (append_one xs ys y)

append_none : (xs : Bytes) → xs ++ [] ≡ xs
append_none [] = refl
append_none (x ∷ xs) = ap (λ zs. x ∷ zs) (append_none xs)

step_takes :
    (t : Text)
    → is_identifier_char (peek_code_unit t.scan.cursor) ≡ true
    → identifier_step t ≡ some (push_char t)
unfolding identifier_step
step_takes t h = rw h refl

identifier_loop :
    (cs rest : Bytes) (fuel : ℕ) (t : Text)
    → t.scan.cursor.rest ≡ cs ++ (b' ' ∷ rest)
    → Each IsWordChar cs
    → length cs ≤ fuel
    → TakesWord (t.token_text_buffer ++ cs) rest (loop identifier_step fuel t)
unfolding loop identifier_step consume_ascii_char_unsafe
identifier_loop [] rest zero t e h l = record {
  whole = sym (append_none t.token_text_buffer);
  left = e;
}
identifier_loop [] rest (suc fuel) t e h l =
    rw (loop, e) (record { whole = sym (append_none t.token_text_buffer); left = e })
identifier_loop (ch ∷ cs) rest zero t e h l = absurd (omega (arith, l))
identifier_loop (ch ∷ cs) rest (suc fuel) t e h l =
    let ih =
      identifier_loop cs rest fuel (push_char t)
        (settled_rest (push_char t).scan.failed (advance 1 1 t.scan.cursor) cs rest (ap (drop 1) e)
          h.1)
        h.1 (omega (arith, l)) in
    let step = step_takes t (ap (λ r. is_identifier_char (peek r)) e ∙ h.0) in
    rw (loop, step)
      (record {
        whole =
            ih.whole
            ∙ ap (λ x. (t.token_text_buffer ++ (x ∷ [])) ++ cs) (ap peek e)
            ∙ append_one t.token_text_buffer cs ch;
        left = ih.left;
      })

-- The cursor before a text.
abbrev pub at : Cursor → Bytes → Cursor
at c r = record c { rest = r }

start_not_blank :
    (ch : ℕ) → is_word_start ch ≡ true → (ch == b' ' || ch == b'\t' || ch == b'\r') ≡ false
start_not_blank ch h = ground arith

start_not_newline : (ch : ℕ) → is_word_start ch ≡ true → (ch == b'\n') ≡ false
start_not_newline ch h = ground arith

start_not_null : (ch : ℕ) → is_word_start ch ≡ true → (ch == 0) ≡ false
start_not_null ch h = ground arith

start_not_digit : (ch : ℕ) → is_word_start ch ≡ true → is_digit ch ≡ false
start_not_digit ch h = ground arith

start_ascii : (ch : ℕ) → is_word_start ch ≡ true → is_ascii ch ≡ true
start_ascii ch h = ground arith

start_char : (ch : ℕ) → is_word_start ch ≡ true → is_identifier_char ch ≡ true
start_char ch h = ground arith

behind_space : Bool → Cursor → Bytes → Whitespace
behind_space at_begin c r = record {
  cursor = advance 1 1 (at c (b' ' ∷ r));
  skipped_whitespace = true;
  skipped_newline = at_begin;
}

loop_stops :
    {S : Type 0} (step : S → Option S) (fuel : ℕ) (s : S) → step s ≡ none → loop step fuel s ≡ s
unfolding loop
loop_stops step zero s h = refl
loop_stops step (suc fuel) s h = rw (loop, h) refl

stops_at_word :
    (at_begin : Bool) (c : Cursor) (ch : ℕ) (r : Bytes)
    → is_word_start ch ≡ true
    → whitespace_step (behind_space at_begin c (ch ∷ r)) ≡ none
unfolding whitespace_step behind_space continuation_at
stops_at_word at_begin c ch r h =
    rw (start_not_blank ch h, start_not_newline ch h, not_backslash ch (start_char ch h)) refl

skips_space :
    (at_begin : Bool) (c : Cursor) (ch : ℕ) (r : Bytes)
    → is_word_start ch ≡ true
    → try_consume_whitespace at_begin (at c (b' ' ∷ (ch ∷ r))) ≡ behind_space at_begin c (ch ∷ r)
unfolding try_consume_whitespace loop whitespace_step behind_space
skips_space at_begin c ch r h =
    loop_stops whitespace_step (length (ch ∷ r)) (behind_space at_begin c (ch ∷ r))
      (stops_at_word at_begin c ch r h)

first_char :
    (c : Cursor) (ch : ℕ) (r : Bytes)
    → is_word_start ch ≡ true
    → consume_char_unsafe (start_scan (at c (ch ∷ r)))
      ≡ (ch ∷ [], settle false (advance 1 1 (at c (ch ∷ r))))
unfolding consume_char_unsafe
first_char c ch r h = rw (start_ascii ch h, start_not_null ch h, start_not_newline ch h) refl

-- No case of punctuation begins a word.
abbrev IsNoStart : ℕ × Branch → Type 0
IsNoStart label = is_word_start label.0 ≡ false

other_char : (a b : ℕ) → is_word_start a ≡ true → is_word_start b ≡ false → (a == b) ≡ false
other_char a b h k = ground arith

select_skips :
    (labels : List (ℕ × Branch)) (ch : ℕ) (other : Branch)
    → Each IsNoStart labels
    → is_word_start ch ≡ true
    → select labels ch other ≡ other
unfolding select
select_skips [] ch other h k = refl
select_skips ((label, branch) ∷ labels) ch other h k =
    rw (other_char ch label k h.0) (select_skips labels ch other h.1 k)

cases-IsNoStart : Each IsNoStart cases
cases-IsNoStart = (
  refl,
  (
    refl,
    (
      refl,
      (
        refl,
        (
          refl,
          (
            refl,
            (
              refl,
              (
                refl,
                (
                  refl,
                  (
                    refl,
                    (
                      refl,
                      (
                        refl,
                        (
                          refl,
                          (
                            refl,
                            (
                              refl,
                              (
                                refl,
                                (
                                  refl,
                                  (
                                    refl,
                                    (refl, (refl, (refl, (refl, (refl, (refl, (refl, tt))))))),
                                  ),
                                ),
                              ),
                            ),
                          ),
                        ),
                      ),
                    ),
                  ),
                ),
              ),
            ),
          ),
        ),
      ),
    ),
  ),
)

lex_from-word :
    (ch : ℕ) (s : Scan) → is_word_start ch ≡ true → lex_from false (ch ∷ []) s ≡ lex_identifier ch s
unfolding lex_from select
lex_from-word ch s h =
    rw (select_skips cases ch (lex_word (ch ∷ [])) cases-IsNoStart h, start_not_digit ch h, h) refl

-- The token that is read has the class and the text, and what was behind it is left.
abbrev pub Spells : TokenKlass → Bytes → Bytes → Option (PpToken × Cursor) → Type 0
Spells k text rest none = ⊥
Spells k text rest (some (t, c)) = (t.klass ≡ k) × (t.text ≡ text) × (c.rest ≡ rest)

abbrev Reads : TokenKlass → Bytes → Bytes → Lexed → Type 0
Reads k text rest l = (l.klass ≡ k) × (l.text ≡ text) × (l.scan.cursor.rest ≡ rest)

lex_identifier-Reads :
    (ch : ℕ) (cs rest : Bytes) (s : Scan)
    → s.cursor.rest ≡ cs ++ (b' ' ∷ rest)
    → Each IsWordChar cs
    → Reads TokenKlass.identifier (ch ∷ cs) (b' ' ∷ rest) (lex_identifier ch s)
unfolding lex_identifier
lex_identifier-Reads ch cs rest s e h =
    let longer : length cs ≤ length s.cursor.rest =
      omega (arith, ap length e, length-append cs (b' ' ∷ rest)) in
    let t =
      identifier_loop cs rest (length s.cursor.rest)
        (record { scan = assert_that (ch == b'_' || is_alpha ch) s; token_text_buffer = ch ∷ [] }) e
        h longer in
    (refl, t.whole, t.left)

lex_behind-word :
    (file : ℕ) (w : Whitespace) (ch : ℕ) (r : Bytes)
    → w.cursor.rest ≡ ch ∷ r
    → is_word_start ch ≡ true
    → lex_behind false file w ≡ some (lex_token false file w)
lex_behind-word file w ch r e h =
    lex_behind-lex_token false file w (rw e refl)
      (rw (e, start_not_null ch h, start_not_newline ch h) refl)

lex_token-Reads :
    (file : ℕ) (w : Whitespace) (k : TokenKlass) (text rest : Bytes) (l : Lexed)
    → lex_from false
        (consume_char_unsafe (start_scan w.cursor)).0
        (consume_char_unsafe (start_scan w.cursor)).1
      ≡ l
    → Reads k text rest l
    → Spells k text rest (some (lex_token false file w))
lex_token-Reads file w k text rest l e h = subst (Reads k text rest) (sym e) h

pub word-Spells :
    (file n : ℕ) (c : Cursor) (ch : ℕ) (cs rest : Bytes)
    → is_word_start ch ≡ true
    → Each IsWordChar cs
    → Spells TokenKlass.identifier
        (ch ∷ cs)
        (b' ' ∷ rest)
        (lex false file n (at c (b' ' ∷ (ch ∷ (cs ++ (b' ' ∷ rest))))))
unfolding lex behind_space
word-Spells file n c ch cs rest h k =
    let r = cs ++ (b' ' ∷ rest) in
    let b = length (b' ' ∷ (ch ∷ r)) == n in
    let w = behind_space b c (ch ∷ r) in
    let s = settle false (advance 1 1 w.cursor) in
    subst (Spells TokenKlass.identifier (ch ∷ cs) (b' ' ∷ rest))
      (sym
        (ap (lex_behind false file) (skips_space b c ch r h) ∙ lex_behind-word file w ch r refl h))
      (lex_token-Reads file w TokenKlass.identifier (ch ∷ cs) (b' ' ∷ rest) (lex_identifier ch s)
        (ap (λ f. lex_from false f.0 f.1) (first_char w.cursor ch r h) ∙ lex_from-word ch s h)
        (lex_identifier-Reads ch cs rest s
          (settled_rest false (advance 1 1 w.cursor) cs rest refl k) k))
