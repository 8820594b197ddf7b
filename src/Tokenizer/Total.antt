-- ===== src/Tokenizer/Total.antt =====
-- The progress of `Lex`, and of the loop over the tokens of a file.
use mathlib.Core.Path.{subst}
use glsld.Prelude.{
  ℕ, zero, suc, ◌<◌, ◌≡◌, ◌⊎◌, refl, Bool, true, false, ◌||◌, List, [], ◌∷◌, Option, none, some,
  ◌==◌, if◌then◌else◌, length, arith, Bool-cases, Option-cases, inl, inr, if_both, sym,
}
use glsld.Source.{position_le}
use glsld.Source.Overlap.{le_refl}
use glsld.Token.{Bytes, PpToken, TokenKlass, is_klass}
use glsld.Tokenizer.Loop.{loop-keeps, loop-ends, Ensures}
use glsld.Tokenizer.Cursor.{
  Cursor, Whitespace, whitespace_step, continuation_at, skip_continuations,
  try_consume_line_continuation, advance, next_line, peek, peek_code_unit, get_text_position,
  exhausted, is_line_end,
}
use glsld.Tokenizer.Progress.{
  Moves, Moves-refl, Moves-trans, advance-Moves, next_line-Moves, skip_continuations-Moves,
  continuation_at-IsTail, behind_continuation, consumed-lt, HasNoNull,
}
use glsld.Tokenizer.Behind.{lex_first-IsBehind, lex_behind-lex_token}
use glsld.Tokenizer.Parts.{try_consume_whitespace}
use glsld.Tokenizer.Lex.{lex, lex_behind, lex_token, eof_token, tokenize, tokenize_with}

-- The white space that is skipped.
whitespace_step-Moves :
    (c : Cursor) (w : Whitespace)
    → Moves c w.cursor
    → Ensures (λ v. Moves c v.cursor) (whitespace_step w)
unfolding whitespace_step try_consume_line_continuation
whitespace_step-Moves c w h =
    let ch = peek_code_unit w.cursor in
    if_both (Ensures (λ (v : Whitespace). Moves c v.cursor))
      (ch == b' ' || ch == b'\t' || ch == b'\r') _ _
      (Moves-trans c w.cursor (advance 1 1 w.cursor) h (advance-Moves 1 1 w.cursor))
      (if_both (Ensures (λ (v : Whitespace). Moves c v.cursor)) (ch == b'\n') _ _
        (Moves-trans c w.cursor (next_line w.cursor) h (next_line-Moves w.cursor))
        (by_continuation (continuation_at w.cursor.rest)))
  where
    skipped : Whitespace
    skipped = record w { cursor = try_consume_line_continuation w.cursor }

    by_continuation :
        (o : Option Bytes)
        → Ensures
            (λ (v : Whitespace). Moves c v.cursor)
            (elim o [ none ↦ none | some r ↦ some skipped ])
    by_continuation none = tt
    by_continuation (some r) =
        Moves-trans c w.cursor (skip_continuations (length w.cursor.rest) w.cursor) h
          (skip_continuations-Moves (length w.cursor.rest) w.cursor)

continuation-lt :
    (c : Cursor) (r : Bytes)
    → continuation_at c.rest ≡ some r
    → length (try_consume_line_continuation c).rest < length c.rest
unfolding try_consume_line_continuation skip_continuations
continuation-lt c r e = by_fuel (length c.rest) refl
  where
    by_fuel : (n : ℕ) → n ≡ length c.rest → length (skip_continuations n c).rest < length c.rest
    by_fuel zero z = let t = continuation_at-IsTail c.rest r e in absurd (omega (arith, t.0))
    by_fuel (suc n) z =
        let t = continuation_at-IsTail c.rest r e in
        let m = skip_continuations-Moves n (behind_continuation c r) in
        rw (skip_continuations, e) (omega (arith, t.0, m.shorter))

blank_not_null : (ch : ℕ) → (ch == b' ' || ch == b'\t' || ch == b'\r') ≡ true → (ch == 0) ≡ false
blank_not_null ch h = ground arith

newline_not_null : (ch : ℕ) → (ch == b'\n') ≡ true → (ch == 0) ≡ false
newline_not_null ch h = ground arith

whitespace_step-lt :
    (w : Whitespace)
    → Ensures (λ v. length v.cursor.rest < length w.cursor.rest) (whitespace_step w)
unfolding whitespace_step
whitespace_step-lt w =
    let ch = peek_code_unit w.cursor in
    elim (Bool-cases (ch == b' ' || ch == b'\t' || ch == b'\r')) [
      | inl b ↦ rw b (consumed-lt w.cursor.rest 1 (blank_not_null ch b) (omega arith))
      | inr b ↦ elim (Bool-cases (ch == b'\n')) [
        | inl n ↦ rw (b, n) (consumed-lt w.cursor.rest 1 (newline_not_null ch n) (omega arith))
        | inr n ↦ elim (Option-cases (continuation_at w.cursor.rest)) [
          | inl e ↦ rw (b, n, e) tt
          | inr (r, e) ↦ rw (b, n, e) (continuation-lt w.cursor r e)
        ]
      ]
    ]

no_step :
    (b n : Bool) (x y : Whitespace) (z : Option Whitespace)
    → (if b then some x else if n then some y else z) ≡ none
    → n ≡ false
no_step true n x y z h = cc
no_step false true x y z h = cc
no_step false false x y z h = refl

newline_steps :
    (w : Whitespace) → whitespace_step w ≡ none → (peek_code_unit w.cursor == b'\n') ≡ false
unfolding whitespace_step
newline_steps w h =
    let ch = peek_code_unit w.cursor in
    no_step (ch == b' ' || ch == b'\t' || ch == b'\r') (ch == b'\n') _ _ _ h

try_consume_whitespace-Moves :
    (at_begin : Bool) (c : Cursor) → Moves c (try_consume_whitespace at_begin c).cursor
unfolding try_consume_whitespace
try_consume_whitespace-Moves at_begin c =
    loop-keeps (λ w. Moves c w.cursor) whitespace_step (whitespace_step-Moves c) (length c.rest)
      (record { cursor = c; skipped_whitespace = false; skipped_newline = at_begin }) (Moves-refl c)

-- White space ends before a character that is no white space.
try_consume_whitespace-ends :
    (at_begin : Bool) (c : Cursor) → whitespace_step (try_consume_whitespace at_begin c) ≡ none
unfolding try_consume_whitespace
try_consume_whitespace-ends at_begin c =
    loop-ends (λ w. length w.cursor.rest) whitespace_step whitespace_step-lt (length c.rest)
      (record { cursor = c; skipped_whitespace = false; skipped_newline = at_begin }) (omega arith)

-- What `Lex` says of the token and the cursor behind it: the token ends the file, or a byte was
-- consumed; the range of the token lies between the cursors, its begin before its end; and no null
-- character is left where there was none.
pub record IsProgress (c : Cursor) (r : PpToken × Cursor) : Type 0 where
  pub consumed : (is_klass r.0.klass TokenKlass.eof ≡ true) ⊎ (length r.1.rest < length c.rest)
  pub start_behind : position_le (get_text_position c) r.0.spelled_range.start ≡ true
  pub end_behind : position_le r.0.spelled_range.start r.0.spelled_range.end ≡ true
  pub cursor_behind : position_le r.0.spelled_range.end (get_text_position r.1) ≡ true
  pub clean : HasNoNull c.rest → HasNoNull r.1.rest

eof_token-IsProgress : (file : ℕ) (c d : Cursor) → Moves c d → IsProgress c (eof_token file d, d)
unfolding is_klass
eof_token-IsProgress file c d m = record {
  consumed = inl refl;
  start_behind = m.behind;
  end_behind = le_refl (get_text_position d);
  cursor_behind = le_refl (get_text_position d);
  clean = m.clean;
}

lex_token-IsProgress :
    (header : Bool) (file : ℕ) (c : Cursor) (w : Whitespace)
    → Moves c w.cursor
    → is_line_end (peek_code_unit w.cursor) ≡ false
    → IsProgress c (lex_token header file w)
lex_token-IsProgress header file c w m h =
    let b = lex_first-IsBehind header w h in
    record {
      consumed = inr (omega (arith, b.shorter, m.shorter));
      start_behind = m.behind;
      end_behind = b.end_behind;
      cursor_behind = b.cursor_behind;
      clean = λ x. b.clean (m.clean x);
    }

lex_behind-IsProgress :
    (header : Bool) (file : ℕ) (c : Cursor) (w : Whitespace)
    → Moves c w.cursor
    → Ensures (IsProgress c) (lex_behind header file w)
lex_behind-IsProgress header file c w m = elim (Bool-cases (exhausted w.cursor)) [
  | inl e ↦ rw e (eof_token-IsProgress file c w.cursor m)
  | inr e ↦ elim (Bool-cases (is_line_end (peek_code_unit w.cursor))) [
    | inl n ↦ rw (e, n) tt
    | inr n ↦
        subst (Ensures (IsProgress c)) (sym (lex_behind-lex_token header file w e n))
          (lex_token-IsProgress header file c w m n)
  ]
]

-- Every token that `Lex` returns ends the file or takes at least one byte, and its range lies between
-- the cursor before and the cursor behind, with its begin not behind its end; no null character is left
-- where there was none.
pub lex-IsProgress :
    (header : Bool) (file source_length : ℕ) (c : Cursor)
    → Ensures (IsProgress c) (lex header file source_length c)
unfolding lex
lex-IsProgress header file source_length c =
    lex_behind-IsProgress header file c (try_consume_whitespace (length c.rest == source_length) c)
      (try_consume_whitespace-Moves (length c.rest == source_length) c)

-- A result is there.
abbrev pub IsDefined : {A : Type 0} → Option A → Type 0
IsDefined none = ⊥
IsDefined (some a) = Unit

peek_no_null : (c : Cursor) → HasNoNull c.rest → exhausted c ≡ false → (peek c.rest == 0) ≡ false
peek_no_null c h e = by_rest c.rest h e
  where
    by_rest :
        (rest : Bytes)
        → HasNoNull rest
        → (elim rest as (λ _. Bool) [ [] ↦ true | _ ↦ false ]) ≡ false
        → (peek rest == 0) ≡ false
    by_rest [] h e = cc
    by_rest (ch ∷ rest) h e = h.0

lex_behind-IsDefined :
    (header : Bool) (file : ℕ) (w : Whitespace)
    → HasNoNull w.cursor.rest
    → (peek_code_unit w.cursor == b'\n') ≡ false
    → IsDefined (lex_behind header file w)
lex_behind-IsDefined header file w h n = elim (Bool-cases (exhausted w.cursor)) [
  | inl e ↦ rw e tt
  | inr e ↦
      let line_end : is_line_end (peek_code_unit w.cursor) ≡ false =
        rw (peek_no_null w.cursor h e, n) refl in
      subst IsDefined (sym (lex_behind-lex_token header file w e line_end)) tt
]

lex-IsDefined :
    (header : Bool) (file source_length : ℕ) (c : Cursor)
    → HasNoNull c.rest
    → IsDefined (lex header file source_length c)
unfolding lex
lex-IsDefined header file source_length c h =
    let b = length c.rest == source_length in
    lex_behind-IsDefined header file (try_consume_whitespace b c)
      ((try_consume_whitespace-Moves b c).clean h)
      (newline_steps (try_consume_whitespace b c) (try_consume_whitespace-ends b c))

-- A list of tokens of which the last one, and no other, ends the file.
abbrev pub EndsFile : List PpToken → Type 0
EndsFile [] = ⊥
EndsFile (t ∷ []) = is_klass t.klass TokenKlass.eof ≡ true
EndsFile (t ∷ (u ∷ ts)) = (is_klass t.klass TokenKlass.eof ≡ false) × EndsFile (u ∷ ts)

abbrev pub Runs : (List PpToken → Type 0) → Option (List PpToken) → Type 0
Runs P none = ⊥
Runs P (some ts) = P ts

cons-EndsFile :
    (t : PpToken) (ts : List PpToken)
    → is_klass t.klass TokenKlass.eof ≡ false
    → EndsFile ts
    → EndsFile (t ∷ ts)
cons-EndsFile t [] e h = absurd h
cons-EndsFile t (u ∷ ts) e h = (e, h)

tokenize_with-EndsFile :
    (c : Cursor) (continue : Cursor → Option (List PpToken)) (o : Option (PpToken × Cursor))
    → IsDefined o
    → Ensures (IsProgress c) o
    → HasNoNull c.rest
    → ((d : Cursor) → length d.rest < length c.rest → HasNoNull d.rest → Runs EndsFile (continue d))
    → Runs EndsFile (tokenize_with continue o)
tokenize_with-EndsFile c continue none d p h k = absurd d
tokenize_with-EndsFile c continue (some (t, e)) d p h k =
    elim (Bool-cases (is_klass t.klass TokenKlass.eof)) [
      | inl f ↦ rw f f
      | inr f ↦ rw f (prepend (continue e) f (k e (taken p.consumed f) (p.clean h)))
    ]
  where
    taken :
        (is_klass t.klass TokenKlass.eof ≡ true) ⊎ (length e.rest < length c.rest)
        → is_klass t.klass TokenKlass.eof ≡ false
        → length e.rest < length c.rest
    taken (inl a) b = cc
    taken (inr a) b = a

    prepend :
        (o : Option (List PpToken))
        → is_klass t.klass TokenKlass.eof ≡ false
        → Runs EndsFile o
        → Runs EndsFile (elim o [ none ↦ none | some ts ↦ some (t ∷ ts) ])
    prepend none f r = r
    prepend (some ts) f r = cons-EndsFile t ts f r

-- Tokenization of a source without null characters ends: with more fuel than bytes no assertion of the
-- tokenizer or of a token's range fails, and the tokens end with the one for the end of the file, which
-- stands nowhere else.
pub tokenize-EndsFile :
    (fuel file source_length : ℕ) (c : Cursor)
    → HasNoNull c.rest
    → length c.rest < fuel
    → Runs EndsFile (tokenize fuel file source_length c)
unfolding tokenize
tokenize-EndsFile zero file source_length c h f = absurd (omega arith)
tokenize-EndsFile (suc fuel) file source_length c h f =
    tokenize_with-EndsFile c (tokenize fuel file source_length) (lex false file source_length c)
      (lex-IsDefined false file source_length c h) (lex-IsProgress false file source_length c) h
      (λ d l k. tokenize-EndsFile fuel file source_length d k (omega arith))
