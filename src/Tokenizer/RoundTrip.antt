-- ===== src/Tokenizer/RoundTrip.antt =====
-- Words and punctuation that are written with spaces between them.
use mathlib.Core.Path.{subst}
use glsld.Prelude.{
  ℕ, zero, suc, ◌<◌, ◌≡◌, ◌⊎◌, inl, inr, refl, sym, ap, ◌∙◌, true, false, List, [], ◌∷◌, ◌++◌,
  Option, none, some, map, length, drop, arith, Each, ◌==◌,
}
use glsld.Token.{Bytes, PpToken, TokenKlass, is_klass}
use glsld.Tokenizer.Cursor.{Cursor, exhausted, is_line_end, peek_code_unit}
use glsld.Tokenizer.Parts.{try_consume_whitespace}
use glsld.Tokenizer.Behind.{lex_behind-lex_token}
use glsld.Tokenizer.Lex.{lex, lex_token, tokenize, tokenize_with}
use glsld.Tokenizer.Words.{at, is_word_start, IsWordChar, Spells, word-Spells}

-- The punctuation of GLSL and of the preprocessor.
abbrev pub punctuation : List (TokenKlass × Bytes)
punctuation =
    (TokenKlass.not_equal, b'!' ∷ b'=' ∷ [])
    ∷ (TokenKlass.bang, b'!' ∷ [])
    ∷ (TokenKlass.hash_hash, b'#' ∷ b'#' ∷ [])
    ∷ (TokenKlass.hash, b'#' ∷ [])
    ∷ (TokenKlass.mod_assign, b'%' ∷ b'=' ∷ [])
    ∷ (TokenKlass.percent, b'%' ∷ [])
    ∷ (TokenKlass.and, b'&' ∷ b'&' ∷ [])
    ∷ (TokenKlass.and_assign, b'&' ∷ b'=' ∷ [])
    ∷ (TokenKlass.ampersand, b'&' ∷ [])
    ∷ (TokenKlass.l_paren, b'(' ∷ [])
    ∷ (TokenKlass.r_paren, b')' ∷ [])
    ∷ (TokenKlass.mul_assign, b'*' ∷ b'=' ∷ [])
    ∷ (TokenKlass.star, b'*' ∷ [])
    ∷ (TokenKlass.increment, b'+' ∷ b'+' ∷ [])
    ∷ (TokenKlass.add_assign, b'+' ∷ b'=' ∷ [])
    ∷ (TokenKlass.plus, b'+' ∷ [])
    ∷ (TokenKlass.comma, b',' ∷ [])
    ∷ (TokenKlass.decrement, b'-' ∷ b'-' ∷ [])
    ∷ (TokenKlass.sub_assign, b'-' ∷ b'=' ∷ [])
    ∷ (TokenKlass.dash, b'-' ∷ [])
    ∷ (TokenKlass.dot, b'.' ∷ [])
    ∷ (TokenKlass.div_assign, b'/' ∷ b'=' ∷ [])
    ∷ (TokenKlass.slash, b'/' ∷ [])
    ∷ (TokenKlass.colon, b':' ∷ [])
    ∷ (TokenKlass.semicolon, b';' ∷ [])
    ∷ (TokenKlass.less_eq, b'<' ∷ b'=' ∷ [])
    ∷ (TokenKlass.l_shift_assign, b'<' ∷ b'<' ∷ b'=' ∷ [])
    ∷ (TokenKlass.l_shift, b'<' ∷ b'<' ∷ [])
    ∷ (TokenKlass.l_angle, b'<' ∷ [])
    ∷ (TokenKlass.equal, b'=' ∷ b'=' ∷ [])
    ∷ (TokenKlass.assign, b'=' ∷ [])
    ∷ (TokenKlass.greater_eq, b'>' ∷ b'=' ∷ [])
    ∷ (TokenKlass.r_shift_assign, b'>' ∷ b'>' ∷ b'=' ∷ [])
    ∷ (TokenKlass.r_shift, b'>' ∷ b'>' ∷ [])
    ∷ (TokenKlass.r_angle, b'>' ∷ [])
    ∷ (TokenKlass.question, b'?' ∷ [])
    ∷ (TokenKlass.l_bracket, b'[' ∷ [])
    ∷ (TokenKlass.r_bracket, b']' ∷ [])
    ∷ (TokenKlass.xor_assign, b'^' ∷ b'=' ∷ [])
    ∷ (TokenKlass.xor, b'^' ∷ b'^' ∷ [])
    ∷ (TokenKlass.caret, b'^' ∷ [])
    ∷ (TokenKlass.l_brace, b'{' ∷ [])
    ∷ (TokenKlass.or_assign, b'|' ∷ b'=' ∷ [])
    ∷ (TokenKlass.or, b'|' ∷ b'|' ∷ [])
    ∷ (TokenKlass.vertical_bar, b'|' ∷ [])
    ∷ (TokenKlass.r_brace, b'}' ∷ [])
    ∷ (TokenKlass.tilde, b'~' ∷ [])
    ∷ []

infixr 5 ◌&◌
abbrev ◌&◌ : {A B : Type 0} → A → B → A × B
a & b = (a, b)

abbrev IsNotEof : TokenKlass × Bytes → Type 0
IsNotEof spelling = is_klass spelling.0 TokenKlass.eof ≡ false

abbrev IsReadAt : ℕ → ℕ → Cursor → Bytes → TokenKlass × Bytes → Type 0
IsReadAt file n c rest spelling =
    Spells spelling.0 spelling.1 (b' ' ∷ rest)
      (lex false file n (at c (b' ' ∷ (spelling.1 ++ (b' ' ∷ rest)))))

-- The white space before the text is skipped up to a character that is no line break and not null, and
-- what is read from there on is the token.
abbrev IsReadFrom : ℕ → ℕ → Cursor → Bytes → TokenKlass × Bytes → Type 0
IsReadFrom file n c rest spelling =
    let text = b' ' ∷ (spelling.1 ++ (b' ' ∷ rest)) in
    let w = try_consume_whitespace (length text == n) (at c text) in
    (exhausted w.cursor ≡ false)
    × (is_line_end (peek_code_unit w.cursor) ≡ false)
    × Spells spelling.0 spelling.1 (b' ' ∷ rest) (some (lex_token false file w))

IsReadFrom-IsReadAt :
    (file n : ℕ) (c : Cursor) (rest : Bytes) (spelling : TokenKlass × Bytes)
    → IsReadFrom file n c rest spelling
    → IsReadAt file n c rest spelling
unfolding lex
IsReadFrom-IsReadAt file n c rest spelling h =
    let text = b' ' ∷ (spelling.1 ++ (b' ' ∷ rest)) in
    let w = try_consume_whitespace (length text == n) (at c text) in
    subst (Spells spelling.0 spelling.1 (b' ' ∷ rest))
      (sym (lex_behind-lex_token false file w h.0 h.1)) h.2

-- Between spaces the text is read as a token of that class.
abbrev IsRead : TokenKlass × Bytes → Type 0
IsRead spelling =
    IsNotEof spelling × ((file n : ℕ) (c : Cursor) (rest : Bytes) → IsReadAt file n c rest spelling)

punctuation-IsNotEof : Each IsNotEof punctuation
unfolding is_klass
punctuation-IsNotEof =
    refl & refl & refl & refl & refl & refl & refl & refl & refl & refl & refl & refl & refl & refl
    & refl & refl & refl & refl & refl & refl & refl & refl & refl & refl & refl & refl & refl
    & refl & refl & refl & refl & refl & refl & refl & refl & refl & refl & refl & refl & refl
    & refl & refl & refl & refl & refl & refl & refl & tt

punctuation-IsReadFrom :
    (file n : ℕ) (c : Cursor) (rest : Bytes) → Each (IsReadFrom file n c rest) punctuation
unfolding lex
punctuation-IsReadFrom file n c rest =
    (refl, refl, (refl, refl, refl))
    & (refl, refl, (refl, refl, refl))
    & (refl, refl, (refl, refl, refl))
    & (refl, refl, (refl, refl, refl))
    & (refl, refl, (refl, refl, refl))
    & (refl, refl, (refl, refl, refl))
    & (refl, refl, (refl, refl, refl))
    & (refl, refl, (refl, refl, refl))
    & (refl, refl, (refl, refl, refl))
    & (refl, refl, (refl, refl, refl))
    & (refl, refl, (refl, refl, refl))
    & (refl, refl, (refl, refl, refl))
    & (refl, refl, (refl, refl, refl))
    & (refl, refl, (refl, refl, refl))
    & (refl, refl, (refl, refl, refl))
    & (refl, refl, (refl, refl, refl))
    & (refl, refl, (refl, refl, refl))
    & (refl, refl, (refl, refl, refl))
    & (refl, refl, (refl, refl, refl))
    & (refl, refl, (refl, refl, refl))
    & (refl, refl, (refl, refl, refl))
    & (refl, refl, (refl, refl, refl))
    & (refl, refl, (refl, refl, refl))
    & (refl, refl, (refl, refl, refl))
    & (refl, refl, (refl, refl, refl))
    & (refl, refl, (refl, refl, refl))
    & (refl, refl, (refl, refl, refl))
    & (refl, refl, (refl, refl, refl))
    & (refl, refl, (refl, refl, refl))
    & (refl, refl, (refl, refl, refl))
    & (refl, refl, (refl, refl, refl))
    & (refl, refl, (refl, refl, refl))
    & (refl, refl, (refl, refl, refl))
    & (refl, refl, (refl, refl, refl))
    & (refl, refl, (refl, refl, refl))
    & (refl, refl, (refl, refl, refl))
    & (refl, refl, (refl, refl, refl))
    & (refl, refl, (refl, refl, refl))
    & (refl, refl, (refl, refl, refl))
    & (refl, refl, (refl, refl, refl))
    & (refl, refl, (refl, refl, refl))
    & (refl, refl, (refl, refl, refl))
    & (refl, refl, (refl, refl, refl))
    & (refl, refl, (refl, refl, refl))
    & (refl, refl, (refl, refl, refl))
    & (refl, refl, (refl, refl, refl))
    & (refl, refl, (refl, refl, refl))
    & tt

abbrev pub IsIn : TokenKlass × Bytes → List (TokenKlass × Bytes) → Type 0
IsIn spelling [] = ⊥
IsIn spelling (s ∷ ss) = (spelling ≡ s) ⊎ IsIn spelling ss

Each-IsIn :
    (P : TokenKlass × Bytes → Type 0) (spelling : TokenKlass × Bytes)
    (ss : List (TokenKlass × Bytes))
    → Each P ss
    → IsIn spelling ss
    → P spelling
Each-IsIn P spelling [] h i = absurd i
Each-IsIn P spelling (s ∷ ss) h (inl e) = subst P (sym e) h.0
Each-IsIn P spelling (s ∷ ss) h (inr i) = Each-IsIn P spelling ss h.1 i

-- A letter or an underscore with letters, digits and underscores behind it.
abbrev pub IsWord : Bytes → Type 0
IsWord [] = ⊥
IsWord (ch ∷ cs) = (is_word_start ch ≡ true) × Each IsWordChar cs

-- The class and the text of an identifier or of punctuation.
abbrev pub IsSpelling : TokenKlass × Bytes → Type 0
IsSpelling spelling =
    IsIn spelling punctuation ⊎ ((spelling.0 ≡ TokenKlass.identifier) × IsWord spelling.1)

IsSpelling-IsRead : (spelling : TokenKlass × Bytes) → IsSpelling spelling → IsRead spelling
unfolding is_klass
IsSpelling-IsRead spelling (inl i) = (
  Each-IsIn IsNotEof spelling punctuation punctuation-IsNotEof i,
  λ file n c rest. IsReadFrom-IsReadAt file n c rest spelling (
      Each-IsIn (IsReadFrom file n c rest) spelling punctuation
        (punctuation-IsReadFrom file n c rest) i),
)
IsSpelling-IsRead (k, text) (inr (e, w)) = subst (λ k. IsRead (k, text)) (sym e) (by_text text w)
  where
    by_text : (text : Bytes) → IsWord text → IsRead (TokenKlass.identifier, text)
    by_text [] w = absurd w
    by_text (ch ∷ cs) w = (refl, λ file n c rest. word-Spells file n c ch cs rest w.0 w.1)

-- Each text with a space before it, and a space at the end.
abbrev pub print : List (TokenKlass × Bytes) → Bytes
print [] = b' ' ∷ []
print (s ∷ ss) = b' ' ∷ (s.1 ++ print ss)

abbrev pub spellings : Option (List PpToken) → Option (List (TokenKlass × Bytes))
spellings none = none
spellings (some ts) = some (map (λ (t : PpToken). (t.klass, t.text)) ts)

abbrev add_spelling :
    TokenKlass × Bytes → Option (List (TokenKlass × Bytes)) → Option (List (TokenKlass × Bytes))
add_spelling s none = none
add_spelling s (some ss) = some (s ∷ ss)

spellings-cons :
    (t : PpToken) (o : Option (List PpToken))
    → spellings (elim o as (λ _. Option (List PpToken)) [ none ↦ none | some ts ↦ some (t ∷ ts) ])
      ≡ add_spelling (t.klass, t.text) (spellings o)
spellings-cons t none = refl
spellings-cons t (some ts) = refl

not_eof :
    (t : PpToken) (k : TokenKlass)
    → t.klass ≡ k
    → is_klass k TokenKlass.eof ≡ false
    → is_klass t.klass TokenKlass.eof ≡ false
not_eof t k e h = ap (λ k. is_klass k TokenKlass.eof) e ∙ h

tokenize_with-Spells :
    (continue : Cursor → Option (List PpToken)) (k : TokenKlass) (text rest : Bytes)
    (ss : List (TokenKlass × Bytes)) (o : Option (PpToken × Cursor))
    → Spells k text rest o
    → is_klass k TokenKlass.eof ≡ false
    → ((d : Cursor) → d.rest ≡ rest → spellings (continue d) ≡ some ss)
    → spellings (tokenize_with continue o) ≡ some ((k, text) ∷ ss)
tokenize_with-Spells continue k text rest ss none r h f = absurd r
tokenize_with-Spells continue k text rest ss (some (t, d)) r h f = rw (not_eof t k r.0 h) (
    spellings-cons t (continue d)
    ∙ ap (add_spelling (t.klass, t.text)) (f d r.2)
    ∙ ap (λ s. some (s ∷ ss)) (same_pair r.0 r.1))
  where
    same_pair :
        {a b : TokenKlass} {x y : Bytes}
        → a ≡ b
        → x ≡ y
        → ◌≡◌ {A = TokenKlass × Bytes} (a, x) (b, y)
    same_pair e f = cc

print_space : (ss : List (TokenKlass × Bytes)) → print ss ≡ b' ' ∷ drop 1 (print ss)
print_space [] = refl
print_space (s ∷ ss) = refl

-- Identifiers and punctuation, written with spaces between them, are read back as they were, with the
-- end of the file behind them, from any position, with more fuel than there are tokens.
pub tokenize-print :
    (ss : List (TokenKlass × Bytes)) (fuel file n : ℕ) (c : Cursor)
    → Each IsSpelling ss
    → length ss < fuel
    → spellings (tokenize fuel file n (at c (print ss))) ≡ some (ss ++ ((TokenKlass.eof, []) ∷ []))
unfolding tokenize
tokenize-print ss zero file n c h l = absurd (omega (arith, l))
tokenize-print [] (suc fuel) file n c h l = refl
tokenize-print (s ∷ ss) (suc fuel) file n c h l =
    let r = IsSpelling-IsRead s h.0 in
    let rest = drop 1 (print ss) in
    tokenize_with-Spells (tokenize fuel file n) s.0 s.1 (print ss)
      (ss ++ ((TokenKlass.eof, []) ∷ [])) (lex false file n (at c (print (s ∷ ss))))
      (subst (λ r. Spells s.0 s.1 r (lex false file n (at c (b' ' ∷ (s.1 ++ r)))))
        (sym (print_space ss)) (r.1 file n c rest))
      r.0
      (λ d e.
        ap (λ r. spellings (tokenize fuel file n (at d r))) e
        ∙ tokenize-print ss fuel file n d h.1 (omega (arith, l)))
