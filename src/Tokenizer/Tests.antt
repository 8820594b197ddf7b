-- ===== src/Tokenizer/Tests.antt =====
-- A source with a comment, a line continuation and a number.
use glsld.Prelude.{
  ◌++◌, Each, inl, inr, ◌≡◌, refl, false, List, [], ◌∷◌, Option, none, some, map, arith,
}
use glsld.Source.{TextPosition}
use glsld.Token.{TokenKlass, PpToken, Bytes}
use glsld.Tokenizer.Loop.{Ensures}
use glsld.Tokenizer.Cursor.{Cursor}
use glsld.Tokenizer.Progress.{HasNoNull}
use glsld.Tokenizer.Lex.{lex, tokenize}
use glsld.Tokenizer.RoundTrip.{IsSpelling, print, spellings, tokenize-print}
use glsld.Tokenizer.Total.{IsProgress, EndsFile, Runs, lex-IsProgress, tokenize-EndsFile}

-- `a\<newline>b<=1.0e+2f/**/`
abbrev text : Bytes
text =
    b'a' ∷ b'\\' ∷ b'\n' ∷ b'b' ∷ b'<' ∷ b'=' ∷ b'1' ∷ b'.' ∷ b'0' ∷ b'e' ∷ b'+' ∷ b'2' ∷ b'f'
    ∷ b'/' ∷ b'*' ∷ b'*' ∷ b'/' ∷ []

abbrev cursor : Cursor
cursor = record {
  rest = text;
  line_counter = 0;
  character_counter = 0;
  count_utf16_characters = false;
}

abbrev texts : Option (List PpToken) → Option (List Bytes)
texts none = none
texts (some ts) = some (map (λ (t : PpToken). t.text) ts)

tokenize_text :
    texts (tokenize 20 1 17 cursor)
    ≡ some (
        (b'a' ∷ b'b' ∷ [])
        ∷ (b'<' ∷ b'=' ∷ [])
        ∷ (b'1' ∷ b'.' ∷ b'0' ∷ b'e' ∷ b'+' ∷ b'2' ∷ b'f' ∷ [])
        ∷ (b'/' ∷ b'*' ∷ b'*' ∷ b'/' ∷ [])
        ∷ []
        ∷ [])
unfolding tokenize
tokenize_text = refl

text-HasNoNull : HasNoNull text
text-HasNoNull = (
  refl,
  (
    refl,
    (
      refl,
      (
        refl,
        (
          refl,
          (
            refl,
            (
              refl,
              (refl, (refl, (refl, (refl, (refl, (refl, (refl, (refl, (refl, (refl, tt)))))))))),
            ),
          ),
        ),
      ),
    ),
  ),
)

lex-IsProgress_example : Ensures (IsProgress cursor) (lex false 1 17 cursor)
lex-IsProgress_example = lex-IsProgress false 1 17 cursor

tokenize-EndsFile_example : Runs EndsFile (tokenize 20 1 17 cursor)
tokenize-EndsFile_example = tokenize-EndsFile 20 1 17 cursor text-HasNoNull (omega arith)

-- Behind a block comment and a line continuation, `endPos` is the begin of the next line.
abbrev continued : Bytes
continued = b'/' ∷ b'*' ∷ b'*' ∷ b'/' ∷ b'\\' ∷ b'\n' ∷ b'a' ∷ []

abbrev end_of : Option (PpToken × Cursor) → Option TextPosition
end_of none = none
end_of (some (t, c)) = some t.spelled_range.end

continued_end :
    end_of (lex false 1 7 (record cursor { rest = continued }))
    ≡ some (record { line = 1; character = 0 })
unfolding lex
continued_end = refl

-- `x1 ! !=`
abbrev spelled : List (TokenKlass × Bytes)
spelled =
    (TokenKlass.identifier, b'x' ∷ b'1' ∷ [])
    ∷ (TokenKlass.bang, b'!' ∷ [])
    ∷ (TokenKlass.not_equal, b'!' ∷ b'=' ∷ [])
    ∷ []

spelled-IsSpelling : Each IsSpelling spelled
spelled-IsSpelling = (inr (refl, (refl, (refl, tt))), (inl (inr (inl refl)), (inl (inl refl), tt)))

tokenize-print_example :
    spellings (tokenize 4 1 11 (record cursor { rest = print spelled }))
    ≡ some (spelled ++ ((TokenKlass.eof, []) ∷ []))
tokenize-print_example = tokenize-print spelled 4 1 11 cursor spelled-IsSpelling (omega arith)
