-- ===== src/Token/Scanner.antt =====
-- glsld-core/include/Compiler/PPTokenScanner.h: a cursor over a token array. The scanner is the
-- list of the tokens from the cursor to the end.
use glsld.Prelude.{ℕ, Bool, true, false, List, [], ◌∷◌, Option, none, some, get_elem?, ◌||◌}
use glsld.Token.{PpToken, TokenKlass, is_klass}

unfoldable pub cursor_at_end : List PpToken → Bool
cursor_at_end [] = true
cursor_at_end (t ∷ ts) = false

unfoldable pub test_head : Option PpToken → TokenKlass → Bool
unfolding is_klass
test_head none k = false
test_head (some t) k = is_klass t.klass k

-- `TryTestToken(klass)` and `TryTestToken(klass, lookahead)`.
unfoldable pub try_test_token : List PpToken → TokenKlass → ℕ → Bool
unfolding test_head
try_test_token ts k lookahead = test_head (get_elem? ts lookahead) k

-- The token that is consumed, and the scanner behind it.
unfoldable pub try_consume_token : List PpToken → TokenKlass → Option (PpToken × List PpToken)
unfolding is_klass
try_consume_token [] k = none
try_consume_token (t ∷ ts) k = elim (is_klass t.klass k) [ true ↦ some (t, ts) | false ↦ none ]

unfoldable pub try_consume_token2 :
    List PpToken → TokenKlass → TokenKlass → Option (PpToken × List PpToken)
unfolding is_klass
try_consume_token2 [] k l = none
try_consume_token2 (t ∷ ts) k l = elim (is_klass t.klass k || is_klass t.klass l) [
  | true ↦ some (t, ts)
  | false ↦ none
]
