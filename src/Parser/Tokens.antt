-- ===== src/Parser/Tokens.antt =====
-- Parser.h: the state of the parser, and the functions on the current token. The tokens are those from
-- the current one on, of which the last one ends the file; behind the end it is read again.
use glsld.Prelude.{ℕ, ◌+◌, ◌-◌, Bool, true, false, List, [], ◌∷◌, leb, if◌then◌else◌}
use glsld.Token.{TokenKlass, Bytes, is_klass}

pub record RawSyntaxToken : Type 0 where
  pub klass : TokenKlass
  pub text : Bytes

-- `id` is the index of the token.
pub record AstSyntaxToken : Type 0 where
  pub id : ℕ
  pub klass : TokenKlass
  pub text : Bytes

pub record SyntaxRange : Type 0 where
  pub begin_id : ℕ
  pub end_id : ℕ

-- `errors` counts the diagnostics that are reported.
pub record Parser : Type 0 where
  pub tokens : List RawSyntaxToken
  pub token_index : ℕ
  pub recovering : Bool
  pub paren_depth : ℕ
  pub bracket_depth : ℕ
  pub brace_depth : ℕ
  pub ilist_brace_depth : ℕ
  pub errors : ℕ

abbrev pub end_token : RawSyntaxToken
end_token = record { klass = TokenKlass.eof; text = [] }

abbrev pub head_token : List RawSyntaxToken → RawSyntaxToken
head_token [] = end_token
head_token (t ∷ ts) = t

abbrev pub peek_token : Parser → RawSyntaxToken
peek_token s = head_token s.tokens

abbrev pub second_token : List RawSyntaxToken → RawSyntaxToken
second_token [] = end_token
second_token (t ∷ []) = t
second_token (t ∷ (u ∷ ts)) = u

abbrev pub peek_klass : Parser → TokenKlass
peek_klass s = (peek_token s).klass

-- `TryTestToken(klass)` and `TryTestToken(klass, 1)`.
unfoldable pub try_test : TokenKlass → Parser → Bool
unfolding is_klass
try_test k s = is_klass (peek_klass s) k

unfoldable pub try_test_second : TokenKlass → Parser → Bool
unfolding is_klass
try_test_second k s = is_klass (second_token s.tokens).klass k

abbrev pub eof : Parser → Bool
eof s = try_test TokenKlass.eof s

abbrev pub depth_behind : TokenKlass → TokenKlass → TokenKlass → ℕ → ℕ
depth_behind left right k depth =
    if is_klass k left then depth + 1 else if is_klass k right then depth - 1 else depth

abbrev pub next_tokens : List RawSyntaxToken → List RawSyntaxToken
next_tokens [] = []
next_tokens (t ∷ ts) = ts

-- Subtraction on ℕ stops at 0, as the guards `> 0` do.
abbrev pub consumed_token : Parser → Parser
consumed_token s = record s {
  tokens = next_tokens s.tokens;
  token_index = s.token_index + 1;
  paren_depth = depth_behind TokenKlass.l_paren TokenKlass.r_paren (peek_klass s) s.paren_depth;
  bracket_depth =
      depth_behind TokenKlass.l_bracket TokenKlass.r_bracket (peek_klass s) s.bracket_depth;
  brace_depth = depth_behind TokenKlass.l_brace TokenKlass.r_brace (peek_klass s) s.brace_depth;
}

unfoldable pub consume_token : Parser → Parser
unfolding try_test is_klass
consume_token s = if eof s then s else consumed_token s

abbrev pub enter_recovery_mode : Parser → Parser
enter_recovery_mode s = record s { recovering = true }

-- Where it is called the state is `Recovery`, as its assertion says.
abbrev pub exit_recovery_mode : Parser → Parser
exit_recovery_mode s = record s { recovering = false }

abbrev pub report_error : Parser → Parser
report_error s = record s { errors = s.errors + 1 }

abbrev pub get_current_token : Parser → AstSyntaxToken
get_current_token s = record {
  id = s.token_index;
  klass = peek_klass s;
  text = (peek_token s).text;
}

-- The range of a node that is built at the current token. The assertion of the constructor of
-- `AstSyntaxRange`, that its begin is not behind its end, is not modelled.
abbrev pub create_syntax_range : ℕ → Parser → SyntaxRange
create_syntax_range begin s = record { begin_id = begin; end_id = s.token_index }

-- The keywords by their place in GlslKeywords.inc, behind which those of GlslType.inc stand.
abbrev pub k_layout : TokenKlass
k_layout = TokenKlass.keyword 13

abbrev pub k_struct : TokenKlass
k_struct = TokenKlass.keyword 28

abbrev pub k_true : TokenKlass
k_true = TokenKlass.keyword 41

abbrev pub k_false : TokenKlass
k_false = TokenKlass.keyword 42

abbrev pub k_void : TokenKlass
k_void = TokenKlass.keyword 58

-- `GetGlslBuiltinType(klass).has_value()`.
abbrev pub is_builtin_type : TokenKlass → Bool
is_builtin_type (TokenKlass.keyword n) = leb 58 n
is_builtin_type k = false
