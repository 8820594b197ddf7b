-- ===== src/Preprocess/Tests.antt =====
-- Runs of the preprocessor's machine, with services that expand no macro and include no file.
use glsld.Prelude.{◌≡◌, refl, Bool, true, false, map, List, [], ◌∷◌, ◌++◌, none, inl}
use glsld.Source.{TextPosition}
use glsld.Token.{PpToken, TokenKlass, Bytes, is_klass, text_eq}
use glsld.Conditional.{Conditionals, opened, in_active_branch}
use glsld.Preprocess.Atoms.{directive_define, directive_if}
use glsld.Preprocess.Defs.{PreprocessorState, default, inactive, Services, Machine}
use glsld.Preprocess.Steps.{feed_pp_token, preprocess_tokens}
use glsld.Preprocess.Safety.{IsSound, Runs}
use glsld.Preprocess.Run.{preprocess_tokens-IsSound, end_of_file-fails}
use glsld.Preprocess.Skip.{IsSkipping, preprocess_tokens-IsSkipping}

abbrev plain : Services
plain = record {
  Output = List PpToken;
  feed = λ m t out. out ++ (t ∷ []);
  finalize = λ m out. out;
  output_token = λ t out. out ++ (t ∷ []);
  output_comment = λ t front back out. out;
  expand = λ m ts. ts;
  undefined_value = false;
  include_file = λ t m out. (m, out);
}

abbrev origin : TextPosition
origin = record { line = 0; character = 0 }

abbrev token : TokenKlass → Bytes → PpToken
token k s = record {
  klass = k;
  spelled_file = 1;
  spelled_range = record { start = origin; end = origin };
  text = s;
  is_first_token_of_line = false;
  has_leading_whitespace = false;
}

abbrev first : PpToken → PpToken
first t = record t { is_first_token_of_line = true }

abbrev hash_token : PpToken
hash_token = first (token TokenKlass.hash (b'#' ∷ []))

abbrev machine : PreprocessorState → List Bool → Machine plain
machine st is = record {
  state = st;
  directive_tok_buffer = [];
  conditionals = record {
    conditional_stack = map opened is;
    skipped_inactive_conditional_count = 0;
  };
  macro_table = [];
  output = [];
  pending_trivia_buffer = [];
  trivia_attachment_line = 0;
  include_depth = 0;
  max_include_depth = 1;
}

start-IsSound : IsSound plain (machine default [])
unfolding in_active_branch
start-IsSound = record {
  nested = record { below = tt; counted = λ e. refl };
  region = refl;
  buffered = tt;
  running = refl;
}

-- #if 0
-- #define X
abbrev disabled_define : List PpToken
disabled_define =
    hash_token
    ∷ token TokenKlass.identifier directive_if
    ∷ token TokenKlass.number_literal (b'0' ∷ [])
    ∷ hash_token
    ∷ token TokenKlass.identifier directive_define
    ∷ token TokenKlass.identifier (b'X' ∷ [])
    ∷ []

preprocess_tokens-IsSound_example :
    Runs (IsSound plain) (preprocess_tokens plain disabled_define (machine default []))
unfolding is_klass
preprocess_tokens-IsSound_example =
    preprocess_tokens-IsSound plain disabled_define (machine default []) start-IsSound
      (refl, (refl, (refl, (refl, (refl, (refl, tt))))))

abbrev eof_token : PpToken
eof_token = token TokenKlass.eof []

end_of_file-fails_example : feed_pp_token plain eof_token (machine inactive (false ∷ [])) ≡ none
unfolding is_klass
end_of_file-fails_example =
    end_of_file-fails plain eof_token (machine inactive (false ∷ [])) refl refl refl

-- An `#if` that no `#endif` closes stops the machine by a failed assertion.
unclosed_fails :
    preprocess_tokens plain (disabled_define ++ (eof_token ∷ [])) (machine default []) ≡ none
unfolding preprocess_tokens
unclosed_fails = refl

-- #define X
abbrev define_line : List PpToken
define_line =
    hash_token
    ∷ token TokenKlass.identifier directive_define
    ∷ token TokenKlass.identifier (b'X' ∷ [])
    ∷ []

abbrev skipped_region : Conditionals
skipped_region = record {
  conditional_stack = opened false ∷ [];
  skipped_inactive_conditional_count = 0;
}

preprocess_tokens-IsSkipping_example :
    Runs
      (IsSkipping plain skipped_region [])
      (preprocess_tokens plain define_line (machine inactive (false ∷ [])))
unfolding in_active_branch is_klass text_eq
preprocess_tokens-IsSkipping_example =
    preprocess_tokens-IsSkipping plain skipped_region [] refl define_line
      (machine inactive (false ∷ []))
      (record { before_name = inl refl; same_conditionals = refl; same_macros = refl })
      ((refl, refl), ((refl, refl), ((refl, refl), tt)))
