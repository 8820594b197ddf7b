-- ===== src/Expansion/Body.antt =====
-- Preprocessor.cpp, `FeedMacroExpansion`: the loop over the tokens of a macro's expansion, as a machine
-- that takes one token at a time. The next processor is the parameter `feed`.
use glsld.Prelude.{
  ℕ, zero, suc, ◌-◌, Bool, true, false, List, [], ◌∷◌, ◌++◌, Option, none, some, if◌then◌else◌,
  length, take, drop, get_elem?,
}
use glsld.Token.{PpToken, TokenKlass, Bytes, text_eq, is_klass}
use glsld.Token.Scanner.{try_test_token}
use glsld.Tokenizer.Cursor.{Cursor}
use glsld.Tokenizer.Lex.{lex}
use glsld.Expansion.State.{Result, done, failed, ◌>>=◌, InvocationArgumentInfo, Processor}

-- Where the loop stands: before a token; behind a `#`, whose operand is discarded; behind an operand
-- of `##`; behind `##`. A paste carries its text so far and whether it has failed.
pub data Mode : Type 0 where
  start skip : Mode
  pasted : Bytes → Bool → Mode
  pasting : Bytes → Bool → Mode

pub record BodyState : Type 0 where
  pub mode : Mode
  pub next_processor : Processor
  pub output : List PpToken

abbrev pub Feed : Type 0
Feed = PpToken → Processor → Result (Processor × List PpToken)

-- A token that is spelled at the begin of the macro's name.
abbrev pub relocate : PpToken → PpToken → PpToken
relocate name t = record t {
  spelled_file = name.spelled_file;
  spelled_range = record { start = name.spelled_range.start; end = name.spelled_range.start };
  is_first_token_of_line = false;
  has_leading_whitespace = false;
}

-- The index of the parameter of that name.
unfoldable pub find_param : List PpToken → Bytes → Option ℕ
unfolding text_eq
find_param [] text = none
find_param (p ∷ params) text =
    let rest = (elim (find_param params text) as (λ _. Option ℕ) [
      | none ↦ none
      | some i ↦ some (suc i)
    ]) in
    if text_eq text p.text then some zero else rest

-- `pasteTokenText` with the text and the failure flag so far. An argument that was not given is read
-- outside the array.
abbrev pub paste_argument : Option InvocationArgumentInfo → Bytes → Bool → Result (Bytes × Bool)
paste_argument none text failure = failed
paste_argument (some a) text failure = elim a.num_argument_token [
  | zero ↦ done (text, failure)
  | suc n ↦ elim n [
    | zero ↦ elim a.paste_token [ none ↦ failed | some t ↦ done (text ++ t.text, failure) ]
    | suc m ↦ done (text, true)
  ]
]

abbrev pub paste_operand :
    PpToken → Option ℕ → List InvocationArgumentInfo → Bytes → Bool → Result (Bytes × Bool)
paste_operand t none args text failure = done (text ++ t.text, failure)
paste_operand t (some i) args text failure = paste_argument (get_elem? args i) text failure

abbrev pub param_of : List PpToken → PpToken → Option ℕ
param_of params t =
    if is_klass t.klass TokenKlass.identifier then find_param params t.text else none

unfoldable pub paste_token_text :
    List PpToken → List InvocationArgumentInfo → PpToken → Bytes → Bool → Result (Bytes × Bool)
unfolding find_param is_klass
paste_token_text params args t text failure = paste_operand t (param_of params t) args text failure

unfoldable pub feed_all : Feed → List PpToken → Processor → Result (Processor × List PpToken)
feed_all feed [] p = done (p, [])
feed_all feed (t ∷ ts) p = do r ← feed t p; rs ← feed_all feed ts r.0; done (rs.0, r.1 ++ rs.1)

-- Everything that one expansion is given: the next processor's `Feed`, the name, the parameters, the
-- tokens of the invocation with the arguments in them, and how the text of a paste is counted.
pub record Invocation : Type 0 where
  pub feed : Feed
  pub macro_name_tok : PpToken
  pub param_tokens : List PpToken
  pub invocation_tokens : List PpToken
  pub args : List InvocationArgumentInfo
  pub count_utf16_characters : Bool

abbrev pub put_out : Mode → BodyState → Result (Processor × List PpToken) → Result BodyState
put_out mode s m =
    m >>= λ r. done (record { mode = mode; next_processor = r.0; output = s.output ++ r.1 })

abbrev pub argument_tokens : Invocation → Option InvocationArgumentInfo → List PpToken
argument_tokens inv none = []
argument_tokens inv (some a) =
    take (a.index_end - a.index_begin) (drop a.index_begin inv.invocation_tokens)

abbrev pub substitute : Invocation → PpToken → BodyState → Option ℕ → Result BodyState
substitute inv t s none = put_out Mode.start s (inv.feed t s.next_processor)
substitute inv t s (some i) =
    put_out Mode.start s
      (feed_all inv.feed (argument_tokens inv (get_elem? inv.args i)) s.next_processor)

abbrev pub enter_paste : BodyState → Result (Bytes × Bool) → Result BodyState
enter_paste s m = m >>= λ r. done (record s { mode = Mode.pasted r.0 r.1 })

-- A token at the head of the loop, with the tokens behind it.
unfoldable pub start_token : Invocation → PpToken → List PpToken → BodyState → Result BodyState
unfolding paste_token_text feed_all find_param is_klass try_test_token
start_token inv t ts s =
    let moved = relocate inv.macro_name_tok t in
    if is_klass t.klass TokenKlass.hash
    then (if try_test_token ts TokenKlass.identifier 1
        then done (record s { mode = Mode.skip })
        else put_out Mode.start s (inv.feed moved s.next_processor))
    else if try_test_token ts TokenKlass.hash_hash 0
    then enter_paste s (paste_token_text inv.param_tokens inv.args moved [] false)
    else substitute inv moved s (param_of inv.param_tokens t)

abbrev pub text_cursor : Bool → Bytes → Cursor
text_cursor utf16 text = record {
  rest = text;
  line_counter = 0;
  character_counter = 0;
  count_utf16_characters = utf16;
}

abbrev pub feed_pasted : Invocation → BodyState → Option (PpToken × Cursor) → Result BodyState
feed_pasted inv s none = failed
feed_pasted inv s (some (t, c)) =
    put_out Mode.start s (inv.feed (relocate inv.macro_name_tok t) s.next_processor)

-- The pasted text becomes the first token in it.
unfoldable pub finish_paste : Invocation → Bytes → Bool → BodyState → Result BodyState
unfolding lex
finish_paste inv text failure s =
    if failure
    then done (record s { mode = Mode.start })
    else feed_pasted inv s (
        lex false inv.macro_name_tok.spelled_file (length text)
          (text_cursor inv.count_utf16_characters text))

unfoldable pub body_step : Invocation → PpToken → List PpToken → BodyState → Mode → Result BodyState
unfolding start_token finish_paste paste_token_text is_klass
body_step inv t ts s Mode.start = start_token inv t ts s
body_step inv t ts s Mode.skip = done (record s { mode = Mode.start })
body_step inv t ts s (Mode.pasted text failure) =
    if is_klass t.klass TokenKlass.hash_hash
    then done (record s { mode = Mode.pasting text failure })
    else (finish_paste inv text failure s >>= λ s'. start_token inv t ts s')
body_step inv t ts s (Mode.pasting text failure) =
    enter_paste s (paste_token_text inv.param_tokens inv.args t text failure)

abbrev pub end_body : Invocation → BodyState → Mode → Result BodyState
end_body inv s (Mode.pasted text failure) = finish_paste inv text failure s
end_body inv s mode = done s

unfoldable pub run_body : Invocation → List PpToken → BodyState → Result BodyState
unfolding body_step finish_paste
run_body inv [] s = end_body inv s s.mode
run_body inv (t ∷ ts) s = body_step inv t ts s s.mode >>= λ s'. run_body inv ts s'
