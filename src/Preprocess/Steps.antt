-- ===== src/Preprocess/Steps.antt =====
-- glsld-core/src/Compiler/Preprocessor.cpp, lines 349 to 595 and `FeedPPToken` of Preprocessor.h: the
-- machine that takes one token at a time. `none` is a failed assertion of a transition.
use glsld.Prelude.{
  ℕ, Bool, true, false, not, ◌&&◌, ◌||◌, List, [], ◌∷◌, ◌++◌, Option, none, some, leb, ◌==◌,
  if◌then◌else◌,
}
use glsld.Token.{PpToken, TokenKlass, Bytes, text_eq, is_klass}
use glsld.Token.Scanner.{try_consume_token2}
use glsld.MacroTable.{MacroTable, is_macro_defined}
use glsld.Conditional.{
  Directive, if_directive, ifdef_directive, elif_directive, else_directive, endif_directive, handle,
  in_active_branch,
}
use glsld.Preprocess.Atoms.{
  directive_include, directive_define, directive_undef, directive_if, directive_ifdef,
  directive_ifndef, directive_else, directive_elif, directive_endif,
}
use glsld.Preprocess.Defs.{
  PreprocessorState, default, halt, inactive, expect_directive, expect_default_directive_tail,
  expect_include_directive_tail, Services, Machine, handle_define_directive, handle_undef_directive,
  evaluate_pp_expression,
}

infixl 5 ◌>>=◌
abbrev pub ◌>>=◌ {ℓ κ} : {A : Type ℓ} {B : Type κ} → Option A → (A → Option B) → Option B
none >>= f = none
some a >>= f = f a

abbrev pub is_directive_start : PpToken → Bool
is_directive_start t = is_klass t.klass TokenKlass.hash && t.is_first_token_of_line

abbrev pub ends_directive : PpToken → Bool
ends_directive t = is_klass t.klass TokenKlass.eof || t.is_first_token_of_line

-- The condition of `#ifdef` and `#ifndef`, `none` where no macro name follows.
abbrev pub ifdef_condition : Bool → MacroTable → List PpToken → Option Bool
ifdef_condition is_ndef m [] = none
ifdef_condition is_ndef m (t ∷ ts) =
    if is_klass t.klass TokenKlass.identifier
    then some (if is_ndef then not (is_macro_defined m t.text) else is_macro_defined m t.text)
    else none

module _ (s : Services) where
  abbrev pub apply_directive : Directive → Machine s → Machine s
  apply_directive d m = record m { conditionals = handle d m.conditionals }

  abbrev pub include_header : Option (PpToken × List PpToken) → Machine s → Machine s
  include_header none m = m
  include_header (some (header, rest)) m =
      let (macros, out) = s.include_file header m.macro_table m.output in
      record m { macro_table = macros; output = out }

  unfoldable pub handle_include_directive : List PpToken → Machine s → Machine s
  unfolding try_consume_token2
  handle_include_directive ts m =
      if leb m.max_include_depth m.include_depth
      then m
      else include_header
          (try_consume_token2 ts TokenKlass.user_header_name TokenKlass.system_header_name) m

  -- The directives that only report to the callback change nothing: `#error`, `#extension`,
  -- `#version`, `#pragma` and `#line`, and so it is for an unknown one.
  unfoldable pub dispatch_named : Bytes → List PpToken → Machine s → Machine s
  unfolding text_eq handle handle_include_directive handle_define_directive handle_undef_directive
      evaluate_pp_expression is_klass is_macro_defined
  dispatch_named name ts m =
      if text_eq name directive_include
      then handle_include_directive ts m
      else if text_eq name directive_define
      then record m { macro_table = handle_define_directive ts m.macro_table }
      else if text_eq name directive_undef
      then record m { macro_table = handle_undef_directive ts m.macro_table }
      else if text_eq name directive_if
      then apply_directive (if_directive (evaluate_pp_expression s m.macro_table ts)) m
      else if text_eq name directive_ifdef
      then apply_directive (ifdef_directive (ifdef_condition false m.macro_table ts)) m
      else if text_eq name directive_ifndef
      then apply_directive (ifdef_directive (ifdef_condition true m.macro_table ts)) m
      else if text_eq name directive_else
      then apply_directive else_directive m
      else if text_eq name directive_elif
      then apply_directive (elif_directive (evaluate_pp_expression s m.macro_table ts)) m
      else if text_eq name directive_endif
      then apply_directive endif_directive m
      else m

  -- `DispatchPPDirectiveToHandler` on the buffer, whose first token is the `#`.
  unfoldable pub dispatch_pp_directive : List PpToken → Machine s → Machine s
  unfolding dispatch_named
  dispatch_pp_directive [] m = m
  dispatch_pp_directive (hash ∷ []) m = m
  dispatch_pp_directive (hash ∷ (t ∷ ts)) m = dispatch_named t.text ts m

  abbrev pub is_expecting : PreprocessorState → Bool
  is_expecting expect_directive = true
  is_expecting expect_default_directive_tail = true
  is_expecting expect_include_directive_tail = true
  is_expecting _ = false

  unfoldable pub transition_to_expect_directive_state : PpToken → Machine s → Option (Machine s)
  unfolding is_klass
  transition_to_expect_directive_state t m =
      if (elim m.state [ default ↦ true | inactive ↦ true | _ ↦ false ]) && is_directive_start t
      then some (record m { state = expect_directive; directive_tok_buffer = t ∷ [] })
      else none

  unfoldable pub accept_on_default_state : PpToken → Machine s → Option (Machine s)
  unfolding transition_to_expect_directive_state is_klass
  accept_on_default_state t m =
      if is_klass t.klass TokenKlass.eof
      then some m
      else if is_directive_start t
      then transition_to_expect_directive_state t m
      else some (record m { output = s.feed m.macro_table t m.output })

  unfoldable pub accept_on_inactive_state : PpToken → Machine s → Option (Machine s)
  unfolding transition_to_expect_directive_state is_klass
  accept_on_inactive_state t m =
      if is_klass t.klass TokenKlass.eof
      then some m
      else if is_directive_start t
      then transition_to_expect_directive_state t m
      else some m

  -- `TransitionToDefaultState` and `TransitionToInactiveState` with the token that they redirect.
  unfoldable pub transition_to_default_state : PpToken → Machine s → Option (Machine s)
  unfolding accept_on_default_state
  transition_to_default_state t m =
      if is_expecting m.state
      then accept_on_default_state t (record m { state = default })
      else none

  unfoldable pub can_turn_inactive : PreprocessorState → Bool
  can_turn_inactive expect_directive = true
  can_turn_inactive expect_default_directive_tail = true
  can_turn_inactive _ = false

  unfoldable pub transition_to_inactive_state : PpToken → Machine s → Option (Machine s)
  unfolding accept_on_inactive_state can_turn_inactive
  transition_to_inactive_state t m =
      if can_turn_inactive m.state
      then accept_on_inactive_state t (record m { state = inactive })
      else none

  -- The end of a directive, at the first token of the next line.
  unfoldable pub finish_directive : PpToken → Machine s → Option (Machine s)
  unfolding dispatch_pp_directive transition_to_default_state transition_to_inactive_state
      in_active_branch
  finish_directive t m =
      let m' = dispatch_pp_directive m.directive_tok_buffer m in
      if in_active_branch m'.conditionals
      then transition_to_default_state t m'
      else transition_to_inactive_state t m'

  abbrev pub may_change_conditionals : Bytes → Bool
  may_change_conditionals name =
      text_eq name directive_if
      || text_eq name directive_ifdef
      || text_eq name directive_ifndef
      || text_eq name directive_elif
      || text_eq name directive_else
      || text_eq name directive_endif

  -- The state behind the name of a directive. All transitions start from `expect_directive` here.
  unfoldable pub state_after_name : Bool → Bytes → PreprocessorState
  unfolding text_eq
  state_after_name in_active name =
      if in_active
      then (if text_eq name directive_include
          then expect_include_directive_tail
          else expect_default_directive_tail)
      else if may_change_conditionals name
      then expect_default_directive_tail
      else inactive

  unfoldable pub accept_on_expect_directive_state : PpToken → Machine s → Option (Machine s)
  unfolding finish_directive state_after_name is_klass in_active_branch
  accept_on_expect_directive_state t m =
      if ends_directive t
      then finish_directive t m
      else some (record m {
        state = state_after_name (in_active_branch m.conditionals) t.text;
        directive_tok_buffer = m.directive_tok_buffer ++ (t ∷ []);
      })

  unfoldable pub accept_on_expect_directive_tail_state : PpToken → Machine s → Option (Machine s)
  unfolding finish_directive is_klass
  accept_on_expect_directive_tail_state t m =
      if ends_directive t
      then finish_directive t m
      else some (record m { directive_tok_buffer = m.directive_tok_buffer ++ (t ∷ []) })

  unfoldable pub dispatch_token_in : PreprocessorState → PpToken → Machine s → Option (Machine s)
  unfolding accept_on_default_state accept_on_inactive_state accept_on_expect_directive_state
      accept_on_expect_directive_tail_state
  dispatch_token_in default t m = accept_on_default_state t m
  dispatch_token_in halt t m = none
  dispatch_token_in inactive t m = accept_on_inactive_state t m
  dispatch_token_in expect_directive t m = accept_on_expect_directive_state t m
  dispatch_token_in expect_default_directive_tail t m = accept_on_expect_directive_tail_state t m
  dispatch_token_in expect_include_directive_tail t m = accept_on_expect_directive_tail_state t m

  unfoldable pub dispatch_token_to_handler : PpToken → Machine s → Option (Machine s)
  unfolding dispatch_token_in
  dispatch_token_to_handler t m = dispatch_token_in m.state t m

  unfoldable pub transition_to_halt_state : Machine s → Option (Machine s)
  transition_to_halt_state m = elim m.state [
    | default ↦ some (record m { state = halt })
    | _ ↦ none
  ]

  -- Comments wait for the next token, and are put out with the lines that they lie between.
  unfoldable pub output_trivia : List PpToken → ℕ → ℕ → s.Output → s.Output
  output_trivia [] front back out = out
  output_trivia (t ∷ ts) front back out =
      output_trivia ts front back (s.output_comment t front back out)

  unfoldable pub flush_trivia : PpToken → Machine s → Machine s
  unfolding output_trivia
  flush_trivia t m =
      let line = t.spelled_range.start.line in
      record m {
        output = output_trivia m.pending_trivia_buffer m.trivia_attachment_line line m.output;
        pending_trivia_buffer = [];
        trivia_attachment_line = line;
      }

  unfoldable pub end_file : PpToken → Machine s → Option (Machine s)
  unfolding transition_to_halt_state
  end_file t m =
      let out = s.finalize m.macro_table m.output in
      if m.include_depth == 0
      then transition_to_halt_state (record m { output = s.output_token t out })
      else some (record m { output = out })

  unfoldable pub feed_pp_token : PpToken → Machine s → Option (Machine s)
  unfolding flush_trivia dispatch_token_to_handler end_file is_klass
  feed_pp_token t m =
      if is_klass t.klass TokenKlass.comment
      then some (record m { pending_trivia_buffer = m.pending_trivia_buffer ++ (t ∷ []) })
      else (dispatch_token_to_handler t (flush_trivia t m) >>= λ m'.
          if is_klass t.klass TokenKlass.eof then end_file t m' else some m')

  abbrev pub is_halted : PreprocessorState → Bool
  is_halted halt = true
  is_halted _ = false

  abbrev pub is_fed : PreprocessorState → PpToken → Bool
  is_fed inactive t = is_directive_start t
  is_fed _ t = true

  -- `PreprocessSourceFile` on the tokens of a file: in an inactive region only a `#` that begins a
  -- line, or the end of the file, is fed.
  unfoldable pub preprocess_tokens : List PpToken → Machine s → Option (Machine s)
  unfolding feed_pp_token is_klass
  preprocess_tokens [] m = some m
  preprocess_tokens (t ∷ ts) m =
      let fed = feed_pp_token t m >>= λ m'. preprocess_tokens ts m' in
      let dropped = preprocess_tokens ts m in
      if is_halted m.state
      then some m
      else if is_klass t.klass TokenKlass.eof
      then feed_pp_token t m
      else if is_fed m.state t
      then fed
      else dropped
