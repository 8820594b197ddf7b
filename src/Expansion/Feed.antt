-- ===== src/Expansion/Feed.antt =====
-- Preprocessor.cpp, lines 13 to 179, and `FeedMacroExpansion`: what a token does to a processor. The
-- tokens that `YieldToken` puts out are returned. The set of disabled macros is an argument: an
-- expansion adds its own macro, which was enabled, and takes it out again at its end.
use glsld.Prelude.{
  ℕ, zero, suc, ◌+◌, ◌-◌, Bool, true, false, not, ◌&&◌, List, [], ◌∷◌, ◌++◌, Option, none, some,
  ◌==◌, if◌then◌else◌, length, get_elem?,
}
use glsld.Token.{PpToken, TokenKlass, Bytes, text_eq, is_klass}
use glsld.MacroTable.{MacroDefinition, MacroTable}
use glsld.GlslType.{decimal}
use glsld.Expansion.State.{
  Result, done, failed, out_of_fuel, ◌>>=◌, InvocationArgumentInfo, Entry, Fields, Processor, plain,
  collecting, no_fields, new_processor, find_enabled_macro_definition, push_argument,
  finish_argument, change_back, count_token,
}
use glsld.Expansion.Body.{Mode, BodyState, feed_all, run_body}

-- The state of the preprocessor that an expansion reads.
pub record Environment : Type 0 where
  pub macro_table : MacroTable
  pub version : ℕ
  pub count_utf16_characters : Bool

-- `FeedMacroExpansion` with the disabled macros, the name, the entry, the tokens withheld and the
-- arguments; it returns what is put out.
abbrev pub Expand : Type 0
Expand =
    List Bytes
    → PpToken
    → Entry
    → List PpToken
    → List InvocationArgumentInfo
    → Result (List PpToken)

abbrev pub Fed : Type 0
Fed = Result (Processor × List PpToken)

abbrev pub underlined : Bytes → Bytes
underlined name = b'_' ∷ (b'_' ∷ (name ++ (b'_' ∷ b'_' ∷ [])))

abbrev pub builtin_line_macro : Bytes
builtin_line_macro = underlined (b'L' ∷ b'I' ∷ b'N' ∷ b'E' ∷ [])

abbrev pub builtin_file_macro : Bytes
builtin_file_macro = underlined (b'F' ∷ b'I' ∷ b'L' ∷ b'E' ∷ [])

abbrev pub builtin_version_macro : Bytes
builtin_version_macro = underlined (b'V' ∷ b'E' ∷ b'R' ∷ b'S' ∷ b'I' ∷ b'O' ∷ b'N' ∷ [])

-- The token that a builtin macro becomes.
abbrev pub number_token : PpToken → ℕ → PpToken
number_token t n = record t {
  klass = TokenKlass.number_literal;
  spelled_range = record { start = t.spelled_range.start; end = t.spelled_range.start };
  text = decimal n;
  is_first_token_of_line = false;
  has_leading_whitespace = false;
}

abbrev pub withhold : PpToken → Entry → Fields
withhold t entry = record {
  witheld_tokens = t ∷ [];
  invocation_arguments = [];
  pending_invoked_macro = some entry;
  arg_l_paren_counter = 0;
}

abbrev pub counted : PpToken → ℕ → ℕ
counted t n =
    if is_klass t.klass TokenKlass.l_paren
    then n + 1
    else if is_klass t.klass TokenKlass.r_paren
    then n - 1
    else n

-- `RevokePendingMacroInvocation`: what it puts out; the state behind it has no fields set.
unfoldable pub revoke : Fields → Result (List PpToken)
revoke f = elim f.pending_invoked_macro [
  | none ↦ failed
  | some entry ↦ elim f.witheld_tokens [ [] ↦ failed | ◌∷◌ t ts ↦ done (t ∷ []) ]
]

abbrev pub fields : Processor → Fields
fields (plain f) = f
fields (collecting f a) = f

abbrev pub finalize_fields : Fields → Option Entry → Result (List PpToken)
finalize_fields f none = done []
finalize_fields f (some entry) = revoke f

-- `Finalize`, behind which a processor is fed no more.
unfoldable pub finalize : Processor → Result (List PpToken)
unfolding revoke
finalize p = finalize_fields (fields p) (fields p).pending_invoked_macro

-- The argument list of a macro without parameters may be one empty argument.
abbrev pub is_no_argument : List InvocationArgumentInfo → Bool
is_no_argument [] = false
is_no_argument (a ∷ []) = a.num_argument_token == 0
is_no_argument (a ∷ (b ∷ args)) = false

abbrev pub is_nil : {A : Type 0} → List A → Bool
is_nil [] = true
is_nil (x ∷ xs) = false

abbrev pub fixed_arguments :
    MacroDefinition → List InvocationArgumentInfo → List InvocationArgumentInfo
fixed_arguments d args = if is_nil d.param_tokens && is_no_argument args then [] else args

module _ (env : Environment) (expand : Expand) (disabled : List Bytes) where
  abbrev pub invoke : PpToken → MacroDefinition → Fed
  invoke t d =
      if d.is_function_like
      then done (plain (withhold t (t.text, d)), [])
      else (expand disabled t (t.text, d) [] [] >>= λ out. done (new_processor, out))

  abbrev pub invoke_enabled : PpToken → Option MacroDefinition → Fed
  invoke_enabled t none = done (new_processor, t ∷ [])
  invoke_enabled t (some d) = invoke t d

  unfoldable pub feed_identifier : PpToken → Fed
  unfolding text_eq decimal find_enabled_macro_definition
  feed_identifier t =
      if text_eq t.text builtin_line_macro
      then done (new_processor, number_token t (t.spelled_range.start.line + 1) ∷ [])
      else if text_eq t.text builtin_file_macro
      then done (new_processor, number_token t t.spelled_file ∷ [])
      else if text_eq t.text builtin_version_macro
      then done (new_processor, number_token t env.version ∷ [])
      else invoke_enabled t (find_enabled_macro_definition env.macro_table disabled t.text)

  -- `FeedTokenWithoutMacroContext`. It asserts that nothing is withheld.
  unfoldable pub feed_token_without_macro_context : PpToken → Fields → Fed
  unfolding feed_identifier is_klass
  feed_token_without_macro_context t f =
      if is_nil f.witheld_tokens && f.arg_l_paren_counter == 0
      then (if is_klass t.klass TokenKlass.identifier
          then feed_identifier t
          else done (new_processor, t ∷ []))
      else failed

  -- Behind a macro's name.
  unfoldable pub feed_behind_name : PpToken → Fields → Fed
  unfolding feed_token_without_macro_context revoke is_klass
  feed_behind_name t f =
      if not (f.arg_l_paren_counter == 0)
      then failed
      else if is_klass t.klass TokenKlass.l_paren
      then done
          (collecting (record (push_argument f) { arg_l_paren_counter = 1 }) new_processor, [])
      else (revoke f >>= λ out.
          feed_token_without_macro_context t no_fields >>= λ r. done (r.0, out ++ r.1))

  abbrev pub expand_pending : Fields → Option Entry → Option PpToken → Fed
  expand_pending f none name = failed
  expand_pending f (some entry) none = failed
  expand_pending f (some entry) (some name) =
      expand disabled name entry f.witheld_tokens (fixed_arguments entry.1 f.invocation_arguments)
      >>= λ out. done (new_processor, out)

  -- The closing parenthesis of the argument list.
  unfoldable pub close_invocation : Fields → Processor → Fed
  unfolding finalize change_back
  close_invocation f a = finalize a >>= λ out.
      expand_pending (finish_argument out f) f.pending_invoked_macro
        (get_elem? (finish_argument out f).witheld_tokens 0)

  -- The comma behind an argument. The next argument begins where the comma is put after that.
  unfoldable pub next_argument : PpToken → Fields → Processor → Fed
  unfolding finalize change_back
  next_argument t f a = finalize a >>= λ out.
      let g = push_argument (finish_argument out f) in
      done (
        collecting
            (record g { witheld_tokens = g.witheld_tokens ++ (t ∷ []); arg_l_paren_counter = 1 })
            new_processor,
        [],
      )

  -- A token of an argument, which its processor has been fed.
  abbrev pub keep_token : PpToken → Fields → Processor × List PpToken → Fed
  keep_token t f r = done (
    collecting
        (record f {
          witheld_tokens = f.witheld_tokens ++ r.1;
          invocation_arguments = change_back (count_token t) f.invocation_arguments;
          arg_l_paren_counter = counted t f.arg_l_paren_counter;
        })
        r.0,
    [],
  )

  abbrev pub feed_argument : PpToken → Fields → Processor → Fed → Fed
  feed_argument t f a fed =
      if f.arg_l_paren_counter == 0
      then failed
      else if counted t f.arg_l_paren_counter == 0
      then close_invocation f a
      else if counted t f.arg_l_paren_counter == 1 && is_klass t.klass TokenKlass.comma
      then next_argument t f a
      else (fed >>= λ r. keep_token t f r)

  -- `Feed`.
  unfoldable pub feed : PpToken → Processor → Fed
  unfolding feed_token_without_macro_context feed_behind_name close_invocation next_argument
      is_klass change_back
  feed t (plain f) =
      if is_klass t.klass TokenKlass.eof
      then failed
      else if is_nil f.witheld_tokens
      then feed_token_without_macro_context t f
      else if is_nil f.invocation_arguments
      then feed_behind_name t f
      else failed
  feed t (collecting f a) =
      let fed = feed t a in
      if is_klass t.klass TokenKlass.eof
      then failed
      else if is_nil f.witheld_tokens
      then feed_token_without_macro_context t f
      else if is_nil f.invocation_arguments
      then feed_behind_name t f
      else feed_argument t f a fed

abbrev pub start_body : BodyState
start_body = record { mode = Mode.start; next_processor = new_processor; output = [] }

abbrev pub finish_body : BodyState → Result (List PpToken)
finish_body s = finalize s.next_processor >>= λ out. done (s.output ++ out)

-- `FeedMacroExpansion`. The fuel bounds how deep expansions nest.
unfoldable pub feed_macro_expansion : Environment → ℕ → Expand
unfolding feed run_body finalize
feed_macro_expansion env zero disabled name entry witheld args = out_of_fuel
feed_macro_expansion env (suc fuel) disabled name entry witheld args =
    run_body
      (record {
        feed = feed env (feed_macro_expansion env fuel) (entry.0 ∷ disabled);
        macro_name_tok = name;
        param_tokens = entry.1.param_tokens;
        invocation_tokens = witheld;
        args = args;
        count_utf16_characters = env.count_utf16_characters;
      })
      entry.1.expansion_tokens start_body
    >>= finish_body

-- A whole list of tokens through a fresh processor. Expansions cannot nest deeper than there are
-- macros, since each disables its own.
unfoldable pub expand_tokens : Environment → List PpToken → Result (List PpToken)
unfolding feed_all feed feed_macro_expansion finalize
expand_tokens env ts =
    feed_all (feed env (feed_macro_expansion env (length env.macro_table)) []) ts new_processor
    >>= λ r. finalize r.0 >>= λ out. done (r.1 ++ out)
