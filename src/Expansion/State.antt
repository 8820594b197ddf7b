-- ===== src/Expansion/State.antt =====
-- `MacroExpansionProcessor` of Preprocessor.h: its state, and the set of disabled macros.
pub use glsld.Prelude.Outcome.{Result, done, failed, out_of_fuel, ◌>>=◌}
use glsld.Prelude.{
  ℕ, zero, suc, ◌+◌, Bool, true, false, List, [], ◌∷◌, ◌++◌, Option, none, some, if◌then◌else◌,
  length,
}
use glsld.Token.{PpToken, Bytes, text_eq}
use glsld.MacroTable.{MacroDefinition, MacroTable, find_macro_definition}

pub record InvocationArgumentInfo : Type 0 where
  pub num_argument_token : ℕ
  pub paste_token : Option PpToken
  pub index_begin : ℕ
  pub index_end : ℕ

-- A pointer to a definition is its entry in the macro table: the name and the definition.
abbrev pub Entry : Type 0
Entry = Bytes × MacroDefinition

pub record Fields : Type 0 where
  pub witheld_tokens : List PpToken
  pub invocation_arguments : List InvocationArgumentInfo
  pub pending_invoked_macro : Option Entry
  pub arg_l_paren_counter : ℕ

-- The processor without and with an `argProcessor`.
pub data Processor : Type 0 where
  plain : Fields → Processor
  collecting : Fields → Processor → Processor

abbrev pub no_fields : Fields
no_fields = record {
  witheld_tokens = [];
  invocation_arguments = [];
  pending_invoked_macro = none;
  arg_l_paren_counter = 0;
}

abbrev pub new_processor : Processor
new_processor = plain no_fields

unfoldable pub is_disabled : List Bytes → Bytes → Bool
unfolding text_eq
is_disabled [] name = false
is_disabled (d ∷ disabled) name = if text_eq d name then true else is_disabled disabled name

abbrev pub enabled_definition : List Bytes → Bytes → Option MacroDefinition → Option MacroDefinition
enabled_definition disabled name none = none
enabled_definition disabled name (some d) = if is_disabled disabled name then none else some d

-- The set holds pointers to entries, which their names stand for.
unfoldable pub find_enabled_macro_definition :
    MacroTable → List Bytes → Bytes → Option MacroDefinition
unfolding is_disabled find_macro_definition
find_enabled_macro_definition table disabled name =
    enabled_definition disabled name (find_macro_definition table name)

abbrev pub new_argument : ℕ → InvocationArgumentInfo
new_argument n = record {
  num_argument_token = 0;
  paste_token = none;
  index_begin = n;
  index_end = n;
}

-- `invocationArguments.push_back` of `NewPendingInvocationArgument`; its `argProcessor` is new too.
abbrev pub push_argument : Fields → Fields
push_argument f = record f {
  invocation_arguments = f.invocation_arguments ++ (new_argument (length f.witheld_tokens) ∷ []);
}

-- A change of `invocationArguments.back()`.
unfoldable pub change_back :
    (InvocationArgumentInfo → InvocationArgumentInfo)
    → List InvocationArgumentInfo
    → List InvocationArgumentInfo
change_back g [] = []
change_back g (a ∷ []) = g a ∷ []
change_back g (a ∷ (b ∷ args)) = a ∷ change_back g (b ∷ args)

-- `FinishPendingInvocationArgument`, with what the finalized `argProcessor` puts out.
abbrev pub finish_argument : List PpToken → Fields → Fields
finish_argument out f =
    let witheld = f.witheld_tokens ++ out in
    record f {
      witheld_tokens = witheld;
      invocation_arguments =
          change_back (λ a. record a { index_end = length witheld }) f.invocation_arguments;
    }

abbrev pub first_token : PpToken → Option PpToken → ℕ → Option PpToken
first_token t old zero = some t
first_token t old (suc n) = old

-- The count of the argument's tokens, and the first of them.
abbrev pub count_token : PpToken → InvocationArgumentInfo → InvocationArgumentInfo
count_token t a = record a {
  num_argument_token = a.num_argument_token + 1;
  paste_token = first_token t a.paste_token a.num_argument_token;
}
