-- ===== src/Preprocess/Defs.antt =====
-- glsld-core/include/Compiler/Preprocessor.h and src/Compiler/Preprocessor.cpp: the state of the
-- machine, its transitions, and the directives that change the macro table.
use mathlib.Core.Option
use glsld.Prelude.{
  ℕ, zero, suc, get_elem?, Bool, true, false, not, ◌&&◌, List, [], ◌∷◌, ◌++◌, Option, none, some,
  if◌then◌else◌,
}
use glsld.Token.{PpToken, TokenKlass, text_eq, is_klass}
use glsld.Token.Scanner.{try_test_token}
use glsld.MacroTable.{
  MacroTable, is_macro_defined, define_object_like_macro, define_function_like_macro,
  undefine_macro,
}
use glsld.Conditional.{Conditionals}
use glsld.PpEval.{evaluate}
use glsld.PpEval.Arith.{Outcome, done, rejected, undefined, is_nonzero}
use glsld.Prelude.Int.{ℤ}
use glsld.Preprocess.Atoms.{operator_defined}

pub data PreprocessorState : Type 0 where
  default halt inactive expect_directive : PreprocessorState
  expect_default_directive_tail expect_include_directive_tail : PreprocessorState

-- What the machine calls: macro expansion, which owns the output stream, and the inclusion of a
-- file, which runs a second machine on the file's tokens. `expand` is the expansion of a whole
-- token list, and `undefined_value` the truth value that an expression with an undefined operation
-- happens to have.
pub record Services : Type 1 where
  pub Output : Type 0
  pub feed : MacroTable → PpToken → Output → Output
  pub finalize : MacroTable → Output → Output
  pub output_token : PpToken → Output → Output
  pub output_comment : PpToken → ℕ → ℕ → Output → Output
  pub expand : MacroTable → List PpToken → List PpToken
  pub undefined_value : Bool
  pub include_file : PpToken → MacroTable → Output → MacroTable × Output

-- The loop over the parameters of a function-like macro; `none` where the handler returns.
unfoldable pub parse_params :
    Bool → List PpToken → List PpToken → Option (List PpToken × List PpToken)
unfolding is_klass
parse_params expect_comma [] params = some (params, [])
parse_params true (t ∷ ts) params =
    let rest = parse_params false ts params in
    if is_klass t.klass TokenKlass.comma
    then rest
    else if is_klass t.klass TokenKlass.r_paren
    then some (params, ts)
    else none
parse_params false (t ∷ ts) params =
    let rest = parse_params true ts (params ++ (t ∷ [])) in
    if is_klass t.klass TokenKlass.identifier then rest else none

-- Behind the opening parenthesis.
unfoldable pub parse_param_list : List PpToken → Option (List PpToken × List PpToken)
unfolding parse_params is_klass
parse_param_list [] = some ([], [])
parse_param_list (t ∷ ts) =
    if is_klass t.klass TokenKlass.r_paren then some ([], ts) else parse_params false (t ∷ ts) []

abbrev pub define_with_params :
    PpToken → Option (List PpToken × List PpToken) → MacroTable → MacroTable
define_with_params name none m = m
define_with_params name (some (params, body)) m = define_function_like_macro name params body m

-- Behind the macro name.
unfoldable pub define_named : PpToken → List PpToken → MacroTable → MacroTable
unfolding parse_param_list define_object_like_macro define_function_like_macro is_klass
define_named name [] m = define_object_like_macro name [] m
define_named name (t ∷ ts) m =
    if is_klass t.klass TokenKlass.l_paren && not t.has_leading_whitespace
    then define_with_params name (parse_param_list ts) m
    else define_object_like_macro name (t ∷ ts) m

unfoldable pub handle_define_directive : List PpToken → MacroTable → MacroTable
unfolding define_named is_klass
handle_define_directive [] m = m
handle_define_directive (t ∷ ts) m =
    if is_klass t.klass TokenKlass.identifier then define_named t ts m else m

unfoldable pub handle_undef_directive : List PpToken → MacroTable → MacroTable
unfolding undefine_macro is_klass
handle_undef_directive [] m = m
handle_undef_directive (t ∷ ts) m =
    if is_klass t.klass TokenKlass.identifier then undefine_macro t.text m else m

-- The token that stands for `defined X`, at the place of the operator.
abbrev pub defined_token : MacroTable → PpToken → PpToken → PpToken
defined_token m t name = record t {
  klass = if is_macro_defined m name.text then TokenKlass.defined_yes else TokenKlass.defined_no;
  text = [];
}

abbrev pub cons_resolved : PpToken → Option (List PpToken) → Option (List PpToken)
cons_resolved t none = none
cons_resolved t (some ts) = some (t ∷ ts)

abbrev pub is_defined_operator : PpToken → Bool
is_defined_operator t = is_klass t.klass TokenKlass.identifier && text_eq t.text operator_defined

-- What follows the operator: the macro name, and how many tokens it takes.
unfoldable pub macro_operand : List PpToken → Option (PpToken × ℕ)
unfolding try_test_token is_klass
macro_operand [] = none
macro_operand (a ∷ ts) =
    if is_klass a.klass TokenKlass.identifier
    then some (a, 1)
    else if is_klass a.klass TokenKlass.l_paren
        && try_test_token (a ∷ ts) TokenKlass.identifier 1
        && try_test_token (a ∷ ts) TokenKlass.r_paren 2
    then Option.map (λ name. (name, 3)) (get_elem? ts 0)
    else none

-- The tokens of an expression with each `defined X` and `defined (X)` replaced; `none` where the
-- operator has no macro name. The count is of tokens that an operator has taken already.
unfoldable pub resolve_defined : MacroTable → List PpToken → ℕ → Option (List PpToken)
unfolding is_macro_defined is_klass text_eq macro_operand
resolve_defined m [] taken = some []
resolve_defined m (t ∷ ts) (suc taken) = resolve_defined m ts taken
resolve_defined m (t ∷ ts) zero =
    let plain = cons_resolved t (resolve_defined m ts 0) in
    elim (is_defined_operator t) [
      | false ↦ plain
      | true ↦ elim (macro_operand ts) [
        | none ↦ none
        | some (name, n) ↦ cons_resolved (defined_token m t name) (resolve_defined m ts n)
      ]
    ]

abbrev pub is_true : Bool → Outcome ℤ → Bool
is_true undefined_value (done v) = is_nonzero v
is_true undefined_value rejected = false
is_true undefined_value undefined = undefined_value

module _ (s : Services) where
  abbrev expand_and_evaluate : MacroTable → Option (List PpToken) → Bool
  expand_and_evaluate m none = false
  expand_and_evaluate m (some ts) = is_true s.undefined_value (evaluate (s.expand m ts))

  unfoldable pub evaluate_pp_expression : MacroTable → List PpToken → Bool
  unfolding resolve_defined evaluate
  evaluate_pp_expression m ts = expand_and_evaluate m (resolve_defined m ts 0)

  -- The configuration, and the state of one machine. `include_depth` is fixed for a machine.
  pub record Machine : Type 0 where
    pub state : PreprocessorState
    pub directive_tok_buffer : List PpToken
    pub conditionals : Conditionals
    pub macro_table : MacroTable
    pub output : s.Output
    pub pending_trivia_buffer : List PpToken
    pub trivia_attachment_line : ℕ
    pub include_depth : ℕ
    pub max_include_depth : ℕ
