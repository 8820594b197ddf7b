-- ===== src/PpEval.antt =====
-- glsld-core/include/Compiler/PPEval.h and src/Compiler/PPEval.cpp: the evaluator for the
-- expressions of `#if` and `#elif`, an operator-precedence machine over two stacks. The head of a
-- list is the back of the vector. `rejected` is `std::nullopt` (or `false` from a step, on which
-- every caller gives up); `undefined` is an operation with no defined result on `int64_t`.
pub mod Arith
pub mod Grammar
pub mod Reduce
pub mod Correct
pub mod Tests
use glsld.Prelude.{
  ℕ, zero, suc, Bool, true, false, not, ◌&&◌, ◌||◌, List, [], ◌∷◌, Option, none, some, ltb, ◌==◌,
  if◌then◌else◌,
}
use glsld.Prelude.Int.{ℤ, pos}
use glsld.Token.{PpToken, TokenKlass}
use glsld.Literal.{LiteralValue, int32, uint32, floating, error, parse_number_literal}
use Arith.{
  Outcome, done, rejected, undefined, ◌>>=◌, PpOperator, paren_open, identity, negate, bit_not,
  logical_not, multiply, divide, modulo, add, subtract, left_shift, right_shift, less,
  less_or_equal, greater, greater_or_equal, equals, differs, bitwise_and, bitwise_xor, bitwise_or,
  logical_and, logical_or, evaluate_pp_operator,
}

pub record PpOperatorInfo : Type 0 where
  pub op : PpOperator
  pub precedence : ℕ
  pub is_unary : Bool

abbrev pub is_left_associative : PpOperatorInfo → Bool
is_left_associative i = not i.is_unary

abbrev pub has_higher_precedence_than : PpOperatorInfo → PpOperatorInfo → Bool
has_higher_precedence_than i other = ltb i.precedence other.precedence

abbrev pub unary : PpOperator → PpOperatorInfo
unary o = record { op = o; precedence = 2; is_unary = true }

abbrev pub binary : PpOperator → ℕ → PpOperatorInfo
binary o p = record { op = o; precedence = p; is_unary = false }

abbrev pub get_paren_pp_operator : PpOperatorInfo
get_paren_pp_operator = record { op = paren_open; precedence = 999; is_unary = false }

unfoldable pub parse_unary_pp_operator : TokenKlass → Option PpOperatorInfo
parse_unary_pp_operator TokenKlass.plus = some (unary identity)
parse_unary_pp_operator TokenKlass.dash = some (unary negate)
parse_unary_pp_operator TokenKlass.tilde = some (unary bit_not)
parse_unary_pp_operator TokenKlass.bang = some (unary logical_not)
parse_unary_pp_operator _ = none

unfoldable pub parse_binary_pp_operator : TokenKlass → Option PpOperatorInfo
parse_binary_pp_operator TokenKlass.star = some (binary multiply 3)
parse_binary_pp_operator TokenKlass.slash = some (binary divide 3)
parse_binary_pp_operator TokenKlass.percent = some (binary modulo 3)
parse_binary_pp_operator TokenKlass.plus = some (binary add 4)
parse_binary_pp_operator TokenKlass.dash = some (binary subtract 4)
parse_binary_pp_operator TokenKlass.l_shift = some (binary left_shift 5)
parse_binary_pp_operator TokenKlass.r_shift = some (binary right_shift 5)
parse_binary_pp_operator TokenKlass.l_angle = some (binary less 6)
parse_binary_pp_operator TokenKlass.less_eq = some (binary less_or_equal 6)
parse_binary_pp_operator TokenKlass.r_angle = some (binary greater 6)
parse_binary_pp_operator TokenKlass.greater_eq = some (binary greater_or_equal 6)
parse_binary_pp_operator TokenKlass.equal = some (binary equals 7)
parse_binary_pp_operator TokenKlass.not_equal = some (binary differs 7)
parse_binary_pp_operator TokenKlass.ampersand = some (binary bitwise_and 8)
parse_binary_pp_operator TokenKlass.caret = some (binary bitwise_xor 9)
parse_binary_pp_operator TokenKlass.vertical_bar = some (binary bitwise_or 10)
parse_binary_pp_operator TokenKlass.and = some (binary logical_and 11)
parse_binary_pp_operator TokenKlass.or = some (binary logical_or 12)
parse_binary_pp_operator _ = none

pub record Evaluator : Type 0 where
  pub value_stack : List ℤ
  pub operator_stack : List PpOperatorInfo

abbrev pub stacks : List ℤ → List PpOperatorInfo → Evaluator
stacks vs ops = record { value_stack = vs; operator_stack = ops }

abbrev pub is_paren : PpOperator → Bool
is_paren paren_open = true
is_paren _ = false

unfoldable pub pop_unary : PpOperator → List ℤ → Outcome (List ℤ)
unfolding evaluate_pp_operator
pop_unary o [] = rejected
pop_unary o (lhs ∷ vs) = do v ← evaluate_pp_operator o lhs (pos 0); done (v ∷ vs)

unfoldable pub pop_binary : PpOperator → List ℤ → Outcome (List ℤ)
unfolding evaluate_pp_operator
pop_binary o [] = rejected
pop_binary o (rhs ∷ []) = rejected
pop_binary o (rhs ∷ (lhs ∷ vs)) = do v ← evaluate_pp_operator o lhs rhs; done (v ∷ vs)

-- `EvalOperatorOnTop` for the operator on top of its stack, on the value stack.
unfoldable pub eval_top : PpOperatorInfo → List ℤ → Outcome (List ℤ)
unfolding pop_unary pop_binary
eval_top i vs =
    if is_paren i.op then rejected else if i.is_unary then pop_unary i.op vs else pop_binary i.op vs

-- `PushOperator`: the loop ends by its `break`, or with the operator stack.
unfoldable pub push_operator : PpOperatorInfo → List PpOperatorInfo → List ℤ → Outcome Evaluator
unfolding eval_top
push_operator i [] vs = done (stacks vs (i ∷ []))
push_operator i (top ∷ ops) vs =
    let reduced = (do vs' ← eval_top top vs; push_operator i ops vs') in
    if has_higher_precedence_than top i || (top.precedence == i.precedence && is_left_associative i)
    then reduced
    else done (stacks vs (i ∷ (top ∷ ops)))

-- The branch of `Evaluate` for a closing parenthesis.
unfoldable pub close_paren : List PpOperatorInfo → List ℤ → Outcome Evaluator
unfolding eval_top
close_paren [] vs = rejected
close_paren (top ∷ ops) vs =
    let reduced = (do vs' ← eval_top top vs; close_paren ops vs') in
    if is_paren top.op then done (stacks vs ops) else reduced

-- The loop behind the last token, and the result.
unfoldable pub reduce_all : List PpOperatorInfo → List ℤ → Outcome (List ℤ)
unfolding eval_top
reduce_all [] vs = done vs
reduce_all (top ∷ ops) vs = do vs' ← eval_top top vs; reduce_all ops vs'

abbrev pub single_value : List ℤ → Outcome ℤ
single_value [] = rejected
single_value (v ∷ []) = done v
single_value (v ∷ (w ∷ vs)) = rejected

abbrev pub enter : Bool → Outcome Evaluator → Outcome (Bool × Evaluator)
enter parsed_lhs m = do e ← m; done (parsed_lhs, e)

abbrev pub push_parsed : Option PpOperatorInfo → Evaluator → Outcome (Bool × Evaluator)
push_parsed none e = rejected
push_parsed (some i) e = enter false (push_operator i e.operator_stack e.value_stack)

-- The body of the loop where a left operand has been read.
unfoldable pub accept_operator : TokenKlass → Evaluator → Outcome (Bool × Evaluator)
unfolding push_operator close_paren parse_binary_pp_operator
accept_operator TokenKlass.r_paren e = enter true (close_paren e.operator_stack e.value_stack)
accept_operator k e = push_parsed (parse_binary_pp_operator k) e

abbrev pub push_operand : ℤ → Evaluator → Outcome (Bool × Evaluator)
push_operand v e = done (true, stacks (v ∷ e.value_stack) e.operator_stack)

abbrev pub push_literal : LiteralValue → Evaluator → Outcome (Bool × Evaluator)
push_literal (int32 n) e = push_operand (pos n) e
push_literal (uint32 n) e = push_operand (pos n) e
push_literal floating e = rejected
push_literal error e = rejected

-- The body of the loop where an operand is expected.
unfoldable pub accept_operand : TokenKlass → PpToken → Evaluator → Outcome (Bool × Evaluator)
unfolding push_operator parse_unary_pp_operator parse_number_literal
accept_operand TokenKlass.number_literal t e = push_literal (parse_number_literal t.text) e
accept_operand TokenKlass.defined_yes t e = push_operand (pos 1) e
accept_operand TokenKlass.defined_no t e = push_operand (pos 0) e
accept_operand TokenKlass.identifier t e = push_operand (pos 0) e
accept_operand TokenKlass.l_paren t e =
    done (false, stacks e.value_stack (get_paren_pp_operator ∷ e.operator_stack))
accept_operand k t e = push_parsed (parse_unary_pp_operator k) e

unfoldable pub accept : Bool → PpToken → Evaluator → Outcome (Bool × Evaluator)
unfolding accept_operator accept_operand
accept true t e = accept_operator t.klass e
accept false t e = accept_operand t.klass t e

unfoldable pub run : Bool → Evaluator → List PpToken → Outcome ℤ
unfolding accept reduce_all
run parsed_lhs e [] = do vs ← reduce_all e.operator_stack e.value_stack; single_value vs
run parsed_lhs e (t ∷ ts) = do r ← accept parsed_lhs t e; run r.0 r.1 ts

unfoldable pub evaluate : List PpToken → Outcome ℤ
unfolding run
evaluate ts = run false (stacks [] []) ts
