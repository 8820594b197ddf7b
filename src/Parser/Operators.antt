-- ===== src/Parser/Operators.antt =====
-- Parser.cpp: the operators that a token may be.
use glsld.Prelude.{ℕ, Option, none, some}
use glsld.Token.{TokenKlass}
use glsld.Parser.Syntax.{BinaryOp, UnaryOp}

unfoldable pub try_parse_assignment_op : TokenKlass → Option BinaryOp
try_parse_assignment_op TokenKlass.assign = some BinaryOp.assign
try_parse_assignment_op TokenKlass.mul_assign = some BinaryOp.mul_assign
try_parse_assignment_op TokenKlass.div_assign = some BinaryOp.div_assign
try_parse_assignment_op TokenKlass.mod_assign = some BinaryOp.mod_assign
try_parse_assignment_op TokenKlass.add_assign = some BinaryOp.add_assign
try_parse_assignment_op TokenKlass.sub_assign = some BinaryOp.sub_assign
try_parse_assignment_op TokenKlass.l_shift_assign = some BinaryOp.l_shift_assign
try_parse_assignment_op TokenKlass.r_shift_assign = some BinaryOp.r_shift_assign
try_parse_assignment_op TokenKlass.and_assign = some BinaryOp.and_assign
try_parse_assignment_op TokenKlass.xor_assign = some BinaryOp.xor_assign
try_parse_assignment_op TokenKlass.or_assign = some BinaryOp.or_assign
try_parse_assignment_op k = none

pub record BinaryOpDesc : Type 0 where
  pub opcode : BinaryOp
  pub precedence : ℕ

abbrev pub desc : BinaryOp → ℕ → Option BinaryOpDesc
desc op p = some (record { opcode = op; precedence = p })

unfoldable pub try_parse_binary_op : TokenKlass → Option BinaryOpDesc
try_parse_binary_op TokenKlass.or = desc BinaryOp.logical_or 0
try_parse_binary_op TokenKlass.xor = desc BinaryOp.logical_xor 1
try_parse_binary_op TokenKlass.and = desc BinaryOp.logical_and 2
try_parse_binary_op TokenKlass.vertical_bar = desc BinaryOp.bitwise_or 3
try_parse_binary_op TokenKlass.caret = desc BinaryOp.bitwise_xor 4
try_parse_binary_op TokenKlass.ampersand = desc BinaryOp.bitwise_and 5
try_parse_binary_op TokenKlass.equal = desc BinaryOp.equal 6
try_parse_binary_op TokenKlass.not_equal = desc BinaryOp.not_equal 6
try_parse_binary_op TokenKlass.l_angle = desc BinaryOp.less 7
try_parse_binary_op TokenKlass.r_angle = desc BinaryOp.greater 7
try_parse_binary_op TokenKlass.less_eq = desc BinaryOp.less_eq 7
try_parse_binary_op TokenKlass.greater_eq = desc BinaryOp.greater_eq 7
try_parse_binary_op TokenKlass.l_shift = desc BinaryOp.shift_left 8
try_parse_binary_op TokenKlass.r_shift = desc BinaryOp.shift_right 8
try_parse_binary_op TokenKlass.plus = desc BinaryOp.plus 9
try_parse_binary_op TokenKlass.dash = desc BinaryOp.minus 9
try_parse_binary_op TokenKlass.star = desc BinaryOp.mul 10
try_parse_binary_op TokenKlass.slash = desc BinaryOp.div 10
try_parse_binary_op TokenKlass.percent = desc BinaryOp.modulo 10
try_parse_binary_op k = none

unfoldable pub try_parse_prefix_unary_op : TokenKlass → Option UnaryOp
try_parse_prefix_unary_op TokenKlass.plus = some UnaryOp.identity
try_parse_prefix_unary_op TokenKlass.dash = some UnaryOp.negate
try_parse_prefix_unary_op TokenKlass.tilde = some UnaryOp.bitwise_not
try_parse_prefix_unary_op TokenKlass.bang = some UnaryOp.logical_not
try_parse_prefix_unary_op TokenKlass.increment = some UnaryOp.prefix_inc
try_parse_prefix_unary_op TokenKlass.decrement = some UnaryOp.prefix_dec
try_parse_prefix_unary_op k = none
