-- ===== src/PpEval/Grammar.antt =====
-- The expressions that section 3.3 of the GLSL specification gives `#if`: their tokens, the
-- operator table read from the operator to its spelling, and what an expression means.
use glsld.Prelude.{ℕ, ◌≤◌, ◌<◌, ◌≡◌, Bool, true, false, List, [], ◌∷◌, ◌++◌}
use glsld.Prelude.Int.{ℤ, pos}
use glsld.Token.{PpToken, TokenKlass}
use glsld.Literal.{LiteralValue, int32, uint32, floating, error, parse_number_literal}
use glsld.PpEval.Arith.{
  Outcome, done, rejected, ◌>>=◌, PpOperator, paren_open, identity, negate, bit_not, logical_not,
  multiply, divide, modulo, add, subtract, left_shift, right_shift, less, less_or_equal, greater,
  greater_or_equal, equals, differs, bitwise_and, bitwise_xor, bitwise_or, logical_and, logical_or,
  evaluate_pp_operator,
}

abbrev pub spelling : PpOperator → TokenKlass
spelling paren_open = TokenKlass.l_paren
spelling identity = TokenKlass.plus
spelling negate = TokenKlass.dash
spelling bit_not = TokenKlass.tilde
spelling logical_not = TokenKlass.bang
spelling multiply = TokenKlass.star
spelling divide = TokenKlass.slash
spelling modulo = TokenKlass.percent
spelling add = TokenKlass.plus
spelling subtract = TokenKlass.dash
spelling left_shift = TokenKlass.l_shift
spelling right_shift = TokenKlass.r_shift
spelling less = TokenKlass.l_angle
spelling less_or_equal = TokenKlass.less_eq
spelling greater = TokenKlass.r_angle
spelling greater_or_equal = TokenKlass.greater_eq
spelling equals = TokenKlass.equal
spelling differs = TokenKlass.not_equal
spelling bitwise_and = TokenKlass.ampersand
spelling bitwise_xor = TokenKlass.caret
spelling bitwise_or = TokenKlass.vertical_bar
spelling logical_and = TokenKlass.and
spelling logical_or = TokenKlass.or

-- The level of an operator in the table; a lower level binds tighter.
abbrev pub level : PpOperator → ℕ
level paren_open = 1
level identity = 2
level negate = 2
level bit_not = 2
level logical_not = 2
level multiply = 3
level divide = 3
level modulo = 3
level add = 4
level subtract = 4
level left_shift = 5
level right_shift = 5
level less = 6
level less_or_equal = 6
level greater = 6
level greater_or_equal = 6
level equals = 7
level differs = 7
level bitwise_and = 8
level bitwise_xor = 9
level bitwise_or = 10
level logical_and = 11
level logical_or = 12

abbrev pub is_prefix : PpOperator → Bool
is_prefix identity = true
is_prefix negate = true
is_prefix bit_not = true
is_prefix logical_not = true
is_prefix _ = false

abbrev pub is_infix : PpOperator → Bool
is_infix paren_open = false
is_infix identity = false
is_infix negate = false
is_infix bit_not = false
is_infix logical_not = false
is_infix _ = true

pub data Expr : Type 0 where
  operand : PpToken → Expr
  group : PpToken → Expr → PpToken → Expr
  prefixed : PpOperator → PpToken → Expr → Expr
  chained : Expr → PpOperator → PpToken → Expr → Expr

abbrev pub tokens : Expr → List PpToken
tokens (operand t) = t ∷ []
tokens (group l e r) = l ∷ (tokens e ++ (r ∷ []))
tokens (prefixed o t e) = t ∷ tokens e
tokens (chained a o t b) = tokens a ++ (t ∷ tokens b)

abbrev pub literal_value : LiteralValue → Outcome ℤ
literal_value (int32 n) = done (pos n)
literal_value (uint32 n) = done (pos n)
literal_value floating = rejected
literal_value error = rejected

-- Expanded identifiers are gone; one that is left counts as 0.
abbrev pub operand_value : TokenKlass → PpToken → Outcome ℤ
operand_value TokenKlass.number_literal t = literal_value (parse_number_literal t.text)
operand_value TokenKlass.defined_yes t = done (pos 1)
operand_value _ t = done (pos 0)

unfoldable pub meaning : Expr → Outcome ℤ
meaning (operand t) = operand_value t.klass t
meaning (group l e r) = meaning e
meaning (prefixed o t e) = do v ← meaning e; evaluate_pp_operator o v (pos 0)
meaning (chained a o t b) = do v ← meaning a; w ← meaning b; evaluate_pp_operator o v w

abbrev pub rank : Expr → ℕ
rank (operand t) = 0
rank (group l e r) = 0
rank (prefixed o t e) = 2
rank (chained a o t b) = level o

pub data IsOperand : TokenKlass → Type 0 where
  number : IsOperand TokenKlass.number_literal
  yes_defined : IsOperand TokenKlass.defined_yes
  not_defined : IsOperand TokenKlass.defined_no
  name : IsOperand TokenKlass.identifier

-- The tree groups as the table asks: prefix operators take what binds as tight as they do, and
-- infix operators associate to the left.
pub data IsParsed : Expr → Type 0 where
  operand_ok : {t : PpToken} → IsOperand t.klass → IsParsed (operand t)
  group_ok :
      {l r : PpToken} {e : Expr}
      → l.klass ≡ TokenKlass.l_paren
      → IsParsed e
      → r.klass ≡ TokenKlass.r_paren
      → IsParsed (group l e r)
  prefixed_ok :
      {o : PpOperator} {t : PpToken} {e : Expr}
      → is_prefix o ≡ true
      → t.klass ≡ spelling o
      → IsParsed e
      → rank e ≤ 2
      → IsParsed (prefixed o t e)
  chained_ok :
      {a b : Expr} {o : PpOperator} {t : PpToken}
      → is_infix o ≡ true
      → t.klass ≡ spelling o
      → IsParsed a
      → rank a ≤ level o
      → IsParsed b
      → rank b < level o
      → IsParsed (chained a o t b)
