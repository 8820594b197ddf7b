-- ===== src/Parser/Grouping.antt =====
-- How binary operators are grouped: a chain of names with operators between them, the order of the
-- operators, and the trees that obey it.
pub mod Operand
pub mod Links
pub mod Chain
pub mod Unique
pub mod Whole
use mathlib.Core.Path.{subst}
use glsld.Prelude.{
  ℕ, ◌+◌, ◌≤◌, ◌≡◌, ◌⊎◌, inl, inr, refl, Bool, true, false, List, [], ◌∷◌, ◌++◌, Option, none, some,
  Each, arith,
}
use glsld.Token.{TokenKlass, Bytes, is_klass}
use glsld.Parser.Tokens.{RawSyntaxToken}
use glsld.Parser.Syntax.{Expr, BinaryOp}
use glsld.Parser.Operators.{BinaryOpDesc, try_parse_binary_op}

-- How tightly an operator binds, from the weakest. Commas and assignments are not among these operators.
unfoldable pub level : BinaryOp → ℕ
level BinaryOp.logical_or = 0
level BinaryOp.logical_xor = 1
level BinaryOp.logical_and = 2
level BinaryOp.bitwise_or = 3
level BinaryOp.bitwise_xor = 4
level BinaryOp.bitwise_and = 5
level BinaryOp.equal = 6
level BinaryOp.not_equal = 6
level BinaryOp.less = 7
level BinaryOp.greater = 7
level BinaryOp.less_eq = 7
level BinaryOp.greater_eq = 7
level BinaryOp.shift_left = 8
level BinaryOp.shift_right = 8
level BinaryOp.plus = 9
level BinaryOp.minus = 9
level BinaryOp.mul = 10
level BinaryOp.div = 10
level BinaryOp.modulo = 10
level op = 0

-- A tree of names whose operators bind at least so tightly, those of the right operand more tightly than
-- the operator itself, and those of the left operand at least as tightly.
unfoldable pub IsGrouped : ℕ → Expr → Type 0
unfolding level
IsGrouped n (Expr.name_access_expr r t) = Unit
IsGrouped n (Expr.binary_expr r a b op) =
    (n ≤ level op) × (IsGrouped (level op) a × IsGrouped (level op + 1) b)
IsGrouped n e = ⊥

abbrev pub Word : Type 0
Word = BinaryOp ⊎ Bytes

-- The names and operators of a tree from left to right.
unfoldable pub words : Expr → List Word
words (Expr.name_access_expr r t) = inr t.text ∷ []
words (Expr.binary_expr r a b op) = words a ++ (inl op ∷ words b)
words e = []

-- An operator and the name behind it.
pub record Link : Type 0 where
  pub operator : RawSyntaxToken
  pub desc : BinaryOpDesc
  pub operand : RawSyntaxToken

pub record IsLink (is_struct_name : Bytes → Bool) (l : Link) : Type 0 where
  pub operator_read : try_parse_binary_op l.operator.klass ≡ some l.desc
  pub name : is_klass l.operand.klass TokenKlass.identifier ≡ true
  pub no_struct_name : is_struct_name l.operand.text ≡ false

unfoldable pub chain_tokens : List Link → List RawSyntaxToken → List RawSyntaxToken
chain_tokens [] rest = rest
chain_tokens (l ∷ ls) rest = l.operator ∷ (l.operand ∷ chain_tokens ls rest)

unfoldable pub chain_words : List Link → List Word
chain_words [] = []
chain_words (l ∷ ls) = inl l.desc.opcode ∷ (inr l.operand.text ∷ chain_words ls)

HasLevel : Option BinaryOpDesc → Type 0
unfolding level
HasLevel none = Unit
HasLevel (some d) = level d.opcode ≡ d.precedence

operator-HasLevel : (k : TokenKlass) → HasLevel (try_parse_binary_op k)
unfolding HasLevel try_parse_binary_op level
operator-HasLevel TokenKlass.or = refl
operator-HasLevel TokenKlass.xor = refl
operator-HasLevel TokenKlass.and = refl
operator-HasLevel TokenKlass.vertical_bar = refl
operator-HasLevel TokenKlass.caret = refl
operator-HasLevel TokenKlass.ampersand = refl
operator-HasLevel TokenKlass.equal = refl
operator-HasLevel TokenKlass.not_equal = refl
operator-HasLevel TokenKlass.l_angle = refl
operator-HasLevel TokenKlass.r_angle = refl
operator-HasLevel TokenKlass.less_eq = refl
operator-HasLevel TokenKlass.greater_eq = refl
operator-HasLevel TokenKlass.l_shift = refl
operator-HasLevel TokenKlass.r_shift = refl
operator-HasLevel TokenKlass.plus = refl
operator-HasLevel TokenKlass.dash = refl
operator-HasLevel TokenKlass.star = refl
operator-HasLevel TokenKlass.slash = refl
operator-HasLevel TokenKlass.percent = refl
operator-HasLevel k = tt

pub operator_level :
    (k : TokenKlass) (d : BinaryOpDesc)
    → try_parse_binary_op k ≡ some d
    → level d.opcode ≡ d.precedence
unfolding HasLevel
operator_level k d h = subst HasLevel h (operator-HasLevel k)

pub IsGrouped-weaken : (m n : ℕ) (e : Expr) → m ≤ n → IsGrouped n e → IsGrouped m e
unfolding IsGrouped
IsGrouped-weaken m n (Expr.name_access_expr r t) l h = h
IsGrouped-weaken m n (Expr.binary_expr r a b op) l h = (omega (arith, l, h.0), h.1)
IsGrouped-weaken m n (Expr.error_expr r) l h = h
IsGrouped-weaken m n (Expr.literal_expr r x) l h = h
IsGrouped-weaken m n (Expr.index_access_expr r a b) l h = h
IsGrouped-weaken m n (Expr.dot_access_expr r a t) l h = h
IsGrouped-weaken m n (Expr.unary_expr r a op) l h = h
IsGrouped-weaken m n (Expr.select_expr r a b c) l h = h
IsGrouped-weaken m n (Expr.function_call_expr r t args) l h = h
IsGrouped-weaken m n (Expr.constructor_call_expr r t args) l h = h
