-- ===== src/Parser/Syntax.antt =====
-- The calls of the AST builder (include/Compiler/AstBuilder.h) for expressions and what they have in
-- them: a node stands for a call that returns it. What the builder computes for a node is not modelled,
-- and neither are its own assertions, on which a call ends the program instead: the product of a matrix
-- of `float` and a vector of `bool` is such a call (AstBuilder.cpp, line 583). The operators are those of Language/Semantic.h. A
-- missing token or node is none.
use glsld.Prelude.{ℕ, List, Option}
use glsld.Token.{Bytes}
use glsld.Parser.Tokens.{AstSyntaxToken, SyntaxRange}

pub data UnaryOp : Type 0 where
  identity negate bitwise_not logical_not prefix_inc prefix_dec postfix_inc postfix_dec length :
      UnaryOp

pub data BinaryOp : Type 0 where
  comma : BinaryOp
  assign mul_assign div_assign mod_assign add_assign sub_assign : BinaryOp
  l_shift_assign r_shift_assign and_assign xor_assign or_assign : BinaryOp
  plus minus mul div modulo equal not_equal less less_eq greater greater_eq : BinaryOp
  bitwise_and bitwise_or bitwise_xor logical_and logical_or logical_xor shift_left shift_right :
      BinaryOp

-- The text of a number stands for the value that `ParseNumberLiteral` reads in it.
pub data Literal : Type 0 where
  number : Bytes → Literal
  boolean_true boolean_false : Literal

-- A flag of `QualifierGroup` is the keyword that sets it.
mutual
  pub data Expr : Type 0 where
    error_expr : SyntaxRange → Expr
    literal_expr : SyntaxRange → Literal → Expr
    name_access_expr : SyntaxRange → AstSyntaxToken → Expr
    index_access_expr : SyntaxRange → Expr → Expr → Expr
    dot_access_expr : SyntaxRange → Expr → Option AstSyntaxToken → Expr
    unary_expr : SyntaxRange → Expr → UnaryOp → Expr
    binary_expr : SyntaxRange → Expr → Expr → BinaryOp → Expr
    select_expr : SyntaxRange → Expr → Expr → Expr → Expr
    function_call_expr : SyntaxRange → AstSyntaxToken → Exprs → Expr
    constructor_call_expr : SyntaxRange → QualType → Exprs → Expr

  pub data Exprs : Type 0 where
    no_exprs : Exprs
    expr_and : Expr → Exprs → Exprs

  pub data Sizes : Type 0 where
    no_sizes : Sizes
    unsized : Sizes → Sizes
    sized : Expr → Sizes → Sizes

  pub data ArraySpec : Type 0 where
    no_array_spec : ArraySpec
    array_spec : SyntaxRange → Sizes → ArraySpec

  pub data QualifierSeq : Type 0 where
    no_qualifiers : QualifierSeq
    qualifier_seq : SyntaxRange → List ℕ → LayoutItems → QualifierSeq

  pub data LayoutItems : Type 0 where
    no_items : LayoutItems
    item : Option AstSyntaxToken → LayoutItems → LayoutItems
    item_value : Option AstSyntaxToken → Expr → LayoutItems → LayoutItems

  pub data QualType : Type 0 where
    named_type : SyntaxRange → QualifierSeq → Option AstSyntaxToken → ArraySpec → QualType
    struct_type : SyntaxRange → QualifierSeq → StructDecl → ArraySpec → QualType

  pub data StructDecl : Type 0 where
    struct_decl : SyntaxRange → Option AstSyntaxToken → StructFields → StructDecl

  pub data StructFields : Type 0 where
    no_fields : StructFields
    struct_field : SyntaxRange → QualType → Declarators → StructFields → StructFields

  pub data Declarators : Type 0 where
    no_declarators : Declarators
    declarator : Option AstSyntaxToken → ArraySpec → Declarators → Declarators

abbrev pub expr_range : Expr → SyntaxRange
expr_range (error_expr r) = r
expr_range (literal_expr r l) = r
expr_range (name_access_expr r t) = r
expr_range (index_access_expr r e f) = r
expr_range (dot_access_expr r e t) = r
expr_range (unary_expr r e op) = r
expr_range (binary_expr r e f op) = r
expr_range (select_expr r e f g) = r
expr_range (function_call_expr r t es) = r
expr_range (constructor_call_expr r t es) = r

abbrev pub type_range : QualType → SyntaxRange
type_range (named_type r q t a) = r
type_range (struct_type r q s a) = r
