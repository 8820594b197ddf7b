-- ===== src/Parser/Total.antt =====
-- Parser.cpp: expressions without struct definitions end, without a failed assertion of the parser, if
-- the calls of the AST builder return.
pub mod Ready
pub mod Landing
pub mod Helpers
pub mod Fine
pub mod Infix
pub mod Binary
pub mod Wrapped
pub mod Operands
pub mod Unary
pub mod Knot
