-- ===== src/Parser.antt =====
-- glsld-core/include/Compiler/Parser.h and src/Compiler/Parser.cpp: the parser's state, its recovery
-- from errors, and expressions with the types in them.
pub mod Tokens
pub mod Syntax
pub mod Recovery
pub mod Operators
pub mod Calls
pub mod Exprs
pub mod Qualifiers
pub mod Types
pub mod Postfix
pub mod Run
pub mod Total
pub mod Hang
pub mod Growth
pub mod Grouping
pub mod Tests
