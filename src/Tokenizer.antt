-- ===== src/Tokenizer.antt =====
-- glsld-core/include/Compiler/Tokenizer.h and src/Compiler/Tokenizer.cpp: the tokenizer of a source
-- file.
pub mod Loop
pub mod Cursor
pub mod Parts
pub mod Lex
pub mod Progress
pub mod Behind
pub mod Total
pub mod Words
pub mod RoundTrip
pub mod Tests
