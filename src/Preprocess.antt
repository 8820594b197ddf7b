-- ===== src/Preprocess.antt =====
-- glsld-core/src/Compiler/Preprocessor.cpp: the preprocessor.
pub mod Atoms
pub mod Defs
pub mod Steps
pub mod Dispatch
pub mod Safety
pub mod Run
pub mod Skip
pub mod Tests
