-- ===== src/Expansion.antt =====
-- glsld-core/src/Compiler/Preprocessor.cpp, lines 12 to 300, and include/Compiler/Preprocessor.h: macro
-- expansion.
pub mod State
pub mod Body
pub mod Feed
pub mod Outcome
pub mod Disabled
pub mod Sound
pub mod Fed
pub mod Bodies
pub mod Total
pub mod Reference
pub mod ObjectLike
pub mod Tests
