-- ===== src/Expansion/Outcome.antt =====
-- What a result of the macro expansion satisfies.
pub use glsld.Prelude.{Each, Each-append, Each-take, Each-drop}
pub use glsld.Prelude.Outcome.{Good, Good-bind, Good-guard}
