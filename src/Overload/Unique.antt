-- ===== src/Overload/Unique.antt =====
-- A candidate that is better than all the others is the one that a call resolves to.
use glsld.Prelude.{◌==◌, ◌≡◌, false, List, [], ◌∷◌, some}
use glsld.GlslType.{TypeDesc}
use glsld.Overload.{FunctionSymbolEntry, is_always_better}

-- Entries at other addresses.
abbrev pub AllApart : FunctionSymbolEntry → List FunctionSymbolEntry → Type 0
AllApart c [] = Unit
AllApart c (x ∷ xs) = ((c.address == x.address) ≡ false) × AllApart c xs

abbrev AllLose : List TypeDesc → List FunctionSymbolEntry → List FunctionSymbolEntry → Type 0
AllLose args all [] = Unit
AllLose args all (x ∷ xs) = (is_always_better args x all ≡ some false) × AllLose args all xs
