-- ===== src/Overload/Comparison.antt =====
-- The comparison of two candidates is the same seen from either side.
use glsld.Prelude.{ℕ, ◌==◌, Bool, not, ◌||◌, Option, none, some, ltb}
use glsld.Overload.{◌>>=◌}

-- The two counters exchanged.
abbrev swapped : Option (ℕ × ℕ) → Option (ℕ × ℕ)
swapped none = none
swapped (some (n, m)) = some (m, n)

verdict : Option (ℕ × ℕ) → Option Bool
verdict r = r >>= λ r. some (not (r.0 == 0 || ltb 0 r.1))
