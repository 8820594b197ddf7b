-- ===== src/Symbols/Leaving.antt =====
-- Scopes that are entered and left.
use glsld.Prelude.{
  ℕ, zero, suc, ◌+◌, ◌-◌, ◌≤◌, ◌<◌, ◌≡◌, refl, ap, ◌∙◌, Bool, true, false, List, ◌∷◌, Option, none,
  some, reverse, drop, length, arith, lt→ltb,
}
use glsld.Token.{Bytes}
use glsld.Overload.{FunctionSymbolEntry, ◌>>=◌}
use glsld.Symbols.{
  Declaration, SymbolTableLevel, new_level, add_decl, SymbolTable, declare, get_global_levels,
  push_level, pop_level, scope_of, get_candidates, candidates_in, Item, Block, run_item, run_block,
  declaration, in_scope, end, then_item,
}

abbrev table : ℕ → List SymbolTableLevel → SymbolTable
table n ls = record { imported_level_count = n; levels = ls }

-- Only the current level has changed.
abbrev Keeps : ℕ → List SymbolTableLevel → Option SymbolTable → Type 0
Keeps n ls o = (l : SymbolTableLevel) × (o ≡ some (table n (l ∷ ls)))

push_level-scope_of :
    (is_function : Bool) (n : ℕ) (ls : List SymbolTableLevel)
    → push_level (scope_of is_function) (table n ls)
      ≡ some (table n (new_level (scope_of is_function) ∷ ls))
unfolding push_level
push_level-scope_of true n ls = refl
push_level-scope_of false n ls = refl

pop_level-table :
    (n : ℕ) (l : SymbolTableLevel) (ls : List SymbolTableLevel)
    → n + 1 ≤ length ls
    → pop_level (table n (l ∷ ls)) ≡ some (table n ls)
unfolding pop_level
pop_level-table n l ls h = rw (lt→ltb (n + 1) (suc (length ls)) (omega (arith, h))) refl

scope_left :
    (b : Bool) (body : Block) (n : ℕ) (ls : List SymbolTableLevel)
    → n + 1 ≤ length ls
    → Keeps n ls (run_block body (table n (new_level (scope_of b) ∷ ls)))
    → run_item (in_scope b body) (table n ls) ≡ some (table n ls)
unfolding run_item
scope_left b body n ls h (l, e) =
    ap (λ m. m >>= λ t. run_block body t >>= λ t'. pop_level t') (push_level-scope_of b n ls)
    ∙ ap (λ m. m >>= λ t'. pop_level t') e
    ∙ pop_level-table n l ls h

then_Keeps :
    (i : Item) (b : Block) (n : ℕ) (l : SymbolTableLevel) (ls : List SymbolTableLevel)
    → Keeps n ls (run_item i (table n (l ∷ ls)))
    → ((l' : SymbolTableLevel) → Keeps n ls (run_block b (table n (l' ∷ ls))))
    → Keeps n ls (run_block (then_item i b) (table n (l ∷ ls)))
unfolding run_item
then_Keeps i b n l ls (l', e) k = ((k l').0, ap (λ m. m >>= λ t. run_block b t) e ∙ (k l').1)

mutual
  unfolding run_item declare

  run_item-Keeps :
      (i : Item) (n : ℕ) (l : SymbolTableLevel) (ls : List SymbolTableLevel)
      → n + 1 ≤ length (l ∷ ls)
      → Keeps n ls (run_item i (table n (l ∷ ls)))
  run_item-Keeps (declaration d) n l ls h = (add_decl d l, refl)
  run_item-Keeps (in_scope b body) n l ls h = (
    l,
    scope_left b body n (l ∷ ls) h
        (run_block-Keeps body n (new_level (scope_of b)) (l ∷ ls) (omega (arith, h))),
  )

  run_block-Keeps :
      (b : Block) (n : ℕ) (l : SymbolTableLevel) (ls : List SymbolTableLevel)
      → n + 1 ≤ length (l ∷ ls)
      → Keeps n ls (run_block b (table n (l ∷ ls)))
  run_block-Keeps end n l ls h = (l, refl)
  run_block-Keeps (then_item i b) n l ls h =
      then_Keeps i b n l ls (run_item-Keeps i n l ls h) (λ l'. run_block-Keeps b n l' ls h)

-- The global levels are there.
abbrev pub HasGlobals : SymbolTable → Type 0
HasGlobals t = t.imported_level_count + 1 ≤ length t.levels

-- Whatever is declared in the scope of a function or a block, and whatever scopes are nested in it, no
-- assertion fails, and the symbol table behind the scope is the one before it.
pub scope-restores :
    (is_function : Bool) (body : Block) (t : SymbolTable)
    → HasGlobals t
    → run_item (in_scope is_function body) t ≡ some t
scope-restores is_function body t h =
    scope_left is_function body t.imported_level_count t.levels h (
      run_block-Keeps body t.imported_level_count (new_level (scope_of is_function)) t.levels
        (omega (arith, h)))

abbrev pub candidates_behind : Option SymbolTable → Bytes → Option (List FunctionSymbolEntry)
candidates_behind none name = none
candidates_behind (some t) name = some (get_candidates t name)

drop_shorter :
    {A : Type 0} (k : ℕ) (a b : A) (xs : List A) → 0 < k → drop k (a ∷ xs) ≡ drop k (b ∷ xs)
drop_shorter zero a b xs h = absurd (omega arith)
drop_shorter (suc k) a b xs h = refl

-- A declaration in the scope of a function or a block changes the candidates of no call: functions
-- are looked up in the global levels only.
pub get_candidates-declare :
    (d : Declaration) (n : ℕ) (l : SymbolTableLevel) (ls : List SymbolTableLevel) (name : Bytes)
    → n + 1 ≤ length ls
    → candidates_behind (declare d (table n (l ∷ ls))) name
      ≡ some (get_candidates (table n (l ∷ ls)) name)
unfolding declare get_candidates get_global_levels
get_candidates-declare d n l ls name h =
    ap (λ levels. some (candidates_in (reverse levels) name))
      (drop_shorter (length (l ∷ ls) - (n + 1)) (add_decl d l) l ls (omega (arith, h)))
