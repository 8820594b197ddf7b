-- ===== src/Parser/Grouping/Unique.antt =====
-- The order of the operators leaves one way to group them.
use glsld.Prelude.{
  ℕ, ◌+◌, ◌≤◌, ◌≡◌, ◌⊎◌, inl, inr, refl, sym, List, [], ◌∷◌, ◌++◌, Each, Each-append, arith,
}
use mathlib.Core.Path.{subst}
use glsld.Token.{Bytes}
use glsld.Parser.Syntax.{Expr, BinaryOp}
use glsld.Parser.Grouping.{level, IsGrouped, IsGrouped-weaken, Word, words}

-- The same names and operators, grouped in the same way, wherever they stand.
unfoldable pub SameShape : Expr → Expr → Type 0
SameShape (Expr.name_access_expr r t) (Expr.name_access_expr r' t') = t.text ≡ t'.text
SameShape (Expr.binary_expr r a b op) (Expr.binary_expr r' a' b' op') =
    (op ≡ op') × (SameShape a a' × SameShape b b')
SameShape e e' = ⊥

-- How the same list is split twice.
abbrev Splits : {A : Type 0} → List A → A → List A → List A → A → List A → Type 0
Splits xs x ys xs' x' ys' =
    ((xs ≡ xs') × ((x ≡ x') × (ys ≡ ys')))
    ⊎ (((zs : List _) × ((xs' ≡ xs ++ (x ∷ zs)) × (ys ≡ zs ++ (x' ∷ ys'))))
        ⊎ ((zs : List _) × ((xs ≡ xs' ++ (x' ∷ zs)) × (ys' ≡ zs ++ (x ∷ ys)))))

split_cases :
    {A : Type 0} (xs : List A) (x : A) (ys xs' : List A) (x' : A) (ys' : List A)
    → xs ++ (x ∷ ys) ≡ xs' ++ (x' ∷ ys')
    → Splits xs x ys xs' x' ys'
split_cases [] x ys [] x' ys' h = inl (refl, (cc, cc))
split_cases [] x ys (y ∷ xs') x' ys' h = inr (inl (xs', (cc, cc)))
split_cases (y ∷ xs) x ys [] x' ys' h = inr (inr (xs, (cc, cc)))
split_cases (y ∷ xs) x ys (y' ∷ xs') x' ys' h = elim (split_cases xs x ys xs' x' ys' cc) [
  | inl s ↦ inl (cc, s.1)
  | inr (inl s) ↦ inr (inl (s.0, (cc, s.1.1)))
  | inr (inr s) ↦ inr (inr (s.0, (cc, s.1.1)))
]

Binds : ℕ → Word → Type 0
unfolding level
Binds n (inl op) = n ≤ level op
Binds n (inr t) = Unit

Each_at :
    {A : Type 0} (P : A → Type 0) (xs : List A) (x : A) (ys : List A)
    → Each P (xs ++ (x ∷ ys))
    → P x
Each_at P [] x ys h = h.0
Each_at P (z ∷ xs) x ys h = Each_at P xs x ys h.1

words-Binds : (n : ℕ) (e : Expr) → IsGrouped n e → Each (Binds n) (words e)
unfolding IsGrouped words Binds
words-Binds n (Expr.name_access_expr r t) g = (tt, tt)
words-Binds n (Expr.binary_expr r a b op) g =
    Each-append (Binds n) (words a) (inl op ∷ words b)
      (words-Binds n a (IsGrouped-weaken n (level op) a g.0 g.1.0))
      (g.0, words-Binds n b (IsGrouped-weaken n (level op + 1) b (omega (arith, g.0)) g.1.1))
words-Binds n (Expr.error_expr r) g = absurd g
words-Binds n (Expr.literal_expr r x) g = absurd g
words-Binds n (Expr.index_access_expr r a b) g = absurd g
words-Binds n (Expr.dot_access_expr r a t) g = absurd g
words-Binds n (Expr.unary_expr r a op) g = absurd g
words-Binds n (Expr.select_expr r a b c) g = absurd g
words-Binds n (Expr.function_call_expr r t args) g = absurd g
words-Binds n (Expr.constructor_call_expr r t args) g = absurd g

-- An operator that stands above another one cannot stand below it.
no_other :
    (a b a' b' : Expr) (op op' : BinaryOp) (zs : List Word)
    → IsGrouped (level op + 1) b
    → IsGrouped (level op') a'
    → words a' ≡ words a ++ (inl op ∷ zs)
    → words b ≡ zs ++ (inl op' ∷ words b')
    → ⊥
unfolding Binds
no_other a b a' b' op op' zs gb ga ea eb =
    let low : level op' ≤ level op =
      Each_at (Binds (level op')) (words a) (inl op) zs
        (subst (Each (Binds (level op'))) ea (words-Binds (level op') a' ga)) in
    let high : level op + 1 ≤ level op' =
      Each_at (Binds (level op + 1)) zs (inl op') (words b')
        (subst (Each (Binds (level op + 1))) eb (words-Binds (level op + 1) b gb)) in
    omega (arith, low, high)

name_not_binary :
    (t : Bytes) (xs : List Word) (op : BinaryOp) (ys : List Word)
    → inr t ∷ [] ≡ xs ++ (inl op ∷ ys)
    → ⊥
name_not_binary t [] op ys h = cc
name_not_binary t (x ∷ []) op ys h = cc
name_not_binary t (x ∷ (y ∷ xs)) op ys h = cc

-- Two grouped trees with the same words are the same.
pub same_words :
    (m n : ℕ) (e e' : Expr) → IsGrouped m e → IsGrouped n e' → words e ≡ words e' → SameShape e e'
unfolding IsGrouped words SameShape
same_words m n (Expr.name_access_expr r t) (Expr.name_access_expr r' t') g g' h = cc
same_words m n (Expr.name_access_expr r t) (Expr.binary_expr r' a' b' op') g g' h =
    name_not_binary t.text (words a') op' (words b') h
same_words m n (Expr.binary_expr r a b op) (Expr.name_access_expr r' t') g g' h =
    name_not_binary t'.text (words a) op (words b) (sym h)
same_words m n (Expr.binary_expr r a b op) (Expr.binary_expr r' a' b' op') g g' h =
    elim (split_cases (words a) (inl op) (words b) (words a') (inl op') (words b') h) [
      | inl s ↦ (
        cc,
        (
          same_words (level op) (level op') a a' g.1.0 g'.1.0 s.0,
          same_words (level op + 1) (level op' + 1) b b' g.1.1 g'.1.1 s.1.1,
        ),
      )
      | inr (inl s) ↦ absurd (no_other a b a' b' op op' s.0 g.1.1 g'.1.0 s.1.0 s.1.1)
      | inr (inr s) ↦ absurd (no_other a' b' a b op' op s.0 g'.1.1 g.1.0 s.1.0 s.1.1)
    ]
same_words m n (Expr.name_access_expr r t) e' g g' h = g'
same_words m n (Expr.binary_expr r a b op) e' g g' h = g'
same_words m n e e' g g' h = g
