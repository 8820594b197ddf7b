-- ===== src/PpEval/Correct.antt =====
-- The two-stack machine against the grammar: an expression's tokens evaluate to its meaning.
use mathlib.Core.List.{append-nil, append_assoc}
use glsld.Prelude.{
  ◌≤◌, ◌<◌, ◌≡◌, refl, fun_ext, ◌∙◌, sym, ap, inl, inr, true, false, List, [], ◌∷◌, ◌++◌, arith,
}
use glsld.Prelude.Int.{ℤ, pos}
use glsld.Token.{PpToken}
use glsld.PpEval.Arith.{Outcome, done, rejected, undefined, ◌>>=◌, PpOperator, evaluate_pp_operator}
use glsld.PpEval.Grammar.{
  spelling, level, is_prefix, is_infix, Expr, operand, group, prefixed, chained, tokens, meaning,
  rank, IsParsed, operand_ok, group_ok, prefixed_ok, chained_ok,
}
use glsld.PpEval.{
  PpOperatorInfo, stacks, unary, binary, get_paren_pp_operator, reduce_all, run, evaluate,
}
use glsld.PpEval.Reduce.{
  >>=_assoc, Guards, Closes, push_operator-Guards, level_infix, run_cons, accept-infix,
  accept-prefix, reduce_top, reads_operand, Closes-mono, Guards-mono, eval_top-prefix,
  eval_top-infix, not_paren, accept_open, close_group,
}

rank_bound : (e : Expr) → IsParsed e → rank e < 999
rank_bound (operand t) p = omega arith
rank_bound (group l e r) p = omega arith
rank_bound (prefixed o t e) p = omega arith
rank_bound (chained a o t b) (chained_ok h k p la q lb) = (level_infix o h).1

-- An operator that has taken its operands is reduced by what follows.
reduce_prefix :
    (o : PpOperator) (v : ℤ) (vs : List ℤ) (ops : List PpOperatorInfo) (rest : List PpToken)
    → is_prefix o ≡ true
    → Closes 2 rest
    → run true (stacks (v ∷ vs) (unary o ∷ ops)) rest
      ≡ (evaluate_pp_operator o v (pos 0) >>= λ w. run true (stacks (w ∷ vs) ops) rest)
reduce_prefix o v vs ops rest h c =
    reduce_top (unary o) ops (v ∷ vs) rest (not_paren o (inl h)) c
    ∙ simp (eval_top-prefix o v vs h, >>=_assoc)

reduce_infix :
    (o : PpOperator) (v w : ℤ) (vs : List ℤ) (ops : List PpOperatorInfo) (rest : List PpToken)
    → is_infix o ≡ true
    → Closes (level o) rest
    → run true (stacks (w ∷ v ∷ vs) (binary o (level o) ∷ ops)) rest
      ≡ (evaluate_pp_operator o v w >>= λ u. run true (stacks (u ∷ vs) ops) rest)
reduce_infix o v w vs ops rest h c =
    reduce_top (binary o (level o)) ops (w ∷ v ∷ vs) rest (not_paren o (inr h)) c
    ∙ simp (eval_top-infix o v w vs h, >>=_assoc)

>>=_cong {ℓ} :
    {A B : Type ℓ} (m : Outcome A) (f g : A → Outcome B)
    → ((a : A) → f a ≡ g a)
    → (m >>= f) ≡ (m >>= g)
>>=_cong m f g h = rw (fun_ext h)

-- An operator is pushed onto operators that it does not reduce.
push_prefix :
    (o : PpOperator) (t : PpToken) (vs : List ℤ) (ops : List PpOperatorInfo) (rest : List PpToken)
    → is_prefix o ≡ true
    → t.klass ≡ spelling o
    → Guards 2 ops
    → run false (stacks vs ops) (t ∷ rest) ≡ run false (stacks vs (unary o ∷ ops)) rest
push_prefix o t vs ops rest h k g =
    simp (run_cons, accept-prefix o t h k, push_operator-Guards (unary o) ops vs g (inr refl))

push_infix :
    (o : PpOperator) (t : PpToken) (vs : List ℤ) (ops : List PpOperatorInfo) (rest : List PpToken)
    → is_infix o ≡ true
    → t.klass ≡ spelling o
    → Guards (level o) ops
    → run true (stacks vs ops) (t ∷ rest) ≡ run false (stacks vs (binary o (level o) ∷ ops)) rest
push_infix o t vs ops rest h k g = simp (
  run_cons,
  accept-infix o t h k,
  push_operator-Guards (binary o (level o)) ops vs g (inl (level_infix o h).0),
)

two-le-level : (o : PpOperator) → is_infix o ≡ true → 2 ≤ level o
two-le-level o h = omega (arith, (level_infix o h).0)

>>=_done {ℓ} : {A : Type ℓ} (m : Outcome A) → (m >>= done) ≡ m
>>=_done (done a) = refl
>>=_done rejected = refl
>>=_done undefined = refl

-- Reading an expression leaves its meaning on the value stack, whatever follows.
reads :
    {e : Expr} (vs : List ℤ) (ops : List PpOperatorInfo) (rest : List PpToken)
    → IsParsed e
    → Guards (rank e) ops
    → Closes (rank e) rest
    → run false (stacks vs ops) (tokens e ++ rest)
      ≡ (meaning e >>= λ v. run true (stacks (v ∷ vs) ops) rest)
unfolding meaning
reads vs ops rest (operand_ok {t} h) g c = simp (run_cons, reads_operand t vs ops h, >>=_assoc)
reads vs ops rest (group_ok {l} {r} {e} hl p hr) g c =
    let inside = get_paren_pp_operator ∷ ops in
    let bound = rank_bound e p in
    simp (run_cons, accept_open l (stacks vs ops) hl, append_assoc)
      (reads vs inside (r ∷ rest) p (omega arith) (inl hr)
        ∙ >>=_cong (meaning e) _ _ (λ v. close_group r (v ∷ vs) ops rest hr))
reads vs ops rest (prefixed_ok {o} {t} {e} h k p le) g c =
    push_prefix o t vs ops (tokens e ++ rest) h k g
    ∙ reads vs (unary o ∷ ops) rest p (omega arith) (Closes-mono (rank e) 2 rest le c)
    ∙ >>=_cong (meaning e) _ _ (λ v. reduce_prefix o v vs ops rest h c)
    ∙ sym (>>=_assoc (meaning e) _ _)
reads vs ops rest (chained_ok {a} {b} {o} {t} h k p la q lb) g c =
    rw (append_assoc (tokens a) (t ∷ tokens b) rest) (
      reads vs ops (t ∷ (tokens b ++ rest)) p (Guards-mono (rank a) (level o) ops la g)
        (inr (o, h, k, la)))
    ∙ >>=_cong (meaning a) _ _ (λ v.
      push_infix o t (v ∷ vs) ops (tokens b ++ rest) h k g
      ∙ reads (v ∷ vs) (binary o (level o) ∷ ops) rest q ((two-le-level o h), inr lb)
          (Closes-mono (rank b) (level o) rest (omega arith) c)
      ∙ >>=_cong (meaning b) _ _ (λ w. reduce_infix o v w vs ops rest h c)
      ∙ sym (>>=_assoc (meaning b) _ _))
    ∙ sym (>>=_assoc (meaning a) _ _)

-- For every expression that is grouped by the precedence levels and the associativity of the GLSL
-- specification, the evaluator, run on the expression's tokens, returns its meaning: the same
-- value, the same refusal of a literal, or the same undefined operation.
pub evaluate-tokens : (e : Expr) → IsParsed e → evaluate (tokens e) ≡ meaning e
unfolding evaluate run reduce_all
evaluate-tokens e p =
    ap (run false (stacks [] [])) (sym (append-nil (tokens e)))
    ∙ reads [] [] [] p tt tt
    ∙ >>=_cong (meaning e) _ done (λ v. refl)
    ∙ >>=_done (meaning e)
