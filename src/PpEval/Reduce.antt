-- ===== src/PpEval/Reduce.antt =====
-- Steps of the two-stack machine: what one token does, and when operators on the stack are applied.
use glsld.Prelude.{
  ℕ, ◌≤◌, ◌<◌, ◌≡◌, refl, ◌⊎◌, inl, inr, Bool, true, false, List, [], ◌∷◌, some, arith,
}
use glsld.Prelude.Int.{ℤ, pos}
use glsld.Token.{PpToken, TokenKlass}
use glsld.Literal.{LiteralValue, int32, uint32, floating, error, parse_number_literal}
use glsld.PpEval.Arith.{
  Outcome, done, rejected, undefined, ◌>>=◌, PpOperator, multiply, identity, evaluate_pp_operator,
}
use glsld.PpEval.Grammar.{
  spelling, level, is_prefix, is_infix, literal_value, operand_value, IsOperand, number,
  yes_defined, not_defined, name,
}
use glsld.PpEval.{
  PpOperatorInfo, Evaluator, stacks, unary, binary, get_paren_pp_operator, is_paren, eval_top,
  push_literal, enter, pop_unary, pop_binary, push_operator, close_paren, reduce_all, single_value,
  push_parsed, accept_operator, accept_operand, accept, run,
}

pub >>=_assoc {ℓ} :
    {A B C : Type ℓ} (m : Outcome A) (f : A → Outcome B) (g : B → Outcome C)
    → (m >>= f >>= g) ≡ (m >>= λ a. f a >>= g)
>>=_assoc (done a) f g = refl
>>=_assoc rejected f g = refl
>>=_assoc undefined f g = refl

pub accept_operator-spelling :
    (o : PpOperator) (e : Evaluator)
    → is_infix o ≡ true
    → accept_operator (spelling o) e ≡ push_parsed (some (binary o (level o))) e
unfolding accept_operator
accept_operator-spelling multiply e h = refl
accept_operator-spelling _ e h = ground arith

pub accept_operand-spelling :
    (o : PpOperator) (t : PpToken) (e : Evaluator)
    → is_prefix o ≡ true
    → accept_operand (spelling o) t e ≡ push_parsed (some (unary o)) e
unfolding accept_operand
accept_operand-spelling identity t e h = refl
accept_operand-spelling _ t e h = ground arith

-- What stands on top of the operators when an expression of rank `n` begins: nothing that the
-- operators of the expression would reduce.
abbrev pub Guards : ℕ → List PpOperatorInfo → Type 0
Guards n [] = Unit {0}
Guards n (top ∷ ops) = (2 ≤ top.precedence) × ((n ≤ 2) ⊎ (n < top.precedence))

-- What may follow an expression of rank `n`: the end, a closing parenthesis, or an operator that
-- binds no tighter.
abbrev pub Closes : ℕ → List PpToken → Type 0
Closes n [] = Unit {0}
Closes n (t ∷ ts) =
    (t.klass ≡ TokenKlass.r_paren)
    ⊎ ((o : PpOperator) × (is_infix o ≡ true) × (t.klass ≡ spelling o) × (n ≤ level o))

pub push_operator-Guards :
    (i : PpOperatorInfo) (ops : List PpOperatorInfo) (vs : List ℤ)
    → Guards i.precedence ops
    → (3 ≤ i.precedence) ⊎ (i.is_unary ≡ true)
    → push_operator i ops vs ≡ done (stacks vs (i ∷ ops))
unfolding push_operator
push_operator-Guards i [] vs g u = refl
push_operator-Guards i (top ∷ ops) vs g u = ground arith

pub level_infix : (o : PpOperator) → is_infix o ≡ true → (3 ≤ level o) × (level o < 999)
level_infix multiply h = omega arith
level_infix _ h = ground arith

pub close_paren_top :
    (i : PpOperatorInfo) (ops : List PpOperatorInfo) (vs : List ℤ)
    → is_paren i.op ≡ false
    → close_paren (i ∷ ops) vs ≡ (eval_top i vs >>= close_paren ops)
unfolding close_paren
close_paren_top i ops vs h = rw h

pub push_operator_top :
    (j i : PpOperatorInfo) (ops : List PpOperatorInfo) (vs : List ℤ)
    → i.precedence ≤ j.precedence
    → j.is_unary ≡ false
    → push_operator j (i ∷ ops) vs ≡ (eval_top i vs >>= push_operator j ops)
unfolding push_operator
push_operator_top j i ops vs h b = ground arith

pub run_nil :
    (b : Bool) (e : Evaluator)
    → run b e [] ≡ (reduce_all e.operator_stack e.value_stack >>= single_value)
unfolding run
run_nil b e = refl

pub run_cons :
    (b : Bool) (e : Evaluator) (t : PpToken) (ts : List PpToken)
    → run b e (t ∷ ts) ≡ (accept b t e >>= λ r. run r.0 r.1 ts)
unfolding run
run_cons b e t ts = refl

pub accept-infix :
    (o : PpOperator) (t : PpToken)
    → is_infix o ≡ true
    → t.klass ≡ spelling o
    → (e : Evaluator) → accept true t e ≡ push_parsed (some (binary o (level o))) e
unfolding accept
accept-infix o t h k e = rw k (accept_operator-spelling o e h)

pub accept-prefix :
    (o : PpOperator) (t : PpToken)
    → is_prefix o ≡ true
    → t.klass ≡ spelling o
    → (e : Evaluator) → accept false t e ≡ push_parsed (some (unary o)) e
unfolding accept
accept-prefix o t h k e = simp k (accept_operand-spelling o t e h)

pub accept_close :
    (t : PpToken)
    → t.klass ≡ TokenKlass.r_paren
    → (e : Evaluator) → accept true t e ≡ enter true (close_paren e.operator_stack e.value_stack)
unfolding accept
accept_close t k e = rw k

-- The operator on top is reduced as soon as the next token, or the end, is seen.
pub reduce_top :
    (i : PpOperatorInfo) (ops : List PpOperatorInfo) (vs : List ℤ) (rest : List PpToken)
    → is_paren i.op ≡ false
    → Closes i.precedence rest
    → run true (stacks vs (i ∷ ops)) rest ≡ (eval_top i vs >>= λ ws. run true (stacks ws ops) rest)
reduce_top i ops vs [] p c =
    simp run_nil (unfold reduce_all in >>=_assoc (eval_top i vs) (reduce_all ops) single_value)
reduce_top i ops vs (t ∷ ts) p (inl r) =
    simp (run_cons, accept_close t r, close_paren_top i ops vs p, >>=_assoc)
reduce_top i ops vs (t ∷ ts) p (inr (o, inf, k, le)) = simp (
  run_cons,
  accept-infix o t inf k,
  push_operator_top (binary o (level o)) i ops vs le refl,
  >>=_assoc,
)

pub reads_operand :
    (t : PpToken) (vs : List ℤ) (ops : List PpOperatorInfo)
    → IsOperand t.klass
    → accept false t (stacks vs ops)
      ≡ (operand_value t.klass t >>= λ v. done (true, stacks (v ∷ vs) ops))
unfolding accept
reads_operand t vs ops h = by_klass t.klass h
  where
    by_literal :
        (l : LiteralValue)
        → push_literal l (stacks vs ops)
          ≡ (literal_value l >>= λ v. done (true, stacks (v ∷ vs) ops))
    by_literal (int32 n) = refl
    by_literal (uint32 n) = refl
    by_literal floating = refl
    by_literal error = refl

    by_klass :
        (k : TokenKlass)
        → IsOperand k
        → accept_operand k t (stacks vs ops)
          ≡ (operand_value k t >>= λ v. done (true, stacks (v ∷ vs) ops))
    by_klass k number = by_literal (parse_number_literal t.text)
    by_klass k yes_defined = refl
    by_klass k not_defined = refl
    by_klass k name = refl

pub Closes-mono : (m n : ℕ) (rest : List PpToken) → m ≤ n → Closes n rest → Closes m rest
Closes-mono m n [] h c = tt
Closes-mono m n (t ∷ ts) h (inl r) = inl r
Closes-mono m n (t ∷ ts) h (inr (o, inf, k, le)) = inr (o, inf, k, omega arith)

pub Guards-mono : (m n : ℕ) (ops : List PpOperatorInfo) → m ≤ n → Guards n ops → Guards m ops
Guards-mono m n [] h g = tt
Guards-mono m n (top ∷ ops) h g = omega arith

pub eval_top-prefix :
    (o : PpOperator) (v : ℤ) (vs : List ℤ)
    → is_prefix o ≡ true
    → eval_top (unary o) (v ∷ vs) ≡ (evaluate_pp_operator o v (pos 0) >>= λ w. done (w ∷ vs))
unfolding eval_top pop_unary
eval_top-prefix identity v vs h = refl
eval_top-prefix _ v vs h = ground arith

pub eval_top-infix :
    (o : PpOperator) (v w : ℤ) (vs : List ℤ)
    → is_infix o ≡ true
    → eval_top (binary o (level o)) (w ∷ v ∷ vs)
      ≡ (evaluate_pp_operator o v w >>= λ u. done (u ∷ vs))
unfolding eval_top pop_binary
eval_top-infix multiply v w vs h = refl
eval_top-infix _ v w vs h = ground arith

pub not_paren : (o : PpOperator) → (is_prefix o ≡ true) ⊎ (is_infix o ≡ true) → is_paren o ≡ false
not_paren identity h = refl
not_paren _ h = ground arith

pub accept_open :
    (t : PpToken) (e : Evaluator)
    → t.klass ≡ TokenKlass.l_paren
    → accept false t e
      ≡ done (false, stacks e.value_stack (get_paren_pp_operator ∷ e.operator_stack))
unfolding accept
accept_open t e k = simp k

pub close_group :
    (t : PpToken) (vs : List ℤ) (ops : List PpOperatorInfo) (rest : List PpToken)
    → t.klass ≡ TokenKlass.r_paren
    → run true (stacks vs (get_paren_pp_operator ∷ ops)) (t ∷ rest) ≡ run true (stacks vs ops) rest
close_group t vs ops rest k = simp (run_cons, accept_close t k) (unfold close_paren in refl)
