-- ===== src/Preprocess/Run.antt =====
-- Whole runs of the preprocessor's machine: `FeedPPToken` and the loop of `PreprocessSourceFile`.
use glsld.Prelude.{
  ◌≡◌, refl, ◌∙◌, Bool, true, false, List, [], ◌∷◌, Option, none, some, arith, inl, inr, Bool-cases,
  if◌then◌else◌, ◌⊎◌,
}
use glsld.Token.{PpToken, TokenKlass, is_klass, klass_index}
use glsld.Preprocess.Defs.{PreprocessorState, default, inactive, Services, Machine}
use glsld.Preprocess.Steps.{
  ◌>>=◌, dispatch_token_to_handler, dispatch_token_in, transition_to_halt_state, flush_trivia,
  end_file, feed_pp_token, is_halted, is_fed, preprocess_tokens, accept_on_default_state,
  accept_on_inactive_state,
}
use glsld.Preprocess.Safety.{IsSound, Runs, dispatch_token_in-IsSound}

-- No token of the list ends the file.
abbrev pub HasNoEof : List PpToken → Type 0
HasNoEof [] = Unit
HasNoEof (t ∷ ts) = (is_klass t.klass TokenKlass.eof ≡ false) × HasNoEof ts

eof_not_comment :
    (k : TokenKlass) → is_klass k TokenKlass.eof ≡ true → is_klass k TokenKlass.comment ≡ false
unfolding is_klass klass_index
eof_not_comment k e = ground arith

module _ (s : Services) where
  flush_trivia-IsSound :
      (t : PpToken) (m : Machine s) → IsSound s m → IsSound s (flush_trivia s t m)
  unfolding flush_trivia
  flush_trivia-IsSound t m h = record {
    nested = h.nested;
    region = h.region;
    buffered = h.buffered;
    running = h.running;
  }

  dispatch_token-IsSound :
      (t : PpToken) (m : Machine s)
      → IsSound s m
      → Runs (IsSound s) (dispatch_token_to_handler s t m)
  unfolding dispatch_token_to_handler
  dispatch_token-IsSound t m h = dispatch_token_in-IsSound s m.state t m refl h

  pub bind-Runs :
      {A : Type 0} (P : A → Type 0) (o : Option A) (f : A → Option A)
      → Runs P o
      → ((a : A) → P a → Runs P (f a))
      → Runs P (o >>= f)
  bind-Runs P none f h g = h
  bind-Runs P (some a) f h g = g a h

  -- A sound machine takes any token that does not end the file: no transition's assertion fails, and
  -- the machine is sound again.
  feed_pp_token-IsSound :
      (t : PpToken) (m : Machine s)
      → IsSound s m
      → is_klass t.klass TokenKlass.eof ≡ false
      → Runs (IsSound s) (feed_pp_token s t m)
  unfolding feed_pp_token
  feed_pp_token-IsSound t m h e = elim (Bool-cases (is_klass t.klass TokenKlass.comment)) [
    | inl c ↦ rw c (record {
      nested = h.nested;
      region = h.region;
      buffered = h.buffered;
      running = h.running;
    })
    | inr c ↦ rw c (
        bind-Runs (IsSound s) (dispatch_token_to_handler s t (flush_trivia s t m)) _
          (dispatch_token-IsSound t (flush_trivia s t m) (flush_trivia-IsSound t m h))
          (λ m' h'. rw e h'))
  ]

  pub if_false {ℓ} : {A : Type ℓ} (b : Bool) (x y : A) → b ≡ false → (if b then x else y) ≡ y
  if_false b x y e = rw e refl

  pub if_true {ℓ} : {A : Type ℓ} (b : Bool) (x y : A) → b ≡ true → (if b then x else y) ≡ x
  if_true b x y e = rw e refl

  pub preprocess-fed :
      (t : PpToken) (ts : List PpToken) (m : Machine s)
      → is_halted s m.state ≡ false
      → is_klass t.klass TokenKlass.eof ≡ false
      → is_fed s m.state t ≡ true
      → preprocess_tokens s (t ∷ ts) m ≡ (feed_pp_token s t m >>= λ m'. preprocess_tokens s ts m')
  unfolding preprocess_tokens
  preprocess-fed t ts m h e f =
      if_false (is_halted s m.state) _ _ h
      ∙ if_false (is_klass t.klass TokenKlass.eof) _ _ e
      ∙ if_true (is_fed s m.state t) _ _ f

  pub preprocess-dropped :
      (t : PpToken) (ts : List PpToken) (m : Machine s)
      → is_halted s m.state ≡ false
      → is_klass t.klass TokenKlass.eof ≡ false
      → is_fed s m.state t ≡ false
      → preprocess_tokens s (t ∷ ts) m ≡ preprocess_tokens s ts m
  unfolding preprocess_tokens
  preprocess-dropped t ts m h e f =
      if_false (is_halted s m.state) _ _ h
      ∙ if_false (is_klass t.klass TokenKlass.eof) _ _ e
      ∙ if_false (is_fed s m.state t) _ _ f

  -- A sound machine takes every list of tokens in which the file does not end: no transition's
  -- assertion fails, and the machine is sound at the end.
  pub preprocess_tokens-IsSound :
      (ts : List PpToken) (m : Machine s)
      → IsSound s m
      → HasNoEof ts
      → Runs (IsSound s) (preprocess_tokens s ts m)
  unfolding preprocess_tokens
  preprocess_tokens-IsSound [] m h e = h
  preprocess_tokens-IsSound (t ∷ ts) m h e = elim (Bool-cases (is_fed s m.state t)) [
    | inl f ↦ rw (preprocess-fed t ts m h.running e.0 f) (
        bind-Runs (IsSound s) (feed_pp_token s t m) _ (feed_pp_token-IsSound t m h e.0)
          (λ m' h'. preprocess_tokens-IsSound ts m' h' e.1))
    | inr f ↦ rw (preprocess-dropped t ts m h.running e.0 f) (preprocess_tokens-IsSound ts m h e.1)
  ]

  accept_eof :
      (t : PpToken) (m : Machine s)
      → is_klass t.klass TokenKlass.eof ≡ true
      → (accept_on_default_state s t m ≡ some m) × (accept_on_inactive_state s t m ≡ some m)
  unfolding accept_on_default_state accept_on_inactive_state
  accept_eof t m e = rw e (refl, refl)

  dispatch-eof :
      (st : PreprocessorState) (t : PpToken) (m : Machine s)
      → is_klass t.klass TokenKlass.eof ≡ true
      → (st ≡ default) ⊎ (st ≡ inactive)
      → dispatch_token_in s st t m ≡ some m
  unfolding dispatch_token_in
  dispatch-eof st t m e h = elim h [
    | inl d ↦ rw d (accept_eof t m e).0
    | inr d ↦ rw d (accept_eof t m e).1
  ]

  end_main : PpToken → Machine s → Machine s
  unfolding flush_trivia
  end_main t m =
      let m' = flush_trivia s t m in
      record m' { output = s.output_token t (s.finalize m'.macro_table m'.output) }

  feed-eof :
      (t : PpToken) (m : Machine s)
      → is_klass t.klass TokenKlass.eof ≡ true
      → m.include_depth ≡ 0
      → (m.state ≡ default) ⊎ (m.state ≡ inactive)
      → feed_pp_token s t m ≡ transition_to_halt_state s (end_main t m)
  unfolding feed_pp_token flush_trivia end_file dispatch_token_to_handler end_main
  feed-eof t m e z h =
      rw (eof_not_comment t.klass e)
        (rw (dispatch-eof m.state t (flush_trivia s t m) e h) (rw e (rw z refl)))

  -- In an inactive region, so behind an `#if` that no `#endif` closes, an assertion fails at the end
  -- of the main file, and the machine does not halt.
  pub end_of_file-fails :
      (t : PpToken) (m : Machine s)
      → is_klass t.klass TokenKlass.eof ≡ true
      → m.include_depth ≡ 0
      → m.state ≡ inactive
      → feed_pp_token s t m ≡ none
  unfolding transition_to_halt_state end_main flush_trivia
  end_of_file-fails t m e z d = rw (feed-eof t m e z (inr d)) (rw d refl)
