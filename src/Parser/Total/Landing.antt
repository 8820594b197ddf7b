-- ===== src/Parser/Total/Landing.antt =====
-- `RecoverFromError` in the modes of expressions: where it stops.
use glsld.Prelude.{
  ℕ, zero, suc, ◌+◌, ◌≤◌, ◌≡◌, ◌⊎◌, inl, inr, refl, ◌∙◌, Bool, true, false, ◌&&◌, ◌||◌, List, [],
  ◌∷◌, length, arith, if_both, if_cases,
}
use glsld.Prelude.Outcome.{done, Good}
use glsld.Token.{TokenKlass, is_klass}
use glsld.Parser.Tokens.{
  Parser, RawSyntaxToken, head_token, eof, consumed_token, try_test, consume_token,
}
use glsld.Parser.Recovery.{
  RecoveryMode, is_paren_mode, is_comma_mode, is_bracket_mode, is_ilist_mode, stops_at_semicolon,
  Move, recover_move, remove_depth_if_unclosed, recover_loop, has_depth, recover_from_error,
}
use glsld.Parser.Total.Ready.{stops, at_stop, size, IsPlain, next-IsPlain, next-length}

-- The tokens that a mode looks for.
abbrev pub at_target : RecoveryMode → Parser → Bool
at_target mode s =
    (is_paren_mode mode && try_test TokenKlass.r_paren s)
    || ((is_comma_mode mode && try_test TokenKlass.comma s)
        || (is_bracket_mode mode && try_test TokenKlass.r_bracket s))

-- What a move of the loop has found.
abbrev Fits : RecoveryMode → Parser → Move → Type 0
Fits mode s Move.skip = Unit
Fits mode s Move.stop = at_target mode s ≡ true
Fits mode s Move.stop_unclosed = at_stop s ≡ true
Fits mode s Move.stop_ilist = is_ilist_mode mode ≡ true

recover_move-Fits : (mode : RecoveryMode) (init s : Parser) → Fits mode s (recover_move mode init s)
unfolding recover_move stops is_klass try_test
recover_move-Fits mode init s =
    if_cases (Fits mode s) (try_test TokenKlass.r_paren s) _ _
      (λ e. if_cases (Fits mode s) _ Move.stop Move.skip (λ h. ground arith) (λ h. tt))
      (λ n.
        if_cases (Fits mode s) (try_test TokenKlass.r_bracket s) _ _
          (λ e. if_cases (Fits mode s) _ Move.stop Move.skip (λ h. ground arith) (λ h. tt))
          (λ n.
            if_cases (Fits mode s) (try_test TokenKlass.r_brace s) _ _
              (λ e.
                if_cases (Fits mode s) _ Move.stop_unclosed Move.skip (λ h. ground arith) (λ h. tt))
              (λ n.
                if_cases (Fits mode s) (try_test TokenKlass.comma s) _ _
                  (λ e. if_cases (Fits mode s) _ Move.stop Move.skip (λ h. ground arith) (λ h. tt))
                  (λ n.
                    if_cases (Fits mode s) (try_test TokenKlass.semicolon s) _ _
                      (λ e.
                        if_cases (Fits mode s) _ Move.stop_unclosed _ (λ h. ground arith)
                          (λ h.
                            if_cases (Fits mode s) (is_ilist_mode mode) Move.stop_ilist Move.skip
                              (λ h. h) (λ h. tt)))
                      (λ n. tt)))))

pub stop_move :
    (mode : RecoveryMode) (s : Parser)
    → stops_at_semicolon mode ≡ true
    → at_stop s ≡ true
    → eof s ≡ false
    → recover_move mode s s ≡ Move.stop_unclosed
unfolding recover_move stops is_klass try_test
stop_move mode s m h e = ground arith

pub record Landed (mode : RecoveryMode) (s u : Parser) : Type 0 where
  pub plain : IsPlain u.tokens
  pub fewer : size u ≤ size s
  pub count : u.token_index + size u ≡ s.token_index + size s
  pub found : (at_stop u ≡ true) ⊎ (at_target mode u ≡ true)
  pub kept : u.recovering ≡ s.recovering
  pub same :
      is_comma_mode mode ≡ true
      → size u ≡ size s
      → (u.paren_depth ≡ s.paren_depth) × (u.bracket_depth ≡ s.bracket_depth)

pub record Consumed (s u : Parser) : Type 0 where
  pub plain : IsPlain s.tokens → IsPlain u.tokens
  pub one : size u + 1 ≡ size s
  pub count : u.token_index ≡ s.token_index + 1
  pub kept : u.recovering ≡ s.recovering

pub consume-Consumed : (s : Parser) → eof s ≡ false → Consumed s (consume_token s)
unfolding consume_token try_test
consume-Consumed s e =
    if_cases (Consumed s) (eof s) s (consumed_token s) (λ h. absurd (both h))
      (λ h. record {
        plain = next-IsPlain s.tokens;
        one = next-length s.tokens e;
        count = refl;
        kept = refl;
      })
  where
    both : eof s ≡ true → ⊥
    both h = cc

stand :
    (mode : RecoveryMode) (s : Parser)
    → IsPlain s.tokens
    → (at_stop s ≡ true) ⊎ (at_target mode s ≡ true)
    → Landed mode s s
stand mode s p f = record {
  plain = p;
  fewer = omega arith;
  count = refl;
  found = f;
  kept = refl;
  same = λ c e. (refl, refl);
}

-- The depth of another mode than the comma's is not asked for.
remove :
    (mode : RecoveryMode) (s : Parser)
    → stops_at_semicolon mode ≡ true
    → IsPlain s.tokens
    → at_stop s ≡ true
    → Landed mode s (remove_depth_if_unclosed mode s)
unfolding remove_depth_if_unclosed
remove RecoveryMode.comma s m p h = stand RecoveryMode.comma s p (inl h)
remove RecoveryMode.semi s m p h = stand RecoveryMode.semi s p (inl h)
remove RecoveryMode.paren s m p h =
    if_both (Landed RecoveryMode.paren s) (try_test TokenKlass.r_paren s) s _
      (stand RecoveryMode.paren s p (inl h))
      (record {
        plain = p;
        fewer = omega arith;
        count = refl;
        found = inl h;
        kept = refl;
        same = λ c. cc;
      })
remove RecoveryMode.bracket s m p h =
    if_both (Landed RecoveryMode.bracket s) (try_test TokenKlass.r_bracket s) s _
      (stand RecoveryMode.bracket s p (inl h))
      (record {
        plain = p;
        fewer = omega arith;
        count = refl;
        found = inl h;
        kept = refl;
        same = λ c. cc;
      })
remove RecoveryMode.brace s m p h = cc
remove RecoveryMode.ilist_brace s m p h = cc

eof_stop : (s : Parser) → eof s ≡ true → at_stop s ≡ true
unfolding stops is_klass try_test
eof_stop s h = ground arith

no_tokens : (s : Parser) → size s ≤ 0 → at_stop s ≡ true
unfolding stops is_klass
no_tokens s h = by_tokens s.tokens s.brace_depth h
  where
    by_tokens :
        (ts : List RawSyntaxToken) (d : ℕ) → length ts ≤ 0 → stops (head_token ts).klass d ≡ true
    by_tokens [] d h = refl
    by_tokens (t ∷ ts) d h = absurd (omega (arith, h))

-- From where a token is consumed on.
further : (mode : RecoveryMode) (s t u : Parser) → Consumed s t → Landed mode t u → Landed mode s u
further mode s t u c l = record {
  plain = l.plain;
  fewer = omega (arith, c.one, l.fewer);
  count = omega (arith, c.one, c.count, l.count);
  found = l.found;
  kept = l.kept ∙ c.kept;
  same = λ h e. absurd (omega (arith, c.one, l.fewer, e));
}

recover_loop-Landed :
    (mode : RecoveryMode) (init s : Parser) (fuel : ℕ)
    → stops_at_semicolon mode ≡ true
    → is_ilist_mode mode ≡ false
    → IsPlain s.tokens
    → size s ≤ fuel
    → Landed mode s (recover_loop mode init fuel s)
unfolding recover_loop
recover_loop-Landed mode init s zero m i p h = stand mode s p (inl (no_tokens s h))
recover_loop-Landed mode init s (suc fuel) m i p h =
    if_cases (Landed mode s) (eof s) s _ (λ e. stand mode s p (inl (eof_stop s e)))
      (λ e.
        let c = consume-Consumed s e in
        by_move (recover_move mode init s) _ (recover_move-Fits mode init s) (
          further mode s (consume_token s) _ c (
            recover_loop-Landed mode init (consume_token s) fuel m i (c.plain p)
              (omega (arith, c.one, h)))))
  where
    by_move :
        (move : Move) (rest : Parser)
        → Fits mode s move
        → Landed mode s rest
        → Landed mode s (elim move [
          | Move.skip ↦ rest
          | Move.stop ↦ s
          | Move.stop_unclosed ↦ remove_depth_if_unclosed mode s
          | Move.stop_ilist ↦ record s { brace_depth = s.ilist_brace_depth }
        ])
    by_move Move.skip rest f l = l
    by_move Move.stop rest f l = stand mode s p (inr f)
    by_move Move.stop_unclosed rest f l = remove mode s m p f
    by_move Move.stop_ilist rest f l = cc

pub recover_from_error-Landed :
    (mode : RecoveryMode) (s : Parser)
    → has_depth mode s ≡ true
    → stops_at_semicolon mode ≡ true
    → is_ilist_mode mode ≡ false
    → IsPlain s.tokens
    → Good ⊥ (Landed mode s) (recover_from_error mode s)
unfolding recover_from_error
recover_from_error-Landed mode s d m i p =
    rw d (recover_loop-Landed mode s s (length s.tokens) m i p (omega arith))

-- At a stop, the recovery for a comma stays.
pub recover_comma_stays :
    (s : Parser)
    → has_depth RecoveryMode.comma s ≡ true
    → at_stop s ≡ true
    → recover_from_error RecoveryMode.comma s ≡ done s
unfolding recover_from_error recover_loop remove_depth_if_unclosed
recover_comma_stays s d h = rw (d, stays (length s.tokens)) refl
  where
    stays : (fuel : ℕ) → recover_loop RecoveryMode.comma s fuel s ≡ s
    stays zero = refl
    stays (suc fuel) =
        if_cases (λ t. t ≡ s) (eof s) s _ (λ e. refl)
          (λ e. rw (stop_move RecoveryMode.comma s refl h e) refl)
