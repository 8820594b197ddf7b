-- ===== src/Parser/Total/Helpers.antt =====
-- The helpers for commas and closing delimiters on a parser that is ready.
use glsld.Prelude.{
  ℕ, ◌+◌, ◌≤◌, ◌<◌, ◌≡◌, ◌⊎◌, inl, inr, refl, ◌∙◌, Bool, true, false, ◌||◌, ltb, if◌then◌else◌,
  arith, if_cases, Bool-cases,
}
use glsld.Prelude.Outcome.{Result, done, Good, Good-bind, ◌>>=◌}
use glsld.Token.{TokenKlass, is_klass}
use glsld.Parser.Tokens.{Parser, eof, try_test, consume_token, report_error}
use glsld.Parser.Recovery.{
  RecoveryMode, recover_from_error, exit_if_recovering, parse_comma_in_paren_helper,
  close_recovered, parse_closing_paren_helper, parse_closing_bracket_helper,
}
use glsld.Parser.Total.Ready.{
  at_stop, size, stops, IsPlain, IsReady, Ended, Moved, Moved-refl, Moved-trans, report-Moved,
  consume-Stepped, test-stop,
}
use glsld.Parser.Total.Landing.{
  at_target, Landed, consume-Consumed, recover_from_error-Landed, recover_comma_stays,
}

not_both : {b : Bool} → b ≡ true → b ≡ false → ⊥
not_both h k = cc

-- Behind a comma the parser parses, and has consumed a token.
pub record CommaSeen (s : Parser) (more : Bool × Parser) : Type 0 where
  pub moved : Moved s more.1
  pub consumed : more.0 ≡ true → size more.1 < size s

Landed-Moved :
    (s t : Parser)
    → IsReady s
    → s.recovering ≡ false
    → Landed RecoveryMode.comma (report_error s) t
    → Moved s t
Landed-Moved s t r p l = record {
  ended = record {
    ready = record { stopped = λ e. absurd (not_both e (l.kept ∙ p)); plain = l.plain };
    fewer = l.fewer;
    count = l.count;
  };
  same_paren = λ e. (l.same refl e).0;
  same_bracket = λ e. (l.same refl e).1;
}

comma_stop : (s : Parser) → try_test TokenKlass.comma s ≡ true → at_stop s ≡ false
unfolding stops is_klass
comma_stop s e = test-stop TokenKlass.comma s refl e

parse_comma-CommaSeen :
    (s : Parser)
    → IsReady s
    → try_test TokenKlass.comma s ≡ true
    → CommaSeen s (true, consume_token s)
parse_comma-CommaSeen s r e =
    let c = consume-Stepped s r (comma_stop s e) in
    record { moved = c.moved; consumed = λ h. omega (arith, c.one) }

no_comma-CommaSeen : (s t : Parser) → Moved s t → CommaSeen s (false, t)
no_comma-CommaSeen s t m = record { moved = m; consumed = λ h. cc }

abbrev behind_recovery : Parser → Result (Bool × Parser)
behind_recovery t =
    if try_test TokenKlass.comma t then done (true, consume_token t) else done (false, t)

recovered_comma :
    (s : Parser)
    → IsReady s
    → 1 ≤ s.paren_depth
    → try_test TokenKlass.comma s ≡ false
    → Good ⊥
        (CommaSeen s)
        (recover_from_error RecoveryMode.comma (report_error s) >>= behind_recovery)
unfolding try_test
recovered_comma s r d e = elim (Bool-cases s.recovering) [
  | inl p ↦
      rw (recover_comma_stays (report_error s) (ground (arith, d)) (r.stopped p), e)
        (no_comma-CommaSeen s (report_error s) (report-Moved s r))
  | inr p ↦
      Good-bind ⊥ (Landed RecoveryMode.comma (report_error s)) (CommaSeen s)
        (recover_from_error RecoveryMode.comma (report_error s)) behind_recovery
        (recover_from_error-Landed RecoveryMode.comma (report_error s) (ground (arith, d)) refl refl
          r.plain)
        (λ t l.
          let m = Landed-Moved s t r p l in
          if_cases (Good ⊥ (CommaSeen s)) (try_test TokenKlass.comma t) _ _
            (λ c.
              let k = parse_comma-CommaSeen t m.ended.ready c in
              record {
                moved = Moved-trans s t (consume_token t) m k.moved;
                consumed = λ h. omega (arith, m.ended.fewer, k.consumed refl);
              })
            (λ c. no_comma-CommaSeen s t m))
]

pub parse_comma_in_paren_helper-Good :
    (left : ℕ) (s : Parser)
    → 1 ≤ left
    → IsReady s
    → Good ⊥ (CommaSeen s) (parse_comma_in_paren_helper left s)
unfolding parse_comma_in_paren_helper
parse_comma_in_paren_helper-Good left s l r =
    if_cases (Good ⊥ (CommaSeen s)) (ltb s.paren_depth left) _ _
      (λ h. no_comma-CommaSeen s s (Moved-refl s r))
      (λ h.
        if_cases (Good ⊥ (CommaSeen s)) (try_test TokenKlass.r_paren s) _ _
          (λ e. no_comma-CommaSeen s s (Moved-refl s r))
          (λ n.
            if_cases (Good ⊥ (CommaSeen s)) (try_test TokenKlass.comma s) _ _
              (λ e. parse_comma-CommaSeen s r e)
              (λ e. recovered_comma s r (ground (arith, l, h)) e)))

-- To exit the recovery mode makes a parser ready.
exit-Ended :
    (s t : Parser)
    → IsPlain t.tokens
    → size t ≤ size s
    → t.token_index + size t ≡ s.token_index + size s
    → Ended s (exit_if_recovering t)
exit-Ended s t p f c =
    if_cases (Ended s) t.recovering _ t
      (λ h. record { ready = record { stopped = λ e. cc; plain = p }; fewer = f; count = c })
      (λ h. record {
        ready = record { stopped = λ e. absurd (not_both e h); plain = p };
        fewer = f;
        count = c;
      })

-- A closing delimiter is consumed.
closed-Ended :
    (s t : Parser)
    → IsPlain t.tokens
    → size t ≤ size s
    → t.token_index + size t ≡ s.token_index + size s
    → eof t ≡ false
    → Ended s (exit_if_recovering (consume_token t))
closed-Ended s t p f n e =
    let c = consume-Consumed t e in
    exit-Ended s (consume_token t) (c.plain p) (omega (arith, c.one, f))
      (omega (arith, c.one, c.count, n))

close_recovered-Ended :
    (mode : RecoveryMode) (k : TokenKlass) (s t : Parser)
    → Landed mode (report_error s) t
    → (at_target mode t ≡ true → try_test k t ≡ true)
    → (try_test k t ≡ true → eof t ≡ false)
    → Ended s (close_recovered k t)
close_recovered-Ended mode k s t l to_k not_eof =
    if_cases (Ended s) (try_test k t) _ _
      (λ e. closed-Ended s t l.plain l.fewer l.count (not_eof e))
      (λ e. record {
        ready = record {
          stopped = λ h. elim l.found [ inl a ↦ a | inr a ↦ absurd (not_both (to_k a) e) ];
          plain = l.plain;
        };
        fewer = l.fewer;
        count = l.count;
      })

paren_eof : (s : Parser) → try_test TokenKlass.r_paren s ≡ true → eof s ≡ false
unfolding try_test is_klass
paren_eof s e = ground arith

bracket_eof : (s : Parser) → try_test TokenKlass.r_bracket s ≡ true → eof s ≡ false
unfolding try_test is_klass
bracket_eof s e = ground arith

or_false : (b : Bool) → (b || false) ≡ true → b ≡ true
or_false true h = refl
or_false false h = h

stay-Ended :
    (s : Parser) (left depth : ℕ)
    → IsPlain s.tokens
    → IsReady s ⊎ (left ≤ depth)
    → ltb depth left ≡ true
    → Ended s s
stay-Ended s left depth p (inl r) h = record { ready = r; fewer = omega arith; count = refl }
stay-Ended s left depth p (inr l) h = absurd (ground (arith, l, h))

-- The parser is ready, or nothing has been consumed since the opening delimiter.
pub parse_closing_paren_helper-Good :
    (left : ℕ) (s : Parser)
    → 1 ≤ left
    → IsPlain s.tokens
    → IsReady s ⊎ (left ≤ s.paren_depth)
    → Good ⊥ (Ended s) (parse_closing_paren_helper left s)
unfolding parse_closing_paren_helper
parse_closing_paren_helper-Good left s l p r =
    if_cases (Good ⊥ (Ended s)) (ltb s.paren_depth left) _ _ (stay-Ended s left s.paren_depth p r)
      (λ h.
        if_cases (Good ⊥ (Ended s)) (try_test TokenKlass.r_paren s) _ _
          (λ e. closed-Ended s s p (omega arith) refl (paren_eof s e))
          (λ n.
            Good-bind ⊥ (Landed RecoveryMode.paren (report_error s)) (Ended s)
              (recover_from_error RecoveryMode.paren (report_error s)) _
              (recover_from_error-Landed RecoveryMode.paren (report_error s) (ground (arith, l, h))
                refl refl p)
              (λ t d.
                close_recovered-Ended RecoveryMode.paren TokenKlass.r_paren s t d (or_false _)
                  (paren_eof t))))

pub parse_closing_bracket_helper-Good :
    (left : ℕ) (s : Parser)
    → 1 ≤ left
    → IsPlain s.tokens
    → IsReady s ⊎ (left ≤ s.bracket_depth)
    → Good ⊥ (Ended s) (parse_closing_bracket_helper left s)
unfolding parse_closing_bracket_helper
parse_closing_bracket_helper-Good left s l p r =
    if_cases (Good ⊥ (Ended s)) (ltb s.bracket_depth left) _ _
      (stay-Ended s left s.bracket_depth p r)
      (λ h.
        if_cases (Good ⊥ (Ended s)) (try_test TokenKlass.r_bracket s) _ _
          (λ e. closed-Ended s s p (omega arith) refl (bracket_eof s e))
          (λ n.
            Good-bind ⊥ (Landed RecoveryMode.bracket (report_error s)) (Ended s)
              (recover_from_error RecoveryMode.bracket (report_error s)) _
              (recover_from_error-Landed RecoveryMode.bracket (report_error s)
                (ground (arith, l, h)) refl refl p)
              (λ t d.
                close_recovered-Ended RecoveryMode.bracket TokenKlass.r_bracket s t d (λ e. e)
                  (bracket_eof t))))
