-- ===== src/Parser/Total/Wrapped.antt =====
-- What stands in parentheses or brackets keeps the promises.
use glsld.Prelude.{
  ℕ, suc, ◌+◌, ◌*◌, ◌≤◌, ◌<◌, ◌≡◌, ◌⊎◌, inl, inr, refl, ◌∙◌, Bool, true, false, not, Option, arith,
  if_both, if_cases,
}
use glsld.Prelude.Outcome.{done, Good, Good-bind, Good-guard, ◌>>=◌}
use glsld.Token.{TokenKlass, is_klass}
use glsld.Parser.Tokens.{Parser, try_test, consume_token, k_true, k_false}
use glsld.Parser.Recovery.{parse_closing_paren_helper, parse_closing_bracket_helper}
use glsld.Parser.Syntax.{Expr}
use glsld.Parser.Calls.{Parsed, Calls}
use glsld.Parser.Exprs.{
  parse_expr, paren_content, parse_paren_wrapped_expr, bracket_content, parse_bracket_wrapped_expr,
  parse_primary_expr,
}
use glsld.Parser.Types.{size_loop_body, parse_optional_array_spec}
use glsld.Parser.Total.Ready.{
  size, stops, IsReady, Ended, Moved, Moved-refl, Ended-Moved, report-Moved, Stepped, test_step,
}
use glsld.Parser.Total.Helpers.{parse_closing_paren_helper-Good, parse_closing_bracket_helper-Good}
use glsld.Parser.Total.Fine.{
  Ends, Ends-after, Ends-bind, IsFine, Tried, ready-Tried, parse_expr-Tried,
}

pub paren_opened :
    (s : Parser) → try_test TokenKlass.l_paren s ≡ true → 1 ≤ (consume_token s).paren_depth
unfolding consume_token try_test is_klass
paren_opened s e = ground arith

pub bracket_opened :
    (s : Parser) → try_test TokenKlass.l_bracket s ≡ true → 1 ≤ (consume_token s).bracket_depth
unfolding consume_token try_test is_klass
bracket_opened s e = ground arith

Tried-Ended : (s t u : Parser) → Tried s t → Ended t u → Ended s u
Tried-Ended s t u a b = record {
  ready = b.ready;
  fewer = omega (arith, a.fewer, b.fewer);
  count = b.count ∙ a.count;
}

-- The content behind an opening parenthesis, and the guard that closes it.
pub closed_paren :
    {A : Type 0} (s t : Parser) (m : Parsed A)
    → Stepped s t
    → 1 ≤ t.paren_depth
    → Good ⊥ (λ r. Tried t r.1) m
    → Ends s (m >>= λ r. parse_closing_paren_helper t.paren_depth r.1 >>= λ u. done (r.0, u))
closed_paren s t m c d h =
    Good-bind ⊥ (λ r. Tried t r.1) (λ r. Moved s r.1) m _ h
      (λ a tried.
        Good-bind ⊥ (Ended a.1) (λ r. Moved s r.1) (parse_closing_paren_helper t.paren_depth a.1) _
          (parse_closing_paren_helper-Good t.paren_depth a.1 d tried.plain (first tried.stands))
          (λ u e. Ended-Moved s t u c.moved (omega (arith, c.one)) (Tried-Ended t a.1 u tried e)))
  where
    first : {R P Q : Type 0} → R ⊎ (P × Q) → R ⊎ P
    first (inl r) = inl r
    first (inr h) = inr h.0

-- A run that has consumed a token.
pub record Shorter (s t : Parser) : Type 0 where
  pub moved : Moved s t
  pub shorter : size t < size s

abbrev pub Shortens : {A : Type 0} → Parser → Parsed A → Type 0
Shortens s m = Good ⊥ (λ r. Shorter s r.1) m

closed_bracket :
    {A : Type 0} (s t : Parser) (m : Parsed A)
    → Stepped s t
    → 1 ≤ t.bracket_depth
    → Good ⊥ (λ r. Tried t r.1) m
    → Shortens s
        (m >>= λ r. parse_closing_bracket_helper t.bracket_depth r.1 >>= λ u. done (r.0, u))
closed_bracket s t m c d h =
    Good-bind ⊥ (λ r. Tried t r.1) (λ r. Shorter s r.1) m _ h
      (λ a tried.
        Good-bind ⊥ (Ended a.1) (λ r. Shorter s r.1)
          (parse_closing_bracket_helper t.bracket_depth a.1) _
          (parse_closing_bracket_helper-Good t.bracket_depth a.1 d tried.plain
            (second tried.stands))
          (λ u e. record {
            moved = Ended-Moved s t u c.moved (omega (arith, c.one)) (Tried-Ended t a.1 u tried e);
            shorter = omega (arith, c.one, tried.fewer, e.fewer);
          }))
  where
    second : {R P Q : Type 0} → R ⊎ (P × Q) → R ⊎ Q
    second (inl r) = inl r
    second (inr h) = inr h.1

pub refuted : {b : Bool} → b ≡ true → not b ≡ true → ⊥
refuted h k = cc

module _ (self : Calls) (fuel : ℕ) (fine : IsFine self fuel) where
  parse_paren_wrapped_expr-Ends :
      (s : Parser)
      → IsReady s
      → 4 * size s + 1 ≤ suc fuel
      → try_test TokenKlass.l_paren s ≡ true
      → Ends s (parse_paren_wrapped_expr self s)
  unfolding parse_paren_wrapped_expr stops is_klass
  parse_paren_wrapped_expr-Ends s r h e =
      let c = test_step TokenKlass.l_paren s (λ d. refl) r e in
      let t = consume_token s in
      Good-guard ⊥ (λ (a : Expr × Parser). Moved s a.1) (not (try_test TokenKlass.l_paren s)) _
        (refuted e)
        (closed_paren s t (paren_content self t) c (paren_opened s e) (
          if_both (Good ⊥ (λ a. Tried t a.1)) (try_test TokenKlass.r_paren t) _ _
            (ready-Tried t t (Moved-refl t c.moved.ended.ready))
            (parse_expr-Tried self fuel fine t c.moved.ended.ready (omega (arith, c.one, h)))))

  pub parse_bracket_wrapped_expr-Good :
      (empty_is_error : Bool) (s : Parser)
      → IsReady s
      → 4 * size s + 1 ≤ suc fuel
      → try_test TokenKlass.l_bracket s ≡ true
      → Good ⊥ (λ a. Shorter s a.1) (parse_bracket_wrapped_expr self empty_is_error s)
  unfolding parse_bracket_wrapped_expr stops is_klass
  parse_bracket_wrapped_expr-Good empty_is_error s r h e =
      let c = test_step TokenKlass.l_bracket s (λ d. refl) r e in
      let t = consume_token s in
      Good-guard ⊥ (λ (a : Option Expr × Parser). Shorter s a.1)
        (not (try_test TokenKlass.l_bracket s)) _ (refuted e)
        (closed_bracket s t (bracket_content self empty_is_error t) c (bracket_opened s e) (
          if_both (Good ⊥ (λ a. Tried t a.1)) (try_test TokenKlass.r_bracket t) _ _
            (ready-Tried t t (Moved-refl t c.moved.ended.ready))
            (Good-bind ⊥ (λ a. Tried t a.1) (λ a. Tried t a.1) (parse_expr self t) _
              (parse_expr-Tried self fuel fine t c.moved.ended.ready (omega (arith, c.one, h)))
              (λ a k. k))))

  -- Where there is no primary expression, nothing is consumed.
  pub parse_primary_expr-Ends :
      (s : Parser) → IsReady s → 4 * size s + 1 ≤ suc fuel → Ends s (parse_primary_expr self s)
  unfolding parse_primary_expr stops is_klass
  parse_primary_expr-Ends s r h =
      if_cases (Ends s) (try_test TokenKlass.identifier s) _ _
        (λ e. (test_step TokenKlass.identifier s (λ d. refl) r e).moved)
        (λ n.
          if_cases (Ends s) (try_test TokenKlass.number_literal s) _ _
            (λ e. (test_step TokenKlass.number_literal s (λ d. refl) r e).moved)
            (λ n.
              if_cases (Ends s) (try_test k_true s) _ _
                (λ e. (test_step k_true s (λ d. refl) r e).moved)
                (λ n.
                  if_cases (Ends s) (try_test k_false s) _ _
                    (λ e. (test_step k_false s (λ d. refl) r e).moved)
                    (λ n.
                      if_cases (Ends s) (try_test TokenKlass.l_paren s) _ _
                        (parse_paren_wrapped_expr-Ends s r h) (λ n. report-Moved s r)))))

  pub size_loop-Ends :
      (s : Parser) → IsReady s → 4 * size s + 1 ≤ suc fuel → Ends s (size_loop_body self s)
  unfolding size_loop_body
  size_loop-Ends s r h =
      if_cases (Ends s) (try_test TokenKlass.l_bracket s) _ _
        (λ e.
          Good-bind ⊥ (λ a. Shorter s a.1) (λ a. Moved s a.1)
            (parse_bracket_wrapped_expr self false s) _
            (parse_bracket_wrapped_expr-Good false s r h e)
            (λ a k. Ends-after s a.1 _ k.moved (
              Ends-bind a.1 (self.size_loop a.1) _
                (fine.size_loop a.1 k.moved.ended.ready (omega (arith, k.shorter, h)))
                (λ b m. Moved-refl b.1 m.ended.ready))))
        (λ e. Moved-refl s r)

  pub parse_optional_array_spec-Ends :
      (s : Parser) → IsReady s → 4 * size s + 1 ≤ fuel → Ends s (parse_optional_array_spec self s)
  unfolding parse_optional_array_spec
  parse_optional_array_spec-Ends s r h =
      if_cases (Ends s) (try_test TokenKlass.l_bracket s) _ _
        (λ e.
          Ends-bind s (self.size_loop s) _ (fine.size_loop s r h)
            (λ a m. Moved-refl a.1 m.ended.ready))
        (λ e. Moved-refl s r)
