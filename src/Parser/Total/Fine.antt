-- ===== src/Parser/Total/Fine.antt =====
-- What the functions of expressions promise to each other: with enough fuel for the tokens that are left
-- they end, and the parser is ready behind them.
use glsld.Prelude.{
  ℕ, ◌+◌, ◌*◌, ◌≤◌, ◌<◌, ◌≡◌, ◌⊎◌, inl, inr, false, some, ◌==◌, ltb, arith, if_cases,
}
use glsld.Prelude.Outcome.{done, failed, out_of_fuel, Good, Good-bind, ◌>>=◌}
use glsld.Parser.Tokens.{Parser, peek_klass, eof}
use glsld.Parser.Syntax.{Expr}
use glsld.Parser.Operators.{BinaryOpDesc, try_parse_binary_op}
use glsld.Parser.Calls.{Parsed, Calls}
use glsld.Parser.Exprs.{parse_comma_expr, parse_expr}
use glsld.Parser.Total.Ready.{size, IsPlain, IsReady, Moved, Moved-trans}

abbrev pub Ends : {A : Type 0} → Parser → Parsed A → Type 0
Ends s m = Good ⊥ (λ r. Moved s r.1) m

pub Ends-after : {A : Type 0} (s t : Parser) (m : Parsed A) → Moved s t → Ends t m → Ends s m
Ends-after s t (done r) h k = Moved-trans s t r.1 h k
Ends-after s t failed h k = k
Ends-after s t out_of_fuel h k = k

pub Ends-bind :
    {A B : Type 0} (s : Parser) (m : Parsed A) (k : A × Parser → Parsed B)
    → Ends s m
    → ((r : A × Parser) → Moved s r.1 → Ends r.1 (k r))
    → Ends s (m >>= k)
Ends-bind s m k h f =
    Good-bind ⊥ (λ r. Moved s r.1) (λ r. Moved s r.1) m k h
      (λ r a. Ends-after s r.1 (k r) a (f r a))

-- Before an operator that binds tightly enough, `ParseBinaryExpr` consumes a token.
pub record BinaryEnded (min_precedence : ℕ) (s t : Parser) : Type 0 where
  pub moved : Moved s t
  pub consumed :
      (op : BinaryOpDesc)
      → s.recovering ≡ false
      → eof s ≡ false
      → try_parse_binary_op (peek_klass s) ≡ some op
      → ltb op.precedence min_precedence ≡ false
      → size t < size s

pub record IsFine (self : Calls) (fuel : ℕ) : Type 0 where
  pub assignment_expr :
      (s : Parser) → IsReady s → 4 * size s + 3 ≤ fuel → Ends s (self.assignment_expr s)
  pub unary_expr : (s : Parser) → IsReady s → 4 * size s + 2 ≤ fuel → Ends s (self.unary_expr s)
  pub binary_expr :
      (begin : ℕ) (lhs : Expr) (min_precedence : ℕ) (s : Parser)
      → IsReady s
      → 4 * size s + 1 ≤ fuel
      → Good ⊥ (λ r. BinaryEnded min_precedence s r.1) (self.binary_expr begin lhs min_precedence s)
  pub rhs_loop :
      (begin : ℕ) (rhs : Expr) (precedence : ℕ) (s : Parser)
      → IsReady s
      → 4 * size s + 2 ≤ fuel
      → Ends s (self.rhs_loop begin rhs precedence s)
  pub comma_loop :
      (begin : ℕ) (lhs : Expr) (s : Parser)
      → IsReady s
      → 4 * size s + 1 ≤ fuel
      → Ends s (self.comma_loop begin lhs s)
  pub postfix_loop :
      (begin : ℕ) (result : Expr) (s : Parser)
      → IsReady s
      → 4 * size s + 1 ≤ fuel
      → Ends s (self.postfix_loop begin result s)
  pub argument_loop :
      (left : ℕ) (s : Parser)
      → 1 ≤ left
      → IsReady s
      → 4 * size s + 4 ≤ fuel
      → Ends s (self.argument_loop left s)
  pub size_loop : (s : Parser) → IsReady s → 4 * size s + 1 ≤ fuel → Ends s (self.size_loop s)

-- Behind `ParseExpr`, which enters the recovery mode where it has consumed nothing.
pub record Tried (s t : Parser) : Type 0 where
  pub plain : IsPlain t.tokens
  pub fewer : size t ≤ size s
  pub count : t.token_index + size t ≡ s.token_index + size s
  pub stands : IsReady t ⊎ ((s.paren_depth ≤ t.paren_depth) × (s.bracket_depth ≤ t.bracket_depth))

pub ready-Tried : (s t : Parser) → Moved s t → Tried s t
ready-Tried s t m = record {
  plain = m.ended.ready.plain;
  fewer = m.ended.fewer;
  count = m.ended.count;
  stands = inl m.ended.ready;
}

module _ (self : Calls) (fuel : ℕ) (fine : IsFine self fuel) where
  pub parse_comma_expr-Ends :
      (s : Parser) → IsReady s → 4 * size s + 3 ≤ fuel → Ends s (parse_comma_expr self s)
  parse_comma_expr-Ends s r h =
      Ends-bind s (self.assignment_expr s) _ (fine.assignment_expr s r h) (λ a m.
        fine.comma_loop s.token_index a.0 a.1 m.ended.ready (omega (arith, m.ended.fewer, h)))

  pub parse_expr-Tried :
      (s : Parser)
      → IsReady s
      → 4 * size s + 3 ≤ fuel
      → Good ⊥ (λ r. Tried s r.1) (parse_expr self s)
  unfolding parse_expr
  parse_expr-Tried s r h =
      Good-bind ⊥ (λ r. Moved s r.1) (λ r. Tried s r.1) (parse_comma_expr self s) _
        (parse_comma_expr-Ends s r h)
        (λ a m.
          if_cases (Tried s) (a.1.token_index == s.token_index) _ _
            (λ e.
              let same : size a.1 ≡ size s = ground (arith, m.ended.count, e) in
              record {
                plain = m.ended.ready.plain;
                fewer = m.ended.fewer;
                count = m.ended.count;
                stands = inr (omega (arith, m.same_paren same), omega (arith, m.same_bracket same));
              })
            (λ e. ready-Tried s a.1 m))
