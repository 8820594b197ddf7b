-- ===== src/Parser/Grouping/Chain.antt =====
-- `ParseBinaryExpr` on a chain of operators and names.
use mathlib.Core.List.{append_assoc}
use glsld.Prelude.{
  ℕ, suc, ◌+◌, ◌*◌, ◌≤◌, ◌<◌, ◌≡◌, inl, inr, refl, ap, ◌∙◌, Bool, true, false, List, [], ◌∷◌, ◌++◌,
  none, some, ltb, length, Each, arith, if_both, if_cases,
}
use glsld.Prelude.Outcome.{done, failed, out_of_fuel, Good, Good-bind, ◌>>=◌}
use glsld.Token.{Bytes}
use glsld.Parser.Tokens.{
  Parser, RawSyntaxToken, head_token, peek_klass, eof, try_test, SyntaxRange, consume_token,
  create_syntax_range,
}
use glsld.Parser.Syntax.{Expr}
use glsld.Parser.Operators.{try_parse_binary_op}
use glsld.Parser.Calls.{Parsed, Calls}
use glsld.Parser.Exprs.{binary_expr_body, rhs_loop_body}
use glsld.Parser.Grouping.{
  IsGrouped, Word, words, Link, IsLink, chain_tokens, chain_words, operator_level, IsGrouped-weaken,
}
use glsld.Parser.Grouping.Links.{IsEnd, Below, operator_eof, chain_follows, IsParsed, IsGrouping}
use glsld.Parser.Grouping.Operand.{IsAt, consume-IsAt, IsOperand}

module _ (is_struct_name : Bytes → Bool) (total : ℕ) (rest : List RawSyntaxToken)
    (ending : IsEnd rest) where
  abbrev Parses : ℕ → List Word → List Link → Parsed Expr → Type 0
  Parses n before ls m = Good ⊥ (IsParsed is_struct_name total rest n before ls) m

  -- Nothing more is parsed.
  stands :
      (n : ℕ) (e : Expr) (ls : List Link) (s : Parser)
      → Each (IsLink is_struct_name) ls
      → IsAt total (chain_tokens ls rest) s
      → IsGrouped n e
      → Below n ls
      → IsParsed is_struct_name total rest n (words e) ls (e, s)
  stands n e ls s h a g b = record {
    left = ls;
    links = h;
    fewer = omega arith;
    spelled = refl;
    grouped = g;
    below = b;
    behind = a;
  }

  no_operator_left :
      (s : Parser) → IsAt total (chain_tokens [] rest) s → try_parse_binary_op (peek_klass s) ≡ none
  unfolding chain_tokens
  no_operator_left s a =
      ap (λ us. try_parse_binary_op (head_token us).klass) a.left ∙ ending.no_operator

  operator_read :
      (l : Link) (ls : List Link) (s : Parser)
      → IsLink is_struct_name l
      → IsAt total (chain_tokens (l ∷ ls) rest) s
      → try_parse_binary_op (peek_klass s) ≡ some l.desc
  unfolding chain_tokens
  operator_read l ls s h a =
      ap (λ us. try_parse_binary_op (head_token us).klass) a.left ∙ h.operator_read

  operator_not_eof :
      (l : Link) (ls : List Link) (s : Parser)
      → IsLink is_struct_name l
      → IsAt total (chain_tokens (l ∷ ls) rest) s
      → eof s ≡ false
  unfolding try_test
  operator_not_eof l ls s h a = operator_eof (peek_klass s) l.desc (operator_read l ls s h a)

  module _ (self : Calls) (fuel : ℕ) (g : IsGrouping is_struct_name total rest self fuel) where
    pub rhs_loop_stops :
        (begin : ℕ) (rhs : Expr) (precedence : ℕ) (ls : List Link) (s : Parser)
        → Each (IsLink is_struct_name) ls
        → IsAt total (chain_tokens ls rest) s
        → Below (precedence + 1) ls
        → rhs_loop_body self begin rhs precedence s ≡ done (rhs, s)
    unfolding rhs_loop_body
    rhs_loop_stops begin rhs precedence [] s h a b =
        rw (no_operator_left s a)
          (if_both (λ m. m ≡ done (rhs, s)) (eof s) (done (rhs, s)) (done (rhs, s)) refl refl)
    rhs_loop_stops begin rhs precedence (l ∷ ls) s h a b =
        let loose : ltb precedence l.desc.precedence ≡ false = ground (arith, b) in
        rw (operator_not_eof l ls s h.0 a, operator_read l ls s h.0 a, loose) refl

    pub rhs_loop-Parses :
        (begin : ℕ) (rhs : Expr) (precedence : ℕ) (ls : List Link) (s : Parser)
        → Each (IsLink is_struct_name) ls
        → IsAt total (chain_tokens ls rest) s
        → ((n : ℕ) → IsGrouped n rhs)
        → 2 * length ls + 4 ≤ suc fuel
        → Parses (precedence + 1) (words rhs) ls (rhs_loop_body self begin rhs precedence s)
    unfolding rhs_loop_body
    rhs_loop-Parses begin rhs precedence [] s h a o f =
        rw (rhs_loop_stops begin rhs precedence [] s h a tt)
          (stands (precedence + 1) rhs [] s h a (o _) tt)
    rhs_loop-Parses begin rhs precedence (l ∷ ls) s h a o f =
        rw (operator_not_eof l ls s h.0 a, operator_read l ls s h.0 a)
          (if_cases (Parses (precedence + 1) (words rhs) (l ∷ ls))
            (ltb precedence l.desc.precedence) _ _
            (λ t.
              Good-bind ⊥ (IsParsed is_struct_name total rest (precedence + 1) (words rhs) (l ∷ ls))
                (IsParsed is_struct_name total rest (precedence + 1) (words rhs) (l ∷ ls))
                (self.binary_expr begin rhs (precedence + 1) s) _
                (g.binary_expr begin rhs (l.desc.precedence + precedence + 1) (precedence + 1)
                  (l ∷ ls) s h a (o _) (omega arith) (omega arith) (omega (arith, f)))
                (λ r p.
                  rw
                    (g.rhs_loop_stops begin r.0 precedence p.left r.1 p.links p.behind p.below
                      (omega (arith, f)))
                    p))
            (λ t. stands (precedence + 1) rhs (l ∷ ls) s h a (o _) (ground (arith, t))))

    -- The tree of an operator, and the words of it and of what is left.
    operator-IsParsed :
        (l : Link) (ls : List Link) (lhs rhs e : Expr) (min_precedence : ℕ) (ps qs : List Link)
        → (words rhs ++ chain_words ps ≡ (inr l.operand.text ∷ []) ++ chain_words ls)
        → (words e ++ chain_words qs
            ≡ (words lhs ++ (inl l.desc.opcode ∷ words rhs)) ++ chain_words ps)
        → words e ++ chain_words qs ≡ words lhs ++ chain_words (l ∷ ls)
    unfolding chain_words
    operator-IsParsed l ls lhs rhs e min_precedence ps qs h k =
        k
        ∙ append_assoc (words lhs) (inl l.desc.opcode ∷ words rhs) (chain_words ps)
        ∙ ap (λ ws. words lhs ++ (inl l.desc.opcode ∷ ws)) h

    tree-IsGrouped :
        (r : SyntaxRange) (l : Link) (lhs rhs : Expr) (bound : ℕ)
        → IsLink is_struct_name l
        → IsGrouped bound lhs
        → l.desc.precedence ≤ bound
        → IsGrouped (l.desc.precedence + 1) rhs
        → IsGrouped l.desc.precedence (Expr.binary_expr r lhs rhs l.desc.opcode)
    unfolding IsGrouped
    tree-IsGrouped r l lhs rhs bound h a b c =
        let same = operator_level l.operator.klass l.desc h.operator_read in
        rw same (omega arith, (IsGrouped-weaken l.desc.precedence bound lhs b a, c))

    -- An operator that binds tightly enough, and what `ParseBinaryExpr` parses behind it.
    link-Parses :
        (begin : ℕ) (lhs : Expr) (bound min_precedence : ℕ) (l : Link) (ls : List Link) (t : Parser)
        → Each (IsLink is_struct_name) (l ∷ ls)
        → IsAt total (l.operand ∷ chain_tokens ls rest) t
        → IsGrouped bound lhs
        → l.desc.precedence < bound + 1
        → min_precedence ≤ l.desc.precedence
        → 2 * length ls + 5 ≤ suc fuel
        → Parses min_precedence (words lhs) (l ∷ ls) (
            self.unary_expr t >>= λ r.
            self.rhs_loop t.token_index r.0 l.desc.precedence r.1 >>= λ rhs.
            self.binary_expr begin
              (Expr.binary_expr (create_syntax_range begin rhs.1) lhs rhs.0 l.desc.opcode)
              min_precedence
              rhs.1)
    unfolding words
    link-Parses begin lhs bound min_precedence l ls t h a gr b m f =
        Good-bind ⊥ (IsOperand total l.operand (chain_tokens ls rest))
          (IsParsed is_struct_name total rest min_precedence (words lhs) (l ∷ ls))
          (self.unary_expr t) _
          (g.unary_expr l.operand (chain_tokens ls rest) t a h.0.name h.0.no_struct_name
            (chain_follows is_struct_name ls rest h.1 ending) (omega (arith, f)))
          (λ r o.
            Good-bind ⊥ (IsParsed is_struct_name total rest (l.desc.precedence + 1) (words r.0) ls)
              (IsParsed is_struct_name total rest min_precedence (words lhs) (l ∷ ls))
              (self.rhs_loop t.token_index r.0 l.desc.precedence r.1) _
              (g.rhs_loop t.token_index r.0 l.desc.precedence ls r.1 h.1 o.behind o.grouped
                (omega (arith, f)))
              (λ q p.
                let e = Expr.binary_expr (create_syntax_range begin q.1) lhs q.0 l.desc.opcode in
                onward e q.0 r.0 p.left (self.binary_expr begin e min_precedence q.1) refl p.fewer
                  (p.spelled ∙ ap (λ ws. ws ++ chain_words ls) o.spelled)
                  (g.binary_expr begin e l.desc.precedence min_precedence p.left q.1 p.links
                    p.behind (tree-IsGrouped _ l lhs q.0 bound h.0 gr (omega (arith, b)) p.grouped)
                    p.below m (omega (arith, p.fewer, f)))))
      where
        onward :
            (e rhs operand : Expr) (left : List Link) (m : Parsed Expr)
            → words e ≡ words lhs ++ (inl l.desc.opcode ∷ words rhs)
            → length left ≤ length ls
            → words rhs ++ chain_words left ≡ (inr l.operand.text ∷ []) ++ chain_words ls
            → Parses min_precedence (words e) left m
            → Parses min_precedence (words lhs) (l ∷ ls) m
        onward e rhs operand left (done c) w n s q = record {
          left = q.left;
          links = q.links;
          fewer = omega (arith, n, q.fewer);
          spelled =
              operator-IsParsed l ls lhs rhs c.0 min_precedence left q.left s
                (q.spelled ∙ ap (λ ws. ws ++ chain_words left) w);
          grouped = q.grouped;
          below = q.below;
          behind = q.behind;
        }
        onward e rhs operand left failed w n s q = q
        onward e rhs operand left out_of_fuel w n s q = q

    pub binary_expr-Parses :
        (begin : ℕ) (lhs : Expr) (bound min_precedence : ℕ) (ls : List Link) (s : Parser)
        → Each (IsLink is_struct_name) ls
        → IsAt total (chain_tokens ls rest) s
        → IsGrouped bound lhs
        → Below (bound + 1) ls
        → min_precedence ≤ bound
        → 2 * length ls + 3 ≤ suc fuel
        → Parses min_precedence (words lhs) ls (binary_expr_body self begin lhs min_precedence s)
    unfolding binary_expr_body chain_tokens
    binary_expr-Parses begin lhs bound min_precedence [] s h a gr b m f =
        let stay =
          stands min_precedence lhs [] s h a (IsGrouped-weaken min_precedence bound lhs m gr) tt in
        rw (no_operator_left s a) (
          if_both (Parses min_precedence (words lhs) []) (eof s) _ _ stay
            (if_both (Parses min_precedence (words lhs) []) s.recovering _ _ stay stay))
    binary_expr-Parses begin lhs bound min_precedence (l ∷ ls) s h a gr b m f =
        rw (operator_not_eof l ls s h.0 a) (
          if_cases (Parses min_precedence (words lhs) (l ∷ ls)) s.recovering _ _
            (λ p. absurd (parsing p a.parsing))
            (λ p. rw (operator_read l ls s h.0 a) (
              if_cases (Parses min_precedence (words lhs) (l ∷ ls))
                (ltb l.desc.precedence min_precedence) _ _
                (λ t.
                  stands min_precedence lhs (l ∷ ls) s h a
                    (IsGrouped-weaken min_precedence bound lhs m gr) (ground (arith, t)))
                (λ t.
                  link-Parses begin lhs bound min_precedence l ls (consume_token s) h (behind h.0 a)
                    gr b (ground (arith, t)) (omega (arith, f))))))
      where
        parsing : s.recovering ≡ true → s.recovering ≡ false → ⊥
        parsing p q = cc

        behind :
            IsLink is_struct_name l
            → IsAt total (chain_tokens (l ∷ ls) rest) s
            → IsAt total (l.operand ∷ chain_tokens ls rest) (consume_token s)
        behind i a =
            consume-IsAt total l.operator (l.operand ∷ chain_tokens ls rest) s a
              (operator_eof l.operator.klass l.desc i.operator_read)
