-- ===== src/Parser/Total/Operands.antt =====
-- Operands keep the promises: calls, constructor calls, and the operators in front and behind.
use glsld.Prelude.{
  ℕ, suc, ◌+◌, ◌*◌, ◌≤◌, ◌≡◌, ◌⊎◌, inl, inr, refl, Bool, true, false, not, ◌&&◌, ◌||◌, List, [],
  ◌∷◌, arith, if_both, if_cases,
}
use glsld.Prelude.Outcome.{done, failed, out_of_fuel, Good, Good-bind, Good-guard}
use glsld.Token.{TokenKlass, Bytes, is_klass}
use glsld.Parser.Tokens.{
  Parser, RawSyntaxToken, head_token, peek_token, second_token, next_tokens, consumed_token,
  peek_klass, eof, try_test, try_test_second, consume_token, k_struct, k_void, is_builtin_type,
}
use glsld.Parser.Recovery.{parse_comma_in_paren_helper}
use glsld.Parser.Syntax.{Exprs, QualType, QualifierSeq}
use glsld.Parser.Calls.{Parsed, Calls}
use glsld.Parser.Types.{parse_optional_array_spec, parse_type_spec}
use glsld.Parser.Postfix.{
  argument_loop_body, argument_list, parse_function_argument_list, parse_constructor_call_expr,
  parse_constructor_call, parse_postfix_head,
}
use glsld.Parser.Total.Ready.{
  at_stop, size, stops, IsPlain, IsReady, Moved, Moved-refl, report-Moved, consume-Stepped,
  test-stop, test_step, differ,
}
use glsld.Parser.Total.Helpers.{CommaSeen, parse_comma_in_paren_helper-Good}
use glsld.Parser.Total.Fine.{Ends, Ends-after, Ends-bind, IsFine, Tried, ready-Tried}
use glsld.Parser.Total.Wrapped.{
  refuted, paren_opened, closed_paren, parse_primary_expr-Ends, parse_optional_array_spec-Ends,
}

builtin_stop : (k : TokenKlass) (d : ℕ) → is_builtin_type k ≡ true → stops k d ≡ false
unfolding stops is_klass
builtin_stop (TokenKlass.keyword n) d h = ground arith
builtin_stop k d h = cc

no_struct : (s : Parser) → IsReady s → try_test k_struct s ≡ false
unfolding try_test is_klass
no_struct s r = by_tokens s.tokens r.plain
  where
    by_tokens :
        (ts : List RawSyntaxToken) → IsPlain ts → is_klass (head_token ts).klass k_struct ≡ false
    by_tokens [] p = refl
    by_tokens (t ∷ ts) p = p.0

same_klass : (c j k : TokenKlass) → is_klass c j ≡ true → is_klass c k ≡ true → is_klass j k ≡ true
unfolding is_klass
same_klass c j k a b = ground arith

-- What the second token is, the first is behind the first.
pub next_test :
    (j k : TokenKlass) (s : Parser)
    → is_klass j k ≡ false
    → is_klass j TokenKlass.eof ≡ false
    → try_test j s ≡ true
    → try_test_second k s ≡ true
    → try_test k (consume_token s) ≡ true
unfolding try_test try_test_second consume_token is_klass
next_test j k s d n a b =
    if_cases (λ u. try_test k u ≡ true) (eof s) s (consumed_token s) (λ e. absurd (no_end e))
      (λ e. by_tokens s.tokens a b)
  where
    no_end : eof s ≡ true → ⊥
    no_end e = differ (same_klass (peek_klass s) j TokenKlass.eof a e) n

    by_tokens :
        (ts : List RawSyntaxToken)
        → is_klass (head_token ts).klass j ≡ true
        → is_klass (second_token ts).klass k ≡ true
        → is_klass (head_token (next_tokens ts)).klass k ≡ true
    by_tokens [] a b = absurd (differ (same_klass TokenKlass.eof j TokenKlass.eof a refl) n)
    by_tokens (t ∷ []) a b = absurd (differ (same_klass t.klass j k a b) d)
    by_tokens (t ∷ (u ∷ ts)) a b = b

moved-Tried : {A : Type 0} (s : Parser) (m : Parsed A) → Ends s m → Good ⊥ (λ r. Tried s r.1) m
moved-Tried s (done a) h = ready-Tried s a.1 h
moved-Tried s failed h = h
moved-Tried s out_of_fuel h = h

pub first_true : (a b : Bool) → (a && b) ≡ true → a ≡ true
first_true a b h = ground arith

pub second_true : (a b : Bool) → (a && b) ≡ true → b ≡ true
second_true a b h = ground arith

module _ (self : Calls) (fuel : ℕ) (fine : IsFine self fuel) where
  pub argument_loop-Ends :
      (left : ℕ) (s : Parser)
      → 1 ≤ left
      → IsReady s
      → 4 * size s + 4 ≤ suc fuel
      → Ends s (argument_loop_body self left s)
  unfolding argument_loop_body
  argument_loop-Ends left s l r h = if_both (Ends s) (eof s) _ _ (Moved-refl s r) (
      Ends-bind s (self.assignment_expr s) _ (fine.assignment_expr s r (omega (arith, h))) (λ a m.
        Good-bind ⊥ (CommaSeen a.1) (λ b. Moved a.1 b.1) (parse_comma_in_paren_helper left a.1) _
          (parse_comma_in_paren_helper-Good left a.1 l m.ended.ready)
          (λ more c.
            if_cases (Ends a.1) more.0 _ _
              (λ e. Ends-after a.1 more.1 _ c.moved (
                Ends-bind more.1 (self.argument_loop left more.1) _
                  (fine.argument_loop left more.1 l c.moved.ended.ready
                    (omega (arith, m.ended.fewer, c.consumed e, h)))
                  (λ b n. Moved-refl b.1 n.ended.ready)))
              (λ e. c.moved))))

  argument_list-Tried :
      (t : Parser)
      → IsReady t
      → 1 ≤ t.paren_depth
      → 4 * size t + 4 ≤ fuel
      → Good ⊥ (λ a. Tried t a.1) (argument_list self t)
  unfolding stops is_klass
  argument_list-Tried t r d h =
      if_both (Good ⊥ (λ a. Tried t a.1)) (try_test TokenKlass.r_paren t) _ _
        (ready-Tried t t (Moved-refl t r))
        (if_cases (Good ⊥ (λ a. Tried t a.1))
          (try_test k_void t && try_test_second TokenKlass.r_paren t) _ _
          (λ e.
            ready-Tried t (consume_token t)
              (test_step k_void t (λ d. refl) r (first_true _ _ e)).moved)
          (λ e.
            moved-Tried t (self.argument_loop t.paren_depth t)
              (fine.argument_loop t.paren_depth t d r h)))

  parse_function_argument_list-Ends :
      (s : Parser)
      → IsReady s
      → 4 * size s + 1 ≤ suc fuel
      → try_test TokenKlass.l_paren s ≡ true
      → Ends s (parse_function_argument_list self s)
  unfolding parse_function_argument_list stops is_klass
  parse_function_argument_list-Ends s r h e =
      let c = test_step TokenKlass.l_paren s (λ d. refl) r e in
      let t = consume_token s in
      Good-guard ⊥ (λ (a : Exprs × Parser). Moved s a.1) (not (try_test TokenKlass.l_paren s)) _
        (refuted e)
        (closed_paren s t (argument_list self t) c (paren_opened s e)
          (argument_list-Tried t c.moved.ended.ready (paren_opened s e) (omega (arith, c.one, h))))

  -- A type that is named has a token, and no struct is defined in it.
  parse_type_spec-Ends :
      (quals : QualifierSeq) (s : Parser)
      → IsReady s
      → 4 * size s + 1 ≤ suc fuel
      → (is_builtin_type (peek_klass s) ≡ true) ⊎ (try_test TokenKlass.identifier s ≡ true)
      → Ends s (parse_type_spec self quals s)
  unfolding parse_type_spec stops is_klass
  parse_type_spec-Ends quals s r h n =
      let c = consume-Stepped s r (named_stop n) in
      let t = consume_token s in
      if_cases (Ends s) (try_test k_struct s) _ _ (λ e. absurd (differ e (no_struct s r)))
        (λ e.
          if_cases (Ends s) (try_test TokenKlass.identifier s || is_builtin_type (peek_klass s)) _ _
            (λ e. Ends-after s t _ c.moved (
              Ends-bind t (parse_optional_array_spec self t) _
                (parse_optional_array_spec-Ends self fuel fine t c.moved.ended.ready
                  (omega (arith, c.one, h)))
                (λ a m. Moved-refl a.1 m.ended.ready)))
            (λ e. absurd (named n e)))
    where
      named_stop :
          (is_builtin_type (peek_klass s) ≡ true) ⊎ (try_test TokenKlass.identifier s ≡ true)
          → at_stop s ≡ false
      named_stop (inl b) = builtin_stop (peek_klass s) s.brace_depth b
      named_stop (inr e) = test-stop TokenKlass.identifier s refl e

      named :
          (is_builtin_type (peek_klass s) ≡ true) ⊎ (try_test TokenKlass.identifier s ≡ true)
          → (try_test TokenKlass.identifier s || is_builtin_type (peek_klass s)) ≡ false
          → ⊥
      named (inl b) e = ground (arith, b, e)
      named (inr b) e = ground (arith, b, e)

  parse_constructor_call_expr-Ends :
      (type : QualType) (s : Parser)
      → IsReady s
      → 4 * size s + 1 ≤ suc fuel
      → Ends s (parse_constructor_call_expr self type s)
  unfolding parse_constructor_call_expr
  parse_constructor_call_expr-Ends type s r h =
      if_cases (Ends s) (try_test TokenKlass.l_paren s) _ _
        (λ e.
          Ends-bind s (parse_function_argument_list self s) _
            (parse_function_argument_list-Ends s r h e) (λ a m. Moved-refl a.1 m.ended.ready))
        (λ e. report-Moved s r)

  parse_constructor_call-Ends :
      (s : Parser)
      → IsReady s
      → 4 * size s + 1 ≤ suc fuel
      → (is_builtin_type (peek_klass s) ≡ true) ⊎ (try_test TokenKlass.identifier s ≡ true)
      → Ends s (parse_constructor_call self s)
  parse_constructor_call-Ends s r h n =
      Ends-bind s (parse_type_spec self _ s) _ (parse_type_spec-Ends _ s r h n) (λ a m.
        parse_constructor_call_expr-Ends a.0 a.1 m.ended.ready (omega (arith, m.ended.fewer, h)))

  pub parse_postfix_head-Ends :
      (is_struct_name : Bytes → Bool) (s : Parser)
      → IsReady s
      → 4 * size s + 1 ≤ suc fuel
      → Ends s (parse_postfix_head self is_struct_name s)
  unfolding parse_postfix_head stops is_klass
  parse_postfix_head-Ends is_struct_name s r h =
      if_cases (Ends s) (is_builtin_type (peek_klass s) || try_test k_struct s) _ _
        (λ e. parse_constructor_call-Ends s r h (inl (builtin (no_struct s r) e)))
        (λ n.
          if_cases (Ends s) (try_test TokenKlass.identifier s && is_struct_name (peek_token s).text)
            _ _ (λ e. parse_constructor_call-Ends s r h (inr (first_true _ _ e)))
            (λ n.
              if_cases (Ends s)
                (try_test TokenKlass.identifier s && try_test_second TokenKlass.l_paren s) _ _
                (λ e.
                  let c = test_step TokenKlass.identifier s (λ d. refl) r (first_true _ _ e) in
                  let t = consume_token s in
                  Ends-after s t _ c.moved (
                    Ends-bind t (parse_function_argument_list self t) _
                      (parse_function_argument_list-Ends t c.moved.ended.ready
                        (omega (arith, c.one, h))
                        (next_test TokenKlass.identifier TokenKlass.l_paren s refl refl
                          (first_true _ _ e) (second_true _ _ e)))
                      (λ a m. Moved-refl a.1 m.ended.ready)))
                (λ n. parse_primary_expr-Ends self fuel fine s r h)))
    where
      builtin :
          try_test k_struct s ≡ false
          → (is_builtin_type (peek_klass s) || try_test k_struct s) ≡ true
          → is_builtin_type (peek_klass s) ≡ true
      builtin n e = ground (arith, n, e)
