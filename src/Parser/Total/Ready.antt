-- ===== src/Parser/Total/Ready.antt =====
-- What holds of the parser between two calls: a parser that recovers stands where recovery stops.
use glsld.Prelude.{
  ℕ, ◌+◌, ◌≤◌, ◌<◌, ◌≡◌, refl, sym, ◌∙◌, Bool, true, false, ◌&&◌, ◌||◌, List, [], ◌∷◌, some, ltb,
  length, arith, Each, Bool-cases, inl, inr, if_cases,
}
use glsld.Token.{TokenKlass, is_klass}
use glsld.Parser.Tokens.{
  Parser, RawSyntaxToken, peek_klass, eof, head_token, next_tokens, consumed_token, try_test,
  consume_token, report_error, k_struct,
}
use glsld.Parser.Operators.{
  BinaryOpDesc, try_parse_assignment_op, try_parse_binary_op, try_parse_prefix_unary_op,
}
use glsld.Parser.Syntax.{BinaryOp, UnaryOp}

-- The tokens at which recovery stops in every mode.
unfoldable pub stops : TokenKlass → ℕ → Bool
unfolding is_klass
stops k depth =
    is_klass k TokenKlass.eof
    || (is_klass k TokenKlass.semicolon || (is_klass k TokenKlass.r_brace && ltb 0 depth))

abbrev pub at_stop : Parser → Bool
at_stop s = stops (peek_klass s) s.brace_depth

abbrev pub size : Parser → ℕ
size s = length s.tokens

abbrev pub IsPlain : List RawSyntaxToken → Type 0
IsPlain ts = Each (λ (t : RawSyntaxToken). is_klass t.klass k_struct ≡ false) ts

pub record IsReady (s : Parser) : Type 0 where
  pub stopped : s.recovering ≡ true → at_stop s ≡ true
  pub plain : IsPlain s.tokens

-- A run from `s` to `t`.
pub record Ended (s t : Parser) : Type 0 where
  pub ready : IsReady t
  pub fewer : size t ≤ size s
  pub count : t.token_index + size t ≡ s.token_index + size s

-- Where no token is consumed, the depths are the same.
pub record Moved (s t : Parser) : Type 0 where
  pub ended : Ended s t
  pub same_paren : size t ≡ size s → t.paren_depth ≡ s.paren_depth
  pub same_bracket : size t ≡ size s → t.bracket_depth ≡ s.bracket_depth

pub Moved-refl : (s : Parser) → IsReady s → Moved s s
Moved-refl s r = record {
  ended = record { ready = r; fewer = omega arith; count = refl };
  same_paren = λ e. refl;
  same_bracket = λ e. refl;
}

pub Moved-trans : (s t u : Parser) → Moved s t → Moved t u → Moved s u
Moved-trans s t u a b = record {
  ended = record {
    ready = b.ended.ready;
    fewer = omega (arith, a.ended.fewer, b.ended.fewer);
    count = b.ended.count ∙ a.ended.count;
  };
  same_paren = λ e.
      b.same_paren (omega (arith, a.ended.fewer, b.ended.fewer, e))
      ∙ a.same_paren (omega (arith, a.ended.fewer, b.ended.fewer, e));
  same_bracket = λ e.
      b.same_bracket (omega (arith, a.ended.fewer, b.ended.fewer, e))
      ∙ a.same_bracket (omega (arith, a.ended.fewer, b.ended.fewer, e));
}

-- With a token consumed first, nothing is asked of the depths.
pub Ended-Moved : (s t u : Parser) → Moved s t → size t < size s → Ended t u → Moved s u
Ended-Moved s t u a l b = record {
  ended = record {
    ready = b.ready;
    fewer = omega (arith, l, b.fewer);
    count = b.count ∙ a.ended.count;
  };
  same_paren = λ e. absurd (omega (arith, l, b.fewer, e));
  same_bracket = λ e. absurd (omega (arith, l, b.fewer, e));
}

pub report-Moved : (s : Parser) → IsReady s → Moved s (report_error s)
report-Moved s r = record {
  ended = record {
    ready = record { stopped = r.stopped; plain = r.plain };
    fewer = omega arith;
    count = refl;
  };
  same_paren = λ e. refl;
  same_bracket = λ e. refl;
}

pub next-IsPlain : (ts : List RawSyntaxToken) → IsPlain ts → IsPlain (next_tokens ts)
next-IsPlain [] h = tt
next-IsPlain (t ∷ ts) h = h.1

pub next-length :
    (ts : List RawSyntaxToken)
    → is_klass (head_token ts).klass TokenKlass.eof ≡ false
    → length (next_tokens ts) + 1 ≡ length ts
unfolding is_klass
next-length [] h = cc
next-length (t ∷ ts) h = omega arith

pub step-eof : (s : Parser) → at_stop s ≡ false → eof s ≡ false
unfolding stops is_klass try_test
step-eof s h = ground arith

pub parses : (s : Parser) → IsReady s → at_stop s ≡ false → s.recovering ≡ false
parses s r h = elim (Bool-cases s.recovering) [
  | inl e ↦ absurd (differ (sym (r.stopped e) ∙ h))
  | inr e ↦ e
]
  where
    differ : true ≡ false → ⊥
    differ h = cc

-- A token that is not a stop is consumed, and the parser parses behind it.
pub record Stepped (s t : Parser) : Type 0 where
  pub moved : Moved s t
  pub one : size t + 1 ≡ size s
  pub parsing : t.recovering ≡ false

consumed-Stepped :
    (s : Parser) → IsReady s → s.recovering ≡ false → eof s ≡ false → Stepped s (consumed_token s)
unfolding try_test
consumed-Stepped s r p e =
    let one = next-length s.tokens e in
    record {
      moved = record {
        ended = record {
          ready = record { stopped = λ h. cc; plain = next-IsPlain s.tokens r.plain };
          fewer = omega (arith, one);
          count = omega (arith, one);
        };
        same_paren = λ h. absurd (omega (arith, one, h));
        same_bracket = λ h. absurd (omega (arith, one, h));
      };
      one = one;
      parsing = p;
    }

pub consume-Stepped : (s : Parser) → IsReady s → at_stop s ≡ false → Stepped s (consume_token s)
unfolding consume_token
consume-Stepped s r h =
    if_cases (Stepped s) (eof s) s (consumed_token s) (λ e. absurd (both e (step-eof s h)))
      (consumed-Stepped s r (parses s r h))
  where
    both : eof s ≡ true → eof s ≡ false → ⊥
    both e f = cc

pub test-stop :
    (k : TokenKlass) (s : Parser)
    → stops k s.brace_depth ≡ false
    → try_test k s ≡ true
    → at_stop s ≡ false
unfolding stops is_klass try_test
test-stop k s h e = ground arith

pub binary-stop :
    (k : TokenKlass) (d : ℕ) (op : BinaryOpDesc)
    → try_parse_binary_op k ≡ some op
    → stops k d ≡ false
unfolding stops is_klass try_parse_binary_op
binary-stop (TokenKlass.keyword n) d op h = cc
binary-stop TokenKlass.eof d op h = cc
binary-stop TokenKlass.semicolon d op h = cc
binary-stop TokenKlass.r_brace d op h = cc
binary-stop k d op h = refl

pub assignment-stop :
    (k : TokenKlass) (d : ℕ) (op : BinaryOp)
    → try_parse_assignment_op k ≡ some op
    → stops k d ≡ false
unfolding stops is_klass try_parse_assignment_op
assignment-stop (TokenKlass.keyword n) d op h = cc
assignment-stop TokenKlass.eof d op h = cc
assignment-stop TokenKlass.semicolon d op h = cc
assignment-stop TokenKlass.r_brace d op h = cc
assignment-stop k d op h = refl

pub prefix-stop :
    (k : TokenKlass) (d : ℕ) (op : UnaryOp)
    → try_parse_prefix_unary_op k ≡ some op
    → stops k d ≡ false
unfolding stops is_klass try_parse_prefix_unary_op
prefix-stop (TokenKlass.keyword n) d op h = cc
prefix-stop TokenKlass.eof d op h = cc
prefix-stop TokenKlass.semicolon d op h = cc
prefix-stop TokenKlass.r_brace d op h = cc
prefix-stop k d op h = refl

pub test_step :
    (k : TokenKlass) (s : Parser)
    → ((d : ℕ) → stops k d ≡ false)
    → IsReady s
    → try_test k s ≡ true
    → Stepped s (consume_token s)
test_step k s f r e = consume-Stepped s r (test-stop k s (f s.brace_depth) e)

pub differ : {b : Bool} → b ≡ true → b ≡ false → ⊥
differ h k = cc
