-- ===== src/PpEval/Tests.antt =====
-- Concrete expressions for the evaluator: `1 + 2 * defined(X)` and the like.
use glsld.Prelude.{ℕ, ◌≡◌, refl, false, [], ◌∷◌, arith}
use glsld.Prelude.Int.{pos}
use glsld.Source.{TextPosition}
use glsld.Token.{PpToken, TokenKlass, Bytes}
use glsld.PpEval.Arith.{done, negate, subtract, multiply}
use glsld.PpEval.Grammar.{
  Expr, operand, group, prefixed, chained, tokens, meaning, IsParsed, operand_ok, group_ok,
  prefixed_ok, chained_ok, number,
}
use glsld.PpEval.{evaluate}
use glsld.PpEval.Correct.{evaluate-tokens}

abbrev origin : TextPosition
origin = record { line = 0; character = 0 }

abbrev token : TokenKlass → Bytes → PpToken
token k s = record {
  klass = k;
  spelled_file = 1;
  spelled_range = record { start = origin; end = origin };
  text = s;
  is_first_token_of_line = false;
  has_leading_whitespace = false;
}

abbrev lit : ℕ → Expr
lit c = operand (token TokenKlass.number_literal (c ∷ []))

-- 8 - (2 - -1) * 2
abbrev sample : Expr
sample = chained (lit b'8') subtract (token TokenKlass.dash []) (
    chained
      (group (token TokenKlass.l_paren [])
        (chained (lit b'2') subtract (token TokenKlass.dash [])
          (prefixed negate (token TokenKlass.dash []) (lit b'1')))
        (token TokenKlass.r_paren []))
      multiply (token TokenKlass.star []) (lit b'2'))

sample-IsParsed : IsParsed sample
sample-IsParsed =
    chained_ok refl refl (operand_ok number) (omega arith)
      (chained_ok refl refl
        (group_ok refl
          (chained_ok refl refl (operand_ok number) (omega arith)
            (prefixed_ok refl refl (operand_ok number) (omega arith)) (omega arith))
          refl)
        (omega arith) (operand_ok number) (omega arith))
      (omega arith)

evaluate-tokens_example : evaluate (tokens sample) ≡ meaning sample
evaluate-tokens_example = evaluate-tokens sample sample-IsParsed

sample_value : evaluate (tokens sample) ≡ done (pos 2)
unfolding evaluate
sample_value = refl

sample-meaning : meaning sample ≡ done (pos 2)
unfolding meaning evaluate
sample-meaning = refl
