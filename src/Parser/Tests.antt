-- ===== src/Parser/Tests.antt =====
-- The parser on small inputs, and the theorems there.
use glsld.Prelude.{ℕ, ◌+◌, ◌≡◌, inr, refl, false, List, [], ◌∷◌, arith}
use glsld.Prelude.Outcome.{done, out_of_fuel, Good}
use glsld.Token.{TokenKlass, is_klass}
use glsld.Parser.Tokens.{Parser, RawSyntaxToken, SyntaxRange}
use glsld.Parser.Run.{parse}
use glsld.Parser.Total.Fine.{Tried}
use glsld.Parser.Total.Knot.{parse_returns}
use glsld.Parser.Syntax.{Expr, BinaryOp}
use glsld.Parser.Operators.{try_parse_binary_op, try_parse_assignment_op}
use glsld.Parser.Grouping.{IsGrouped, words, level, Link, chain_tokens, chain_words}
use glsld.Parser.Grouping.Operand.{follows_name}
use glsld.Parser.Grouping.Whole.{IsWhole, parse-IsWhole, parse-SameShape}
use glsld.Parser.Grouping.Unique.{SameShape}
use glsld.Parser.Hang.{sum_of_struct, parse_hangs}

abbrev token : TokenKlass → RawSyntaxToken
token k = record { klass = k; text = [] }

abbrev start : List RawSyntaxToken → Parser
start ts = record {
  tokens = ts;
  token_index = 0;
  recovering = false;
  paren_depth = 0;
  bracket_depth = 0;
  brace_depth = 0;
  ilist_brace_depth = 0;
  errors = 0;
}

-- `f(a, (b; c`.
abbrev broken_call : List RawSyntaxToken
broken_call =
    token TokenKlass.identifier
    ∷ token TokenKlass.l_paren
    ∷ token TokenKlass.identifier
    ∷ token TokenKlass.comma
    ∷ token TokenKlass.l_paren
    ∷ token TokenKlass.identifier
    ∷ token TokenKlass.semicolon
    ∷ token TokenKlass.identifier
    ∷ token TokenKlass.eof
    ∷ []

parse_returns_example :
    (r : Expr × Parser) × (Tried (start broken_call) r.1
      × ((extra : ℕ) → parse (λ text. false) (extra + 39) (start broken_call) ≡ done r))
unfolding is_klass
parse_returns_example =
    parse_returns (λ text. false) (start broken_call)
      (record {
        stopped = λ e. cc;
        plain = (refl, (refl, (refl, (refl, (refl, (refl, (refl, (refl, (refl, tt)))))))));
      })

parse_hangs_example :
    parse (λ name. false) 1000 (sum_of_struct (token TokenKlass.identifier ∷ [])) ≡ out_of_fuel
parse_hangs_example = parse_hangs 1000 (token TokenKlass.identifier ∷ [])

abbrev name : ℕ → RawSyntaxToken
name n = record { klass = TokenKlass.identifier; text = n ∷ [] }

-- `a + b * c ;`.
abbrev links : List Link
links =
    record {
      operator = token TokenKlass.plus;
      desc = record { opcode = BinaryOp.plus; precedence = 9 };
      operand = name 98;
    }
    ∷ record {
      operator = token TokenKlass.star;
      desc = record { opcode = BinaryOp.mul; precedence = 10 };
      operand = name 99;
    }
    ∷ []

abbrev semicolon : List RawSyntaxToken
semicolon = token TokenKlass.semicolon ∷ []

parse-IsWhole_example :
    Good ⊥
      (IsWhole (inr (97 ∷ []) ∷ chain_words links) semicolon)
      (parse (λ text. false) 8 (start (name 97 ∷ chain_tokens links semicolon)))
unfolding is_klass try_parse_binary_op try_parse_assignment_op follows_name
parse-IsWhole_example =
    parse-IsWhole (λ text. false) 8 (name 97) links semicolon
      (start (name 97 ∷ chain_tokens links semicolon)) refl refl refl refl
      (
        record { operator_read = refl; name = refl; no_struct_name = refl },
        (record { operator_read = refl; name = refl; no_struct_name = refl }, tt),
      )
      (record {
        ending = record { follows = refl; no_operator = refl };
        no_assignment = refl;
        no_question = refl;
        no_comma = refl;
      })
      (omega arith)

abbrev named : ℕ → Expr
named n =
    Expr.name_access_expr (record { begin_id = 0; end_id = 0 })
      (record { id = 0; klass = TokenKlass.identifier; text = n ∷ [] })

-- `a + b * c`, wherever it stands.
abbrev sum_of_product : Expr
sum_of_product =
    let r : SyntaxRange = record { begin_id = 0; end_id = 0 } in
    Expr.binary_expr r (named 97) (Expr.binary_expr r (named 98) (named 99) BinaryOp.mul)
      BinaryOp.plus

parse-SameShape_example :
    Good ⊥
      (λ r. SameShape sum_of_product r.0 × (r.1.tokens ≡ semicolon))
      (parse (λ text. false) 8 (start (name 97 ∷ chain_tokens links semicolon)))
unfolding is_klass try_parse_binary_op try_parse_assignment_op follows_name IsGrouped words
    chain_words level
parse-SameShape_example =
    parse-SameShape (λ text. false) 8 sum_of_product (name 97) links semicolon
      (start (name 97 ∷ chain_tokens links semicolon)) (omega arith, (tt, (omega arith, (tt, tt))))
      refl refl refl refl refl
      (
        record { operator_read = refl; name = refl; no_struct_name = refl },
        (record { operator_read = refl; name = refl; no_struct_name = refl }, tt),
      )
      (record {
        ending = record { follows = refl; no_operator = refl };
        no_assignment = refl;
        no_question = refl;
        no_comma = refl;
      })
      (omega arith)
