-- ===== src/Parser/Postfix.antt =====
-- Parser.cpp: `ParsePostfixExpr`, constructor calls and function arguments.
use glsld.Prelude.{
  ℕ, Bool, true, false, not, ◌&&◌, ◌||◌, [], ◌∷◌, Option, none, some, if◌then◌else◌,
}
use glsld.Prelude.Outcome.{done, failed, ◌>>=◌}
use glsld.Token.{TokenKlass, Bytes, text_eq}
use glsld.Parser.Tokens.{
  Parser, AstSyntaxToken, peek_klass, peek_token, eof, try_test, try_test_second, consume_token,
  report_error, get_current_token, create_syntax_range, k_struct, k_void, is_builtin_type,
}
use glsld.Parser.Recovery.{
  parse_comma_in_paren_helper, parse_closing_paren_helper, parse_optional_decl_id_helper,
}
use glsld.Parser.Syntax.{
  Expr, Exprs, no_exprs, expr_and, QualType, UnaryOp, unary_expr, index_access_expr,
  dot_access_expr, function_call_expr, constructor_call_expr, type_range, no_qualifiers,
}
use glsld.Parser.Calls.{Parsed, Calls}
use glsld.Parser.Exprs.{create_error_expr, parse_primary_expr, parse_bracket_wrapped_expr}
use glsld.Parser.Types.{parse_type_spec}

-- `text.Equals("length")`; a missing name has no text.
abbrev pub is_length : Option AstSyntaxToken → Bool
is_length none = false
is_length (some t) = text_eq t.text (108 ∷ 101 ∷ 110 ∷ 103 ∷ 116 ∷ 104 ∷ [])

-- With `emptyIsError` there is always an expression.
abbrev pub index_of : Option Expr → Parser → Expr
index_of none s = create_error_expr s
index_of (some e) s = e

module _ (self : Calls) where
  unfoldable pub argument_loop_body : ℕ → Parser → Parsed Exprs
  unfolding try_test parse_comma_in_paren_helper
  argument_loop_body left_paren_depth s =
      if eof s
      then done (no_exprs, s)
      else (self.assignment_expr s >>= λ argument.
          parse_comma_in_paren_helper left_paren_depth argument.1 >>= λ more.
          if more.0
          then (self.argument_loop left_paren_depth more.1 >>= λ rest.
              done (expr_and argument.0 rest.0, rest.1))
          else done (expr_and argument.0 no_exprs, more.1))

  abbrev pub argument_list : Parser → Parsed Exprs
  argument_list t =
      if try_test TokenKlass.r_paren t
      then done (no_exprs, t)
      else if try_test k_void t && try_test_second TokenKlass.r_paren t
      then done (no_exprs, consume_token t)
      else self.argument_loop t.paren_depth t

  -- `ParseFunctionArgumentList`, with its guard.
  unfoldable pub parse_function_argument_list : Parser → Parsed Exprs
  unfolding try_test try_test_second consume_token parse_closing_paren_helper
  parse_function_argument_list s =
      if not (try_test TokenKlass.l_paren s)
      then failed
      else let t = consume_token s in
        (argument_list t >>= λ args.
        parse_closing_paren_helper t.paren_depth args.1 >>= λ u. done (args.0, u))

  unfoldable pub parse_constructor_call_expr : QualType → Parser → Parsed Expr
  unfolding try_test parse_function_argument_list
  parse_constructor_call_expr type_spec s =
      let begin = (type_range type_spec).begin_id in
      if try_test TokenKlass.l_paren s
      then (parse_function_argument_list s >>= λ args.
          done (constructor_call_expr (create_syntax_range begin args.1) type_spec args.0, args.1))
      else let t = report_error s in
        done (constructor_call_expr (create_syntax_range begin t) type_spec no_exprs, t)

  abbrev pub parse_constructor_call : Parser → Parsed Expr
  parse_constructor_call s =
      parse_type_spec self no_qualifiers s >>= λ type. parse_constructor_call_expr type.0 type.1

  -- What `ParsePostfixExpr` parses first, where no expression is given.
  unfoldable pub parse_postfix_head : (Bytes → Bool) → Parser → Parsed Expr
  unfolding try_test try_test_second consume_token parse_type_spec parse_constructor_call_expr
      parse_function_argument_list parse_primary_expr
  parse_postfix_head is_struct_name s =
      if is_builtin_type (peek_klass s) || try_test k_struct s
      then parse_constructor_call s
      else if try_test TokenKlass.identifier s && is_struct_name (peek_token s).text
      then parse_constructor_call s
      else if try_test TokenKlass.identifier s && try_test_second TokenKlass.l_paren s
      then (parse_function_argument_list (consume_token s) >>= λ args. done (
        function_call_expr (create_syntax_range s.token_index args.1) (get_current_token s) args.0,
        args.1,
      ))
      else parse_primary_expr self s

  abbrev pub postfix_dot : ℕ → Expr → Option AstSyntaxToken × Parser → Parsed Expr
  postfix_dot begin result name =
      let t = name.1 in
      let u = consume_token (consume_token t) in
      if is_length name.0 && (try_test TokenKlass.l_paren t && try_test_second TokenKlass.r_paren t)
      then self.postfix_loop begin (unary_expr (create_syntax_range begin u) result UnaryOp.length)
          u
      else self.postfix_loop begin (dot_access_expr (create_syntax_range begin t) result name.0) t

  abbrev postfix_step : ℕ → Expr → UnaryOp → Parser → Parsed Expr
  postfix_step begin result op t =
      self.postfix_loop begin (unary_expr (create_syntax_range begin t) result op) t

  -- The loop of `ParsePostfixExpr`.
  unfoldable pub postfix_loop_body : ℕ → Expr → Parser → Parsed Expr
  unfolding try_test try_test_second consume_token parse_bracket_wrapped_expr
      parse_optional_decl_id_helper
  postfix_loop_body begin result s =
      if s.recovering
      then done (result, s)
      else if try_test TokenKlass.l_bracket s
      then (parse_bracket_wrapped_expr self true s >>= λ index.
          self.postfix_loop begin
            (index_access_expr (create_syntax_range begin index.1) result
              (index_of index.0 index.1))
            index.1)
      else if try_test TokenKlass.dot s
      then postfix_dot begin result (parse_optional_decl_id_helper (consume_token s))
      else if try_test TokenKlass.increment s
      then postfix_step begin result UnaryOp.postfix_inc (consume_token s)
      else if try_test TokenKlass.decrement s
      then postfix_step begin result UnaryOp.postfix_dec (consume_token s)
      else done (result, s)

  -- `ParsePostfixExpr(nullptr)`.
  unfoldable pub parse_postfix_expr : (Bytes → Bool) → Parser → Parsed Expr
  unfolding parse_postfix_head
  parse_postfix_expr is_struct_name s =
      parse_postfix_head is_struct_name s >>= λ r. self.postfix_loop s.token_index r.0 r.1
