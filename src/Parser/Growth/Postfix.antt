-- ===== src/Parser/Growth/Postfix.antt =====
-- The same for calls and the operators behind an operand.
use glsld.Prelude.{Bool, true, not, ◌&&◌, ◌||◌, ℕ, Option}
use glsld.Prelude.Outcome.{done}
use glsld.Token.{TokenKlass, Bytes}
use glsld.Parser.Tokens.{
  Parser, AstSyntaxToken, consume_token, get_current_token, create_syntax_range, eof, try_test,
  try_test_second, peek_klass, peek_token, k_struct, k_void, is_builtin_type,
}
use glsld.Parser.Recovery.{parse_comma_in_paren_helper, parse_optional_decl_id_helper}
use glsld.Parser.Syntax.{Expr, function_call_expr}
use glsld.Parser.Calls.{Calls}
use glsld.Parser.Postfix
use glsld.Parser.Growth.{Grows, Grows-refl, Grows-bind, Grows-if, Grow}
use glsld.Parser.Growth.Bodies.{bracket_wrapped, primary_expr}
use glsld.Parser.Growth.Types.{type_spec}

module _ (self self' : Calls) (g : Grow self self') where
  pub argument_loop :
      (left : ℕ) (s : Parser)
      → Grows (Postfix.argument_loop_body self left s) (Postfix.argument_loop_body self' left s)
  unfolding Postfix.argument_loop_body
  argument_loop left s = Grows-if (eof s) _ _ _ _ (Grows-refl _) (
      Grows-bind _ _ _ _ (g.assignment_expr s) (λ a.
        Grows-bind _ _ _ _ (Grows-refl (parse_comma_in_paren_helper left a.1)) (λ more.
          Grows-if more.0 _ _ _ _
            (Grows-bind _ _ _ _ (g.argument_loop left more.1) (λ b. Grows-refl _)) (Grows-refl _))))

  argument_list :
      (s : Parser)
      → Grows
          (Postfix.parse_function_argument_list self s)
          (Postfix.parse_function_argument_list self' s)
  unfolding Postfix.parse_function_argument_list
  argument_list s =
      let t = consume_token s in
      Grows-if (not (try_test TokenKlass.l_paren s)) _ _ _ _ (Grows-refl _) (
        Grows-bind _ _ _ _
          (Grows-if (try_test TokenKlass.r_paren t) _ _ _ _ (Grows-refl _) (
            Grows-if (try_test k_void t && try_test_second TokenKlass.r_paren t) _ _ _ _
              (Grows-refl _) (g.argument_loop t.paren_depth t)))
          (λ a. Grows-refl _))

  constructor_call :
      (s : Parser)
      → Grows (Postfix.parse_constructor_call self s) (Postfix.parse_constructor_call self' s)
  unfolding Postfix.parse_constructor_call_expr
  constructor_call s = Grows-bind _ _ _ _ (type_spec self self' g _ s) (λ type.
      Grows-if (try_test TokenKlass.l_paren type.1) _ _ _ _
        (Grows-bind _ _ _ _ (argument_list type.1) (λ a. Grows-refl _)) (Grows-refl _))

  postfix_head :
      (is_struct_name : Bytes → Bool) (s : Parser)
      → Grows
          (Postfix.parse_postfix_head self is_struct_name s)
          (Postfix.parse_postfix_head self' is_struct_name s)
  unfolding Postfix.parse_postfix_head
  postfix_head is_struct_name s =
      Grows-if (is_builtin_type (peek_klass s) || try_test k_struct s) _ _ _ _ (constructor_call s)
        (Grows-if (try_test TokenKlass.identifier s && is_struct_name (peek_token s).text) _ _ _ _
          (constructor_call s)
          (Grows-if (try_test TokenKlass.identifier s && try_test_second TokenKlass.l_paren s) _ _ _
            _
            (Grows-bind _ _ _ _ (argument_list (consume_token s)) (λ a. Grows-refl (
              done (
                function_call_expr (create_syntax_range s.token_index a.1) (get_current_token s)
                    a.0,
                a.1,
              ))))
            (primary_expr self self' g s)))

  dot :
      (begin : ℕ) (e : Expr) (name : Option AstSyntaxToken × Parser)
      → Grows (Postfix.postfix_dot self begin e name) (Postfix.postfix_dot self' begin e name)
  dot begin e name =
      let t = name.1 in
      Grows-if
        (Postfix.is_length name.0
          && (try_test TokenKlass.l_paren t && try_test_second TokenKlass.r_paren t))
        _ _ _ _ (g.postfix_loop begin _ _) (g.postfix_loop begin _ _)

  pub postfix_loop :
      (begin : ℕ) (e : Expr) (s : Parser)
      → Grows (Postfix.postfix_loop_body self begin e s) (Postfix.postfix_loop_body self' begin e s)
  unfolding Postfix.postfix_loop_body
  postfix_loop begin e s = Grows-if s.recovering _ _ _ _ (Grows-refl _) (
      Grows-if (try_test TokenKlass.l_bracket s) _ _ _ _
        (Grows-bind _ _ _ _ (bracket_wrapped self self' g true s) (λ a. g.postfix_loop begin _ a.1))
        (Grows-if (try_test TokenKlass.dot s) _ _ _ _
          (dot begin e (parse_optional_decl_id_helper (consume_token s)))
          (Grows-if (try_test TokenKlass.increment s) _ _ _ _
            (g.postfix_loop begin _ (consume_token s))
            (Grows-if (try_test TokenKlass.decrement s) _ _ _ _
              (g.postfix_loop begin _ (consume_token s)) (Grows-refl _)))))

  pub postfix_expr :
      (is_struct_name : Bytes → Bool) (s : Parser)
      → Grows
          (Postfix.parse_postfix_expr self is_struct_name s)
          (Postfix.parse_postfix_expr self' is_struct_name s)
  unfolding Postfix.parse_postfix_expr
  postfix_expr is_struct_name s =
      Grows-bind _ _ _ _ (postfix_head is_struct_name s) (λ a. g.postfix_loop s.token_index a.0 a.1)
