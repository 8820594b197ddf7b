-- ===== src/Parser/Types.antt =====
-- Parser.cpp: types, struct definitions, array specifiers and declarators without
-- an initializer, as far as an expression can have them in it.
use glsld.Prelude.{ℕ, false, not, ◌||◌, Option, none, some, if◌then◌else◌}
use glsld.Prelude.Outcome.{Result, done, failed, ◌>>=◌}
use glsld.Token.{TokenKlass}
use glsld.Parser.Tokens.{
  Parser, AstSyntaxToken, peek_klass, eof, try_test, consume_token, enter_recovery_mode,
  exit_recovery_mode, get_current_token, create_syntax_range, k_struct, is_builtin_type,
}
use glsld.Parser.Recovery.{
  RecoveryMode, recover_from_error, exit_if_recovering, parse_or_infer_semicolon_helper,
  parse_optional_decl_id_helper,
}
use glsld.Parser.Syntax.{
  Expr, Sizes, no_sizes, unsized, sized, ArraySpec, no_array_spec, array_spec, QualifierSeq,
  no_qualifiers, qualifier_seq, QualType, named_type, struct_type, StructDecl, struct_decl,
  StructFields, no_fields, struct_field, Declarators, no_declarators, declarator,
}
use glsld.Parser.Calls.{Parsed, Calls}
use glsld.Parser.Qualifiers.{parse_type_qualifier_seq}
use glsld.Parser.Exprs.{parse_bracket_wrapped_expr}

abbrev pub push_size : Option Expr → Sizes → Sizes
push_size none sizes = unsized sizes
push_size (some e) sizes = sized e sizes

abbrev pub begin_of : QualifierSeq → Parser → ℕ
begin_of no_qualifiers s = s.token_index
begin_of (qualifier_seq r flags items) s = r.begin_id

abbrev pub optional_name : Parser → Option AstSyntaxToken × Parser
optional_name s =
    if try_test TokenKlass.identifier s
    then (some (get_current_token s), consume_token s)
    else (none, s)

module _ (self : Calls) where
  unfoldable pub size_loop_body : Parser → Parsed Sizes
  unfolding try_test parse_bracket_wrapped_expr
  size_loop_body s =
      if try_test TokenKlass.l_bracket s
      then (parse_bracket_wrapped_expr self false s >>= λ size.
          self.size_loop size.1 >>= λ sizes. done (push_size size.0 sizes.0, sizes.1))
      else done (no_sizes, s)

  -- `ParseArraySpec`, and where the code asks for a `[` before it calls it.
  unfoldable pub parse_optional_array_spec : Parser → Parsed ArraySpec
  unfolding try_test
  parse_optional_array_spec s =
      if try_test TokenKlass.l_bracket s
      then (self.size_loop s >>= λ sizes.
          done (array_spec (create_syntax_range s.token_index sizes.1) sizes.0, sizes.1))
      else done (no_array_spec, s)

  -- `ParseDeclaratorNoInit`, with the declarators that follow.
  abbrev pub parse_declarator_no_init : Parser → Parsed (Declarators → Declarators)
  parse_declarator_no_init s =
      let id = parse_optional_decl_id_helper s in
      (parse_optional_array_spec id.1 >>= λ spec. done (declarator id.0 spec.0, spec.1))

  -- `ParseDeclaratorListNoInit`.
  unfoldable pub declarator_loop_body : Parser → Parsed Declarators
  unfolding try_test consume_token parse_optional_decl_id_helper
  declarator_loop_body s =
      if try_test TokenKlass.identifier s
      then (parse_declarator_no_init s >>= λ d.
          if try_test TokenKlass.comma d.1
          then (self.declarator_loop (consume_token d.1) >>= λ rest. done (d.0 rest.0, rest.1))
          else done (d.0 no_declarators, d.1))
      else done (no_declarators, s)

  abbrev pub struct_next : (StructFields → StructFields) → Parser → Parsed StructFields
  struct_next push s =
      if try_test TokenKlass.r_brace s
      then done (push no_fields, s)
      else (self.struct_loop s >>= λ rest. done (push rest.0, rest.1))

  -- The loop of `ParseStructBody` behind the type and the declarators of a field.
  unfoldable pub parse_struct_field_end : ℕ → QualType → Declarators → Parser → Parsed StructFields
  unfolding try_test consume_token parse_or_infer_semicolon_helper
  parse_struct_field_end begin type declarators s =
      let t = parse_or_infer_semicolon_helper s in
      if not s.recovering
      then struct_next (struct_field (create_syntax_range begin t) type declarators) t
      else if try_test TokenKlass.semicolon s
      then struct_next (λ fields. fields) (exit_recovery_mode (consume_token s))
      else done (no_fields, s)

  abbrev close_struct_body : Parser → Result Parser
  close_struct_body s =
      if try_test TokenKlass.r_brace s
      then done (consume_token s)
      else (recover_from_error RecoveryMode.brace s >>= λ t.
          done (if try_test TokenKlass.r_brace t then exit_if_recovering (consume_token t) else t))

  unfoldable pub parse_struct_body : Parser → Parsed StructFields
  unfolding try_test consume_token recover_from_error
  parse_struct_body s =
      if not (try_test TokenKlass.l_brace s)
      then failed
      else if try_test TokenKlass.r_brace (consume_token s)
      then done (no_fields, consume_token (consume_token s))
      else (self.struct_loop (consume_token s) >>= λ fields.
          close_struct_body fields.1 >>= λ t. done (fields.0, t))

  abbrev pub struct_content : ℕ → Option AstSyntaxToken × Parser → Parsed StructDecl
  struct_content begin name =
      if try_test TokenKlass.l_brace name.1
      then (parse_struct_body name.1 >>= λ fields.
          done (struct_decl (create_syntax_range begin fields.1) name.0 fields.0, fields.1))
      else let t = enter_recovery_mode name.1 in
        done (struct_decl (create_syntax_range begin t) name.0 no_fields, t)

  unfoldable pub parse_struct_definition : Parser → Parsed StructDecl
  unfolding try_test consume_token parse_struct_body
  parse_struct_definition s =
      if not (try_test k_struct s)
      then failed
      else struct_content s.token_index (optional_name (consume_token s))

  -- `GetCurrentToken()` in front of the token that is consumed.
  unfoldable pub parse_type_spec : QualifierSeq → Parser → Parsed QualType
  unfolding try_test consume_token parse_struct_definition parse_optional_array_spec
  parse_type_spec quals s =
      let begin = begin_of quals s in
      if try_test k_struct s
      then (parse_struct_definition s >>= λ definition.
          parse_optional_array_spec definition.1 >>= λ spec.
          done (struct_type (create_syntax_range begin spec.1) quals definition.0 spec.0, spec.1))
      else if try_test TokenKlass.identifier s || is_builtin_type (peek_klass s)
      then (parse_optional_array_spec (consume_token s) >>= λ spec. done (
        named_type (create_syntax_range begin spec.1) quals (some (get_current_token s)) spec.0,
        spec.1,
      ))
      else let t = enter_recovery_mode s in
        done (named_type (create_syntax_range begin t) quals none no_array_spec, t)

  unfoldable pub parse_qual_type : Parser → Parsed QualType
  unfolding parse_type_qualifier_seq parse_type_spec
  parse_qual_type s = parse_type_qualifier_seq self s >>= λ quals. parse_type_spec quals.0 quals.1

  -- The loop of `ParseStructBody`.
  unfoldable pub struct_loop_body : Parser → Parsed StructFields
  unfolding try_test consume_token parse_qual_type parse_struct_field_end
  struct_loop_body s =
      if eof s
      then done (no_fields, s)
      else if try_test TokenKlass.semicolon s
      then self.struct_loop (consume_token s)
      else (parse_qual_type s >>= λ type. self.declarator_loop type.1 >>= λ declarators.
          parse_struct_field_end s.token_index type.0 declarators.0 declarators.1)
