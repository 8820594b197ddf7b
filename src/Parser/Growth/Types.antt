-- ===== src/Parser/Growth/Types.antt =====
-- The same for the types in expressions.
use glsld.Prelude.{false, not, ◌||◌, ℕ, Option, none, if◌then◌else◌}
use glsld.Prelude.Outcome.{done}
use glsld.Token.{TokenKlass}
use glsld.Parser.Tokens.{
  Parser, AstSyntaxToken, consume_token, create_syntax_range, exit_recovery_mode,
  enter_recovery_mode, eof, try_test, peek_klass, k_layout, k_struct, is_builtin_type,
}
use glsld.Parser.Recovery.{
  parse_or_infer_semicolon_helper, parse_comma_in_paren_helper, parse_optional_decl_id_helper,
}
use glsld.Parser.Syntax.{
  LayoutItems, QualifierSeq, QualType, Declarators, StructFields, no_fields, struct_field,
  named_type, no_array_spec,
}
use glsld.Parser.Calls.{Calls}
use glsld.Parser.Qualifiers
use glsld.Parser.Types
use glsld.Parser.Growth.{Grows, Grows-refl, Grows-bind, Grows-if, Grow}
use glsld.Parser.Growth.Bodies.{expr_no_comma, bracket_wrapped}

module _ (self self' : Calls) (g : Grow self self') where
  layout_next :
      (left : ℕ) (push : LayoutItems → LayoutItems) (s : Parser)
      → Grows (Qualifiers.layout_next self left push s) (Qualifiers.layout_next self' left push s)
  layout_next left push s =
      Grows-bind _ _ _ _ (Grows-refl (parse_comma_in_paren_helper left s)) (λ more.
        Grows-if more.0 _ _ _ _
          (Grows-bind _ _ _ _ (g.layout_loop left more.1) (λ rest. Grows-refl _)) (Grows-refl _))

  layout_value :
      (left : ℕ) (id : Option AstSyntaxToken × Parser)
      → Grows (Qualifiers.layout_value self left id) (Qualifiers.layout_value self' left id)
  layout_value left id =
      Grows-if (try_test TokenKlass.assign id.1) _ _ _ _
        (Grows-bind _ _ _ _ (expr_no_comma self self' g (consume_token id.1))
          (λ v. layout_next left _ v.1))
        (layout_next left _ id.1)

  pub layout_loop :
      (left : ℕ) (s : Parser)
      → Grows (Qualifiers.layout_loop_body self left s) (Qualifiers.layout_loop_body self' left s)
  unfolding Qualifiers.layout_loop_body
  layout_loop left s = Grows-if (eof s) _ _ _ _ (Grows-refl _) (
      Grows-if (try_test TokenKlass.r_paren s) _ _ _ _ (Grows-refl _)
        (layout_value left (parse_optional_decl_id_helper s)))

  layout_qualifier :
      (s : Parser)
      → Grows (Qualifiers.parse_layout_qualifier self s) (Qualifiers.parse_layout_qualifier self' s)
  unfolding Qualifiers.parse_layout_qualifier
  layout_qualifier s = Grows-if (not (try_test k_layout s)) _ _ _ _ (Grows-refl _) (
      Grows-if (not (try_test TokenKlass.l_paren (consume_token s))) _ _ _ _ (Grows-refl _)
        (Grows-bind _ _ _ _ (g.layout_loop _ _) (λ a. Grows-refl _)))

  qualifier_next :
      (flag : Option ℕ) (s : Parser)
      → Grows (Qualifiers.qualifier_next self flag s) (Qualifiers.qualifier_next self' flag s)
  qualifier_next flag s =
      Grows-if (try_test k_layout s) _ _ _ _
        (Grows-bind _ _ _ _ (layout_qualifier s)
          (λ a. Grows-bind _ _ _ _ (g.qualifier_loop a.1) (λ b. Grows-refl _)))
        (Grows-if (Qualifiers.has_flag flag) _ _ _ _
          (Grows-bind _ _ _ _ (g.qualifier_loop s) (λ b. Grows-refl _)) (Grows-refl _))

  pub qualifier_loop :
      (s : Parser)
      → Grows (Qualifiers.qualifier_loop_body self s) (Qualifiers.qualifier_loop_body self' s)
  unfolding Qualifiers.qualifier_loop_body
  qualifier_loop s = Grows-if s.recovering _ _ _ _ (Grows-refl _) (
      qualifier_next (Qualifiers.qualifier_flag (peek_klass s)) (
        if Qualifiers.has_flag (Qualifiers.qualifier_flag (peek_klass s))
        then consume_token s
        else s))

  pub size_loop : (s : Parser) → Grows (Types.size_loop_body self s) (Types.size_loop_body self' s)
  unfolding Types.size_loop_body
  size_loop s =
      Grows-if (try_test TokenKlass.l_bracket s) _ _ _ _
        (Grows-bind _ _ _ _ (bracket_wrapped self self' g false s)
          (λ a. Grows-bind _ _ _ _ (g.size_loop a.1) (λ b. Grows-refl _)))
        (Grows-refl _)

  array_spec :
      (s : Parser)
      → Grows (Types.parse_optional_array_spec self s) (Types.parse_optional_array_spec self' s)
  unfolding Types.parse_optional_array_spec
  array_spec s =
      Grows-if (try_test TokenKlass.l_bracket s) _ _ _ _
        (Grows-bind _ _ _ _ (g.size_loop s) (λ a. Grows-refl _)) (Grows-refl _)

  pub declarator_loop :
      (s : Parser) → Grows (Types.declarator_loop_body self s) (Types.declarator_loop_body self' s)
  unfolding Types.declarator_loop_body
  declarator_loop s =
      Grows-if (try_test TokenKlass.identifier s) _ _ _ _
        (Grows-bind _ _ _ _ (Grows-bind _ _ _ _ (array_spec _) (λ a. Grows-refl _)) (λ d.
          Grows-if (try_test TokenKlass.comma d.1) _ _ _ _
            (Grows-bind _ _ _ _ (g.declarator_loop (consume_token d.1)) (λ a. Grows-refl _))
            (Grows-refl _)))
        (Grows-refl _)

  struct_next :
      (push : StructFields → StructFields) (s : Parser)
      → Grows (Types.struct_next self push s) (Types.struct_next self' push s)
  struct_next push s =
      Grows-if (try_test TokenKlass.r_brace s) _ _ _ _ (Grows-refl _)
        (Grows-bind _ _ _ _ (g.struct_loop s) (λ a. Grows-refl _))

  field_end :
      (begin : ℕ) (type : QualType) (ds : Declarators) (s : Parser)
      → Grows
          (Types.parse_struct_field_end self begin type ds s)
          (Types.parse_struct_field_end self' begin type ds s)
  unfolding Types.parse_struct_field_end
  field_end begin type ds s =
      let t = parse_or_infer_semicolon_helper s in
      Grows-if (not s.recovering) _ _ _ _
        (struct_next (struct_field (create_syntax_range begin t) type ds) t)
        (Grows-if (try_test TokenKlass.semicolon s) _ _ _ _
          (struct_next (λ fields. fields) (exit_recovery_mode (consume_token s)))
          (Grows-refl (done (no_fields, s))))

  struct_body :
      (s : Parser) → Grows (Types.parse_struct_body self s) (Types.parse_struct_body self' s)
  unfolding Types.parse_struct_body
  struct_body s = Grows-if (not (try_test TokenKlass.l_brace s)) _ _ _ _ (Grows-refl _) (
      Grows-if (try_test TokenKlass.r_brace (consume_token s)) _ _ _ _ (Grows-refl _)
        (Grows-bind _ _ _ _ (g.struct_loop _) (λ a. Grows-refl _)))

  struct_content :
      (begin : ℕ) (name : Option AstSyntaxToken × Parser)
      → Grows (Types.struct_content self begin name) (Types.struct_content self' begin name)
  struct_content begin name =
      Grows-if (try_test TokenKlass.l_brace name.1) _ _ _ _
        (Grows-bind _ _ _ _ (struct_body name.1) (λ a. Grows-refl _)) (Grows-refl _)

  struct_definition :
      (s : Parser)
      → Grows (Types.parse_struct_definition self s) (Types.parse_struct_definition self' s)
  unfolding Types.parse_struct_definition
  struct_definition s =
      Grows-if (not (try_test k_struct s)) _ _ _ _ (Grows-refl _)
        (struct_content s.token_index (Types.optional_name (consume_token s)))

  pub type_spec :
      (quals : QualifierSeq) (s : Parser)
      → Grows (Types.parse_type_spec self quals s) (Types.parse_type_spec self' quals s)
  unfolding Types.parse_type_spec
  type_spec quals s =
      Grows-if (try_test k_struct s) _ _ _ _
        (Grows-bind _ _ _ _ (struct_definition s)
          (λ a. Grows-bind _ _ _ _ (array_spec a.1) (λ b. Grows-refl _)))
        (Grows-if (try_test TokenKlass.identifier s || is_builtin_type (peek_klass s)) _ _ _ _
          (Grows-bind _ _ _ _ (array_spec (consume_token s)) (λ b. Grows-refl _))
          (Grows-refl (
            done (
              named_type (create_syntax_range (Types.begin_of quals s) (enter_recovery_mode s))
                  quals none no_array_spec,
              enter_recovery_mode s,
            ))))

  qual_type : (s : Parser) → Grows (Types.parse_qual_type self s) (Types.parse_qual_type self' s)
  unfolding Types.parse_qual_type Qualifiers.parse_type_qualifier_seq
  qual_type s =
      Grows-bind _ _ _ _ (Grows-bind _ _ _ _ (g.qualifier_loop s) (λ a. Grows-refl _))
        (λ a. type_spec a.0 a.1)

  pub struct_loop :
      (s : Parser) → Grows (Types.struct_loop_body self s) (Types.struct_loop_body self' s)
  unfolding Types.struct_loop_body
  struct_loop s = Grows-if (eof s) _ _ _ _ (Grows-refl _) (
      Grows-if (try_test TokenKlass.semicolon s) _ _ _ _ (g.struct_loop _) (
        Grows-bind _ _ _ _ (qual_type s) (λ type.
          Grows-bind _ _ _ _ (g.declarator_loop type.1)
            (λ ds. field_end s.token_index type.0 ds.0 ds.1))))
