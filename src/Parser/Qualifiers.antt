-- ===== src/Parser/Qualifiers.antt =====
-- Parser.cpp: `ParseLayoutQualifier` and `ParseTypeQualifierSeq`.
use glsld.Prelude.{
  ℕ, Bool, true, false, not, List, [], ◌∷◌, Option, none, some, ◌==◌, ltb, if◌then◌else◌,
}
use glsld.Prelude.Outcome.{done, failed, ◌>>=◌}
use glsld.Token.{TokenKlass}
use glsld.Parser.Tokens.{
  Parser, AstSyntaxToken, peek_klass, eof, try_test, consume_token, enter_recovery_mode,
  create_syntax_range, k_layout,
}
use glsld.Parser.Recovery.{
  parse_comma_in_paren_helper, parse_closing_paren_helper, parse_optional_decl_id_helper,
}
use glsld.Parser.Syntax.{
  QualifierSeq, no_qualifiers, qualifier_seq, LayoutItems, no_items, item, item_value,
}
use glsld.Parser.Calls.{Parsed, Calls}
use glsld.Parser.Exprs.{parse_expr_no_comma}

-- The flag that the switch of `ParseTypeQualifierSeq` sets, as the keyword that is named like it. The
-- keywords of a vendor set the flag of the extension, and `perprimitiveEXT` that of the vendor.
unfoldable pub qualifier_flag : TokenKlass → Option ℕ
qualifier_flag (TokenKlass.keyword n) =
    if n == 13
    then none
    else if n == 20
    then none
    else if n == 27
    then none
    else if ltb n 28
    then some n
    else if ltb n 43
    then none
    else if n == 43
    then some 44
    else if n == 45
    then some 46
    else if n == 47
    then some 48
    else if n == 49
    then some 50
    else if n == 51
    then some 52
    else if n == 57
    then some 53
    else if ltb n 57
    then some n
    else none
qualifier_flag k = none

abbrev pub has_flag : Option ℕ → Bool
has_flag none = false
has_flag (some n) = true

abbrev pub set_flag : Option ℕ → List ℕ → List ℕ
set_flag none flags = flags
set_flag (some n) flags = n ∷ flags

abbrev pub append_items : LayoutItems → LayoutItems → LayoutItems
append_items no_items js = js
append_items (item id is) js = item id (append_items is js)
append_items (item_value id e is) js = item_value id e (append_items is js)

module _ (self : Calls) where
  abbrev pub layout_next : ℕ → (LayoutItems → LayoutItems) → Parser → Parsed LayoutItems
  layout_next left_paren_depth push s = parse_comma_in_paren_helper left_paren_depth s >>= λ more.
      if more.0
      then (self.layout_loop left_paren_depth more.1 >>= λ rest. done (push rest.0, rest.1))
      else done (push no_items, more.1)

  abbrev pub layout_value : ℕ → Option AstSyntaxToken × Parser → Parsed LayoutItems
  layout_value left_paren_depth id =
      if try_test TokenKlass.assign id.1
      then (parse_expr_no_comma self (consume_token id.1) >>= λ value.
          layout_next left_paren_depth (item_value id.0 value.0) value.1)
      else layout_next left_paren_depth (item id.0) id.1

  unfoldable pub layout_loop_body : ℕ → Parser → Parsed LayoutItems
  unfolding try_test consume_token parse_optional_decl_id_helper
  layout_loop_body left_paren_depth s =
      if eof s
      then done (no_items, s)
      else if try_test TokenKlass.r_paren s
      then done (no_items, s)
      else layout_value left_paren_depth (parse_optional_decl_id_helper s)

  -- `ParseLayoutQualifier`, which adds to `items`.
  unfoldable pub parse_layout_qualifier : Parser → Parsed LayoutItems
  unfolding try_test consume_token parse_closing_paren_helper
  parse_layout_qualifier s =
      if not (try_test k_layout s)
      then failed
      else if not (try_test TokenKlass.l_paren (consume_token s))
      then done (no_items, enter_recovery_mode (consume_token s))
      else let t = consume_token (consume_token s) in
        (self.layout_loop t.paren_depth t >>= λ items.
        parse_closing_paren_helper t.paren_depth items.1 >>= λ u. done (items.0, u))

  abbrev pub qualifier_next : Option ℕ → Parser → Parsed (List ℕ × LayoutItems)
  qualifier_next flag s =
      if try_test k_layout s
      then (parse_layout_qualifier s >>= λ items. self.qualifier_loop items.1 >>= λ rest.
          done ((set_flag flag rest.0.0, append_items items.0 rest.0.1), rest.1))
      else if has_flag flag
      then (self.qualifier_loop s >>= λ rest. done ((set_flag flag rest.0.0, rest.0.1), rest.1))
      else done (([], no_items), s)

  -- The loop of `ParseTypeQualifierSeq`, whose switch reads the current token.
  unfoldable pub qualifier_loop_body : Parser → Parsed (List ℕ × LayoutItems)
  unfolding try_test consume_token qualifier_flag
  qualifier_loop_body s =
      let flag = qualifier_flag (peek_klass s) in
      if s.recovering
      then done (([], no_items), s)
      else qualifier_next flag (if has_flag flag then consume_token s else s)

  unfoldable pub parse_type_qualifier_seq : Parser → Parsed QualifierSeq
  parse_type_qualifier_seq s = self.qualifier_loop s >>= λ r. done (
    if r.1.token_index == s.token_index
        then no_qualifiers
        else qualifier_seq (create_syntax_range s.token_index r.1) r.0.0 r.0.1,
    r.1,
  )
