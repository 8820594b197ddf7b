-- ===== src/Parser/Recovery.antt =====
-- Parser.cpp: `RecoverFromError`, and the helpers for commas, closing parentheses and semicolons.
use glsld.Prelude.{
  ℕ, zero, suc, ◌-◌, Bool, true, false, not, ◌&&◌, Option, none, some, ◌==◌, ltb, if◌then◌else◌,
  length,
}
use glsld.Prelude.Outcome.{Result, done, failed, ◌>>=◌}
use glsld.Token.{TokenKlass, is_klass}
use glsld.Parser.Tokens.{
  Parser, AstSyntaxToken, eof, try_test, consume_token, enter_recovery_mode, exit_recovery_mode,
  report_error, get_current_token,
}

pub data RecoveryMode : Type 0 where
  comma paren bracket brace ilist_brace semi : RecoveryMode

abbrev pub is_paren_mode : RecoveryMode → Bool
is_paren_mode RecoveryMode.comma = true
is_paren_mode RecoveryMode.paren = true
is_paren_mode mode = false

abbrev pub is_comma_mode : RecoveryMode → Bool
is_comma_mode RecoveryMode.comma = true
is_comma_mode mode = false

abbrev pub is_bracket_mode : RecoveryMode → Bool
is_bracket_mode RecoveryMode.bracket = true
is_bracket_mode mode = false

abbrev pub is_ilist_mode : RecoveryMode → Bool
is_ilist_mode RecoveryMode.ilist_brace = true
is_ilist_mode mode = false

abbrev pub stops_at_semicolon : RecoveryMode → Bool
stops_at_semicolon RecoveryMode.brace = false
stops_at_semicolon RecoveryMode.ilist_brace = false
stops_at_semicolon mode = true

-- What the loop does at a token: skip it, return, return through `removeDepthIfUnclosed`, or return
-- with the brace depth of the initializer list.
pub data Move : Type 0 where
  skip stop stop_unclosed stop_ilist : Move

-- The initial state has the depths that the loop compares with.
unfoldable pub recover_move : RecoveryMode → Parser → Parser → Move
unfolding try_test is_klass
recover_move mode init s =
    if try_test TokenKlass.r_paren s
    then (if not (s.paren_depth == 0) && (is_paren_mode mode && s.paren_depth == init.paren_depth)
        then stop
        else skip)
    else if try_test TokenKlass.r_bracket s
    then (if not (s.bracket_depth == 0)
          && (is_bracket_mode mode && s.bracket_depth == init.bracket_depth)
        then stop
        else skip)
    else if try_test TokenKlass.r_brace s
    then (if not (s.brace_depth == 0) && s.brace_depth == init.brace_depth
        then stop_unclosed
        else skip)
    else if try_test TokenKlass.comma s
    then (if is_comma_mode mode
          && (s.paren_depth == init.paren_depth
              && (s.bracket_depth == init.bracket_depth && s.brace_depth == init.brace_depth))
        then stop
        else skip)
    else if try_test TokenKlass.semicolon s
    then (if stops_at_semicolon mode && s.brace_depth == init.brace_depth
        then stop_unclosed
        else if is_ilist_mode mode
        then stop_ilist
        else skip)
    else skip

unfoldable pub remove_depth_if_unclosed : RecoveryMode → Parser → Parser
unfolding try_test
remove_depth_if_unclosed RecoveryMode.paren s =
    if try_test TokenKlass.r_paren s then s else record s { paren_depth = s.paren_depth - 1 }
remove_depth_if_unclosed RecoveryMode.bracket s =
    if try_test TokenKlass.r_bracket s then s else record s { bracket_depth = s.bracket_depth - 1 }
remove_depth_if_unclosed RecoveryMode.brace s =
    if try_test TokenKlass.r_brace s then s else record s { brace_depth = s.brace_depth - 1 }
remove_depth_if_unclosed RecoveryMode.ilist_brace s =
    if try_test TokenKlass.r_brace s then s else record s { brace_depth = s.brace_depth - 1 }
remove_depth_if_unclosed mode s = s

-- Every turn of the loop consumes a token, so that the number of tokens bounds it.
unfoldable pub recover_loop : RecoveryMode → Parser → ℕ → Parser → Parser
unfolding recover_move remove_depth_if_unclosed consume_token
recover_loop mode init zero s = s
recover_loop mode init (suc fuel) s =
    let rest = recover_loop mode init fuel (consume_token s) in
    if eof s then s else elim (recover_move mode init s) [
      | skip ↦ rest
      | stop ↦ s
      | stop_unclosed ↦ remove_depth_if_unclosed mode s
      | stop_ilist ↦ record s { brace_depth = s.ilist_brace_depth }
    ]

-- The assertion at the begin.
abbrev pub has_depth : RecoveryMode → Parser → Bool
has_depth RecoveryMode.comma s = ltb 0 s.paren_depth
has_depth RecoveryMode.paren s = ltb 0 s.paren_depth
has_depth RecoveryMode.bracket s = ltb 0 s.bracket_depth
has_depth RecoveryMode.brace s = ltb 0 s.brace_depth
has_depth mode s = true

unfoldable pub recover_from_error : RecoveryMode → Parser → Result Parser
unfolding recover_loop
recover_from_error mode s =
    if has_depth mode s then done (recover_loop mode s (length s.tokens) s) else failed

abbrev pub exit_if_recovering : Parser → Parser
exit_if_recovering s = if s.recovering then exit_recovery_mode s else s

-- `ParseOrInferSemicolonHelper`.
unfoldable pub parse_or_infer_semicolon_helper : Parser → Parser
unfolding try_test consume_token
parse_or_infer_semicolon_helper s =
    if s.recovering
    then s
    else if try_test TokenKlass.semicolon s
    then consume_token s
    else report_error s

-- `ParseCommaInParenHelper`, with its result.
unfoldable pub parse_comma_in_paren_helper : ℕ → Parser → Result (Bool × Parser)
unfolding try_test consume_token recover_from_error
parse_comma_in_paren_helper left_paren_depth s =
    if ltb s.paren_depth left_paren_depth
    then done (false, s)
    else if try_test TokenKlass.r_paren s
    then done (false, s)
    else if try_test TokenKlass.comma s
    then done (true, consume_token s)
    else (recover_from_error RecoveryMode.comma (report_error s) >>= λ t.
        if try_test TokenKlass.comma t then done (true, consume_token t) else done (false, t))

-- The closing delimiter behind the recovery.
abbrev pub close_recovered : TokenKlass → Parser → Parser
close_recovered k t =
    if try_test k t then exit_if_recovering (consume_token t) else enter_recovery_mode t

-- `ParseClosingParenHelper`.
unfoldable pub parse_closing_paren_helper : ℕ → Parser → Result Parser
unfolding try_test consume_token recover_from_error
parse_closing_paren_helper left_paren_depth s =
    if ltb s.paren_depth left_paren_depth
    then done s
    else if try_test TokenKlass.r_paren s
    then done (exit_if_recovering (consume_token s))
    else (recover_from_error RecoveryMode.paren (report_error s) >>= λ t.
        done (close_recovered TokenKlass.r_paren t))

-- `ParseClosingBracketHelper`.
unfoldable pub parse_closing_bracket_helper : ℕ → Parser → Result Parser
unfolding try_test consume_token recover_from_error
parse_closing_bracket_helper left_bracket_depth s =
    if ltb s.bracket_depth left_bracket_depth
    then done s
    else if try_test TokenKlass.r_bracket s
    then done (exit_if_recovering (consume_token s))
    else (recover_from_error RecoveryMode.bracket (report_error s) >>= λ t.
        done (close_recovered TokenKlass.r_bracket t))

-- `ParseOptionalDeclIdHelper`, which asks for an identifier before `ParseDeclIdHelper` asserts it.
unfoldable pub parse_optional_decl_id_helper : Parser → Option AstSyntaxToken × Parser
unfolding try_test consume_token
parse_optional_decl_id_helper s =
    if try_test TokenKlass.identifier s
    then (some (get_current_token s), consume_token s)
    else (none, report_error s)
