-- ===== src/Expansion/Bodies.antt =====
-- The loop of `FeedMacroExpansion` over a body, with a next processor that is kept sound.
use glsld.Prelude.{
  ℕ, zero, suc, ◌-◌, ◌≡◌, Bool, true, false, List, [], ◌∷◌, ◌++◌, Option, none, some, length, drop,
  get_elem?, if_both, if_cases,
}
use glsld.Token.{PpToken, TokenKlass, Bytes, is_klass}
use glsld.Token.Scanner.{try_test_token, test_head}
use glsld.MacroTable.{MacroTable}
use glsld.Tokenizer.Cursor.{Cursor}
use glsld.Tokenizer.Lex.{lex}
use glsld.Expansion.State.{Result, done, failed, InvocationArgumentInfo, Processor}
use glsld.Expansion.Body.{
  Mode, BodyState, Feed, Invocation, relocate, param_of, paste_argument, paste_operand,
  paste_token_text, feed_all, put_out, argument_tokens, substitute, enter_paste, start_token,
  text_cursor, feed_pasted, finish_paste, body_step, end_body, run_body,
}
use glsld.Expansion.Outcome.{Good, Good-bind, Each, Each-append, Each-take, Each-drop}
use glsld.Expansion.Sound.{Kept, IsSound, IsFed}

-- Only where `F` holds may a body have the end of a file or `##` in it.
abbrev pub BodyKept : Type 0 → PpToken → Type 0
BodyKept F t = Kept F t × (is_klass t.klass TokenKlass.hash_hash ≡ true → F)

abbrev ModeKept : Type 0 → Mode → Type 0
ModeKept F (Mode.pasted text failure) = F
ModeKept F (Mode.pasting text failure) = F
ModeKept F mode = Unit

module _ (F : Type 0) (table : MacroTable) (disabled : List Bytes) where
  abbrev pub FeedKeeps : Feed → Type 0
  FeedKeeps feed =
      (t : PpToken) (p : Processor)
      → Kept F t
      → IsSound F table disabled p
      → Good F (IsFed F table disabled) (feed t p)

  pub record BodyGood (s : BodyState) : Type 0 where
    pub mode_kept : ModeKept F s.mode
    pub next_sound : IsSound F table disabled s.next_processor
    pub output_kept : Each (Kept F) s.output

  pub feed_all-Good :
      (feed : Feed) (ts : List PpToken) (p : Processor)
      → FeedKeeps feed
      → Each (Kept F) ts
      → IsSound F table disabled p
      → Good F (IsFed F table disabled) (feed_all feed ts p)
  unfolding feed_all
  feed_all-Good feed [] p keeps k s = (s, tt)
  feed_all-Good feed (t ∷ ts) p keeps k s =
      Good-bind F (IsFed F table disabled) (IsFed F table disabled) (feed t p) _ (keeps t p k.0 s)
        (λ r h.
          Good-bind F (IsFed F table disabled) (IsFed F table disabled) (feed_all feed ts r.0) _
            (feed_all-Good feed ts r.0 keeps k.1 h.0)
            (λ rs hs. (hs.0, Each-append (Kept F) r.1 rs.1 h.1 hs.1)))

  put_out-Good :
      (s : BodyState) (m : Result (Processor × List PpToken))
      → BodyGood s
      → Good F (IsFed F table disabled) m
      → Good F BodyGood (put_out Mode.start s m)
  put_out-Good s m b h = Good-bind F (IsFed F table disabled) BodyGood m _ h (λ r k. record {
    mode_kept = tt;
    next_sound = k.0;
    output_kept = Each-append (Kept F) s.output r.1 b.output_kept k.1;
  })

  paste_token_text-Good :
      (params : List PpToken) (args : List InvocationArgumentInfo) (t : PpToken) (text : Bytes)
      (failure : Bool)
      → F
      → Good F (λ _. Unit) (paste_token_text params args t text failure)
  unfolding paste_token_text
  paste_token_text-Good params args t text failure h = by_param (param_of params t)
    where
      by_argument :
          (a : Option InvocationArgumentInfo) → Good F (λ _. Unit) (paste_argument a text failure)
      by_argument none = h
      by_argument (some a) = by_count a.num_argument_token a.paste_token
        where
          by_count :
              (n : ℕ) (o : Option PpToken)
              → Good F
                  (λ _. Unit)
                  (elim n as (λ _. Result (Bytes × Bool)) [
                    | zero ↦ done (text, failure)
                    | suc n ↦ elim n [
                      | zero ↦ elim o [ none ↦ failed | some t ↦ done (text ++ t.text, failure) ]
                      | suc m ↦ done (text, true)
                    ]
                  ])
          by_count zero o = tt
          by_count (suc zero) none = h
          by_count (suc zero) (some t) = tt
          by_count (suc (suc n)) o = tt

      by_param : (o : Option ℕ) → Good F (λ _. Unit) (paste_operand t o args text failure)
      by_param none = tt
      by_param (some i) = by_argument (get_elem? args i)

  enter_paste-Good :
      (s : BodyState) (m : Result (Bytes × Bool))
      → F
      → BodyGood s
      → Good F (λ _. Unit) m
      → Good F BodyGood (enter_paste s m)
  enter_paste-Good s m h b k =
      Good-bind F (λ _. Unit) BodyGood m _ k
        (λ r _. record { mode_kept = h; next_sound = b.next_sound; output_kept = b.output_kept })

  pub record InvocationGood (inv : Invocation) : Type 0 where
    pub keeps : FeedKeeps inv.feed
    pub kept : Each (Kept F) inv.invocation_tokens

  argument_tokens-Kept :
      (inv : Invocation) (o : Option InvocationArgumentInfo)
      → InvocationGood inv
      → Each (Kept F) (argument_tokens inv o)
  argument_tokens-Kept inv none i = tt
  argument_tokens-Kept inv (some a) i =
      Each-take (Kept F) (a.index_end - a.index_begin) (drop a.index_begin inv.invocation_tokens)
        (Each-drop (Kept F) a.index_begin inv.invocation_tokens i.kept)

  substitute-Good :
      (inv : Invocation) (t : PpToken) (s : BodyState) (o : Option ℕ)
      → InvocationGood inv
      → Kept F t
      → BodyGood s
      → Good F BodyGood (substitute inv t s o)
  substitute-Good inv t s none i k b =
      put_out-Good s (inv.feed t s.next_processor) b (i.keeps t s.next_processor k b.next_sound)
  substitute-Good inv t s (some n) i k b =
      put_out-Good s
        (feed_all inv.feed (argument_tokens inv (get_elem? inv.args n)) s.next_processor) b
        (feed_all-Good inv.feed (argument_tokens inv (get_elem? inv.args n)) s.next_processor
          i.keeps (argument_tokens-Kept inv (get_elem? inv.args n) i) b.next_sound)

  paste_follows :
      (ts : List PpToken)
      → Each (BodyKept F) ts
      → try_test_token ts TokenKlass.hash_hash 0 ≡ true
      → F
  unfolding try_test_token test_head
  paste_follows [] k e = cc
  paste_follows (t ∷ ts) k e = k.0.1 e

  start_token-Good :
      (inv : Invocation) (t : PpToken) (ts : List PpToken) (s : BodyState)
      → InvocationGood inv
      → Each (BodyKept F) (t ∷ ts)
      → BodyGood s
      → Good F BodyGood (start_token inv t ts s)
  unfolding start_token
  start_token-Good inv t ts s i k b =
      let moved = relocate inv.macro_name_tok t in
      if_both (Good F BodyGood) (is_klass t.klass TokenKlass.hash) _ _
        (if_both (Good F BodyGood) (try_test_token ts TokenKlass.identifier 1) _ _
          (record { mode_kept = tt; next_sound = b.next_sound; output_kept = b.output_kept })
          (put_out-Good s (inv.feed moved s.next_processor) b
            (i.keeps moved s.next_processor k.0.0 b.next_sound)))
        (if_cases (Good F BodyGood) (try_test_token ts TokenKlass.hash_hash 0) _ _
          (λ e.
            enter_paste-Good s (paste_token_text inv.param_tokens inv.args moved [] false)
              (paste_follows ts k.1 e) b
              (paste_token_text-Good inv.param_tokens inv.args moved [] false
                (paste_follows ts k.1 e)))
          (λ e. substitute-Good inv moved s (param_of inv.param_tokens t) i k.0.0 b))

  feed_pasted-Good :
      (inv : Invocation) (s : BodyState) (o : Option (PpToken × Cursor))
      → InvocationGood inv
      → F
      → BodyGood s
      → Good F BodyGood (feed_pasted inv s o)
  feed_pasted-Good inv s none i h b = h
  feed_pasted-Good inv s (some (t, c)) i h b =
      put_out-Good s (inv.feed (relocate inv.macro_name_tok t) s.next_processor) b
        (i.keeps (relocate inv.macro_name_tok t) s.next_processor (λ _. h) b.next_sound)

  finish_paste-Good :
      (inv : Invocation) (text : Bytes) (failure : Bool) (s : BodyState)
      → InvocationGood inv
      → F
      → BodyGood s
      → Good F BodyGood (finish_paste inv text failure s)
  unfolding finish_paste
  finish_paste-Good inv text failure s i h b =
      if_both (Good F BodyGood) failure _ _
        (record { mode_kept = tt; next_sound = b.next_sound; output_kept = b.output_kept })
        (feed_pasted-Good inv s
          (lex false inv.macro_name_tok.spelled_file (length text)
            (text_cursor inv.count_utf16_characters text))
          i h b)

  body_step-Good :
      (inv : Invocation) (t : PpToken) (ts : List PpToken) (s : BodyState) (mode : Mode)
      → InvocationGood inv
      → Each (BodyKept F) (t ∷ ts)
      → ModeKept F mode
      → BodyGood s
      → Good F BodyGood (body_step inv t ts s mode)
  unfolding body_step
  body_step-Good inv t ts s Mode.start i k m b = start_token-Good inv t ts s i k b
  body_step-Good inv t ts s Mode.skip i k m b = record {
    mode_kept = tt;
    next_sound = b.next_sound;
    output_kept = b.output_kept;
  }
  body_step-Good inv t ts s (Mode.pasted text failure) i k m b =
      if_both (Good F BodyGood) (is_klass t.klass TokenKlass.hash_hash) _ _
        (record { mode_kept = m; next_sound = b.next_sound; output_kept = b.output_kept })
        (Good-bind F BodyGood BodyGood (finish_paste inv text failure s) _
          (finish_paste-Good inv text failure s i m b)
          (λ s' b'. start_token-Good inv t ts s' i k b'))
  body_step-Good inv t ts s (Mode.pasting text failure) i k m b =
      enter_paste-Good s (paste_token_text inv.param_tokens inv.args t text failure) m b
        (paste_token_text-Good inv.param_tokens inv.args t text failure m)

  end_body-Good :
      (inv : Invocation) (s : BodyState) (mode : Mode)
      → InvocationGood inv
      → ModeKept F mode
      → BodyGood s
      → Good F BodyGood (end_body inv s mode)
  end_body-Good inv s Mode.start i m b = b
  end_body-Good inv s Mode.skip i m b = b
  end_body-Good inv s (Mode.pasted text failure) i m b = finish_paste-Good inv text failure s i m b
  end_body-Good inv s (Mode.pasting text failure) i m b = b

  pub run_body-Good :
      (inv : Invocation) (ts : List PpToken) (s : BodyState)
      → InvocationGood inv
      → Each (BodyKept F) ts
      → BodyGood s
      → Good F BodyGood (run_body inv ts s)
  unfolding run_body
  run_body-Good inv [] s i k b = end_body-Good inv s s.mode i b.mode_kept b
  run_body-Good inv (t ∷ ts) s i k b =
      Good-bind F BodyGood BodyGood (body_step inv t ts s s.mode) _
        (body_step-Good inv t ts s s.mode i k b.mode_kept b)
        (λ s' b'. run_body-Good inv ts s' i k.1 b')
