-- ===== src/Expansion/Fed.antt =====
-- `Feed` on a sound processor.
use glsld.Prelude.{
  ℕ, ◌+◌, ◌≡◌, inl, inr, refl, sym, ◌∙◌, true, false, ◌&&◌, List, [], ◌∷◌, ◌++◌, Option, none, some,
  ◌==◌, length, get_elem?, if_both, if_cases,
}
use glsld.Token.{PpToken, TokenKlass, Bytes, text_eq, is_klass}
use glsld.MacroTable.{MacroDefinition, is_some}
use glsld.GlslType.{decimal}
use glsld.Expansion.State.{
  done, InvocationArgumentInfo, Entry, Fields, Processor, plain, collecting, no_fields,
  new_processor, find_enabled_macro_definition, push_argument, finish_argument, change_back,
  count_token, new_argument,
}
use glsld.Expansion.Feed.{
  Environment, Expand, Fed, builtin_line_macro, builtin_file_macro, builtin_version_macro,
  number_token, withhold, counted, revoke, finalize, is_nil, fixed_arguments, invoke_enabled,
  feed_identifier, feed_token_without_macro_context, feed_behind_name, expand_pending,
  close_invocation, next_argument, keep_token, feed_argument, feed,
}
use glsld.Expansion.Outcome.{Good, Good-bind, Good-guard, Each, Each-append}
use glsld.Expansion.Sound.{
  Kept, IsPending, IsNamed, IsCollecting, IsSound, IsFed, Expands, new_processor-IsSound,
  revoke-Good, finalize-Good,
}

append_empty : {A : Type 0} (xs ys : List A) → is_nil xs ≡ false → is_nil (xs ++ ys) ≡ false
append_empty [] ys h = cc
append_empty (x ∷ xs) ys h = refl

append_last : {A : Type 0} (xs : List A) (y : A) → is_nil (xs ++ (y ∷ [])) ≡ false
append_last [] y = refl
append_last (x ∷ xs) y = refl

change_back_empty :
    (g : InvocationArgumentInfo → InvocationArgumentInfo) (args : List InvocationArgumentInfo)
    → is_nil args ≡ false
    → is_nil (change_back g args) ≡ false
unfolding change_back
change_back_empty g [] h = cc
change_back_empty g (a ∷ []) h = refl
change_back_empty g (a ∷ (b ∷ args)) h = refl

empty_not : true ≡ false → ⊥
empty_not h = cc

first_there : (ts : List PpToken) → is_nil ts ≡ false → is_some (get_elem? ts 0) ≡ true
first_there [] h = cc
first_there (t ∷ ts) h = refl

module _ (F : Type 0) (env : Environment) (expand : Expand) (disabled : List Bytes) where
  abbrev GoodFed : Fed → Type 0
  GoodFed m = Good F (IsFed F env.macro_table disabled) m

  idle : IsSound F env.macro_table disabled new_processor
  idle = new_processor-IsSound F env.macro_table disabled

  number_token-Kept : (t : PpToken) (n : ℕ) → Kept F (number_token t n)
  unfolding decimal is_klass
  number_token-Kept t n h = cc

  put_number : (t : PpToken) (n : ℕ) → GoodFed (done (new_processor, number_token t n ∷ []))
  put_number t n = (idle, (number_token-Kept t n, tt))

  invoke_enabled-Good :
      (t : PpToken) (o : Option MacroDefinition)
      → Expands F env.macro_table disabled expand
      → Kept F t
      → find_enabled_macro_definition env.macro_table disabled t.text ≡ o
      → GoodFed (invoke_enabled env expand disabled t o)
  invoke_enabled-Good t none ex k e = (idle, (k, tt))
  invoke_enabled-Good t (some d) ex k e =
      if_both GoodFed d.is_function_like (done (plain (withhold t (t.text, d)), [])) _
        (
          inr (
            record { name_withheld = refl; no_arguments = refl; no_level = refl; pending = e },
            (k, tt),
          ),
          tt,
        )
        (Good-bind F (Each (Kept F)) (IsFed F env.macro_table disabled)
          (expand disabled t (t.text, d) [] []) (λ out. done (new_processor, out))
          (ex t (t.text, d) [] [] e tt) (λ out h. (idle, h)))

  feed_identifier-Good :
      (t : PpToken)
      → Expands F env.macro_table disabled expand
      → Kept F t
      → GoodFed (feed_identifier env expand disabled t)
  unfolding feed_identifier
  feed_identifier-Good t ex k =
      if_both GoodFed (text_eq t.text builtin_line_macro) _ _
        (put_number t (t.spelled_range.start.line + 1))
        (if_both GoodFed (text_eq t.text builtin_file_macro) _ _ (put_number t t.spelled_file) (
          if_both GoodFed (text_eq t.text builtin_version_macro) _ _ (put_number t env.version) (
            invoke_enabled-Good t (find_enabled_macro_definition env.macro_table disabled t.text) ex
              k refl)))

  fresh-Good :
      (t : PpToken) (f : Fields)
      → Expands F env.macro_table disabled expand
      → Kept F t
      → is_nil f.witheld_tokens ≡ true
      → (f.arg_l_paren_counter == 0) ≡ true
      → GoodFed (feed_token_without_macro_context env expand disabled t f)
  unfolding feed_token_without_macro_context
  fresh-Good t f ex k w l =
      rw (w, l)
        (if_both GoodFed (is_klass t.klass TokenKlass.identifier) _ _ (feed_identifier-Good t ex k)
          (idle, (k, tt)))

  feed_behind_name-Good :
      (t : PpToken) (f : Fields)
      → Expands F env.macro_table disabled expand
      → Kept F t
      → IsNamed env.macro_table disabled f
      → Each (Kept F) f.witheld_tokens
      → GoodFed (feed_behind_name env expand disabled t f)
  unfolding feed_behind_name
  feed_behind_name-Good t f ex k n h = rw n.no_level (
      if_both GoodFed (is_klass t.klass TokenKlass.l_paren) _ _ (opened, tt)
        (Good-bind F (Each (Kept F)) (IsFed F env.macro_table disabled) (revoke f) _
          (revoke-Good F env.macro_table disabled f n.name_withheld n.pending h)
          (λ out ho.
            Good-bind F (IsFed F env.macro_table disabled) (IsFed F env.macro_table disabled)
              (feed_token_without_macro_context env expand disabled t no_fields) _
              (fresh-Good t no_fields ex k refl refl)
              (λ r hr. (hr.0, Each-append (Kept F) out r.1 ho hr.1)))))
    where
      opened :
          IsSound F env.macro_table disabled
            (collecting (record (push_argument f) { arg_l_paren_counter = 1 }) new_processor)
      opened = (
        record {
          name_withheld = n.name_withheld;
          arguments = append_last f.invocation_arguments (new_argument (length f.witheld_tokens));
          level = refl;
          pending = n.pending;
          kept = h;
        },
        idle,
      )

  expand_pending-Good :
      (f : Fields) (o : Option Entry) (name : Option PpToken)
      → Expands F env.macro_table disabled expand
      → IsPending env.macro_table disabled o
      → is_some name ≡ true
      → Each (Kept F) f.witheld_tokens
      → GoodFed (expand_pending env expand disabled f o name)
  expand_pending-Good f none name ex p e h = absurd p
  expand_pending-Good f (some entry) none ex p e h = cc
  expand_pending-Good f (some entry) (some name) ex p e h =
      Good-bind F (Each (Kept F)) (IsFed F env.macro_table disabled)
        (expand disabled name entry f.witheld_tokens
          (fixed_arguments entry.1 f.invocation_arguments))
        (λ out. done (new_processor, out))
        (ex name entry f.witheld_tokens (fixed_arguments entry.1 f.invocation_arguments) p h)
        (λ out k. (idle, k))

  close_invocation-Good :
      (f : Fields) (a : Processor)
      → Expands F env.macro_table disabled expand
      → IsCollecting F env.macro_table disabled f
      → IsSound F env.macro_table disabled a
      → GoodFed (close_invocation env expand disabled f a)
  unfolding close_invocation
  close_invocation-Good f a ex c s =
      Good-bind F (Each (Kept F)) (IsFed F env.macro_table disabled) (finalize a) _
        (finalize-Good F env.macro_table disabled a s)
        (λ out h.
          expand_pending-Good (finish_argument out f) f.pending_invoked_macro
            (get_elem? (finish_argument out f).witheld_tokens 0) ex c.pending
            (first_there (f.witheld_tokens ++ out)
              (append_empty f.witheld_tokens out c.name_withheld))
            (Each-append (Kept F) f.witheld_tokens out c.kept h))

  next_argument-Good :
      (t : PpToken) (f : Fields) (a : Processor)
      → Kept F t
      → IsCollecting F env.macro_table disabled f
      → IsSound F env.macro_table disabled a
      → GoodFed (next_argument env expand disabled t f a)
  unfolding next_argument
  next_argument-Good t f a k c s =
      Good-bind F (Each (Kept F)) (IsFed F env.macro_table disabled) (finalize a) _
        (finalize-Good F env.macro_table disabled a s)
        (λ out h. (
          (
            record {
              name_withheld = append_last (f.witheld_tokens ++ out) t;
              arguments =
                  append_last (finish_argument out f).invocation_arguments
                    (new_argument (length (f.witheld_tokens ++ out)));
              level = refl;
              pending = c.pending;
              kept =
                  Each-append (Kept F) (f.witheld_tokens ++ out) (t ∷ [])
                    (Each-append (Kept F) f.witheld_tokens out c.kept h) (k, tt);
            },
            idle,
          ),
          tt,
        ))

  keep_token-Good :
      (t : PpToken) (f : Fields) (r : Processor × List PpToken)
      → IsCollecting F env.macro_table disabled f
      → (counted t f.arg_l_paren_counter == 0) ≡ false
      → IsFed F env.macro_table disabled r
      → GoodFed (keep_token env expand disabled t f r)
  keep_token-Good t f r c l h = (
    (
      record {
        name_withheld = append_empty f.witheld_tokens r.1 c.name_withheld;
        arguments = change_back_empty (count_token t) f.invocation_arguments c.arguments;
        level = l;
        pending = c.pending;
        kept = Each-append (Kept F) f.witheld_tokens r.1 c.kept h.1;
      },
      h.0,
    ),
    tt,
  )

  feed_argument-Good :
      (t : PpToken) (f : Fields) (a : Processor) (fed : Fed)
      → Expands F env.macro_table disabled expand
      → Kept F t
      → IsCollecting F env.macro_table disabled f
      → IsSound F env.macro_table disabled a
      → GoodFed fed
      → GoodFed (feed_argument env expand disabled t f a fed)
  feed_argument-Good t f a fed ex k c s h = rw c.level (
      if_cases GoodFed (counted t f.arg_l_paren_counter == 0) _ _
        (λ e. close_invocation-Good f a ex c s)
        (λ e.
          if_both GoodFed
            (counted t f.arg_l_paren_counter == 1 && is_klass t.klass TokenKlass.comma) _ _
            (next_argument-Good t f a k c s)
            (Good-bind F (IsFed F env.macro_table disabled) (IsFed F env.macro_table disabled) fed
              (λ r. keep_token env expand disabled t f r) h
              (λ r hr. keep_token-Good t f r c e hr))))

  pub feed-Good :
      (t : PpToken) (p : Processor)
      → Expands F env.macro_table disabled expand
      → Kept F t
      → IsSound F env.macro_table disabled p
      → GoodFed (feed env expand disabled t p)
  unfolding feed
  feed-Good t (plain f) ex k (inl i) =
      Good-guard F (IsFed F env.macro_table disabled) (is_klass t.klass TokenKlass.eof) _ k (
        if_cases GoodFed (is_nil f.witheld_tokens) _ _ (λ e. fresh-Good t f ex k e i.no_level)
          (λ e. absurd (empty_not (sym i.nothing_withheld ∙ e))))
  feed-Good t (plain f) ex k (inr (n, h)) =
      Good-guard F (IsFed F env.macro_table disabled) (is_klass t.klass TokenKlass.eof) _ k
        (rw (n.name_withheld, n.no_arguments) (feed_behind_name-Good t f ex k n h))
  feed-Good t (collecting f a) ex k (c, s) =
      Good-guard F (IsFed F env.macro_table disabled) (is_klass t.klass TokenKlass.eof) _ k (
        rw (c.name_withheld, c.arguments)
          (feed_argument-Good t f a (feed env expand disabled t a) ex k c s (feed-Good t a ex k s)))
