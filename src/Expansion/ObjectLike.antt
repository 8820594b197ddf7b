-- ===== src/Expansion/ObjectLike.antt =====
-- The processor beside the specification, where all macros are object-like.
use glsld.Prelude.{
  ℕ, zero, suc, ◌≤◌, ◌≡◌, refl, ap, ◌∙◌, Bool, true, false, List, [], ◌∷◌, ◌++◌, Option, none, some,
  arith, if◌then◌else◌, length,
}
use glsld.Token.{PpToken, TokenKlass, Bytes, text_eq, is_klass}
use glsld.Token.Scanner.{try_test_token, test_head}
use glsld.MacroTable.{MacroDefinition, MacroTable}
use glsld.Expansion.State.{done, ◌>>=◌, Entry, new_processor, find_enabled_macro_definition}
use glsld.Expansion.Body.{
  Mode, BodyState, Invocation, relocate, find_param, param_of, feed_all, start_token, body_step,
  run_body,
}
use glsld.Expansion.Feed.{
  Environment, Expand, Fed, builtin_line_macro, builtin_file_macro, builtin_version_macro,
  invoke_enabled, feed_identifier, feed_token_without_macro_context, feed, finalize, finish_body,
  feed_macro_expansion, expand_tokens,
}
use glsld.Expansion.Outcome.{Each}
use glsld.Expansion.Disabled.{enabled_count, enabled_count-le, enabled_count-lt}
use glsld.Expansion.Total.{IsNotEof, find-Each, enabled_look_up}
use glsld.Expansion.Reference.{flat_map, replaced, expansion_of}

-- The token is neither `#` nor `##` nor the end of the file.
abbrev pub IsPlain : PpToken → Type 0
IsPlain t =
    (is_klass t.klass TokenKlass.eof ≡ false)
    × (is_klass t.klass TokenKlass.hash ≡ false)
    × (is_klass t.klass TokenKlass.hash_hash ≡ false)

pub record IsObjectLike (d : MacroDefinition) : Type 0 where
  pub no_call : d.is_function_like ≡ false
  pub no_params : d.param_tokens ≡ []
  pub plain_body : Each IsPlain d.expansion_tokens

abbrev pub ObjectLike : MacroTable → Type 0
ObjectLike table = Each (λ (entry : Entry). IsObjectLike entry.1) table

-- A fresh processor stays fresh and puts the tokens out.
abbrev put : List PpToken → Fed
put out = done (new_processor, out)

if_put :
    (b : Bool) (x y : Fed) (x' y' : List PpToken)
    → x ≡ put x'
    → y ≡ put y'
    → (if b then x else y) ≡ put (if b then x' else y')
if_put true x y x' y' h k = h
if_put false x y x' y' h k = k

if_off : (b : Bool) (x y z : Fed) → b ≡ false → y ≡ z → (if b then x else y) ≡ z
if_off true x y z h k = cc
if_off false x y z h k = k

no_param : (t : PpToken) → param_of [] t ≡ none
unfolding find_param
no_param t = by_test (is_klass t.klass TokenKlass.identifier)
  where
    by_test : (b : Bool) → (if b then find_param [] t.text else none) ≡ none
    by_test true = refl
    by_test false = refl

no_paste_follows :
    (ts : List PpToken) → Each IsPlain ts → try_test_token ts TokenKlass.hash_hash 0 ≡ false
unfolding try_test_token test_head
no_paste_follows [] h = refl
no_paste_follows (t ∷ ts) h = h.0.2

append_nil : (xs : List PpToken) → xs ++ [] ≡ xs
append_nil [] = refl
append_nil (x ∷ xs) = ap (λ ys. x ∷ ys) (append_nil xs)

append_assoc : (xs ys zs : List PpToken) → (xs ++ ys) ++ zs ≡ xs ++ (ys ++ zs)
append_assoc [] ys zs = refl
append_assoc (x ∷ xs) ys zs = ap (λ us. x ∷ us) (append_assoc xs ys zs)

abbrev body_at : List PpToken → BodyState
body_at out = record { mode = Mode.start; next_processor = new_processor; output = out }

-- The feed puts out what `g` says.
abbrev Feeds : Invocation → (PpToken → List PpToken) → Type 0
Feeds inv g = (t : PpToken) → IsNotEof t → inv.feed t new_processor ≡ put (g t)

module _ (inv : Invocation) (no_params : inv.param_tokens ≡ []) (g : PpToken → List PpToken)
    (feeds : Feeds inv g) where
  start_token-plain :
      (t : PpToken) (ts : List PpToken) (out : List PpToken)
      → Each IsPlain (t ∷ ts)
      → start_token inv t ts (body_at out)
        ≡ done (body_at (out ++ g (relocate inv.macro_name_tok t)))
  unfolding start_token
  start_token-plain t ts out h =
      rw
        (
          h.0.1,
          no_paste_follows ts h.1,
          no_params,
          no_param t,
          feeds (relocate inv.macro_name_tok t) h.0.0,
        )
        refl

  run_body-plain :
      (ts : List PpToken) (out : List PpToken)
      → Each IsPlain ts
      → run_body inv ts (body_at out)
        ≡ done (body_at (out ++ flat_map (λ t. g (relocate inv.macro_name_tok t)) ts))
  unfolding run_body body_step flat_map
  run_body-plain [] out h = rw (append_nil out) refl
  run_body-plain (t ∷ ts) out h =
      let g' = λ (t : PpToken). g (relocate inv.macro_name_tok t) in
      rw (start_token-plain t ts out h) (
        run_body-plain ts (out ++ g' t) h.1
        ∙ ap (λ o. done (body_at o)) (append_assoc out (g' t) (flat_map g' ts)))

module _ (env : Environment) (object_like : ObjectLike env.macro_table) where
  -- What an expansion puts out, where it is of an enabled macro.
  abbrev ExpandsTo : List Bytes → ℕ → Expand → Type 0
  ExpandsTo disabled fuel expand =
      (name : PpToken) (d : MacroDefinition)
      → find_enabled_macro_definition env.macro_table disabled name.text ≡ some d
      → expand disabled name (name.text, d) [] []
        ≡ done (replaced name (some d) (expansion_of env fuel (name.text ∷ disabled)))

  invoke_enabled-put :
      (disabled : List Bytes) (fuel : ℕ) (expand : Expand) (t : PpToken)
      (o : Option MacroDefinition)
      → ExpandsTo disabled fuel expand
      → find_enabled_macro_definition env.macro_table disabled t.text ≡ o
      → invoke_enabled env expand disabled t o
        ≡ put (replaced t o (expansion_of env fuel (t.text ∷ disabled)))
  invoke_enabled-put disabled fuel expand t none ex e = refl
  invoke_enabled-put disabled fuel expand t (some d) ex e =
      let o =
        find-Each IsObjectLike env.macro_table t.text d object_like
          (enabled_look_up env.macro_table disabled (t.text, d) e) in
      if_off d.is_function_like _ _ _ o.no_call
        (ap (λ m. m >>= λ out. done (new_processor, out)) (ex t d e))

  feed-put :
      (disabled : List Bytes) (fuel : ℕ) (expand : Expand) (t : PpToken)
      → ExpandsTo disabled fuel expand
      → IsNotEof t
      → feed env expand disabled t new_processor ≡ put (expansion_of env (suc fuel) disabled t)
  unfolding feed feed_token_without_macro_context feed_identifier expansion_of
  feed-put disabled fuel expand t ex h = rw h (
      if_put (is_klass t.klass TokenKlass.identifier) _ _ _ _
        (if_put (text_eq t.text builtin_line_macro) _ _ _ _ refl (
          if_put (text_eq t.text builtin_file_macro) _ _ _ _ refl (
            if_put (text_eq t.text builtin_version_macro) _ _ _ _ refl (
              invoke_enabled-put disabled fuel expand t
                (find_enabled_macro_definition env.macro_table disabled t.text) ex refl))))
        refl)

  feed_macro_expansion-ExpandsTo :
      (fuel : ℕ) (disabled : List Bytes)
      → enabled_count env.macro_table disabled ≤ fuel
      → ExpandsTo disabled fuel (feed_macro_expansion env fuel)
  unfolding feed_macro_expansion
  feed_macro_expansion-ExpandsTo zero disabled h name d e =
      absurd (omega (arith, h, enabled_count-lt env.macro_table disabled (name.text, d) e))
  feed_macro_expansion-ExpandsTo (suc fuel) disabled h name d e =
      let inner = name.text ∷ disabled in
      let fewer : enabled_count env.macro_table inner ≤ fuel =
        omega (arith, h, enabled_count-lt env.macro_table disabled (name.text, d) e) in
      let o =
        find-Each IsObjectLike env.macro_table name.text d object_like
          (enabled_look_up env.macro_table disabled (name.text, d) e) in
      let inv : Invocation = record {
        feed = feed env (feed_macro_expansion env fuel) inner;
        macro_name_tok = name;
        param_tokens = d.param_tokens;
        invocation_tokens = [];
        args = [];
        count_utf16_characters = env.count_utf16_characters;
      } in
      ap (λ m. m >>= finish_body)
        (run_body-plain inv o.no_params (expansion_of env (suc fuel) inner)
          (λ t k.
            feed-put inner fuel (feed_macro_expansion env fuel) t
              (feed_macro_expansion-ExpandsTo fuel inner fewer) k)
          d.expansion_tokens [] o.plain_body)
      ∙ ap done (append_nil (replaced name (some d) (expansion_of env (suc fuel) inner)))

  feed_all-put :
      (expand : Expand) (ts : List PpToken)
      → ExpandsTo [] (length env.macro_table) expand
      → Each IsNotEof ts
      → feed_all (feed env expand []) ts new_processor
        ≡ put (flat_map (expansion_of env (suc (length env.macro_table)) []) ts)
  unfolding feed_all flat_map
  feed_all-put expand [] ex h = refl
  feed_all-put expand (t ∷ ts) ex h =
      rw (feed-put [] (length env.macro_table) expand t ex h.0, feed_all-put expand ts ex h.1) refl

-- Where all macros are object-like and their bodies have neither `#` nor `##`, expansion puts out what
-- the specification says: each name is replaced by its body's tokens, each of them expanded with that
-- name disabled, and placed where the name stands.
pub expand_tokens-expansion_of :
    (env : Environment) (ts : List PpToken)
    → ObjectLike env.macro_table
    → Each IsNotEof ts
    → expand_tokens env ts ≡ done (flat_map (expansion_of env (suc (length env.macro_table)) []) ts)
unfolding expand_tokens finalize
expand_tokens-expansion_of env ts h k =
    let n = length env.macro_table in
    rw
      (feed_all-put env h (feed_macro_expansion env n) ts
        (feed_macro_expansion-ExpandsTo env h n [] (enabled_count-le env.macro_table [])) k)
      (ap done (append_nil (flat_map (expansion_of env (suc n) []) ts)))
