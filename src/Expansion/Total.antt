-- ===== src/Expansion/Total.antt =====
-- Termination and failure of macro expansion.
use mathlib.Core.Path.{subst}
use glsld.Prelude.{
  ℕ, zero, suc, ◌≤◌, ◌≡◌, ◌≢◌, refl, Bool, true, false, ◌||◌, List, [], ◌∷◌, Option, none, some,
  arith, if◌then◌else◌, length,
}
use glsld.Token.{PpToken, TokenKlass, Bytes, text_eq, is_klass}
use glsld.MacroTable.{MacroDefinition, MacroTable, find_macro_definition}
use glsld.Expansion.State.{
  Result, done, failed, out_of_fuel, Entry, new_processor, is_disabled,
  find_enabled_macro_definition,
}
use glsld.Expansion.Body.{Invocation, feed_all, run_body}
use glsld.Expansion.Feed.{
  Environment, feed, finalize, start_body, finish_body, feed_macro_expansion, expand_tokens,
}
use glsld.Expansion.Outcome.{Good, Good-bind, Each, Each-append}
use glsld.Expansion.Disabled.{IsEnabled, enabled_count, enabled_count-le, enabled_count-lt}
use glsld.Expansion.Sound.{Kept, IsFed, Expands, new_processor-IsSound, finalize-Good}
use glsld.Expansion.Fed.{feed-Good}
use glsld.Expansion.Bodies.{BodyKept, BodyGood, FeedKeeps, feed_all-Good, run_body-Good}

-- What holds of the tokens of every body.
abbrev pub Bodies : (PpToken → Type 0) → MacroTable → Type 0
Bodies P table = Each (λ (entry : Entry). Each P entry.1.expansion_tokens) table

abbrev OnSome : (MacroDefinition → Type 0) → Option MacroDefinition → Type 0
OnSome P none = Unit
OnSome P (some d) = P d

pub find-Each :
    (P : MacroDefinition → Type 0) (table : MacroTable) (name : Bytes) (d : MacroDefinition)
    → Each (λ (entry : Entry). P entry.1) table
    → find_macro_definition table name ≡ some d
    → P d
unfolding find_macro_definition
find-Each P [] name d h e = cc
find-Each P ((key, d') ∷ table) name d h e =
    by_test (text_eq key name) (λ f. find-Each P table name d h.1 f) e
  where
    by_test :
        (b : Bool)
        → (find_macro_definition table name ≡ some d → P d)
        → (if b then some d' else find_macro_definition table name) ≡ some d
        → P d
    by_test true rest e = subst (OnSome P) e h.0
    by_test false rest e = rest e

pub enabled_look_up :
    (table : MacroTable) (disabled : List Bytes) (entry : Entry)
    → IsEnabled table disabled entry
    → find_macro_definition table entry.0 ≡ some entry.1
unfolding find_enabled_macro_definition
enabled_look_up table disabled entry e =
    by_look_up (find_macro_definition table entry.0) (is_disabled disabled entry.0) e
  where
    by_look_up :
        (o : Option MacroDefinition) (b : Bool)
        → (elim o as (λ _. Option MacroDefinition) [
          | none ↦ none
          | some d ↦ if b then none else some d
        ])
          ≡ some entry.1
        → o ≡ some entry.1
    by_look_up none b h = cc
    by_look_up (some d) true h = cc
    by_look_up (some d) false h = h

enabled-Each :
    (P : PpToken → Type 0) (table : MacroTable) (disabled : List Bytes) (entry : Entry)
    → Bodies P table
    → IsEnabled table disabled entry
    → Each P entry.1.expansion_tokens
enabled-Each P table disabled entry h e =
    find-Each (λ d. Each P d.expansion_tokens) table entry.0 entry.1 h
      (enabled_look_up table disabled entry e)

module _ (F : Type 0) (env : Environment) (bodies : Bodies (BodyKept F) env.macro_table) where
  -- With as much fuel as there are enabled macros an expansion is good.
  feed_macro_expansion-Good :
      (fuel : ℕ) (disabled : List Bytes)
      → enabled_count env.macro_table disabled ≤ fuel
      → Expands F env.macro_table disabled (feed_macro_expansion env fuel)
  unfolding feed_macro_expansion
  feed_macro_expansion-Good zero disabled h name entry witheld args e k =
      absurd (omega (arith, h, enabled_count-lt env.macro_table disabled entry e))
  feed_macro_expansion-Good (suc fuel) disabled h name entry witheld args e k =
      let table = env.macro_table in
      let inner = entry.0 ∷ disabled in
      let fewer : enabled_count table inner ≤ fuel =
        omega (arith, h, enabled_count-lt table disabled entry e) in
      let keeps : FeedKeeps F table inner (feed env (feed_macro_expansion env fuel) inner) =
        λ t p kt s.
          feed-Good F env (feed_macro_expansion env fuel) inner t p
            (feed_macro_expansion-Good fuel inner fewer) kt s in
      let inv : Invocation = record {
        feed = feed env (feed_macro_expansion env fuel) inner;
        macro_name_tok = name;
        param_tokens = entry.1.param_tokens;
        invocation_tokens = witheld;
        args = args;
        count_utf16_characters = env.count_utf16_characters;
      } in
      Good-bind F (BodyGood F table inner) (Each (Kept F))
        (run_body inv entry.1.expansion_tokens start_body) finish_body
        (run_body-Good F table inner inv entry.1.expansion_tokens start_body
          (record { keeps = keeps; kept = k })
          (enabled-Each (BodyKept F) table disabled entry bodies e)
          (record {
            mode_kept = tt;
            next_sound = new_processor-IsSound F table inner;
            output_kept = tt;
          }))
        (λ s b.
          Good-bind F (Each (Kept F)) (Each (Kept F)) (finalize s.next_processor) _
            (finalize-Good F table inner s.next_processor b.next_sound)
            (λ out ho. Each-append (Kept F) s.output out b.output_kept ho))

  expand_tokens-Good :
      (ts : List PpToken) → Each (Kept F) ts → Good F (Each (Kept F)) (expand_tokens env ts)
  unfolding expand_tokens
  expand_tokens-Good ts k =
      let table = env.macro_table in
      let expand = feed_macro_expansion env (length table) in
      let ex = feed_macro_expansion-Good (length table) [] (enabled_count-le table []) in
      Good-bind F (IsFed F table []) (Each (Kept F))
        (feed_all (feed env expand []) ts new_processor) _
        (feed_all-Good F table [] (feed env expand []) ts new_processor
          (λ t p kt s. feed-Good F env expand [] t p ex kt s) k (new_processor-IsSound F table []))
        (λ r h.
          Good-bind F (Each (Kept F)) (Each (Kept F)) (finalize r.0) _
            (finalize-Good F table [] r.0 h.0) (λ out ho. Each-append (Kept F) r.1 out h.1 ho))

all_of : {P : PpToken → Type 0} (ts : List PpToken) → ((t : PpToken) → P t) → Each P ts
all_of [] h = tt
all_of (t ∷ ts) h = (h t, all_of ts h)

all_tokens : {P : PpToken → Type 0} (table : MacroTable) → ((t : PpToken) → P t) → Bodies P table
all_tokens [] h = tt
all_tokens (entry ∷ table) h = (all_of entry.1.expansion_tokens h, all_tokens table h)

not_out : (P : List PpToken → Type 0) (m : Result (List PpToken)) → Good Unit P m → m ≢ out_of_fuel
not_out P (done out) h e = cc
not_out P failed h e = cc
not_out P out_of_fuel h e = absurd h

-- Macro expansion ends, whatever macros are defined, also recursive ones, and whatever the tokens: as
-- much fuel for the nesting of expansions as there are macros is never used up.
pub expand_tokens_ends :
    (env : Environment) (ts : List PpToken) → expand_tokens env ts ≢ out_of_fuel
expand_tokens_ends env ts = not_out _ (expand_tokens env ts) (
    expand_tokens-Good Unit env (all_tokens env.macro_table (λ t. ((λ _. tt), (λ _. tt)))) ts
      (all_of ts (λ t _. tt)))

-- The token does not end the file.
abbrev pub IsNotEof : PpToken → Type 0
IsNotEof t = is_klass t.klass TokenKlass.eof ≡ false

-- The token is neither `##` nor the end of the file.
abbrev pub IsNotPaste : PpToken → Type 0
IsNotPaste t = (is_klass t.klass TokenKlass.eof || is_klass t.klass TokenKlass.hash_hash) ≡ false

weaken_all :
    {P Q : PpToken → Type 0} (ts : List PpToken)
    → ((t : PpToken) → P t → Q t)
    → Each P ts
    → Each Q ts
weaken_all [] f h = tt
weaken_all (t ∷ ts) f h = (f t h.0, weaken_all ts f h.1)

weaken_table :
    {P Q : PpToken → Type 0} (table : MacroTable)
    → ((t : PpToken) → P t → Q t)
    → Bodies P table
    → Bodies Q table
weaken_table [] f h = tt
weaken_table (entry ∷ table) f h =
    (weaken_all entry.1.expansion_tokens f h.0, weaken_table table f h.1)

never : {b : Bool} → b ≡ false → b ≡ true → ⊥
never h e = cc

IsNotPaste-BodyKept : (t : PpToken) → IsNotPaste t → BodyKept ⊥ t
IsNotPaste-BodyKept t h =
    by_tests (is_klass t.klass TokenKlass.eof) (is_klass t.klass TokenKlass.hash_hash) h
  where
    by_tests : (a b : Bool) → (a || b) ≡ false → (a ≡ true → ⊥) × (b ≡ true → ⊥)
    by_tests true b h = cc
    by_tests false true h = cc
    by_tests false false h = ((λ e. cc), (λ e. cc))

done_with :
    (m : Result (List PpToken))
    → Good ⊥ (Each (Kept ⊥)) m
    → (out : List PpToken) × (m ≡ done out) × Each IsNotEof out
done_with (done out) h =
    (out, refl, weaken_all out (λ t k. not_true (is_klass t.klass TokenKlass.eof) k) h)
  where
    not_true : (b : Bool) → (b ≡ true → ⊥) → b ≡ false
    not_true true k = absurd (k refl)
    not_true false k = refl
done_with failed h = absurd h
done_with out_of_fuel h = absurd h

-- Where no body has `##` in it and neither the bodies nor the tokens have the end of the file in them,
-- macro expansion fails none of its assertions and puts tokens out, which do not end the file either.
pub expand_tokens_succeeds :
    (env : Environment) (ts : List PpToken)
    → Bodies IsNotPaste env.macro_table
    → Each IsNotEof ts
    → (out : List PpToken) × (expand_tokens env ts ≡ done out) × Each IsNotEof out
expand_tokens_succeeds env ts h k = done_with (expand_tokens env ts) (
    expand_tokens-Good ⊥ env (weaken_table env.macro_table IsNotPaste-BodyKept h) ts
      (weaken_all ts (λ t e. never e) k))
