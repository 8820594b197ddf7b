-- ===== src/Expansion/Tests.antt =====
-- Expansions with a recursive macro and a macro of two parameters.
use glsld.Prelude.{ℕ, ◌≡◌, ◌≢◌, refl, true, false, List, [], ◌∷◌, Option, none, some, map}
use glsld.Token.{PpToken, TokenKlass, Bytes, is_klass}
use glsld.MacroTable.{MacroDefinition, MacroTable}
use glsld.Expansion.State.{Result, done, failed, out_of_fuel}
use glsld.Expansion.Feed.{Environment, expand_tokens}
use glsld.Expansion.Outcome.{Each}
use glsld.Expansion.Reference.{flat_map, expansion_of}
use glsld.Expansion.ObjectLike.{ObjectLike, expand_tokens-expansion_of}
use glsld.Expansion.Total.{expand_tokens_ends, expand_tokens_succeeds, IsNotEof, IsNotPaste, Bodies}

abbrev token : TokenKlass → Bytes → PpToken
token k s = record {
  klass = k;
  spelled_file = 1;
  spelled_range = record {
    start = record { line = 0; character = 0 };
    end = record { line = 0; character = 0 };
  };
  text = s;
  is_first_token_of_line = false;
  has_leading_whitespace = false;
}

abbrev name : ℕ → PpToken
name c = token TokenKlass.identifier (c ∷ [])

abbrev number : ℕ → PpToken
number c = token TokenKlass.number_literal (c ∷ [])

abbrev l_paren : PpToken
l_paren = token TokenKlass.l_paren (b'(' ∷ [])

abbrev r_paren : PpToken
r_paren = token TokenKlass.r_paren (b')' ∷ [])

abbrev comma : PpToken
comma = token TokenKlass.comma (b',' ∷ [])

abbrev hash : PpToken
hash = token TokenKlass.hash (b'#' ∷ [])

abbrev hash_hash : PpToken
hash_hash = token TokenKlass.hash_hash (b'#' ∷ b'#' ∷ [])

abbrev object_like : ℕ → List PpToken → Bytes × MacroDefinition
object_like c ts = (
  c ∷ [],
  record {
    is_compiler_defined = false;
    is_function_like = false;
    def_token = name c;
    param_tokens = [];
    expansion_tokens = ts;
  },
)

abbrev function_like : ℕ → List PpToken → List PpToken → Bytes × MacroDefinition
function_like c params ts = (
  c ∷ [],
  record {
    is_compiler_defined = false;
    is_function_like = true;
    def_token = name c;
    param_tokens = params;
    expansion_tokens = ts;
  },
)

-- `X` is `Y + X`, `Y` is `X`, `F(A, B)` is `B`, `P(A, B)` is `A##B` and `S(A)` is `#A`.
abbrev plus : PpToken
plus = token TokenKlass.plus (b'+' ∷ [])

abbrev plain_table : MacroTable
plain_table =
    object_like b'X' (name b'Y' ∷ plus ∷ name b'X' ∷ [])
    ∷ object_like b'Y' (name b'X' ∷ [])
    ∷ function_like b'F' (name b'A' ∷ name b'B' ∷ []) (name b'B' ∷ [])
    ∷ []

abbrev table : MacroTable
table =
    function_like b'P' (name b'A' ∷ name b'B' ∷ []) (name b'A' ∷ hash_hash ∷ name b'B' ∷ [])
    ∷ function_like b'S' (name b'A' ∷ []) (hash ∷ name b'A' ∷ [])
    ∷ plain_table

abbrev env_of : MacroTable → Environment
env_of t = record { macro_table = t; version = 450; count_utf16_characters = false }

abbrev texts : Result (List PpToken) → Option (List Bytes)
texts (done ts) = some (map (λ (t : PpToken). t.text) ts)
texts failed = none
texts out_of_fuel = none

abbrev run : List PpToken → Option (List Bytes)
run ts = texts (expand_tokens (env_of table) ts)

-- A recursive macro: the names that are being expanded stay.
run_recursive : run (name b'X' ∷ []) ≡ some ((b'X' ∷ []) ∷ (b'+' ∷ []) ∷ (b'X' ∷ []) ∷ [])
unfolding expand_tokens
run_recursive = refl

-- `F(1, 2)` becomes `, 2`: the comma belongs to the second argument.
run_second_argument :
    run (name b'F' ∷ l_paren ∷ number b'1' ∷ comma ∷ number b'2' ∷ r_paren ∷ [])
    ≡ some ((b',' ∷ []) ∷ (b'2' ∷ []) ∷ [])
unfolding expand_tokens
run_second_argument = refl

-- `P(a, b)` becomes `ab`.
run_paste :
    run (name b'P' ∷ l_paren ∷ name b'a' ∷ comma ∷ name b'b' ∷ r_paren ∷ [])
    ≡ some ((b'a' ∷ b'b' ∷ []) ∷ [])
unfolding expand_tokens
run_paste = refl

-- `P(,)` fails an assertion, since nothing is pasted, and so does `P(a)`, which lacks an argument.
run_paste_empty : run (name b'P' ∷ l_paren ∷ comma ∷ r_paren ∷ []) ≡ none
unfolding expand_tokens
run_paste_empty = refl

run_paste_missing : run (name b'P' ∷ l_paren ∷ name b'a' ∷ r_paren ∷ []) ≡ none
unfolding expand_tokens
run_paste_missing = refl

-- `F(1` becomes `F`: the argument list is dropped.
run_open : run (name b'F' ∷ l_paren ∷ number b'1' ∷ []) ≡ some ((b'F' ∷ []) ∷ [])
unfolding expand_tokens
run_open = refl

-- `S(a)` becomes `# a`: the operand of `#` is looked for one token too far.
run_stringify :
    run (name b'S' ∷ l_paren ∷ name b'a' ∷ r_paren ∷ []) ≡ some ((b'#' ∷ []) ∷ (b'a' ∷ []) ∷ [])
unfolding expand_tokens
run_stringify = refl

abbrev call : List PpToken
call = name b'F' ∷ l_paren ∷ name b'X' ∷ comma ∷ name b'Y' ∷ r_paren ∷ name b'X' ∷ []

expand_tokens_ends_example : expand_tokens (env_of table) call ≢ out_of_fuel
expand_tokens_ends_example = expand_tokens_ends (env_of table) call

plain_table-Bodies : Bodies IsNotPaste plain_table
unfolding is_klass
plain_table-Bodies = ((refl, (refl, (refl, tt))), ((refl, tt), ((refl, tt), tt)))

call-IsNotEof : Each IsNotEof call
unfolding is_klass
call-IsNotEof = (refl, (refl, (refl, (refl, (refl, (refl, (refl, tt)))))))

expand_tokens_succeeds_example :
    (out : List PpToken) × (expand_tokens (env_of plain_table) call ≡ done out) × Each IsNotEof out
expand_tokens_succeeds_example =
    expand_tokens_succeeds (env_of plain_table) call plain_table-Bodies call-IsNotEof

abbrev recursive_table : MacroTable
recursive_table =
    object_like b'X' (name b'Y' ∷ plus ∷ name b'X' ∷ [])
    ∷ object_like b'Y' (name b'X' ∷ number b'1' ∷ [])
    ∷ []

recursive_table-ObjectLike : ObjectLike recursive_table
unfolding is_klass
recursive_table-ObjectLike = (
  record {
    no_call = refl;
    no_params = refl;
    plain_body = ((refl, refl, refl), ((refl, refl, refl), ((refl, refl, refl), tt)));
  },
  (
    record {
      no_call = refl;
      no_params = refl;
      plain_body = ((refl, refl, refl), ((refl, refl, refl), tt));
    },
    tt,
  ),
)

names-IsNotEof : Each IsNotEof (name b'Y' ∷ name b'X' ∷ [])
unfolding is_klass
names-IsNotEof = (refl, (refl, tt))

expand_tokens-expansion_of_example :
    expand_tokens (env_of recursive_table) (name b'Y' ∷ name b'X' ∷ [])
    ≡ done (flat_map (expansion_of (env_of recursive_table) 3 []) (name b'Y' ∷ name b'X' ∷ []))
expand_tokens-expansion_of_example =
    expand_tokens-expansion_of (env_of recursive_table) (name b'Y' ∷ name b'X' ∷ [])
      recursive_table-ObjectLike names-IsNotEof
