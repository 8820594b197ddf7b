-- ===== src/Token.antt =====
-- glsld-core/include/Compiler/SyntaxToken.h, Compiler/PPTokenScanner.h and the word lists
-- GlslKeywords.inc and GlslPunctuation.inc: token classes, preprocessing tokens, and the scanner.
-- An `AtomString` is the text it interns: atoms of one table are equal exactly when their texts are.
pub mod Scanner
use glsld.Prelude.{
  ℕ, zero, suc, ◌+◌, Bool, true, false, ◌&&◌, List, [], ◌∷◌, ◌==◌, ◌≡◌, refl, ◌↔◌, arith,
}
use glsld.Source.{TextRange}

-- The keywords, which the preprocessor never tests, are told apart by their place in the list.
pub data TokenKlass : Type 0 where
  invalid unknown eof comment hash hash_hash : TokenKlass
  system_header_name user_header_name defined_yes defined_no : TokenKlass
  number_literal identifier : TokenKlass
  keyword : ℕ → TokenKlass
  l_shift r_shift increment decrement less_eq greater_eq equal not_equal : TokenKlass
  and or xor mul_assign div_assign add_assign mod_assign : TokenKlass
  l_shift_assign r_shift_assign and_assign xor_assign or_assign sub_assign : TokenKlass
  l_paren r_paren l_bracket r_bracket l_brace r_brace : TokenKlass
  dot comma colon assign semicolon bang dash tilde plus star slash percent : TokenKlass
  l_angle r_angle vertical_bar caret ampersand question : TokenKlass

-- The value of the enumerator; the keywords, which lie between the two groups in the source,
-- are numbered behind the punctuation here, so that their number need not be known.
unfoldable pub klass_index : TokenKlass → ℕ
klass_index invalid = 0
klass_index unknown = 1
klass_index eof = 2
klass_index comment = 3
klass_index hash = 4
klass_index hash_hash = 5
klass_index system_header_name = 6
klass_index user_header_name = 7
klass_index defined_yes = 8
klass_index defined_no = 9
klass_index number_literal = 10
klass_index identifier = 11
klass_index l_shift = 12
klass_index r_shift = 13
klass_index increment = 14
klass_index decrement = 15
klass_index less_eq = 16
klass_index greater_eq = 17
klass_index equal = 18
klass_index not_equal = 19
klass_index and = 20
klass_index or = 21
klass_index xor = 22
klass_index mul_assign = 23
klass_index div_assign = 24
klass_index add_assign = 25
klass_index mod_assign = 26
klass_index l_shift_assign = 27
klass_index r_shift_assign = 28
klass_index and_assign = 29
klass_index xor_assign = 30
klass_index or_assign = 31
klass_index sub_assign = 32
klass_index l_paren = 33
klass_index r_paren = 34
klass_index l_bracket = 35
klass_index r_bracket = 36
klass_index l_brace = 37
klass_index r_brace = 38
klass_index dot = 39
klass_index comma = 40
klass_index colon = 41
klass_index assign = 42
klass_index semicolon = 43
klass_index bang = 44
klass_index dash = 45
klass_index tilde = 46
klass_index plus = 47
klass_index star = 48
klass_index slash = 49
klass_index percent = 50
klass_index l_angle = 51
klass_index r_angle = 52
klass_index vertical_bar = 53
klass_index caret = 54
klass_index ampersand = 55
klass_index question = 56
klass_index (keyword n) = 57 + n

unfoldable pub is_klass : TokenKlass → TokenKlass → Bool
unfolding klass_index
is_klass a b = klass_index a == klass_index b

abbrev pub Bytes : Type 0
Bytes = List ℕ

unfoldable pub text_eq : Bytes → Bytes → Bool
text_eq [] [] = true
text_eq (x ∷ xs) (y ∷ ys) = x == y && text_eq xs ys
text_eq _ _ = false

pub text_eq_iff : (a b : Bytes) → (text_eq a b ≡ true) ↔ (a ≡ b)
unfolding text_eq
text_eq_iff (x ∷ a) (y ∷ b) = ground (arith, text_eq_iff a b)
text_eq_iff _ _ = ground arith

pub record PpToken : Type 0 where
  pub klass : TokenKlass
  pub spelled_file : ℕ
  pub spelled_range : TextRange
  pub text : Bytes
  pub is_first_token_of_line : Bool
  pub has_leading_whitespace : Bool
