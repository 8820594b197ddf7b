-- ===== src/Parser/Growth.antt =====
-- With more fuel the functions of the parser return the same, or return where they did not.
pub mod Bodies
pub mod Types
pub mod Postfix
pub mod Fuel
use glsld.Prelude.{◌≡◌, ◌⊎◌, inl, inr, refl, sym, Bool, true, false, ℕ, if◌then◌else◌}
use glsld.Prelude.Outcome.{Result, done, failed, out_of_fuel, ◌>>=◌}
use glsld.Parser.Tokens.{Parser}
use glsld.Parser.Syntax.{Expr}
use glsld.Parser.Calls.{Calls}

abbrev pub Grows : {A : Type 0} → Result A → Result A → Type 0
Grows m n = (m ≡ out_of_fuel) ⊎ (m ≡ n)

pub Grows-refl : {A : Type 0} (m : Result A) → Grows m m
Grows-refl m = inr refl

pub Grows-bind :
    {A B : Type 0} (m n : Result A) (k l : A → Result B)
    → Grows m n
    → ((a : A) → Grows (k a) (l a))
    → Grows (m >>= k) (n >>= l)
Grows-bind m n k l (inl e) h = rw e (inl refl)
Grows-bind (done a) n k l (inr e) h = rw (sym e) (h a)
Grows-bind failed n k l (inr e) h = rw (sym e) (inr refl)
Grows-bind out_of_fuel n k l (inr e) h = inl refl

pub Grows-if :
    {A : Type 0} (b : Bool) (x x' y y' : Result A)
    → Grows x x'
    → Grows y y'
    → Grows (if b then x else y) (if b then x' else y')
Grows-if true x x' y y' h k = h
Grows-if false x x' y y' h k = k

pub record Grow (self self' : Calls) : Type 0 where
  pub assignment_expr : (s : Parser) → Grows (self.assignment_expr s) (self'.assignment_expr s)
  pub unary_expr : (s : Parser) → Grows (self.unary_expr s) (self'.unary_expr s)
  pub binary_expr :
      (begin : ℕ) (lhs : Expr) (p : ℕ) (s : Parser)
      → Grows (self.binary_expr begin lhs p s) (self'.binary_expr begin lhs p s)
  pub rhs_loop :
      (begin : ℕ) (rhs : Expr) (p : ℕ) (s : Parser)
      → Grows (self.rhs_loop begin rhs p s) (self'.rhs_loop begin rhs p s)
  pub comma_loop :
      (begin : ℕ) (lhs : Expr) (s : Parser)
      → Grows (self.comma_loop begin lhs s) (self'.comma_loop begin lhs s)
  pub postfix_loop :
      (begin : ℕ) (e : Expr) (s : Parser)
      → Grows (self.postfix_loop begin e s) (self'.postfix_loop begin e s)
  pub argument_loop :
      (left : ℕ) (s : Parser) → Grows (self.argument_loop left s) (self'.argument_loop left s)
  pub size_loop : (s : Parser) → Grows (self.size_loop s) (self'.size_loop s)
  pub layout_loop :
      (left : ℕ) (s : Parser) → Grows (self.layout_loop left s) (self'.layout_loop left s)
  pub qualifier_loop : (s : Parser) → Grows (self.qualifier_loop s) (self'.qualifier_loop s)
  pub struct_loop : (s : Parser) → Grows (self.struct_loop s) (self'.struct_loop s)
  pub declarator_loop : (s : Parser) → Grows (self.declarator_loop s) (self'.declarator_loop s)
