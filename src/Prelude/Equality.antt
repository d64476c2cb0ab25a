-- ===== src/Prelude/Equality.antt =====
-- Boolean equality as an interface, with an instance for each type that the program compares whole.
use Prim.Native.Nat.{ℕ}
use Prim.Native.String.{String}
use mathlib.Core.Path.{◌≡◌, refl, ap}
use mathlib.Core.Bool.{Bool, true, false, ◌&&◌}
use mathlib.Core.List.{List, [], ◌∷◌}
use mathlib.Core.Option.{Option, none, some}
use native.Mathlib.Omega.{arith}
use risingwave_operator.Prelude.Tests.{◌==◌ as nat_eq, ==_iff}
use risingwave_operator.Prelude.Int.{ℤ, eqb_ℤ, eqb_ℤ→eq}
use risingwave_operator.Prelude.Text.{str_eq, str_eq_iff}

-- A conjunction that holds, part by part.
pub and_parts : (a b : Bool) → (a && b) ≡ true → (a ≡ true) × (b ≡ true)
and_parts true b h = (refl, h)
and_parts false b h = cc

-- `sound`: what compares equal is equal.
pub record Eq {ℓ} (A : Type ℓ) : Type ℓ where
  pub beq : A → A → Bool
  pub sound : (a b : A) → beq a b ≡ true → a ≡ b

-- equality.Semantic.DeepEqual, reflect.DeepEqual, and Go's == on values.
abbrev pub equal {ℓ} : {A : Type ℓ} ⦃e : Eq A⦄ → A → A → Bool
equal ⦃e⦄ = e.beq

pub equal_sound {ℓ} : {A : Type ℓ} ⦃e : Eq A⦄ (a b : A) → equal a b ≡ true → a ≡ b
equal_sound ⦃e⦄ = e.sound

abbrev pub bool_equal : Bool → Bool → Bool
bool_equal true b = b
bool_equal false true = false
bool_equal false false = true

pub bool_sound : (a b : Bool) → bool_equal a b ≡ true → a ≡ b
bool_sound true true h = refl
bool_sound true false h = cc
bool_sound false true h = cc
bool_sound false false h = refl

pub nat_sound : (a b : ℕ) → nat_eq a b ≡ true → a ≡ b
nat_sound a b h = (==_iff a b).0 h

instance abbrev pub bool_eq : Eq Bool
bool_eq = record { beq = bool_equal; sound = bool_sound }

instance abbrev pub nat_equality : Eq ℕ
nat_equality = record { beq = nat_eq; sound = nat_sound }

instance abbrev pub int_eq : Eq ℤ
int_eq = record { beq = eqb_ℤ; sound = eqb_ℤ→eq }

instance abbrev pub string_eq : Eq String
string_eq = record { beq = str_eq; sound = λ a b h. (str_eq_iff a b).0 h }

module _ {ℓ} {A : Type ℓ} ⦃e : Eq A⦄ where
  abbrev pub option_equal : Option A → Option A → Bool
  option_equal none none = true
  option_equal none (some b) = false
  option_equal (some a) none = false
  option_equal (some a) (some b) = equal a b

  pub option_sound : (a b : Option A) → option_equal a b ≡ true → a ≡ b
  option_sound none none h = refl
  option_sound none (some b) h = cc
  option_sound (some a) none h = cc
  option_sound (some a) (some b) h = ap some (equal_sound a b h)

  abbrev pub list_equal : List A → List A → Bool
  list_equal [] [] = true
  list_equal [] (b ∷ ys) = false
  list_equal (a ∷ xs) [] = false
  list_equal (a ∷ xs) (b ∷ ys) = equal a b && list_equal xs ys

  pub list_sound : (xs ys : List A) → list_equal xs ys ≡ true → xs ≡ ys
  list_sound [] [] h = refl
  list_sound [] (b ∷ ys) h = cc
  list_sound (a ∷ xs) [] h = cc
  list_sound (a ∷ xs) (b ∷ ys) h =
      let p : a ≡ b = equal_sound a b (ground (arith, h)) in
      let q : xs ≡ ys = list_sound xs ys (ground (arith, h)) in cc

  instance abbrev pub option_eq : Eq (Option A)
  option_eq = record { beq = option_equal; sound = option_sound }

  instance abbrev pub list_eq : Eq (List A)
  list_eq = record { beq = list_equal; sound = list_sound }
