-- ===== src/Base/Float.antt =====
-- Python floats: the type and its operations are a parameter of the model, given as an instance.
-- Division is only called where the source has excluded a zero divisor, or behind `div?`.
use google_ads_intelligence.Base.Tests.{if◌then◌else◌}
use google_ads_intelligence.Base.Int.{ℤ, pos}
use Prim.Native.Nat.{ℕ}
use mathlib.Core.Path.{◌≡◌}
use mathlib.Core.Bool.{Bool, true, false}
use mathlib.Core.Option.{Option, none, some}

pub record FloatOps (F : Type 0) : Type 0 where
  -- `float(n)` for an integer.
  pub of_int : ℤ → F
  -- The literal n / 10 ^ k: `decimal 85 2` is 0.85.
  pub decimal : ℕ → ℕ → F
  pub add : F → F → F
  pub sub : F → F → F
  pub mul : F → F → F
  pub div : F → F → F
  pub neg : F → F
  pub abs : F → F
  pub lt : F → F → Bool
  pub le : F → F → Bool
  pub eq : F → F → Bool
  -- `round(x)` and `round(x, k)`.
  pub round_int : F → ℤ
  pub round_at : ℕ → F → F

module _ {F : Type 0} ⦃fl : FloatOps F⦄ where
  infixl 65 ◌+f◌ ◌-f◌
  infixl 70 ◌*f◌ ◌/f◌
  infix 50 ◌<f◌ ◌≤f◌ ◌=f◌
  abbrev pub ◌+f◌ : F → F → F
  a +f b = fl.add a b

  abbrev pub ◌-f◌ : F → F → F
  a -f b = fl.sub a b

  abbrev pub ◌*f◌ : F → F → F
  a *f b = fl.mul a b

  abbrev pub ◌/f◌ : F → F → F
  a /f b = fl.div a b

  -- The tests.
  abbrev pub ◌<f◌ : F → F → Bool
  a <f b = fl.lt a b

  abbrev pub ◌≤f◌ : F → F → Bool
  a ≤f b = fl.le a b

  abbrev pub ◌=f◌ : F → F → Bool
  a =f b = fl.eq a b

  abbrev pub int : ℤ → F
  int n = fl.of_int n

  abbrev pub nat : ℕ → F
  nat n = fl.of_int (pos n)

  -- Truthiness.
  abbrev pub is_zero : F → Bool
  is_zero a = fl.eq a (fl.of_int (pos 0))

  -- `min(a, b)` and `max(a, b)`: the first argument unless the second is strictly smaller (larger).
  abbrev pub min_f : F → F → F
  min_f a b = if fl.lt b a then b else a

  abbrev pub max_f : F → F → F
  max_f a b = if fl.lt a b then b else a

  -- `none` stands for ZeroDivisionError.
  abbrev pub div? : F → F → Option F
  div? a b = if is_zero b then none else some (fl.div a b)

-- What IEEE 754 says of comparison and division, for numbers that are finite and stay so.
pub record FloatLaws (F : Type 0) ⦃fl : FloatOps F⦄ : Type 0 where
  pub le_refl : (a : F) → (a ≤f a) ≡ true
  pub le_trans : (a b c : F) → (a ≤f b) ≡ true → (b ≤f c) ≡ true → (a ≤f c) ≡ true
  pub pos_ne_zero : (a : F) → (nat 0 <f a) ≡ true → is_zero a ≡ false
  pub div_mono : (a b c : F) → (nat 0 <f c) ≡ true → (a ≤f b) ≡ true → (a /f c ≤f b /f c) ≡ true
  pub zero_div :
      (a c : F)
      → (nat 0 <f c) ≡ true
      → is_zero a ≡ true
      → ((a /f c ≤f fl.decimal 0 1) ≡ true) × ((fl.decimal 0 1 ≤f a /f c) ≡ true)
