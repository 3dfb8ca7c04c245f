-- ===== src/Tests/Fixed.antt =====
-- A float type for the examples: natural numbers in ten-thousandths. Negative values are cut to 0.
use google_ads_intelligence.Base.{
  ℕ, ◌+◌, ◌-◌, ◌*◌, ◌/◌, ◌^◌, ◌≡◌, refl, true, ltb, leb, ◌==◌, arith,
}
use google_ads_intelligence.Base.{◌≤◌, ◌<◌, ltb→lt, tests, ==_iff}
use native.Mathlib.Nat.{le-div_iff_mul-le, div-mul-le_self, le_trans, zero-div}
use google_ads_intelligence.Base.Int.{pos, pos_part}
use google_ads_intelligence.Base.Float.{FloatOps, FloatLaws}

pub data Fixed : Type 0 where
  units : ℕ → Fixed

abbrev pub raw : Fixed → ℕ
raw (units n) = n

-- The numeral n / 10 ^ k.
abbrev scaled : ℕ → ℕ → ℕ
scaled n k = n * 10000 / 10 ^ k

-- Ties are rounded up.
abbrev round_to : ℕ → ℕ → ℕ
round_to unit n = (n + unit / 2) / unit * unit

instance abbrev pub fixed_ops : FloatOps Fixed
fixed_ops = record {
  of_int = λ n. units (pos_part n * 10000);
  decimal = λ n k. units (scaled n k);
  add = λ a b. units (raw a + raw b);
  sub = λ a b. units (raw a - raw b);
  mul = λ a b. units (raw a * raw b / 10000);
  div = λ a b. units (raw a * 10000 / raw b);
  neg = λ a. units 0;
  abs = λ a. a;
  lt = λ a b. ltb (raw a) (raw b);
  le = λ a b. leb (raw a) (raw b);
  eq = λ a b. raw a == raw b;
  round_int = λ a. pos (round_to 10000 (raw a) / 10000);
  round_at = λ k a. units (round_to (10000 / 10 ^ k) (raw a));
}

div_mono_ℕ : (a b c : ℕ) → 0 < c → a ≤ b → a / c ≤ b / c
div_mono_ℕ a b c h k = (le-div_iff_mul-le h).1 (le_trans (div-mul-le_self a c) k)

div_mono_fixed :
    (a b c : ℕ) → ltb 0 c ≡ true → leb a b ≡ true → leb (a * 10000 / c) (b * 10000 / c) ≡ true
div_mono_fixed a b c h k =
    ground (arith, div_mono_ℕ (a * 10000) (b * 10000) c (ltb→lt 0 c h) (omega tests))

zero_div_fixed :
    (a c : ℕ) → (a == 0) ≡ true → (leb (a * 10000 / c) 0 ≡ true) × (leb 0 (a * 10000 / c) ≡ true)
zero_div_fixed a c k = let e : a ≡ 0 = (==_iff a 0).0 k in rw (e, zero-div) (refl, refl)

pub fixed_laws : FloatLaws Fixed
fixed_laws = record {
  le_refl = λ a. ground arith;
  le_trans = λ a b c h k. ground arith;
  pos_ne_zero = λ a h. ground arith;
  div_mono = λ a b c h k. div_mono_fixed (raw a) (raw b) (raw c) h k;
  zero_div = λ a c h k. zero_div_fixed (raw a) (raw c) k;
}
