-- ===== src/Budgets/Weekly/Weeks.antt =====
-- A day lies in exactly one week.
use google_ads_intelligence.Base.{
  ℕ, zero, suc, ◌+◌, ◌-◌, ◌*◌, ◌%◌, ◌≤◌, ◌≡◌, refl, ◌&&◌, List, [], ◌∷◌, if◌then◌else◌, ◌==◌, leb,
  ltb, arith,
}
use google_ads_intelligence.Budgets.Weekly.{monday, week_starts}

-- The sum over the weeks.
abbrev pub sum_by {ℓ} : {A : Type ℓ} → (A → ℕ) → List A → ℕ
sum_by f [] = 0
sum_by f (x ∷ xs) = f x + sum_by f xs

pub sum_by_add {ℓ} :
    {A : Type ℓ} (f g : A → ℕ) (xs : List A)
    → sum_by (λ x. f x + g x) xs ≡ sum_by f xs + sum_by g xs
sum_by_add f g [] = refl
sum_by_add f g (x ∷ xs) = omega (arith, sum_by_add f g xs)

pub sum_by_zero {ℓ} : {A : Type ℓ} (xs : List A) → sum_by (λ x. 0) xs ≡ 0
sum_by_zero [] = refl
sum_by_zero (x ∷ xs) = omega (arith, sum_by_zero xs)

pub monday_mod : (d : ℕ) → 1 ≤ d → monday d % 7 ≡ 1
unfolding monday
monday_mod d h = omega (arith, h)

pub monday_reach : (n d : ℕ) → 7 * suc n ≤ d → 7 * suc n ≤ monday d + 6
unfolding monday
monday_reach n d h = omega (arith, h)

pub monday_is :
    (m k d : ℕ)
    → m % 7 ≡ 1
    → 7 * k ≤ m
    → (m - 7 * k == monday d) ≡ (leb (m - 7 * k) d && ltb d (m - 7 * k + 7))
unfolding monday
monday_is m k d hm hk = ground (arith, hm, hk)

pub one_week :
    (n m d v : ℕ)
    → m % 7 ≡ 1
    → 7 * n ≤ m + 6
    → sum_by (λ w. if w == monday d then v else 0) (week_starts n m)
      ≡ (if leb (m + 7 - 7 * n) d && ltb d (m + 7) then v else 0)
unfolding week_starts
one_week zero m d v hm hn = ground (arith, hn)
one_week (suc n) m d v hm hn =
    ground
      (arith, monday_is m n d hm (omega (arith, hn)), one_week n m d v hm (omega (arith, hn)), hn)

pub sum_by-cong {ℓ} :
    {A : Type ℓ} (f g : A → ℕ) (xs : List A) → ((x : A) → f x ≡ g x) → sum_by f xs ≡ sum_by g xs
sum_by-cong f g [] h = refl
sum_by-cong f g (x ∷ xs) h = omega (arith, h x, sum_by-cong f g xs h)
