-- ===== src/Base/Index.antt =====
-- A lookup of the rows of a table by a column, as `get_by(column=k)` makes it, and how it follows the
-- changes of the table.
use google_ads_intelligence.Base.Tests.{if◌then◌else◌, ==_iff, is_some}
use google_ads_intelligence.Base.Eq.{Eq, ◌=?◌, nat_eq}
use google_ads_intelligence.Base.Dict.{Dict, lookup, insert, HasUniqueKeys}
use Prim.Native.Nat.{ℕ}
use mathlib.Core.Path.{◌≡◌, refl}
use mathlib.Core.Bool.{true}
use mathlib.Core.Option.{Option, none, some}
use mathlib.Core.List.{[], ◌∷◌, ◌++◌}
use native.Mathlib.Omega.{arith}

module _ {ℓ κ} {A : Type ℓ} {K : Type κ} ⦃e : Eq K⦄ (column : A → K) where
  abbrev pub find_by : K → Dict ℕ A → Option (ℕ × A)
  find_by k [] = none
  find_by k (x ∷ d) = let rest = find_by k d in if column x.1 =? k then some x else rest

  pub find_by-append :
      (k j : K) (d : Dict ℕ A) (x : ℕ × A)
      → find_by j d ≡ none
      → column x.1 ≡ j
      → find_by k (d ++ x ∷ []) ≡ (if j =? k then some x else find_by k d)
  find_by-append k j [] x h hx = rw hx refl
  find_by-append k j (y ∷ d) x h hx = ground (
    arith,
    e.beq_iff (column y.1) k,
    e.beq_iff (column y.1) j,
    e.beq_iff j k,
    find_by-append k j d x,
  )

  pub find_by_column : (k : K) (d : Dict ℕ A) (x : ℕ × A) → find_by k d ≡ some x → column x.1 ≡ k
  find_by_column k [] x h = cc
  find_by_column k (y ∷ d) x h = ground (arith, e.beq_iff (column y.1) k, find_by_column k d x)

  pub find_by_is_row :
      (k : K) (d : Dict ℕ A) (x : ℕ × A) → find_by k d ≡ some x → is_some (lookup x.0 d) ≡ true
  find_by_is_row k [] x h = cc
  find_by_is_row k (y ∷ d) x h = ground (arith, ==_iff x.0 y.0, find_by_is_row k d x)

  pub find_by-insert :
      (k j : K) (d : Dict ℕ A) (x : ℕ × A) (a : A)
      → HasUniqueKeys d
      → find_by j d ≡ some x
      → column a ≡ j
      → find_by k (insert x.0 a d) ≡ (if j =? k then some (x.0, a) else find_by k d)
  find_by-insert k j [] x a u h ha = cc
  find_by-insert k j (y ∷ d) x a u h ha = ground (
    arith,
    e.beq_iff (column y.1) k,
    e.beq_iff (column y.1) j,
    e.beq_iff (column a) k,
    e.beq_iff j k,
    ==_iff x.0 y.0,
    find_by_is_row j d x,
    find_by-insert k j d x a u.1,
  )
