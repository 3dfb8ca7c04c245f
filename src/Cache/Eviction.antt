-- ===== src/Cache/Eviction.antt =====
-- Which entry a full cache drops.
use google_ads_intelligence.Base.{
  ℕ, ◌≤◌, ◌≡◌, refl, sym, ap, subst, ◌⊎◌, inl, inr, true, false, some, [], ◌∷◌, ltb, arith,
  Bool-cases, is_some,
}
use google_ads_intelligence.Base.Eq.{list_eq, nat_eq, list_beq_iff}
use google_ads_intelligence.Base.Dict.{Dict, lookup, HasUniqueKeys}
use google_ads_intelligence.Base.Text.{Text}
use google_ads_intelligence.Cache.{oldest, oldest_from}

module _ {V : Type 0} where
  -- The candidate's time bounds those of the list, and the result stands in the list.
  abbrev pub AllFrom : ℕ → Dict Text (ℕ × V) → Type 0
  AllFrom t [] = Unit
  AllFrom t ((_, (u, _)) ∷ d) = (t ≤ u) × AllFrom t d

  AllFrom-le : (s t : ℕ) (d : Dict Text (ℕ × V)) → s ≤ t → AllFrom t d → AllFrom s d
  AllFrom-le s t [] h a = tt
  AllFrom-le s t ((_, (u, _)) ∷ d) h a = (omega arith, AllFrom-le s t d h a.1)

  oldest_from-cons_lt :
      (k j : Text) (t u : ℕ) (w : V) (d : Dict Text (ℕ × V))
      → ltb u t ≡ true
      → oldest_from k t ((j, (u, w)) ∷ d) ≡ oldest_from j u d
  unfolding oldest_from
  oldest_from-cons_lt k j t u w d e = rw e

  oldest_from-cons_le :
      (k j : Text) (t u : ℕ) (w : V) (d : Dict Text (ℕ × V))
      → ltb u t ≡ false
      → oldest_from k t ((j, (u, w)) ∷ d) ≡ oldest_from k t d
  unfolding oldest_from
  oldest_from-cons_le k j t u w d e = rw e

  -- Where the search ends: at the first candidate or in the list, with the smallest time.
  abbrev Ends : Text → ℕ → Dict Text (ℕ × V) → Text → Type 0
  Ends k t d r =
      (u : ℕ) × (u ≤ t)
      × AllFrom u d
      × (((r ≡ k) × (u ≡ t)) ⊎ ((v : V) × (lookup r d ≡ some (u, v))))

  Ends-cons_here :
      (k j : Text) (t u : ℕ) (w : V) (d : Dict Text (ℕ × V)) (r : Text)
      → is_some (lookup j d) ≡ false
      → u ≤ t
      → Ends j u d r
      → Ends k t ((j, (u, w)) ∷ d) r
  Ends-cons_here k j t u w d r fresh lt (m, le, all, inl (same, at)) =
      (m, omega arith, (le, all), inr (w, ground (arith, list_beq_iff r j)))
  Ends-cons_here k j t u w d r fresh lt (m, le, all, inr (v, found)) =
      (m, omega arith, (le, all), inr (v, ground (arith, list_beq_iff r j)))

  Ends-cons_there :
      (k j : Text) (t u : ℕ) (w : V) (d : Dict Text (ℕ × V)) (r : Text)
      → is_some (lookup j d) ≡ false
      → t ≤ u
      → Ends k t d r
      → Ends k t ((j, (u, w)) ∷ d) r
  Ends-cons_there k j t u w d r fresh lt (m, le, all, inl p) = (m, le, (omega arith, all), inl p)
  Ends-cons_there k j t u w d r fresh lt (m, le, all, inr (v, found)) =
      (m, le, (omega arith, all), inr (v, ground (arith, list_beq_iff r j)))

  oldest_from-Ends :
      (k : Text) (t : ℕ) (d : Dict Text (ℕ × V)) → HasUniqueKeys d → Ends k t d (oldest_from k t d)
  unfolding oldest_from
  oldest_from-Ends k t [] h = (t, omega arith, tt, inl (refl, refl))
  oldest_from-Ends k t ((j, (u, w)) ∷ d) h = elim (Bool-cases (ltb u t)) [
    | inl e ↦ subst (Ends k t ((j, (u, w)) ∷ d)) (sym (oldest_from-cons_lt k j t u w d e)) (
        Ends-cons_here k j t u w d (oldest_from j u d) h.0 (ground arith)
          (oldest_from-Ends j u d h.1))
    | inr e ↦ subst (Ends k t ((j, (u, w)) ∷ d)) (sym (oldest_from-cons_le k j t u w d e)) (
        Ends-cons_there k j t u w d (oldest_from k t d) h.0 (ground arith)
          (oldest_from-Ends k t d h.1))
  ]

  -- A store with an entry has an oldest key, which is bound, to no later a time than any other.
  pub oldest_lem :
      (x : Text × (ℕ × V)) (d : Dict Text (ℕ × V))
      → HasUniqueKeys (x ∷ d)
      → (k : Text) × (u : ℕ) × (v : V) × (oldest (x ∷ d) ≡ some k)
        × (lookup k (x ∷ d) ≡ some (u, v))
        × AllFrom u (x ∷ d)
  unfolding oldest
  oldest_lem (k, (t, w)) d h = found (oldest_from k t d) refl (oldest_from-Ends k t d h.1)
    where
      found :
          (r : Text)
          → oldest_from k t d ≡ r
          → Ends k t d r
          → (j : Text) × (u : ℕ) × (v : V) × (some (oldest_from k t d) ≡ some j)
            × (lookup j ((k, (t, w)) ∷ d) ≡ some (u, v))
            × AllFrom u ((k, (t, w)) ∷ d)
      found r e (u, le, all, inl (same, at)) =
          (r, u, w, ap some e, ground (arith, list_beq_iff r k), (le, all))
      found r e (u, le, all, inr (v, at)) =
          (r, u, v, ap some e, ground (arith, list_beq_iff r k), (le, all))

  pub le_of_AllFrom :
      (u : ℕ) (j : Text) (t : ℕ) (v : V) (d : Dict Text (ℕ × V))
      → AllFrom u d
      → lookup j d ≡ some (t, v)
      → u ≤ t
  le_of_AllFrom u j t v [] all e = cc
  le_of_AllFrom u j t v ((i, (s, w)) ∷ d) all e = ground (arith, le_of_AllFrom u j t v d all.1)
