-- ===== src/Ops/Health/Headline.antt =====
-- The headline reason: the first of the issues of the highest severity.
use google_ads_intelligence.Base.{
  ℕ, ◌≤◌, ◌<◌, true, Option, none, some, List, [], ◌∷◌, ◌++◌, ◌≡◌, refl, ltb, All, arith, inl, inr,
  Bool-cases, subst,
}
use google_ads_intelligence.Base.{tests, ltb→lt, All-append, All-imp}
use mathlib.Core.List.{append_assoc}
use google_ads_intelligence.Ops.Scoring.{Issue, Label, severity_rank}
use google_ads_intelligence.Ops.Health.{primary_reason, headline_from}

module _ {F : Type 0} where
  abbrev pub rank : Issue F → ℕ
  rank i = severity_rank i.severity

  -- `i` stands in the list, all before it rank strictly behind it, and none after it before it.
  pub record IsHeadline (issues : List (Issue F)) (i : Issue F) : Type 0 where
    pub before : List (Issue F)
    pub after : List (Issue F)
    pub split : issues ≡ before ++ i ∷ after
    pub later_rank : All (λ j. rank i < rank j) before
    pub no_better : All (λ j. rank i ≤ rank j) after

  headline_from-IsHeadline :
      (pre mid : List (Issue F)) (best : Issue F) (rest : List (Issue F))
      → All (λ j. rank best < rank j) pre
      → All (λ j. rank best ≤ rank j) mid
      → IsHeadline (pre ++ best ∷ (mid ++ rest)) (headline_from best rest)
  unfolding headline_from
  headline_from-IsHeadline pre mid best [] hp hm = record {
    before = pre;
    after = mid ++ [];
    split = refl;
    later_rank = hp;
    no_better = All-append (λ j. rank best ≤ rank j) mid [] hm tt;
  }
  headline_from-IsHeadline pre mid best (i ∷ rest) hp hm =
      elim (Bool-cases (ltb (rank i) (rank best))) [
        | inl better ↦ rw better (
            subst (λ l. IsHeadline l (headline_from i rest))
              (append_assoc pre (best ∷ mid) (i ∷ rest))
              (headline_from-IsHeadline (pre ++ best ∷ mid) [] i rest (passed better) tt))
        | inr worse ↦ rw worse (
            subst (λ l. IsHeadline (pre ++ best ∷ l) (headline_from best rest))
              (append_assoc mid (i ∷ []) rest)
              (headline_from-IsHeadline pre (mid ++ i ∷ []) best rest hp
                (All-append (λ j. rank best ≤ rank j) mid (i ∷ []) hm (ground arith, tt))))
      ]
    where
      passed : ltb (rank i) (rank best) ≡ true → All (λ j. rank i < rank j) (pre ++ best ∷ mid)
      passed better =
          All-append (λ j. rank i < rank j) pre (best ∷ mid)
            (All-imp (λ j. rank best < rank j) (λ j. rank i < rank j) pre
              (λ j h. omega (tests, ltb→lt _ _ better)) hp)
            (
              ltb→lt _ _ better,
              All-imp (λ j. rank best ≤ rank j) (λ j. rank i < rank j) mid
                  (λ j h. omega (tests, ltb→lt _ _ better)) hm,
            )

  abbrev pub Explains : List (Issue F) → Option (Label F) → Type 0
  Explains issues none = issues ≡ []
  Explains issues (some label) = (i : Issue F) × IsHeadline issues i × (label ≡ i.label)

  -- There is no headline reason only if there are no issues; otherwise it is the label of the first
  -- issue of the highest severity.
  pub primary_reason-Explains : (issues : List (Issue F)) → Explains issues (primary_reason issues)
  unfolding primary_reason
  primary_reason-Explains [] = refl
  primary_reason-Explains (i ∷ issues) =
      (headline_from i issues, headline_from-IsHeadline [] [] i issues tt tt, refl)
