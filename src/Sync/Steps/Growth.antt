-- ===== src/Sync/Steps/Growth.antt =====
-- The counts of the dimension steps and of the search terms, against the growth of the tables.
use google_ads_intelligence.Base.{
  ℕ, ◌+◌, ◌≡◌, refl, ap, ◌∙◌, Bool, true, false, ◌&&◌, ◌||◌, Option, none, some, is_some, List, [],
  ◌∷◌, ◌==◌, any, arith, length, length-append, keep, not, inl, inr, Bool-cases, Option-cases,
  if◌then◌else◌, ◌⊎◌,
}
use google_ads_intelligence.Base.Eq.{Eq, list_eq, nat_eq, pair_eq, option_eq}
use google_ads_intelligence.Base.Dict.{Dict, Table, lookup, insert, lookup-insert, length-insert}
use google_ads_intelligence.Base.Text.{Text, codes}
use google_ads_intelligence.Sync.Log.{Account, World, Details}
use google_ads_intelligence.Sync.Engine.{StepResult}
use google_ads_intelligence.Sync.Window.{Columns, item, int_of, without}
use google_ads_intelligence.Sync.Dimension.{
  Dim, find_dim, pk_map, upsert, upsert_keyword, upsert_ad_group, upsert_ad,
}
use google_ads_intelligence.Sync.Dimension.Laws.{find_dim_is_row}
use google_ads_intelligence.Sync.Steps.{
  Tables, Reports, Counts, count_created, count_failed, no_counts, upsert_rows, under_parent,
  step_keywords_dim, step_ads_dim, step_ad_groups_dim, id_at,
}

-- A created row is one more.
abbrev pub Grows : {A : Type 0} → Table A → Bool → Table A → Type 0
Grows t created t' = length t'.rows ≡ (if created then length t.rows + 1 else length t.rows)

pub upsert-Grows :
    {K F : Type 0} ⦃e : Eq K⦄ (scope : ℕ) (key : K) (account : ℕ) (values : Columns F)
    (t : Table (Dim K F))
    → (let r = upsert scope key account values t in Grows t r.0.1 r.1)
unfolding upsert
upsert-Grows scope key account values t = elim (Option-cases (find_dim scope key t.rows)) [
  | inl h ↦ rw (upsert, h) (length-append t.rows _)
  | inr (x, h) ↦
      rw (upsert, h)
        (length-insert x.0 _ t.rows
          ∙ ap (λ b. if b then length t.rows else length t.rows + 1)
              (find_dim_is_row scope key t.rows x h))
]

-- The rows of a report that belong to a row of the account with their parent's id.
abbrev pub has_parent : {F : Type 0} → ℕ → Dict ℕ (Dim ℕ F) → Text → Columns F → Bool
has_parent account parents name row = elim (int_of (item name row)) [
  | none ↦ false
  | some id ↦ any (λ x. (x.1.account_id == account) && (x.1.key == id)) parents
]

module _ {F : Type 0} (account : ℕ) where
  pk_map-is_some :
      (id : ℕ) (d : Dict ℕ (Dim ℕ F)) (acc : Dict ℕ ℕ)
      → is_some (lookup id (pk_map account d acc))
        ≡ (any (λ x. (x.1.account_id == account) && (x.1.key == id)) d || is_some (lookup id acc))
  pk_map-is_some id [] acc = refl
  pk_map-is_some id (x ∷ d) acc = elim (Bool-cases (x.1.account_id == account)) [
    | inr other ↦ rw (other, pk_map-is_some id d acc) refl
    | inl own ↦
        rw (own, pk_map-is_some id d (insert x.1.key x.0 acc), lookup-insert id x.1.key x.0 acc)
          (ground arith)
  ]

module _ {F A : Type 0} (change : Columns F → Table A → Option (Bool × Table A))
    (known : Columns F → Bool)
    (changes : (row : Columns F) (t : Table A)
      → ((known row ≡ false) × (change row t ≡ none))
        ⊎ ((known row ≡ true)
            × ((x : Bool × Table A) × ((change row t ≡ some x) × Grows t x.0 x.1)))) where
  upsert_rows-Grows :
      (rows : List (Columns F)) (c : Counts) (t : Table A)
      → (let r = upsert_rows change rows c t in
          (length r.1.rows + c.ins ≡ length t.rows + r.0.ins)
          × ((r.0.bad ≡ c.bad + length (keep (λ row. not (known row)) rows))
              × (r.0.ins + r.0.upd + r.0.bad ≡ c.ins + c.upd + c.bad + length rows)))
  unfolding upsert_rows
  upsert_rows-Grows [] c t = (refl, (omega arith, omega arith))
  upsert_rows-Grows (row ∷ rows) c t = elim (changes row t) [
    | inl (unknown, e) ↦
        let rest = upsert_rows-Grows rows (count_failed c) t in
        rw (upsert_rows, e, unknown)
          (omega (arith, rest.0), (omega (arith, rest.1.0), omega (arith, rest.1.1)))
    | inr (found, (x, (e, grows))) ↦
        let rest = upsert_rows-Grows rows (count_created x.0 c) x.1 in
        rw (upsert_rows, e, found)
          (elim (Bool-cases x.0) [
            | inl created ↦
                let more = rw created at grows in
                let rest' = rw created at rest in
                rw created (
                  omega (arith, more, rest'.0),
                  (omega (arith, rest'.1.0), omega (arith, rest'.1.1)),
                )
            | inr updated ↦
                let same = rw updated at grows in
                let rest' = rw updated at rest in
                rw updated (
                  omega (arith, same, rest'.0),
                  (omega (arith, rest'.1.0), omega (arith, rest'.1.1)),
                )
          ])
  ]

-- What a dimension step reports and leaves in its table: the rows that it failed are those that are not
-- known, and it created as many as the table has grown by.
pub record Accounted {F A : Type 0} (known : Columns F → Bool) (rows : List (Columns F))
    (before after : Table A) (result : StepResult) : Type 0 where
  pub created : ℕ
  pub updated : ℕ
  pub result_is :
      result
      ≡ StepResult.returned created updated
          (length (keep (λ row. not (known row)) rows))
          (some (Details.fetched (length rows)))
  pub grown : length after.rows ≡ length before.rows + created
  pub all_rows : created + updated + length (keep (λ row. not (known row)) rows) ≡ length rows

module _ {F : Type 0} (account : ℕ) (parents : Dict ℕ (Dim ℕ F)) (name : Text)
    (change : ℕ → Columns F → Table (Dim ℕ F) → (ℕ × Bool) × Table (Dim ℕ F))
    (grows : (pk : ℕ) (row : Columns F) (t : Table (Dim ℕ F))
      → Grows t (change pk row t).0.1 (change pk row t).1) where
  under_parent-Grows :
      (row : Columns F) (t : Table (Dim ℕ F))
      → ((has_parent account parents name row ≡ false)
          × (under_parent (pk_map account parents []) name change row t ≡ none))
        ⊎ ((has_parent account parents name row ≡ true)
            × ((x : Bool × Table (Dim ℕ F)) × ((under_parent
                      (pk_map account parents [])
                      name
                      change
                      row
                      t
                    ≡ some x)
                  × Grows t x.0 x.1)))
  under_parent-Grows row t = elim (Option-cases (int_of (item name row))) [
    | inl no_id ↦ rw (has_parent, under_parent, no_id) (inl (refl, refl))
    | inr (id, e) ↦ elim (Option-cases (lookup id (pk_map account parents []))) [
      | inl missing ↦
          let h = pk_map-is_some account id parents [] in
          rw (has_parent, under_parent, e, missing) (inl (ground (arith, rw missing at h), refl))
      | inr (pk, found) ↦
          let h = pk_map-is_some account id parents [] in
          rw (has_parent, under_parent, e, found)
            (inr (
              ground (arith, rw found at h),
              (((change pk row t).0.1, (change pk row t).1), (refl, grows pk row t)),
            ))
    ]
  ]

  pub below-Accounted :
      (rows : List (Columns F)) (t : Table (Dim ℕ F))
      → (let r =
            upsert_rows (under_parent (pk_map account parents []) name change) rows no_counts t in
          Accounted
            (has_parent account parents name)
            rows
            t
            r.1
            (StepResult.returned r.0.ins r.0.upd r.0.bad (some (Details.fetched (length rows)))))
  below-Accounted rows t =
      let r = upsert_rows (under_parent (pk_map account parents []) name change) rows no_counts t in
      let h =
        upsert_rows-Grows (under_parent (pk_map account parents []) name change)
          (has_parent account parents name) under_parent-Grows rows no_counts t in
      record {
        created = r.0.ins;
        updated = r.0.upd;
        result_is =
            ap (λ n. StepResult.returned r.0.ins r.0.upd n (some (Details.fetched (length rows))))
              (omega (arith, h.1.0));
        grown = omega (arith, h.0);
        all_rows = omega (arith, h.1.0, h.1.1);
      }

module _ {F : Type 0} (reports : Reports F) (pk : ℕ) (account : Account) (log_id : ℕ)
    (w : World (Tables F)) where
  abbrev pub AccountsFor :
      (name : Text)
      → Table (Dim ℕ F)
      → List (Columns F)
      → (Tables F → Table (Dim ℕ F))
      → (Table (Dim ℕ F) → Tables F)
      → StepResult × World (Tables F)
      → Type 0
  AccountsFor name parents rows get put r =
      Accounted (has_parent pk parents.rows name) rows (get w.tables) (get r.1.tables) r.0
      × (r.1 ≡ record w { tables = put (get r.1.tables) })

  -- Take the steps of the ad groups, the keywords and the ads of an account, each in a world where its
  -- fetcher gives rows. Each fails exactly the rows for whose parent id the account has no row (a
  -- campaign for an ad group, an ad group for a keyword or an ad), reports as inserted the number of
  -- rows by which its table has grown, and as updated the rest of the rows fetched; and it
  -- changes no other table.
  pub steps_below-Accounted :
      (ad_group_rows keyword_rows ad_rows : List (Columns F))
      → reports.fetch_ad_groups account.customer_id ≡ inr ad_group_rows
      → reports.fetch_keywords account.customer_id ≡ inr keyword_rows
      → reports.fetch_ads account.customer_id ≡ inr ad_rows
      → AccountsFor
          (codes "campaign_id")
          w.tables.campaigns
          ad_group_rows
          (λ t. t.ad_groups)
          (λ x. record w.tables { ad_groups = x })
          (step_ad_groups_dim reports (pk, account) log_id w)
        × (AccountsFor
              (codes "ad_group_id")
              w.tables.ad_groups
              keyword_rows
              (λ t. t.keywords)
              (λ x. record w.tables { keywords = x })
              (step_keywords_dim reports (pk, account) log_id w)
            × AccountsFor
                (codes "ad_group_id")
                w.tables.ad_groups
                ad_rows
                (λ t. t.ads)
                (λ x. record w.tables { ads = x })
                (step_ads_dim reports (pk, account) log_id w))
  unfolding step_ad_groups_dim step_keywords_dim step_ads_dim
  steps_below-Accounted gs ks as_ g k a = (
    rw g (
      below-Accounted pk w.tables.campaigns.rows (codes "campaign_id")
          (λ p row t. upsert_ad_group pk p (id_at (codes "ad_group_id") row) row t)
          (λ p row t.
            upsert-Grows p (id_at (codes "ad_group_id") row) pk
              (without (codes "ad_group_id" ∷ codes "campaign_id" ∷ []) row) t)
          gs w.tables.ad_groups,
      refl,
    ),
    (
      rw k (
        below-Accounted pk w.tables.ad_groups.rows (codes "ad_group_id")
            (λ p row t. upsert_keyword pk p (id_at (codes "criterion_id") row) row t)
            (λ p row t.
              upsert-Grows p (id_at (codes "criterion_id") row) pk
                (without (codes "criterion_id" ∷ codes "ad_group_id" ∷ codes "campaign_id" ∷ [])
                  row)
                t)
            ks w.tables.keywords,
        refl,
      ),
      rw a (
        below-Accounted pk w.tables.ad_groups.rows (codes "ad_group_id")
            (λ p row t. upsert_ad pk p (id_at (codes "ad_id") row) row t)
            (λ p row t.
              upsert-Grows p (id_at (codes "ad_id") row) pk
                (without (codes "ad_id" ∷ codes "ad_group_id" ∷ codes "campaign_id" ∷ []) row) t)
            as_ w.tables.ads,
        refl,
      ),
    ),
  )
