-- ===== src/Approval/Effective.antt =====
-- app/services/ai/approval_service.py: the keywords, the ad copy and the monthly pacing of a strategy with
-- the edits of the ad manager applied.
pub mod Keywords
pub mod Assets
use google_ads_intelligence.Base.{
  ℕ, suc, Bool, true, false, not, Option, none, some, is_some, List, [], ◌∷◌, ◌++◌, map, keep,
  if◌then◌else◌, length, ltb,
}
use google_ads_intelligence.Base.Int.{ℤ, pos}
use google_ads_intelligence.Base.Eq.{◌=?◌, nat_eq, list_eq, mem}
use google_ads_intelligence.Base.Dict.{Dict, insert, lookup}
use google_ads_intelligence.Base.Text.{Text, codes, lower, strip, is_nonempty, or_empty}
use google_ads_intelligence.Base.Float.{FloatOps, ◌+f◌, ◌/f◌, nat, int, is_zero}
use google_ads_intelligence.Approval.Strategy.{Month, truthy_f, or_zero_f}

-- A keyword of the snapshot; `rest` has the fields that the edits leave alone.
pub record Keyword (X : Type 0) : Type 0 where
  pub keyword : Option Text
  pub source : Option Text
  pub intent : Option Text
  pub match_type : Option Text
  pub intent_edited : Bool
  pub match_edited : Bool
  pub rest : X

-- An entry of `keyword_edits["overrides"]`.
pub record KeywordOverride : Type 0 where
  pub intent : Option Text
  pub match_type : Option Text

-- keyword_edits
pub record KeywordEdits (X : Type 0) : Type 0 where
  pub added : List (Keyword X)
  pub removed : List (Option Text)
  pub overrides : List (Option Text × KeywordOverride)

-- `(k or "").lower()`
abbrev pub folded : Option Text → Text
folded k = lower (or_empty k)

-- The dict of the overrides by folded keyword.
unfoldable pub by_keyword :
    List (Option Text × KeywordOverride) → Dict Text KeywordOverride → Dict Text KeywordOverride
by_keyword [] d = d
by_keyword ((k, o) ∷ overrides) d = by_keyword overrides (insert (folded k) o d)

-- `if o.get(...)`
abbrev pub given : Option Text → Option Text
given none = none
given (some s) = if is_nonempty s then some s else none

abbrev pub user_added : Text
user_added = codes "user_added"

-- The source that a suggestion gets.
abbrev pub system_source : Option Text → Text
system_source none = codes "system"
system_source (some s) = if s =? user_added then user_added else codes "system"

module _ {X : Type 0} where
  abbrev pub with_intent : Option Text → Keyword X → Keyword X
  with_intent none k = k
  with_intent (some s) k = record k { intent = some s; intent_edited = true }

  abbrev pub with_match : Option Text → Keyword X → Keyword X
  with_match none k = k
  with_match (some s) k = record k { match_type = some s; match_edited = true }

  -- _apply
  unfoldable pub apply : Dict Text KeywordOverride → Keyword X → Keyword X
  apply overrides k = elim (lookup (folded k.keyword) overrides) [
    | none ↦ k
    | some o ↦ with_match (given o.match_type) (with_intent (given o.intent) k)
  ]

  abbrev pub is_removed : KeywordEdits X → Keyword X → Bool
  is_removed edits k = mem (folded k.keyword) (map folded edits.removed)

  -- effective_keywords
  unfoldable pub effective_keywords :
      List (Keyword X) → KeywordEdits X → List (Keyword X) × List (Keyword X)
  effective_keywords ks edits =
      let overrides = by_keyword edits.overrides [] in
      (
        map (λ k. apply overrides (record k { source = some (system_source k.source) }))
              (keep (λ k. not (is_removed edits k)) ks)
            ++ map (λ a. apply overrides (record a { source = some user_added })) edits.added,
        keep (is_removed edits) ks,
      )

-- A generated text with its reason, and a text of the effective copy.
pub record Original : Type 0 where
  pub text : Option Text
  pub reason : Option Text

pub record AssetItem : Type 0 where
  pub text : Text
  pub reason : Option Text
  pub length_of : ℕ
  pub over : Bool
  pub edited : Bool

-- What `effective_assets` computes for a kind.
pub record AssetResult : Type 0 where
  pub items : List AssetItem
  pub removed : List (Option Text)
  pub edited_count : ℕ

-- orig_by_lc
unfoldable pub originals_by : List Original → Dict Text Original → Dict Text Original
originals_by [] d = d
originals_by (o ∷ originals) d =
    originals_by originals (if is_nonempty (or_empty o.text) then insert (folded o.text) o d else d)

abbrev pub item : Text → Option Text → ℕ → Bool → AssetItem
item t reason limit edited = record {
  text = t;
  reason = reason;
  length_of = length t;
  over = ltb limit (length t);
  edited = edited;
}

-- The branch for a kind that is untouched.
unfoldable pub untouched : ℕ → List Original → List AssetItem
untouched limit [] = []
untouched limit (o ∷ originals) =
    let later = untouched limit originals in
    if is_nonempty (or_empty o.text)
    then item (or_empty o.text) o.reason limit false ∷ later
    else later

-- The item of an edited text.
unfoldable pub edited_item : ℕ → Dict Text Original → Text → AssetItem
edited_item limit by_lc t = elim (lookup (lower t) by_lc) [
  | none ↦ item t (some (codes "Edited by the ad manager.")) limit true
  | some o ↦ item t o.reason limit false
]

-- The loop over the edited texts: the items, the folded texts that are kept, and the number of edits.
unfoldable pub edit_loop :
    ℕ
    → Dict Text Original
    → List (Option Text)
    → List AssetItem × (List Text × ℕ)
    → List AssetItem × (List Text × ℕ)
edit_loop limit by_lc [] state = state
edit_loop limit by_lc (raw ∷ edits) (items, (kept, count)) =
    let t = strip (or_empty raw) in
    let i = edited_item limit by_lc t in
    edit_loop limit by_lc edits (
      if is_nonempty t
      then (items ++ i ∷ [], (lower t ∷ kept, if i.edited then suc count else count))
      else (items, (kept, count)))

-- effective_assets, for one kind.
unfoldable pub effective_kind : ℕ → List Original → Option (List (Option Text)) → AssetResult
effective_kind limit originals none = record {
  items = untouched limit originals;
  removed = [];
  edited_count = 0;
}
effective_kind limit originals (some edits) =
    let (items, (kept, count)) = edit_loop limit (originals_by originals []) edits ([], ([], 0)) in
    record {
      items = items;
      removed = map (λ o. o.text) (keep (λ o. not (mem (folded o.text) kept)) originals);
      edited_count = count;
    }

-- A month of the effective pacing, and what `effective_pacing` returns.
pub record PacedMonth (F : Type 0) : Type 0 where
  pub month : ℕ
  pub name : Text
  pub budget : F
  pub base_budget : F
  pub per_week : ℤ
  pub level : Option Text
  pub edited : Bool

pub record Pacing (F : Type 0) : Type 0 where
  pub months : List (PacedMonth F)
  pub total : F
  pub per_week_avg : ℤ
  pub plan_budget : ℤ
  pub any_edited : Bool

module _ {F : Type 0} ⦃fl : FloatOps F⦄ where
  abbrev pub base_of : Month F → F
  base_of p = or_zero_f p.budget

  unfoldable pub paced_month : Dict ℕ ℤ → Month F → PacedMonth F
  paced_month overrides p =
      let budget : F = elim (lookup p.month overrides) [ none ↦ base_of p | some n ↦ int n ] in
      record {
        month = p.month;
        name = p.name;
        budget = budget;
        base_budget = base_of p;
        per_week = fl.round_int (budget /f fl.decimal 4345 3);
        level = p.level;
        edited = is_some (lookup p.month overrides);
      }

  unfoldable pub total_of : List (PacedMonth F) → F → F
  total_of [] total = total
  total_of (x ∷ months) total = total_of months (total +f x.budget)

  -- effective_pacing
  unfoldable pub effective_pacing : List (Month F) → Option F → Dict ℕ ℤ → Option (Pacing F)
  effective_pacing [] budget overrides = none
  effective_pacing (p ∷ base) budget overrides =
      let months = map (paced_month overrides) (p ∷ base) in
      let total = total_of months (nat 0) in
      some record {
        months = months;
        total = total;
        per_week_avg = if is_zero total then pos 0 else fl.round_int (total /f nat 52);
        plan_budget = fl.round_int (or_zero_f budget);
        any_edited = elim overrides [ [] ↦ false | _ ∷ _ ↦ true ];
      }
