-- ===== src/Tests/AdCopy.antt =====
-- The validator and the effective keywords and assets at concrete texts.
use google_ads_intelligence.Base.{
  ◌+◌, ◌≡◌, refl, true, false, not, Option, none, some, List, [], ◌∷◌, ◌++◌, map, keep, any, All,
  count_if, length,
}
use google_ads_intelligence.Base.Eq.{nat_eq, list_eq, mem}
use google_ads_intelligence.Base.Text.{Text, codes, lower, lower_code, strip, strip_left, is_space}
use google_ads_intelligence.Tests.Fixed.{Fixed, fixed_ops}
use google_ads_intelligence.AdCopy.Validator.{Assets, Strength, is_error, validate_assets}
use google_ads_intelligence.AdCopy.Validator.Laws.{validate_assets-servable}
use google_ads_intelligence.Approval.Effective.{
  Keyword, KeywordEdits, effective_keywords, Original, effective_kind, folded, edit_loop,
  originals_by, edited_item,
}
use google_ads_intelligence.Approval.Effective.Keywords.{
  shown_keyword, own_source, names_removed, effective_keywords-shown,
}
use google_ads_intelligence.Approval.Effective.Assets.{IsFlagged, effective_kind-IsFlagged}

-- Two headlines are too few.
abbrev assets : Assets
assets = record {
  headlines = codes "Study in North" ∷ codes "Apply today" ∷ [];
  descriptions = codes "Fees and courses." ∷ codes "Ask us." ∷ [];
  display_paths = [];
  callouts = [];
  keyword_themes = codes "north college" ∷ [];
}

validate_assets-servable_example :
    (any is_error (validate_assets {F = Fixed} assets).flags ≡ true)
    × ((validate_assets {F = Fixed} assets).expected_ad_strength ≡ Strength.poor)
validate_assets-servable_example = validate_assets-servable Fixed assets

abbrev keyword : Text → Keyword Unit
keyword s = record {
  keyword = some s;
  source = none;
  intent = none;
  match_type = none;
  intent_edited = false;
  match_edited = false;
  rest = tt;
}

abbrev edits : KeywordEdits Unit
edits = record {
  added = keyword (codes "mba fees") ∷ [];
  removed = some (codes "Jobs") ∷ [];
  overrides =
      (some (codes "MBA"), record { intent = some (codes "brand"); match_type = none }) ∷ [];
}

abbrev suggestions : List (Keyword Unit)
suggestions = keyword (codes "mba") ∷ keyword (codes "jobs") ∷ []

effective_keywords-shown_example :
    ((effective_keywords suggestions edits).0
      ≡ map
          (λ k. shown_keyword (own_source k) edits k)
          (keep (λ k. not (names_removed edits k)) suggestions)
        ++ map (shown_keyword (codes "user_added") edits) edits.added)
    × (((effective_keywords suggestions edits).1 ≡ keep (names_removed edits) suggestions)
        × (length (effective_keywords suggestions edits).0
              + length (effective_keywords suggestions edits).1
            ≡ 3))
effective_keywords-shown_example = effective_keywords-shown suggestions edits

abbrev originals : List Original
originals =
    record { text = some (codes "Apply today"); reason = none }
    ∷ record { text = some (codes "Study in North"); reason = none }
    ∷ []

-- The first headline in capitals, and a new one.
abbrev rewritten : List (Option Text)
rewritten = some (codes "APPLY TODAY") ∷ some (codes "Visit us") ∷ []

effective_kind-IsFlagged_example :
    All (IsFlagged 30 originals) (effective_kind 30 originals (some rewritten)).items
    × (((effective_kind 30 originals (some rewritten)).edited_count
          ≡ count_if (λ i. i.edited) (effective_kind 30 originals (some rewritten)).items)
        × ((effective_kind 30 originals (some rewritten)).removed
            ≡ map
                (λ o. o.text)
                (keep
                  (λ o. not (
                    mem (folded o.text) (
                      map
                        (λ i. lower i.text)
                        (effective_kind 30 originals (some rewritten)).items)))
                  originals)))
effective_kind-IsFlagged_example = effective_kind-IsFlagged 30 originals rewritten

-- The change of case is not counted as an edit, the new text is.
capitals_unflagged : (effective_kind 30 originals (some rewritten)).edited_count ≡ 1
unfolding effective_kind edit_loop originals_by edited_item lower lower_code strip strip_left
    is_space
capitals_unflagged = refl
