-- ===== src/AdCopy/Validator.antt =====
-- app/services/ai/rsa_validator.py: validate_assets and _predict_strength. A message is a value with one
-- constructor for each template, and the flags of the duplicates, which the code lists in the order of a
-- set, stand in the order of the headlines.
pub mod Laws
use google_ads_intelligence.Base.{
  ℕ, zero, suc, ◌+◌, ◌-◌, ◌/◌, min, Bool, true, false, not, ◌&&◌, ◌||◌, Option, none, some, List,
  [], ◌∷◌, ◌++◌, map, keep, any, count_if, if◌then◌else◌, ◌==◌, ltb, leb, length,
}
use google_ads_intelligence.Base.Eq.{◌=?◌, nat_eq, list_eq, mem}
use google_ads_intelligence.Base.Text.{Text, distinct, lower, is_nonempty}
use google_ads_intelligence.Base.Float.{FloatOps, ◌/f◌, ◌≤f◌, nat}

pub data Level : Type 0 where
  error warning info : Level

pub data Field : Type 0 where
  headline description path callout : Field

pub data Message : Type 0 where
  too_long : (text : Text) (limit : ℕ) → Message
  too_few add_more excessive_capitals spacing_issue keyword_stuffing : Message
  duplicate : Text → Message

pub record Flag : Type 0 where
  pub level : Level
  pub field : Field
  pub message : Message

abbrev pub flag : Level → Field → Message → Flag
flag level field message = record { level = level; field = field; message = message }

-- H_MAX, D_MAX, PATH_MAX and CALLOUT_MAX
abbrev pub h_max : ℕ
h_max = 30

abbrev pub d_max : ℕ
d_max = 90

abbrev pub path_max : ℕ
path_max = 15

abbrev pub callout_max : ℕ
callout_max = 25

-- The loop on one kind of asset.
unfoldable pub too_long_flags : Level → Field → ℕ → List Text → List Flag
too_long_flags level field limit [] = []
too_long_flags level field limit (s ∷ texts) =
    let rest = too_long_flags level field limit texts in
    if ltb limit (length s) then flag level field (Message.too_long s limit) ∷ rest else rest

abbrev pub fewer : ℕ → Level → Field → Message → List Text → List Flag
fewer n level field message texts =
    if ltb (length texts) n then flag level field message ∷ [] else []

abbrev pub occurrences : Text → List Text → ℕ
occurrences x xs = count_if (λ y. y =? x) xs

unfoldable pub duplicate_flags : List Text → List Flag
duplicate_flags lower_h =
    map (λ x. flag Level.warning Field.headline (Message.duplicate x))
      (keep (λ x. ltb 1 (occurrences x lower_h)) (distinct lower_h))

abbrev pub is_upper : ℕ → Bool
is_upper c = leb 65 c && leb c 90

abbrev pub is_letter : ℕ → Bool
is_letter c = is_upper c || (leb 97 c && leb c 122)

-- `"xx" in h`
unfoldable pub has_pair : ℕ → Text → Bool
has_pair c [] = false
has_pair c (d ∷ s) = (d == c && (elim s [ [] ↦ false | e ∷ _ ↦ e == c ])) || has_pair c s

-- `re.findall(r"[a-zA-Z]+", h)`: the run of letters at the start, and the words behind it.
unfoldable pub scan_words : Text → Text × List Text
scan_words [] = ([], [])
scan_words (c ∷ s) =
    let rest = scan_words s in
    if is_letter c
    then (c ∷ rest.0, rest.1)
    else ([], if is_nonempty rest.0 then rest.0 ∷ rest.1 else rest.1)

unfoldable pub words_of : Text → List Text
words_of s = let found = scan_words s in if is_nonempty found.0 then found.0 ∷ found.1 else found.1

abbrev pub long_words : Text → List Text
long_words h = keep (λ w. ltb 2 (length w)) (words_of (lower h))

unfoldable pub style_flags : Text → List Flag
style_flags h =
    let letters = keep is_letter h in
    let words = long_words h in
    (if not (any (λ c. not (is_upper c)) letters) && ltb 3 (length letters)
      then flag Level.warning Field.headline Message.excessive_capitals ∷ []
      else [])
    ++ (if has_pair 33 h || has_pair 32 h
        then flag Level.warning Field.headline Message.spacing_issue ∷ []
        else [])
    ++ (if any (λ w. leb 3 (occurrences w words)) words
        then flag Level.warning Field.headline Message.keyword_stuffing ∷ []
        else [])

unfoldable pub all_style_flags : List Text → List Flag
all_style_flags [] = []
all_style_flags (h ∷ headlines) = style_flags h ++ all_style_flags headlines

-- `t in hay`
abbrev pub starts_with : Text → Text → Bool
starts_with [] s = true
starts_with (c ∷ t) [] = false
starts_with (c ∷ t) (d ∷ s) = c == d && starts_with t s

unfoldable pub contains : Text → Text → Bool
contains t [] = starts_with t []
contains t (c ∷ s) = starts_with t (c ∷ s) || contains t s

-- `" ".join(...)`
unfoldable pub join_spaces : List Text → Text
join_spaces [] = []
join_spaces (s ∷ texts) = elim texts [ [] ↦ s | _ ∷ _ ↦ s ++ 32 ∷ join_spaces texts ]

unfoldable pub theme_tokens : List Text → List Text
theme_tokens [] = []
theme_tokens (kw ∷ themes) = long_words kw ++ theme_tokens themes

abbrev pub is_error_level : Level → Bool
is_error_level Level.error = true
is_error_level _ = false

abbrev pub is_error : Flag → Bool
is_error f = is_error_level f.level

pub data Strength : Type 0 where
  excellent good average poor : Strength

-- The assets of an ad.
pub record Assets : Type 0 where
  pub headlines : List Text
  pub descriptions : List Text
  pub display_paths : List Text
  pub callouts : List Text
  pub keyword_themes : List Text

-- All flags, in the order of the code.
unfoldable pub flags_of : Assets → List Flag
flags_of a =
    too_long_flags Level.error Field.headline h_max a.headlines
    ++ too_long_flags Level.error Field.description d_max a.descriptions
    ++ too_long_flags Level.error Field.path path_max a.display_paths
    ++ too_long_flags Level.warning Field.callout callout_max a.callouts
    ++ fewer 3 Level.error Field.headline Message.too_few a.headlines
    ++ fewer 2 Level.error Field.description Message.too_few a.descriptions
    ++ fewer 11 Level.info Field.headline Message.add_more a.headlines
    ++ fewer 4 Level.info Field.description Message.add_more a.descriptions
    ++ duplicate_flags (map lower a.headlines)
    ++ all_style_flags a.headlines

-- The strength for the points, where there is no error.
unfoldable pub graded : ℕ → Strength
graded points =
    if leb 8 points
    then Strength.excellent
    else if leb 6 points
    then Strength.good
    else if leb 4 points
    then Strength.average
    else Strength.poor

pub record Quality (F : Type 0) : Type 0 where
  pub expected_ad_strength : Strength
  pub headline_count : ℕ
  pub description_count : ℕ
  pub unique_headline_ratio : F
  pub keyword_coverage : F
  pub flags : List Flag

-- _predict_strength: the points with the penalty for errors, and the strength.
unfoldable pub predict_strength : (error_count points : ℕ) → Strength
predict_strength error_count points =
    let left = if error_count == 0 then points else points - 3 in
    if error_count == 0 then graded left else Strength.poor

module _ {F : Type 0} ⦃fl : FloatOps F⦄ where
  -- A share, 0.0 of nothing.
  abbrev pub share : ℕ → ℕ → F
  share n zero = nat 0
  share n (suc m) = nat n /f nat (suc m)

  unfoldable pub unique_ratio : List Text → F
  unique_ratio lower_h = share (length (distinct lower_h)) (length lower_h)

  unfoldable pub coverage : List Text → List Text → F
  coverage themes lower_h =
      let tokens = distinct (theme_tokens themes) in
      share (count_if (λ t. contains t (join_spaces lower_h)) tokens) (length tokens)

  -- The points before the penalty for errors.
  unfoldable pub points_of : ℕ → ℕ → F → F → ℕ
  points_of headline_count description_count unique covered =
      min 4 (headline_count / 4)
      + min 2 description_count
      + (if fl.decimal 9 1 ≤f unique then 2 else if fl.decimal 7 1 ≤f unique then 1 else 0)
      + (if fl.decimal 5 1 ≤f covered then 2 else if fl.decimal 25 2 ≤f covered then 1 else 0)

  -- validate_assets
  unfoldable pub validate_assets : Assets → Quality F
  validate_assets a =
      let lower_h = map lower a.headlines in
      let flags = flags_of a in
      let unique = unique_ratio lower_h in
      let covered = coverage a.keyword_themes lower_h in
      record {
        expected_ad_strength =
            predict_strength (count_if is_error flags)
              (points_of (length a.headlines) (length a.descriptions) unique covered);
        headline_count = length a.headlines;
        description_count = length a.descriptions;
        unique_headline_ratio = fl.round_at 3 unique;
        keyword_coverage = fl.round_at 3 covered;
        flags = flags;
      }
