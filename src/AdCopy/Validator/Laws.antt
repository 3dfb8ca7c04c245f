-- ===== src/AdCopy/Validator/Laws.antt =====
-- When the validator reports an error, and what the strength is then.
use google_ads_intelligence.Base.{
  ℕ, ◌≡◌, refl, ◌∙◌, Bool, true, false, not, ◌&&◌, ◌||◌, List, [], ◌∷◌, map, keep, any, any-append,
  count_if, if◌then◌else◌, ltb, leb, ◌==◌, length, inl, inr, Bool-cases, arith,
}
use google_ads_intelligence.Base.Text.{Text, lower}
use google_ads_intelligence.Base.Float.{FloatOps}
use google_ads_intelligence.AdCopy.Validator.{
  Level, Field, Message, Flag, flag, h_max, d_max, path_max, too_long_flags, fewer, duplicate_flags,
  style_flags, all_style_flags, is_error_level, is_error, Strength, Assets, flags_of, graded,
  unique_ratio, coverage, points_of, predict_strength, validate_assets,
}

-- Every text is at most this long.
abbrev pub all_fit : ℕ → List Text → Bool
all_fit limit [] = true
all_fit limit (s ∷ texts) = leb (length s) limit && all_fit limit texts

-- What Google accepts: the limits, and the least numbers.
abbrev pub is_servable : Assets → Bool
is_servable a =
    all_fit h_max a.headlines
    && (all_fit d_max a.descriptions
        && (all_fit path_max a.display_paths
            && (leb 3 (length a.headlines) && leb 2 (length a.descriptions))))

too_long_flags-error :
    (level : Level) (field : Field) (limit : ℕ) (texts : List Text)
    → any is_error (too_long_flags level field limit texts)
      ≡ (is_error_level level && not (all_fit limit texts))
unfolding too_long_flags
too_long_flags-error level field limit [] = ground arith
too_long_flags-error level field limit (s ∷ texts) =
    ground (arith, too_long_flags-error level field limit texts)

fewer-error :
    (n : ℕ) (level : Level) (field : Field) (message : Message) (texts : List Text)
    → any is_error (fewer n level field message texts)
      ≡ (is_error_level level && ltb (length texts) n)
fewer-error n level field message texts = ground arith

duplicates-error :
    (f : Text → Bool) (xs : List Text)
    → any is_error (map (λ x. flag Level.warning Field.headline (Message.duplicate x)) (keep f xs))
      ≡ false
duplicates-error f [] = refl
duplicates-error f (x ∷ xs) = elim (Bool-cases (f x)) [
  | inl kept ↦ rw kept (duplicates-error f xs)
  | inr out ↦ rw out (duplicates-error f xs)
]

style_flags-error : (h : Text) → any is_error (style_flags h) ≡ false
unfolding style_flags
style_flags-error h = ground arith

all_style_flags-error : (headlines : List Text) → any is_error (all_style_flags headlines) ≡ false
unfolding all_style_flags
all_style_flags-error [] = refl
all_style_flags-error (h ∷ headlines) =
    any-append is_error (style_flags h) (all_style_flags headlines)
    ∙ ground (arith, style_flags-error h, all_style_flags-error headlines)

count_if-none : (xs : List Flag) → (count_if is_error xs == 0) ≡ not (any is_error xs)
count_if-none [] = refl
count_if-none (x ∷ xs) = ground (arith, count_if-none xs)

fits :
    (h d p : Bool) (m n : ℕ)
    → (not h || not d || not p || false || ltb m 3 || ltb n 2 || false || false || false || false)
      ≡ not (h && (d && (p && (leb 3 m && leb 2 n))))
fits h d p m n = ground arith

flags_of-error : (a : Assets) → any is_error (flags_of a) ≡ not (is_servable a)
unfolding flags_of duplicate_flags
flags_of-error a =
    simp
      (
        flags_of, duplicate_flags, any-append, too_long_flags-error, fewer-error, duplicates-error,
        all_style_flags-error,
      )
      (fits (all_fit h_max a.headlines) (all_fit d_max a.descriptions)
        (all_fit path_max a.display_paths) (length a.headlines) (length a.descriptions))

module _ (F : Type 0) ⦃fl : FloatOps F⦄ where
  -- The validator reports an error exactly if the assets break a limit of Google: a headline, description or
  -- path that is too long, fewer than three headlines or fewer than two descriptions. With an error the
  -- predicted strength is POOR; without one it is the grade of the points.
  pub validate_assets-servable :
      (a : Assets)
      → (any is_error (validate_assets {F = F} a).flags ≡ not (is_servable a))
        × ((validate_assets {F = F} a).expected_ad_strength ≡ (
            if is_servable a
            then graded (
                points_of {F = F}
                  (length a.headlines)
                  (length a.descriptions)
                  (unique_ratio (map lower a.headlines))
                  (coverage a.keyword_themes (map lower a.headlines)))
            else Strength.poor))
  unfolding validate_assets predict_strength
  validate_assets-servable a = (
    flags_of-error a,
    elim (Bool-cases (is_servable a)) [
      | inl fine ↦ rw (count_if-none (flags_of a), flags_of-error a, fine) refl
      | inr broken ↦ rw (count_if-none (flags_of a), flags_of-error a, broken) refl
    ],
  )
