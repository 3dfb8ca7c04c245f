-- ===== src/Approval/Effective/Assets.antt =====
-- The ad copy with its edits: what is flagged, counted and reported as removed.
use google_ads_intelligence.Base.{
  ℕ, suc, ◌≡◌, refl, ap, ◌∙◌, Bool, true, false, not, ◌&&◌, ◌||◌, Option, some, is_some, List, [],
  ◌∷◌, ◌++◌, map, keep, any, All, All-append, count_if, if◌then◌else◌, length, ltb, inl, inr,
  Bool-cases, Option-cases, arith,
}
use google_ads_intelligence.Base.Eq.{◌=?◌, nat_eq, list_eq, mem}
use google_ads_intelligence.Base.Dict.{Dict, insert, lookup, lookup-insert}
use google_ads_intelligence.Base.Text.{Text, lower, strip, is_nonempty, or_empty}
use google_ads_intelligence.Approval.Effective.{
  Original, AssetItem, folded, originals_by, edited_item, edit_loop, effective_kind,
}
use google_ads_intelligence.Approval.Effective.Keywords.{map-append}

mem-append_one : (x y : Text) (xs : List Text) → mem x (xs ++ y ∷ []) ≡ mem x (y ∷ xs)
mem-append_one x y [] = refl
mem-append_one x y (z ∷ xs) = ground (arith, mem-append_one x y xs)

count_if-append_one :
    (p : AssetItem → Bool) (i : AssetItem) (xs : List AssetItem)
    → count_if p (xs ++ i ∷ []) ≡ (if p i then suc (count_if p xs) else count_if p xs)
count_if-append_one p i [] = ground arith
count_if-append_one p i (x ∷ xs) = ground (arith, count_if-append_one p i xs)

-- Some generated text that is not empty is this one, up to case.
abbrev pub is_generated : List Original → Text → Bool
is_generated originals t =
    any (λ o. is_nonempty (or_empty o.text) && (folded o.text =? lower t)) originals

found-or :
    (g b : Bool) (o : Original) (y : Option Original)
    → (g || is_some (if b then some o else y)) ≡ (b || g || is_some y)
found-or true true o y = refl
found-or true false o y = refl
found-or false true o y = refl
found-or false false o y = refl

absent-or : (g : Bool) → false ≡ (g || false) → true ≡ not g
absent-or g h = ground (arith, h)

present-or : (g : Bool) → true ≡ (g || false) → false ≡ not g
present-or g h = ground (arith, h)

originals_by-lookup :
    (t : Text) (originals : List Original) (d : Dict Text Original)
    → is_some (lookup (lower t) (originals_by originals d))
      ≡ (is_generated originals t || is_some (lookup (lower t) d))
unfolding originals_by
originals_by-lookup t [] d = refl
originals_by-lookup t (o ∷ originals) d = elim (Bool-cases (is_nonempty (or_empty o.text))) [
  | inr empty ↦ rw empty (originals_by-lookup t originals d)
  | inl full ↦ rw full (
      originals_by-lookup t originals (insert (folded o.text) o d)
      ∙ rw (lookup-insert (lower t) (folded o.text) o d)
          (found-or (is_generated originals t) (folded o.text =? lower t) o (lookup (lower t) d)))
]

-- What holds of an item: its text is flagged unless it was generated, and its length is right.
abbrev pub IsFlagged : ℕ → List Original → AssetItem → Type 0
IsFlagged limit originals i =
    (i.edited ≡ not (is_generated originals i.text))
    × ((i.length_of ≡ length i.text) × (i.over ≡ ltb limit (length i.text)))

edited_item-text :
    (limit : ℕ) (d : Dict Text Original) (t : Text) → (edited_item limit d t).text ≡ t
unfolding edited_item
edited_item-text limit d t = elim (Option-cases (lookup (lower t) d)) [
  | inl e ↦ rw (edited_item, e) refl
  | inr (o, e) ↦ rw (edited_item, e) refl
]

edited_item-IsFlagged :
    (limit : ℕ) (originals : List Original) (t : Text)
    → IsFlagged limit originals (edited_item limit (originals_by originals []) t)
unfolding edited_item
edited_item-IsFlagged limit originals t =
    let known = originals_by-lookup t originals [] in
    elim (Option-cases (lookup (lower t) (originals_by originals []))) [
      | inl e ↦
          rw (edited_item, e) (absent-or (is_generated originals t) (rw e at known), (refl, refl))
      | inr (o, e) ↦
          rw (edited_item, e) (present-or (is_generated originals t) (rw e at known), (refl, refl))
    ]

-- The state of the loop agrees with its items.
abbrev Agrees : ℕ → List Original → List AssetItem × (List Text × ℕ) → Type 0
Agrees limit originals (items, (kept, count)) =
    ((x : Text) → mem x kept ≡ mem x (map (λ i. lower i.text) items))
    × ((count ≡ count_if (λ i. i.edited) items) × All (IsFlagged limit originals) items)

kept-step :
    (t : Text) (limit : ℕ) (d : Dict Text Original) (kept : List Text) (items : List AssetItem)
    → ((x : Text) → mem x kept ≡ mem x (map (λ i. lower i.text) items))
    → (x : Text)
    → mem x (lower t ∷ kept) ≡ mem x (map (λ i. lower i.text) (items ++ edited_item limit d t ∷ []))
kept-step t limit d kept items h x =
    rw
      (
        map-append (λ i. lower i.text) items (edited_item limit d t ∷ []),
        edited_item-text limit d t,
        mem-append_one x (lower t) (map (λ i. lower i.text) items),
      )
      (ap (λ b. elim (x =? lower t) [ true ↦ true | false ↦ b ]) (h x))

edit_loop-Agrees :
    (limit : ℕ) (originals : List Original) (edits : List (Option Text)) (items : List AssetItem)
    (kept : List Text) (count : ℕ)
    → Agrees limit originals (items, (kept, count))
    → Agrees limit originals
        (edit_loop limit (originals_by originals []) edits (items, (kept, count)))
unfolding edit_loop
edit_loop-Agrees limit originals [] items kept count h = h
edit_loop-Agrees limit originals (raw ∷ edits) items kept count h =
    let t = strip (or_empty raw) in
    let d = originals_by originals [] in
    let i = edited_item limit d t in
    elim (Bool-cases (is_nonempty t)) [
      | inr blank ↦
          rw (edit_loop, blank) (edit_loop-Agrees limit originals edits items kept count h)
      | inl full ↦
          rw (edit_loop, full)
            (edit_loop-Agrees limit originals edits (items ++ i ∷ []) (lower t ∷ kept)
              (if i.edited then suc count else count)
              (
                kept-step t limit d kept items h.0,
                (
                  rw (count_if-append_one (λ i. i.edited) i items, ← h.1.0) refl,
                  All-append (IsFlagged limit originals) items (i ∷ []) h.1.1
                      (edited_item-IsFlagged limit originals t, tt),
                ),
              ))
    ]

keep-cong :
    (p q : Original → Bool) (xs : List Original)
    → ((x : Original) → p x ≡ q x)
    → keep p xs ≡ keep q xs
keep-cong p q [] h = refl
keep-cong p q (x ∷ xs) h = rw (h x, keep-cong p q xs h) refl

-- Take a kind that the ad manager has edited. An item is flagged as edited exactly if no generated text is
-- the same up to case, and it has the length of its text and the mark for a text over the limit; the number
-- of edits is the number of flagged items; and the removed texts are those of the generated ones, in order,
-- that no item is the same as up to case.
pub effective_kind-IsFlagged :
    (limit : ℕ) (originals : List Original) (edits : List (Option Text))
    → All (IsFlagged limit originals) (effective_kind limit originals (some edits)).items
      × (((effective_kind limit originals (some edits)).edited_count
            ≡ count_if (λ i. i.edited) (effective_kind limit originals (some edits)).items)
          × ((effective_kind limit originals (some edits)).removed
              ≡ map
                  (λ o. o.text)
                  (keep
                    (λ o. not (
                      mem (folded o.text) (
                        map
                          (λ i. lower i.text)
                          (effective_kind limit originals (some edits)).items)))
                    originals)))
unfolding effective_kind
effective_kind-IsFlagged limit originals edits =
    let h = edit_loop-Agrees limit originals edits [] [] 0 ((λ x. refl), (refl, tt)) in
    (
      h.1.1,
      (h.1.0, ap (map (λ o. o.text)) (keep-cong _ _ originals (λ o. ap not (h.0 (folded o.text))))),
    )
