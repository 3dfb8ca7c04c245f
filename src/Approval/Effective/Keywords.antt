-- ===== src/Approval/Effective/Keywords.antt =====
-- The keywords with their edits, against a description field by field.
use google_ads_intelligence.Base.{
  ◌+◌, ◌≡◌, refl, ap, ◌∙◌, Bool, true, false, not, ◌||◌, any, Option, none, some, List, [], ◌∷◌,
  ◌++◌, map, keep, length, length-append, if◌then◌else◌, inl, inr, Option-cases, Bool-cases, arith,
}
use google_ads_intelligence.Base.Eq.{Eq, ◌=?◌, nat_eq, list_eq, option_eq, mem}
use google_ads_intelligence.Base.Dict.{Dict, lookup, insert, lookup-insert}
use google_ads_intelligence.Base.Text.{Text, codes}
use google_ads_intelligence.Approval.Effective.{
  Keyword, KeywordOverride, KeywordEdits, folded, by_keyword, given, with_intent, with_match, apply,
  user_added, system_source, is_removed, effective_keywords,
}

pub map-append :
    {A B : Type 0} (f : A → B) (xs ys : List A) → map f (xs ++ ys) ≡ map f xs ++ map f ys
map-append f [] ys = refl
map-append f (x ∷ xs) ys = ap (λ l. f x ∷ l) (map-append f xs ys)

length-map : {A B : Type 0} (f : A → B) (xs : List A) → length (map f xs) ≡ length xs
length-map f [] = refl
length-map f (x ∷ xs) = omega (arith, length-map f xs)

length-partition :
    {A : Type 0} (p : A → Bool) (xs : List A)
    → length (keep (λ x. not (p x)) xs) + length (keep p xs) ≡ length xs
length-partition p [] = refl
length-partition p (x ∷ xs) = ground (arith, length-partition p xs)

map-cong : {A B : Type 0} (f g : A → B) (xs : List A) → ((x : A) → f x ≡ g x) → map f xs ≡ map g xs
map-cong f g [] h = refl
map-cong f g (x ∷ xs) h = rw (h x, map-cong f g xs h) refl

keep-cong :
    {A : Type 0} (p q : A → Bool) (xs : List A) → ((x : A) → p x ≡ q x) → keep p xs ≡ keep q xs
keep-cong p q [] h = refl
keep-cong p q (x ∷ xs) h = rw (h x, keep-cong p q xs h) refl

-- The last override of a keyword, where names are the same up to case.
abbrev pub last_override :
    Option Text → List (Option Text × KeywordOverride) → Option KeywordOverride
last_override name [] = none
last_override name ((k, o) ∷ overrides) = elim (last_override name overrides) [
  | some later ↦ some later
  | none ↦ if folded k =? folded name then some o else none
]

-- A text that is there and not empty.
abbrev pub filled : Option Text → Option Text
filled none = none
filled (some []) = none
filled (some (c ∷ s)) = some (c ∷ s)

abbrev pub new_text : (KeywordOverride → Option Text) → Option KeywordOverride → Option Text
new_text field none = none
new_text field (some o) = filled (field o)

abbrev pub text_or : Option Text → Option Text → Option Text
text_or none old = old
text_or (some s) old = some s

abbrev pub is_there : Option Text → Bool
is_there none = false
is_there (some s) = true

module _ {X : Type 0} where
  -- A keyword as it is shown: only the intent and the match type can change, each with its flag.
  abbrev pub shown_keyword : Text → KeywordEdits X → Keyword X → Keyword X
  shown_keyword source edits k =
      let o = last_override k.keyword edits.overrides in
      record {
        keyword = k.keyword;
        source = some source;
        intent = text_or (new_text (λ x. x.intent) o) k.intent;
        match_type = text_or (new_text (λ x. x.match_type) o) k.match_type;
        intent_edited = is_there (new_text (λ x. x.intent) o) || k.intent_edited;
        match_edited = is_there (new_text (λ x. x.match_type) o) || k.match_edited;
        rest = k.rest;
      }

  -- Who a suggestion comes from.
  abbrev pub own_source : Keyword X → Text
  own_source k =
      if k.source =? some (codes "user_added") then codes "user_added" else codes "system"

  -- Some removed name is the keyword's, up to case.
  abbrev pub names_removed : KeywordEdits X → Keyword X → Bool
  names_removed edits k = any (λ r. folded r =? folded k.keyword) edits.removed

lookup-by_keyword :
    (name : Option Text) (overrides : List (Option Text × KeywordOverride))
    (d : Dict Text KeywordOverride)
    → lookup (folded name) (by_keyword overrides d)
      ≡ (elim (last_override name overrides) [ none ↦ lookup (folded name) d | some o ↦ some o ])
unfolding by_keyword
lookup-by_keyword name [] d = refl
lookup-by_keyword name ((k, o) ∷ overrides) d =
    let rest = lookup-by_keyword name overrides (insert (folded k) o d) in
    elim (Option-cases (last_override name overrides)) [
      | inr (later, e) ↦ rest ∙ rw e refl
      | inl e ↦ elim (Bool-cases (folded k =? folded name)) [
        | inl same ↦ rest ∙ rw (e, lookup-insert (folded name) (folded k) o d, same) refl
        | inr other ↦ rest ∙ rw (e, lookup-insert (folded name) (folded k) o d, other) refl
      ]
    ]

beq_comm : {A : Type 0} ⦃e : Eq A⦄ (a b : A) → (a =? b) ≡ (b =? a)
beq_comm ⦃e⦄ a b = ground (arith, e.beq_iff a b, e.beq_iff b a)

mem-any :
    (k : Text) (names : List (Option Text))
    → mem k (map folded names) ≡ any (λ r. folded r =? k) names
mem-any k [] = refl
mem-any k (r ∷ names) = ground (arith, beq_comm k (folded r), mem-any k names)

module _ {X : Type 0} where
  with_intent-filled :
      (s : Option Text) (k : Keyword X)
      → with_intent (given s) k ≡ record k {
        intent = text_or (filled s) k.intent;
        intent_edited = is_there (filled s) || k.intent_edited;
      }
  with_intent-filled none k = refl
  with_intent-filled (some []) k = refl
  with_intent-filled (some (c ∷ s)) k = refl

  with_match-filled :
      (s : Option Text) (k : Keyword X)
      → with_match (given s) k ≡ record k {
        match_type = text_or (filled s) k.match_type;
        match_edited = is_there (filled s) || k.match_edited;
      }
  with_match-filled none k = refl
  with_match-filled (some []) k = refl
  with_match-filled (some (c ∷ s)) k = refl

  apply-shown :
      (source : Text) (edits : KeywordEdits X) (k : Keyword X)
      → apply (by_keyword edits.overrides []) (record k { source = some source })
        ≡ shown_keyword source edits k
  unfolding apply
  apply-shown source edits k =
      let found = lookup-by_keyword k.keyword edits.overrides [] in
      let k' : Keyword X = record k { source = some source } in
      elim (Option-cases (last_override k.keyword edits.overrides)) [
        | inl e ↦ rw (apply, found, e) refl
        | inr (o, e) ↦
            rw (apply, found, e)
              (ap (with_match (given o.match_type)) (with_intent-filled o.intent k')
                ∙ with_match-filled o.match_type (record k' {
                  intent = text_or (filled o.intent) k'.intent;
                  intent_edited = is_there (filled o.intent) || k'.intent_edited;
                }))
      ]

  source_same : (k : Keyword X) → system_source k.source ≡ own_source k
  source_same k = elim (Option-cases k.source) [
    | inl e ↦ rw e refl
    | inr (s, e) ↦ rw e (ground (arith, list_eq.beq_iff s user_added))
  ]

  -- The active keywords are the suggestions that no removed name names, in order, then the added ones. Each
  -- is shown with its keyword and its other fields, and from its source: `user_added` for an added one
  -- and for a suggestion that says so, else `system`. Where the last override of its name up to case
  -- has an intent that is not empty, the intent is that and is flagged as edited; so for the match
  -- type; otherwise both are as they were. The removed keywords are the other suggestions, unchanged,
  -- and the numbers add up.
  pub effective_keywords-shown :
      (ks : List (Keyword X)) (edits : KeywordEdits X)
      → ((effective_keywords ks edits).0
          ≡ map
              (λ k. shown_keyword (own_source k) edits k)
              (keep (λ k. not (names_removed edits k)) ks)
            ++ map (shown_keyword (codes "user_added") edits) edits.added)
        × (((effective_keywords ks edits).1 ≡ keep (names_removed edits) ks)
            × (length (effective_keywords ks edits).0 + length (effective_keywords ks edits).1
                ≡ length ks + length edits.added))
  unfolding effective_keywords
  effective_keywords-shown ks edits =
      let overrides = by_keyword edits.overrides [] in
      let system : Keyword X → Keyword X =
        λ k. apply overrides (record k { source = some (system_source k.source) }) in
      let added : Keyword X → Keyword X =
        λ a. apply overrides (record a { source = some user_added }) in
      let left = keep (λ k. not (is_removed edits k)) ks in
      let removed : (k : Keyword X) → is_removed edits k ≡ names_removed edits k =
        λ k. mem-any (folded k.keyword) edits.removed in
      (
        ap (λ l. map system l ++ map added edits.added)
              (keep-cong (λ k. not (is_removed edits k)) (λ k. not (names_removed edits k)) ks
                (λ k. ap not (removed k)))
            ∙ (ap (λ l. l ++ map added edits.added)
                  (map-cong system (λ k. shown_keyword (own_source k) edits k) _
                    (λ k.
                      apply-shown (system_source k.source) edits k
                      ∙ ap (λ s. shown_keyword s edits k) (source_same k)))
                ∙ ap
                    (λ l.
                      map (λ k. shown_keyword (own_source k) edits k)
                        (keep (λ k. not (names_removed edits k)) ks)
                      ++ l)
                    (map-cong added (shown_keyword (codes "user_added") edits) edits.added
                      (apply-shown (codes "user_added") edits))),
        (
          keep-cong (is_removed edits) (names_removed edits) ks removed,
          omega (
            arith,
            length-append (map system left) (map added edits.added),
            length-map system left,
            length-map added edits.added,
            length-partition (is_removed edits) ks,
          ),
        ),
      )
