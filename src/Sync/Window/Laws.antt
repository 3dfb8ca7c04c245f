-- ===== src/Sync/Window/Laws.antt =====
-- What `replace_window` leaves in the table: the new rows for the window, and all rows outside it.
use google_ads_intelligence.Base.{
  ℕ, ◌≡◌, refl, Bool, true, not, List, [], ◌∷◌, ◌++◌, length, keep, arith, All, sym, ◌∙◌, ap,
}
use google_ads_intelligence.Base.Dict.{Table, add_row, Dict}
use google_ads_intelligence.Sync.Window.{
  Snapshot, in_window, insert_all, bulk_insert, delete_window, replace_window,
}

module _ {F : Type 0} where
  -- The rows without their primary keys.
  abbrev pub contents : Dict ℕ (Snapshot F) → List (Snapshot F)
  contents [] = []
  contents (x ∷ d) = x.1 ∷ contents d

  contents-append : (d e : Dict ℕ (Snapshot F)) → contents (d ++ e) ≡ contents d ++ contents e
  contents-append [] e = refl
  contents-append (x ∷ d) e = ap (λ l. x.1 ∷ l) (contents-append d e)

  append_assoc : (xs ys zs : List (Snapshot F)) → (xs ++ ys) ++ zs ≡ xs ++ (ys ++ zs)
  append_assoc [] ys zs = refl
  append_assoc (x ∷ xs) ys zs = ap (λ l. x ∷ l) (append_assoc xs ys zs)

  append_nil : (xs : List (Snapshot F)) → xs ++ [] ≡ xs
  append_nil [] = refl
  append_nil (x ∷ xs) = ap (λ l. x ∷ l) (append_nil xs)

  contents-insert_all :
      (xs : List (Snapshot F)) (t : Table (Snapshot F))
      → contents (insert_all xs t).rows ≡ contents t.rows ++ xs
  unfolding insert_all
  contents-insert_all [] t = sym (append_nil (contents t.rows))
  contents-insert_all (x ∷ xs) t =
      contents-insert_all xs (add_row x t)
      ∙ ap (λ l. l ++ xs) (contents-append t.rows ((t.next_id, x) ∷ []))
      ∙ append_assoc (contents t.rows) (x ∷ []) xs

  contents-keep :
      (p : Snapshot F → Bool) (d : Dict ℕ (Snapshot F))
      → contents (keep (λ x. p x.1) d) ≡ keep p (contents d)
  contents-keep p [] = refl
  contents-keep p (x ∷ d) = ground (arith, contents-keep p d)

  -- The rows of the account in [start, end] are replaced by the mappings, every other row stays,
  -- and the count that is returned is the number of mappings.
  pub contents-replace_window :
      (mappings : List (Snapshot F)) (account start end : ℕ) (t : Table (Snapshot F))
      → ((replace_window mappings account start end t).0 ≡ length mappings)
        × (contents (replace_window mappings account start end t).1.rows
            ≡ keep (λ x. not (in_window account start end x)) (contents t.rows) ++ mappings)
  unfolding replace_window bulk_insert delete_window
  contents-replace_window [] account start end t =
      (refl, contents-keep _ t.rows ∙ sym (append_nil _))
  contents-replace_window (x ∷ xs) account start end t = (
    refl,
    contents-insert_all (x ∷ xs) (delete_window account start end t)
        ∙ ap (λ l. l ++ (x ∷ xs)) (contents-keep (λ y. not (in_window account start end y)) t.rows),
  )

  keep-append :
      (p : Snapshot F → Bool) (xs ys : List (Snapshot F))
      → keep p (xs ++ ys) ≡ keep p xs ++ keep p ys
  keep-append p [] ys = refl
  keep-append p (x ∷ xs) ys = ground (arith, keep-append p xs ys)

  keep_idem : (p : Snapshot F → Bool) (xs : List (Snapshot F)) → keep p (keep p xs) ≡ keep p xs
  keep_idem p [] = refl
  keep_idem p (x ∷ xs) = ground (arith, keep_idem p xs)

  keep_none :
      (p : Snapshot F → Bool) (xs : List (Snapshot F))
      → All (λ x. p x ≡ true) xs
      → keep (λ x. not (p x)) xs ≡ []
  keep_none p [] h = refl
  keep_none p (x ∷ xs) h = ground (arith, keep_none p xs h.1)

  -- Running a sync again over the same window, with rows that lie in it, does not stack them: the
  -- table holds what the last run alone would have left.
  pub replace_window_rerun :
      (old new : List (Snapshot F)) (account start end : ℕ) (t : Table (Snapshot F))
      → All (λ x. in_window account start end x ≡ true) old
      → contents
          (replace_window new account start end (replace_window old account start end t).1).1.rows
        ≡ contents (replace_window new account start end t).1.rows
  replace_window_rerun old new account start end t h =
      let p : Snapshot F → Bool = λ x. not (in_window account start end x) in
      (contents-replace_window new account start end (replace_window old account start end t).1).1
      ∙ ap (λ rows. keep p rows ++ new) (contents-replace_window old account start end t).1
      ∙ ap (λ l. l ++ new)
          (keep-append p (keep p (contents t.rows)) old
            ∙ ap (λ l. keep p (keep p (contents t.rows)) ++ l) (keep_none _ old h)
            ∙ append_nil _
            ∙ keep_idem p (contents t.rows))
      ∙ sym ((contents-replace_window new account start end t).1)
