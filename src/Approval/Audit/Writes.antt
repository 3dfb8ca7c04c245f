-- ===== src/Approval/Audit/Writes.antt =====
-- What a write of ApprovalService leaves in the log and in the row.
use google_ads_intelligence.Base.{
  ℕ, ◌≡◌, refl, sym, false, Option, some, List, [], ◌∷◌, inl, inr, ◌==◌, ==_iff, Bool-cases,
  Option-cases, arith,
}
use google_ads_intelligence.Base.Eq.{nat_eq}
use google_ads_intelligence.Base.Dict.{get_row, lookup-insert_self, lookup-insert_ne}
use google_ads_intelligence.Base.Text.{Text}
use google_ads_intelligence.Approval.Workflow.{
  Event, Note, ApprovalEvent, Generation, Db, Reply, Outside, save, add_event, has_token,
  with_generation,
}
use google_ads_intelligence.Approval.Audit.{
  status_after, KeepsToken, Follows, Traced, Traced-refl, Follows_same, append_nil,
}
use google_ads_intelligence.Approval.Operations.{ensure_token}

module _ {F : Type 0} where
  saved_row :
      (id gen_id : ℕ) (g g' : Generation F) (news : List (ApprovalEvent F)) (db : Db F)
      → get_row db.generations gen_id ≡ some g
      → Follows gen_id news (some g) (some g')
      → ((id == gen_id) ≡ false → (x : Option (Generation F)) → Follows id news x x)
      → Follows id news (get_row db.generations id) (get_row (save gen_id g' db).generations id)
  saved_row id gen_id g g' news db found here elsewhere = elim (Bool-cases (id == gen_id)) [
    | inl e ↦
        let same : id ≡ gen_id = (==_iff id gen_id).0 e in
        rw (same, found, lookup-insert_self gen_id g' db.generations.rows) here
    | inr e ↦
        rw (lookup-insert_ne id gen_id g' db.generations.rows e)
          (elsewhere e (get_row db.generations id))
  ]

  -- A row that is saved with its event.
  pub written :
      (id gen_id : ℕ) (g g' : Generation F) (event : Event) (actor : Option Text) (note : Note F)
      (db : Db F)
      → get_row db.generations gen_id ≡ some g
      → g'.approval_status ≡ status_after event g.approval_status
      → KeepsToken g g'
      → Traced id db (add_event gen_id event actor note (save gen_id g' db))
  written id gen_id g g' event actor note db found status token =
      let e : ApprovalEvent F = record {
        generation_id = gen_id;
        event = event;
        actor = actor;
        note = note;
      } in
      record {
        news = e ∷ [];
        log = refl;
        row =
            saved_row id gen_id g g' (e ∷ []) db found
              (rw ((==_iff gen_id gen_id).1 refl) status, token)
              (λ ne x. Follows_same id (e ∷ []) x (λ s. ground (arith, ne)));
      }

  -- A row that is saved without one.
  pub saved :
      (id gen_id : ℕ) (g g' : Generation F) (db : Db F)
      → get_row db.generations gen_id ≡ some g
      → g'.approval_status ≡ g.approval_status
      → KeepsToken g g'
      → Traced id db (save gen_id g' db)
  saved id gen_id g g' db found status token = record {
    news = [];
    log = sym (append_nil db.events);
    row =
        saved_row id gen_id g g' [] db found (status, token)
          (λ ne x. Follows_same id [] x (λ s. refl));
  }

  -- What a token is drawn for.
  pub ensured-KeepsToken :
      (out : Outside F) (g : Generation F) (db : Db F) → KeepsToken g (ensure_token out g db).0.1
  unfolding ensure_token
  ensured-KeepsToken out g db = elim (Bool-cases (has_token g)) [
    | inl e ↦ rw e (inr refl)
    | inr e ↦ inl e
  ]

  pub ensure_token-same :
      (out : Outside F) (g : Generation F) (db : Db F)
      → ((ensure_token out g db).0.1.approval_status ≡ g.approval_status)
        × (((ensure_token out g db).1.generations ≡ db.generations)
            × ((ensure_token out g db).1.events ≡ db.events))
  unfolding ensure_token
  ensure_token-same out g db = elim (Bool-cases (has_token g)) [
    | inl e ↦ rw e (refl, (refl, refl))
    | inr e ↦ rw e (refl, (refl, refl))
  ]

  pub with_generation-Traced :
      (id gen_id : ℕ) (body : Generation F → Db F → Reply × Db F) (db : Db F)
      → ((g : Generation F) → get_row db.generations gen_id ≡ some g → Traced id db (body g db).1)
      → Traced id db (with_generation gen_id body db).1
  with_generation-Traced id gen_id body db h = elim (Option-cases (get_row db.generations gen_id)) [
    | inl e ↦ rw (with_generation, e) (Traced-refl id db)
    | inr (g, e) ↦ rw (with_generation, e) (h g e)
  ]
