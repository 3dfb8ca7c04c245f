-- ===== src/Approval/Audit/Edits.antt =====
-- The edits of a strategy, one by one: each leaves a trace.
use google_ads_intelligence.Base.{
  ℕ, ◌≡◌, refl, ◌∙◌, Bool, true, false, Option, List, inl, inr, if◌then◌else◌, Bool-cases,
  Option-cases, List-cases,
}
use google_ads_intelligence.Base.Int.{ℤ}
use google_ads_intelligence.Base.Eq.{nat_eq, list_eq, mem}
use google_ads_intelligence.Base.Dict.{get_row, lookup}
use google_ads_intelligence.Base.Text.{Text, strip, remove_code}
use google_ads_intelligence.Base.Float.{FloatOps}
use google_ads_intelligence.Approval.Strategy.{Setting, editable}
use google_ads_intelligence.Approval.Workflow.{
  Status, Event, Generation, Db, truthy_id, is_decided, is_pending, with_generation, back_to_draft,
}
use google_ads_intelligence.Approval.Edits.{
  request_changes, set_ad_manager, set_owner, set_account, decide, set_override, set_budget_pacing,
}
use google_ads_intelligence.Approval.Audit.{Traced, Traced-refl}
use google_ads_intelligence.Approval.Audit.Writes.{written}

is_pending-draft : (s : Status) → (if is_pending s then Status.draft else s) ≡ Status.draft
is_pending-draft Status.draft = refl
is_pending-draft Status.submitted = refl
is_pending-draft Status.approved = refl
is_pending-draft Status.rejected = refl
is_pending-draft Status.changes_requested = refl

module _ {F : Type 0} where
  pub request_changes-Traced :
      (id now gen_id : ℕ) (reviewer : Text) (remark : Option Text) (db : Db F)
      → Traced id db (request_changes now gen_id reviewer remark db).1
  unfolding request_changes
  request_changes-Traced id now gen_id reviewer remark db =
      elim (Option-cases (get_row db.generations gen_id)) [
        | inl e ↦ rw (with_generation, e) (Traced-refl id db)
        | inr (g, e) ↦
            rw (with_generation, e)
              (written id gen_id g _ Event.changes_requested _ _ db e refl (inr refl))
      ]

  pub set_ad_manager-Traced :
      (id gen_id : ℕ) (name : Text) (db : Db F) → Traced id db (set_ad_manager gen_id name db).1
  unfolding set_ad_manager
  set_ad_manager-Traced id gen_id name db = elim (Option-cases (get_row db.generations gen_id)) [
    | inl e ↦ rw (with_generation, e) (Traced-refl id db)
    | inr (g, e) ↦
        rw (with_generation, e)
          (written id gen_id g _ Event.ad_manager_set _ _ db e refl (inr refl))
  ]

  pub set_owner-Traced :
      (id gen_id : ℕ) (user_id : Option ℕ) (db : Db F)
      → Traced id db (set_owner gen_id user_id db).1
  unfolding set_owner
  set_owner-Traced id gen_id user_id db = elim (Option-cases (get_row db.generations gen_id)) [
    | inl e ↦ rw (with_generation, e) (Traced-refl id db)
    | inr (g, e) ↦ elim (Option-cases (truthy_id user_id)) [
      | inl cleared ↦
          rw (with_generation, e, cleared)
            (written id gen_id g _ Event.owner_cleared _ _ db e refl (inr refl))
      | inr (owner, given) ↦ elim (Option-cases (get_row db.users owner)) [
        | inl missing ↦ rw (with_generation, e, given, missing) (Traced-refl id db)
        | inr (u, found) ↦
            rw (with_generation, e, given, found)
              (written id gen_id g _ Event.owner_set _ _ db e refl (inr refl))
      ]
    ]
  ]

  pub set_account-Traced :
      (id gen_id : ℕ) (customer_id : Text) (db : Db F)
      → Traced id db (set_account gen_id customer_id db).1
  unfolding set_account
  set_account-Traced id gen_id customer_id db =
      elim (Option-cases (get_row db.generations gen_id)) [
        | inl e ↦ rw (with_generation, e) (Traced-refl id db)
        | inr (g, e) ↦
            rw (with_generation, e)
              (elim (Option-cases (lookup (strip (remove_code 45 customer_id)) db.customers)) [
                | inl missing ↦ rw missing (Traced-refl id db)
                | inr (c, found) ↦
                    rw found (written id gen_id g _ Event.account_set _ _ db e refl (inr refl))
              ])
      ]

  pub decide-Traced :
      (id now gen_id : ℕ) (is_approved : Bool) (reviewer : Text) (remark : Option Text) (db : Db F)
      → Traced id db (decide now gen_id is_approved reviewer remark db).1
  unfolding decide
  decide-Traced id now gen_id true reviewer remark db =
      elim (Option-cases (get_row db.generations gen_id)) [
        | inl e ↦ rw (with_generation, e) (Traced-refl id db)
        | inr (g, e) ↦
            rw (with_generation, e) (written id gen_id g _ Event.approved _ _ db e refl (inr refl))
      ]
  decide-Traced id now gen_id false reviewer remark db =
      elim (Option-cases (get_row db.generations gen_id)) [
        | inl e ↦ rw (with_generation, e) (Traced-refl id db)
        | inr (g, e) ↦
            rw (with_generation, e) (written id gen_id g _ Event.rejected _ _ db e refl (inr refl))
      ]

  back_to_draft-status :
      (reset : Bool) (g : Generation F)
      → (back_to_draft reset g).approval_status
        ≡ (if reset then Status.draft else g.approval_status)
  back_to_draft-status true g = refl
  back_to_draft-status false g = refl

  back_to_draft-token :
      (reset : Bool) (g : Generation F) → (back_to_draft reset g).approval_token ≡ g.approval_token
  back_to_draft-token true g = refl
  back_to_draft-token false g = refl

  pub set_budget_pacing-Traced :
      (id gen_id : ℕ) (months : List (ℕ × ℤ)) (by : Option Text) (db : Db F)
      → Traced id db (set_budget_pacing gen_id months by db).1
  unfolding set_budget_pacing
  set_budget_pacing-Traced id gen_id months by db =
      elim (Option-cases (get_row db.generations gen_id)) [
        | inl e ↦ rw (with_generation, e) (Traced-refl id db)
        | inr (g, e) ↦
            rw (with_generation, e)
              (elim (List-cases g.plan.monthly_pacing) [
                | inl without ↦ rw without (Traced-refl id db)
                | inr (p, (ps, found)) ↦ rw found (
                    written id gen_id g _ Event.budget_pacing_edited _ _ db e
                      (back_to_draft-status (is_pending g.approval_status) _
                        ∙ is_pending-draft g.approval_status)
                      (inr (back_to_draft-token (is_pending g.approval_status) _)))
              ])
      ]

module _ {F : Type 0} ⦃fl : FloatOps F⦄ where
  pub set_override-Traced :
      (id now gen_id : ℕ) (field : Text) (value : Setting F) (by : Option Text) (db : Db F)
      → Traced id db (set_override now gen_id field value by db).1
  unfolding set_override
  set_override-Traced id now gen_id field value by db = elim (Bool-cases (mem field editable)) [
    | inr shut ↦ rw shut (Traced-refl id db)
    | inl editing ↦ rw editing (elim (Option-cases (get_row db.generations gen_id)) [
      | inl e ↦ rw (with_generation, e) (Traced-refl id db)
      | inr (g, e) ↦
          rw (with_generation, e)
            (written id gen_id g _ Event.edited _ _ db e
              (back_to_draft-status (is_decided g.approval_status) _)
              (inr (back_to_draft-token (is_decided g.approval_status) _)))
    ])
  ]
