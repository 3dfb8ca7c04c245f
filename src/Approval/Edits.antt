-- ===== src/Approval/Edits.antt =====
-- app/services/ai/approval_service.py, ApprovalService: the operations that write a strategy and its log,
-- and use nothing outside. An operation commits at its end.
use google_ads_intelligence.Base.{
  ℕ, Bool, not, ◌&&◌, Option, none, some, List, [], ◌∷◌, if◌then◌else◌, any, ◌==◌, length,
}
use google_ads_intelligence.Base.Int.{ℤ, negsuc, pos}
use google_ads_intelligence.Base.Eq.{◌=?◌, list_eq, nat_eq, option_eq, mem}
use google_ads_intelligence.Base.Dict.{Dict, get_row, insert, lookup}
use google_ads_intelligence.Base.Text.{
  Text, codes, strip, remove_code, is_nonempty, or_text, nonempty_or_none, or_empty,
}
use google_ads_intelligence.Base.Float.{FloatOps}
use google_ads_intelligence.Approval.Strategy.{Month, Setting, Override, editable}
use google_ads_intelligence.Approval.Strategy.Auto.{auto_value}
use google_ads_intelligence.Approval.Workflow.{
  Status, Event, Note, note_of, Generation, Db, Reason, Reply, is_decided, is_pending, verdict,
  verdict_event, save, add_event, back_to_draft, has_token, truthy_id, reviewed, with_generation,
}

-- `(remark or "").strip() or ...`
abbrev pub link_note : Bool → Option Text → Text
link_note is_approved remark =
    let given = strip (or_empty remark) in
    if is_nonempty given
    then given
    else if is_approved
    then codes "via one-click email link"
    else codes "No reason given."

module _ {F : Type 0} where
  -- The test of the link's token.
  unfoldable pub is_valid_link : Text → Generation F → Bool
  is_valid_link token gen =
      has_token gen && (is_nonempty token && (token =? or_empty gen.approval_token))

  -- request_changes
  unfoldable pub request_changes : ℕ → ℕ → Text → Option Text → Db F → Reply × Db F
  request_changes now gen_id reviewer remark = with_generation gen_id (λ gen db. (
    Reply.ok,
    add_event gen_id Event.changes_requested (some reviewer) (note_of remark)
        (save gen_id (reviewed Status.changes_requested now (some reviewer) remark gen) db),
  ))

  -- set_ad_manager
  unfoldable pub set_ad_manager : ℕ → Text → Db F → Reply × Db F
  set_ad_manager gen_id name = with_generation gen_id (λ gen db. (
    Reply.ok,
    add_event gen_id Event.ad_manager_set (some name) Note.no_note
        (save gen_id (record gen { ad_manager = nonempty_or_none (strip name) }) db),
  ))

  -- set_owner
  unfoldable pub set_owner : ℕ → Option ℕ → Db F → Reply × Db F
  set_owner gen_id user_id = with_generation gen_id (λ gen db. elim (truthy_id user_id) [
    | none ↦ (
      Reply.ok,
      add_event gen_id Event.owner_cleared none Note.no_note
          (save gen_id (record gen { owner_user_id = none }) db),
    )
    | some id ↦ elim (get_row db.users id) [
      | none ↦ (Reply.refused Reason.user_not_found, db)
      | some owner ↦ (
        Reply.ok,
        add_event gen_id Event.owner_set (some owner.email) Note.no_note (
            save gen_id
              (record gen {
                owner_user_id = some id;
                ad_manager = some (or_text owner.full_name owner.email);
              })
              db),
      )
    ]
  ])

  -- set_account
  unfoldable pub set_account : ℕ → Text → Db F → Reply × Db F
  set_account gen_id customer_id = with_generation gen_id (λ gen db.
      let cid = strip (remove_code 45 customer_id) in
      elim (lookup cid db.customers) [
        | none ↦ (Reply.refused Reason.no_account, db)
        | some (account, name) ↦ (
          Reply.ok,
          add_event gen_id Event.account_set none (Note.said (or_text name cid))
              (save gen_id (record gen { account_id = some account }) db),
        )
      ])

  -- decide
  unfoldable pub decide : ℕ → ℕ → Bool → Text → Option Text → Db F → Reply × Db F
  decide now gen_id is_approved reviewer remark = with_generation gen_id (λ gen db. (
    Reply.ok,
    add_event gen_id (verdict_event is_approved) (some reviewer) (note_of remark)
        (save gen_id (reviewed (verdict is_approved) now (some reviewer) remark gen) db),
  ))

  -- The months of the request that the plan has, with an amount that is not negative.
  unfoldable pub clean_months : List (Month F) → List (ℕ × ℤ) → Dict ℕ ℤ
  clean_months base [] = []
  clean_months base ((month, negsuc n) ∷ months) = clean_months base months
  clean_months base ((month, pos n) ∷ months) =
      let rest = clean_months base months in
      if any (λ p. p.month == month) base then (month, pos n) ∷ rest else rest

  -- set_budget_pacing, on amounts that are rounded already.
  unfoldable pub set_budget_pacing : ℕ → List (ℕ × ℤ) → Option Text → Db F → Reply × Db F
  set_budget_pacing gen_id months by = with_generation gen_id (λ gen db.
      elim gen.plan.monthly_pacing [
        | [] ↦ (Reply.refused Reason.no_pacing, db)
        | p ∷ ps ↦
            let clean = clean_months (p ∷ ps) months in
            let gen' : Generation F = record gen { pacing_overrides = clean } in
            (
              Reply.ok,
              add_event gen_id Event.budget_pacing_edited by (Note.months_adjusted (length clean))
                  (save gen_id (back_to_draft (is_pending gen.approval_status) gen') db),
            )
      ])

module _ {F : Type 0} ⦃fl : FloatOps F⦄ where
  -- set_override
  unfoldable pub set_override : ℕ → ℕ → Text → Setting F → Option Text → Db F → Reply × Db F
  set_override now gen_id field value by db =
      if not (mem field editable)
      then (Reply.refused Reason.not_editable, db)
      else with_generation gen_id
          (λ gen db.
            let ov : Override F = record {
              auto = auto_value gen.plan field;
              manual = value;
              by = by;
              at = now;
            } in
            let gen' : Generation F = record gen { overrides = insert field ov gen.overrides } in
            (
              Reply.ok,
              add_event gen_id Event.edited by (Note.set_to field value)
                  (save gen_id (back_to_draft (is_decided gen.approval_status) gen') db),
            ))
          db
