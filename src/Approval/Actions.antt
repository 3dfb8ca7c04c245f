-- ===== src/Approval/Actions.antt =====
-- The requests that app/api/v1/ad_copy.py passes to ApprovalService, as data, and runs of them.
-- The edits of app/services/ai/ad_copy_service.py, which also set the status back to draft and log events,
-- are not among them.
use google_ads_intelligence.Base.{ℕ, Bool, Option, List, [], ◌∷◌}
use google_ads_intelligence.Base.Int.{ℤ}
use google_ads_intelligence.Base.Text.{Text}
use google_ads_intelligence.Base.Float.{FloatOps}
use google_ads_intelligence.Approval.Strategy.{Setting}
use google_ads_intelligence.Approval.Workflow.{Db, Reply, Outside}
use google_ads_intelligence.Approval.Edits.{
  request_changes, set_ad_manager, set_owner, set_account, decide, set_override, set_budget_pacing,
}
use google_ads_intelligence.Approval.Operations.{submit, approve_via_token, send_approval}

pub data Action (F : Type 0) : Type 0 where
  submitting : (now gen_id : ℕ) → Option Text → Bool → Option ℕ → Action F
  asking : (now gen_id : ℕ) → Text → Option Text → Action F
  naming : (gen_id : ℕ) → Text → Action F
  owning : (gen_id : ℕ) → Option ℕ → Action F
  placing : (gen_id : ℕ) → Text → Action F
  following : (now gen_id : ℕ) → Text → Bool → Option Text → Option Text → Action F
  deciding : (now gen_id : ℕ) → Bool → Text → Option Text → Action F
  overriding : (now gen_id : ℕ) → Text → Setting F → Option Text → Action F
  pacing : (gen_id : ℕ) → List (ℕ × ℤ) → Option Text → Action F
  resending : (gen_id : ℕ) → List Text → Option Text → Action F

module _ {F : Type 0} ⦃fl : FloatOps F⦄ (out : Outside F) where
  abbrev pub perform : Action F → Db F → Reply × Db F
  perform (submitting now id actor auto_send submitter) =
      submit out now id actor auto_send submitter
  perform (asking now id reviewer remark) = request_changes now id reviewer remark
  perform (naming id name) = set_ad_manager id name
  perform (owning id user_id) = set_owner id user_id
  perform (placing id customer_id) = set_account id customer_id
  perform (following now id token reject remark reviewer) =
      approve_via_token out now id token reject remark reviewer
  perform (deciding now id is_approved reviewer remark) = decide now id is_approved reviewer remark
  perform (overriding now id field value by) = set_override now id field value by
  perform (pacing id months by) = set_budget_pacing id months by
  perform (resending id to actor) = send_approval out id to actor

  abbrev pub run_actions : List (Action F) → Db F → Db F
  run_actions [] db = db
  run_actions (a ∷ rest) db = run_actions rest (perform a db).1
