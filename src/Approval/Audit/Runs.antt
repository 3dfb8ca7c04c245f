-- ===== src/Approval/Audit/Runs.antt =====
-- The operations of ApprovalService that draw tokens or send mails, and every run: they leave a trace.
use google_ads_intelligence.Base.{
  ℕ, ◌≡◌, refl, ◌∙◌, Bool, true, false, Option, some, List, [], ◌∷◌, inl, inr, if◌then◌else◌, not,
  Bool-cases, Option-cases, map, List-cases,
}
use google_ads_intelligence.Base.Eq.{nat_eq, list_eq}
use google_ads_intelligence.Base.Dict.{get_row}
use google_ads_intelligence.Base.Text.{distinct, Text, strip, lower}
use google_ads_intelligence.Base.Float.{FloatOps}
use google_ads_intelligence.Approval.Strategy.Final.{missing_kpis}
use google_ads_intelligence.Approval.Workflow.{
  Status, Event, Note, Generation, Db, Outside, Mail, verdict, verdict_event, save, with_generation,
  hand_over, submitter_email, add_event,
}
use google_ads_intelligence.Approval.Edits.{is_valid_link}
use google_ads_intelligence.Approval.Operations.{
  submit, approve_via_token, send_approval, ensure_token, approver_recipients, mark_submitted,
  notify_submitter, request_recipients, deliver,
}
use google_ads_intelligence.Approval.Actions.{Action, perform, run_actions}
use google_ads_intelligence.Approval.Audit.{
  status_after, KeepsToken-trans, Traced, Traced-trans, Traced-same, Traced-refl,
}
use google_ads_intelligence.Approval.Audit.Writes.{
  written, saved, ensured-KeepsToken, ensure_token-same,
}
use google_ads_intelligence.Approval.Audit.Edits.{
  request_changes-Traced, set_ad_manager-Traced, set_owner-Traced, set_account-Traced,
  decide-Traced, set_budget_pacing-Traced, set_override-Traced,
}

verdict-status : (b : Bool) (s : Status) → verdict b ≡ status_after (verdict_event b) s
verdict-status true s = refl
verdict-status false s = refl

module _ {F : Type 0} (out : Outside F) where
  -- A mail changes neither table.
  handed : (id : ℕ) (x db : Db F) (mail : Mail) → Traced id x db → Traced id x (hand_over mail db)
  handed id x db mail h = Traced-trans id x db _ h (Traced-same id db (hand_over mail db) refl refl)

  delivered : (id : ℕ) (db : Db F) (mail : Mail) → Traced id db (deliver out mail db)
  delivered id db mail = elim (Bool-cases (out.send_email mail)) [
    | inl sent ↦ rw sent (handed id db db mail (Traced-refl id db))
    | inr failed ↦ rw failed (Traced-refl id db)
  ]

  notify_submitter-Traced :
      (id gen_id : ℕ) (g : Generation F) (is_approved : Bool) (remark : Option Text) (db : Db F)
      → Traced id db (notify_submitter out gen_id g is_approved remark db)
  unfolding notify_submitter
  notify_submitter-Traced id gen_id g is_approved remark db =
      elim (Option-cases (submitter_email g db.users)) [
        | inr (submitter, e) ↦ rw (notify_submitter, e) (delivered id db _)
        | inl e ↦
            elim (List-cases
              (distinct (map (λ a. lower (strip a)) (approver_recipients out db.users)))) [
                | inl without ↦ rw (notify_submitter, e, without) (Traced-refl id db)
                | inr (a, (rest, found)) ↦ rw (notify_submitter, e, found) (delivered id db _)
              ]
      ]

  -- A row that is saved with its token.
  ensured :
      (id gen_id : ℕ) (g g1 : Generation F) (db : Db F)
      → get_row db.generations gen_id ≡ some g
      → g1.approval_status ≡ g.approval_status
      → g1.approval_token ≡ g.approval_token
      → Traced id db (save gen_id (ensure_token out g1 db).0.1 (ensure_token out g1 db).1)
  ensured id gen_id g g1 db found status token =
      let same = ensure_token-same out g1 db in
      let g2 = (ensure_token out g1 db).0.1 in
      let db1 = (ensure_token out g1 db).1 in
      Traced-trans id db db1 _ (Traced-same id db db1 same.1.0 same.1.1) (
        saved id gen_id g g2 db1 (rw same.1.0 found) (same.0 ∙ status)
          (KeepsToken-trans g g1 g2 (inr token) (ensured-KeepsToken out g1 db)))

  ensured-written :
      (id gen_id : ℕ) (g g1 : Generation F) (event : Event) (actor : Option Text) (note : Note F)
      (db : Db F)
      → get_row db.generations gen_id ≡ some g
      → g1.approval_status ≡ status_after event g.approval_status
      → g1.approval_token ≡ g.approval_token
      → Traced id db (
          add_event gen_id event actor note
            (save gen_id (ensure_token out g1 db).0.1 (ensure_token out g1 db).1))
  ensured-written id gen_id g g1 event actor note db found status token =
      let same = ensure_token-same out g1 db in
      let g2 = (ensure_token out g1 db).0.1 in
      let db1 = (ensure_token out g1 db).1 in
      Traced-trans id db db1 _ (Traced-same id db db1 same.1.0 same.1.1) (
        written id gen_id g g2 event actor note db1 (rw same.1.0 found) (same.0 ∙ status)
          (KeepsToken-trans g g1 g2 (inr token) (ensured-KeepsToken out g1 db)))

  send_approval-Traced :
      (id gen_id : ℕ) (to : List Text) (actor : Option Text) (db : Db F)
      → Traced id db (send_approval out gen_id to actor db).1
  unfolding send_approval
  send_approval-Traced id gen_id to actor db = elim (Option-cases (get_row db.generations gen_id)) [
    | inl e ↦ rw (with_generation, e) (Traced-refl id db)
    | inr (g, e) ↦
        let mail = Mail.approval_request gen_id (ensure_token out g db).0.0 to in
        elim (Bool-cases (out.send_email mail)) [
          | inl sent ↦
              rw (with_generation, e, sent)
                (handed id db _ mail (
                  ensured-written id gen_id g g Event.emailed actor (Note.sent_to to) db e refl
                    refl))
          | inr failed ↦ rw (with_generation, e, failed) (ensured id gen_id g g db e refl refl)
        ]
  ]

  approve_via_token-Traced :
      (id now gen_id : ℕ) (token : Text) (reject : Bool) (remark reviewer : Option Text) (db : Db F)
      → Traced id db (approve_via_token out now gen_id token reject remark reviewer db).1
  unfolding approve_via_token
  approve_via_token-Traced id now gen_id token reject remark reviewer db =
      elim (Option-cases (get_row db.generations gen_id)) [
        | inl e ↦ rw (with_generation, e) (Traced-refl id db)
        | inr (g, e) ↦ elim (Bool-cases (is_valid_link token g)) [
          | inr bad ↦ rw (with_generation, e, bad) (Traced-refl id db)
          | inl good ↦
              rw (with_generation, e, good)
                (Traced-trans id db _ _
                  (written id gen_id g _ (verdict_event (not reject)) _ _ db e
                    (verdict-status (not reject) g.approval_status) (inr refl))
                  (notify_submitter-Traced id gen_id _ (not reject) _ _))
        ]
      ]

  mark_submitted-Traced :
      (id now gen_id : ℕ) (actor : Option Text) (submitter : Option ℕ) (g : Generation F)
      (db : Db F)
      → get_row db.generations gen_id ≡ some g
      → Traced id db (mark_submitted out now gen_id actor submitter g db)
  unfolding mark_submitted
  mark_submitted-Traced id now gen_id actor submitter g db e =
      ensured-written id gen_id g _ Event.submitted actor Note.no_note db e refl refl

module _ {F : Type 0} ⦃fl : FloatOps F⦄ (out : Outside F) where
  submit-Traced :
      (id now gen_id : ℕ) (actor : Option Text) (auto_send : Bool) (submitter : Option ℕ)
      (db : Db F)
      → Traced id db (submit out now gen_id actor auto_send submitter db).1
  unfolding submit
  submit-Traced id now gen_id actor auto_send submitter db =
      elim (Option-cases (get_row db.generations gen_id)) [
        | inl e ↦ rw (with_generation, e) (Traced-refl id db)
        | inr (g, e) ↦ elim (List-cases (missing_kpis out.parse g.plan g.overrides)) [
          | inr (label, (labels, missing)) ↦ rw (with_generation, e, missing) (Traced-refl id db)
          | inl complete ↦
              let db1 = mark_submitted out now gen_id actor submitter g db in
              let marked = mark_submitted-Traced out id now gen_id actor submitter g db e in
              elim (List-cases (if auto_send then request_recipients out gen_id db1 else [])) [
                | inl nobody ↦ rw (with_generation, e, complete, nobody) marked
                | inr (to, (rest, found)) ↦
                    rw (with_generation, e, complete, found)
                      (Traced-trans id db db1 _ marked
                        (send_approval-Traced out id gen_id (to ∷ rest) actor db1))
              ]
        ]
      ]

  pub perform-Traced : (id : ℕ) (a : Action F) (db : Db F) → Traced id db (perform out a db).1
  perform-Traced id (Action.submitting now gen_id actor auto_send submitter) db =
      submit-Traced id now gen_id actor auto_send submitter db
  perform-Traced id (Action.asking now gen_id reviewer remark) db =
      request_changes-Traced id now gen_id reviewer remark db
  perform-Traced id (Action.naming gen_id name) db = set_ad_manager-Traced id gen_id name db
  perform-Traced id (Action.owning gen_id user_id) db = set_owner-Traced id gen_id user_id db
  perform-Traced id (Action.placing gen_id customer_id) db =
      set_account-Traced id gen_id customer_id db
  perform-Traced id (Action.following now gen_id token reject remark reviewer) db =
      approve_via_token-Traced out id now gen_id token reject remark reviewer db
  perform-Traced id (Action.deciding now gen_id is_approved reviewer remark) db =
      decide-Traced id now gen_id is_approved reviewer remark db
  perform-Traced id (Action.overriding now gen_id field value by) db =
      set_override-Traced id now gen_id field value by db
  perform-Traced id (Action.pacing gen_id months by) db =
      set_budget_pacing-Traced id gen_id months by db
  perform-Traced id (Action.resending gen_id to actor) db =
      send_approval-Traced out id gen_id to actor db

  -- Take any run of the requests, and any strategy `id`. The event log only grows, by events that are
  -- appended; the strategy is there after the run exactly if it was there before; its status after the
  -- run is its status before it, replayed over the appended events of that strategy; and a token that
  -- it had before the run, it has after it.
  pub run_actions-Traced :
      (id : ℕ) (actions : List (Action F)) (db : Db F) → Traced id db (run_actions out actions db)
  run_actions-Traced id [] db = Traced-refl id db
  run_actions-Traced id (a ∷ actions) db =
      Traced-trans id db (perform out a db).1 _ (perform-Traced id a db)
        (run_actions-Traced id actions (perform out a db).1)
