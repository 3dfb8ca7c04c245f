-- ===== src/Approval/Laws.antt =====
-- What follows for every run of the requests of ApprovalService: approvals are logged, and links last.
use google_ads_intelligence.Base.{
  ℕ, ◌≡◌, refl, subst, Bool, true, false, not, ◌&&◌, Option, none, some, List, [], ◌∷◌, ◌++◌, ◌⊎◌,
  inl, inr, ◌==◌, any, drop, length, Bool-cases, Option-cases, List-cases, map, arith,
}
use google_ads_intelligence.Base.Eq.{nat_eq}
use google_ads_intelligence.Base.Dict.{get_row, lookup-insert_self, Table, set_row}
use google_ads_intelligence.Base.Text.{distinct, Text, codes, or_text, lower, strip}
use google_ads_intelligence.Base.Float.{FloatOps}
use google_ads_intelligence.Approval.Workflow.{
  Status, Event, ApprovalEvent, Generation, Db, Reply, Outside, verdict, with_generation,
  submitter_email, Note, Mail, add_event, save, reviewed, verdict_event,
}
use google_ads_intelligence.Approval.Edits.{is_valid_link, link_note}
use google_ads_intelligence.Approval.Operations.{
  approve_via_token, notify_submitter, approver_recipients, deliver,
}
use google_ads_intelligence.Approval.Actions.{Action, run_actions}
use google_ads_intelligence.Approval.Audit.{replay, status_after, KeepsToken, Follows}
use google_ads_intelligence.Approval.Audit.Runs.{run_actions-Traced}

abbrev pub is_approved : Status → Bool
is_approved Status.approved = true
is_approved _ = false

abbrev pub is_approval : Event → Bool
is_approval Event.approved = true
is_approval _ = false

status_after-is_approved :
    (e : Event) (s : Status)
    → is_approved (status_after e s) ≡ true
    → (is_approved s ≡ true) ⊎ (is_approval e ≡ true)
status_after-is_approved Event.submitted s h = ground (arith, h)
status_after-is_approved Event.approved s h = inr refl
status_after-is_approved Event.rejected s h = ground (arith, h)
status_after-is_approved Event.changes_requested s h = ground (arith, h)
status_after-is_approved Event.edited Status.approved h = inl refl
status_after-is_approved Event.edited Status.draft h = inl h
status_after-is_approved Event.edited Status.submitted h = inl h
status_after-is_approved Event.edited Status.rejected h = inl h
status_after-is_approved Event.edited Status.changes_requested h = inl h
status_after-is_approved Event.budget_pacing_edited s h = ground (arith, h)
status_after-is_approved Event.ad_manager_set s h = inl h
status_after-is_approved Event.owner_set s h = inl h
status_after-is_approved Event.owner_cleared s h = inl h
status_after-is_approved Event.account_set s h = inl h
status_after-is_approved Event.emailed s h = inl h

module _ {F : Type 0} where
  -- An approval of the strategy `id`.
  abbrev pub approves : ℕ → ApprovalEvent F → Bool
  approves id e = e.generation_id == id && is_approval e.event

  replay-approved :
      (id : ℕ) (news : List (ApprovalEvent F)) (s : Status)
      → is_approved (replay id news s) ≡ true
      → (is_approved s ≡ true) ⊎ (any (approves id) news ≡ true)
  replay-approved id [] s h = inl h
  replay-approved id (e ∷ news) s h = elim (Bool-cases (e.generation_id == id)) [
    | inl same ↦ elim (replay-approved id news (status_after e.event s) (rw same at h)) [
      | inl later ↦ elim (status_after-is_approved e.event s later) [
        | inl was ↦ inl was
        | inr now ↦ inr (rw (same, now) refl)
      ]
      | inr logged ↦ inr (ground (arith, logged))
    ]
    | inr other ↦ elim (replay-approved id news s (rw other at h)) [
      | inl was ↦ inl was
      | inr logged ↦ inr (rw (other, logged) refl)
    ]
  ]

  Follows_found :
      (id : ℕ) (news : List (ApprovalEvent F)) (a b : Option (Generation F)) (g g' : Generation F)
      → a ≡ some g
      → b ≡ some g'
      → Follows id news a b
      → Follows id news (some g) (some g')
  Follows_found id news a b g g' ea eb h =
      subst (λ x. Follows id news (some g) x) eb (subst (λ x. Follows id news x b) ea h)

  drop-append : (xs ys : List (ApprovalEvent F)) → drop (length xs) (xs ++ ys) ≡ ys
  drop-append [] ys = refl
  drop-append (x ∷ xs) ys = drop-append xs ys

module _ {F : Type 0} where
  abbrev pub status_of : ℕ → Db F → Option Status
  status_of id db = elim (get_row db.generations id) [
    | none ↦ none
    | some g ↦ some g.approval_status
  ]

  saved-status :
      (id : ℕ) (g : Generation F) (t : Table (Generation F)) (db : Db F)
      → db.generations ≡ set_row id g t
      → status_of id db ≡ some g.approval_status
  saved-status id g t db h =
      let found : get_row db.generations id ≡ some g = rw h (lookup-insert_self id g t.rows) in
      rw (status_of, found) refl

module _ {F : Type 0} ⦃fl : FloatOps F⦄ (out : Outside F) where
  -- Take a strategy that is not approved before a run of the requests, and is approved after it. Then
  -- one of the events that the run appended to the log is an approval of this strategy.
  pub run_actions-approved :
      (id : ℕ) (actions : List (Action F)) (db : Db F) (g g' : Generation F)
      → get_row db.generations id ≡ some g
      → get_row (run_actions out actions db).generations id ≡ some g'
      → is_approved g.approval_status ≡ false
      → is_approved g'.approval_status ≡ true
      → any (approves id) (drop (length db.events) (run_actions out actions db).events) ≡ true
  run_actions-approved id actions db g g' before after fresh done =
      let t = run_actions-Traced out id actions db in
      let row = Follows_found id t.news _ _ g g' before after t.row in
      elim (replay-approved id t.news g.approval_status (rw row.0 at done)) [
        | inl was ↦ ground (arith, was, fresh)
        | inr logged ↦ rw (t.log, drop-append db.events t.news) logged
      ]

  has_link :
      (token : Text) (g g' : Generation F)
      → KeepsToken g g'
      → is_valid_link token g ≡ true
      → is_valid_link token g' ≡ true
  unfolding is_valid_link
  has_link token g g' (inl without) h = ground (arith, without, h)
  has_link token g g' (inr same) h = rw same h

  deliver-generations :
      (mail : Mail) (db : Db F) → (deliver out mail db).generations ≡ db.generations
  deliver-generations mail db = elim (Bool-cases (out.send_email mail)) [
    | inl sent ↦ rw sent refl
    | inr failed ↦ rw failed refl
  ]

  notify_submitter-generations :
      (gen_id : ℕ) (g : Generation F) (ok : Bool) (remark : Option Text) (db : Db F)
      → (notify_submitter out gen_id g ok remark db).generations ≡ db.generations
  unfolding notify_submitter
  notify_submitter-generations gen_id g ok remark db =
      elim (Option-cases (submitter_email g db.users)) [
        | inr (submitter, e) ↦ rw (notify_submitter, e) (deliver-generations _ db)
        | inl e ↦
            elim (List-cases
              (distinct (map (λ a. lower (strip a)) (approver_recipients out db.users)))) [
                | inl without ↦ rw (notify_submitter, e, without) refl
                | inr (a, (rest, found)) ↦
                    rw (notify_submitter, e, found) (deliver-generations _ db)
              ]
      ]

  link-decides :
      (id now : ℕ) (token : Text) (reject : Bool) (remark reviewer : Option Text) (db : Db F)
      (g : Generation F)
      → get_row db.generations id ≡ some g
      → is_valid_link token g ≡ true
      → ((approve_via_token out now id token reject remark reviewer db).0 ≡ Reply.ok)
        × (status_of id (approve_via_token out now id token reject remark reviewer db).1
            ≡ some (verdict (not reject)))
  unfolding approve_via_token
  link-decides id now token reject remark reviewer db g found valid =
      let is_approved = not reject in
      let name =
        or_text reviewer (or_text out.approval_reviewer_email (codes "Reviewer (email)")) in
      let text = link_note is_approved remark in
      let g' = reviewed (verdict is_approved) now (some name) (some text) g in
      let db' =
        add_event id (verdict_event is_approved) (some name) (Note.said text) (save id g' db) in
      rw (with_generation, found, valid)
        (
          refl,
          saved-status id g' db.generations (notify_submitter out id g' is_approved (some text) db')
              (notify_submitter-generations id g' is_approved (some text) db'),
        )

  -- Take a link that is valid for a strategy. After any run of the requests that leaves the strategy in
  -- the table, following the link still decides it, whatever its status is then and however it was
  -- edited: the reply is ok, and the strategy is approved, or rejected if the link says so.
  pub approve_via_token-decides :
      (id now : ℕ) (token : Text) (reject : Bool) (remark reviewer : Option Text)
      (actions : List (Action F)) (db : Db F) (g g' : Generation F)
      → get_row db.generations id ≡ some g
      → is_valid_link token g ≡ true
      → get_row (run_actions out actions db).generations id ≡ some g'
      → ((approve_via_token out now id token reject remark reviewer (run_actions out actions db)).0
          ≡ Reply.ok)
        × (status_of id
              (approve_via_token out now id token reject remark reviewer
                (run_actions out actions db)).1
            ≡ some (verdict (not reject)))
  approve_via_token-decides id now token reject remark reviewer actions db g g' before valid after =
      let t = run_actions-Traced out id actions db in
      let row = Follows_found id t.news _ _ g g' before after t.row in
      link-decides id now token reject remark reviewer (run_actions out actions db) g' after
        (has_link token g g' row.1 valid)
