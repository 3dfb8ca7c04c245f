-- ===== src/Approval/Operations.antt =====
-- app/services/ai/approval_service.py, ApprovalService: the operations that draw tokens or hand over
-- mails. An operation commits at its end, and what a mail says besides the links is left out.
use google_ads_intelligence.Base.{
  ℕ, ◌+◌, Bool, not, Option, none, some, List, [], ◌∷◌, ◌++◌, ◌==◌, map, keep, if◌then◌else◌,
}
use google_ads_intelligence.Base.Eq.{◌=?◌, list_eq, nat_eq, option_eq}
use google_ads_intelligence.Base.Dict.{Table, get_row}
use google_ads_intelligence.Base.Text.{
  distinct, Text, codes, lower, strip, is_nonempty, or_text, or_empty,
}
use google_ads_intelligence.Base.Float.{FloatOps}
use google_ads_intelligence.Auth.Users.{User}
use google_ads_intelligence.Approval.Strategy.Final.{missing_kpis}
use google_ads_intelligence.Approval.Workflow.{
  Status, Event, Note, Generation, Mail, Db, Reason, Reply, Outside, verdict, verdict_event,
  admin_emails, save, add_event, hand_over, has_token, truthy_id, reviewed, with_generation,
  submitter_email,
}
use google_ads_intelligence.Approval.Edits.{is_valid_link, link_note}

-- `s.split(c)`
unfoldable pub split_on : ℕ → Text → List Text
split_on c [] = [] ∷ []
split_on c (d ∷ s) =
    let rest = split_on c s in
    if d == c then [] ∷ rest else (elim rest [ [] ↦ (d ∷ []) ∷ [] | x ∷ xs ↦ (d ∷ x) ∷ xs ])

-- The addresses of a list that is joined by commas.
unfoldable pub addresses : Text → List Text
addresses s = keep is_nonempty (map strip (split_on 44 s))

module _ {F : Type 0} (out : Outside F) where
  -- _approver_recipients, as the addresses that it joins, in no order.
  unfoldable pub approver_recipients : Table User → List Text
  approver_recipients users = elim (distinct (admin_emails users.rows ++ out.admin_emails_list)) [
    | x ∷ xs ↦ x ∷ xs
    | [] ↦ elim out.approval_reviewer_email [ none ↦ [] | some s ↦ addresses s ]
  ]

  -- A mail whose result is not looked at.
  abbrev pub deliver : Mail → Db F → Db F
  deliver mail db = if out.send_email mail then hand_over mail db else db

  -- _notify_submitter
  unfoldable pub notify_submitter : ℕ → Generation F → Bool → Option Text → Db F → Db F
  notify_submitter gen_id gen is_approved remark db =
      let admins = distinct (map (λ a. lower (strip a)) (approver_recipients db.users)) in
      elim (submitter_email gen db.users) [
        | some submitter ↦
            let cc = keep (λ a. not (a =? lower submitter)) admins in
            deliver (Mail.decision_notice gen_id is_approved remark (submitter ∷ []) cc) db
        | none ↦ elim admins [
          | [] ↦ db
          | a ∷ rest ↦ deliver (Mail.decision_notice gen_id is_approved remark (a ∷ rest) []) db
        ]
      ]

  -- _ensure_token
  unfoldable pub ensure_token : Generation F → Db F → (Text × Generation F) × Db F
  ensure_token gen db = if has_token gen then ((or_empty gen.approval_token, gen), db) else (
    (out.token_urlsafe db.drawn, record gen { approval_token = some (out.token_urlsafe db.drawn) }),
    record db { drawn = db.drawn + 1 },
  )

  -- send_approval: the mail carries the links with the token.
  unfoldable pub send_approval : ℕ → List Text → Option Text → Db F → Reply × Db F
  send_approval gen_id to actor = with_generation gen_id (λ gen db.
      let ((token, gen'), db1) = ensure_token gen db in
      let mail = Mail.approval_request gen_id token to in
      let db2 = save gen_id gen' db1 in
      if out.send_email mail
      then (Reply.ok, add_event gen_id Event.emailed actor (Note.sent_to to) (hand_over mail db2))
      else (Reply.refused Reason.not_sent, db2))

  -- The part of submit that is committed before the mail.
  unfoldable pub mark_submitted : ℕ → ℕ → Option Text → Option ℕ → Generation F → Db F → Db F
  mark_submitted now gen_id actor submitter gen db =
      let gen1 : Generation F = record gen {
        approval_status = Status.submitted;
        submitted_at = some now;
        submitter_user_id = elim (truthy_id submitter) [
          | none ↦ gen.submitter_user_id
          | some id ↦ some id
        ];
      } in
      let ((token, gen2), db1) = ensure_token gen1 db in
      add_event gen_id Event.submitted actor Note.no_note (save gen_id gen2 db1)

  -- Who gets the request for an approval: the approvers and the submitter.
  unfoldable pub request_recipients : ℕ → Db F → List Text
  request_recipients gen_id db = elim (get_row db.generations gen_id) [
    | none ↦ []
    | some gen ↦
        let submitter : List Text = elim (submitter_email gen db.users) [
          | none ↦ []
          | some s ↦ s ∷ []
        ] in
        distinct (map lower (map strip (approver_recipients db.users) ++ submitter))
  ]

  -- approve_via_token
  unfoldable pub approve_via_token :
      ℕ → ℕ → Text → Bool → Option Text → Option Text → Db F → Reply × Db F
  approve_via_token now gen_id token reject remark reviewer = with_generation gen_id (λ gen db.
      if not (is_valid_link token gen)
      then (Reply.refused Reason.invalid_link, db)
      else let is_approved = not reject in
        let name =
          or_text reviewer (or_text out.approval_reviewer_email (codes "Reviewer (email)")) in
        let text = link_note is_approved remark in
        let gen' = reviewed (verdict is_approved) now (some name) (some text) gen in
        let db' =
          add_event gen_id (verdict_event is_approved) (some name) (Note.said text)
            (save gen_id gen' db) in
        (Reply.ok, notify_submitter gen_id gen' is_approved (some text) db'))

module _ {F : Type 0} ⦃fl : FloatOps F⦄ (out : Outside F) where
  -- submit
  unfoldable pub submit : ℕ → ℕ → Option Text → Bool → Option ℕ → Db F → Reply × Db F
  submit now gen_id actor auto_send submitter = with_generation gen_id (λ gen db.
      elim (missing_kpis out.parse gen.plan gen.overrides) [
        | label ∷ labels ↦ (Reply.refused (Reason.kpis_missing (label ∷ labels)), db)
        | [] ↦
            let db1 = mark_submitted out now gen_id actor submitter gen db in
            elim (if auto_send then request_recipients out gen_id db1 else []) [
              | [] ↦ (Reply.ok, db1)
              | to ∷ rest ↦ (Reply.ok, (send_approval out gen_id (to ∷ rest) actor db1).1)
            ]
      ])
