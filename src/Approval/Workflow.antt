-- ===== src/Approval/Workflow.antt =====
-- app/services/ai/approval_service.py, ApprovalService, over app/models/ad_copy.py: the approval state
-- of a strategy, its event log, and what its operations share. Tokens, the delivery of mails and
-- `float` on strings are arguments.
use google_ads_intelligence.Base.{
  ℕ, Bool, true, false, ◌&&◌, ◌==◌, Option, none, some, List, [], ◌∷◌, ◌++◌, if◌then◌else◌,
}
use google_ads_intelligence.Base.Int.{ℤ}
use google_ads_intelligence.Base.Eq.{list_eq, nat_eq, option_eq}
use google_ads_intelligence.Base.Dict.{Dict, Table, get_row, set_row}
use google_ads_intelligence.Base.Text.{Text, lower, strip, is_nonempty, nonempty_or_none}
use google_ads_intelligence.Auth.Users.{User, is_admin_role}
use google_ads_intelligence.Approval.Strategy.{CampaignPlan, Setting, Override}

-- The values of `approval_status`.
pub data Status : Type 0 where
  draft submitted approved rejected changes_requested : Status

-- The events of the log.
pub data Event : Type 0 where
  submitted approved rejected changes_requested edited budget_pacing_edited : Event
  ad_manager_set owner_set owner_cleared account_set emailed : Event

-- The note of an event: a text, or one of the formatted ones with what fills it.
pub data Note (F : Type 0) : Type 0 where
  no_note : Note F
  said : Text → Note F
  set_to : (field : Text) (value : Setting F) → Note F
  months_adjusted : ℕ → Note F
  sent_to : List Text → Note F

abbrev pub note_of : {F : Type 0} → Option Text → Note F
note_of none = Note.no_note
note_of (some text) = Note.said text

-- ApprovalEvent
pub record ApprovalEvent (F : Type 0) : Type 0 where
  pub generation_id : ℕ
  pub event : Event
  pub actor : Option Text
  pub note : Note F

-- AdCopyGeneration: the columns of the workflow.
pub record Generation (F : Type 0) : Type 0 where
  pub campus : Text
  pub account_id : Option ℕ
  pub plan : CampaignPlan F
  pub overrides : Dict Text (Override F)
  pub pacing_overrides : Dict ℕ ℤ
  pub approval_status : Status
  pub submitted_at : Option ℕ
  pub reviewed_at : Option ℕ
  pub reviewer_name : Option Text
  pub review_note : Option Text
  pub approval_token : Option Text
  pub ad_manager : Option Text
  pub owner_user_id : Option ℕ
  pub submitter_user_id : Option ℕ

-- A mail as the service hands it over, by what it is about.
pub data Mail : Type 0 where
  approval_request : (gen_id : ℕ) (token : Text) (to : List Text) → Mail
  decision_notice :
      (gen_id : ℕ) (was_approved : Bool) (note : Option Text) (to cc : List Text) → Mail

-- The tables that the service works on, the number of tokens drawn, and the mails handed over.
pub record Db (F : Type 0) : Type 0 where
  pub generations : Table (Generation F)
  pub events : List (ApprovalEvent F)
  pub users : Table User
  pub customers : Dict Text (ℕ × Option Text)
  pub drawn : ℕ
  pub outbox : List Mail

-- The reasons of a reply that is not ok.
pub data Reason : Type 0 where
  not_found invalid_link user_not_found no_account not_editable no_pacing not_sent : Reason
  kpis_missing : List Text → Reason

pub data Reply : Type 0 where
  ok : Reply
  refused : Reason → Reply

-- The settings, and what is not under app/: `secrets.token_urlsafe`, by the number of the draw,
-- `float` on a string, and whether a mail is sent.
pub record Outside (F : Type 0) : Type 0 where
  pub token_urlsafe : ℕ → Text
  pub parse : Text → Option F
  pub send_email : Mail → Bool
  pub approval_reviewer_email : Option Text
  pub admin_emails_list : List Text

-- The statuses from which `set_override` goes back to draft.
abbrev pub is_decided : Status → Bool
is_decided approved = true
is_decided rejected = true
is_decided submitted = true
is_decided _ = false

-- The statuses from which `set_budget_pacing` goes back to draft.
abbrev pub is_pending : Status → Bool
is_pending draft = false
is_pending _ = true

-- The status that a decision sets, and its event.
abbrev pub verdict : Bool → Status
verdict true = Status.approved
verdict false = Status.rejected

abbrev pub verdict_event : Bool → Event
verdict_event true = Event.approved
verdict_event false = Event.rejected

abbrev pub is_active_admin : User → Bool
is_active_admin u = is_admin_role u.role && (u.is_active && is_nonempty (strip u.email))

-- The addresses of the active admins in the table.
unfoldable pub admin_emails : Dict ℕ User → List Text
admin_emails [] = []
admin_emails (x ∷ d) =
    let rest = admin_emails d in
    if is_active_admin x.1 then lower (strip x.1.email) ∷ rest else rest

-- `if user_id`
abbrev pub truthy_id : Option ℕ → Option ℕ
truthy_id none = none
truthy_id (some id) = if id == 0 then none else some id

-- The email of a user that may not be there.
abbrev pub email_of : Table User → Option ℕ → Option Text
email_of users user_id = elim (truthy_id user_id) [
  | none ↦ none
  | some id ↦ elim (get_row users id) [ none ↦ none | some u ↦ nonempty_or_none u.email ]
]

module _ {F : Type 0} where
  abbrev pub save : ℕ → Generation F → Db F → Db F
  save gen_id gen db = record db { generations = set_row gen_id gen db.generations }

  -- ApprovalEventRepository.add_event
  abbrev pub add_event : ℕ → Event → Option Text → Note F → Db F → Db F
  add_event gen_id event actor note db = record db {
    events =
        db.events
        ++ record { generation_id = gen_id; event = event; actor = actor; note = note } ∷ [];
  }

  -- The outbox has the mails that `send_email` reports as sent.
  abbrev pub hand_over : Mail → Db F → Db F
  hand_over mail db = record db { outbox = db.outbox ++ mail ∷ [] }

  abbrev pub back_to_draft : Bool → Generation F → Generation F
  back_to_draft reset gen =
      if reset then record gen { approval_status = Status.draft; reviewed_at = none } else gen

  -- `if not gen.approval_token`
  abbrev pub has_token : Generation F → Bool
  has_token gen = elim gen.approval_token [ none ↦ false | some t ↦ is_nonempty t ]

  -- The columns that a review writes.
  abbrev pub reviewed : Status → ℕ → Option Text → Option Text → Generation F → Generation F
  reviewed status now reviewer note gen = record gen {
    approval_status = status;
    reviewed_at = some now;
    reviewer_name = reviewer;
    review_note = note;
  }

  -- An operation on a generation that may not be there.
  abbrev pub with_generation : ℕ → (Generation F → Db F → Reply × Db F) → Db F → Reply × Db F
  with_generation gen_id body db = elim (get_row db.generations gen_id) [
    | none ↦ (Reply.refused Reason.not_found, db)
    | some gen ↦ body gen db
  ]

  -- _submitter_email
  unfoldable pub submitter_email : Generation F → Table User → Option Text
  submitter_email gen users = elim (email_of users gen.submitter_user_id) [
    | some email ↦ some email
    | none ↦ email_of users gen.owner_user_id
  ]
