-- ===== src/Tests/Approval.antt =====
-- The approval of a strategy at a concrete plan: two links, edits and refusals.
use google_ads_intelligence.Base.{
  refl, true, false, Option, none, some, List, [], ◌∷◌, any, drop, length,
}
use google_ads_intelligence.Base.{◌≡◌, ◌⊎◌, take}
use google_ads_intelligence.Approval.Workflow.{submitter_email, admin_emails}
use google_ads_intelligence.Base.Int.{pos}
use google_ads_intelligence.Base.Dict.{get_row}
use google_ads_intelligence.Base.Text.{distinct, Text, codes, strip, strip_left, is_space}
use google_ads_intelligence.Tests.Fixed.{Fixed, units, fixed_ops}
use google_ads_intelligence.Approval.Strategy.{CampaignPlan, Setting, is_set}
use google_ads_intelligence.Approval.Strategy.Auto.{
  auto_value, auto_values, auto_leads, reference_cpl, auto_cpc, auto_ctr, auto_cvr, auto_bidding,
}
use google_ads_intelligence.Approval.Strategy.Final.{effective, missing_kpis, target_leads, num}
use google_ads_intelligence.Approval.Workflow.{Status, Generation, Db, Reply, Reason, Outside}
use google_ads_intelligence.Approval.Edits.{set_override, is_valid_link}
use google_ads_intelligence.Approval.Operations.{
  addresses, split_on, submit, mark_submitted, request_recipients, send_approval, ensure_token,
  approver_recipients, approve_via_token, notify_submitter,
}
use google_ads_intelligence.Approval.Actions.{Action, perform, run_actions}
use google_ads_intelligence.Approval.Audit.{Traced}
use google_ads_intelligence.Approval.Audit.Runs.{run_actions-Traced}
use google_ads_intelligence.Approval.Laws.{
  approves, status_of, run_actions-approved, approve_via_token-decides,
}
use google_ads_intelligence.Approval.Errors.{perform-refused, TokenOnly}
use google_ads_intelligence.Approval.Roundtrip.{value_of, set_override-effective}

abbrev parse : Text → Option Fixed
parse s = none

abbrev out : Outside Fixed
out = record {
  token_urlsafe = λ n. 65 ∷ n ∷ [];
  parse = parse;
  send_email = λ mail. true;
  approval_reviewer_email = some (codes "lead@example.org");
  admin_emails_list = [];
}

abbrev plan : CampaignPlan Fixed
plan = record {
  assumed_cvr = none;
  budget = some (units 40000000);
  effective_cpc = some (units 200000);
  blended_cpc = none;
  anchor_cpc = none;
  est_clicks = some (pos 200);
  est_impressions = some (pos 4000);
  target_cpl_low = none;
  target_cpl_high = none;
  recommended = none;
  primary = some (codes "Maximise clicks");
  monthly_pacing = [];
}

abbrev fresh : Generation Fixed
fresh = record {
  campus = codes "North";
  account_id = none;
  plan = plan;
  overrides = [];
  pacing_overrides = [];
  approval_status = Status.draft;
  submitted_at = none;
  reviewed_at = none;
  reviewer_name = none;
  review_note = none;
  approval_token = none;
  ad_manager = none;
  owner_user_id = none;
  submitter_user_id = none;
}

abbrev db : Db Fixed
db = record {
  generations = record { next_id = 6; rows = (5, fresh) ∷ [] };
  events = [];
  users = record { next_id = 1; rows = [] };
  customers = [];
  drawn = 7;
  outbox = [];
}

-- The strategy is submitted, approved through the link, and edited.
abbrev story : List (Action Fixed)
story =
    Action.submitting 10 5 none true none
    ∷ Action.following 11 5 (65 ∷ 7 ∷ []) false none none
    ∷ Action.overriding 12 5 (codes "budget") (Setting.number (units 90000000)) none
    ∷ []

abbrev submitted : Db Fixed
submitted = (perform out (Action.submitting 10 5 none true none) db).1

abbrev row : Db Fixed → Generation Fixed
row after = elim (get_row after.generations 5) [ none ↦ fresh | some g ↦ g ]

-- What the story is after the submission.
abbrev reviewing : List (Action Fixed)
reviewing = drop 1 story

run_actions-Traced_example : Traced 5 db (run_actions out story db)
run_actions-Traced_example = run_actions-Traced out 5 story db

abbrev deciding : List (Action Fixed)
deciding = take 2 story

run_actions-approved_example :
    any (approves 5) (drop (length db.events) (run_actions out deciding db).events) ≡ true
unfolding submit mark_submitted request_recipients send_approval ensure_token approver_recipients
    approve_via_token is_valid_link notify_submitter submitter_email missing_kpis effective
    auto_value auto_values target_leads num is_set auto_leads reference_cpl auto_cpc auto_ctr
    auto_cvr auto_bidding distinct admin_emails addresses split_on strip strip_left is_space
run_actions-approved_example =
    run_actions-approved out 5 deciding db fresh (row (run_actions out deciding db)) refl refl refl
      refl

approve_via_token-decides_example :
    ((approve_via_token out 20 5
        (65 ∷ 7 ∷ [])
        true
        none
        none
        (run_actions out reviewing submitted)).0
      ≡ Reply.ok)
    × (status_of 5
          (approve_via_token out 20 5
            (65 ∷ 7 ∷ [])
            true
            none
            none
            (run_actions out reviewing submitted)).1
        ≡ some Status.rejected)
unfolding submit mark_submitted request_recipients send_approval ensure_token approver_recipients
    approve_via_token is_valid_link notify_submitter submitter_email missing_kpis effective
    auto_value auto_values target_leads num is_set auto_leads reference_cpl auto_cpc auto_ctr
    auto_cvr auto_bidding distinct admin_emails addresses split_on strip strip_left is_space
    set_override
approve_via_token-decides_example =
    approve_via_token-decides out 5 20 (65 ∷ 7 ∷ []) true none none reviewing submitted
      (row submitted) (row (run_actions out reviewing submitted)) refl refl refl

-- No mail gets through.
abbrev cut_off : Outside Fixed
cut_off = record out { send_email = λ mail. false }

abbrev resent : Action Fixed
resent = Action.resending 5 (codes "lead@example.org" ∷ []) none

perform-refused_example :
    ((perform cut_off resent db).1 ≡ db)
    ⊎ ((Reason.not_sent ≡ Reason.not_sent) × TokenOnly cut_off db (perform cut_off resent db).1)
unfolding send_approval ensure_token
perform-refused_example = perform-refused cut_off resent db Reason.not_sent refl

-- A link with another token.
forged_link :
    perform out (Action.following 11 5 (65 ∷ 8 ∷ []) false none none) db
    ≡ (Reply.refused Reason.invalid_link, db)
unfolding approve_via_token is_valid_link
forged_link = refl

set_override-effective_example :
    value_of parse 5
      (codes "budget")
      (set_override 12 5 (codes "budget") (Setting.number (units 90000000)) none db).1
    ≡ some (Setting.number (units 90000000))
set_override-effective_example =
    set_override-effective parse 12 5 (codes "budget") (codes "budget")
      (Setting.number (units 90000000)) none db fresh refl refl

-- The approved strategy is a draft again once it is edited, and the link of the first mail is still valid.
edited_link : is_valid_link (65 ∷ 7 ∷ []) (row (run_actions out reviewing submitted)) ≡ true
unfolding submit mark_submitted request_recipients send_approval ensure_token approver_recipients
    approve_via_token is_valid_link notify_submitter submitter_email missing_kpis effective
    auto_value auto_values target_leads num is_set auto_leads reference_cpl auto_cpc auto_ctr
    auto_cvr auto_bidding distinct admin_emails addresses split_on strip strip_left is_space
    set_override
edited_link = refl
