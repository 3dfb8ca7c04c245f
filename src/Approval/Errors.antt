-- ===== src/Approval/Errors.antt =====
-- What a refused request of ApprovalService leaves behind.
use google_ads_intelligence.Base.{
  ℕ, ◌+◌, ◌≡◌, refl, Bool, false, ◌⊎◌, inl, inr, Option, some, List, arith, Bool-cases,
  Option-cases,
}
use google_ads_intelligence.Base.Dict.{get_row, set_row}
use google_ads_intelligence.Base.Int.{ℤ}
use google_ads_intelligence.Base.Text.{Text}
use google_ads_intelligence.Base.Float.{FloatOps}
use google_ads_intelligence.Approval.Strategy.{Setting}
use google_ads_intelligence.Approval.Workflow.{
  Generation, Mail, Db, Reply, Reason, Outside, has_token, save, with_generation,
}
use google_ads_intelligence.Approval.Edits.{
  request_changes, set_ad_manager, set_owner, set_account, decide, set_override, set_budget_pacing,
}
use google_ads_intelligence.Approval.Operations.{
  submit, approve_via_token, send_approval, ensure_token,
}
use google_ads_intelligence.Approval.Actions.{Action, perform}

module _ {F : Type 0} (out : Outside F) where
  -- A row `g` has got the token: the one it had, or one that is drawn now since it had none.
  abbrev Drawn : Generation F → Option Text → (drawn drawn' : ℕ) → Type 0
  Drawn g token drawn drawn' =
      ((token ≡ g.approval_token) × (drawn' ≡ drawn))
      ⊎ ((has_token g ≡ false) × ((token ≡ some (out.token_urlsafe drawn)) × (drawn' ≡ drawn + 1)))

  -- The database is as before but for the token of one row.
  pub record TokenOnly (before after : Db F) : Type 0 where
    pub gen_id : ℕ
    pub gen : Generation F
    pub token : Option Text
    pub drawn : ℕ
    pub found : get_row before.generations gen_id ≡ some gen
    pub is_drawn : Drawn gen token before.drawn drawn
    pub after_is : after ≡ record before {
      generations = set_row gen_id (record gen { approval_token = token }) before.generations;
      drawn = drawn;
    }

module _ {F : Type 0} where
  -- The request is done, or nothing has changed.
  abbrev Kept : Db F → Reply × Db F → Type 0
  Kept db result = (result.0 ≡ Reply.ok) ⊎ (result.1 ≡ db)

  request_changes-Kept :
      (now gen_id : ℕ) (reviewer : Text) (remark : Option Text) (db : Db F)
      → Kept db (request_changes now gen_id reviewer remark db)
  unfolding request_changes
  request_changes-Kept now gen_id reviewer remark db = ground arith

  set_owner-Kept :
      (gen_id : ℕ) (user_id : Option ℕ) (db : Db F) → Kept db (set_owner gen_id user_id db)
  unfolding set_owner
  set_owner-Kept gen_id user_id db = ground arith

  set_budget_pacing-Kept :
      (gen_id : ℕ) (months : List (ℕ × ℤ)) (by : Option Text) (db : Db F)
      → Kept db (set_budget_pacing gen_id months by db)
  unfolding set_budget_pacing
  set_budget_pacing-Kept gen_id months by db = ground arith

  set_ad_manager-Kept :
      (gen_id : ℕ) (name : Text) (db : Db F) → Kept db (set_ad_manager gen_id name db)
  unfolding set_ad_manager
  set_ad_manager-Kept gen_id name db = ground arith

  set_account-Kept :
      (gen_id : ℕ) (customer_id : Text) (db : Db F) → Kept db (set_account gen_id customer_id db)
  unfolding set_account
  set_account-Kept gen_id customer_id db = ground arith

  decide-Kept :
      (now gen_id : ℕ) (is_approved : Bool) (reviewer : Text) (remark : Option Text) (db : Db F)
      → Kept db (decide now gen_id is_approved reviewer remark db)
  unfolding decide
  decide-Kept now gen_id is_approved reviewer remark db = ground arith

module _ {F : Type 0} (out : Outside F) where
  -- A row that is saved with its token.
  ensured-TokenOnly :
      (gen_id : ℕ) (g : Generation F) (db : Db F)
      → get_row db.generations gen_id ≡ some g
      → (let e = ensure_token out g db in TokenOnly out db (save gen_id e.0.1 e.1))
  unfolding ensure_token
  ensured-TokenOnly gen_id g db found = elim (Bool-cases (has_token g)) [
    | inl has ↦
        rw (ensure_token, has)
          record {
            gen_id = gen_id;
            gen = g;
            token = g.approval_token;
            drawn = db.drawn;
            found = found;
            is_drawn = inl (refl, refl);
            after_is = refl;
          }
    | inr lacks ↦
        rw (ensure_token, lacks)
          record {
            gen_id = gen_id;
            gen = g;
            token = some (out.token_urlsafe db.drawn);
            drawn = db.drawn + 1;
            found = found;
            is_drawn = inr (lacks, (refl, refl));
            after_is = refl;
          }
  ]

  -- The request is done, or its mail was not sent and only a token is drawn, or nothing has changed.
  abbrev KeptOrDrawn : Db F → Reply × Db F → Type 0
  KeptOrDrawn db result =
      Kept db result ⊎ ((result.0 ≡ Reply.refused Reason.not_sent) × TokenOnly out db result.1)

  send_approval-KeptOrDrawn :
      (gen_id : ℕ) (to : List Text) (actor : Option Text) (db : Db F)
      → KeptOrDrawn db (send_approval out gen_id to actor db)
  unfolding send_approval
  send_approval-KeptOrDrawn gen_id to actor db =
      elim (Option-cases (get_row db.generations gen_id)) [
        | inl e ↦ rw (with_generation, e) (inl (inr refl))
        | inr (g, e) ↦
            let mail = Mail.approval_request gen_id (ensure_token out g db).0.0 to in
            elim (Bool-cases (out.send_email mail)) [
              | inl sent ↦ rw (with_generation, e, sent) (inl (inl refl))
              | inr failed ↦
                  rw (with_generation, e, failed) (inr (refl, ensured-TokenOnly gen_id g db e))
            ]
      ]

  approve_via_token-Kept :
      (now gen_id : ℕ) (token : Text) (reject : Bool) (remark reviewer : Option Text) (db : Db F)
      → Kept db (approve_via_token out now gen_id token reject remark reviewer db)
  unfolding approve_via_token
  approve_via_token-Kept now gen_id token reject remark reviewer db = ground arith

module _ {F : Type 0} ⦃fl : FloatOps F⦄ where
  set_override-Kept :
      (now gen_id : ℕ) (field : Text) (value : Setting F) (by : Option Text) (db : Db F)
      → Kept db (set_override now gen_id field value by db)
  unfolding set_override
  set_override-Kept now gen_id field value by db = ground arith

module _ {F : Type 0} ⦃fl : FloatOps F⦄ (out : Outside F) where
  submit-Kept :
      (now gen_id : ℕ) (actor : Option Text) (auto_send : Bool) (submitter : Option ℕ) (db : Db F)
      → Kept db (submit out now gen_id actor auto_send submitter db)
  unfolding submit
  submit-Kept now gen_id actor auto_send submitter db = ground arith

  perform-KeptOrDrawn : (a : Action F) (db : Db F) → KeptOrDrawn out db (perform out a db)
  perform-KeptOrDrawn (Action.submitting now gen_id actor auto_send submitter) db =
      inl (submit-Kept now gen_id actor auto_send submitter db)
  perform-KeptOrDrawn (Action.asking now gen_id reviewer remark) db =
      inl (request_changes-Kept now gen_id reviewer remark db)
  perform-KeptOrDrawn (Action.naming gen_id name) db = inl (set_ad_manager-Kept gen_id name db)
  perform-KeptOrDrawn (Action.owning gen_id user_id) db = inl (set_owner-Kept gen_id user_id db)
  perform-KeptOrDrawn (Action.placing gen_id customer_id) db =
      inl (set_account-Kept gen_id customer_id db)
  perform-KeptOrDrawn (Action.following now gen_id token reject remark reviewer) db =
      inl (approve_via_token-Kept out now gen_id token reject remark reviewer db)
  perform-KeptOrDrawn (Action.deciding now gen_id is_approved reviewer remark) db =
      inl (decide-Kept now gen_id is_approved reviewer remark db)
  perform-KeptOrDrawn (Action.overriding now gen_id field value by) db =
      inl (set_override-Kept now gen_id field value by db)
  perform-KeptOrDrawn (Action.pacing gen_id months by) db =
      inl (set_budget_pacing-Kept gen_id months by db)
  perform-KeptOrDrawn (Action.resending gen_id to actor) db =
      send_approval-KeptOrDrawn out gen_id to actor db

  -- A request that is refused for another reason than that its mail was not sent changes nothing. One
  -- whose mail was not sent leaves everything as it was, the log, the status and the outbox too, but for
  -- the token of one row: it has the token that it had, or, where it had none, the next one drawn.
  pub perform-refused :
      (a : Action F) (db : Db F) (reason : Reason)
      → (perform out a db).0 ≡ Reply.refused reason
      → ((perform out a db).1 ≡ db)
        ⊎ ((reason ≡ Reason.not_sent) × TokenOnly out db (perform out a db).1)
  perform-refused a db reason h = elim (perform-KeptOrDrawn a db) [
    | inl (inl done) ↦ ground (arith, done, h)
    | inl (inr kept) ↦ inl kept
    | inr (unsent, drawn) ↦ inr (ground (arith, h, unsent), drawn)
  ]
