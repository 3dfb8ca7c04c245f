-- ===== src/Auth/Guards/Campaigns.antt =====
-- verify_campaign_access: a campaign that passes is one of an account that the user may see.
use google_ads_intelligence.Base.{
  ℕ, ◌≡◌, sym, ◌∙◌, true, not, Option, none, some, is_some, arith, inr,
}
use google_ads_intelligence.Base.Eq.{nat_eq}
use google_ads_intelligence.Base.Dict.{Table}
use google_ads_intelligence.Auth.Users.{is_admin_role, User, Access}
use google_ads_intelligence.Auth.Guards.{
  CurrentUser, get_current_user, assert_account_allowed, verify_path_account_access,
  verify_campaign_access,
}
use google_ads_intelligence.Auth.Guards.Scope.{
  may_see, in_scope, Principal, get_current_user-Principal,
}

-- The account that a request is about, if it names one: the campaign's before its own.
abbrev pub subject : (ℕ → Option ℕ) → Option ℕ → Option ℕ → Option ℕ
subject owner_of (some campaign) account_id = owner_of campaign
subject owner_of none account_id = account_id

passes_campaign :
    (owner_of : ℕ → Option ℕ) (campaign : ℕ) (account_id : Option ℕ) (u v : CurrentUser)
    → is_some u.allowed_account_ids ≡ not (is_admin_role u.role)
    → verify_campaign_access owner_of (some campaign) account_id u ≡ inr v
    → (elim (owner_of campaign) [ none ↦ is_admin_role u.role | some account ↦ in_scope u account ])
      ≡ true
unfolding verify_campaign_access
passes_campaign owner_of campaign account_id u v l g = ground arith

passes_account :
    (owner_of : ℕ → Option ℕ) (account_id : Option ℕ) (u v : CurrentUser)
    → is_some u.allowed_account_ids ≡ not (is_admin_role u.role)
    → verify_campaign_access owner_of none account_id u ≡ inr v
    → (elim account_id [ none ↦ is_admin_role u.role | some account ↦ in_scope u account ]) ≡ true
unfolding verify_campaign_access verify_path_account_access assert_account_allowed
passes_account owner_of account_id u v l g = ground arith

-- What is known of a request that passed: its account is one that the user may see, and a user who is
-- no admin has named one.
pub record Permitted (uid : Option ℕ) (users : Table User) (access : Access) (u : CurrentUser)
    (account : Option ℕ) : Type 0 where
  pub principal : Principal uid users access u
  pub permitted :
      (elim account [ none ↦ is_admin_role u.role | some a ↦ may_see u.id principal.row access a ])
      ≡ true

known-Permitted :
    (uid : Option ℕ) (users : Table User) (access : Access) (u : CurrentUser) (account : Option ℕ)
    → Principal uid users access u
    → (elim account [ none ↦ is_admin_role u.role | some a ↦ in_scope u a ]) ≡ true
    → Permitted uid users access u account
known-Permitted uid users access u none known h = record { principal = known; permitted = h }
known-Permitted uid users access u (some a) known h = record {
  principal = known;
  permitted = sym (known.scope a) ∙ h;
}

-- A request that passes the guard of the campaign endpoints is about an account that the user of the
-- session may see: the account of the campaign that it names, or else the account that it names. A
-- user who is no admin has named one of them, and a campaign that is there. The conditions are that
-- sign-in is on and that the request passed.
pub verify_campaign_access-Permitted :
    (uid : Option ℕ) (users : Table User) (access : Access) (u v : CurrentUser)
    (owner_of : ℕ → Option ℕ) (campaign_id account_id : Option ℕ)
    → get_current_user true uid users access ≡ inr u
    → verify_campaign_access owner_of campaign_id account_id u ≡ inr v
    → Permitted uid users access u (subject owner_of campaign_id account_id)
verify_campaign_access-Permitted uid users access u v owner_of (some campaign) account_id h g =
    let known = get_current_user-Principal uid users access u h in
    known-Permitted uid users access u (owner_of campaign) known
      (passes_campaign owner_of campaign account_id u v known.limited g)
verify_campaign_access-Permitted uid users access u v owner_of none account_id h g =
    let known = get_current_user-Principal uid users access u h in
    known-Permitted uid users access u account_id known
      (passes_account owner_of account_id u v known.limited g)
