-- ===== src/Tests/Auth.antt =====
-- Sign-in and the guards at concrete users.
use google_ads_intelligence.Auth.Guards.{verify_campaign_access}
use google_ads_intelligence.Auth.Guards.Campaigns.{
  Permitted, subject, verify_campaign_access-Permitted,
}
use google_ads_intelligence.Base.{Option, ℕ}
use google_ads_intelligence.Base.{refl, true, false, none, some, [], ◌∷◌, arith}
use google_ads_intelligence.Base.Dict.{Table}
use google_ads_intelligence.Base.Text.{codes}
use google_ads_intelligence.Auth.Users.{
  UserRole, User, GoogleIdentity, Access, upsert_from_google, allowed_account_ids,
}
use google_ads_intelligence.Auth.Users.Laws.{Outcome, upsert_from_google-Outcome}
use google_ads_intelligence.Auth.Guards.{
  CurrentUser, OpsFilters, get_current_user, get_ops_filters, verify_account_access,
  assert_account_allowed,
}
use google_ads_intelligence.Auth.Guards.Scope.{
  Principal, get_current_user-Principal, Filtered, get_ops_filters-Principal,
}

abbrev dana : User
dana = record {
  email = codes "dana@example.org";
  full_name = none;
  role = UserRole.manager;
  google_sub = none;
  picture = none;
  is_active = true;
  last_login_at = none;
}

abbrev users : Table User
users = record { next_id = 4; rows = (3, dana) ∷ [] }

-- Dana has a grant for account 7 and owns a generation of account 9.
abbrev access : Access
access = record { user_accounts = (3, 7) ∷ (2, 8) ∷ []; generations = (some 3, some 9) ∷ [] }

abbrev principal : CurrentUser
principal = record {
  id = 3;
  email = codes "dana@example.org";
  role = UserRole.manager;
  allowed_account_ids = some (7 ∷ 9 ∷ []);
  is_synthetic = false;
}

abbrev filters : OpsFilters
filters = record { account_id = some 9; days = 30; start = none; end = none }

get_current_user-Principal_example : Principal (some 3) users access principal
unfolding get_current_user allowed_account_ids
get_current_user-Principal_example = get_current_user-Principal (some 3) users access principal refl

get_ops_filters-Principal_example : Filtered (some 3) users access principal filters
unfolding get_current_user allowed_account_ids get_ops_filters verify_account_access
    assert_account_allowed
get_ops_filters-Principal_example =
    get_ops_filters-Principal (some 3) users access principal (some 9) 30 none none filters refl
      refl

abbrev identity : GoogleIdentity
identity = record {
  sub = codes "sub-1";
  email = codes "Dana@Example.org";
  email_verified = true;
  name = some (codes "Dana");
  picture = none;
}

upsert_from_google-Outcome_example :
    Outcome 50 identity
      (codes "example.org" ∷ [])
      []
      users
      (upsert_from_google 50 identity (codes "example.org" ∷ []) [] users)
upsert_from_google-Outcome_example =
    upsert_from_google-Outcome 50 identity (codes "example.org" ∷ []) [] users (omega arith, tt)

abbrev owners : ℕ → Option ℕ
owners campaign = some 9

verify_campaign_access-Permitted_example :
    Permitted (some 3) users access principal (subject owners (some 31) none)
unfolding get_current_user allowed_account_ids verify_campaign_access
verify_campaign_access-Permitted_example =
    verify_campaign_access-Permitted (some 3) users access principal principal owners (some 31) none
      refl refl
