-- ===== src/Auth/Guards.antt =====
-- app/api/deps.py: who makes a request, and the guards that scope a manager to accounts. The payload
-- that `verify` finds in the session cookie is an argument.
pub mod Scope
pub mod Campaigns
use google_ads_intelligence.Base.{
  ℕ, Bool, true, false, not, ◌&&◌, ◌||◌, Option, none, some, is_some, List, [], ◌∷◌, ltb,
  if◌then◌else◌, ◌⊎◌, inl, inr,
}
use google_ads_intelligence.Base.Eq.{◌=?◌, nat_eq, list_eq, mem, option_eq}
use google_ads_intelligence.Base.Dict.{Dict, Table, get_row}
use google_ads_intelligence.Base.Text.{Text, codes, is_nonempty}
use google_ads_intelligence.Auth.Users.{
  UserRole, admin, manager, analyst, viewer, is_admin_role, User, Access, allowed_account_ids,
}

-- The HTTP errors that the guards raise.
pub data HttpError : Type 0 where
  bad_request unauthorized forbidden : HttpError

-- CurrentUser
pub record CurrentUser : Type 0 where
  pub id : ℕ
  pub email : Text
  pub role : UserRole
  pub allowed_account_ids : Option (List ℕ)
  pub is_synthetic : Bool

-- _SYNTHETIC_ADMIN
abbrev pub synthetic_admin : CurrentUser
synthetic_admin = record {
  id = 0;
  email = codes "team@local";
  role = UserRole.admin;
  allowed_account_ids = none;
  is_synthetic = true;
}

-- The principal of a row.
abbrev pub principal_of : ℕ → User → Access → CurrentUser
principal_of id user access = record {
  id = id;
  email = user.email;
  role = user.role;
  allowed_account_ids = allowed_account_ids id user access;
  is_synthetic = false;
}

-- get_current_user; `uid` is that of the verified session, if there is one.
unfoldable pub get_current_user : Bool → Option ℕ → Table User → Access → HttpError ⊎ CurrentUser
get_current_user auth_enabled uid users access =
    if not auth_enabled then inr synthetic_admin else elim uid [
      | none ↦ inl HttpError.unauthorized
      | some id ↦ elim (get_row users id) [
        | none ↦ inl HttpError.unauthorized
        | some user ↦
            if not user.is_active
            then inl HttpError.unauthorized
            else inr (principal_of id user access)
      ]
    ]

-- require_admin
unfoldable pub require_admin : CurrentUser → HttpError ⊎ CurrentUser
require_admin user = if is_admin_role user.role then inr user else inl HttpError.forbidden

-- _assert_account_allowed: the error that it raises.
unfoldable pub assert_account_allowed : Option ℕ → CurrentUser → Option HttpError
assert_account_allowed account_id user =
    if is_admin_role user.role then none else elim user.allowed_account_ids [
      | none ↦ none
      | some allowed ↦ elim account_id [
        | none ↦ none
        | some account ↦ if mem account allowed then none else some HttpError.forbidden
      ]
    ]

-- verify_account_access, and the guard of `get_ops_filters`, which is the same.
unfoldable pub verify_account_access : Option ℕ → CurrentUser → HttpError ⊎ CurrentUser
verify_account_access account_id user =
    if not (is_admin_role user.role) && is_some user.allowed_account_ids
    then elim account_id [
      | none ↦ inl HttpError.bad_request
      | some account ↦ elim (assert_account_allowed (some account) user) [
        | none ↦ inr user
        | some error ↦ inl error
      ]
    ]
    else inr user

-- OpsFilters
pub record OpsFilters : Type 0 where
  pub account_id : Option ℕ
  pub days : ℕ
  pub start : Option ℕ
  pub end : Option ℕ

-- get_ops_filters
unfoldable pub get_ops_filters :
    Option ℕ → ℕ → Option ℕ → Option ℕ → CurrentUser → HttpError ⊎ OpsFilters
get_ops_filters account_id days start end user =
    let filters : OpsFilters = record {
      account_id = account_id;
      days = days;
      start = start;
      end = end;
    } in
    elim (verify_account_access account_id user) [ inl error ↦ inl error | inr user ↦ inr filters ]

-- verify_path_account_access
unfoldable pub verify_path_account_access : ℕ → CurrentUser → HttpError ⊎ CurrentUser
verify_path_account_access account_id user = elim (assert_account_allowed (some account_id) user) [
  | none ↦ inr user
  | some error ↦ inl error
]

-- verify_campaign_access; `owner_of` gives the account of a campaign.
unfoldable pub verify_campaign_access :
    (ℕ → Option ℕ) → Option ℕ → Option ℕ → CurrentUser → HttpError ⊎ CurrentUser
verify_campaign_access owner_of campaign_id account_id user =
    if is_admin_role user.role then inr user else elim user.allowed_account_ids [
      | none ↦ inr user
      | some allowed ↦ elim campaign_id [
        | some campaign ↦ elim (owner_of campaign) [
          | none ↦ inl HttpError.forbidden
          | some owner ↦ if mem owner allowed then inr user else inl HttpError.forbidden
        ]
        | none ↦ elim account_id [
          | some account ↦ verify_path_account_access account user
          | none ↦ inl HttpError.bad_request
        ]
      ]
    ]

-- The ranks of `_ROLE_RANK`.
abbrev pub role_rank : UserRole → ℕ
role_rank analyst = 0
role_rank viewer = 0
role_rank manager = 1
role_rank admin = 2

-- require_role
unfoldable pub require_role : UserRole → UserRole → HttpError ⊎ UserRole
require_role minimum role =
    if ltb (role_rank role) (role_rank minimum) then inl HttpError.forbidden else inr role

-- require_api_key: the error that it raises.
unfoldable pub require_api_key : Option Text → Text → Option HttpError
require_api_key x_api_key api_key =
    if is_nonempty api_key && not (x_api_key =? some api_key)
    then some HttpError.unauthorized
    else none
