-- ===== src/Auth/Users.antt =====
-- app/models/user.py and app/services/auth/users.py: the users, their account grants, and the sign-in
-- policy.
pub mod Laws
use google_ads_intelligence.Base.{
  ℕ, ◌+◌, Bool, true, false, not, ◌&&◌, ◌||◌, Option, none, some, List, [], ◌∷◌, ◌++◌, ◌==◌, keep,
  map, if◌then◌else◌, ◌⊎◌, inl, inr, or_else,
}
use google_ads_intelligence.Base.Eq.{◌=?◌, nat_eq, list_eq, option_eq, mem}
use google_ads_intelligence.Base.Dict.{Dict, Table, get_row, add_row, set_row, erase}
use google_ads_intelligence.Base.Index.{find_by}
use google_ads_intelligence.Base.Text.{Text, lower, after_last, is_nonempty}

-- UserRole
pub data UserRole : Type 0 where
  admin manager analyst viewer : UserRole

abbrev pub is_admin_role : UserRole → Bool
is_admin_role admin = true
is_admin_role _ = false

-- User
pub record User : Type 0 where
  pub email : Text
  pub full_name : Option Text
  pub role : UserRole
  pub google_sub : Option Text
  pub picture : Option Text
  pub is_active : Bool
  pub last_login_at : Option ℕ

-- GoogleIdentity
pub record GoogleIdentity : Type 0 where
  pub sub : Text
  pub email : Text
  pub email_verified : Bool
  pub name : Option Text
  pub picture : Option Text

-- The rows that give a user access: (user_id, account_id) of user_accounts, and (owner_user_id,
-- account_id) of ad_copy_generations.
pub record Access : Type 0 where
  pub user_accounts : List (ℕ × ℕ)
  pub generations : List (Option ℕ × Option ℕ)

-- The messages of PermissionError.
pub data SignInError : Type 0 where
  not_verified not_allowed restricted : SignInError

abbrev pub is_nonempty_list : List Text → Bool
is_nonempty_list [] = false
is_nonempty_list (_ ∷ _) = true

-- The checks of `upsert_from_google`.
unfoldable pub check_policy : GoogleIdentity → List Text → List Text → Option SignInError
check_policy identity allowed_domains admin_emails =
    let email = lower identity.email in
    let is_admin = mem email admin_emails in
    if not identity.email_verified
    then some SignInError.not_verified
    else if not is_admin
        && (is_nonempty_list allowed_domains && not (mem (after_last 64 email) allowed_domains))
    then some SignInError.not_allowed
    else if not is_admin && not (is_nonempty_list allowed_domains)
    then some SignInError.restricted
    else none

-- The user with the Google id, else with the email.
unfoldable pub find_user : Text → Text → Dict ℕ User → Option (ℕ × User)
find_user sub email users = elim (find_by (λ u. u.google_sub) (some sub) users) [
  | some x ↦ some x
  | none ↦ find_by (λ u. u.email) email users
]

-- `a or b` for strings that may be None.
abbrev pub or_option : Option Text → Option Text → Option Text
or_option none b = b
or_option (some a) b = if is_nonempty a then some a else b

-- The user that a first sign-in makes.
abbrev pub new_user : GoogleIdentity → Text → Bool → ℕ → User
new_user identity email is_admin now = record {
  email = email;
  full_name = identity.name;
  role = if is_admin then UserRole.admin else UserRole.manager;
  google_sub = some identity.sub;
  picture = identity.picture;
  is_active = true;
  last_login_at = some now;
}

-- What a later sign-in changes.
abbrev pub signed_in : GoogleIdentity → Text → Bool → ℕ → User → User
signed_in identity email is_admin now user = record {
  email = email;
  full_name = or_option identity.name user.full_name;
  role = if is_admin then UserRole.admin else user.role;
  google_sub = some identity.sub;
  picture = or_option identity.picture user.picture;
  is_active = user.is_active;
  last_login_at = some now;
}

-- AuthUserService.upsert_from_google
unfoldable pub upsert_from_google :
    ℕ
    → GoogleIdentity
    → List Text
    → List Text
    → Table User
    → SignInError ⊎ ((ℕ × User) × Table User)
upsert_from_google now identity allowed_domains admin_emails users =
    elim (check_policy identity allowed_domains admin_emails) [
      | some error ↦ inl error
      | none ↦
          let email = lower identity.email in
          let is_admin = mem email admin_emails in
          elim (find_user identity.sub email users.rows) [
            | none ↦
                let user = new_user identity email is_admin now in
                inr ((users.next_id, user), add_row user users)
            | some (id, old) ↦
                let user = signed_in identity email is_admin now old in
                inr ((id, user), set_row id user users)
          ]
    ]

-- The accounts of the grants of a user.
abbrev pub granted : ℕ → List (ℕ × ℕ) → List ℕ
granted id [] = []
granted id ((user, account) ∷ rows) =
    let rest = granted id rows in if user == id then account ∷ rest else rest

-- The accounts of the generations that a user owns.
abbrev pub owned : ℕ → List (Option ℕ × Option ℕ) → List ℕ
owned id [] = []
owned id ((some owner, some account) ∷ rows) =
    let rest = owned id rows in if owner == id then account ∷ rest else rest
owned id ((none, account) ∷ rows) = owned id rows
owned id ((some owner, none) ∷ rows) = owned id rows

-- AuthUserService.allowed_account_ids; a set is a list of its members.
unfoldable pub allowed_account_ids : ℕ → User → Access → Option (List ℕ)
allowed_account_ids id user access =
    if is_admin_role user.role
    then none
    else some (granted id access.user_accounts ++ owned id access.generations)

-- AuthUserService.set_role, for the roles that it accepts; none where the role is refused.
unfoldable pub set_role : ℕ → UserRole → Table User → Option (Option User × Table User)
set_role id analyst users = none
set_role id viewer users = none
set_role id role users = some (elim (get_row users id) [
  | none ↦ (none, users)
  | some user ↦
      let user' : User = record user { role = role } in (some user', set_row id user' users)
])

-- AuthUserService.set_active
unfoldable pub set_active : ℕ → Bool → Table User → Option User × Table User
set_active id is_active users = elim (get_row users id) [
  | none ↦ (none, users)
  | some user ↦
      let user' : User = record user { is_active = is_active } in
      (some user', set_row id user' users)
]

-- AuthUserService.delete_user: the grants go with the user, the generations keep no owner.
unfoldable pub delete_user : ℕ → Table User → Access → Bool × (Table User × Access)
delete_user id users access = elim (get_row users id) [
  | none ↦ (false, (users, access))
  | some user ↦ (
    true,
    (
      record users { rows = erase id users.rows },
      record {
        user_accounts = keep (λ x. not (x.0 == id)) access.user_accounts;
        generations = map (λ x. (if x.0 =? some id then none else x.0, x.1)) access.generations;
      },
    ),
  )
]

-- AuthUserService.set_accounts; `valid` are the accounts asked for that exist and are no managers.
unfoldable pub set_accounts : ℕ → List ℕ → Table User → Access → Option User × Access
set_accounts id valid users access = elim (get_row users id) [
  | none ↦ (none, access)
  | some user ↦ (
    some user,
    record access {
      user_accounts =
          keep (λ x. not (x.0 == id)) access.user_accounts ++ map (λ account. (id, account)) valid;
    },
  )
]
