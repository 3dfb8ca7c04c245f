-- ===== src/Auth/Guards/Scope.antt =====
-- A request that passes the guards is within the access of a live user.
use google_ads_intelligence.Base.{
  ℕ, ◌≡◌, refl, sym, subst, ◌∙◌, Bool, true, false, not, ◌||◌, Option, none, some, is_some, List,
  [], ◌∷◌, ◌++◌, arith, ◌⊎◌, inl, inr, Option-cases, Bool-cases,
}
use google_ads_intelligence.Base.Eq.{nat_eq, mem}
use google_ads_intelligence.Base.Dict.{Table, get_row}
use google_ads_intelligence.Auth.Users.{
  is_admin_role, User, Access, allowed_account_ids, granted, owned,
}
use google_ads_intelligence.Auth.Guards.{
  HttpError, CurrentUser, principal_of, get_current_user, assert_account_allowed,
  verify_account_access, OpsFilters, get_ops_filters,
}

mem-append : (a : ℕ) (xs ys : List ℕ) → mem a (xs ++ ys) ≡ (mem a xs || mem a ys)
mem-append a [] ys = refl
mem-append a (x ∷ xs) ys = ground (arith, mem-append a xs ys)

-- Whether a user of the table may see an account: as an admin, by a grant, or by a generation.
abbrev pub may_see : ℕ → User → Access → ℕ → Bool
may_see id user access account =
    is_admin_role user.role
    || (mem account (granted id access.user_accounts) || mem account (owned id access.generations))

-- Whether the principal is within its account scope.
abbrev pub in_scope : CurrentUser → ℕ → Bool
in_scope user account = elim user.allowed_account_ids [
  | none ↦ true
  | some allowed ↦ mem account allowed
]

-- What is known of the principal of a request, where sign-in is on.
pub record Principal (uid : Option ℕ) (users : Table User) (access : Access) (u : CurrentUser)
    : Type 0 where
  pub row : User
  pub session : uid ≡ some u.id
  pub present : get_row users u.id ≡ some row
  pub active : row.is_active ≡ true
  pub role : u.role ≡ row.role
  pub limited : is_some u.allowed_account_ids ≡ not (is_admin_role u.role)
  pub scope : (account : ℕ) → in_scope u account ≡ may_see u.id row access account

allowed_limited :
    (id : ℕ) (user : User) (access : Access)
    → is_some (allowed_account_ids id user access) ≡ not (is_admin_role user.role)
unfolding allowed_account_ids
allowed_limited id user access = ground arith

passes_account :
    (account days : ℕ) (start end : Option ℕ) (u : CurrentUser) (f : OpsFilters)
    → is_some u.allowed_account_ids ≡ not (is_admin_role u.role)
    → get_ops_filters (some account) days start end u ≡ inr f
    → (f.account_id ≡ some account) × (in_scope u account ≡ true)
unfolding get_ops_filters verify_account_access assert_account_allowed
passes_account account days start end u f l g = ground arith

passes_all :
    (days : ℕ) (start end : Option ℕ) (u : CurrentUser) (f : OpsFilters)
    → is_some u.allowed_account_ids ≡ not (is_admin_role u.role)
    → get_ops_filters none days start end u ≡ inr f
    → (f.account_id ≡ none) × (is_admin_role u.role ≡ true)
unfolding get_ops_filters verify_account_access
passes_all days start end u f l g = ground arith

allowed-scope :
    (id : ℕ) (user : User) (access : Access) (account : ℕ)
    → (elim (allowed_account_ids id user access) [
      | none ↦ true
      | some allowed ↦ mem account allowed
    ])
      ≡ may_see id user access account
unfolding allowed_account_ids
allowed-scope id user access account =
    ground
      (arith, mem-append account (granted id access.user_accounts) (owned id access.generations))

inr_injective : {a b : CurrentUser} → Path (HttpError ⊎ CurrentUser) (inr a) (inr b) → a ≡ b
inr_injective h = cc

unknown_user :
    (id : ℕ) (users : Table User) (access : Access)
    → get_row users id ≡ none
    → get_current_user true (some id) users access ≡ inl HttpError.unauthorized
unfolding get_current_user
unknown_user id users access e = rw (e, get_current_user) refl

inactive_user :
    (id : ℕ) (users : Table User) (access : Access) (user : User)
    → get_row users id ≡ some user
    → user.is_active ≡ false
    → get_current_user true (some id) users access ≡ inl HttpError.unauthorized
unfolding get_current_user
inactive_user id users access user e h = rw (e, get_current_user) (rw h refl)

active_user :
    (id : ℕ) (users : Table User) (access : Access) (user : User)
    → get_row users id ≡ some user
    → user.is_active ≡ true
    → get_current_user true (some id) users access ≡ inr (principal_of id user access)
unfolding get_current_user
active_user id users access user e h = rw (e, get_current_user) (rw h refl)

absurd_principal :
    (id : ℕ) (users : Table User) (access : Access) (u : CurrentUser)
    → Path (HttpError ⊎ CurrentUser) (inr u) (inl HttpError.unauthorized)
    → Principal (some id) users access u
absurd_principal id users access u h = cc

-- What is known of filters that passed.
pub record Filtered (uid : Option ℕ) (users : Table User) (access : Access) (u : CurrentUser)
    (f : OpsFilters) : Type 0 where
  pub principal : Principal uid users access u
  pub permitted :
      elim f.account_id [
        | none ↦ is_admin_role u.role
        | some account ↦ may_see u.id principal.row access account
      ]
      ≡ true

-- Where sign-in is on, the principal of a request is the user of the verified session: the user is in
-- the table and active, and an account is in the principal's scope exactly if the user is an admin,
-- has a grant for it, or owns a generation of it. The condition is that the request got a principal.
pub get_current_user-Principal :
    (uid : Option ℕ) (users : Table User) (access : Access) (u : CurrentUser)
    → get_current_user true uid users access ≡ inr u
    → Principal uid users access u
unfolding get_current_user
get_current_user-Principal none users access u h = cc
get_current_user-Principal (some id) users access u h = elim (Option-cases (get_row users id)) [
  | inl e ↦ absurd_principal id users access u (sym h ∙ unknown_user id users access e)
  | inr (user, e) ↦ elim (Bool-cases user.is_active) [
    | inl active ↦
        subst (Principal (some id) users access)
          (inr_injective (sym (active_user id users access user e active) ∙ h))
          (record {
            row = user;
            session = refl;
            present = e;
            active = active;
            role = refl;
            limited = allowed_limited id user access;
            scope = allowed-scope id user access;
          })
    | inr inactive ↦
        absurd_principal id users access u (sym h ∙ inactive_user id users access user e inactive)
  ]
]

-- An account that passes the filters of the Command Center is one that the user of the session may
-- see, and a user who is no admin must name one. The conditions are that sign-in is on and that the
-- request passed.
pub get_ops_filters-Principal :
    (uid : Option ℕ) (users : Table User) (access : Access) (u : CurrentUser)
    (account_id : Option ℕ) (days : ℕ) (start end : Option ℕ) (f : OpsFilters)
    → get_current_user true uid users access ≡ inr u
    → get_ops_filters account_id days start end u ≡ inr f
    → Filtered uid users access u f
get_ops_filters-Principal uid users access u none days start end f h g =
    let known = get_current_user-Principal uid users access u h in
    let pass = passes_all days start end u f known.limited g in
    record { principal = known; permitted = rw pass.0 pass.1 }
get_ops_filters-Principal uid users access u (some account) days start end f h g =
    let known = get_current_user-Principal uid users access u h in
    let pass = passes_account account days start end u f known.limited g in
    record { principal = known; permitted = rw pass.0 (sym (known.scope account) ∙ pass.1) }
