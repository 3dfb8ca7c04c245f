-- ===== src/Auth/Users/Laws.antt =====
-- What a sign-in that succeeds says of the identity, and what it changes.
use google_ads_intelligence.Base.{
  ℕ, ◌≡◌, refl, sym, subst, ap, ◌∙◌, Bool, true, false, ◌||◌, Option, none, some, List, [], ◌∷◌,
  ◌==◌, arith, if◌then◌else◌, ◌⊎◌, inl, inr, Option-cases,
}
use google_ads_intelligence.Base.Eq.{nat_eq, list_eq, mem, beq_refl}
use google_ads_intelligence.Base.Dict.{
  Table, get_row, AllBelow, lookup-append_new, lookup-insert_self, lookup-insert_ne, add_row,
  set_row,
}
use google_ads_intelligence.Base.Text.{Text, lower, after_last}
use google_ads_intelligence.Auth.Users.{
  UserRole, User, GoogleIdentity, SignInError, check_policy, find_user, new_user, signed_in,
  upsert_from_google,
}

check_policy-permits :
    (identity : GoogleIdentity) (domains admins : List Text)
    → check_policy identity domains admins ≡ none
    → (identity.email_verified ≡ true)
      × ((mem (lower identity.email) admins || mem (after_last 64 (lower identity.email)) domains)
          ≡ true)
unfolding check_policy
check_policy-permits identity [] admins h = ground arith
check_policy-permits identity (d ∷ domains) admins h = ground arith

-- The role and the state of activity that a sign-in leaves.
abbrev pub role_after : Bool → Option (ℕ × User) → UserRole
role_after is_admin none = if is_admin then UserRole.admin else UserRole.manager
role_after is_admin (some x) = if is_admin then UserRole.admin else x.1.role

abbrev pub active_after : Option (ℕ × User) → Bool
active_after none = true
active_after (some x) = x.1.is_active

pub record SignedIn (identity : GoogleIdentity) (domains admins : List Text)
    (before after : Table User) (id : ℕ) (user : User) : Type 0 where
  pub verified : identity.email_verified ≡ true
  pub permitted :
      (mem (lower identity.email) admins || mem (after_last 64 (lower identity.email)) domains)
      ≡ true
  pub stored : get_row after id ≡ some user
  pub others : (k : ℕ) → (k == id) ≡ false → get_row after k ≡ get_row before k
  pub role :
      user.role
      ≡ role_after
          (mem (lower identity.email) admins)
          (find_user identity.sub (lower identity.email) before.rows)
  pub active :
      user.is_active ≡ active_after (find_user identity.sub (lower identity.email) before.rows)

module _ (now : ℕ) (identity : GoogleIdentity) (domains admins : List Text)
    (users : Table User) where
  abbrev email : Text
  email = lower identity.email

  abbrev is_admin : Bool
  is_admin = mem email admins

  first_sign_in :
      check_policy identity domains admins ≡ none
      → find_user identity.sub email users.rows ≡ none
      → upsert_from_google now identity domains admins users ≡ (
          let user = new_user identity email is_admin now in
          inr ((users.next_id, user), add_row user users))
  unfolding upsert_from_google
  first_sign_in p e = rw (p, upsert_from_google) (rw e refl)

  later_sign_in :
      (x : ℕ × User)
      → check_policy identity domains admins ≡ none
      → find_user identity.sub email users.rows ≡ some x
      → upsert_from_google now identity domains admins users ≡ (
          let user = signed_in identity email is_admin now x.1 in
          inr ((x.0, user), set_row x.0 user users))
  unfolding upsert_from_google
  later_sign_in x p e = rw (p, upsert_from_google) (rw e refl)

  refused_sign_in :
      (error : SignInError)
      → check_policy identity domains admins ≡ some error
      → upsert_from_google now identity domains admins users ≡ inl error
  unfolding upsert_from_google
  refused_sign_in error p = rw (p, upsert_from_google) refl

  first-SignedIn :
      check_policy identity domains admins ≡ none
      → find_user identity.sub email users.rows ≡ none
      → AllBelow users.next_id users.rows
      → (let user = new_user identity email is_admin now in
          SignedIn identity domains admins users (add_row user users) users.next_id user)
  first-SignedIn p e h =
      let policy = check_policy-permits identity domains admins p in
      let user = new_user identity email is_admin now in
      record {
        verified = policy.0;
        permitted = policy.1;
        stored =
            lookup-append_new users.next_id user users.next_id users.rows h
            ∙ ap (λ b. if b then some user else get_row users users.next_id)
                (beq_refl users.next_id);
        others = λ k hk.
            lookup-append_new users.next_id user k users.rows h
            ∙ ap (λ b. if b then some user else get_row users k) hk;
        role = ap (role_after is_admin) (sym e);
        active = ap active_after (sym e);
      }

  later-SignedIn :
      (x : ℕ × User)
      → check_policy identity domains admins ≡ none
      → find_user identity.sub email users.rows ≡ some x
      → (let user = signed_in identity email is_admin now x.1 in
          SignedIn identity domains admins users (set_row x.0 user users) x.0 user)
  later-SignedIn x p e =
      let policy = check_policy-permits identity domains admins p in
      let user = signed_in identity email is_admin now x.1 in
      record {
        verified = policy.0;
        permitted = policy.1;
        stored = lookup-insert_self x.0 user users.rows;
        others = λ k hk. lookup-insert_ne k x.0 user users.rows hk;
        role = ap (role_after is_admin) (sym e);
        active = ap active_after (sym e);
      }

  -- What the result of a sign-in says: nothing where it was refused.
  abbrev pub Outcome : SignInError ⊎ ((ℕ × User) × Table User) → Type 0
  Outcome (inl error) = check_policy identity domains admins ≡ some error
  Outcome (inr ((id, user), after)) = SignedIn identity domains admins users after id user

  -- A sign-in is refused exactly with the error of the policy. One that succeeds has a verified
  -- email, which is on the admin list or on an allowed domain; the user that it returns is stored,
  -- no other user changes, the role is admin for one on the admin list and else stays what it was, or
  -- is manager for a new user, and a user that was deactivated stays so. The condition is that the ids
  -- of the users are below the next one.
  pub upsert_from_google-Outcome :
      AllBelow users.next_id users.rows
      → Outcome (upsert_from_google now identity domains admins users)
  upsert_from_google-Outcome h = elim (Option-cases (check_policy identity domains admins)) [
    | inr (error, p) ↦ subst Outcome (sym (refused_sign_in error p)) p
    | inl p ↦ elim (Option-cases (find_user identity.sub email users.rows)) [
      | inl e ↦ subst Outcome (sym (first_sign_in p e)) (first-SignedIn p e h)
      | inr (x, e) ↦ subst Outcome (sym (later_sign_in x p e)) (later-SignedIn x p e)
    ]
  ]
