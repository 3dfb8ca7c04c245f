-- ===== src/Approval/Audit.antt =====
-- The event log of a strategy accounts for its status: the status after any operations is the one
-- before them, replayed over the events that they logged.
pub mod Writes
pub mod Edits
pub mod Runs
use google_ads_intelligence.Base.{
  ℕ, ◌≡◌, refl, sym, subst, ap, ◌∙◌, Bool, true, false, Option, none, some, List, [], ◌∷◌, ◌++◌,
  ◌⊎◌, inl, inr, if◌then◌else◌, ◌==◌, ==_iff, Bool-cases, Option-cases, arith,
}
use google_ads_intelligence.Base.Eq.{nat_eq, beq_refl}
use google_ads_intelligence.Base.Dict.{
  Dict, Table, get_row, set_row, lookup-insert_self, lookup-insert_ne,
}
use google_ads_intelligence.Base.Text.{Text}
use google_ads_intelligence.Approval.Workflow.{
  Status, Event, Note, ApprovalEvent, Generation, Db, Reply, Reason, is_decided, save, add_event,
  has_token, with_generation,
}
use google_ads_intelligence.Approval.Workflow

-- What an event says of the status.
abbrev pub status_after : Event → Status → Status
status_after Event.submitted s = Status.submitted
status_after Event.approved s = Status.approved
status_after Event.rejected s = Status.rejected
status_after Event.changes_requested s = Status.changes_requested
status_after Event.edited s = if is_decided s then Status.draft else s
status_after Event.budget_pacing_edited s = Status.draft
status_after Event.ad_manager_set s = s
status_after Event.owner_set s = s
status_after Event.owner_cleared s = s
status_after Event.account_set s = s
status_after Event.emailed s = s

module _ {F : Type 0} where
  -- The status by the log.
  abbrev pub replay : ℕ → List (ApprovalEvent F) → Status → Status
  replay id [] s = s
  replay id (e ∷ es) s = replay id es (if e.generation_id == id then status_after e.event s else s)

  replay-append :
      (id : ℕ) (xs ys : List (ApprovalEvent F)) (s : Status)
      → replay id (xs ++ ys) s ≡ replay id ys (replay id xs s)
  replay-append id [] ys s = refl
  replay-append id (x ∷ xs) ys s = replay-append id xs ys _

  -- A token stays once there is one.
  abbrev pub KeepsToken : Generation F → Generation F → Type 0
  KeepsToken g g' = (has_token g ≡ false) ⊎ (g'.approval_token ≡ g.approval_token)

  -- How a generation may change while `news` are logged.
  abbrev pub Follows :
      ℕ → List (ApprovalEvent F) → Option (Generation F) → Option (Generation F) → Type 0
  Follows id news none none = Unit
  Follows id news none (some g') = true ≡ false
  Follows id news (some g) none = true ≡ false
  Follows id news (some g) (some g') =
      (g'.approval_status ≡ replay id news g.approval_status) × KeepsToken g g'

  -- What becomes of a generation: the log only grows, and accounts for its status.
  pub record Traced (id : ℕ) (before after : Db F) : Type 0 where
    pub news : List (ApprovalEvent F)
    pub log : after.events ≡ before.events ++ news
    pub row : Follows id news (get_row before.generations id) (get_row after.generations id)

  pub append_nil : (xs : List (ApprovalEvent F)) → xs ++ [] ≡ xs
  append_nil [] = refl
  append_nil (x ∷ xs) = ap (λ l. x ∷ l) (append_nil xs)

  append_assoc : (xs ys zs : List (ApprovalEvent F)) → (xs ++ ys) ++ zs ≡ xs ++ (ys ++ zs)
  append_assoc [] ys zs = refl
  append_assoc (x ∷ xs) ys zs = ap (λ l. x ∷ l) (append_assoc xs ys zs)

  pub KeepsToken-trans : (f g h : Generation F) → KeepsToken f g → KeepsToken g h → KeepsToken f h
  KeepsToken-trans f g h (inl e) k = inl e
  KeepsToken-trans f g h (inr e) (inr k) = inr (k ∙ e)
  KeepsToken-trans f g h (inr e) (inl k) = inl (ground (arith, e, k))

  Follows_trans :
      (id : ℕ) (xs ys : List (ApprovalEvent F)) (a b c : Option (Generation F))
      → Follows id xs a b
      → Follows id ys b c
      → Follows id (xs ++ ys) a c
  Follows_trans id xs ys none none none h k = tt
  Follows_trans id xs ys none none (some c) h k = k
  Follows_trans id xs ys none (some b) none h k = tt
  Follows_trans id xs ys none (some b) (some c) h k = h
  Follows_trans id xs ys (some a) none none h k = h
  Follows_trans id xs ys (some a) none (some c) h k = cc
  Follows_trans id xs ys (some a) (some b) none h k = k
  Follows_trans id xs ys (some a) (some b) (some c) h k = (
    k.0 ∙ ap (replay id ys) h.0 ∙ sym (replay-append id xs ys a.approval_status),
    KeepsToken-trans a b c h.1 k.1,
  )

  pub Traced-trans : (id : ℕ) (x y z : Db F) → Traced id x y → Traced id y z → Traced id x z
  Traced-trans id x y z p q = record {
    news = p.news ++ q.news;
    log = q.log ∙ ap (λ l. l ++ q.news) p.log ∙ append_assoc x.events p.news q.news;
    row = Follows_trans id p.news q.news _ _ _ p.row q.row;
  }

  -- Events that say nothing of the status leave a generation that stays as it is.
  pub Follows_same :
      (id : ℕ) (news : List (ApprovalEvent F)) (a : Option (Generation F))
      → ((s : Status) → replay id news s ≡ s)
      → Follows id news a a
  Follows_same id news none h = tt
  Follows_same id news (some g) h = (sym (h g.approval_status), inr refl)

  -- The tables of the strategies and of the events stay.
  pub Traced-same :
      (id : ℕ) (x y : Db F) → y.generations ≡ x.generations → y.events ≡ x.events → Traced id x y
  Traced-same id x y g e = record {
    news = [];
    log = e ∙ sym (append_nil x.events);
    row = rw g (Follows_same id [] (get_row x.generations id) (λ s. refl));
  }

  pub Traced-refl : (id : ℕ) (x : Db F) → Traced id x x
  Traced-refl id x = Traced-same id x x refl refl
