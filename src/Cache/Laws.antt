-- ===== src/Cache/Laws.antt =====
-- The cache stays within its capacity, drops the entry that expires first, and serves a value until
-- it expires.
use google_ads_intelligence.Base.{
  ℕ, ◌+◌, ◌≤◌, ◌<◌, ◌≡◌, refl, sym, subst, ◌∙◌, true, Option, none, some, [], ◌∷◌, length, ltb, leb,
  if◌then◌else◌, arith, Option-cases, Bool-cases, ◌⊎◌, inl, inr,
}
use google_ads_intelligence.Base.Eq.{list_eq, nat_eq, ◌=?◌, list_beq_iff}
use google_ads_intelligence.Base.Dict.{
  Dict, lookup, erase, HasUniqueKeys, insert-HasUniqueKeys, erase-HasUniqueKeys, length-insert,
  length-erase, lookup-insert_self, lookup-insert_ne, lookup-erase_ne,
}
use google_ads_intelligence.Base.Text.{Text}
use google_ads_intelligence.Cache.{TtlCache, effective_ttl, get, set, get_or_set, evict, put}
use google_ads_intelligence.Cache.Eviction.{oldest_lem, AllFrom}

-- There is room for something, the store fits, and no key stands twice.
pub record IsValid {V : Type 0} (c : TtlCache V) : Type 0 where
  pub has_room : 0 < c.max_size
  pub fits : length c.store ≤ c.max_size
  pub unique : HasUniqueKeys c.store

-- What eviction leaves: a store with a free place, from which at most one key is gone, and no entry
-- of the old store expires before that key's.
pub record Evicted {V : Type 0} (c c' : TtlCache V) : Type 0 where
  pub room : length c'.store < c.max_size
  pub unique : HasUniqueKeys c'.store
  pub same_size : c'.max_size ≡ c.max_size
  pub same_ttl : c'.default_ttl ≡ c.default_ttl
  pub others :
      (j : Text)
      → (lookup j c'.store ≡ lookup j c.store)
        ⊎ ((u : ℕ) × (v : V) × (lookup j c.store ≡ some (u, v))
            × (length c.store ≡ c.max_size)
            × AllFrom u c.store)

-- The outcome of storing `v` under `k` in `c`: `c'` is valid, serves the value until its lifetime is
-- over and not from then on, and serves any other key as `c` does, unless `c` was full and held no
-- entry that expires before that key's.
pub record Stored {V : Type 0} (now : ℕ) (k : Text) (v : V) (ttl : Option ℕ) (c c' : TtlCache V)
    : Type 0 where
  pub valid : IsValid c'
  pub reads :
      (t : ℕ)
      → (get t k c').0 ≡ (if ltb t (now + effective_ttl ttl c.default_ttl) then some v else none)
  pub others :
      (t : ℕ) (j : Text)
      → ((j =? k) ≡ true)
        ⊎ (((get t j c').0 ≡ (get t j c).0)
            ⊎ ((u : ℕ) × (w : V) × (lookup j c.store ≡ some (u, w))
                × (length c.store ≡ c.max_size)
                × AllFrom u c.store))

-- The outcome of `get_or_set`: a hit serves the live entry and leaves the world alone; a miss calls
-- the producer once and stores its value.
pub data Served {V S : Type 0} (now later : ℕ) (k : Text) (producer : S → V × S) (ttl : Option ℕ)
    (c : TtlCache V) (s : S) : Option (V × TtlCache V × S) → Type 0 where
  hit :
      (v : V)
      → (get now k c).0 ≡ some v
      → IsValid (get now k c).1
      → Served now later k producer ttl c s (some (v, (get now k c).1, s))
  miss :
      (c' : TtlCache V)
      → (get now k c).0 ≡ none
      → Stored later k (producer s).0 ttl (get now k c).1 c'
      → Served now later k producer ttl c s (some ((producer s).0, c', (producer s).1))

module _ {V : Type 0} where
  erase-Evicted :
      (c : TtlCache V) (k : Text) (u : ℕ) (v : V)
      → IsValid c
      → c.max_size ≤ length c.store
      → lookup k c.store ≡ some (u, v)
      → AllFrom u c.store
      → Evicted c (record c { store = erase k c.store })
  erase-Evicted c k u v h full found all = record {
    room = ground (arith, length-erase k c.store);
    unique = erase-HasUniqueKeys k c.store h.unique;
    same_size = refl;
    same_ttl = refl;
    others = λ j. elim (Bool-cases (j =? k)) [
      | inl e ↦ inr (
        u,
        v,
        subst (λ i. lookup i c.store ≡ some (u, v)) (sym ((list_beq_iff j k).0 e)) found,
        omega (arith, h.fits),
        all,
      )
      | inr e ↦ inl (lookup-erase_ne j k c.store e)
    ];
  }

  evict_store :
      (default_ttl max_size : ℕ) (d : Dict Text (ℕ × V))
      → let c : TtlCache V = record { default_ttl = default_ttl; max_size = max_size; store = d } in
        IsValid c → (c' : TtlCache V) × (evict c ≡ some c') × Evicted c c'
  unfolding evict
  evict_store default_ttl max_size [] h = (
    record { default_ttl = default_ttl; max_size = max_size; store = [] },
    ground (arith, h.has_room),
    record {
      room = h.has_room;
      unique = tt;
      same_size = refl;
      same_ttl = refl;
      others = λ j. inl refl;
    },
  )
  evict_store default_ttl max_size (x ∷ d) h = elim (Bool-cases (leb max_size (length (x ∷ d)))) [
    | inl full ↦
        let (k, u, v, chosen, found, all) = oldest_lem x d h.unique in
        (
          record { default_ttl = default_ttl; max_size = max_size; store = erase k (x ∷ d) },
          ground arith,
          erase-Evicted _ k u v h (ground arith) found all,
        )
    | inr free ↦ (
      record { default_ttl = default_ttl; max_size = max_size; store = x ∷ d },
      rw free,
      record {
        room = ground arith;
        unique = h.unique;
        same_size = refl;
        same_ttl = refl;
        others = λ j. inl refl;
      },
    )
  ]

  pub evict-Evicted :
      (c : TtlCache V) → IsValid c → (c' : TtlCache V) × (evict c ≡ some c') × Evicted c c'
  evict-Evicted c h = evict_store c.default_ttl c.max_size c.store h

  -- What `set` does to a valid cache.
  set_lem :
      (now : ℕ) (k : Text) (v : V) (ttl : Option ℕ) (c : TtlCache V)
      → IsValid c
      → (c' : TtlCache V) × (set now k v ttl c ≡ some (put now k v ttl c')) × Evicted c c'
  unfolding set
  set_lem now k v ttl c h = let (c', e, ev) = evict-Evicted c h in (c', rw (e, set), ev)

  put-IsValid :
      (now : ℕ) (k : Text) (v : V) (ttl : Option ℕ) (c c' : TtlCache V)
      → IsValid c
      → Evicted c c'
      → IsValid (put now k v ttl c')
  put-IsValid now k v ttl c c' h ev =
      let added = length-insert k (now + effective_ttl ttl c'.default_ttl, v) c'.store in
      record {
        has_room = omega (arith, h.has_room, ev.same_size);
        fits = ground (arith, added, ev.room, ev.same_size);
        unique = insert-HasUniqueKeys k _ c'.store ev.unique;
      }

  -- Reading drops an expired entry, and leaves a valid cache.
  pub get-IsValid : (now : ℕ) (k : Text) (c : TtlCache V) → IsValid c → IsValid (get now k c).1
  unfolding get
  get-IsValid now k c h = record {
    has_room = ground (arith, h.has_room);
    fits = ground (arith, h.fits, length-erase k c.store);
    unique = ground (arith, h.unique, erase-HasUniqueKeys k c.store h.unique);
  }

  get-lookup :
      (now : ℕ) (k : Text) (c : TtlCache V) (t : ℕ) (v : V)
      → lookup k c.store ≡ some (t, v)
      → (get now k c).0 ≡ (if ltb now t then some v else none)
  unfolding get
  get-lookup now k c t v e = ground arith

  get-lookup_eq :
      (now : ℕ) (k : Text) (c d : TtlCache V)
      → lookup k c.store ≡ lookup k d.store
      → (get now k c).0 ≡ (get now k d).0
  unfolding get
  get-lookup_eq now k c d e = ground arith

  put-Stored :
      (now : ℕ) (k : Text) (v : V) (ttl : Option ℕ) (c c' : TtlCache V)
      → IsValid c
      → Evicted c c'
      → Stored now k v ttl c (put now k v ttl c')
  put-Stored now k v ttl c c' h ev = record {
    valid = put-IsValid now k v ttl c c' h ev;
    reads = λ t.
        subst
          (λ d.
            (get t k (put now k v ttl c')).0
            ≡ (if ltb t (now + effective_ttl ttl d) then some v else none))
          ev.same_ttl (get-lookup t k (put now k v ttl c') _ v (lookup-insert_self k _ c'.store));
    others = λ t j. elim (Bool-cases (j =? k)) [
      | inl e ↦ inl e
      | inr ne ↦ elim (ev.others j) [
        | inl same ↦ inr (
            inl (
              get-lookup_eq t j (put now k v ttl c') c (
                lookup-insert_ne j k (now + effective_ttl ttl c'.default_ttl, v) c'.store ne
                ∙ same)))
        | inr gone ↦ inr (inr gone)
      ]
    ];
  }

  -- Storing a value in a valid cache succeeds and leaves a valid cache, from which the value is read
  -- back until its lifetime is over, and not from then on. Every other key reads as before, unless
  -- the cache was full and no entry of it expired before that key's.
  pub get-set :
      (now : ℕ) (k : Text) (v : V) (ttl : Option ℕ) (c : TtlCache V)
      → IsValid c
      → (c' : TtlCache V) × (set now k v ttl c ≡ some c') × Stored now k v ttl c c'
  get-set now k v ttl c h =
      let (c', e, ev) = set_lem now k v ttl c h in
      (put now k v ttl c', e, put-Stored now k v ttl c c' h ev)

  get_or_set_hit :
      {S : Type 0} (now later : ℕ) (k : Text) (producer : S → V × S) (ttl : Option ℕ)
      (c : TtlCache V) (s : S) (v : V)
      → (get now k c).0 ≡ some v
      → get_or_set now later k producer ttl c s ≡ some (v, (get now k c).1, s)
  unfolding get_or_set
  get_or_set_hit now later k producer ttl c s v e = rw (e, get_or_set)

  get_or_set_miss :
      {S : Type 0} (now later : ℕ) (k : Text) (producer : S → V × S) (ttl : Option ℕ)
      (c c' : TtlCache V) (s : S)
      → (get now k c).0 ≡ none
      → set later k (producer s).0 ttl (get now k c).1 ≡ some c'
      → get_or_set now later k producer ttl c s ≡ some ((producer s).0, c', (producer s).1)
  unfolding get_or_set
  get_or_set_miss now later k producer ttl c c' s e f = rw (e, f, get_or_set)

  -- On a valid cache `get_or_set` succeeds and leaves a valid cache. It serves a live entry with
  -- the producer not called, and otherwise calls it once and stores its value.
  pub get_or_set-Served :
      {S : Type 0} (now later : ℕ) (k : Text) (producer : S → V × S) (ttl : Option ℕ)
      (c : TtlCache V) (s : S)
      → IsValid c
      → Served now later k producer ttl c s (get_or_set now later k producer ttl c s)
  get_or_set-Served now later k producer ttl c s h =
      let valid = get-IsValid now k c h in
      elim (Option-cases (get now k c).0) [
        | inl absent ↦
            let (c', e, stored) = get-set later k (producer s).0 ttl (get now k c).1 valid in
            subst (Served now later k producer ttl c s)
              (sym (get_or_set_miss now later k producer ttl c c' s absent e))
              (miss c' absent stored)
        | inr (v, found) ↦
            subst (Served now later k producer ttl c s)
              (sym (get_or_set_hit now later k producer ttl c s v found)) (hit v found valid)
      ]
