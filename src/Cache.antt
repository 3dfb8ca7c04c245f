-- ===== src/Cache.antt =====
-- app/utils/cache.py: the in-process TTL cache. A clock reading is an argument, in whole ticks, as
-- are the lifetimes. The lock makes get and set one step each; get_or_set, which gives it back between its
-- get, its producer and its set, is a call that no other call interrupts, with a producer that does not raise.
pub mod Laws
pub mod Eviction
use google_ads_intelligence.Base.{
  ℕ, ◌+◌, Bool, true, false, Option, none, some, List, [], ◌∷◌, length, ltb, leb, ◌==◌,
  if◌then◌else◌,
}
use google_ads_intelligence.Base.Eq.{list_eq, nat_eq}
use google_ads_intelligence.Base.Dict.{Dict, lookup, insert, erase}
use google_ads_intelligence.Base.Text.{Text}

-- `_store[key] = (expires_at, value)`
pub record TtlCache (V : Type 0) : Type 0 where
  pub default_ttl : ℕ
  pub max_size : ℕ
  pub store : Dict Text (ℕ × V)

-- `ttl or self._default_ttl`: a lifetime of zero counts as none given.
abbrev pub effective_ttl : Option ℕ → ℕ → ℕ
effective_ttl none d = d
effective_ttl (some t) d = if t == 0 then d else t

module _ {V : Type 0} where
  -- `min(store, key=lambda k: store[k][0])`, the first of the smallest, from a first candidate on.
  pub oldest_from : Text → ℕ → Dict Text (ℕ × V) → Text
  oldest_from k t [] = k
  oldest_from k t ((j, (u, _)) ∷ d) =
      oldest_from (if ltb u t then j else k) (if ltb u t then u else t) d

  -- `none` stands for the ValueError of `min` on an empty store.
  unfoldable pub oldest : Dict Text (ℕ × V) → Option Text
  unfolding oldest_from
  oldest [] = none
  oldest ((k, (t, _)) ∷ d) = some (oldest_from k t d)

  unfoldable pub get : ℕ → Text → TtlCache V → Option V × TtlCache V
  get now key c = elim (lookup key c.store) [
    | none ↦ (none, c)
    | some (expires_at, value) ↦
        if leb expires_at now
        then (none, record c { store = erase key c.store })
        else (some value, c)
  ]

  unfoldable pub evict : TtlCache V → Option (TtlCache V)
  unfolding oldest
  evict c =
      if leb c.max_size (length c.store)
      then (elim (oldest c.store) [
        | none ↦ none
        | some k ↦ some (record c { store = erase k c.store })
      ])
      else some c

  -- `self._store[key] = (time.monotonic() + (ttl or self._default_ttl), value)`
  abbrev pub put : ℕ → Text → V → Option ℕ → TtlCache V → TtlCache V
  put now key value ttl c = record c {
    store = insert key (now + effective_ttl ttl c.default_ttl, value) c.store;
  }

  unfoldable pub set : ℕ → Text → V → Option ℕ → TtlCache V → Option (TtlCache V)
  set now key value ttl c = elim (evict c) [
    | none ↦ none
    | some c' ↦ some (put now key value ttl c')
  ]

  -- The producer acts on a world of its own; the clock is read again by `set`.
  unfoldable pub get_or_set :
      {S : Type 0} (now later : ℕ)
      → Text
      → (S → V × S)
      → Option ℕ
      → TtlCache V
      → S
      → Option (V × TtlCache V × S)
  get_or_set now later key producer ttl c s =
      let (cached, c') = get now key c in
      elim cached [
        | some value ↦ some (value, c', s)
        | none ↦
            let (value, s') = producer s in
            elim (set later key value ttl c') [ none ↦ none | some c'' ↦ some (value, c'', s') ]
      ]

  unfoldable pub clear : TtlCache V → TtlCache V
  clear c = record c { store = [] }
