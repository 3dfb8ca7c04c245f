-- ===== src/Base/Dict.antt =====
-- A Python dict in insertion order, and a database table: a dict of rows by primary key with the
-- sequence that numbers the next row.
use google_ads_intelligence.Base.Tests.{if◌then◌else◌, ◌==◌, is_some}
use google_ads_intelligence.Base.Lists.{length}
use google_ads_intelligence.Base.Eq.{Eq, ◌=?◌, nat_eq, beq_refl}
use Prim.Native.Nat.{ℕ, ◌+◌, ◌<◌}
use mathlib.Core.Path.{◌≡◌, refl}
use mathlib.Core.Bool.{false}
use mathlib.Core.Option.{Option, none, some}
use mathlib.Core.List.{List, [], ◌∷◌, ◌++◌}
use native.Mathlib.Omega.{arith}

abbrev pub Dict {ℓ κ} : Type ℓ → Type κ → Type (ℓ ⊔ κ)
Dict K V = List (K × V)

module _ {ℓ κ} {K : Type ℓ} {V : Type κ} ⦃e : Eq K⦄ where
  -- `d.get(k)`
  abbrev pub lookup : K → Dict K V → Option V
  lookup k [] = none
  lookup k ((j, v) ∷ d) = if k =? j then some v else lookup k d

  -- `d[k] = v`
  abbrev pub insert : K → V → Dict K V → Dict K V
  insert k v [] = (k, v) ∷ []
  insert k v (x ∷ d) = if k =? x.0 then (k, v) ∷ d else x ∷ insert k v d

  -- `d.pop(k, None)`
  abbrev pub erase : K → Dict K V → Dict K V
  erase k [] = []
  erase k (x ∷ d) = if k =? x.0 then d else x ∷ erase k d

  -- No key stands twice.
  abbrev pub HasUniqueKeys : Dict K V → Type 0
  HasUniqueKeys [] = Unit
  HasUniqueKeys (x ∷ d) = (is_some (lookup x.0 d) ≡ false) × HasUniqueKeys d

  pub lookup-insert_self : (k : K) (v : V) (d : Dict K V) → lookup k (insert k v d) ≡ some v
  lookup-insert_self k v [] = ground (arith, beq_refl k)
  lookup-insert_self k v (x ∷ d) = ground (arith, beq_refl k, lookup-insert_self k v d)

  pub lookup-insert_ne :
      (j k : K) (v : V) (d : Dict K V) → (j =? k) ≡ false → lookup j (insert k v d) ≡ lookup j d
  lookup-insert_ne j k v [] h = ground arith
  lookup-insert_ne j k v (x ∷ d) h = ground (arith, e.beq_iff k x.0, lookup-insert_ne j k v d h)

  pub lookup-insert :
      (j k : K) (v : V) (d : Dict K V)
      → lookup j (insert k v d) ≡ (if k =? j then some v else lookup j d)
  lookup-insert j k v [] = ground (arith, e.beq_iff j k, e.beq_iff k j)
  lookup-insert j k v (x ∷ d) =
      ground (
        arith,
        e.beq_iff j k,
        e.beq_iff k j,
        e.beq_iff k x.0,
        e.beq_iff j x.0,
        lookup-insert j k v d,
      )

  pub lookup-erase_ne :
      (j k : K) (d : Dict K V) → (j =? k) ≡ false → lookup j (erase k d) ≡ lookup j d
  lookup-erase_ne j k [] h = refl
  lookup-erase_ne j k (x ∷ d) h = ground (arith, e.beq_iff k x.0, lookup-erase_ne j k d h)

  pub lookup-erase_self : (k : K) (d : Dict K V) → HasUniqueKeys d → lookup k (erase k d) ≡ none
  lookup-erase_self k [] h = refl
  lookup-erase_self k (x ∷ d) h = ground (arith, e.beq_iff k x.0, lookup-erase_self k d h.1)

  pub insert-HasUniqueKeys :
      (k : K) (v : V) (d : Dict K V) → HasUniqueKeys d → HasUniqueKeys (insert k v d)
  insert-HasUniqueKeys k v [] h = (refl, tt)
  insert-HasUniqueKeys k v (x ∷ d) h = ground (
    arith,
    e.beq_iff k x.0,
    e.beq_iff x.0 k,
    insert-HasUniqueKeys k v d h.1,
    lookup-insert_ne x.0 k v d,
  )

  pub erase-HasUniqueKeys : (k : K) (d : Dict K V) → HasUniqueKeys d → HasUniqueKeys (erase k d)
  erase-HasUniqueKeys k [] h = tt
  erase-HasUniqueKeys k (x ∷ d) h = ground (
    arith,
    e.beq_iff k x.0,
    e.beq_iff x.0 k,
    erase-HasUniqueKeys k d h.1,
    lookup-erase_ne x.0 k d,
  )

  pub length-insert :
      (k : K) (v : V) (d : Dict K V)
      → length (insert k v d) ≡ (if is_some (lookup k d) then length d else length d + 1)
  length-insert k v [] = ground arith
  length-insert k v (x ∷ d) = ground (arith, length-insert k v d)

  pub length-erase :
      (k : K) (d : Dict K V)
      → length d ≡ (if is_some (lookup k d) then length (erase k d) + 1 else length (erase k d))
  length-erase k [] = refl
  length-erase k (x ∷ d) = ground (arith, length-erase k d)

module _ {ℓ} {A : Type ℓ} where
  -- A change of every row, as an UPDATE makes it; the keys stay.
  abbrev pub map_rows {κ} : {B : Type κ} → (A → B) → Dict ℕ A → Dict ℕ B
  map_rows f [] = []
  map_rows f ((k, a) ∷ d) = (k, f a) ∷ map_rows f d

  pub lookup-map_rows {κ} :
      {B : Type κ} (f : A → B) (k : ℕ) (d : Dict ℕ A)
      → lookup k (map_rows f d) ≡ (elim (lookup k d) [ none ↦ none | some a ↦ some (f a) ])
  lookup-map_rows f k [] = refl
  lookup-map_rows f k ((j, a) ∷ d) = ground (arith, lookup-map_rows f k d)

  pub length-map_rows {κ} :
      {B : Type κ} (f : A → B) (d : Dict ℕ A) → length (map_rows f d) ≡ length d
  length-map_rows f [] = refl
  length-map_rows f ((j, a) ∷ d) = omega (arith, length-map_rows f d)

pub record Table {ℓ} (A : Type ℓ) : Type ℓ where
  pub next_id : ℕ
  pub rows : Dict ℕ A

module _ {ℓ} {A : Type ℓ} where
  -- `db.get(Model, id)`
  abbrev pub get_row : Table A → ℕ → Option A
  get_row t k = lookup k t.rows

  -- `db.add(row); db.flush()`: the sequence numbers the row.
  abbrev pub add_row : A → Table A → Table A
  add_row a t = record { next_id = t.next_id + 1; rows = t.rows ++ (t.next_id, a) ∷ [] }

  -- The assignment to the attributes of a loaded row.
  abbrev pub set_row : ℕ → A → Table A → Table A
  set_row k a t = record t { rows = insert k a t.rows }

  abbrev pub AllBelow : ℕ → Dict ℕ A → Type 0
  AllBelow n [] = Unit
  AllBelow n (x ∷ d) = (x.0 < n) × AllBelow n d

  pub lookup-append_new :
      (n : ℕ) (a : A) (k : ℕ) (d : Dict ℕ A)
      → AllBelow n d
      → lookup k (d ++ (n, a) ∷ []) ≡ (if k == n then some a else lookup k d)
  lookup-append_new n a k [] h = refl
  lookup-append_new n a k (x ∷ d) h = ground (arith, lookup-append_new n a k d h.1)

  pub AllBelow-insert :
      (n k : ℕ) (a : A) (d : Dict ℕ A) → k < n → AllBelow n d → AllBelow n (insert k a d)
  AllBelow-insert n k a [] hk h = (hk, tt)
  AllBelow-insert n k a (x ∷ d) hk h = ground (arith, AllBelow-insert n k a d hk h.1)

  pub AllBelow-append_new :
      (n : ℕ) (a : A) (d : Dict ℕ A) → AllBelow n d → AllBelow (n + 1) (d ++ (n, a) ∷ [])
  AllBelow-append_new n a [] h = (omega arith, tt)
  AllBelow-append_new n a (x ∷ d) h = (omega (arith, h.0), AllBelow-append_new n a d h.1)

  pub add_row-HasUniqueKeys :
      (n : ℕ) (a : A) (d : Dict ℕ A)
      → AllBelow n d
      → HasUniqueKeys d
      → HasUniqueKeys (d ++ (n, a) ∷ [])
  add_row-HasUniqueKeys n a [] h u = (refl, tt)
  add_row-HasUniqueKeys n a (x ∷ d) h u = (
    ground (arith, lookup-append_new n a x.0 d h.1, h.0, u.0),
    add_row-HasUniqueKeys n a d h.1 u.1,
  )
