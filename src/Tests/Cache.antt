-- ===== src/Tests/Cache.antt =====
-- The cache at concrete stores.
use google_ads_intelligence.Base.{ℕ, ◌+◌, ◌*◌, ◌≡◌, refl, none, some, [], ◌∷◌, arith}
use google_ads_intelligence.Base.Eq.{list_eq, nat_eq}
use google_ads_intelligence.Base.Text.{codes}
use google_ads_intelligence.Cache.{TtlCache, set, get_or_set, evict, oldest}
use google_ads_intelligence.Cache.Laws.{IsValid, Stored, Served, get-set, get_or_set-Served}

abbrev full : TtlCache ℕ
full = record {
  default_ttl = 45;
  max_size = 2;
  store = (codes "a", (90, 1)) ∷ (codes "b", (60, 2)) ∷ [];
}

full-IsValid : IsValid full
full-IsValid = record { has_room = omega arith; fits = omega arith; unique = (refl, (refl, tt)) }

run_set :
    set 50 (codes "c") 3 none full
    ≡ some (record {
      default_ttl = 45;
      max_size = 2;
      store = (codes "a", (90, 1)) ∷ (codes "c", (95, 3)) ∷ [];
    })
unfolding set evict oldest
run_set = refl

get-set_example :
    (c' : TtlCache ℕ) × (set 50 (codes "c") 3 none full ≡ some c')
    × Stored 50 (codes "c") 3 none full c'
get-set_example = get-set 50 (codes "c") 3 none full full-IsValid

abbrev count_calls : ℕ → ℕ × ℕ
count_calls n = (n * 10, n + 1)

get_or_set-Served_example :
    Served 60 61
      (codes "b")
      count_calls
      (some 5)
      full
      7
      (get_or_set 60 61 (codes "b") count_calls (some 5) full 7)
get_or_set-Served_example =
    get_or_set-Served 60 61 (codes "b") count_calls (some 5) full 7 full-IsValid
