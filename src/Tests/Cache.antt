-- ===== src/Tests/Cache.antt =====
-- internal/cache at concrete inputs.
use permission_aware_search.Common.{ℕ, ◌+◌, ◌≤◌, String, ◌≡◌, refl, some, List, [], ◌∷◌}
use permission_aware_search.Cache.{new_grants_cache, copy_set, read, get, set, GrantsCache}
use permission_aware_search.Cache.Laws.{get-set}
use permission_aware_search.Cache.Interleaving.{
  Recorded, start, live-Recorded, System, tick, store, Reach, here, next,
}

abbrev c : GrantsCache
c = set 10 "t:alice" ("ord-1" ∷ "ord-1" ∷ []) (new_grants_cache 30)

get-set_example : (get 40 "t:alice" c).0 ≡ some (copy_set ("ord-1" ∷ "ord-1" ∷ []))
get-set_example = get-set 10 40 "t:alice" "t:alice" ("ord-1" ∷ "ord-1" ∷ []) (new_grants_cache 30)

abbrev stored : System
stored = record {
  cache = set 0 "t:alice" ("ord-1" ∷ []) (new_grants_cache 30);
  now = 7;
  evicting = [];
  history = record { key = "t:alice"; ids = "ord-1" ∷ []; at = 0 } ∷ [];
}

reached : Reach (start 30) stored
reached = next (next here (store "t:alice" ("ord-1" ∷ []))) (tick 7)

live-Recorded_example :
    (ids : List String) × (at : ℕ) × Recorded
      (record { key = "t:alice"; ids = ids; at = at })
      stored.history
    × ("ord-1" ∷ [] ≡ copy_set ids)
    × (7 ≤ at + 30)
unfolding set read
live-Recorded_example = live-Recorded 30 {s = stored} "t:alice" ("ord-1" ∷ []) reached refl
