-- ===== src/Cache.antt =====
-- internal/cache/grants_cache.go: grants kept for `ttl`. `time.Now()` is an argument. A method
-- under the mutex is one step; `Get` is two, for it gives the lock up before it deletes.
pub mod Laws
pub mod Interleaving
use text.Mathlib.Text.{starts_with}
use permission_aware_search.Common.{
  ℕ, ◌+◌, String, Bool, true, false, List, [], ◌∷◌, Option, none, some, ltb, mem, lookup, insert,
  remove, if◌then◌else◌,
}

pub record Entry : Type 0 where
  pub ids : List String
  pub expires_at : ℕ

pub record GrantsCache : Type 0 where
  pub ttl : ℕ
  pub items : List (String × Entry)

abbrev pub new_grants_cache : ℕ → GrantsCache
new_grants_cache ttl = record { ttl = ttl; items = [] }

-- `for k := range ids { copy[k] = struct{}{} }`: the keys of a set, each once
unfoldable pub copy_set : List String → List String
unfolding mem
copy_set [] = []
copy_set (k ∷ ids) = let rest = copy_set ids in if mem k rest then rest else k ∷ rest

-- what `Get` finds under the read lock: absent, expired or live
pub data Found : Type 0 where
  absent expired : Found
  live : List String → Found

abbrev found_entry : ℕ → Option Entry → Found
found_entry now none = absent
found_entry now (some item) = if ltb item.expires_at now then expired else live item.ids

unfoldable pub read : ℕ → String → GrantsCache → Found
unfolding lookup
read now key c = found_entry now (lookup key c.items)

-- `delete(c.items, key)` under the write lock
unfoldable pub evict : String → GrantsCache → GrantsCache
unfolding remove
evict key c = record c { items = remove key c.items }

abbrev after_read : String → GrantsCache → Found → Option (List String) × GrantsCache
after_read key c absent = (none, c)
after_read key c expired = (none, evict key c)
after_read key c (live ids) = (some (copy_set ids), c)

-- `Get`, with nothing between its two steps
unfoldable pub get : ℕ → String → GrantsCache → Option (List String) × GrantsCache
unfolding read evict copy_set
get now key c = after_read key c (read now key c)

unfoldable pub set : ℕ → String → List String → GrantsCache → GrantsCache
unfolding copy_set insert
set now key ids c = record c {
  items = insert key (record { ids = copy_set ids; expires_at = now + c.ttl }) c.items;
}

unfoldable pub remove_prefix : String → List (String × Entry) → List (String × Entry)
remove_prefix prefix [] = []
remove_prefix prefix ((k, e) ∷ items) =
    let rest = remove_prefix prefix items in if starts_with k prefix then rest else (k, e) ∷ rest

unfoldable pub invalidate_prefix : String → GrantsCache → GrantsCache
unfolding remove_prefix
invalidate_prefix prefix c = record c { items = remove_prefix prefix c.items }
