-- ===== src/Cache/Laws.antt =====
-- What the grants cache promises between `Set`, `Get` and `InvalidatePrefix`.
use text.Mathlib.Text.{starts_with}
use permission_aware_search.Common.{
  ltb, ◌==◌, if◌then◌else◌, mem, lookup, lookup-insert, lookup-remove, ℕ, ◌+◌, ◌≤◌, String, ◌≡◌,
  refl, none, some, List, [], ◌∷◌, arith, eq_iff,
}
use permission_aware_search.Cache.{
  copy_set, read, get, set, remove_prefix, invalidate_prefix, Entry, GrantsCache, expired, live,
}

-- The set that is stored has the members of the set that was given.
pub mem-copy_set : (k : String) (ids : List String) → mem k (copy_set ids) ≡ mem k ids
unfolding mem copy_set
mem-copy_set k [] = refl
mem-copy_set k (j ∷ ids) = ground (arith, mem-copy_set k ids, mem-copy_set j ids, eq_iff j k)

pub copy_set_idem : (ids : List String) → copy_set (copy_set ids) ≡ copy_set ids
unfolding copy_set
copy_set_idem [] = refl
copy_set_idem (k ∷ ids) = ground (arith, copy_set_idem ids)

pub lookup-remove_prefix :
    (prefix k : String) (items : List (String × Entry))
    → lookup k (remove_prefix prefix items)
      ≡ (if starts_with k prefix then none else lookup k items)
unfolding lookup remove_prefix
lookup-remove_prefix prefix k [] = ground arith
lookup-remove_prefix prefix k ((j, e) ∷ items) =
    ground (arith, lookup-remove_prefix prefix k items, eq_iff j k)

pub read-set :
    (t now : ℕ) (key k : String) (ids : List String) (c : GrantsCache)
    → read now k (set t key ids c) ≡ (
        if key == k
        then (if ltb (t + c.ttl) now then expired else live (copy_set ids))
        else read now k c)
unfolding read set
read-set t now key k ids c =
    rw (lookup-insert key k (record { ids = copy_set ids; expires_at = t + c.ttl }) c.items)
      (ground arith)

-- After `Set key ids` at time `t`, a `Get` of `key` at time `now` returns the set of `ids` as long as
-- `now` is at most `t + ttl`, and nothing later; a `Get` of any other key returns what it did.
pub get-set :
    (t now : ℕ) (key k : String) (ids : List String) (c : GrantsCache)
    → (get now k (set t key ids c)).0 ≡ (
        if key == k
        then (if ltb (t + c.ttl) now then none else some (copy_set ids))
        else (get now k c).0)
unfolding get set
get-set t now key k ids c =
    rw (lookup-insert key k (record { ids = copy_set ids; expires_at = t + c.ttl }) c.items)
      (ground (arith, copy_set_idem ids))

-- After `InvalidatePrefix prefix` every key that begins with the prefix is absent, and every other
-- key returns what it did.
pub get-invalidate_prefix :
    (now : ℕ) (prefix k : String) (c : GrantsCache)
    → (get now k (invalidate_prefix prefix c)).0
      ≡ (if starts_with k prefix then none else (get now k c).0)
unfolding get invalidate_prefix
get-invalidate_prefix now prefix k c = rw (lookup-remove_prefix prefix k c.items) (ground arith)

-- A `Get` drops nothing that a later `Get`, of any key, would have returned.
pub get-get :
    (now later : ℕ) (key k : String) (c : GrantsCache)
    → now ≤ later
    → (get later k (get now key c).1).0 ≡ (get later k c).0
unfolding get
get-get now later key k c h = ground (arith, lookup-remove key k c.items, eq_iff key k)
