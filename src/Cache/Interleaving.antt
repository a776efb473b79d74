-- ===== src/Cache/Interleaving.antt =====
-- Goroutines that share the cache. Each critical section is one step; between the read of an
-- expired entry and its deletion, which `Get` does under another lock, anything may happen, and of those
-- that have read one any may delete next.
use mathlib.Core.Logic.{◌⊎◌, inr}
use permission_aware_search.Common.{
  ◌==◌, Bool-cases, Option-cases, lookup, lookup-insert, lookup-remove, ℕ, ◌+◌, ◌≤◌, String, ◌≡◌,
  refl, inl, some, List, [], ◌∷◌, ◌++◌, arith, eq_iff,
}
use permission_aware_search.Cache.{
  new_grants_cache, copy_set, read, evict, set, invalidate_prefix, Entry, GrantsCache, expired,
  live,
}
use permission_aware_search.Cache.Laws.{lookup-remove_prefix}

-- one `Set` that has happened
pub record Stored : Type 0 where
  pub key : String
  pub ids : List String
  pub at : ℕ

pub record System : Type 0 where
  pub cache : GrantsCache
  pub now : ℕ
  pub evicting : List String
  pub history : List Stored

abbrev pub Recorded : Stored → List Stored → Type 0
Recorded r [] = ⊥
Recorded r (x ∷ history) = (x ≡ r) ⊎ Recorded r history

pub data Step (s : System) : System → Type 0 where
  tick : (n : ℕ) → Step s (record s { now = s.now + n })
  store :
      (key : String) (ids : List String)
      → Step s (record s {
        cache = set s.now key ids s.cache;
        history = record { key = key; ids = ids; at = s.now } ∷ s.history;
      })
  see_expired :
      (key : String)
      → read s.now key s.cache ≡ expired
      → Step s (record s { evicting = key ∷ s.evicting })
  drop_expired :
      (key : String) (before rest : List String)
      → s.evicting ≡ before ++ key ∷ rest
      → Step s (record s { cache = evict key s.cache; evicting = before ++ rest })
  invalidate : (prefix : String) → Step s (record s { cache = invalidate_prefix prefix s.cache })

pub data Reach (s : System) : System → Type 0 where
  here : Reach s s
  next : {t u : System} → Reach s t → Step t u → Reach s u

abbrev pub start : ℕ → System
start ttl = record { cache = new_grants_cache ttl; now = 0; evicting = []; history = [] }

-- Where the entry of a key comes from: a `Set` of the history, under the same key.
pub record Origin (ttl : ℕ) (key : String) (e : Entry) (history : List Stored) : Type 0 where
  pub ids : List String
  pub at : ℕ
  pub recorded : Recorded (record { key = key; ids = ids; at = at }) history
  pub same_ids : e.ids ≡ copy_set ids
  pub expiry : e.expires_at ≡ at + ttl

record IsTraced (ttl : ℕ) (s : System) : Type 0 where
  same_ttl : s.cache.ttl ≡ ttl
  traced :
      (key : String) (e : Entry) → lookup key s.cache.items ≡ some e → Origin ttl key e s.history

Origin-later :
    {ttl : ℕ} {key : String} {e : Entry} {history : List Stored} (x : Stored)
    → Origin ttl key e history
    → Origin ttl key e (x ∷ history)
Origin-later x o = record {
  ids = o.ids;
  at = o.at;
  recorded = inr o.recorded;
  same_ids = o.same_ids;
  expiry = o.expiry;
}

start-IsTraced : (ttl : ℕ) → IsTraced ttl (start ttl)
unfolding lookup
start-IsTraced ttl = record { same_ttl = refl; traced = λ key e h. cc }

store-traced :
    (ttl : ℕ) (s : System) (k : String) (ids : List String)
    → IsTraced ttl s
    → (key : String) (e : Entry) → lookup key (set s.now k ids s.cache).items ≡ some e
    → Origin ttl key e (record { key = k; ids = ids; at = s.now } ∷ s.history)
unfolding set
store-traced ttl s k ids v key e h = elim (Bool-cases (k == key)) [
  | inl same ↦
      let e' : Entry = record { ids = copy_set ids; expires_at = s.now + s.cache.ttl } in
      let eq : some e' ≡ some e = rw (lookup-insert, same) at h in
      record {
        ids = ids;
        at = s.now;
        recorded = inl (ground (arith, eq_iff k key));
        same_ids = ground arith;
        expiry = ground (arith, v.same_ttl);
      }
  | inr other ↦ Origin-later _ (v.traced key e (rw (lookup-insert, other) at h))
]

Step-IsTraced : {ttl : ℕ} {s t : System} → Step s t → IsTraced ttl s → IsTraced ttl t
unfolding set evict invalidate_prefix
Step-IsTraced (tick n) v = record { same_ttl = v.same_ttl; traced = v.traced }
Step-IsTraced {ttl} {s} (store k ids) v = record {
  same_ttl = v.same_ttl;
  traced = store-traced ttl s k ids v;
}
Step-IsTraced (see_expired key h) v = record { same_ttl = v.same_ttl; traced = v.traced }
Step-IsTraced {s} (drop_expired k before rest h) v = record {
  same_ttl = v.same_ttl;
  traced = λ key e found. v.traced key e (ground (arith, lookup-remove k key s.cache.items));
}
Step-IsTraced {s} (invalidate prefix) v = record {
  same_ttl = v.same_ttl;
  traced =
      λ key e found. v.traced key e (ground (arith, lookup-remove_prefix prefix key s.cache.items));
}

Reach-IsTraced : {ttl : ℕ} {s t : System} → IsTraced ttl s → Reach s t → IsTraced ttl t
Reach-IsTraced v here = v
Reach-IsTraced v (next r st) = Step-IsTraced st (Reach-IsTraced v r)

-- In whatever order the critical sections of the goroutines follow one another, from an empty cache: grants
-- that a read finds live are the set of some `Set` of the same key, made at most `ttl` before.
pub live-Recorded :
    (ttl : ℕ) {s : System} (key : String) (found : List String)
    → Reach (start ttl) s
    → read s.now key s.cache ≡ live found
    → (ids : List String) × (at : ℕ) × Recorded (record { key = key; ids = ids; at = at }) s.history
      × (found ≡ copy_set ids)
      × (s.now ≤ at + ttl)
unfolding read
live-Recorded ttl {s} key found r h = elim (Option-cases (lookup key s.cache.items)) [
  | inl missing ↦ ground arith
  | inr (e, there) ↦
      let o = (Reach-IsTraced (start-IsTraced ttl) r).traced key e there in
      (o.ids, o.at, o.recorded, ground arith, ground arith)
]
