-- ===== src/Observability.antt =====
-- internal/observability/metrics.go: latencies and hidden counts of the searches. A latency is a whole number
-- of milliseconds, of which `float64` holds those that occur exactly; a snapshot's average is the quotient of
-- two numbers and is held by them.
pub mod Percentiles
use permission_aware_search.Common.{
  leb, eqb, if◌then◌else◌, ◌>>=◌, Result, ok, err, length, ℕ, zero, suc, ◌+◌, ◌*◌, ◌/◌, String,
  Option, none, some, List, [], ◌∷◌, ◌++◌,
}

pub record Metrics : Type 0 where
  pub search_latency : List ℕ
  pub hidden_counts : List ℕ

-- `NewMetrics`
abbrev pub new_metrics : Metrics
new_metrics = record { search_latency = []; hidden_counts = [] }

-- `RecordSearch`, with the duration in milliseconds
unfoldable pub record_search : ℕ → ℕ → Metrics → Metrics
record_search duration hidden_count m = record {
  search_latency = m.search_latency ++ duration ∷ [];
  hidden_counts = m.hidden_counts ++ hidden_count ∷ [];
}

-- `sort.Float64s`
unfoldable pub insert_sorted : ℕ → List ℕ → List ℕ
insert_sorted x [] = x ∷ []
insert_sorted x (y ∷ ys) = let rest = insert_sorted x ys in if leb x y then x ∷ y ∷ ys else y ∷ rest

unfoldable pub sort : List ℕ → List ℕ
unfolding insert_sorted
sort [] = []
sort (x ∷ xs) = insert_sorted x (sort xs)

-- `sorted[i]`; `none` where the index is out of range
unfoldable pub index : List ℕ → ℕ → Option ℕ
index [] i = none
index (x ∷ xs) zero = some x
index (x ∷ xs) (suc i) = index xs i

-- `percentile`
unfoldable pub percentile : List ℕ → ℕ → Option ℕ
unfolding index
percentile [] p = some 0
percentile (x ∷ xs) p = index (x ∷ xs) (p * length xs / 100)

unfoldable pub sum : List ℕ → ℕ
sum [] = 0
sum (x ∷ xs) = x + sum xs

pub record Snapshot : Type 0 where
  pub p50_ms : ℕ
  pub p95_ms : ℕ
  pub p99_ms : ℕ
  pub hidden_total : ℕ
  pub hidden_searches : ℕ

abbrev pub index_out_of_range : String
index_out_of_range = "panic: index out of range"

abbrev pub percentile_or_panic : List ℕ → ℕ → Result ℕ
percentile_or_panic vals p = elim (percentile vals p) [
  | none ↦ err index_out_of_range
  | some v ↦ ok v
]

-- `Snapshot`; `none` is the empty map of no searches
unfoldable pub snapshot : Metrics → Result (Option Snapshot)
unfolding sort percentile sum
snapshot m = if eqb (length m.search_latency) 0 then ok none else do
  let vals = sort m.search_latency
  p50 ← percentile_or_panic vals 50
  p95 ← percentile_or_panic vals 95
  p99 ← percentile_or_panic vals 99
  ok (
      some (record {
        p50_ms = p50;
        p95_ms = p95;
        p99_ms = p99;
        hidden_total = sum m.hidden_counts;
        hidden_searches = length m.hidden_counts;
      }))
