-- ===== src/Observability/Percentiles.antt =====
-- What the figures of a snapshot say of the searches that were recorded.
use permission_aware_search.Common.{
  ltb, leb, eqb, if◌then◌else◌, Bool-cases, ok, length, length-append, All, ℕ, zero, suc, ◌-◌, ◌*◌,
  ◌/◌, ◌≤◌, ◌<◌, ◌≡◌, refl, sym, ap, ◌∙◌, subst, inl, inr, Bool, true, false, some, List, [], ◌∷◌,
  arith,
}
use permission_aware_search.Observability.{
  record_search, insert_sorted, sort, index, percentile, sum, percentile_or_panic, snapshot,
  Metrics, Snapshot,
}

-- how many numbers pass the test
abbrev pub count : (ℕ → Bool) → List ℕ → ℕ
count p [] = 0
count p (x ∷ xs) = let rest = count p xs in if p x then suc rest else rest

abbrev Ascending : List ℕ → Type 0
Ascending [] = Unit
Ascending (x ∷ xs) = All (λ y. x ≤ y) xs × Ascending xs

All-weaken : (x y : ℕ) (xs : List ℕ) → y ≤ x → All (λ z. x ≤ z) xs → All (λ z. y ≤ z) xs
All-weaken x y [] h a = tt
All-weaken x y (z ∷ xs) h (le, a) = (omega arith, All-weaken x y xs h a)

insert_sorted-All :
    (b x : ℕ) (xs : List ℕ) → b ≤ x → All (λ z. b ≤ z) xs → All (λ z. b ≤ z) (insert_sorted x xs)
unfolding insert_sorted
insert_sorted-All b x [] h a = (h, tt)
insert_sorted-All b x (y ∷ ys) h (le, a) = elim (Bool-cases (leb x y)) [
  | inl below ↦ rw below (h, (le, a))
  | inr above ↦ rw above (le, insert_sorted-All b x ys h a)
]

insert_sorted-Ascending : (x : ℕ) (xs : List ℕ) → Ascending xs → Ascending (insert_sorted x xs)
unfolding insert_sorted
insert_sorted-Ascending x [] h = (tt, tt)
insert_sorted-Ascending x (y ∷ ys) (all', h) = elim (Bool-cases (leb x y)) [
  | inl below ↦
      let le : x ≤ y = ground arith in
      let tail : Ascending (y ∷ ys) = (all', h) in
      let kept : Ascending (x ∷ y ∷ ys) = ((le, All-weaken y x ys le all'), tail) in rw below kept
  | inr above ↦
      let le : y ≤ x = ground arith in
      rw above (insert_sorted-All y x ys le all', insert_sorted-Ascending x ys h)
]

sort-Ascending : (xs : List ℕ) → Ascending (sort xs)
unfolding sort
sort-Ascending [] = tt
sort-Ascending (x ∷ xs) = insert_sorted-Ascending x (sort xs) (sort-Ascending xs)

count-insert_sorted :
    (p : ℕ → Bool) (x : ℕ) (xs : List ℕ) → count p (insert_sorted x xs) ≡ count p (x ∷ xs)
unfolding insert_sorted
count-insert_sorted p x [] = refl
count-insert_sorted p x (y ∷ ys) = elim (Bool-cases (leb x y)) [
  | inl below ↦ rw below refl
  | inr above ↦ rw (above, count-insert_sorted p x ys) (ground arith)
]

count-sort : (p : ℕ → Bool) (xs : List ℕ) → count p (sort xs) ≡ count p xs
unfolding sort
count-sort p [] = refl
count-sort p (x ∷ xs) =
    count-insert_sorted p x (sort xs) ∙ ap (λ n. if p x then suc n else n) (count-sort p xs)

length-insert_sorted : (x : ℕ) (xs : List ℕ) → length (insert_sorted x xs) ≡ suc (length xs)
unfolding insert_sorted
length-insert_sorted x [] = refl
length-insert_sorted x (y ∷ ys) = elim (Bool-cases (leb x y)) [
  | inl below ↦ rw below refl
  | inr above ↦ rw (above, length-insert_sorted x ys) refl
]

length-sort : (xs : List ℕ) → length (sort xs) ≡ length xs
unfolding sort
length-sort [] = refl
length-sort (x ∷ xs) = length-insert_sorted x (sort xs) ∙ ap suc (length-sort xs)

index-some : (xs : List ℕ) (i : ℕ) → i < length xs → (v : ℕ) × (index xs i ≡ some v)
unfolding index
index-some [] i h = absurd (omega arith)
index-some (x ∷ xs) zero h = (x, refl)
index-some (x ∷ xs) (suc i) h = index-some xs i (omega arith)

index-All : (b : ℕ) (xs : List ℕ) (i v : ℕ) → All (λ z. b ≤ z) xs → index xs i ≡ some v → b ≤ v
unfolding index
index-All b [] i v a e = cc
index-All b (x ∷ xs) zero v (le, a) e = ground arith
index-All b (x ∷ xs) (suc i) v (le, a) e = index-All b xs i v a e

count-none : (b : ℕ) (xs : List ℕ) → All (λ z. b ≤ z) xs → count (λ z. ltb z b) xs ≡ 0
count-none b [] a = refl
count-none b (x ∷ xs) (le, a) =
    let not_below : ltb x b ≡ false = ground arith in rw (not_below, count-none b xs a) refl

-- In an ascending list the number at an index is above at most as many as the index, and is at least as large
-- as more than that.
index-Rank :
    (xs : List ℕ) (i v : ℕ)
    → Ascending xs
    → index xs i ≡ some v
    → (count (λ z. ltb z v) xs ≤ i) × (i < count (λ z. leb z v) xs)
unfolding index
index-Rank [] i v a e = cc
index-Rank (x ∷ xs) zero v (le, a) e =
    let same : x ≡ v = ground arith in
    let none' : count (λ z. ltb z v) xs ≡ 0 =
      subst (λ b. count (λ z. ltb z b) xs ≡ 0) same (count-none x xs le) in
    let not_below : ltb x v ≡ false = ground arith in
    let upto : leb x v ≡ true = ground arith in
    (rw (not_below, none') (omega arith), rw upto (omega arith))
index-Rank (x ∷ xs) (suc i) v (le, a) e =
    let (below, upto) = index-Rank xs i v a e in
    let first : leb x v ≡ true = let h = index-All x xs i v le e in ground arith in
    (
      elim (Bool-cases (ltb x v)) [
        | inl less ↦ rw less (omega arith)
        | inr equal ↦ rw equal (omega arith)
      ],
      rw first (omega arith),
    )

index_monotone :
    (xs : List ℕ) (i j v w : ℕ)
    → Ascending xs
    → i ≤ j
    → index xs i ≡ some v
    → index xs j ≡ some w
    → v ≤ w
unfolding index
index_monotone [] i j v w a h e f = cc
index_monotone (x ∷ xs) zero zero v w a h e f = ground arith
index_monotone (x ∷ xs) zero (suc j) v w (le, a) h e f =
    let below = index-All x xs j w le f in ground arith
index_monotone (x ∷ xs) (suc i) zero v w a h e f = absurd (omega arith)
index_monotone (x ∷ xs) (suc i) (suc j) v w (le, a) h e f =
    index_monotone xs i j v w a (omega arith) e f

-- The number `v` is the percentile `p` of the list: one of those with as many smaller ones at most as the
-- rank, and more that are not larger.
abbrev pub Percentile : ℕ → List ℕ → ℕ → Type 0
Percentile p xs v =
    let rank = p * (length xs - 1) / 100 in
    (count (λ z. ltb z v) xs ≤ rank) × (rank < count (λ z. leb z v) xs)

abbrev rank : ℕ → List ℕ → ℕ
rank p xs = p * (length xs - 1) / 100

percentile-index : (xs : List ℕ) (p : ℕ) → 0 < length xs → percentile xs p ≡ index xs (rank p xs)
unfolding percentile
percentile-index [] p n = absurd (omega arith)
percentile-index (x ∷ xs) p n =
    let same : suc (length xs) - 1 ≡ length xs = omega arith in
    sym (ap (λ k. index (x ∷ xs) (p * k / 100)) same)

-- Where the rank is in range there is a percentile, and it is what `percentile` finds.
percentile_lem :
    (xs : List ℕ) (p : ℕ)
    → 0 < length xs
    → rank p xs < length xs
    → (v : ℕ) × (index (sort xs) (rank p xs) ≡ some v)
      × (percentile (sort xs) p ≡ some v)
      × Percentile p xs v
percentile_lem xs p n h =
    let same = length-sort xs in
    let (v, e) = index-some (sort xs) (rank p xs) (rw same h) in
    let (below, upto) = index-Rank (sort xs) (rank p xs) v (sort-Ascending xs) e in
    let found : percentile (sort xs) p ≡ some v =
      percentile-index (sort xs) p (rw same n)
      ∙ ap (λ l. index (sort xs) (p * (l - 1) / 100)) same
      ∙ e in
    let ranked : Percentile p xs v =
      (rw (count-sort (λ z. ltb z v) xs) at below, rw (count-sort (λ z. leb z v) xs) at upto) in
    (v, e, found, ranked)

-- Once a search is recorded a snapshot never fails, and its figures are percentiles of the latencies: for
-- each of them at most as many latencies are smaller as its rank, and more than that are no larger. They
-- ascend, and the average is over all the recorded counts of hidden documents.
pub snapshot_lem :
    (m : Metrics)
    → 0 < length m.search_latency
    → (s : Snapshot) × (snapshot m ≡ ok (some s))
      × Percentile 50 m.search_latency s.p50_ms
      × Percentile 95 m.search_latency s.p95_ms
      × Percentile 99 m.search_latency s.p99_ms
      × (s.p50_ms ≤ s.p95_ms)
      × (s.p95_ms ≤ s.p99_ms)
      × (s.hidden_total ≡ sum m.hidden_counts)
      × (s.hidden_searches ≡ length m.hidden_counts)
snapshot_lem m h =
    let xs = m.search_latency in
    let (p50, i50, e50, r50) = percentile_lem xs 50 h (omega arith) in
    let (p95, i95, e95, r95) = percentile_lem xs 95 h (omega arith) in
    let (p99, i99, e99, r99) = percentile_lem xs 99 h (omega arith) in
    let up = sort-Ascending xs in
    let s : Snapshot = record {
      p50_ms = p50;
      p95_ms = p95;
      p99_ms = p99;
      hidden_total = sum m.hidden_counts;
      hidden_searches = length m.hidden_counts;
    } in
    let recorded : eqb (length xs) 0 ≡ false = ground arith in
    (
      s,
      unfold snapshot in rw (recorded, percentile_or_panic, e50, e95, e99) refl,
      r50,
      r95,
      r99,
      index_monotone (sort xs) (rank 50 xs) (rank 95 xs) p50 p95 up (omega arith) i50 i95,
      index_monotone (sort xs) (rank 95 xs) (rank 99 xs) p95 p99 up (omega arith) i95 i99,
      refl,
      refl,
    )

-- Whatever is recorded, there are as many latencies as hidden counts, so that the average is over the
-- searches and never divides by zero.
pub record_search_same_length :
    (duration hidden_count : ℕ) (m : Metrics)
    → length m.search_latency ≡ length m.hidden_counts
    → let m' = record_search duration hidden_count m in
      (length m'.search_latency ≡ length m'.hidden_counts) × (0 < length m'.search_latency)
unfolding record_search
record_search_same_length duration hidden_count m same =
    let a = length-append m.search_latency (duration ∷ []) in
    let b = length-append m.hidden_counts (hidden_count ∷ []) in (omega arith, omega arith)
