-- ===== src/Semantic/Ranked.antt =====
-- What a gateway answers with, whatever the service behind it says.
use permission_aware_search.Common.{
  leb, eqb, ◌==◌, Bool-cases, ok, err, length, take, all, length-take, mem, ℕ, zero, suc, ◌≤◌,
  String, ◌≡◌, refl, sym, ap, subst, ◌⊎◌, inl, inr, Bool, true, false, not, ◌&&◌, ◌||◌, some, List,
  [], ◌∷◌, arith, eq_iff, eq_refl,
}
use permission_aware_search.Common.Int.{ℤ, pos, negsuc}
use permission_aware_search.Strings.{trim_space}
use permission_aware_search.Semantic.Remote.{dedupe_from, dedupe_strings}
use permission_aware_search.Semantic.Gateway.{
  clamp01, clamped_scores, same_scores, scores_for, normalize, GatewayResponse, GatewayHttpResponse,
}

abbrev pub NoRepeats : List String → Type 0
NoRepeats [] = Unit
NoRepeats (x ∷ xs) = (mem x xs ≡ false) × NoRepeats xs

dedupe_from-unseen :
    (k : String) (texts seen : List String)
    → mem k seen ≡ true
    → mem k (dedupe_from texts seen) ≡ false
unfolding dedupe_from mem
dedupe_from-unseen k [] seen h = refl
dedupe_from-unseen k (v ∷ texts) seen h =
    elim (Bool-cases (trim_space v == "" || mem (trim_space v) seen)) [
      | inl skipped ↦ rw skipped (dedupe_from-unseen k texts seen h)
      | inr kept ↦
          let later : mem k (dedupe_from texts (trim_space v ∷ seen)) ≡ false =
            dedupe_from-unseen k texts (trim_space v ∷ seen) (ground arith) in
          let different : (trim_space v == k) ≡ false = elim (Bool-cases (trim_space v == k)) [
            | inr other ↦ other
            | inl same ↦
                let again =
                  subst (λ x. mem x seen ≡ true) (sym ((eq_iff (trim_space v) k).0 same)) h in
                absurd (ground arith)
          ] in
          rw (kept, different) later
    ]

abbrev is_text : String → Bool
is_text s = not (s == "")

dedupe_from-NoRepeats :
    (texts seen : List String)
    → NoRepeats (dedupe_from texts seen)
      × (all is_text (dedupe_from texts seen) ≡ true)
      × (length (dedupe_from texts seen) ≤ length texts)
unfolding dedupe_from mem
dedupe_from-NoRepeats [] seen = (tt, refl, omega arith)
dedupe_from-NoRepeats (v ∷ texts) seen =
    elim (Bool-cases (trim_space v == "" || mem (trim_space v) seen)) [
      | inl skipped ↦
          let (apart, filled, short) = dedupe_from-NoRepeats texts seen in
          rw skipped (apart, filled, omega arith)
      | inr kept ↦
          let (apart, filled, short) = dedupe_from-NoRepeats texts (trim_space v ∷ seen) in
          let new : mem (trim_space v) (dedupe_from texts (trim_space v ∷ seen)) ≡ false =
            dedupe_from-unseen (trim_space v) texts (trim_space v ∷ seen)
              (rw (eq_refl (trim_space v)) refl) in
          let text : is_text (trim_space v) ≡ true = ground arith in
          rw kept ((new, apart), rw (text, filled) refl, omega arith)
    ]

mem-take : (k : String) (n : ℕ) (xs : List String) → mem k xs ≡ false → mem k (take n xs) ≡ false
unfolding mem
mem-take k zero xs h = refl
mem-take k (suc n) [] h = refl
mem-take k (suc n) (x ∷ xs) h =
    let other : (x == k) ≡ false = ground arith in rw (other, mem-take k n xs (ground arith)) refl

NoRepeats-take : (n : ℕ) (xs : List String) → NoRepeats xs → NoRepeats (take n xs)
NoRepeats-take zero xs h = tt
NoRepeats-take (suc n) [] h = tt
NoRepeats-take (suc n) (x ∷ xs) (new, apart) = (mem-take x n xs new, NoRepeats-take n xs apart)

all-take :
    (p : String → Bool) (n : ℕ) (xs : List String) → all p xs ≡ true → all p (take n xs) ≡ true
all-take p zero xs h = refl
all-take p (suc n) [] h = refl
all-take p (suc n) (x ∷ xs) h =
    let here : p x ≡ true = ground arith in rw (here, all-take p n xs (ground arith)) refl

-- as many scores as there are candidates, each of at most one
record AreScores (scores : List ℕ) (ids : List String) : Type 0 where
  same_length : length scores ≡ length ids
  low : all (λ s. leb s 100) scores ≡ true

clamp01_bound : (v : ℤ) → leb (clamp01 v) 100 ≡ true
unfolding clamp01
clamp01_bound (pos n) = ground arith
clamp01_bound (negsuc n) = refl

clamped_scores-AreScores :
    (ids : List String) (scores : List ℤ)
    → length ids ≤ length scores
    → (out : List ℕ) × (clamped_scores (length ids) scores ≡ some out) × AreScores out ids
unfolding clamped_scores
clamped_scores-AreScores [] scores h = ([], refl, record { same_length = refl; low = refl })
clamped_scores-AreScores (id ∷ ids) [] h = absurd (omega arith)
clamped_scores-AreScores (id ∷ ids) (s ∷ scores) h =
    let (out, found, are) = clamped_scores-AreScores ids scores (omega arith) in
    (
      clamp01 s ∷ out,
      rw found refl,
      record { same_length = ap suc are.same_length; low = rw (clamp01_bound s, are.low) refl },
    )

same_scores-AreScores :
    (c : ℕ) (ids : List String) → leb c 100 ≡ true → AreScores (same_scores c ids) ids
unfolding same_scores
same_scores-AreScores c [] h = record { same_length = refl; low = refl }
same_scores-AreScores c (id ∷ ids) h =
    let are = same_scores-AreScores c ids h in
    record { same_length = ap suc are.same_length; low = rw (h, are.low) refl }

-- what is true of every response of a gateway
pub record IsResponse (max_candidates : ℕ) (r : GatewayResponse) : Type 0 where
  pub apart : NoRepeats r.candidate_ids
  pub filled : all (λ id. not (id == "")) r.candidate_ids ≡ true
  pub bounded : length r.candidate_ids ≤ max_candidates
  pub scored : length r.scores ≡ length r.candidate_ids
  pub low_scores : all (λ s. leb s 100) r.scores ≡ true
  pub low_confidence : leb r.provider_confidence 100 ≡ true

scores_for-AreScores :
    (answer : GatewayHttpResponse) (ids : List String)
    → length ids ≤ length answer.candidate_ids
    → (not (eqb (length answer.scores) 0)
        && not (eqb (length answer.scores) (length answer.candidate_ids)))
      ≡ false
    → (out : List ℕ) × (scores_for answer ids ≡ some out) × AreScores out ids
scores_for-AreScores answer ids short agree = elim (Bool-cases (eqb (length answer.scores) 0)) [
  | inl none' ↦ (
    same_scores (clamp01 answer.provider_confidence) ids,
    rw none' refl,
    same_scores-AreScores (clamp01 answer.provider_confidence) ids
        (clamp01_bound answer.provider_confidence),
  )
  | inr some' ↦
      let same : length answer.scores ≡ length answer.candidate_ids = ground arith in
      rw some' (clamped_scores-AreScores ids answer.scores (omega arith))
]

-- A gateway either answers with candidates that are distinct, not blank and no more than its maximum, one
-- score for each, and scores and a confidence of at most one; or it refuses the answer for one of two reasons.
-- It never reads a score out of range.
pub normalize-IsResponse :
    (max_candidates : ℕ) (answer : GatewayHttpResponse)
    → ((r : GatewayResponse) × (normalize max_candidates answer ≡ ok r)
        × IsResponse max_candidates r)
      ⊎ (normalize max_candidates answer
          ≡ err "superlinked invalid provider payload: empty candidateIds")
      ⊎ (normalize max_candidates answer
          ≡ err "superlinked invalid provider payload: scores length mismatch")
unfolding normalize dedupe_strings
normalize-IsResponse max_candidates answer =
    let candidates = dedupe_strings answer.candidate_ids in
    let ids = take max_candidates candidates in
    let (apart, filled, short) = dedupe_from-NoRepeats answer.candidate_ids [] in
    let taken = length-take max_candidates candidates in
    elim (Bool-cases (eqb (length candidates) 0)) [
      | inl empty ↦ inr (inl (rw empty refl))
      | inr found ↦
          elim (Bool-cases (
            not (eqb (length answer.scores) 0)
            && not (eqb (length answer.scores) (length answer.candidate_ids)))) [
              | inl mismatch ↦ inr (inr (rw (found, mismatch) refl))
              | inr agree ↦
                  let (scores, scored, are) = scores_for-AreScores answer ids (omega arith) agree in
                  let r : GatewayResponse = record {
                    candidate_ids = ids;
                    scores = scores;
                    provider_confidence = clamp01 answer.provider_confidence;
                    safe_evidence = dedupe_strings answer.safe_evidence;
                    provider_latency_ms = answer.provider_latency_ms;
                    model_version = trim_space answer.model_version;
                    index_version = trim_space answer.index_version;
                  } in
                  inl (
                    r,
                    rw (found, agree, scored) refl,
                    record {
                      apart = NoRepeats-take max_candidates candidates apart;
                      filled = all-take is_text max_candidates candidates filled;
                      bounded = omega arith;
                      scored = are.same_length;
                      low_scores = are.low;
                      low_confidence = clamp01_bound answer.provider_confidence;
                    },
                  )
            ]
    ]
