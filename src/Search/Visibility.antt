-- ===== src/Search/Visibility.antt =====
-- What a search shows and hides: nothing reaches the response but what the policy has decided on.
use permission_aware_search.Common.{
  Bool-cases, Result-cases, ok, length, All, Member, ◌+◌, String, ◌≡◌, refl, subst, inl, inr, Bool,
  true, false, List, [], ◌∷◌, arith,
}
use permission_aware_search.Json.{Doc}
use permission_aware_search.Json.Copy.{deep_copy_map_lem}
use permission_aware_search.Store.{Candidate}
use permission_aware_search.Policy.{Subject, Decision}
use permission_aware_search.Search.{keep_candidate, Engine, Sorted}
use permission_aware_search.Search.Filtering.{filter_candidates}

-- The engine has answered for this candidate, in some state, with this verdict.
pub record Decided {S : Type 0} (engine : Engine S) (subject : Subject) (resource_type : String)
    (verdict : Bool) (c : Candidate) : Type 0 where
  pub before : S
  pub decision : Decision
  pub answered : (engine.evaluate subject "view" resource_type c.doc before).0 ≡ ok decision
  pub same : decision.allowed ≡ verdict

-- The document is that of a listed candidate that the engine has allowed.
pub record Shown {S : Type 0} (engine : Engine S) (subject : Subject) (resource_type : String)
    (candidates : List Candidate) (doc : Doc) : Type 0 where
  pub candidate : Candidate
  pub listed : Member candidate candidates
  pub document : doc ≡ candidate.doc
  pub allowed : Decided engine subject resource_type true candidate

-- The id is that of a listed candidate that the engine has refused.
pub record Hidden {S : Type 0} (engine : Engine S) (subject : Subject) (resource_type : String)
    (candidates : List Candidate) (id : String) : Type 0 where
  pub candidate : Candidate
  pub listed : Member candidate candidates
  pub same_id : id ≡ candidate.id
  pub refused : Decided engine subject resource_type false candidate

module _ {S : Type 0} (engine : Engine S) (subject : Subject) (resource_type : String) where
  abbrev Sorts : List Candidate → Sorted → Type 0
  Sorts candidates r =
      All (Shown engine subject resource_type candidates) r.allowed
      × All (Hidden engine subject resource_type candidates) r.hidden_ids
      × (length r.allowed + length r.hidden_ids ≡ length candidates)

  Shown-later :
      (c : Candidate) (candidates : List Candidate) (docs : List Doc)
      → All (Shown engine subject resource_type candidates) docs
      → All (Shown engine subject resource_type (c ∷ candidates)) docs
  Shown-later c candidates [] h = tt
  Shown-later c candidates (doc ∷ docs) (x, h) = (
    record {
      candidate = x.candidate;
      listed = inr x.listed;
      document = x.document;
      allowed = x.allowed;
    },
    Shown-later c candidates docs h,
  )

  Hidden-later :
      (c : Candidate) (candidates : List Candidate) (ids : List String)
      → All (Hidden engine subject resource_type candidates) ids
      → All (Hidden engine subject resource_type (c ∷ candidates)) ids
  Hidden-later c candidates [] h = tt
  Hidden-later c candidates (id ∷ ids) (x, h) = (
    record {
      candidate = x.candidate;
      listed = inr x.listed;
      same_id = x.same_id;
      refused = x.refused;
    },
    Hidden-later c candidates ids h,
  )

  keep_candidate-Sorts :
      (c : Candidate) (candidates : List Candidate) (s : S) (d : Decision) (r : Sorted)
      → (engine.evaluate subject "view" resource_type c.doc s).0 ≡ ok d
      → Sorts candidates r
      → Sorts (c ∷ candidates) (keep_candidate c d r)
  keep_candidate-Sorts c candidates s d r e (shown, hidden, n) = elim (Bool-cases d.allowed) [
    | inl yes' ↦ rw yes' (
      (
        record {
          candidate = c;
          listed = inl refl;
          document = deep_copy_map_lem c.doc;
          allowed = record { before = s; decision = d; answered = e; same = yes' };
        },
        Shown-later c candidates r.allowed shown,
      ),
      Hidden-later c candidates r.hidden_ids hidden,
      omega arith,
    )
    | inr no' ↦ rw no' (
      Shown-later c candidates r.allowed shown,
      (
        record {
          candidate = c;
          listed = inl refl;
          same_id = refl;
          refused = record { before = s; decision = d; answered = e; same = no' };
        },
        Hidden-later c candidates r.hidden_ids hidden,
      ),
      omega arith,
    )
  ]

  pub filter_candidates-Sorts :
      (candidates : List Candidate) (s : S) (r : Sorted)
      → (filter_candidates engine subject resource_type candidates s).0 ≡ ok r
      → Sorts candidates r
  unfolding filter_candidates
  filter_candidates-Sorts [] s r e =
      let same : record { allowed = []; hidden_ids = [] } ≡ r = ground arith in
      subst (Sorts []) same (tt, tt, refl)
  filter_candidates-Sorts (c ∷ candidates) s r e =
      elim (Result-cases (engine.evaluate subject "view" resource_type c.doc s).0) [
        | inr (message, failed) ↦ absurd (ground arith)
        | inl (d, answered) ↦
            let s' = (engine.evaluate subject "view" resource_type c.doc s).1 in
            elim (Result-cases (filter_candidates engine subject resource_type candidates s').0) [
              | inr (message, failed) ↦ absurd (ground arith)
              | inl (rest, sorted) ↦
                  let same : keep_candidate c d rest ≡ r = ground arith in
                  subst (Sorts (c ∷ candidates)) same (
                    keep_candidate-Sorts c candidates s d rest answered
                      (filter_candidates-Sorts candidates s' rest sorted))
            ]
      ]

-- Every candidate is sorted once, in order: its document is shown, or its id is hidden.
pub data Sifts {S : Type 0} (engine : Engine S) (subject : Subject) (resource_type : String)
    : List Candidate → List Doc → List String → Type 0 where
  sifted : Sifts engine subject resource_type [] [] []
  shows :
      {candidates : List Candidate} {docs : List Doc} {ids : List String} (c : Candidate)
      (doc : Doc)
      → doc ≡ c.doc
      → Decided engine subject resource_type true c
      → Sifts engine subject resource_type candidates docs ids
      → Sifts engine subject resource_type (c ∷ candidates) (doc ∷ docs) ids
  hides :
      {candidates : List Candidate} {docs : List Doc} {ids : List String} (c : Candidate)
      → Decided engine subject resource_type false c
      → Sifts engine subject resource_type candidates docs ids
      → Sifts engine subject resource_type (c ∷ candidates) docs (c.id ∷ ids)

module _ {S : Type 0} (engine : Engine S) (subject : Subject) (resource_type : String) where
  keep_candidate-Sifts :
      (c : Candidate) (candidates : List Candidate) (s : S) (d : Decision) (r : Sorted)
      → (engine.evaluate subject "view" resource_type c.doc s).0 ≡ ok d
      → Sifts engine subject resource_type candidates r.allowed r.hidden_ids
      → Sifts engine subject resource_type
          (c ∷ candidates)
          (keep_candidate c d r).allowed
          (keep_candidate c d r).hidden_ids
  keep_candidate-Sifts c candidates s d r e h = elim (Bool-cases d.allowed) [
    | inl yes' ↦
        let by : Decided engine subject resource_type true c = record {
          before = s;
          decision = d;
          answered = e;
          same = yes';
        } in
        rw yes' (shows c _ (deep_copy_map_lem c.doc) by h)
    | inr no' ↦
        let by : Decided engine subject resource_type false c = record {
          before = s;
          decision = d;
          answered = e;
          same = no';
        } in
        rw no' (hides c by h)
  ]

  pub filter_candidates-Sifts :
      (candidates : List Candidate) (s : S) (r : Sorted)
      → (filter_candidates engine subject resource_type candidates s).0 ≡ ok r
      → Sifts engine subject resource_type candidates r.allowed r.hidden_ids
  unfolding filter_candidates
  filter_candidates-Sifts [] s r e =
      let same : record { allowed = []; hidden_ids = [] } ≡ r = ground arith in
      subst (λ x. Sifts engine subject resource_type [] x.allowed x.hidden_ids) same sifted
  filter_candidates-Sifts (c ∷ candidates) s r e =
      elim (Result-cases (engine.evaluate subject "view" resource_type c.doc s).0) [
        | inr (message, failed) ↦ absurd (ground arith)
        | inl (d, answered) ↦
            let s' = (engine.evaluate subject "view" resource_type c.doc s).1 in
            elim (Result-cases (filter_candidates engine subject resource_type candidates s').0) [
              | inr (message, failed) ↦ absurd (ground arith)
              | inl (rest, sorted) ↦
                  let same : keep_candidate c d rest ≡ r = ground arith in
                  subst
                    (λ x.
                      Sifts engine subject resource_type (c ∷ candidates) x.allowed x.hidden_ids)
                    same
                    (keep_candidate-Sifts c candidates s d rest answered
                      (filter_candidates-Sifts candidates s' rest sorted))
            ]
      ]
