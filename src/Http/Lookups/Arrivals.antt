-- ===== src/Http/Lookups/Arrivals.antt =====
-- The order in which the results of the lookups arrive.
use permission_aware_search.Common.{
  Result-cases, Result, ok, err, ◌+◌, ◌≡◌, refl, sym, ap, ◌∙◌, subst, inl, inr, List, ◌∷◌, arith,
}
use permission_aware_search.Http.{GroupedMatch}
use permission_aware_search.Http.Lookups.{with_match, collect, Collected}
use mathlib.Core.List.{Perm, Permᴰ}
use mathlib.Core.List.Permᴰ
use mathlib.Core.Logic.{∥∥₁_map}

-- The results are collected too, to the same groups in some order and to the same counts.
pub record Gathered (results : List (Result GroupedMatch)) (c : Collected) : Type 0 where
  pub collected : Collected
  pub answered : collect results ≡ ok collected
  pub same_groups : Permᴰ c.groups collected.groups
  pub same_authorized : collected.authorized ≡ c.authorized
  pub same_hidden : collected.hidden ≡ c.hidden

collect-cons :
    (r : Result GroupedMatch) (results : List (Result GroupedMatch)) (c : Collected)
    → collect (r ∷ results) ≡ ok c
    → (m : GroupedMatch) × (d : Collected) × (r ≡ ok m)
      × (collect results ≡ ok d)
      × (with_match m d ≡ c)
unfolding collect
collect-cons (err e) results c h = cc
collect-cons (ok m) results c h = elim (Result-cases (collect results)) [
  | inr (e, failed) ↦ absurd (ground arith)
  | inl (d, answered) ↦ (m, d, refl, answered, ground arith)
]

cons-Gathered :
    (m : GroupedMatch) (results : List (Result GroupedMatch)) (d : Collected)
    → Gathered results d
    → Gathered (ok m ∷ results) (with_match m d)
unfolding collect
cons-Gathered m results d g = record {
  collected = with_match m g.collected;
  answered = rw (g.answered) refl;
  same_groups = Permᴰ.cons refl g.same_groups;
  same_authorized = ap (λ n. m.authorized_count + n) g.same_authorized;
  same_hidden = ap (λ n. m.hidden_count + n) g.same_hidden;
}

swap-Gathered :
    (m n : GroupedMatch) (results : List (Result GroupedMatch)) (d : Collected)
    → collect results ≡ ok d
    → Gathered (ok n ∷ ok m ∷ results) (with_match m (with_match n d))
unfolding collect
swap-Gathered m n results d answered = record {
  collected = with_match n (with_match m d);
  answered = rw answered refl;
  same_groups = Permᴰ.swap refl refl;
  same_authorized = omega arith;
  same_hidden = omega arith;
}

collect-permuted :
    (rs ts : List (Result GroupedMatch)) (c : Collected)
    → Permᴰ rs ts
    → collect rs ≡ ok c
    → Gathered ts c
unfolding collect
collect-permuted rs ts c Permᴰ.nil h = record {
  collected = c;
  answered = h;
  same_groups = Permᴰ.refl c.groups;
  same_authorized = refl;
  same_hidden = refl;
}
collect-permuted rs ts c (Permᴰ.cons {a = r} {b = t} {l₁ = rs'} {l₂ = ts'} e p) h =
    let (m, d, here, later, same) = collect-cons r rs' c h in
    let there : ok m ≡ t = sym here ∙ e in
    subst (λ x. Gathered (x ∷ ts') c) there
      (subst (Gathered (ok m ∷ ts')) same
        (cons-Gathered m ts' d (collect-permuted rs' ts' d p later)))
collect-permuted rs ts c (Permᴰ.swap {a = r} {b = t} {a' = r'} {b' = t'} {l = l} e₁ e₂) h =
    let (m, d, here, later, same) = collect-cons r (t ∷ l) c h in
    let (n, d', here', later', same') = collect-cons t l d later in
    let first : ok m ≡ t' = sym here ∙ e₁ in
    let second : ok n ≡ r' = sym here' ∙ e₂ in
    subst (λ x. Gathered (x ∷ t' ∷ l) c) second
      (subst (λ x. Gathered (ok n ∷ x ∷ l) c) first
        (subst (Gathered (ok n ∷ ok m ∷ l)) (ap (with_match m) same' ∙ same)
          (swap-Gathered m n l d' later')))
collect-permuted rs ts c (Permᴰ.trans {l₂ = us} p q) h =
    let g = collect-permuted rs us c p h in
    let k = collect-permuted us ts g.collected q g.answered in
    record {
      collected = k.collected;
      answered = k.answered;
      same_groups = Permᴰ.trans g.same_groups k.same_groups;
      same_authorized = k.same_authorized ∙ g.same_authorized;
      same_hidden = k.same_hidden ∙ g.same_hidden;
    }

-- In whatever order the results of the lookups arrive, they are collected if they are in any one order, to
-- the same groups up to their order and to the same counts of authorized and hidden documents.
pub collect-perm :
    (rs ts : List (Result GroupedMatch)) (c : Collected)
    → Perm rs ts
    → collect rs ≡ ok c
    → ∥ Gathered ts c ∥₁
collect-perm rs ts c p h = ∥∥₁_map {B = Gathered ts c} p (λ d. collect-permuted rs ts c d h)
