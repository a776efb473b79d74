-- ===== src/Common/Lists.antt =====
-- Lists measured and indexed by native numbers, and predicates over them.
use Prim.Native.Nat.{ℕ, zero, suc, ◌+◌, min}
use mathlib.Core.Path.{◌≡◌, refl, ap}
use mathlib.Core.Bool.{Bool, true, false, ◌&&◌, ◌||◌}
use mathlib.Core.List.{List, [], ◌∷◌, ◌++◌}
use native.Mathlib.Omega.{arith}
use mathlib.Core.Logic.{◌⊎◌, inl, inr}
use permission_aware_search.Common.Tests.{if◌then◌else◌, Bool-cases}

module _ {ℓ} {A : Type ℓ} where
  abbrev pub length : List A → ℕ
  length [] = 0
  length (x ∷ xs) = suc (length xs)

  abbrev pub take : ℕ → List A → List A
  take zero xs = []
  take (suc n) [] = []
  take (suc n) (x ∷ xs) = x ∷ take n xs

  abbrev pub drop : ℕ → List A → List A
  drop zero xs = xs
  drop (suc n) [] = []
  drop (suc n) (x ∷ xs) = drop n xs

  abbrev pub any : (A → Bool) → List A → Bool
  any p [] = false
  any p (x ∷ xs) = p x || any p xs

  abbrev pub all : (A → Bool) → List A → Bool
  all p [] = true
  all p (x ∷ xs) = p x && all p xs

  abbrev pub keep : (A → Bool) → List A → List A
  keep p [] = []
  keep p (x ∷ xs) = if p x then x ∷ keep p xs else keep p xs

  pub length-append : (xs ys : List A) → length (xs ++ ys) ≡ length xs + length ys
  length-append [] ys = omega arith
  length-append (x ∷ xs) ys = omega (arith, length-append xs ys)

  pub length-take : (n : ℕ) (xs : List A) → length (take n xs) ≡ min n (length xs)
  length-take zero xs = omega arith
  length-take (suc n) [] = omega arith
  length-take (suc n) (x ∷ xs) = omega (arith, length-take n xs)

module _ {ℓ κ} {A : Type ℓ} (P : A → Type κ) where
  abbrev pub All : List A → Type κ
  All [] = Unit
  All (x ∷ xs) = P x × All xs

  pub All-append : (xs ys : List A) → All xs → All ys → All (xs ++ ys)
  All-append [] ys _ hy = hy
  All-append (x ∷ xs) ys (px, hx) hy = (px, All-append xs ys hx hy)

  pub All-take : (n : ℕ) (xs : List A) → All xs → All (take n xs)
  All-take zero xs h = tt
  All-take (suc n) [] h = tt
  All-take (suc n) (x ∷ xs) (p, h) = (p, All-take n xs h)

pub data Empty {ℓ} : Type ℓ where

module _ {ℓ} {A : Type ℓ} where
  -- `x` stands in the list
  abbrev pub Member : A → List A → Type ℓ
  Member x [] = Empty
  Member x (y ∷ ys) = (y ≡ x) ⊎ Member x ys

  pub any-eq-true :
      (p : A → Bool) (xs : List A) → any p xs ≡ true → (x : A) × Member x xs × (p x ≡ true)
  any-eq-true p [] h = cc
  any-eq-true p (x ∷ xs) h = elim (Bool-cases (p x)) [
    | inl here ↦ (x, inl refl, here)
    | inr missed ↦
        let (y, listed, holds) = any-eq-true p xs (ground arith) in (y, inr listed, holds)
  ]

  pub any_of_Member :
      (p : A → Bool) (x : A) (xs : List A) → Member x xs → p x ≡ true → any p xs ≡ true
  any_of_Member p x [] m h = elim m [ ]
  any_of_Member p x (y ∷ ys) (inl e) h = rw (ap p e, h) refl
  any_of_Member p x (y ∷ ys) (inr m) h = ground (arith, any_of_Member p x ys m h)

module _ {ℓ} {A : Type ℓ} (p : A → Bool) where
  pub all-append : (xs ys : List A) → all p xs ≡ true → all p ys ≡ true → all p (xs ++ ys) ≡ true
  all-append [] ys hx hy = hy
  all-append (x ∷ xs) ys hx hy =
      let here : p x ≡ true = ground arith in rw (here, all-append xs ys (ground arith) hy) refl

  -- what is kept passes the test, and still passes every other that all passed before
  pub all-keep_self : (xs : List A) → all p (keep p xs) ≡ true
  all-keep_self [] = refl
  all-keep_self (x ∷ xs) = elim (Bool-cases (p x)) [
    | inl kept ↦ rw kept (rw (kept, all-keep_self xs) refl)
    | inr left ↦ rw left (all-keep_self xs)
  ]

  pub all-keep : (q : A → Bool) (xs : List A) → all p xs ≡ true → all p (keep q xs) ≡ true
  all-keep q [] h = refl
  all-keep q (x ∷ xs) h =
      let here : p x ≡ true = ground arith in
      let later = all-keep q xs (ground arith) in
      elim (Bool-cases (q x)) [
        | inl kept ↦ rw kept (rw (here, later) refl)
        | inr left ↦ rw left later
      ]

  pub keep-nil : (xs : List A) → keep p xs ≡ [] → any p xs ≡ false
  keep-nil [] h = refl
  keep-nil (x ∷ xs) h = elim (Bool-cases (p x)) [
    | inl kept ↦ absurd (ground arith)
    | inr left ↦ rw left (keep-nil xs (rw left at h))
  ]
