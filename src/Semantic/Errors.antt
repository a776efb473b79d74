-- ===== src/Semantic/Errors.antt =====
-- internal/semantic/analyzer_slm_local.go: lists of errors that hold no text but blanks, as `dedupeStrings`
-- drops it, and the errors of `ValidateField`, which hold more.
use Prim.Native.Char.{Char}
use text.Mathlib.TextLemmas.{cons-append}
use permission_aware_search.Common.{
  ◌==◌, if◌then◌else◌, Bool-cases, Option-cases, Result, ok, err, All, mem, String, ◌≡◌, refl, ap,
  inl, inr, Bool, true, false, not, Option, none, some, List, [], ◌∷◌, ◌++◌, arith, eq_iff,
}
use permission_aware_search.Strings.{
  ◌+++◌, is_empty, is_space, trim_left, cons_unless_space, trim_right, trim_space,
}
use permission_aware_search.Schema.Registry.{get_resource, Registry}
use permission_aware_search.Contracts.{registry_missing, validate_v1, validate_v2, validate_field}
use permission_aware_search.Semantic.Remote.{dedupe_from, report, error_of}

abbrev is_blank : String → Bool
is_blank message = trim_space message == ""

abbrev pub Silent : List String → Type 0
Silent errors = All (λ message. is_blank message ≡ true) errors

pub dedupe_from-Silent : (texts : List String) → dedupe_from texts [] ≡ [] → Silent texts
unfolding dedupe_from mem
dedupe_from-Silent [] h = tt
dedupe_from-Silent (v ∷ texts) h = elim (Bool-cases (trim_space v == "")) [
  | inl blank ↦ (blank, dedupe_from-Silent texts (rw blank at h))
  | inr filled ↦ absurd (ground arith)
]

cons-filled : (c : Char) (s : String) → (String.◌∷◌ c s == "") ≡ false
cons-filled c s = elim (Bool-cases (String.◌∷◌ c s == "")) [
  | inl blank ↦ let e = ap is_empty ((eq_iff (String.◌∷◌ c s) "").0 blank) in absurd cc
  | inr filled ↦ filled
]

cons_unless_space-filled :
    (c : Char) (s : String) → is_space c ≡ false → (cons_unless_space c s == "") ≡ false
cons_unless_space-filled c String.[] h = rw h (cons-filled c "")
cons_unless_space-filled c (String.◌∷◌ d s) h = cons-filled c (String.◌∷◌ d s)

trim_left-cons :
    (c : Char) (s : String) → is_space c ≡ false → trim_left (String.◌∷◌ c s) ≡ String.◌∷◌ c s
unfolding trim_left
trim_left-cons c s h = rw h refl

is_blank-cons : (c : Char) (s : String) → is_space c ≡ false → is_blank (String.◌∷◌ c s) ≡ false
unfolding trim_space trim_right
is_blank-cons c s h = rw (trim_left-cons c s h) (cons_unless_space-filled c (trim_right s) h)

pub Silent-append : (xs ys : List String) → Silent (xs ++ ys) → Silent xs × Silent ys
Silent-append [] ys h = (tt, h)
Silent-append (x ∷ xs) ys (b, h) = let (hx, hy) = Silent-append xs ys h in ((b, hx), hy)

pub Silent-report :
    (bad : Bool) (message : String)
    → is_blank message ≡ false
    → Silent (report bad message)
    → bad ≡ false
Silent-report true message h (b, t) = cc
Silent-report false message h s = refl

pub Silent-step :
    (bad : Bool) (message : String) (rest : List String)
    → is_blank message ≡ false
    → Silent (report bad message ++ rest)
    → (bad ≡ false) × Silent rest
Silent-step true message rest h (b, t) = absurd cc
Silent-step false message rest h s = (refl, s)

-- the error, if there is one, is not blank
abbrev Loud : Result (Unit {0}) → Type 0
Loud r = (message : String) → r ≡ err message → is_blank message ≡ false

err-Loud : (message : String) → is_blank message ≡ false → Loud (err message)
err-Loud message h message' e = cc

ok-Loud : Loud (ok tt)
ok-Loud message e = cc

if-Loud : (b : Bool) (x y : Result (Unit {0})) → Loud x → Loud y → Loud (if b then x else y)
if-Loud true x y hx hy = hx
if-Loud false x y hx hy = hy

pub not-false : (b : Bool) → not b ≡ false → b ≡ true
not-false true h = refl
not-false false h = cc

pub prefixed-filled :
    (c : Char) (s t : String) → is_space c ≡ false → is_blank (String.◌∷◌ c s +++ t) ≡ false
prefixed-filled c s t h = rw (cons-append c s t) (is_blank-cons c (s +++ t) h)

prefixed-Loud : (c : Char) (s t : String) → is_space c ≡ false → Loud (err (String.◌∷◌ c s +++ t))
prefixed-Loud c s t h = err-Loud _ (prefixed-filled c s t h)

validate_v1-Loud :
    (reg : Option Registry) (resource name : String) → Loud (validate_v1 reg resource name)
unfolding validate_v1 trim_space
validate_v1-Loud none resource name = err-Loud registry_missing refl
validate_v1-Loud (some reg) resource name =
    if-Loud _ _ _ (prefixed-Loud "u" "nknown resource type: " resource refl)
      (if-Loud _ _ _ (prefixed-Loud "F" "IELD_NOT_ALLOWED: " name refl) ok-Loud)

validate_v2-Loud :
    (reg : Option Registry) (resource intent name : String)
    → Loud (validate_v2 reg resource intent name)
unfolding validate_v2 trim_space
validate_v2-Loud none resource intent name = err-Loud registry_missing refl
validate_v2-Loud (some reg) resource intent name = elim (Option-cases (get_resource reg resource)) [
  | inl missing ↦
      rw (validate_v2, missing) (prefixed-Loud "u" "nknown resource type: " resource refl)
  | inr (res, there) ↦
      rw (validate_v2, there)
        (if-Loud _ _ _ (prefixed-Loud "F" "IELD_NOT_ALLOWED: " name refl) ok-Loud)
]

pub validate_field-Loud :
    (reg : Option Registry) (resource version intent name : String)
    → Loud (validate_field reg resource version intent name)
unfolding validate_field
validate_field-Loud reg resource version intent name =
    if-Loud _ _ _ (validate_v1-Loud reg resource name) (
      if-Loud _ _ _ (validate_v2-Loud reg resource _ name)
        (prefixed-Loud "u" "nsupported contract version: " version refl))

pub error_of-Loud : (r : Result (Unit {0})) → Loud r → Silent (error_of r) → r ≡ ok tt
error_of-Loud (ok tt) h s = refl
error_of-Loud (err message) h (b, t) = let loud = h message refl in cc
