-- ===== src/Regex/Sound.antt =====
-- What the search finds: a part of the text that the expression describes.
use permission_aware_search.Common.{
  Bool-cases, Option-cases, ℕ, zero, suc, String, len, ◌≡◌, refl, sym, ap, ◌∙◌, ◌⊎◌, inl, inr, Bool,
  true, Option, none, some, List, [], ◌∷◌, ◌++◌, arith,
}
use permission_aware_search.Strings.{◌+++◌, is_empty}
use permission_aware_search.Regex.{
  Next, Matcher, at_boundary, is_start, take_class, repeated, run, found, find_from, find, Re,
  blank, class, seq, alt, star, group, boundary, start, finish, Found,
}
use Prim.Native.Char.{Char}
use text.Mathlib.TextLemmas.{nil-append, cons-append, append_assoc as text-append_assoc}

-- a text that is cut into parts which the predicate holds of
pub data Stars (P : String → List String → Type 0) : String → List String → Type 0 where
  done : {t : String} {g : List String} → t ≡ "" → g ≡ [] → Stars P t g
  more :
      {t u v : String} {g gu gv : List String}
      → P u gu
      → Stars P v gv
      → t ≡ u +++ v
      → g ≡ gu ++ gv
      → Stars P t g

abbrev pub IsBlank : String → List String → Type 0
IsBlank t g = (t ≡ "") × (g ≡ [])

abbrev pub InTurn :
    (String → List String → Type 0)
    → (String → List String → Type 0)
    → String
    → List String
    → Type 0
InTurn P Q t g =
    (u : String) × (v : String) × (gu : List String) × (gv : List String) × P u gu
    × Q v gv
    × (t ≡ u +++ v)
    × (g ≡ gu ++ gv)

-- The texts that an expression describes, with their groups; where a match stands is not asked.
abbrev pub Describes : Re → String → List String → Type 0
Describes blank t g = IsBlank t g
Describes (class test) t g = (c : Char) × (test c ≡ true) × (t ≡ String.◌∷◌ c "") × (g ≡ [])
Describes (seq a b) t g =
    (u : String) × (v : String) × (gu : List String) × (gv : List String) × Describes a u gu
    × Describes b v gv
    × (t ≡ u +++ v)
    × (g ≡ gu ++ gv)
Describes (alt a b) t g = Describes a t g ⊎ Describes b t g
Describes (star a) t g = Stars (Describes a) t g
Describes (group a) t g = (inner : List String) × Describes a t inner × (g ≡ t ∷ inner)
Describes boundary t g = IsBlank t g
Describes start t g = IsBlank t g
Describes finish t g = IsBlank t g

-- where a match ended, and that what follows it has succeeded from there
pub record Reached {R : Type 0} (P : String → List String → Type 0) (s : String) (next : Next R)
    (x : R) : Type 0 where
  pub text : String
  pub groups : List String
  pub before : Option Char
  pub rest : String
  pub described : P text groups
  pub split : s ≡ text +++ rest
  pub continued : next text groups before rest ≡ some x

abbrev IsSound : {R : Type 0} → (String → List String → Type 0) → Matcher R → Type 0
IsSound {R} P one =
    (before : Option Char) (s : String) (next : Next R) (x : R)
    → one before s next ≡ some x
    → Reached P s next x

stay :
    {R : Type 0} (before : Option Char) (s : String) (next : Next R) (x : R)
    → next "" [] before s ≡ some x
    → Reached IsBlank s next x
stay before s next x h = record {
  text = "";
  groups = [];
  before = before;
  rest = s;
  described = (refl, refl);
  split = sym (nil-append s);
  continued = h;
}

take_class_sound :
    {R : Type 0} (test : Char → Bool) (s : String) (next : Next R) (x : R)
    → take_class test s (λ c r. next (String.◌∷◌ c "") [] (some c) r) ≡ some x
    → Reached (Describes (class test)) s next x
unfolding take_class
take_class_sound test String.[] next x h = cc
take_class_sound test (String.◌∷◌ c s) next x h = elim (Bool-cases (test c)) [
  | inr other ↦ absurd (ground arith)
  | inl fits ↦ record {
    text = String.◌∷◌ c "";
    groups = [];
    before = some c;
    rest = s;
    described = (c, fits, refl, refl);
    split = sym (cons-append c "" s ∙ ap (String.◌∷◌ c) (nil-append s));
    continued = rw fits at h;
  }
]

-- one match, and another from where it ended
reach_on :
    {R : Type 0} (P Q : String → List String → Type 0) (s : String) (next : Next R) (x : R)
    (second : Matcher R)
    → IsSound Q second
    → Reached P s (λ t g m r. second m r (λ t' g' m' r'. next (t +++ t') (g ++ g') m' r')) x
    → Reached (InTurn P Q) s next x
reach_on P Q s next x second sound a =
    let b =
      sound a.before a.rest (λ t' g' m' r'. next (a.text +++ t') (a.groups ++ g') m' r') x
        a.continued in
    record {
      text = a.text +++ b.text;
      groups = a.groups ++ b.groups;
      before = b.before;
      rest = b.rest;
      described = (a.text, b.text, a.groups, b.groups, a.described, b.described, refl, refl);
      split =
          a.split ∙ ap (λ r. a.text +++ r) b.split ∙ sym (text-append_assoc a.text b.text b.rest);
      continued = b.continued;
    }

weaken :
    {R : Type 0} (P Q : String → List String → Type 0) {s : String} {next : Next R} {x : R}
    → ((t : String) (g : List String) → P t g → Q t g)
    → Reached P s next x
    → Reached Q s next x
weaken P Q imp r = record {
  text = r.text;
  groups = r.groups;
  before = r.before;
  rest = r.rest;
  described = imp r.text r.groups r.described;
  split = r.split;
  continued = r.continued;
}

repeated-IsSound :
    {R : Type 0} (P : String → List String → Type 0) (one : Matcher R)
    → IsSound P one
    → (rounds : ℕ) → IsSound (Stars P) (repeated one rounds)
unfolding repeated
repeated-IsSound P one sound zero before s next x h =
    weaken IsBlank (Stars P) (λ t g b. done b.0 b.1) (stay before s next x h)
repeated-IsSound {R} P one sound (suc rounds) before s next x h =
    let onward : Next R =
      λ t g b r. repeated one rounds b r (λ t' g' b' r'. next (t +++ t') (g ++ g') b' r') in
    elim (Option-cases (one before s onward)) [
      | inl missed ↦
          weaken IsBlank (Stars P) (λ t g b. done b.0 b.1) (stay before s next x (ground arith))
      | inr (y, hit) ↦
          let same : y ≡ x = ground arith in
          weaken (InTurn P (Stars P)) (Stars P) (λ t g d. more d.4 d.5 d.6 d.7)
            (reach_on P (Stars P) s next x (repeated one rounds)
              (repeated-IsSound P one sound rounds) (sound before s onward x (rw same at hit)))
    ]

-- What the search finds from a place is described by the expression, and the text goes on after it.
pub run-IsSound : {R : Type 0} (re : Re) → IsSound (Describes re) (run {R = R} re)
unfolding run
run-IsSound blank before s next x h = stay before s next x h
run-IsSound (class test) before s next x h = take_class_sound test s next x h
run-IsSound {R} (seq a b) before s next x h =
    reach_on (Describes a) (Describes b) s next x (run b) (run-IsSound b)
      (run-IsSound a before s _ x h)
run-IsSound (alt a b) before s next x h = elim (Option-cases (run a before s next)) [
  | inl missed ↦
      weaken (Describes b) (Describes (alt a b)) (λ t g d. inr d)
        (run-IsSound b before s next x (ground arith))
  | inr (y, hit) ↦
      let same : y ≡ x = ground arith in
      weaken (Describes a) (Describes (alt a b)) (λ t g d. inl d)
        (run-IsSound a before s next x (rw same at hit))
]
run-IsSound (star a) before s next x h =
    repeated-IsSound (Describes a) (run a) (run-IsSound a) (len s) before s next x h
run-IsSound (group a) before s next x h =
    let r = run-IsSound a before s _ x h in
    record {
      text = r.text;
      groups = r.text ∷ r.groups;
      before = r.before;
      rest = r.rest;
      described = (r.groups, r.described, refl);
      split = r.split;
      continued = r.continued;
    }
run-IsSound boundary before s next x h = elim (Bool-cases (at_boundary before s)) [
  | inl here ↦ stay before s next x (ground arith)
  | inr other ↦ absurd (ground arith)
]
run-IsSound start before s next x h = elim (Bool-cases (is_start before)) [
  | inl here ↦ stay before s next x (ground arith)
  | inr other ↦ absurd (ground arith)
]
run-IsSound finish before s next x h = elim (Bool-cases (is_empty s)) [
  | inl here ↦ stay before s next x (ground arith)
  | inr other ↦ absurd (ground arith)
]

found_sound :
    (re : Re) (before : Option Char) (s : String) (f : Found)
    → run re before s found ≡ some f
    → (s ≡ f.text +++ f.rest) × Describes re f.text f.groups
found_sound re before s f h =
    let r = run-IsSound re before s found f h in
    let same = r.continued in (ground (arith, r.split), ground (arith))

-- The leftmost match is a part of the text that the expression describes.
pub find_from_sound :
    (re : Re) (before : Option Char) (s : String) (f : Found)
    → find_from re before s ≡ some f
    → (skipped : String) × (s ≡ skipped +++ (f.text +++ f.rest)) × Describes re f.text f.groups
unfolding find_from
find_from_sound re before String.[] f h =
    let (split, described) = found_sound re before "" f h in
    ("", split ∙ sym (nil-append _), described)
find_from_sound re before (String.◌∷◌ c s) f h =
    elim (Option-cases (run re before (String.◌∷◌ c s) found)) [
      | inr (g, hit) ↦
          let (split, described) = found_sound re before (String.◌∷◌ c s) f (hit ∙ ground arith) in
          ("", split ∙ sym (nil-append _), described)
      | inl missed ↦
          let (skipped, split, described) = find_from_sound re (some c) s f (ground arith) in
          (String.◌∷◌ c skipped, ap (String.◌∷◌ c) split ∙ sym (cons-append c skipped _), described)
    ]

pub find_sound :
    (re : Re) (s : String) (f : Found)
    → find re s ≡ some f
    → (skipped : String) × (s ≡ skipped +++ (f.text +++ f.rest)) × Describes re f.text f.groups
unfolding find
find_sound re s f h = find_from_sound re none s f h
