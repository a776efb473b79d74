-- ===== src/Strings/Folding.antt =====
-- Trimming and folding a text, once or twice.
use Prim.Native.Char.{Char, code}
use Prim.Native.String
use permission_aware_search.Common.{
  leb, Bool-cases, ℕ, ◌-◌, ◌<◌, String, ◌≡◌, refl, sym, ap, ◌∙◌, inl, inr, Bool, true, false, not,
  ◌&&◌, arith,
}
use permission_aware_search.Strings.{
  is_space, trim_left, cons_unless_space, trim_right, trim_space, lower_char, to_lower,
}
use permission_aware_search.Strings.Decimal.{all_below-lt}

abbrev small : ℕ → Char
small k = String.char_at "abcdefghijklmnopqrstuvwxyz" k

abbrev is_upper : Char → Bool
is_upper c = leb b'A' (code c) && leb (code c) b'Z'

upper-offset : (c : Char) → is_upper c ≡ true → code c - 65 < 26
upper-offset c h = ground arith

is_space-small : (k : ℕ) → k < 26 → is_space (small k) ≡ false
unfolding is_space
is_space-small k h =
    let checked = all_below-lt 26 k (λ j. not (is_space (small j))) refl h in ground arith

is_upper-small : (k : ℕ) → k < 26 → is_upper (small k) ≡ false
is_upper-small k h =
    let checked = all_below-lt 26 k (λ j. not (is_upper (small j))) refl h in ground arith

is_space-upper : (c : Char) → is_upper c ≡ true → is_space c ≡ false
unfolding is_space
is_space-upper c h = ground arith

is_space-lower_char : (c : Char) → is_space (lower_char c) ≡ is_space c
unfolding lower_char
is_space-lower_char c = elim (Bool-cases (is_upper c)) [
  | inl up ↦ rw up (is_space-small (code c - 65) (upper-offset c up) ∙ sym (is_space-upper c up))
  | inr other ↦ rw other refl
]

lower_char_idem : (c : Char) → lower_char (lower_char c) ≡ lower_char c
unfolding lower_char
lower_char_idem c = elim (Bool-cases (is_upper c)) [
  | inl up ↦ rw up (rw (is_upper-small (code c - 65) (upper-offset c up)) refl)
  | inr other ↦ rw (other, other) refl
]

to_lower_idem : (s : String) → to_lower (to_lower s) ≡ to_lower s
unfolding to_lower
to_lower_idem String.[] = refl
to_lower_idem (String.◌∷◌ c s) = cc (lower_char_idem c, to_lower_idem s)

trim_left-to_lower : (s : String) → trim_left (to_lower s) ≡ to_lower (trim_left s)
unfolding to_lower trim_left
trim_left-to_lower String.[] = refl
trim_left-to_lower (String.◌∷◌ c s) = elim (Bool-cases (is_space c)) [
  | inl blank ↦ rw (is_space-lower_char c, blank) (trim_left-to_lower s)
  | inr ink ↦ rw (is_space-lower_char c, ink) refl
]

cons_unless_space-to_lower :
    (c : Char) (s : String)
    → cons_unless_space (lower_char c) (to_lower s) ≡ to_lower (cons_unless_space c s)
unfolding to_lower
cons_unless_space-to_lower c String.[] = elim (Bool-cases (is_space c)) [
  | inl blank ↦ rw (is_space-lower_char c, blank) refl
  | inr ink ↦ rw (is_space-lower_char c, ink) refl
]
cons_unless_space-to_lower c (String.◌∷◌ d s) = refl

trim_right-to_lower : (s : String) → trim_right (to_lower s) ≡ to_lower (trim_right s)
unfolding to_lower trim_right
trim_right-to_lower String.[] = refl
trim_right-to_lower (String.◌∷◌ c s) =
    ap (cons_unless_space (lower_char c)) (trim_right-to_lower s)
    ∙ cons_unless_space-to_lower c (trim_right s)

-- no blank at the start
abbrev Inked : String → Type 0
Inked String.[] = Unit
Inked (String.◌∷◌ c s) = is_space c ≡ false

trim_left-Inked : (s : String) → Inked (trim_left s)
unfolding trim_left
trim_left-Inked String.[] = tt
trim_left-Inked (String.◌∷◌ c s) = elim (Bool-cases (is_space c)) [
  | inl blank ↦ rw blank (trim_left-Inked s)
  | inr ink ↦ rw ink ink
]

cons_unless_space-Inked :
    (c : Char) (s : String) → is_space c ≡ false → Inked (cons_unless_space c s)
cons_unless_space-Inked c String.[] h = rw h h
cons_unless_space-Inked c (String.◌∷◌ d s) h = h

trim_right-Inked : (s : String) → Inked s → Inked (trim_right s)
unfolding trim_right
trim_right-Inked String.[] h = tt
trim_right-Inked (String.◌∷◌ c s) h = cons_unless_space-Inked c (trim_right s) h

trim_left_of_Inked : (s : String) → Inked s → trim_left s ≡ s
unfolding trim_left
trim_left_of_Inked String.[] h = refl
trim_left_of_Inked (String.◌∷◌ c s) h = rw h refl

trim_right-cons_unless_space :
    (c : Char) (t : String)
    → trim_right t ≡ t
    → trim_right (cons_unless_space c t) ≡ cons_unless_space c t
unfolding trim_right
trim_right-cons_unless_space c String.[] h = elim (Bool-cases (is_space c)) [
  | inl blank ↦ rw blank refl
  | inr ink ↦ rw ink (rw ink refl)
]
trim_right-cons_unless_space c (String.◌∷◌ d t) h = ap (cons_unless_space c) h

trim_right_idem : (s : String) → trim_right (trim_right s) ≡ trim_right s
unfolding trim_right
trim_right_idem String.[] = refl
trim_right_idem (String.◌∷◌ c s) = trim_right-cons_unless_space c (trim_right s) (trim_right_idem s)

trim_space_idem : (s : String) → trim_space (trim_space s) ≡ trim_space s
unfolding trim_space
trim_space_idem s =
    let inked = trim_right-Inked (trim_left s) (trim_left-Inked s) in
    ap trim_right (trim_left_of_Inked (trim_right (trim_left s)) inked)
    ∙ trim_right_idem (trim_left s)

trim_space-to_lower : (s : String) → trim_space (to_lower s) ≡ to_lower (trim_space s)
unfolding trim_space
trim_space-to_lower s = ap trim_right (trim_left-to_lower s) ∙ trim_right-to_lower (trim_left s)

-- Trimming and folding what has been trimmed and folded changes nothing.
pub to_lower-trim_space_idem :
    (s : String) → to_lower (trim_space (to_lower (trim_space s))) ≡ to_lower (trim_space s)
to_lower-trim_space_idem s =
    ap to_lower (trim_space-to_lower (trim_space s) ∙ ap to_lower (trim_space_idem s))
    ∙ to_lower_idem (trim_space s)
