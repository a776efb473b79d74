-- ===== src/Strings/Laws.antt =====
-- Laws of the text operations.
use Prim.Native.Char.{Char, code}
use Prim.Native.String.{[], ◌∷◌}
use text.Mathlib.TextLemmas.{nil-append, cons-append, head-eq_of_cons-eq, tail-eq_of_cons-eq}
use permission_aware_search.Common.{
  String, Bool, not, ◌&&◌, eqb, ◌≡◌, ◌≢◌, refl, sym, ap, arith, true, ◌∙◌,
}
use permission_aware_search.Strings.{to_lower, trim_space, contains, equal_fold, ◌+++◌}

texts : (trim_space "  a b\n" ≡ "a b") × (to_lower "ORD-1 x" ≡ "ord-1 x")
unfolding trim_space to_lower
texts = (refl, refl)

tests : (contains "where is my order" "order" ≡ true) × (equal_fold "NEQ" "neq" ≡ true)
unfolding contains equal_fold
tests = (refl, refl)

-- no character of the text has this code
abbrev pub Lacks : Char → String → Type 0
Lacks a [] = Unit
Lacks a (c ∷ s) = (c ≢ a) × Lacks a s

-- Texts that lack the separator can be read back from the joined text.
pub append-sep_inj :
    (a : Char) (s s' t t' : String)
    → Lacks a s
    → Lacks a s'
    → s +++ (a ∷ t) ≡ s' +++ (a ∷ t')
    → (s ≡ s') × (t ≡ t')
append-sep_inj a [] [] t t' l l' e =
    (refl, tail-eq_of_cons-eq (sym (nil-append (a ∷ t)) ∙ e ∙ nil-append (a ∷ t')))
append-sep_inj a [] (d ∷ s') t t' l l' e =
    absurd
      (l'.0 (sym (head-eq_of_cons-eq (sym (nil-append (a ∷ t)) ∙ e ∙ cons-append d s' (a ∷ t')))))
append-sep_inj a (c ∷ s) [] t t' l l' e =
    absurd (l.0 (head-eq_of_cons-eq (sym (cons-append c s (a ∷ t)) ∙ e ∙ nil-append (a ∷ t'))))
append-sep_inj a (c ∷ s) (d ∷ s') t t' l l' e =
    let whole = sym (cons-append c s (a ∷ t)) ∙ e ∙ cons-append d s' (a ∷ t') in
    let (same, rest) = append-sep_inj a s s' t t' l.1 l'.1 (tail-eq_of_cons-eq whole) in
    let first = head-eq_of_cons-eq whole in (cc (first, same), rest)

unfoldable pub lacks : Char → String → Bool
lacks a [] = true
lacks a (c ∷ s) = not (eqb (code c) (code a)) && lacks a s

pub Lacks-of_lacks : (a : Char) (s : String) → lacks a s ≡ true → Lacks a s
unfolding lacks
Lacks-of_lacks a [] h = tt
Lacks-of_lacks a (c ∷ s) h =
    ((λ e. let same = ap code e in ground arith), Lacks-of_lacks a s (ground arith))
