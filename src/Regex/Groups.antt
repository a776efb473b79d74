-- ===== src/Regex/Groups.antt =====
-- Expressions whose groups describe digits.
use permission_aware_search.Common.{All, All-append, ℕ, String, ◌≡◌, inl, inr, some, List, [], ◌++◌}
use permission_aware_search.Regex.{
  find, digit, at_least, lit_i, Re, blank, class, seq, alt, star, group, boundary, start, finish,
  Found,
}
use permission_aware_search.Regex.Sound.{Describes, find_sound, Stars, done, more}
use permission_aware_search.Regex.Digits.{at_least-digits, IsDigits}

-- every group of the expression describes digits
abbrev pub HasDigits : Re → Type 0
HasDigits (group a) = (t : String) (g : List String) → Describes a t g → IsDigits t × (g ≡ [])
HasDigits (seq a b) = HasDigits a × HasDigits b
HasDigits (alt a b) = HasDigits a × HasDigits b
HasDigits (star a) = HasDigits a
HasDigits blank = Unit
HasDigits (class test) = Unit
HasDigits boundary = Unit
HasDigits start = Unit
HasDigits finish = Unit

All-IsDigits-append :
    (g h k : List String) → k ≡ g ++ h → All IsDigits g → All IsDigits h → All IsDigits k
All-IsDigits-append g h k e hg hh = rw e (All-append IsDigits g h hg hh)

Stars-groups :
    (P : String → List String → Type 0)
    → ((t : String) (g : List String) → P t g → All IsDigits g)
    → (t : String) (g : List String) → Stars P t g
    → All IsDigits g
Stars-groups P one t g (done e f) = rw f tt
Stars-groups P one t g (more {gu} {gv} p rest e f) =
    All-IsDigits-append gu gv g f (one _ gu p) (Stars-groups P one _ gv rest)

groups-IsDigits :
    (re : Re) → HasDigits re → (t : String) (g : List String) → Describes re t g → All IsDigits g
groups-IsDigits (group a) h t g (inner, d, e) =
    let (same, none') = h t inner d in rw (e, none') (same, tt)
groups-IsDigits (seq a b) h t g (u, v, gu, gv, d, d', e, f) =
    All-IsDigits-append gu gv g f (groups-IsDigits a h.0 u gu d) (groups-IsDigits b h.1 v gv d')
groups-IsDigits (alt a b) h t g (inl d) = groups-IsDigits a h.0 t g d
groups-IsDigits (alt a b) h t g (inr d) = groups-IsDigits b h.1 t g d
groups-IsDigits (star a) h t g d = Stars-groups (Describes a) (groups-IsDigits a h) t g d
groups-IsDigits blank h t g d = rw d.1 tt
groups-IsDigits (class test) h t g d = rw d.3 tt
groups-IsDigits boundary h t g d = rw d.1 tt
groups-IsDigits start h t g d = rw d.1 tt
groups-IsDigits finish h t g d = rw d.1 tt

pub find-IsDigits :
    (re : Re) (message : String) (f : Found)
    → HasDigits re
    → find re message ≡ some f
    → All IsDigits f.groups
find-IsDigits re message f h e =
    let (skipped, split, described) = find_sound re message f e in
    groups-IsDigits re h f.text f.groups described

pub digits-HasDigits : (n : ℕ) → HasDigits (group (at_least n digit))
digits-HasDigits n t g d = let (same, none', long) = at_least-digits n t g d in (same, none')

pub lit_i-HasDigits : (name : String) → HasDigits (lit_i name)
lit_i-HasDigits String.[] = tt
lit_i-HasDigits (String.◌∷◌ c s) = (tt, lit_i-HasDigits s)
