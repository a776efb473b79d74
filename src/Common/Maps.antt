-- ===== src/Common/Maps.antt =====
-- Go's `map[string]V` as an association list, and `map[string]struct{}` as a list of keys.
use Prim.Native.String.{String}
use mathlib.Core.Path.{◌≡◌, refl}
use mathlib.Core.Bool.{Bool, false, ◌||◌}
use mathlib.Core.Option.{Option, none, some}
use mathlib.Core.List.{List, [], ◌∷◌}
use native.Mathlib.Omega.{arith}
use text.Mathlib.TextEquality.{eq_iff}
use permission_aware_search.Common.Tests.{◌==◌, if◌then◌else◌}

-- `_, ok := set[key]`
unfoldable pub mem : String → List String → Bool
mem k [] = false
mem k (j ∷ s) = j == k || mem k s

module _ {ℓ} {V : Type ℓ} where
  -- `v, ok := m[key]`
  unfoldable pub lookup : String → List (String × V) → Option V
  lookup wanted [] = none
  lookup wanted ((key, found) ∷ rest) = if key == wanted then some found else lookup wanted rest

  -- `m[key] = new`, in place where the key is there
  unfoldable pub insert : String → V → List (String × V) → List (String × V)
  insert wanted new [] = (wanted, new) ∷ []
  insert wanted new (entry ∷ rest) =
      if entry.0 == wanted then (wanted, new) ∷ rest else entry ∷ insert wanted new rest

  -- `delete(m, key)`
  unfoldable pub remove : String → List (String × V) → List (String × V)
  remove wanted [] = []
  remove wanted (entry ∷ rest) =
      if entry.0 == wanted then remove wanted rest else entry ∷ remove wanted rest

  pub lookup-insert :
      (set read : String) (new : V) (entries : List (String × V))
      → lookup read (insert set new entries)
        ≡ (if set == read then some new else lookup read entries)
  unfolding lookup insert
  lookup-insert set read new [] = refl
  lookup-insert set read new ((key, old) ∷ rest) =
      let hyp = lookup-insert set read new rest in
      ground (arith, hyp, eq_iff key set, eq_iff key read, eq_iff set read)

  pub lookup-remove :
      (gone read : String) (entries : List (String × V))
      → lookup read (remove gone entries) ≡ (if gone == read then none else lookup read entries)
  unfolding lookup remove
  lookup-remove gone read [] = ground arith
  lookup-remove gone read ((key, old) ∷ rest) =
      let hyp = lookup-remove gone read rest in
      ground (arith, hyp, eq_iff key gone, eq_iff key read, eq_iff gone read)

pub ruleset map_laws = (lookup-insert, lookup-remove)
