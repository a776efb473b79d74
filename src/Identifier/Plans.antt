-- ===== src/Identifier/Plans.antt =====
-- What is true of every plan of `BuildResolutionPlanWithConfig`.
use permission_aware_search.Common.{
  ◌==◌, any, all, String, ◌≡◌, ◌⊎◌, Bool, true, false, not, ◌&&◌, ◌||◌, Option, List,
}
use permission_aware_search.Schema.Registry.{Registry}
use permission_aware_search.Identifier.{GroupSpec, ResolutionPlan}
use permission_aware_search.Identifier.Detect.{is_nil, should_use_fast_path}
use permission_aware_search.Identifier.Shape.{shape_typeahead}
use permission_aware_search.Identifier.Resolve.{groups_of, group_key}
use permission_aware_search.Semantic.Merged.{has_key, Distinct}

abbrev pub is_op : GroupSpec → Bool
is_op g = g.operator == "eq" || g.operator == "like"

abbrev IsOp : String → Type 0
IsOp op = (op ≡ "eq") ⊎ (op ≡ "like")

abbrev pub is_of : String → GroupSpec → Bool
is_of hint g = g.resource_type == hint

-- the hint names a resource that some lookup is of
abbrev pub is_hinted : String → List GroupSpec → Bool
is_hinted hint lookups = (hint == "order" || hint == "customer") && any (is_of hint) lookups

-- Of the lookups, the groups have those of the resource that is hinted at, or all of them if there is no hint
-- or no lookup of it.
pub record Follows (hint : String) (lookups groups : List GroupSpec) : Type 0 where
  pub kept :
      (k : String)
      → has_key group_key k groups
        ≡ any (λ g. group_key g == k && (not (is_hinted hint lookups) || is_of hint g)) lookups
  pub only : (is_hinted hint lookups ≡ false) ⊎ (all (is_of hint) groups ≡ true)

-- what is true of every plan
pub record IsPlan (reg : Option Registry) (input hint : String) (p : ResolutionPlan) : Type 0 where
  pub distinct : Distinct group_key p.groups
  pub operators : all is_op p.groups ≡ true
  pub follows :
      Follows hint (groups_of reg input (p.query_shape == shape_typeahead) p.detected) p.groups
  pub fast : (p.should_use_fast_path && (is_nil p.detected || is_nil p.groups)) ≡ false
