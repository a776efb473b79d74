-- ===== src/Tests/Identifier.antt =====
-- internal/identifier at concrete inputs.
use permission_aware_search.Common.{String, ◌≡◌, refl, false, none, some, [], ◌∷◌, map}
use permission_aware_search.Common.Int.{pos}
use permission_aware_search.Schema.Ecommerce.{ecommerce_registry}
use permission_aware_search.Identifier.{DetectedIdentifier, GroupSpec, ResolutionPlan}
use permission_aware_search.Identifier.Shape.{QueryShapeThresholds}
use permission_aware_search.Identifier.Resolve.{build_resolution_plan}

abbrev zero_thresholds : QueryShapeThresholds
zero_thresholds = record {
  short_no_op_len = pos 0;
  generic_prefix_min_len = pos 0;
  id_prefix_min_len = pos 0;
  email_prefix_min_len = pos 0;
}

abbrev plan : String → ResolutionPlan
plan input = build_resolution_plan (some ecommerce_registry) input "" "" none zero_thresholds

lookups :
    (map (λ (d : DetectedIdentifier). d.normalized_value) (plan "cust-001234").detected
      ≡ "CUST-001234" ∷ "001234" ∷ [])
    × (map (λ (d : DetectedIdentifier). d.normalized_value) (plan "ord-12345").detected
        ≡ "ORD-012345" ∷ [])
    × ((plan "show me open orders").query_shape ≡ "sentence_nl")
    × ((plan "show me open orders").should_use_fast_path ≡ false)
    × ((plan "ann@example.com").query_shape ≡ "contact_lookup")
    × ((plan "5").query_shape ≡ "typeahead_prefix")
unfolding build_resolution_plan ecommerce_registry
lookups = (refl, refl, refl, refl, refl, refl)

-- An input of digits is looked up with its blanks.
blanks :
    map (λ (g : GroupSpec). g.value) (plan " 123456").groups
    ≡ " 123456%" ∷ " 123456%" ∷ " 123456%" ∷ " 123456%" ∷ []
unfolding build_resolution_plan ecommerce_registry
blanks = refl
