-- ===== src/Schema/Ecommerce.antt =====
-- internal/schema/ecommerce.go: the definition of the demo domain and its registry.
mod Parts
mod Order
mod Customer
pub use Parts.{customer_id_of_number}
unfoldable pub use Order.{order_resource}
unfoldable pub use Customer.{customer_resource}
use permission_aware_search.Common.{[], ◌∷◌}
use permission_aware_search.Schema.{Definition}
use permission_aware_search.Schema.Registry.{new, Registry}

-- `EcommerceDefinition`
abbrev pub ecommerce_definition : Definition
ecommerce_definition = record { resources = order_resource ∷ customer_resource ∷ [] }

unfoldable pub ecommerce_registry : Registry
unfolding new order_resource customer_resource
ecommerce_registry = new ecommerce_definition
