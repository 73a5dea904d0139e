-- ===== src/Inventory.antt =====
-- backend/internal/app/inventory_service.go: stock adjustments and orders. The definitions stand
-- in `Adjust` and `Orders`; what they keep and what they do is proved in the other children.
pub mod Adjust
pub mod Orders
pub mod Pure
pub mod Keeps
pub mod Lifecycle
