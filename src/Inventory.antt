-- ===== src/Inventory.antt =====
-- internal/inventory: what the inventory-controller exports of a resource, and where to.
pub mod Normalize
pub mod ExportPath
pub mod Reconciler
pub mod Controller
