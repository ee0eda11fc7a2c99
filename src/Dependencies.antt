-- ===== src/Dependencies.antt =====
-- The dependency graphs, ancestry manifests and registries behind held-out measurements.
pub mod Graph
pub mod Manifests
pub mod Receipts
pub mod Ancestry
pub mod Attestations
pub mod Registry
