-- ===== src/Tests.antt =====
-- Concrete instances for the tests and for the examples of the theorems.
pub mod Hash
pub mod Sample
pub mod Merkle
pub mod Vid
pub mod Builders
pub mod Relation
pub mod Namespaced
pub mod Circuit
pub mod Gadgets
