-- ===== src/Relation.antt =====
-- The constraint system of the `relation` crate.
pub mod Gates
pub mod Inverses
pub mod Circuit
pub mod Gadgets
