-- ===== src/Relation/Circuit.antt =====
-- The circuits of relation/src/constraint_system.rs: state, operations, checks.
pub mod Outcome
pub mod State
pub mod Operations
pub mod Rows
pub mod Model
pub mod Grows
pub mod Agreement
pub mod Effects
pub mod Realises
pub mod Arithmetic
pub mod Computes
pub mod Compose
pub mod New
pub mod Keeps
pub mod Invariant
pub mod Errors
pub mod Permutation
pub mod Selectors
pub mod Finalize
pub mod Merge
pub mod Check
