-- ===== src/Relation/Gadgets.antt =====
-- The gadgets of relation/src/gadgets: circuits for arithmetic, logic and ranges.
pub mod Arithmetic
pub mod Runs
pub mod Computes
pub mod Power
pub mod Sum
pub mod Logic
pub mod Range
pub mod Compare
