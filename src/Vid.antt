-- ===== src/Vid.antt =====
-- The verifiable information dispersal of primitives/src/vid.
pub mod BytesToField
