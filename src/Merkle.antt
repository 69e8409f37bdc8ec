-- ===== src/Merkle.antt =====
-- The Merkle trees of primitives/src/merkle_tree.
pub mod Node
pub mod Path
pub mod Lookup
pub mod Update
pub mod Verify
pub mod Remember
pub mod Extend
pub mod Build
pub mod Tree
pub mod Valid
pub mod Complete
pub mod Forget
pub mod Sound
pub mod Iter
pub mod Pruned
pub mod Restore
pub mod Along
pub mod Namespaced
