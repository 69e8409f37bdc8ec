-- ===== src/Lib.antt =====
-- Jellyfish: the Merkle trees of the `primitives` crate, its conversion of bytes to field
-- elements, and the constraint system of the `relation` crate with its gates and gadgets.
--
-- The parts. `primitives/src/merkle_tree/internal.rs` has the node type and the recursive
-- operations on a node; `macros.rs`, `universal_merkle_tree.rs`, `append_only.rs` and
-- `light_weight.rs` beside it have the tree types, which turn an index into a path from the root
-- and call them. Trees are generic in a hash function; `namespaced_merkle_tree/hash.rs` makes
-- one that records the range of namespaces below a node.
-- `primitives/src/vid/advz/bytes_to_field.rs` packs the bytes of a payload into field elements
-- and back. `relation/src/gates` has the gates of the Plonk constraint system, whose equation
-- `check_gate` in `relation/src/constraint_system.rs` evaluates. That file has the circuit
-- itself, `PlonkCircuit`: the values of its variables, its gates and the variables each is wired
-- to, and the methods that add to them. The gadgets of `relation/src/gadgets` call these.
--
-- The files.
--   Prelude: lists, Boolean tests, signed integers, iterators, and `Result` with a third outcome
--     `panic` for an index out of bounds or a failed `expect`.
--   Merkle/Node: `MerkleNode`, a branch's `Vec` of children as the type `Nodes`, the traits
--     `NodeValue` and `DigestAlgorithm` as records.
--   Merkle/Path: `ToTraversalPath`, the digits of an index in the base of the arity, the lowest first.
--   Merkle/Lookup: `lookup_internal`, `forget_internal`.
--   Merkle/Update: `update_with_internal`, with the change of the number of leaves as its `delta`.
--   Merkle/Verify: `MerkleProof` and `verify_membership_proof`, `verify_non_membership_proof`.
--   Merkle/Remember: `remember_internal` and the values along a proof.
--   Merkle/Extend: `extend_internal`, `extend_and_forget_internal`.
--   Merkle/Build: `build_tree_internal`, `build_light_weight_tree_internal`.
--   Merkle/Iter: `MerkleTreeIter`, `MerkleTreeIntoIter`.
--   Merkle/Tree: the tree record and the methods of the tree types (`lookup`, `universal_lookup`,
--     `verify`, `update`, `update_with`, `remove`, `forget`, `remember`, `from_elems`, `extend`, ..).
--   Merkle/Namespaced: `NamespacedHasher`.
--   Vid/BytesToField: `BytesToField`, `FieldToBytes`, `elem_byte_capacity`.
--   Relation/Gates: the gates as records of selectors, and the two sides of a gate's equation.
--   Relation/Inverses: what the code uses of `ark_ff` besides: equality, inverses, order, bits.
--   Relation/Circuit/Outcome: `Result<T, CircuitError>` with a panic, and the monad of the methods.
--   Relation/Circuit/State: `PlonkCircuit`, `PlonkParams`, a gate's wires as `Row` and `Wires`.
--   Relation/Circuit/Operations: the methods that create variables, insert gates and constrain.
--   Relation/Circuit/Check: `check_gate`, `check_range_gate`, `check_circuit_satisfiability`.
--   Relation/Circuit/Finalize: `finalize_for_arithmetization`, the padding and the order of the gates.
--   Relation/Circuit/Merge: `finalize_for_mergeable_circuit`, `merge`.
--   Relation/Circuit/Permutation: `compute_wire_permutation` and the extended permutations.
--   Relation/Circuit/Selectors: the selectors of all gates, `public_input`, the range table.
--   Relation/Gadgets/{Arithmetic, Sum, Logic, Range, Compare}: the gadgets of arithmetic.rs (`sum` in
--     its own file), logic.rs, range.rs and cmp.rs.
--   Tests: concrete trees, a hash that keeps what it hashes, runs, and the theorems at examples.
-- Proofs stand in the child modules (Merkle/Build/Root has the reference computation of a root
-- from digests alone) and in Merkle/{Valid, Complete, Sound, Forget, Pruned, Restore, Along};
-- those about circuits in the other files of Relation/Circuit and in the child modules of
-- Relation/Gadgets.
--
-- State and operations. A method that takes `&mut self` is a function to the changed state and
-- the result, also where the result is an error: what an error leaves behind is part of the
-- result. An operation that recurses through a child is a function on the child's result
-- (`push_branch`, `forget_branch`, `update_branch`, `grow_branch`, `remember_match`). A tree is
-- well formed (`IsValid`) when every branch has `arity` children and the digest of their values,
-- leaves stand at height 0 with the digest of their position and element, and a forgotten
-- sub-tree is any value. A pruned copy (`Pruned`) has some sub-trees of a tree replaced by their
-- values.
--
-- Circuits. A method of `PlonkCircuit` is an `Op`: a function of the circuit to an outcome and
-- the circuit it leaves, after an error too. A circuit is open (`IsOpen`) where it is not
-- finalized, has its two constants, a value for each variable, and gates that are wired to
-- variables it has. Three notions relate an operation to what it means: `Grows`, that the
-- circuit after it has what it had and more variables and gates; `Satisfies w c`, that an
-- assignment `w` of values to variables satisfies the equation of each gate of `c`, and
-- `IsSatisfied`, that the circuit's own values do; and `Realises` and `Asserts`, that an
-- operation returns a variable whose value is a function of the assignment, or constrains the
-- assignment, in every assignment that satisfies the circuit it leaves. The evaluation domain is
-- kept as its size, a `BoolVar` as the index it wraps, and a boxed gate as its selectors with a
-- mark for the one type that the code tests for.
--
-- Bounds. Indices and heights are native numbers; `num_leaves` wraps modulo 2^64 where
-- `update_with` adds a delta to it and where `extend` adds a count; a capacity past 64 bits is a
-- panic in `min_height`. The recursion is on the height or on the path. The loops on fuel are
-- `min_height`, with one more than the number of leaves, where the arity is at least two and no
-- product is past 64 bits; `chunks`, with the length of the list (Merkle/Build/Fuel is about
-- both); and `pop_leaf`, with the number of nodes on the stack (Merkle/Iter/Order). The loops of
-- the gadgets are recursion on the rounds that are left. A shift of a `usize` by 64 or more, an
-- underflow and an index past the end are a panic, as in a debug build.
--
-- Parameters. The hash is any `DigestAlgorithm`, which may fail; that it has no collisions and
-- no digest equal to the value of an empty node (`IsCollisionFree`) is assumed where a
-- verifier's answer is related to the tree, and nowhere else. The prime field is a record of the
-- conversions that the code calls, with the laws that ark_ff documents (`IsPrimeField`); what
-- room `Vec::with_capacity` makes is an argument, exact where bytes are said to come back; the
-- field of the gates is a record of its operations, with the laws of a ring that their equations
-- need (`IsField`, `IsCommutative`), with `pow` as repeated multiplication (`IsPower`), and
-- where code branches on a value, of an equality and an inverse (`Inverses`, `IsInverses`).
-- Order and the conversion to bits are `OrderedField`; that a value is that of its bits is
-- assumed where a theorem needs it. Evaluation domains and the representatives of their cosets,
-- which a random generator draws, are `Domains`.
--
-- Not modelled. An arity of 0, for which the code divides by zero, and of 1, for which the loop
-- of `min_height` does not end; the text of errors that is formatted from values, with the debug
-- print of a failed gate check; serialization; index types other than numbers; the namespaced
-- tree and its proofs; of the circuit, its merged lookup table and the polynomials of
-- `Arithmetization`, which are arkworks'; the gadgets for lookup tables, curves and emulated
-- arithmetic; and the other parts of the repository.
pub mod Prelude
pub mod Merkle
pub mod Vid
pub mod Relation
pub mod Tests
