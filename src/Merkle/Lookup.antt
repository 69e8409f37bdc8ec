-- ===== src/Merkle/Lookup.antt =====
-- Lookups: `LookupResult` (primitives/src/merkle_tree/mod.rs), `lookup_internal` and
-- `forget_internal` (primitives/src/merkle_tree/internal.rs).

use jellyfish.Prelude.{
  ℕ, zero, suc, ◌+◌, Bool, true, false, Option, none, some, List, [], ◌∷◌, ◌++◌, replicate,
  get_elem?, if◌then◌else◌, Result, ok, err, panic, ◌>>=◌, or_panic,
}
use jellyfish.Prelude.PrimitivesError.{internal_error}
use jellyfish.Merkle.Node.{
  MerkleNode, empty, branch, leaf, forgetten_subtree, Nodes, nil, cons, MerklePath, NodeValue,
  child?, set_child, all_children,
}

-- `found` is the source's `Ok`.
pub data LookupResult (F P N : Type 0) : Type 0 where
  found : F → P → LookupResult F P N
  not_in_memory : LookupResult F P N
  not_found : N → LookupResult F P N

module _ {F P N : Type 0} where
  pub expect_ok : LookupResult F P N → Result (F × P)
  expect_ok (found x proof) = ok (x, proof)
  expect_ok not_in_memory = err (internal_error "Expected Ok, found NotInMemory")
  expect_ok (not_found n) = err (internal_error "Expected Ok, found NotFound")

  pub expect_not_found : LookupResult F P N → Result N
  expect_not_found (not_found n) = ok n
  expect_not_found (found x proof) = err (internal_error "Expected NotFound, found Ok")
  expect_not_found not_in_memory = err (internal_error "Expected NotFound, found NotInMemory")

  pub expect_not_in_memory : LookupResult F P N → Result (Unit {0})
  expect_not_in_memory not_in_memory = ok tt
  expect_not_in_memory (found x proof) = err (internal_error "Expected NotInMemory, found Ok")
  expect_not_in_memory (not_found n) = err (internal_error "Expected NotInMemory, found NotFound")

module _ {E I T : Type 0} ⦃v : NodeValue T⦄ where
  -- A child of a branch in a proof: an empty one stays, of any other the value is kept.
  abbrev pub redact_child : MerkleNode E I T → MerkleNode E I T
  redact_child empty = empty
  redact_child (branch t cs) = forgetten_subtree t
  redact_child (leaf t p e) = forgetten_subtree t
  redact_child (forgetten_subtree t) = forgetten_subtree t

  abbrev pub redact : Nodes E I T → Nodes E I T
  redact nil = nil
  redact (cons c cs) = cons (redact_child c) (redact cs)

  abbrev pub proof_branch : Nodes E I T → MerkleNode E I T
  proof_branch cs = branch v.default (redact cs)

  -- `proof.push(MerkleNode::Branch { .. })` on the result for the child.
  abbrev pub push_branch :
      Nodes E I T
      → LookupResult E (MerklePath E I T) (MerklePath E I T)
      → LookupResult E (MerklePath E I T) (MerklePath E I T)
  push_branch cs (found e proof) = found e (proof ++ proof_branch cs ∷ [])
  push_branch cs not_in_memory = not_in_memory
  push_branch cs (not_found proof) = not_found (proof ++ proof_branch cs ∷ [])

  -- `height - 1` at height 0 wraps or panics, and the index that it makes is out of bounds.
  unfoldable pub lookup_internal :
      MerkleNode E I T → ℕ → List ℕ → Result (LookupResult E (MerklePath E I T) (MerklePath E I T))
  lookup_internal empty height path = ok (not_found (replicate (height + 1) empty))
  lookup_internal (branch t cs) zero path = panic
  lookup_internal (branch t cs) (suc height) path = do
    b ← or_panic (get_elem? path height)
    child ← or_panic (child? cs b)
    result ← lookup_internal child height path
    ok (push_branch cs result)
  lookup_internal (leaf t p e) height path = ok (found e (leaf t p e ∷ []))
  lookup_internal (forgetten_subtree t) height path = ok not_in_memory

module _ {E I T : Type 0} {A : Type 0} where
  abbrev pub with_child :
      Nodes E I T
      → ℕ
      → Option (MerkleNode E I T)
      → (MerkleNode E I T → MerkleNode E I T × Result A)
      → Nodes E I T × Result A
  with_child cs b none step = (cs, panic)
  with_child cs b (some child) step =
      let (child', result) = step child in (set_child cs b child', result)

  -- `children[traversal_path[height - 1]].step(..)`, for a method that changes the child.
  abbrev pub descend :
      Nodes E I T
      → Option ℕ
      → (MerkleNode E I T → MerkleNode E I T × Result A)
      → Nodes E I T × Result A
  descend cs none step = (cs, panic)
  descend cs (some b) step = with_child cs b (child? cs b) step

module _ {E I T : Type 0} ⦃v : NodeValue T⦄ where
  abbrev pub is_pruned : MerkleNode E I T → Bool
  is_pruned empty = true
  is_pruned (forgetten_subtree t) = true
  is_pruned (branch t cs) = false
  is_pruned (leaf t p e) = false

  -- What `forget_internal` does at a branch, from the children and the result that the recursive
  -- call left.
  abbrev pub forget_branch :
      T
      → Nodes E I T
      → Result (LookupResult E (MerklePath E I T) (MerklePath E I T))
      → MerkleNode E I T × Result (LookupResult E (MerklePath E I T) (MerklePath E I T))
  forget_branch t cs (ok (found e proof)) = (
    if all_children is_pruned cs then forgetten_subtree t else branch t cs,
    ok (push_branch cs (found e proof)),
  )
  forget_branch t cs (ok not_in_memory) = (branch t cs, ok not_in_memory)
  forget_branch t cs (ok (not_found proof)) = (branch t cs, ok (push_branch cs (not_found proof)))
  forget_branch t cs (err e) = (branch t cs, err e)
  forget_branch t cs panic = (branch t cs, panic)

  unfoldable pub forget_internal :
      MerkleNode E I T
      → ℕ
      → List ℕ
      → MerkleNode E I T × Result (LookupResult E (MerklePath E I T) (MerklePath E I T))
  forget_internal empty height path = (empty, ok (not_found (replicate (height + 1) empty)))
  forget_internal (branch t cs) zero path = (branch t cs, panic)
  forget_internal (branch t cs) (suc height) path =
      let (cs', result) =
        descend cs (get_elem? path height) (λ child. forget_internal child height path) in
      forget_branch t cs' result
  forget_internal (leaf t p e) height path = (forgetten_subtree t, ok (found e (leaf t p e ∷ [])))
  forget_internal (forgetten_subtree t) height path = (forgetten_subtree t, ok not_in_memory)
