-- ===== src/Merkle/Update.antt =====
-- `update_with_internal` (primitives/src/merkle_tree/internal.rs): insertion, change and removal
-- of the leaf at a traversal path. A method on `&mut self` returns the node that it leaves, also
-- where it fails.
pub mod Step
pub mod Read
pub mod Keeps
pub mod Count
use jellyfish.Prelude.{
  ℕ, zero, suc, Bool, false, Option, none, some, List, get_elem?, if◌then◌else◌, Result, ok, err,
  panic, ℤ, pos, negsuc,
}
use jellyfish.Merkle.Node.{
  MerkleNode, empty, branch, leaf, forgetten_subtree, Nodes, NodeValue, DigestAlgorithm, empties,
  is_empty, is_forgotten, all_children, child?, digest_branch,
}
use jellyfish.Merkle.Lookup.{LookupResult, found, not_in_memory, not_found, descend}

-- The change of the number of leaves, and what stood at the index.
abbrev pub Updated : Type 0 → Type 0
Updated E = ℤ × LookupResult E (Unit {0}) (Unit {0})

module _ {E I T : Type 0} where
  -- A test on `children[b]`, after a call that has indexed it.
  abbrev pub test_child : (MerkleNode E I T → Bool) → Nodes E I T → Option ℕ → Bool
  test_child p cs none = false
  test_child p cs (some b) = elim (child? cs b) [ none ↦ false | some c ↦ p c ]

module _ {E I T A : Type 0} where
  -- `let d = digest?; *self = changed(d); Ok(r)`: a failure leaves the node as it is.
  abbrev pub assign :
      MerkleNode E I T → (T → MerkleNode E I T) → A → Result T → MerkleNode E I T × Result A
  assign self changed r (ok t) = (changed t, ok r)
  assign self changed r (err e) = (self, err e)
  assign self changed r panic = (self, panic)

module _ {E I T : Type 0} ⦃v : NodeValue T⦄ ⦃h : DigestAlgorithm E I T⦄ where
  abbrev pub update_leaf : T → I → E → Option E → MerkleNode E I T × Result (Updated E)
  update_leaf t p e none = (empty, ok (negsuc 0, found e tt))
  update_leaf t p e (some e') =
      assign (leaf t p e) (λ t'. leaf t' p e') (pos 0, found e tt) (h.digest_leaf p e')

  abbrev pub insert_leaf : I → Option E → MerkleNode E I T × Result (Updated E)
  insert_leaf p none = (empty, ok (pos 0, not_found tt))
  insert_leaf p (some e) = assign empty (λ t. leaf t p e) (pos 1, not_found tt) (h.digest_leaf p e)

  -- What is done at a branch with the children that the recursive call left.
  abbrev pub update_branch :
      T → Nodes E I T → Option ℕ → Result (Updated E) → MerkleNode E I T × Result (Updated E)
  update_branch t cs b (ok r) =
      if test_child is_forgotten cs b
      then (branch t cs, ok r)
      else if all_children is_empty cs
      then (empty, ok r)
      else assign (branch t cs) (λ t'. branch t' cs) r (digest_branch cs)
  update_branch t cs b (err e) = (branch t cs, err e)
  update_branch t cs b panic = (branch t cs, panic)

  -- The same at an empty node, whose children are new.
  abbrev pub grow_branch :
      Nodes E I T → Option ℕ → Result (Updated E) → MerkleNode E I T × Result (Updated E)
  grow_branch cs b (ok r) =
      if test_child is_empty cs b
      then (empty, ok r)
      else assign empty (λ t. branch t cs) r (digest_branch cs)
  grow_branch cs b (err e) = (empty, err e)
  grow_branch cs b panic = (empty, panic)

  unfoldable pub update_with_internal :
      ℕ
      → MerkleNode E I T
      → ℕ
      → I
      → List ℕ
      → (Option E → Option E)
      → MerkleNode E I T × Result (Updated E)
  update_with_internal arity (leaf t p e) height index path f = update_leaf t p e (f (some e))
  update_with_internal arity (branch t cs) zero index path f = (branch t cs, panic)
  update_with_internal arity (branch t cs) (suc height) index path f =
      let b = get_elem? path height in
      let (cs', result) =
        descend cs b (λ child. update_with_internal arity child height index path f) in
      update_branch t cs' b result
  update_with_internal arity empty zero index path f = insert_leaf index (f none)
  update_with_internal arity empty (suc height) index path f =
      let b = get_elem? path height in
      let (cs', result) =
        descend (empties arity) b (λ child. update_with_internal arity child height index path f) in
      grow_branch cs' b result
  update_with_internal arity (forgetten_subtree t) height index path f =
      (forgetten_subtree t, ok (pos 0, not_in_memory))
