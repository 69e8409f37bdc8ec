-- ===== src/Merkle/Forget/Pruned.antt =====
-- `forget_internal` (primitives/src/merkle_tree/internal.rs) on a pruned copy of a tree.
use jellyfish.Prelude.{
  ℕ, zero, suc, ◌≡◌, refl, ap, inl, inr, some, Option-cases, List, get_elem?, Result,
}
use mathlib.Core.Path.{subst}
use mathlib.Core.Option.{some-injective}
use jellyfish.Merkle.Node.{
  MerkleNode, empty, branch, leaf, forgetten_subtree, Nodes, nil, cons, MerklePath, NodeValue,
  child?,
}
use jellyfish.Merkle.Lookup.{LookupResult, redact_child, forget_branch, forget_internal}
use jellyfish.Merkle.Forget.{forget_branch-cases}
use jellyfish.Merkle.Pruned.{All₂, All₂-set_child, Pruned}

module _ {E I T : Type 0} ⦃v : NodeValue T⦄ where
  All₂-child_left :
      (R : MerkleNode E I T → MerkleNode E I T → Type 0) (ds cs : Nodes E I T) (b : ℕ)
      {d : MerkleNode E I T}
      → All₂ R ds cs
      → child? ds b ≡ some d
      → (c : MerkleNode E I T) × (child? cs b ≡ some c) × R d c
  All₂-child_left R nil nil b a k = cc
  All₂-child_left R nil (cons c cs) b a k = absurd a
  All₂-child_left R (cons d ds) nil b a k = absurd a
  All₂-child_left R (cons d ds) (cons c cs) zero a k =
      (c, refl, subst (λ x. R x c) (some-injective _ _ k) a.0)
  All₂-child_left R (cons d ds) (cons c cs) (suc b) a k = All₂-child_left R ds cs b a.1 k

  forget_branch-Pruned :
      (t' t : T) (ds cs : Nodes E I T) (height : ℕ)
      (r : Result (LookupResult E (MerklePath E I T) (MerklePath E I T)))
      → t' ≡ t
      → All₂ (Pruned height) ds cs
      → Pruned (suc height) (forget_branch t' ds r).0 (branch t cs)
  forget_branch-Pruned t' t ds cs height r same all = elim (forget_branch-cases t' ds r) [
    | inl stays ↦ rw stays (same, all)
    | inr gone ↦ rw gone (ap forgetten_subtree same)
  ]

  pub forget_internal-Pruned :
      (height : ℕ) (node' node : MerkleNode E I T) (path : List ℕ)
      → Pruned height node' node
      → Pruned height (forget_internal node' height path).0 node
  unfolding forget_internal
  forget_internal-Pruned height empty node path p = p
  forget_internal-Pruned height (leaf t i e) node path p = ap redact_child p
  forget_internal-Pruned height (forgetten_subtree t) node path p = p
  forget_internal-Pruned zero (branch t' ds) node path p = p
  forget_internal-Pruned (suc height) (branch t' ds) empty path p = absurd p
  forget_internal-Pruned (suc height) (branch t' ds) (leaf t i e) path p = absurd p
  forget_internal-Pruned (suc height) (branch t' ds) (forgetten_subtree t) path p = absurd p
  forget_internal-Pruned (suc height) (branch t' ds) (branch t cs) path (same, all) =
      elim (Option-cases (get_elem? path height)) [
        | inl out ↦ rw out (same, all)
        | inr (b, at) ↦ elim (Option-cases (child? ds b)) [
          | inl out ↦ rw (at, out) (same, all)
          | inr (d, k) ↦
              let (c, k', pruned) = All₂-child_left (Pruned height) ds cs b all k in
              rw (at, k)
                (forget_branch-Pruned t' t _ cs height (forget_internal d height path).1 same (
                  All₂-set_child (Pruned height) ds cs b _ all k'
                    (forget_internal-Pruned height d c path pruned)))
        ]
      ]
