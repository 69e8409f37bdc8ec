-- ===== src/Merkle/Tree/Soundness.antt =====
-- What `verify` (primitives/src/merkle_tree/macros.rs) and `non_membership_verify`
-- (universal_merkle_tree.rs beside it) accept, under a hash function without collisions. `verify` does
-- not look at the tree's height: that the proof has it is a premise.
use mathlib.Core.Path.{ap₂}
use jellyfish.Prelude.{
  PrimitivesError, ℕ, suc, ◌-◌, ◌<◌, ◌≡◌, refl, ap, ◌∙◌, ◌⊎◌, inl, inr, Bool, true, false,
  Bool-cases, some, [], ◌∷◌, length, Result, ok, err, panic, >>=-eq-ok, ok-injective, if◌then◌else◌,
  ◌==◌, ==_iff, arith,
}
use jellyfish.Merkle.Node.{
  empty, branch, leaf, forgetten_subtree, MerklePath, nat_eq, NodeValue, DigestAlgorithm, value,
}
use jellyfish.Merkle.Path.{nat_path, to_traversal_path_primitives}
use jellyfish.Merkle.Path.Digits.{to_traversal_path_primitives-IsPath}
use jellyfish.Merkle.Lookup.{found, not_in_memory, not_found}
use jellyfish.Merkle.Verify.{
  accepted, rejected, MerkleProof, tree_height, elem, membership_root, non_membership_root,
  verify_membership_proof, verify_non_membership_proof,
}
use jellyfish.Merkle.Sound.{IsCollisionFree, membership_sound, non_membership_sound}
use jellyfish.Merkle.Tree.{MerkleTree, verify, non_membership_verify}
use jellyfish.Merkle.Tree.Proofs.{IsValidTree}
use jellyfish.Merkle.Tree.Updates.{at, at-read}

true_of_accepted : (b : Bool) → (if b then accepted else rejected) ≡ accepted → b ≡ true
true_of_accepted b p = ground arith

rejected≢accepted : ¬ (rejected ≡ accepted)
rejected≢accepted p = cc

-- A guard that did not fail.
taken_of_ok {ℓ} :
    {A : Type ℓ} (b : Bool) (r : Result A) (x : PrimitivesError) {a : A}
    → (if b then r else err x) ≡ ok a
    → (b ≡ true) × (r ≡ ok a)
taken_of_ok true r x p = (refl, p)
taken_of_ok false r x p = cc

-- What did not panic.
passed_of_ok {ℓ} :
    {A : Type ℓ} (b : Bool) (r : Result A) {a : A} → (if b then panic else r) ≡ ok a → r ≡ ok a
passed_of_ok true r p = cc
passed_of_ok false r p = p

module _ {E T : Type 0} ⦃v : NodeValue T⦄ ⦃h : DigestAlgorithm E ℕ T⦄ (arity : ℕ) where
  verify-accepted :
      (root : T) (p : ℕ) (proof : MerkleProof E ℕ T)
      → verify arity root p proof ≡ ok accepted
      → (p ≡ proof.index)
        × (membership_root
              (to_traversal_path_primitives arity proof.index (tree_height proof - 1))
              proof.proof
            ≡ ok root)
  unfolding verify verify_membership_proof
  verify-accepted root p proof a = elim (Bool-cases (p == proof.index)) [
    | inl same ↦
        let checked = rw same at a in
        let (computed, m, compared) =
          >>=-eq-ok
            (membership_root
              (to_traversal_path_primitives arity proof.index (tree_height proof - 1)) proof.proof)
            _ checked in
        let equal = (v.beq_iff computed root).0 (true_of_accepted _ (ok-injective compared)) in
        ((==_iff p proof.index).0 same, m ∙ ap ok equal)
    | inr differ ↦ absurd (rejected≢accepted (ok-injective (rw differ at a)))
  ]

  non_membership_verify-accepted :
      (t : MerkleTree E ℕ T) (p : ℕ) (proof : MerkleProof E ℕ T)
      → non_membership_verify arity t p proof ≡ ok true
      → (p ≡ proof.index)
        × (t.height ≡ tree_height proof - 1)
        × (non_membership_root
              (to_traversal_path_primitives arity proof.index (tree_height proof - 1))
              proof.proof
            ≡ ok (value t.root))
  unfolding non_membership_verify verify_non_membership_proof
  non_membership_verify-accepted t p proof a =
      let (height, a₁) =
        taken_of_ok (t.height == tree_height proof - 1) _ _
          (passed_of_ok (tree_height proof == 0) _ a) in
      let (same, a₂) = taken_of_ok (p == proof.index) _ _ a₁ in
      let (computed, m, compared) =
        >>=-eq-ok
          (non_membership_root
            (to_traversal_path_primitives arity proof.index (tree_height proof - 1)) proof.proof)
          _ a₂ in
      let equal = (v.beq_iff computed (value t.root)).0 (ok-injective compared) in
      ((==_iff p proof.index).0 same, (==_iff _ _).0 height, m ∙ ap ok equal)

  module _ (free : IsCollisionFree v h) (t : MerkleTree E ℕ T) (p : ℕ) (positive : 0 < arity)
      (valid : IsValidTree arity t) where
    at_of_membership :
        (proof : MerklePath E ℕ T)
        → length proof ≡ suc t.height
        → membership_root (to_traversal_path_primitives arity p t.height) proof ≡ ok (value t.root)
        → (at arity t p ≡ ok not_in_memory)
          ⊎ ((e : E) × (elem (record { index = p; proof = proof }) ≡ some e)
              × (at arity t p ≡ ok (found e tt)))
    at_of_membership [] l m = cc
    at_of_membership (leaf t' i e ∷ ns) l m =
        let path = to_traversal_path_primitives arity p t.height in
        let (init, d, below) = >>=-eq-ok (h.digest_leaf i e) _ m in
        elim (membership_sound arity free t.root t.height path ns i e init valid
          (to_traversal_path_primitives-IsPath arity p t.height positive) (omega arith) d below) [
            | inl gone ↦ inl (at-read arity t p ∙ gone)
            | inr here ↦ inr (e, refl, at-read arity t p ∙ here)
          ]
    at_of_membership (empty ∷ ns) l m = cc
    at_of_membership (branch t' cs ∷ ns) l m = cc
    at_of_membership (forgetten_subtree t' ∷ ns) l m = cc

    at_of_non_membership :
        (proof : MerklePath E ℕ T)
        → t.height ≡ length proof - 1
        → non_membership_root (to_traversal_path_primitives arity p t.height) proof
          ≡ ok (value t.root)
        → (at arity t p ≡ ok not_in_memory) ⊎ (at arity t p ≡ ok (not_found tt))
    at_of_non_membership [] l m = cc
    at_of_non_membership (empty ∷ ns) l m =
        let path = to_traversal_path_primitives arity p t.height in
        elim (non_membership_sound arity free t.root t.height path ns valid
          (to_traversal_path_primitives-IsPath arity p t.height positive) (omega arith) m) [
            | inl gone ↦ inl (at-read arity t p ∙ gone)
            | inr nothing ↦ inr (at-read arity t p ∙ nothing)
          ]
    at_of_non_membership (leaf t' i e ∷ ns) l m = cc
    at_of_non_membership (branch t' cs ∷ ns) l m = cc
    at_of_non_membership (forgetten_subtree t' ∷ ns) l m = cc

    -- An accepted proof of membership with a node for each height of the tree holds an element, and
    -- the tree has this element at the index, unless the index is not in memory.
    pub verify_sound :
        (proof : MerkleProof E ℕ T)
        → tree_height proof ≡ suc t.height
        → verify arity (value t.root) p proof ≡ ok accepted
        → (at arity t p ≡ ok not_in_memory)
          ⊎ ((e : E) × (elem proof ≡ some e) × (at arity t p ≡ ok (found e tt)))
    verify_sound proof l a =
        let (same, m) = verify-accepted (value t.root) p proof a in
        at_of_membership proof.proof l (
          ap₂ (λ x n. membership_root (to_traversal_path_primitives arity x n) proof.proof) same
            (omega arith)
          ∙ m)

    -- Where a proof of non-membership is accepted, the tree has no element at the index, unless the
    -- index is not in memory.
    pub non_membership_verify_sound :
        (proof : MerkleProof E ℕ T)
        → non_membership_verify arity t p proof ≡ ok true
        → (at arity t p ≡ ok not_in_memory) ⊎ (at arity t p ≡ ok (not_found tt))
    non_membership_verify_sound proof a =
        let (same, height, m) = non_membership_verify-accepted t p proof a in
        at_of_non_membership proof.proof height (
          ap₂ (λ x n. non_membership_root (to_traversal_path_primitives arity x n) proof.proof) same
            height
          ∙ m)
