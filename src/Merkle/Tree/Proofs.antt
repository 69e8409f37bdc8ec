-- ===== src/Merkle/Tree/Proofs.antt =====
-- Lookups in a well-formed tree (primitives/src/merkle_tree/universal_merkle_tree.rs), and the
-- verifiers' answers to their proofs.
use jellyfish.Prelude.{ℕ, suc, ◌-◌, ◌<◌, ◌≡◌, refl, true, false, length, ok, ◌==◌, ==_iff, arith}
use jellyfish.Merkle.Node.{MerklePath, nat_eq, NodeValue, DigestAlgorithm, value}
use jellyfish.Merkle.Path.{nat_path, to_traversal_path_primitives}
use jellyfish.Merkle.Path.Digits.{to_traversal_path_primitives-IsPath}
use jellyfish.Merkle.Lookup.{LookupResult, found, not_in_memory, not_found}
use jellyfish.Merkle.Verify.{
  accepted, MerkleProof, membership_root, non_membership_root, verify_membership_proof,
  verify_non_membership_proof,
}
use jellyfish.Merkle.Valid.{IsValid}
use jellyfish.Merkle.Complete.{Proves, lookup_internal-Proves}
use jellyfish.Merkle.Tree.{MerkleTree, with_proofs, universal_lookup, verify, non_membership_verify}

abbrev pub IsValidTree :
    {E T : Type 0} ⦃v : NodeValue T⦄ ⦃h : DigestAlgorithm E ℕ T⦄ → ℕ → MerkleTree E ℕ T → Type 0
IsValidTree arity t = IsValid arity t.root t.height

beq_self : {T : Type 0} ⦃v : NodeValue T⦄ (t : T) → v.beq t t ≡ true
beq_self ⦃v⦄ t = (v.beq_iff t t).1 refl

==_self : (n : ℕ) → (n == n) ≡ true
==_self n = (==_iff n n).1 refl

nonzero : (n : ℕ) → 0 < n → (n == 0) ≡ false
nonzero n h = ground arith

module _ {E T : Type 0} ⦃v : NodeValue T⦄ ⦃h : DigestAlgorithm E ℕ T⦄ (arity : ℕ) where
  -- What a verifier that knows the root's value says of a lookup's answer.
  abbrev pub IsVerified :
      MerkleTree E ℕ T → ℕ → LookupResult E (MerkleProof E ℕ T) (MerkleProof E ℕ T) → Type 0
  IsVerified t p (found e proof) = verify arity (value t.root) p proof ≡ ok accepted
  IsVerified t p not_in_memory = Unit
  IsVerified t p (not_found proof) = non_membership_verify arity t p proof ≡ ok true

  verify_of_root :
      (t : MerkleTree E ℕ T) (p : ℕ) (proof : MerklePath E ℕ T)
      → membership_root (to_traversal_path_primitives arity p t.height) proof ≡ ok (value t.root)
      → length proof ≡ suc t.height
      → verify arity (value t.root) p (record { index = p; proof = proof }) ≡ ok accepted
  unfolding verify verify_membership_proof
  verify_of_root t p proof m l =
      let height : length proof - 1 ≡ t.height = omega arith in
      rw (==_self p, height, m, beq_self (value t.root))

  non_membership_verify_of_root :
      (t : MerkleTree E ℕ T) (p : ℕ) (proof : MerklePath E ℕ T)
      → non_membership_root (to_traversal_path_primitives arity p t.height) proof
        ≡ ok (value t.root)
      → length proof ≡ suc t.height
      → non_membership_verify arity t p (record { index = p; proof = proof }) ≡ ok true
  unfolding non_membership_verify verify_non_membership_proof
  non_membership_verify_of_root t p proof m l =
      let height : length proof - 1 ≡ t.height = omega arith in
      rw (
        nonzero (length proof) (omega arith),
        height,
        ==_self t.height,
        ==_self p,
        m,
        beq_self (value t.root),
      )

  Proves-IsVerified :
      (t : MerkleTree E ℕ T) (p : ℕ) (r : LookupResult E (MerklePath E ℕ T) (MerklePath E ℕ T))
      → Proves (to_traversal_path_primitives arity p t.height) t.height (value t.root) r
      → IsVerified t p (with_proofs p r)
  Proves-IsVerified t p (found e proof) (m, l) = verify_of_root t p proof m l
  Proves-IsVerified t p not_in_memory proves = tt
  Proves-IsVerified t p (not_found proof) (m, l) = non_membership_verify_of_root t p proof m l

  -- In a well-formed tree a lookup of any index returns, and its answer is verified against the
  -- root: a found element's proof is accepted by `verify`, and the proof that comes with `NotFound`
  -- by `non_membership_verify`.
  pub universal_lookup-IsVerified :
      (t : MerkleTree E ℕ T) (p : ℕ)
      → 0 < arity
      → IsValidTree arity t
      → (r : LookupResult E (MerkleProof E ℕ T) (MerkleProof E ℕ T)) × (universal_lookup arity t p
          ≡ ok r)
        × IsVerified t p r
  unfolding universal_lookup
  universal_lookup-IsVerified t p pos valid =
      let (r, e, proves) =
        lookup_internal-Proves arity t.root t.height (to_traversal_path_primitives arity p t.height)
          valid (to_traversal_path_primitives-IsPath arity p t.height pos) in
      (with_proofs p r, rw e, Proves-IsVerified t p r proves)
