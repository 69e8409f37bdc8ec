-- ===== src/Merkle/Tree/Forgets.antt =====
-- `forget` and `universal_forget` of a tree (primitives/src/merkle_tree/macros.rs,
-- primitives/src/merkle_tree/universal_merkle_tree.rs), and an index past the capacity.
use jellyfish.Prelude.{
  ℕ, ◌+◌, ◌*◌, ◌^◌, ◌<◌, ◌≡◌, ap, sym, ◌∙◌, ◌≢◌, Result, ok, ◌>>=◌, >>=-eq-ok, ok-injective,
}
use jellyfish.Merkle.Node.{MerklePath, NodeValue, DigestAlgorithm}
use jellyfish.Merkle.Path.{nat_path, to_traversal_path_primitives}
use jellyfish.Merkle.Path.Digits.{to_traversal_path_primitives-IsPath, path-Apart, path_wraps}
use jellyfish.Merkle.Lookup.{LookupResult, found, not_in_memory, not_found, lookup_internal}
use jellyfish.Merkle.Verify.{MerkleProof}
use jellyfish.Merkle.Forget.{forget_internal-lookup, forget_internal-value}
use jellyfish.Merkle.Forget.Keeps.{
  forget_internal-keeps, forget_internal_self, forget_internal-IsValid,
}
use jellyfish.Merkle.Tree.{MerkleTree, with_proofs, universal_lookup, universal_forget, commitment}
use jellyfish.Merkle.Tree.Proofs.{IsValidTree}
use jellyfish.Merkle.Tree.Updates.{at, at-read}

module _ {E T : Type 0} ⦃v : NodeValue T⦄ ⦃h : DigestAlgorithm E ℕ T⦄ (arity : ℕ) where
  -- Forgetting an index answers as a lookup would, leaves the commitment as it is, and keeps a
  -- well-formed tree well formed.
  pub universal_forget-lookup :
      (t : MerkleTree E ℕ T) (p : ℕ)
      → 0 < arity
      → IsValidTree arity t
      → ((universal_forget arity t p).1 ≡ universal_lookup arity t p)
        × (commitment (universal_forget arity t p).0 ≡ commitment t)
        × IsValidTree arity (universal_forget arity t p).0
  unfolding universal_forget universal_lookup commitment
  universal_forget-lookup t p positive valid =
      let path = to_traversal_path_primitives arity p t.height in
      (
        rw (forget_internal-lookup t.root t.height path),
        rw (forget_internal-value t.root t.height path),
        forget_internal-IsValid arity t.root t.height path valid
            (to_traversal_path_primitives-IsPath arity p t.height positive),
      )

  with_proofs-found :
      (p : ℕ) (r : LookupResult E (MerklePath E ℕ T) (MerklePath E ℕ T)) {e : E}
      {proof : MerkleProof E ℕ T}
      → with_proofs p r ≡ found e proof
      → (inner : MerklePath E ℕ T) × (r ≡ found e inner)
  with_proofs-found p (found e' inner) q = (inner, cc)
  with_proofs-found p not_in_memory q = cc
  with_proofs-found p (not_found inner) q = cc

  -- An element that was found at the index is no longer in memory, and one that was found at any
  -- other index below the capacity is still found, with the same proof.
  pub universal_forget-keeps :
      (t : MerkleTree E ℕ T) (p q : ℕ) {e : E} {proof : MerkleProof E ℕ T}
      → 0 < arity
      → IsValidTree arity t
      → p < arity ^ t.height
      → q < arity ^ t.height
      → universal_lookup arity t q ≡ ok (found e proof)
      → (p ≡ q → universal_lookup arity (universal_forget arity t p).0 q ≡ ok not_in_memory)
        × (p ≢ q → universal_lookup arity (universal_forget arity t p).0 q ≡ ok (found e proof))
  unfolding universal_forget universal_lookup
  universal_forget-keeps t p q {e} {proof} positive valid lp lq l =
      let path = to_traversal_path_primitives arity q t.height in
      let (r, at_q, wrapped) = >>=-eq-ok (lookup_internal t.root t.height path) _ l in
      let (inner, is_found) = with_proofs-found q r (ok-injective wrapped) in
      (
        (λ same.
            rw (same, forget_internal_self arity t.root t.height path (at_q ∙ ap ok is_found))),
        λ differ.
            ap
              (λ (r : Result (LookupResult E (MerklePath E ℕ T) (MerklePath E ℕ T))).
                r >>= λ l. ok (with_proofs q l))
              (forget_internal-keeps arity t.root t.height
                (to_traversal_path_primitives arity p t.height) path valid
                (to_traversal_path_primitives-IsPath arity p t.height positive)
                (path-Apart arity t.height p q positive lp lq differ) (at_q ∙ ap ok is_found))
            ∙ ap ok (ap (with_proofs q) (sym is_found) ∙ ok-injective wrapped),
      )

  -- The tree does not tell an index past its capacity from the index that it wraps to: any lookup
  -- of it reads what stands there.
  pub at_wraps :
      (t : MerkleTree E ℕ T) (p m : ℕ)
      → 0 < arity
      → at arity t (p + arity ^ t.height * m) ≡ at arity t p
  at_wraps t p m positive =
      at-read arity t (p + arity ^ t.height * m)
      ∙ rw (path_wraps arity t.height p m positive) (sym (at-read arity t p))
