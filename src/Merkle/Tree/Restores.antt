-- ===== src/Merkle/Tree/Restores.antt =====
-- `remember` (primitives/src/merkle_tree/macros.rs) on a pruned copy of a tree, such as one made from
-- its commitment, with the proof of a lookup in the tree.
use mathlib.Core.Path.{subst}
use jellyfish.Prelude.{
  ℕ, zero, suc, ◌<◌, ◌≡◌, refl, ap, sym, ◌∙◌, some, get_elem?, List, [], ◌∷◌, Result, ok, ◌>>=◌,
  >>=-eq-ok, ok-injective,
}
use jellyfish.Merkle.Node.{
  MerkleNode, empty, branch, leaf, forgetten_subtree, MerklePath, Eq, nat_eq, NodeValue,
  DigestAlgorithm, value,
}
use jellyfish.Merkle.Path.{nat_path, to_traversal_path_primitives}
use jellyfish.Merkle.Path.Digits.{to_traversal_path_primitives-IsPath}
use jellyfish.Merkle.Lookup.{
  LookupResult, found, not_in_memory, not_found, redact_child, lookup_internal, forget_internal,
}
use jellyfish.Merkle.Verify.{MerkleProof}
use jellyfish.Merkle.Remember.{remember_internal}
use jellyfish.Merkle.Pruned.{Pruned, Pruned-refl}
use jellyfish.Merkle.Forget.Pruned.{forget_internal-Pruned}
use jellyfish.Merkle.Restore.{Along, remember-Restores}
use jellyfish.Merkle.Along.{path_values_of, lookup_internal-Computes}
use jellyfish.Merkle.Tree.{
  MerkleTree, with_proofs, commitment, from_commitment, universal_lookup, remember, remember_proof,
  remember_root, universal_forget,
}
use jellyfish.Merkle.Tree.Proofs.{IsValidTree}

module _ {E T : Type 0} where
  abbrev without_index :
      LookupResult E (MerkleProof E ℕ T) (MerkleProof E ℕ T)
      → LookupResult E (MerklePath E ℕ T) (MerklePath E ℕ T)
  without_index (found e proof) = found e proof.proof
  without_index not_in_memory = not_in_memory
  without_index (not_found proof) = not_found proof.proof

  without-with_proofs :
      (p : ℕ) (r : LookupResult E (MerklePath E ℕ T) (MerklePath E ℕ T))
      → without_index (with_proofs p r) ≡ r
  without-with_proofs p (found e proof) = refl
  without-with_proofs p not_in_memory = refl
  without-with_proofs p (not_found proof) = refl

module _ {E T : Type 0} ⦃v : NodeValue T⦄ ⦃h : DigestAlgorithm E ℕ T⦄ ⦃eqe : Eq E⦄ where
  -- A tree of the same height in which some sub-trees are replaced by their values.
  abbrev pub IsPrunedTree : MerkleTree E ℕ T → MerkleTree E ℕ T → Type 0
  IsPrunedTree t' t = (t'.height ≡ t.height) × Pruned t.height t'.root t.root

  -- A node in which a lookup finds an element is not empty, so its redaction is its value.
  forgotten_root :
      (node : MerkleNode E ℕ T) (height : ℕ) (path : List ℕ) (e : E) (proof : MerklePath E ℕ T)
      → lookup_internal node height path ≡ ok (found e proof)
      → forgetten_subtree (value node) ≡ redact_child node
  unfolding lookup_internal
  forgotten_root empty height path e proof l = cc
  forgotten_root (branch t cs) height path e proof l = refl
  forgotten_root (leaf t i x) height path e proof l = refl
  forgotten_root (forgetten_subtree t) height path e proof l = refl

  first_leaf :
      (node : MerkleNode E ℕ T) (height : ℕ) (path : List ℕ) (pv : List T)
      (proof : MerklePath E ℕ T) (e : E)
      → Along node height path pv proof e
      → (t : T) × (i : ℕ) × (get_elem? proof 0 ≡ some (leaf t i e))
  first_leaf empty zero path pv proof e a = absurd a
  first_leaf empty (suc height) path pv proof e a = absurd a
  first_leaf (branch t cs) zero path pv proof e a = absurd a
  first_leaf (branch t cs) (suc height) path pv proof e (_, _, (b, c, _, _, below)) =
      first_leaf c height path pv proof e below
  first_leaf (leaf t i x) zero path pv proof e (_, at_node, same) =
      (t, i, at_node ∙ ap (λ y. some (leaf t i y)) same)
  first_leaf (leaf t i x) (suc height) path pv proof e a = absurd a
  first_leaf (forgetten_subtree t) zero path pv proof e a = absurd a
  first_leaf (forgetten_subtree t) (suc height) path pv proof e a = absurd a

  -- A proof that starts with the element and computes its values goes on to the root.
  remember_proof-eq :
      (t : MerkleTree E ℕ T) (path : List ℕ) (e : E) (proof : MerklePath E ℕ T) (pv : List T)
      (x : T) (i : ℕ)
      → path_values_of path proof ≡ ok pv
      → get_elem? proof 0 ≡ some (leaf x i e)
      → remember_proof t path e proof ≡ remember_root t path (ok pv) proof
  remember_proof-eq t path e [] pv x i c q = cc
  remember_proof-eq t path e (empty ∷ ns) pv x i c q = cc
  remember_proof-eq t path e (branch u cs ∷ ns) pv x i c q = cc
  remember_proof-eq t path e (leaf u j e' ∷ ns) pv x i c q =
      let same : e' ≡ e = cc in rw (same, (eqe.beq_iff e e).1 refl, ← same, c) refl
  remember_proof-eq t path e (forgetten_subtree u ∷ ns) pv x i c q = cc

module _ {E T : Type 0} ⦃v : NodeValue T⦄ ⦃h : DigestAlgorithm E ℕ T⦄ ⦃eqe : Eq E⦄ (arity : ℕ) where
  lookup-eq-found :
      (t : MerkleTree E ℕ T) (p : ℕ) (e : E) (proof : MerkleProof E ℕ T)
      → universal_lookup arity t p ≡ ok (found e proof)
      → lookup_internal t.root t.height (to_traversal_path_primitives arity p t.height)
        ≡ ok (found e proof.proof)
  unfolding universal_lookup
  lookup-eq-found t p e proof l =
      let (r, returned, wrapped) =
        >>=-eq-ok (lookup_internal t.root t.height (to_traversal_path_primitives arity p t.height))
          _ l in
      returned ∙ ap ok (sym (without-with_proofs p r) ∙ ap without_index (ok-injective wrapped))

  -- The call returned, a lookup in the tree that it left finds the element with the same proof, and
  -- this tree is a pruned copy.
  abbrev pub IsRestored :
      MerkleTree E ℕ T → ℕ → E → MerkleProof E ℕ T → MerkleTree E ℕ T × Result (Unit {0}) → Type 0
  IsRestored t p e proof (t', r) =
      (r ≡ ok tt) × (universal_lookup arity t' p ≡ ok (found e proof)) × IsPrunedTree t' t

  remember-eq :
      (t' : MerkleTree E ℕ T) (height p : ℕ) (e : E) (proof : MerkleProof E ℕ T) (pv : List T)
      (x : T) (i : ℕ)
      → t'.height ≡ height
      → path_values_of (to_traversal_path_primitives arity p height) proof.proof ≡ ok pv
      → get_elem? proof.proof 0 ≡ some (leaf x i e)
      → remember arity t' p e proof
        ≡ remember_root t' (to_traversal_path_primitives arity p height) (ok pv) proof.proof
  unfolding remember
  remember-eq t' height p e proof pv x i same computed first =
      ap (λ n. remember_proof t' (to_traversal_path_primitives arity p n) e proof.proof) same
      ∙ remember_proof-eq t' (to_traversal_path_primitives arity p height) e proof.proof pv x i
          computed first

  universal_lookup-same :
      (t' t : MerkleTree E ℕ T) (p : ℕ)
      → t'.height ≡ t.height
      → lookup_internal t'.root t.height (to_traversal_path_primitives arity p t.height)
        ≡ lookup_internal t.root t.height (to_traversal_path_primitives arity p t.height)
      → universal_lookup arity t' p ≡ universal_lookup arity t p
  unfolding universal_lookup
  universal_lookup-same t' t p height same =
      ap
        (λ n. lookup_internal t'.root n (to_traversal_path_primitives arity p n) >>= λ r.
          ok (with_proofs p r))
        height
      ∙ ap (λ x. x >>= λ r. ok (with_proofs p r)) same

  -- In a pruned copy of a well-formed tree of positive arity, remembering an element that a lookup
  -- in the tree finds, with the proof that it gives, succeeds: a lookup in the copy then finds the
  -- element with the same proof, and the copy stays a pruned copy of the tree.
  pub remember-restores :
      (t' t : MerkleTree E ℕ T) (p : ℕ) (e : E) (proof : MerkleProof E ℕ T)
      → 0 < arity
      → IsValidTree arity t
      → IsPrunedTree t' t
      → universal_lookup arity t p ≡ ok (found e proof)
      → IsRestored t p e proof (remember arity t' p e proof)
  remember-restores t' t p e proof positive valid (height, pruned) l =
      let path = to_traversal_path_primitives arity p t.height in
      let (pv, computed, _, along) =
        lookup_internal-Computes arity t.root t.height path e proof.proof valid
          (to_traversal_path_primitives-IsPath arity p t.height positive)
          (lookup-eq-found t p e proof l) in
      let (x, i, first) = first_leaf t.root t.height path pv proof.proof e along in
      let (done, pruned', same) =
        remember-Restores t'.root t.root t.height path pv proof.proof e pruned along in
      let step =
        remember-eq t' t.height p e proof pv x i height computed first
        ∙ ap
            (λ n.
              let (root, r) = remember_internal t'.root n path pv proof.proof in
              (record t' { root = root }, r))
            height in
      subst (IsRestored t p e proof) (sym step)
        (done, universal_lookup-same _ t p height same ∙ l, (height, pruned'))

  -- A tree made from the commitment of a well-formed tree of positive arity answers a lookup as the
  -- tree did, once it remembers the element that the tree found with the tree's proof.
  pub from_commitment-remember :
      (t : MerkleTree E ℕ T) (p : ℕ) (e : E) (proof : MerkleProof E ℕ T)
      → 0 < arity
      → IsValidTree arity t
      → universal_lookup arity t p ≡ ok (found e proof)
      → ((remember arity (from_commitment (commitment t)) p e proof).1 ≡ ok tt)
        × (universal_lookup arity (remember arity (from_commitment (commitment t)) p e proof).0 p
            ≡ ok (found e proof))
  unfolding from_commitment commitment
  from_commitment-remember t p e proof positive valid l =
      let (done, again, _) =
        remember-restores (from_commitment (commitment t)) t p e proof positive valid
          (
            refl,
            forgotten_root t.root t.height (to_traversal_path_primitives arity p t.height) e
                proof.proof (lookup-eq-found t p e proof l),
          )
          l in
      (done, again)

  -- Forgetting leaves a pruned copy of a tree a pruned copy of it.
  pub universal_forget-IsPruned :
      (t' t : MerkleTree E ℕ T) (p : ℕ)
      → IsPrunedTree t' t
      → IsPrunedTree (universal_forget arity t' p).0 t
  unfolding universal_forget
  universal_forget-IsPruned t' t p (height, pruned) = (
    height,
    subst
        (λ n.
          Pruned t.height (forget_internal t'.root n (to_traversal_path_primitives arity p n)).0
            t.root)
        (sym height)
        (forget_internal-Pruned t.height t'.root t.root
          (to_traversal_path_primitives arity p t.height) pruned),
  )

  -- In a well-formed tree of positive arity, an element that a lookup finds can be remembered with
  -- the lookup's proof after any one index, its own or another, has been forgotten.
  pub forget-remember :
      (t : MerkleTree E ℕ T) (p q : ℕ) (e : E) (proof : MerkleProof E ℕ T)
      → 0 < arity
      → IsValidTree arity t
      → universal_lookup arity t p ≡ ok (found e proof)
      → IsRestored t p e proof (remember arity (universal_forget arity t q).0 p e proof)
  forget-remember t p q e proof positive valid l =
      remember-restores (universal_forget arity t q).0 t p e proof positive valid
        (universal_forget-IsPruned t t q (refl, Pruned-refl t.height t.root)) l
