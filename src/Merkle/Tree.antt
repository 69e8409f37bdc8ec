-- ===== src/Merkle/Tree.antt =====
-- The tree types: the methods that the macros of primitives/src/merkle_tree/macros.rs give to each
-- of `MerkleTree`, `LightWeightMerkleTree` and `UniversalMerkleTree`, and those types' own methods
-- (append_only.rs, light_weight.rs and universal_merkle_tree.rs beside it). The three types are one
-- record here: they have the same fields, and the arity is an argument.
pub mod Proofs
pub mod Updates
pub mod Forgets
pub mod Soundness
pub mod Restores
pub mod Lowest
pub mod Siblings
pub mod LightWeight
use jellyfish.Prelude.{
  ℕ, suc, ◌+◌, ◌-◌, ◌%◌, ◌^◌, Bool, true, Option, none, some, List, [], ◌∷◌, Result, ok, err, panic,
  ◌>>=◌, parameter_error, if◌then◌else◌, ◌==◌, ℤ, pos, negsuc,
}
use jellyfish.Merkle.Node.{
  MerkleNode, empty, leaf, forgetten_subtree, MerklePath, Eq, NodeValue, DigestAlgorithm, value,
}
use jellyfish.Merkle.Path.{ToTraversalPath, to_traversal_path_primitives}
use jellyfish.Merkle.Lookup.{
  LookupResult, found, not_in_memory, not_found, lookup_internal, forget_internal,
}
use jellyfish.Merkle.Update.{Updated, update_with_internal}
use jellyfish.Merkle.Verify.{
  VerificationResult, rejected, MerkleProof, tree_height, membership_step, non_membership_step,
  verify_membership_proof, verify_non_membership_proof,
}
use jellyfish.Merkle.Remember.{fold_values, remember_internal}
use jellyfish.Merkle.Extend.{Extended, extend_internal, extend_and_forget_internal}
use jellyfish.Merkle.Build.{build_tree_internal, build_light_weight_tree_internal}

pub record MerkleTree (E I T : Type 0) : Type 0 where
  pub root : MerkleNode E I T
  pub height : ℕ
  pub num_leaves : ℕ

pub record MerkleTreeCommitment (T : Type 0) : Type 0 where
  pub digest : T
  pub height : ℕ
  pub num_leaves : ℕ

module _ {E I T : Type 0} where
  unfoldable pub new : ℕ → MerkleTree E I T
  new height = record { root = empty; height = height; num_leaves = 0 }

  unfoldable pub capacity : ℕ → MerkleTree E I T → ℕ
  capacity arity t = arity ^ t.height

  -- A tree that is entirely forgotten.
  unfoldable pub from_commitment : MerkleTreeCommitment T → MerkleTree E I T
  from_commitment c = record {
    root = forgetten_subtree c.digest;
    height = c.height;
    num_leaves = c.num_leaves;
  }

  -- A lookup's result with its proofs wrapped, and with the non-membership proof dropped.
  abbrev pub with_proofs :
      I
      → LookupResult E (MerklePath E I T) (MerklePath E I T)
      → LookupResult E (MerkleProof E I T) (MerkleProof E I T)
  with_proofs p (found e proof) = found e (record { index = p; proof = proof })
  with_proofs p not_in_memory = not_in_memory
  with_proofs p (not_found proof) = not_found (record { index = p; proof = proof })

  abbrev pub with_membership_proof :
      I
      → LookupResult E (MerklePath E I T) (MerklePath E I T)
      → LookupResult E (MerkleProof E I T) (Unit {0})
  with_membership_proof p (found e proof) = found e (record { index = p; proof = proof })
  with_membership_proof p not_in_memory = not_in_memory
  with_membership_proof p (not_found proof) = not_found tt

module _ {E I T : Type 0} ⦃v : NodeValue T⦄ where
  unfoldable pub commitment : MerkleTree E I T → MerkleTreeCommitment T
  commitment t = record { digest = value t.root; height = t.height; num_leaves = t.num_leaves }

module _ {E I T : Type 0} ⦃v : NodeValue T⦄ ⦃i : ToTraversalPath I⦄ (arity : ℕ) where
  abbrev pub path_of : MerkleTree E I T → I → List ℕ
  path_of t p = i.to_traversal_path arity p t.height

  unfoldable pub lookup :
      MerkleTree E I T → I → Result (LookupResult E (MerkleProof E I T) (Unit {0}))
  lookup t p = do r ← lookup_internal t.root t.height (path_of t p); ok (with_membership_proof p r)

  unfoldable pub universal_lookup :
      MerkleTree E I T → I → Result (LookupResult E (MerkleProof E I T) (MerkleProof E I T))
  universal_lookup t p = do r ← lookup_internal t.root t.height (path_of t p); ok (with_proofs p r)

  unfoldable pub forget :
      MerkleTree E I T
      → I
      → MerkleTree E I T × Result (LookupResult E (MerkleProof E I T) (Unit {0}))
  forget t p =
      let (root, r) = forget_internal t.root t.height (path_of t p) in
      (record t { root = root }, r >>= λ l. ok (with_membership_proof p l))

  unfoldable pub universal_forget :
      MerkleTree E I T
      → I
      → MerkleTree E I T × Result (LookupResult E (MerkleProof E I T) (MerkleProof E I T))
  universal_forget t p =
      let (root, r) = forget_internal t.root t.height (path_of t p) in
      (record t { root = root }, r >>= λ l. ok (with_proofs p l))

module _ {E I T : Type 0} ⦃v : NodeValue T⦄ ⦃h : DigestAlgorithm E I T⦄ ⦃i : ToTraversalPath I⦄
    ⦃eqi : Eq I⦄ (arity : ℕ) where
  unfoldable pub verify : T → I → MerkleProof E I T → Result VerificationResult
  verify root p proof =
      if eqi.beq p proof.index then verify_membership_proof arity proof root else ok rejected

  unfoldable pub non_membership_verify : MerkleTree E I T → I → MerkleProof E I T → Result Bool
  non_membership_verify t p proof =
      if tree_height proof == 0
      then panic
      else if t.height == tree_height proof - 1
      then if eqi.beq p proof.index
        then verify_non_membership_proof arity proof (value t.root)
        else err (parameter_error "Inconsistent proof index")
      else err (parameter_error "Incompatible membership proof for this merkle tree")

-- `(delta + num_leaves as i64) as u64`, in two's complement.
abbrev pub add_delta : ℤ → ℕ → ℕ
add_delta (pos d) n = (n + d) % 2 ^ 64
add_delta (negsuc d) n = (n + 2 ^ 64 - suc d) % 2 ^ 64

module _ {E I T : Type 0} ⦃v : NodeValue T⦄ ⦃h : DigestAlgorithm E I T⦄ where
  -- `self.root.remember_internal(..)` once the values along the proof are known.
  abbrev pub remember_root :
      MerkleTree E I T
      → List ℕ
      → Result (List T)
      → MerklePath E I T
      → MerkleTree E I T × Result (Unit {0})
  remember_root t path (ok path_values) proof =
      let (root, r) = remember_internal t.root t.height path path_values proof in
      (record t { root = root }, r)
  remember_root t path (err e) proof = (t, err e)
  remember_root t path panic proof = (t, panic)

  -- The match on `proof.proof[0]`; the leaf's element is compared with the caller's.
  abbrev pub remember_proof :
      ⦃eqe : Eq E⦄
      → MerkleTree E I T
      → List ℕ
      → E
      → MerklePath E I T
      → MerkleTree E I T × Result (Unit {0})
  remember_proof t path e [] = (t, panic)
  remember_proof ⦃eqe⦄ t path e (leaf t' p e' ∷ ns) =
      if eqe.beq e' e
      then remember_root t path
          (h.digest_leaf p e' >>= λ val. fold_values membership_step val path ns (val ∷ []))
          (leaf t' p e' ∷ ns)
      else (t, err (parameter_error "Element does not match the proof."))
  remember_proof t path e (n ∷ ns) = (t, err (parameter_error "Invalid proof type"))

  abbrev pub remember_empty :
      MerkleTree E I T → List ℕ → MerklePath E I T → MerkleTree E I T × Result (Unit {0})
  remember_empty t path [] = (t, panic)
  remember_empty t path (empty ∷ ns) =
      remember_root t path (fold_values non_membership_step v.default path ns (v.default ∷ []))
        (empty ∷ ns)
  remember_empty t path (n ∷ ns) = (t, err (parameter_error "Invalid proof type"))

module _ {E I T : Type 0} ⦃v : NodeValue T⦄ ⦃h : DigestAlgorithm E I T⦄ ⦃i : ToTraversalPath I⦄
    (arity : ℕ) where
  unfoldable pub remember :
      ⦃eqe : Eq E⦄
      → MerkleTree E I T
      → I
      → E
      → MerkleProof E I T
      → MerkleTree E I T × Result (Unit {0})
  remember t p e proof = remember_proof t (i.to_traversal_path arity p t.height) e proof.proof

  unfoldable pub non_membership_remember :
      MerkleTree E I T → I → MerkleProof E I T → MerkleTree E I T × Result (Unit {0})
  non_membership_remember t p proof =
      remember_empty t (i.to_traversal_path arity p t.height) proof.proof

  -- The tree after the update of its root.
  abbrev pub updated :
      MerkleTree E I T
      → MerkleNode E I T × Result (Updated E)
      → MerkleTree E I T × Result (LookupResult E (Unit {0}) (Unit {0}))
  updated t (root, ok (delta, result)) =
      (record t { root = root; num_leaves = add_delta delta t.num_leaves }, ok result)
  updated t (root, err e) = (record t { root = root }, err e)
  updated t (root, panic) = (record t { root = root }, panic)

  unfoldable pub update_with :
      MerkleTree E I T
      → I
      → (Option E → Option E)
      → MerkleTree E I T × Result (LookupResult E (Unit {0}) (Unit {0}))
  update_with t p f =
      updated t
        (update_with_internal arity t.root t.height p (i.to_traversal_path arity p t.height) f)

  unfoldable pub update :
      MerkleTree E I T → I → E → MerkleTree E I T × Result (LookupResult E (Unit {0}) (Unit {0}))
  unfolding update_with
  update t p e = update_with t p (λ _. some e)

  unfoldable pub remove :
      MerkleTree E I T → I → MerkleTree E I T × Result (LookupResult E (Unit {0}) (Unit {0}))
  unfolding update_with
  remove t p = update_with t p (λ _. none)

  -- The loop of `from_kv_set`.
  unfoldable pub update_all : MerkleTree E I T → List (I × E) → Result (MerkleTree E I T)
  unfolding update
  update_all t [] = ok t
  update_all t ((p, e) ∷ kvs) =
      let (t', r) = update t p e in
      elim r [ ok _ ↦ update_all t' kvs | err x ↦ err x | panic ↦ panic ]

  unfoldable pub from_kv_set : ℕ → List (I × E) → Result (MerkleTree E I T)
  unfolding update_all new
  from_kv_set height kvs = update_all (new height) kvs

module _ {E T : Type 0} where
  -- `if iter.peek().is_some() { Err }`, and the count of leaves.
  abbrev pub extended :
      MerkleTree E ℕ T → Extended (MerkleNode E ℕ T) E → MerkleTree E ℕ T × Result (Unit {0})
  extended t (root, [], ok cnt) =
      (record t { root = root; num_leaves = (t.num_leaves + cnt) % 2 ^ 64 }, ok tt)
  extended t (root, e ∷ rest, ok cnt) = (
    record t { root = root; num_leaves = (t.num_leaves + cnt) % 2 ^ 64 },
    err (parameter_error "Exceed merkle tree capacity"),
  )
  extended t (root, rest, err x) = (record t { root = root }, err x)
  extended t (root, rest, panic) = (record t { root = root }, panic)

  abbrev pub to_tree : MerkleNode E ℕ T × ℕ × ℕ → MerkleTree E ℕ T
  to_tree (root, height, num_leaves) = record {
    root = root;
    height = height;
    num_leaves = num_leaves;
  }

module _ {E T : Type 0} ⦃v : NodeValue T⦄ ⦃h : DigestAlgorithm E ℕ T⦄ (arity : ℕ) where
  -- `MerkleTree`
  unfoldable pub from_elems : Option ℕ → List E → Result (MerkleTree E ℕ T)
  from_elems height es = build_tree_internal arity height es >>= λ built. ok (to_tree built)

  unfoldable pub extend : MerkleTree E ℕ T → List E → MerkleTree E ℕ T × Result (Unit {0})
  extend t es = extended t (
      extend_internal arity t.root t.height t.num_leaves
        (to_traversal_path_primitives arity t.num_leaves t.height) true es)

  unfoldable pub push : MerkleTree E ℕ T → E → MerkleTree E ℕ T × Result (Unit {0})
  unfolding extend
  push t e = extend t (e ∷ [])

  -- `LightWeightMerkleTree`
  unfoldable pub light_from_elems : Option ℕ → List E → Result (MerkleTree E ℕ T)
  light_from_elems height es =
      build_light_weight_tree_internal arity height es >>= λ built. ok (to_tree built)

  unfoldable pub light_extend : MerkleTree E ℕ T → List E → MerkleTree E ℕ T × Result (Unit {0})
  light_extend t es = extended t (
      extend_and_forget_internal arity t.root t.height t.num_leaves
        (to_traversal_path_primitives arity t.num_leaves t.height) true es)

  unfoldable pub light_push : MerkleTree E ℕ T → E → MerkleTree E ℕ T × Result (Unit {0})
  unfolding light_extend
  light_push t e = light_extend t (e ∷ [])
