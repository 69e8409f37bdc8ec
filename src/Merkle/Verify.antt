-- ===== src/Merkle/Verify.antt =====
-- Proofs of membership and of non-membership, and their verification
-- (primitives/src/merkle_tree/internal.rs).
use jellyfish.Prelude.{
  ℕ, ◌-◌, Bool, Option, none, some, List, [], ◌∷◌, length, set, Result, ok, err, panic, ◌>>=◌, ltb,
  if◌then◌else◌, parameter_error,
}
use jellyfish.Merkle.Node.{
  MerkleNode, empty, branch, leaf, forgetten_subtree, Nodes, MerklePath, NodeValue, DigestAlgorithm,
  values,
}
use jellyfish.Merkle.Path.{ToTraversalPath}

-- `VerificationResult`, with its two cases.
pub data VerificationResult : Type 0 where
  accepted rejected : VerificationResult

pub record MerkleProof (E I T : Type 0) : Type 0 where
  pub index : I
  pub proof : MerklePath E I T

module _ {E I T : Type 0} where
  abbrev pub tree_height : MerkleProof E I T → ℕ
  tree_height p = length p.proof

  abbrev pub first_elem : MerklePath E I T → Option E
  first_elem (leaf t i e ∷ ns) = some e
  first_elem _ = none

  abbrev pub elem : MerkleProof E I T → Option E
  elem p = first_elem p.proof

module _ {T : Type 0} where
  -- `data[b] = val`
  abbrev pub assign_at : List T → ℕ → T → Result (List T)
  assign_at xs b t = if ltb b (length xs) then ok (set xs b t) else panic

module _ {E I T : Type 0} ⦃v : NodeValue T⦄ ⦃h : DigestAlgorithm E I T⦄ where
  -- The value of a branch of a proof, from the value of its child `b`.
  unfoldable pub hash_branch : Nodes E I T → ℕ → T → Result T
  hash_branch cs b val = assign_at (values cs) b val >>= h.digest

  -- The two closures of `try_fold`.
  abbrev pub membership_step : T → ℕ → MerkleNode E I T → Result T
  membership_step val b (branch t cs) = hash_branch cs b val
  membership_step val b empty = err (parameter_error "Incompatible proof for this merkle tree")
  membership_step val b (leaf t p e) =
      err (parameter_error "Incompatible proof for this merkle tree")
  membership_step val b (forgetten_subtree t) =
      err (parameter_error "Incompatible proof for this merkle tree")

  abbrev pub non_membership_step : T → ℕ → MerkleNode E I T → Result T
  non_membership_step val b (branch t cs) = hash_branch cs b val
  non_membership_step val b empty = ok v.default
  non_membership_step val b (leaf t p e) =
      err (parameter_error "Incompatible proof for this merkle tree")
  non_membership_step val b (forgetten_subtree t) =
      err (parameter_error "Incompatible proof for this merkle tree")

  -- `path.iter().zip(nodes).try_fold(val, step)`
  abbrev pub try_fold :
      (T → ℕ → MerkleNode E I T → Result T) → T → List ℕ → List (MerkleNode E I T) → Result T
  try_fold step val [] ns = ok val
  try_fold step val (b ∷ path) [] = ok val
  try_fold step val (b ∷ path) (n ∷ ns) = step val b n >>= λ val'. try_fold step val' path ns

  -- `self.proof[0]`, a panic on an empty proof.
  abbrev pub membership_root : List ℕ → MerklePath E I T → Result T
  membership_root path [] = panic
  membership_root path (leaf t p e ∷ ns) = do
    init ← h.digest_leaf p e
    try_fold membership_step init path ns
  membership_root path (empty ∷ ns) = err (parameter_error "Invalid proof type")
  membership_root path (branch t cs ∷ ns) = err (parameter_error "Invalid proof type")
  membership_root path (forgetten_subtree t ∷ ns) = err (parameter_error "Invalid proof type")

  abbrev pub non_membership_root : List ℕ → MerklePath E I T → Result T
  non_membership_root path [] = panic
  non_membership_root path (empty ∷ ns) = try_fold non_membership_step v.default path ns
  non_membership_root path (leaf t p e ∷ ns) = err (parameter_error "Invalid proof type")
  non_membership_root path (branch t cs ∷ ns) = err (parameter_error "Invalid proof type")
  non_membership_root path (forgetten_subtree t ∷ ns) = err (parameter_error "Invalid proof type")

module _ {E I T : Type 0} ⦃v : NodeValue T⦄ ⦃h : DigestAlgorithm E I T⦄
    ⦃i : ToTraversalPath I⦄ where
  unfoldable pub verify_membership_proof : ℕ → MerkleProof E I T → T → Result VerificationResult
  verify_membership_proof arity p expected_root = do
    computed_root ← membership_root (i.to_traversal_path arity p.index (tree_height p - 1)) p.proof
    ok (if v.beq computed_root expected_root then accepted else rejected)

  unfoldable pub verify_non_membership_proof : ℕ → MerkleProof E I T → T → Result Bool
  verify_non_membership_proof arity p expected_root = do
    computed_root ←
        non_membership_root (i.to_traversal_path arity p.index (tree_height p - 1)) p.proof
    ok (v.beq computed_root expected_root)
