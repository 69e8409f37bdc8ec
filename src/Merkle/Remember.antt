-- ===== src/Merkle/Remember.antt =====
-- `remember_internal` (primitives/src/merkle_tree/internal.rs), and the values along a proof that
-- the `remember` methods pass to it (primitives/src/merkle_tree/macros.rs for a membership proof,
-- primitives/src/merkle_tree/universal_merkle_tree.rs for a non-membership proof).
use jellyfish.Prelude.{
  ℕ, zero, suc, Option, none, some, List, [], ◌∷◌, ◌++◌, get_elem?, Result, ok, err, panic, ◌>>=◌,
  parameter_error, if◌then◌else◌,
}
use jellyfish.Merkle.Node.{
  MerkleNode, empty, branch, leaf, forgetten_subtree, Nodes, MerklePath, NodeValue, DigestAlgorithm,
  value,
}
use jellyfish.Merkle.Lookup.{descend}

module _ {E I T : Type 0} where
  -- `*self = Branch { value, children }` once the recursive call on the cloned children is `Ok`.
  abbrev pub remember_cloned :
      T → Nodes E I T × Result (Unit {0}) → MerkleNode E I T × Result (Unit {0})
  remember_cloned t (cs, ok u) = (branch t cs, ok u)
  remember_cloned t (cs, err e) = (forgetten_subtree t, err e)
  remember_cloned t (cs, panic) = (forgetten_subtree t, panic)

  -- The call on a child of a branch of the tree, in place.
  abbrev pub remember_child :
      T → Nodes E I T × Result (Unit {0}) → MerkleNode E I T × Result (Unit {0})
  remember_child t (cs, r) = (branch t cs, r)

module _ {E I T : Type 0} ⦃v : NodeValue T⦄ where
  -- The check of the node's value against the proof's at this height.
  abbrev pub check_value :
      MerkleNode E I T
      → Option T
      → MerkleNode E I T × Result (Unit {0})
      → MerkleNode E I T × Result (Unit {0})
  check_value self none rest = (self, panic)
  check_value self (some t) rest =
      if v.beq (value self) t
      then rest
      else (self, err (parameter_error "Invalid proof. Hash differs"))

  -- The match on `(self, &proof[height])`; `recur` is the recursive call, `none` at height 0.
  abbrev pub remember_match :
      MerkleNode E I T
      → Option (MerkleNode E I T)
      → (Nodes E I T → Nodes E I T × Result (Unit {0}))
      → MerkleNode E I T × Result (Unit {0})
  remember_match self none recur = (self, panic)
  remember_match (forgetten_subtree t) (some (branch t' cs)) recur = remember_cloned t (recur cs)
  remember_match (forgetten_subtree t) (some n) recur = (n, ok tt)
  remember_match (branch t cs) (some (branch t' cs')) recur = remember_child t (recur cs)
  remember_match (leaf t p e) (some (leaf t' p' e')) recur = (leaf t p e, ok tt)
  remember_match empty (some empty) recur = (empty, ok tt)
  remember_match self (some n) recur = (self, err (parameter_error "Invalid proof"))

  unfoldable pub remember_internal :
      MerkleNode E I T
      → ℕ
      → List ℕ
      → List T
      → MerklePath E I T
      → MerkleNode E I T × Result (Unit {0})
  remember_internal self zero path path_values proof =
      check_value self (get_elem? path_values 0)
        (remember_match self (get_elem? proof 0) (λ cs. (cs, panic)))
  remember_internal self (suc height) path path_values proof =
      check_value self (get_elem? path_values (suc height)) (
        remember_match self (get_elem? proof (suc height)) (λ cs.
          descend cs (get_elem? path height)
            (λ child. remember_internal child height path path_values proof)))

module _ {E I T : Type 0} ⦃v : NodeValue T⦄ ⦃h : DigestAlgorithm E I T⦄ where
  -- The fold that pushes the value at each height.
  abbrev pub fold_values :
      (T → ℕ → MerkleNode E I T → Result T)
      → T
      → List ℕ
      → List (MerkleNode E I T)
      → List T
      → Result (List T)
  fold_values step val [] ns path_values = ok path_values
  fold_values step val (b ∷ path) [] path_values = ok path_values
  fold_values step val (b ∷ path) (n ∷ ns) path_values =
      step val b n >>= λ val'. fold_values step val' path ns (path_values ++ val' ∷ [])
