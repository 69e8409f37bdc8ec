-- ===== src/Merkle/Tree/Updates.antt =====
-- Updates of a universal tree (primitives/src/merkle_tree/universal_merkle_tree.rs) as a map from
-- indices to elements.
use jellyfish.Prelude.{
  ℕ, ◌+◌, ◌%◌, ◌^◌, ◌<◌, ◌≡◌, refl, sym, ◌∙◌, ◌≢◌, Option, Result, ok, err, panic, ◌>>=◌, ℤ, pos,
  negsuc, pos_part, neg_part, arith,
}
use jellyfish.Merkle.Node.{MerkleNode, MerklePath, NodeValue, DigestAlgorithm}
use jellyfish.Merkle.Path.{nat_path, to_traversal_path_primitives}
use jellyfish.Merkle.Path.Digits.{to_traversal_path_primitives-IsPath, path-Apart}
use jellyfish.Merkle.Lookup.{LookupResult, found, not_in_memory, not_found}
use jellyfish.Merkle.Update.{Updated, update_with_internal}
use jellyfish.Merkle.Update.Step.{erase, read}
use jellyfish.Merkle.Update.Read.{apply_at, update-read, update-read_ne}
use jellyfish.Merkle.Update.Keeps.{count_leaves, update-IsValid}
use jellyfish.Merkle.Update.Count.{update-count}
use jellyfish.Merkle.Tree.{
  MerkleTree, with_proofs, universal_lookup, updated, update_with, add_delta,
}
use jellyfish.Merkle.Tree.Proofs.{IsValidTree}

module _ {E T : Type 0} ⦃v : NodeValue T⦄ where
  -- The map that a tree stands for: a lookup with its proof left out.
  unfoldable pub at : ℕ → MerkleTree E ℕ T → ℕ → Result (LookupResult E (Unit {0}) (Unit {0}))
  at arity t p = universal_lookup arity t p >>= λ r. ok (erase r)

  erase-with_proofs :
      (p : ℕ) (r : Result (LookupResult E (MerklePath E ℕ T) (MerklePath E ℕ T)))
      → ((r >>= λ l. ok (with_proofs p l)) >>= λ l. ok (erase l)) ≡ (r >>= λ l. ok (erase l))
  erase-with_proofs p (ok (found e proof)) = refl
  erase-with_proofs p (ok not_in_memory) = refl
  erase-with_proofs p (ok (not_found proof)) = refl
  erase-with_proofs p (err e) = refl
  erase-with_proofs p panic = refl

  pub at-read :
      (arity : ℕ) (t : MerkleTree E ℕ T) (p : ℕ)
      → at arity t p ≡ read t.root t.height (to_traversal_path_primitives arity p t.height)
  unfolding at universal_lookup read
  at-read arity t p = erase-with_proofs p _

-- The two's complement sum is the sum.
add_delta-mod : (d : ℤ) (n m : ℕ) → m + neg_part d ≡ n + pos_part d → add_delta d n ≡ m % 2 ^ 64
add_delta-mod (pos d) n m e = omega arith
add_delta-mod (negsuc d) n m e = omega arith

module _ {E T : Type 0} ⦃v : NodeValue T⦄ ⦃h : DigestAlgorithm E ℕ T⦄ (arity : ℕ) where
  -- A successful update, taken apart.
  updated-ok :
      (t : MerkleTree E ℕ T) (left : MerkleNode E ℕ T × Result (Updated E))
      {old : LookupResult E (Unit {0}) (Unit {0})}
      → (updated arity t left).1 ≡ ok old
      → (d : ℤ) × (left.1 ≡ ok (d, old))
        × ((updated arity t left).0
            ≡ record t { root = left.0; num_leaves = add_delta d t.num_leaves })
  updated-ok t (root, ok (d, result)) p = (d, ground arith, refl)
  updated-ok t (root, err e) p = cc
  updated-ok t (root, panic) p = cc

  module _ (t : MerkleTree E ℕ T) (p : ℕ) (f : Option E → Option E)
      {old : LookupResult E (Unit {0}) (Unit {0})} (positive : 0 < arity)
      (valid : IsValidTree arity t) (done : (update_with arity t p f).1 ≡ ok old) where
    -- An update that returns leaves a well-formed tree, answers with what stood at the index, and
    -- leaves there what `f` makes of it; a forgotten index stays forgotten.
    pub update_with-at :
        IsValidTree arity (update_with arity t p f).0
        × (at arity t p ≡ ok old)
        × (at arity (update_with arity t p f).0 p ≡ ok (apply_at f old))
    unfolding update_with
    update_with-at =
        let path = to_traversal_path_primitives arity p t.height in
        let (d, e, left) =
          updated-ok t (update_with_internal arity t.root t.height p path f) done in
        let is_path = to_traversal_path_primitives-IsPath arity p t.height positive in
        let reads = update-read arity f p t.root t.height path valid is_path e in
        rw left (
          update-IsValid arity f p t.root t.height path valid is_path e,
          at-read arity t p ∙ reads.0,
          at-read arity _ p ∙ reads.1,
        )

    -- Every other index below the capacity holds what it held.
    pub update_with-at_ne :
        (q : ℕ)
        → p < arity ^ t.height
        → q < arity ^ t.height
        → p ≢ q
        → at arity (update_with arity t p f).0 q ≡ at arity t q
    unfolding update_with
    update_with-at_ne q lp lq ne =
        let path = to_traversal_path_primitives arity p t.height in
        let (d, e, left) =
          updated-ok t (update_with_internal arity t.root t.height p path f) done in
        rw left (
          at-read arity _ q
          ∙ update-read_ne arity f p t.root t.height path
              (to_traversal_path_primitives arity q t.height) valid
              (to_traversal_path_primitives-IsPath arity p t.height positive)
              (to_traversal_path_primitives-IsPath arity q t.height positive)
              (path-Apart arity t.height p q positive lp lq ne) e
          ∙ sym (at-read arity t q))

    -- `num_leaves` stays the number of leaves in memory, up to the width of a `u64`.
    pub update_with-num_leaves :
        t.num_leaves ≡ count_leaves t.root
        → (update_with arity t p f).0.num_leaves
          ≡ count_leaves (update_with arity t p f).0.root % 2 ^ 64
    unfolding update_with
    update_with-num_leaves counted =
        let path = to_traversal_path_primitives arity p t.height in
        let (d, e, left) =
          updated-ok t (update_with_internal arity t.root t.height p path f) done in
        let change =
          update-count arity f p t.root t.height path valid
            (to_traversal_path_primitives-IsPath arity p t.height positive) e in
        rw left (add_delta-mod d t.num_leaves _ (omega (arith, change)))
