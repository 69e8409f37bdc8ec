-- ===== src/Merkle/Tree/Siblings.antt =====
-- What `remember` (primitives/src/merkle_tree/macros.rs and internal.rs) takes from a proof besides
-- the element that it proves.
use jellyfish.Prelude.{ℕ, ◌%◌, ◌≡◌, refl, ap, ◌∙◌, ◌≢◌, some, List, [], ◌∷◌, ok}
use jellyfish.Merkle.Node.{
  branch, leaf, forgetten_subtree, Nodes, Eq, nat_eq, NodeValue, DigestAlgorithm, child?, set_child,
}
use jellyfish.Merkle.Path.{nat_path, to_traversal_path_primitives}
use jellyfish.Merkle.Lookup.{found, lookup_internal}
use jellyfish.Merkle.Verify.{MerkleProof, hash_branch}
use jellyfish.Merkle.Remember.{remember_internal}
use jellyfish.Merkle.Valid.{child-set_child_ne}
use jellyfish.Merkle.Update.Step.{read, read-branch}
use jellyfish.Merkle.Tree.{MerkleTree, remember}
use jellyfish.Merkle.Tree.Updates.{at, at-read}

one_digit : (arity p : ℕ) → to_traversal_path_primitives arity p 1 ≡ p % arity ∷ []
unfolding to_traversal_path_primitives
one_digit arity p = refl

read-leaf :
    {E T : Type 0} ⦃v : NodeValue T⦄ (y : T) (j : ℕ) (e : E) (path : List ℕ)
    → read (leaf y j e) 0 path ≡ ok (found e tt)
unfolding read lookup_internal
read-leaf y j e path = refl

module _ {E T : Type 0} where
  -- A tree of height 1 of which only the root's value is known.
  abbrev pub forgotten_tree : T → ℕ → MerkleTree E ℕ T
  forgotten_tree r n = record { root = forgetten_subtree r; height = 1; num_leaves = n }

  abbrev pub proof_with : ℕ → T → ℕ → E → T → Nodes E ℕ T → MerkleProof E ℕ T
  proof_with p x i e t cs = record { index = p; proof = leaf x i e ∷ branch t cs ∷ [] }

module _ {E T : Type 0} ⦃v : NodeValue T⦄ ⦃h : DigestAlgorithm E ℕ T⦄ ⦃eqe : Eq E⦄ (arity : ℕ) where
  remember-forgotten_tree :
      (r x t : T) (n p i : ℕ) (e : E) (cs : Nodes E ℕ T)
      → h.digest_leaf i e ≡ ok x
      → hash_branch cs (p % arity) x ≡ ok r
      → child? cs (p % arity) ≡ some (forgetten_subtree x)
      → remember arity (forgotten_tree r n) p e (proof_with p x i e t cs) ≡ (
        record (forgotten_tree r n) { root = branch r (set_child cs (p % arity) (leaf x i e)) },
        ok tt,
      )
  unfolding remember to_traversal_path_primitives remember_internal
  remember-forgotten_tree r x t n p i e cs d m k =
      rw ((eqe.beq_iff e e).1 refl, d, m, (v.beq_iff r r).1 refl, k, (v.beq_iff x x).1 refl) refl

  -- In a tree of height 1 of which only the root's value is known, remembering an element succeeds
  -- with any proof whose branch has in the place of the element's leaf the value of that leaf alone,
  -- and hashes to the root with that value; a lookup of another index then finds the element of the
  -- leaf that the proof's branch has there, whatever element that is.
  pub remember-siblings :
      (r x t y : T) (n p i q j : ℕ) (e forged : E) (cs : Nodes E ℕ T)
      → h.digest_leaf i e ≡ ok x
      → hash_branch cs (p % arity) x ≡ ok r
      → child? cs (p % arity) ≡ some (forgetten_subtree x)
      → child? cs (q % arity) ≡ some (leaf y j forged)
      → p % arity ≢ q % arity
      → ((remember arity (forgotten_tree r n) p e (proof_with p x i e t cs)).1 ≡ ok tt)
        × (at arity (remember arity (forgotten_tree r n) p e (proof_with p x i e t cs)).0 q
            ≡ ok (found forged tt))
  remember-siblings r x t y n p i q j e forged cs d m k k' ne =
      let remembered = remember-forgotten_tree r x t n p i e cs d m k in
      let cs' = set_child cs (p % arity) (leaf x i e) in
      let tree : MerkleTree E ℕ T = record (forgotten_tree r n) { root = branch r cs' } in
      let there : at arity tree q ≡ ok (found forged tt) =
        at-read arity tree q
        ∙ ap (read (branch r cs') 1) (one_digit arity q)
        ∙ read-branch r cs' 0 (q % arity ∷ []) (q % arity) (leaf y j forged) refl
            (child-set_child_ne cs (p % arity) (q % arity) (leaf x i e) ne ∙ k')
        ∙ read-leaf y j forged (q % arity ∷ []) in
      rw remembered (refl, there)
