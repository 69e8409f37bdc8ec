-- ===== src/Tests/Sample.antt =====
-- Concrete Merkle trees and proofs.
use native.Mathlib.Decide.{ℕ_discrete}
use jellyfish.Prelude.{ℕ, ◌%◌, ◌≡◌, refl, [], ◌∷◌, Option, some, none, ok, true}
use jellyfish.Merkle.Node.{
  MerkleNode, empty, branch, leaf, forgetten_subtree, Nodes, nil, cons, nat_eq, values, value,
  digest_branch,
}
use jellyfish.Merkle.Path.{nat_path, to_traversal_path_primitives}
use jellyfish.Merkle.Lookup.{found, not_found, lookup_internal}
use jellyfish.Merkle.Build.{build_tree_internal, chunks, min_height}
use jellyfish.Merkle.Update.{update_with_internal}
use jellyfish.Merkle.Verify.{
  MerkleProof, accepted, hash_branch, verify_membership_proof, verify_non_membership_proof,
}
use jellyfish.Merkle.Tree.{
  MerkleTree, universal_lookup, verify, non_membership_verify, update_with, from_elems,
}
use jellyfish.Merkle.Update.Keeps.{count_leaves}
use jellyfish.Merkle.Tree.Proofs.{IsValidTree}
use jellyfish.Tests.Hash.{Term, blank, leaf_term, chain, term_value, term_digest, Term-discrete}

abbrev pub hashed : Nodes ℕ ℕ Term → MerkleNode ℕ ℕ Term
hashed cs = branch (chain (values cs)) cs

abbrev pub leaf_at : ℕ → ℕ → MerkleNode ℕ ℕ Term
leaf_at p e = leaf (leaf_term p e) p e

-- A binary tree of height 2 with the elements 10, 11 and 13 at 0, 1 and 3.
abbrev pub sample : MerkleTree ℕ ℕ Term
sample = record {
  root = hashed (
      cons (hashed (cons (leaf_at 0 10) (cons (leaf_at 1 11) nil)))
        (cons (hashed (cons empty (cons (leaf_at 3 13) nil))) nil));
  height = 2;
  num_leaves = 3;
}

pub sample-IsValid : IsValidTree 2 sample
unfolding digest_branch
sample-IsValid =
    (refl, refl, ((refl, refl, (refl, (refl, tt))), ((refl, refl, (tt, (refl, tt))), tt)))

abbrev pub put_99 : Option ℕ → Option ℕ
put_99 o = some 99

pub put_99-done : (update_with 2 sample 2 put_99).1 ≡ ok (not_found tt)
unfolding update_with update_with_internal digest_branch to_traversal_path_primitives
put_99-done = refl

pub sample-count : ◌≡◌ {A = ℕ} 3 (count_leaves sample.root)
unfolding count_leaves
sample-count = refl

-- The proof that a lookup of index 1 gives.
abbrev pub proof_of_1 : MerkleProof ℕ ℕ Term
proof_of_1 = record {
  index = 1;
  proof =
      leaf_at 1 11
      ∷ branch blank (
          cons (forgetten_subtree (leaf_term 0 10)) (cons (forgetten_subtree (leaf_term 1 11)) nil))
      ∷ branch blank (
          cons (forgetten_subtree (chain (leaf_term 0 10 ∷ leaf_term 1 11 ∷ [])))
            (cons (forgetten_subtree (chain (blank ∷ leaf_term 3 13 ∷ []))) nil))
      ∷ [];
}

pub sample_at_1 : universal_lookup 2 sample 1 ≡ ok (found 11 proof_of_1)
unfolding universal_lookup lookup_internal to_traversal_path_primitives
sample_at_1 = refl

pub proof_of_1-accepted : verify 2 (value sample.root) 1 proof_of_1 ≡ ok accepted
unfolding verify verify_membership_proof hash_branch to_traversal_path_primitives Term-discrete
    ℕ_discrete
proof_of_1-accepted = refl

-- The proof that a lookup of index 2 gives.
abbrev pub proof_of_2 : MerkleProof ℕ ℕ Term
proof_of_2 = record {
  index = 2;
  proof =
      empty
      ∷ branch blank (cons empty (cons (forgetten_subtree (leaf_term 3 13)) nil))
      ∷ branch blank (
          cons (forgetten_subtree (chain (leaf_term 0 10 ∷ leaf_term 1 11 ∷ [])))
            (cons (forgetten_subtree (chain (blank ∷ leaf_term 3 13 ∷ []))) nil))
      ∷ [];
}

pub proof_of_2-accepted : non_membership_verify 2 sample 2 proof_of_2 ≡ ok true
unfolding non_membership_verify verify_non_membership_proof hash_branch to_traversal_path_primitives
    Term-discrete ℕ_discrete
proof_of_2-accepted = refl

-- The tree of one element.
abbrev pub single : MerkleTree ℕ ℕ Term
single = record { root = hashed (cons (leaf_at 0 7) (cons empty nil)); height = 0; num_leaves = 1 }

pub single-made : from_elems {E = ℕ} {T = Term} 2 none (7 ∷ []) ≡ ok single
unfolding from_elems build_tree_internal chunks digest_branch min_height
single-made = refl

-- The children of a proof for index 0 of the tree of 10 and 11, with a leaf for index 1 that has the
-- value of the leaf of 11 and the element 99.
abbrev pub forged_children : Nodes ℕ ℕ Term
forged_children = cons (forgetten_subtree (leaf_term 0 10)) (cons (leaf (leaf_term 1 11) 1 99) nil)

abbrev pub root_of_two : Term
root_of_two = chain (leaf_term 0 10 ∷ leaf_term 1 11 ∷ [])

pub forged_children-hash : hash_branch forged_children (0 % 2) (leaf_term 0 10) ≡ ok root_of_two
unfolding hash_branch
forged_children-hash = refl
