-- ===== src/Tests/Merkle.antt =====
-- Runs of the Merkle trees, and the theorems about them at concrete trees.
use jellyfish.Prelude.{panic}
use jellyfish.Prelude.{
  collect_with, ℕ, ◌+◌, ◌*◌, ◌^◌, ◌%◌, ◌≡◌, refl, ◌≢◌, [], ◌∷◌, some, none, ok, err,
  parameter_error, ◌⊎◌, arith,
}
use jellyfish.Merkle.Node.{nat_eq, digest_branch}
use jellyfish.Merkle.Path.{nat_path, to_traversal_path_primitives}
use jellyfish.Merkle.Lookup.{LookupResult, found, not_in_memory, not_found}
use jellyfish.Merkle.Extend.{extend_internal, extend_with}
use jellyfish.Merkle.Iter.{next, into_next, iter_new, into_iter_new, elements, pop_leaf, node_size}
use jellyfish.Merkle.Iter.Order.{iter-elements}
use jellyfish.Merkle.Verify.{MerkleProof, elem}
use jellyfish.Merkle.Tree.{
  universal_lookup, universal_forget, commitment, remember, from_commitment, lookup, update_with,
  extend, new,
}
use jellyfish.Merkle.Update.Keeps.{count_leaves}
use jellyfish.Merkle.Tree.Proofs.{IsValidTree, IsVerified, universal_lookup-IsVerified}
use jellyfish.Merkle.Tree.Updates.{at, update_with-at, update_with-at_ne, update_with-num_leaves}
use jellyfish.Merkle.Tree.Forgets.{universal_forget-lookup, universal_forget-keeps, at_wraps}
use jellyfish.Tests.Hash.{
  Term, blank, leaf_term, term_value, term_digest, term_digest-IsCollisionFree,
}
use jellyfish.Merkle.Pruned.{Pruned-refl}
use jellyfish.Merkle.Tree.Siblings.{forgotten_tree, proof_with, remember-siblings}
use jellyfish.Merkle.Tree.Lowest.{from_elems-panics}
use jellyfish.Merkle.Tree.Restores.{
  IsRestored, IsPrunedTree, remember-restores, from_commitment-remember, forget-remember,
  universal_forget-IsPruned,
}
use jellyfish.Merkle.Tree.Soundness.{verify_sound, non_membership_verify_sound}
use jellyfish.Tests.Sample.{
  sample, sample-IsValid, put_99, put_99-done, sample-count, proof_of_1, sample_at_1,
  proof_of_1-accepted, proof_of_2, proof_of_2-accepted, single, single-made, forged_children,
  root_of_two, forged_children-hash,
}

-- The test of the repository: a tree of arity 3 and height 2 takes nine elements.
extend_run :
    ((extend {E = ℕ} {T = Term} 3
        (new 2)
        (1 ∷ 2 ∷ 3 ∷ 4 ∷ 5 ∷ 6 ∷ 7 ∷ 8 ∷ 9 ∷ 10 ∷ [])).0.num_leaves
      ≡ 9)
    × ((extend {E = ℕ} {T = Term} 3 (new 2) (1 ∷ 2 ∷ 3 ∷ 4 ∷ 5 ∷ 6 ∷ 7 ∷ 8 ∷ 9 ∷ 10 ∷ [])).1
        ≡ err (parameter_error "Exceed merkle tree capacity"))
unfolding extend extend_internal extend_with digest_branch new to_traversal_path_primitives
extend_run = (refl, refl)

universal_lookup-IsVerified_example :
    (r : LookupResult ℕ (MerkleProof ℕ ℕ Term) (MerkleProof ℕ ℕ Term)) × (universal_lookup 2 sample
        3
      ≡ ok r)
    × IsVerified 2 sample 3 r
universal_lookup-IsVerified_example =
    universal_lookup-IsVerified 2 sample 3 (omega arith) sample-IsValid

update_with-at_example :
    IsValidTree 2 (update_with 2 sample 2 put_99).0
    × (at 2 sample 2 ≡ ok (not_found tt))
    × (at 2 (update_with 2 sample 2 put_99).0 2 ≡ ok (found 99 tt))
update_with-at_example = update_with-at 2 sample 2 put_99 (omega arith) sample-IsValid put_99-done

update_with-at_ne_example : at 2 (update_with 2 sample 2 put_99).0 3 ≡ at 2 sample 3
update_with-at_ne_example =
    update_with-at_ne 2 sample 2 put_99 (omega arith) sample-IsValid put_99-done 3 (omega arith)
      (omega arith) (omega arith)

update_with-num_leaves_example :
    (update_with 2 sample 2 put_99).0.num_leaves
    ≡ count_leaves (update_with 2 sample 2 put_99).0.root % 2 ^ 64
update_with-num_leaves_example =
    update_with-num_leaves 2 sample 2 put_99 (omega arith) sample-IsValid put_99-done sample-count

universal_forget-lookup_example :
    ((universal_forget 2 sample 1).1 ≡ universal_lookup 2 sample 1)
    × (commitment (universal_forget 2 sample 1).0 ≡ commitment sample)
    × IsValidTree 2 (universal_forget 2 sample 1).0
universal_forget-lookup_example = universal_forget-lookup 2 sample 1 (omega arith) sample-IsValid

universal_forget-keeps_example :
    (◌≡◌ {A = ℕ} 0 1 → universal_lookup 2 (universal_forget 2 sample 0).0 1 ≡ ok not_in_memory)
    × (◌≢◌ {A = ℕ} 0 1
        → universal_lookup 2 (universal_forget 2 sample 0).0 1 ≡ ok (found 11 proof_of_1))
universal_forget-keeps_example =
    universal_forget-keeps 2 sample 0 1 (omega arith) sample-IsValid (omega arith) (omega arith)
      sample_at_1

-- Index 7 of a tree of capacity 4 reads the element at index 3.
at_wraps_example : at 2 sample (3 + 2 ^ 2 * 1) ≡ at 2 sample 3
at_wraps_example = at_wraps 2 sample 3 1 (omega arith)

verify_sound_example :
    (at 2 sample 1 ≡ ok not_in_memory)
    ⊎ ((e : ℕ) × (elem proof_of_1 ≡ some e) × (at 2 sample 1 ≡ ok (found e tt)))
verify_sound_example =
    verify_sound 2 term_digest-IsCollisionFree sample 1 (omega arith) sample-IsValid proof_of_1 refl
      proof_of_1-accepted

non_membership_verify_sound_example :
    (at 2 sample 2 ≡ ok not_in_memory) ⊎ (at 2 sample 2 ≡ ok (not_found tt))
non_membership_verify_sound_example =
    non_membership_verify_sound 2 term_digest-IsCollisionFree sample 2 (omega arith) sample-IsValid
      proof_of_2 proof_of_2-accepted

iter-elements_example :
    (collect_with next 4 (iter_new sample.root) ≡ elements sample.root)
    × (collect_with into_next 4 (into_iter_new sample.root) ≡ elements sample.root)
iter-elements_example = iter-elements sample.root 4 (omega (arith, sample-count))

iter_run : collect_with next 4 (iter_new sample.root) ≡ (0, 10) ∷ (1, 11) ∷ (3, 13) ∷ []
unfolding collect_with next iter_new pop_leaf node_size
iter_run = refl

remember-restores_example :
    IsRestored 2 sample 1 11 proof_of_1 (remember 2 (universal_forget 2 sample 1).0 1 11 proof_of_1)
remember-restores_example =
    remember-restores 2 (universal_forget 2 sample 1).0 sample 1 11 proof_of_1 (omega arith)
      sample-IsValid
      (universal_forget-IsPruned 2 sample sample 1 (refl, Pruned-refl sample.height sample.root))
      sample_at_1

from_commitment-remember_example :
    ((remember 2 (from_commitment (commitment sample)) 1 11 proof_of_1).1 ≡ ok tt)
    × (universal_lookup 2 (remember 2 (from_commitment (commitment sample)) 1 11 proof_of_1).0 1
        ≡ ok (found 11 proof_of_1))
from_commitment-remember_example =
    from_commitment-remember 2 sample 1 11 proof_of_1 (omega arith) sample-IsValid sample_at_1

forget-remember_example :
    IsRestored 2 sample 1 11 proof_of_1 (remember 2 (universal_forget 2 sample 0).0 1 11 proof_of_1)
forget-remember_example =
    forget-remember 2 sample 1 0 11 proof_of_1 (omega arith) sample-IsValid sample_at_1

universal_forget-IsPruned_example : IsPrunedTree (universal_forget 2 sample 1).0 sample
universal_forget-IsPruned_example =
    universal_forget-IsPruned 2 sample sample 1 (refl, Pruned-refl sample.height sample.root)

from_elems-panics_example : (lookup 2 single 0 ≡ panic) × (universal_lookup 2 single 0 ≡ panic)
from_elems-panics_example = from_elems-panics 2 none 7 [] single 0 single-made refl

remember-siblings_example :
    ((remember 2
        (forgotten_tree root_of_two 2)
        0
        10
        (proof_with 0 (leaf_term 0 10) 0 10 blank forged_children)).1
      ≡ ok tt)
    × (at 2
          (remember 2
            (forgotten_tree root_of_two 2)
            0
            10
            (proof_with 0 (leaf_term 0 10) 0 10 blank forged_children)).0
          1
        ≡ ok (found 99 tt))
remember-siblings_example =
    remember-siblings 2 root_of_two (leaf_term 0 10) blank (leaf_term 1 11) 2 0 0 1 1 10 99
      forged_children refl forged_children-hash refl refl (omega arith)
