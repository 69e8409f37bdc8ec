-- ===== src/Tests/Builders.antt =====
-- Runs of the two builders over the same elements.
use jellyfish.Prelude.{ℕ, ◌≡◌, refl, none, [], ◌∷◌, ok, panic}
use jellyfish.Merkle.Node.{MerkleNode, empty, forgetten_subtree, nil, cons, digest_branch, value}
use jellyfish.Merkle.Build.{
  build_tree_internal, build_light_weight_tree_internal, chunks, min_height, height_or, build_root,
  build_leaf, build_light_leaf, forget_middle,
}
use jellyfish.Prelude.{◌+◌, ◌^◌, arith}
use jellyfish.Merkle.Build.Fuel.{IsLeast, min_height-IsLeast}
use jellyfish.Merkle.Build.Root.{map_ok, value_root, builders-value}
use jellyfish.Merkle.Tree.{MerkleTree, commitment, from_elems, light_from_elems}
use jellyfish.Merkle.Tree.LightWeight.{from_elems-commitment}
use jellyfish.Tests.Hash.{Term, leaf_term, term_value, term_digest}
use jellyfish.Tests.Sample.{hashed, leaf_at}

abbrev full : MerkleTree ℕ ℕ Term
full = record {
  root = hashed (
      cons (hashed (cons (leaf_at 0 10) (cons (leaf_at 1 11) nil)))
        (cons (hashed (cons (leaf_at 2 12) (cons empty nil))) nil));
  height = 2;
  num_leaves = 3;
}

abbrev light : MerkleTree ℕ ℕ Term
light = record {
  root = hashed (
      cons
        (hashed (
          cons (forgetten_subtree (leaf_term 0 10))
            (cons (forgetten_subtree (leaf_term 1 11)) nil)))
        (cons (hashed (cons (leaf_at 2 12) (cons empty nil))) nil));
  height = 2;
  num_leaves = 3;
}

full_run : from_elems {E = ℕ} {T = Term} 2 none (10 ∷ 11 ∷ 12 ∷ []) ≡ ok full
unfolding from_elems build_tree_internal chunks digest_branch min_height
full_run = refl

light_run : light_from_elems {E = ℕ} {T = Term} 2 none (10 ∷ 11 ∷ 12 ∷ []) ≡ ok light
unfolding light_from_elems build_light_weight_tree_internal chunks digest_branch min_height
light_run = refl

from_elems-commitment_example : commitment full ≡ commitment light
from_elems-commitment_example =
    from_elems-commitment 2 none (10 ∷ 11 ∷ 12 ∷ []) full light full_run light_run

builders-value_example :
    (map_ok {A = MerkleNode ℕ ℕ Term} {B = Term} value
        (build_root (λ ns. ns) build_leaf 2 2 (10 ∷ 11 ∷ 12 ∷ []))
      ≡ value_root {E = ℕ} 2 2 (10 ∷ 11 ∷ 12 ∷ []))
    × (map_ok {A = MerkleNode ℕ ℕ Term} {B = Term} value
          (build_root forget_middle (build_light_leaf 3) 2 2 (10 ∷ 11 ∷ 12 ∷ []))
        ≡ value_root {E = ℕ} 2 2 (10 ∷ 11 ∷ 12 ∷ []))
builders-value_example = builders-value 2 2 (10 ∷ 11 ∷ 12 ∷ [])

min_height-IsLeast_example : (height : ℕ) × (height_or none 2 5 ≡ ok height) × IsLeast 2 5 height
min_height-IsLeast_example = min_height-IsLeast 2 5 (omega arith) (omega arith)

-- The product for the ninth level over 2^56 leaves and one more is past 64 bits.
overflow_run : min_height 9 256 (2 ^ 56 + 1) 7 (2 ^ 56) ≡ panic
unfolding min_height
overflow_run = refl
