-- ===== src/Merkle/Build.antt =====
-- `build_tree_internal` and `build_light_weight_tree_internal`
-- (primitives/src/merkle_tree/internal.rs): a tree from all its elements, level by level.
pub mod Root
pub mod Fuel
use jellyfish.Prelude.{
  ℕ, zero, suc, ◌-◌, ◌*◌, ◌^◌, Option, none, some, List, [], ◌∷◌, length, get_elem?, take, drop,
  Result, ok, err, panic, ◌>>=◌, parameter_error, if◌then◌else◌, ltb, or_panic,
}
use jellyfish.Merkle.Node.{
  MerkleNode, empty, branch, leaf, forgetten_subtree, Nodes, cons, NodeValue, DigestAlgorithm,
  to_nodes, value, digest_branch,
}

module _ {A : Type 0} where
  -- `.chunks(n)`: groups of `n`, the last one with what is left. As many rounds as there are
  -- items are enough.
  unfoldable pub chunk_rounds : ℕ → ℕ → List A → List (List A)
  chunk_rounds zero n xs = []
  chunk_rounds (suc rounds) n [] = []
  chunk_rounds (suc rounds) n (x ∷ xs) = take n (x ∷ xs) ∷ chunk_rounds rounds n (drop n (x ∷ xs))

  unfoldable pub chunks : ℕ → List A → List (List A)
  unfolding chunk_rounds
  chunks n xs = chunk_rounds (length xs) n xs

  -- `.enumerate()`
  abbrev pub enumerate_from : ℕ → List A → List (ℕ × A)
  enumerate_from i [] = []
  enumerate_from i (x ∷ xs) = (i, x) ∷ enumerate_from (suc i) xs

module _ {A B : Type 0} where
  -- `.map(f).collect::<Result<Vec<_>, _>>()?`
  abbrev pub try_map : (A → Result B) → List A → Result (List B)
  try_map f [] = ok []
  try_map f (x ∷ xs) = do y ← f x; ys ← try_map f xs; ok (y ∷ ys)

-- `while capacity < num_leaves { height += 1; capacity *= arity }` in u64, on fuel: a product past
-- the type is a panic, and so is the end of the fuel, which a loop that ends does not reach.
unfoldable pub min_height : ℕ → ℕ → ℕ → ℕ → ℕ → Result ℕ
min_height zero arity num_leaves height capacity = panic
min_height (suc fuel) arity num_leaves height capacity =
    let rest = min_height fuel arity num_leaves (suc height) (capacity * arity) in
    let grown = if ltb (capacity * arity) (2 ^ 64) then rest else panic in
    if ltb capacity num_leaves then grown else ok height

-- `height.unwrap_or_else(..)`
abbrev pub height_or : Option ℕ → ℕ → ℕ → Result ℕ
height_or (some height) arity num_leaves = ok height
height_or none arity num_leaves = min_height (suc num_leaves) arity num_leaves 0 1

-- `num_traits::checked_pow` in u64.
abbrev pub checked_pow : ℕ → ℕ → Option ℕ
checked_pow base n = if ltb (base ^ n) (2 ^ 64) then some (base ^ n) else none

module _ {E T : Type 0} where
  -- `.pad_using(n, |_| Empty)`
  abbrev pub pad : ℕ → List (MerkleNode E ℕ T) → Nodes E ℕ T
  pad zero ns = to_nodes ns
  pad (suc n) [] = cons empty (pad n [])
  pad (suc n) (c ∷ ns) = cons c (pad n ns)

module _ {E T : Type 0} ⦃v : NodeValue T⦄ ⦃h : DigestAlgorithm E ℕ T⦄ where
  -- A branch over a chunk.
  abbrev pub chunk_branch : ℕ → List (MerkleNode E ℕ T) → Result (MerkleNode E ℕ T)
  chunk_branch arity ns = do t ← digest_branch (pad arity ns); ok (branch t (pad arity ns))

  abbrev pub build_leaf : ℕ × E → Result (MerkleNode E ℕ T)
  build_leaf (p, e) = do t ← h.digest_leaf p e; ok (leaf t p e)

  abbrev pub leaf_branch :
      ℕ → (ℕ × E → Result (MerkleNode E ℕ T)) → List (ℕ × E) → Result (MerkleNode E ℕ T)
  leaf_branch arity to_leaf chunk = try_map to_leaf chunk >>= chunk_branch arity

  -- `for _ in 1..height { cur_nodes = .. }`; `after` is what is done to a level when it is built.
  unfoldable pub build_levels :
      (List (MerkleNode E ℕ T) → List (MerkleNode E ℕ T))
      → ℕ
      → ℕ
      → List (MerkleNode E ℕ T)
      → Result (List (MerkleNode E ℕ T))
  build_levels after arity zero ns = ok ns
  build_levels after arity (suc rounds) ns = do
    ns' ← try_map (chunk_branch arity) (chunks arity ns)
    build_levels after arity rounds (after ns')

  -- The nodes above the leaves, and the root.
  unfoldable pub build_root :
      (List (MerkleNode E ℕ T) → List (MerkleNode E ℕ T))
      → (ℕ × E → Result (MerkleNode E ℕ T))
      → ℕ
      → ℕ
      → List E
      → Result (MerkleNode E ℕ T)
  build_root after to_leaf arity height es = do
    ns ← try_map (leaf_branch arity to_leaf) (chunks arity (enumerate_from 0 es))
    top ← build_levels after arity (height - 1) (after ns)
    or_panic (get_elem? top 0)

  abbrev pub sized : ℕ → ℕ → Result (MerkleNode E ℕ T) → Result (MerkleNode E ℕ T × ℕ × ℕ)
  sized height num_leaves root = root >>= λ n. ok (n, height, num_leaves)

  -- The tree of the height that is given or chosen.
  abbrev pub build_of_height : ℕ → List E → ℕ → Result (MerkleNode E ℕ T × ℕ × ℕ)
  unfolding build_root build_levels
  build_of_height arity es height =
      let num_leaves = length es in
      if ltb (arity ^ height) num_leaves
      then err (parameter_error "Too many data for merkle tree")
      else if ltb 0 num_leaves
      then sized height num_leaves (build_root (λ ns. ns) build_leaf arity height es)
      else ok (empty, height, 0)

  unfoldable pub build_tree_internal : ℕ → Option ℕ → List E → Result (MerkleNode E ℕ T × ℕ × ℕ)
  unfolding build_root build_levels
  build_tree_internal arity height? es =
      height_or height? arity (length es) >>= build_of_height arity es

  -- All but the last leaf are kept by their values only.
  abbrev pub build_light_leaf : ℕ → ℕ × E → Result (MerkleNode E ℕ T)
  build_light_leaf num_leaves (p, e) = do
    t ← h.digest_leaf p e
    ok (if ltb p (num_leaves - 1) then forgetten_subtree t else leaf t p e)

  -- `for i in 1..cur_nodes.len() - 1 { cur_nodes[i] = Forgotten }`: the nodes strictly between
  -- the first and the last.
  abbrev pub forget_but_last : List (MerkleNode E ℕ T) → List (MerkleNode E ℕ T)
  forget_but_last [] = []
  forget_but_last (n ∷ []) = n ∷ []
  forget_but_last (n ∷ m ∷ ns) = forgetten_subtree (value n) ∷ forget_but_last (m ∷ ns)

  abbrev pub forget_middle : List (MerkleNode E ℕ T) → List (MerkleNode E ℕ T)
  forget_middle [] = []
  forget_middle (n ∷ ns) = n ∷ forget_but_last ns

  abbrev pub checked_build :
      Option ℕ → ℕ → Result (MerkleNode E ℕ T × ℕ × ℕ) → Result (MerkleNode E ℕ T × ℕ × ℕ)
  checked_build none num_leaves rest = err (parameter_error "Merkle tree size too large.")
  checked_build (some capacity) num_leaves rest =
      if ltb capacity num_leaves
      then err (parameter_error "Too many data for merkle tree")
      else rest

  abbrev pub build_light_of_height : ℕ → List E → ℕ → Result (MerkleNode E ℕ T × ℕ × ℕ)
  unfolding build_root build_levels
  build_light_of_height arity es height =
      let num_leaves = length es in
      checked_build (checked_pow arity height) num_leaves (
        if ltb 0 num_leaves
        then sized height num_leaves
            (build_root forget_middle (build_light_leaf num_leaves) arity height es)
        else ok (empty, height, 0))

  unfoldable pub build_light_weight_tree_internal :
      ℕ → Option ℕ → List E → Result (MerkleNode E ℕ T × ℕ × ℕ)
  unfolding build_root build_levels
  build_light_weight_tree_internal arity height? es =
      height_or height? arity (length es) >>= build_light_of_height arity es
