-- ===== src/Merkle/Iter.antt =====
-- The iterators `MerkleTreeIter` and `MerkleTreeIntoIter` of
-- primitives/src/merkle_tree/internal.rs: a stack of nodes whose top is the head of the list.
pub mod Order
use jellyfish.Prelude.{
  ℕ, zero, suc, ◌+◌, ◌≤◌, ◌≡◌, refl, ap, sym, ◌∙◌, Bool, true, false, Option, none, some, List, [],
  ◌∷◌, ◌++◌, if◌then◌else◌, arith,
}
use jellyfish.Merkle.Node.{
  MerkleNode, empty, branch, leaf, forgetten_subtree, Nodes, nil, cons, MerklePath,
}

pub record MerkleTreeIter (E I T : Type 0) : Type 0 where
  pub stack : List (MerkleNode E I T)

pub record MerkleTreeIntoIter (E I T : Type 0) : Type 0 where
  pub stack : List (MerkleNode E I T)

module _ {E I T : Type 0} where
  -- `matches!(child, MerkleNode::Branch { .. } | MerkleNode::Leaf { .. })`
  abbrev pub is_branch_or_leaf : MerkleNode E I T → Bool
  is_branch_or_leaf empty = false
  is_branch_or_leaf (branch t cs) = true
  is_branch_or_leaf (leaf t i e) = true
  is_branch_or_leaf (forgetten_subtree t) = false

  -- The children are pushed from the last to the first, so the first is on top.
  abbrev pub push_children : Nodes E I T → List (MerkleNode E I T) → List (MerkleNode E I T)
  push_children nil stack = stack
  push_children (cons c cs) stack =
      let pushed = push_children cs stack in if is_branch_or_leaf c then c ∷ pushed else pushed

  -- The loop of `next`, with fuel for each node that it pops.
  unfoldable pub pop_leaf : ℕ → List (MerkleNode E I T) → Option (I × E) × List (MerkleNode E I T)
  pop_leaf zero stack = (none, stack)
  pop_leaf (suc fuel) [] = (none, [])
  pop_leaf (suc fuel) (empty ∷ stack) = pop_leaf fuel stack
  pop_leaf (suc fuel) (branch t cs ∷ stack) = pop_leaf fuel (push_children cs stack)
  pop_leaf (suc fuel) (leaf t i e ∷ stack) = (some (i, e), stack)
  pop_leaf (suc fuel) (forgetten_subtree t ∷ stack) = pop_leaf fuel stack

  unfoldable mutual
    pub node_size : MerkleNode E I T → ℕ
    node_size empty = 1
    node_size (branch t cs) = suc (nodes_size cs)
    node_size (leaf t i e) = 1
    node_size (forgetten_subtree t) = 1

    pub nodes_size : Nodes E I T → ℕ
    nodes_size nil = 0
    nodes_size (cons c cs) = node_size c + nodes_size cs

  abbrev pub stack_size : List (MerkleNode E I T) → ℕ
  stack_size [] = 0
  stack_size (n ∷ ns) = node_size n + stack_size ns

  unfoldable pub iter_new : MerkleNode E I T → MerkleTreeIter E I T
  iter_new root = record { stack = root ∷ [] }

  unfoldable pub into_iter_new : MerkleNode E I T → MerkleTreeIntoIter E I T
  into_iter_new root = record { stack = root ∷ [] }

  -- The fuel is one more than the number of nodes that the stack holds.
  unfoldable pub next : MerkleTreeIter E I T → Option (I × E) × MerkleTreeIter E I T
  next it =
      let (item, stack) = pop_leaf (suc (stack_size it.stack)) it.stack in
      (item, record { stack = stack })

  unfoldable pub into_next : MerkleTreeIntoIter E I T → Option (I × E) × MerkleTreeIntoIter E I T
  into_next it =
      let (item, stack) = pop_leaf (suc (stack_size it.stack)) it.stack in
      (item, record { stack = stack })

  -- The elements in memory with their positions, from left to right.
  unfoldable mutual
    pub elements : MerkleNode E I T → List (I × E)
    elements empty = []
    elements (branch t cs) = all_elements cs
    elements (leaf t i e) = (i, e) ∷ []
    elements (forgetten_subtree t) = []

    pub all_elements : Nodes E I T → List (I × E)
    all_elements nil = []
    all_elements (cons c cs) = elements c ++ all_elements cs
