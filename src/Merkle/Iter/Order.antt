-- ===== src/Merkle/Iter/Order.antt =====
-- The order in which the iterators of primitives/src/merkle_tree/internal.rs give the elements, and
-- the fuel of their loops.
use mathlib.Core.Path.{ap₂}
use jellyfish.Prelude.{
  ℕ, zero, suc, ◌+◌, ◌≤◌, ◌<◌, ◌≡◌, refl, ap, sym, ◌∙◌, Option, List, [], ◌∷◌, ◌++◌, length,
  length-append, append_assoc, append_nil, head?, tail, collect_with, collect_with-content, arith,
}
use jellyfish.Merkle.Node.{MerkleNode, empty, branch, leaf, forgetten_subtree, Nodes, nil, cons}
use jellyfish.Merkle.Iter.{
  MerkleTreeIter, MerkleTreeIntoIter, push_children, pop_leaf, node_size, nodes_size, stack_size,
  iter_new, into_iter_new, next, into_next, elements, all_elements,
}
use jellyfish.Merkle.Update.Keeps.{count_leaves, count_children}

module _ {E I T : Type 0} where
  -- The elements below the nodes of a stack.
  abbrev pub stack_elements : List (MerkleNode E I T) → List (I × E)
  stack_elements [] = []
  stack_elements (n ∷ ns) = elements n ++ stack_elements ns

  node_size_pos : (node : MerkleNode E I T) → 1 ≤ node_size node
  unfolding node_size
  node_size_pos empty = omega arith
  node_size_pos (branch t cs) = omega arith
  node_size_pos (leaf t i e) = omega arith
  node_size_pos (forgetten_subtree t) = omega arith

  push_children-size :
      (cs : Nodes E I T) (stack : List (MerkleNode E I T))
      → stack_size (push_children cs stack) ≤ nodes_size cs + stack_size stack
  unfolding node_size
  push_children-size nil stack = omega arith
  push_children-size (cons empty cs) stack = omega (arith, push_children-size cs stack)
  push_children-size (cons (branch t ds) cs) stack = omega (arith, push_children-size cs stack)
  push_children-size (cons (leaf t i e) cs) stack = omega (arith, push_children-size cs stack)
  push_children-size (cons (forgetten_subtree t) cs) stack =
      omega (arith, push_children-size cs stack)

  push_children-elements :
      (cs : Nodes E I T) (stack : List (MerkleNode E I T))
      → stack_elements (push_children cs stack) ≡ all_elements cs ++ stack_elements stack
  unfolding elements
  push_children-elements nil stack = refl
  push_children-elements (cons empty cs) stack = push_children-elements cs stack
  push_children-elements (cons (branch t ds) cs) stack =
      ap (λ xs. all_elements ds ++ xs) (push_children-elements cs stack)
      ∙ sym (append_assoc (all_elements ds) (all_elements cs) (stack_elements stack))
  push_children-elements (cons (leaf t i e) cs) stack =
      ap (◌∷◌ (i, e)) (push_children-elements cs stack)
  push_children-elements (cons (forgetten_subtree t) cs) stack = push_children-elements cs stack

  -- With fuel for each node of the stack, the loop takes the first element from it.
  abbrev Takes : List (MerkleNode E I T) → Option (I × E) × List (MerkleNode E I T) → Type 0
  Takes stack popped =
      (popped.0 ≡ head? (stack_elements stack))
      × (stack_elements popped.1 ≡ tail (stack_elements stack))

  pop_leaf-Takes :
      (fuel : ℕ) (stack : List (MerkleNode E I T))
      → stack_size stack < fuel
      → Takes stack (pop_leaf fuel stack)
  unfolding pop_leaf node_size elements
  pop_leaf-Takes zero stack l = absurd (omega arith)
  pop_leaf-Takes (suc fuel) [] l = (refl, refl)
  pop_leaf-Takes (suc fuel) (empty ∷ stack) l = pop_leaf-Takes fuel stack (omega arith)
  pop_leaf-Takes (suc fuel) (branch t cs ∷ stack) l =
      let pushed = push_children-elements cs stack in
      let (item, rest) =
        pop_leaf-Takes fuel (push_children cs stack) (omega (arith, push_children-size cs stack)) in
      (item ∙ ap head? pushed, rest ∙ ap tail pushed)
  pop_leaf-Takes (suc fuel) (leaf t i e ∷ stack) l = (refl, refl)
  pop_leaf-Takes (suc fuel) (forgetten_subtree t ∷ stack) l =
      pop_leaf-Takes fuel stack (omega arith)

  -- A call of `next` gives the first element that the iterator has left, and leaves the others.
  pub next-elements :
      (it : MerkleTreeIter E I T)
      → ((next it).0 ≡ head? (stack_elements it.stack))
        × (stack_elements (next it).1.stack ≡ tail (stack_elements it.stack))
  unfolding next
  next-elements it = pop_leaf-Takes (suc (stack_size it.stack)) it.stack (omega arith)

  into_next-elements :
      (it : MerkleTreeIntoIter E I T)
      → ((into_next it).0 ≡ head? (stack_elements it.stack))
        × (stack_elements (into_next it).1.stack ≡ tail (stack_elements it.stack))
  unfolding into_next
  into_next-elements it = pop_leaf-Takes (suc (stack_size it.stack)) it.stack (omega arith)

module _ {E I T : Type 0} where
  mutual
    unfolding elements count_leaves

    count_elements : (node : MerkleNode E I T) → length (elements node) ≡ count_leaves node
    count_elements empty = refl
    count_elements (branch t cs) = count_all_elements cs
    count_elements (leaf t i e) = refl
    count_elements (forgetten_subtree t) = refl

    count_all_elements : (cs : Nodes E I T) → length (all_elements cs) ≡ count_children cs
    count_all_elements nil = refl
    count_all_elements (cons c cs) =
        length-append (elements c) (all_elements cs)
        ∙ ap₂ (λ m n. m + n) (count_elements c) (count_all_elements cs)

  -- In any number of calls above the number of a tree's leaves in memory, both iterators over it give
  -- its elements in memory, from left to right, and end.
  pub iter-elements :
      (root : MerkleNode E I T) (fuel : ℕ)
      → count_leaves root < fuel
      → (collect_with next fuel (iter_new root) ≡ elements root)
        × (collect_with into_next fuel (into_iter_new root) ≡ elements root)
  unfolding iter_new into_iter_new
  iter-elements root fuel l =
      let few : length (elements root) < fuel = omega (arith, count_elements root) in
      (
        collect_with-content next (λ it. stack_elements it.stack) (λ it. Unit {0})
            (λ it p. let (item, rest) = next-elements it in (item, rest, tt)) fuel _ _ tt
            (append_nil (elements root)) few,
        collect_with-content into_next (λ it. stack_elements it.stack) (λ it. Unit {0})
            (λ it p. let (item, rest) = into_next-elements it in (item, rest, tt)) fuel _ _ tt
            (append_nil (elements root)) few,
      )
