-- ===== src/Merkle/Extend.antt =====
-- `extend_internal` and `extend_and_forget_internal` (primitives/src/merkle_tree/internal.rs):
-- insertion at the frontier of an append-only tree. The iterator `data` is the list of what it has
-- left. A call returns the node and the iterator that it leaves, also where it fails. The counters
-- are not wrapped at 2^64: they count elements of an iterator.
use jellyfish.Prelude.{
  ℕ, zero, suc, ◌+◌, ◌-◌, Bool, true, false, ◌&&◌, Option, none, some, List, [], ◌∷◌, get_elem?,
  Result, ok, err, panic, parameter_error, if◌then◌else◌, ◌==◌,
}
use jellyfish.Merkle.Node.{
  MerkleNode, empty, branch, leaf, forgetten_subtree, Nodes, NodeValue, DigestAlgorithm, empties,
  child?, set_child, is_forgotten, value, digest_branch,
}

-- What a call of the family leaves: the node (or the children), the iterator, the count.
abbrev pub Extended : Type 0 → Type 0 → Type 0
Extended S E = S × List E × Result ℕ

-- `let mut frontier = if at_frontier { traversal_path[height - 1] } else { 0 }`
abbrev pub first_child : Bool → List ℕ → ℕ → Option ℕ
first_child true path height = get_elem? path height
first_child false path height = some 0

module _ {E T : Type 0} ⦃v : NodeValue T⦄ where
  abbrev pub forget_child : Nodes E ℕ T → ℕ → Nodes E ℕ T
  forget_child cs i = elim (child? cs i) [
    | none ↦ cs
    | some c ↦ if is_forgotten c then cs else set_child cs i (forgetten_subtree (value c))
  ]

  abbrev pub forget_previous : Nodes E ℕ T → ℕ → Nodes E ℕ T
  forget_previous cs zero = cs
  forget_previous cs (suc i) = forget_child cs i

module _ {E T : Type 0} where
  -- The `while` loop over the children from `frontier`; `left` is the number of children from
  -- there, and `step` the recursive call, told whether the child is at the frontier.
  unfoldable pub extend_children :
      (Nodes E ℕ T → ℕ → Nodes E ℕ T)
      → (MerkleNode E ℕ T → ℕ → Bool → List E → Extended (MerkleNode E ℕ T) E)
      → (ℕ → Bool)
      → ℕ
      → ℕ
      → ℕ
      → ℕ
      → Nodes E ℕ T
      → List E
      → Extended (Nodes E ℕ T) E
  extend_children before step at left frontier cur_pos cnt cs [] = (cs, [], ok cnt)
  extend_children before step at zero frontier cur_pos cnt cs (e ∷ data') = (cs, e ∷ data', ok cnt)
  extend_children before step at (suc left) frontier cur_pos cnt cs (e ∷ data') =
      let cs' = before cs frontier in
      elim (child? cs' frontier) [
        | none ↦ (cs', e ∷ data', panic)
        | some c ↦
            let (c', rest, result) = step c cur_pos (at frontier) (e ∷ data') in
            elim result [
              | ok inc ↦
                  extend_children before step at left (suc frontier) (cur_pos + inc) (cnt + inc)
                    (set_child cs' frontier c') rest
              | err x ↦ (set_child cs' frontier c', rest, err x)
              | panic ↦ (set_child cs' frontier c', rest, panic)
            ]
      ]

module _ {E T : Type 0} ⦃v : NodeValue T⦄ ⦃h : DigestAlgorithm E ℕ T⦄ where
  -- `value = digest_branch(&children)?; Ok(cnt)`, at a branch and at an empty node.
  abbrev pub close_branch :
      (Nodes E ℕ T → MerkleNode E ℕ T) → Extended (Nodes E ℕ T) E → Extended (MerkleNode E ℕ T) E
  close_branch self (cs, rest, ok cnt) = elim (digest_branch cs) [
    | ok t ↦ (branch t cs, rest, ok cnt)
    | err x ↦ (self cs, rest, err x)
    | panic ↦ (self cs, rest, panic)
  ]
  close_branch self (cs, rest, err x) = (self cs, rest, err x)
  close_branch self (cs, rest, panic) = (self cs, rest, panic)

  -- `digest_leaf(pos, elem)` for the next element, which is consumed also where it fails.
  abbrev pub place_leaf : ℕ → E → List E → Result T → Extended (MerkleNode E ℕ T) E
  place_leaf pos e rest (ok t) = (leaf t pos e, rest, ok 1)
  place_leaf pos e rest (err x) = (empty, rest, err x)
  place_leaf pos e rest panic = (empty, rest, panic)

  abbrev pub on_children :
      Option ℕ → Nodes E ℕ T → List E → (ℕ → Extended (Nodes E ℕ T) E) → Extended (Nodes E ℕ T) E
  on_children none cs rest loop = (cs, rest, panic)
  on_children (some frontier) cs rest loop = loop frontier

  -- Both methods, on the elements that are left; `before` is what the loop does to the children
  -- before each step.
  unfoldable pub extend_with :
      (Nodes E ℕ T → ℕ → Nodes E ℕ T)
      → ℕ
      → List E
      → MerkleNode E ℕ T
      → ℕ
      → ℕ
      → List ℕ
      → Bool
      → Extended (MerkleNode E ℕ T) E
  unfolding extend_children
  extend_with before arity [] self height pos path at_frontier = (self, [], ok 0)
  extend_with before arity (e ∷ rest) (branch t cs) zero pos path at_frontier =
      (branch t cs, e ∷ rest, panic)
  extend_with before arity (e ∷ rest) (branch t cs) (suc height) pos path at_frontier =
      let step = λ (c : MerkleNode E ℕ T) (p : ℕ) (at : Bool) (es : List E).
        extend_with before arity es c height p path at in
      close_branch (branch t) (
        on_children (first_child at_frontier path height) cs (e ∷ rest) λ first.
          extend_children before step (λ i. at_frontier && i == first) (arity - first) first pos 0
            cs (e ∷ rest))
  extend_with before arity (e ∷ rest) empty zero pos path at_frontier =
      place_leaf pos e rest (h.digest_leaf pos e)
  extend_with before arity (e ∷ rest) empty (suc height) pos path at_frontier =
      let step = λ (c : MerkleNode E ℕ T) (p : ℕ) (at : Bool) (es : List E).
        extend_with before arity es c height p path at in
      close_branch (λ _. empty)
        (on_children (first_child at_frontier path height) (empties arity) (e ∷ rest) λ first.
          extend_children before step (λ i. at_frontier && i == first) (arity - first) first pos 0
            (empties arity) (e ∷ rest))
  extend_with before arity (e ∷ rest) (leaf t p e') height pos path at_frontier = (
    leaf t p e',
    e ∷ rest,
    err (parameter_error "Incompatible merkle tree: index already occupied"),
  )
  extend_with before arity (e ∷ rest) (forgetten_subtree t) height pos path at_frontier = (
    forgetten_subtree t,
    e ∷ rest,
    err (parameter_error "Given part of merkle tree is not in memory"),
  )

  unfoldable pub extend_internal :
      ℕ → MerkleNode E ℕ T → ℕ → ℕ → List ℕ → Bool → List E → Extended (MerkleNode E ℕ T) E
  unfolding extend_with
  extend_internal arity self height pos path at_frontier es =
      extend_with (λ cs _. cs) arity es self height pos path at_frontier

  unfoldable pub extend_and_forget_internal :
      ℕ → MerkleNode E ℕ T → ℕ → ℕ → List ℕ → Bool → List E → Extended (MerkleNode E ℕ T) E
  unfolding extend_with
  extend_and_forget_internal arity self height pos path at_frontier es =
      extend_with forget_previous arity es self height pos path at_frontier
