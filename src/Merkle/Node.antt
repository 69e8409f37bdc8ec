-- ===== src/Merkle/Node.antt =====
-- The node type of primitives/src/merkle_tree/internal.rs, the traits it is generic over
-- (primitives/src/merkle_tree/mod.rs), and the operations on a vector of children.
use jellyfish.Prelude.{
  ℕ, zero, suc, ◌≡◌, ◌↔◌, Bool, true, false, ◌&&◌, Option, none, some, List, [], ◌∷◌, Result, ◌==◌,
  ==_iff,
}

-- What the code uses of a type's `Eq`.
pub record Eq (A : Type 0) : Type 0 where
  pub beq : A → A → Bool
  pub beq_iff : (a b : A) → (beq a b ≡ true) ↔ (a ≡ b)

instance abbrev pub nat_eq : Eq ℕ
nat_eq = record { beq = λ p q. p == q; beq_iff = λ p q. ==_iff p q }

-- `NodeValue`: the default value and the comparison of values.
pub record NodeValue (T : Type 0) : Type 0 where
  pub default : T
  pub eq : Eq T
  pub open eq use *

-- `DigestAlgorithm<E, I, T>`: the hash function. Its implementations may fail.
pub record DigestAlgorithm (E I T : Type 0) : Type 0 where
  pub digest : List T → Result T
  pub digest_leaf : I → E → Result T

mutual
  pub data MerkleNode (E I T : Type 0) : Type 0 where
    empty : MerkleNode E I T
    branch : T → Nodes E I T → MerkleNode E I T
    leaf : T → I → E → MerkleNode E I T
    forgetten_subtree : T → MerkleNode E I T

  -- `Vec<Box<MerkleNode>>`
  pub data Nodes (E I T : Type 0) : Type 0 where
    nil : Nodes E I T
    cons : MerkleNode E I T → Nodes E I T → Nodes E I T

abbrev pub MerklePath : Type 0 → Type 0 → Type 0 → Type 0
MerklePath E I T = List (MerkleNode E I T)

module _ {E I T : Type 0} where
  abbrev pub child? : Nodes E I T → ℕ → Option (MerkleNode E I T)
  child? nil i = none
  child? (cons c cs) zero = some c
  child? (cons c cs) (suc i) = child? cs i

  abbrev pub set_child : Nodes E I T → ℕ → MerkleNode E I T → Nodes E I T
  set_child nil i n = nil
  set_child (cons c cs) zero n = cons n cs
  set_child (cons c cs) (suc i) n = cons c (set_child cs i n)

  abbrev pub width : Nodes E I T → ℕ
  width nil = 0
  width (cons c cs) = suc (width cs)

  -- `vec![Box::new(MerkleNode::Empty); n]`
  abbrev pub empties : ℕ → Nodes E I T
  empties zero = nil
  empties (suc n) = cons empty (empties n)

  abbrev pub to_nodes : List (MerkleNode E I T) → Nodes E I T
  to_nodes [] = nil
  to_nodes (n ∷ ns) = cons n (to_nodes ns)

  abbrev pub is_empty : MerkleNode E I T → Bool
  is_empty empty = true
  is_empty _ = false

  abbrev pub is_forgotten : MerkleNode E I T → Bool
  is_forgotten (forgetten_subtree v) = true
  is_forgotten _ = false

  -- `children.iter().all(p)`
  abbrev pub all_children : (MerkleNode E I T → Bool) → Nodes E I T → Bool
  all_children p nil = true
  all_children p (cons c cs) = p c && all_children p cs

module _ {E I T : Type 0} ⦃v : NodeValue T⦄ where
  abbrev pub value : MerkleNode E I T → T
  value empty = v.default
  value (branch t cs) = t
  value (leaf t p e) = t
  value (forgetten_subtree t) = t

  -- `children.iter().map(|node| node.value()).collect()`
  abbrev pub values : Nodes E I T → List T
  values nil = []
  values (cons c cs) = value c ∷ values cs

module _ {E I T : Type 0} ⦃v : NodeValue T⦄ ⦃h : DigestAlgorithm E I T⦄ where
  unfoldable pub digest_branch : Nodes E I T → Result T
  digest_branch cs = h.digest (values cs)
