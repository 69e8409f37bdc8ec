-- ===== src/Merkle/Pruned.antt =====
-- Pruned copies of a tree: what `forget` (primitives/src/merkle_tree/internal.rs) and a tree made
-- from a commitment leave of it.
use mathlib.Core.Option.{some-injective}
use mathlib.Core.Path.{subst, ap₂}
use jellyfish.Prelude.{ℕ, zero, suc, ◌≡◌, refl, ap, sym, ◌∙◌, some}
use jellyfish.Merkle.Node.{
  MerkleNode, empty, branch, leaf, forgetten_subtree, Nodes, nil, cons, NodeValue, child?,
  set_child, value,
}
use jellyfish.Merkle.Lookup.{redact_child, redact}

module _ {E I T : Type 0} where
  -- Two vectors of children that are related child by child.
  abbrev pub All₂ :
      (MerkleNode E I T → MerkleNode E I T → Type 0) → Nodes E I T → Nodes E I T → Type 0
  All₂ R nil nil = Unit
  All₂ R nil (cons c cs) = ⊥
  All₂ R (cons d ds) nil = ⊥
  All₂ R (cons d ds) (cons c cs) = R d c × All₂ R ds cs

  pub All₂-child :
      (R : MerkleNode E I T → MerkleNode E I T → Type 0) (ds cs : Nodes E I T) (b : ℕ)
      {c : MerkleNode E I T}
      → All₂ R ds cs
      → child? cs b ≡ some c
      → (d : MerkleNode E I T) × (child? ds b ≡ some d) × R d c
  All₂-child R nil nil b a k = cc
  All₂-child R nil (cons c cs) b a k = absurd a
  All₂-child R (cons d ds) nil b a k = absurd a
  All₂-child R (cons d ds) (cons c cs) zero a k = (d, refl, subst (R d) (some-injective _ _ k) a.0)
  All₂-child R (cons d ds) (cons c cs) (suc b) a k = All₂-child R ds cs b a.1 k

  pub All₂-set_child :
      (R : MerkleNode E I T → MerkleNode E I T → Type 0) (ds cs : Nodes E I T) (b : ℕ)
      {c : MerkleNode E I T} (d : MerkleNode E I T)
      → All₂ R ds cs
      → child? cs b ≡ some c
      → R d c
      → All₂ R (set_child ds b d) cs
  All₂-set_child R nil nil b d a k r = tt
  All₂-set_child R nil (cons c cs) b d a k r = absurd a
  All₂-set_child R (cons x ds) nil b d a k r = absurd a
  All₂-set_child R (cons x ds) (cons c cs) zero d a k r =
      (subst (R d) (sym (some-injective _ _ k)) r, a.1)
  All₂-set_child R (cons x ds) (cons c cs) (suc b) d a k r =
      (a.0, All₂-set_child R ds cs b d a.1 k r)

module _ {E I T : Type 0} ⦃v : NodeValue T⦄ where
  -- The first node is the second with some sub-trees replaced by their values.
  abbrev pub Pruned : ℕ → MerkleNode E I T → MerkleNode E I T → Type 0
  Pruned height (forgetten_subtree t) node = forgetten_subtree t ≡ redact_child node
  Pruned height empty node = empty ≡ node
  Pruned height (leaf t i e) node = leaf t i e ≡ node
  Pruned zero (branch t' cs') node = branch t' cs' ≡ node
  Pruned (suc height) (branch t' cs') (branch t cs) = (t' ≡ t) × All₂ (Pruned height) cs' cs
  Pruned (suc height) (branch t' cs') empty = ⊥
  Pruned (suc height) (branch t' cs') (leaf t i e) = ⊥
  Pruned (suc height) (branch t' cs') (forgetten_subtree t) = ⊥

  pub Pruned-redact :
      (height : ℕ) (node' node : MerkleNode E I T)
      → Pruned height node' node
      → redact_child node' ≡ redact_child node
  Pruned-redact height (forgetten_subtree t) node p = p
  Pruned-redact height empty node p = ap redact_child p
  Pruned-redact height (leaf t i e) node p = ap redact_child p
  Pruned-redact zero (branch t' cs') node p = ap redact_child p
  Pruned-redact (suc height) (branch t' cs') (branch t cs) p = ap forgetten_subtree p.0
  Pruned-redact (suc height) (branch t' cs') empty p = absurd p
  Pruned-redact (suc height) (branch t' cs') (leaf t i e) p = absurd p
  Pruned-redact (suc height) (branch t' cs') (forgetten_subtree t) p = absurd p

  pub value-redact_child : (node : MerkleNode E I T) → value (redact_child node) ≡ value node
  value-redact_child empty = refl
  value-redact_child (branch t cs) = refl
  value-redact_child (leaf t i e) = refl
  value-redact_child (forgetten_subtree t) = refl

  pub Pruned-value :
      (height : ℕ) (node' node : MerkleNode E I T)
      → Pruned height node' node
      → value node' ≡ value node
  Pruned-value height node' node p =
      sym (value-redact_child node')
      ∙ ap value (Pruned-redact height node' node p)
      ∙ value-redact_child node

  All₂-refl :
      (R : MerkleNode E I T → MerkleNode E I T → Type 0) (cs : Nodes E I T)
      → ((c : MerkleNode E I T) → R c c)
      → All₂ R cs cs
  All₂-refl R nil r = tt
  All₂-refl R (cons c cs) r = (r c, All₂-refl R cs r)

  -- A node is a pruned copy of itself.
  pub Pruned-refl : (height : ℕ) (node : MerkleNode E I T) → Pruned height node node
  Pruned-refl height empty = refl
  Pruned-refl zero (branch t cs) = refl
  Pruned-refl (suc height) (branch t cs) =
      (refl, All₂-refl (Pruned height) cs (λ c. Pruned-refl height c))
  Pruned-refl height (leaf t i e) = refl
  Pruned-refl height (forgetten_subtree t) = refl

  pub redact-Pruned : (height : ℕ) (cs : Nodes E I T) → All₂ (Pruned height) (redact cs) cs
  redact-Pruned height nil = tt
  redact-Pruned height (cons empty cs) = (refl, redact-Pruned height cs)
  redact-Pruned height (cons (branch t ds) cs) = (refl, redact-Pruned height cs)
  redact-Pruned height (cons (leaf t i e) cs) = (refl, redact-Pruned height cs)
  redact-Pruned height (cons (forgetten_subtree t) cs) = (refl, redact-Pruned height cs)

  pub All₂-redact :
      (height : ℕ) (ds cs : Nodes E I T) → All₂ (Pruned height) ds cs → redact ds ≡ redact cs
  All₂-redact height nil nil a = refl
  All₂-redact height nil (cons c cs) a = absurd a
  All₂-redact height (cons d ds) nil a = absurd a
  All₂-redact height (cons d ds) (cons c cs) a =
      ap₂ cons (Pruned-redact height d c a.0) (All₂-redact height ds cs a.1)
