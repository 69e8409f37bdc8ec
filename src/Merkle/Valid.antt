-- ===== src/Merkle/Valid.antt =====
-- Well-formed nodes of the trees of primitives/src/merkle_tree: every child is one level lower, a
-- branch has `arity` children, and each value in memory is the digest of what stands below it.
use mathlib.Core.Path.{subst}
use mathlib.Core.Option.{some-injective}
use jellyfish.Prelude.{ℕ, zero, suc, ◌<◌, ◌≡◌, refl, ◌≢◌, ◌⊎◌, ap, some, List, get_elem?, ok, arith}
use jellyfish.Merkle.Node.{
  MerkleNode, empty, branch, leaf, forgetten_subtree, Nodes, nil, cons, NodeValue, DigestAlgorithm,
  child?, set_child, width, empties, digest_branch,
}

module _ {E I T : Type 0} where
  abbrev pub All : (MerkleNode E I T → Type 0) → Nodes E I T → Type 0
  All P nil = Unit
  All P (cons c cs) = P c × All P cs

  pub All-child :
      (P : MerkleNode E I T → Type 0) (cs : Nodes E I T) (b : ℕ) {c : MerkleNode E I T}
      → All P cs
      → child? cs b ≡ some c
      → P c
  All-child P nil b a e = cc
  All-child P (cons c cs) zero a e = subst P (some-injective _ _ e) a.0
  All-child P (cons c cs) (suc b) a e = All-child P cs b a.1 e

  pub All-set_child :
      (P : MerkleNode E I T → Type 0) (cs : Nodes E I T) (b : ℕ) {c : MerkleNode E I T}
      → All P cs
      → P c
      → All P (set_child cs b c)
  All-set_child P nil b a p = tt
  All-set_child P (cons c cs) zero a p = (p, a.1)
  All-set_child P (cons c cs) (suc b) a p = (a.0, All-set_child P cs b a.1 p)

  pub All-empties : (P : MerkleNode E I T → Type 0) (n : ℕ) → P empty → All P (empties n)
  All-empties P zero p = tt
  All-empties P (suc n) p = (p, All-empties P n p)

  pub width-set_child :
      (cs : Nodes E I T) (b : ℕ) (c : MerkleNode E I T) → width (set_child cs b c) ≡ width cs
  width-set_child nil b c = refl
  width-set_child (cons d cs) zero c = refl
  width-set_child (cons d cs) (suc b) c = ap suc (width-set_child cs b c)

  pub child_in_range :
      (cs : Nodes E I T) (b : ℕ) → b < width cs → (c : MerkleNode E I T) × (child? cs b ≡ some c)
  child_in_range nil b h = absurd (omega arith)
  child_in_range (cons c cs) zero h = (c, refl)
  child_in_range (cons c cs) (suc b) h = child_in_range cs b (omega arith)

  pub child-set_child :
      (cs : Nodes E I T) (b : ℕ) (c : MerkleNode E I T)
      → b < width cs
      → child? (set_child cs b c) b ≡ some c
  child-set_child nil b c h = absurd (omega arith)
  child-set_child (cons d cs) zero c h = refl
  child-set_child (cons d cs) (suc b) c h = child-set_child cs b c (omega arith)

  pub child-set_child_ne :
      (cs : Nodes E I T) (b d : ℕ) (c : MerkleNode E I T)
      → b ≢ d
      → child? (set_child cs b c) d ≡ child? cs d
  child-set_child_ne nil b d c ne = refl
  child-set_child_ne (cons x cs) zero zero c ne = absurd (ne refl)
  child-set_child_ne (cons x cs) zero (suc d) c ne = refl
  child-set_child_ne (cons x cs) (suc b) zero c ne = refl
  child-set_child_ne (cons x cs) (suc b) (suc d) c ne =
      child-set_child_ne cs b d c (λ e. ne (ap suc e))

  -- A child that is there stands within the width.
  pub child-lt-width :
      (cs : Nodes E I T) (b : ℕ) {c : MerkleNode E I T} → child? cs b ≡ some c → b < width cs
  child-lt-width nil b k = cc
  child-lt-width (cons x cs) zero k = omega arith
  child-lt-width (cons x cs) (suc b) k = omega (arith, child-lt-width cs b k)

pub width-empties : (E I T : Type 0) (n : ℕ) → width {E = E} {I = I} {T = T} (empties n) ≡ n
width-empties E I T zero = refl
width-empties E I T (suc n) = ap suc (width-empties E I T n)

-- The first `height` digits of the path are there, and each is below the arity.
abbrev pub IsPath : ℕ → ℕ → List ℕ → Type 0
IsPath arity zero path = Unit
IsPath arity (suc height) path =
    ((b : ℕ) × (get_elem? path height ≡ some b) × (b < arity)) × IsPath arity height path

-- Two paths that part above height 0 of a node at the given height.
abbrev pub Apart : ℕ → List ℕ → List ℕ → Type 0
Apart zero p q = ⊥
Apart (suc height) p q =
    (get_elem? p height ≢ get_elem? q height)
    ⊎ ((get_elem? p height ≡ get_elem? q height) × Apart height p q)

module _ {E I T : Type 0} ⦃v : NodeValue T⦄ ⦃h : DigestAlgorithm E I T⦄ where
  abbrev pub IsValid : ℕ → MerkleNode E I T → ℕ → Type 0
  IsValid arity empty height = Unit
  IsValid arity (forgetten_subtree t) height = Unit
  IsValid arity (leaf t p e) zero = h.digest_leaf p e ≡ ok t
  IsValid arity (leaf t p e) (suc height) = ⊥
  IsValid arity (branch t cs) zero = ⊥
  IsValid arity (branch t cs) (suc height) =
      (width cs ≡ arity) × (digest_branch cs ≡ ok t) × All (λ c. IsValid arity c height) cs
