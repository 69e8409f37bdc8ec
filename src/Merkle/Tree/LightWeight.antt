-- ===== src/Merkle/Tree/LightWeight.antt =====
-- `LightWeightMerkleTree::from_elems` (primitives/src/merkle_tree/light_weight.rs) against
-- `MerkleTree::from_elems` (append_only.rs beside it).
use mathlib.Core.Path.{subst}
use jellyfish.Prelude.{
  ℕ, ◌^◌, ◌≡◌, ap, sym, ◌∙◌, true, Bool-cases, inl, inr, Option, none, some, List, [], ◌∷◌, length,
  ltb, lt→ltb, Result, ok, >>=-eq-ok, ok-injective, if◌then◌else◌, arith,
}
use jellyfish.Merkle.Node.{MerkleNode, empty, NodeValue, DigestAlgorithm, value}
use jellyfish.Merkle.Build.{
  height_or, build_leaf, build_light_leaf, build_root, forget_middle, sized, checked_pow,
  checked_build, build_of_height, build_light_of_height, build_tree_internal,
  build_light_weight_tree_internal,
}
use jellyfish.Merkle.Build.Root.{map_ok, value_root, builders-value}
use jellyfish.Merkle.Tree.{
  MerkleTree, MerkleTreeCommitment, commitment, to_tree, from_elems, light_from_elems,
}

commitment-same :
    {T : Type 0} {x y : T} {m n k l : ℕ}
    → x ≡ y
    → m ≡ n
    → k ≡ l
    → ◌≡◌ {A = MerkleTreeCommitment T}
        (record { digest = x; height = m; num_leaves = k })
        (record { digest = y; height = n; num_leaves = l })
commitment-same p q r = cc

module _ {E T : Type 0} ⦃v : NodeValue T⦄ ⦃h : DigestAlgorithm E ℕ T⦄ where
  -- The root's value and the number of leaves of a tree of a height over the elements.
  abbrev IsOver : ℕ → ℕ → List E → MerkleNode E ℕ T × ℕ × ℕ → Type 0
  IsOver arity chosen [] (root, height, n) = (value root ≡ v.default) × (height ≡ chosen) × (n ≡ 0)
  IsOver arity chosen (e ∷ es) (root, height, n) =
      (value_root arity chosen (e ∷ es) ≡ ok (value root))
      × (height ≡ chosen)
      × (n ≡ length (e ∷ es))

  built-IsOver :
      (arity height : ℕ) (es : List E) (r : Result (MerkleNode E ℕ T))
      {built : MerkleNode E ℕ T × ℕ × ℕ}
      → map_ok value r ≡ value_root arity height es
      → (if ltb 0 (length es) then sized height (length es) r else ok (empty, height, 0)) ≡ ok built
      → IsOver arity height es built
  built-IsOver arity height [] r {built} same p =
      let q = ok-injective p in
      (ap (λ x. value x.0) (sym q), ap (λ x. x.1) (sym q), ap (λ x. x.2) (sym q))
  built-IsOver arity height (e ∷ es) r {built} same p =
      let n = length (e ∷ es) in
      let inside : ltb 0 n ≡ true = lt→ltb _ _ (omega arith) in
      let (root, returned, made) = >>=-eq-ok r (λ x. ok (x, height, n)) (rw inside at p) in
      let q = ok-injective made in
      (
        sym same ∙ ap (map_ok value) returned ∙ ap ok (ap (λ x. value x.0) q),
        ap (λ x. x.1) (sym q),
        ap (λ x. x.2) (sym q),
      )

  -- The height is the one that is given or chosen.
  abbrev IsBuilt : ℕ → Option ℕ → List E → MerkleNode E ℕ T × ℕ × ℕ → Type 0
  IsBuilt arity height? es built =
      (height : ℕ) × (height_or height? arity (length es) ≡ ok height)
      × IsOver arity height es built

  full-IsBuilt :
      (arity : ℕ) (height? : Option ℕ) (es : List E) {built : MerkleNode E ℕ T × ℕ × ℕ}
      → build_tree_internal arity height? es ≡ ok built
      → IsBuilt arity height? es built
  unfolding build_tree_internal
  full-IsBuilt arity height? es p =
      let (height, chosen, q) =
        >>=-eq-ok (height_or height? arity (length es)) (build_of_height arity es) p in
      elim (Bool-cases (ltb (arity ^ height) (length es))) [
        | inl large ↦ let bad = rw large at q in cc
        | inr fits ↦ (
          height,
          chosen,
          built-IsOver arity height es (build_root (λ ns. ns) build_leaf arity height es)
              (builders-value arity height es).0 (rw fits at q),
        )
      ]

  checked_build-ok :
      (o : Option ℕ) (n : ℕ) (rest : Result (MerkleNode E ℕ T × ℕ × ℕ))
      {built : MerkleNode E ℕ T × ℕ × ℕ}
      → checked_build o n rest ≡ ok built
      → rest ≡ ok built
  checked_build-ok none n rest p = cc
  checked_build-ok (some c) n rest p = elim (Bool-cases (ltb c n)) [
    | inl large ↦ let bad = rw large at p in cc
    | inr fits ↦ rw fits at p
  ]

  light-IsBuilt :
      (arity : ℕ) (height? : Option ℕ) (es : List E) {built : MerkleNode E ℕ T × ℕ × ℕ}
      → build_light_weight_tree_internal arity height? es ≡ ok built
      → IsBuilt arity height? es built
  unfolding build_light_weight_tree_internal
  light-IsBuilt arity height? es p =
      let (height, chosen, q) =
        >>=-eq-ok (height_or height? arity (length es)) (build_light_of_height arity es) p in
      (
        height,
        chosen,
        built-IsOver arity height es
            (build_root forget_middle (build_light_leaf (length es)) arity height es)
            (builders-value arity height es).1
            (checked_build-ok (checked_pow arity height) (length es) _ q),
      )

  IsOver-same :
      (arity chosen : ℕ) (es : List E) (b c : MerkleNode E ℕ T × ℕ × ℕ)
      → IsOver arity chosen es b
      → IsOver arity chosen es c
      → commitment (to_tree b) ≡ commitment (to_tree c)
  unfolding commitment
  IsOver-same arity chosen [] b c (root, height, n) (root', height', n') =
      commitment-same (root ∙ sym root') (height ∙ sym height') (n ∙ sym n')
  IsOver-same arity chosen (e ∷ es) b c (root, height, n) (root', height', n') =
      commitment-same (ok-injective (sym root ∙ root')) (height ∙ sym height') (n ∙ sym n')

  -- Where both build a tree over the same elements, with the height given or chosen, the light-weight
  -- tree and the full one have the same commitment.
  pub from_elems-commitment :
      (arity : ℕ) (height? : Option ℕ) (es : List E) (t t' : MerkleTree E ℕ T)
      → from_elems arity height? es ≡ ok t
      → light_from_elems arity height? es ≡ ok t'
      → commitment t ≡ commitment t'
  unfolding from_elems light_from_elems
  from_elems-commitment arity height? es t t' p p' =
      let (b, built, made) = >>=-eq-ok (build_tree_internal arity height? es) _ p in
      let (c, built', made') = >>=-eq-ok (build_light_weight_tree_internal arity height? es) _ p' in
      let (height, chosen, over) = full-IsBuilt arity height? es built in
      let (height', chosen', over') = light-IsBuilt arity height? es built' in
      let same : height' ≡ height = ok-injective (sym chosen' ∙ chosen) in
      sym (ap commitment (ok-injective made))
      ∙ IsOver-same arity height es b c over (subst (λ k. IsOver arity k es c) same over')
      ∙ ap commitment (ok-injective made')
