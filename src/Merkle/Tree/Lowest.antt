-- ===== src/Merkle/Tree/Lowest.antt =====
-- Trees of height 0 that `from_elems` (primitives/src/merkle_tree/append_only.rs) builds.
use mathlib.Core.Option.{some-injective}
use jellyfish.Prelude.{
  ℕ, ◌-◌, ◌^◌, ◌≡◌, refl, ap, sym, ◌∙◌, true, Bool-cases, inl, inr, Option, some, List, [], ◌∷◌,
  length, get_elem?, ltb, lt→ltb, Result, ok, panic, ◌>>=◌, >>=-eq-ok, ok-injective, or_panic,
  or_panic-eq-ok, arith,
}
use jellyfish.Merkle.Node.{
  MerkleNode, branch, Nodes, nat_eq, NodeValue, DigestAlgorithm, digest_branch,
}
use jellyfish.Merkle.Path.{nat_path, to_traversal_path_primitives}
use jellyfish.Merkle.Lookup.{lookup_internal}
use jellyfish.Merkle.Build.{
  chunks, enumerate_from, try_map, height_or, pad, build_leaf, leaf_branch, build_levels,
  build_root, build_of_height, build_tree_internal,
}
use jellyfish.Merkle.Tree.{MerkleTree, from_elems, lookup, universal_lookup}

module _ {A B : Type 0} where
  try_map-first :
      (f : A → Result B) (xs : List A) {ys : List B} {y : B}
      → try_map f xs ≡ ok ys
      → get_elem? ys 0 ≡ some y
      → (x : A) × (f x ≡ ok y)
  try_map-first f [] {ys} p q =
      let none_there : ys ≡ [] = sym (ok-injective p) in absurd (no_first ys none_there q)
    where
      no_first : (ys : List B) {y : B} → ys ≡ [] → ¬ (get_elem? ys 0 ≡ some y)
      no_first [] e q = cc
      no_first (z ∷ zs) e q = cc
  try_map-first f (x ∷ xs) {ys} {y} p q =
      let (z, first, p₁) = >>=-eq-ok (f x) _ p in
      let (zs, rest, p₂) = >>=-eq-ok (try_map f xs) _ p₁ in
      let same : z ≡ y = some-injective _ _ (ap (λ l. get_elem? l 0) (ok-injective p₂) ∙ q) in
      (x, first ∙ ap ok same)

module _ {E T : Type 0} ⦃v : NodeValue T⦄ ⦃h : DigestAlgorithm E ℕ T⦄ where
  abbrev IsBranch : MerkleNode E ℕ T → Type 0
  IsBranch n = (t : T) × (cs : Nodes E ℕ T) × (n ≡ branch t cs)

  build_root-IsBranch :
      (arity : ℕ) (es : List E) {n : MerkleNode E ℕ T}
      → build_root (λ ns. ns) build_leaf arity 0 es ≡ ok n
      → IsBranch n
  unfolding build_root build_levels
  build_root-IsBranch arity es {n} p =
      let cs = chunks arity (enumerate_from 0 es) in
      let (ns, mapped, p₁) =
        >>=-eq-ok (try_map (leaf_branch arity build_leaf) cs)
          (λ ns. build_levels (λ ms. ms) arity (0 - 1) ns >>= λ top. or_panic (get_elem? top 0))
          p in
      let first = or_panic-eq-ok (get_elem? ns 0) p₁ in
      let (chunk, made) = try_map-first (leaf_branch arity build_leaf) cs mapped first in
      let (leaves, _, m₁) = >>=-eq-ok (try_map build_leaf chunk) _ made in
      let (t, _, m₂) = >>=-eq-ok (digest_branch (pad arity leaves)) _ m₁ in
      (t, pad arity leaves, sym (ok-injective m₂))

  build_tree_internal-root :
      (arity : ℕ) (height? : Option ℕ) (e : E) (es : List E) {n : MerkleNode E ℕ T} {height k : ℕ}
      → build_tree_internal arity height? (e ∷ es) ≡ ok (n, height, k)
      → build_root (λ ns. ns) build_leaf arity height (e ∷ es) ≡ ok n
  unfolding build_tree_internal
  build_tree_internal-root arity height? e es p =
      let (height, chosen, q) =
        >>=-eq-ok (height_or height? arity (length (e ∷ es))) (build_of_height arity (e ∷ es)) p in
      elim (Bool-cases (ltb (arity ^ height) (length (e ∷ es)))) [
        | inl large ↦ let bad = rw large at q in cc
        | inr fits ↦
            let inside : ltb 0 (length (e ∷ es)) ≡ true = lt→ltb _ _ (omega arith) in
            let (root, built, made) =
              >>=-eq-ok (build_root (λ ns. ns) build_leaf arity height (e ∷ es)) _
                (rw (fits, inside) at q) in
            let same = ok-injective made in
            ap (λ m. build_root (λ ns. ns) build_leaf arity m (e ∷ es)) (ap (λ x. x.1) (sym same))
            ∙ built
            ∙ ap ok (ap (λ x. x.0) same)
      ]

  branch-panics :
      (n : MerkleNode E ℕ T) (path : List ℕ) → IsBranch n → lookup_internal n 0 path ≡ panic
  unfolding lookup_internal
  branch-panics n path (t, cs, e) = rw e refl

  -- Where `from_elems` builds a tree of height 0 over at least one element, as it does over a single
  -- element when it chooses the height, a lookup of any index in it panics.
  pub from_elems-panics :
      (arity : ℕ) (height? : Option ℕ) (e : E) (es : List E) (t : MerkleTree E ℕ T) (p : ℕ)
      → from_elems arity height? (e ∷ es) ≡ ok t
      → t.height ≡ 0
      → (lookup arity t p ≡ panic) × (universal_lookup arity t p ≡ panic)
  unfolding from_elems lookup universal_lookup
  from_elems-panics arity height? e es t p made low =
      let ((n, height, k), built, same) =
        >>=-eq-ok (build_tree_internal arity height? (e ∷ es)) _ made in
      let made_of = ok-injective same in
      let rooted = build_tree_internal-root arity height? e es built in
      let lowest : height ≡ 0 = ap (λ x. x.height) made_of ∙ low in
      let is_branch =
        build_root-IsBranch arity (e ∷ es)
          (ap (λ m. build_root (λ ns. ns) build_leaf arity m (e ∷ es)) (sym lowest) ∙ rooted) in
      let stuck : lookup_internal t.root t.height (to_traversal_path_primitives arity p t.height)
          ≡ panic =
        ap (λ m. lookup_internal t.root m (to_traversal_path_primitives arity p m)) low
        ∙ ap (λ r. lookup_internal r 0 (to_traversal_path_primitives arity p 0))
            (ap (λ x. x.root) (sym made_of))
        ∙ branch-panics n _ is_branch in
      rw stuck (refl, refl)
