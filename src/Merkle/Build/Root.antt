-- ===== src/Merkle/Build/Root.antt =====
-- The roots of both builders of primitives/src/merkle_tree/internal.rs, and a reference computation on
-- digests alone.
use mathlib.Core.Path.{ap₂}
use jellyfish.Prelude.{
  ℕ, zero, suc, ◌-◌, ◌≡◌, refl, ap, sym, ◌∙◌, Bool, true, false, List, [], ◌∷◌, map, length,
  length-map, take, drop, get_elem?, Result, ok, err, panic, ◌>>=◌, or_panic, ltb, if◌then◌else◌,
}
use jellyfish.Merkle.Node.{
  MerkleNode, branch, leaf, forgetten_subtree, Nodes, to_nodes, NodeValue, DigestAlgorithm, values,
  value, digest_branch,
}
use jellyfish.Merkle.Build.{
  chunks, chunk_rounds, enumerate_from, try_map, pad, chunk_branch, build_leaf, leaf_branch,
  build_levels, build_root, build_light_leaf, forget_but_last, forget_middle,
}

-- The result with a function applied to what it holds.
abbrev pub map_ok : {A B : Type 0} → (A → B) → Result A → Result B
map_ok f r = r >>= λ x. ok (f x)

try_map-map_ok :
    {A B C : Type 0} (f : A → Result B) (g : A → Result C) (m : B → C)
    → ((x : A) → map_ok m (f x) ≡ g x)
    → (xs : List A) → map_ok (map m) (try_map f xs) ≡ try_map g xs
try_map-map_ok f g m same [] = refl
try_map-map_ok f g m same (x ∷ xs) =
    rw (← same x, ← try_map-map_ok f g m same xs) (cases (f x) (try_map f xs))
  where
    cases :
        (r : Result _) (s : Result (List _))
        → map_ok (map m) (r >>= λ y. s >>= λ ys. ok (y ∷ ys))
          ≡ (map_ok m r >>= λ y. map_ok (map m) s >>= λ ys. ok (y ∷ ys))
    cases (ok y) (ok ys) = refl
    cases (ok y) (err e) = refl
    cases (ok y) panic = refl
    cases (err e) s = refl
    cases panic s = refl

try_map-map :
    {A B C : Type 0} (m : A → B) (g : B → Result C) (xs : List A)
    → try_map (λ x. g (m x)) xs ≡ try_map g (map m xs)
try_map-map m g [] = refl
try_map-map m g (x ∷ xs) = rw (try_map-map m g xs) refl

module _ {T : Type 0} ⦃v : NodeValue T⦄ where
  -- `n` values at least: the default where they end.
  abbrev pub padded : ℕ → List T → List T
  padded zero ts = ts
  padded (suc n) [] = v.default ∷ padded n []
  padded (suc n) (t ∷ ts) = t ∷ padded n ts

  -- The digest of the branch over a chunk, from its nodes' values.
  abbrev pub digest_chunk : (List T → Result T) → ℕ → List T → Result T
  digest_chunk digest arity ts = digest (padded arity ts)

  -- So many levels of the tree, from the values below.
  unfoldable pub value_levels : (List T → Result T) → ℕ → ℕ → List T → Result (List T)
  value_levels digest arity zero ts = ok ts
  value_levels digest arity (suc rounds) ts =
      try_map (digest_chunk digest arity) (chunks arity ts) >>= value_levels digest arity rounds

module _ {E T : Type 0} ⦃v : NodeValue T⦄ where
  values-to_nodes : (ns : List (MerkleNode E ℕ T)) → values (to_nodes ns) ≡ map value ns
  values-to_nodes [] = refl
  values-to_nodes (n ∷ ns) = ap (◌∷◌ (value n)) (values-to_nodes ns)

  values-pad : (n : ℕ) (ns : List (MerkleNode E ℕ T)) → values (pad n ns) ≡ padded n (map value ns)
  values-pad zero ns = values-to_nodes ns
  values-pad (suc n) [] = ap (◌∷◌ v.default) (values-pad n [])
  values-pad (suc n) (c ∷ ns) = ap (◌∷◌ (value c)) (values-pad n ns)

module _ {E T : Type 0} ⦃v : NodeValue T⦄ ⦃h : DigestAlgorithm E ℕ T⦄ where
  forget_but_last-values :
      (ns : List (MerkleNode E ℕ T)) → map value (forget_but_last ns) ≡ map value ns
  forget_but_last-values [] = refl
  forget_but_last-values (n ∷ []) = refl
  forget_but_last-values (n ∷ m ∷ ns) = ap (◌∷◌ (value n)) (forget_but_last-values (m ∷ ns))

  forget_middle-values :
      (ns : List (MerkleNode E ℕ T)) → map value (forget_middle ns) ≡ map value ns
  forget_middle-values [] = refl
  forget_middle-values (n ∷ ns) = ap (◌∷◌ (value n)) (forget_but_last-values ns)

  chunk_branch-value :
      (arity : ℕ) (ns : List (MerkleNode E ℕ T))
      → map_ok value (chunk_branch arity ns) ≡ digest_chunk h.digest arity (map value ns)
  unfolding digest_branch
  chunk_branch-value arity ns =
      of_digest (h.digest (values (pad arity ns))) (pad arity ns)
      ∙ ap h.digest (values-pad arity ns)
    where
      of_digest : (r : Result T) (cs : Nodes E ℕ T) → map_ok value (r >>= λ t. ok (branch t cs)) ≡ r
      of_digest (ok t) cs = refl
      of_digest (err e) cs = refl
      of_digest panic cs = refl

  -- The root of the tree over the elements, from values alone.
  abbrev pub value_root : ℕ → ℕ → List E → Result T
  value_root arity height es = do
    ts ←
        try_map
          (λ chunk. try_map (λ x. h.digest_leaf x.0 x.1) chunk >>= digest_chunk h.digest arity)
          (chunks arity (enumerate_from 0 es))
    top ← value_levels h.digest arity (height - 1) ts
    or_panic (get_elem? top 0)

map-take : {A B : Type 0} (f : A → B) (n : ℕ) (xs : List A) → map f (take n xs) ≡ take n (map f xs)
map-take f zero xs = refl
map-take f (suc n) [] = refl
map-take f (suc n) (x ∷ xs) = ap (◌∷◌ (f x)) (map-take f n xs)

map-drop : {A B : Type 0} (f : A → B) (n : ℕ) (xs : List A) → map f (drop n xs) ≡ drop n (map f xs)
map-drop f zero xs = refl
map-drop f (suc n) [] = refl
map-drop f (suc n) (x ∷ xs) = map-drop f n xs

map-chunk_rounds :
    {A B : Type 0} (f : A → B) (rounds n : ℕ) (xs : List A)
    → map (map f) (chunk_rounds rounds n xs) ≡ chunk_rounds rounds n (map f xs)
unfolding chunk_rounds
map-chunk_rounds f zero n xs = refl
map-chunk_rounds f (suc rounds) n [] = refl
map-chunk_rounds f (suc rounds) n (x ∷ xs) = ap₂ (◌∷◌) (map-take f n (x ∷ xs)) (
    map-chunk_rounds f rounds n (drop n (x ∷ xs))
    ∙ ap (chunk_rounds rounds n) (map-drop f n (x ∷ xs)))

map-chunks :
    {A B : Type 0} (f : A → B) (n : ℕ) (xs : List A)
    → map (map f) (chunks n xs) ≡ chunks n (map f xs)
unfolding chunks
map-chunks f n xs =
    map-chunk_rounds f (length xs) n xs
    ∙ ap (λ k. chunk_rounds k n (map f xs)) (sym (length-map xs f))

map_ok->>= :
    {A B C D : Type 0} (r : Result A) (f : A → Result B) (m : B → D) (k : A → C) (g : C → Result D)
    → ((x : A) → map_ok m (f x) ≡ g (k x))
    → map_ok m (r >>= f) ≡ (map_ok k r >>= g)
map_ok->>= (ok x) f m k g same = same x
map_ok->>= (err e) f m k g same = refl
map_ok->>= panic f m k g same = refl

module _ {E T : Type 0} ⦃v : NodeValue T⦄ ⦃h : DigestAlgorithm E ℕ T⦄ where
  build_levels-values :
      (after : List (MerkleNode E ℕ T) → List (MerkleNode E ℕ T))
      → ((ns : List (MerkleNode E ℕ T)) → map value (after ns) ≡ map value ns)
      → (arity rounds : ℕ) (ns : List (MerkleNode E ℕ T))
      → map_ok (map value) (build_levels after arity rounds ns)
        ≡ value_levels h.digest arity rounds (map value ns)
  unfolding build_levels value_levels
  build_levels-values after keeps arity zero ns = refl
  build_levels-values after keeps arity (suc rounds) ns =
      map_ok->>= (try_map (chunk_branch arity) (chunks arity ns))
        (λ ns'. build_levels after arity rounds (after ns')) (map value) (map value)
        (value_levels h.digest arity rounds)
        (λ ns'.
          build_levels-values after keeps arity rounds (after ns')
          ∙ ap (value_levels h.digest arity rounds) (keeps ns'))
      ∙ ap (λ r. r >>= value_levels h.digest arity rounds)
          (try_map-map_ok (chunk_branch arity) (λ ns. digest_chunk h.digest arity (map value ns))
              value (chunk_branch-value arity) (chunks arity ns)
            ∙ try_map-map (map value) (digest_chunk h.digest arity) (chunks arity ns)
            ∙ ap (try_map (digest_chunk h.digest arity)) (map-chunks value arity ns))

  -- The leaves' values do not depend on which of them are kept.
  leaf_branch-value :
      (arity : ℕ) (to_leaf : ℕ × E → Result (MerkleNode E ℕ T))
      → ((x : ℕ × E) → map_ok value (to_leaf x) ≡ h.digest_leaf x.0 x.1)
      → (chunk : List (ℕ × E))
      → map_ok value (leaf_branch arity to_leaf chunk)
        ≡ (try_map (λ x. h.digest_leaf x.0 x.1) chunk >>= digest_chunk h.digest arity)
  leaf_branch-value arity to_leaf same chunk =
      map_ok->>= (try_map to_leaf chunk) (chunk_branch arity) value (map value)
        (digest_chunk h.digest arity) (chunk_branch-value arity)
      ∙ ap (λ r. r >>= digest_chunk h.digest arity)
          (try_map-map_ok to_leaf (λ x. h.digest_leaf x.0 x.1) value same chunk)

  first_value :
      (top : List (MerkleNode E ℕ T))
      → map_ok value (or_panic (get_elem? top 0)) ≡ or_panic (get_elem? (map value top) 0)
  first_value [] = refl
  first_value (n ∷ ns) = refl

  -- A builder that keeps the values at every step computes the root of the values.
  pub build_root-value :
      (after : List (MerkleNode E ℕ T) → List (MerkleNode E ℕ T))
      (to_leaf : ℕ × E → Result (MerkleNode E ℕ T))
      → ((ns : List (MerkleNode E ℕ T)) → map value (after ns) ≡ map value ns)
      → ((x : ℕ × E) → map_ok value (to_leaf x) ≡ h.digest_leaf x.0 x.1)
      → (arity height : ℕ) (es : List E)
      → map_ok value (build_root after to_leaf arity height es) ≡ value_root arity height es
  unfolding build_root
  build_root-value after to_leaf keeps same arity height es =
      let cs = chunks arity (enumerate_from 0 es) in
      map_ok->>= (try_map (leaf_branch arity to_leaf) cs)
        (λ ns.
          build_levels after arity (height - 1) (after ns) >>= λ top. or_panic (get_elem? top 0))
        value (map value)
        (λ ts. value_levels h.digest arity (height - 1) ts >>= λ top. or_panic (get_elem? top 0))
        (λ ns.
          map_ok->>= (build_levels after arity (height - 1) (after ns))
            (λ top. or_panic (get_elem? top 0)) value (map value)
            (λ top. or_panic (get_elem? top 0)) first_value
          ∙ ap (λ r. r >>= λ top. or_panic (get_elem? top 0))
              (build_levels-values after keeps arity (height - 1) (after ns)
                ∙ ap (value_levels h.digest arity (height - 1)) (keeps ns)))
      ∙ ap
          (λ r. r >>= λ ts.
            value_levels h.digest arity (height - 1) ts >>= λ top. or_panic (get_elem? top 0))
          (try_map-map_ok (leaf_branch arity to_leaf)
            (λ chunk. try_map (λ x. h.digest_leaf x.0 x.1) chunk >>= digest_chunk h.digest arity)
            value (leaf_branch-value arity to_leaf same) cs)

  build_leaf-value : (x : ℕ × E) → map_ok value (build_leaf x) ≡ h.digest_leaf x.0 x.1
  build_leaf-value (p, e) = of_digest (h.digest_leaf p e)
    where
      of_digest : (r : Result T) → map_ok value (r >>= λ t. ok (leaf t p e)) ≡ r
      of_digest (ok t) = refl
      of_digest (err x) = refl
      of_digest panic = refl

  build_light_leaf-value :
      (n : ℕ) (x : ℕ × E) → map_ok value (build_light_leaf n x) ≡ h.digest_leaf x.0 x.1
  build_light_leaf-value n (p, e) = of_digest (ltb p (n - 1)) (h.digest_leaf p e)
    where
      of_digest :
          (b : Bool) (r : Result T)
          → map_ok value (r >>= λ t. ok (if b then forgetten_subtree t else leaf t p e)) ≡ r
      of_digest true (ok t) = refl
      of_digest false (ok t) = refl
      of_digest b (err x) = refl
      of_digest b panic = refl

  -- The values of the roots that the full and the light-weight builder compute are both what
  -- `value_root` computes from digests alone, and where it fails they fail as it does.
  pub builders-value :
      (arity height : ℕ) (es : List E)
      → (map_ok {A = MerkleNode E ℕ T} {B = T} value
            (build_root (λ ns. ns) build_leaf arity height es)
          ≡ value_root arity height es)
        × (map_ok {A = MerkleNode E ℕ T} {B = T} value
              (build_root forget_middle (build_light_leaf (length es)) arity height es)
            ≡ value_root arity height es)
  builders-value arity height es = (
    build_root-value (λ ns. ns) build_leaf (λ ns. refl) build_leaf-value arity height es,
    build_root-value forget_middle (build_light_leaf (length es)) forget_middle-values
        (build_light_leaf-value (length es)) arity height es,
  )
