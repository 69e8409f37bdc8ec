-- ===== src/Merkle/Sound.antt =====
-- What the verifiers of primitives/src/merkle_tree/internal.rs accept, under a hash function without
-- collisions.
use mathlib.Core.Option.{some-injective}
use jellyfish.Prelude.{
  ℕ, zero, suc, ◌<◌, ◌≡◌, refl, ap, sym, ◌∙◌, ◌≢◌, ◌⊎◌, inl, inr, Bool-cases, some, List, [], ◌∷◌,
  ◌++◌, get_elem?, get_elem?-set_self, length, set, ltb, ltb→lt, Result, ok, >>=-eq-ok,
  ok-injective, panic≢ok, arith,
}
use jellyfish.Merkle.Node.{
  MerkleNode, empty, branch, leaf, forgetten_subtree, Nodes, nil, cons, NodeValue, DigestAlgorithm,
  child?, values, value, digest_branch,
}
use jellyfish.Merkle.Lookup.{found, not_in_memory, not_found, lookup_internal}
use jellyfish.Merkle.Verify.{assign_at, hash_branch, membership_step, non_membership_step, try_fold}
use jellyfish.Merkle.Valid.{All-child, IsValid, IsPath, child_in_range}
use jellyfish.Merkle.Complete.{try_fold-nil}
use jellyfish.Merkle.Update.Step.{read, read-empty, read-branch}

-- A hash without collisions, whose digests are never the value of an empty node.
pub record IsCollisionFree {E I T : Type 0} (v : NodeValue T) (h : DigestAlgorithm E I T)
    : Type 0 where
  pub digest_injective :
      (xs ys : List T) (t : T) → h.digest xs ≡ ok t → h.digest ys ≡ ok t → xs ≡ ys
  pub digest_leaf_injective :
      (p q : I) (e f : E) (t : T)
      → h.digest_leaf p e ≡ ok t
      → h.digest_leaf q f ≡ ok t
      → (p ≡ q) × (e ≡ f)
  pub digest_ne_default : (xs : List T) → h.digest xs ≢ ok v.default
  pub digest_leaf_ne_default : (p : I) (e : E) → h.digest_leaf p e ≢ ok v.default

module _ {ℓ} {A : Type ℓ} where
  -- A list that is not empty ends in an element.
  split_last :
      (xs : List A) (n : ℕ)
      → length xs ≡ suc n
      → (ys : List A) × (y : A) × (xs ≡ ys ++ y ∷ []) × (length ys ≡ n)
  split_last [] n l = absurd (omega arith)
  split_last (x ∷ []) n l = ([], x, refl, omega arith)
  split_last (x ∷ y ∷ xs) zero l = absurd (omega arith)
  split_last (x ∷ y ∷ xs) (suc n) l =
      let (ys, z, e, m) = split_last (y ∷ xs) n (omega arith) in
      (x ∷ ys, z, ap (◌∷◌ x) e, omega arith)

assign_at-eq-ok :
    {T : Type 0} (xs : List T) (b : ℕ) (u : T) {ys : List T}
    → assign_at xs b u ≡ ok ys
    → (set xs b u ≡ ys) × (b < length xs)
assign_at-eq-ok xs b u p = elim (Bool-cases (ltb b (length xs))) [
  | inl inside ↦ (ok-injective (rw (inside, assign_at) at p), ltb→lt _ _ inside)
  | inr outside ↦ absurd (panic≢ok (rw (outside, assign_at) at p))
]

module _ {E I T : Type 0} ⦃v : NodeValue T⦄ where
  get_elem?-values :
      (cs : Nodes E I T) (b : ℕ) {c : MerkleNode E I T}
      → child? cs b ≡ some c
      → get_elem? (values cs) b ≡ some (value c)
  get_elem?-values nil b k = cc
  get_elem?-values (cons x cs) zero k = ap some (ap value (some-injective _ _ k))
  get_elem?-values (cons x cs) (suc b) k = get_elem?-values cs b k

module _ {E I T : Type 0} ⦃v : NodeValue T⦄ ⦃h : DigestAlgorithm E I T⦄ where
  try_fold_last :
      (step : T → ℕ → MerkleNode E I T → Result T) (val : T) (path : List ℕ)
      (ns : List (MerkleNode E I T)) (n : MerkleNode E I T) {w : T} {b : ℕ}
      → get_elem? path (length ns) ≡ some b
      → try_fold step val path (ns ++ n ∷ []) ≡ ok w
      → (u : T) × (try_fold step val path ns ≡ ok u) × (step u b n ≡ ok w)
  try_fold_last step val [] ns n q p = cc
  try_fold_last step val (d ∷ path) [] n q p =
      let (u, e, f) = >>=-eq-ok (step val d n) _ p in
      (
        val,
        refl,
        ap (λ b. step val b n) (sym (some-injective _ _ q))
            ∙ e
            ∙ sym (try_fold-nil step u path)
            ∙ f,
      )
  try_fold_last step val (d ∷ path) (m ∷ ns) n q p =
      let (u, e, f) = >>=-eq-ok (step val d m) _ p in
      let (w', g, s) = try_fold_last step u path ns n q f in (w', rw e g, s)

  hash_branch-eq-ok :
      (cs : Nodes E I T) (b : ℕ) (u : T) {w : T}
      → hash_branch cs b u ≡ ok w
      → (h.digest (set (values cs) b u) ≡ ok w) × (b < length (values cs))
  unfolding hash_branch
  hash_branch-eq-ok cs b u p =
      let (ys, assigned, digested) = >>=-eq-ok (assign_at (values cs) b u) _ p in
      let (same, inside) = assign_at-eq-ok (values cs) b u assigned in
      (ap h.digest same ∙ digested, inside)

module _ {E I T : Type 0} ⦃v : NodeValue T⦄ ⦃h : DigestAlgorithm E I T⦄ (arity : ℕ)
    (free : IsCollisionFree v h) where
  -- A branch that hashes to the value of a node of the tree has the node's children's values.
  same_child :
      (cs ds : Nodes E I T) (b : ℕ) (u t : T) {c : MerkleNode E I T}
      → hash_branch ds b u ≡ ok t
      → digest_branch cs ≡ ok t
      → child? cs b ≡ some c
      → value c ≡ u
  same_child cs ds b u t p d k =
      let (digested, inside) = hash_branch-eq-ok ds b u p in
      let same : values cs ≡ set (values ds) b u =
        unfold digest_branch in
        free.digest_injective (values cs) (set (values ds) b u) t d digested in
      some-injective _ _ (
        sym (get_elem?-values cs b k)
        ∙ ap (λ xs. get_elem? xs b) same
        ∙ get_elem?-set_self (values ds) b u inside)

  hash_branch-ne-default : (ds : Nodes E I T) (b : ℕ) (u : T) → hash_branch ds b u ≢ ok v.default
  hash_branch-ne-default ds b u p = free.digest_ne_default _ (hash_branch-eq-ok ds b u p).0

  no_default : (n : MerkleNode E I T) (b : ℕ) (u : T) → membership_step u b n ≢ ok v.default
  no_default empty b u p = cc
  no_default (branch t cs) b u p = hash_branch-ne-default cs b u p
  no_default (leaf t i e) b u p = cc
  no_default (forgetten_subtree t) b u p = cc

  top_child :
      (cs : Nodes E I T) (n : MerkleNode E I T) (b : ℕ) (u t : T) {c : MerkleNode E I T}
      → membership_step u b n ≡ ok t
      → digest_branch cs ≡ ok t
      → child? cs b ≡ some c
      → value c ≡ u
  top_child cs empty b u t p d k = cc
  top_child cs (branch t' ds) b u t p d k = same_child cs ds b u t p d k
  top_child cs (leaf t' i e) b u t p d k = cc
  top_child cs (forgetten_subtree t') b u t p d k = cc

  top_child_or_empty :
      (cs : Nodes E I T) (n : MerkleNode E I T) (b : ℕ) (u t : T) {c : MerkleNode E I T}
      → non_membership_step u b n ≡ ok t
      → digest_branch cs ≡ ok t
      → child? cs b ≡ some c
      → value c ≡ u
  top_child_or_empty cs empty b u t p d k =
      unfold digest_branch in absurd (free.digest_ne_default (values cs) (d ∙ sym p))
  top_child_or_empty cs (branch t' ds) b u t p d k = same_child cs ds b u t p d k
  top_child_or_empty cs (leaf t' i e) b u t p d k = cc
  top_child_or_empty cs (forgetten_subtree t') b u t p d k = cc

  -- The path of a leaf that hashes to the node's value ends in that leaf, if it is in memory.
  pub membership_sound :
      (node : MerkleNode E I T) (height : ℕ) (path : List ℕ) (ns : List (MerkleNode E I T)) (i : I)
      (e : E) (init : T)
      → IsValid arity node height
      → IsPath arity height path
      → length ns ≡ height
      → h.digest_leaf i e ≡ ok init
      → try_fold membership_step init path ns ≡ ok (value node)
      → (read node height path ≡ ok not_in_memory) ⊎ (read node height path ≡ ok (found e tt))
  membership_sound empty zero path [] i e init valid is_path l d p =
      absurd
        (free.digest_leaf_ne_default i e (d ∙ sym (try_fold-nil membership_step init path) ∙ p))
  membership_sound empty zero path (n ∷ ns) i e init valid is_path l d p = absurd (omega arith)
  membership_sound empty (suc height) path ns i e init valid ((b, at, lt), is_path) l d p =
      let (ms, n, same, m) = split_last ns height l in
      let (u, _, top) =
        try_fold_last membership_step init path ms n (ap (get_elem? path) m ∙ at)
          (ap (try_fold membership_step init path) (sym same) ∙ p) in
      absurd (no_default n b u top)
  membership_sound (branch t cs) zero path ns i e init valid is_path l d p = absurd valid
  membership_sound (branch t cs) (suc height) path ns i e init (w, digested, all)
        ((b, at, lt), is_path) l d p =
      let (c, k) = child_in_range cs b (omega arith) in
      let (ms, n, same, m) = split_last ns height l in
      let (u, below, top) =
        try_fold_last membership_step init path ms n (ap (get_elem? path) m ∙ at)
          (ap (try_fold membership_step init path) (sym same) ∙ p) in
      rw (read-branch t cs height path b c at k) (
        membership_sound c height path ms i e init
          (All-child (λ c. IsValid arity c height) cs b all k) is_path m d
          (below ∙ ap ok (sym (top_child cs n b u t top digested k))))
  membership_sound (leaf t j x) zero path [] i e init valid is_path l d p =
      let same =
        (free.digest_leaf_injective j i x e t valid
          (d ∙ sym (try_fold-nil membership_step init path) ∙ p)).1 in
      inr (unfold read lookup_internal in ap (λ y. ok (found y tt)) same)
  membership_sound (leaf t j x) zero path (n ∷ ns) i e init valid is_path l d p =
      absurd (omega arith)
  membership_sound (leaf t j x) (suc height) path ns i e init valid is_path l d p = absurd valid
  membership_sound (forgetten_subtree t) height path ns i e init valid is_path l d p =
      inl (unfold read lookup_internal in refl)

  -- An index below which no leaf is proved holds no leaf, if it is in memory.
  pub non_membership_sound :
      (node : MerkleNode E I T) (height : ℕ) (path : List ℕ) (ns : List (MerkleNode E I T))
      → IsValid arity node height
      → IsPath arity height path
      → length ns ≡ height
      → try_fold non_membership_step v.default path ns ≡ ok (value node)
      → (read node height path ≡ ok not_in_memory) ⊎ (read node height path ≡ ok (not_found tt))
  non_membership_sound empty height path ns valid is_path l p = inr (read-empty E I T height path)
  non_membership_sound (branch t cs) zero path ns valid is_path l p = absurd valid
  non_membership_sound (branch t cs) (suc height) path ns (w, digested, all) ((b, at, lt), is_path)
        l p =
      let (c, k) = child_in_range cs b (omega arith) in
      let (ms, n, same, m) = split_last ns height l in
      let (u, below, top) =
        try_fold_last non_membership_step v.default path ms n (ap (get_elem? path) m ∙ at)
          (ap (try_fold non_membership_step v.default path) (sym same) ∙ p) in
      rw (read-branch t cs height path b c at k) (
        non_membership_sound c height path ms (All-child (λ c. IsValid arity c height) cs b all k)
          is_path m (below ∙ ap ok (sym (top_child_or_empty cs n b u t top digested k))))
  non_membership_sound (leaf t j x) zero path [] valid is_path l p = absurd (
      free.digest_leaf_ne_default j x
        (valid ∙ sym p ∙ try_fold-nil non_membership_step v.default path))
  non_membership_sound (leaf t j x) zero path (n ∷ ns) valid is_path l p = absurd (omega arith)
  non_membership_sound (leaf t j x) (suc height) path ns valid is_path l p = absurd valid
  non_membership_sound (forgetten_subtree t) height path ns valid is_path l p =
      inl (unfold read lookup_internal in refl)
