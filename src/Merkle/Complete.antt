-- ===== src/Merkle/Complete.antt =====
-- Lookups against the verifiers of primitives/src/merkle_tree/internal.rs.
use mathlib.Core.Option.{some-injective}
use native.Mathlib.Numerals.{add-one}
use jellyfish.Prelude.{
  ℕ, zero, suc, ◌<◌, ◌≡◌, refl, ap, ◌∙◌, some, List, [], ◌∷◌, ◌++◌, get_elem?, length,
  length-append, replicate, length-replicate, set, lt→ltb, Result, ok, err, panic, ◌>>=◌, >>=-eq-ok,
  ok-injective, arith,
}
use jellyfish.Merkle.Node.{
  MerkleNode, empty, branch, leaf, forgetten_subtree, Nodes, nil, cons, MerklePath, NodeValue,
  DigestAlgorithm, child?, values, value, digest_branch,
}
use jellyfish.Merkle.Lookup.{
  LookupResult, found, not_in_memory, not_found, redact, proof_branch, push_branch, lookup_internal,
}
use jellyfish.Merkle.Verify.{
  hash_branch, membership_step, non_membership_step, try_fold, membership_root, non_membership_root,
}
use jellyfish.Merkle.Valid.{All-child, IsValid, IsPath, child_in_range}

module _ {E I T : Type 0} ⦃v : NodeValue T⦄ where
  values-redact : (cs : Nodes E I T) → values (redact cs) ≡ values cs
  values-redact nil = refl
  values-redact (cons empty cs) = ap (◌∷◌ v.default) (values-redact cs)
  values-redact (cons (branch t ds) cs) = ap (◌∷◌ t) (values-redact cs)
  values-redact (cons (leaf t p e) cs) = ap (◌∷◌ t) (values-redact cs)
  values-redact (cons (forgetten_subtree t) cs) = ap (◌∷◌ t) (values-redact cs)

  pub set-values :
      (cs : Nodes E I T) (b : ℕ) {c : MerkleNode E I T}
      → child? cs b ≡ some c
      → (set (values cs) b (value c) ≡ values cs) × (b < length (values cs))
  set-values nil b e = cc
  set-values (cons c cs) zero e = (cc, omega arith)
  set-values (cons c cs) (suc b) e =
      let ih = set-values cs b e in (ap (◌∷◌ (value c)) ih.0, omega arith)

module _ {E I T : Type 0} ⦃v : NodeValue T⦄ ⦃h : DigestAlgorithm E I T⦄ where
  -- The children of a proof's branch hash to the value of the branch.
  pub hash_branch-redact :
      (cs : Nodes E I T) (b : ℕ) {c : MerkleNode E I T}
      → child? cs b ≡ some c
      → hash_branch (redact cs) b (value c) ≡ digest_branch cs
  unfolding hash_branch digest_branch
  hash_branch-redact cs b e =
      let (same, inside) = set-values cs b e in rw (values-redact cs, lt→ltb _ _ inside, same)

  pub try_fold-nil :
      (step : T → ℕ → MerkleNode E I T → Result T) (val : T) (path : List ℕ)
      → try_fold step val path [] ≡ ok val
  try_fold-nil step val [] = refl
  try_fold-nil step val (b ∷ path) = refl

  >>=-nil :
      (step : T → ℕ → MerkleNode E I T → Result T) (path : List ℕ) (r : Result T)
      → (r >>= λ val. try_fold step val path []) ≡ r
  >>=-nil step path (ok val) = try_fold-nil step val path
  >>=-nil step path (err e) = refl
  >>=-nil step path panic = refl

  try_fold-append :
      (step : T → ℕ → MerkleNode E I T → Result T) (val : T) (path : List ℕ)
      (ns : List (MerkleNode E I T)) (n : MerkleNode E I T) {val' : T} {b : ℕ}
      → try_fold step val path ns ≡ ok val'
      → get_elem? path (length ns) ≡ some b
      → try_fold step val path (ns ++ n ∷ []) ≡ step val' b n
  try_fold-append step val [] ns n p q = cc
  try_fold-append step val (d ∷ path) [] n {val'} {b} p q =
      rw (← ok-injective p, ← some-injective _ _ q) (>>=-nil step path (step val d n))
  try_fold-append step val (d ∷ path) (m ∷ ns) n p q =
      let (next, e, f) = >>=-eq-ok (step val d m) _ p in
      rw e (try_fold-append step next path ns n f q)

  membership_root-append :
      (path : List ℕ) (proof : MerklePath E I T) (n : MerkleNode E I T) {height b : ℕ} {val : T}
      → membership_root path proof ≡ ok val
      → length proof ≡ suc height
      → get_elem? path height ≡ some b
      → membership_root path (proof ++ n ∷ []) ≡ membership_step val b n
  membership_root-append path [] n p l q = cc
  membership_root-append path (leaf t i e ∷ ns) n {height} p l q =
      let (init, d, f) = >>=-eq-ok (h.digest_leaf i e) _ p in
      let same : length ns ≡ height = omega arith in
      rw d (try_fold-append membership_step init path ns n f (rw same q))
  membership_root-append path (empty ∷ ns) n p l q = cc
  membership_root-append path (branch t cs ∷ ns) n p l q = cc
  membership_root-append path (forgetten_subtree t ∷ ns) n p l q = cc

  non_membership_root-append :
      (path : List ℕ) (proof : MerklePath E I T) (n : MerkleNode E I T) {height b : ℕ} {val : T}
      → non_membership_root path proof ≡ ok val
      → length proof ≡ suc height
      → get_elem? path height ≡ some b
      → non_membership_root path (proof ++ n ∷ []) ≡ non_membership_step val b n
  non_membership_root-append path [] n p l q = cc
  non_membership_root-append path (empty ∷ ns) n {height} p l q =
      let same : length ns ≡ height = omega arith in
      try_fold-append non_membership_step v.default path ns n p (rw same q)
  non_membership_root-append path (leaf t i e ∷ ns) n p l q = cc
  non_membership_root-append path (branch t cs ∷ ns) n p l q = cc
  non_membership_root-append path (forgetten_subtree t ∷ ns) n p l q = cc

-- The empty nodes above an empty node.
non_membership-empties :
    (E I : Type 0) {T : Type 0} ⦃v : NodeValue T⦄ ⦃h : DigestAlgorithm E I T⦄ (path : List ℕ)
    (n : ℕ)
    → try_fold {E = E} {I = I} non_membership_step v.default path (replicate n empty) ≡ ok v.default
non_membership-empties E I path zero = try_fold-nil {E = E} {I = I} _ _ path
non_membership-empties E I [] (suc n) = refl
non_membership-empties E I (b ∷ path) (suc n) = non_membership-empties E I path n

module _ {E I T : Type 0} ⦃v : NodeValue T⦄ ⦃h : DigestAlgorithm E I T⦄ where
  -- What a lookup below `node` has to return.
  abbrev pub Proves : List ℕ → ℕ → T → LookupResult E (MerklePath E I T) (MerklePath E I T) → Type 0
  Proves path height root (found e proof) =
      (membership_root path proof ≡ ok root) × (length proof ≡ suc height)
  Proves path height root not_in_memory = Unit
  Proves path height root (not_found proof) =
      (non_membership_root path proof ≡ ok root) × (length proof ≡ suc height)

  push_branch-Proves :
      (path : List ℕ) (height b : ℕ) (cs : Nodes E I T) {c : MerkleNode E I T} {t : T}
      (r : LookupResult E (MerklePath E I T) (MerklePath E I T))
      → get_elem? path height ≡ some b
      → child? cs b ≡ some c
      → digest_branch cs ≡ ok t
      → Proves path height (value c) r
      → Proves path (suc height) t (push_branch cs r)
  push_branch-Proves path height b cs (found e proof) q k d (m, l) = (
    membership_root-append path proof (proof_branch cs) m l q ∙ hash_branch-redact cs b k ∙ d,
    omega (arith, length-append {0} proof (proof_branch cs ∷ [])),
  )
  push_branch-Proves path height b cs not_in_memory q k d m = tt
  push_branch-Proves path height b cs (not_found proof) q k d (m, l) = (
    non_membership_root-append path proof (proof_branch cs) m l q ∙ hash_branch-redact cs b k ∙ d,
    omega (arith, length-append {0} proof (proof_branch cs ∷ [])),
  )

  -- A lookup in a well-formed node returns, and its proof hashes to the node's value.
  pub lookup_internal-Proves :
      (arity : ℕ) (node : MerkleNode E I T) (height : ℕ) (path : List ℕ)
      → IsValid arity node height
      → IsPath arity height path
      → (r : LookupResult E (MerklePath E I T) (MerklePath E I T)) × (lookup_internal node height
            path
          ≡ ok r)
        × Proves path height (value node) r
  unfolding lookup_internal
  lookup_internal-Proves arity empty height path ok_node ok_path = rw add-one (
    not_found (replicate (suc height) empty),
    refl,
    (non_membership-empties E I path height, ap suc (length-replicate height empty)),
  )
  lookup_internal-Proves arity (branch t cs) zero path ok_node ok_path = absurd ok_node
  lookup_internal-Proves arity (branch t cs) (suc height) path (w, d, below) ((b, at, lt), rest) =
      let (c, k) = child_in_range cs b (omega arith) in
      let (r, e, proves) =
        lookup_internal-Proves arity c height path
          (All-child (λ c. IsValid arity c height) cs b below k) rest in
      (push_branch cs r, rw (at, k, e), push_branch-Proves path height b cs r at k d proves)
  lookup_internal-Proves arity (leaf t p e) zero path ok_node ok_path =
      (found e (leaf t p e ∷ []), refl, (rw ok_node (try_fold-nil membership_step t path), refl))
  lookup_internal-Proves arity (leaf t p e) (suc height) path ok_node ok_path = absurd ok_node
  lookup_internal-Proves arity (forgetten_subtree t) height path ok_node ok_path =
      (not_in_memory, refl, tt)
