-- ===== src/Merkle/Along.antt =====
-- The values that `remember` (primitives/src/merkle_tree/macros.rs) computes from the proof of a
-- lookup.
use jellyfish.Prelude.{
  get_elem?-append_last, ℕ, zero, suc, ◌≡◌, refl, ap, sym, ◌∙◌, some, List, [], ◌∷◌, ◌++◌,
  get_elem?, length, length-append, Result, ok, panic, ◌>>=◌, >>=-eq-ok, ok-injective, arith,
}
use mathlib.Core.Option.{some-injective}
use mathlib.Core.Path.{subst}
use jellyfish.Merkle.Node.{
  MerkleNode, empty, branch, leaf, forgetten_subtree, Nodes, MerklePath, NodeValue, DigestAlgorithm,
  child?, value, digest_branch,
}
use jellyfish.Merkle.Lookup.{LookupResult, found, proof_branch, lookup_internal}
use jellyfish.Merkle.Verify.{membership_step, try_fold, membership_root}
use jellyfish.Merkle.Remember.{fold_values}
use jellyfish.Merkle.Valid.{All-child, IsValid, IsPath}
use jellyfish.Merkle.Complete.{Proves, lookup_internal-Proves, hash_branch-redact}
use jellyfish.Merkle.Forget.{lookup_internal-branch_ok, push_branch-eq-found}
use jellyfish.Merkle.Restore.{Along, Along-append}

module _ {E I T : Type 0} ⦃v : NodeValue T⦄ ⦃h : DigestAlgorithm E I T⦄ where
  fold_values-nil :
      (step : T → ℕ → MerkleNode E I T → Result T) (val : T) (path : List ℕ) (pv : List T)
      → fold_values step val path [] pv ≡ ok pv
  fold_values-nil step val [] pv = refl
  fold_values-nil step val (b ∷ path) pv = refl

  >>=-fold_values-nil :
      (step : T → ℕ → MerkleNode E I T → Result T) (path : List ℕ) (pv : List T) {u : T}
      (r : Result T)
      → r ≡ ok u
      → (r >>= λ val. fold_values step val path [] (pv ++ val ∷ [])) ≡ ok (pv ++ u ∷ [])
  >>=-fold_values-nil step path pv {u} r p = rw p (fold_values-nil step u path (pv ++ u ∷ []))

  -- One node more at the end of the proof.
  fold_values-append :
      (step : T → ℕ → MerkleNode E I T → Result T) (val : T) (path : List ℕ)
      (ns : List (MerkleNode E I T)) (n : MerkleNode E I T) (acc pv : List T) {w u : T} {b : ℕ}
      → try_fold step val path ns ≡ ok w
      → fold_values step val path ns acc ≡ ok pv
      → get_elem? path (length ns) ≡ some b
      → step w b n ≡ ok u
      → fold_values step val path (ns ++ n ∷ []) acc ≡ ok (pv ++ u ∷ [])
  fold_values-append step val [] ns n acc pv t f q s = cc
  fold_values-append step val (d ∷ path) [] n acc pv {w} {u} {b} t f q s = rw (← ok-injective f) (
      >>=-fold_values-nil step path acc (step val d n)
        (ap (λ x. step x d n) (ok-injective t) ∙ ap (λ y. step w y n) (some-injective _ _ q) ∙ s))
  fold_values-append step val (d ∷ path) (m ∷ ns) n acc pv t f q s =
      let (next, e, t') = >>=-eq-ok (step val d m) _ t in
      rw e (fold_values-append step next path ns n (acc ++ next ∷ []) pv t' (rw e at f) q s)

  -- `path_values` as `remember` builds it from the proof.
  abbrev pub path_values_of : List ℕ → MerklePath E I T → Result (List T)
  path_values_of path [] = panic
  path_values_of path (leaf t i e ∷ ns) =
      h.digest_leaf i e >>= λ val. fold_values membership_step val path ns (val ∷ [])
  path_values_of path (n ∷ ns) = panic

  path_values_of-append :
      (path : List ℕ) (proof : MerklePath E I T) (n : MerkleNode E I T) (pv : List T) {height b : ℕ}
      {w u : T}
      → membership_root path proof ≡ ok w
      → path_values_of path proof ≡ ok pv
      → length proof ≡ suc height
      → get_elem? path height ≡ some b
      → membership_step w b n ≡ ok u
      → path_values_of path (proof ++ n ∷ []) ≡ ok (pv ++ u ∷ [])
  path_values_of-append path [] n pv m f l q s = cc
  path_values_of-append path (empty ∷ ns) n pv m f l q s = cc
  path_values_of-append path (branch t cs ∷ ns) n pv m f l q s = cc
  path_values_of-append path (forgetten_subtree t ∷ ns) n pv m f l q s = cc
  path_values_of-append path (leaf t i e ∷ ns) n pv {height} m f l q s =
      let (init, d, m') = >>=-eq-ok (h.digest_leaf i e) _ m in
      let same : length ns ≡ height = omega arith in
      rw d (
        fold_values-append membership_step init path ns n (init ∷ []) pv m' (rw d at f) (rw same q)
          s)

  -- What `remember` computes from the proof of a lookup: values that lie along the path to the leaf.
  abbrev pub Computes : MerkleNode E I T → ℕ → List ℕ → E → MerklePath E I T → Type 0
  Computes node height path e proof =
      (pv : List T) × (path_values_of path proof ≡ ok pv)
      × (length pv ≡ suc height)
      × Along node height path pv proof e

  Computes-branch :
      (t : T) (cs : Nodes E I T) (height : ℕ) (path : List ℕ) (b : ℕ) (c : MerkleNode E I T) (e : E)
      (inner : MerklePath E I T)
      → digest_branch cs ≡ ok t
      → get_elem? path height ≡ some b
      → child? cs b ≡ some c
      → Proves path height (value c) (found e inner)
      → Computes c height path e inner
      → Computes (branch t cs) (suc height) path e (inner ++ proof_branch cs ∷ [])
  Computes-branch t cs height path b c e inner d at k (root, l) (pv, computed, m, along) = (
    pv ++ t ∷ [],
    path_values_of-append path inner (proof_branch cs) pv root computed l at
        (hash_branch-redact cs b k ∙ d),
    omega (arith, length-append {0} pv (t ∷ [])),
    (
      get_elem?-append_last pv t (suc height) m,
      get_elem?-append_last inner (proof_branch cs) (suc height) l,
      (b, c, at, k, Along-append c height path pv (t ∷ []) inner (proof_branch cs ∷ []) e along),
    ),
  )

  Computes-leaf :
      (t : T) (i : I) (x : E) (path : List ℕ) (e : E) (proof : MerklePath E I T)
      → h.digest_leaf i x ≡ ok t
      → ◌≡◌ {A = Result (LookupResult E (MerklePath E I T) (MerklePath E I T))}
          (ok (found x (leaf t i x ∷ [])))
          (ok (found e proof))
      → Computes (leaf t i x) zero path e proof
  Computes-leaf t i x path e proof digested l =
      let same : x ≡ e = cc in
      let only : leaf t i x ∷ [] ≡ proof = cc in
      subst (Computes (leaf t i x) zero path e) only (
        t ∷ [],
        rw digested (fold_values-nil membership_step t path (t ∷ [])),
        refl,
        (refl, refl, same),
      )

  pub lookup_internal-Computes :
      (arity : ℕ) (node : MerkleNode E I T) (height : ℕ) (path : List ℕ) (e : E)
      (proof : MerklePath E I T)
      → IsValid arity node height
      → IsPath arity height path
      → lookup_internal node height path ≡ ok (found e proof)
      → Computes node height path e proof
  lookup_internal-Computes arity empty height path e proof valid is_path l =
      unfold lookup_internal in cc
  lookup_internal-Computes arity (branch t cs) zero path e proof valid is_path l = absurd valid
  lookup_internal-Computes arity (branch t cs) (suc height) path e proof (w, d, all) (_, is_path)
        l =
      let (b, c, r, at, k, below, pushed) = lookup_internal-branch_ok t cs height path _ l in
      let (inner, is_found, joined) = push_branch-eq-found cs r pushed in
      let valid = All-child (λ c. IsValid arity c height) cs b all k in
      let below' = below ∙ ap ok is_found in
      let (r', returned, proves) = lookup_internal-Proves arity c height path valid is_path in
      subst (Computes (branch t cs) (suc height) path e) joined (
        Computes-branch t cs height path b c e inner d at k
          (subst (Proves path height (value c)) (ok-injective (sym returned ∙ below')) proves)
          (lookup_internal-Computes arity c height path e inner valid is_path below'))
  lookup_internal-Computes arity (leaf t i x) zero path e proof valid is_path l =
      Computes-leaf t i x path e proof valid (unfold lookup_internal in l)
  lookup_internal-Computes arity (leaf t i x) (suc height) path e proof valid is_path l =
      absurd valid
  lookup_internal-Computes arity (forgetten_subtree t) height path e proof valid is_path l =
      unfold lookup_internal in cc
