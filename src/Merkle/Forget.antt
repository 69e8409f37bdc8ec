-- ===== src/Merkle/Forget.antt =====
-- `forget_internal` (primitives/src/merkle_tree/internal.rs) against `lookup_internal`.
pub mod Keeps
pub mod Pruned
use mathlib.Core.Option.{some-injective}
use jellyfish.Prelude.{
  ℕ, zero, suc, ◌≡◌, refl, ap, sym, ◌∙◌, ◌≢◌, ◌⊎◌, inl, inr, false, Bool-cases, some, Option-cases,
  List, [], ◌∷◌, ◌++◌, get_elem?, Result, ok, err, panic, ◌>>=◌, or_panic, or_panic-eq-ok,
  >>=-eq-ok, ok-injective, arith,
}
use jellyfish.Merkle.Node.{
  MerkleNode, empty, branch, leaf, forgetten_subtree, Nodes, nil, cons, MerklePath, NodeValue,
  DigestAlgorithm, child?, set_child, values, value, digest_branch, all_children,
}
use jellyfish.Merkle.Lookup.{
  LookupResult, found, not_in_memory, not_found, redact_child, redact, proof_branch, push_branch,
  lookup_internal, is_pruned, descend, forget_branch, forget_internal,
}
use jellyfish.Merkle.Valid.{
  All-child, All-set_child, IsPath, IsValid, Apart, child_in_range, child-set_child,
  child-set_child_ne, child-lt-width, width-set_child,
}

module _ {E I T : Type 0} ⦃v : NodeValue T⦄ where
  pub redact-set_child :
      (cs : Nodes E I T) (b : ℕ) {c : MerkleNode E I T} (c' : MerkleNode E I T)
      → child? cs b ≡ some c
      → redact_child c' ≡ redact_child c
      → redact (set_child cs b c') ≡ redact cs
  redact-set_child nil b c' k e = refl
  redact-set_child (cons d cs) zero c' k e = rw (some-injective _ _ k, e)
  redact-set_child (cons d cs) (suc b) c' k e =
      ap (cons (redact_child d)) (redact-set_child cs b c' k e)

  pub values-set_child :
      (cs : Nodes E I T) (b : ℕ) {c : MerkleNode E I T} (c' : MerkleNode E I T)
      → child? cs b ≡ some c
      → value c' ≡ value c
      → values (set_child cs b c') ≡ values cs
  values-set_child nil b c' k e = refl
  values-set_child (cons d cs) zero c' k e = rw (some-injective _ _ k, e)
  values-set_child (cons d cs) (suc b) c' k e = ap (◌∷◌ (value d)) (values-set_child cs b c' k e)

  forget_branch-redact :
      (t : T) (cs : Nodes E I T) (r : Result (LookupResult E (MerklePath E I T) (MerklePath E I T)))
      → (redact_child (forget_branch t cs r).0 ≡ forgetten_subtree t)
        × (value (forget_branch t cs r).0 ≡ t)
  forget_branch-redact t cs r = ground arith

  -- Forgetting leaves a node's value, and its being empty, as they are.
  pub forget_internal-redact :
      (node : MerkleNode E I T) (height : ℕ) (path : List ℕ)
      → (redact_child (forget_internal node height path).0 ≡ redact_child node)
        × (value (forget_internal node height path).0 ≡ value node)
  unfolding forget_internal
  forget_internal-redact empty height path = (refl, refl)
  forget_internal-redact (branch t cs) zero path = (refl, refl)
  forget_internal-redact (branch t cs) (suc height) path =
      let (cs', r) =
        descend cs (get_elem? path height) (λ child. forget_internal child height path) in
      forget_branch-redact t cs' r
  forget_internal-redact (leaf t p e) height path = (refl, refl)
  forget_internal-redact (forgetten_subtree t) height path = (refl, refl)

  forget_branch-push :
      (t : T) (cs ds : Nodes E I T)
      (r : Result (LookupResult E (MerklePath E I T) (MerklePath E I T)))
      → redact ds ≡ redact cs
      → (forget_branch t ds r).1 ≡ (r >>= λ l. ok (push_branch cs l))
  forget_branch-push t cs ds (ok (found e proof)) p = rw p
  forget_branch-push t cs ds (ok not_in_memory) p = refl
  forget_branch-push t cs ds (ok (not_found proof)) p = rw p
  forget_branch-push t cs ds (err e) p = refl
  forget_branch-push t cs ds panic p = refl

  -- One step of each recursion, where the digit and the child are there.
  pub forget_internal-branch :
      (t : T) (cs : Nodes E I T) (height : ℕ) (path : List ℕ) (b : ℕ) (c : MerkleNode E I T)
      → get_elem? path height ≡ some b
      → child? cs b ≡ some c
      → forget_internal (branch t cs) (suc height) path
        ≡ forget_branch t
            (set_child cs b (forget_internal c height path).0)
            (forget_internal c height path).1
  unfolding forget_internal
  forget_internal-branch t cs height path b c at k = rw (at, k)

  pub lookup_internal-branch :
      (t : T) (cs : Nodes E I T) (height : ℕ) (path : List ℕ) (b : ℕ) (c : MerkleNode E I T)
      → get_elem? path height ≡ some b
      → child? cs b ≡ some c
      → lookup_internal (branch t cs) (suc height) path
        ≡ (lookup_internal c height path >>= λ l. ok (push_branch cs l))
  unfolding lookup_internal
  lookup_internal-branch t cs height path b c at k = rw (at, k)

  -- The answer is that of a lookup before the call.
  pub forget_internal-lookup :
      (node : MerkleNode E I T) (height : ℕ) (path : List ℕ)
      → (forget_internal node height path).1 ≡ lookup_internal node height path
  unfolding forget_internal lookup_internal
  forget_internal-lookup empty height path = refl
  forget_internal-lookup (branch t cs) zero path = refl
  forget_internal-lookup (branch t cs) (suc height) path =
      elim (Option-cases (get_elem? path height)) [
        | inl out ↦ rw (out, forget_branch)
        | inr (b, at) ↦ elim (Option-cases (child? cs b)) [
          | inl out ↦ rw (at, out, forget_branch)
          | inr (c, k) ↦
              rw (at, k)
                (forget_branch-push t cs (set_child cs b (forget_internal c height path).0)
                    (forget_internal c height path).1
                    (redact-set_child cs b _ k (forget_internal-redact c height path).0)
                  ∙ ap
                      (λ (r : Result (LookupResult E (MerklePath E I T) (MerklePath E I T))).
                        r >>= λ l. ok (push_branch cs l))
                      (forget_internal-lookup c height path))
        ]
      ]
  forget_internal-lookup (leaf t p e) height path = refl
  forget_internal-lookup (forgetten_subtree t) height path = refl

  pub forget_branch-cases :
      (t : T) (ds : Nodes E I T) (r : Result (LookupResult E (MerklePath E I T) (MerklePath E I T)))
      → ((forget_branch t ds r).0 ≡ branch t ds) ⊎ ((forget_branch t ds r).0 ≡ forgetten_subtree t)
  forget_branch-cases t ds (ok (found e proof)) = elim (Bool-cases (all_children is_pruned ds)) [
    | inl all ↦ inr (rw all)
    | inr some_left ↦ inl (rw some_left)
  ]
  forget_branch-cases t ds (ok not_in_memory) = inl refl
  forget_branch-cases t ds (ok (not_found proof)) = inl refl
  forget_branch-cases t ds (err e) = inl refl
  forget_branch-cases t ds panic = inl refl

  -- A lookup at a branch that returns, taken apart.
  pub lookup_internal-branch_ok :
      (t : T) (cs : Nodes E I T) (height : ℕ) (path : List ℕ)
      (r : LookupResult E (MerklePath E I T) (MerklePath E I T))
      → lookup_internal (branch t cs) (suc height) path ≡ ok r
      → (b : ℕ) × (c : MerkleNode E I T) × (below : LookupResult E
          (MerklePath E I T)
          (MerklePath E I T))
        × (get_elem? path height ≡ some b)
        × (child? cs b ≡ some c)
        × (lookup_internal c height path ≡ ok below)
        × (push_branch cs below ≡ r)
  unfolding lookup_internal
  lookup_internal-branch_ok t cs height path r l =
      let (b, at, l₁) = >>=-eq-ok (or_panic (get_elem? path height)) _ l in
      let (c, k, l₂) = >>=-eq-ok (or_panic (child? cs b)) _ l₁ in
      let (below, found_below, l₃) = >>=-eq-ok (lookup_internal c height path) _ l₂ in
      (b, c, below, or_panic-eq-ok _ at, or_panic-eq-ok _ k, found_below, ok-injective l₃)

  pub push_branch-eq-found :
      (cs : Nodes E I T) (r : LookupResult E (MerklePath E I T) (MerklePath E I T)) {e : E}
      {proof : MerklePath E I T}
      → push_branch cs r ≡ found e proof
      → (below : MerklePath E I T) × (r ≡ found e below) × (below ++ proof_branch cs ∷ [] ≡ proof)
  push_branch-eq-found cs (found e' below) p = (below, cc, cc)
  push_branch-eq-found cs not_in_memory p = cc
  push_branch-eq-found cs (not_found below) p = cc

module _ {E I T : Type 0} ⦃v : NodeValue T⦄ where
  -- The value stays.
  pub forget_internal-value :
      (node : MerkleNode E I T) (height : ℕ) (path : List ℕ)
      → value (forget_internal node height path).0 ≡ value node
  forget_internal-value node height path = (forget_internal-redact node height path).1
