-- ===== src/Merkle/Forget/Keeps.antt =====
-- What `forget_internal` (primitives/src/merkle_tree/internal.rs) prunes, and what it leaves to other
-- lookups.
use mathlib.Core.Option.{some-injective}
use jellyfish.Prelude.{
  ℕ, zero, suc, ◌≡◌, refl, ap, sym, ◌∙◌, ◌≢◌, inl, inr, false, some, List, get_elem?, Result, ok,
  arith,
}
use jellyfish.Merkle.Node.{
  MerkleNode, empty, branch, leaf, forgetten_subtree, Nodes, nil, cons, MerklePath, NodeValue,
  DigestAlgorithm, child?, set_child, digest_branch, all_children,
}
use jellyfish.Merkle.Lookup.{
  LookupResult, found, not_in_memory, redact, push_branch, lookup_internal, is_pruned,
  forget_branch, forget_internal,
}
use jellyfish.Merkle.Valid.{
  All-child, All-set_child, IsPath, IsValid, Apart, child_in_range, child-set_child,
  child-set_child_ne, child-lt-width, width-set_child,
}
use jellyfish.Merkle.Forget.{
  redact-set_child, values-set_child, forget_internal-redact, forget_branch-cases,
  forget_internal-branch, lookup_internal-branch, lookup_internal-branch_ok, push_branch-eq-found,
}

module _ {E I T : Type 0} ⦃v : NodeValue T⦄ where
  all_children-child :
      (ds : Nodes E I T) (b : ℕ) {d : MerkleNode E I T}
      → child? ds b ≡ some d
      → is_pruned d ≡ false
      → all_children is_pruned ds ≡ false
  all_children-child nil b k e = cc
  all_children-child (cons x ds) zero k e = rw (some-injective _ _ k, e)
  all_children-child (cons x ds) (suc b) k e = ground (arith, all_children-child ds b k e)

  is_pruned_of_found :
      (d : MerkleNode E I T) (height : ℕ) (path : List ℕ) {e : E} {proof : MerklePath E I T}
      → lookup_internal d height path ≡ ok (found e proof)
      → is_pruned d ≡ false
  unfolding lookup_internal
  is_pruned_of_found empty height path p = cc
  is_pruned_of_found (branch t cs) height path p = refl
  is_pruned_of_found (leaf t i e) height path p = refl
  is_pruned_of_found (forgetten_subtree t) height path p = cc

  forget_branch-open :
      (t : T) (ds : Nodes E I T) (r : Result (LookupResult E (MerklePath E I T) (MerklePath E I T)))
      → all_children is_pruned ds ≡ false
      → (forget_branch t ds r).0 ≡ branch t ds
  forget_branch-open t ds r p = ground arith

  forget_branch-keeps :
      (t : T) (cs ds : Nodes E I T) (height : ℕ) (path : List ℕ) (b : ℕ) (d : MerkleNode E I T)
      (r : Result (LookupResult E (MerklePath E I T) (MerklePath E I T))) {e : E}
      {proof : MerklePath E I T}
      → get_elem? path height ≡ some b
      → child? ds b ≡ some d
      → redact ds ≡ redact cs
      → lookup_internal d height path ≡ ok (found e proof)
      → lookup_internal (forget_branch t ds r).0 (suc height) path
        ≡ ok (push_branch cs (found e proof))
  forget_branch-keeps t cs ds height path b d r at k same l =
      rw
        (forget_branch-open t ds r (all_children-child ds b k (is_pruned_of_found d height path l)))
        (lookup_internal-branch t ds height path b d at k ∙ rw l (rw same))

  forget_branch_self :
      (t : T) (ds : Nodes E I T) (height : ℕ) (path : List ℕ) (b : ℕ) (d : MerkleNode E I T)
      (r : Result (LookupResult E (MerklePath E I T) (MerklePath E I T)))
      → get_elem? path height ≡ some b
      → child? ds b ≡ some d
      → lookup_internal d height path ≡ ok not_in_memory
      → lookup_internal (forget_branch t ds r).0 (suc height) path ≡ ok not_in_memory
  forget_branch_self t ds height path b d r at k l = elim (forget_branch-cases t ds r) [
    | inl stays ↦ rw stays (lookup_internal-branch t ds height path b d at k ∙ rw l)
    | inr gone ↦ rw gone (unfold lookup_internal in refl)
  ]

module _ {E I T : Type 0} ⦃v : NodeValue T⦄ ⦃h : DigestAlgorithm E I T⦄ (arity : ℕ) where
  forget_keeps_branch :
      (t : T) (cs : Nodes E I T) (height : ℕ) (p q : List ℕ) (b d : ℕ) (c x : MerkleNode E I T)
      {e : E} {below : MerklePath E I T}
      → get_elem? p height ≡ some b
      → child? cs b ≡ some c
      → get_elem? q height ≡ some d
      → child? (set_child cs b (forget_internal c height p).0) d ≡ some x
      → lookup_internal x height q ≡ ok (found e below)
      → lookup_internal (forget_internal (branch t cs) (suc height) p).0 (suc height) q
        ≡ ok (push_branch cs (found e below))
  forget_keeps_branch t cs height p q b d c x at k at' k' l =
      rw (forget_internal-branch t cs height p b c at k) (
        forget_branch-keeps t cs (set_child cs b (forget_internal c height p).0) height q d x
          (forget_internal c height p).1 at' k'
          (redact-set_child cs b _ k (forget_internal-redact c height p).0) l)

  -- A lookup of another position finds what it found before, with the same proof.
  pub forget_internal-keeps :
      (node : MerkleNode E I T) (height : ℕ) (p q : List ℕ) {e : E} {proof : MerklePath E I T}
      → IsValid arity node height
      → IsPath arity height p
      → Apart height p q
      → lookup_internal node height q ≡ ok (found e proof)
      → lookup_internal (forget_internal node height p).0 height q ≡ ok (found e proof)
  forget_internal-keeps node zero p q valid path apart l = absurd apart
  forget_internal-keeps empty (suc height) p q valid path apart l = unfold forget_internal in l
  forget_internal-keeps (branch t cs) (suc height) p q {e} {proof} (w, _, all) ((b, at, lt), path)
        apart l =
      let (c, k) = child_in_range cs b (omega arith) in
      let (d, x, r, at', k', below, pushed) = lookup_internal-branch_ok t cs height q _ l in
      let (inner, is_found, _) = push_branch-eq-found cs r pushed in
      let finish : ok (push_branch cs (found e inner)) ≡ ok (found e proof) =
        ap ok (ap (push_branch cs) (sym is_found) ∙ pushed) in
      elim apart [
        | inl ne ↦
            let differ : b ≢ d = λ same. ne (at ∙ ap some same ∙ sym at') in
            forget_keeps_branch t cs height p q b d c x at k at'
              (child-set_child_ne cs b d _ differ ∙ k') (below ∙ ap ok is_found)
            ∙ finish
        | inr (eq, deeper) ↦
            let same : d ≡ b = cc in
            let same_child : x ≡ c = cc in
            forget_keeps_branch t cs height p q b b c _ at k (sym eq ∙ at)
              (child-set_child cs b _ (child-lt-width cs b k))
              (forget_internal-keeps c height p q
                (All-child (λ c. IsValid arity c height) cs b all k) path deeper
                (ap (λ y. lookup_internal y height q) (sym same_child) ∙ below ∙ ap ok is_found))
            ∙ finish
      ]
  forget_internal-keeps (leaf t i e) (suc height) p q valid path apart l = absurd valid
  forget_internal-keeps (forgetten_subtree t) (suc height) p q valid path apart l =
      unfold forget_internal in l

  -- The position itself is no longer in memory.
  pub forget_internal_self :
      (node : MerkleNode E I T) (height : ℕ) (p : List ℕ) {e : E} {proof : MerklePath E I T}
      → lookup_internal node height p ≡ ok (found e proof)
      → lookup_internal (forget_internal node height p).0 height p ≡ ok not_in_memory
  forget_internal_self empty height p l = unfold forget_internal lookup_internal in cc
  forget_internal_self (branch t cs) zero p l = unfold forget_internal lookup_internal in cc
  forget_internal_self (branch t cs) (suc height) p l =
      let (b, c, r, at, k, below, pushed) = lookup_internal-branch_ok t cs height p _ l in
      let (inner, is_found, _) = push_branch-eq-found cs r pushed in
      rw (forget_internal-branch t cs height p b c at k) (
        forget_branch_self t _ height p b _ (forget_internal c height p).1 at
          (child-set_child cs b _ (child-lt-width cs b k))
          (forget_internal_self c height p (below ∙ ap ok is_found)))
  forget_internal_self (leaf t i e) height p l = unfold forget_internal lookup_internal in refl
  forget_internal_self (forgetten_subtree t) height p l =
      unfold forget_internal lookup_internal in refl

  forget_branch-IsValid :
      (t : T) (ds : Nodes E I T) (height : ℕ)
      (r : Result (LookupResult E (MerklePath E I T) (MerklePath E I T)))
      → IsValid arity (branch t ds) (suc height)
      → IsValid arity (forget_branch t ds r).0 (suc height)
  forget_branch-IsValid t ds height r valid = elim (forget_branch-cases t ds r) [
    | inl stays ↦ rw stays valid
    | inr gone ↦ rw gone tt
  ]

  -- The node stays well formed.
  pub forget_internal-IsValid :
      (node : MerkleNode E I T) (height : ℕ) (p : List ℕ)
      → IsValid arity node height
      → IsPath arity height p
      → IsValid arity (forget_internal node height p).0 height
  forget_internal-IsValid empty height p valid path = unfold forget_internal in tt
  forget_internal-IsValid (branch t cs) zero p valid path = absurd valid
  forget_internal-IsValid (branch t cs) (suc height) p (w, d, all) ((b, at, lt), path) =
      let (c, k) = child_in_range cs b (omega arith) in
      let child = All-child (λ c. IsValid arity c height) cs b all k in
      let c' = (forget_internal c height p).0 in
      let kept : digest_branch (set_child cs b c') ≡ digest_branch cs =
        unfold digest_branch in
        ap h.digest (values-set_child cs b c' k (forget_internal-redact c height p).1) in
      rw (forget_internal-branch t cs height p b c at k) (
        forget_branch-IsValid t (set_child cs b c') height (forget_internal c height p).1 (
          width-set_child cs b c' ∙ w,
          kept ∙ d,
          All-set_child (λ c. IsValid arity c height) cs b all
              (forget_internal-IsValid c height p child path),
        ))
  forget_internal-IsValid (leaf t i e) height p valid path = unfold forget_internal in tt
  forget_internal-IsValid (forgetten_subtree t) height p valid path = unfold forget_internal in tt
