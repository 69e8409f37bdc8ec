-- ===== src/Merkle/Update/Keeps.antt =====
-- Well-formed nodes under updates, and the count of leaves.
use mathlib.Core.Option.{some-injective}
use jellyfish.Prelude.{
  ℕ, zero, suc, ◌+◌, ◌≡◌, refl, ap, sym, ◌∙◌, inl, inr, true, false, Option, none, some, List,
  get_elem?, Result, ok, Result-cases, arith,
}
use jellyfish.Merkle.Node.{
  MerkleNode, empty, branch, leaf, forgetten_subtree, Nodes, nil, cons, NodeValue, DigestAlgorithm,
  child?, set_child, empties, is_empty, is_forgotten, all_children,
}
use jellyfish.Merkle.Lookup.{descend}
use jellyfish.Merkle.Update.{
  Updated, update_leaf, insert_leaf, update_branch, grow_branch, update_with_internal,
}
use jellyfish.Merkle.Update.Step.{
  update_branch-ok, update_branch-cases, grow_branch-ok, grow_branch-cases, update-branch,
  update-empty, test_child-child,
}
use jellyfish.Merkle.Update.Read.{new_child}
use jellyfish.Merkle.Valid.{
  All-child, All-set_child, All-empties, IsValid, IsPath, child_in_range, child-set_child,
  width-set_child, width-empties,
}

module _ {E I T : Type 0} where
  unfoldable mutual
    -- The leaves in memory.
    pub count_leaves : MerkleNode E I T → ℕ
    count_leaves empty = 0
    count_leaves (branch t cs) = count_children cs
    count_leaves (leaf t p e) = 1
    count_leaves (forgetten_subtree t) = 0

    pub count_children : Nodes E I T → ℕ
    count_children nil = 0
    count_children (cons c cs) = count_leaves c + count_children cs

  pub count-set_child :
      (cs : Nodes E I T) (b : ℕ) {c : MerkleNode E I T} (c' : MerkleNode E I T)
      → child? cs b ≡ some c
      → count_children (set_child cs b c') + count_leaves c ≡ count_children cs + count_leaves c'
  unfolding count_leaves count_children
  count-set_child nil b c' k = cc
  count-set_child (cons x cs) zero c' k = omega (arith, ap count_leaves (some-injective _ _ k))
  count-set_child (cons x cs) (suc b) c' k = omega (arith, count-set_child cs b c' k)

  pub all_empty-count : (cs : Nodes E I T) → all_children is_empty cs ≡ true → count_children cs ≡ 0
  unfolding count_leaves count_children
  all_empty-count nil all = refl
  all_empty-count (cons empty cs) all = omega (arith, all_empty-count cs all)
  all_empty-count (cons (branch t ds) cs) all = cc
  all_empty-count (cons (leaf t p e) cs) all = cc
  all_empty-count (cons (forgetten_subtree t) cs) all = cc

  set_child_self :
      (cs : Nodes E I T) (b : ℕ) {c : MerkleNode E I T}
      → child? cs b ≡ some c
      → set_child cs b c ≡ cs
  set_child_self nil b k = refl
  set_child_self (cons x cs) zero k = rw (some-injective _ _ k)
  set_child_self (cons x cs) (suc b) k = ap (cons x) (set_child_self cs b k)

pub count-empties :
    (E I T : Type 0) (n : ℕ) → count_children {E = E} {I = I} {T = T} (empties n) ≡ 0
unfolding count_leaves count_children
count-empties E I T zero = refl
count-empties E I T (suc n) = omega (arith, count-empties E I T n)

module _ {E I T : Type 0} ⦃v : NodeValue T⦄ ⦃h : DigestAlgorithm E I T⦄ where
  update_branch-is_forgotten :
      (t : T) (ds : Nodes E I T) (b : Option ℕ) (res : Result (Updated E))
      → is_forgotten (update_branch t ds b res).0 ≡ false
  update_branch-is_forgotten t ds b res = ground arith

  leaf-IsValid :
      (t : T) (i : I) (e : E) (arity : ℕ) (o : Option E)
      → IsValid arity (leaf t i e) 0
      → IsValid arity (update_leaf t i e o).0 0
  leaf-IsValid t i e arity none valid = tt
  leaf-IsValid t i e arity (some e') valid = elim (Result-cases (h.digest_leaf i e')) [
    | inl (t', d) ↦ rw d d
    | inr (inl (x, d)) ↦ rw d valid
    | inr (inr d) ↦ rw d valid
  ]

  grow_branch-is_forgotten :
      (ds : Nodes E I T) (b : Option ℕ) (res : Result (Updated E))
      → is_forgotten (grow_branch ds b res).0 ≡ false
  grow_branch-is_forgotten ds b res = ground arith

insert-IsValid :
    (E I T : Type 0) ⦃v : NodeValue T⦄ ⦃h : DigestAlgorithm E I T⦄ (index : I) (arity : ℕ)
    (o : Option E)
    → IsValid {T = T} arity (insert_leaf index o).0 0
insert-IsValid E I T index arity none = tt
insert-IsValid E I T ⦃v⦄ ⦃h⦄ index arity (some e) = elim (Result-cases (h.digest_leaf index e)) [
  | inl (t, d) ↦ rw d d
  | inr (inl (x, d)) ↦ rw d tt
  | inr (inr d) ↦ rw d tt
]

module _ {E I T : Type 0} ⦃v : NodeValue T⦄ ⦃h : DigestAlgorithm E I T⦄ (arity : ℕ)
    (f : Option E → Option E) (index : I) where
  -- Nothing becomes forgotten by an update: the node was so before.
  update-forgotten :
      (node : MerkleNode E I T) (height : ℕ) (p : List ℕ)
      → is_forgotten (update_with_internal arity node height index p f).0 ≡ true
      → (update_with_internal arity node height index p f).0 ≡ node
  unfolding update_with_internal
  update-forgotten empty zero p e = ground arith
  update-forgotten empty (suc height) p e =
      let left : Nodes E I T × Result (Updated E) =
        descend (empties arity) (get_elem? p height)
          (λ c. update_with_internal arity c height index p f) in
      cc (grow_branch-is_forgotten left.0 (get_elem? p height) left.1)
  update-forgotten (branch t cs) zero p e = refl
  update-forgotten (branch t cs) (suc height) p e =
      let left : Nodes E I T × Result (Updated E) =
        descend cs (get_elem? p height) (λ c. update_with_internal arity c height index p f) in
      cc (update_branch-is_forgotten t left.0 (get_elem? p height) left.1)
  update-forgotten (leaf t i x) height p e = ground arith
  update-forgotten (forgetten_subtree t) height p e = refl

  -- A successful update keeps the node well formed.
  pub update-IsValid :
      (node : MerkleNode E I T) (height : ℕ) (p : List ℕ) {r : Updated E}
      → IsValid arity node height
      → IsPath arity height p
      → (update_with_internal arity node height index p f).1 ≡ ok r
      → IsValid arity (update_with_internal arity node height index p f).0 height
  update-IsValid empty zero p valid path done =
      unfold update_with_internal in insert-IsValid E I T index arity (f none)
  update-IsValid empty (suc height) p {r} valid ((b, at, lt), path) done =
      let next = update_with_internal {T = T} arity empty height index p f in
      let (k, k') = new_child arity f index b next.0 lt in
      let ds = set_child (empties arity) b next.0 in
      let step = update-empty arity f index height p b at k in
      let done' : (grow_branch ds (some b) next.1).1 ≡ ok r = sym (ap (λ r. r.1) step) ∙ done in
      let below = grow_branch-ok ds (some b) next.1 done' in
      let ih = update-IsValid empty height p tt path below in
      let built : (grow_branch ds (some b) (ok r)).1 ≡ ok r =
        ap (λ x. (grow_branch ds (some b) x).1) (sym below) ∙ done' in
      rw (step, below)
        (elim (grow_branch-cases ds (some b) built) [
          | inl (e, _) ↦ rw e tt
          | inr (t', e, d) ↦ rw e (
            width-set_child (empties arity) b next.0 ∙ width-empties E I T arity,
            d,
            All-set_child (λ c. IsValid arity c height) (empties arity) b
                (All-empties (λ c. IsValid arity c height) arity tt) ih,
          )
        ])
  update-IsValid (branch t cs) zero p valid path done = absurd valid
  update-IsValid (branch t cs) (suc height) p {r} (w, digested, all) ((b, at, lt), path) done =
      let (c, k) = child_in_range cs b (omega arith) in
      let next = update_with_internal arity c height index p f in
      let ds = set_child cs b next.0 in
      let step = update-branch arity f index t cs height p b c at k in
      let done' : (update_branch t ds (some b) next.1).1 ≡ ok r = sym (ap (λ r. r.1) step) ∙ done in
      let below = update_branch-ok t ds (some b) next.1 done' in
      let ih =
        update-IsValid c height p (All-child (λ c. IsValid arity c height) cs b all k) path below in
      let built : (update_branch t ds (some b) (ok r)).1 ≡ ok r =
        ap (λ x. (update_branch t ds (some b) x).1) (sym below) ∙ done' in
      rw (step, below)
        (elim (update_branch-cases t ds (some b) built) [
          | inl (e, gone) ↦
              let c_gone =
                sym (test_child-child is_forgotten ds b (child-set_child cs b next.0 (omega arith)))
                ∙ gone in
              let same : ds ≡ cs =
                ap (set_child cs b) (update-forgotten c height p c_gone) ∙ set_child_self cs b k in
              rw (e, same) (w, digested, all)
          | inr (inl (e, _)) ↦ rw e tt
          | inr (inr (t', e, d)) ↦ rw e (
            width-set_child cs b next.0 ∙ w,
            d,
            All-set_child (λ c. IsValid arity c height) cs b all ih,
          )
        ])
  update-IsValid (leaf t i x) zero p valid path done =
      unfold update_with_internal in leaf-IsValid t i x arity (f (some x)) valid
  update-IsValid (leaf t i x) (suc height) p valid path done = absurd valid
  update-IsValid (forgetten_subtree t) height p valid path done = unfold update_with_internal in tt
