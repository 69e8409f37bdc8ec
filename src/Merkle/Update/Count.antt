-- ===== src/Merkle/Update/Count.antt =====
-- The `delta` of an update, against the count of leaves in memory.
use jellyfish.Prelude.{
  ℕ, zero, suc, ◌+◌, ◌≡◌, refl, ap, sym, ◌∙◌, inl, inr, Option, some, none, List, ok, ℤ, pos_part,
  neg_part, arith,
}
use jellyfish.Merkle.Node.{
  MerkleNode, empty, branch, leaf, forgetten_subtree, Nodes, NodeValue, DigestAlgorithm, set_child,
  empties, is_empty,
}
use jellyfish.Merkle.Lookup.{LookupResult}
use jellyfish.Merkle.Update.{
  Updated, update_leaf, insert_leaf, update_branch, grow_branch, update_with_internal,
}
use jellyfish.Merkle.Update.Step.{
  update_branch-ok, update_branch-cases, grow_branch-ok, grow_branch-cases, update-branch,
  update-empty, test_child-child, is_empty-eq,
}
use jellyfish.Merkle.Update.Read.{new_child}
use jellyfish.Merkle.Update.Keeps.{
  count_leaves, count_children, count-set_child, all_empty-count, count-empties,
}
use jellyfish.Merkle.Valid.{All-child, IsValid, IsPath, child_in_range}

insert-count :
    (E I T : Type 0) ⦃v : NodeValue T⦄ ⦃h : DigestAlgorithm E I T⦄ (index : I) (o : Option E)
    {d : ℤ} {old : LookupResult E (Unit {0}) (Unit {0})}
    → (insert_leaf {T = T} index o).1 ≡ ok (d, old)
    → count_leaves {T = T} (insert_leaf index o).0 + neg_part d ≡ pos_part d
unfolding count_leaves
insert-count E I T index o done = ground arith

count-empty : (E I T : Type 0) → count_leaves {E = E} {I = I} {T = T} empty ≡ 0
unfolding count_leaves
count-empty E I T = refl

count-branch :
    {E I T : Type 0} (t : T) (cs : Nodes E I T) → count_leaves (branch t cs) ≡ count_children cs
unfolding count_leaves
count-branch t cs = refl

module _ {E I T : Type 0} ⦃v : NodeValue T⦄ ⦃h : DigestAlgorithm E I T⦄ where
  leaf-count :
      (t : T) (i : I) (e : E) (o : Option E) {d : ℤ} {old : LookupResult E (Unit {0}) (Unit {0})}
      → (update_leaf t i e o).1 ≡ ok (d, old)
      → count_leaves (update_leaf t i e o).0 + neg_part d ≡ 1 + pos_part d
  unfolding count_leaves
  leaf-count t i e o done = ground arith

  -- A successful update leaves the children's leaves, whichever way it leaves the branch.
  update_branch-count :
      (t : T) (ds : Nodes E I T) (b : Option ℕ) {r : Updated E}
      → (update_branch t ds b (ok r)).1 ≡ ok r
      → count_leaves (update_branch t ds b (ok r)).0 ≡ count_children ds
  update_branch-count t ds b p = elim (update_branch-cases t ds b p) [
    | inl (e, _) ↦ rw e (unfold count_leaves in refl)
    | inr (inl (e, all)) ↦ rw (e, all_empty-count ds all) (unfold count_leaves in refl)
    | inr (inr (t', e, _)) ↦ rw e (unfold count_leaves in refl)
  ]

module _ {E I T : Type 0} ⦃v : NodeValue T⦄ ⦃h : DigestAlgorithm E I T⦄ (arity : ℕ)
    (f : Option E → Option E) (index : I) where
  pub update-count :
      (node : MerkleNode E I T) (height : ℕ) (p : List ℕ) {d : ℤ}
      {old : LookupResult E (Unit {0}) (Unit {0})}
      → IsValid arity node height
      → IsPath arity height p
      → (update_with_internal arity node height index p f).1 ≡ ok (d, old)
      → count_leaves (update_with_internal arity node height index p f).0 + neg_part d
        ≡ count_leaves node + pos_part d
  update-count empty zero p valid path done =
      unfold update_with_internal count_leaves in
      omega (arith, insert-count E I T index (f none) done)
  update-count empty (suc height) p {d} {old} valid ((b, at, lt), path) done =
      let next = update_with_internal {T = T} arity empty height index p f in
      let (k, k') = new_child arity f index b next.0 lt in
      let ds = set_child (empties arity) b next.0 in
      let step = update-empty arity f index height p b at k in
      let done' : (grow_branch ds (some b) next.1).1 ≡ ok (d, old) =
        sym (ap (λ r. r.1) step) ∙ done in
      let below = grow_branch-ok ds (some b) next.1 done' in
      let ih = update-count empty height p tt path below in
      let built : (grow_branch ds (some b) (ok (d, old))).1 ≡ ok (d, old) =
        ap (λ x. (grow_branch ds (some b) x).1) (sym below) ∙ done' in
      let moved = count-set_child (empties arity) b next.0 k in
      rw (step, below)
        (elim (grow_branch-cases ds (some b) built) [
          | inl (e, none_here) ↦ rw e (
              omega (
                arith,
                ih,
                ap count_leaves
                    (is_empty-eq next.0 (sym (test_child-child is_empty ds b k') ∙ none_here)),
              ))
          | inr (t', e, _) ↦ rw e (
              omega (
                arith,
                ih,
                moved,
                count-branch t' ds,
                count-empties E I T arity,
                count-empty E I T,
              ))
        ])
  update-count (branch t cs) zero p valid path done = absurd valid
  update-count (branch t cs) (suc height) p {d} {old} (w, _, all) ((b, at, lt), path) done =
      let (c, k) = child_in_range cs b (omega arith) in
      let next = update_with_internal arity c height index p f in
      let ds = set_child cs b next.0 in
      let step = update-branch arity f index t cs height p b c at k in
      let done' : (update_branch t ds (some b) next.1).1 ≡ ok (d, old) =
        sym (ap (λ r. r.1) step) ∙ done in
      let below = update_branch-ok t ds (some b) next.1 done' in
      let ih =
        update-count c height p (All-child (λ c. IsValid arity c height) cs b all k) path below in
      let built : (update_branch t ds (some b) (ok (d, old))).1 ≡ ok (d, old) =
        ap (λ x. (update_branch t ds (some b) x).1) (sym below) ∙ done' in
      let moved = count-set_child cs b next.0 k in
      rw (step, below, update_branch-count t ds (some b) built)
        (omega (arith, ih, moved, count-branch t cs))
  update-count (leaf t i e) zero p valid path done =
      unfold update_with_internal in unfold count_leaves in leaf-count t i e (f (some e)) done
  update-count (leaf t i e) (suc height) p valid path done = absurd valid
  update-count (forgetten_subtree t) height p valid path done =
      unfold update_with_internal count_leaves in ground arith
