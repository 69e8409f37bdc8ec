-- ===== src/Merkle/Update/Read.antt =====
-- Reading after an update: at the index that is updated, and at the others.
use jellyfish.Prelude.{
  ℕ, zero, suc, ◌≡◌, refl, ap, sym, ◌∙◌, ◌<◌, ◌≢◌, inl, inr, Option, none, some, List, ok, ℤ, arith,
}
use jellyfish.Merkle.Node.{
  MerkleNode, empty, branch, leaf, forgetten_subtree, NodeValue, DigestAlgorithm, child?, set_child,
  empties, is_empty,
}
use jellyfish.Merkle.Lookup.{LookupResult, found, not_in_memory, not_found, lookup_internal}
use jellyfish.Merkle.Update.{
  Updated, update_leaf, insert_leaf, update_branch, grow_branch, update_with_internal,
}
use jellyfish.Merkle.Update.Step.{
  read, read-empty, read-branch, update_branch-ok, grow_branch-ok, update_branch-read,
  grow_branch-read, update-branch, update-empty, empties-child, test_child-child, is_empty-eq,
}
use jellyfish.Merkle.Valid.{
  All-child, IsValid, IsPath, Apart, child_in_range, child-set_child, child-set_child_ne,
  width-empties,
}

module _ {E : Type 0} where
  abbrev pub held : Option E → LookupResult E (Unit {0}) (Unit {0})
  held none = not_found tt
  held (some e) = found e tt

  -- What a position holds after `f` is applied to what it held.
  abbrev pub apply_at :
      (Option E → Option E)
      → LookupResult E (Unit {0}) (Unit {0})
      → LookupResult E (Unit {0}) (Unit {0})
  apply_at f (found e u) = held (f (some e))
  apply_at f not_in_memory = not_in_memory
  apply_at f (not_found u) = held (f none)

insert-result :
    (E I T : Type 0) ⦃v : NodeValue T⦄ ⦃h : DigestAlgorithm E I T⦄ (index : I) (path : List ℕ)
    (o : Option E) {d : ℤ} {old : LookupResult E (Unit {0}) (Unit {0})}
    → (insert_leaf {T = T} index o).1 ≡ ok (d, old)
    → (old ≡ not_found tt) × (read {T = T} (insert_leaf index o).0 0 path ≡ ok (held o))
unfolding read lookup_internal
insert-result E I T index path o p = ground arith

module _ {E I T : Type 0} ⦃v : NodeValue T⦄ ⦃h : DigestAlgorithm E I T⦄ (arity : ℕ)
    (f : Option E → Option E) (index : I) where
  leaf-result :
      (t : T) (i : I) (e : E) (path : List ℕ) (o : Option E) {d : ℤ}
      {old : LookupResult E (Unit {0}) (Unit {0})}
      → (update_leaf t i e o).1 ≡ ok (d, old)
      → (old ≡ found e tt) × (read (update_leaf t i e o).0 0 path ≡ ok (held o))
  unfolding read lookup_internal
  leaf-result t i e path o p = ground arith

  -- The child that an empty node gets at a digit of the path.
  pub new_child :
      (b : ℕ) (c : MerkleNode E I T)
      → b < arity
      → (child? {E = E} {I = I} {T = T} (empties arity) b ≡ some empty)
        × (child? (set_child (empties arity) b c) b ≡ some c)
  new_child b c lt =
      let (x, k) = child_in_range (empties arity) b (rw (width-empties E I T arity) lt) in
      (
        k ∙ ap some (empties-child arity b k),
        child-set_child (empties arity) b c (rw (width-empties E I T arity) lt),
      )

  -- The answer is what was read before, and the position then holds what `f` makes of it.
  pub update-read :
      (node : MerkleNode E I T) (height : ℕ) (p : List ℕ) {d : ℤ}
      {old : LookupResult E (Unit {0}) (Unit {0})}
      → IsValid arity node height
      → IsPath arity height p
      → (update_with_internal arity node height index p f).1 ≡ ok (d, old)
      → (read node height p ≡ ok old)
        × (read (update_with_internal arity node height index p f).0 height p ≡ ok (apply_at f old))
  update-read empty zero p {old} valid path done =
      unfold update_with_internal in
      let (was, now) = insert-result E I T index p (f none) done in
      (read-empty E I T zero p ∙ ap ok (sym was), now ∙ ap ok (ap (apply_at f) (sym was)))
  update-read empty (suc height) p {d} {old} valid ((b, at, lt), path) done =
      let next = update_with_internal {T = T} arity empty height index p f in
      let (k, k') = new_child b next.0 lt in
      let ds = set_child (empties arity) b next.0 in
      let step = update-empty arity f index height p b at k in
      let done' : (grow_branch ds (some b) next.1).1 ≡ ok (d, old) =
        sym (ap (λ r. r.1) step) ∙ done in
      let ih = update-read empty height p tt path (grow_branch-ok ds (some b) next.1 done') in
      (
        read-empty E I T (suc height) p ∙ sym (read-empty E I T height p) ∙ ih.0,
        rw step (
            grow_branch-read ds (some b) next.1 height p b next.0 done' at k'
              (λ e. is_empty-eq next.0 (sym (test_child-child is_empty ds b k') ∙ e))
            ∙ ih.1),
      )
  update-read (branch t cs) zero p valid path done = absurd valid
  update-read (branch t cs) (suc height) p {d} {old} (w, _, all) ((b, at, lt), path) done =
      let (c, k) = child_in_range cs b (omega arith) in
      let next = update_with_internal arity c height index p f in
      let step = update-branch arity f index t cs height p b c at k in
      let done' : (update_branch t (set_child cs b next.0) (some b) next.1).1 ≡ ok (d, old) =
        sym (ap (λ r. r.1) step) ∙ done in
      let ih =
        update-read c height p (All-child (λ c. IsValid arity c height) cs b all k) path
          (update_branch-ok t (set_child cs b next.0) (some b) next.1 done') in
      (
        read-branch t cs height p b c at k ∙ ih.0,
        rw step (
            update_branch-read t (set_child cs b next.0) (some b) next.1 height p b next.0 done' at
              (child-set_child cs b next.0 (omega arith))
            ∙ ih.1),
      )
  update-read (leaf t i e) zero p valid path done =
      unfold update_with_internal in
      let (was, now) = leaf-result t i e p (f (some e)) done in
      (unfold read lookup_internal in ap ok (sym was), now ∙ ap ok (ap (apply_at f) (sym was)))
  update-read (leaf t i e) (suc height) p valid path done = absurd valid
  update-read (forgetten_subtree t) height p valid path done =
      unfold update_with_internal read lookup_internal in (ground arith)

  -- Every other position reads as before.
  pub update-read_ne :
      (node : MerkleNode E I T) (height : ℕ) (p q : List ℕ) {r : Updated E}
      → IsValid arity node height
      → IsPath arity height p
      → IsPath arity height q
      → Apart height p q
      → (update_with_internal arity node height index p f).1 ≡ ok r
      → read (update_with_internal arity node height index p f).0 height q ≡ read node height q
  update-read_ne node zero p q valid path path' apart done = absurd apart
  update-read_ne empty (suc height) p q {r} valid ((b, at, lt), path) ((d, at', lt'), path') apart
        done =
      let next = update_with_internal {T = T} arity empty height index p f in
      let (k, k') = new_child b next.0 lt in
      let ds = set_child (empties arity) b next.0 in
      let step = update-empty arity f index height p b at k in
      let done' : (grow_branch ds (some b) next.1).1 ≡ ok r = sym (ap (λ r. r.1) step) ∙ done in
      elim apart [
        | inl ne ↦
            let differ : b ≢ d = λ same. ne (at ∙ ap some same ∙ sym at') in
            rw step (
              grow_branch-read ds (some b) next.1 height q d empty done' at'
                (child-set_child_ne (empties arity) b d next.0 differ ∙ (new_child d empty lt').0)
                (λ _. refl)
              ∙ read-empty E I T height q
              ∙ sym (read-empty E I T (suc height) q))
        | inr (eq, deeper) ↦ rw step (
            grow_branch-read ds (some b) next.1 height q b next.0 done' (sym eq ∙ at) k'
              (λ e. is_empty-eq next.0 (sym (test_child-child is_empty ds b k') ∙ e))
            ∙ update-read_ne empty height p q tt path path' deeper
                (grow_branch-ok ds (some b) next.1 done')
            ∙ read-empty E I T height q
            ∙ sym (read-empty E I T (suc height) q))
      ]
  update-read_ne (branch t cs) (suc height) p q {r} (w, _, all) ((b, at, lt), path)
        ((d, at', lt'), path') apart done =
      let (c, k) = child_in_range cs b (omega arith) in
      let (x, k') = child_in_range cs d (omega arith) in
      let next = update_with_internal arity c height index p f in
      let ds = set_child cs b next.0 in
      let step = update-branch arity f index t cs height p b c at k in
      let done' : (update_branch t ds (some b) next.1).1 ≡ ok r = sym (ap (λ r. r.1) step) ∙ done in
      elim apart [
        | inl ne ↦
            let differ : b ≢ d = λ same. ne (at ∙ ap some same ∙ sym at') in
            rw step (
              update_branch-read t ds (some b) next.1 height q d x done' at'
                (child-set_child_ne cs b d next.0 differ ∙ k')
              ∙ sym (read-branch t cs height q d x at' k'))
        | inr (eq, deeper) ↦ rw step (
            update_branch-read t ds (some b) next.1 height q b next.0 done' (sym eq ∙ at)
              (child-set_child cs b next.0 (omega arith))
            ∙ update-read_ne c height p q (All-child (λ c. IsValid arity c height) cs b all k) path
                path' deeper (update_branch-ok t ds (some b) next.1 done')
            ∙ sym (read-branch t cs height q b c (sym eq ∙ at) k))
      ]
  update-read_ne (leaf t i e) (suc height) p q valid path path' apart done = absurd valid
  update-read_ne (forgetten_subtree t) (suc height) p q valid path path' apart done =
      unfold update_with_internal in refl
