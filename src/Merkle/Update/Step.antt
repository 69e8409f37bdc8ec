-- ===== src/Merkle/Update/Step.antt =====
-- One step of `update_with_internal`, and what a node answers with its proofs left out.
use jellyfish.Prelude.{
  ℕ, zero, suc, ◌≡◌, refl, sym, ◌∙◌, ◌⊎◌, inl, inr, Bool, true, Option, some, List, get_elem?,
  Result, ok, err, panic, ◌>>=◌, arith,
}
use jellyfish.Merkle.Node.{
  MerkleNode, empty, branch, leaf, forgetten_subtree, Nodes, nil, cons, MerklePath, NodeValue,
  DigestAlgorithm, child?, set_child, empties, is_empty, is_forgotten, all_children, digest_branch,
}
use jellyfish.Merkle.Lookup.{
  LookupResult, found, not_in_memory, not_found, push_branch, lookup_internal,
}
use jellyfish.Merkle.Update.{Updated, update_branch, grow_branch, test_child, update_with_internal}

module _ {F P N : Type 0} where
  -- `LookupResult<E, (), ()>`
  abbrev pub erase : LookupResult F P N → LookupResult F (Unit {0}) (Unit {0})
  erase (found e proof) = found e tt
  erase not_in_memory = not_in_memory
  erase (not_found proof) = not_found tt

module _ {E I T : Type 0} ⦃v : NodeValue T⦄ where
  -- What stands at a path.
  unfoldable pub read :
      MerkleNode E I T → ℕ → List ℕ → Result (LookupResult E (Unit {0}) (Unit {0}))
  read node height path = lookup_internal node height path >>= λ r. ok (erase r)

  erase-push_branch :
      (cs : Nodes E I T) (r : Result (LookupResult E (MerklePath E I T) (MerklePath E I T)))
      → ((r >>= λ l. ok (push_branch cs l)) >>= λ l. ok (erase l)) ≡ (r >>= λ l. ok (erase l))
  erase-push_branch cs (ok (found e proof)) = refl
  erase-push_branch cs (ok not_in_memory) = refl
  erase-push_branch cs (ok (not_found proof)) = refl
  erase-push_branch cs (err e) = refl
  erase-push_branch cs panic = refl

  pub read-branch :
      (t : T) (cs : Nodes E I T) (height : ℕ) (path : List ℕ) (b : ℕ) (c : MerkleNode E I T)
      → get_elem? path height ≡ some b
      → child? cs b ≡ some c
      → read (branch t cs) (suc height) path ≡ read c height path
  unfolding read lookup_internal
  read-branch t cs height path b c at k = rw (at, k) (erase-push_branch cs _)

pub read-empty :
    (E I T : Type 0) ⦃v : NodeValue T⦄ (height : ℕ) (path : List ℕ)
    → read {E = E} {I = I} {T = T} empty height path ≡ ok (not_found tt)
unfolding read lookup_internal
read-empty E I T height path = refl

module _ {E I T : Type 0} where
  all_empty-child :
      (cs : Nodes E I T) (b : ℕ) {c : MerkleNode E I T}
      → all_children is_empty cs ≡ true
      → child? cs b ≡ some c
      → c ≡ empty
  all_empty-child nil b all k = cc
  all_empty-child (cons empty cs) zero all k = cc
  all_empty-child (cons (branch t ds) cs) zero all k = cc
  all_empty-child (cons (leaf t p e) cs) zero all k = cc
  all_empty-child (cons (forgetten_subtree t) cs) zero all k = cc
  all_empty-child (cons x cs) (suc b) all k = all_empty-child cs b (ground arith) k

  pub empties-child : (n b : ℕ) {c : MerkleNode E I T} → child? (empties n) b ≡ some c → c ≡ empty
  empties-child zero b k = cc
  empties-child (suc n) zero k = cc
  empties-child (suc n) (suc b) k = empties-child n b k

  pub test_child-child :
      (p : MerkleNode E I T → Bool) (cs : Nodes E I T) (b : ℕ) {c : MerkleNode E I T}
      → child? cs b ≡ some c
      → test_child p cs (some b) ≡ p c
  test_child-child p cs b k = rw (k, test_child)

  pub is_empty-eq : (c : MerkleNode E I T) → is_empty c ≡ true → c ≡ empty
  is_empty-eq empty e = refl
  is_empty-eq (branch t cs) e = cc
  is_empty-eq (leaf t p x) e = cc
  is_empty-eq (forgetten_subtree t) e = cc

module _ {E I T : Type 0} ⦃v : NodeValue T⦄ ⦃h : DigestAlgorithm E I T⦄ where
  pub update_branch-ok :
      (t : T) (ds : Nodes E I T) (b : Option ℕ) (res : Result (Updated E)) {r : Updated E}
      → (update_branch t ds b res).1 ≡ ok r
      → res ≡ ok r
  update_branch-ok t ds b (ok x) p = ground arith
  update_branch-ok t ds b (err e) p = cc
  update_branch-ok t ds b panic p = cc

  pub grow_branch-ok :
      (ds : Nodes E I T) (b : Option ℕ) (res : Result (Updated E)) {r : Updated E}
      → (grow_branch ds b res).1 ≡ ok r
      → res ≡ ok r
  grow_branch-ok ds b (ok x) p = ground arith
  grow_branch-ok ds b (err e) p = cc
  grow_branch-ok ds b panic p = cc

  -- What is left at a branch after a successful update below it.
  pub update_branch-cases :
      (t : T) (ds : Nodes E I T) (b : Option ℕ) {r : Updated E}
      → (update_branch t ds b (ok r)).1 ≡ ok r
      → ((update_branch t ds b (ok r)).0 ≡ branch t ds) × (test_child is_forgotten ds b ≡ true)
        ⊎ ((update_branch t ds b (ok r)).0 ≡ empty) × (all_children is_empty ds ≡ true)
        ⊎ ((t' : T) × ((update_branch t ds b (ok r)).0 ≡ branch t' ds) × (digest_branch ds ≡ ok t'))
  update_branch-cases t ds b p = ground arith

  pub grow_branch-cases :
      (ds : Nodes E I T) (b : Option ℕ) {r : Updated E}
      → (grow_branch ds b (ok r)).1 ≡ ok r
      → ((grow_branch ds b (ok r)).0 ≡ empty) × (test_child is_empty ds b ≡ true)
        ⊎ ((t' : T) × ((grow_branch ds b (ok r)).0 ≡ branch t' ds) × (digest_branch ds ≡ ok t'))
  grow_branch-cases ds b p = ground arith

  -- A read at a branch after a successful update below it.
  pub update_branch-read :
      (t : T) (ds : Nodes E I T) (b : Option ℕ) (res : Result (Updated E)) (height : ℕ) (q : List ℕ)
      (d : ℕ) (x : MerkleNode E I T) {r : Updated E}
      → (update_branch t ds b res).1 ≡ ok r
      → get_elem? q height ≡ some d
      → child? ds d ≡ some x
      → read (update_branch t ds b res).0 (suc height) q ≡ read x height q
  update_branch-read t ds b (ok y) height q d x p at k =
      let same = update_branch-ok t ds b (ok y) p in
      elim (update_branch-cases t ds b (p ∙ sym same)) [
        | inl (e, _) ↦ rw e (read-branch t ds height q d x at k)
        | inr (inl (e, all)) ↦
            rw (e, all_empty-child ds d all k)
              (read-empty E I T (suc height) q ∙ sym (read-empty E I T height q))
        | inr (inr (t', e, _)) ↦ rw e (read-branch t' ds height q d x at k)
      ]
  update_branch-read t ds b (err e) height q d x p at k = cc
  update_branch-read t ds b panic height q d x p at k = cc

  pub grow_branch-read :
      (ds : Nodes E I T) (b : Option ℕ) (res : Result (Updated E)) (height : ℕ) (q : List ℕ) (d : ℕ)
      (x : MerkleNode E I T) {r : Updated E}
      → (grow_branch ds b res).1 ≡ ok r
      → get_elem? q height ≡ some d
      → child? ds d ≡ some x
      → (test_child is_empty ds b ≡ true → x ≡ empty)
      → read (grow_branch ds b res).0 (suc height) q ≡ read x height q
  grow_branch-read ds b (ok y) height q d x p at k none_else =
      let same = grow_branch-ok ds b (ok y) p in
      elim (grow_branch-cases ds b (p ∙ sym same)) [
        | inl (e, none_here) ↦
            rw (e, none_else none_here)
              (read-empty E I T (suc height) q ∙ sym (read-empty E I T height q))
        | inr (t', e, _) ↦ rw e (read-branch t' ds height q d x at k)
      ]
  grow_branch-read ds b (err e) height q d x p at k none_else = cc
  grow_branch-read ds b panic height q d x p at k none_else = cc

module _ {E I T : Type 0} ⦃v : NodeValue T⦄ ⦃h : DigestAlgorithm E I T⦄ (arity : ℕ)
    (f : Option E → Option E) (index : I) where
  -- One step where the digit and the child are there.
  pub update-branch :
      (t : T) (cs : Nodes E I T) (height : ℕ) (path : List ℕ) (b : ℕ) (c : MerkleNode E I T)
      → get_elem? path height ≡ some b
      → child? cs b ≡ some c
      → update_with_internal arity (branch t cs) (suc height) index path f
        ≡ update_branch t
            (set_child cs b (update_with_internal arity c height index path f).0)
            (some b)
            (update_with_internal arity c height index path f).1
  unfolding update_with_internal
  update-branch t cs height path b c at k = rw (at, k)

  pub update-empty :
      (height : ℕ) (path : List ℕ) (b : ℕ)
      → get_elem? path height ≡ some b
      → child? (empties {E = E} {I = I} {T = T} arity) b ≡ some empty
      → update_with_internal {T = T} arity empty (suc height) index path f
        ≡ grow_branch
            (set_child
              (empties arity)
              b
              (update_with_internal {T = T} arity empty height index path f).0)
            (some b)
            (update_with_internal {T = T} arity empty height index path f).1
  unfolding update_with_internal
  update-empty height path b at k = rw (at, k)
