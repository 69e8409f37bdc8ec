-- ===== src/Merkle/Restore.antt =====
-- `remember_internal` (primitives/src/merkle_tree/internal.rs) on a pruned copy of a node, with a
-- proof that the node gave.
use mathlib.Core.Path.{subst}
use jellyfish.Prelude.{
  get_elem?-append, ℕ, zero, suc, ◌≡◌, refl, ap, sym, ◌∙◌, some, List, [], ◌∷◌, ◌++◌, true,
  get_elem?, Result, ok, err, panic, ◌>>=◌,
}
use jellyfish.Merkle.Node.{
  MerkleNode, empty, branch, leaf, forgetten_subtree, Nodes, MerklePath, NodeValue, child?,
  set_child, value,
}
use jellyfish.Merkle.Lookup.{
  LookupResult, found, not_in_memory, not_found, redact, proof_branch, push_branch, lookup_internal,
}
use jellyfish.Merkle.Remember.{remember_internal}
use jellyfish.Merkle.Valid.{child-set_child, child-lt-width}
use jellyfish.Merkle.Forget.{lookup_internal-branch}
use jellyfish.Merkle.Pruned.{All₂, All₂-child, All₂-set_child, Pruned, redact-Pruned, All₂-redact}

beq_same : {T : Type 0} ⦃v : NodeValue T⦄ (t u : T) → t ≡ u → v.beq t u ≡ true
beq_same ⦃v⦄ t u e = (v.beq_iff t u).1 e

module _ {E I T : Type 0} ⦃v : NodeValue T⦄ where
  -- The nodes of a proof and their values, along the path from a node down to its leaf.
  abbrev pub Along : MerkleNode E I T → ℕ → List ℕ → List T → MerklePath E I T → E → Type 0
  Along (leaf t i e) zero path path_values proof e' =
      (get_elem? path_values 0 ≡ some t) × (get_elem? proof 0 ≡ some (leaf t i e)) × (e ≡ e')
  Along (branch t cs) (suc height) path path_values proof e' =
      (get_elem? path_values (suc height) ≡ some t)
      × (get_elem? proof (suc height) ≡ some (proof_branch cs))
      × ((b : ℕ) × (c : MerkleNode E I T) × (get_elem? path height ≡ some b)
          × (child? cs b ≡ some c)
          × Along c height path path_values proof e')
  Along (leaf t i e) (suc height) path path_values proof e' = ⊥
  Along (branch t cs) zero path path_values proof e' = ⊥
  Along empty height path path_values proof e' = ⊥
  Along (forgetten_subtree t) height path path_values proof e' = ⊥

  pub Along-append :
      (node : MerkleNode E I T) (height : ℕ) (path : List ℕ) (pv ts : List T)
      (proof ns : MerklePath E I T) (e : E)
      → Along node height path pv proof e
      → Along node height path (pv ++ ts) (proof ++ ns) e
  Along-append empty zero path pv ts proof ns e a = absurd a
  Along-append empty (suc height) path pv ts proof ns e a = absurd a
  Along-append (leaf t i x) zero path pv ts proof ns e (at_value, at_node, same) =
      (get_elem?-append pv ts 0 at_value, get_elem?-append proof ns 0 at_node, same)
  Along-append (leaf t i x) (suc height) path pv ts proof ns e a = absurd a
  Along-append (branch t cs) zero path pv ts proof ns e a = absurd a
  Along-append (branch t cs) (suc height) path pv ts proof ns e
        (at_value, at_node, (b, c, at, k, below)) =
      (
        get_elem?-append pv ts (suc height) at_value,
        get_elem?-append proof ns (suc height) at_node,
        (b, c, at, k, Along-append c height path pv ts proof ns e below),
      )
  Along-append (forgetten_subtree t) zero path pv ts proof ns e a = absurd a
  Along-append (forgetten_subtree t) (suc height) path pv ts proof ns e a = absurd a

  -- The proof restores the node: the call returns, what it leaves is a pruned copy, and a lookup of
  -- it answers as in the full node.
  abbrev pub Restores :
      MerkleNode E I T → ℕ → List ℕ → MerkleNode E I T × Result (Unit {0}) → Type 0
  Restores node height path (n, r) =
      (r ≡ ok tt)
      × Pruned height n node
      × (lookup_internal n height path ≡ lookup_internal node height path)

  Restores-leaf :
      (node' : MerkleNode E I T) (path : List ℕ) (pv : List T) (proof : MerklePath E I T) (t : T)
      (i : I) (e : E)
      → get_elem? pv 0 ≡ some t
      → get_elem? proof 0 ≡ some (leaf t i e)
      → Pruned zero node' (leaf t i e)
      → Restores (leaf t i e) zero path (remember_internal node' zero path pv proof)
  unfolding remember_internal
  Restores-leaf empty path pv proof t i e at_value at_node p = cc
  Restores-leaf (branch t' cs) path pv proof t i e at_value at_node p = cc
  Restores-leaf (leaf t' i' e') path pv proof t i e at_value at_node p =
      rw (at_value, at_node, beq_same t' t (ap value p))
        (refl, p, ap (λ n. lookup_internal n zero path) p)
  Restores-leaf (forgetten_subtree t') path pv proof t i e at_value at_node p =
      rw (at_value, at_node, beq_same t' t (ap value p)) (refl, refl, refl)

  push_branch-same :
      (ds cs : Nodes E I T) (r : Result (LookupResult E (MerklePath E I T) (MerklePath E I T)))
      → redact ds ≡ redact cs
      → (r >>= λ l. ok (push_branch ds l)) ≡ (r >>= λ l. ok (push_branch cs l))
  push_branch-same ds cs (ok (found e proof)) p =
      ap (λ x. ok (found e (proof ++ branch v.default x ∷ []))) p
  push_branch-same ds cs (ok not_in_memory) p = refl
  push_branch-same ds cs (ok (not_found proof)) p =
      ap (λ x. ok (not_found (proof ++ branch v.default x ∷ []))) p
  push_branch-same ds cs (err e) p = refl
  push_branch-same ds cs panic p = refl

  -- From what the call does to a child of a pruned copy of the children.
  Restores-branch :
      (t : T) (ds cs : Nodes E I T) (height : ℕ) (path : List ℕ) (b : ℕ) (c d : MerkleNode E I T)
      (below : MerkleNode E I T × Result (Unit {0}))
      → get_elem? path height ≡ some b
      → child? cs b ≡ some c
      → child? ds b ≡ some d
      → All₂ (Pruned height) ds cs
      → Restores c height path below
      → Restores (branch t cs) (suc height) path (branch t (set_child ds b below.0), below.1)
  Restores-branch t ds cs height path b c d (n, r) at k k' all (done, pruned, same) =
      let all' = All₂-set_child (Pruned height) ds cs b n all k pruned in
      (
        done,
        (refl, all'),
        lookup_internal-branch t (set_child ds b n) height path b n at
              (child-set_child ds b n (child-lt-width ds b k'))
            ∙ ap (λ x. x >>= λ l. ok (push_branch (set_child ds b n) l)) same
            ∙ push_branch-same (set_child ds b n) cs (lookup_internal c height path)
                (All₂-redact height (set_child ds b n) cs all')
            ∙ sym (lookup_internal-branch t cs height path b c at k),
      )

  -- The call at a branch of the copy, and at a forgotten branch of it.
  remember-branch :
      (t' t : T) (ds cs : Nodes E I T) (height : ℕ) (path : List ℕ) (b : ℕ) (d : MerkleNode E I T)
      (pv : List T) (proof : MerklePath E I T)
      → get_elem? pv (suc height) ≡ some t
      → get_elem? proof (suc height) ≡ some (proof_branch cs)
      → get_elem? path height ≡ some b
      → child? ds b ≡ some d
      → t' ≡ t
      → remember_internal (branch t' ds) (suc height) path pv proof ≡ (
        branch t (set_child ds b (remember_internal d height path pv proof).0),
        (remember_internal d height path pv proof).1,
      )
  unfolding remember_internal
  remember-branch t' t ds cs height path b d pv proof at_value at_node at k same =
      rw (at_value, at_node, at, k, same, beq_same t t refl) refl

  remember-forgotten :
      (t' t : T) (cs : Nodes E I T) (height : ℕ) (path : List ℕ) (b : ℕ) (d : MerkleNode E I T)
      (pv : List T) (proof : MerklePath E I T)
      → get_elem? pv (suc height) ≡ some t
      → get_elem? proof (suc height) ≡ some (proof_branch cs)
      → get_elem? path height ≡ some b
      → child? (redact cs) b ≡ some d
      → t' ≡ t
      → (remember_internal d height path pv proof).1 ≡ ok tt
      → remember_internal (forgetten_subtree t') (suc height) path pv proof ≡ (
        branch t (set_child (redact cs) b (remember_internal d height path pv proof).0),
        (remember_internal d height path pv proof).1,
      )
  unfolding remember_internal
  remember-forgotten t' t cs height path b d pv proof at_value at_node at k same done =
      rw (at_value, at_node, at, k, same, beq_same t t refl, done) refl

  pub remember-Restores :
      (node' node : MerkleNode E I T) (height : ℕ) (path : List ℕ) (pv : List T)
      (proof : MerklePath E I T) (e : E)
      → Pruned height node' node
      → Along node height path pv proof e
      → Restores node height path (remember_internal node' height path pv proof)
  remember-Restores node' empty zero path pv proof e p a = absurd a
  remember-Restores node' empty (suc height) path pv proof e p a = absurd a
  remember-Restores node' (leaf t i x) zero path pv proof e p (at_value, at_node, same) =
      Restores-leaf node' path pv proof t i x at_value at_node p
  remember-Restores node' (leaf t i x) (suc height) path pv proof e p a = absurd a
  remember-Restores node' (branch t cs) zero path pv proof e p a = absurd a
  remember-Restores node' (forgetten_subtree t) zero path pv proof e p a = absurd a
  remember-Restores node' (forgetten_subtree t) (suc height) path pv proof e p a = absurd a
  remember-Restores empty (branch t cs) (suc height) path pv proof e p a = cc
  remember-Restores (leaf t' i x) (branch t cs) (suc height) path pv proof e p a = cc
  remember-Restores (branch t' ds) (branch t cs) (suc height) path pv proof e (same, all)
        (at_value, at_node, (b, c, at, k, below)) =
      let (d, k', pruned) = All₂-child (Pruned height) ds cs b all k in
      let ih = remember-Restores d c height path pv proof e pruned below in
      subst (Restores (branch t cs) (suc height) path)
        (sym (remember-branch t' t ds cs height path b d pv proof at_value at_node at k' same))
        (Restores-branch t ds cs height path b c d _ at k k' all ih)
  remember-Restores (forgetten_subtree t') (branch t cs) (suc height) path pv proof e p
        (at_value, at_node, (b, c, at, k, below)) =
      let all = redact-Pruned height cs in
      let (d, k', pruned) = All₂-child (Pruned height) (redact cs) cs b all k in
      let ih = remember-Restores d c height path pv proof e pruned below in
      subst (Restores (branch t cs) (suc height) path)
        (sym (
          remember-forgotten t' t cs height path b d pv proof at_value at_node at k' (ap value p)
            ih.0))
        (Restores-branch t (redact cs) cs height path b c d _ at k k' all ih)
