-- ===== src/Merkle/Namespaced.antt =====
-- `NamespacedHasher` (primitives/src/merkle_tree/namespaced_merkle_tree/hash.rs), for the namespace
-- type `u64`.
use mathlib.Core.Path.{subst}
use jellyfish.Prelude.{
  ℕ, ◌≤◌, ◌≡◌, refl, ap, sym, Bool, true, Bool-cases, ◌⊎◌, inl, inr, ◌&&◌, List, [], ◌∷◌, ◌++◌, ltb,
  ◌==◌, if◌then◌else◌, Result, ok, err, ◌>>=◌, >>=-eq-ok, ok-injective, internal_error, arith,
}
use jellyfish.Merkle.Node.{NodeValue, DigestAlgorithm}

pub record NamespacedHash (T : Type 0) : Type 0 where
  pub min_namespace : ℕ
  pub max_namespace : ℕ
  pub hash : T

-- `BindNamespace` and `Namespaced`.
pub record BindNamespace (E T : Type 0) : Type 0 where
  pub generate_namespaced_commitment : NamespacedHash T → T
  pub get_namespace : E → ℕ

module _ {T : Type 0} ⦃v : NodeValue T⦄ where
  -- `NamespacedHash::default()`
  abbrev pub default_node : NamespacedHash T
  default_node = record { min_namespace = 0; max_namespace = 0; hash = v.default }

  abbrev pub is_default : NamespacedHash T → Bool
  is_default n = n.min_namespace == 0 && (n.max_namespace == 0 && v.beq n.hash v.default)

  -- The loop over `data[1..]`: the last maximum, and the commitments that it pushes.
  abbrev pub namespaced_nodes :
      (NamespacedHash T → T) → ℕ → List (NamespacedHash T) → List T → Result (ℕ × List T)
  namespaced_nodes commit max_namespace [] nodes = ok (max_namespace, nodes)
  namespaced_nodes commit max_namespace (node ∷ rest) nodes =
      let skipped = namespaced_nodes commit max_namespace rest nodes in
      let pushed = namespaced_nodes commit node.max_namespace rest (nodes ++ commit node ∷ []) in
      if is_default node
      then skipped
      else if ltb node.min_namespace max_namespace
      then err (internal_error "Namespace Merkle tree leaves are out of order")
      else pushed

module _ {E I T : Type 0} ⦃v : NodeValue T⦄ (h : DigestAlgorithm E I T)
    (b : BindNamespace E T) where
  unfoldable pub namespaced_digest : List (NamespacedHash T) → Result (NamespacedHash T)
  namespaced_digest [] = ok default_node
  namespaced_digest (first_node ∷ rest) = do
    (max_namespace, nodes) ←
        namespaced_nodes b.generate_namespaced_commitment first_node.max_namespace rest
          (b.generate_namespaced_commitment first_node ∷ [])
    inner_hash ← h.digest nodes
    ok (record {
      min_namespace = first_node.min_namespace;
      max_namespace = max_namespace;
      hash = inner_hash;
    })

  unfoldable pub namespaced_digest_leaf : I → E → Result (NamespacedHash T)
  namespaced_digest_leaf p e =
      let namespace = b.get_namespace e in
      h.digest_leaf p e >>= λ hash.
      ok (record { min_namespace = namespace; max_namespace = namespace; hash = hash })

  -- `NamespacedHasher<H, E, I, T, N>` as a `DigestAlgorithm`.
  abbrev pub namespaced_hasher : DigestAlgorithm E I (NamespacedHash T)
  namespaced_hasher = record { digest = namespaced_digest; digest_leaf = namespaced_digest_leaf }

module _ {T : Type 0} ⦃v : NodeValue T⦄ where
  -- Nodes whose namespaces do not end before they start.
  abbrev pub AreRanged : List (NamespacedHash T) → Type 0
  AreRanged [] = Unit
  AreRanged (n ∷ ns) = (n.min_namespace ≤ n.max_namespace) × AreRanged ns

  -- The nodes that are not the default follow each other from `lo` up to `hi`.
  abbrev pub InOrder : ℕ → List (NamespacedHash T) → ℕ → Type 0
  InOrder lo [] hi = lo ≤ hi
  InOrder lo (n ∷ ns) hi =
      ((is_default n ≡ true) × InOrder lo ns hi)
      ⊎ ((lo ≤ n.min_namespace) × (n.max_namespace ≤ hi) × InOrder n.max_namespace ns hi)

  InOrder-le :
      (lo : ℕ) (ns : List (NamespacedHash T)) (hi : ℕ) → AreRanged ns → InOrder lo ns hi → lo ≤ hi
  InOrder-le lo [] hi r o = o
  InOrder-le lo (n ∷ ns) hi (r, rs) o = elim o [
    | inl (skipped, below) ↦ InOrder-le lo ns hi rs below
    | inr (start, end, below) ↦ omega arith
  ]

  namespaced_nodes-InOrder :
      (commit : NamespacedHash T → T) (lo : ℕ) (ns : List (NamespacedHash T)) (acc : List T)
      {hi : ℕ} {nodes : List T}
      → AreRanged ns
      → namespaced_nodes commit lo ns acc ≡ ok (hi, nodes)
      → InOrder lo ns hi
  namespaced_nodes-InOrder commit lo [] acc {hi} r p =
      let q : lo ≡ hi = ap (λ r. r.0) (ok-injective p) in omega arith
  namespaced_nodes-InOrder commit lo (n ∷ ns) acc {hi} {nodes} (r, rs) p =
      elim (Bool-cases (is_default n)) [
        | inl skips ↦ inl (skips, namespaced_nodes-InOrder commit lo ns acc rs (rw skips at p))
        | inr counts ↦ elim (Bool-cases (ltb n.min_namespace lo)) [
          | inl before ↦ let bad = rw (counts, before) at p in cc
          | inr after ↦
              let below =
                namespaced_nodes-InOrder commit n.max_namespace ns (acc ++ commit n ∷ []) rs
                  (rw (counts, after) at p) in
              inr (ground arith, InOrder-le n.max_namespace ns hi rs below, below)
        ]
      ]

  -- A default node is passed over.
  namespaced_nodes-default :
      (commit : NamespacedHash T → T) (lo : ℕ) (ns ms : List (NamespacedHash T)) (acc : List T)
      → namespaced_nodes commit lo (ns ++ default_node ∷ ms) acc
        ≡ namespaced_nodes commit lo (ns ++ ms) acc
  namespaced_nodes-default commit lo [] ms acc = rw ((v.beq_iff v.default v.default).1 refl) refl
  namespaced_nodes-default commit lo (n ∷ ns) ms acc = elim (Bool-cases (is_default n)) [
    | inl skips ↦ rw skips (namespaced_nodes-default commit lo ns ms acc)
    | inr counts ↦ elim (Bool-cases (ltb n.min_namespace lo)) [
      | inl before ↦ rw (counts, before) refl
      | inr after ↦
          rw (counts, after)
            (namespaced_nodes-default commit n.max_namespace ns ms (acc ++ commit n ∷ []))
    ]
  ]

module _ {E I T : Type 0} ⦃v : NodeValue T⦄ (h : DigestAlgorithm E I T)
    (b : BindNamespace E T) where
  -- Where the digest of nodes whose namespaces do not end before they start is `Ok`, it starts where
  -- the first node starts, and the nodes after the first that are not the default follow it and each
  -- other in the order of their namespaces, up to where the digest ends.
  pub namespaced_digest-InOrder :
      (n : NamespacedHash T) (ns : List (NamespacedHash T)) (d : NamespacedHash T)
      → AreRanged (n ∷ ns)
      → namespaced_digest h b (n ∷ ns) ≡ ok d
      → (d.min_namespace ≡ n.min_namespace)
        × InOrder n.max_namespace ns d.max_namespace
        × (d.min_namespace ≤ d.max_namespace)
  unfolding namespaced_digest
  namespaced_digest-InOrder n ns d (r, rs) p =
      let ((hi, nodes), looped, rest) =
        >>=-eq-ok
          (namespaced_nodes b.generate_namespaced_commitment n.max_namespace ns
            (b.generate_namespaced_commitment n ∷ []))
          _ p in
      let (inner, hashed, made) = >>=-eq-ok (h.digest nodes) _ rest in
      let end : hi ≡ d.max_namespace = ap (λ x. x.max_namespace) (ok-injective made) in
      let start : n.min_namespace ≡ d.min_namespace =
        ap (λ x. x.min_namespace) (ok-injective made) in
      let order =
        namespaced_nodes-InOrder b.generate_namespaced_commitment n.max_namespace ns _ rs looped in
      (
        sym start,
        subst (InOrder n.max_namespace ns) end order,
        omega (arith, InOrder-le n.max_namespace ns hi rs order),
      )

  -- A default node after the first does not count: the digest is that of the other nodes, so it does
  -- not tell where among them the default node stands.
  pub namespaced_digest-default :
      (n : NamespacedHash T) (ns ms : List (NamespacedHash T))
      → namespaced_digest h b (n ∷ ns ++ default_node ∷ ms) ≡ namespaced_digest h b (n ∷ ns ++ ms)
  unfolding namespaced_digest
  namespaced_digest-default n ns ms =
      ap
        (λ r. r >>= λ x. h.digest x.1 >>= λ inner_hash.
          ok (record { min_namespace = n.min_namespace; max_namespace = x.0; hash = inner_hash }))
        (namespaced_nodes-default b.generate_namespaced_commitment n.max_namespace ns ms
          (b.generate_namespaced_commitment n ∷ []))
