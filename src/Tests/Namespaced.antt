-- ===== src/Tests/Namespaced.antt =====
-- Digests of namespaced nodes.
use native.Mathlib.Decide.{ℕ_discrete}
use jellyfish.Prelude.{ℕ, ◌≤◌, ◌≡◌, refl, [], ◌∷◌, ◌++◌, ok, err, internal_error, arith}
use jellyfish.Merkle.Namespaced.{
  NamespacedHash, BindNamespace, default_node, namespaced_digest, InOrder,
  namespaced_digest-InOrder, namespaced_digest-default,
}
use jellyfish.Tests.Hash.{Term, leaf_term, chain, term_value, term_digest, Term-discrete}

-- A commitment that forgets the namespace: the order of the namespaces does not depend on it.
abbrev bind_hash : BindNamespace ℕ Term
bind_hash = record { generate_namespaced_commitment = λ n. n.hash; get_namespace = λ e. e }

abbrev node_in : ℕ → NamespacedHash Term
node_in n = record { min_namespace = n; max_namespace = n; hash = leaf_term n n }

abbrev digest_of_three : NamespacedHash Term
digest_of_three = record {
  min_namespace = 2;
  max_namespace = 5;
  hash = chain (leaf_term 2 2 ∷ leaf_term 5 5 ∷ []);
}

digest_run :
    namespaced_digest term_digest bind_hash (node_in 2 ∷ default_node ∷ node_in 5 ∷ [])
    ≡ ok digest_of_three
unfolding namespaced_digest Term-discrete ℕ_discrete
digest_run = refl

out_of_order_run :
    namespaced_digest term_digest bind_hash (node_in 5 ∷ node_in 2 ∷ [])
    ≡ err (internal_error "Namespace Merkle tree leaves are out of order")
unfolding namespaced_digest Term-discrete ℕ_discrete
out_of_order_run = refl

namespaced_digest-InOrder_example :
    (◌≡◌ {A = ℕ} 2 2) × InOrder 2 (default_node ∷ node_in 5 ∷ []) 5 × (◌≤◌ 2 5)
namespaced_digest-InOrder_example =
    namespaced_digest-InOrder term_digest bind_hash (node_in 2) (default_node ∷ node_in 5 ∷ [])
      digest_of_three (omega arith, (omega arith, (omega arith, tt))) digest_run

namespaced_digest-default_example :
    namespaced_digest term_digest bind_hash (node_in 2 ∷ [] ++ default_node ∷ node_in 5 ∷ [])
    ≡ namespaced_digest term_digest bind_hash (node_in 2 ∷ [] ++ node_in 5 ∷ [])
namespaced_digest-default_example =
    namespaced_digest-default term_digest bind_hash (node_in 2) [] (node_in 5 ∷ [])
