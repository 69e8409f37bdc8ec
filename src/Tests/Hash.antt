-- ===== src/Tests/Hash.antt =====
-- A hash function without collisions: it keeps what it is given.
use native.Mathlib.Decide.{ℕ_discrete}
use jellyfish.Prelude.{ℕ, ◌≡◌, refl, ◌↔◌, Bool, true, false, List, [], ◌∷◌, ok}
use jellyfish.Prelude.{ok-injective, sym, ◌∙◌}
use jellyfish.Merkle.Node.{NodeValue, DigestAlgorithm}
use jellyfish.Merkle.Sound.{IsCollisionFree}

pub data Term : Type 0 where
  blank : Term
  end : Term
  leaf_term : ℕ → ℕ → Term
  pair : Term → Term → Term

unfoldable pub Term-discrete : Discrete Term
Term-discrete = hlevel ℕ_discrete

abbrev pub is_yes : {A : Type 0} → Dec A → Bool
is_yes (yes a) = true
is_yes (no n) = false

pub is_yes_iff : {A : Type 0} (d : Dec A) → (is_yes d ≡ true) ↔ A
is_yes_iff (yes a) = ((λ _. a), (λ _. refl))
is_yes_iff (no n) = ((λ e. cc), (λ a. absurd (n a)))

instance abbrev pub term_value : NodeValue Term
term_value = record {
  default = blank;
  eq = record {
    beq = λ a b. is_yes (Term-discrete a b);
    beq_iff = λ a b. is_yes_iff (Term-discrete a b);
  };
}

abbrev pub chain : List Term → Term
chain [] = end
chain (t ∷ ts) = pair t (chain ts)

instance abbrev pub term_digest : DigestAlgorithm ℕ ℕ Term
term_digest = record { digest = λ ts. ok (chain ts); digest_leaf = λ p e. ok (leaf_term p e) }

pair_parts : (s t u w : Term) → pair s t ≡ pair u w → (s ≡ u) × (t ≡ w)
pair_parts s t u w p = (cc, cc)

chain-injective : (xs ys : List Term) → chain xs ≡ chain ys → xs ≡ ys
chain-injective [] [] p = refl
chain-injective [] (y ∷ ys) p = cc
chain-injective (x ∷ xs) [] p = cc
chain-injective (x ∷ xs) (y ∷ ys) p =
    let (head, tail) = pair_parts x (chain xs) y (chain ys) p in
    let rest = chain-injective xs ys tail in cc

chain≢blank : (xs : List Term) → ¬ (chain xs ≡ blank)
chain≢blank [] p = cc
chain≢blank (x ∷ xs) p = cc

pub term_digest-IsCollisionFree : IsCollisionFree term_value term_digest
term_digest-IsCollisionFree = record {
  digest_injective = λ xs ys t p q. chain-injective xs ys (ok-injective (p ∙ sym q));
  digest_leaf_injective = λ p q e f t a b. let same = ok-injective (a ∙ sym b) in (cc, cc);
  digest_ne_default = λ xs p. chain≢blank xs (ok-injective p);
  digest_leaf_ne_default = λ p e q. let bad = ok-injective q in cc;
}
