-- ===== src/Relation/Gadgets/Sum/Rounds.antt =====
-- What the rounds of `sum` compute, three summands at a time.
use jellyfish.Prelude.{
  ℕ, zero, suc, ◌+◌, ◌*◌, ◌<◌, ◌≡◌, refl, ap, ◌∙◌, List, [], ◌∷◌, ◌++◌, some, length, get_elem?,
  drop, arith,
}
use jellyfish.Relation.Gates.{Field, four, ◌⊕◌, ◌⊗◌}
use jellyfish.Relation.Gates.Meaning.{IsField, IsCommutative}
use jellyfish.Relation.Circuit.Outcome.{returned, returned-then, from_option, ◌>>=◌}
use jellyfish.Relation.Circuit.State.{PlonkCircuit}
use jellyfish.Relation.Circuit.Model.{IsOpen}
use jellyfish.Relation.Circuit.Grows.{Grows-IsOpen, Grows-num_vars}
use jellyfish.Relation.Circuit.Realises.{Realises, Realises-pure}
use jellyfish.Relation.Circuit.Compose.{Realises-then, Realises-same}
use jellyfish.Relation.Gadgets.Arithmetic.{lc}
use jellyfish.Relation.Gadgets.Runs.{AllBelow, AllBelow-le}
use jellyfish.Relation.Gadgets.Computes.{lc-Realises}
use jellyfish.Relation.Gadgets.Sum.{nth, ones, sum_rounds}
use jellyfish.Relation.Gadgets.Sum.Lists.{drop-three, summed, summed-local}

pub data Triple : Type 0 where
  triple : ℕ → ℕ → ℕ → Triple

abbrev pub flatten : List Triple → List ℕ
flatten [] = []
flatten (triple a b d ∷ ts) = a ∷ b ∷ d ∷ flatten ts

pub length-flatten : (ts : List Triple) → length (flatten ts) ≡ 3 * length ts
length-flatten [] = omega arith
length-flatten (triple a b d ∷ ts) = omega (arith, length-flatten ts)

-- A list of as many triples as there are, and three elements more.
pub split_triples :
    (k : ℕ) (xs : List ℕ)
    → length xs ≡ 3 * suc k
    → (ts : List Triple) × (a : ℕ) × (b : ℕ) × (d : ℕ) × (length ts ≡ k)
      × (xs ≡ flatten ts ++ a ∷ b ∷ d ∷ [])
split_triples zero (a ∷ b ∷ d ∷ []) l = ([], a, b, d, refl, refl)
split_triples (suc k) (a ∷ b ∷ d ∷ xs) l =
    let (ts, p, q, r, count, same) = split_triples k xs (omega arith) in
    (triple a b d ∷ ts, p, q, r, ap suc count, ap (λ l. a ∷ b ∷ d ∷ l) same)
split_triples k [] l = absurd (omega arith)
split_triples k (a ∷ []) l = absurd (omega arith)
split_triples k (a ∷ b ∷ []) l = absurd (omega arith)
split_triples zero (a ∷ b ∷ d ∷ e ∷ xs) l = absurd (omega arith)

module _ {F : Type 0} where
  pub nth-runs :
      (xs : List ℕ) {i j x : ℕ} (c : PlonkCircuit F)
      → i ≡ j
      → get_elem? xs j ≡ some x
      → nth xs i c ≡ (returned x, c)
  nth-runs xs c same found = ap (λ o. (from_option o, c)) (ap (get_elem? xs) same ∙ found)

module _ {F : Type 0} ⦃f : Field F⦄ ⦃law : IsField f⦄ ⦃comm : IsCommutative f⦄ where
  pub lc_ones : (p q r s : F) → f.one ⊗ p ⊕ f.one ⊗ q ⊕ f.one ⊗ r ⊕ f.one ⊗ s ≡ p ⊕ q ⊕ r ⊕ s
  lc_ones p q r s = rw (law.one_mul p, law.one_mul q, law.one_mul r, law.one_mul s)

  pub sum_rounds-Realises :
      (ts : List Triple) (zs padded : List ℕ) (n i accum : ℕ) (c : PlonkCircuit F)
      → IsOpen c
      → n + 2 ≡ 3 * i
      → drop n padded ≡ flatten ts ++ zs
      → accum < c.num_vars
      → AllBelow c.num_vars (flatten ts)
      → Realises (sum_rounds padded (length ts) i accum) (λ w. summed (w accum) w (flatten ts)) c
  unfolding sum_rounds
  sum_rounds-Realises [] zs padded n i accum c o index rest accum_in below =
      Realises-pure c accum accum_in
  sum_rounds-Realises (triple a b d ∷ ts) zs padded n i accum c o index rest accum_in below =
      let (at_a, at_b, at_d, left) = drop-three n padded rest in
      let (a_in, (b_in, (d_in, ts_in))) = below in
      let p = lc-Realises c o accum a b d (accum_in, a_in, b_in, d_in) f.one f.one f.one f.one in
      Realises-same (sum_rounds padded (suc (length ts)) i accum)
        (lc (four accum a b d) ones >>= λ next. sum_rounds padded (length ts) (suc i) next) _ c
        (returned-then _ _ (nth-runs padded c (omega arith) at_a) (
          returned-then _ _ (nth-runs padded c (omega arith) at_b)
            (returned-then _ _ (nth-runs padded c (omega arith) at_d) refl)))
        (Realises-then (lc (four accum a b d) ones)
          (λ w. f.one ⊗ w accum ⊕ f.one ⊗ w a ⊕ f.one ⊗ w b ⊕ f.one ⊗ w d) c o p
          (λ w w' agree. rw (agree accum accum_in, agree a a_in, agree b b_in, agree d d_in))
          (λ next. sum_rounds padded (length ts) (suc i) next)
          (λ w. summed (w p.result) w (flatten ts))
          (λ w. summed (w accum) w (flatten (triple a b d ∷ ts)))
          (λ w w' agree.
            summed-local _ (flatten (triple a b d ∷ ts)) _ _ w w' below agree
              (agree accum accum_in))
          (λ w pinned e.
            ap (λ v. summed v w (flatten ts)) (e ∙ lc_ones (w accum) (w a) (w b) (w d)))
          (sum_rounds-Realises ts zs padded (suc (suc (suc n))) (suc i) p.result p.after
            (Grows-IsOpen p.grows o) (omega arith) left p.below
            (AllBelow-le _ _ _ (Grows-num_vars p.grows) ts_in)))
