-- ===== src/Relation/Gadgets/Sum.antt =====
-- The sum of a list of variables: `sum` of relation/src/gadgets/arithmetic.rs and `next_multiple` of
-- relation/src/gadgets/utils.rs.
pub mod Lists
pub mod Rounds
pub mod Total
use Prim.Native.Nat.{compare, Ordering}
use jellyfish.Prelude.{
  ℕ, zero, suc, ◌+◌, ◌-◌, ◌*◌, ◌/◌, Bool, ◌||◌, ◌==◌, if◌then◌else◌, List, [], ◌∷◌, length,
  get_elem?,
}
use jellyfish.Relation.Gates.{Field, Four, four, ◌⊕◌}
use jellyfish.Relation.Circuit.Outcome.{
  parameter_error, internal_error, Outcome, returned, failed, pure, fail, inspect, from_option,
  ◌>>=◌, ◌>>◌,
}
use jellyfish.Relation.Circuit.State.{row}
use jellyfish.Relation.Circuit.Operations.{Op, check_vars_bound, create_variable}
use jellyfish.Relation.Gadgets.Arithmetic.{witness_all, lc, lc_gate}

unfoldable pub next_multiple : ℕ → ℕ → Outcome ℕ
next_multiple current divisor =
    if (divisor == 0) || (divisor == 1)
    then failed (internal_error "can only be a multiple of divisor >= 2")
    else elim (compare current divisor) [
      | Ordering.eq ↦ returned current
      | Ordering.lt ↦ returned divisor
      | Ordering.gt ↦ returned ((current / divisor + 1) * divisor)
    ]

-- `Vec::resize`
abbrev pub resize {ℓ} : {A : Type ℓ} → ℕ → A → List A → List A
resize zero z xs = []
resize (suc n) z [] = z ∷ resize n z []
resize (suc n) z (x ∷ xs) = x ∷ resize n z xs

module _ {F : Type 0} where
  -- An index expression on a vector of variables.
  abbrev pub nth : List ℕ → ℕ → Op F ℕ
  nth xs i = inspect λ c. from_option (get_elem? xs i)

module _ {F : Type 0} ⦃f : Field F⦄ where
  -- `.iter().sum()`
  abbrev pub total_from : F → List F → F
  total_from v [] = v
  total_from v (x ∷ xs) = total_from (v ⊕ x) xs

  abbrev pub ones : Four F
  ones = four f.one f.one f.one f.one

  -- The loop, for the rounds that are left, the index of the next, and the accumulator; `rate` is 3.
  unfoldable pub sum_rounds : List ℕ → ℕ → ℕ → ℕ → Op F ℕ
  sum_rounds padded zero i accum = pure accum
  sum_rounds padded (suc rounds) i accum = do
    a ← nth padded (3 * i - 2)
    b ← nth padded (3 * i - 1)
    d ← nth padded (3 * i)
    next ← lc (four accum a b d) ones
    sum_rounds padded rounds (suc i) next

  -- The last round, whose output is the sum.
  abbrev pub final_round : List ℕ → ℕ → ℕ → ℕ → Op F (Unit {0})
  final_round padded padded_len sum accum = do
    a ← nth padded (padded_len - 3)
    b ← nth padded (padded_len - 2)
    d ← nth padded (padded_len - 1)
    lc_gate (row accum a b d sum) ones

  unfoldable pub sum : List ℕ → Op F ℕ
  sum [] = fail (parameter_error "Sum over an empty slice of variables is undefined")
  sum (x ∷ xs) = do
    check_vars_bound (x ∷ xs)
    vals ← witness_all (x ∷ xs)
    sum ← create_variable (total_from f.zero vals)
    multiple ← inspect λ c. next_multiple (length (x ∷ xs) - 1) 3
    first ← nth (resize (multiple + 1) 0 (x ∷ xs)) 0
    accum ← sum_rounds (resize (multiple + 1) 0 (x ∷ xs)) ((multiple + 1) / 3 - 1) 1 first
    final_round (resize (multiple + 1) 0 (x ∷ xs)) (multiple + 1) sum accum
    pure sum
