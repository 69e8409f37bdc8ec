-- ===== src/Relation/Gadgets/Sum/Total.antt =====
-- What `sum` of relation/src/gadgets/arithmetic.rs computes.
use mathlib.Core.Path.{subst}
use jellyfish.Prelude.{
  ℕ, zero, suc, ◌+◌, ◌-◌, ◌*◌, ◌/◌, ◌<◌, ◌≤◌, ◌≡◌, refl, sym, ap, ◌∙◌, List, [], ◌∷◌, ◌++◌, map,
  length, get_elem?, drop, arith,
}
use jellyfish.Relation.Gates.{Field, ◌⊕◌, ◌⊗◌}
use jellyfish.Relation.Gates.Meaning.{IsField, IsCommutative}
use jellyfish.Relation.Circuit.Outcome.{returned, returned-then, pure, ◌>>◌, ◌>>=◌, >>=_assoc}
use jellyfish.Relation.Circuit.State.{row, PlonkCircuit, assigned, with_variable}
use jellyfish.Relation.Circuit.Model.{IsOpen, with_variable-IsOpen, assigned-with_variable-old}
use jellyfish.Relation.Circuit.Grows.{
  stays, gains_variable, Grows-IsOpen, Grows-num_vars, assigned-with_variable-new,
}
use jellyfish.Relation.Circuit.Agreement.{with_variable-IsSatisfied}
use jellyfish.Relation.Circuit.Effects.{create_variable-open, witness-open}
use jellyfish.Relation.Circuit.Realises.{IsLocal, Realises, Asserts}
use jellyfish.Relation.Circuit.Compose.{Realises-then-Asserts, Realises-chosen, Asserts-same}
use jellyfish.Relation.Gadgets.Arithmetic.{witness_all, lc_gate}
use jellyfish.Relation.Gadgets.Runs.{AllBelow, AllBelow-le, check_vars_bound-below}
use jellyfish.Relation.Gadgets.Computes.{lc_gate-Asserts}
use jellyfish.Relation.Gadgets.Sum.{resize, total_from, ones, sum_rounds, final_round, sum}
use jellyfish.Relation.Gadgets.Sum.Lists.{
  next_multiple-three, length-resize, AllBelow-resize, drop-three, summed, summed-local,
  summed-resize,
}
use jellyfish.Relation.Gadgets.Sum.Rounds.{
  Triple, flatten, length-flatten, split_triples, nth-runs, lc_ones, sum_rounds-Realises,
}

drop-one :
    {A : Type 0} (n : ℕ) (xs : List A) {x : A} {ys : List A}
    → drop n xs ≡ x ∷ ys
    → drop (suc n) xs ≡ ys
drop-one zero xs e = ap (λ l. drop 1 l) e
drop-one (suc n) [] e = cc
drop-one (suc n) (x ∷ xs) e = drop-one n xs e

plus_zero : (n : ℕ) → n + 0 ≡ n
plus_zero n = omega arith

pub rounds_left : (k n : ℕ) → n ≡ k → (3 * suc k + 1) / 3 - 1 ≡ n
rounds_left k n e = omega arith

plus_suc : (n m : ℕ) → n + suc m ≡ suc n + m
plus_suc n m = omega arith

pub plus_one : (n : ℕ) → n + 1 ≡ suc n
plus_one n = omega arith

drop-append :
    {A : Type 0} (n : ℕ) (xs front : List A) {zs : List A}
    → drop n xs ≡ front ++ zs
    → drop (n + length front) xs ≡ zs
drop-append n xs [] e = ap (λ m. drop m xs) (plus_zero n) ∙ e
drop-append n xs (x ∷ front) e =
    ap (λ m. drop m xs) (plus_suc n (length front)) ∙ drop-append (suc n) xs front (drop-one n xs e)

AllBelow-front : (n : ℕ) (xs ys : List ℕ) → AllBelow n (xs ++ ys) → AllBelow n xs
AllBelow-front n [] ys below = tt
AllBelow-front n (x ∷ xs) ys (first, rest) = (first, AllBelow-front n xs ys rest)

AllBelow-rear : (n : ℕ) (xs ys : List ℕ) → AllBelow n (xs ++ ys) → AllBelow n ys
AllBelow-rear n [] ys below = below
AllBelow-rear n (x ∷ xs) ys (first, rest) = AllBelow-rear n xs ys rest

-- The padded list, as the rounds read it.
record IsPadded (x : ℕ) (xs : List ℕ) (k : ℕ) (ts : List Triple) (a b d : ℕ) : Type 0 where
  count : length ts ≡ k
  rest : resize (3 * suc k) 0 xs ≡ flatten ts ++ a ∷ b ∷ d ∷ []
  fits : length xs ≤ 3 * suc k

module _ {F : Type 0} ⦃f : Field F⦄ where
  witness_all-open :
      (c : PlonkCircuit F) (xs : List ℕ)
      → IsOpen c
      → AllBelow c.num_vars xs
      → witness_all xs c ≡ (returned (map (assigned c) xs), c)
  unfolding witness_all
  witness_all-open c [] o below = refl
  witness_all-open c (x ∷ xs) o (first, rest) =
      returned-then _ _ (witness-open c x o first)
        (returned-then _ _ (witness_all-open c xs o rest) refl)

  total_from-map : (v : F) (w : ℕ → F) (xs : List ℕ) → total_from v (map w xs) ≡ summed v w xs
  total_from-map v w [] = refl
  total_from-map v w (x ∷ xs) = total_from-map (v ⊕ w x) w xs

  summed-append :
      (v : F) (w : ℕ → F) (xs ys : List ℕ) → summed v w (xs ++ ys) ≡ summed (summed v w xs) w ys
  summed-append v w [] ys = refl
  summed-append v w (x ∷ xs) ys = summed-append (v ⊕ w x) w xs ys

module _ {F : Type 0} ⦃f : Field F⦄ ⦃law : IsField f⦄ ⦃comm : IsCommutative f⦄ where
  -- The value of the rounds is the sum.
  padded-total :
      (x : ℕ) (xs : List ℕ) (k : ℕ) (ts : List Triple) (a b d : ℕ) (w : ℕ → F)
      → IsPadded x xs k ts a b d
      → w 0 ≡ f.zero
      → summed (w x) w (flatten ts) ⊕ w a ⊕ w b ⊕ w d ≡ summed f.zero w (x ∷ xs)
  padded-total x xs k ts a b d w p zero_is =
      sym (summed-append (w x) w (flatten ts) (a ∷ b ∷ d ∷ []))
      ∙ ap (λ l. summed (w x) w l) (sym p.rest)
      ∙ summed-resize (3 * suc k) 0 xs (w x) w zero_is p.fits
      ∙ ap (λ v. summed v w xs) (sym (law.zero_add (w x)))

  final_round-Asserts :
      (ts : List Triple) (k a b d y accum : ℕ) (padded : List ℕ) (c : PlonkCircuit F)
      → IsOpen c
      → length ts ≡ k
      → drop 1 padded ≡ flatten ts ++ a ∷ b ∷ d ∷ []
      → AllBelow c.num_vars (a ∷ b ∷ d ∷ [])
      → accum < c.num_vars
      → y < c.num_vars
      → Asserts
          (final_round padded (3 * suc k + 1) y accum)
          (λ w. f.one ⊗ w accum ⊕ f.one ⊗ w a ⊕ f.one ⊗ w b ⊕ f.one ⊗ w d ≡ w y)
          c
  final_round-Asserts ts k a b d y accum padded c o count tail (a_in, (b_in, (d_in, none_left)))
        accum_in y_in =
      let (at_a, at_b, at_d, left) = drop-three _ padded (drop-append 1 padded (flatten ts) tail) in
      Asserts-same _ (lc_gate (row accum a b d y) ones) _ c
        (returned-then _ _ (nth-runs padded c (omega (arith, length-flatten ts)) at_a) (
          returned-then _ _ (nth-runs padded c (omega (arith, length-flatten ts)) at_b)
            (returned-then _ _ (nth-runs padded c (omega (arith, length-flatten ts)) at_d) refl)))
        (lc_gate-Asserts c o (row accum a b d y) (accum_in, a_in, b_in, d_in, y_in) f.one f.one
          f.one f.one)

  -- The rounds and the last one, on a circuit that has the variable for the sum.
  rounds-Asserts :
      (x : ℕ) (ts : List Triple) (k a b d y : ℕ) (padded : List ℕ) (c : PlonkCircuit F)
      → IsOpen c
      → length ts ≡ k
      → drop 1 padded ≡ flatten ts ++ a ∷ b ∷ d ∷ []
      → x < c.num_vars
      → AllBelow c.num_vars (flatten ts ++ a ∷ b ∷ d ∷ [])
      → y < c.num_vars
      → Asserts
          (sum_rounds padded (length ts) 1 x >>= λ accum.
            final_round padded (3 * suc k + 1) y accum)
          (λ w. summed (w x) w (flatten ts) ⊕ w a ⊕ w b ⊕ w d ≡ w y)
          c
  rounds-Asserts x ts k a b d y padded c o count tail x_in below y_in =
      let front = AllBelow-front _ (flatten ts) (a ∷ b ∷ d ∷ []) below in
      let rear = AllBelow-rear _ (flatten ts) (a ∷ b ∷ d ∷ []) below in
      let (a_in, (b_in, (d_in, none_left))) = rear in
      let p =
        sum_rounds-Realises ts (a ∷ b ∷ d ∷ []) padded 1 1 x c o (omega arith) tail x_in front in
      let local : IsLocal c.num_vars (λ w. summed (w x) w (flatten ts) ⊕ w a ⊕ w b ⊕ w d) =
        λ w w' agree. rw (
          summed-local _ (flatten ts) _ _ w w' front agree (agree x x_in),
          agree a a_in,
          agree b b_in,
          agree d d_in,
        ) in
      Realises-then-Asserts (sum_rounds padded (length ts) 1 x) (λ w. summed (w x) w (flatten ts)) c
        o p (λ w w' agree. summed-local _ (flatten ts) _ _ w w' front agree (agree x x_in))
        (λ accum. final_round padded (3 * suc k + 1) y accum)
        (λ w. f.one ⊗ w p.result ⊕ f.one ⊗ w a ⊕ f.one ⊗ w b ⊕ f.one ⊗ w d ≡ w y)
        (λ w. summed (w x) w (flatten ts) ⊕ w a ⊕ w b ⊕ w d ≡ w y)
        (λ w w' agree e. sym (local w w' agree) ∙ e ∙ agree y y_in)
        (λ w pinned e holds.
          ap (λ v. v ⊕ w a ⊕ w b ⊕ w d) (sym e)
          ∙ sym (lc_ones (w p.result) (w a) (w b) (w d))
          ∙ holds)
        (λ w pinned e holds.
          lc_ones (w p.result) (w a) (w b) (w d) ∙ ap (λ v. v ⊕ w a ⊕ w b ⊕ w d) e ∙ holds)
        (final_round-Asserts ts k a b d y p.result padded p.after (Grows-IsOpen p.grows o) count
          tail (AllBelow-le _ _ (a ∷ b ∷ d ∷ []) (Grows-num_vars p.grows) rear) p.below
          (omega (arith, Grows-num_vars p.grows)))

  -- On an open circuit and a list of its variables that is not empty, `sum` returns, without a panic, a
  -- variable with the sum of their values; a satisfied circuit stays satisfied, and whatever
  -- assignment satisfies the gates gives the variable that sum.
  pub sum-Realises :
      (x : ℕ) (xs : List ℕ) (c : PlonkCircuit F)
      → IsOpen c
      → AllBelow c.num_vars (x ∷ xs)
      → Realises (sum (x ∷ xs)) (λ w. summed f.zero w (x ∷ xs)) c
  unfolding sum
  sum-Realises x xs c o below =
      let v = total_from f.zero (map (assigned c) (x ∷ xs)) in
      let d = with_variable v c in
      let o' = with_variable-IsOpen c v o in
      let (k, multiple, fits) = next_multiple-three (length (x ∷ xs) - 1) in
      let (ts, p, q, r, count, rest) =
        split_triples k (resize (3 * suc k) 0 xs) (length-resize (3 * suc k) 0 xs) in
      let shape : IsPadded x xs k ts p q r = record {
        count = count;
        rest = rest;
        fits = omega arith;
      } in
      let padded = resize (3 * suc k + 1) 0 (x ∷ xs) in
      let padded_is : padded ≡ x ∷ resize (3 * suc k) 0 xs =
        ap (λ n. resize n 0 (x ∷ xs)) (plus_one (3 * suc k)) in
      let all_in = subst (AllBelow (suc c.num_vars)) rest (
        AllBelow-resize _ (3 * suc k) 0 xs (omega arith)
          (AllBelow-le _ _ xs (omega arith) below.1)) in
      let new = assigned-with_variable-new c v o ∙ total_from-map f.zero (assigned c) (x ∷ xs) in
      let asserted =
        rounds-Asserts x ts k p q r c.num_vars padded d o' count
          (ap (λ l. drop 1 l) padded_is ∙ rest) (omega (arith, below.0)) all_in (omega arith) in
      Realises-chosen (sum (x ∷ xs))
        (sum_rounds padded (length ts) 1 x >>= λ accum.
          final_round padded (3 * suc k + 1) c.num_vars accum)
        (λ w. summed f.zero w (x ∷ xs))
        (λ w. summed (w x) w (flatten ts) ⊕ w p ⊕ w q ⊕ w r ≡ w c.num_vars) c d c.num_vars o
        (gains_variable stays v) (λ sat. with_variable-IsSatisfied c v o sat) asserted
        (padded-total x xs k ts p q r (assigned d) shape o'.zero_value
          ∙ summed-local _ (x ∷ xs) _ _ (assigned d) (assigned c) below
              (λ i i_in. assigned-with_variable-old c v i o i_in) refl
          ∙ sym new)
        (omega arith) new
        (λ w pinned holds. sym holds ∙ padded-total x xs k ts p q r w shape pinned.0)
        (returned-then _ _ (check_vars_bound-below c (x ∷ xs) below) (
          returned-then _ _ (witness_all-open c (x ∷ xs) o below) (
            returned-then _ _ (create_variable-open c v o.open_domain) (
              returned-then _ _ (ap (λ m. (m, d)) multiple) (
                returned-then _ _ (nth-runs padded d refl (ap (λ l. get_elem? l 0) padded_is)) (
                  ap
                    (λ m.
                      (sum_rounds padded m 1 x >>= λ accum.
                      final_round padded (3 * suc k + 1) c.num_vars accum >> pure c.num_vars)
                        d)
                    (rounds_left k (length ts) count)
                  ∙ sym (>>=_assoc _ _ _ _)
                  ∙ returned-then _ _ asserted.runs refl))))))
