-- ===== src/Relation/Gadgets/Range/Computes.antt =====
-- What `decomposition_gate` of relation/src/gadgets/range.rs asks for.
use jellyfish.Prelude.{
  ℕ, zero, suc, ◌+◌, ◌-◌, ◌*◌, ◌<◌, ◌≤◌, ◌≡◌, ◌∙◌, refl, sym, ap, List, [], ◌∷◌, length, get_elem?,
  get_or, some, get_elem?-get_or, drop, arith,
}
use jellyfish.Relation.Gates.{Field, four, ◌⊕◌, ◌⊗◌}
use jellyfish.Relation.Gates.Meaning.{IsField, IsCommutative}
use jellyfish.Relation.Circuit.Outcome.{returned-then, ◌>>=◌}
use jellyfish.Relation.Circuit.State.{row, PlonkCircuit}
use jellyfish.Relation.Circuit.Model.{IsOpen}
use jellyfish.Relation.Circuit.Grows.{Grows-IsOpen, Grows-num_vars}
use jellyfish.Relation.Circuit.Realises.{Realises, Asserts, Realises-pure}
use jellyfish.Relation.Circuit.Compose.{
  Realises-then, Realises-same, Realises-then-Asserts, Asserts-same,
}
use jellyfish.Relation.Gadgets.Arithmetic.{lc, lc_gate}
use jellyfish.Relation.Gadgets.Runs.{AllBelow, AllBelow-le}
use jellyfish.Relation.Gadgets.Computes.{lc-Realises, lc_gate-Asserts}
use jellyfish.Relation.Gadgets.Sum.{resize}
use jellyfish.Relation.Gadgets.Sum.Lists.{next_multiple-three, length-resize, AllBelow-resize}
use jellyfish.Relation.Gadgets.Sum.Rounds.{nth-runs}
use jellyfish.Relation.Gadgets.Sum.Total.{rounds_left}
use jellyfish.Relation.Gadgets.Range.{powers, decomposition_rounds, last_round, decomposition_gate}
use jellyfish.Relation.Gadgets.Range.Horner.{
  horner, round_value, rounds_value, horner-resize, rounds_value-horner, last_round-horner,
  drop-head_or,
}

AllBelow-get_or : (n j : ℕ) (xs : List ℕ) → 0 < n → AllBelow n xs → get_or xs j 0 < n
AllBelow-get_or n j [] h below = h
AllBelow-get_or n zero (x ∷ xs) h (first, rest) = first
AllBelow-get_or n (suc j) (x ∷ xs) h (first, rest) = AllBelow-get_or n j xs h rest

drop-end : (n : ℕ) (xs : List ℕ) → length xs ≤ n → drop n xs ≡ []
drop-end zero [] h = refl
drop-end zero (x ∷ xs) h = absurd (omega arith)
drop-end (suc n) [] h = refl
drop-end (suc n) (x ∷ xs) h = drop-end n xs (omega arith)

found : (xs : List ℕ) (j : ℕ) → j < length xs → get_elem? xs j ≡ some (get_or xs j 0)
found xs j h = get_elem?-get_or xs j 0 h

module _ {F : Type 0} ⦃f : Field F⦄ where
  rounds_value-local :
      (n m : ℕ) (padded : List ℕ) (r acc acc' : F) (w w' : ℕ → F)
      → 0 < n
      → AllBelow n padded
      → ((i : ℕ) → i < n → w i ≡ w' i)
      → acc ≡ acc'
      → rounds_value r w padded m acc ≡ rounds_value r w' padded m acc'
  rounds_value-local n zero padded r acc acc' w w' positive below agree e = e
  rounds_value-local n (suc m) padded r acc acc' w w' positive below agree e =
      rounds_value-local n m padded r _ _ w w' positive below agree (
        rw (
          e,
          agree _ (AllBelow-get_or n (suc (suc (3 * suc m))) padded positive below),
          agree _ (AllBelow-get_or n (suc (3 * suc m)) padded positive below),
          agree _ (AllBelow-get_or n (3 * suc m) padded positive below),
        ))

module _ {F : Type 0} ⦃f : Field F⦄ ⦃law : IsField f⦄ ⦃comm : IsCommutative f⦄ (r : F)
    (padded : List ℕ) (k : ℕ) (long : length padded ≡ 3 * k + 1) where
  decomposition_rounds-Realises :
      (m i accum : ℕ) (c : PlonkCircuit F)
      → IsOpen c
      → 1 ≤ i
      → i + m ≡ k
      → accum < c.num_vars
      → AllBelow c.num_vars padded
      → Realises
          (decomposition_rounds r padded (3 * k + 1) m i accum)
          (λ w. rounds_value r w padded m (w accum))
          c
  unfolding decomposition_rounds
  decomposition_rounds-Realises zero i accum c o started index accum_in below =
      Realises-pure c accum accum_in
  decomposition_rounds-Realises (suc m) i accum c o started index accum_in below =
      let positive : 0 < c.num_vars = omega (arith, o.constants) in
      let a = get_or padded (suc (suc (3 * suc m))) 0 in
      let b = get_or padded (suc (3 * suc m)) 0 in
      let d = get_or padded (3 * suc m) 0 in
      let a_in = AllBelow-get_or _ (suc (suc (3 * suc m))) padded positive below in
      let b_in = AllBelow-get_or _ (suc (3 * suc m)) padded positive below in
      let d_in = AllBelow-get_or _ (3 * suc m) padded positive below in
      let p =
        lc-Realises c o accum a b d (accum_in, a_in, b_in, d_in) (r ⊗ (r ⊗ r)) (r ⊗ r) r f.one in
      Realises-same _
        (lc (four accum a b d) (powers r) >>= λ next.
          decomposition_rounds r padded (3 * k + 1) m (suc i) next)
        _ c
        (returned-then _ _
          (nth-runs padded c (omega arith) (found padded (suc (suc (3 * suc m))) (omega arith)))
          (returned-then _ _
            (nth-runs padded c (omega arith) (found padded (suc (3 * suc m)) (omega arith)))
            (returned-then _ _
              (nth-runs padded c (omega arith) (found padded (3 * suc m) (omega arith))) refl)))
        (Realises-then (lc (four accum a b d) (powers r))
          (λ w. round_value r (w accum) (w a) (w b) (w d)) c o p
          (λ w w' agree. rw (agree accum accum_in, agree a a_in, agree b b_in, agree d d_in))
          (λ next. decomposition_rounds r padded (3 * k + 1) m (suc i) next)
          (λ w. rounds_value r w padded m (w p.result))
          (λ w. rounds_value r w padded (suc m) (w accum))
          (λ w w' agree.
            rounds_value-local _ (suc m) padded r _ _ w w' positive below agree
              (agree accum accum_in))
          (λ w pinned e. ap (λ v. rounds_value r w padded m v) e)
          (decomposition_rounds-Realises m (suc i) p.result p.after (Grows-IsOpen p.grows o)
            (omega arith) (omega arith) p.below
            (AllBelow-le _ _ padded (Grows-num_vars p.grows) below)))

  last_round-Asserts :
      (a accum : ℕ) (c : PlonkCircuit F)
      → IsOpen c
      → 1 ≤ k
      → a < c.num_vars
      → accum < c.num_vars
      → AllBelow c.num_vars padded
      → Asserts
          (last_round r padded a accum)
          (λ w.
            round_value r
              (w accum)
              (w (get_or padded 2 0))
              (w (get_or padded 1 0))
              (w (get_or padded 0 0))
            ≡ w a)
          c
  last_round-Asserts a accum c o some_rounds a_in accum_in below =
      let positive : 0 < c.num_vars = omega (arith, o.constants) in
      let at = λ (j : ℕ). AllBelow-get_or _ j padded positive below in
      Asserts-same _
        (lc_gate (row accum (get_or padded 2 0) (get_or padded 1 0) (get_or padded 0 0) a)
          (powers r))
        _ c
        (returned-then _ _ (nth-runs padded c refl (found padded 2 (omega arith))) (
          returned-then _ _ (nth-runs padded c refl (found padded 1 (omega arith)))
            (returned-then _ _ (nth-runs padded c refl (found padded 0 (omega arith))) refl)))
        (lc_gate-Asserts c o
          (row accum (get_or padded 2 0) (get_or padded 1 0) (get_or padded 0 0) a)
          (accum_in, at 2, at 1, at 0, a_in) (r ⊗ (r ⊗ r)) (r ⊗ r) r f.one)

module _ {F : Type 0} ⦃f : Field F⦄ ⦃law : IsField f⦄ ⦃comm : IsCommutative f⦄ where
  -- The value of the padded list is that of the chunks.
  padded-horner :
      (k : ℕ) (xs padded : List ℕ) (r acc : F) (w : ℕ → F)
      → padded ≡ resize (3 * suc k + 1) 0 xs
      → length xs ≤ 3 * suc k + 1
      → w 0 ≡ f.zero
      → acc ≡ rounds_value r w padded k (w (get_or padded (3 * suc k) 0))
      → round_value r acc (w (get_or padded 2 0)) (w (get_or padded 1 0)) (w (get_or padded 0 0))
        ≡ horner r w xs
  padded-horner k xs padded r acc w same fits zero_is acc_is =
      let long : length padded ≡ 3 * suc k + 1 =
        ap length same ∙ length-resize (3 * suc k + 1) 0 xs in
      last_round-horner padded r acc w (omega arith) (
        acc_is
        ∙ rounds_value-horner k padded r _ w (omega arith) (
            sym (
              ap (horner r w) (
                drop-head_or (3 * suc k) padded (omega arith)
                ∙ ap (λ l. get_or padded (3 * suc k) 0 ∷ l)
                    (drop-end (suc (3 * suc k)) padded (omega arith)))
              ∙ ap (λ z. w (get_or padded (3 * suc k) 0) ⊕ z) (law.mul_zero r)
              ∙ law.add_zero (w (get_or padded (3 * suc k) 0)))))
      ∙ ap (horner r w) same
      ∙ horner-resize (3 * suc k + 1) xs r w zero_is fits

  horner-local :
      (n : ℕ) (xs : List ℕ) (r : F) (w w' : ℕ → F)
      → AllBelow n xs
      → ((i : ℕ) → i < n → w i ≡ w' i)
      → horner r w xs ≡ horner r w' xs
  horner-local n [] r w w' below agree = refl
  horner-local n (x ∷ xs) r w w' (first, rest) agree =
      rw (agree x first, horner-local n xs r w w' rest agree)

  -- On an open circuit and variables of it, of which there is one at least for the chunks,
  -- `decomposition_gate` returns without a panic; the circuit stays satisfied where the value is that
  -- of the chunks in the base of the range size, the lowest first, and whatever assignment satisfies
  -- its gates makes the value so.
  pub decomposition_gate-Asserts :
      (x : ℕ) (xs : List ℕ) (a : ℕ) (r : F) (c : PlonkCircuit F)
      → IsOpen c
      → AllBelow c.num_vars (x ∷ xs)
      → a < c.num_vars
      → Asserts (decomposition_gate (x ∷ xs) a r) (λ w. horner r w (x ∷ xs) ≡ w a) c
  unfolding decomposition_gate
  decomposition_gate-Asserts x xs a r c o below a_in =
      let (k, multiple, fits) = next_multiple-three (length (x ∷ xs) - 1) in
      let positive : 0 < c.num_vars = omega (arith, o.constants) in
      let padded = resize (3 * suc k + 1) 0 (x ∷ xs) in
      let long = length-resize (3 * suc k + 1) 0 (x ∷ xs) in
      let all_in = AllBelow-resize _ (3 * suc k + 1) 0 (x ∷ xs) positive below in
      let first = get_or padded (3 * suc k) 0 in
      let first_in = AllBelow-get_or _ (3 * suc k) padded positive all_in in
      let p =
        decomposition_rounds-Realises r padded (suc k) long k 1 first c o (omega arith)
          (omega arith) first_in all_in in
      Asserts-same (decomposition_gate (x ∷ xs) a r)
        (decomposition_rounds r padded (3 * suc k + 1) k 1 first >>= λ accum.
          last_round r padded a accum)
        _ c
        (returned-then _ _ (ap (λ m. (m, c)) multiple) (
          returned-then _ _ (nth-runs padded c refl (found padded (3 * suc k) (omega arith))) (
            ap
              (λ m.
                (decomposition_rounds r padded (3 * suc k + 1) m 1 first >>= λ accum.
                last_round r padded a accum)
                  c)
              (rounds_left k k refl))))
        (Realises-then-Asserts (decomposition_rounds r padded (3 * suc k + 1) k 1 first)
          (λ w. rounds_value r w padded k (w first)) c o p
          (λ w w' agree.
            rounds_value-local _ k padded r _ _ w w' positive all_in agree (agree first first_in))
          (λ accum. last_round r padded a accum)
          (λ w.
            round_value r (w p.result) (w (get_or padded 2 0)) (w (get_or padded 1 0))
              (w (get_or padded 0 0))
            ≡ w a)
          (λ w. horner r w (x ∷ xs) ≡ w a)
          (λ w w' agree e. sym (horner-local _ (x ∷ xs) r w w' below agree) ∙ e ∙ agree a a_in)
          (λ w pinned acc_is holds.
            sym (padded-horner k (x ∷ xs) padded r _ w refl (omega arith) pinned.0 acc_is) ∙ holds)
          (λ w pinned acc_is holds.
            padded-horner k (x ∷ xs) padded r _ w refl (omega arith) pinned.0 acc_is ∙ holds)
          (last_round-Asserts r padded (suc k) long a p.result p.after (Grows-IsOpen p.grows o)
            (omega arith) (omega (arith, Grows-num_vars p.grows)) p.below
            (AllBelow-le _ _ padded (Grows-num_vars p.grows) all_in)))
