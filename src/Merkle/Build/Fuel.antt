-- ===== src/Merkle/Build/Fuel.antt =====
-- The fuel of the loops in `build_tree_internal` (primitives/src/merkle_tree/internal.rs).
use native.Mathlib.Nat.{pow-suc, pow-zero, mul-le-mul_left, mul-le-mul_right}
use jellyfish.Prelude.{
  ℕ, zero, suc, ◌+◌, ◌-◌, ◌*◌, ◌^◌, ◌≤◌, ◌<◌, ◌≡◌, refl, ap, sym, ◌∙◌, false, Bool-cases, ◌⊎◌, inl,
  inr, List, [], ◌∷◌, ◌++◌, length, take, drop, take-append-drop, length-drop, ltb, ltb→lt, lt→ltb,
  Result, ok, none, arith,
}
use jellyfish.Merkle.Build.{chunk_rounds, chunks, min_height, height_or}

-- The height fits so many leaves, and the one below does not.
abbrev pub IsLeast : ℕ → ℕ → ℕ → Type 0
IsLeast arity n height = (n ≤ arity ^ height) × ((height ≡ 0) ⊎ (arity ^ (height - 1) < n))

-- The loop ends, without a panic, with the least height.
abbrev pub FindsLeast : ℕ → ℕ → Result ℕ → Type 0
FindsLeast arity n r = (height : ℕ) × (r ≡ ok height) × IsLeast arity n height

not_ltb : (m n : ℕ) → ltb m n ≡ false → n ≤ m
not_ltb m n e = ground arith

-- What the loop multiplies is below the number of leaves, so that the product fits.
product_fits :
    (capacity n arity : ℕ) → capacity < n → (n - 1) * arity < 2 ^ 64 → capacity * arity < 2 ^ 64
product_fits capacity n arity more fits =
    omega (arith, mul-le-mul_right {m = capacity} {n = n - 1} arity (omega arith))

min_height-IsLeast_from :
    (fuel arity n height capacity : ℕ)
    → 1 < arity
    → (n - 1) * arity < 2 ^ 64
    → 0 < fuel
    → 0 < capacity
    → capacity ≡ arity ^ height
    → n < fuel + capacity
    → (height ≡ 0) ⊎ (arity ^ (height - 1) < n)
    → FindsLeast arity n (min_height fuel arity n height capacity)
unfolding min_height
min_height-IsLeast_from zero arity n height capacity big fits some_fuel pos same enough below =
    absurd (omega arith)
min_height-IsLeast_from (suc fuel) arity n height capacity big fits some_fuel pos same enough
      below =
    elim (Bool-cases (ltb capacity n)) [
      | inl more ↦
          let less = ltb→lt capacity n more in
          let grown : capacity + capacity ≤ capacity * arity =
            omega (arith, mul-le-mul_left {m = 2} {n = arity} capacity big) in
          let one_less : suc height - 1 ≡ height = omega arith in
          let inside =
            lt→ltb (capacity * arity) (2 ^ 64) (product_fits capacity n arity less fits) in
          rw (more, inside)
            (min_height-IsLeast_from fuel arity n (suc height) (capacity * arity) big fits
              (omega arith) (omega arith) (ap (λ c. c * arity) same ∙ sym (pow-suc arity height))
              (omega arith) (inr (omega (arith, same, ap (λ k. arity ^ k) one_less))))
      | inr room ↦ rw room (height, refl, (omega (arith, not_ltb capacity n room), below))
    ]

-- Where the arity is at least two and its product with a number below that of the elements fits into
-- 64 bits, the loop that looks for the height ends, within one round more than there are elements and
-- without an overflow, with the least height that has room for the elements.
pub min_height-IsLeast :
    (arity n : ℕ)
    → 1 < arity
    → (n - 1) * arity < 2 ^ 64
    → FindsLeast arity n (height_or none arity n)
min_height-IsLeast arity n big fits =
    min_height-IsLeast_from (suc n) arity n 0 1 big fits (omega arith) (omega arith)
      (sym (pow-zero arity)) (omega arith) (inl refl)

module _ {A : Type 0} where
  abbrev pub concat : List (List A) → List A
  concat [] = []
  concat (xs ∷ xss) = xs ++ concat xss

  concat-chunk_rounds :
      (rounds n : ℕ) (xs : List A)
      → 0 < n
      → length xs ≤ rounds
      → concat (chunk_rounds rounds n xs) ≡ xs
  unfolding chunk_rounds
  concat-chunk_rounds zero n [] pos l = refl
  concat-chunk_rounds zero n (x ∷ xs) pos l = absurd (omega arith)
  concat-chunk_rounds (suc rounds) n [] pos l = refl
  concat-chunk_rounds (suc rounds) n (x ∷ xs) pos l =
      ap (λ ys. take n (x ∷ xs) ++ ys)
        (concat-chunk_rounds rounds n (drop n (x ∷ xs)) pos
          (omega (arith, length-drop {0} n (x ∷ xs))))
      ∙ take-append-drop n (x ∷ xs)

  -- For a positive size, the chunks of a list are the list, put together again.
  concat-chunks : (n : ℕ) (xs : List A) → 0 < n → concat (chunks n xs) ≡ xs
  unfolding chunks
  concat-chunks n xs pos = concat-chunk_rounds (length xs) n xs pos (omega arith)
