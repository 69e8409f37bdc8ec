-- ===== src/Relation/Gadgets/Sum/Lists.antt =====
-- The padded list of `sum` and its length.
use jellyfish.Prelude.{
  ℕ, zero, suc, ◌*◌, ◌/◌, ◌<◌, ◌≤◌, ◌≡◌, refl, ap, ◌∙◌, ◌⊎◌, inl, inr, List, [], ◌∷◌, some, length,
  get_elem?, drop, arith,
}
use jellyfish.Relation.Gates.{Field, ◌⊕◌}
use jellyfish.Relation.Gates.Meaning.{IsField}
use jellyfish.Relation.Circuit.Outcome.{returned}
use jellyfish.Relation.Gadgets.Sum.{next_multiple, resize}
use jellyfish.Relation.Gadgets.Runs.{AllBelow}

three_cases : (n : ℕ) → (n < 3) ⊎ (n ≡ 3) ⊎ (3 < n)
three_cases n = ground arith

-- The next multiple of three is one that is large enough, and not zero.
pub next_multiple-three :
    (n : ℕ) → (k : ℕ) × (next_multiple n 3 ≡ returned (3 * suc k)) × (n ≤ 3 * suc k)
unfolding next_multiple
next_multiple-three n = elim (three_cases n) [
  | inl less ↦ (0, ground arith, omega arith)
  | inr (inl same) ↦ (0, ground (arith, same), omega arith)
  | inr (inr more) ↦ (n / 3, ground arith, omega arith)
]

pub length-resize {ℓ} : {A : Type ℓ} (n : ℕ) (z : A) (xs : List A) → length (resize n z xs) ≡ n
length-resize zero z xs = refl
length-resize (suc n) z [] = ap suc (length-resize n z [])
length-resize (suc n) z (x ∷ xs) = ap suc (length-resize n z xs)

pub AllBelow-resize : (m n z : ℕ) (xs : List ℕ) → z < m → AllBelow m xs → AllBelow m (resize n z xs)
AllBelow-resize m zero z xs z_in below = tt
AllBelow-resize m (suc n) z [] z_in below = (z_in, AllBelow-resize m n z [] z_in tt)
AllBelow-resize m (suc n) z (x ∷ xs) z_in (first, rest) =
    (first, AllBelow-resize m n z xs z_in rest)

-- Three elements in a row.
pub drop-three {ℓ} :
    {A : Type ℓ} (n : ℕ) (xs : List A) {a b d : A} {zs : List A}
    → drop n xs ≡ a ∷ b ∷ d ∷ zs
    → (get_elem? xs n ≡ some a)
      × (get_elem? xs (suc n) ≡ some b)
      × (get_elem? xs (suc (suc n)) ≡ some d)
      × (drop (suc (suc (suc n))) xs ≡ zs)
drop-three zero xs e = (
  ap (λ l. get_elem? l 0) e,
  ap (λ l. get_elem? l 1) e,
  ap (λ l. get_elem? l 2) e,
  ap (λ l. drop 3 l) e,
)
drop-three (suc n) [] e = cc
drop-three (suc n) (x ∷ xs) e = drop-three n xs e

module _ {F : Type 0} ⦃f : Field F⦄ where
  -- The sum of the variables' values.
  abbrev pub summed : F → (ℕ → F) → List ℕ → F
  summed v w [] = v
  summed v w (x ∷ xs) = summed (v ⊕ w x) w xs

  pub summed-local :
      (n : ℕ) (xs : List ℕ) (v v' : F) (w w' : ℕ → F)
      → AllBelow n xs
      → ((i : ℕ) → i < n → w i ≡ w' i)
      → v ≡ v'
      → summed v w xs ≡ summed v' w' xs
  summed-local n [] v v' w w' below agree e = e
  summed-local n (x ∷ xs) v v' w w' (first, rest) agree e =
      summed-local n xs _ _ w w' rest agree (rw (e, agree x first))

module _ {F : Type 0} ⦃f : Field F⦄ ⦃law : IsField f⦄ where
  -- Padding with a variable whose value is zero changes nothing.
  pub summed-resize :
      (n z : ℕ) (xs : List ℕ) (v : F) (w : ℕ → F)
      → w z ≡ f.zero
      → length xs ≤ n
      → summed v w (resize n z xs) ≡ summed v w xs
  summed-resize zero z [] v w e h = refl
  summed-resize zero z (x ∷ xs) v w e h = absurd (omega arith)
  summed-resize (suc n) z [] v w e h =
      ap (λ u. summed u w (resize n z [])) (ap (λ u. v ⊕ u) e ∙ law.add_zero v)
      ∙ summed-resize n z [] v w e (omega arith)
  summed-resize (suc n) z (x ∷ xs) v w e h = summed-resize n z xs (v ⊕ w x) w e (omega arith)
