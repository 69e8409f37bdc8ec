-- ===== src/Relation/Gadgets/Range/Horner.antt =====
-- The value of a list of chunks in the base of the range size, and the rounds that compute it.
use jellyfish.Prelude.{
  ℕ, zero, suc, ◌*◌, ◌<◌, ◌≤◌, ◌≡◌, ◌∙◌, refl, sym, ap, List, [], ◌∷◌, length, get_or, drop, arith,
}
use jellyfish.Relation.Gates.{Field, ◌⊕◌, ◌⊗◌}
use jellyfish.Relation.Gates.Meaning.{IsField, IsCommutative}
use jellyfish.Relation.Gadgets.Sum.{resize}

pub drop-head_or :
    (n : ℕ) (xs : List ℕ) → n < length xs → drop n xs ≡ get_or xs n 0 ∷ drop (suc n) xs
drop-head_or n [] h = elim h [ ]
drop-head_or zero (x ∷ xs) h = refl
drop-head_or (suc n) (x ∷ xs) h = drop-head_or n xs (omega arith)

three_one : 3 * 1 ≡ 3
three_one = omega arith

three_more : (m : ℕ) → 3 * suc (suc m) ≡ suc (suc (suc (3 * suc m)))
three_more m = omega arith

module _ {F : Type 0} ⦃f : Field F⦄ where
  -- The chunks' values in the base `r`, the lowest first.
  abbrev pub horner : F → (ℕ → F) → List ℕ → F
  horner r w [] = f.zero
  horner r w (x ∷ xs) = w x ⊕ r ⊗ horner r w xs

  -- One round: the accumulator and three chunks, the highest first.
  abbrev pub round_value : F → F → F → F → F → F
  round_value r acc p2 p1 p0 = r ⊗ (r ⊗ r) ⊗ acc ⊕ r ⊗ r ⊗ p2 ⊕ r ⊗ p1 ⊕ f.one ⊗ p0

  -- The rounds from the one that is left at the highest index down to the index 1.
  abbrev pub rounds_value : F → (ℕ → F) → List ℕ → ℕ → F → F
  rounds_value r w padded zero acc = acc
  rounds_value r w padded (suc m) acc = rounds_value r w padded m (
      round_value r acc (w (get_or padded (suc (suc (3 * suc m))) 0))
        (w (get_or padded (suc (3 * suc m)) 0)) (w (get_or padded (3 * suc m) 0)))

module _ {F : Type 0} ⦃f : Field F⦄ ⦃law : IsField f⦄ ⦃comm : IsCommutative f⦄ where
  reversed : (a b c d : F) → a ⊕ b ⊕ c ⊕ d ≡ d ⊕ (c ⊕ (b ⊕ a))
  reversed a b c d =
      comm.add_comm (a ⊕ b ⊕ c) d
      ∙ ap (λ z. d ⊕ z) (comm.add_comm (a ⊕ b) c ∙ ap (λ z. c ⊕ z) (comm.add_comm a b))

  expanded :
      (r acc p2 p1 : F)
      → r ⊗ (p1 ⊕ r ⊗ (p2 ⊕ r ⊗ acc)) ≡ r ⊗ p1 ⊕ (r ⊗ (r ⊗ p2) ⊕ r ⊗ (r ⊗ (r ⊗ acc)))
  expanded r acc p2 p1 =
      comm.mul_add r p1 (r ⊗ (p2 ⊕ r ⊗ acc))
      ∙ ap (λ z. r ⊗ p1 ⊕ z)
          (ap (λ z. r ⊗ z) (comm.mul_add r p2 (r ⊗ acc)) ∙ comm.mul_add r (r ⊗ p2) (r ⊗ (r ⊗ acc)))

  round_value-horner :
      (r acc p2 p1 p0 : F) → round_value r acc p2 p1 p0 ≡ p0 ⊕ r ⊗ (p1 ⊕ r ⊗ (p2 ⊕ r ⊗ acc))
  round_value-horner r acc p2 p1 p0 =
      ap (λ a. a ⊕ r ⊗ r ⊗ p2 ⊕ r ⊗ p1 ⊕ f.one ⊗ p0)
        (comm.mul_assoc r (r ⊗ r) acc ∙ ap (λ z. r ⊗ z) (comm.mul_assoc r r acc))
      ∙ ap (λ b. r ⊗ (r ⊗ (r ⊗ acc)) ⊕ b ⊕ r ⊗ p1 ⊕ f.one ⊗ p0) (comm.mul_assoc r r p2)
      ∙ ap (λ d. r ⊗ (r ⊗ (r ⊗ acc)) ⊕ r ⊗ (r ⊗ p2) ⊕ r ⊗ p1 ⊕ d) (law.one_mul p0)
      ∙ reversed (r ⊗ (r ⊗ (r ⊗ acc))) (r ⊗ (r ⊗ p2)) (r ⊗ p1) p0
      ∙ ap (λ z. p0 ⊕ z) (sym (expanded r acc p2 p1))

  pub horner-resize :
      (n : ℕ) (xs : List ℕ) (r : F) (w : ℕ → F)
      → w 0 ≡ f.zero
      → length xs ≤ n
      → horner r w (resize n 0 xs) ≡ horner r w xs
  horner-resize zero [] r w e h = refl
  horner-resize zero (x ∷ xs) r w e h = absurd (omega arith)
  horner-resize (suc n) [] r w e h =
      ap (λ v. w 0 ⊕ r ⊗ v) (horner-resize n [] r w e (omega arith))
      ∙ ap (λ v. v ⊕ r ⊗ f.zero) e
      ∙ law.zero_add (r ⊗ f.zero)
      ∙ law.mul_zero r
  horner-resize (suc n) (x ∷ xs) r w e h =
      ap (λ v. w x ⊕ r ⊗ v) (horner-resize n xs r w e (omega arith))

  -- Three chunks more.
  horner-drop :
      (n : ℕ) (xs : List ℕ) (r acc : F) (w : ℕ → F)
      → suc (suc (suc n)) ≤ length xs
      → acc ≡ horner r w (drop (suc (suc (suc n))) xs)
      → round_value r acc
          (w (get_or xs (suc (suc n)) 0))
          (w (get_or xs (suc n) 0))
          (w (get_or xs n 0))
        ≡ horner r w (drop n xs)
  horner-drop n xs r acc w h e =
      round_value-horner r acc _ _ _
      ∙ ap
          (λ z.
            w (get_or xs n 0)
            ⊕ r ⊗ (w (get_or xs (suc n) 0) ⊕ r ⊗ (w (get_or xs (suc (suc n)) 0) ⊕ r ⊗ z)))
          e
      ∙ ap (horner r w) (
          sym (
            drop-head_or n xs (omega arith)
            ∙ ap (λ l. get_or xs n 0 ∷ l)
                (drop-head_or (suc n) xs (omega arith)
                  ∙ ap (λ l. get_or xs (suc n) 0 ∷ l)
                      (drop-head_or (suc (suc n)) xs (omega arith)))))

  -- The rounds compute the value of what stands from the index 3 on.
  pub rounds_value-horner :
      (m : ℕ) (padded : List ℕ) (r acc : F) (w : ℕ → F)
      → 3 * suc m ≤ length padded
      → acc ≡ horner r w (drop (3 * suc m) padded)
      → rounds_value r w padded m acc ≡ horner r w (drop 3 padded)
  rounds_value-horner zero padded r acc w h e = e ∙ ap (λ n. horner r w (drop n padded)) three_one
  rounds_value-horner (suc m) padded r acc w h e =
      rounds_value-horner m padded r _ w (omega arith) (
        horner-drop (3 * suc m) padded r acc w (omega arith)
          (e ∙ ap (λ n. horner r w (drop n padded)) (three_more m)))

  pub last_round-horner :
      (padded : List ℕ) (r acc : F) (w : ℕ → F)
      → 3 ≤ length padded
      → acc ≡ horner r w (drop 3 padded)
      → round_value r acc (w (get_or padded 2 0)) (w (get_or padded 1 0)) (w (get_or padded 0 0))
        ≡ horner r w padded
  last_round-horner padded r acc w h e = horner-drop 0 padded r acc w h e
