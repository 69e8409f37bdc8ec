-- ===== src/Prelude/Append.antt =====
-- Elements of a list that has grown at its end.
use Prim.Native.Nat.{ℕ, zero, suc, ◌<◌}
use mathlib.Core.Path.{◌≡◌, refl}
use mathlib.Core.Logic.{◌⊎◌, inl, inr}
use mathlib.Core.List.{List, [], ◌∷◌, ◌++◌}
use mathlib.Core.Option.{some}
use native.Mathlib.Omega.{arith}
use jellyfish.Prelude.Lists.{length, get_elem?, get_or}

module _ {ℓ} {A : Type ℓ} where
  pub get_elem?-append_lt :
      (xs ys : List A) (i : ℕ) → i < length xs → get_elem? (xs ++ ys) i ≡ get_elem? xs i
  get_elem?-append_lt [] ys i h = elim h [ ]
  get_elem?-append_lt (x ∷ xs) ys zero h = refl
  get_elem?-append_lt (x ∷ xs) ys (suc i) h = get_elem?-append_lt xs ys i (omega arith)

  pub get_elem?-append :
      (xs ys : List A) (i : ℕ) {x : A} → get_elem? xs i ≡ some x → get_elem? (xs ++ ys) i ≡ some x
  get_elem?-append [] ys i p = cc
  get_elem?-append (x ∷ xs) ys zero p = p
  get_elem?-append (x ∷ xs) ys (suc i) p = get_elem?-append xs ys i p

  pub get_elem?-append_last :
      (xs : List A) (x : A) (n : ℕ) → length xs ≡ n → get_elem? (xs ++ x ∷ []) n ≡ some x
  get_elem?-append_last [] x zero l = refl
  get_elem?-append_last [] x (suc n) l = absurd (omega arith)
  get_elem?-append_last (y ∷ xs) x zero l = absurd (omega arith)
  get_elem?-append_last (y ∷ xs) x (suc n) l = get_elem?-append_last xs x n (omega arith)

  -- An element of a list with one more at its end stands in the list, or is that one.
  pub get_elem?-append-cases :
      (xs : List A) {x y : A} (i : ℕ)
      → get_elem? (xs ++ x ∷ []) i ≡ some y
      → ((i < length xs) × (get_elem? xs i ≡ some y)) ⊎ ((i ≡ length xs) × (y ≡ x))
  get_elem?-append-cases [] zero h = inr (refl, cc)
  get_elem?-append-cases [] (suc i) h = cc
  get_elem?-append-cases (z ∷ xs) zero h = inl (omega arith, h)
  get_elem?-append-cases (z ∷ xs) (suc i) h = elim (get_elem?-append-cases xs i h) [
    | inl (below, found) ↦ inl (omega arith, found)
    | inr (last, same) ↦ inr (omega arith, same)
  ]

  pub get_elem?-lt : (xs : List A) {x : A} (i : ℕ) → get_elem? xs i ≡ some x → i < length xs
  get_elem?-lt [] i h = cc
  get_elem?-lt (x ∷ xs) zero h = omega arith
  get_elem?-lt (x ∷ xs) (suc i) h = omega (arith, get_elem?-lt xs i h)

  pub get_elem?-get_or :
      (xs : List A) (i : ℕ) (d : A) → i < length xs → get_elem? xs i ≡ some (get_or xs i d)
  get_elem?-get_or [] i d h = elim h [ ]
  get_elem?-get_or (x ∷ xs) zero d h = refl
  get_elem?-get_or (x ∷ xs) (suc i) d h = get_elem?-get_or xs i d (omega arith)

  pub get_or-append :
      (xs ys : List A) (i : ℕ) (d : A) → i < length xs → get_or (xs ++ ys) i d ≡ get_or xs i d
  get_or-append [] ys i d h = elim h [ ]
  get_or-append (x ∷ xs) ys zero d h = refl
  get_or-append (x ∷ xs) ys (suc i) d h = get_or-append xs ys i d (omega arith)

  pub get_or-append_last :
      (xs : List A) (x d : A) (n : ℕ) → length xs ≡ n → get_or (xs ++ x ∷ []) n d ≡ x
  get_or-append_last [] x d zero l = refl
  get_or-append_last [] x d (suc n) l = absurd (omega arith)
  get_or-append_last (y ∷ xs) x d zero l = absurd (omega arith)
  get_or-append_last (y ∷ xs) x d (suc n) l = get_or-append_last xs x d n (omega arith)
