-- ===== src/Vid/BytesToField/Digits.antt =====
-- Little-endian numbers.
use jellyfish.Prelude.{
  ℕ, zero, suc, ◌^◌, ◌<◌, ◌≡◌, refl, List, [], ◌∷◌, ◌++◌, length, replicate, arith,
}
use mathlib.Core.Path.{ap₂}
use native.Mathlib.Nat.{pow-suc}
use jellyfish.Vid.BytesToField.{le_value, AreBytes}

pub le_value-lt : (bs : List ℕ) → AreBytes bs → le_value bs < 256 ^ length bs
le_value-lt [] a = omega arith
le_value-lt (b ∷ bs) (lt, a) =
    let ih = le_value-lt bs a in rw (pow-suc 256 (length bs)) (omega arith)

pub le_value_injective :
    (xs ys : List ℕ)
    → AreBytes xs
    → AreBytes ys
    → length xs ≡ length ys
    → le_value xs ≡ le_value ys
    → xs ≡ ys
le_value_injective [] [] a b l e = refl
le_value_injective [] (y ∷ ys) a b l e = absurd (omega arith)
le_value_injective (x ∷ xs) [] a b l e = absurd (omega arith)
le_value_injective (x ∷ xs) (y ∷ ys) (lt, a) (lt', b) l e =
    ap₂ (◌∷◌) (omega arith) (le_value_injective xs ys a b (omega arith) (omega arith))

pub le_value-zeros : (bs : List ℕ) (n : ℕ) → le_value (bs ++ replicate n 0) ≡ le_value bs
le_value-zeros [] zero = refl
le_value-zeros [] (suc n) = omega (arith, le_value-zeros [] n)
le_value-zeros (b ∷ bs) n = omega (arith, le_value-zeros bs n)

pub zeros-AreBytes : (bs : List ℕ) (n : ℕ) → AreBytes bs → AreBytes (bs ++ replicate n 0)
zeros-AreBytes [] zero a = tt
zeros-AreBytes [] (suc n) a = (omega arith, zeros-AreBytes [] n tt)
zeros-AreBytes (b ∷ bs) n (lt, a) = (lt, zeros-AreBytes bs n a)
