-- ===== src/Relation/Inverses.antt =====
-- What the code uses of `ark_ff` besides the operations of a ring: equality, zero and inverses; order
-- and conversions of a prime field.
use jellyfish.Prelude.{ℕ, ◌≡◌, ◌≢◌, ◌↔◌, Bool, true, Option, some, List}
use jellyfish.Relation.Gates.{Field}

-- `is_zero`, `==` and `inverse`.
pub record Inverses (F : Type 0) : Type 0 where
  pub is_zero_value : F → Bool
  pub beq : F → F → Bool
  pub inverse : F → Option F

-- Documented behaviour of these.
pub record IsInverses {F : Type 0} (f : Field F) (i : Inverses F) : Type 0 where
  pub is_zero_iff : (x : F) → (i.is_zero_value x ≡ true) ↔ (x ≡ f.zero)
  pub beq_iff : (x y : F) → (i.beq x y ≡ true) ↔ (x ≡ y)
  pub inverse_of : (x : F) → x ≢ f.zero → (y : F) × (i.inverse x ≡ some y) × (f.mul x y ≡ f.one)
  pub one≢zero : f.one ≢ f.zero

-- `>=` on the elements, `F::from` of a number, `into_bigint().to_bits_le()`, `MODULUS_BIT_SIZE` and
-- `MODULUS_MINUS_ONE_DIV_TWO`.
pub record OrderedField (F : Type 0) : Type 0 where
  pub geq : F → F → Bool
  pub from : ℕ → F
  pub to_bits_le : F → List Bool
  pub modulus_bit_size : ℕ
  pub modulus_minus_one_div_two : F
