-- ===== src/Vid/BytesToField.antt =====
-- The iterators of primitives/src/vid/advz/bytes_to_field.rs: bytes are the numbers below 256, an
-- iterator over them is the list of those that it has left.
pub mod Digits
pub mod Chunks
pub mod RoundTrip
use jellyfish.Prelude.{
  ℕ, zero, suc, ◌+◌, ◌-◌, ◌*◌, ◌/◌, ◌%◌, ◌^◌, ◌≤◌, ◌<◌, ◌≡◌, Option, none, some, List, [], ◌∷◌,
  length, take, collect_with,
}

-- What the code uses of `ark_ff::PrimeField` and of its `BigInt`.
pub record PrimeField (F : Type 0) : Type 0 where
  pub modulus_bit_size : ℕ
  pub from_le_bytes_mod_order : List ℕ → F
  pub into_bigint : F → ℕ
  pub to_bytes_le : ℕ → List ℕ

-- The number with the given bytes, the lowest first.
abbrev pub le_value : List ℕ → ℕ
le_value [] = 0
le_value (b ∷ bs) = b + 256 * le_value bs

abbrev pub AreBytes : List ℕ → Type 0
AreBytes [] = Unit
AreBytes (b ∷ bs) = (b < 256) × AreBytes bs

-- What `ark_ff` documents: bytes are read little-endian and reduced by the modulus, which has
-- `modulus_bit_size` bits, and a `BigInt` is written little-endian in a fixed number of bytes.
pub record IsPrimeField {F : Type 0} (f : PrimeField F) : Type 0 where
  pub modulus : ℕ
  pub num_bytes : ℕ
  pub modulus_bits : 2 ^ (f.modulus_bit_size - 1) ≤ modulus
  pub bits_le_num_bytes : f.modulus_bit_size ≤ 8 * num_bytes
  pub into_bigint_of_bytes :
      (bs : List ℕ)
      → AreBytes bs
      → f.into_bigint (f.from_le_bytes_mod_order bs) ≡ le_value bs % modulus
  pub length_of_bytes : (n : ℕ) → length (f.to_bytes_le n) ≡ num_bytes
  pub bytes_of_bigint : (n : ℕ) → AreBytes (f.to_bytes_le n)
  pub value_of_bytes : (n : ℕ) → n < modulus → le_value (f.to_bytes_le n) ≡ n

unfoldable pub elem_byte_capacity : {F : Type 0} → PrimeField F → ℕ
elem_byte_capacity f = (f.modulus_bit_size - 1) / 8

-- `BytesToField`; the field type is that of the parameter.
pub record BytesToField : Type 0 where
  pub bytes_iter : List ℕ
  pub elem_byte_capacity : ℕ

pub record FieldToBytes (F : Type 0) : Type 0 where
  pub elems_iter : List F
  pub bytes_iter : List ℕ
  pub elem_byte_capacity : ℕ

-- The loop that pushes at most so many bytes: those pushed, and what the iterator has left.
abbrev pub take_bytes : ℕ → List ℕ → List ℕ × List ℕ
take_bytes zero bytes = ([], bytes)
take_bytes (suc n) [] = ([], [])
take_bytes (suc n) (b ∷ bytes) = let (pushed, left) = take_bytes n bytes in (b ∷ pushed, left)

module _ {F : Type 0} ⦃f : PrimeField F⦄ where
  abbrev pub elem_of : List ℕ → Option F
  elem_of [] = none
  elem_of (b ∷ bs) = some (f.from_le_bytes_mod_order (b ∷ bs))

  -- The loop has as many rounds as the vector has room for: `with_capacity` is the capacity of the
  -- vector that `Vec::with_capacity` makes for so many bytes, which may be more.
  unfoldable pub next_elem : (ℕ → ℕ) → BytesToField → Option F × BytesToField
  next_elem with_capacity it =
      let (elem_bytes, left) = take_bytes (with_capacity it.elem_byte_capacity) it.bytes_iter in
      (elem_of elem_bytes, record it { bytes_iter = left })

  abbrev pub byte_or :
      FieldToBytes F → List ℕ → Option ℕ × FieldToBytes F → Option ℕ × FieldToBytes F
  byte_or it [] otherwise = otherwise
  byte_or it (b ∷ bs) otherwise = (some b, record it { bytes_iter = bs })

  abbrev pub byte_of_elems : FieldToBytes F → List F → Option ℕ × FieldToBytes F
  byte_of_elems it [] = (none, it)
  byte_of_elems it (e ∷ es) =
      let bytes = take it.elem_byte_capacity (f.to_bytes_le (f.into_bigint e)) in
      let refilled = record it { elems_iter = es; bytes_iter = [] } in
      byte_or refilled bytes (none, refilled)

  unfoldable pub next_byte : FieldToBytes F → Option ℕ × FieldToBytes F
  next_byte it = byte_or it it.bytes_iter (byte_of_elems it it.elems_iter)

  -- `collect` on the iterators, with fuel for each item and the `None`.
  unfoldable pub bytes_to_field : (ℕ → ℕ) → List ℕ → List F
  bytes_to_field with_capacity bytes =
      collect_with (next_elem with_capacity) (suc (length bytes))
        (record { bytes_iter = bytes; elem_byte_capacity = elem_byte_capacity f })

  unfoldable pub field_to_bytes : List F → List ℕ
  field_to_bytes elems =
      collect_with next_byte (suc (length elems * elem_byte_capacity f))
        (record { elems_iter = elems; bytes_iter = []; elem_byte_capacity = elem_byte_capacity f })
