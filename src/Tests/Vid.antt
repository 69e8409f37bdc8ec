-- ===== src/Tests/Vid.antt =====
-- Runs of `bytes_to_field` and `field_to_bytes` over the field of 65537 elements, which holds two
-- bytes in an element.
use jellyfish.Prelude.{
  ℕ, ◌/◌, ◌%◌, ◌<◌, ◌≡◌, refl, List, [], ◌∷◌, ◌++◌, replicate, collect_with, arith,
}
use jellyfish.Vid.BytesToField.{
  PrimeField, IsPrimeField, le_value, elem_byte_capacity, next_elem, bytes_to_field, field_to_bytes,
}
use jellyfish.Vid.BytesToField.RoundTrip.{field_to_bytes-bytes_to_field}

abbrev three_bytes : ℕ → List ℕ
three_bytes n = n % 256 ∷ n / 256 % 256 ∷ n / 65536 % 256 ∷ []

instance abbrev fermat : PrimeField ℕ
fermat = record {
  modulus_bit_size = 17;
  from_le_bytes_mod_order = λ bs. le_value bs % 65537;
  into_bigint = λ e. e;
  to_bytes_le = three_bytes;
}

fermat-IsPrimeField : IsPrimeField fermat
fermat-IsPrimeField = record {
  modulus = 65537;
  num_bytes = 3;
  modulus_bits = omega arith;
  bits_le_num_bytes = omega arith;
  into_bigint_of_bytes = λ bs a. refl;
  length_of_bytes = λ n. refl;
  bytes_of_bigint = λ n. (omega arith, (omega arith, (omega arith, tt)));
  value_of_bytes = λ n lt. omega arith;
}

bytes_to_field_run : bytes_to_field {F = ℕ} (λ n. n) (1 ∷ 2 ∷ 3 ∷ []) ≡ 513 ∷ 3 ∷ []
unfolding bytes_to_field collect_with next_elem elem_byte_capacity
bytes_to_field_run = refl

field_to_bytes-bytes_to_field_example :
    (n : ℕ) × (n < elem_byte_capacity fermat)
    × (field_to_bytes (bytes_to_field {F = ℕ} (λ n. n) (1 ∷ 2 ∷ 3 ∷ []))
        ≡ 1 ∷ 2 ∷ 3 ∷ [] ++ replicate n 0)
field_to_bytes-bytes_to_field_example =
    field_to_bytes-bytes_to_field fermat-IsPrimeField (λ n. n) (1 ∷ 2 ∷ 3 ∷ []) refl (omega arith)
      (omega arith, (omega arith, (omega arith, tt)))
