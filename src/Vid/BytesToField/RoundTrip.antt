-- ===== src/Vid/BytesToField/RoundTrip.antt =====
-- `field_to_bytes` of `bytes_to_field` (primitives/src/vid/advz/bytes_to_field.rs).
use native.Mathlib.Nat.{suc-mul}
use jellyfish.Prelude.{
  ℕ, suc, ◌+◌, ◌-◌, ◌*◌, ◌≤◌, ◌<◌, ◌≡◌, refl, ap, sym, ◌∙◌, Option, none, List, [], ◌∷◌, ◌++◌,
  length, length-append, length-take, take, replicate, head?, tail, collect_with,
  collect_with-content, arith,
}
use jellyfish.Vid.BytesToField.{
  PrimeField, IsPrimeField, AreBytes, elem_byte_capacity, FieldToBytes, next_elem, byte_or,
  next_byte, bytes_to_field, field_to_bytes,
}
use jellyfish.Vid.BytesToField.Chunks.{all_bytes, reads, elems-all_bytes}

module _ {F : Type 0} ⦃f : PrimeField F⦄ (law : IsPrimeField f) where
  -- The bytes that a `FieldToBytes` has left.
  abbrev content : FieldToBytes F → List ℕ
  content it = it.bytes_iter ++ all_bytes it.elem_byte_capacity it.elems_iter

  abbrev IsAble : FieldToBytes F → Type 0
  IsAble it = (0 < it.elem_byte_capacity) × (it.elem_byte_capacity ≤ law.num_bytes)

  -- The call gave the first of these bytes, left the others, and left the state able.
  abbrev Gives : List ℕ → Option ℕ × FieldToBytes F → Type 0
  Gives bytes (item, it) = (item ≡ head? bytes) × (content it ≡ tail bytes) × IsAble it

  refill-Gives :
      (it : FieldToBytes F) (chunk : List ℕ)
      → IsAble it
      → 0 < length chunk
      → Gives (chunk ++ all_bytes it.elem_byte_capacity it.elems_iter) (byte_or it chunk (none, it))
  refill-Gives it [] able l = absurd (omega arith)
  refill-Gives it (b ∷ bs) able l = (refl, refl, able)

  next_byte-Gives_of :
      (elems : List F) (bytes : List ℕ) (n : ℕ)
      → let it : FieldToBytes F = record {
        elems_iter = elems;
        bytes_iter = bytes;
        elem_byte_capacity = n;
      } in
        IsAble it → Gives (content it) (next_byte it)
  unfolding next_byte
  next_byte-Gives_of elems (b ∷ bs) n able = (refl, refl, able)
  next_byte-Gives_of [] [] n able = (refl, refl, able)
  next_byte-Gives_of (e ∷ es) [] n able =
      let all = f.to_bytes_le (f.into_bigint e) in
      refill-Gives (record { elems_iter = es; bytes_iter = []; elem_byte_capacity = n })
        (take n all) able
        (omega (arith, length-take {0} n all, law.length_of_bytes (f.into_bigint e)))

  next_byte-Gives : (it : FieldToBytes F) → IsAble it → Gives (content it) (next_byte it)
  next_byte-Gives it able =
      next_byte-Gives_of it.elems_iter it.bytes_iter it.elem_byte_capacity able

  length-all_bytes : (n : ℕ) (es : List F) → length (all_bytes n es) ≤ length es * n
  length-all_bytes n [] = omega arith
  length-all_bytes n (e ∷ es) =
      let chunk = take n (f.to_bytes_le (f.into_bigint e)) in
      let expand : suc (length es) * n ≡ n + length es * n = suc-mul (length es) n ∙ omega arith in
      omega (
        arith,
        expand,
        length-all_bytes n es,
        length-append {0} chunk (all_bytes n es),
        length-take {0} n (f.to_bytes_le (f.into_bigint e)),
      )

  field_to_bytes-all_bytes :
      (c : ℕ) (es : List F)
      → elem_byte_capacity f ≡ suc c
      → field_to_bytes es ≡ all_bytes (suc c) es
  unfolding field_to_bytes
  field_to_bytes-all_bytes c es e =
      let able : elem_byte_capacity f ≤ law.num_bytes =
        unfold elem_byte_capacity in omega (arith, law.bits_le_num_bytes) in
      collect_with-content next_byte content IsAble next_byte-Gives
        (suc (length es * elem_byte_capacity f)) _ _ (omega arith, able)
        (ap (λ n. all_bytes n es) e)
        (omega (arith, length-all_bytes (suc c) es, ap (λ n. length es * n) e))

  bytes_to_field-all_bytes :
      (room : ℕ → ℕ) (c : ℕ) (bytes : List ℕ)
      → elem_byte_capacity f ≡ suc c
      → all_bytes (suc c) (bytes_to_field {F = F} room bytes)
        ≡ all_bytes
            (suc c)
            (collect_with (next_elem {F = F} room) (suc (length bytes)) (reads (suc c) bytes))
  unfolding bytes_to_field
  bytes_to_field-all_bytes room c bytes e =
      ap
        (λ n.
          all_bytes (suc c)
            (collect_with (next_elem {F = F} room) (suc (length bytes)) (reads n bytes)))
        e

  -- Where a vector made for an element's bytes has room for just as many, and the modulus has more
  -- than eight bits, bytes come back from the field elements that they are read as, followed by fewer
  -- zeros than an element has bytes.
  pub field_to_bytes-bytes_to_field :
      (with_capacity : ℕ → ℕ) (bytes : List ℕ)
      → with_capacity (elem_byte_capacity f) ≡ elem_byte_capacity f
      → 8 < f.modulus_bit_size
      → AreBytes bytes
      → (n : ℕ) × (n < elem_byte_capacity f)
        × (field_to_bytes (bytes_to_field {F = F} with_capacity bytes) ≡ bytes ++ replicate n 0)
  field_to_bytes-bytes_to_field room bytes exact big a =
      let c = elem_byte_capacity f - 1 in
      let same : elem_byte_capacity f ≡ suc c = unfold elem_byte_capacity in omega arith in
      let just : room (suc c) ≡ suc c = ap room (sym same) ∙ exact ∙ same in
      let (n, few, back) =
        elems-all_bytes law room c just (suc (length bytes)) bytes same a (omega arith) in
      (
        n,
        omega arith,
        field_to_bytes-all_bytes c (bytes_to_field {F = F} room bytes) same
            ∙ bytes_to_field-all_bytes room c bytes same
            ∙ back,
      )
