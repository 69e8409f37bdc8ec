-- ===== src/Vid/BytesToField/Chunks.antt =====
-- The chunks of bytes that `BytesToField` (primitives/src/vid/advz/bytes_to_field.rs) makes elements
-- of, written back.
use native.Mathlib.Nat.{pow-suc, pow-le-pow_right, mod-eq_of_lt}
use jellyfish.Prelude.{
  ℕ, zero, suc, ◌+◌, ◌-◌, ◌*◌, ◌/◌, ◌^◌, ◌≤◌, ◌<◌, ◌≡◌, refl, ap, sym, ◌∙◌, none, some, List, [],
  ◌∷◌, ◌++◌, length, length-append, append_assoc, append_nil, length-replicate, length-take,
  length-drop, take, drop, replicate, take-append-drop, collect_with, collect_with-none,
  collect_with-some, arith,
}
use jellyfish.Vid.BytesToField.{
  PrimeField, IsPrimeField, le_value, AreBytes, elem_byte_capacity, BytesToField, take_bytes,
  next_elem,
}
use jellyfish.Vid.BytesToField.Digits.{
  le_value-lt, le_value_injective, le_value-zeros, zeros-AreBytes,
}

take_bytes_lem : (n : ℕ) (bytes : List ℕ) → take_bytes n bytes ≡ (take n bytes, drop n bytes)
take_bytes_lem zero bytes = refl
take_bytes_lem (suc n) [] = refl
take_bytes_lem (suc n) (b ∷ bytes) = rw (take_bytes_lem n bytes)

take-replicate : (n k : ℕ) → n ≤ k → ◌≡◌ {A = List ℕ} (take n (replicate k 0)) (replicate n 0)
take-replicate zero k l = refl
take-replicate (suc n) zero l = absurd (omega arith)
take-replicate (suc n) (suc k) l = ap (◌∷◌ 0) (take-replicate n k (omega arith))

take-zeros :
    (n : ℕ) (bs : List ℕ) (k : ℕ)
    → length bs ≤ n
    → n ≤ length bs + k
    → take n (bs ++ replicate k 0) ≡ bs ++ replicate (n - length bs) 0
take-zeros n [] k l m = take-replicate n k (omega arith) ∙ ap (λ i. replicate i 0) (omega arith)
take-zeros zero (b ∷ bs) k l m = absurd (omega arith)
take-zeros (suc n) (b ∷ bs) k l m =
    ap (◌∷◌ b)
      (take-zeros n bs k (omega arith) (omega arith) ∙ ap (λ i. bs ++ replicate i 0) (omega arith))

take-AreBytes : (n : ℕ) (bs : List ℕ) → AreBytes bs → AreBytes (take n bs)
take-AreBytes zero bs a = tt
take-AreBytes (suc n) [] a = tt
take-AreBytes (suc n) (b ∷ bs) (lt, a) = (lt, take-AreBytes n bs a)

drop-AreBytes : (n : ℕ) (bs : List ℕ) → AreBytes bs → AreBytes (drop n bs)
drop-AreBytes zero bs a = a
drop-AreBytes (suc n) [] a = tt
drop-AreBytes (suc n) (b ∷ bs) (lt, a) = drop-AreBytes n bs a

pow_256 : (n : ℕ) → 256 ^ n ≡ 2 ^ (8 * n)
pow_256 zero = refl
pow_256 (suc n) =
    let ih = pow_256 n in
    let twice : (m k : ℕ) → k ≡ suc m → 2 ^ k ≡ 2 ^ m * 2 =
      λ m k e. ap (λ i. 2 ^ i) e ∙ pow-suc 2 m in
    let m = 8 * n in
    let low : 2 ^ (m + 4) ≡ 2 ^ m * 16 = omega (
      arith,
      twice m (m + 1) (omega arith),
      twice (m + 1) (m + 2) (omega arith),
      twice (m + 2) (m + 3) (omega arith),
      twice (m + 3) (m + 4) (omega arith),
    ) in
    let high : 2 ^ (8 * suc n) ≡ 2 ^ (m + 4) * 16 = omega (
      arith,
      twice (m + 4) (m + 5) (omega arith),
      twice (m + 5) (m + 6) (omega arith),
      twice (m + 6) (m + 7) (omega arith),
      twice (m + 7) (8 * suc n) (omega arith),
    ) in
    pow-suc 256 n ∙ omega (arith, ih, low, high)

-- So many bytes have fewer bits than the modulus.
bytes_lt_modulus :
    (len bits modulus : ℕ) → len ≤ (bits - 1) / 8 → 2 ^ (bits - 1) ≤ modulus → 256 ^ len ≤ modulus
bytes_lt_modulus len bits modulus l m =
    let as_bits : 256 ^ len ≡ 2 ^ (8 * len) = pow_256 len in
    let fewer : 2 ^ (8 * len) ≤ 2 ^ (bits - 1) = pow-le-pow_right (omega arith) (omega arith) in
    omega arith

module _ {F : Type 0} ⦃f : PrimeField F⦄ (law : IsPrimeField f) where
  -- A field element made from few bytes gives them back, and zeros.
  to_bytes_le-from_le_bytes :
      (bs : List ℕ)
      → AreBytes bs
      → length bs ≤ elem_byte_capacity f
      → f.to_bytes_le (f.into_bigint (f.from_le_bytes_mod_order bs))
        ≡ bs ++ replicate (law.num_bytes - length bs) 0
  unfolding elem_byte_capacity
  to_bytes_le-from_le_bytes bs a l =
      let n = f.into_bigint (f.from_le_bytes_mod_order bs) in
      let few : length bs ≤ law.num_bytes = omega (arith, law.bits_le_num_bytes) in
      let small : le_value bs < law.modulus = omega (
        arith,
        le_value-lt bs a,
        bytes_lt_modulus (length bs) f.modulus_bit_size law.modulus l law.modulus_bits,
      ) in
      let kept : n ≡ le_value bs = law.into_bigint_of_bytes bs a ∙ mod-eq_of_lt small in
      le_value_injective (f.to_bytes_le n) (bs ++ replicate (law.num_bytes - length bs) 0)
        (law.bytes_of_bigint n) (zeros-AreBytes bs _ a)
        (law.length_of_bytes n
          ∙ omega (
            arith,
            few,
            length-append {0} bs (replicate (law.num_bytes - length bs) 0),
            length-replicate {A = ℕ} (law.num_bytes - length bs) 0,
          ))
        (law.value_of_bytes n (omega arith) ∙ kept ∙ sym (le_value-zeros bs _))

abbrev pub reads : ℕ → List ℕ → BytesToField
reads n bytes = record { bytes_iter = bytes; elem_byte_capacity = n }

module _ {F : Type 0} ⦃f : PrimeField F⦄ where
  -- The bytes that the elements are written as.
  abbrev pub all_bytes : ℕ → List F → List ℕ
  all_bytes n [] = []
  all_bytes n (e ∷ es) = take n (f.to_bytes_le (f.into_bigint e)) ++ all_bytes n es

module _ {F : Type 0} ⦃f : PrimeField F⦄ (room : ℕ → ℕ) (c : ℕ) (exact : room (suc c) ≡ suc c) where
  next_elem-cons :
      (b : ℕ) (bs : List ℕ)
      → next_elem room (reads (suc c) (b ∷ bs))
        ≡ (some (f.from_le_bytes_mod_order (b ∷ take c bs)), reads (suc c) (drop c bs))
  unfolding next_elem
  next_elem-cons b bs = rw (exact, take_bytes_lem c bs) refl

  next_elem-nil : (next_elem {F = F} room (reads (suc c) [])).0 ≡ none
  unfolding next_elem
  next_elem-nil = rw exact refl

  elems-nil : (fuel : ℕ) → collect_with (next_elem {F = F} room) fuel (reads (suc c) []) ≡ []
  elems-nil fuel = collect_with-none (next_elem room) fuel (reads (suc c) []) next_elem-nil

  elems-cons :
      (fuel b : ℕ) (bs : List ℕ)
      → collect_with (next_elem room) (suc fuel) (reads (suc c) (b ∷ bs))
        ≡ f.from_le_bytes_mod_order (b ∷ take c bs)
          ∷ collect_with (next_elem room) fuel (reads (suc c) (drop c bs))
  elems-cons fuel b bs =
      collect_with-some (next_elem room) fuel (reads (suc c) (b ∷ bs))
        (ap (λ r. r.0) (next_elem-cons b bs))
      ∙ ap (λ r. f.from_le_bytes_mod_order (b ∷ take c bs) ∷ collect_with (next_elem room) fuel r.1)
          (next_elem-cons b bs)

module _ {F : Type 0} ⦃f : PrimeField F⦄ (law : IsPrimeField f) where
  -- A chunk that is full unless it is the last, followed by the others.
  join_chunks :
      (c : ℕ) (chunk rest others : List ℕ) (n : ℕ)
      → 0 < length chunk
      → length chunk ≤ suc c
      → (0 < length rest → length chunk ≡ suc c)
      → (length rest ≡ 0 → others ≡ [])
      → n < suc c
      → others ≡ rest ++ replicate n 0
      → (m : ℕ) × (m < suc c)
        × (chunk ++ replicate (suc c - length chunk) 0 ++ others ≡ chunk ++ rest ++ replicate m 0)
  join_chunks c chunk [] others n pos l full last lt e = (
    suc c - length chunk,
    omega arith,
    ap (λ zs. chunk ++ replicate (suc c - length chunk) 0 ++ zs) (last refl)
        ∙ append_nil (chunk ++ replicate (suc c - length chunk) 0)
        ∙ ap (λ xs. xs ++ replicate (suc c - length chunk) 0) (sym (append_nil chunk)),
  )
  join_chunks c chunk (x ∷ xs) others n pos l full last lt e =
      let whole : suc c - length chunk ≡ 0 = omega (arith, full (omega arith)) in
      (
        n,
        lt,
        ap (λ k. chunk ++ replicate k 0 ++ others) whole
            ∙ ap (λ ys. ys ++ others) (append_nil chunk)
            ∙ ap (λ ys. chunk ++ ys) e
            ∙ sym (append_assoc chunk (x ∷ xs) (replicate n 0)),
      )

  -- One chunk, written back.
  chunk_back :
      (c : ℕ) (bs : List ℕ)
      → elem_byte_capacity f ≡ suc c
      → AreBytes bs
      → length bs ≤ suc c
      → take (suc c) (f.to_bytes_le (f.into_bigint (f.from_le_bytes_mod_order bs)))
        ≡ bs ++ replicate (suc c - length bs) 0
  chunk_back c bs e a l =
      ap (take (suc c)) (to_bytes_le-from_le_bytes law bs a (omega arith))
      ∙ take-zeros (suc c) bs (law.num_bytes - length bs) l
          (unfold elem_byte_capacity in omega (arith, law.bits_le_num_bytes))

module _ {F : Type 0} ⦃f : PrimeField F⦄ (law : IsPrimeField f) (room : ℕ → ℕ) (c : ℕ)
    (exact : room (suc c) ≡ suc c) where
  all_bytes-nil :
      (fuel : ℕ) (bytes : List ℕ)
      → length bytes ≡ 0
      → all_bytes (suc c) (collect_with (next_elem {F = F} room) fuel (reads (suc c) bytes)) ≡ []
  all_bytes-nil fuel [] l = ap (all_bytes (suc c)) (elems-nil room c exact fuel)
  all_bytes-nil fuel (b ∷ bs) l = absurd (omega arith)

  pub elems-all_bytes :
      (fuel : ℕ) (bytes : List ℕ)
      → elem_byte_capacity f ≡ suc c
      → AreBytes bytes
      → length bytes < fuel
      → (n : ℕ) × (n < suc c)
        × (all_bytes (suc c) (collect_with (next_elem {F = F} room) fuel (reads (suc c) bytes))
            ≡ bytes ++ replicate n 0)
  elems-all_bytes zero bytes e a l = absurd (omega arith)
  elems-all_bytes (suc fuel) [] e a l =
      (0, omega arith, ap (all_bytes (suc c)) (elems-nil room c exact (suc fuel)))
  elems-all_bytes (suc fuel) (b ∷ bs) e (lt, a) l =
      let chunk = b ∷ take c bs in
      let rest = drop c bs in
      let left =
        all_bytes {F = F} (suc c) (collect_with (next_elem room) fuel (reads (suc c) rest)) in
      let (n, few, others) =
        elems-all_bytes fuel rest e (drop-AreBytes c bs a) (omega (arith, length-drop {0} c bs)) in
      let sizes = length-take {0} c bs in
      let (m, few', joined) =
        join_chunks law c chunk rest left n (omega arith) (omega (arith, sizes))
          (λ more. omega (arith, sizes, length-drop {0} c bs))
          (λ done. all_bytes-nil fuel rest done) few others in
      (
        m,
        few',
        ap (all_bytes (suc c)) (elems-cons room c exact fuel b bs)
            ∙ ap (λ xs. xs ++ left)
                (chunk_back law c chunk e (lt, take-AreBytes c bs a) (omega (arith, sizes)))
            ∙ joined
            ∙ ap (λ xs. b ∷ xs ++ replicate m 0) (take-append-drop c bs),
      )
