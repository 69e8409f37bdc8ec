-- ===== src/Relation/Gadgets/Range.antt =====
-- The gadgets of relation/src/gadgets/range.rs: decompositions, and ranges by bits.
pub mod Horner
pub mod Computes
pub mod Bits
use jellyfish.Prelude.{
  ℕ, zero, suc, ◌+◌, ◌-◌, ◌*◌, ◌/◌, Bool, true, false, ◌&&◌, ltb, ◌==◌, if◌then◌else◌, List, [],
  ◌∷◌, length, take, drop,
}
use jellyfish.Relation.Gates.{Field, Four, four, ◌⊗◌}
use jellyfish.Relation.Inverses.{Inverses, OrderedField}
use jellyfish.Relation.Circuit.Outcome.{
  parameter_error, Outcome, returned, failed, panicked, pure, inspect, ◌>>=◌, ◌>>◌, fail_if,
}
use jellyfish.Relation.Circuit.State.{row}
use jellyfish.Relation.Circuit.Operations.{Op, check_var_bound, witness, create_boolean_variable}
use jellyfish.Relation.Gadgets.Arithmetic.{lc, lc_gate}
use jellyfish.Relation.Gadgets.Sum.{next_multiple, resize, nth, sum}
use jellyfish.Relation.Gadgets.Logic.{is_zero}

-- A slice from past the end on is a panic.
abbrev rest_from : List ℕ → ℕ → Outcome (List ℕ)
rest_from xs n = if ltb (length xs) n then panicked else returned (drop n xs)

module _ {F : Type 0} ⦃f : Field F⦄ where
  -- The cube, the square, the range size and one.
  abbrev pub powers : F → Four F
  powers r = four (r ⊗ (r ⊗ r)) (r ⊗ r) r f.one

  -- The loop, for the rounds that are left, the index of the next, and the accumulator; `rate` is 3.
  unfoldable pub decomposition_rounds : F → List ℕ → ℕ → ℕ → ℕ → ℕ → Op F ℕ
  decomposition_rounds r padded padded_len zero i accum = pure accum
  decomposition_rounds r padded padded_len (suc rounds) i accum = do
    a ← nth padded (padded_len - 1 - 3 * i + 2)
    b ← nth padded (padded_len - 1 - 3 * i + 1)
    d ← nth padded (padded_len - 1 - 3 * i)
    next ← lc (four accum a b d) (powers r)
    decomposition_rounds r padded padded_len rounds (suc i) next

  -- The last round, whose output is the decomposed variable.
  abbrev pub last_round : F → List ℕ → ℕ → ℕ → Op F (Unit {0})
  last_round r padded a accum = do
    p2 ← nth padded 2
    p1 ← nth padded 1
    p0 ← nth padded 0
    lc_gate (row accum p2 p1 p0 a) (powers r)

  -- The length of the chunks less one is an underflow, so a panic, where there is none.
  unfoldable pub decomposition_gate : List ℕ → ℕ → F → Op F (Unit {0})
  decomposition_gate [] a range_size = inspect λ c. panicked
  decomposition_gate (x ∷ xs) a range_size = do
    multiple ← inspect λ c. next_multiple (length (x ∷ xs) - 1) 3
    first ← nth (resize (multiple + 1) 0 (x ∷ xs)) multiple
    accum ←
        decomposition_rounds range_size (resize (multiple + 1) 0 (x ∷ xs)) (multiple + 1)
          ((multiple + 1) / 3 - 1) 1 first
    last_round range_size (resize (multiple + 1) 0 (x ∷ xs)) a accum

  -- A boolean variable for each bit.
  unfoldable pub create_bits : List Bool → Op F (List ℕ)
  create_bits [] = pure []
  create_bits (b ∷ bits) = do
    var ← create_boolean_variable b
    vars ← create_bits bits
    pure (var ∷ vars)

  module _ ⦃prime : OrderedField F⦄ where
    unfoldable pub binary_decomposition_gate : List ℕ → ℕ → Op F (Unit {0})
    binary_decomposition_gate a_bits_le a = decomposition_gate a_bits_le a (prime.from 2)

    unfoldable pub range_gate_internal : ℕ → ℕ → Op F (List ℕ)
    range_gate_internal a bit_len = do
      check_var_bound a
      fail_if (bit_len == 0)
          (parameter_error "Only allows positive bit length for range upper bound")
      a_val ← witness a
      fail_if (ltb (length (prime.to_bits_le a_val)) bit_len)
          (parameter_error "Maximum field bit size: {}, requested range upper bound bit len: {}")
      a_bits_le ← create_bits (take bit_len (prime.to_bits_le a_val))
      binary_decomposition_gate a_bits_le a
      pure a_bits_le

    -- The size test of `unpack`, which reads the value only for a short length.
    abbrev checked_size : ℕ → ℕ → Op F (Unit {0})
    checked_size a bit_len =
        if ltb bit_len prime.modulus_bit_size
        then (do
          a_val ← witness a
          fail_if (prime.geq a_val (f.pow (prime.from 2) bit_len))
              (parameter_error "Failed to unpack variable to a range of smaller than 2^bit_len"))
        else pure tt

    unfoldable pub unpack : ℕ → ℕ → Op F (List ℕ)
    unpack a bit_len = do checked_size a bit_len; range_gate_internal a bit_len

    unfoldable pub is_in_range : ⦃inv : Inverses F⦄ → ℕ → ℕ → Op F ℕ
    is_in_range a bit_len = do
      a_bit_le ← unpack a prime.modulus_bit_size
      higher ← inspect λ c. rest_from a_bit_le bit_len
      higher_bit_sum ← sum higher
      is_zero higher_bit_sum
