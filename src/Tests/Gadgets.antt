-- ===== src/Tests/Gadgets.antt =====
-- Gadgets on a circuit over the field of two elements.
use jellyfish.Prelude.{true, false, [], ◌∷◌, refl, inr, arith, ◌≡◌}
use jellyfish.Relation.Gates.{four, two, ◌⊕◌, ◌⊗◌}
use jellyfish.Relation.Circuit.Realises.{Realises, Asserts}
use jellyfish.Relation.Gadgets.Arithmetic.{
  lc, mul_add, gen_quad_poly, add_constant, mul_constant, power_11_gen, power_11_gate,
}
use jellyfish.Relation.Gadgets.Computes.{gadgets-Realises}
use jellyfish.Relation.Gadgets.Power.{power_11-Realises}
use jellyfish.Relation.Gadgets.Sum.{sum}
use jellyfish.Relation.Gadgets.Sum.Lists.{summed}
use jellyfish.Relation.Gadgets.Sum.Total.{sum-Realises}
use jellyfish.Relation.Gadgets.Logic.{logic_and_all, is_equal, indicator}
use jellyfish.Relation.Gadgets.Logic.Computes.{product_from, logic_and_all-Realises}
use jellyfish.Relation.Gadgets.Logic.Zero.{is_equal-Realises}
use jellyfish.Relation.Gadgets.Logic.Select.{Selects, conditional_select-Selects}
use jellyfish.Relation.Gadgets.Range.{range_gate_internal}
use jellyfish.Relation.Gadgets.Range.Bits.{Decomposes, range_gate_internal-Decomposes}
use jellyfish.Tests.Relation.{bits, bits-IsField, bits-IsPower, power_bit}
use jellyfish.Tests.Circuit.{
  start, start-IsOpen, bits-IsCommutative, bits_inverses, bits-IsInverses, same_bit, bits_order,
}

gadgets-Realises_example :
    Realises
      (lc (four 0 1 1 0) (four true false true true))
      (λ w. true ⊗ w 0 ⊕ false ⊗ w 1 ⊕ true ⊗ w 1 ⊕ true ⊗ w 0)
      start
    × Realises
        (mul_add (four 0 1 1 0) (two true true))
        (λ w. true ⊗ w 0 ⊗ w 1 ⊕ true ⊗ w 1 ⊗ w 0)
        start
    × Realises
        (gen_quad_poly (four 0 1 1 0) (four true false true true) (two true true) true)
        (λ w.
          true ⊗ w 0
          ⊕ false ⊗ w 1
          ⊕ true ⊗ w 1
          ⊕ true ⊗ w 0
          ⊕ true ⊗ w 0 ⊗ w 1
          ⊕ true ⊗ w 1 ⊗ w 0
          ⊕ true)
        start
    × Realises (add_constant 0 true) (λ w. w 0 ⊕ true) start
    × Realises (mul_constant 0 true) (λ w. true ⊗ w 0) start
gadgets-Realises_example =
    gadgets-Realises start start-IsOpen 0 1 1 0 true false true true true true true
      (omega arith, omega arith, omega arith, omega arith)

power_11-Realises_example :
    Realises (power_11_gen 1) (λ w. power_bit (w 1) 11) start
    × Asserts (power_11_gate 1 0) (λ w. power_bit (w 1) 11 ≡ w 0) start
power_11-Realises_example = power_11-Realises start start-IsOpen 1 (omega arith) 0 (omega arith)

sum-Realises_example :
    Realises (sum (1 ∷ 1 ∷ 0 ∷ 1 ∷ 1 ∷ [])) (λ w. summed false w (1 ∷ 1 ∷ 0 ∷ 1 ∷ 1 ∷ [])) start
sum-Realises_example =
    sum-Realises 1 (1 ∷ 0 ∷ 1 ∷ 1 ∷ []) start start-IsOpen
      (omega arith, (omega arith, (omega arith, (omega arith, (omega arith, tt)))))

logic_and_all-Realises_example :
    Realises (logic_and_all (1 ∷ 1 ∷ 0 ∷ [])) (λ w. product_from (w 1) w (1 ∷ 0 ∷ [])) start
logic_and_all-Realises_example =
    logic_and_all-Realises 1 (1 ∷ 0 ∷ []) start start-IsOpen
      (omega arith, (omega arith, (omega arith, tt)))

is_equal-Realises_example : Realises (is_equal 1 0) (λ w. indicator (same_bit (w 1) (w 0))) start
is_equal-Realises_example = is_equal-Realises start start-IsOpen 1 0 (omega arith) (omega arith)

conditional_select-Selects_example : Selects 1 0 1 start
conditional_select-Selects_example =
    conditional_select-Selects start start-IsOpen 1 0 1 (omega arith) (omega arith) (omega arith)
      (inr refl) (λ w sat. inr (start-IsOpen.pinned w sat).1)

range_gate_internal-Decomposes_example : Decomposes (range_gate_internal 1 1) false 1 1 start
range_gate_internal-Decomposes_example =
    range_gate_internal-Decomposes 1 1 start start-IsOpen (omega arith) (omega arith) (omega arith)
      refl
