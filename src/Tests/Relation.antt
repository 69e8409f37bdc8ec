-- ===== src/Tests/Relation.antt =====
-- The gates over the field of two elements.
use jellyfish.Prelude.{ℕ, zero, suc, ◌≡◌, refl, ◌↔◌, Bool, true, false, ◌&&◌, not}
use jellyfish.Relation.Gates.{
  Field, four, two, ◌⊕◌, ◌⊗◌, ◌⊖◌, constant_gate, addition_gate, constant_addition_gate,
  subtraction_gate, multiplication_gate, constant_multiplication_gate, fifth_root_gate,
  lin_comb_gate, mul_add_gate, logic_or_output_gate, cond_select_gate, bool_gate, equality_gate,
  logic_or_gate,
}
use jellyfish.Relation.Gates.Meaning.{
  IsField, IsPower, Computes, Holds, gates-Computes, cond_select_gate-selects, checks-Holds,
}

abbrev pub xor : Bool → Bool → Bool
xor false b = b
xor true b = not b

abbrev pub power_bit : Bool → ℕ → Bool
power_bit a zero = true
power_bit a (suc n) = power_bit a n && a

instance abbrev pub bits : Field Bool
bits = record {
  zero = false;
  one = true;
  add = xor;
  mul = λ a b. a && b;
  neg = λ a. a;
  pow = power_bit;
}

xor-false : (a : Bool) → xor a false ≡ a
xor-false true = refl
xor-false false = refl

xor_self : (a : Bool) → xor a a ≡ false
xor_self true = refl
xor_self false = refl

and_false : (a : Bool) → (a && false) ≡ false
and_false true = refl
and_false false = refl

instance pub bits-IsPower : IsPower bits
bits-IsPower = record { pow_zero = λ x. refl; pow_suc = λ x n. refl }

instance pub bits-IsField : IsField bits
bits-IsField = record {
  add_zero = xor-false;
  zero_add = λ a. refl;
  add_neg = xor_self;
  zero_mul = λ a. refl;
  mul_zero = and_false;
  one_mul = λ a. refl;
  neg_mul = λ a b. refl;
}

gates-Computes_example :
    Computes {F = Bool} (constant_gate true) (λ a b c d. true)
    × Computes {F = Bool} addition_gate (λ a b c d. a ⊕ b)
    × Computes {F = Bool} (constant_addition_gate true) (λ a b c d. a ⊕ true)
    × Computes {F = Bool} subtraction_gate (λ a b c d. a ⊖ b)
    × Computes {F = Bool} multiplication_gate (λ a b c d. a ⊗ b)
    × Computes {F = Bool} (constant_multiplication_gate true) (λ a b c d. true ⊗ a)
    × Computes {F = Bool} fifth_root_gate (λ a b c d. bits.pow a 5)
    × Computes {F = Bool}
        (lin_comb_gate (four true false true true))
        (λ a b c d. true ⊗ a ⊕ false ⊗ b ⊕ true ⊗ c ⊕ true ⊗ d)
    × Computes {F = Bool} (mul_add_gate (two true true)) (λ a b c d. true ⊗ a ⊗ b ⊕ true ⊗ c ⊗ d)
    × Computes {F = Bool} logic_or_output_gate (λ a b c d. a ⊕ b ⊖ a ⊗ b)
gates-Computes_example = gates-Computes true true false true true true true

cond_select_gate-selects_example :
    (Holds {F = Bool} cond_select_gate (four false true false false) true ↔ (true ≡ true))
    × (Holds {F = Bool} cond_select_gate (four true true true false) true ↔ (false ≡ true))
cond_select_gate-selects_example = cond_select_gate-selects true false true

checks-Holds_example :
    (Holds {F = Bool} bool_gate (four true true false false) true ↔ (true ⊗ true ≡ true))
    × (Holds {F = Bool} equality_gate (four true false false false) false ↔ (true ⊖ false ≡ false))
    × (Holds {F = Bool} logic_or_gate (four true false false false) true
        ↔ (true ⊕ false ⊖ true ⊗ false ⊖ true ≡ false))
checks-Holds_example = checks-Holds true false true
