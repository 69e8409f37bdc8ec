-- ===== src/Tests/Circuit.antt =====
-- Circuits over the field of two elements.
use jellyfish.Prelude.{
  ◌≡◌, refl, ◌↔◌, ◌≢◌, Bool, true, false, ◌&&◌, not, ◌%◌, ◌==◌, ◌∷◌, Option, none, some, [], length,
  arith,
}
use jellyfish.Relation.Gates.{◌⊕◌, ◌⊗◌, ◌⊖◌}
use jellyfish.Relation.Gates.Meaning.{IsCommutative}
use jellyfish.Relation.Inverses.{Inverses, IsInverses, OrderedField}
use jellyfish.Relation.Gadgets.Compare.{
  is_lt, is_gt, is_leq, is_geq, enforce_lt, enforce_gt, enforce_leq, enforce_geq, is_lt_constant,
  is_leq_constant, is_gt_constant, is_geq_constant, enforce_lt_constant, enforce_leq_constant,
  enforce_gt_constant, enforce_geq_constant,
}
use jellyfish.Relation.Circuit.Outcome.{returned, var_index_out_of_bound}
use jellyfish.Relation.Circuit.State.{PlonkParams, turbo_plonk, PlonkCircuit}
use jellyfish.Relation.Circuit.Operations.{
  witness, create_variable, create_constant_variable, create_public_variable,
  create_boolean_variable, create_public_boolean_variable, enforce_constant, enforce_bool,
  enforce_equal, add_gate, sub_gate, mul_gate, add, sub, mul,
}
use jellyfish.Relation.Circuit.Model.{IsOpen}
use jellyfish.Relation.Circuit.Agreement.{IsSatisfied}
use jellyfish.Relation.Circuit.New.{
  fresh, new_turbo_plonk, new_ultra_plonk, fresh-IsOpen, new-IsOpen,
}
use jellyfish.Relation.Circuit.Keeps.{Keeps}
use jellyfish.Relation.Circuit.Invariant.{operations-Keeps}
use jellyfish.Relation.Circuit.Errors.{Fails, out_of_bound-Fails}
use jellyfish.Relation.Circuit.Permutation.Cycles.{Permutes, compute_wire_permutation-Permutes}
use jellyfish.Relation.Circuit.Realises.{Realises, Asserts}
use jellyfish.Relation.Circuit.Computes.{arithmetic-Realises, constraints-Asserts}
use jellyfish.Relation.Circuit.Check.{check_circuit_satisfiability}
use jellyfish.Relation.Circuit.Check.Decides.{InputsAgree, check_circuit_satisfiability_iff}
use jellyfish.Tests.Relation.{bits, bits-IsField, xor}

xor_comm : (a b : Bool) → xor a b ≡ xor b a
xor_comm true true = refl
xor_comm true false = refl
xor_comm false true = refl
xor_comm false false = refl

xor_assoc : (a b c : Bool) → xor (xor a b) c ≡ xor a (xor b c)
xor_assoc true true true = refl
xor_assoc true true false = refl
xor_assoc true false c = refl
xor_assoc false b c = refl

and_comm : (a b : Bool) → (a && b) ≡ (b && a)
and_comm true true = refl
and_comm true false = refl
and_comm false true = refl
and_comm false false = refl

and_assoc : (a b c : Bool) → ((a && b) && c) ≡ (a && (b && c))
and_assoc true b c = refl
and_assoc false b c = refl

and-xor : (a b c : Bool) → (a && xor b c) ≡ xor (a && b) (a && c)
and-xor true b c = refl
and-xor false b c = refl

instance pub bits-IsCommutative : IsCommutative bits
bits-IsCommutative = record {
  add_comm = xor_comm;
  add_assoc = xor_assoc;
  mul_comm = and_comm;
  mul_assoc = and_assoc;
  mul_add = and-xor;
}

abbrev pub same_bit : Bool → Bool → Bool
same_bit true b = b
same_bit false b = not b

abbrev pub inverse_bit : Bool → Option Bool
inverse_bit true = some true
inverse_bit false = none

instance abbrev pub bits_inverses : Inverses Bool
bits_inverses = record { is_zero_value = λ a. not a; beq = same_bit; inverse = inverse_bit }

instance abbrev pub bits_order : OrderedField Bool
bits_order = record {
  geq = λ a b. not (not a && b);
  from = λ n. n % 2 == 1;
  to_bits_le = λ a. a ∷ [];
  modulus_bit_size = 1;
  modulus_minus_one_div_two = false;
}

not_iff : (a : Bool) → (not a ≡ true) ↔ (a ≡ false)
not_iff true = ((λ e. cc), (λ e. cc))
not_iff false = ((λ e. refl), (λ e. refl))

same_bit_iff : (a b : Bool) → (same_bit a b ≡ true) ↔ (a ≡ b)
same_bit_iff true true = ((λ e. refl), (λ e. refl))
same_bit_iff true false = ((λ e. cc), (λ e. cc))
same_bit_iff false true = ((λ e. cc), (λ e. cc))
same_bit_iff false false = ((λ e. refl), (λ e. refl))

instance pub bits-IsInverses : IsInverses bits bits_inverses
bits-IsInverses = record {
  is_zero_iff = not_iff;
  beq_iff = same_bit_iff;
  inverse_of = inverse_of;
  one≢zero = λ e. cc;
}
  where
    inverse_of : (x : Bool) → x ≢ false → (y : Bool) × (inverse_bit x ≡ some y) × ((x && y) ≡ true)
    inverse_of true h = (true, refl, refl)
    inverse_of false h = absurd (h refl)

abbrev pub turbo : PlonkParams
turbo = record { plonk_type = turbo_plonk; range_bit_len = none }

abbrev pub start : PlonkCircuit Bool
start = fresh turbo

pub start-IsOpen : IsOpen start
start-IsOpen = fresh-IsOpen turbo

abbrev finished : PlonkCircuit Bool
finished = record start { eval_domain = 4 }

new-IsOpen_example :
    ((c : PlonkCircuit Bool) × (new_turbo_plonk ≡ returned c) × IsOpen c × IsSatisfied c)
    × ((c : PlonkCircuit Bool) × (new_ultra_plonk 8 ≡ returned c) × IsOpen c × IsSatisfied c)
new-IsOpen_example = new-IsOpen 8

arithmetic-Realises_example :
    Realises (add 0 1) (λ w. w 0 ⊕ w 1) start
    × Realises (sub 0 1) (λ w. w 0 ⊖ w 1) start
    × Realises (mul 0 1) (λ w. w 0 ⊗ w 1) start
arithmetic-Realises_example = arithmetic-Realises start start-IsOpen 0 1 (omega arith) (omega arith)

constraints-Asserts_example :
    Asserts (enforce_constant 1 true) (λ w. true ≡ w 1) start
    × Asserts (enforce_bool 1) (λ w. w 1 ⊗ w 1 ≡ w 1) start
    × Asserts (enforce_equal 1 0) (λ w. w 1 ⊖ w 0 ≡ w 0) start
    × Asserts (add_gate 1 0 1) (λ w. w 1 ⊕ w 0 ≡ w 1) start
    × Asserts (sub_gate 1 0 1) (λ w. w 1 ⊖ w 0 ≡ w 1) start
    × Asserts (mul_gate 1 0 1) (λ w. w 1 ⊗ w 0 ≡ w 1) start
constraints-Asserts_example =
    constraints-Asserts start start-IsOpen 1 0 1 true (omega arith) (omega arith) (omega arith)

operations-Keeps_example :
    Keeps {F = Bool} (create_variable true) start
    × Keeps {F = Bool} (create_constant_variable true) start
    × Keeps {F = Bool} (create_public_variable true) start
    × Keeps {F = Bool} (create_boolean_variable false) start
    × Keeps {F = Bool} (create_public_boolean_variable false) start
    × Keeps {F = Bool} (enforce_constant 7 true) start
    × Keeps {F = Bool} (enforce_bool 7) start
    × Keeps {F = Bool} (enforce_equal 7 1) start
    × Keeps {F = Bool} (add_gate 7 1 0) start
    × Keeps {F = Bool} (sub_gate 7 1 0) start
    × Keeps {F = Bool} (mul_gate 7 1 0) start
    × Keeps {F = Bool} (add 7 1) start
    × Keeps {F = Bool} (sub 7 1) start
    × Keeps {F = Bool} (mul 7 1) start
operations-Keeps_example = operations-Keeps start start-IsOpen 7 1 0 true false

out_of_bound-Fails_example :
    let e = var_index_out_of_bound 7 2 in
    Fails {F = Bool} (witness 7) e start
    × Fails {F = Bool} (enforce_constant 7 true) e start
    × Fails {F = Bool} (enforce_bool 7) e start
    × Fails {F = Bool} (enforce_equal 7 1) e start
    × Fails {F = Bool} (enforce_equal 1 7) e start
    × Fails {F = Bool} (add_gate 7 1 0) e start
    × Fails {F = Bool} (add_gate 1 7 0) e start
    × Fails {F = Bool} (add_gate 1 1 7) e start
    × Fails {F = Bool} (sub_gate 1 1 7) e start
    × Fails {F = Bool} (mul_gate 1 1 7) e start
    × Fails {F = Bool} (add 7 1) e start
    × Fails {F = Bool} (add 1 7) e start
    × Fails {F = Bool} (sub 1 7) e start
    × Fails {F = Bool} (mul 1 7) e start
    × Fails {F = Bool} (is_lt 7 1) e start
    × Fails {F = Bool} (is_lt 1 7) e start
    × Fails {F = Bool} (is_gt 1 7) e start
    × Fails {F = Bool} (is_leq 7 1) e start
    × Fails {F = Bool} (is_leq 1 7) e start
    × Fails {F = Bool} (is_geq 7 1) e start
    × Fails {F = Bool} (is_geq 1 7) e start
    × Fails {F = Bool} (enforce_lt 7 1) e start
    × Fails {F = Bool} (enforce_lt 1 7) e start
    × Fails {F = Bool} (enforce_gt 1 7) e start
    × Fails {F = Bool} (enforce_leq 1 7) e start
    × Fails {F = Bool} (enforce_geq 7 1) e start
    × Fails {F = Bool} (is_lt_constant 7 true) e start
    × Fails {F = Bool} (is_leq_constant 7 true) e start
    × Fails {F = Bool} (is_gt_constant 7 true) e start
    × Fails {F = Bool} (is_geq_constant 7 true) e start
    × Fails {F = Bool} (enforce_lt_constant 7 true) e start
    × Fails {F = Bool} (enforce_leq_constant 7 true) e start
    × Fails {F = Bool} (enforce_gt_constant 7 true) e start
    × Fails {F = Bool} (enforce_geq_constant 7 true) e start
out_of_bound-Fails_example = out_of_bound-Fails start 7 1 0 true (omega arith) (omega arith)

abbrev two_gates : PlonkCircuit Bool
two_gates = record start { eval_domain = 2 }

compute_wire_permutation-Permutes_example :
    Permutes {F = Bool}
      ((0 ∷ 0 ∷ []) ∷ (0 ∷ 0 ∷ []) ∷ (0 ∷ 0 ∷ []) ∷ (0 ∷ 0 ∷ []) ∷ (0 ∷ 1 ∷ []) ∷ [])
      two_gates
compute_wire_permutation-Permutes_example =
    compute_wire_permutation-Permutes two_gates (λ e. absurd (omega arith)) refl
      (
        refl,
        (omega arith, (omega arith, tt)),
        (
          refl,
          (omega arith, (omega arith, tt)),
          (
            refl,
            (omega arith, (omega arith, tt)),
            (refl, (omega arith, (omega arith, tt)), (refl, (omega arith, (omega arith, tt)), tt)),
          ),
        ),
      )

check_circuit_satisfiability_iff_example :
    (check_circuit_satisfiability [] start ≡ returned tt)
    ↔ ((length {A = Bool} [] ≡ 0) × InputsAgree start [] [] × IsSatisfied start)
check_circuit_satisfiability_iff_example =
    check_circuit_satisfiability_iff start start-IsOpen [] refl
