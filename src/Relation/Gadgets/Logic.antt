-- ===== src/Relation/Gadgets/Logic.antt =====
-- The gadgets of relation/src/gadgets/logic.rs. A `BoolVar` is the index it wraps.
pub mod Zero
pub mod Select
pub mod Computes
use jellyfish.Prelude.{
  ℕ, ◌≡◌, ◌≢◌, ◌↔◌, Bool, true, false, if◌then◌else◌, Option, none, some, List, [], ◌∷◌,
}
use jellyfish.Relation.Gates.{
  Field, two, ◌⊕◌, ◌⊗◌, ◌⊖◌, logic_or_gate, logic_or_output_gate, cond_select_gate,
}
use jellyfish.Relation.Inverses.{Inverses}
use jellyfish.Relation.Circuit.Outcome.{
  CircuitError, field_algebra_error, parameter_error, Outcome, returned, failed, pure, fail,
  inspect, ◌>>=◌, ◌>>◌,
}
use jellyfish.Relation.Circuit.State.{boxed, row, PlonkCircuit}
use jellyfish.Relation.Circuit.Operations.{
  Op, check_var_bound, insert_gate, witness, create_variable, create_boolean_variable_unchecked,
  sub, mul_gate, enforce_constant,
}
use jellyfish.Relation.Gadgets.Arithmetic.{mul_add_wires}

abbrev pub not_boolean : CircuitError
not_boolean = parameter_error "b in Conditional Selection gate is not a boolean variable"

module _ {F : Type 0} ⦃f : Field F⦄ where
  unfoldable pub enforce_or : ℕ → ℕ → Op F (Unit {0})
  enforce_or a b = do
    check_var_bound a
    check_var_bound b
    insert_gate (row a b 0 0 0) (boxed logic_or_gate)

  unfoldable pub logic_and : ℕ → ℕ → Op F ℕ
  logic_and a b = do
    va ← witness a
    vb ← witness b
    c ← create_boolean_variable_unchecked (va ⊗ vb)
    mul_gate a b c
    pure c

  unfoldable pub and_from : ℕ → List ℕ → Op F ℕ
  and_from res [] = pure res
  and_from res (var ∷ vars) = do next ← logic_and res var; and_from next vars

  unfoldable pub logic_and_all : List ℕ → Op F ℕ
  logic_and_all [] = fail (parameter_error "logic_and_all: empty variable list")
  logic_and_all (var ∷ vars) = and_from var vars

  unfoldable pub logic_or : ℕ → ℕ → Op F ℕ
  logic_or a b = do
    check_var_bound a
    check_var_bound b
    a_val ← witness a
    b_val ← witness b
    c ← create_boolean_variable_unchecked (a_val ⊕ b_val ⊖ a_val ⊗ b_val)
    insert_gate (row a b 0 0 c) (boxed logic_or_output_gate)
    pure c

  unfoldable pub enforce_true : ℕ → Op F (Unit {0})
  enforce_true a = enforce_constant a f.one

  unfoldable pub enforce_false : ℕ → Op F (Unit {0})
  enforce_false a = enforce_constant a f.zero

  module _ ⦃inv : Inverses F⦄ where
    abbrev or_algebra_error : Option F → Outcome F
    or_algebra_error none = failed (field_algebra_error "Unable to find inverse")
    or_algebra_error (some x) = returned x

    abbrev pub indicator : Bool → F
    indicator true = f.one
    indicator false = f.zero

    -- The value of the inverse variable: zero for zero.
    abbrev pub inverse_or_zero : F → Bool → Outcome F
    inverse_or_zero a_val true = returned f.zero
    inverse_or_zero a_val false = or_algebra_error (inv.inverse a_val)

    unfoldable pub is_zero : ℕ → Op F ℕ
    is_zero a = do
      check_var_bound a
      a_val ← witness a
      a_inv_val ← inspect λ c. inverse_or_zero a_val (inv.is_zero_value a_val)
      y ← create_boolean_variable_unchecked (indicator (inv.is_zero_value a_val))
      a_inv ← create_variable a_inv_val
      mul_add_wires (row a a_inv 1 y 1) (two f.one f.one)
      mul_gate y a 0
      pure y

    unfoldable pub is_equal : ℕ → ℕ → Op F ℕ
    is_equal a b = do check_var_bound a; check_var_bound b; delta ← sub a b; is_zero delta

    abbrev pub or_zero : Option F → F
    or_zero none = f.zero
    or_zero (some x) = x

    unfoldable pub non_zero_gate : ℕ → Op F (Unit {0})
    non_zero_gate var = do
      v ← witness var
      inv_var ← create_variable (or_zero (inv.inverse v))
      mul_gate var inv_var 1

    unfoldable pub logic_neg : ℕ → Op F ℕ
    logic_neg a = is_zero a

    -- The branch of `conditional_select` that the bit's value chooses.
    abbrev pub selected : F → ℕ → ℕ → Op F ℕ
    selected b_val x_0 x_1 =
        if inv.beq b_val f.zero
        then (do x ← witness x_0; create_variable x)
        else if inv.beq b_val f.one
        then (do x ← witness x_1; create_variable x)
        else fail not_boolean

    unfoldable pub conditional_select : ℕ → ℕ → ℕ → Op F ℕ
    conditional_select b x_0 x_1 = do
      check_var_bound b
      check_var_bound x_0
      check_var_bound x_1
      b_val ← witness b
      y ← selected b_val x_0 x_1
      insert_gate (row b x_0 b x_1 y) (boxed cond_select_gate)
      pure y
