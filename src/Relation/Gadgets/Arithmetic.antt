-- ===== src/Relation/Gadgets/Arithmetic.antt =====
-- The gadgets of relation/src/gadgets/arithmetic.rs.
use jellyfish.Prelude.{ℕ, List, [], ◌∷◌}
use jellyfish.Relation.Gates.{
  Field, Four, four, Two, two, ◌⊕◌, ◌⊗◌, quad_poly_gate, lin_comb_gate, mul_add_gate,
  constant_addition_gate, constant_multiplication_gate, fifth_root_gate,
}
use jellyfish.Relation.Circuit.Outcome.{pure, ◌>>=◌, ◌>>◌, unwrap}
use jellyfish.Relation.Circuit.State.{boxed, Row, row}
use jellyfish.Relation.Circuit.Operations.{
  Op, check_var_bound, check_vars_bound, insert_gate, witness, create_variable, mul, mul_gate,
}

-- The variables of an array, as a slice.
abbrev pub slice : Row → List ℕ
slice r = r.wire0 ∷ r.wire1 ∷ r.wire2 ∷ r.wire3 ∷ r.wire4 ∷ []

abbrev pub slice_in : Four ℕ → List ℕ
slice_in (four p q r s) = p ∷ q ∷ r ∷ s ∷ []

abbrev pub with_output : Four ℕ → ℕ → Row
with_output (four p q r s) y = row p q r s y

module _ {F : Type 0} where
  -- `wires_in.iter().map(|&var| self.witness(var)).collect()` on an array of four.
  unfoldable pub witness_four : Four ℕ → Op F (Four F)
  witness_four (four p q r s) = do
    vp ← witness p
    vq ← witness q
    vr ← witness r
    vs ← witness s
    pure (four vp vq vr vs)

  -- The same on a slice.
  unfoldable pub witness_all : List ℕ → Op F (List F)
  witness_all [] = pure []
  witness_all (x ∷ xs) = do v ← witness x; vs ← witness_all xs; pure (v ∷ vs)

module _ {F : Type 0} ⦃f : Field F⦄ where
  unfoldable pub quad_poly : Row → Four F → Two F → F → F → Op F (Unit {0})
  quad_poly wires q_lc q_mul q_o q_c = do
    check_vars_bound (slice wires)
    insert_gate wires (boxed (quad_poly_gate q_lc q_mul q_o q_c))

  abbrev pub quad_poly_value : Four F → Two F → F → Four F → F
  quad_poly_value (four l0 l1 l2 l3) (two m0 m1) k (four a b c d) =
      l0 ⊗ a ⊕ l1 ⊗ b ⊕ l2 ⊗ c ⊕ l3 ⊗ d ⊕ m0 ⊗ a ⊗ b ⊕ m1 ⊗ c ⊗ d ⊕ k

  -- The source reads each of the first two wires and each of the last two twice.
  unfoldable pub gen_quad_poly : Four ℕ → Four F → Two F → F → Op F ℕ
  gen_quad_poly wires q_lc q_mul q_c = do
    check_vars_bound (slice_in wires)
    vals ← witness_four wires
    output_var ← create_variable (quad_poly_value q_lc q_mul q_c vals)
    insert_gate (with_output wires output_var) (boxed (quad_poly_gate q_lc q_mul f.one q_c))
    pure output_var

  unfoldable pub lc_gate : Row → Four F → Op F (Unit {0})
  lc_gate wires coeffs = do
    check_vars_bound (slice wires)
    insert_gate wires (boxed (lin_comb_gate coeffs))

  -- The sum of the products, from zero on.
  abbrev pub lc_value : Four F → Four F → F
  lc_value (four a b c d) (four l0 l1 l2 l3) = f.zero ⊕ a ⊗ l0 ⊕ b ⊗ l1 ⊕ c ⊗ l2 ⊕ d ⊗ l3

  unfoldable pub lc : Four ℕ → Four F → Op F ℕ
  lc wires_in coeffs = do
    check_vars_bound (slice_in wires_in)
    vals_in ← witness_four wires_in
    y ← create_variable (lc_value vals_in coeffs)
    lc_gate (with_output wires_in y) coeffs
    pure y

  unfoldable pub mul_add_wires : Row → Two F → Op F (Unit {0})
  mul_add_wires wires q_muls = do
    check_vars_bound (slice wires)
    insert_gate wires (boxed (mul_add_gate q_muls))

  abbrev pub mul_add_value : Two F → Four F → F
  mul_add_value (two m0 m1) (four a b c d) = m0 ⊗ a ⊗ b ⊕ m1 ⊗ c ⊗ d

  unfoldable pub mul_add : Four ℕ → Two F → Op F ℕ
  mul_add wires_in q_muls = do
    check_vars_bound (slice_in wires_in)
    vals_in ← witness_four wires_in
    y ← create_variable (mul_add_value q_muls vals_in)
    mul_add_wires (with_output wires_in y) q_muls
    pure y

  unfoldable pub add_constant_gate : ℕ → F → ℕ → Op F (Unit {0})
  add_constant_gate x c y = do
    check_var_bound x
    check_var_bound y
    insert_gate (row x 1 0 0 y) (boxed (constant_addition_gate c))

  unfoldable pub add_constant : ℕ → F → Op F ℕ
  add_constant input_var elem = do
    check_var_bound input_var
    input_val ← unwrap (witness input_var)
    output_var ← unwrap (create_variable (elem ⊕ input_val))
    add_constant_gate input_var elem output_var
    pure output_var

  unfoldable pub mul_constant_gate : ℕ → F → ℕ → Op F (Unit {0})
  mul_constant_gate x c y = do
    check_var_bound x
    check_var_bound y
    insert_gate (row x 0 0 0 y) (boxed (constant_multiplication_gate c))

  unfoldable pub mul_constant : ℕ → F → Op F ℕ
  mul_constant input_var elem = do
    check_var_bound input_var
    input_val ← unwrap (witness input_var)
    output_var ← unwrap (create_variable (elem ⊗ input_val))
    mul_constant_gate input_var elem output_var
    pure output_var

  -- The fifth power of a variable, on a new one.
  abbrev pub fifth_power : ℕ → Op F ℕ
  fifth_power x = do
    x_val ← witness x
    x_to_5 ← create_variable (f.pow x_val 5)
    insert_gate (row x 0 0 0 x_to_5) (boxed fifth_root_gate)
    pure x_to_5

  unfoldable pub power_11_gen : ℕ → Op F ℕ
  power_11_gen x = do
    check_var_bound x
    x_to_5 ← fifth_power x
    x_to_10 ← mul x_to_5 x_to_5
    mul x_to_10 x

  unfoldable pub power_11_gate : ℕ → ℕ → Op F (Unit {0})
  power_11_gate x x_to_11 = do
    check_var_bound x
    check_var_bound x_to_11
    x_to_5 ← fifth_power x
    x_to_10 ← mul x_to_5 x_to_5
    mul_gate x_to_10 x x_to_11
