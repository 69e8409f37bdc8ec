-- ===== src/Relation/Gadgets/Computes.antt =====
-- What the gadgets of relation/src/gadgets/arithmetic.rs compute and ask for.
use jellyfish.Prelude.{ℕ, ◌<◌, ◌≡◌, refl}
use jellyfish.Relation.Gates.{Field, four, two, ◌⊕◌, ◌⊗◌}
use jellyfish.Relation.Gates.Meaning.{
  IsField, IsCommutative, quad_poly_gate-Computes, lin_comb_gate-Computes, mul_add_gate-Computes,
  constant_addition_gate-Computes, constant_multiplication_gate-Computes,
}
use jellyfish.Relation.Circuit.State.{Row, PlonkCircuit}
use jellyfish.Relation.Circuit.Model.{RowBelow, IsOpen}
use jellyfish.Relation.Circuit.Realises.{Realises, Asserts}
use jellyfish.Relation.Circuit.Computes.{Realises-output, Asserts-output, zero_in}
use jellyfish.Relation.Gadgets.Arithmetic.{
  gen_quad_poly, lc_gate, lc_value, lc, mul_add_wires, mul_add, add_constant, mul_constant,
}
use jellyfish.Relation.Gadgets.Runs.{
  FourBelow, gen_quad_poly-runs, lc_gate-runs, lc-runs, mul_add_wires-runs, mul_add-runs,
  add_constant-runs, mul_constant-runs,
}

module _ {F : Type 0} ⦃f : Field F⦄ ⦃law : IsField f⦄ ⦃comm : IsCommutative f⦄ (c : PlonkCircuit F)
    (o : IsOpen c) where
  module _ (p q r s : ℕ) (below : FourBelow c.num_vars (four p q r s)) where
    lc_value_lem :
        (a b d e l0 l1 l2 l3 : F)
        → lc_value (four a b d e) (four l0 l1 l2 l3) ≡ l0 ⊗ a ⊕ l1 ⊗ b ⊕ l2 ⊗ d ⊕ l3 ⊗ e
    lc_value_lem a b d e l0 l1 l2 l3 = rw (
      law.zero_add (a ⊗ l0),
      comm.mul_comm a l0,
      comm.mul_comm b l1,
      comm.mul_comm d l2,
      comm.mul_comm e l3,
    )

    pub lc-Realises :
        (l0 l1 l2 l3 : F)
        → Realises
            (lc (four p q r s) (four l0 l1 l2 l3))
            (λ w. l0 ⊗ w p ⊕ l1 ⊗ w q ⊕ l2 ⊗ w r ⊕ l3 ⊗ w s)
            c
    lc-Realises l0 l1 l2 l3 =
        Realises-output c o _ _ (λ a b d e. l0 ⊗ a ⊕ l1 ⊗ b ⊕ l2 ⊗ d ⊕ l3 ⊗ e) _ p q r s below
          (lin_comb_gate-Computes l0 l1 l2 l3) (lc_value_lem _ _ _ _ l0 l1 l2 l3)
          (lc-runs c o (four p q r s) (four l0 l1 l2 l3) below)

    pub mul_add-Realises :
        (m0 m1 : F)
        → Realises (mul_add (four p q r s) (two m0 m1)) (λ w. m0 ⊗ w p ⊗ w q ⊕ m1 ⊗ w r ⊗ w s) c
    mul_add-Realises m0 m1 =
        Realises-output c o _ _ (λ a b d e. m0 ⊗ a ⊗ b ⊕ m1 ⊗ d ⊗ e) _ p q r s below
          (mul_add_gate-Computes m0 m1) refl (mul_add-runs c o (four p q r s) (two m0 m1) below)

    pub gen_quad_poly-Realises :
        (l0 l1 l2 l3 m0 m1 k : F)
        → Realises
            (gen_quad_poly (four p q r s) (four l0 l1 l2 l3) (two m0 m1) k)
            (λ w. l0 ⊗ w p ⊕ l1 ⊗ w q ⊕ l2 ⊗ w r ⊕ l3 ⊗ w s ⊕ m0 ⊗ w p ⊗ w q ⊕ m1 ⊗ w r ⊗ w s ⊕ k)
            c
    gen_quad_poly-Realises l0 l1 l2 l3 m0 m1 k =
        Realises-output c o _ _
          (λ a b d e. l0 ⊗ a ⊕ l1 ⊗ b ⊕ l2 ⊗ d ⊕ l3 ⊗ e ⊕ m0 ⊗ a ⊗ b ⊕ m1 ⊗ d ⊗ e ⊕ k) _ p q r s
          below (quad_poly_gate-Computes l0 l1 l2 l3 m0 m1 k) refl
          (gen_quad_poly-runs c o (four p q r s) (four l0 l1 l2 l3) (two m0 m1) k below)

  module _ (wires : Row) (below : RowBelow c.num_vars wires) where
    pub lc_gate-Asserts :
        (l0 l1 l2 l3 : F)
        → Asserts
            (lc_gate wires (four l0 l1 l2 l3))
            (λ w.
              l0 ⊗ w wires.wire0 ⊕ l1 ⊗ w wires.wire1 ⊕ l2 ⊗ w wires.wire2 ⊕ l3 ⊗ w wires.wire3
              ≡ w wires.wire4)
            c
    lc_gate-Asserts l0 l1 l2 l3 =
        Asserts-output c o _ _ (λ a b d e. l0 ⊗ a ⊕ l1 ⊗ b ⊕ l2 ⊗ d ⊕ l3 ⊗ e) wires below
          (lin_comb_gate-Computes l0 l1 l2 l3) (lc_gate-runs c o wires (four l0 l1 l2 l3) below)

    pub mul_add_wires-Asserts :
        (m0 m1 : F)
        → Asserts
            (mul_add_wires wires (two m0 m1))
            (λ w.
              m0 ⊗ w wires.wire0 ⊗ w wires.wire1 ⊕ m1 ⊗ w wires.wire2 ⊗ w wires.wire3
              ≡ w wires.wire4)
            c
    mul_add_wires-Asserts m0 m1 =
        Asserts-output c o _ _ (λ a b d e. m0 ⊗ a ⊗ b ⊕ m1 ⊗ d ⊗ e) wires below
          (mul_add_gate-Computes m0 m1) (mul_add_wires-runs c o wires (two m0 m1) below)

  module _ (x : ℕ) (x_in : x < c.num_vars) (k : F) where
    pub add_constant-Realises : Realises (add_constant x k) (λ w. w x ⊕ k) c
    add_constant-Realises =
        Realises-output c o _ _ (λ a b d e. a ⊕ k) _ x 1 0 0
          (x_in, o.constants, zero_in c o, zero_in c o) (constant_addition_gate-Computes k)
          (comm.add_comm k _) (add_constant-runs c o x x_in k)

    pub mul_constant-Realises : Realises (mul_constant x k) (λ w. k ⊗ w x) c
    mul_constant-Realises =
        Realises-output c o _ _ (λ a b d e. k ⊗ a) _ x 0 0 0
          (x_in, zero_in c o, zero_in c o, zero_in c o) (constant_multiplication_gate-Computes k)
          refl (mul_constant-runs c o x x_in k)

module _ {F : Type 0} ⦃f : Field F⦄ ⦃law : IsField f⦄ ⦃comm : IsCommutative f⦄ (c : PlonkCircuit F)
    (o : IsOpen c) where
  -- On an open circuit and four of its variables, the gadgets return a variable with the linear
  -- combination, the two products, the quadratic polynomial, the sum with a constant and the product
  -- with a constant of their values; a satisfied circuit stays satisfied, and whatever assignment
  -- satisfies the gates gives the variable that value.
  pub gadgets-Realises :
      (p q r s : ℕ) (l0 l1 l2 l3 m0 m1 k : F)
      → FourBelow c.num_vars (four p q r s)
      → Realises
          (lc (four p q r s) (four l0 l1 l2 l3))
          (λ w. l0 ⊗ w p ⊕ l1 ⊗ w q ⊕ l2 ⊗ w r ⊕ l3 ⊗ w s)
          c
        × Realises (mul_add (four p q r s) (two m0 m1)) (λ w. m0 ⊗ w p ⊗ w q ⊕ m1 ⊗ w r ⊗ w s) c
        × Realises
            (gen_quad_poly (four p q r s) (four l0 l1 l2 l3) (two m0 m1) k)
            (λ w. l0 ⊗ w p ⊕ l1 ⊗ w q ⊕ l2 ⊗ w r ⊕ l3 ⊗ w s ⊕ m0 ⊗ w p ⊗ w q ⊕ m1 ⊗ w r ⊗ w s ⊕ k)
            c
        × Realises (add_constant p k) (λ w. w p ⊕ k) c
        × Realises (mul_constant p k) (λ w. k ⊗ w p) c
  gadgets-Realises p q r s l0 l1 l2 l3 m0 m1 k below = (
    lc-Realises c o p q r s below l0 l1 l2 l3,
    mul_add-Realises c o p q r s below m0 m1,
    gen_quad_poly-Realises c o p q r s below l0 l1 l2 l3 m0 m1 k,
    add_constant-Realises c o p below.0 k,
    mul_constant-Realises c o p below.0 k,
  )
