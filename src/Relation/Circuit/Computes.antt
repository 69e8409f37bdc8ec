-- ===== src/Relation/Circuit/Computes.antt =====
-- What the arithmetic of relation/src/constraint_system.rs asks for and computes.
use jellyfish.Prelude.{ℕ, ◌<◌, ◌≡◌, refl, sym, arith}
use jellyfish.Relation.Gates.{Field, Gate, ◌⊕◌, ◌⊗◌, ◌⊖◌}
use jellyfish.Relation.Gates.Meaning.{
  IsField, Computes, constant_gate-Computes, addition_gate-Computes, subtraction_gate-Computes,
  multiplication_gate-Computes,
}
use jellyfish.Relation.Circuit.Outcome.{returned}
use jellyfish.Relation.Circuit.State.{
  boxed, Row, row, PlonkCircuit, assigned, with_gate, with_variable,
}
use jellyfish.Relation.Circuit.Operations.{
  Op, enforce_constant, add_gate, add, sub_gate, sub, mul_gate, mul, enforce_bool, enforce_equal,
}
use jellyfish.Relation.Circuit.Model.{IsOpen, RowBelow}
use jellyfish.Relation.Circuit.Arithmetic.{
  enforce_constant-runs, enforce_bool-runs, enforce_equal-runs, add_gate-runs, add-runs,
  sub_gate-runs, sub-runs, mul_gate-runs, mul-runs,
}
use jellyfish.Relation.Circuit.Realises.{Realises, Asserts, Realises-variable-gate, Asserts-gate}

module _ {F : Type 0} ⦃f : Field F⦄ (c : PlonkCircuit F) (o : IsOpen c) where
  pub zero_in : 0 < c.num_vars
  zero_in = omega (arith, o.constants)

  -- A gate with an output wire, on a new variable that has the value it computes.
  pub Realises-output :
      (m : Op F ℕ) (g : Gate F) (out : F → F → F → F → F) (v : F) (p q r s : ℕ)
      → (p < c.num_vars) × (q < c.num_vars) × (r < c.num_vars) × (s < c.num_vars)
      → Computes g out
      → v ≡ out (assigned c p) (assigned c q) (assigned c r) (assigned c s)
      → m c
        ≡ (returned c.num_vars, with_gate (boxed g) (row p q r s c.num_vars) (with_variable v c))
      → Realises m (λ w. out (w p) (w q) (w r) (w s)) c
  Realises-output m g out v p q r s (p_in, q_in, r_in, s_in) computes same runs =
      Realises-variable-gate m (λ w. out (w p) (w q) (w r) (w s)) c (boxed g)
        (row p q r s c.num_vars) v o
        (omega arith, omega arith, omega arith, omega arith, omega arith)
        (λ w meets. sym ((computes _ _ _ _ _).0 meets)) (λ w e. (computes _ _ _ _ _).1 (sym e)) same
        (λ w w' agree. rw (agree p p_in, agree q q_in, agree r r_in, agree s s_in)) runs

  -- A gate with an output wire, on variables there are.
  pub Asserts-output :
      (m : Op F (Unit {0})) (g : Gate F) (out : F → F → F → F → F) (r : Row)
      → RowBelow c.num_vars r
      → Computes g out
      → m c ≡ (returned tt, with_gate (boxed g) r c)
      → Asserts m (λ w. out (w r.wire0) (w r.wire1) (w r.wire2) (w r.wire3) ≡ w r.wire4) c
  Asserts-output m g out r below computes runs =
      Asserts-gate m _ c (boxed g) r o below (λ w meets. (computes _ _ _ _ _).0 meets)
        (λ w e. (computes _ _ _ _ _).1 e) runs

module _ {F : Type 0} ⦃f : Field F⦄ ⦃law : IsField f⦄ (c : PlonkCircuit F) (o : IsOpen c) where
  module _ (a b : ℕ) (a_in : a < c.num_vars) (b_in : b < c.num_vars) where
    pub add-Realises : Realises (add a b) (λ w. w a ⊕ w b) c
    add-Realises =
        Realises-output c o (add a b) _ (λ x y _ _. x ⊕ y) _ a b 0 0
          (a_in, b_in, zero_in c o, zero_in c o) addition_gate-Computes refl
          (add-runs c o a b a_in b_in)

    pub sub-Realises : Realises (sub a b) (λ w. w a ⊖ w b) c
    sub-Realises =
        Realises-output c o (sub a b) _ (λ x y _ _. x ⊖ y) _ a b 0 0
          (a_in, b_in, zero_in c o, zero_in c o) subtraction_gate-Computes refl
          (sub-runs c o a b a_in b_in)

    pub mul-Realises : Realises (mul a b) (λ w. w a ⊗ w b) c
    mul-Realises =
        Realises-output c o (mul a b) _ (λ x y _ _. x ⊗ y) _ a b 0 0
          (a_in, b_in, zero_in c o, zero_in c o) multiplication_gate-Computes refl
          (mul-runs c o a b a_in b_in)

    module _ (y : ℕ) (y_in : y < c.num_vars) where
      pub add_gate-Asserts : Asserts (add_gate a b y) (λ w. w a ⊕ w b ≡ w y) c
      add_gate-Asserts =
          Asserts-output c o (add_gate a b y) _ (λ x y _ _. x ⊕ y) (row a b 0 0 y)
            (a_in, b_in, zero_in c o, zero_in c o, y_in) addition_gate-Computes
            (add_gate-runs c o a a_in b b_in y y_in)

      pub sub_gate-Asserts : Asserts (sub_gate a b y) (λ w. w a ⊖ w b ≡ w y) c
      sub_gate-Asserts =
          Asserts-output c o (sub_gate a b y) _ (λ x y _ _. x ⊖ y) (row a b 0 0 y)
            (a_in, b_in, zero_in c o, zero_in c o, y_in) subtraction_gate-Computes
            (sub_gate-runs c o a a_in b b_in y y_in)

      pub mul_gate-Asserts : Asserts (mul_gate a b y) (λ w. w a ⊗ w b ≡ w y) c
      mul_gate-Asserts =
          Asserts-output c o (mul_gate a b y) _ (λ x y _ _. x ⊗ y) (row a b 0 0 y)
            (a_in, b_in, zero_in c o, zero_in c o, y_in) multiplication_gate-Computes
            (mul_gate-runs c o a a_in b b_in y y_in)

  module _ (a : ℕ) (a_in : a < c.num_vars) where
    pub enforce_constant-Asserts : (k : F) → Asserts (enforce_constant a k) (λ w. k ≡ w a) c
    enforce_constant-Asserts k =
        Asserts-output c o (enforce_constant a k) _ (λ _ _ _ _. k) (row 0 0 0 0 a)
          (zero_in c o, zero_in c o, zero_in c o, zero_in c o, a_in) (constant_gate-Computes k)
          (enforce_constant-runs c o a a_in k)

    pub enforce_bool-Asserts : Asserts (enforce_bool a) (λ w. w a ⊗ w a ≡ w a) c
    enforce_bool-Asserts =
        Asserts-output c o (enforce_bool a) _ (λ x y _ _. x ⊗ y) (row a a 0 0 a)
          (a_in, a_in, zero_in c o, zero_in c o, a_in) multiplication_gate-Computes
          (enforce_bool-runs c o a a_in)

    pub enforce_equal-Asserts :
        (b : ℕ) → b < c.num_vars → Asserts (enforce_equal a b) (λ w. w a ⊖ w b ≡ w 0) c
    enforce_equal-Asserts b b_in =
        Asserts-output c o (enforce_equal a b) _ (λ x y _ _. x ⊖ y) (row a b 0 0 0)
          (a_in, b_in, zero_in c o, zero_in c o, zero_in c o) subtraction_gate-Computes
          (enforce_equal-runs c o a a_in b b_in)

module _ {F : Type 0} ⦃f : Field F⦄ ⦃law : IsField f⦄ (c : PlonkCircuit F) (o : IsOpen c) where
  -- On an open circuit and two of its variables, `add`, `sub` and `mul` return a variable with the
  -- sum, the difference and the product of their values; a satisfied circuit stays satisfied, and
  -- whatever assignment satisfies the gates gives the variable that value.
  pub arithmetic-Realises :
      (a b : ℕ)
      → a < c.num_vars
      → b < c.num_vars
      → Realises (add a b) (λ w. w a ⊕ w b) c
        × Realises (sub a b) (λ w. w a ⊖ w b) c
        × Realises (mul a b) (λ w. w a ⊗ w b) c
  arithmetic-Realises a b a_in b_in = (
    add-Realises c o a b a_in b_in,
    sub-Realises c o a b a_in b_in,
    mul-Realises c o a b a_in b_in,
  )

  -- On an open circuit and its variables the operations that constrain return; the circuit stays
  -- satisfied where the values are so related, and whatever assignment satisfies its gates relates
  -- them so: to a constant, as a value that is its own square, with a difference of the value of
  -- variable 0, and as a sum, a difference and a product.
  pub constraints-Asserts :
      (a b y : ℕ) (k : F)
      → a < c.num_vars
      → b < c.num_vars
      → y < c.num_vars
      → Asserts (enforce_constant a k) (λ w. k ≡ w a) c
        × Asserts (enforce_bool a) (λ w. w a ⊗ w a ≡ w a) c
        × Asserts (enforce_equal a b) (λ w. w a ⊖ w b ≡ w 0) c
        × Asserts (add_gate a b y) (λ w. w a ⊕ w b ≡ w y) c
        × Asserts (sub_gate a b y) (λ w. w a ⊖ w b ≡ w y) c
        × Asserts (mul_gate a b y) (λ w. w a ⊗ w b ≡ w y) c
  constraints-Asserts a b y k a_in b_in y_in = (
    enforce_constant-Asserts c o a a_in k,
    enforce_bool-Asserts c o a a_in,
    enforce_equal-Asserts c o a a_in b b_in,
    add_gate-Asserts c o a b a_in b_in y y_in,
    sub_gate-Asserts c o a b a_in b_in y y_in,
    mul_gate-Asserts c o a b a_in b_in y y_in,
  )
