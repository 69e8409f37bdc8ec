-- ===== src/Relation/Circuit/Arithmetic.antt =====
-- The arithmetic of relation/src/constraint_system.rs, and how its operations run on an open circuit.
use jellyfish.Prelude.{ℕ, ◌<◌, ◌≡◌, refl, arith}
use jellyfish.Relation.Gates.{
  Field, Gate, ◌⊕◌, ◌⊗◌, ◌⊖◌, constant_gate, addition_gate, subtraction_gate, multiplication_gate,
  bool_gate, equality_gate,
}
use jellyfish.Relation.Circuit.Outcome.{Outcome, returned, pure, returned-then, ◌>>=◌, ◌>>◌}
use jellyfish.Relation.Circuit.State.{
  BoxedGate, boxed, row, PlonkCircuit, assigned, with_gate, with_variable,
}
use jellyfish.Relation.Circuit.Operations.{
  Op, check_var_bound, insert_gate, witness, create_variable, enforce_constant, add_gate, add,
  sub_gate, sub, mul_gate, mul, enforce_bool, enforce_equal,
}
use jellyfish.Relation.Circuit.Model.{IsOpen, with_variable-IsOpen}
use jellyfish.Relation.Circuit.Effects.{
  check_var_bound-lt, insert_gate-open, create_variable-open, witness-open,
}

module _ {F : Type 0} ⦃f : Field F⦄ where
  -- A bound check that passes.
  pub checked-then :
      (c : PlonkCircuit F) (i : ℕ) {A : Type 0} (m : Op F A) {r : Outcome A × PlonkCircuit F}
      → i < c.num_vars
      → m c ≡ r
      → (check_var_bound i >> m) c ≡ r
  checked-then c i m below rest = returned-then _ _ (check_var_bound-lt c i below) rest

module _ {F : Type 0} ⦃f : Field F⦄ (c : PlonkCircuit F) (o : IsOpen c) (a : ℕ)
    (a_in : a < c.num_vars) where
  pub enforce_constant-runs :
      (k : F)
      → enforce_constant a k c
        ≡ (returned tt, with_gate (boxed (constant_gate k)) (row 0 0 0 0 a) c)
  unfolding enforce_constant
  enforce_constant-runs k = checked-then c a _ a_in (insert_gate-open c _ _ o.open_domain)

  pub enforce_bool-runs :
      enforce_bool a c ≡ (returned tt, with_gate (boxed bool_gate) (row a a 0 0 a) c)
  unfolding enforce_bool
  enforce_bool-runs = checked-then c a _ a_in (insert_gate-open c _ _ o.open_domain)

  module _ (b : ℕ) (b_in : b < c.num_vars) where
    pub enforce_equal-runs :
        enforce_equal a b c ≡ (returned tt, with_gate (boxed equality_gate) (row a b 0 0 0) c)
    unfolding enforce_equal
    enforce_equal-runs =
        checked-then c a _ a_in (checked-then c b _ b_in (insert_gate-open c _ _ o.open_domain))

    -- Three bound checks, then a gate on two inputs and an output.
    binary_gate-runs :
        (g : Gate F) (y : ℕ)
        → y < c.num_vars
        → (check_var_bound a
              >> (check_var_bound b
                  >> (check_var_bound y >> insert_gate (row a b 0 0 y) (boxed g))))
            c
          ≡ (returned tt, with_gate (boxed g) (row a b 0 0 y) c)
    binary_gate-runs g y y_in =
        checked-then c a _ a_in
          (checked-then c b _ b_in (checked-then c y _ y_in (insert_gate-open c _ _ o.open_domain)))

    module _ (y : ℕ) (y_in : y < c.num_vars) where
      pub add_gate-runs :
          add_gate a b y c ≡ (returned tt, with_gate (boxed addition_gate) (row a b 0 0 y) c)
      unfolding add_gate
      add_gate-runs = binary_gate-runs addition_gate y y_in

      pub sub_gate-runs :
          sub_gate a b y c ≡ (returned tt, with_gate (boxed subtraction_gate) (row a b 0 0 y) c)
      unfolding sub_gate
      sub_gate-runs = binary_gate-runs subtraction_gate y y_in

      pub mul_gate-runs :
          mul_gate a b y c ≡ (returned tt, with_gate (boxed multiplication_gate) (row a b 0 0 y) c)
      unfolding mul_gate
      mul_gate-runs = binary_gate-runs multiplication_gate y y_in

    -- Two values read, a variable for what is computed of them, and a gate on the three.
    binary-runs :
        (op : F → F → F) (gate : ℕ → Op F (Unit {0})) (g : BoxedGate F)
        → gate c.num_vars (with_variable (op (assigned c a) (assigned c b)) c) ≡ (
          returned tt,
          with_gate g (row a b 0 0 c.num_vars) (with_variable (op (assigned c a) (assigned c b)) c),
        )
        → (check_var_bound a
              >> (check_var_bound b
                  >> (witness a >>= λ va.
                      witness b >>= λ vb. create_variable (op va vb) >>= λ y. gate y >> pure y)))
            c
          ≡ (
            returned c.num_vars,
            with_gate g
                (row a b 0 0 c.num_vars)
                (with_variable (op (assigned c a) (assigned c b)) c),
          )
    binary-runs op gate g runs = checked-then c a _ a_in (
        checked-then c b _ b_in (
          returned-then _ _ (witness-open c a o a_in) (
            returned-then _ _ (witness-open c b o b_in) (
              returned-then _ _ (create_variable-open c _ o.open_domain)
                (returned-then _ _ runs refl)))))

module _ {F : Type 0} ⦃f : Field F⦄ (c : PlonkCircuit F) (o : IsOpen c) (a b : ℕ)
    (a_in : a < c.num_vars) (b_in : b < c.num_vars) where
  pub add-runs : add a b c ≡ (
    returned c.num_vars,
    with_gate
        (boxed addition_gate)
        (row a b 0 0 c.num_vars)
        (with_variable (assigned c a ⊕ assigned c b) c),
  )
  unfolding add
  add-runs =
      binary-runs c o a a_in b b_in (λ x y. x ⊕ y) (add_gate a b) (boxed addition_gate)
        (add_gate-runs (with_variable (assigned c a ⊕ assigned c b) c) (with_variable-IsOpen c _ o)
          a (omega arith) b (omega arith) c.num_vars (omega arith))

  pub sub-runs : sub a b c ≡ (
    returned c.num_vars,
    with_gate
        (boxed subtraction_gate)
        (row a b 0 0 c.num_vars)
        (with_variable (assigned c a ⊖ assigned c b) c),
  )
  unfolding sub
  sub-runs =
      binary-runs c o a a_in b b_in (λ x y. x ⊖ y) (sub_gate a b) (boxed subtraction_gate)
        (sub_gate-runs (with_variable (assigned c a ⊖ assigned c b) c) (with_variable-IsOpen c _ o)
          a (omega arith) b (omega arith) c.num_vars (omega arith))

  pub mul-runs : mul a b c ≡ (
    returned c.num_vars,
    with_gate
        (boxed multiplication_gate)
        (row a b 0 0 c.num_vars)
        (with_variable (assigned c a ⊗ assigned c b) c),
  )
  unfolding mul
  mul-runs =
      binary-runs c o a a_in b b_in (λ x y. x ⊗ y) (mul_gate a b) (boxed multiplication_gate)
        (mul_gate-runs (with_variable (assigned c a ⊗ assigned c b) c) (with_variable-IsOpen c _ o)
          a (omega arith) b (omega arith) c.num_vars (omega arith))
