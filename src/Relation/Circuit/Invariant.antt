-- ===== src/Relation/Circuit/Invariant.antt =====
-- The operations of relation/src/constraint_system.rs on an open circuit, with any arguments.
use jellyfish.Prelude.{ℕ, Bool, arith}
use jellyfish.Relation.Gates.{Field, ◌⊕◌, ◌⊗◌, ◌⊖◌}
use jellyfish.Relation.Circuit.Outcome.{◌>>=◌, ◌>>◌, pure}
use jellyfish.Relation.Circuit.State.{PlonkCircuit, assigned, with_variable}
use jellyfish.Relation.Circuit.Operations.{
  Op, check_var_bound, witness, create_variable, set_variable_public, create_public_variable,
  enforce_constant, create_constant_variable, add_gate, add, sub_gate, sub, mul_gate, mul,
  enforce_bool, enforce_equal, create_boolean_variable, create_public_boolean_variable, bit,
}
use jellyfish.Relation.Circuit.Model.{IsOpen}
use jellyfish.Relation.Circuit.Effects.{witness-open}
use jellyfish.Relation.Circuit.Keeps.{
  Keeps, then-Keeps, checked-Keeps, created-Keeps, pure-Keeps, create_variable-Keeps,
  set_variable_public-Keeps, enforce_constant-Keeps, enforce_bool-Keeps, enforce_equal-Keeps,
  add_gate-Keeps, sub_gate-Keeps, mul_gate-Keeps,
}

module _ {F : Type 0} ⦃f : Field F⦄ (c : PlonkCircuit F) (o : IsOpen c) where
  create_public_variable-Keeps : (v : F) → Keeps (create_public_variable v) c
  unfolding create_public_variable
  create_public_variable-Keeps v = created-Keeps v _ c o λ o'.
      pure-Keeps (set_variable_public c.num_vars) (λ x. c.num_vars) _
        (set_variable_public-Keeps (with_variable v c) o' c.num_vars (omega arith))

  create_constant_variable-Keeps : (v : F) → Keeps (create_constant_variable v) c
  unfolding create_constant_variable
  create_constant_variable-Keeps v = created-Keeps v _ c o λ o'.
      pure-Keeps (enforce_constant c.num_vars v) (λ x. c.num_vars) _
        (enforce_constant-Keeps (with_variable v c) o' c.num_vars v)

  create_boolean_variable-Keeps : (b : Bool) → Keeps (create_boolean_variable b) c
  unfolding create_boolean_variable
  create_boolean_variable-Keeps b = created-Keeps (bit b) _ c o λ o'.
      pure-Keeps (enforce_bool c.num_vars) (λ x. c.num_vars) _
        (enforce_bool-Keeps (with_variable (bit b) c) o' c.num_vars)

  create_public_boolean_variable-Keeps : (b : Bool) → Keeps (create_public_boolean_variable b) c
  unfolding create_public_boolean_variable
  create_public_boolean_variable-Keeps b =
      pure-Keeps (create_public_variable (bit b)) (λ x. x) c (create_public_variable-Keeps (bit b))

  -- Two values read, a variable for what is computed of them, and a gate on the three.
  binary-Keeps :
      (a b : ℕ) (op : F → F → F) (gate : ℕ → Op F (Unit {0}))
      → ((d : PlonkCircuit F) → IsOpen d → (y : ℕ) → Keeps (gate y) d)
      → Keeps
          (check_var_bound a
            >> (check_var_bound b
                >> (witness a >>= λ va.
                    witness b >>= λ vb. create_variable (op va vb) >>= λ y. gate y >> pure y)))
          c
  binary-Keeps a b op gate kept = checked-Keeps a _ c o λ a_in. checked-Keeps b _ c o λ b_in.
      then-Keeps _ _ c (witness-open c a o a_in) (omega arith) (
        then-Keeps _ _ c (witness-open c b o b_in) (omega arith) (
          created-Keeps (op (assigned c a) (assigned c b)) _ c o
            λ o'. pure-Keeps (gate c.num_vars) (λ x. c.num_vars) _ (kept _ o' c.num_vars)))

  add-Keeps : (a b : ℕ) → Keeps (add a b) c
  unfolding add
  add-Keeps a b =
      binary-Keeps a b (λ x y. x ⊕ y) (add_gate a b) (λ d o' y. add_gate-Keeps d o' a b y)

  sub-Keeps : (a b : ℕ) → Keeps (sub a b) c
  unfolding sub
  sub-Keeps a b =
      binary-Keeps a b (λ x y. x ⊖ y) (sub_gate a b) (λ d o' y. sub_gate-Keeps d o' a b y)

  mul-Keeps : (a b : ℕ) → Keeps (mul a b) c
  unfolding mul
  mul-Keeps a b =
      binary-Keeps a b (λ x y. x ⊗ y) (mul_gate a b) (λ d o' y. mul_gate-Keeps d o' a b y)

  -- On an open circuit the operations leave, however they end and whatever variables they are given,
  -- an open circuit with no fewer variables.
  pub operations-Keeps :
      (a b y : ℕ) (v : F) (val : Bool)
      → Keeps (create_variable v) c
        × Keeps (create_constant_variable v) c
        × Keeps (create_public_variable v) c
        × Keeps (create_boolean_variable val) c
        × Keeps (create_public_boolean_variable val) c
        × Keeps (enforce_constant a v) c
        × Keeps (enforce_bool a) c
        × Keeps (enforce_equal a b) c
        × Keeps (add_gate a b y) c
        × Keeps (sub_gate a b y) c
        × Keeps (mul_gate a b y) c
        × Keeps (add a b) c
        × Keeps (sub a b) c
        × Keeps (mul a b) c
  operations-Keeps a b y v val = (
    create_variable-Keeps v c o,
    create_constant_variable-Keeps v,
    create_public_variable-Keeps v,
    create_boolean_variable-Keeps val,
    create_public_boolean_variable-Keeps val,
    enforce_constant-Keeps c o a v,
    enforce_bool-Keeps c o a,
    enforce_equal-Keeps c o a b,
    add_gate-Keeps c o a b y,
    sub_gate-Keeps c o a b y,
    mul_gate-Keeps c o a b y,
    add-Keeps a b,
    sub-Keeps a b,
    mul-Keeps a b,
  )
