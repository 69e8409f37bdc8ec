-- ===== src/Relation/Circuit/Keeps.antt =====
-- What the operations leave of a circuit, however they end.
use mathlib.Core.Path.{subst⁻¹}
use jellyfish.Prelude.{ℕ, ◌<◌, ◌≤◌, ◌≡◌, ◌⊎◌, inl, inr, refl, arith}
use jellyfish.Relation.Gates.{Field}
use jellyfish.Relation.Circuit.Outcome.{
  Outcome, returned, failed, panicked, pure, ◌>>=◌, ◌>>◌, after, returned-then, failed-then,
}
use jellyfish.Relation.Circuit.State.{BoxedGate, Row, row, PlonkCircuit, with_variable}
use jellyfish.Relation.Circuit.Operations.{
  Op, check_var_bound, insert_gate, create_variable, set_variable_public, enforce_constant,
  add_gate, sub_gate, mul_gate, enforce_bool, enforce_equal,
}
use jellyfish.Relation.Circuit.Model.{
  RowBelow, IsOpen, with_gate-IsOpen, with_variable-IsOpen, with_input-IsOpen,
}
use jellyfish.Relation.Circuit.Effects.{
  check_var_bound-lt, check_var_bound-ge, insert_gate-open, create_variable-open,
  set_variable_public-open,
}

bound_cases : (i n : ℕ) → (i < n) ⊎ (n ≤ i)
bound_cases i n = ground arith

module _ {F : Type 0} ⦃f : Field F⦄ where
  -- The operation leaves an open circuit, however it ends, that has no fewer variables.
  abbrev pub Keeps : {A : Type 0} → Op F A → PlonkCircuit F → Type 0
  Keeps m c = IsOpen (m c).1 × (c.num_vars ≤ (m c).1.num_vars)

  pub then-Keeps :
      {A B : Type 0} (m : Op F A) (k : A → Op F B) (c : PlonkCircuit F) {d : PlonkCircuit F} {a : A}
      → m c ≡ (returned a, d)
      → c.num_vars ≤ d.num_vars
      → Keeps (k a) d
      → Keeps (m >>= k) c
  then-Keeps m k c runs more (open_after, rest) =
      subst⁻¹ (λ r. IsOpen r.1 × (c.num_vars ≤ r.1.num_vars)) (returned-then m k runs refl)
        (open_after, omega arith)

  pub checked-Keeps :
      {A : Type 0} (i : ℕ) (m : Op F A) (c : PlonkCircuit F)
      → IsOpen c
      → (i < c.num_vars → Keeps m c)
      → Keeps (check_var_bound i >> m) c
  checked-Keeps i m c o rest = elim (bound_cases i c.num_vars) [
    | inl below ↦ then-Keeps _ _ c (check_var_bound-lt c i below) (omega arith) (rest below)
    | inr above ↦
        subst⁻¹ (λ r. IsOpen r.1 × (c.num_vars ≤ r.1.num_vars))
          (failed-then (check_var_bound i) (λ x. m) (check_var_bound-ge c i above)) (o, omega arith)
  ]

  insert_gate-Keeps :
      (r : Row) (g : BoxedGate F) (c : PlonkCircuit F)
      → IsOpen c
      → RowBelow c.num_vars r
      → Keeps (insert_gate r g) c
  insert_gate-Keeps r g c o below =
      subst⁻¹ (λ r. IsOpen r.1 × (c.num_vars ≤ r.1.num_vars)) (insert_gate-open c g r o.open_domain)
        (with_gate-IsOpen c g r below o, omega arith)

  pub create_variable-Keeps : (v : F) (c : PlonkCircuit F) → IsOpen c → Keeps (create_variable v) c
  create_variable-Keeps v c o =
      subst⁻¹ (λ r. IsOpen r.1 × (c.num_vars ≤ r.1.num_vars))
        (create_variable-open c v o.open_domain) (with_variable-IsOpen c v o, omega arith)

  -- What runs after a variable is created.
  pub created-Keeps :
      {A : Type 0} (v : F) (k : ℕ → Op F A) (c : PlonkCircuit F)
      → IsOpen c
      → (IsOpen (with_variable v c) → Keeps (k c.num_vars) (with_variable v c))
      → Keeps (create_variable v >>= k) c
  created-Keeps v k c o rest =
      then-Keeps _ _ c (create_variable-open c v o.open_domain) (omega arith)
        (rest (with_variable-IsOpen c v o))

  -- An operation that keeps, and then a value is returned.
  pub pure-Keeps :
      {A B : Type 0} (m : Op F A) (g : A → B) (c : PlonkCircuit F)
      → Keeps m c
      → Keeps (m >>= λ a. pure (g a)) c
  unfolding ◌>>=◌
  pure-Keeps {A = A} m g c kept = after_pure (m c) kept
    where
      after_pure :
          (r : Outcome A × PlonkCircuit F)
          → IsOpen r.1 × (c.num_vars ≤ r.1.num_vars)
          → IsOpen (after (λ a. pure (g a)) r).1
            × (c.num_vars ≤ (after (λ a. pure (g a)) r).1.num_vars)
      after_pure (returned a, d) kept = kept
      after_pure (failed e, d) kept = kept
      after_pure (panicked, d) kept = kept

  module _ (c : PlonkCircuit F) (o : IsOpen c) where
    zero_in : 0 < c.num_vars
    zero_in = omega (arith, o.constants)

    pub set_variable_public-Keeps : (v : ℕ) → v < c.num_vars → Keeps (set_variable_public v) c
    set_variable_public-Keeps v v_in =
        subst⁻¹ (λ r. IsOpen r.1 × (c.num_vars ≤ r.1.num_vars))
          (set_variable_public-open c v o.open_domain) (with_input-IsOpen c v v_in o, omega arith)

    pub enforce_constant-Keeps : (a : ℕ) (k : F) → Keeps (enforce_constant a k) c
    unfolding enforce_constant
    enforce_constant-Keeps a k =
        checked-Keeps a _ c o
          λ a_in. insert_gate-Keeps _ _ c o (zero_in, zero_in, zero_in, zero_in, a_in)

    pub enforce_bool-Keeps : (a : ℕ) → Keeps (enforce_bool a) c
    unfolding enforce_bool
    enforce_bool-Keeps a =
        checked-Keeps a _ c o λ a_in. insert_gate-Keeps _ _ c o (a_in, a_in, zero_in, zero_in, a_in)

    pub enforce_equal-Keeps : (a b : ℕ) → Keeps (enforce_equal a b) c
    unfolding enforce_equal
    enforce_equal-Keeps a b = checked-Keeps a _ c o λ a_in.
        checked-Keeps b _ c o
          λ b_in. insert_gate-Keeps _ _ c o (a_in, b_in, zero_in, zero_in, zero_in)

    three-Keeps :
        (a b y : ℕ) (g : BoxedGate F)
        → Keeps
            (check_var_bound a
              >> (check_var_bound b >> (check_var_bound y >> insert_gate (row a b 0 0 y) g)))
            c
    three-Keeps a b y g = checked-Keeps a _ c o λ a_in. checked-Keeps b _ c o λ b_in.
        checked-Keeps y _ c o λ y_in. insert_gate-Keeps _ _ c o (a_in, b_in, zero_in, zero_in, y_in)

    pub add_gate-Keeps : (a b y : ℕ) → Keeps (add_gate a b y) c
    unfolding add_gate
    add_gate-Keeps a b y = three-Keeps a b y _

    pub sub_gate-Keeps : (a b y : ℕ) → Keeps (sub_gate a b y) c
    unfolding sub_gate
    sub_gate-Keeps a b y = three-Keeps a b y _

    pub mul_gate-Keeps : (a b y : ℕ) → Keeps (mul_gate a b y) c
    unfolding mul_gate
    mul_gate-Keeps a b y = three-Keeps a b y _
