-- ===== src/Relation/Gadgets/Runs.antt =====
-- How the gadgets of relation/src/gadgets/arithmetic.rs run on an open circuit.
use jellyfish.Prelude.{ℕ, suc, ◌<◌, ◌≤◌, ◌≡◌, refl, ap, List, [], ◌∷◌, arith}
use jellyfish.Relation.Gates.{
  Field, Gate, Four, four, Two, ◌⊕◌, ◌⊗◌, quad_poly_gate, lin_comb_gate, mul_add_gate,
  constant_addition_gate, constant_multiplication_gate,
}
use jellyfish.Relation.Circuit.Outcome.{
  Outcome, returned, pure, ◌>>=◌, ◌>>◌, unwrap, unwrapped, returned-then,
}
use jellyfish.Relation.Circuit.State.{
  boxed, Row, row, PlonkCircuit, assigned, with_gate, with_variable,
}
use jellyfish.Relation.Circuit.Operations.{
  Op, check_var_bound, check_vars_bound, insert_gate, witness, create_variable,
}
use jellyfish.Relation.Circuit.Model.{RowBelow, IsOpen, with_variable-IsOpen}
use jellyfish.Relation.Circuit.Effects.{
  check_var_bound-lt, insert_gate-open, create_variable-open, witness-open,
}
use jellyfish.Relation.Circuit.Arithmetic.{checked-then}
use jellyfish.Relation.Gadgets.Arithmetic.{
  slice, slice_in, with_output, witness_four, quad_poly, quad_poly_value, gen_quad_poly, lc_gate,
  lc_value, lc, mul_add_wires, mul_add_value, mul_add, add_constant_gate, add_constant,
  mul_constant_gate, mul_constant,
}

abbrev pub AllBelow : ℕ → List ℕ → Type 0
AllBelow n [] = Unit
AllBelow n (x ∷ xs) = (x < n) × AllBelow n xs

pub AllBelow-le : (n m : ℕ) (xs : List ℕ) → n ≤ m → AllBelow n xs → AllBelow m xs
AllBelow-le n m [] h below = tt
AllBelow-le n m (x ∷ xs) h (first, rest) = (omega arith, AllBelow-le n m xs h rest)

abbrev pub FourBelow : ℕ → Four ℕ → Type 0
FourBelow n (four p q r s) = (p < n) × (q < n) × (r < n) × (s < n)

module _ {F : Type 0} where
  pub check_vars_bound-below :
      (c : PlonkCircuit F) (xs : List ℕ)
      → AllBelow c.num_vars xs
      → check_vars_bound xs c ≡ (returned tt, c)
  unfolding check_vars_bound
  check_vars_bound-below c [] below = refl
  check_vars_bound-below c (x ∷ xs) (first, rest) =
      returned-then _ _ (check_var_bound-lt c x first) (check_vars_bound-below c xs rest)

unwrap-returned :
    {S A : Type 0} (m : S → Outcome A × S) {s s' : S} {a : A}
    → m s ≡ (returned a, s')
    → unwrap m s ≡ (returned a, s')
unwrap-returned m runs = ap unwrapped runs

module _ {F : Type 0} ⦃f : Field F⦄ (c : PlonkCircuit F) (o : IsOpen c) where
  abbrev pub assigned_four : Four ℕ → Four F
  assigned_four (four p q r s) = four (assigned c p) (assigned c q) (assigned c r) (assigned c s)

  pub witness_four-open :
      (xs : Four ℕ) → FourBelow c.num_vars xs → witness_four xs c ≡ (returned (assigned_four xs), c)
  unfolding witness_four
  witness_four-open (four p q r s) (p_in, q_in, r_in, s_in) =
      returned-then _ _ (witness-open c p o p_in) (
        returned-then _ _ (witness-open c q o q_in) (
          returned-then _ _ (witness-open c r o r_in)
            (returned-then _ _ (witness-open c s o s_in) refl)))

  -- Bound checks on all wires, then a gate.
  checked_gate-runs :
      (r : Row) (g : Gate F)
      → RowBelow c.num_vars r
      → (check_vars_bound (slice r) >> insert_gate r (boxed g)) c
        ≡ (returned tt, with_gate (boxed g) r c)
  checked_gate-runs r g (p0, p1, p2, p3, p4) =
      returned-then _ _ (check_vars_bound-below c (slice r) (p0, (p1, (p2, (p3, (p4, tt))))))
        (insert_gate-open c _ _ o.open_domain)

  pub quad_poly-runs :
      (r : Row) (q_lc : Four F) (q_mul : Two F) (q_o q_c : F)
      → RowBelow c.num_vars r
      → quad_poly r q_lc q_mul q_o q_c c
        ≡ (returned tt, with_gate (boxed (quad_poly_gate q_lc q_mul q_o q_c)) r c)
  unfolding quad_poly
  quad_poly-runs r q_lc q_mul q_o q_c below = checked_gate-runs r _ below

  pub lc_gate-runs :
      (r : Row) (k : Four F)
      → RowBelow c.num_vars r
      → lc_gate r k c ≡ (returned tt, with_gate (boxed (lin_comb_gate k)) r c)
  unfolding lc_gate
  lc_gate-runs r k below = checked_gate-runs r _ below

  pub mul_add_wires-runs :
      (r : Row) (k : Two F)
      → RowBelow c.num_vars r
      → mul_add_wires r k c ≡ (returned tt, with_gate (boxed (mul_add_gate k)) r c)
  unfolding mul_add_wires
  mul_add_wires-runs r k below = checked_gate-runs r _ below

  -- Four checked values read, a variable for what is computed of them, and a gate on the five.
  four_wires-runs :
      (xs : Four ℕ) (op : Four F → F) (gate : ℕ → Op F (Unit {0})) (g : Gate F)
      → FourBelow c.num_vars xs
      → gate c.num_vars (with_variable (op (assigned_four xs)) c) ≡ (
        returned tt,
        with_gate (boxed g) (with_output xs c.num_vars) (with_variable (op (assigned_four xs)) c),
      )
      → (check_vars_bound (slice_in xs)
            >> (witness_four xs >>= λ vs. create_variable (op vs) >>= λ y. gate y >> pure y))
          c
        ≡ (
          returned c.num_vars,
          with_gate (boxed g) (with_output xs c.num_vars) (with_variable (op (assigned_four xs)) c),
        )
  four_wires-runs (four p q r s) op gate g (p_in, q_in, r_in, s_in) runs =
      returned-then _ _ (check_vars_bound-below c _ (p_in, (q_in, (r_in, (s_in, tt))))) (
        returned-then _ _ (witness_four-open (four p q r s) (p_in, q_in, r_in, s_in)) (
          returned-then _ _ (create_variable-open c _ o.open_domain) (returned-then _ _ runs refl)))

  -- The variables of four wires and a new one.
  four_below :
      (xs : Four ℕ)
      → FourBelow c.num_vars xs
      → RowBelow (suc c.num_vars) (with_output xs c.num_vars)
  four_below (four p q r s) (p_in, q_in, r_in, s_in) =
      (omega arith, omega arith, omega arith, omega arith, omega arith)

  slice_below :
      (xs : Four ℕ)
      → FourBelow c.num_vars xs
      → AllBelow (suc c.num_vars) (slice (with_output xs c.num_vars))
  slice_below (four p q r s) (p_in, q_in, r_in, s_in) =
      (omega arith, (omega arith, (omega arith, (omega arith, (omega arith, tt)))))

  pub gen_quad_poly-runs :
      (xs : Four ℕ) (q_lc : Four F) (q_mul : Two F) (q_c : F)
      → FourBelow c.num_vars xs
      → gen_quad_poly xs q_lc q_mul q_c c ≡ (
        returned c.num_vars,
        with_gate
            (boxed (quad_poly_gate q_lc q_mul f.one q_c))
            (with_output xs c.num_vars)
            (with_variable (quad_poly_value q_lc q_mul q_c (assigned_four xs)) c),
      )
  unfolding gen_quad_poly
  gen_quad_poly-runs xs q_lc q_mul q_c below =
      four_wires-runs xs (quad_poly_value q_lc q_mul q_c) _ _ below
        (insert_gate-open (with_variable _ c) _ _ o.open_domain)

  pub lc-runs :
      (xs : Four ℕ) (k : Four F)
      → FourBelow c.num_vars xs
      → lc xs k c ≡ (
        returned c.num_vars,
        with_gate
            (boxed (lin_comb_gate k))
            (with_output xs c.num_vars)
            (with_variable (lc_value (assigned_four xs) k) c),
      )
  unfolding lc lc_gate
  lc-runs xs k below =
      four_wires-runs xs (λ vs. lc_value vs k) _ _ below
        (returned-then _ _ (check_vars_bound-below (with_variable _ c) _ (slice_below xs below))
          (insert_gate-open (with_variable _ c) _ _ o.open_domain))

  pub mul_add-runs :
      (xs : Four ℕ) (k : Two F)
      → FourBelow c.num_vars xs
      → mul_add xs k c ≡ (
        returned c.num_vars,
        with_gate
            (boxed (mul_add_gate k))
            (with_output xs c.num_vars)
            (with_variable (mul_add_value k (assigned_four xs)) c),
      )
  unfolding mul_add mul_add_wires
  mul_add-runs xs k below = four_wires-runs xs (mul_add_value k) _ _ below (
      returned-then _ _ (check_vars_bound-below (with_variable _ c) _ (slice_below xs below))
        (insert_gate-open (with_variable _ c) _ _ o.open_domain))

module _ {F : Type 0} ⦃f : Field F⦄ (c : PlonkCircuit F) (o : IsOpen c) where
  module _ (x : ℕ) (x_in : x < c.num_vars) (k : F) where
    pub add_constant_gate-runs :
        (y : ℕ)
        → y < c.num_vars
        → add_constant_gate x k y c
          ≡ (returned tt, with_gate (boxed (constant_addition_gate k)) (row x 1 0 0 y) c)
    unfolding add_constant_gate
    add_constant_gate-runs y y_in =
        checked-then c x _ x_in (checked-then c y _ y_in (insert_gate-open c _ _ o.open_domain))

    pub mul_constant_gate-runs :
        (y : ℕ)
        → y < c.num_vars
        → mul_constant_gate x k y c
          ≡ (returned tt, with_gate (boxed (constant_multiplication_gate k)) (row x 0 0 0 y) c)
    unfolding mul_constant_gate
    mul_constant_gate-runs y y_in =
        checked-then c x _ x_in (checked-then c y _ y_in (insert_gate-open c _ _ o.open_domain))

    -- A checked value read, a variable for what is computed of it, and a gate on the two.
    constant-runs :
        (op : F → F) (gate : ℕ → Op F (Unit {0})) (g : Gate F) (i : ℕ)
        → gate c.num_vars (with_variable (op (assigned c x)) c) ≡ (
          returned tt,
          with_gate (boxed g) (row x i 0 0 c.num_vars) (with_variable (op (assigned c x)) c),
        )
        → (check_var_bound x
              >> (unwrap (witness x) >>= λ v.
                  unwrap (create_variable (op v)) >>= λ y. gate y >> pure y))
            c
          ≡ (
            returned c.num_vars,
            with_gate (boxed g) (row x i 0 0 c.num_vars) (with_variable (op (assigned c x)) c),
          )
    constant-runs op gate g i runs = checked-then c x _ x_in (
        returned-then _ _ (unwrap-returned (witness x) (witness-open c x o x_in)) (
          returned-then _ _
            (unwrap-returned (create_variable (op (assigned c x)))
              (create_variable-open c _ o.open_domain))
            (returned-then _ _ runs refl)))

module _ {F : Type 0} ⦃f : Field F⦄ (c : PlonkCircuit F) (o : IsOpen c) (x : ℕ)
    (x_in : x < c.num_vars) (k : F) where
  pub add_constant-runs : add_constant x k c ≡ (
    returned c.num_vars,
    with_gate
        (boxed (constant_addition_gate k))
        (row x 1 0 0 c.num_vars)
        (with_variable (k ⊕ assigned c x) c),
  )
  unfolding add_constant
  add_constant-runs =
      constant-runs c o x x_in k (λ v. k ⊕ v) (add_constant_gate x k) (constant_addition_gate k) 1
        (add_constant_gate-runs (with_variable _ c) (with_variable-IsOpen c _ o) x (omega arith) k
          c.num_vars (omega arith))

  pub mul_constant-runs : mul_constant x k c ≡ (
    returned c.num_vars,
    with_gate
        (boxed (constant_multiplication_gate k))
        (row x 0 0 0 c.num_vars)
        (with_variable (k ⊗ assigned c x) c),
  )
  unfolding mul_constant
  mul_constant-runs =
      constant-runs c o x x_in k (λ v. k ⊗ v) (mul_constant_gate x k)
        (constant_multiplication_gate k) 0
        (mul_constant_gate-runs (with_variable _ c) (with_variable-IsOpen c _ o) x (omega arith) k
          c.num_vars (omega arith))
