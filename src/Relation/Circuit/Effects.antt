-- ===== src/Relation/Circuit/Effects.antt =====
-- What the checks and the basic operations do to an open circuit.
use jellyfish.Prelude.{
  ℕ, suc, ◌-◌, ◌<◌, ◌≤◌, ◌≢◌, ◌≡◌, refl, ap, true, false, not, ◌==◌, leb, get_elem?-get_or, arith,
}
use jellyfish.Relation.Gates.{Field}
use jellyfish.Relation.Circuit.Outcome.{
  var_index_out_of_bound, modify_finalized_circuit, returned, failed, from_option, returned-then,
  failed-then,
}
use jellyfish.Relation.Circuit.State.{
  BoxedGate, boxed_io, Row, row, PlonkCircuit, assigned, with_gate, with_variable, with_input,
}
use jellyfish.Relation.Circuit.Operations.{
  check_finalize_flag, check_var_bound, insert_gate, witness, create_variable, set_variable_public,
}
use jellyfish.Relation.Circuit.Model.{IsOpen}

is_finalized-open : (n : ℕ) → n ≡ 1 → not (n == 1) ≡ false
is_finalized-open n e = ground arith

is_finalized-closed : (n : ℕ) → n ≢ 1 → not (n == 1) ≡ true
is_finalized-closed n e = ground arith

suc_sub_one : (n : ℕ) → suc n - 1 ≡ n
suc_sub_one n = omega arith

leb-lt : (n i : ℕ) → i < n → leb n i ≡ false
leb-lt n i h = ground arith

leb-ge : (n i : ℕ) → n ≤ i → leb n i ≡ true
leb-ge n i h = ground arith

module _ {F : Type 0} where
  pub check_finalize_flag-open :
      (c : PlonkCircuit F) → c.eval_domain ≡ 1 → check_finalize_flag false c ≡ (returned tt, c)
  unfolding check_finalize_flag
  check_finalize_flag-open c e = rw (is_finalized-open c.eval_domain e)

  pub check_finalize_flag-closed :
      (c : PlonkCircuit F)
      → c.eval_domain ≢ 1
      → check_finalize_flag false c ≡ (failed modify_finalized_circuit, c)
  unfolding check_finalize_flag
  check_finalize_flag-closed c e = rw (is_finalized-closed c.eval_domain e)

  pub check_var_bound-lt :
      (c : PlonkCircuit F) (i : ℕ) → i < c.num_vars → check_var_bound i c ≡ (returned tt, c)
  unfolding check_var_bound
  check_var_bound-lt c i h = rw (leb-lt c.num_vars i h)

  pub check_var_bound-ge :
      (c : PlonkCircuit F) (i : ℕ)
      → c.num_vars ≤ i
      → check_var_bound i c ≡ (failed (var_index_out_of_bound i c.num_vars), c)
  unfolding check_var_bound
  check_var_bound-ge c i h = rw (leb-ge c.num_vars i h)

  pub insert_gate-open :
      (c : PlonkCircuit F) (g : BoxedGate F) (r : Row)
      → c.eval_domain ≡ 1
      → insert_gate r g c ≡ (returned tt, with_gate g r c)
  unfolding insert_gate
  insert_gate-open c g r e =
      returned-then _ _ (check_finalize_flag-open c e) (returned-then _ _ refl refl)

  pub insert_gate-closed :
      (c : PlonkCircuit F) (g : BoxedGate F) (r : Row)
      → c.eval_domain ≢ 1
      → insert_gate r g c ≡ (failed modify_finalized_circuit, c)
  unfolding insert_gate
  insert_gate-closed c g r e = failed-then _ _ (check_finalize_flag-closed c e)

  pub create_variable-open :
      (c : PlonkCircuit F) (v : F)
      → c.eval_domain ≡ 1
      → create_variable v c ≡ (returned c.num_vars, with_variable v c)
  unfolding create_variable
  create_variable-open c v e = returned-then _ _ (check_finalize_flag-open c e) (
      returned-then _ _ refl (
        returned-then _ _ refl
          (ap (λ n. (returned n, with_variable v c)) (suc_sub_one c.num_vars))))

  pub create_variable-closed :
      (c : PlonkCircuit F) (v : F)
      → c.eval_domain ≢ 1
      → create_variable v c ≡ (failed modify_finalized_circuit, c)
  unfolding create_variable
  create_variable-closed c v e = failed-then _ _ (check_finalize_flag-closed c e)

  pub set_variable_public-open :
      (c : PlonkCircuit F) (v : ℕ)
      → c.eval_domain ≡ 1
      → set_variable_public v c ≡ (returned tt, with_input v c)
  unfolding set_variable_public
  set_variable_public-open c v e =
      returned-then _ _ (check_finalize_flag-open c e)
        (returned-then _ _ refl (insert_gate-open _ boxed_io (row 0 0 0 0 v) e))

module _ {F : Type 0} ⦃f : Field F⦄ where
  pub witness-open :
      (c : PlonkCircuit F) (i : ℕ)
      → IsOpen c
      → i < c.num_vars
      → witness i c ≡ (returned (assigned c i), c)
  unfolding witness
  witness-open c i o below = returned-then _ _ (check_var_bound-lt c i below) (
      ap (λ v. (from_option v, c))
        (get_elem?-get_or c.witness i f.zero (omega (arith, o.witness_length))))
