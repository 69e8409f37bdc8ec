-- ===== src/Relation/Circuit/Errors.antt =====
-- How the operations of relation/src/constraint_system.rs fail.
use jellyfish.Prelude.{ℕ, ◌<◌, ◌≤◌, ◌≡◌}
use jellyfish.Relation.Gates.{Field}
use jellyfish.Relation.Inverses.{Inverses, OrderedField}
use jellyfish.Relation.Gadgets.Compare.{
  is_lt, is_gt, is_leq, is_geq, enforce_lt, enforce_gt, enforce_leq, enforce_geq, is_lt_constant,
  is_leq_constant, is_gt_constant, is_geq_constant, enforce_lt_constant, enforce_leq_constant,
  enforce_gt_constant, enforce_geq_constant,
}
use jellyfish.Relation.Circuit.Outcome.{
  failed, var_index_out_of_bound, CircuitError, returned-then, failed-then,
}
use jellyfish.Relation.Circuit.State.{PlonkCircuit}
use jellyfish.Relation.Circuit.Operations.{
  Op, witness, enforce_constant, add_gate, add, sub_gate, sub, mul_gate, mul, enforce_bool,
  enforce_equal,
}
use jellyfish.Relation.Circuit.Effects.{check_var_bound-lt, check_var_bound-ge}

module _ {F : Type 0} where
  -- The operation fails and leaves the circuit as it was.
  abbrev pub Fails : {A : Type 0} → Op F A → CircuitError → PlonkCircuit F → Type 0
  Fails m e c = m c ≡ (failed e, c)

module _ {F : Type 0} ⦃f : Field F⦄ (c : PlonkCircuit F) where
  -- Each of these operations and comparisons, with a variable there is not in the place of `a` and one
  -- there is in the place of `b`, fails with that variable and the number of variables, and leaves the
  -- circuit as it was.
  pub out_of_bound-Fails :
      ⦃inv : Inverses F⦄
      → ⦃prime : OrderedField F⦄ → (a b y : ℕ) (v : F) → c.num_vars ≤ a
      → b < c.num_vars
      → let e = var_index_out_of_bound a c.num_vars in
        Fails (witness a) e c
        × Fails (enforce_constant a v) e c
        × Fails (enforce_bool a) e c
        × Fails (enforce_equal a b) e c
        × Fails (enforce_equal b a) e c
        × Fails (add_gate a b y) e c
        × Fails (add_gate b a y) e c
        × Fails (add_gate b b a) e c
        × Fails (sub_gate b b a) e c
        × Fails (mul_gate b b a) e c
        × Fails (add a b) e c
        × Fails (add b a) e c
        × Fails (sub b a) e c
        × Fails (mul b a) e c
        × Fails (is_lt a b) e c
        × Fails (is_lt b a) e c
        × Fails (is_gt b a) e c
        × Fails (is_leq a b) e c
        × Fails (is_leq b a) e c
        × Fails (is_geq a b) e c
        × Fails (is_geq b a) e c
        × Fails (enforce_lt a b) e c
        × Fails (enforce_lt b a) e c
        × Fails (enforce_gt b a) e c
        × Fails (enforce_leq b a) e c
        × Fails (enforce_geq a b) e c
        × Fails (is_lt_constant a v) e c
        × Fails (is_leq_constant a v) e c
        × Fails (is_gt_constant a v) e c
        × Fails (is_geq_constant a v) e c
        × Fails (enforce_lt_constant a v) e c
        × Fails (enforce_leq_constant a v) e c
        × Fails (enforce_gt_constant a v) e c
        × Fails (enforce_geq_constant a v) e c
  unfolding witness enforce_constant enforce_bool enforce_equal add_gate sub_gate mul_gate add sub
      mul is_lt is_gt is_leq is_geq enforce_lt enforce_gt enforce_leq enforce_geq is_lt_constant
      is_leq_constant is_gt_constant is_geq_constant enforce_lt_constant enforce_leq_constant
      enforce_gt_constant enforce_geq_constant
  out_of_bound-Fails a b y v above b_in =
      let out = check_var_bound-ge c a above in
      let fits = check_var_bound-lt c b b_in in
      (
        failed-then _ _ out,
        failed-then _ _ out,
        failed-then _ _ out,
        failed-then _ _ out,
        returned-then _ _ fits (failed-then _ _ out),
        failed-then _ _ out,
        returned-then _ _ fits (failed-then _ _ out),
        returned-then _ _ fits (returned-then _ _ fits (failed-then _ _ out)),
        returned-then _ _ fits (returned-then _ _ fits (failed-then _ _ out)),
        returned-then _ _ fits (returned-then _ _ fits (failed-then _ _ out)),
        failed-then _ _ out,
        returned-then _ _ fits (failed-then _ _ out),
        returned-then _ _ fits (failed-then _ _ out),
        returned-then _ _ fits (failed-then _ _ out),
        failed-then _ _ out,
        returned-then _ _ fits (failed-then _ _ out),
        failed-then _ _ out,
        failed-then _ _ out,
        returned-then _ _ fits (failed-then _ _ out),
        failed-then _ _ out,
        returned-then _ _ fits (failed-then _ _ out),
        failed-then _ _ out,
        returned-then _ _ fits (failed-then _ _ out),
        failed-then _ _ out,
        failed-then _ _ (failed-then _ _ out),
        failed-then _ _ (failed-then _ _ out),
        failed-then _ _ out,
        failed-then _ _ out,
        failed-then _ _ out,
        failed-then _ _ out,
        failed-then _ _ out,
        failed-then _ _ out,
        failed-then _ _ out,
        failed-then _ _ out,
      )
