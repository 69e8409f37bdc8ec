-- ===== src/Relation/Circuit/New.antt =====
-- The circuits that are made anew.
use jellyfish.Prelude.{ℕ, ◌+◌, ◌<◌, ◌≡◌, refl, sym, ap, none, some, [], ◌∷◌, arith}
use jellyfish.Relation.Gates.{Field, constant_gate}
use jellyfish.Relation.Gates.Meaning.{IsField, constant_gate-Computes}
use jellyfish.Relation.Circuit.Outcome.{
  Outcome, returned, failed, panicked, ◌>>◌, unwrap, unwrapped, returned-then, bind_outcome,
}
use jellyfish.Relation.Circuit.State.{
  PlonkType, turbo_plonk, ultra_plonk, PlonkParams, init, boxed, BoxedGate, Row, row, PlonkCircuit,
  with_gate,
}
use jellyfish.Relation.Circuit.Operations.{enforce_constant}
use jellyfish.Relation.Circuit.Rows.{HasGate, Aligned, Aligned-with_gate}
use jellyfish.Relation.Circuit.Model.{
  RowBelow, Satisfies-with_gate, with_gate-Satisfies, every-with_gate, IsOpen,
}
use jellyfish.Relation.Circuit.Effects.{check_var_bound-lt, insert_gate-open}
use jellyfish.Relation.Circuit.Agreement.{IsSatisfied}

-- The number of wire types, for `GATE_WIDTH` 4.
abbrev pub wire_types : PlonkType → ℕ
wire_types turbo_plonk = 4 + 1 + 0
wire_types ultra_plonk = 4 + 1 + 1

abbrev unwrapped_params : Outcome PlonkParams → Outcome PlonkParams
unwrapped_params (returned p) = returned p
unwrapped_params (failed e) = panicked
unwrapped_params panicked = panicked

module _ {F : Type 0} ⦃f : Field F⦄ where
  -- The struct literal of `new`.
  abbrev empty_circuit : PlonkParams → PlonkCircuit F
  empty_circuit plonk_params = record {
    num_vars = 2;
    witness = f.zero ∷ f.one ∷ [];
    gates = [];
    wire_variables = record { in0 = []; in1 = []; in2 = []; in3 = []; out = []; range = [] };
    pub_input_gate_ids = [];
    wire_permutation = [];
    extended_id_permutation = [];
    num_wire_types = wire_types plonk_params.plonk_type;
    eval_domain = 1;
    plonk_params = plonk_params;
    num_table_elems = 0;
    table_gate_ids = [];
  }

  abbrev state_of : Outcome (Unit {0}) × PlonkCircuit F → Outcome (PlonkCircuit F)
  state_of (returned x, c) = returned c
  state_of (failed e, c) = failed e
  state_of (panicked, c) = panicked

  unfoldable pub new_circuit : PlonkParams → Outcome (PlonkCircuit F)
  new_circuit plonk_params = state_of (
      (unwrap (enforce_constant 0 f.zero) >> unwrap (enforce_constant 1 f.one))
        (empty_circuit plonk_params))

  unfoldable pub new_turbo_plonk : Outcome (PlonkCircuit F)
  new_turbo_plonk = bind_outcome (unwrapped_params (init turbo_plonk none)) new_circuit

  unfoldable pub new_ultra_plonk : ℕ → Outcome (PlonkCircuit F)
  new_ultra_plonk range_bit_len =
      bind_outcome (unwrapped_params (init ultra_plonk (some range_bit_len))) new_circuit

  -- The circuit with the two gates that hold variables 0 and 1 to their constants.
  abbrev zero_held : PlonkParams → PlonkCircuit F
  zero_held p = with_gate (boxed (constant_gate f.zero)) (row 0 0 0 0 0) (empty_circuit p)

  abbrev pub fresh : PlonkParams → PlonkCircuit F
  fresh p = with_gate (boxed (constant_gate f.one)) (row 0 0 0 0 1) (zero_held p)

  enforce_constant-fits :
      (c : PlonkCircuit F) (a : ℕ) (k : F)
      → c.eval_domain ≡ 1
      → a < c.num_vars
      → unwrap (enforce_constant a k) c
        ≡ (returned tt, with_gate (boxed (constant_gate k)) (row 0 0 0 0 a) c)
  unfolding enforce_constant
  enforce_constant-fits c a k domain below =
      ap unwrapped
        (returned-then _ _ (check_var_bound-lt c a below) (insert_gate-open c _ _ domain))

  pub new_circuit-fresh : (p : PlonkParams) → new_circuit p ≡ returned (fresh p)
  unfolding new_circuit
  new_circuit-fresh p = ap state_of (
      returned-then _ _ (enforce_constant-fits (empty_circuit p) 0 f.zero refl (omega arith))
        (enforce_constant-fits (zero_held p) 1 f.one refl (omega arith)))

  no_gate :
      (P : BoxedGate F → Row → Type 0) (p : PlonkParams) (i : ℕ) (g : BoxedGate F) (r : Row)
      → HasGate (empty_circuit p) i g r
      → P g r
  no_gate P p i g r has = cc

module _ {F : Type 0} ⦃f : Field F⦄ ⦃law : IsField f⦄ where
  pub fresh-IsOpen : (p : PlonkParams) → IsOpen {F = F} (fresh p)
  fresh-IsOpen p =
      let first : Aligned {F = F} (empty_circuit p) = record {
        in0 = refl;
        in1 = refl;
        in2 = refl;
        in3 = refl;
        out = refl;
      } in
      let second : Aligned {F = F} (zero_held p) =
        Aligned-with_gate (empty_circuit p) (boxed (constant_gate f.zero)) (row 0 0 0 0 0) first in
      record {
        open_domain = refl;
        witness_length = refl;
        aligned =
            Aligned-with_gate {F = F} (zero_held p) (boxed (constant_gate f.one)) (row 0 0 0 0 1)
              second;
        bounded =
            every-with_gate (zero_held p) _ _ (λ g r. RowBelow 2 r) second
              (every-with_gate (empty_circuit p) _ _ (λ g r. RowBelow 2 r) first (no_gate _ p)
                (omega arith, omega arith, omega arith, omega arith, omega arith))
              (omega arith, omega arith, omega arith, omega arith, omega arith);
        inputs = λ k id at. cc;
        constants = omega arith;
        zero_value = refl;
        one_value = refl;
        pinned = λ w sat.
            let (before, one_held) = Satisfies-with_gate (zero_held p) _ _ w second sat in
            (
              sym (
                  (constant_gate-Computes f.zero _ _ _ _ _).0
                    (Satisfies-with_gate (empty_circuit p) _ _ w first before).1),
              sym ((constant_gate-Computes f.one _ _ _ _ _).0 one_held),
            );
      }

  pub fresh-IsSatisfied : (p : PlonkParams) → IsSatisfied {F = F} (fresh p)
  fresh-IsSatisfied p =
      let first : Aligned {F = F} (empty_circuit p) = record {
        in0 = refl;
        in1 = refl;
        in2 = refl;
        in3 = refl;
        out = refl;
      } in
      let second : Aligned {F = F} (zero_held p) =
        Aligned-with_gate (empty_circuit p) (boxed (constant_gate f.zero)) (row 0 0 0 0 0) first in
      with_gate-Satisfies (zero_held p) _ _ _ second
        (with_gate-Satisfies (empty_circuit p) _ _ _ first (no_gate _ p)
          ((constant_gate-Computes f.zero _ _ _ _ _).1 refl))
        ((constant_gate-Computes f.one _ _ _ _ _).1 refl)

  -- A new circuit of either type is made without a panic: it is open, its witness satisfies it, and its
  -- first two variables have the values 0 and 1 under whatever assignment satisfies its gates.
  pub new-IsOpen :
      (bits : ℕ)
      → ((c : PlonkCircuit F) × (new_turbo_plonk ≡ returned c) × IsOpen c × IsSatisfied c)
        × ((c : PlonkCircuit F) × (new_ultra_plonk bits ≡ returned c) × IsOpen c × IsSatisfied c)
  unfolding new_turbo_plonk new_ultra_plonk init
  new-IsOpen bits =
      let turbo : PlonkParams = record { plonk_type = turbo_plonk; range_bit_len = none } in
      let ultra : PlonkParams = record { plonk_type = ultra_plonk; range_bit_len = some bits } in
      (
        (fresh turbo, new_circuit-fresh turbo, fresh-IsOpen turbo, fresh-IsSatisfied turbo),
        (fresh ultra, new_circuit-fresh ultra, fresh-IsOpen ultra, fresh-IsSatisfied ultra),
      )
