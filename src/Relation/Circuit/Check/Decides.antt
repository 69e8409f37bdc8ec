-- ===== src/Relation/Circuit/Check/Decides.antt =====
-- What `check_circuit_satisfiability` of relation/src/constraint_system.rs decides for a TurboPlonk
-- circuit.
use mathlib.Core.Bool.{true≢false}
use mathlib.Core.Path.{subst}
use jellyfish.Prelude.{
  ℕ, zero, suc, ◌≡◌, ◌∙◌, ◌↔◌, inl, inr, refl, sym, ap, Bool, false, not, ◌==◌, Bool-cases, ==_iff,
  if◌then◌else◌, some, List, [], ◌∷◌, length, get_elem?, arith,
}
use jellyfish.Relation.Gates.{Field}
use jellyfish.Relation.Gates.Meaning.{IsField, io_gate-Computes}
use jellyfish.Relation.Inverses.{Inverses, IsInverses, OrderedField}
use jellyfish.Relation.Circuit.Outcome.{
  Outcome, returned, failed, bind_outcome, pub_input_len_mismatch,
}
use jellyfish.Relation.Circuit.State.{boxed_io, Row, PlonkCircuit, support_lookup, assigned}
use jellyfish.Relation.Circuit.Rows.{HasGate, some-injective}
use jellyfish.Relation.Circuit.Model.{IsOpen}
use jellyfish.Relation.Circuit.Agreement.{IsSatisfied}
use jellyfish.Relation.Circuit.Check.{
  then_outcome, check_gate, check_inputs, check_rest, check_ranges, lookup_table, check_lookups,
  check_lookup_part, check_circuit_satisfiability,
}
use jellyfish.Relation.Circuit.Check.Loops.{
  then_outcome_iff, failed≢returned, check_gate_iff, check_rest_iff,
}

module _ {F : Type 0} ⦃f : Field F⦄ where
  -- The output wires of the input gates have the values of the public input.
  abbrev pub InputsAgree : PlonkCircuit F → List ℕ → List F → Type 0
  InputsAgree c ids pis =
      (k id : ℕ) (p : F) (r : Row)
      → get_elem? ids k ≡ some id
      → get_elem? pis k ≡ some p
      → HasGate c id boxed_io r
      → p ≡ assigned c r.wire4

  abbrev HaveGates : PlonkCircuit F → List ℕ → Type 0
  HaveGates c ids = (k id : ℕ) → get_elem? ids k ≡ some id → (r : Row) × HasGate c id boxed_io r

module _ {F : Type 0} ⦃f : Field F⦄ ⦃inv : Inverses F⦄ ⦃law : IsField f⦄
    ⦃inverse : IsInverses f inv⦄ (c : PlonkCircuit F) (o : IsOpen c) where
  input_gate_iff :
      (id : ℕ) (p : F) (r : Row)
      → HasGate c id boxed_io r
      → (check_gate id p c ≡ returned tt) ↔ (p ≡ assigned c r.wire4)
  input_gate_iff id p r has =
      let (to, back) = check_gate_iff c o id p boxed_io r has in
      let (held, holds) = io_gate-Computes p _ _ _ _ _ in
      ((λ h. held (to h)), (λ e. back (holds e)))

  agree-cons :
      (id : ℕ) (p : F) (ids : List ℕ) (pis : List F)
      → ((r : Row) → HasGate c id boxed_io r → p ≡ assigned c r.wire4)
      → InputsAgree c ids pis
      → InputsAgree c (id ∷ ids) (p ∷ pis)
  agree-cons id p ids pis first rest zero id' p' r at value_at has =
      sym (some-injective value_at)
      ∙ first r (subst (λ i. HasGate c i boxed_io r) (sym (some-injective at)) has)
  agree-cons id p ids pis first rest (suc k) id' p' r at value_at has =
      rest k id' p' r at value_at has

  -- The loop over the public inputs.
  check_inputs_iff :
      (ids : List ℕ) (pis : List F)
      → length pis ≡ length ids
      → HaveGates c ids
      → (check_inputs ids pis c ≡ returned tt) ↔ InputsAgree c ids pis
  unfolding check_inputs
  check_inputs_iff [] pis l gates = ((λ h k id p r at. cc), (λ all. refl))
  check_inputs_iff (id ∷ ids) [] l gates = absurd (omega arith)
  check_inputs_iff (id ∷ ids) (p ∷ pis) l gates =
      let (r, has) = gates 0 id refl in
      let (both_to, both_back) = then_outcome_iff (check_gate id p c) (check_inputs ids pis c) in
      let (head_to, head_back) = input_gate_iff id p r has in
      let (tail_to, tail_back) =
        check_inputs_iff ids pis (omega arith) (λ k id' at. gates (suc k) id' at) in
      (
        (λ h.
            agree-cons id p ids pis (λ r' has'. (input_gate_iff id p r' has').0 (both_to h).0)
              (tail_to (both_to h).1)),
        (λ all. both_back (
          head_back (all 0 id p r refl refl has),
          tail_back (λ k id' p' r' at value_at has'. all (suc k) id' p' r' at value_at has'),
        )),
      )

  module _ ⦃prime : OrderedField F⦄ where
    module _ (pis : List F) where
      abbrev two_loops : Outcome (Unit {0}) → Outcome (Unit {0})
      two_loops lookups =
          then_outcome (check_inputs c.pub_input_gate_ids pis c)
            (then_outcome (check_rest c.gates 0 c) lookups)

      abbrev by_length : Bool → Outcome (Unit {0})
      by_length same =
          if not same
          then failed (pub_input_len_mismatch (length pis) (length c.pub_input_gate_ids))
          else two_loops (check_lookup_part c)

      two_loops_iff :
          length pis ≡ length c.pub_input_gate_ids
          → (two_loops (returned tt) ≡ returned tt)
            ↔ (InputsAgree c c.pub_input_gate_ids pis × IsSatisfied c)
      two_loops_iff l =
          let (both_to, both_back) =
            then_outcome_iff (check_inputs c.pub_input_gate_ids pis c)
              (then_outcome (check_rest c.gates 0 c) (returned tt)) in
          let (rest_to, rest_back) = then_outcome_iff (check_rest c.gates 0 c) (returned tt) in
          let (inputs_to, inputs_back) = check_inputs_iff c.pub_input_gate_ids pis l o.inputs in
          let (gates_to, gates_back) = check_rest_iff c o c.gates 0 refl in
          (
            (λ h. (
              inputs_to (both_to h).0,
              (λ i g r has. gates_to (rest_to (both_to h).1).0 i g r (omega arith) has),
            )),
            (λ (agree, satisfied). both_back (
              inputs_back agree,
              rest_back (gates_back (λ j g r from has. satisfied j g r has), refl),
            )),
          )

      -- On an open TurboPlonk circuit `check_circuit_satisfiability` returns just where the public input
      -- has the length of the list of input gates, each input gate's variable has its value, and the
      -- equation of every other gate holds under the circuit's witness.
      pub check_circuit_satisfiability_iff :
          support_lookup c ≡ false
          → (check_circuit_satisfiability pis c ≡ returned tt) ↔ (
              (length pis ≡ length c.pub_input_gate_ids)
              × InputsAgree c c.pub_input_gate_ids pis
              × IsSatisfied c)
      unfolding check_circuit_satisfiability
      check_circuit_satisfiability_iff no_lookup =
          let (equal_to, equal_back) = ==_iff (length pis) (length c.pub_input_gate_ids) in
          elim (Bool-cases (length pis == length c.pub_input_gate_ids)) [
            | inl same ↦
                let l = equal_to same in
                let (to, back) = two_loops_iff l in
                let runs : by_length (length pis == length c.pub_input_gate_ids)
                    ≡ two_loops (returned tt) =
                  ap by_length same
                  ∙ ap
                      (λ b. two_loops (
                        if b
                        then then_outcome (check_ranges (length c.wire_variables.range) 0 c) (
                            bind_outcome (lookup_table c.gates 0 c)
                              λ table. check_lookups c.gates 0 table c)
                        else returned tt))
                      no_lookup in
                (
                  (λ h. let (agree, satisfied) = to (sym runs ∙ h) in (l, agree, satisfied)),
                  (λ (l', agree, satisfied). runs ∙ back (agree, satisfied)),
                )
            | inr differ ↦ (
              (λ h. absurd (failed≢returned _ (sym (ap by_length differ) ∙ h))),
              (λ all. absurd (true≢false (sym (equal_back all.0) ∙ differ))),
            )
          ]
