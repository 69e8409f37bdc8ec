-- ===== src/Relation/Circuit/Check.antt =====
-- `check_circuit_satisfiability` of relation/src/constraint_system.rs and the checks it calls.
pub mod Loops
pub mod Decides
use jellyfish.Prelude.{
  ℕ, zero, suc, ◌^◌, ◌%◌, ◌<◌, Bool, true, false, not, ◌&&◌, ◌||◌, leb, ltb, ◌==◌, if◌then◌else◌,
  Option, none, some, List, [], ◌∷◌, ◌++◌, length, get_elem?,
}
use jellyfish.Relation.Gates.{Field, Gate, Four, four, gate_sides}
use jellyfish.Relation.Inverses.{Inverses, OrderedField}
use jellyfish.Relation.Circuit.Outcome.{
  CircuitError, gate_check_failure, pub_input_len_mismatch, index_error, wrong_plonk_type, Outcome,
  returned, failed, panicked, from_option, bind_outcome,
}
use jellyfish.Relation.Circuit.State.{
  PlonkType, ultra_plonk, BoxedGate, selectors, is_io, Row, Wires, PlonkCircuit, row?,
  support_lookup,
}
use jellyfish.Relation.Circuit.Operations.{range_size, witness}

-- A result that reads no state: the value of an operation on the circuit.
abbrev pub then_outcome : Outcome (Unit {0}) → Outcome (Unit {0}) → Outcome (Unit {0})
then_outcome first second = bind_outcome first λ x. second

-- `wire_variable`: the variable of a wire, or the zero variable past the end.
abbrev pub wire_variable : List ℕ → ℕ → ℕ
wire_variable column j = or_zero_variable (get_elem? column j)
  where
    or_zero_variable : Option ℕ → ℕ
    or_zero_variable none = 0
    or_zero_variable (some v) = v

-- A table's separator, a key and its two values: an element of `key_val_table`.
pub data Entry (F : Type 0) : Type 0 where
  entry : F → F → F → F → Entry F

module _ {F : Type 0} ⦃f : Field F⦄ ⦃inv : Inverses F⦄ where
  -- The comparison of the gate's two sides.
  abbrev pub compared : ℕ → F × F → Outcome (Unit {0})
  compared gate_id sides =
      if inv.beq sides.0 sides.1 then returned tt else failed (gate_check_failure gate_id)

  abbrev assigned? : PlonkCircuit F → ℕ → Outcome F
  assigned? c i = from_option (get_elem? c.witness i)

  unfoldable pub check_gate : ℕ → F → PlonkCircuit F → Outcome (Unit {0})
  check_gate gate_id pub_input c = bind_outcome (from_option (row? c.wire_variables gate_id)) λ r.
      bind_outcome (assigned? c r.wire0) λ w0. bind_outcome (assigned? c r.wire1) λ w1.
        bind_outcome (assigned? c r.wire2) λ w2. bind_outcome (assigned? c r.wire3) λ w3.
          bind_outcome (assigned? c r.wire4) λ w4.
            bind_outcome (from_option (get_elem? c.gates gate_id))
              λ g. compared gate_id (gate_sides (selectors g) pub_input (four w0 w1 w2 w3) w4)

  -- The gates with their public inputs, in the order of the inputs; the lengths are equal.
  unfoldable pub check_inputs : List ℕ → List F → PlonkCircuit F → Outcome (Unit {0})
  check_inputs [] pub_input c = returned tt
  check_inputs (gate_id ∷ ids) [] c = panicked
  check_inputs (gate_id ∷ ids) (pi ∷ pub_input) c =
      then_outcome (check_gate gate_id pi c) (check_inputs ids pub_input c)

  -- The other gates, for the gates that are left and the index of the first of them.
  unfoldable pub check_rest : List (BoxedGate F) → ℕ → PlonkCircuit F → Outcome (Unit {0})
  check_rest [] gate_id c = returned tt
  check_rest (g ∷ gates) gate_id c =
      then_outcome (if not (is_io g) then check_gate gate_id f.zero c else returned tt)
        (check_rest gates (suc gate_id) c)

  module _ ⦃prime : OrderedField F⦄ where
    -- The comparison of a range gate's value with the size of the range as a `u32`.
    abbrev in_range : ℕ → ℕ → F → Outcome (Unit {0})
    in_range idx size v =
        if prime.geq v (prime.from (size % 2 ^ 32))
        then failed (gate_check_failure idx)
        else returned tt

    unfoldable pub check_range_gate : ℕ → PlonkCircuit F → Outcome (Unit {0})
    check_range_gate idx c =
        if not (support_lookup c)
        then failed wrong_plonk_type
        else if leb (length c.wire_variables.range) idx
        then failed index_error
        else bind_outcome (range_size c) λ size.
          bind_outcome (from_option (get_elem? c.wire_variables.range idx))
            λ var. bind_outcome (assigned? c var) λ v. in_range idx size v

    unfoldable pub check_ranges : ℕ → ℕ → PlonkCircuit F → Outcome (Unit {0})
    check_ranges zero idx c = returned tt
    check_ranges (suc left) idx c =
        then_outcome (check_range_gate idx c) (check_ranges left (suc idx) c)

  abbrev witness_of : PlonkCircuit F → ℕ → Outcome F
  witness_of c i = (witness i c).0

  abbrev same_entry : Entry F → Entry F → Bool
  same_entry (entry a b x y) (entry a' b' x' y') =
      (inv.beq a a' && inv.beq b b') && (inv.beq x x' && inv.beq y y')

  abbrev contains : List (Entry F) → Entry F → Bool
  contains [] e = false
  contains (x ∷ xs) e = same_entry x e || contains xs e

  -- The table, with the entry of zeros, for the gates that are left.
  unfoldable pub lookup_table : List (BoxedGate F) → ℕ → PlonkCircuit F → Outcome (List (Entry F))
  lookup_table [] gate_id c = returned (entry f.zero f.zero f.zero f.zero ∷ [])
  lookup_table (g ∷ gates) gate_id c =
      bind_outcome (entry_of (inv.is_zero_value (selectors g).q_lookup)) λ added.
        bind_outcome (lookup_table gates (suc gate_id) c) λ table. returned (added ++ table)
    where
      entry_of : Bool → Outcome (List (Entry F))
      entry_of true = returned []
      entry_of false =
          bind_outcome (witness_of c (wire_variable c.wire_variables.in3 gate_id)) λ val0.
            bind_outcome (witness_of c (wire_variable c.wire_variables.out gate_id)) λ val1.
              returned (entry (selectors g).table_dom_sep (selectors g).table_key val0 val1 ∷ [])

  unfoldable pub check_lookups :
      List (BoxedGate F) → ℕ → List (Entry F) → PlonkCircuit F → Outcome (Unit {0})
  check_lookups [] gate_id table c = returned tt
  check_lookups (g ∷ gates) gate_id table c =
      then_outcome (checked (inv.is_zero_value (selectors g).q_lookup))
        (check_lookups gates (suc gate_id) table c)
    where
      checked : Bool → Outcome (Unit {0})
      checked true = returned tt
      checked false =
          bind_outcome (witness_of c (wire_variable c.wire_variables.in0 gate_id)) λ key.
            bind_outcome (witness_of c (wire_variable c.wire_variables.in1 gate_id)) λ val0.
              bind_outcome (witness_of c (wire_variable c.wire_variables.in2 gate_id)) λ val1.
                if contains table (entry (selectors g).q_dom_sep key val0 val1)
                then returned tt
                else failed (gate_check_failure gate_id)

  module _ ⦃prime : OrderedField F⦄ where
    -- The range and lookup gates of an UltraPlonk circuit.
    abbrev pub check_lookup_part : PlonkCircuit F → Outcome (Unit {0})
    check_lookup_part c =
        if support_lookup c
        then then_outcome (check_ranges (length c.wire_variables.range) 0 c)
            (bind_outcome (lookup_table c.gates 0 c) λ table. check_lookups c.gates 0 table c)
        else returned tt

    unfoldable pub check_circuit_satisfiability : List F → PlonkCircuit F → Outcome (Unit {0})
    check_circuit_satisfiability pub_input c =
        if not (length pub_input == length c.pub_input_gate_ids)
        then failed (pub_input_len_mismatch (length pub_input) (length c.pub_input_gate_ids))
        else then_outcome (check_inputs c.pub_input_gate_ids pub_input c)
            (then_outcome (check_rest c.gates 0 c) (check_lookup_part c))
