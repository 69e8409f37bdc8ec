-- ===== src/Relation/Circuit/Finalize.antt =====
-- `finalize_for_arithmetization` of relation/src/constraint_system.rs: the domain, the padding, the
-- order of the gates.
use jellyfish.Prelude.{
  ℕ, zero, suc, ◌+◌, ◌-◌, true, ltb, leb, if◌then◌else◌, Option, none, some, List, [], ◌∷◌, ◌++◌,
  length, get_elem?, set, replicate,
}
use jellyfish.Relation.Gates.{Field, padding_gate}
use jellyfish.Relation.Circuit.Outcome.{
  domain_creation_error, Outcome, returned, failed, panicked, pure, inspect, from_option,
  bind_outcome, modify, ◌>>=◌, ◌>>◌,
}
use jellyfish.Relation.Circuit.State.{boxed, Wires, PlonkCircuit, is_finalized, support_lookup}
use jellyfish.Relation.Circuit.Operations.{Op, check_finalize_flag, range_size}
use jellyfish.Relation.Circuit.Permutation.{
  Domains, compute_wire_permutation, compute_extended_id_permutation,
}
use jellyfish.Relation.Gadgets.Sum.{resize}

module _ {A : Type 0} where
  -- `swap` of a slice.
  abbrev pub swapped : List A → ℕ → ℕ → Outcome (List A)
  swapped xs i j =
      bind_outcome (from_option (get_elem? xs i))
        λ a. bind_outcome (from_option (get_elem? xs j)) λ b. returned (set (set xs i b) j a)

abbrev pub max : ℕ → ℕ → ℕ
max a b = if leb a b then b else a

abbrev pub or_domain_error : Option ℕ → Outcome ℕ
or_domain_error none = failed domain_creation_error
or_domain_error (some size) = returned size

-- The vectors of the first wire types, resized with the zero variable.
abbrev pub resize_wires : ℕ → ℕ → Wires → Wires
resize_wires count n w = record {
  in0 = resized 0 w.in0;
  in1 = resized 1 w.in1;
  in2 = resized 2 w.in2;
  in3 = resized 3 w.in3;
  out = resized 4 w.out;
  range = resized 5 w.range;
}
  where
    resized : ℕ → List ℕ → List ℕ
    resized wire_id xs = if ltb wire_id count then resize n 0 xs else xs

module _ {F : Type 0} ⦃f : Field F⦄ where
  unfoldable pub pad : Op F (Unit {0})
  pad = do
    check_finalize_flag true
    modify λ c. record c {
      gates = c.gates ++ replicate (c.eval_domain - length c.gates) (boxed padding_gate);
    }
    inspect λ c. if ltb 6 c.num_wire_types then panicked else returned tt
    modify λ c. record c {
      wire_variables = resize_wires c.num_wire_types c.eval_domain c.wire_variables;
    }

  -- The swap of two gates and of their wires.
  unfoldable pub swap_gates : ℕ → ℕ → Op F (Unit {0})
  swap_gates i j = do
    gates ← inspect λ c. swapped c.gates i j
    in0 ← inspect λ c. swapped c.wire_variables.in0 i j
    in1 ← inspect λ c. swapped c.wire_variables.in1 i j
    in2 ← inspect λ c. swapped c.wire_variables.in2 i j
    in3 ← inspect λ c. swapped c.wire_variables.in3 i j
    out ← inspect λ c. swapped c.wire_variables.out i j
    modify λ c. record c {
      gates = gates;
      wire_variables = record c.wire_variables {
        in0 = in0;
        in1 = in1;
        in2 = in2;
        in3 = in3;
        out = out;
      };
    }

  -- The loop over the input gates, from an index on; the result is their new places.
  unfoldable pub move_inputs : List ℕ → ℕ → Op F (List ℕ)
  move_inputs [] gate_id = pure []
  move_inputs (io_gate_id ∷ ids) gate_id = do
    moved ←
        (if ltb gate_id io_gate_id
          then (do swap_gates gate_id io_gate_id; pure gate_id)
          else pure io_gate_id)
    rest ← move_inputs ids (suc gate_id)
    pure (moved ∷ rest)

  -- The loop over the gates of a table, the last first; the result is the next free place.
  unfoldable pub move_table : ℕ → ℕ → ℕ → Op F ℕ
  move_table table_gate_id zero cur_gate_id = pure cur_gate_id
  move_table table_gate_id (suc left) cur_gate_id = do
    next ←
        (if ltb (table_gate_id + left) cur_gate_id
          then (do swap_gates (table_gate_id + left) cur_gate_id; pure (cur_gate_id - 1))
          else pure cur_gate_id)
    move_table table_gate_id left next

  -- The loop over the tables, the last first.
  unfoldable pub move_tables : List (ℕ × ℕ) → ℕ → Op F ℕ
  move_tables [] cur_gate_id = pure cur_gate_id
  move_tables (table ∷ tables) cur_gate_id = do
    next ← move_tables tables cur_gate_id
    move_table table.0 table.1 next

  unfoldable pub rearrange_gates : Op F (Unit {0})
  rearrange_gates = do
    check_finalize_flag true
    ids ← inspect λ c. returned c.pub_input_gate_ids
    moved ← move_inputs ids 0
    modify λ c. record c { pub_input_gate_ids = moved }
    lookup ← inspect λ c. returned (support_lookup c)
    if lookup
        then (do
          tables ← inspect λ c. returned c.table_gate_ids
          last ← inspect λ c. if ltb c.eval_domain 2 then panicked else returned (c.eval_domain - 2)
          end ← move_tables tables last
          pure tt)
        else pure tt

  module _ ⦃domains : Domains F⦄ where
    -- `Radix2EvaluationDomain::new(..).ok_or(..)?`
    abbrev set_domain : ℕ → Op F (Unit {0})
    set_domain slots = do
      size ← inspect λ c. or_domain_error (domains.size_for slots)
      modify λ c. record c { eval_domain = size }

    -- The gates, or the range and lookup gates in slots of their own, whichever are more.
    abbrev num_slots_needed : PlonkCircuit F → Outcome ℕ
    num_slots_needed c =
        if support_lookup c
        then (bind_outcome (range_size c) λ size. returned (
            max (length c.gates)
              (max size (length c.wire_variables.range) + c.num_table_elems + 1)))
        else returned (length c.gates)

    abbrev finalize_open : Op F (Unit {0})
    finalize_open = do
      slots ← inspect λ c. num_slots_needed c
      set_domain slots
      pad
      rearrange_gates
      compute_wire_permutation
      compute_extended_id_permutation

    unfoldable pub finalize_for_arithmetization : Op F (Unit {0})
    finalize_for_arithmetization c = if is_finalized c then pure tt c else finalize_open c
