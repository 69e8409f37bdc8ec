-- ===== src/Relation/Circuit/Merge.antt =====
-- `finalize_for_mergeable_circuit` and `merge` of relation/src/constraint_system.rs.
use jellyfish.Prelude.{
  ℕ, zero, suc, ◌+◌, ◌*◌, ◌-◌, ◌/◌, true, not, ◌==◌, ◌||◌, ltb, leb, if◌then◌else◌, List, [], ◌∷◌,
  ◌++◌, length, get_elem?, take, drop, replicate,
}
use jellyfish.Relation.Gates.{Field, padding_gate}
use jellyfish.Relation.Circuit.Outcome.{
  parameter_error, wrong_plonk_type, Outcome, returned, failed, panicked, pure, inspect,
  from_option, bind_outcome, modify, ◌>>=◌, ◌>>◌,
}
use jellyfish.Relation.Circuit.State.{boxed, BoxedGate, Wires, PlonkCircuit, support_lookup}
use jellyfish.Relation.Circuit.Operations.{Op, check_finalize_flag}
use jellyfish.Relation.Circuit.Check.{wire_variable}
use jellyfish.Relation.Circuit.Permutation.{Wire, Domains, set_at, compute_extended_id_permutation}
use jellyfish.Relation.Circuit.Finalize.{
  resize_wires, or_domain_error, finalize_for_arithmetization,
}
use jellyfish.Relation.Circuit.Selectors.{eval_domain_size}

pub data MergeableCircuitType : Type 0 where
  type_a type_b : MergeableCircuitType

-- A loop over the numbers from `i` on, for the rounds that are left.
abbrev pub each_from :
    (ℕ → List Wire → Outcome (List Wire)) → ℕ → ℕ → List Wire → Outcome (List Wire)
each_from step zero i perm = returned perm
each_from step (suc left) i perm =
    bind_outcome (step i perm) λ next. each_from step left (suc i) next

-- The entry of the wire `j` of type `i` of a type A circuit, in a domain of twice the size.
unfoldable pub copy_entry : ℕ → List Wire → ℕ → ℕ → List Wire → Outcome (List Wire)
copy_entry n old i j perm =
    bind_outcome (from_option (get_elem? old (i * n + j))) λ w. set_at perm (i * 2 * n + j) w

-- The entry of a type B circuit, whose gates are in the reverse order.
unfoldable pub reverse_entry : ℕ → List Wire → ℕ → ℕ → List Wire → Outcome (List Wire)
reverse_entry n old i j perm = bind_outcome (from_option (get_elem? old (i * n + j))) λ w.
    if leb (2 * n) w.1
    then panicked
    else set_at perm (i * 2 * n + 2 * n - 1 - j) (w.0, 2 * n - 1 - w.1)

-- The entries of a wire in the two halves.
unfoldable pub merge_entry : ℕ → List Wire → List Wire → ℕ → ℕ → List Wire → Outcome (List Wire)
merge_entry n self_perm other_perm i j perm =
    bind_outcome (from_option (get_elem? self_perm (i * 2 * n + j))) λ w.
      bind_outcome (set_at perm (i * 2 * n + j) w) λ next.
        bind_outcome (from_option (get_elem? other_perm (i * 2 * n + n + j)))
          λ w'. set_at next (i * 2 * n + n + j) w'

-- The permutation of a mergeable circuit, undefined outside the circuit's own half.
unfoldable pub mergeable_permutation :
    MergeableCircuitType → ℕ → ℕ → List Wire → Outcome (List Wire)
mergeable_permutation type_a types n old =
    each_from (λ i. each_from (copy_entry n old i) n 0) types 0
      (replicate (types * 2 * n) (types, 0))
mergeable_permutation type_b types n old =
    each_from (λ i. each_from (reverse_entry n old i) n 0) types 0
      (replicate (types * 2 * n) (types, 0))

-- `reverse` of a slice.
abbrev pub reversed : {A : Type 0} → List A → List A
reversed [] = []
reversed (x ∷ xs) = reversed xs ++ x ∷ []

-- The vectors of the first wire types, each reversed.
abbrev pub reverse_wires : ℕ → Wires → Wires
reverse_wires count w = record {
  in0 = reversed_below 0 w.in0;
  in1 = reversed_below 1 w.in1;
  in2 = reversed_below 2 w.in2;
  in3 = reversed_below 3 w.in3;
  out = reversed_below 4 w.out;
  range = reversed_below 5 w.range;
}
  where
    reversed_below : ℕ → List ℕ → List ℕ
    reversed_below wire_id xs = if ltb wire_id count then reversed xs else xs

-- The places of the input gates after the gates are reversed.
unfoldable pub reverse_ids : ℕ → List ℕ → Outcome (List ℕ)
reverse_ids n [] = returned []
reverse_ids n (id ∷ ids) =
    if leb (2 * n) id
    then panicked
    else (bind_outcome (reverse_ids n ids) λ rest. returned ((2 * n - 1 - id) ∷ rest))

module _ {F : Type 0} ⦃f : Field F⦄ where
  -- The gates and wires of a type B circuit are reversed.
  abbrev reverse_gates : MergeableCircuitType → ℕ → Op F (Unit {0})
  reverse_gates type_a n = pure tt
  reverse_gates type_b n = do
    modify λ c. record c {
      gates = reversed c.gates;
      wire_variables = reverse_wires c.num_wire_types c.wire_variables;
    }
    ids ← inspect λ c. reverse_ids n c.pub_input_gate_ids
    modify λ c. record c { pub_input_gate_ids = ids }

  unfoldable pub finalize_for_mergeable_circuit :
      ⦃domains : Domains F⦄ → MergeableCircuitType → Op F (Unit {0})
  finalize_for_mergeable_circuit ⦃domains⦄ circuit_type = do
    inspect λ c. if support_lookup c then failed wrong_plonk_type else returned tt
    finalize_for_arithmetization
    n ← eval_domain_size
    size ← inspect λ c. or_domain_error (domains.size_for (2 * n))
    modify λ c. record c { eval_domain = size }
    modify λ c. record c { gates = c.gates ++ replicate n (boxed padding_gate) }
    modify λ c. record c { wire_variables = resize_wires c.num_wire_types (2 * n) c.wire_variables }
    reverse_gates circuit_type n
    perm ← inspect λ c. mergeable_permutation circuit_type c.num_wire_types n c.wire_permutation
    modify λ c. record c { wire_permutation = perm }
    compute_extended_id_permutation

  -- The variables of a wire type for the gates from `j` on, for those that are left.
  unfoldable pub column_from : List ℕ → ℕ → List (BoxedGate F) → ℕ → List ℕ
  column_from column shift [] j = []
  column_from column shift (g ∷ gates) j =
      (wire_variable column j + shift) ∷ column_from column shift gates (suc j)

  -- A wire type of the merged circuit; the vectors past the number of wire types stay empty.
  abbrev merged_column : PlonkCircuit F → PlonkCircuit F → ℕ → ℕ → (Wires → List ℕ) → List ℕ
  merged_column self other n wire_id column =
      if ltb wire_id self.num_wire_types
      then column_from (column self.wire_variables) 0 (take n self.gates) 0
        ++ column_from (column other.wire_variables) self.num_vars (drop n other.gates) n
      else []

  abbrev merged : PlonkCircuit F → PlonkCircuit F → ℕ → List Wire → PlonkCircuit F
  merged self other n wire_permutation = record {
    num_vars = self.num_vars + other.num_vars;
    witness = self.witness ++ other.witness;
    gates = take n self.gates ++ drop n other.gates;
    wire_variables = record {
      in0 = merged_column self other n 0 (λ w. w.in0);
      in1 = merged_column self other n 1 (λ w. w.in1);
      in2 = merged_column self other n 2 (λ w. w.in2);
      in3 = merged_column self other n 3 (λ w. w.in3);
      out = merged_column self other n 4 (λ w. w.out);
      range = merged_column self other n 5 (λ w. w.range);
    };
    pub_input_gate_ids = self.pub_input_gate_ids ++ other.pub_input_gate_ids;
    wire_permutation = wire_permutation;
    extended_id_permutation = self.extended_id_permutation;
    num_wire_types = self.num_wire_types;
    eval_domain = self.eval_domain;
    plonk_params = self.plonk_params;
    num_table_elems = 0;
    table_gate_ids = [];
  }

  -- The merged circuit, once the checks are passed.
  abbrev merge_halves : PlonkCircuit F → PlonkCircuit F → ℕ → Outcome (PlonkCircuit F)
  merge_halves self other n =
      bind_outcome
        (each_from
          (λ i. each_from (merge_entry n self.wire_permutation other.wire_permutation i) n 0)
          self.num_wire_types 0 (replicate (self.num_wire_types * 2 * n) (0, 0)))
        λ perm. returned (merged self other n perm)

  -- The tests that the first input gates stand where the two types of circuit have them.
  abbrev check_types : PlonkCircuit F → PlonkCircuit F → Outcome (Unit {0})
  check_types self other = bind_outcome (from_option (get_elem? self.pub_input_gate_ids 0)) λ first.
      if not (first == 0)
      then failed (parameter_error "the first circuit is not type A")
      else bind_outcome (from_option (get_elem? other.pub_input_gate_ids 0)) λ last.
        if other.eval_domain == 0
        then panicked
        else if not (last == other.eval_domain - 1)
        then failed (parameter_error "the second circuit is not type B")
        else returned tt

  unfoldable pub merge : PlonkCircuit F → PlonkCircuit F → Outcome (PlonkCircuit F)
  merge self other = bind_outcome (check_finalize_flag true self).0 λ x.
      bind_outcome (check_finalize_flag true other).0 λ y.
        if not (self.eval_domain == other.eval_domain)
        then failed (parameter_error "cannot merge circuits with different domain sizes: {}, {}")
        else if support_lookup self || support_lookup other
        then failed (parameter_error "do not support merging non-TurboPlonk circuits.")
        else if not (length self.pub_input_gate_ids == length other.pub_input_gate_ids)
        then failed (parameter_error "self.num_inputs = {} different from other.num_inputs = {}")
        else bind_outcome (check_types self other)
            λ z. merge_halves self other (self.eval_domain / 2)
