-- ===== src/Relation/Circuit/State.antt =====
-- The state of a circuit: `PlonkCircuit` of relation/src/constraint_system.rs.
use jellyfish.Prelude.{
  ℕ, Bool, true, false, not, ◌==◌, Option, none, some, List, [], ◌∷◌, ◌++◌, suc, length, get_elem?,
  get_or,
}
use jellyfish.Relation.Gates.{Field, Gate, io_gate}
use jellyfish.Relation.Circuit.Outcome.{parameter_error, Outcome, returned, failed}

pub data PlonkType : Type 0 where
  turbo_plonk ultra_plonk : PlonkType

pub record PlonkParams : Type 0 where
  pub plonk_type : PlonkType
  pub range_bit_len : Option ℕ

unfoldable pub init : PlonkType → Option ℕ → Outcome PlonkParams
init turbo_plonk range_bit_len =
    returned (record { plonk_type = turbo_plonk; range_bit_len = none })
init ultra_plonk none = failed (parameter_error "range bit len cannot be none for UltraPlonk")
init ultra_plonk (some bits) =
    returned (record { plonk_type = ultra_plonk; range_bit_len = some bits })

-- `Box<dyn Gate<F>>`, with the one type that a downcast tells from the others.
pub data BoxedGate (F : Type 0) : Type 0 where
  boxed_io : BoxedGate F
  boxed : Gate F → BoxedGate F

abbrev pub selectors : {F : Type 0} → ⦃f : Field F⦄ → BoxedGate F → Gate F
selectors boxed_io = io_gate
selectors (boxed g) = g

abbrev pub is_io : {F : Type 0} → BoxedGate F → Bool
is_io boxed_io = true
is_io (boxed g) = false

-- `[Variable; GATE_WIDTH + 1]`: the variables of a gate's wires.
pub record Row : Type 0 where
  pub wire0 : ℕ
  pub wire1 : ℕ
  pub wire2 : ℕ
  pub wire3 : ℕ
  pub wire4 : ℕ

abbrev pub row : ℕ → ℕ → ℕ → ℕ → ℕ → Row
row a b c d e = record { wire0 = a; wire1 = b; wire2 = c; wire3 = d; wire4 = e }

-- `[Vec<Variable>; GATE_WIDTH + 2]`: the five wires of each gate, and those of the range gates.
pub record Wires : Type 0 where
  pub in0 : List ℕ
  pub in1 : List ℕ
  pub in2 : List ℕ
  pub in3 : List ℕ
  pub out : List ℕ
  pub range : List ℕ

pub record PlonkCircuit (F : Type 0) : Type 0 where
  pub num_vars : ℕ
  pub gates : List (BoxedGate F)
  pub wire_variables : Wires
  pub pub_input_gate_ids : List ℕ
  pub witness : List F
  pub wire_permutation : List (ℕ × ℕ)
  pub extended_id_permutation : List F
  pub num_wire_types : ℕ
  -- the size of the evaluation domain
  pub eval_domain : ℕ
  pub plonk_params : PlonkParams
  pub num_table_elems : ℕ
  pub table_gate_ids : List (ℕ × ℕ)

abbrev pub is_finalized : {F : Type 0} → PlonkCircuit F → Bool
is_finalized c = not (c.eval_domain == 1)

abbrev pub support_lookup : {F : Type 0} → PlonkCircuit F → Bool
support_lookup c = elim c.plonk_params.plonk_type [ ultra_plonk ↦ true | turbo_plonk ↦ false ]

-- The zip of a gate's variables with the first five vectors, each pushed to its vector.
abbrev pub push_row : Row → Wires → Wires
push_row r w = record w {
  in0 = w.in0 ++ r.wire0 ∷ [];
  in1 = w.in1 ++ r.wire1 ∷ [];
  in2 = w.in2 ++ r.wire2 ∷ [];
  in3 = w.in3 ++ r.wire3 ∷ [];
  out = w.out ++ r.wire4 ∷ [];
}

abbrev bind_option : {A B : Type 0} → Option A → (A → Option B) → Option B
bind_option none k = none
bind_option (some a) k = k a

-- The five wires of a gate, none where one of the vectors ends before.
unfoldable pub row? : Wires → ℕ → Option Row
row? w g = bind_option (get_elem? w.in0 g) λ v0. bind_option (get_elem? w.in1 g) λ v1.
    bind_option (get_elem? w.in2 g) λ v2.
      bind_option (get_elem? w.in3 g)
        λ v3. bind_option (get_elem? w.out g) λ v4. some (row v0 v1 v2 v3 v4)

-- The value of a variable.
abbrev pub assigned : {F : Type 0} → ⦃f : Field F⦄ → PlonkCircuit F → ℕ → F
assigned ⦃f⦄ c i = get_or c.witness i f.zero

-- The state after a variable, a gate, a public input or a range gate is added.
module _ {F : Type 0} where
  abbrev pub with_variable : F → PlonkCircuit F → PlonkCircuit F
  with_variable v c = record c { witness = c.witness ++ v ∷ []; num_vars = suc c.num_vars }

  abbrev pub with_gate : BoxedGate F → Row → PlonkCircuit F → PlonkCircuit F
  with_gate g r c = record c {
    wire_variables = push_row r c.wire_variables;
    gates = c.gates ++ g ∷ [];
  }

  abbrev pub with_input : ℕ → PlonkCircuit F → PlonkCircuit F
  with_input v c =
      with_gate boxed_io (row 0 0 0 0 v)
        (record c { pub_input_gate_ids = c.pub_input_gate_ids ++ length c.gates ∷ [] })

  abbrev pub with_range : ℕ → PlonkCircuit F → PlonkCircuit F
  with_range v c = record c {
    wire_variables = record c.wire_variables { range = c.wire_variables.range ++ v ∷ [] };
  }
