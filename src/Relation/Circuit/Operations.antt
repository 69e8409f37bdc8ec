-- ===== src/Relation/Circuit/Operations.antt =====
-- The operations of `PlonkCircuit` that add variables and gates, and those they call.
use jellyfish.Prelude.{
  ℕ, zero, suc, ◌^◌, ◌-◌, Bool, true, false, not, ◌&&◌, leb, if◌then◌else◌, List, [], ◌∷◌, ◌++◌,
  length, get_elem?,
}
use jellyfish.Relation.Gates.{
  Field, ◌⊕◌, ◌⊗◌, ◌⊖◌, constant_gate, addition_gate, subtraction_gate, multiplication_gate,
  bool_gate, equality_gate,
}
use jellyfish.Relation.Circuit.Outcome.{
  var_index_out_of_bound, parameter_error, unfinalized_circuit, modify_finalized_circuit,
  wrong_plonk_type, Outcome, returned, failed, panicked, Action, pure, fail, inspect, from_option,
  ◌>>=◌, ◌>>◌, bind_outcome, modify, fail_if, unwrap,
}
use jellyfish.Relation.Circuit.State.{
  PlonkType, turbo_plonk, ultra_plonk, BoxedGate, boxed_io, boxed, Row, row, PlonkCircuit,
  is_finalized, push_row,
}

abbrev pub Op : Type 0 → Type 0 → Type 0
Op F A = Action (PlonkCircuit F) A

abbrev same_type : PlonkType → PlonkType → Bool
same_type turbo_plonk turbo_plonk = true
same_type ultra_plonk ultra_plonk = true
same_type _ _ = false

-- `1 << bits` on a `usize` of 64 bits: a shift past the width is a panic, as in a debug build.
abbrev shifted : ℕ → Outcome ℕ
shifted bits = if leb 64 bits then panicked else returned (2 ^ bits)

module _ {F : Type 0} where
  unfoldable pub check_finalize_flag : Bool → Op F (Unit {0})
  check_finalize_flag expect_finalized c =
      if not (is_finalized c) && expect_finalized
      then fail unfinalized_circuit c
      else if is_finalized c && not expect_finalized
      then fail modify_finalized_circuit c
      else pure tt c

  unfoldable pub check_plonk_type : PlonkType → Op F (Unit {0})
  check_plonk_type expect_type c =
      fail_if (not (same_type c.plonk_params.plonk_type expect_type)) wrong_plonk_type c

  unfoldable pub check_var_bound : ℕ → Op F (Unit {0})
  check_var_bound var c = fail_if (leb c.num_vars var) (var_index_out_of_bound var c.num_vars) c

  unfoldable pub check_vars_bound : List ℕ → Op F (Unit {0})
  check_vars_bound [] = pure tt
  check_vars_bound (var ∷ vars) = do check_var_bound var; check_vars_bound vars

  -- The two pushes of `insert_gate`, to the vectors of wires and to the gates.
  unfoldable pub insert_gate : Row → BoxedGate F → Op F (Unit {0})
  insert_gate wire_vars gate = do
    check_finalize_flag false
    modify λ c. record c { wire_variables = push_row wire_vars c.wire_variables }
    modify λ c. record c { gates = c.gates ++ gate ∷ [] }

  unfoldable pub add_range_check_variable : ℕ → Op F (Unit {0})
  add_range_check_variable var = do
    check_plonk_type ultra_plonk
    check_finalize_flag false
    check_var_bound var
    modify λ c. record c {
      wire_variables = record c.wire_variables { range = c.wire_variables.range ++ var ∷ [] };
    }

  unfoldable pub range_bit_len : PlonkCircuit F → Outcome ℕ
  range_bit_len c =
      if not (same_type c.plonk_params.plonk_type ultra_plonk)
      then failed (parameter_error "call range_bit_len() with non-ultraplonk circuit")
      else from_option c.plonk_params.range_bit_len

  unfoldable pub range_size : PlonkCircuit F → Outcome ℕ
  range_size c = bind_outcome (range_bit_len c) shifted

  unfoldable pub witness : ℕ → Op F F
  witness idx = do check_var_bound idx; inspect λ c. from_option (get_elem? c.witness idx)

  unfoldable pub create_variable : F → Op F ℕ
  create_variable val = do
    check_finalize_flag false
    modify λ c. record c { witness = c.witness ++ val ∷ [] }
    modify λ c. record c { num_vars = suc c.num_vars }
    inspect λ c. returned (c.num_vars - 1)

  unfoldable pub set_variable_public : ℕ → Op F (Unit {0})
  set_variable_public var = do
    check_finalize_flag false
    modify λ c. record c { pub_input_gate_ids = c.pub_input_gate_ids ++ length c.gates ∷ [] }
    insert_gate (row 0 0 0 0 var) boxed_io

  unfoldable pub create_public_variable : F → Op F ℕ
  create_public_variable val = do var ← create_variable val; set_variable_public var; pure var

  unfoldable pub create_boolean_variable_unchecked : F → Op F ℕ
  create_boolean_variable_unchecked a = do var ← create_variable a; pure var

  -- `for _ in 0..n { self.insert_gate(..).unwrap() }`, with an equality gate of the zero variable.
  unfoldable pub pad_with : BoxedGate F → ℕ → Op F (Unit {0})
  pad_with gate zero = pure tt
  pad_with gate (suc n) = do unwrap (insert_gate (row 0 0 0 0 0) gate); pad_with gate n

module _ {F : Type 0} ⦃f : Field F⦄ where
  unfoldable pub enforce_constant : ℕ → F → Op F (Unit {0})
  enforce_constant var constant = do
    check_var_bound var
    insert_gate (row 0 0 0 0 var) (boxed (constant_gate constant))

  unfoldable pub create_constant_variable : F → Op F ℕ
  create_constant_variable val = do var ← create_variable val; enforce_constant var val; pure var

  unfoldable pub add_gate : ℕ → ℕ → ℕ → Op F (Unit {0})
  add_gate a b c = do
    check_var_bound a
    check_var_bound b
    check_var_bound c
    insert_gate (row a b 0 0 c) (boxed addition_gate)

  unfoldable pub add : ℕ → ℕ → Op F ℕ
  add a b = do
    check_var_bound a
    check_var_bound b
    va ← witness a
    vb ← witness b
    c ← create_variable (va ⊕ vb)
    add_gate a b c
    pure c

  unfoldable pub sub_gate : ℕ → ℕ → ℕ → Op F (Unit {0})
  sub_gate a b c = do
    check_var_bound a
    check_var_bound b
    check_var_bound c
    insert_gate (row a b 0 0 c) (boxed subtraction_gate)

  unfoldable pub sub : ℕ → ℕ → Op F ℕ
  sub a b = do
    check_var_bound a
    check_var_bound b
    va ← witness a
    vb ← witness b
    c ← create_variable (va ⊖ vb)
    sub_gate a b c
    pure c

  unfoldable pub mul_gate : ℕ → ℕ → ℕ → Op F (Unit {0})
  mul_gate a b c = do
    check_var_bound a
    check_var_bound b
    check_var_bound c
    insert_gate (row a b 0 0 c) (boxed multiplication_gate)

  unfoldable pub mul : ℕ → ℕ → Op F ℕ
  mul a b = do
    check_var_bound a
    check_var_bound b
    va ← witness a
    vb ← witness b
    c ← create_variable (va ⊗ vb)
    mul_gate a b c
    pure c

  unfoldable pub enforce_bool : ℕ → Op F (Unit {0})
  enforce_bool a = do check_var_bound a; insert_gate (row a a 0 0 a) (boxed bool_gate)

  unfoldable pub enforce_equal : ℕ → ℕ → Op F (Unit {0})
  enforce_equal a b = do
    check_var_bound a
    check_var_bound b
    insert_gate (row a b 0 0 0) (boxed equality_gate)

  abbrev pub bit : Bool → F
  bit true = f.one
  bit false = f.zero

  unfoldable pub create_boolean_variable : Bool → Op F ℕ
  create_boolean_variable val = do var ← create_variable (bit val); enforce_bool var; pure var

  unfoldable pub create_public_boolean_variable : Bool → Op F ℕ
  create_public_boolean_variable val = do var ← create_public_variable (bit val); pure var

  unfoldable pub pad_gates : ℕ → Op F (Unit {0})
  pad_gates n = pad_with (boxed equality_gate) n
