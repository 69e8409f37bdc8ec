-- ===== src/Relation/Circuit/Selectors.antt =====
-- The getters of relation/src/constraint_system.rs: the selectors of all gates, one vector for each
-- selector, the public input, the size of the domain, and the table of a range.
use jellyfish.Prelude.{
  ℕ, zero, suc, ◌+◌, ◌%◌, ◌^◌, true, ltb, if◌then◌else◌, List, [], ◌∷◌, ◌++◌, get_elem?,
}
use jellyfish.Relation.Gates.{Field, Four, four, Two, two, Gate}
use jellyfish.Relation.Inverses.{OrderedField}
use jellyfish.Relation.Circuit.Outcome.{
  parameter_error, returned, from_option, fail, pure, inspect, ◌>>=◌, ◌>>◌,
}
use jellyfish.Relation.Circuit.State.{
  ultra_plonk, BoxedGate, selectors, PlonkCircuit, support_lookup,
}
use jellyfish.Relation.Circuit.Operations.{
  Op, check_plonk_type, check_finalize_flag, range_size, witness,
}
use jellyfish.Relation.Gadgets.Sum.{resize}

module _ {F : Type 0} where
  -- A push to each of the vectors.
  abbrev push_four : Four F → Four (List F) → Four (List F)
  push_four (four a b c d) (four as' bs cs ds) = four (a ∷ as') (b ∷ bs) (c ∷ cs) (d ∷ ds)

  abbrev push_two : Two F → Two (List F) → Two (List F)
  push_two (two a b) (two as' bs) = two (a ∷ as') (b ∷ bs)

  abbrev four_vectors : Four (List F) → List (List F)
  four_vectors (four a b c d) = a ∷ b ∷ c ∷ d ∷ []

  abbrev two_vectors : Two (List F) → List (List F)
  two_vectors (two a b) = a ∷ b ∷ []

module _ {F : Type 0} ⦃f : Field F⦄ where
  unfoldable pub each : (Gate F → F) → List (BoxedGate F) → List F
  each q [] = []
  each q (g ∷ gates) = q (selectors g) ∷ each q gates

  unfoldable pub each_four : (Gate F → Four F) → List (BoxedGate F) → Four (List F)
  each_four q [] = four [] [] [] []
  each_four q (g ∷ gates) = push_four (q (selectors g)) (each_four q gates)

  unfoldable pub each_two : (Gate F → Two F) → List (BoxedGate F) → Two (List F)
  each_two q [] = two [] []
  each_two q (g ∷ gates) = push_two (q (selectors g)) (each_two q gates)

  abbrev pub all_q_lc : PlonkCircuit F → Four (List F)
  all_q_lc c = each_four (λ g. g.q_lc) c.gates

  abbrev pub all_q_mul : PlonkCircuit F → Two (List F)
  all_q_mul c = each_two (λ g. g.q_mul) c.gates

  abbrev pub all_q_hash : PlonkCircuit F → Four (List F)
  all_q_hash c = each_four (λ g. g.q_hash) c.gates

  abbrev pub all_q_o : PlonkCircuit F → List F
  all_q_o c = each (λ g. g.q_o) c.gates

  abbrev pub all_q_c : PlonkCircuit F → List F
  all_q_c c = each (λ g. g.q_c) c.gates

  abbrev pub all_q_ecc : PlonkCircuit F → List F
  all_q_ecc c = each (λ g. g.q_ecc) c.gates

  abbrev pub all_q_lookup : PlonkCircuit F → List F
  all_q_lookup c = each (λ g. g.q_lookup) c.gates

  abbrev pub all_q_dom_sep : PlonkCircuit F → List F
  all_q_dom_sep c = each (λ g. g.q_dom_sep) c.gates

  abbrev pub table_key_vec : PlonkCircuit F → List F
  table_key_vec c = each (λ g. g.table_key) c.gates

  abbrev pub table_dom_sep_vec : PlonkCircuit F → List F
  table_dom_sep_vec c = each (λ g. g.table_dom_sep) c.gates

  unfoldable pub all_selectors : PlonkCircuit F → List (List F)
  all_selectors c =
      four_vectors (all_q_lc c)
      ++ two_vectors (all_q_mul c)
      ++ four_vectors (all_q_hash c)
      ++ (all_q_o c ∷ all_q_c c ∷ all_q_ecc c ∷ [])
      ++ (if support_lookup c then all_q_lookup c ∷ [] else [])

  -- The values of the outputs of gates.
  unfoldable pub outputs : List ℕ → Op F (List F)
  outputs [] = pure []
  outputs (gate_id ∷ ids) = do
    var ← inspect λ c. from_option (get_elem? c.wire_variables.out gate_id)
    val ← witness var
    vals ← outputs ids
    pure (val ∷ vals)

  abbrev pub public_input : Op F (List F)
  public_input c = outputs c.pub_input_gate_ids c

  abbrev pub eval_domain_size : Op F ℕ
  eval_domain_size = do check_finalize_flag true; inspect λ c. returned c.eval_domain

  abbrev pub srs_size : Op F ℕ
  srs_size = do size ← eval_domain_size; pure (size + 2)

  module _ ⦃prime : OrderedField F⦄ where
    -- The numbers from `i` on, as many as are left, as field elements.
    abbrev pub from_range : ℕ → ℕ → List F
    from_range zero i = []
    from_range (suc left) i = prime.from (i % 2 ^ 32) ∷ from_range left (suc i)

    unfoldable pub compute_range_table : Op F (List F)
    compute_range_table = do
      check_plonk_type ultra_plonk
      check_finalize_flag true
      size ← inspect λ c. range_size c
      λ c.
          if ltb c.eval_domain size
          then fail (parameter_error "Domain size {} < range size {}") c
          else pure (resize c.eval_domain f.zero (from_range size 0)) c
