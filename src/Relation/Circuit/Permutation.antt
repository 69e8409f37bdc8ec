-- ===== src/Relation/Circuit/Permutation.antt =====
-- The permutations of the wires of relation/src/constraint_system.rs, by which a proof shows that
-- the wires of a variable have one value.
pub mod Links
pub mod Collects
pub mod Cycles
use jellyfish.Prelude.{
  ℕ, zero, suc, ◌+◌, ◌*◌, not, ltb, leb, ◌==◌, if◌then◌else◌, Option, List, [], ◌∷◌, ◌++◌, length,
  get_elem?, set, take, replicate,
}
use jellyfish.Relation.Gates.{Field, ◌⊗◌}
use jellyfish.Relation.Circuit.Outcome.{
  parameter_error, Outcome, returned, failed, panicked, inspect, from_option, bind_outcome, modify,
  ◌>>=◌, ◌>>◌,
}
use jellyfish.Relation.Circuit.State.{Wires, PlonkCircuit, is_finalized}
use jellyfish.Relation.Circuit.Operations.{Op}

-- The evaluation domains of `ark_poly`, by their sizes: the size for a number of gates, and the
-- elements; and the representatives of as many cosets, which a random generator draws.
pub record Domains (F : Type 0) : Type 0 where
  pub size_for : ℕ → Option ℕ
  pub elements : ℕ → List F
  pub coset_representatives : ℕ → ℕ → List F

module _ {A : Type 0} where
  -- A write through an index expression.
  abbrev pub set_at : List A → ℕ → A → Outcome (List A)
  set_at xs i a = if ltb i (length xs) then returned (set xs i a) else panicked

-- The vectors of the first wire types.
abbrev pub columns : ℕ → Wires → List (List ℕ)
columns count w = take count (w.in0 ∷ w.in1 ∷ w.in2 ∷ w.in3 ∷ w.out ∷ w.range ∷ [])

-- A wire: its type and its gate.
abbrev pub Wire : Type 0
Wire = ℕ × ℕ

-- The loop over the gates of a wire type, each wire pushed to its variable's.
unfoldable pub map_column : ℕ → List ℕ → ℕ → List (List Wire) → Outcome (List (List Wire))
map_column wire_id [] gate_id wires = returned wires
map_column wire_id (var ∷ vars) gate_id wires =
    bind_outcome (from_option (get_elem? wires var))
      λ old. map_column wire_id vars (suc gate_id) (set wires var (old ++ (wire_id, gate_id) ∷ []))

-- The loop over the wire types.
unfoldable pub map_columns : List (List ℕ) → ℕ → List (List Wire) → Outcome (List (List Wire))
map_columns [] wire_id wires = returned wires
map_columns (vars ∷ rest) wire_id wires =
    bind_outcome (map_column wire_id vars 0 wires) λ next. map_columns rest (suc wire_id) next

-- The windows of a variable's wires from `w` on: each wire goes to the next, the last to the first.
unfoldable pub link_wires : ℕ → Wire → Wire → List Wire → List Wire → Outcome (List Wire)
link_wires n first w [] permutation = set_at permutation (w.0 * n + w.1) first
link_wires n first w (next ∷ rest) permutation =
    bind_outcome (set_at permutation (w.0 * n + w.1) next) λ p. link_wires n first next rest p

-- The loop over the variables.
unfoldable pub link_variables : ℕ → List (List Wire) → List Wire → Outcome (List Wire)
link_variables n [] permutation = returned permutation
link_variables n ([] ∷ vars) permutation = link_variables n vars permutation
link_variables n ((w ∷ ws) ∷ vars) permutation =
    bind_outcome (link_wires n w w ws permutation) λ p. link_variables n vars p

module _ {F : Type 0} where
  abbrev permutation_of : PlonkCircuit F → Outcome (List Wire)
  permutation_of c =
      if not (is_finalized c)
      then panicked
      else bind_outcome
          (map_columns (columns c.num_wire_types c.wire_variables) 0 (replicate c.num_vars []))
          λ wires.
            link_variables c.eval_domain wires (replicate (c.num_wire_types * c.eval_domain) (0, 0))

  unfoldable pub compute_wire_permutation : Op F (Unit {0})
  compute_wire_permutation = do
    permutation ← inspect λ c. permutation_of c
    modify λ c. record c { wire_permutation = permutation }

module _ {F : Type 0} ⦃f : Field F⦄ where
  -- The inner loop, over the elements of the domain, from the place of the first on.
  unfoldable pub fill_coset : F → List F → ℕ → List F → Outcome (List F)
  fill_coset coset_repr [] place perm = returned perm
  fill_coset coset_repr (group_elem ∷ elems) place perm =
      bind_outcome (set_at perm place (coset_repr ⊗ group_elem))
        λ p. fill_coset coset_repr elems (suc place) p

  -- The outer loop, over the representatives.
  unfoldable pub fill_cosets : ℕ → List F → List F → ℕ → List F → Outcome (List F)
  fill_cosets n [] elems i perm = returned perm
  fill_cosets n (k ∷ ks) elems i perm =
      bind_outcome (fill_coset k elems (i * n) perm) λ p. fill_cosets n ks elems (suc i) p

  -- A wire's place in the extended permutation, 0 where it is undefined.
  abbrev extended : PlonkCircuit F → Wire → Outcome F
  extended c w =
      if leb c.num_wire_types w.0
      then returned f.zero
      else from_option (get_elem? c.extended_id_permutation (w.0 * c.eval_domain + w.1))

  unfoldable pub extend_all : PlonkCircuit F → List Wire → Outcome (List F)
  extend_all c [] = returned []
  extend_all c (w ∷ ws) =
      bind_outcome (extended c w) λ x. bind_outcome (extend_all c ws) λ xs. returned (x ∷ xs)

  unfoldable pub compute_extended_permutation : PlonkCircuit F → Outcome (List F)
  compute_extended_permutation c =
      if not (is_finalized c)
      then panicked
      else bind_outcome (extend_all c c.wire_permutation) λ perm.
        if not (length perm == c.num_wire_types * c.eval_domain)
        then failed (
            parameter_error
              "Length of the extended permutation vector should be number of gate (including padded dummy gates) * number of wire types")
        else returned perm

  module _ ⦃domains : Domains F⦄ where
    abbrev id_permutation_of : PlonkCircuit F → Outcome (List F)
    id_permutation_of c =
        if not (is_finalized c)
        then panicked
        else fill_cosets c.eval_domain
            (domains.coset_representatives c.num_wire_types c.eval_domain)
            (domains.elements c.eval_domain) 0 (replicate (c.num_wire_types * c.eval_domain) f.zero)

    unfoldable pub compute_extended_id_permutation : Op F (Unit {0})
    compute_extended_id_permutation = do
      permutation ← inspect λ c. id_permutation_of c
      modify λ c. record c { extended_id_permutation = permutation }
