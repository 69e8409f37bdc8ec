-- ===== src/Relation/Circuit/Model.antt =====
-- Assignments of values to the variables of a circuit, and the circuits that a circuit grows into.
use mathlib.Core.Path.{subst, subst₂}
use jellyfish.Prelude.{
  ℕ, suc, ◌<◌, ◌≡◌, sym, ◌∙◌, inl, inr, some, get_elem?, get_elem?-append-cases, [], ◌∷◌, length,
  get_or-append, length-append, arith,
}
use jellyfish.Relation.Gates.{Field, four}
use jellyfish.Relation.Gates.Meaning.{Holds}
use jellyfish.Relation.Circuit.State.{
  BoxedGate, boxed_io, boxed, Row, row, PlonkCircuit, assigned, with_gate, with_variable,
  with_input,
}
use jellyfish.Relation.Circuit.Rows.{
  Aligned, Aligned-with_gate, HasGate, HasGate-with_gate-old, HasGate-with_gate-new,
  HasGate-with_gate-cases,
}

abbrev pub RowBelow : ℕ → Row → Type 0
RowBelow n r = (r.wire0 < n) × (r.wire1 < n) × (r.wire2 < n) × (r.wire3 < n) × (r.wire4 < n)

pub RowBelow-suc : (n : ℕ) (r : Row) → RowBelow n r → RowBelow (suc n) r
RowBelow-suc n r (p0, p1, p2, p3, p4) =
    (omega arith, omega arith, omega arith, omega arith, omega arith)

module _ {F : Type 0} ⦃f : Field F⦄ where
  -- An assignment meets a gate; an input gate asks for the public input, and is left to it.
  abbrev pub Meets : (ℕ → F) → BoxedGate F → Row → Type 0
  Meets w boxed_io r = Unit
  Meets w (boxed g) r = Holds g (four (w r.wire0) (w r.wire1) (w r.wire2) (w r.wire3)) (w r.wire4)

  -- The assignment meets every gate.
  abbrev pub Satisfies : (ℕ → F) → PlonkCircuit F → Type 0
  Satisfies w c = (i : ℕ) (g : BoxedGate F) (r : Row) → HasGate c i g r → Meets w g r

  abbrev pub IsPinned : (ℕ → F) → Type 0
  IsPinned w = (w 0 ≡ f.zero) × (w 1 ≡ f.one)

  -- A circuit that is not finalized: its vectors have one length, its gates have the variables it
  -- has, and variables 0 and 1 have the values 0
  -- and 1, to which gates hold them.
  pub record IsOpen (c : PlonkCircuit F) : Type 0 where
    pub open_domain : c.eval_domain ≡ 1
    pub witness_length : length c.witness ≡ c.num_vars
    pub aligned : Aligned c
    pub bounded : (i : ℕ) (g : BoxedGate F) (r : Row) → HasGate c i g r → RowBelow c.num_vars r
    pub inputs :
        (k id : ℕ)
        → get_elem? c.pub_input_gate_ids k ≡ some id
        → (r : Row) × HasGate c id boxed_io r
    pub constants : 1 < c.num_vars
    pub zero_value : assigned c 0 ≡ f.zero
    pub one_value : assigned c 1 ≡ f.one
    pub pinned : (w : ℕ → F) → Satisfies w c → IsPinned w

  module _ (c : PlonkCircuit F) (g : BoxedGate F) (r : Row) where
    pub Satisfies-with_gate :
        (w : ℕ → F) → Aligned c → Satisfies w (with_gate g r c) → Satisfies w c × Meets w g r
    Satisfies-with_gate w aligned sat = (
      (λ i g' r' has. sat i g' r' (HasGate-with_gate-old c g r aligned i has)),
      sat _ g r (HasGate-with_gate-new c g r aligned),
    )

    -- A property of gates with their wires holds of all where it holds of the old ones and the new.
    pub every-with_gate :
        (P : BoxedGate F → Row → Type 0)
        → Aligned c
        → ((i : ℕ) (g' : BoxedGate F) (r' : Row) → HasGate c i g' r' → P g' r')
        → P g r
        → (i : ℕ) (g' : BoxedGate F) (r' : Row) → HasGate (with_gate g r c) i g' r'
        → P g' r'
    every-with_gate P aligned old new i g' r' has =
        elim (HasGate-with_gate-cases c g r aligned i has) [
          | inl there ↦ old i g' r' there
          | inr (p, q) ↦ subst₂ P (sym p) (sym q) new
        ]

    pub with_gate-Satisfies :
        (w : ℕ → F) → Aligned c → Satisfies w c → Meets w g r → Satisfies w (with_gate g r c)
    with_gate-Satisfies w aligned sat meets = every-with_gate (Meets w) aligned sat meets

    pub with_gate-IsOpen : RowBelow c.num_vars r → IsOpen c → IsOpen (with_gate g r c)
    with_gate-IsOpen below o = record {
      open_domain = o.open_domain;
      witness_length = o.witness_length;
      aligned = Aligned-with_gate c g r o.aligned;
      bounded = every-with_gate (λ g' r'. RowBelow c.num_vars r') o.aligned o.bounded below;
      inputs = λ k id at.
          let (r', has) = o.inputs k id at in (r', HasGate-with_gate-old c g r o.aligned id has);
      constants = o.constants;
      zero_value = o.zero_value;
      one_value = o.one_value;
      pinned = λ w sat. o.pinned w (Satisfies-with_gate w o.aligned sat).0;
    }

  pub assigned-with_variable-old :
      (c : PlonkCircuit F) (v : F) (i : ℕ)
      → IsOpen c
      → i < c.num_vars
      → assigned (with_variable v c) i ≡ assigned c i
  assigned-with_variable-old c v i o below =
      get_or-append c.witness (v ∷ []) i f.zero (omega (arith, o.witness_length))

  pub with_variable-IsOpen : (c : PlonkCircuit F) (v : F) → IsOpen c → IsOpen (with_variable v c)
  with_variable-IsOpen c v o = record {
    open_domain = o.open_domain;
    witness_length = omega (arith, length-append c.witness (v ∷ []), o.witness_length);
    aligned = o.aligned;
    bounded = λ i g r has. RowBelow-suc _ r (o.bounded i g r has);
    inputs = o.inputs;
    constants = omega (arith, o.constants);
    zero_value = assigned-with_variable-old c v 0 o (omega (arith, o.constants)) ∙ o.zero_value;
    one_value = assigned-with_variable-old c v 1 o o.constants ∙ o.one_value;
    pinned = o.pinned;
  }

  pub with_input-IsOpen :
      (c : PlonkCircuit F) (v : ℕ) → v < c.num_vars → IsOpen c → IsOpen (with_input v c)
  with_input-IsOpen c v v_in o =
      let zero_in : 0 < c.num_vars = omega (arith, o.constants) in
      let gated =
        with_gate-IsOpen c boxed_io (row 0 0 0 0 v) (zero_in, zero_in, zero_in, zero_in, v_in) o in
      record {
        open_domain = gated.open_domain;
        witness_length = gated.witness_length;
        aligned = gated.aligned;
        bounded = gated.bounded;
        inputs = λ k id at. elim (get_elem?-append-cases c.pub_input_gate_ids k at) [
          | inl (below, found) ↦ gated.inputs k id found
          | inr (last, same) ↦ (
            row 0 0 0 0 v,
            subst (λ i. HasGate (with_input v c) i boxed_io (row 0 0 0 0 v)) (sym same)
                (HasGate-with_gate-new c boxed_io (row 0 0 0 0 v) o.aligned),
          )
        ];
        constants = gated.constants;
        zero_value = gated.zero_value;
        one_value = gated.one_value;
        pinned = gated.pinned;
      }
