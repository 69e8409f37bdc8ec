-- ===== src/Relation/Circuit/Grows.antt =====
-- The circuits that a circuit grows into as operations add variables and gates to it.
use jellyfish.Prelude.{ℕ, ◌<◌, ◌≤◌, ◌≡◌, refl, ◌∙◌, get_or-append_last, arith}
use jellyfish.Relation.Gates.{Field}
use jellyfish.Relation.Circuit.State.{
  BoxedGate, Row, PlonkCircuit, assigned, with_gate, with_variable,
}
use jellyfish.Relation.Circuit.Model.{
  RowBelow, Satisfies, Satisfies-with_gate, IsOpen, with_gate-IsOpen, with_variable-IsOpen,
  assigned-with_variable-old,
}

module _ {F : Type 0} where
  -- What the operations do to an open circuit: add variables, and gates on variables it has.
  pub data Grows (c : PlonkCircuit F) : PlonkCircuit F → Type 0 where
    stays : Grows c c
    gains_variable : {d : PlonkCircuit F} → Grows c d → (v : F) → Grows c (with_variable v d)
    gains_gate :
        {d : PlonkCircuit F}
        → Grows c d
        → (g : BoxedGate F) (r : Row) → RowBelow d.num_vars r
        → Grows c (with_gate g r d)

  pub Grows-then : {c d e : PlonkCircuit F} → Grows c d → Grows d e → Grows c e
  Grows-then first stays = first
  Grows-then first (gains_variable rest v) = gains_variable (Grows-then first rest) v
  Grows-then first (gains_gate rest g r below) = gains_gate (Grows-then first rest) g r below

  pub Grows-num_vars : {c d : PlonkCircuit F} → Grows c d → c.num_vars ≤ d.num_vars
  Grows-num_vars stays = omega arith
  Grows-num_vars (gains_variable rest v) = omega (arith, Grows-num_vars rest)
  Grows-num_vars (gains_gate rest g r below) = Grows-num_vars rest

module _ {F : Type 0} ⦃f : Field F⦄ where
  pub Grows-IsOpen : {c d : PlonkCircuit F} → Grows c d → IsOpen c → IsOpen d
  Grows-IsOpen stays o = o
  Grows-IsOpen (gains_variable rest v) o = with_variable-IsOpen _ v (Grows-IsOpen rest o)
  Grows-IsOpen (gains_gate rest g r below) o = with_gate-IsOpen _ g r below (Grows-IsOpen rest o)

  pub assigned-with_variable-new :
      (c : PlonkCircuit F) (v : F) → IsOpen c → assigned (with_variable v c) c.num_vars ≡ v
  assigned-with_variable-new c v o =
      get_or-append_last c.witness v f.zero c.num_vars o.witness_length

  pub Grows-assigned :
      {c d : PlonkCircuit F}
      → Grows c d
      → IsOpen c
      → (i : ℕ) → i < c.num_vars
      → assigned d i ≡ assigned c i
  Grows-assigned stays o i below = refl
  Grows-assigned (gains_variable rest v) o i below =
      assigned-with_variable-old _ v i (Grows-IsOpen rest o) (omega (arith, Grows-num_vars rest))
      ∙ Grows-assigned rest o i below
  Grows-assigned (gains_gate rest g r b) o i below = Grows-assigned rest o i below

  -- Nothing is taken back: what satisfies the larger circuit satisfies the smaller.
  pub Grows-Satisfies :
      {c d : PlonkCircuit F} → Grows c d → IsOpen c → (w : ℕ → F) → Satisfies w d → Satisfies w c
  Grows-Satisfies stays o w sat = sat
  Grows-Satisfies (gains_variable rest v) o w sat = Grows-Satisfies rest o w sat
  Grows-Satisfies (gains_gate {d = d} rest g r b) o w sat =
      Grows-Satisfies rest o w (Satisfies-with_gate d g r w (Grows-IsOpen rest o).aligned sat).0
