-- ===== src/Relation/Circuit/Agreement.antt =====
-- Assignments that agree on a circuit's variables, and the assignment of a circuit's own witness.
use mathlib.Core.Path.{subst₂}
use jellyfish.Prelude.{ℕ, ◌<◌, ◌≡◌, sym}
use jellyfish.Relation.Gates.{Field, four}
use jellyfish.Relation.Gates.Meaning.{Holds}
use jellyfish.Relation.Circuit.State.{
  BoxedGate, boxed_io, boxed, Row, PlonkCircuit, assigned, with_gate, with_variable,
}
use jellyfish.Relation.Circuit.Model.{
  RowBelow, Meets, Satisfies, with_gate-Satisfies, IsOpen, assigned-with_variable-old,
}

module _ {F : Type 0} ⦃f : Field F⦄ where
  pub Meets-agree :
      (n : ℕ) (w w' : ℕ → F) (g : BoxedGate F) (r : Row)
      → ((i : ℕ) → i < n → w i ≡ w' i)
      → RowBelow n r
      → Meets w g r
      → Meets w' g r
  Meets-agree n w w' boxed_io r agree below m = tt
  Meets-agree n w w' (boxed g) r agree (p0, p1, p2, p3, p4) m =
      subst₂ (Holds g) inputs (agree _ p4) m
    where
      inputs :
          four (w r.wire0) (w r.wire1) (w r.wire2) (w r.wire3)
          ≡ four (w' r.wire0) (w' r.wire1) (w' r.wire2) (w' r.wire3)
      inputs = rw (agree _ p0, agree _ p1, agree _ p2, agree _ p3)

  -- The circuit's own witness satisfies it.
  abbrev pub IsSatisfied : PlonkCircuit F → Type 0
  IsSatisfied c = Satisfies (assigned c) c

  pub with_variable-IsSatisfied :
      (c : PlonkCircuit F) (v : F) → IsOpen c → IsSatisfied c → IsSatisfied (with_variable v c)
  with_variable-IsSatisfied c v o sat i g r has =
      Meets-agree c.num_vars (assigned c) (assigned (with_variable v c)) g r
        (λ j below. sym (assigned-with_variable-old c v j o below)) (o.bounded i g r has)
        (sat i g r has)

  pub with_gate-IsSatisfied :
      (c : PlonkCircuit F) (g : BoxedGate F) (r : Row)
      → IsOpen c
      → Meets (assigned c) g r
      → IsSatisfied c
      → IsSatisfied (with_gate g r c)
  with_gate-IsSatisfied c g r o meets sat =
      with_gate-Satisfies c g r (assigned c) o.aligned sat meets
