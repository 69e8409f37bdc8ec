-- ===== src/Relation/Circuit/Realises.antt =====
-- What an operation promises of the circuit it leaves: it computes a function of the assignment into
-- a variable, or asks for a relation.
use jellyfish.Prelude.{ℕ, suc, ◌<◌, ◌≡◌, refl, sym, ◌∙◌, arith}
use jellyfish.Relation.Gates.{Field}
use jellyfish.Relation.Circuit.Outcome.{returned, pure}
use jellyfish.Relation.Circuit.State.{
  BoxedGate, Row, PlonkCircuit, assigned, with_gate, with_variable,
}
use jellyfish.Relation.Circuit.Operations.{Op}
use jellyfish.Relation.Circuit.Model.{
  RowBelow, Meets, Satisfies, Satisfies-with_gate, IsOpen, with_variable-IsOpen,
  assigned-with_variable-old,
}
use jellyfish.Relation.Circuit.Grows.{
  Grows, stays, gains_variable, gains_gate, assigned-with_variable-new,
}
use jellyfish.Relation.Circuit.Agreement.{
  IsSatisfied, with_variable-IsSatisfied, with_gate-IsSatisfied,
}

module _ {F : Type 0} ⦃f : Field F⦄ where
  -- The function looks at the first `n` variables only.
  abbrev pub IsLocal : ℕ → ((ℕ → F) → F) → Type 0
  IsLocal n out = (w w' : ℕ → F) → ((i : ℕ) → i < n → w i ≡ w' i) → out w ≡ out w'

  abbrev pub IsLocalRelation : ℕ → ((ℕ → F) → Type 0) → Type 0
  IsLocalRelation n R = (w w' : ℕ → F) → ((i : ℕ) → i < n → w i ≡ w' i) → R w → R w'

  -- The operation returns a variable whose value is `out` of the values there were; the circuit
  -- stays satisfied, and whatever satisfies it gives the variable the value `out`.
  pub record Realises (m : Op F ℕ) (out : (ℕ → F) → F) (c : PlonkCircuit F) : Type 0 where
    pub result : ℕ
    pub after : PlonkCircuit F
    pub runs : m c ≡ (returned result, after)
    pub grows : Grows c after
    pub below : result < after.num_vars
    pub computes : assigned after result ≡ out (assigned c)
    pub complete : IsSatisfied c → IsSatisfied after
    pub sound : (w : ℕ → F) → Satisfies w after → w result ≡ out w

  -- The operation returns, the circuit stays satisfied where its values are so related, and whatever
  -- satisfies it is.
  pub record Asserts (m : Op F (Unit {0})) (R : (ℕ → F) → Type 0) (c : PlonkCircuit F)
      : Type 0 where
    pub after : PlonkCircuit F
    pub runs : m c ≡ (returned tt, after)
    pub grows : Grows c after
    pub complete : R (assigned c) → IsSatisfied c → IsSatisfied after
    pub sound : (w : ℕ → F) → Satisfies w after → R w

  pub Realises-pure : (c : PlonkCircuit F) (x : ℕ) → x < c.num_vars → Realises (pure x) (λ w. w x) c
  Realises-pure c x x_in = record {
    result = x;
    after = c;
    runs = refl;
    grows = stays;
    below = x_in;
    computes = refl;
    complete = λ sat. sat;
    sound = λ w sat. refl;
  }

  -- A new variable, with a gate whose output wire it is.
  pub Realises-variable-gate :
      (m : Op F ℕ) (out : (ℕ → F) → F) (c : PlonkCircuit F) (g : BoxedGate F) (r : Row) (v : F)
      → IsOpen c
      → RowBelow (suc c.num_vars) r
      → ((w : ℕ → F) → Meets w g r → w c.num_vars ≡ out w)
      → ((w : ℕ → F) → w c.num_vars ≡ out w → Meets w g r)
      → v ≡ out (assigned c)
      → IsLocal c.num_vars out
      → m c ≡ (returned c.num_vars, with_gate g r (with_variable v c))
      → Realises m out c
  Realises-variable-gate m out c g r v o below to from v_is local runs =
      let d = with_variable v c in
      let o' = with_variable-IsOpen c v o in
      let new = assigned-with_variable-new c v o ∙ v_is in
      record {
        result = c.num_vars;
        after = with_gate g r d;
        runs = runs;
        grows = gains_gate (gains_variable stays v) g r below;
        below = omega arith;
        computes = new;
        complete = λ sat.
            with_gate-IsSatisfied d g r o'
              (from (assigned d) (
                new
                ∙ local (assigned c) (assigned d)
                    (λ i i_in. sym (assigned-with_variable-old c v i o i_in))))
              (with_variable-IsSatisfied c v o sat);
        sound = λ w sat. to w (Satisfies-with_gate d g r w o'.aligned sat).1;
      }

  pub Asserts-gate :
      (m : Op F (Unit {0})) (R : (ℕ → F) → Type 0) (c : PlonkCircuit F) (g : BoxedGate F) (r : Row)
      → IsOpen c
      → RowBelow c.num_vars r
      → ((w : ℕ → F) → Meets w g r → R w)
      → ((w : ℕ → F) → R w → Meets w g r)
      → m c ≡ (returned tt, with_gate g r c)
      → Asserts m R c
  Asserts-gate m R c g r o below to from runs = record {
    after = with_gate g r c;
    runs = runs;
    grows = gains_gate stays g r below;
    complete = λ holds sat. with_gate-IsSatisfied c g r o (from (assigned c) holds) sat;
    sound = λ w sat. to w (Satisfies-with_gate c g r w o.aligned sat).1;
  }
