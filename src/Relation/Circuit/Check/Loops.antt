-- ===== src/Relation/Circuit/Check/Loops.antt =====
-- The check of one gate, and the loop over the gates, of `check_circuit_satisfiability` of
-- relation/src/constraint_system.rs.
use mathlib.Core.Bool.{true≢false}
use mathlib.Core.Path.{subst₂}
use jellyfish.Prelude.{
  ℕ, zero, suc, ◌<◌, ◌≡◌, ◌≤◌, ◌∙◌, ◌↔◌, ◌⊎◌, inl, inr, refl, sym, ap, not, Bool-cases,
  if◌then◌else◌, some, List, [], ◌∷◌, length, get_elem?, get_elem?-get_or, get_elem?-lt, drop,
  arith,
}
use jellyfish.Relation.Gates.{Field, four, gate_sides}
use jellyfish.Relation.Inverses.{Inverses, IsInverses}
use jellyfish.Relation.Circuit.Outcome.{
  Outcome, returned, failed, panicked, from_option, bind_outcome, gate_check_failure, CircuitError,
}
use jellyfish.Relation.Circuit.State.{
  BoxedGate, boxed, boxed_io, selectors, is_io, Row, PlonkCircuit, row?, assigned,
}
use jellyfish.Relation.Circuit.Rows.{HasGate, row?-lt, some-injective}
use jellyfish.Relation.Circuit.Model.{Meets, IsOpen}
use jellyfish.Relation.Circuit.Check.{then_outcome, compared, check_gate, check_rest}

module _ {F : Type 0} ⦃f : Field F⦄ where
  -- The gate's equation under the circuit's witness, for a public input.
  abbrev pub Balances : PlonkCircuit F → BoxedGate F → Row → F → Type 0
  Balances c g r pub_input = (sides g r).0 ≡ (sides g r).1
    where
      sides : BoxedGate F → Row → F × F
      sides g r =
          gate_sides (selectors g) pub_input
            (four (assigned c r.wire0) (assigned c r.wire1) (assigned c r.wire2)
              (assigned c r.wire3))
            (assigned c r.wire4)

module _ {A B : Type 0} where
  goes-on :
      {m : Outcome A} {a : A} (k : A → Outcome B) {r : Outcome B}
      → m ≡ returned a
      → k a ≡ r
      → bind_outcome m k ≡ r
  goes-on k first rest = ap (λ m. bind_outcome m k) first ∙ rest

-- Both checks pass where the two in a row do.
pub then_outcome_iff :
    (m n : Outcome (Unit {0}))
    → (then_outcome m n ≡ returned tt) ↔ ((m ≡ returned tt) × (n ≡ returned tt))
then_outcome_iff (returned x) n = ((λ h. (refl, h)), (λ h. h.1))
then_outcome_iff (failed e) n = ((λ h. cc), (λ h. h.0))
then_outcome_iff panicked n = ((λ h. cc), (λ h. h.0))

pub failed≢returned : (e : CircuitError) → ¬ (failed e ≡ returned tt)
failed≢returned e h = cc

le_cases : (i j : ℕ) → i ≤ j → (i ≡ j) ⊎ (suc i ≤ j)
le_cases i j h = ground arith

-- The head of what is left of a list is the element at the index.
drop-head :
    {A : Type 0} (i : ℕ) (xs : List A) {x : A} {ys : List A}
    → drop i xs ≡ x ∷ ys
    → (get_elem? xs i ≡ some x) × (drop (suc i) xs ≡ ys)
drop-head zero xs e = (ap (λ l. get_elem? l 0) e, ap (λ l. drop 1 l) e)
drop-head (suc i) [] e = cc
drop-head (suc i) (x ∷ xs) e = drop-head i xs e

drop-none : {A : Type 0} (i : ℕ) (xs : List A) → drop i xs ≡ [] → length xs ≤ i
drop-none zero [] e = omega arith
drop-none zero (x ∷ xs) e = cc
drop-none (suc i) [] e = omega arith
drop-none (suc i) (x ∷ xs) e = omega (arith, drop-none i xs e)

module _ {F : Type 0} ⦃f : Field F⦄ ⦃inv : Inverses F⦄ ⦃inverse : IsInverses f inv⦄ where
  compared_iff : (i : ℕ) (x y : F) → (compared i (x, y) ≡ returned tt) ↔ (x ≡ y)
  compared_iff i x y = elim (Bool-cases (inv.beq x y)) [
    | inl same ↦ (
      (λ h. (inverse.beq_iff x y).0 same),
      (λ e. ap (λ b. if b then returned tt else failed (gate_check_failure i)) same),
    )
    | inr differ ↦ (
      (λ h. absurd (
          failed≢returned (gate_check_failure i)
            (sym (ap (λ b. if b then returned tt else failed (gate_check_failure i)) differ) ∙ h))),
      (λ e. absurd (true≢false (sym ((inverse.beq_iff x y).1 e) ∙ differ))),
    )
  ]

  module _ (c : PlonkCircuit F) (o : IsOpen c) where
    assigned-at :
        (i : ℕ) → i < c.num_vars → from_option (get_elem? c.witness i) ≡ returned (assigned c i)
    assigned-at i i_in =
        ap from_option (get_elem?-get_or c.witness i f.zero (omega (arith, o.witness_length)))

    -- The check of a gate passes where its equation holds.
    pub check_gate_iff :
        (i : ℕ) (p : F) (g : BoxedGate F) (r : Row)
        → HasGate c i g r
        → (check_gate i p c ≡ returned tt) ↔ Balances c g r p
    unfolding check_gate
    check_gate_iff i p g r (gate_at, wires_at) =
        let (p0, p1, p2, p3, p4) = o.bounded i g r (gate_at, wires_at) in
        let found = goes-on _ (ap from_option wires_at) (
          goes-on _ (assigned-at r.wire0 p0) (
            goes-on _ (assigned-at r.wire1 p1) (
              goes-on _ (assigned-at r.wire2 p2) (
                goes-on _ (assigned-at r.wire3 p3) (
                  goes-on _ (assigned-at r.wire4 p4)
                    (goes-on _ (ap from_option gate_at) refl)))))) in
        let (to, back) = compared_iff i _ _ in ((λ h. to (sym found ∙ h)), (λ e. found ∙ back e))

    abbrev checked_gate : BoxedGate F → ℕ → Outcome (Unit {0})
    checked_gate g i = if not (is_io g) then check_gate i f.zero c else returned tt

    checked_gate_iff :
        (i : ℕ) (g : BoxedGate F) (r : Row)
        → HasGate c i g r
        → (checked_gate g i ≡ returned tt) ↔ Meets (assigned c) g r
    checked_gate_iff i boxed_io r has = ((λ h. tt), (λ h. refl))
    checked_gate_iff i (boxed g) r has = check_gate_iff i f.zero (boxed g) r has

    -- The loop over the gates from an index on.
    pub check_rest_iff :
        (gates : List (BoxedGate F)) (i : ℕ)
        → drop i c.gates ≡ gates
        → (check_rest gates i c ≡ returned tt)
          ↔ ((j : ℕ) (g : BoxedGate F) (r : Row) → i ≤ j → HasGate c j g r → Meets (assigned c) g r)
    unfolding check_rest
    check_rest_iff [] i rest = (
      (λ h j g r from has.
          absurd (omega (arith, get_elem?-lt c.gates j has.0, drop-none i c.gates rest))),
      (λ all. refl),
    )
    check_rest_iff (g ∷ gates) i rest =
        let (at, tail) = drop-head i c.gates rest in
        let (r, wires) = row?-lt i o.aligned (get_elem?-lt c.gates i at) in
        let (both_to, both_back) =
          then_outcome_iff (checked_gate g i) (check_rest gates (suc i) c) in
        let (head_to, head_back) = checked_gate_iff i g r (at, wires) in
        let (tail_to, tail_back) = check_rest_iff gates (suc i) tail in
        (
          (λ h j g' r' from has. elim (le_cases i j from) [
            | inl here ↦
                subst₂ (Meets (assigned c))
                  (some-injective (sym at ∙ ap (get_elem? c.gates) here ∙ has.0))
                  (some-injective (sym wires ∙ ap (row? c.wire_variables) here ∙ has.1))
                  (head_to (both_to h).0)
            | inr later ↦ tail_to (both_to h).1 j g' r' later has
          ]),
          (λ all. both_back (
            head_back (all i g r (omega arith) (at, wires)),
            tail_back (λ j g' r' later has. all j g' r' (omega arith) has),
          )),
        )
