-- ===== src/Relation/Gadgets/Logic/Zero.antt =====
-- What the tests of relation/src/gadgets/logic.rs for zero and equality compute.
use mathlib.Core.Bool.{true≢false}
use jellyfish.Prelude.{ℕ, suc, ◌<◌, ◌≡◌, ◌∙◌, refl, sym, ap, Bool-cases, inl, inr, arith}
use jellyfish.Relation.Gates.{Field, two, ◌⊕◌, ◌⊗◌, ◌⊖◌}
use jellyfish.Relation.Gates.Meaning.{IsField, IsCommutative}
use jellyfish.Relation.Inverses.{Inverses, IsInverses}
use jellyfish.Relation.Circuit.Outcome.{returned, returned-then, ◌>>◌, >>=_assoc}
use jellyfish.Relation.Circuit.State.{row, PlonkCircuit, assigned, with_variable}
use jellyfish.Relation.Circuit.Operations.{sub, mul_gate}
use jellyfish.Relation.Circuit.Model.{IsOpen, with_variable-IsOpen, assigned-with_variable-old}
use jellyfish.Relation.Circuit.Grows.{
  stays, gains_variable, Grows-IsOpen, Grows-num_vars, assigned-with_variable-new,
}
use jellyfish.Relation.Circuit.Agreement.{with_variable-IsSatisfied}
use jellyfish.Relation.Circuit.Effects.{create_variable-open, witness-open}
use jellyfish.Relation.Circuit.Arithmetic.{checked-then}
use jellyfish.Relation.Circuit.Realises.{Realises, Asserts}
use jellyfish.Relation.Circuit.Computes.{sub-Realises, mul_gate-Asserts, zero_in}
use jellyfish.Relation.Circuit.Compose.{
  Realises-then, Realises-checked, Asserts-both, Realises-chosen,
}
use jellyfish.Relation.Gadgets.Arithmetic.{mul_add_wires}
use jellyfish.Relation.Gadgets.Computes.{mul_add_wires-Asserts}
use jellyfish.Relation.Gadgets.Logic.{
  indicator, inverse_or_zero, or_algebra_error, is_zero, is_equal, logic_neg,
}
use jellyfish.Relation.Gadgets.Logic.Computes.{create_boolean_variable_unchecked-open}

module _ {F : Type 0} ⦃f : Field F⦄ ⦃inv : Inverses F⦄ ⦃law : IsField f⦄ ⦃comm : IsCommutative f⦄
    ⦃inverse : IsInverses f inv⦄ where
  -- The bit for zero and the chosen inverse meet the two constraints.
  chosen_inverse :
      (x : F)
      → (i : F) × (inverse_or_zero x (inv.is_zero_value x) ≡ returned i)
        × (x ⊗ i ⊕ indicator (inv.is_zero_value x) ≡ f.one)
        × (indicator (inv.is_zero_value x) ⊗ x ≡ f.zero)
  chosen_inverse x = elim (Bool-cases (inv.is_zero_value x)) [
    | inl is_true ↦
        let vanishes = (inverse.is_zero_iff x).0 is_true in
        (
          f.zero,
          ap (inverse_or_zero x) is_true,
          rw (is_true, vanishes, law.zero_mul f.zero, law.zero_add f.one),
          rw (is_true, law.one_mul x, vanishes),
        )
    | inr is_false ↦
        let (y, found, is_one) =
          inverse.inverse_of x (λ e. true≢false (sym ((inverse.is_zero_iff x).1 e) ∙ is_false)) in
        (
          y,
          ap (inverse_or_zero x) is_false ∙ ap or_algebra_error found,
          ap (λ b. x ⊗ y ⊕ indicator b) is_false ∙ law.add_zero (x ⊗ y) ∙ is_one,
          rw (is_false, law.zero_mul x),
        )
  ]

  -- The two constraints leave the bit no choice.
  determined_bit :
      (x i y : F) → x ⊗ i ⊕ y ≡ f.one → y ⊗ x ≡ f.zero → y ≡ indicator (inv.is_zero_value x)
  determined_bit x i y sum_one no_product = elim (Bool-cases (inv.is_zero_value x)) [
    | inl is_true ↦
        let vanishes = (inverse.is_zero_iff x).0 is_true in
        sym (law.zero_add y)
        ∙ ap (λ z. z ⊕ y) (sym (ap (λ z. z ⊗ i) vanishes ∙ law.zero_mul i))
        ∙ sum_one
        ∙ ap indicator (sym is_true)
    | inr is_false ↦
        let (j, found, is_one) =
          inverse.inverse_of x (λ e. true≢false (sym ((inverse.is_zero_iff x).1 e) ∙ is_false)) in
        sym (comm.mul_comm y f.one ∙ law.one_mul y)
        ∙ ap (λ z. y ⊗ z) (sym is_one)
        ∙ sym (comm.mul_assoc y x j)
        ∙ ap (λ z. z ⊗ j) no_product
        ∙ law.zero_mul j
        ∙ ap indicator (sym is_false)
  ]

  -- What the two gates ask for, and that it is what the constraints say.
  abbrev IsTested : ℕ → ℕ → ℕ → (ℕ → F) → Type 0
  IsTested a i y w = (f.one ⊗ w a ⊗ w i ⊕ f.one ⊗ w 1 ⊗ w y ≡ w 1) × (w y ⊗ w a ≡ w 0)

  IsTested-bit :
      (a i y : ℕ) (w : ℕ → F)
      → (w 0 ≡ f.zero) × (w 1 ≡ f.one)
      → IsTested a i y w
      → w y ≡ indicator (inv.is_zero_value (w a))
  IsTested-bit a i y w (zero_is, one_is) (sum_is, product_is) =
      determined_bit (w a) (w i) (w y)
        (rw (law.one_mul (w a), law.one_mul (w 1), one_is, law.one_mul (w y)) at sum_is)
        (product_is ∙ zero_is)

  IsTested-chosen :
      (a i y : ℕ) (w : ℕ → F)
      → (w 0 ≡ f.zero) × (w 1 ≡ f.one)
      → w a ⊗ w i ⊕ w y ≡ f.one
      → w y ⊗ w a ≡ f.zero
      → IsTested a i y w
  IsTested-chosen a i y w (zero_is, one_is) sum_one no_product = (
    rw (law.one_mul (w a), law.one_mul (w 1), one_is, law.one_mul (w y)) sum_one,
    no_product ∙ sym zero_is,
  )

  IsTested-Asserts :
      (c : PlonkCircuit F) (o : IsOpen c) (a i y : ℕ)
      → a < c.num_vars
      → i < c.num_vars
      → y < c.num_vars
      → Asserts
          (mul_add_wires (row a i 1 y 1) (two f.one f.one) >> mul_gate y a 0)
          (IsTested a i y)
          c
  IsTested-Asserts c o a i y a_in i_in y_in =
      let p =
        mul_add_wires-Asserts c o (row a i 1 y 1) (a_in, i_in, o.constants, y_in, o.constants) f.one
          f.one in
      let o' = Grows-IsOpen p.grows o in
      let more = Grows-num_vars p.grows in
      Asserts-both _ _ _ (λ w. w y ⊗ w a ≡ w 0) c o
        (λ w w' agree e. rw (← agree y y_in, ← agree a a_in, ← agree 0 (zero_in c o)) e) p
        (mul_gate-Asserts p.after o' y a (omega arith) (omega arith) 0 (zero_in p.after o'))

  module _ (c : PlonkCircuit F) (o : IsOpen c) (a : ℕ) (a_in : a < c.num_vars) where
    -- The circuit with the bit and the inverse.
    with_two : F → F → PlonkCircuit F
    with_two y i = with_variable i (with_variable y c)

    pub is_zero-Realises : Realises (is_zero a) (λ w. indicator (inv.is_zero_value (w a))) c
    unfolding is_zero with_two
    is_zero-Realises =
        let (i, found, sum_one, no_product) = chosen_inverse (assigned c a) in
        let y = indicator (inv.is_zero_value (assigned c a)) in
        let c1 = with_variable y c in
        let o1 = with_variable-IsOpen c y o in
        let o2 = with_variable-IsOpen c1 i o1 in
        let old =
          assigned-with_variable-old c1 i a o1 (omega arith)
          ∙ assigned-with_variable-old c y a o a_in in
        let new_y =
          assigned-with_variable-old c1 i c.num_vars o1 (omega arith)
          ∙ assigned-with_variable-new c y o in
        let new_i = assigned-with_variable-new c1 i o1 in
        let q =
          IsTested-Asserts (with_two y i) o2 a (suc c.num_vars) c.num_vars (omega arith)
            (omega arith) (omega arith) in
        Realises-chosen (is_zero a)
          (mul_add_wires (row a (suc c.num_vars) 1 c.num_vars 1) (two f.one f.one)
            >> mul_gate c.num_vars a 0)
          (λ w. indicator (inv.is_zero_value (w a))) (IsTested a (suc c.num_vars) c.num_vars) c
          (with_two y i) c.num_vars o (gains_variable (gains_variable stays y) i)
          (λ sat. with_variable-IsSatisfied c1 i o1 (with_variable-IsSatisfied c y o sat)) q
          (IsTested-chosen a _ _ (assigned (with_two y i)) (o2.zero_value, o2.one_value)
            (rw (old, new_y, new_i) sum_one) (rw (old, new_y) no_product))
          (omega arith) new_y (λ w pinned tested. IsTested-bit a _ _ w pinned tested)
          (checked-then c a _ a_in (
            returned-then _ _ (witness-open c a o a_in) (
              returned-then _ _ (ap (λ r. (r, c)) found) (
                returned-then _ _ (create_boolean_variable_unchecked-open c y o.open_domain) (
                  returned-then _ _ (create_variable-open c1 i o.open_domain)
                    (sym (>>=_assoc _ _ _ _) ∙ returned-then _ _ q.runs refl))))))

    pub logic_neg-Realises : Realises (logic_neg a) (λ w. indicator (inv.is_zero_value (w a))) c
    unfolding logic_neg
    logic_neg-Realises = is_zero-Realises

  equal_of_difference : (x y : F) → x ⊖ y ≡ f.zero → x ≡ y
  equal_of_difference x y e =
      sym (law.add_zero x)
      ∙ ap (λ z. x ⊕ z) (sym (comm.add_comm (f.neg y) y ∙ law.add_neg y))
      ∙ sym (comm.add_assoc x (f.neg y) y)
      ∙ ap (λ z. z ⊕ y) e
      ∙ law.zero_add y

  -- The difference is zero just where the values are equal.
  is_zero-difference : (x y : F) → inv.is_zero_value (x ⊖ y) ≡ inv.beq x y
  is_zero-difference x y = elim (Bool-cases (inv.is_zero_value (x ⊖ y))) [
    | inl is_true ↦
        is_true
        ∙ sym (
            (inverse.beq_iff x y).1
              (equal_of_difference x y ((inverse.is_zero_iff (x ⊖ y)).0 is_true)))
    | inr is_false ↦ elim (Bool-cases (inv.beq x y)) [
      | inl same ↦ absurd (
          true≢false (
            sym (
              (inverse.is_zero_iff (x ⊖ y)).1
                (ap (λ z. z ⊖ y) ((inverse.beq_iff x y).0 same) ∙ law.add_neg y))
            ∙ is_false))
      | inr differ ↦ is_false ∙ sym differ
    ]
  ]

  -- On an open circuit over a field with inverses and two of its variables, `is_equal` returns a
  -- variable that is 1 where their values are equal and 0 where they are not; a satisfied circuit stays
  -- satisfied, and whatever assignment satisfies the gates gives the variable that bit.
  pub is_equal-Realises :
      (c : PlonkCircuit F) (o : IsOpen c) (a b : ℕ)
      → a < c.num_vars
      → b < c.num_vars
      → Realises (is_equal a b) (λ w. indicator (inv.beq (w a) (w b))) c
  unfolding is_equal
  is_equal-Realises c o a b a_in b_in =
      let p = sub-Realises c o a b a_in b_in in
      Realises-checked c a _ _ a_in (
        Realises-checked c b _ _ b_in (
          Realises-then (sub a b) (λ w. w a ⊖ w b) c o p
            (λ w w' agree. rw (agree a a_in, agree b b_in)) is_zero
            (λ w. indicator (inv.is_zero_value (w p.result))) (λ w. indicator (inv.beq (w a) (w b)))
            (λ w w' agree. rw (agree a a_in, agree b b_in))
            (λ w pinned e. ap indicator (ap inv.is_zero_value e ∙ is_zero-difference (w a) (w b)))
            (is_zero-Realises p.after (Grows-IsOpen p.grows o) p.result p.below)))
