-- ===== src/Relation/Gadgets/Logic/Select.antt =====
-- What `conditional_select` and `non_zero_gate` of relation/src/gadgets/logic.rs compute and ask for.
use jellyfish.Prelude.{ℕ, ◌<◌, ◌≡◌, ◌∙◌, ◌⊎◌, inl, inr, refl, sym, ap, false, Bool-cases, arith}
use jellyfish.Relation.Gates.{Field, cond_select_gate, ◌⊕◌, ◌⊗◌, ◌⊖◌}
use jellyfish.Relation.Gates.Meaning.{
  IsField, IsCommutative, neg_zero, ring_laws, cond_select_gate-Computes,
}
use jellyfish.Relation.Inverses.{Inverses, IsInverses}
use jellyfish.Relation.Circuit.Outcome.{Outcome, returned, returned-then, ◌>>=◌}
use jellyfish.Relation.Circuit.State.{PlonkCircuit, boxed, row, assigned, with_variable, with_gate}
use jellyfish.Relation.Circuit.Operations.{witness, create_variable}
use jellyfish.Relation.Circuit.Model.{Satisfies, IsOpen}
use jellyfish.Relation.Circuit.Grows.{Grows, Grows-Satisfies}
use jellyfish.Relation.Circuit.Agreement.{IsSatisfied}
use jellyfish.Relation.Circuit.Effects.{create_variable-open, witness-open, insert_gate-open}
use jellyfish.Relation.Circuit.Arithmetic.{checked-then}
use jellyfish.Relation.Circuit.Realises.{Realises}
use jellyfish.Relation.Circuit.Computes.{Realises-output}
use jellyfish.Relation.Gadgets.Logic.{selected, conditional_select}

module _ {F : Type 0} ⦃f : Field F⦄ where
  -- The first value where the bit is 0, the second where it is 1.
  abbrev pub select_value : F → F → F → F
  select_value b x y = x ⊖ b ⊗ x ⊕ b ⊗ y

module _ {F : Type 0} ⦃f : Field F⦄ ⦃law : IsField f⦄ where
  select_value-zero : (b x y : F) → b ≡ f.zero → x ≡ select_value b x y
  select_value-zero b x y e = sym (
      ap (λ z. select_value z x y) e
      ∙ simp ring_laws (ap (λ z. x ⊕ z) (neg_zero ⦃f = f⦄) ∙ law.add_zero x))

  select_value-one : ⦃comm : IsCommutative f⦄ → (b x y : F) → b ≡ f.one → y ≡ select_value b x y
  select_value-one b x y e = sym (
      ap (λ z. select_value z x y) e
      ∙ rw (law.one_mul x, law.one_mul y, law.add_neg x) (law.zero_add y))

module _ {F : Type 0} ⦃f : Field F⦄ ⦃inv : Inverses F⦄ ⦃law : IsField f⦄ ⦃comm : IsCommutative f⦄
    ⦃inverse : IsInverses f inv⦄ (c : PlonkCircuit F) (o : IsOpen c) (b x_0 x_1 : ℕ)
    (b_in : b < c.num_vars) (x_0_in : x_0 < c.num_vars) (x_1_in : x_1 < c.num_vars) where
  -- A value read and put into a new variable.
  copied :
      (x : ℕ) (v : F)
      → x < c.num_vars
      → assigned c x ≡ v
      → (witness x >>= λ v'. create_variable v') c ≡ (returned c.num_vars, with_variable v c)
  copied x v x_in e =
      returned-then _ _ (witness-open c x o x_in) (create_variable-open c _ o.open_domain)
      ∙ ap (λ v'. (returned c.num_vars, with_variable v' c)) e

  selected-runs :
      (assigned c b ≡ f.zero) ⊎ (assigned c b ≡ f.one)
      → selected (assigned c b) x_0 x_1 c ≡ (
        returned c.num_vars,
        with_variable (select_value (assigned c b) (assigned c x_0) (assigned c x_1)) c,
      )
  selected-runs (inl is_zero) =
      rw ((inverse.beq_iff _ _).1 is_zero)
        (copied x_0 _ x_0_in (select_value-zero (assigned c b) _ (assigned c x_1) is_zero))
  selected-runs (inr is_one) =
      rw (not_zero, (inverse.beq_iff _ _).1 is_one)
        (copied x_1 _ x_1_in (select_value-one (assigned c b) (assigned c x_0) _ is_one))
    where
      not_zero : inv.beq (assigned c b) f.zero ≡ false
      not_zero = elim (Bool-cases (inv.beq (assigned c b) f.zero)) [
        | inl same ↦ absurd (inverse.one≢zero (sym is_one ∙ (inverse.beq_iff _ _).0 same))
        | inr differ ↦ differ
      ]

  run :
      (assigned c b ≡ f.zero) ⊎ (assigned c b ≡ f.one)
      → conditional_select b x_0 x_1 c ≡ (
        returned c.num_vars,
        with_gate
            (boxed cond_select_gate)
            (row b x_0 b x_1 c.num_vars)
            (with_variable (select_value (assigned c b) (assigned c x_0) (assigned c x_1)) c),
      )
  unfolding conditional_select
  run bit =
      let d = with_variable (select_value (assigned c b) (assigned c x_0) (assigned c x_1)) c in
      checked-then c b _ b_in (
        checked-then c x_0 _ x_0_in (
          checked-then c x_1 _ x_1_in (
            returned-then _ _ (witness-open c b o b_in) (
              returned-then _ _ (selected-runs bit)
                (returned-then _ _ (insert_gate-open d _ _ o.open_domain) refl)))))

  conditional_select-Realises :
      (assigned c b ≡ f.zero) ⊎ (assigned c b ≡ f.one)
      → Realises (conditional_select b x_0 x_1) (λ w. select_value (w b) (w x_0) (w x_1)) c
  conditional_select-Realises bit =
      Realises-output c o _ _ (λ p q r s. q ⊖ p ⊗ q ⊕ r ⊗ s) _ b x_0 b x_1
        (b_in, x_0_in, b_in, x_1_in) cond_select_gate-Computes refl (run bit)

module _ {F : Type 0} ⦃f : Field F⦄ where
  -- The bit is 0 and the result the first value, or it is 1 and the result the second.
  abbrev pub IsSelection : F → F → F → F → Type 0
  IsSelection b x y r = ((b ≡ f.zero) × (r ≡ x)) ⊎ ((b ≡ f.one) × (r ≡ y))

  -- The operation returns the next variable, whose value is a selection in the circuit's own
  -- assignment, if that satisfied the circuit still does so, and in each that satisfies the circuit
  -- that it leaves.
  pub record Selects ⦃inv : Inverses F⦄ (b x_0 x_1 : ℕ) (c : PlonkCircuit F) : Type 0 where
    pub after : PlonkCircuit F
    pub runs : conditional_select b x_0 x_1 c ≡ (returned c.num_vars, after)
    pub grows : Grows c after
    pub below : c.num_vars < after.num_vars
    pub computes :
        IsSelection (assigned c b) (assigned c x_0) (assigned c x_1) (assigned after c.num_vars)
    pub complete : IsSatisfied c → IsSatisfied after
    pub sound : (w : ℕ → F) → Satisfies w after → IsSelection (w b) (w x_0) (w x_1) (w c.num_vars)

module _ {F : Type 0} ⦃f : Field F⦄ ⦃law : IsField f⦄ ⦃comm : IsCommutative f⦄ where
  -- On a bit the polynomial of the gate selects.
  value-IsSelection :
      (b x y r : F) → (b ≡ f.zero) ⊎ (b ≡ f.one) → r ≡ select_value b x y → IsSelection b x y r
  value-IsSelection b x y r (inl low) e = inl (low, e ∙ sym (select_value-zero b x y low))
  value-IsSelection b x y r (inr high) e = inr (high, e ∙ sym (select_value-one b x y high))

same_result :
    {S : Type 0} {i j : ℕ} {s t : S}
    → ◌≡◌ {A = Outcome ℕ × S} (returned i, s) (returned j, t)
    → i ≡ j
same_result h = cc

module _ {F : Type 0} ⦃f : Field F⦄ ⦃inv : Inverses F⦄ ⦃law : IsField f⦄ ⦃comm : IsCommutative f⦄
    ⦃inverse : IsInverses f inv⦄ (c : PlonkCircuit F) (o : IsOpen c) (b x_0 x_1 : ℕ)
    (b_in : b < c.num_vars) (x_0_in : x_0 < c.num_vars) (x_1_in : x_1 < c.num_vars) where
  -- On an open circuit and three of its variables, the first with the value 0 or 1 and held to these
  -- by the circuit's gates, `conditional_select` returns a new variable whose value is the second's
  -- where the first is 0 and the third's where it is 1; a satisfied circuit stays satisfied, and in
  -- whatever assignment satisfies the gates the new variable is so selected.
  pub conditional_select-Selects :
      (assigned c b ≡ f.zero) ⊎ (assigned c b ≡ f.one)
      → ((w : ℕ → F) → Satisfies w c → (w b ≡ f.zero) ⊎ (w b ≡ f.one))
      → Selects b x_0 x_1 c
  conditional_select-Selects bit held =
      let p = conditional_select-Realises c o b x_0 x_1 b_in x_0_in x_1_in bit in
      let new = same_result (sym p.runs ∙ run c o b x_0 x_1 b_in x_0_in x_1_in bit) in
      record {
        after = p.after;
        runs = p.runs ∙ ap (λ i. (returned i, p.after)) new;
        grows = p.grows;
        below = omega (arith, p.below, new);
        computes = value-IsSelection _ _ _ _ bit (ap (assigned p.after) (sym new) ∙ p.computes);
        complete = p.complete;
        sound = λ w sat.
            value-IsSelection _ _ _ _ (held w (Grows-Satisfies p.grows o w sat))
              (ap w (sym new) ∙ p.sound w sat);
      }
