-- ===== src/Relation/Gates/Meaning.antt =====
-- What the gates of relation/src/gates compute from their input wires.
use jellyfish.Prelude.{ℕ, suc, ◌≡◌, sym, ◌∙◌, ◌↔◌}
use jellyfish.Relation.Gates.{
  Field, Four, four, two, Gate, ◌⊕◌, ◌⊗◌, ◌⊖◌, gate_sides, constant_gate, addition_gate,
  constant_addition_gate, subtraction_gate, multiplication_gate, constant_multiplication_gate,
  bool_gate, equality_gate, fifth_root_gate, lin_comb_gate, mul_add_gate, cond_select_gate,
  logic_or_gate, logic_or_output_gate, quad_poly_gate, io_gate,
}

-- The laws of a ring that the gates' equations need.
pub record IsField {F : Type 0} (f : Field F) : Type 0 where
  pub add_zero : (x : F) → f.add x f.zero ≡ x
  pub zero_add : (x : F) → f.add f.zero x ≡ x
  pub add_neg : (x : F) → f.add x (f.neg x) ≡ f.zero
  pub zero_mul : (x : F) → f.mul f.zero x ≡ f.zero
  pub mul_zero : (x : F) → f.mul x f.zero ≡ f.zero
  pub one_mul : (x : F) → f.mul f.one x ≡ x
  pub neg_mul : (x y : F) → f.mul (f.neg x) y ≡ f.neg (f.mul x y)

-- The further laws of a commutative ring that the circuits' own arithmetic needs.
pub record IsCommutative {F : Type 0} (f : Field F) : Type 0 where
  pub add_comm : (x y : F) → f.add x y ≡ f.add y x
  pub add_assoc : (x y z : F) → f.add (f.add x y) z ≡ f.add x (f.add y z)
  pub mul_comm : (x y : F) → f.mul x y ≡ f.mul y x
  pub mul_assoc : (x y z : F) → f.mul (f.mul x y) z ≡ f.mul x (f.mul y z)
  pub mul_add : (x y z : F) → f.mul x (f.add y z) ≡ f.add (f.mul x y) (f.mul x z)

-- What `ark_ff` documents of `pow`: repeated multiplication.
pub record IsPower {F : Type 0} (f : Field F) : Type 0 where
  pub pow_zero : (x : F) → f.pow x 0 ≡ f.one
  pub pow_suc : (x : F) (n : ℕ) → f.pow x (suc n) ≡ f.mul (f.pow x n) x

iff_of_sides : {F : Type 0} (x y u w : F) → x ≡ u → y ≡ w → (x ≡ y) ↔ (u ≡ w)
iff_of_sides x y u w p q = ((λ e. sym p ∙ e ∙ q), (λ e. p ∙ e ∙ sym q))

module _ {F : Type 0} ⦃f : Field F⦄ where
  -- The gate's equation, without public input, says that the output wire is `out` of the inputs.
  abbrev pub Computes : Gate F → (F → F → F → F → F) → Type 0
  Computes g out =
      (w0 w1 w2 w3 w4 : F)
      → ((gate_sides g f.zero (four w0 w1 w2 w3) w4).0
          ≡ (gate_sides g f.zero (four w0 w1 w2 w3) w4).1)
        ↔ (out w0 w1 w2 w3 ≡ w4)

  -- The gate's equation at the given wires, without public input.
  abbrev pub Holds : Gate F → Four F → F → Type 0
  Holds g inputs output =
      (gate_sides g f.zero inputs output).0 ≡ (gate_sides g f.zero inputs output).1

module _ {F : Type 0} ⦃f : Field F⦄ ⦃law : IsField f⦄ where
  pub add_zero : (x : F) → x ⊕ f.zero ≡ x
  add_zero x = law.add_zero x

  pub zero_add : (x : F) → f.zero ⊕ x ≡ x
  zero_add x = law.zero_add x

  pub add_neg : (x : F) → x ⊕ f.neg x ≡ f.zero
  add_neg x = law.add_neg x

  pub zero_mul : (x : F) → f.zero ⊗ x ≡ f.zero
  zero_mul x = law.zero_mul x

  pub mul_zero : (x : F) → x ⊗ f.zero ≡ f.zero
  mul_zero x = law.mul_zero x

  pub one_mul : (x : F) → f.one ⊗ x ≡ x
  one_mul x = law.one_mul x

  pub neg_mul : (x y : F) → f.neg x ⊗ y ≡ f.neg (x ⊗ y)
  neg_mul x y = law.neg_mul x y

  pub neg_zero : f.neg f.zero ≡ f.zero
  neg_zero = sym (zero_add (f.neg f.zero)) ∙ add_neg f.zero

pub ruleset ring_laws =
    (add_zero, zero_add, add_neg, zero_mul, mul_zero, one_mul, neg_mul, neg_zero)

module _ {F : Type 0} ⦃f : Field F⦄ ⦃law : IsField f⦄ where
  pub constant_gate-Computes : (k : F) → Computes {F = F} (constant_gate k) (λ a b c d. k)
  constant_gate-Computes k a b c d o = iff_of_sides _ _ _ _ (simp ring_laws) (law.one_mul o)

  pub addition_gate-Computes : Computes {F = F} addition_gate (λ a b c d. a ⊕ b)
  addition_gate-Computes a b c d o = iff_of_sides _ _ _ _ (simp ring_laws) (law.one_mul o)

  pub constant_addition_gate-Computes :
      (k : F) → Computes {F = F} (constant_addition_gate k) (λ a b c d. a ⊕ k)
  constant_addition_gate-Computes k a b c d o =
      iff_of_sides _ _ _ _ (simp ring_laws) (law.one_mul o)

  pub subtraction_gate-Computes : Computes {F = F} subtraction_gate (λ a b c d. a ⊖ b)
  subtraction_gate-Computes a b c d o = iff_of_sides _ _ _ _ (simp ring_laws) (law.one_mul o)

  pub multiplication_gate-Computes : Computes {F = F} multiplication_gate (λ a b c d. a ⊗ b)
  multiplication_gate-Computes a b c d o = iff_of_sides _ _ _ _ (simp ring_laws) (law.one_mul o)

  pub constant_multiplication_gate-Computes :
      (k : F) → Computes {F = F} (constant_multiplication_gate k) (λ a b c d. k ⊗ a)
  constant_multiplication_gate-Computes k a b c d o =
      iff_of_sides _ _ _ _ (simp ring_laws) (law.one_mul o)

  pub fifth_root_gate-Computes : Computes {F = F} fifth_root_gate (λ a b c d. f.pow a 5)
  fifth_root_gate-Computes a b c d o = iff_of_sides _ _ _ _ (simp ring_laws) (law.one_mul o)

  pub lin_comb_gate-Computes :
      (l0 l1 l2 l3 : F)
      → Computes {F = F}
          (lin_comb_gate (four l0 l1 l2 l3))
          (λ a b c d. l0 ⊗ a ⊕ l1 ⊗ b ⊕ l2 ⊗ c ⊕ l3 ⊗ d)
  lin_comb_gate-Computes l0 l1 l2 l3 a b c d o =
      iff_of_sides _ _ _ _ (simp ring_laws) (law.one_mul o)

  pub mul_add_gate-Computes :
      (m0 m1 : F) → Computes {F = F} (mul_add_gate (two m0 m1)) (λ a b c d. m0 ⊗ a ⊗ b ⊕ m1 ⊗ c ⊗ d)
  mul_add_gate-Computes m0 m1 a b c d o = iff_of_sides _ _ _ _ (simp ring_laws) (law.one_mul o)

  pub logic_or_output_gate-Computes :
      Computes {F = F} logic_or_output_gate (λ a b c d. a ⊕ b ⊖ a ⊗ b)
  logic_or_output_gate-Computes a b c d o = iff_of_sides _ _ _ _ (simp ring_laws) (law.one_mul o)

  pub cond_select_gate-Computes :
      (b x b' y o : F) → Holds {F = F} cond_select_gate (four b x b' y) o ↔ (x ⊖ b ⊗ x ⊕ b' ⊗ y ≡ o)
  cond_select_gate-Computes b x b' y o = iff_of_sides _ _ _ _ (simp ring_laws) (law.one_mul o)

  -- An input gate holds its output wire to the public input.
  pub io_gate-Computes :
      (p a b c d o : F)
      → ((gate_sides io_gate p (four a b c d) o).0 ≡ (gate_sides io_gate p (four a b c d) o).1)
        ↔ (p ≡ o)
  io_gate-Computes p a b c d o = iff_of_sides _ _ _ _ (simp ring_laws) (law.one_mul o)

  pub quad_poly_gate-Computes :
      (l0 l1 l2 l3 m0 m1 k : F)
      → Computes {F = F}
          (quad_poly_gate (four l0 l1 l2 l3) (two m0 m1) f.one k)
          (λ a b c d. l0 ⊗ a ⊕ l1 ⊗ b ⊕ l2 ⊗ c ⊕ l3 ⊗ d ⊕ m0 ⊗ a ⊗ b ⊕ m1 ⊗ c ⊗ d ⊕ k)
  quad_poly_gate-Computes l0 l1 l2 l3 m0 m1 k a b c d o =
      iff_of_sides _ _ _ _ (simp ring_laws) (law.one_mul o)

  -- The gates with an output wire constrain it to the constant, the sum, the sum with a constant, the
  -- difference, the product, the product with a constant, the fifth power, the linear combination,
  -- the two products with their coefficients, and the value of the logical or.
  pub gates-Computes :
      (k : F) (l0 l1 l2 l3 m0 m1 : F)
      → Computes {F = F} (constant_gate k) (λ a b c d. k)
        × Computes {F = F} addition_gate (λ a b c d. a ⊕ b)
        × Computes {F = F} (constant_addition_gate k) (λ a b c d. a ⊕ k)
        × Computes {F = F} subtraction_gate (λ a b c d. a ⊖ b)
        × Computes {F = F} multiplication_gate (λ a b c d. a ⊗ b)
        × Computes {F = F} (constant_multiplication_gate k) (λ a b c d. k ⊗ a)
        × Computes {F = F} fifth_root_gate (λ a b c d. f.pow a 5)
        × Computes {F = F}
            (lin_comb_gate (four l0 l1 l2 l3))
            (λ a b c d. l0 ⊗ a ⊕ l1 ⊗ b ⊕ l2 ⊗ c ⊕ l3 ⊗ d)
        × Computes {F = F} (mul_add_gate (two m0 m1)) (λ a b c d. m0 ⊗ a ⊗ b ⊕ m1 ⊗ c ⊗ d)
        × Computes {F = F} logic_or_output_gate (λ a b c d. a ⊕ b ⊖ a ⊗ b)
  gates-Computes k l0 l1 l2 l3 m0 m1 = (
    constant_gate-Computes k,
    addition_gate-Computes,
    constant_addition_gate-Computes k,
    subtraction_gate-Computes,
    multiplication_gate-Computes,
    constant_multiplication_gate-Computes k,
    fifth_root_gate-Computes,
    lin_comb_gate-Computes l0 l1 l2 l3,
    mul_add_gate-Computes m0 m1,
    logic_or_output_gate-Computes,
  )

  -- The conditional selection gate, wired as a selection of `x` or `y` by a bit, constrains its output
  -- to `x` where the bit is 0 and to `y` where it is 1.
  pub cond_select_gate-selects :
      (x y o : F)
      → (Holds {F = F} cond_select_gate (four f.zero x f.zero y) o ↔ (x ≡ o))
        × (Holds {F = F} cond_select_gate (four f.one x f.one y) o ↔ (y ≡ o))
  cond_select_gate-selects x y o = (
    iff_of_sides _ _ _ _ (simp ring_laws) (law.one_mul o),
    iff_of_sides _ _ _ _ (simp ring_laws) (law.one_mul o),
  )

  -- The gates that only check constrain a value wired to both inputs and the output to be its own
  -- square, two values with the zero wire as the output to have no difference, and two values to have
  -- a logical or from which taking 1 leaves nothing.
  pub checks-Holds :
      (x y o : F)
      → (Holds {F = F} bool_gate (four x x f.zero f.zero) x ↔ (x ⊗ x ≡ x))
        × (Holds {F = F} equality_gate (four x y f.zero f.zero) f.zero ↔ (x ⊖ y ≡ f.zero))
        × (Holds {F = F} logic_or_gate (four x y f.zero f.zero) o
            ↔ (x ⊕ y ⊖ x ⊗ y ⊖ f.one ≡ f.zero))
  checks-Holds x y o = (
    iff_of_sides _ _ _ _ (simp ring_laws) (law.one_mul x),
    iff_of_sides _ _ _ _ (simp ring_laws) (law.one_mul f.zero),
    iff_of_sides _ _ _ _ (simp ring_laws) (law.zero_mul o),
  )
