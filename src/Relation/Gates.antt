-- ===== src/Relation/Gates.antt =====
-- The gates of relation/src/gates, each by its selectors, and the equation that `check_gate` of
-- relation/src/constraint_system.rs evaluates.
pub mod Meaning
use jellyfish.Prelude.{ℕ, Bool, true, false}

-- What the code uses of `ark_ff::Field`.
pub record Field (F : Type 0) : Type 0 where
  pub zero : F
  pub one : F
  pub add : F → F → F
  pub mul : F → F → F
  pub neg : F → F
  pub pow : F → ℕ → F

-- `[F; GATE_WIDTH]`
pub data Four (F : Type 0) : Type 0 where
  four : F → F → F → F → Four F

-- `[F; N_MUL_SELECTORS]`
pub data Two (F : Type 0) : Type 0 where
  two : F → F → Two F

-- `Gate`: the selectors of a gate.
pub record Gate (F : Type 0) : Type 0 where
  pub q_lc : Four F
  pub q_hash : Four F
  pub q_mul : Two F
  pub q_ecc : F
  pub q_c : F
  pub q_o : F
  pub q_lookup : F
  pub q_dom_sep : F
  pub table_key : F
  pub table_dom_sep : F

module _ {F : Type 0} ⦃f : Field F⦄ where
  infixl 6 ◌⊕◌
  abbrev pub ◌⊕◌ : F → F → F
  x ⊕ y = f.add x y

  infixl 7 ◌⊗◌
  abbrev pub ◌⊗◌ : F → F → F
  x ⊗ y = f.mul x y

  infixl 6 ◌⊖◌
  abbrev pub ◌⊖◌ : F → F → F
  x ⊖ y = f.add x (f.neg y)

  -- The selectors that a gate does not override.
  abbrev pub padding_gate : Gate F
  padding_gate = record {
    q_lc = four f.zero f.zero f.zero f.zero;
    q_hash = four f.zero f.zero f.zero f.zero;
    q_mul = two f.zero f.zero;
    q_ecc = f.zero;
    q_c = f.zero;
    q_o = f.zero;
    q_lookup = f.zero;
    q_dom_sep = f.zero;
    table_key = f.zero;
    table_dom_sep = f.zero;
  }

  abbrev pub constant_gate : F → Gate F
  constant_gate c = record padding_gate { q_c = c; q_o = f.one }

  abbrev pub addition_gate : Gate F
  addition_gate = record padding_gate { q_lc = four f.one f.one f.zero f.zero; q_o = f.one }

  abbrev pub constant_addition_gate : F → Gate F
  constant_addition_gate c = record padding_gate {
    q_lc = four f.one f.zero f.zero f.zero;
    q_c = c;
    q_o = f.one;
  }

  abbrev pub subtraction_gate : Gate F
  subtraction_gate = record padding_gate {
    q_lc = four f.one (f.neg f.one) f.zero f.zero;
    q_o = f.one;
  }

  abbrev pub multiplication_gate : Gate F
  multiplication_gate = record padding_gate { q_mul = two f.one f.zero; q_o = f.one }

  abbrev pub constant_multiplication_gate : F → Gate F
  constant_multiplication_gate c = record padding_gate {
    q_lc = four c f.zero f.zero f.zero;
    q_o = f.one;
  }

  abbrev pub bool_gate : Gate F
  bool_gate = record padding_gate {
    q_mul = multiplication_gate.q_mul;
    q_o = multiplication_gate.q_o;
  }

  abbrev pub equality_gate : Gate F
  equality_gate = record padding_gate { q_lc = subtraction_gate.q_lc; q_o = subtraction_gate.q_o }

  abbrev pub io_gate : Gate F
  io_gate = record padding_gate { q_o = f.one }

  abbrev pub fifth_root_gate : Gate F
  fifth_root_gate = record padding_gate { q_hash = four f.one f.zero f.zero f.zero; q_o = f.one }

  abbrev pub quad_poly_gate : Four F → Two F → F → F → Gate F
  quad_poly_gate lc mul o c = record padding_gate { q_lc = lc; q_mul = mul; q_o = o; q_c = c }

  abbrev pub lin_comb_gate : Four F → Gate F
  lin_comb_gate coeffs = record padding_gate { q_lc = coeffs; q_o = f.one }

  abbrev pub mul_add_gate : Two F → Gate F
  mul_add_gate coeffs = record padding_gate { q_mul = coeffs; q_o = f.one }

  abbrev pub cond_select_gate : Gate F
  cond_select_gate = record padding_gate {
    q_lc = four f.zero f.one f.zero f.zero;
    q_mul = two (f.neg f.one) f.one;
    q_o = f.one;
  }

  abbrev pub logic_or_gate : Gate F
  logic_or_gate = record padding_gate {
    q_lc = four f.one f.one f.zero f.zero;
    q_mul = two (f.neg f.one) f.zero;
    q_c = f.neg f.one;
  }

  abbrev pub logic_or_output_gate : Gate F
  logic_or_output_gate = record padding_gate {
    q_lc = four f.one f.one f.zero f.zero;
    q_mul = two (f.neg f.one) f.zero;
    q_o = f.one;
  }

  abbrev pub lookup_gate : F → F → F → Gate F
  lookup_gate dom_sep table_sep key = record padding_gate {
    q_lookup = f.one;
    q_dom_sep = dom_sep;
    table_key = key;
    table_dom_sep = table_sep;
  }

  -- The gates of a twisted Edwards curve with the coefficients `a` and `d`.
  abbrev pub edwards_curve_equation_gate : F → F → Gate F
  edwards_curve_equation_gate a d = record padding_gate {
    q_mul = two (f.neg a) (f.neg f.one);
    q_c = f.one;
    q_ecc = d;
  }

  abbrev pub curve_point_x_addition_gate : F → Gate F
  curve_point_x_addition_gate d = record padding_gate {
    q_mul = two f.one f.one;
    q_o = f.one;
    q_ecc = f.neg d;
  }

  abbrev pub curve_point_y_addition_gate : F → F → Gate F
  curve_point_y_addition_gate a d = record padding_gate {
    q_mul = two (f.neg a) f.one;
    q_o = f.one;
    q_ecc = d;
  }

  abbrev pub quaternary_point_select_x_gate : F → F → F → Gate F
  quaternary_point_select_x_gate x1 x2 x3 = record padding_gate {
    q_lc = four x1 x2 f.zero f.zero;
    q_mul = two (x3 ⊖ x2 ⊖ x1) f.zero;
    q_o = f.one;
  }

  abbrev pub quaternary_point_select_y_gate : F → F → F → Gate F
  quaternary_point_select_y_gate y1 y2 y3 = record padding_gate {
    q_lc = four (y1 ⊖ f.one) (y2 ⊖ f.one) f.zero f.zero;
    q_mul = two (y3 ⊖ y2 ⊖ y1 ⊕ f.one) f.zero;
    q_c = f.one;
    q_o = f.one;
  }

  -- The two sides that `check_gate` compares, for a gate's selectors, the public input and the
  -- values of the five wires.
  abbrev pub gate_sides : Gate F → F → Four F → F → F × F
  gate_sides g pub_input (four w0 w1 w2 w3) w4 = sides g.q_lc g.q_mul g.q_hash
    where
      sides : Four F → Two F → Four F → F × F
      sides (four l0 l1 l2 l3) (two m0 m1) (four h0 h1 h2 h3) = (
        pub_input
            ⊕ l0 ⊗ w0
            ⊕ l1 ⊗ w1
            ⊕ l2 ⊗ w2
            ⊕ l3 ⊗ w3
            ⊕ m0 ⊗ w0 ⊗ w1
            ⊕ m1 ⊗ w2 ⊗ w3
            ⊕ g.q_ecc ⊗ w0 ⊗ w1 ⊗ w2 ⊗ w3 ⊗ w4
            ⊕ h0 ⊗ f.pow w0 5
            ⊕ h1 ⊗ f.pow w1 5
            ⊕ h2 ⊗ f.pow w2 5
            ⊕ h3 ⊗ f.pow w3 5
            ⊕ g.q_c,
        g.q_o ⊗ w4,
      )
