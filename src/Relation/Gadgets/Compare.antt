-- ===== src/Relation/Gadgets/Compare.antt =====
-- The gadgets of relation/src/gadgets/cmp.rs: comparisons of two variables, and with a constant. A
-- `BoolVar` is the index it wraps.
use jellyfish.Prelude.{ℕ, Bool, true, false, List, [], ◌∷◌}
use jellyfish.Relation.Gates.{Field}
use jellyfish.Relation.Inverses.{Inverses, OrderedField}
use jellyfish.Relation.Circuit.Outcome.{pure, ◌>>=◌, ◌>>◌}
use jellyfish.Relation.Circuit.Operations.{
  Op, check_var_bound, create_constant_variable, enforce_constant, sub,
}
use jellyfish.Relation.Gadgets.Logic.{enforce_or, logic_and, logic_or, logic_neg, is_equal}
use jellyfish.Relation.Gadgets.Range.{unpack}

-- The bits of the constant beside the variables, filled up with 0 or cut to as many.
abbrev pub zipped : List Bool → List ℕ → List (Bool × ℕ)
zipped bits [] = []
zipped [] (a ∷ rest) = (false, a) ∷ zipped [] rest
zipped (b ∷ bits) (a ∷ rest) = (b, a) ∷ zipped bits rest

-- What is left after the ones at the front.
abbrev pub skip_ones : List (Bool × ℕ) → List (Bool × ℕ)
skip_ones [] = []
skip_ones ((true, a) ∷ rest) = skip_ones rest
skip_ones ((false, a) ∷ rest) = (false, a) ∷ rest

module _ {F : Type 0} ⦃f : Field F⦄ where
  -- The fold from the lowest bit to the highest: an AND for 1, an OR for 0.
  unfoldable pub fold_bits : ℕ → List (Bool × ℕ) → Op F ℕ
  fold_bits current [] = pure current
  fold_bits current ((true, a) ∷ rest) = do next ← logic_and a current; fold_bits next rest
  fold_bits current ((false, a) ∷ rest) = do next ← logic_or a current; fold_bits next rest

  abbrev pub fold_from : List (Bool × ℕ) → Op F ℕ
  fold_from [] = pure 0
  fold_from ((b, var) ∷ rest) = fold_bits var rest

module _ {F : Type 0} ⦃f : Field F⦄ ⦃inv : Inverses F⦄ ⦃prime : OrderedField F⦄ where
  unfoldable pub is_gt_constant_internal : ℕ → F → Op F ℕ
  is_gt_constant_internal a constant = do
    a_bits_le ← unpack a prime.modulus_bit_size
    fold_from (skip_ones (zipped (prime.to_bits_le constant) a_bits_le))

  unfoldable pub msb_check_internal : ℕ → ℕ → Op F (ℕ × ℕ)
  msb_check_internal a b = do
    a_gt_const ← is_gt_constant_internal a prime.modulus_minus_one_div_two
    b_gt_const ← is_gt_constant_internal b prime.modulus_minus_one_div_two
    a_leq_const ← logic_neg a_gt_const
    msb_check ← logic_and a_leq_const b_gt_const
    msb_eq ← is_equal a_gt_const b_gt_const
    pure (msb_check, msb_eq)

  -- The bit that `a` and `b` are on the same side of the middle and `a - b` above it.
  abbrev pub same_side_less : ℕ → ℕ → ℕ → Op F ℕ
  same_side_less msb_eq a b = do
    c ← sub a b
    cmp_result ← is_gt_constant_internal c prime.modulus_minus_one_div_two
    logic_and msb_eq cmp_result

  unfoldable pub is_lt_internal : ℕ → ℕ → Op F ℕ
  is_lt_internal a b = do
    msb ← msb_check_internal a b
    cmp_result ← same_side_less msb.1 a b
    logic_or msb.0 cmp_result

  unfoldable pub enforce_lt_internal : ℕ → ℕ → Op F (Unit {0})
  enforce_lt_internal a b = do
    msb ← msb_check_internal a b
    cmp_result ← same_side_less msb.1 a b
    enforce_or msb.0 cmp_result

  unfoldable pub is_lt : ℕ → ℕ → Op F ℕ
  is_lt a b = do check_var_bound a; check_var_bound b; is_lt_internal a b

  unfoldable pub is_gt : ℕ → ℕ → Op F ℕ
  is_gt a b = is_lt b a

  unfoldable pub is_leq : ℕ → ℕ → Op F ℕ
  is_leq a b = do check_var_bound a; check_var_bound b; c ← is_lt_internal b a; logic_neg c

  unfoldable pub is_geq : ℕ → ℕ → Op F ℕ
  is_geq a b = do check_var_bound a; check_var_bound b; c ← is_lt_internal a b; logic_neg c

  unfoldable pub enforce_lt : ℕ → ℕ → Op F (Unit {0})
  enforce_lt a b = do check_var_bound a; check_var_bound b; enforce_lt_internal a b

  unfoldable pub enforce_leq : ℕ → ℕ → Op F (Unit {0})
  enforce_leq a b = do c ← is_lt b a; enforce_constant c f.zero

  unfoldable pub enforce_gt : ℕ → ℕ → Op F (Unit {0})
  enforce_gt a b = enforce_lt b a

  unfoldable pub enforce_geq : ℕ → ℕ → Op F (Unit {0})
  enforce_geq a b = do c ← is_lt a b; enforce_constant c f.zero

  unfoldable pub is_lt_constant : ℕ → F → Op F ℕ
  is_lt_constant a val = do check_var_bound a; b ← create_constant_variable val; is_lt a b

  unfoldable pub is_leq_constant : ℕ → F → Op F ℕ
  is_leq_constant a val = do check_var_bound a; b ← create_constant_variable val; is_leq a b

  unfoldable pub is_gt_constant : ℕ → F → Op F ℕ
  is_gt_constant a val = do check_var_bound a; is_gt_constant_internal a val

  unfoldable pub is_geq_constant : ℕ → F → Op F ℕ
  is_geq_constant a val = do check_var_bound a; b ← create_constant_variable val; is_geq a b

  unfoldable pub enforce_lt_constant : ℕ → F → Op F (Unit {0})
  enforce_lt_constant a val = do check_var_bound a; b ← create_constant_variable val; enforce_lt a b

  unfoldable pub enforce_leq_constant : ℕ → F → Op F (Unit {0})
  enforce_leq_constant a val = do
    check_var_bound a
    b ← create_constant_variable val
    enforce_leq a b

  unfoldable pub enforce_gt_constant : ℕ → F → Op F (Unit {0})
  enforce_gt_constant a val = do check_var_bound a; b ← create_constant_variable val; enforce_gt a b

  unfoldable pub enforce_geq_constant : ℕ → F → Op F (Unit {0})
  enforce_geq_constant a val = do
    check_var_bound a
    b ← create_constant_variable val
    enforce_geq a b
