-- ===== src/Relation/Gadgets/Logic/Computes.antt =====
-- What the logic gadgets compute: and, or, and the choice between two variables.
use jellyfish.Prelude.{ℕ, ◌<◌, ◌≡◌, refl, ap, List, [], ◌∷◌, arith}
use jellyfish.Relation.Gates.{Field, ◌⊕◌, ◌⊗◌, ◌⊖◌}
use jellyfish.Relation.Gates.Meaning.{
  IsField, logic_or_output_gate-Computes, multiplication_gate-Computes,
}
use jellyfish.Relation.Circuit.Outcome.{returned, returned-then}
use jellyfish.Relation.Circuit.State.{PlonkCircuit, assigned, with_variable}
use jellyfish.Relation.Circuit.Operations.{create_boolean_variable_unchecked}
use jellyfish.Relation.Circuit.Model.{IsOpen, with_variable-IsOpen}
use jellyfish.Relation.Circuit.Grows.{Grows-IsOpen, Grows-num_vars}
use jellyfish.Relation.Circuit.Effects.{create_variable-open, witness-open, insert_gate-open}
use jellyfish.Relation.Circuit.Arithmetic.{checked-then, mul_gate-runs}
use jellyfish.Relation.Circuit.Realises.{Realises, Realises-pure}
use jellyfish.Relation.Circuit.Computes.{Realises-output, zero_in}
use jellyfish.Relation.Circuit.Compose.{Realises-then}
use jellyfish.Relation.Gadgets.Logic.{logic_and, and_from, logic_and_all, logic_or}
use jellyfish.Relation.Gadgets.Runs.{AllBelow, AllBelow-le}

module _ {F : Type 0} where
  pub create_boolean_variable_unchecked-open :
      (c : PlonkCircuit F) (v : F)
      → c.eval_domain ≡ 1
      → create_boolean_variable_unchecked v c ≡ (returned c.num_vars, with_variable v c)
  unfolding create_boolean_variable_unchecked
  create_boolean_variable_unchecked-open c v e = returned-then _ _ (create_variable-open c v e) refl

module _ {F : Type 0} ⦃f : Field F⦄ ⦃law : IsField f⦄ (c : PlonkCircuit F) (o : IsOpen c) (a b : ℕ)
    (a_in : a < c.num_vars) (b_in : b < c.num_vars) where
  pub logic_and-Realises : Realises (logic_and a b) (λ w. w a ⊗ w b) c
  unfolding logic_and
  logic_and-Realises =
      let d = with_variable (assigned c a ⊗ assigned c b) c in
      Realises-output c o _ _ (λ x y _ _. x ⊗ y) _ a b 0 0 (a_in, b_in, zero_in c o, zero_in c o)
        multiplication_gate-Computes refl
        (returned-then _ _ (witness-open c a o a_in) (
          returned-then _ _ (witness-open c b o b_in) (
            returned-then _ _ (create_boolean_variable_unchecked-open c _ o.open_domain) (
              returned-then _ _
                (mul_gate-runs d (with_variable-IsOpen c _ o) a (omega arith) b (omega arith)
                  c.num_vars (omega arith))
                refl))))

  pub logic_or-Realises : Realises (logic_or a b) (λ w. w a ⊕ w b ⊖ w a ⊗ w b) c
  unfolding logic_or
  logic_or-Realises =
      let d = with_variable (assigned c a ⊕ assigned c b ⊖ assigned c a ⊗ assigned c b) c in
      Realises-output c o _ _ (λ x y _ _. x ⊕ y ⊖ x ⊗ y) _ a b 0 0
        (a_in, b_in, zero_in c o, zero_in c o) logic_or_output_gate-Computes refl
        (checked-then c a _ a_in (
          checked-then c b _ b_in (
            returned-then _ _ (witness-open c a o a_in) (
              returned-then _ _ (witness-open c b o b_in) (
                returned-then _ _ (create_boolean_variable_unchecked-open c _ o.open_domain)
                  (returned-then _ _ (insert_gate-open d _ _ o.open_domain) refl))))))

module _ {F : Type 0} ⦃f : Field F⦄ ⦃law : IsField f⦄ where
  -- The product of the values, the first of them first.
  abbrev pub product_from : F → (ℕ → F) → List ℕ → F
  product_from v w [] = v
  product_from v w (x ∷ xs) = product_from (v ⊗ w x) w xs

  product_from-local :
      (n : ℕ) (xs : List ℕ) (v v' : F) (w w' : ℕ → F)
      → AllBelow n xs
      → ((i : ℕ) → i < n → w i ≡ w' i)
      → v ≡ v'
      → product_from v w xs ≡ product_from v' w' xs
  product_from-local n [] v v' w w' below agree e = e
  product_from-local n (x ∷ xs) v v' w w' (first, rest) agree e =
      product_from-local n xs _ _ w w' rest agree (rw (e, agree x first))

  pub and_from-Realises :
      (xs : List ℕ) (c : PlonkCircuit F) (res : ℕ)
      → IsOpen c
      → res < c.num_vars
      → AllBelow c.num_vars xs
      → Realises (and_from res xs) (λ w. product_from (w res) w xs) c
  unfolding and_from
  and_from-Realises [] c res o res_in below = Realises-pure c res res_in
  and_from-Realises (x ∷ xs) c res o res_in (first, rest) =
      let p = logic_and-Realises c o res x res_in first in
      Realises-then (logic_and res x) (λ w. w res ⊗ w x) c o p
        (λ w w' agree. rw (agree res res_in, agree x first)) (λ next. and_from next xs)
        (λ w. product_from (w p.result) w xs) (λ w. product_from (w res) w (x ∷ xs))
        (λ w w' agree.
          product_from-local _ (x ∷ xs) _ _ w w' (first, rest) agree (agree res res_in))
        (λ w pinned e. ap (λ v. product_from v w xs) e)
        (and_from-Realises xs p.after p.result (Grows-IsOpen p.grows o) p.below
          (AllBelow-le _ _ xs (Grows-num_vars p.grows) rest))

  -- On an open circuit and a list of its variables that is not empty, `logic_and_all` returns a variable
  -- with the product of their values; a satisfied circuit stays satisfied, and whatever assignment
  -- satisfies the gates gives the variable that product.
  pub logic_and_all-Realises :
      (x : ℕ) (xs : List ℕ) (c : PlonkCircuit F)
      → IsOpen c
      → AllBelow c.num_vars (x ∷ xs)
      → Realises (logic_and_all (x ∷ xs)) (λ w. product_from (w x) w xs) c
  unfolding logic_and_all
  logic_and_all-Realises x xs c o (first, rest) = and_from-Realises xs c x o first rest
