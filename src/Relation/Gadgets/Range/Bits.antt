-- ===== src/Relation/Gadgets/Range/Bits.antt =====
-- What `range_gate_internal` of relation/src/gadgets/range.rs computes and asks for.
use jellyfish.Prelude.{
  ℕ, suc, ◌<◌, ◌≤◌, ◌≡◌, ◌∙◌, refl, sym, ap, Bool, true, false, ltb, ◌==◌, if◌then◌else◌, List, [],
  ◌∷◌, length, take, length-take, arith,
}
use jellyfish.Relation.Gates.{Field, ◌⊕◌, ◌⊗◌}
use jellyfish.Relation.Gates.Meaning.{IsField, IsCommutative}
use jellyfish.Relation.Inverses.{OrderedField}
use jellyfish.Relation.Circuit.Outcome.{CircuitError, returned, failed, fail_if, returned-then}
use jellyfish.Relation.Circuit.State.{PlonkCircuit, assigned, with_variable}
use jellyfish.Relation.Circuit.Operations.{Op, create_boolean_variable, bit}
use jellyfish.Relation.Circuit.Model.{Satisfies, IsOpen, with_variable-IsOpen}
use jellyfish.Relation.Circuit.Grows.{
  Grows, stays, gains_variable, Grows-then, Grows-IsOpen, Grows-num_vars, Grows-assigned,
  Grows-Satisfies, assigned-with_variable-new,
}
use jellyfish.Relation.Circuit.Agreement.{IsSatisfied, with_variable-IsSatisfied}
use jellyfish.Relation.Circuit.Effects.{create_variable-open, witness-open}
use jellyfish.Relation.Circuit.Arithmetic.{checked-then}
use jellyfish.Relation.Circuit.Realises.{Asserts}
use jellyfish.Relation.Circuit.Computes.{enforce_bool-Asserts}
use jellyfish.Relation.Gadgets.Runs.{AllBelow}
use jellyfish.Relation.Gadgets.Range.{create_bits, binary_decomposition_gate, range_gate_internal}
use jellyfish.Relation.Gadgets.Range.Horner.{horner}
use jellyfish.Relation.Gadgets.Range.Computes.{decomposition_gate-Asserts}

module _ {F : Type 0} ⦃f : Field F⦄ where
  -- Each value is its own square.
  abbrev pub AllBits : (ℕ → F) → List ℕ → Type 0
  AllBits w [] = Unit
  AllBits w (x ∷ xs) = (w x ⊗ w x ≡ w x) × AllBits w xs

  -- The variables have the values of the bits.
  abbrev HaveBits : (ℕ → F) → List ℕ → List Bool → Type 0
  HaveBits w [] [] = Unit
  HaveBits w (x ∷ xs) (b ∷ bs) = (w x ≡ bit b) × HaveBits w xs bs
  HaveBits w _ _ = ⊥

  -- The number that the bits are, in the base `two`.
  abbrev pub bits_value : F → List Bool → F
  bits_value two [] = f.zero
  bits_value two (b ∷ bs) = bit b ⊕ two ⊗ bits_value two bs

  horner-HaveBits :
      (two : F) (w : ℕ → F) (xs : List ℕ) (bs : List Bool)
      → HaveBits w xs bs
      → horner two w xs ≡ bits_value two bs
  horner-HaveBits two w [] [] have = refl
  horner-HaveBits two w (x ∷ xs) (b ∷ bs) (first, rest) =
      rw (first, horner-HaveBits two w xs bs rest)
  horner-HaveBits two w [] (b ∷ bs) have = elim have [ ]
  horner-HaveBits two w (x ∷ xs) [] have = elim have [ ]

  record CreatesBits (bs : List Bool) (c : PlonkCircuit F) : Type 0 where
    vars : List ℕ
    after : PlonkCircuit F
    runs : create_bits bs c ≡ (returned vars, after)
    grows : Grows c after
    below : AllBelow after.num_vars vars
    have : HaveBits (assigned after) vars bs
    counted : length vars ≡ length bs
    complete : IsSatisfied c → IsSatisfied after
    sound : (w : ℕ → F) → Satisfies w after → AllBits w vars

  -- The operation returns `n` variables; the circuit stays satisfied, and whatever satisfies it gives
  -- them values that are their own squares and together, in the base `two`, the value of `a`.
  pub record Decomposes (m : Op F (List ℕ)) (two : F) (a n : ℕ) (c : PlonkCircuit F) : Type 0 where
    pub bits : List ℕ
    pub after : PlonkCircuit F
    pub runs : m c ≡ (returned bits, after)
    pub grows : Grows c after
    pub counted : length bits ≡ n
    pub complete : IsSatisfied c → IsSatisfied after
    pub sound : (w : ℕ → F) → Satisfies w after → AllBits w bits × (horner two w bits ≡ w a)

module _ {F : Type 0} ⦃f : Field F⦄ ⦃law : IsField f⦄ where
  bit_square : (b : Bool) → ◌≡◌ {A = F} (bit b ⊗ bit b) (bit b)
  bit_square true = law.one_mul f.one
  bit_square false = law.zero_mul f.zero

  create_bits-CreatesBits : (bs : List Bool) (c : PlonkCircuit F) → IsOpen c → CreatesBits bs c
  unfolding create_bits create_boolean_variable
  create_bits-CreatesBits [] c o = record {
    vars = [];
    after = c;
    runs = refl;
    grows = stays;
    below = tt;
    have = tt;
    counted = refl;
    complete = λ sat. sat;
    sound = λ w sat. tt;
  }
  create_bits-CreatesBits (b ∷ bs) c o =
      let d = with_variable (bit b) c in
      let o' = with_variable-IsOpen c (bit b) o in
      let new = assigned-with_variable-new c (bit b) o in
      let p = enforce_bool-Asserts d o' c.num_vars (omega arith) in
      let q = create_bits-CreatesBits bs p.after (Grows-IsOpen p.grows o') in
      let kept = Grows-then p.grows q.grows in
      record {
        vars = c.num_vars ∷ q.vars;
        after = q.after;
        runs =
            returned-then _ _
              (returned-then _ _ (create_variable-open c (bit b) o.open_domain)
                (returned-then _ _ p.runs refl))
              (returned-then _ _ q.runs refl);
        grows = Grows-then (gains_variable stays (bit b)) kept;
        below = (omega (arith, Grows-num_vars kept), q.below);
        have = (Grows-assigned kept o' c.num_vars (omega arith) ∙ new, q.have);
        counted = ap suc q.counted;
        complete = λ sat. q.complete (
            p.complete (ap (λ v. v ⊗ v) new ∙ bit_square b ∙ sym new)
              (with_variable-IsSatisfied c (bit b) o sat));
        sound = λ w sat.
            (p.sound w (Grows-Satisfies q.grows (Grows-IsOpen p.grows o') w sat), q.sound w sat);
      }

not_zero : (n : ℕ) → 0 < n → (n == 0) ≡ false
not_zero n h = ground arith

not_longer : (n m : ℕ) → n ≤ m → ltb m n ≡ false
not_longer n m h = ground arith

module _ {F : Type 0} where
  passed :
      (t : Bool) (e : CircuitError) (c : PlonkCircuit F)
      → t ≡ false
      → fail_if t e c ≡ (returned tt, c)
  passed t e c h = ap (λ b. (if b then failed e else returned tt, c)) h

module _ {F : Type 0} ⦃f : Field F⦄ ⦃prime : OrderedField F⦄ ⦃law : IsField f⦄
    ⦃comm : IsCommutative f⦄ where
  -- A list of bits that is not empty is decomposed by the gate.
  binary-Asserts :
      (vars : List ℕ) (a : ℕ) (c : PlonkCircuit F)
      → IsOpen c
      → 0 < length vars
      → AllBelow c.num_vars vars
      → a < c.num_vars
      → Asserts (binary_decomposition_gate vars a) (λ w. horner (prime.from 2) w vars ≡ w a) c
  unfolding binary_decomposition_gate
  binary-Asserts [] a c o some_bits below a_in = absurd (omega arith)
  binary-Asserts (x ∷ xs) a c o some_bits below a_in =
      decomposition_gate-Asserts x xs a (prime.from 2) c o below a_in

  -- On an open circuit and a variable of it whose value is that of its lowest bits, of which there are
  -- as many as asked for and one at least, `range_gate_internal` returns as many variables; the
  -- circuit stays satisfied, and whatever assignment satisfies it gives them values that are their own
  -- squares and together, in the base 2, the value of the variable.
  pub range_gate_internal-Decomposes :
      (a n : ℕ) (c : PlonkCircuit F)
      → IsOpen c
      → a < c.num_vars
      → 0 < n
      → n ≤ length (prime.to_bits_le (assigned c a))
      → bits_value (prime.from 2) (take n (prime.to_bits_le (assigned c a))) ≡ assigned c a
      → Decomposes (range_gate_internal a n) (prime.from 2) a n c
  unfolding range_gate_internal
  range_gate_internal-Decomposes a n c o a_in positive fits is_value =
      let bs = take n (prime.to_bits_le (assigned c a)) in
      let p = create_bits-CreatesBits bs c o in
      let o' = Grows-IsOpen p.grows o in
      let count : length p.vars ≡ n =
        omega (arith, p.counted, length-take {0} n (prime.to_bits_le (assigned c a))) in
      let q =
        binary-Asserts p.vars a p.after o' (omega arith) p.below
          (omega (arith, Grows-num_vars p.grows)) in
      record {
        bits = p.vars;
        after = q.after;
        runs = checked-then c a _ a_in (
            returned-then _ _ (passed _ _ c (not_zero n positive)) (
              returned-then _ _ (witness-open c a o a_in) (
                returned-then _ _ (passed _ _ c (not_longer n _ fits))
                  (returned-then _ _ p.runs (returned-then _ _ q.runs refl)))));
        grows = Grows-then p.grows q.grows;
        counted = count;
        complete = λ sat.
            q.complete
              (horner-HaveBits (prime.from 2) (assigned p.after) p.vars bs p.have
                ∙ is_value
                ∙ sym (Grows-assigned p.grows o a a_in))
              (p.complete sat);
        sound = λ w sat. (p.sound w (Grows-Satisfies q.grows o' w sat), q.sound w sat);
      }
