-- ===== src/Relation/Circuit/Rows.antt =====
-- The gates of a circuit with the variables of their wires.
use jellyfish.Prelude.{
  ℕ, suc, ◌<◌, ◌≡◌, refl, ap, sym, ◌∙◌, ◌⊎◌, inl, inr, some, List, [], ◌∷◌, ◌++◌, length, get_elem?,
  get_elem?-append_lt, get_elem?-append_last, get_elem?-append-cases, get_elem?-lt, get_or,
  get_elem?-get_or, length-append, arith,
}
use jellyfish.Relation.Circuit.State.{
  BoxedGate, Row, row, Wires, PlonkCircuit, push_row, row?, with_gate,
}

-- The first five vectors have one entry for each of `n` gates.
pub record IsAligned (w : Wires) (n : ℕ) : Type 0 where
  pub in0 : length w.in0 ≡ n
  pub in1 : length w.in1 ≡ n
  pub in2 : length w.in2 ≡ n
  pub in3 : length w.in3 ≡ n
  pub out : length w.out ≡ n

length-push :
    {A : Type 0} (xs : List A) (x : A) {n m : ℕ}
    → length xs ≡ n
    → m ≡ suc n
    → length (xs ++ x ∷ []) ≡ m
length-push xs x l e = omega (arith, length-append xs (x ∷ []))

pub IsAligned-push_row :
    (r : Row) {w : Wires} {n m : ℕ} → IsAligned w n → m ≡ suc n → IsAligned (push_row r w) m
IsAligned-push_row r {w} h more = record {
  in0 = length-push w.in0 r.wire0 h.in0 more;
  in1 = length-push w.in1 r.wire1 h.in1 more;
  in2 = length-push w.in2 r.wire2 h.in2 more;
  in3 = length-push w.in3 r.wire3 h.in3 more;
  out = length-push w.out r.wire4 h.out more;
}

before :
    {A : Type 0} (xs ys : List A) {g n : ℕ}
    → length xs ≡ n
    → g < n
    → get_elem? (xs ++ ys) g ≡ get_elem? xs g
before xs ys l h = get_elem?-append_lt xs ys _ (omega arith)

pub row?-push_row_lt :
    (r : Row) {w : Wires} {n : ℕ} (g : ℕ) → IsAligned w n → g < n → row? (push_row r w) g ≡ row? w g
unfolding row?
row?-push_row_lt r {w} g h below = rw (
  before w.in0 (r.wire0 ∷ []) h.in0 below,
  before w.in1 (r.wire1 ∷ []) h.in1 below,
  before w.in2 (r.wire2 ∷ []) h.in2 below,
  before w.in3 (r.wire3 ∷ []) h.in3 below,
  before w.out (r.wire4 ∷ []) h.out below,
)

pub row?-push_row_last :
    (r : Row) {w : Wires} {n : ℕ} → IsAligned w n → row? (push_row r w) n ≡ some r
unfolding row?
row?-push_row_last r {w} {n} h = rw (
  get_elem?-append_last w.in0 r.wire0 n h.in0,
  get_elem?-append_last w.in1 r.wire1 n h.in1,
  get_elem?-append_last w.in2 r.wire2 n h.in2,
  get_elem?-append_last w.in3 r.wire3 n h.in3,
  get_elem?-append_last w.out r.wire4 n h.out,
)

pub row?-lt : {w : Wires} {n : ℕ} (g : ℕ) → IsAligned w n → g < n → (r : Row) × (row? w g ≡ some r)
unfolding row?
row?-lt {w} g h below =
    let at = λ (xs : List ℕ) (l : g < length xs). get_elem?-get_or xs g 0 l in
    (
      row (get_or w.in0 g 0) (get_or w.in1 g 0) (get_or w.in2 g 0) (get_or w.in3 g 0)
          (get_or w.out g 0),
      rw (
        at w.in0 (omega (arith, h.in0)),
        at w.in1 (omega (arith, h.in1)),
        at w.in2 (omega (arith, h.in2)),
        at w.in3 (omega (arith, h.in3)),
        at w.out (omega (arith, h.out)),
      ),
    )

pub some-injective : {A : Type 0} {a b : A} → some a ≡ some b → a ≡ b
some-injective h = cc

module _ {F : Type 0} where
  -- The gate at an index, with its wires.
  abbrev pub HasGate : PlonkCircuit F → ℕ → BoxedGate F → Row → Type 0
  HasGate c i g r = (get_elem? c.gates i ≡ some g) × (row? c.wire_variables i ≡ some r)

  abbrev pub Aligned : PlonkCircuit F → Type 0
  Aligned c = IsAligned c.wire_variables (length c.gates)

  module _ (c : PlonkCircuit F) (g : BoxedGate F) (r : Row) (aligned : Aligned c) where
    pub Aligned-with_gate : Aligned (with_gate g r c)
    Aligned-with_gate = IsAligned-push_row r aligned (length-push c.gates g refl refl)

    pub HasGate-with_gate-old :
        (i : ℕ) {g' : BoxedGate F} {r' : Row}
        → HasGate c i g' r'
        → HasGate (with_gate g r c) i g' r'
    HasGate-with_gate-old i (at, wires) = (
      get_elem?-append_lt c.gates (g ∷ []) _ (get_elem?-lt c.gates _ at) ∙ at,
      row?-push_row_lt r _ aligned (get_elem?-lt c.gates _ at) ∙ wires,
    )

    pub HasGate-with_gate-new : HasGate (with_gate g r c) (length c.gates) g r
    HasGate-with_gate-new = (get_elem?-append_last c.gates g _ refl, row?-push_row_last r aligned)

    pub HasGate-with_gate-cases :
        (i : ℕ) {g' : BoxedGate F} {r' : Row}
        → HasGate (with_gate g r c) i g' r'
        → HasGate c i g' r' ⊎ ((g' ≡ g) × (r' ≡ r))
    HasGate-with_gate-cases i (at, wires) = elim (get_elem?-append-cases c.gates _ at) [
      | inl (below, found) ↦ inl (found, sym (row?-push_row_lt r _ aligned below) ∙ wires)
      | inr (last, same) ↦ inr (
        same,
        some-injective (
            sym wires
            ∙ ap (row? (push_row r c.wire_variables)) last
            ∙ row?-push_row_last r aligned),
      )
    ]
