-- ===== src/Relation/Circuit/Permutation/Collects.antt =====
-- The wires of each variable that `compute_wire_permutation` of relation/src/constraint_system.rs
-- collects.
use native.Mathlib.Decide.{ℕ_discrete}
use jellyfish.Prelude.{
  ℕ, suc, ◌<◌, ◌≡◌, ◌≢◌, ◌∙◌, refl, ap, sym, Bool, true, false, ◌==◌, some, List, [], ◌∷◌, ◌++◌,
  length, get_elem?, set, length-set, get_elem?-set_self, get_elem?-set_ne, get_elem?-lt, get_or,
  get_elem?-get_or, arith,
}
use jellyfish.Relation.Circuit.Outcome.{Outcome, returned, from_option, bind_outcome}
use jellyfish.Relation.Circuit.Rows.{some-injective}
use jellyfish.Relation.Circuit.Permutation.{Wire, map_column, map_columns}

abbrev pub add_if : Bool → Wire → List Wire → List Wire
add_if true w ws = w ∷ ws
add_if false w ws = ws

-- The wires of the variable `v` among those of a wire type, from the gate `j` on.
abbrev pub column_wires : ℕ → ℕ → List ℕ → ℕ → List Wire
column_wires v i [] j = []
column_wires v i (var ∷ vars) j = add_if (var == v) (i, j) (column_wires v i vars (suc j))

-- The wires of the variable `v`, by their types and then by their gates.
abbrev pub wires_of : ℕ → ℕ → List (List ℕ) → List Wire
wires_of v i [] = []
wires_of v i (vars ∷ rest) = column_wires v i vars 0 ++ wires_of v (suc i) rest

-- All variables are below `m`.
abbrev pub VarsBelow : ℕ → List ℕ → Type 0
VarsBelow m [] = Unit
VarsBelow m (var ∷ vars) = (var < m) × VarsBelow m vars

-- The columns have `n` entries, all below `m`.
abbrev pub AreColumns : ℕ → ℕ → List (List ℕ) → Type 0
AreColumns n m [] = Unit
AreColumns n m (vars ∷ rest) = (length vars ≡ n) × VarsBelow m vars × AreColumns n m rest

append_assoc : (xs ys zs : List Wire) → (xs ++ ys) ++ zs ≡ xs ++ (ys ++ zs)
append_assoc [] ys zs = refl
append_assoc (x ∷ xs) ys zs = ap (λ l. x ∷ l) (append_assoc xs ys zs)

append_nil : (xs : List Wire) → xs ++ [] ≡ xs
append_nil [] = refl
append_nil (x ∷ xs) = ap (λ l. x ∷ l) (append_nil xs)

same_var : (a b : ℕ) → a ≡ b → (a == b) ≡ true
same_var a b h = ground arith

other_var : (a b : ℕ) → a ≢ b → (a == b) ≡ false
other_var a b h = ground arith

-- The result has, for each variable, what there was and `added`.
pub record Collects (m : Outcome (List (List Wire))) (wires : List (List Wire))
    (added : ℕ → List Wire) : Type 0 where
  pub after : List (List Wire)
  pub runs : m ≡ returned after
  pub counted : length after ≡ length wires
  pub gains :
      (v : ℕ) (old : List Wire)
      → get_elem? wires v ≡ some old
      → get_elem? after v ≡ some (old ++ added v)

-- One wire is pushed to its variable's.
push-gains :
    (wires : List (List Wire)) (var : ℕ) (w : Wire) (v : ℕ) (old cur more : List Wire)
    → get_elem? wires v ≡ some old
    → get_elem? wires var ≡ some cur
    → (next : List Wire) × (get_elem? (set wires var (cur ++ w ∷ [])) v ≡ some next)
      × (next ++ more ≡ old ++ add_if (var == v) w more)
push-gains wires var w v old cur more at here = elim (ℕ_discrete var v) [
  | yes same ↦ (
    cur ++ w ∷ [],
    ap (get_elem? (set wires var (cur ++ w ∷ []))) (sym same)
        ∙ get_elem?-set_self wires var (cur ++ w ∷ []) (get_elem?-lt wires var here),
    append_assoc cur (w ∷ []) more
        ∙ ap (λ l. l ++ w ∷ more) (some-injective (sym here ∙ ap (get_elem? wires) same ∙ at))
        ∙ ap (λ b. old ++ add_if b w more) (sym (same_var var v same)),
  )
  | no other ↦ (
    old,
    get_elem?-set_ne wires (cur ++ w ∷ []) other ∙ at,
    ap (λ b. old ++ add_if b w more) (sym (other_var var v other)),
  )
]

map_column-Collects :
    (i : ℕ) (vars : List ℕ) (j m : ℕ) (wires : List (List Wire))
    → length wires ≡ m
    → VarsBelow m vars
    → Collects (map_column i vars j wires) wires (λ v. column_wires v i vars j)
unfolding map_column
map_column-Collects i [] j m wires l below = record {
  after = wires;
  runs = refl;
  counted = refl;
  gains = λ v old at. at ∙ ap some (sym (append_nil old));
}
map_column-Collects i (var ∷ vars) j m wires l (here, below) =
    let cur = get_or wires var [] in
    let at = get_elem?-get_or wires var [] (omega arith) in
    let next = set wires var (cur ++ (i, j) ∷ []) in
    let size = length-set wires var (cur ++ (i, j) ∷ []) in
    let r = map_column-Collects i vars (suc j) m next (size ∙ l) below in
    record {
      after = r.after;
      runs =
          ap
            (λ o.
              bind_outcome (from_option o)
                λ old. map_column i vars (suc j) (set wires var (old ++ (i, j) ∷ [])))
            at
          ∙ r.runs;
      counted = r.counted ∙ size;
      gains = λ v old found.
          let (grown, there, same) =
            push-gains wires var (i, j) v old cur (column_wires v i vars (suc j)) found at in
          r.gains v grown there ∙ ap some same;
    }

pub map_columns-Collects :
    (n : ℕ) (cols : List (List ℕ)) (i m : ℕ) (wires : List (List Wire))
    → length wires ≡ m
    → AreColumns n m cols
    → Collects (map_columns cols i wires) wires (λ v. wires_of v i cols)
unfolding map_columns
map_columns-Collects n [] i m wires l are = record {
  after = wires;
  runs = refl;
  counted = refl;
  gains = λ v old at. at ∙ ap some (sym (append_nil old));
}
map_columns-Collects n (vars ∷ rest) i m wires l (size, below, are) =
    let p = map_column-Collects i vars 0 m wires l below in
    let r = map_columns-Collects n rest (suc i) m p.after (p.counted ∙ l) are in
    record {
      after = r.after;
      runs = ap (λ o. bind_outcome o λ next. map_columns rest (suc i) next) p.runs ∙ r.runs;
      counted = r.counted ∙ p.counted;
      gains = λ v old at.
          r.gains v (old ++ column_wires v i vars 0) (p.gains v old at)
          ∙ ap some (append_assoc old (column_wires v i vars 0) (wires_of v (suc i) rest));
    }
