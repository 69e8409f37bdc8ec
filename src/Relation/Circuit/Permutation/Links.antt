-- ===== src/Relation/Circuit/Permutation/Links.antt =====
-- The cycles that `compute_wire_permutation` of relation/src/constraint_system.rs links.
use mathlib.Core.Path.{subst}
use jellyfish.Prelude.{
  ℕ, zero, suc, ◌<◌, ◌≤◌, ◌+◌, ◌*◌, ◌≡◌, ◌≢◌, ◌∙◌, refl, ap, sym, if◌then◌else◌, lt→ltb, some, List,
  [], ◌∷◌, length, get_elem?, set, length-set, get_elem?-set_self, get_elem?-set_ne, get_elem?-lt,
  arith,
}
use jellyfish.Relation.Circuit.Outcome.{returned, panicked, bind_outcome}
use jellyfish.Relation.Circuit.Rows.{some-injective}
use jellyfish.Relation.Circuit.Permutation.{Wire, set_at, link_wires, link_variables}

-- The place of a wire in the permutation, for a domain of size `n`.
abbrev pub place : ℕ → Wire → ℕ
place n w = w.0 * n + w.1

-- From `w` on each wire goes to the next, and the last to the first.
abbrev pub Cycles : ℕ → List Wire → Wire → Wire → List Wire → Type 0
Cycles n q first w [] = get_elem? q (place n w) ≡ some first
Cycles n q first w (next ∷ rest) =
    (get_elem? q (place n w) ≡ some next) × Cycles n q first next rest

-- The wires, if there are any, are one cycle.
abbrev pub HasCycle : ℕ → List Wire → List Wire → Type 0
HasCycle n q [] = Unit
HasCycle n q (w ∷ ws) = Cycles n q w w ws

abbrev AllCycles : ℕ → List Wire → List (List Wire) → Type 0
AllCycles n q [] = Unit
AllCycles n q (ws ∷ rest) = HasCycle n q ws × AllCycles n q rest

-- The places of the wires ascend from `lo` on.
abbrev pub Ascending : ℕ → ℕ → List Wire → Type 0
Ascending n lo [] = Unit
Ascending n lo (w ∷ ws) = (lo ≤ place n w) × Ascending n (suc (place n w)) ws

-- The places of the wires have the variable `v`.
abbrev pub Tagged : List ℕ → ℕ → ℕ → List Wire → Type 0
Tagged flat n v [] = Unit
Tagged flat n v (w ∷ ws) = (get_elem? flat (place n w) ≡ some v) × Tagged flat n v ws

-- The lists, for the variables from `v` on, ascend and have their variables' places.
abbrev pub Sorted : List ℕ → ℕ → ℕ → List (List Wire) → Type 0
Sorted flat n v [] = Unit
Sorted flat n v (ws ∷ rest) = Ascending n 0 ws × Tagged flat n v ws × Sorted flat n (suc v) rest

abbrev Avoids : ℕ → ℕ → List Wire → Type 0
Avoids n x [] = Unit
Avoids n x (w ∷ ws) = (place n w ≢ x) × Avoids n x ws

Ascending-Avoids : (n lo x : ℕ) (ws : List Wire) → x < lo → Ascending n lo ws → Avoids n x ws
Ascending-Avoids n lo x [] below asc = tt
Ascending-Avoids n lo x (w ∷ ws) below (here, asc) =
    ((λ e. absurd (omega arith)), Ascending-Avoids n (suc (place n w)) x ws (omega arith) asc)

Tagged-Avoids :
    (flat : List ℕ) (n v x u : ℕ) (ws : List Wire)
    → get_elem? flat x ≡ some u
    → u < v
    → Tagged flat n v ws
    → Avoids n x ws
Tagged-Avoids flat n v x u [] at below tags = tt
Tagged-Avoids flat n v x u (w ∷ ws) at below (tag, tags) = (
  (λ e.
      let same : u ≡ v = some-injective (sym at ∙ ap (get_elem? flat) (sym e) ∙ tag) in
      absurd (omega arith)),
  Tagged-Avoids flat n v x u ws at below tags,
)

set_at-lt :
    {A : Type 0} (xs : List A) (i : ℕ) (a : A)
    → i < length xs
    → set_at xs i a ≡ returned (set xs i a)
set_at-lt xs i a h =
    ap (λ b. if b then returned (set xs i a) else panicked) (lt→ltb i (length xs) h)

record LinksWires (n : ℕ) (first w : Wire) (ws p : List Wire) : Type 0 where
  after : List Wire
  runs : link_wires n first w ws p ≡ returned after
  counted : length after ≡ length p
  cycle : Cycles n after first w ws
  kept : (x : ℕ) → Avoids n x (w ∷ ws) → get_elem? after x ≡ get_elem? p x

abbrev Fits : ℕ → ℕ → List Wire → Type 0
Fits n m [] = Unit
Fits n m (w ∷ ws) = (place n w < m) × Fits n m ws

link_wires-Links :
    (n lo m : ℕ) (first w : Wire) (ws p : List Wire)
    → length p ≡ m
    → Ascending n lo (w ∷ ws)
    → Fits n m (w ∷ ws)
    → LinksWires n first w ws p
unfolding link_wires
link_wires-Links n lo m first w [] p l asc (fits, none_left) = record {
  after = set p (place n w) first;
  runs = set_at-lt p (place n w) first (omega arith);
  counted = length-set p (place n w) first;
  cycle = get_elem?-set_self p (place n w) first (omega arith);
  kept = λ x h. get_elem?-set_ne p first h.0;
}
link_wires-Links n lo m first w (next ∷ rest) p l (here, asc) (fits, others) =
    let p1 = set p (place n w) next in
    let r =
      link_wires-Links n (suc (place n w)) m first next rest p1 (length-set p (place n w) next ∙ l)
        asc others in
    record {
      after = r.after;
      runs =
          ap (λ o. bind_outcome o λ q. link_wires n first next rest q)
            (set_at-lt p (place n w) next (omega arith))
          ∙ r.runs;
      counted = r.counted ∙ length-set p (place n w) next;
      cycle = (
        r.kept (place n w) (Ascending-Avoids n _ _ (next ∷ rest) (omega arith) asc)
            ∙ get_elem?-set_self p (place n w) next (omega arith),
        r.cycle,
      );
      kept = λ x h. r.kept x h.1 ∙ get_elem?-set_ne p next h.0;
    }

Tagged-Fits :
    (flat : List ℕ) (n v : ℕ) (ws : List Wire) → Tagged flat n v ws → Fits n (length flat) ws
Tagged-Fits flat n v [] tags = tt
Tagged-Fits flat n v (w ∷ ws) (tag, tags) =
    (get_elem?-lt flat (place n w) tag, Tagged-Fits flat n v ws tags)

Cycles-kept :
    (flat : List ℕ) (n v : ℕ) (q q' : List Wire) (first w : Wire) (ws : List Wire)
    → ((x : ℕ) → get_elem? flat x ≡ some v → get_elem? q' x ≡ get_elem? q x)
    → Tagged flat n v (w ∷ ws)
    → Cycles n q first w ws
    → Cycles n q' first w ws
Cycles-kept flat n v q q' first w [] same (tag, tags) cycle = same (place n w) tag ∙ cycle
Cycles-kept flat n v q q' first w (next ∷ rest) same (tag, tags) (here, cycle) =
    (same (place n w) tag ∙ here, Cycles-kept flat n v q q' first next rest same tags cycle)

pub record LinksAll (flat : List ℕ) (n v : ℕ) (lists : List (List Wire)) (p : List Wire)
    : Type 0 where
  pub after : List Wire
  pub runs : link_variables n lists p ≡ returned after
  pub counted : length after ≡ length p
  pub cycles : AllCycles n after lists
  kept : (x u : ℕ) → get_elem? flat x ≡ some u → u < v → get_elem? after x ≡ get_elem? p x

pub link_variables-Links :
    (flat : List ℕ) (n v : ℕ) (lists : List (List Wire)) (p : List Wire)
    → length p ≡ length flat
    → Sorted flat n v lists
    → LinksAll flat n v lists p
unfolding link_variables
link_variables-Links flat n v [] p l sorted = record {
  after = p;
  runs = refl;
  counted = refl;
  cycles = tt;
  kept = λ x u at below. refl;
}
link_variables-Links flat n v ([] ∷ lists) p l (asc, tags, sorted) =
    let r = link_variables-Links flat n (suc v) lists p l sorted in
    record {
      after = r.after;
      runs = r.runs;
      counted = r.counted;
      cycles = (tt, r.cycles);
      kept = λ x u at below. r.kept x u at (omega arith);
    }
link_variables-Links flat n v ((w ∷ ws) ∷ lists) p l (asc, tags, sorted) =
    let s =
      link_wires-Links n 0 (length flat) w w ws p l asc (Tagged-Fits flat n v (w ∷ ws) tags) in
    let r = link_variables-Links flat n (suc v) lists s.after (s.counted ∙ l) sorted in
    record {
      after = r.after;
      runs = ap (λ o. bind_outcome o λ q. link_variables n lists q) s.runs ∙ r.runs;
      counted = r.counted ∙ s.counted;
      cycles = (
        Cycles-kept flat n v s.after r.after w w ws (λ x at. r.kept x v at (omega arith)) tags
            s.cycle,
        r.cycles,
      );
      kept = λ x u at below.
          r.kept x u at (omega arith)
          ∙ s.kept x (Tagged-Avoids flat n v x u (w ∷ ws) at below tags);
    }

pub AllCycles-at :
    (n : ℕ) (q : List Wire) (lists : List (List Wire)) (v : ℕ) {ws : List Wire}
    → AllCycles n q lists
    → get_elem? lists v ≡ some ws
    → HasCycle n q ws
AllCycles-at n q [] v cycles at = cc
AllCycles-at n q (xs ∷ lists) zero (cycle, cycles) at =
    subst (HasCycle n q) (some-injective at) cycle
AllCycles-at n q (xs ∷ lists) (suc v) (cycle, cycles) at = AllCycles-at n q lists v cycles at
