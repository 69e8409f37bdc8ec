-- ===== src/Relation/Circuit/Permutation/Cycles.antt =====
-- `compute_wire_permutation` of relation/src/constraint_system.rs links the wires of each variable to
-- one cycle.
use mathlib.Core.Path.{subst}
use jellyfish.Prelude.{
  ℕ, zero, suc, ◌<◌, ◌≤◌, ◌+◌, ◌*◌, ◌≡◌, ◌≢◌, ◌∙◌, refl, ap, sym, Bool, true, false, ◌==◌, not,
  if◌then◌else◌, some, List, [], ◌∷◌, ◌++◌, length, length-append, get_elem?, get_elem?-append,
  get_elem?-lt, replicate, length-replicate, arith,
}
use jellyfish.Relation.Circuit.Outcome.{Outcome, returned, panicked, bind_outcome, returned-then}
use jellyfish.Relation.Circuit.Rows.{some-injective}
use jellyfish.Relation.Circuit.State.{PlonkCircuit, is_finalized}
use jellyfish.Relation.Circuit.Permutation.{
  Wire, columns, link_variables, map_columns, compute_wire_permutation,
}
use jellyfish.Relation.Circuit.Permutation.Links.{
  Ascending, Tagged, Sorted, HasCycle, AllCycles-at, link_variables-Links,
}
use jellyfish.Relation.Circuit.Permutation.Collects.{
  add_if, column_wires, wires_of, AreColumns, map_columns-Collects,
}

abbrev joined : List (List ℕ) → List ℕ
joined [] = []
joined (vars ∷ rest) = vars ++ joined rest

get_elem?-append_right :
    (xs ys : List ℕ) (p k : ℕ) → p ≡ length xs + k → get_elem? (xs ++ ys) p ≡ get_elem? ys k
get_elem?-append_right [] ys p k e = ap (get_elem? ys) (omega arith)
get_elem?-append_right (x ∷ xs) ys zero k e = absurd (omega arith)
get_elem?-append_right (x ∷ xs) ys (suc p) k e = get_elem?-append_right xs ys p k (omega arith)

length-joined :
    (n m : ℕ) (cols : List (List ℕ)) → AreColumns n m cols → length (joined cols) ≡ length cols * n
length-joined n m [] are = omega arith
length-joined n m (vars ∷ rest) (size, below, are) =
    grind (arith, length-append vars (joined rest), length-joined n m rest are)

Ascending-weaker : (n lo hi : ℕ) (ws : List Wire) → lo ≤ hi → Ascending n hi ws → Ascending n lo ws
Ascending-weaker n lo hi [] h asc = tt
Ascending-weaker n lo hi (w ∷ ws) h (here, asc) = (omega arith, asc)

same_number : (a b : ℕ) → (a == b) ≡ true → a ≡ b
same_number a b h = ground arith

-- The wires of a column in front of others that ascend from the column's end on.
column-Ascending :
    (n v i : ℕ) (vars : List ℕ) (j lo : ℕ) (ws : List Wire)
    → lo ≤ i * n + j
    → Ascending n (i * n + (j + length vars)) ws
    → Ascending n lo (column_wires v i vars j ++ ws)
column-Ascending n v i [] j lo ws h asc = Ascending-weaker n lo _ ws (omega arith) asc
column-Ascending n v i (var ∷ vars) j lo ws h asc = added (var == v) (λ lo' h'.
    column-Ascending n v i vars (suc j) lo' ws h' (subst (λ p. Ascending n p ws) (omega arith) asc))
  where
    added :
        (b : Bool)
        → ((lo' : ℕ) → lo' ≤ i * n + suc j → Ascending n lo' (column_wires v i vars (suc j) ++ ws))
        → Ascending n lo (add_if b (i, j) (column_wires v i vars (suc j)) ++ ws)
    added true rest = (h, rest _ (omega arith))
    added false rest = rest lo (omega arith)

wires_of-Ascending :
    (n m v : ℕ) (cols : List (List ℕ)) (i lo : ℕ)
    → lo ≤ i * n
    → AreColumns n m cols
    → Ascending n lo (wires_of v i cols)
wires_of-Ascending n m v [] i lo h are = tt
wires_of-Ascending n m v (vars ∷ rest) i lo h (size, below, are) =
    column-Ascending n v i vars 0 lo (wires_of v (suc i) rest) (omega arith)
      (wires_of-Ascending n m v rest (suc i) _ (omega (arith, next_column n i)) are)
  where
    next_column : (n i : ℕ) → suc i * n ≡ i * n + n
    next_column n i = grind arith

column-Tagged :
    (flat : List ℕ) (n v i : ℕ) (vars : List ℕ) (j : ℕ) (ws : List Wire)
    → ((k u : ℕ) → get_elem? vars k ≡ some u → get_elem? flat (i * n + (j + k)) ≡ some u)
    → Tagged flat n v ws
    → Tagged flat n v (column_wires v i vars j ++ ws)
column-Tagged flat n v i [] j ws at tags = tags
column-Tagged flat n v i (var ∷ vars) j ws at tags = added (var == v) (same_number var v) (
    column-Tagged flat n v i vars (suc j) ws
      (λ k u found. ap (get_elem? flat) (omega arith) ∙ at (suc k) u found) tags)
  where
    added :
        (b : Bool)
        → (b ≡ true → var ≡ v)
        → Tagged flat n v (column_wires v i vars (suc j) ++ ws)
        → Tagged flat n v (add_if b (i, j) (column_wires v i vars (suc j)) ++ ws)
    added true same rest =
        (ap (get_elem? flat) (omega arith) ∙ at 0 var refl ∙ ap some (same refl), rest)
    added false same rest = rest

wires_of-Tagged :
    (flat : List ℕ) (n m v : ℕ) (cols : List (List ℕ)) (i : ℕ)
    → ((k u : ℕ) → get_elem? (joined cols) k ≡ some u → get_elem? flat (i * n + k) ≡ some u)
    → AreColumns n m cols
    → Tagged flat n v (wires_of v i cols)
wires_of-Tagged flat n m v [] i at are = tt
wires_of-Tagged flat n m v (vars ∷ rest) i at (size, below, are) =
    column-Tagged flat n v i vars 0 (wires_of v (suc i) rest)
      (λ k u found.
        ap (get_elem? flat) (omega arith) ∙ at k u (get_elem?-append vars (joined rest) k found))
      (wires_of-Tagged flat n m v rest (suc i)
        (λ k u found.
          ap (get_elem? flat) (next_place k)
          ∙ at (length vars + k) u (get_elem?-append_right vars (joined rest) _ k refl ∙ found))
        are)
  where
    next_place : (k : ℕ) → suc i * n + k ≡ i * n + (length vars + k)
    next_place k = grind (arith, size)

Sorted-each :
    (flat : List ℕ) (n v : ℕ) (lists : List (List Wire))
    → ((k : ℕ) (ws : List Wire)
        → get_elem? lists k ≡ some ws
        → Ascending n 0 ws × Tagged flat n (v + k) ws)
    → Sorted flat n v lists
Sorted-each flat n v [] h = tt
Sorted-each flat n v (ws ∷ lists) h =
    let (asc, tags) = h 0 ws refl in
    (
      asc,
      subst (λ u. Tagged flat n u ws) (omega arith) tags,
      Sorted-each flat n (suc v) lists (λ k xs at.
          let (asc', tags') = h (suc k) xs at in
          (asc', subst (λ u. Tagged flat n u xs) (omega arith) tags')),
    )

get_elem?-replicate : (m v : ℕ) → v < m → get_elem? (replicate {A = List Wire} m []) v ≡ some []
get_elem?-replicate zero v h = absurd (omega arith)
get_elem?-replicate (suc m) zero h = refl
get_elem?-replicate (suc m) (suc v) h = get_elem?-replicate m v (omega arith)

record LinksColumns (n m : ℕ) (cols : List (List ℕ)) (start : List Wire) : Type 0 where
  perm : List Wire
  runs :
      bind_outcome (map_columns cols 0 (replicate m [])) (λ wires. link_variables n wires start)
      ≡ returned perm
  counted : length perm ≡ length start
  cycles : (v : ℕ) → v < m → HasCycle n perm (wires_of v 0 cols)

links_columns :
    (n m : ℕ) (cols : List (List ℕ)) (start : List Wire)
    → length start ≡ length cols * n
    → AreColumns n m cols
    → LinksColumns n m cols start
links_columns n m cols start l are =
    let p = map_columns-Collects n cols 0 m (replicate m []) (length-replicate m []) are in
    let has = λ (v : ℕ) (h : v < m). p.gains v [] (get_elem?-replicate m v h) in
    let sorted = Sorted-each (joined cols) n 0 p.after λ v ws at.
      let start_at : 0 + v ≡ v = omega arith in
      let same : wires_of (0 + v) 0 cols ≡ ws = some-injective (
        ap (λ u. some (wires_of u 0 cols)) start_at
        ∙ sym (
            has v (
              omega (
                arith,
                get_elem?-lt p.after v at,
                p.counted,
                length-replicate {A = List Wire} m [],
              )))
        ∙ at) in
      subst (λ xs. Ascending n 0 xs × Tagged (joined cols) n (0 + v) xs) same
        (
          wires_of-Ascending n m (0 + v) cols 0 0 (omega arith) are,
          wires_of-Tagged (joined cols) n m (0 + v) cols 0
              (λ k u found. ap (get_elem? (joined cols)) (omega arith) ∙ found) are,
        ) in
    let q =
      link_variables-Links (joined cols) n 0 p.after start (l ∙ sym (length-joined n m cols are))
        sorted in
    record {
      perm = q.after;
      runs = ap (λ o. bind_outcome o λ wires. link_variables n wires start) p.runs ∙ q.runs;
      counted = q.counted;
      cycles = λ v h. AllCycles-at n q.after p.after v q.cycles (has v h);
    }

-- A size that is not 1 passes the assertion.
not_one : (n : ℕ) → n ≢ 1 → not (not (n == 1)) ≡ false
not_one n h = ground arith

module _ {F : Type 0} where
  if_finalized :
      (c : PlonkCircuit F) (o : Outcome (List Wire))
      → c.eval_domain ≢ 1
      → (if not (is_finalized c) then panicked else o) ≡ o
  if_finalized c o h = ap (λ b. if b then panicked else o) (not_one c.eval_domain h)

  -- The operation gives the circuit a permutation with an entry for each wire of the domain, in which
  -- the wires of each variable are one cycle; it changes nothing else.
  pub record Permutes (cols : List (List ℕ)) (c : PlonkCircuit F) : Type 0 where
    pub perm : List Wire
    pub runs : compute_wire_permutation c ≡ (returned tt, record c { wire_permutation = perm })
    pub counted : length perm ≡ c.num_wire_types * c.eval_domain
    pub cycles : (v : ℕ) → v < c.num_vars → HasCycle c.eval_domain perm (wires_of v 0 cols)

  -- On a finalized circuit whose vectors of wires, one for each wire type, have an entry for each gate
  -- of the domain and only variables the circuit has, `compute_wire_permutation` returns without a
  -- panic; the permutation has an entry for each wire, and in it the wires of each variable, by their
  -- types and then by their gates, are one cycle: each goes to the next, and the last to the first.
  pub compute_wire_permutation-Permutes :
      (c : PlonkCircuit F)
      → c.eval_domain ≢ 1
      → length (columns c.num_wire_types c.wire_variables) ≡ c.num_wire_types
      → AreColumns c.eval_domain c.num_vars (columns c.num_wire_types c.wire_variables)
      → Permutes (columns c.num_wire_types c.wire_variables) c
  unfolding compute_wire_permutation
  compute_wire_permutation-Permutes c final types are =
      let cols = columns c.num_wire_types c.wire_variables in
      let size = length-replicate (c.num_wire_types * c.eval_domain) (0, 0) in
      let r =
        links_columns c.eval_domain c.num_vars cols
          (replicate (c.num_wire_types * c.eval_domain) (0, 0))
          (size ∙ ap (λ t. t * c.eval_domain) (sym types)) are in
      record {
        perm = r.perm;
        runs = returned-then _ _ (ap (λ o. (o, c)) (if_finalized c _ final ∙ r.runs)) refl;
        counted = r.counted ∙ size;
        cycles = r.cycles;
      }
