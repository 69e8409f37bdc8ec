-- ===== src/Merkle/Path/Digits.antt =====
-- The traversal path of an index as its digits in base `arity`, the least significant first
-- (primitives/src/merkle_tree/macros.rs).
use mathlib.Core.List.{append_assoc, append-nil}
use mathlib.Core.Option.{some-injective}
use native.Mathlib.Decide.{ℕ_discrete}
use native.Mathlib.Nat.{mod-lt, mod-add-div, pow-zero, pow-suc, div-lt_iff_lt-mul, add-mul-div_left}
use jellyfish.Prelude.{
  ℕ, zero, suc, ◌+◌, ◌*◌, ◌/◌, ◌%◌, ◌^◌, ◌≤◌, ◌<◌, ◌≡◌, refl, ap, sym, ◌∙◌, ◌≢◌, ◌⊎◌, inl, inr,
  some, List, [], ◌∷◌, ◌++◌, get_elem?, arith,
}
use jellyfish.Merkle.Path.{push_digits, to_traversal_path_primitives}
use jellyfish.Merkle.Valid.{IsPath, Apart}

pub digits : ℕ → ℕ → ℕ → List ℕ
digits arity zero p = []
digits arity (suc height) p = (p % arity) ∷ digits arity height (p / arity)

-- The digit of weight `arity ^ k`.
pub digit : ℕ → ℕ → ℕ → ℕ
digit arity p zero = p % arity
digit arity p (suc k) = digit arity (p / arity) k

push_digits-eq-append :
    (arity height p : ℕ) (ret : List ℕ)
    → push_digits arity height p ret ≡ ret ++ digits arity height p
unfolding push_digits digits
push_digits-eq-append arity zero p ret = sym (append-nil ret)
push_digits-eq-append arity (suc height) p ret =
    push_digits-eq-append arity height (p / arity) (ret ++ (p % arity) ∷ [])
    ∙ append_assoc ret ((p % arity) ∷ []) (digits arity height (p / arity))

pub path-digits :
    (arity p height : ℕ) → to_traversal_path_primitives arity p height ≡ digits arity height p
unfolding to_traversal_path_primitives
path-digits arity p height = push_digits-eq-append arity height p []

get_elem?-digits :
    (arity height p k : ℕ)
    → k < height
    → get_elem? (digits arity height p) k ≡ some (digit arity p k)
unfolding digits digit
get_elem?-digits arity zero p k h = absurd (omega arith)
get_elem?-digits arity (suc height) p zero h = refl
get_elem?-digits arity (suc height) p (suc k) h =
    get_elem?-digits arity height (p / arity) k (omega arith)

digit-lt : (arity p k : ℕ) → 0 < arity → digit arity p k < arity
unfolding digit
digit-lt arity p zero h = mod-lt p h
digit-lt arity p (suc k) h = digit-lt arity (p / arity) k h

digits-IsPath_below :
    (arity height p k : ℕ) → 0 < arity → k ≤ height → IsPath arity k (digits arity height p)
digits-IsPath_below arity height p zero h le = tt
digits-IsPath_below arity height p (suc k) h le = (
  (digit arity p k, get_elem?-digits arity height p k (omega arith), digit-lt arity p k h),
  digits-IsPath_below arity height p k h (omega arith),
)

-- A path has a digit below the arity at each height.
pub to_traversal_path_primitives-IsPath :
    (arity p height : ℕ)
    → 0 < arity
    → IsPath arity height (to_traversal_path_primitives arity p height)
to_traversal_path_primitives-IsPath arity p height h =
    rw (path-digits arity p height) (digits-IsPath_below arity height p height h (omega arith))

eq_of_digits :
    (arity height p q : ℕ)
    → 0 < arity
    → p < arity ^ height
    → q < arity ^ height
    → ((k : ℕ) → k < height → digit arity p k ≡ digit arity q k)
    → p ≡ q
unfolding digit
eq_of_digits arity zero p q h lp lq same = omega (arith, pow-zero arity)
eq_of_digits arity (suc height) p q h lp lq same =
    let high : p / arity ≡ q / arity =
      eq_of_digits arity height (p / arity) (q / arity) h
        ((div-lt_iff_lt-mul h).1 (rw (← pow-suc arity height) lp))
        ((div-lt_iff_lt-mul h).1 (rw (← pow-suc arity height) lq))
        (λ k lt. same (suc k) (omega arith)) in
    omega (
      arith,
      mod-add-div p arity,
      mod-add-div q arity,
      same 0 (omega arith),
      ap (λ (x : ℕ). arity * x) high,
    )

part_or_agree :
    (arity height p q k : ℕ)
    → k ≤ height
    → Apart k (digits arity height p) (digits arity height q)
      ⊎ ((j : ℕ) → j < k → digit arity p j ≡ digit arity q j)
part_or_agree arity height p q zero le = inr (λ j lt. absurd (omega arith))
part_or_agree arity height p q (suc k) le =
    let at = get_elem?-digits arity height p k (omega arith) in
    let at' = get_elem?-digits arity height q k (omega arith) in
    elim (ℕ_discrete (digit arity p k) (digit arity q k)) [
      | no differ ↦ inl (inl (λ e. differ (some-injective _ _ (sym at ∙ e ∙ at'))))
      | yes same ↦ elim (part_or_agree arity height p q k (omega arith)) [
        | inl deeper ↦ inl (inr (at ∙ ap some same ∙ sym at', deeper))
        | inr below ↦ inr (all_below k same below)
      ]
    ]
  where
    all_below :
        (k : ℕ)
        → digit arity p k ≡ digit arity q k
        → ((j : ℕ) → j < k → digit arity p j ≡ digit arity q j)
        → (j : ℕ) → j < suc k
        → digit arity p j ≡ digit arity q j
    all_below k same below j lt = elim (ℕ_discrete j k) [
      | yes e ↦ rw e same
      | no ne ↦ below j (omega arith)
    ]

-- Distinct indices below the capacity have paths that part.
pub path-Apart :
    (arity height p q : ℕ)
    → 0 < arity
    → p < arity ^ height
    → q < arity ^ height
    → p ≢ q
    → Apart height
        (to_traversal_path_primitives arity p height)
        (to_traversal_path_primitives arity q height)
path-Apart arity height p q h lp lq ne =
    rw (path-digits arity p height, path-digits arity q height)
      (elim (part_or_agree arity height p q height (omega arith)) [
        | inl apart ↦ apart
        | inr same ↦ absurd (ne (eq_of_digits arity height p q h lp lq same))
      ])

digits_wrap :
    (arity height p m : ℕ)
    → 0 < arity
    → digits arity height (p + arity ^ height * m) ≡ digits arity height p
unfolding digits
digits_wrap arity zero p m h = refl
digits_wrap arity (suc height) p m h =
    let more : ℕ = arity ^ height * m in
    let shift : arity ^ suc height * m ≡ arity * more =
      omega (arith, ap (λ (t : ℕ). t * m) (pow-suc arity height)) in
    let quotient = add-mul-div_left p more h in
    let remainder : (p + arity * more) % arity ≡ p % arity = omega (
      arith,
      mod-add-div (p + arity * more) arity,
      mod-add-div p arity,
      ap (λ (t : ℕ). arity * t) quotient,
    ) in
    rw (shift, remainder, quotient)
      (ap (◌∷◌ (p % arity)) (digits_wrap arity height (p / arity) m h))

-- An index and the same index past the capacity have one path.
pub path_wraps :
    (arity height p m : ℕ)
    → 0 < arity
    → to_traversal_path_primitives arity (p + arity ^ height * m) height
      ≡ to_traversal_path_primitives arity p height
path_wraps arity height p m h =
    path-digits arity (p + arity ^ height * m) height
    ∙ digits_wrap arity height p m h
    ∙ sym (path-digits arity p height)
