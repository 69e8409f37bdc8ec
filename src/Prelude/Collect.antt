-- ===== src/Prelude/Collect.antt =====
-- Iterators as a step function on their state, and what `collect` gathers from one.
use Prim.Native.Nat.{ℕ, zero, suc, ◌<◌}
use mathlib.Core.Path.{◌≡◌, refl, ap, ◌∙◌}
use mathlib.Core.List.{List, [], ◌∷◌}
use mathlib.Core.Option.{Option, none, some}
use native.Mathlib.Omega.{arith}
use jellyfish.Prelude.Lists.{length}

module _ {ℓ} {A : Type ℓ} where
  abbrev pub head? : List A → Option A
  head? [] = none
  head? (x ∷ xs) = some x

  abbrev pub tail : List A → List A
  tail [] = []
  tail (x ∷ xs) = xs

-- What `collect` gathers from an iterator's `next`, in as many calls as the fuel says.
unfoldable pub collect_with : {A S : Type 0} → (S → Option A × S) → ℕ → S → List A
collect_with step zero it = []
collect_with step (suc fuel) it =
    let (item, rest) = step it in
    let items = collect_with step fuel rest in elim item [ none ↦ [] | some x ↦ x ∷ items ]

pub collect_with-none :
    {A S : Type 0} (step : S → Option A × S) (fuel : ℕ) (s : S)
    → (step s).0 ≡ none
    → collect_with step fuel s ≡ []
unfolding collect_with
collect_with-none step zero s e = refl
collect_with-none step (suc fuel) s e = rw (collect_with, e)

pub collect_with-some :
    {A S : Type 0} (step : S → Option A × S) (fuel : ℕ) (s : S) {x : A}
    → (step s).0 ≡ some x
    → collect_with step (suc fuel) s ≡ x ∷ collect_with step fuel (step s).1
unfolding collect_with
collect_with-some step fuel s e = rw (collect_with, e)

-- An iterator that hands out what its state holds, one item at a call, gives all of it; `P` is what
-- its calls keep of the state.
module _ {A S : Type 0} (step : S → Option A × S) (content : S → List A) (P : S → Type 0)
    (takes : (s : S)
      → P s
      → ((step s).0 ≡ head? (content s))
        × (content (step s).1 ≡ tail (content s))
        × P (step s).1) where
  pub collect_with-content :
      (fuel : ℕ) (s : S) (xs : List A)
      → P s
      → content s ≡ xs
      → length xs < fuel
      → collect_with step fuel s ≡ xs
  collect_with-content zero s xs p e l = absurd (omega arith)
  collect_with-content (suc fuel) s [] p e l =
      let (item, rest, kept) = takes s p in collect_with-none step (suc fuel) s (item ∙ ap head? e)
  collect_with-content (suc fuel) s (x ∷ xs) p e l =
      let (item, rest, kept) = takes s p in
      collect_with-some step fuel s (item ∙ ap head? e)
      ∙ ap (◌∷◌ x) (collect_with-content fuel (step s).1 xs kept (rest ∙ ap tail e) (omega arith))
