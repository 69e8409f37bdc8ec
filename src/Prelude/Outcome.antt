-- ===== src/Prelude/Outcome.antt =====
-- Results of fallible code: `Result<T, PrimitivesError>` (primitives/src/errors.rs), with a third
-- outcome for a panic (an index out of bounds, an arithmetic underflow).
use mathlib.Core.Path.{◌≡◌, refl, ap}
use mathlib.Core.Logic.{◌≢◌, ◌⊎◌, inl, inr}
use mathlib.Core.Option.{Option, none, some}
use Prim.Native.String.{String}

-- The variants that the modelled code builds; the message is the source's literal.
pub data PrimitivesError : Type 0 where
  parameter_error : String → PrimitivesError
  internal_error : String → PrimitivesError

pub data Result {ℓ} (A : Type ℓ) : Type ℓ where
  ok : A → Result A
  err : PrimitivesError → Result A
  panic : Result A

-- The `?` operator, and a result whose value is dropped.
infixl 5 ◌>>=◌ ◌>>◌
abbrev pub ◌>>=◌ {κ ℓ} : {X : Type κ} {Y : Type ℓ} → Result X → (X → Result Y) → Result Y
panic >>= next = panic
err why >>= next = err why
ok x >>= next = next x

abbrev pub ◌>>◌ {ℓ} : {Y : Type ℓ} → Result (Unit {0}) → Result Y → Result Y
first >> second = first >>= λ _. second

-- An index expression `xs[i]`: out of bounds is a panic.
abbrev pub or_panic {ℓ} : {A : Type ℓ} → Option A → Result A
or_panic none = panic
or_panic (some a) = ok a

-- Where `m?` and what follows it return, so did `m`.
pub >>=-eq-ok {κ ℓ} :
    {X : Type κ} {Y : Type ℓ} (m : Result X) (next : X → Result Y) {y : Y}
    → (m >>= next) ≡ ok y
    → (x : X) × (m ≡ ok x) × (next x ≡ ok y)
>>=-eq-ok panic next returned = cc
>>=-eq-ok (err why) next returned = cc
>>=-eq-ok (ok x) next returned = (x, refl, returned)

pub ok-injective {ℓ} : {A : Type ℓ} {a b : A} → ok a ≡ ok b → a ≡ b
ok-injective h = cc

pub or_panic-eq-ok {ℓ} : {A : Type ℓ} (o : Option A) {a : A} → or_panic o ≡ ok a → o ≡ some a
or_panic-eq-ok none h = cc
or_panic-eq-ok (some b) h = ap some (ok-injective h)

-- To split on a computed result and keep the equation.
pub Result-cases {ℓ} :
    {A : Type ℓ} (r : Result A)
    → ((a : A) × (r ≡ ok a)) ⊎ ((e : PrimitivesError) × (r ≡ err e)) ⊎ (r ≡ panic)
Result-cases (ok a) = inl (a, refl)
Result-cases (err e) = inr (inl (e, refl))
Result-cases panic = inr (inr refl)

pub panic≢ok {ℓ} : {A : Type ℓ} {a : A} → panic ≢ ok a
panic≢ok e = cc
