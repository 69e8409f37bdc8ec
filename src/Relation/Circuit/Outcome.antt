-- ===== src/Relation/Circuit/Outcome.antt =====
-- Results and state of the circuit's methods: `Result<T, CircuitError>` (relation/src/errors.rs)
-- with a third outcome for a panic, in a monad that hands on the state after an error too, since
-- `&mut self` keeps what was written before the error.
use jellyfish.Prelude.{ℕ, ◌≡◌, ◌∙◌, ap, refl, Option, none, some, if◌then◌else◌, Bool}
use Prim.Native.String.{String}

-- The text of a failed gate check is a debug print and is left out.
pub data CircuitError : Type 0 where
  domain_creation_error : CircuitError
  var_index_out_of_bound : ℕ → ℕ → CircuitError
  pub_input_len_mismatch : ℕ → ℕ → CircuitError
  gate_check_failure : ℕ → CircuitError
  parameter_error : String → CircuitError
  unfinalized_circuit : CircuitError
  modify_finalized_circuit : CircuitError
  wrong_plonk_type : CircuitError
  lookup_unsupported : CircuitError
  index_error : CircuitError
  field_algebra_error : String → CircuitError
  unsupported_curve : CircuitError
  internal_error : String → CircuitError
  not_supported : String → CircuitError

pub data Outcome (A : Type 0) : Type 0 where
  returned : A → Outcome A
  failed : CircuitError → Outcome A
  panicked : Outcome A

abbrev pub Action : Type 0 → Type 0 → Type 0
Action S A = S → Outcome A × S

module _ {S A : Type 0} where
  abbrev pub pure : A → Action S A
  pure a s = (returned a, s)

  abbrev pub fail : CircuitError → Action S A
  fail e s = (failed e, s)

  -- What reads the state only.
  abbrev pub inspect : (S → Outcome A) → Action S A
  inspect f s = (f s, s)

abbrev pub from_option : {A : Type 0} → Option A → Outcome A
from_option none = panicked
from_option (some a) = returned a

abbrev pub after : {S A B : Type 0} → (A → Action S B) → Outcome A × S → Outcome B × S
after k (returned a, s) = k a s
after k (failed e, s) = (failed e, s)
after k (panicked, s) = (panicked, s)

-- The `?` operator.
infixl 5 ◌>>=◌ ◌>>◌
unfoldable pub ◌>>=◌ : {S A B : Type 0} → Action S A → (A → Action S B) → Action S B
◌>>=◌ m k s = after k (m s)

abbrev pub ◌>>◌ : {S B : Type 0} → Action S (Unit {0}) → Action S B → Action S B
m >> k = m >>= λ _. k

-- `?` on a result that reads no state.
abbrev pub bind_outcome : {A B : Type 0} → Outcome A → (A → Outcome B) → Outcome B
bind_outcome (returned a) k = k a
bind_outcome (failed e) k = failed e
bind_outcome panicked k = panicked

abbrev pub modify : {S : Type 0} → (S → S) → Action S (Unit {0})
modify f s = (returned tt, f s)

abbrev pub fail_if : {S : Type 0} → Bool → CircuitError → Action S (Unit {0})
fail_if b e s = (if b then failed e else returned tt, s)

-- `unwrap`: an error is a panic.
abbrev pub unwrapped : {S A : Type 0} → Outcome A × S → Outcome A × S
unwrapped (returned a, s) = (returned a, s)
unwrapped (failed e, s) = (panicked, s)
unwrapped (panicked, s) = (panicked, s)

abbrev pub unwrap : {S A : Type 0} → Action S A → Action S A
unwrap m s = unwrapped (m s)

bind-after :
    {S A B : Type 0} (m : Action S A) (k : A → Action S B) (s : S) → (m >>= k) s ≡ after k (m s)
unfolding ◌>>=◌
bind-after m k s = refl

-- A step of a `do` block that returns, fails or panics.
module _ {S A B : Type 0} (m : Action S A) (k : A → Action S B) where
  pub returned-then :
      {s s' : S} {a : A} {r : Outcome B × S} → m s ≡ (returned a, s') → k a s' ≡ r → (m >>= k) s ≡ r
  returned-then first rest = bind-after m k _ ∙ ap (after k) first ∙ rest

  pub failed-then :
      {s s' : S} {e : CircuitError} → m s ≡ (failed e, s') → (m >>= k) s ≡ (failed e, s')
  failed-then first = bind-after m k _ ∙ ap (after k) first

after->>= :
    {S A B C : Type 0} (m : Outcome A × S) (k : A → Action S B) (l : B → Action S C)
    → after l (after k m) ≡ after (λ a. k a >>= l) m
unfolding ◌>>=◌
after->>= (returned a, s) k l = refl
after->>= (failed e, s) k l = refl
after->>= (panicked, s) k l = refl

pub >>=_assoc :
    {S A B C : Type 0} (m : Action S A) (k : A → Action S B) (l : B → Action S C) (s : S)
    → ((m >>= k) >>= l) s ≡ (m >>= λ a. k a >>= l) s
unfolding ◌>>=◌
>>=_assoc m k l s = after->>= (m s) k l
