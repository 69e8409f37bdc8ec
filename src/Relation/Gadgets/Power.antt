-- ===== src/Relation/Gadgets/Power.antt =====
-- What the powers of relation/src/gadgets/arithmetic.rs compute and ask for.
use mathlib.Core.Path.{subst, fun_ext}
use jellyfish.Prelude.{ℕ, zero, suc, ◌+◌, ◌<◌, ◌≡◌, ◌∙◌, refl, sym, ap, arith}
use jellyfish.Relation.Gates.{Field, ◌⊗◌}
use jellyfish.Relation.Gates.Meaning.{IsField, IsCommutative, IsPower, fifth_root_gate-Computes}
use jellyfish.Relation.Circuit.Outcome.{returned-then, ◌>>=◌}
use jellyfish.Relation.Circuit.State.{PlonkCircuit, with_variable}
use jellyfish.Relation.Circuit.Operations.{mul, mul_gate}
use jellyfish.Relation.Circuit.Model.{IsOpen}
use jellyfish.Relation.Circuit.Grows.{Grows-IsOpen, Grows-num_vars}
use jellyfish.Relation.Circuit.Effects.{create_variable-open, witness-open, insert_gate-open}
use jellyfish.Relation.Circuit.Realises.{Realises, Asserts}
use jellyfish.Relation.Circuit.Computes.{Realises-output, mul-Realises, mul_gate-Asserts, zero_in}
use jellyfish.Relation.Circuit.Compose.{
  Realises-then, Realises-then-Asserts, Realises-checked, Asserts-checked,
}
use jellyfish.Relation.Gadgets.Arithmetic.{fifth_power, power_11_gen, power_11_gate}

module _ {F : Type 0} ⦃f : Field F⦄ where
  abbrev eleventh : F → F
  eleventh v = f.pow v 5 ⊗ f.pow v 5 ⊗ v

module _ {F : Type 0} ⦃f : Field F⦄ ⦃law : IsField f⦄ ⦃comm : IsCommutative f⦄
    ⦃power : IsPower f⦄ where
  pow-twice : (v : F) (n : ℕ) (m : ℕ) → f.pow v n ⊗ f.pow v m ≡ f.pow v (m + n)
  pow-twice v n zero =
      ap (λ y. f.pow v n ⊗ y) (power.pow_zero v)
      ∙ comm.mul_comm (f.pow v n) f.one
      ∙ law.one_mul (f.pow v n)
      ∙ ap (f.pow v) (omega arith)
  pow-twice v n (suc m) =
      ap (λ y. f.pow v n ⊗ y) (power.pow_suc v m)
      ∙ sym (comm.mul_assoc (f.pow v n) (f.pow v m) v)
      ∙ ap (λ y. y ⊗ v) (pow-twice v n m)
      ∙ sym (power.pow_suc v (m + n))
      ∙ ap (f.pow v) (omega arith)

  -- Two fifth powers and the value make the 11th power.
  pow_11 : (v : F) → f.pow v 11 ≡ eleventh v
  pow_11 v = power.pow_suc v 10 ∙ ap (λ y. y ⊗ v) (sym (pow-twice v 5 5))

module _ {F : Type 0} ⦃f : Field F⦄ ⦃law : IsField f⦄ (c : PlonkCircuit F) (o : IsOpen c) (x : ℕ)
    (x_in : x < c.num_vars) where
  fifth_power-Realises : Realises (fifth_power x) (λ w. f.pow (w x) 5) c
  fifth_power-Realises =
      Realises-output c o (fifth_power x) _ (λ a _ _ _. f.pow a 5) _ x 0 0 0
        (x_in, zero_in c o, zero_in c o, zero_in c o) fifth_root_gate-Computes refl
        (returned-then _ _ (witness-open c x o x_in) (
          returned-then _ _ (create_variable-open c _ o.open_domain)
            (returned-then _ _ (insert_gate-open (with_variable _ c) _ _ o.open_domain) refl)))

  -- The square of a variable times another.
  square_times :
      (y : ℕ) → y < c.num_vars → Realises (mul y y >>= λ z. mul z x) (λ w. w y ⊗ w y ⊗ w x) c
  square_times y y_in =
      let p = mul-Realises c o y y y_in y_in in
      Realises-then (mul y y) (λ w. w y ⊗ w y) c o p (λ w w' agree. rw (agree y y_in))
        (λ z. mul z x) (λ w. w p.result ⊗ w x) (λ w. w y ⊗ w y ⊗ w x)
        (λ w w' agree. rw (agree y y_in, agree x x_in)) (λ w pinned e. ap (λ v. v ⊗ w x) e)
        (mul-Realises p.after (Grows-IsOpen p.grows o) p.result x p.below
          (omega (arith, Grows-num_vars p.grows)))

  square_times_gate :
      (y z : ℕ)
      → y < c.num_vars
      → z < c.num_vars
      → Asserts (mul y y >>= λ v. mul_gate v x z) (λ w. w y ⊗ w y ⊗ w x ≡ w z) c
  square_times_gate y z y_in z_in =
      let p = mul-Realises c o y y y_in y_in in
      Realises-then-Asserts (mul y y) (λ w. w y ⊗ w y) c o p (λ w w' agree. rw (agree y y_in))
        (λ v. mul_gate v x z) (λ w. w p.result ⊗ w x ≡ w z) (λ w. w y ⊗ w y ⊗ w x ≡ w z)
        (λ w w' agree e. rw (← agree y y_in, ← agree x x_in, ← agree z z_in) e)
        (λ w pinned e holds. ap (λ v. v ⊗ w x) (sym e) ∙ holds)
        (λ w pinned e holds. ap (λ v. v ⊗ w x) e ∙ holds)
        (mul_gate-Asserts p.after (Grows-IsOpen p.grows o) p.result x p.below
          (omega (arith, Grows-num_vars p.grows)) z (omega (arith, Grows-num_vars p.grows)))

module _ {F : Type 0} ⦃f : Field F⦄ ⦃law : IsField f⦄ (c : PlonkCircuit F) (o : IsOpen c) (x : ℕ)
    (x_in : x < c.num_vars) where
  power_11_gen-Realises : Realises (power_11_gen x) (λ w. eleventh (w x)) c
  unfolding power_11_gen
  power_11_gen-Realises =
      let p = fifth_power-Realises c o x x_in in
      Realises-checked c x _ _ x_in (
        Realises-then (fifth_power x) (λ w. f.pow (w x) 5) c o p (λ w w' agree. rw (agree x x_in))
          (λ y. mul y y >>= λ z. mul z x) (λ w. w p.result ⊗ w p.result ⊗ w x) (λ w. eleventh (w x))
          (λ w w' agree. rw (agree x x_in)) (λ w pinned e. ap (λ v. v ⊗ v ⊗ w x) e)
          (square_times p.after (Grows-IsOpen p.grows o) x (omega (arith, Grows-num_vars p.grows))
            p.result p.below))

  power_11_gate-Asserts :
      (z : ℕ) → z < c.num_vars → Asserts (power_11_gate x z) (λ w. eleventh (w x) ≡ w z) c
  unfolding power_11_gate
  power_11_gate-Asserts z z_in =
      let p = fifth_power-Realises c o x x_in in
      Asserts-checked c x _ _ x_in (
        Asserts-checked c z _ _ z_in (
          Realises-then-Asserts (fifth_power x) (λ w. f.pow (w x) 5) c o p
            (λ w w' agree. rw (agree x x_in)) (λ y. mul y y >>= λ v. mul_gate v x z)
            (λ w. w p.result ⊗ w p.result ⊗ w x ≡ w z) (λ w. eleventh (w x) ≡ w z)
            (λ w w' agree e. rw (← agree x x_in, ← agree z z_in) e)
            (λ w pinned e holds. ap (λ v. v ⊗ v ⊗ w x) (sym e) ∙ holds)
            (λ w pinned e holds. ap (λ v. v ⊗ v ⊗ w x) e ∙ holds)
            (square_times_gate p.after (Grows-IsOpen p.grows o) x
              (omega (arith, Grows-num_vars p.grows)) p.result z p.below
              (omega (arith, Grows-num_vars p.grows)))))

module _ {F : Type 0} ⦃f : Field F⦄ ⦃law : IsField f⦄ ⦃comm : IsCommutative f⦄ ⦃power : IsPower f⦄
    (c : PlonkCircuit F) (o : IsOpen c) (x : ℕ) (x_in : x < c.num_vars) where
  -- On an open circuit and its variables, over a field whose powers are repeated products,
  -- `power_11_gen` returns a variable with the 11th power of the value, and `power_11_gate` asks a
  -- variable to have it; a satisfied circuit stays satisfied, for the gate where the values are so
  -- related, and whatever assignment satisfies the gates relates them so.
  pub power_11-Realises :
      (z : ℕ)
      → z < c.num_vars
      → Realises (power_11_gen x) (λ w. f.pow (w x) 11) c
        × Asserts (power_11_gate x z) (λ w. f.pow (w x) 11 ≡ w z) c
  power_11-Realises z z_in =
      let same = fun_ext (λ (w : ℕ → F). sym (pow_11 (w x))) in
      (
        subst (λ out. Realises (power_11_gen x) out c) same (power_11_gen-Realises c o x x_in),
        subst (λ out. Asserts (power_11_gate x z) (λ w. out w ≡ w z) c) same
            (power_11_gate-Asserts c o x x_in z z_in),
      )
