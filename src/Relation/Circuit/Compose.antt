-- ===== src/Relation/Circuit/Compose.antt =====
-- Promises of operations that call others.
use jellyfish.Prelude.{ℕ, ◌<◌, ◌≡◌, ◌∙◌, refl, sym, arith}
use jellyfish.Relation.Gates.{Field}
use jellyfish.Relation.Circuit.Outcome.{returned, ◌>>=◌, ◌>>◌, returned-then}
use jellyfish.Relation.Circuit.State.{PlonkCircuit, assigned}
use jellyfish.Relation.Circuit.Operations.{Op, check_var_bound}
use jellyfish.Relation.Circuit.Model.{IsPinned, IsOpen}
use jellyfish.Relation.Circuit.Grows.{
  Grows, Grows-then, Grows-IsOpen, Grows-Satisfies, Grows-num_vars, Grows-assigned,
}
use jellyfish.Relation.Circuit.Arithmetic.{checked-then}
use jellyfish.Relation.Circuit.Agreement.{IsSatisfied}
use jellyfish.Relation.Circuit.Realises.{IsLocal, IsLocalRelation, Realises, Asserts}

module _ {F : Type 0} ⦃f : Field F⦄ where
  module _ (m : Op F ℕ) (first : (ℕ → F) → F) (c : PlonkCircuit F) (o : IsOpen c)
      (p : Realises m first c) (local : IsLocal c.num_vars first) where
    -- The result has the value that the first function has on the values there are now.
    pub computes-after : assigned p.after p.result ≡ first (assigned p.after)
    computes-after = p.computes ∙ local _ _ (λ i below. sym (Grows-assigned p.grows o i below))

    IsPinned-after : IsPinned (assigned p.after)
    IsPinned-after = ((Grows-IsOpen p.grows o).zero_value, (Grows-IsOpen p.grows o).one_value)

    -- An operation that goes on with the result: its function is told by the result's value.
    pub Realises-then :
        (k : ℕ → Op F ℕ) (second out : (ℕ → F) → F)
        → IsLocal c.num_vars out
        → ((w : ℕ → F) → IsPinned w → w p.result ≡ first w → second w ≡ out w)
        → Realises (k p.result) second p.after
        → Realises (m >>= k) out c
    Realises-then k second out out-local link q = record {
      result = q.result;
      after = q.after;
      runs = returned-then _ _ p.runs q.runs;
      grows = Grows-then p.grows q.grows;
      below = q.below;
      computes =
          q.computes
          ∙ link (assigned p.after) IsPinned-after computes-after
          ∙ out-local _ _ (Grows-assigned p.grows o);
      complete = λ sat. q.complete (p.complete sat);
      sound = λ w sat.
          q.sound w sat
          ∙ (let before = Grows-Satisfies q.grows (Grows-IsOpen p.grows o) w sat in
              link w ((Grows-IsOpen p.grows o).pinned w before) (p.sound w before));
    }

    pub Realises-then-Asserts :
        (k : ℕ → Op F (Unit {0})) (second R : (ℕ → F) → Type 0)
        → IsLocalRelation c.num_vars R
        → ((w : ℕ → F) → IsPinned w → w p.result ≡ first w → second w → R w)
        → ((w : ℕ → F) → IsPinned w → w p.result ≡ first w → R w → second w)
        → Asserts (k p.result) second p.after
        → Asserts (m >>= k) R c
    Realises-then-Asserts k second R R-local to from q = record {
      after = q.after;
      runs = returned-then _ _ p.runs q.runs;
      grows = Grows-then p.grows q.grows;
      complete = λ holds sat.
          q.complete
            (from (assigned p.after) IsPinned-after computes-after
              (R-local _ _ (λ i below. sym (Grows-assigned p.grows o i below)) holds))
            (p.complete sat);
      sound = λ w sat.
          let before = Grows-Satisfies q.grows (Grows-IsOpen p.grows o) w sat in
          to w ((Grows-IsOpen p.grows o).pinned w before) (p.sound w before) (q.sound w sat);
    }

  pub Asserts-both :
      (m n : Op F (Unit {0})) (R S : (ℕ → F) → Type 0) (c : PlonkCircuit F)
      → IsOpen c
      → IsLocalRelation c.num_vars S
      → (p : Asserts m R c) → Asserts n S p.after
      → Asserts (m >> n) (λ w. R w × S w) c
  Asserts-both m n R S c o local p q = record {
    after = q.after;
    runs = returned-then _ _ p.runs q.runs;
    grows = Grows-then p.grows q.grows;
    complete = λ holds sat.
        q.complete (local _ _ (λ i below. sym (Grows-assigned p.grows o i below)) holds.1)
          (p.complete holds.0 sat);
    sound = λ w sat.
        (p.sound w (Grows-Satisfies q.grows (Grows-IsOpen p.grows o) w sat), q.sound w sat);
  }

  -- A variable is chosen beforehand and then asked to be in a relation that determines it.
  pub Realises-chosen :
      (m : Op F ℕ) (k : Op F (Unit {0})) (out : (ℕ → F) → F) (R : (ℕ → F) → Type 0)
      (c d : PlonkCircuit F) (y : ℕ)
      → IsOpen c
      → Grows c d
      → (IsSatisfied c → IsSatisfied d)
      → (q : Asserts k R d) → R (assigned d)
      → y < d.num_vars
      → assigned d y ≡ out (assigned c)
      → ((w : ℕ → F) → IsPinned w → R w → w y ≡ out w)
      → m c ≡ (returned y, q.after)
      → Realises m out c
  Realises-chosen m k out R c d y o grows keeps q holds below chosen determined runs = record {
    result = y;
    after = q.after;
    runs = runs;
    grows = Grows-then grows q.grows;
    below = omega (arith, Grows-num_vars q.grows);
    computes = Grows-assigned q.grows (Grows-IsOpen grows o) y below ∙ chosen;
    complete = λ sat. q.complete holds (keeps sat);
    sound = λ w sat.
        determined w ((Grows-IsOpen (Grows-then grows q.grows) o).pinned w sat) (q.sound w sat);
  }

  pub Asserts-chosen :
      (m k : Op F (Unit {0})) (R S : (ℕ → F) → Type 0) (c d : PlonkCircuit F)
      → IsOpen c
      → Grows c d
      → (IsSatisfied c → IsSatisfied d)
      → Asserts k S d
      → (R (assigned c) → S (assigned d))
      → ((w : ℕ → F) → IsPinned w → S w → R w)
      → m c ≡ k d
      → Asserts m R c
  Asserts-chosen m k R S c d o grows keeps q to from runs = record {
    after = q.after;
    runs = runs ∙ q.runs;
    grows = Grows-then grows q.grows;
    complete = λ holds sat. q.complete (to holds) (keeps sat);
    sound =
        λ w sat. from w ((Grows-IsOpen (Grows-then grows q.grows) o).pinned w sat) (q.sound w sat);
  }

  -- An operation that runs as another on this circuit promises the same.
  pub Realises-same :
      (m m' : Op F ℕ) (out : (ℕ → F) → F) (c : PlonkCircuit F)
      → m c ≡ m' c
      → Realises m' out c
      → Realises m out c
  Realises-same m m' out c same p = record {
    result = p.result;
    after = p.after;
    runs = same ∙ p.runs;
    grows = p.grows;
    below = p.below;
    computes = p.computes;
    complete = p.complete;
    sound = p.sound;
  }

  pub Asserts-same :
      (m m' : Op F (Unit {0})) (R : (ℕ → F) → Type 0) (c : PlonkCircuit F)
      → m c ≡ m' c
      → Asserts m' R c
      → Asserts m R c
  Asserts-same m m' R c same p = record {
    after = p.after;
    runs = same ∙ p.runs;
    grows = p.grows;
    complete = p.complete;
    sound = p.sound;
  }

  pub Realises-checked :
      (c : PlonkCircuit F) (i : ℕ) (m : Op F ℕ) (out : (ℕ → F) → F)
      → i < c.num_vars
      → Realises m out c
      → Realises (check_var_bound i >> m) out c
  Realises-checked c i m out below p = Realises-same _ m out c (checked-then c i m below refl) p

  pub Asserts-checked :
      (c : PlonkCircuit F) (i : ℕ) (m : Op F (Unit {0})) (R : (ℕ → F) → Type 0)
      → i < c.num_vars
      → Asserts m R c
      → Asserts (check_var_bound i >> m) R c
  Asserts-checked c i m R below p = Asserts-same _ m R c (checked-then c i m below refl) p
