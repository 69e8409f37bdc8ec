-- ===== src/Merkle/Path.antt =====
-- `ToTraversalPath` (primitives/src/merkle_tree/mod.rs) and its implementations for integers
-- (primitives/src/merkle_tree/macros.rs). The two macros differ only in the width of the integer.
pub mod Digits
use jellyfish.Prelude.{ℕ, zero, suc, ◌/◌, ◌%◌, List, [], ◌∷◌, ◌++◌}

-- An index type: its conversion, its equality.
pub record ToTraversalPath (I : Type 0) : Type 0 where
  -- the arity, the index, the height
  pub to_traversal_path : ℕ → I → ℕ → List ℕ

-- `for _i in 0..height { ret.push(pos % arity); pos /= arity; }`
push_digits : ℕ → ℕ → ℕ → List ℕ → List ℕ
push_digits arity zero pos ret = ret
push_digits arity (suc rounds) pos ret =
    push_digits arity rounds (pos / arity) (ret ++ (pos % arity) ∷ [])

unfoldable pub to_traversal_path_primitives : ℕ → ℕ → ℕ → List ℕ
unfolding push_digits
to_traversal_path_primitives arity pos height = push_digits arity height pos []

instance abbrev pub nat_path : ToTraversalPath ℕ
nat_path = record { to_traversal_path = to_traversal_path_primitives }
