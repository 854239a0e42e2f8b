-- ===== src/Base/Results.antt =====
-- What awaiting a coroutine gives: a value, an exception with its `what()`, or no result yet.
use mathlib.Core.List.{List}
use Prim.Native.Nat.{ℕ}

pub data Outcome {ℓ} (A : Type ℓ) : Type ℓ where
  done : A → Outcome A
  thrown : List ℕ → Outcome A
  pending : Outcome A
