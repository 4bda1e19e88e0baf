-- ===== src/Base/Float.antt =====
-- Go's float64 as a parameter: a type with the operations that the code uses. No law is assumed
-- here; a theorem that needs one names it.
use Prim.Native.Nat.{ℕ}
use mathlib.Core.Bool.{Bool}

pub record Float {ℓ} (F : Type ℓ) : Type ℓ where
  -- float64(n)
  pub of_ℕ : ℕ → F
  pub add : F → F → F
  pub sub : F → F → F
  pub mul : F → F → F
  pub div : F → F → F
  -- x < y
  pub lt : F → F → Bool
  -- x <= y
  pub le : F → F → Bool
  -- math.MaxFloat64, math.Sqrt and math.Pow
  pub max_float : F
  pub sqrt : F → F
  pub pow : F → F → F
