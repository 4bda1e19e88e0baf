-- ===== src/Base/Int.antt =====
-- Go's `int` where the source uses negative values: an integer by its sign.
use Prim.Native.Nat.{ℕ}
use mathlib.Core.Path.{◌≡◌}
use mathlib.Core.Logic.{◌↔◌}
use mathlib.Core.Bool.{Bool, true, false}
use native.Mathlib.Omega.{arith}
use kafka_kit.Base.Tests.{ltb, eqb}

-- `negsuc n` is -(n + 1).
pub data ℤ : Type 0 where
  pos : ℕ → ℤ
  negsuc : ℕ → ℤ

abbrev pub eqb_ℤ : ℤ → ℤ → Bool
eqb_ℤ (pos a) (pos b) = eqb a b
eqb_ℤ (pos a) (negsuc b) = false
eqb_ℤ (negsuc a) (pos b) = false
eqb_ℤ (negsuc a) (negsuc b) = eqb a b

abbrev pub ltb_ℤ : ℤ → ℤ → Bool
ltb_ℤ (pos a) (pos b) = ltb a b
ltb_ℤ (pos a) (negsuc b) = false
ltb_ℤ (negsuc a) (pos b) = true
ltb_ℤ (negsuc a) (negsuc b) = ltb b a

pub eqb_ℤ_iff : (a b : ℤ) → (eqb_ℤ a b ≡ true) ↔ (a ≡ b)
eqb_ℤ_iff (pos a) (pos b) = ground arith
eqb_ℤ_iff (pos a) (negsuc b) = ground arith
eqb_ℤ_iff (negsuc a) (pos b) = ground arith
eqb_ℤ_iff (negsuc a) (negsuc b) = ground arith

pub ltb_ℤ_asym : (a b : ℤ) → ltb_ℤ a b ≡ true → ltb_ℤ b a ≡ false
ltb_ℤ_asym (pos a) (pos b) h = ground arith
ltb_ℤ_asym (pos a) (negsuc b) h = ground arith
ltb_ℤ_asym (negsuc a) (pos b) h = ground arith
ltb_ℤ_asym (negsuc a) (negsuc b) h = ground arith

pub ltb_ℤ_not_trans : (a b c : ℤ) → ltb_ℤ a b ≡ false → ltb_ℤ b c ≡ false → ltb_ℤ a c ≡ false
ltb_ℤ_not_trans (pos a) (pos b) (pos c) h k = ground arith
ltb_ℤ_not_trans (pos a) (pos b) (negsuc c) h k = ground arith
ltb_ℤ_not_trans (pos a) (negsuc b) (pos c) h k = ground arith
ltb_ℤ_not_trans (pos a) (negsuc b) (negsuc c) h k = ground arith
ltb_ℤ_not_trans (negsuc a) (pos b) (pos c) h k = ground arith
ltb_ℤ_not_trans (negsuc a) (pos b) (negsuc c) h k = ground arith
ltb_ℤ_not_trans (negsuc a) (negsuc b) (pos c) h k = ground arith
ltb_ℤ_not_trans (negsuc a) (negsuc b) (negsuc c) h k = ground arith
