-- ===== src/Base/Keys.antt =====
-- Keys of maps: a type with a Boolean equality that decides `≡`.
use Prim.Native.Nat.{ℕ}
use Prim.Native.String.{String}
use mathlib.Core.Path.{◌≡◌, refl}
use mathlib.Core.Logic.{◌↔◌}
use mathlib.Core.Bool.{Bool, true}
use text.Mathlib.Text.{◌==◌ as str_eq}
use text.Mathlib.TextEquality.{eq_iff}
use kafka_kit.Base.Tests.{eqb, eqb_iff}
use kafka_kit.Base.Int.{ℤ, eqb_ℤ, eqb_ℤ_iff}

-- An equality test, and that it decides.
pub record Key {ℓ} (K : Type ℓ) : Type ℓ where
  pub equal : K → K → Bool
  pub decides : (j k : K) → (equal j k ≡ true) ↔ (j ≡ k)

instance abbrev pub string_key : Key String
string_key = record { equal = str_eq; decides = eq_iff }

instance abbrev pub int_key : Key ℤ
int_key = record { equal = eqb_ℤ; decides = eqb_ℤ_iff }

instance abbrev pub nat_key : Key ℕ
nat_key = record { equal = eqb; decides = eqb_iff }

module _ {ℓ} {A : Type ℓ} ⦃e : Key A⦄ where
  infix 50 ◌==◌
  abbrev pub ◌==◌ : A → A → Bool
  j == k = e.equal j k

  pub beq_iff : (a b : A) → ((a == b) ≡ true) ↔ (a ≡ b)
  beq_iff j k = e.decides j k

  pub beq_self : (a : A) → (a == a) ≡ true
  beq_self a = (e.decides a a).1 refl
