-- ===== src/Mapper/Brokers/Keyed.antt =====
-- A broker map holds each broker at the broker's own ID, which lets an ID stand for a pointer.
use kafka_kit.Base.{ℤ, ◌≡◌, [], ◌∷◌, some, All, Bool-cases, inl, inr, ◌==◌, int_key}
use kafka_kit.Base.GoMap.{lookup, insert, All-lookup}
use kafka_kit.Mapper.Types.{Broker, BrokerMap}

module _ {F : Type 0} where
  abbrev pub IsKeyed : BrokerMap F → Type 0
  IsKeyed b = All (λ e. e.1.id ≡ e.0) b

  pub IsKeyed-lookup :
      (id : ℤ) (x : Broker F) (b : BrokerMap F) → IsKeyed b → lookup id b ≡ some x → x.id ≡ id
  IsKeyed-lookup id x b k e = All-lookup (λ e. e.1.id ≡ e.0) id x b k e

  pub IsKeyed-insert :
      (id : ℤ) (x : Broker F) (b : BrokerMap F) → x.id ≡ id → IsKeyed b → IsKeyed (insert id x b)
  unfolding insert
  IsKeyed-insert id x [] h k = (h, tt)
  IsKeyed-insert id x ((j, y) ∷ b) h (ky, k) = elim (Bool-cases (j == id)) [
    | inl e ↦ rw e (h, k)
    | inr e ↦ rw e (ky, IsKeyed-insert id x b h k)
  ]
