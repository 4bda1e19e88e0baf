-- ===== src/Autothrottle/Capacities.antt =====
-- internal/autothrottle/replication/capacities.go: the rate of each broker in each of its roles.
pub mod Rates
use kafka_kit.Base.{
  ℕ, ℤ, int_key, Bool, true, false, List, [], ◌∷◌, String, Option, none, some, if◌then◌else◌, ◌>>=◌,
}
use kafka_kit.Base.GoMap.{Map, lookup, insert, contains}
use kafka_kit.Base.Float.{Float}
use kafka_kit.Autothrottle.Types.{
  FloatMath, BrokerLoad, BrokerMetrics, Limits, ThrottleByRole, CapacityByBroker,
  ReassigningBrokers,
}
use kafka_kit.Autothrottle.Limits.{
  Headroom, rate, invalid_replica_type, unknown_instance_type, replication_headroom,
}

-- The entry of a broker, which is created when it is missing
unfoldable pub rates_of {ℓ} : {F : Type ℓ} → ℤ → Map ℤ (Option F × Option F) → Option F × Option F
rates_of id r = elim (lookup id r) [ some rates ↦ rates | none ↦ (none, none) ]

module _ {F : Type 0} where
  unfoldable pub store_leader_capacity : ℤ → F → CapacityByBroker F → CapacityByBroker F
  store_leader_capacity id c r = insert id (some c, (rates_of id r).1) r

  unfoldable pub store_follower_capacity : ℤ → F → CapacityByBroker F → CapacityByBroker F
  store_follower_capacity id c r = insert id ((rates_of id r).0, some c) r

  unfoldable pub store_leader_and_follower_capacity :
      ℤ → F → CapacityByBroker F → CapacityByBroker F
  unfolding store_leader_capacity store_follower_capacity
  store_leader_and_follower_capacity id c r =
      store_follower_capacity id c (store_leader_capacity id c r)

  unfoldable pub set_all_rates_with_default : List ℤ → F → CapacityByBroker F → CapacityByBroker F
  unfolding store_leader_capacity store_follower_capacity
  set_all_rates_with_default [] c r = r
  set_all_rates_with_default (id ∷ ids) c r =
      set_all_rates_with_default ids c (store_follower_capacity id c (store_leader_capacity id c r))

  abbrev pub rate_or_error : Headroom F → Option F
  rate_or_error (rate r) = some r
  rate_or_error (invalid_replica_type r) = none
  rate_or_error (unknown_instance_type r) = none

module _ {F : Type 0} ⦃f : Float F⦄ ⦃m : FloatMath F⦄ where
  -- The rate that was set before, or 0
  abbrev previous : Option F → F
  previous (some r) = r
  previous none = f.of_ℕ 0

  -- The rate of a broker in a role that it has, or no rate; `none` is an error.
  unfoldable pub role_rate : Limits F → BrokerLoad F → String → Bool → Option F → Option (Option F)
  role_rate l b role is_in_role prev =
      if is_in_role
      then rate_or_error (replication_headroom l b role (previous prev)) >>= (λ r. some (some r))
      else some none

  -- Both roles of one broker, in order
  unfoldable pub broker_rates :
      Limits F
      → CapacityByBroker F
      → ReassigningBrokers
      → BrokerLoad F
      → ℤ
      → Option (ThrottleByRole F)
  unfolding role_rate
  broker_rates l before reassigning b id =
      let prev = rates_of id before in
      do
        leader ← role_rate l b "leader" (contains id reassigning.src) prev.0
        follower ← role_rate l b "follower" (contains id reassigning.dst) prev.1
        some (leader, follower)

  -- An error ends the loop; its caller drops the capacities that are returned with it.
  unfoldable pub capacities_from :
      Limits F
      → CapacityByBroker F
      → ReassigningBrokers
      → BrokerMetrics F
      → List ℤ
      → CapacityByBroker F
      → Option (CapacityByBroker F)
  capacities_from l before reassigning bm [] capacities = some capacities
  capacities_from l before reassigning bm (id ∷ ids) capacities = do
    b ← lookup id bm
    rates ← broker_rates l before reassigning b id
    capacities_from l before reassigning bm ids (insert id rates capacities)

  unfoldable pub broker_replication_capacities :
      Limits F
      → CapacityByBroker F
      → ReassigningBrokers
      → BrokerMetrics F
      → Option (CapacityByBroker F)
  unfolding capacities_from
  broker_replication_capacities l before reassigning bm =
      capacities_from l before reassigning bm reassigning.all []
