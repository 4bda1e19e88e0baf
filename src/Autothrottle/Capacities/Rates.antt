-- ===== src/Autothrottle/Capacities/Rates.antt =====
-- internal/autothrottle/replication/capacities.go: the rates of a broker after each way to store
-- some.
use kafka_kit.Base.{ℤ, int_key, List, [], ◌∷◌, some, ◌≡◌, refl, ◌==◌, beq_iff, if◌then◌else◌, arith}
use kafka_kit.Base.GoMap.{insert, contains, lookup-insert}
use kafka_kit.Autothrottle.Types.{ThrottleByRole, CapacityByBroker}
use kafka_kit.Autothrottle.Capacities.{
  rates_of, store_leader_capacity, store_follower_capacity, store_leader_and_follower_capacity,
  set_all_rates_with_default,
}

module _ {F : Type 0} where
  pub rates_of-insert :
      (id k : ℤ) (rates : ThrottleByRole F) (r : CapacityByBroker F)
      → rates_of k (insert id rates r) ≡ (if id == k then rates else rates_of k r)
  unfolding rates_of
  rates_of-insert id k rates r = ground (arith, lookup-insert id k rates r)

  pub rates_of-store_leader :
      (id k : ℤ) (c : F) (r : CapacityByBroker F)
      → rates_of k (store_leader_capacity id c r)
        ≡ (if id == k then (some c, (rates_of k r).1) else rates_of k r)
  unfolding store_leader_capacity
  rates_of-store_leader id k c r =
      ground (arith, rates_of-insert id k (some c, (rates_of id r).1) r, beq_iff id k)

  pub rates_of-store_follower :
      (id k : ℤ) (c : F) (r : CapacityByBroker F)
      → rates_of k (store_follower_capacity id c r)
        ≡ (if id == k then ((rates_of k r).0, some c) else rates_of k r)
  unfolding store_follower_capacity
  rates_of-store_follower id k c r =
      ground (arith, rates_of-insert id k ((rates_of id r).0, some c) r, beq_iff id k)

  pub rates_of-store_both :
      (id k : ℤ) (c : F) (r : CapacityByBroker F)
      → rates_of k (store_leader_and_follower_capacity id c r)
        ≡ (if id == k then (some c, some c) else rates_of k r)
  unfolding store_leader_and_follower_capacity
  rates_of-store_both id k c r = ground (
    arith,
    rates_of-store_follower id k c (store_leader_capacity id c r),
    rates_of-store_leader id k c r,
  )

  pub rates_of-set_all :
      (ids : List ℤ) (k : ℤ) (c : F) (r : CapacityByBroker F)
      → rates_of k (set_all_rates_with_default ids c r)
        ≡ (if contains k ids then (some c, some c) else rates_of k r)
  unfolding set_all_rates_with_default contains
  rates_of-set_all [] k c r = refl
  rates_of-set_all (id ∷ ids) k c r =
      let stored = store_follower_capacity id c (store_leader_capacity id c r) in
      ground (
        arith,
        rates_of-set_all ids k c stored,
        rates_of-store_follower id k c (store_leader_capacity id c r),
        rates_of-store_leader id k c r,
      )
