-- ===== src/Autothrottle/Limits.antt =====
-- internal/autothrottle/replication/limits.go: the limits and the headroom of a broker.
use kafka_kit.Base.{◌||◌, [], ◌∷◌, String, string_key, Option, none, some, ◌==◌, if◌then◌else◌}
use kafka_kit.Base.GoMap.{Map, lookup, insert}
use kafka_kit.Base.Float.{Float}
use kafka_kit.Autothrottle.Types.{FloatMath, BrokerLoad, Limits}

pub record NewLimitsConfig (F : Type 0) : Type 0 where
  pub minimum : F
  pub source_maximum : F
  pub destination_maximum : F
  pub capacity_map : Map String F

-- What replicationHeadroom returns: a rate, or its error with the rate beside it.
pub data Headroom (F : Type 0) : Type 0 where
  rate : F → Headroom F
  invalid_replica_type : F → Headroom F
  unknown_instance_type : F → Headroom F

module _ {F : Type 0} ⦃f : Float F⦄ where
  -- lim[k] = v for each entry
  unfoldable pub add_capacities : Map String F → Limits F → Limits F
  add_capacities [] lim = lim
  add_capacities ((k, v) ∷ capacities) lim = add_capacities capacities (insert k v lim)

  -- `none` is an error.
  unfoldable pub new_limits : NewLimitsConfig F → Option (Limits F)
  unfolding add_capacities
  new_limits c =
      let zero = f.of_ℕ 0 in
      let hundred = f.of_ℕ 100 in
      if f.le c.minimum zero
      then none
      else if f.le c.source_maximum zero || f.le hundred c.source_maximum
      then none
      else if f.le c.destination_maximum zero || f.le hundred c.destination_maximum
      then none
      else some (
          add_capacities c.capacity_map (
            ("minimum", c.minimum)
            ∷ ("srcMax", c.source_maximum)
            ∷ ("dstMax", c.destination_maximum)
            ∷ []))

  -- l[k], which is 0 for a missing key
  unfoldable pub limit : String → Limits F → F
  limit k l = elim (lookup k l) [ some v ↦ v | none ↦ f.of_ℕ 0 ]

  module _ ⦃m : FloatMath F⦄ where
    -- With the utilization and the ratio of the broker's role
    unfoldable pub headroom_at : Limits F → F → F → String → F → Headroom F
    unfolding limit
    headroom_at l utilization max_ratio instance_type prev = elim (lookup instance_type l) [
      | some capacity ↦
          let non_throttle_util = m.max (f.sub utilization prev) (f.of_ℕ 0) in
          let over_cap = m.max (f.sub utilization capacity) (f.of_ℕ 0) in
          Headroom.rate (
            m.max
              (f.mul (f.sub (f.sub capacity non_throttle_util) over_cap)
                (f.div max_ratio (f.of_ℕ 100)))
              (limit "minimum" l))
      | none ↦ Headroom.unknown_instance_type (limit "minimum" l)
    ]

    unfoldable pub replication_headroom : Limits F → BrokerLoad F → String → F → Headroom F
    unfolding headroom_at
    replication_headroom l b replica_type prev =
        if replica_type == "leader"
        then headroom_at l b.net_tx (limit "srcMax" l) b.instance_type prev
        else if replica_type == "follower"
        then headroom_at l b.net_rx (limit "dstMax" l) b.instance_type prev
        else Headroom.invalid_replica_type (f.of_ℕ 0)
