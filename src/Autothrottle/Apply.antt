-- ===== src/Autothrottle/Apply.antt =====
-- internal/autothrottle/replication/throttles_update.go: the broker configs that follow from the
-- rates, and their application through Kafka's admin client. `none` is the use of a nil rate.
pub mod Returned
use kafka_kit.Base.{
  ℕ, suc, ℤ, pos, int_key, Bool, true, false, not, List, [], ◌∷◌, ◌++◌, Option, none, some, ◌==◌,
  if◌then◌else◌, ◌>>=◌,
}
use kafka_kit.Base.GoMap.{Map, insert}
use kafka_kit.Base.Float.{Float}
use kafka_kit.Autothrottle.Types.{FloatMath, CapacityByBroker}
use kafka_kit.Autothrottle.Capacities.{rates_of, store_leader_capacity, store_follower_capacity}
use kafka_kit.Autothrottle.Manager.{Manager}

pub record BrokerThrottleConfig : Type 0 where
  pub inbound_limit_bytes : ℤ
  pub outbound_limit_bytes : ℤ

pub data Role : Type 0 where
  leader : Role
  follower : Role

pub record BrokerChangeEvent (F : Type 0) : Type 0 where
  pub id : ℤ
  pub role : Role
  pub rate : F

-- What the application leaves: the events, the brokers with an error, and the rates set so far.
pub record Applied (F : Type 0) : Type 0 where
  pub events : List (BrokerChangeEvent F)
  pub errors : List ℤ
  pub previously_set : CapacityByBroker F

module _ {F : Type 0} where
  abbrev pub with_leader : ℤ → F → Applied F → Applied F
  with_leader id r st = record {
    events = st.events ++ record { id = id; role = Role.leader; rate = r } ∷ [];
    errors = st.errors;
    previously_set = store_leader_capacity id r st.previously_set;
  }

  abbrev pub with_follower : ℤ → F → Applied F → Applied F
  with_follower id r st = record {
    events = st.events ++ record { id = id; role = Role.follower; rate = r } ∷ [];
    errors = st.errors;
    previously_set = store_follower_capacity id r st.previously_set;
  }

module _ {F : Type 0} ⦃f : Float F⦄ ⦃m : FloatMath F⦄ where
  abbrev rate_or_zero : Option F → F
  rate_or_zero (some r) = r
  rate_or_zero none = f.of_ℕ 0

  -- The limit of one role in bytes: 0 without a rate, or with one that is near the previous rate
  unfoldable pub limit_bytes : F → Option F → Option F → ℤ
  limit_bytes threshold prev none = pos 0
  limit_bytes threshold prev (some rate) =
      let before = rate_or_zero prev in
      let d = m.abs (f.mul (f.div (f.sub before rate) before) (f.of_ℕ 100)) in
      if f.lt d threshold then pos 0 else m.round (f.mul rate (f.of_ℕ 1000000))

  unfoldable pub broker_config : Manager F → CapacityByBroker F → ℤ → BrokerThrottleConfig
  broker_config tm capacities id =
      let rates = rates_of id capacities in
      let before = rates_of id tm.previously_set_throttles in
      record {
        inbound_limit_bytes = limit_bytes tm.change_threshold before.1 rates.1;
        outbound_limit_bytes = limit_bytes tm.change_threshold before.0 rates.0;
      }

  -- Store and log the leader config, if any.
  unfoldable pub store_leader : ℤ → ℤ → Option F → Applied F → Option (Applied F)
  store_leader id bytes rate st =
      if bytes == pos 0 then some st else rate >>= (λ r. some (with_leader id r st))

  -- Store and log the follower config, if any.
  unfoldable pub store_follower : ℤ → ℤ → Option F → Applied F → Option (Applied F)
  store_follower id bytes rate st =
      if bytes == pos 0 then some st else rate >>= (λ r. some (with_follower id r st))

  -- One broker, whose SetThrottle call fails or not
  unfoldable pub apply_broker :
      Bool → ℤ → BrokerThrottleConfig → Option F × Option F → Applied F → Option (Applied F)
  apply_broker fails id config rates st =
      if fails
      then some (record {
        events = st.events;
        errors = st.errors ++ id ∷ [];
        previously_set = st.previously_set;
      })
      else store_leader id config.outbound_limit_bytes rates.0 st
        >>= store_follower id config.inbound_limit_bytes rates.1

  unfoldable pub apply_sequential :
      (ℤ → Bool) → Manager F → CapacityByBroker F → List ℤ → Applied F → Option (Applied F)
  apply_sequential fails tm capacities [] st = some st
  apply_sequential fails tm capacities (id ∷ ids) st =
      apply_broker (fails id) id (broker_config tm capacities id) (rates_of id capacities) st
      >>= apply_sequential fails tm capacities ids

  -- applyBrokerThrottles in Kafka's native mode
  unfoldable pub apply_broker_throttles :
      (ℤ → Bool) → Manager F → CapacityByBroker F → List ℤ → Option (Applied F)
  unfolding apply_sequential
  apply_broker_throttles fails tm capacities bs =
      apply_sequential fails tm capacities bs
        (record { events = []; errors = []; previously_set = tm.previously_set_throttles })
