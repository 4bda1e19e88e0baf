-- ===== src/Autothrottle/Manager.antt =====
-- internal/autothrottle/replication/throttles_update.go: the rates that UpdateReplicationThrottle
-- chooses, and the state of throttles.go that it keeps. Failures and their threshold are counts.
pub mod Chosen
use kafka_kit.Base.{
  ℕ, suc, ℤ, pos, int_key, string_key, Bool, true, false, ◌&&◌, not, List, [], ◌∷◌, Option, none,
  some, ◌==◌, if◌then◌else◌, ltb,
}
use kafka_kit.Base.GoMap.{Map, lookup, insert, has}
use kafka_kit.Base.Float.{Float}
use kafka_kit.Autothrottle.Types.{
  FloatMath, BrokerMetrics, Limits, CapacityByBroker, ReassigningBrokers, BrokerThrottleOverride,
  BrokerOverrides,
}
use kafka_kit.Autothrottle.Limits.{limit}
use kafka_kit.Autothrottle.Capacities.{
  store_leader_and_follower_capacity, set_all_rates_with_default, broker_replication_capacities,
}

-- The fields of a ThrottleManager that choose rates.
pub record Manager (F : Type 0) : Type 0 where
  pub override_rate : ℤ
  pub broker_overrides : BrokerOverrides
  pub reassigning_brokers : ReassigningBrokers
  pub previously_set_throttles : CapacityByBroker F
  pub limits : Limits F
  pub change_threshold : F
  pub failure_threshold : ℕ
  pub failures : ℕ

-- km.GetMetrics(): the metrics, which may be nil, and whether there are errors
pub record Metrics (F : Type 0) : Type 0 where
  pub broker_metrics : Option (BrokerMetrics F)
  pub has_errors : Bool

unfoldable pub incomplete_broker_metrics {ℓ} : {V : Type ℓ} → List ℤ → Map ℤ V → Bool
incomplete_broker_metrics [] metrics = false
incomplete_broker_metrics (id ∷ ids) metrics =
    if has id metrics then incomplete_broker_metrics ids metrics else true

unfoldable pub has_active_override : BrokerThrottleOverride → Bool
has_active_override bto = not (bto.rate == pos 0)

unfoldable pub not_reassignment_participant : BrokerThrottleOverride → Bool
not_reassignment_participant bto = not bto.reassignment_participant && not (bto.rate == pos 0)

-- The previous throttles stay, there is an error, or there are rates to apply.
pub data Choice (F : Type 0) : Type 0 where
  retained : Choice F
  failed : Choice F
  chosen : CapacityByBroker F → Choice F

abbrev pub participant : BrokerThrottleOverride → BrokerThrottleOverride
participant o = record {
  id = o.id;
  reassignment_participant = true;
  rate = o.rate;
  auto_remove = o.auto_remove;
}

module _ {F : Type 0} where
  abbrev pub with_failures : ℕ → Manager F → Manager F
  with_failures n tm = record {
    override_rate = tm.override_rate;
    broker_overrides = tm.broker_overrides;
    reassigning_brokers = tm.reassigning_brokers;
    previously_set_throttles = tm.previously_set_throttles;
    limits = tm.limits;
    change_threshold = tm.change_threshold;
    failure_threshold = tm.failure_threshold;
    failures = n;
  }

  abbrev pub with_overrides : BrokerOverrides → Manager F → Manager F
  with_overrides o tm = record {
    override_rate = tm.override_rate;
    broker_overrides = o;
    reassigning_brokers = tm.reassigning_brokers;
    previously_set_throttles = tm.previously_set_throttles;
    limits = tm.limits;
    change_threshold = tm.change_threshold;
    failure_threshold = tm.failure_threshold;
    failures = tm.failures;
  }

  -- Whether the metrics are missing for a broker of the reassignment
  unfoldable pub in_failure_mode : Metrics F → List ℤ → Bool
  unfolding incomplete_broker_metrics
  in_failure_mode metrics all =
      if metrics.has_errors
      then elim metrics.broker_metrics [ some bm ↦ incomplete_broker_metrics all bm | none ↦ true ]
      else false

  abbrev pub metrics_or_nil : Metrics F → BrokerMetrics F
  metrics_or_nil metrics = elim metrics.broker_metrics [ some bm ↦ bm | none ↦ [] ]

  abbrev pub chosen_or_failed : Option (CapacityByBroker F) → Choice F
  chosen_or_failed (some capacities) = chosen capacities
  chosen_or_failed none = failed

module _ {F : Type 0} ⦃f : Float F⦄ ⦃m : FloatMath F⦄ where
  -- The rates before the overrides of single brokers
  unfoldable pub base_choice : Metrics F → Manager F → Choice F × Manager F
  base_choice metrics tm =
      let all = tm.reassigning_brokers.all in
      if not (tm.override_rate == pos 0)
      then (
        chosen (set_all_rates_with_default all (m.of_int tm.override_rate) []),
        with_failures 0 tm,
      )
      else if in_failure_mode metrics all
      then if ltb tm.failure_threshold (suc tm.failures)
        then (
          chosen (set_all_rates_with_default all (limit "minimum" tm.limits) []),
          with_failures (suc tm.failures) tm,
        )
        else (retained, with_failures (suc tm.failures) tm)
      else (
        chosen_or_failed (
            broker_replication_capacities tm.limits tm.previously_set_throttles
              tm.reassigning_brokers (metrics_or_nil metrics)),
        with_failures 0 tm,
      )

  -- One broker of the reassignment: its override is marked, and its rate stored unless it is 0.
  unfoldable pub merge_override :
      ℤ → BrokerOverrides × CapacityByBroker F → BrokerOverrides × CapacityByBroker F
  merge_override id (overrides, capacities) = elim (lookup id overrides) [
    | some o ↦ (
      insert id (participant o) overrides,
      if o.rate == pos 0
          then capacities
          else store_leader_and_follower_capacity id (m.of_int o.rate) capacities,
    )
    | none ↦ (overrides, capacities)
  ]

  unfoldable pub merge_overrides :
      List ℤ → BrokerOverrides × CapacityByBroker F → BrokerOverrides × CapacityByBroker F
  merge_overrides [] r = r
  merge_overrides (id ∷ ids) r = merge_overrides ids (merge_override id r)

  unfoldable pub with_broker_overrides : Choice F × Manager F → Choice F × Manager F
  unfolding merge_overrides
  with_broker_overrides (retained, tm) = (retained, tm)
  with_broker_overrides (failed, tm) = (failed, tm)
  with_broker_overrides (chosen capacities, tm) =
      let r = merge_overrides tm.reassigning_brokers.all (tm.broker_overrides, capacities) in
      (chosen r.1, with_overrides r.0 tm)

  -- UpdateReplicationThrottle up to the rates that it applies
  unfoldable pub choose_rates : Metrics F → Manager F → Choice F × Manager F
  unfolding base_choice with_broker_overrides
  choose_rates metrics tm = with_broker_overrides (base_choice metrics tm)
