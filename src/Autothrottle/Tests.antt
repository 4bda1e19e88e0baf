-- ===== src/Autothrottle/Tests.antt =====
-- The throttles' theorems at concrete inputs: broker 1 is a source, broker 2 a destination with an
-- override of its own.
use kafka_kit.Base.{
  ℤ, pos, negsuc, suc, int_key, string_key, false, not, ◌&&◌, [], ◌∷◌, none, some, ◌≡◌, refl,
  if◌then◌else◌, ltb_ℤ,
}
use kafka_kit.Base.GoMap.{lookup, insert, contains}
use kafka_kit.Samples.{whole}
use kafka_kit.Autothrottle.Types.{FloatMath, BrokerLoad, Limits, ThrottleByRole, CapacityByBroker}
use kafka_kit.Autothrottle.Limits.{replication_headroom}
use kafka_kit.Autothrottle.Capacities.{
  rates_of, broker_rates, broker_replication_capacities, store_leader_and_follower_capacity,
}
use kafka_kit.Autothrottle.Manager.{Manager, Metrics, merge_override, in_failure_mode, choose_rates}
use kafka_kit.Autothrottle.Manager.Chosen.{override_of, IsBaseRate, overridden, choose_rates-chosen}
use kafka_kit.Autothrottle.Apply.{Applied, apply_broker_throttles}
use kafka_kit.Autothrottle.Apply.Returned.{updated, apply_broker_throttles_total}

abbrev absolute : ℤ → ℤ
absolute (pos n) = pos n
absolute (negsuc n) = pos (suc n)

instance abbrev whole_math : FloatMath ℤ
whole_math = record {
  of_int = λ a. a;
  max = λ a b. if ltb_ℤ a b then b else a;
  abs = absolute;
  round = λ a. a;
}

abbrev limits : Limits ℤ
limits =
    ("minimum", pos 10) ∷ ("srcMax", pos 100) ∷ ("dstMax", pos 100) ∷ ("d2.xlarge", pos 120) ∷ []

abbrev load : BrokerLoad ℤ
load = record { instance_type = "d2.xlarge"; net_tx = pos 80; net_rx = pos 60 }

abbrev metrics : Metrics ℤ
metrics = record { broker_metrics = some ((pos 1, load) ∷ (pos 2, load) ∷ []); has_errors = false }

abbrev manager : Manager ℤ
manager = record {
  override_rate = pos 0;
  broker_overrides =
      (
        pos 2,
        record { id = pos 2; reassignment_participant = false; rate = pos 25; auto_remove = false },
      )
      ∷ [];
  reassigning_brokers = record { src = pos 1 ∷ []; dst = pos 2 ∷ []; all = pos 1 ∷ pos 2 ∷ [] };
  previously_set_throttles = (pos 1, (some (pos 30), none)) ∷ [];
  limits = limits;
  change_threshold = pos 10;
  failure_threshold = 1;
  failures = 0;
}

-- 120 - (80 - 30) for broker 1; the override of broker 2 in both roles
abbrev rates : CapacityByBroker ℤ
rates = (pos 1, (some (pos 70), none)) ∷ (pos 2, (some (pos 25), some (pos 25))) ∷ []

choose_rates-chosen_example :
    (base : ThrottleByRole ℤ) × IsBaseRate metrics manager (pos 2) base
    × (rates_of (pos 2) rates ≡ overridden (override_of (pos 2) manager.broker_overrides) base)
unfolding contains choose_rates broker_replication_capacities broker_rates replication_headroom
    rates_of lookup insert store_leader_and_follower_capacity in_failure_mode merge_override
choose_rates-chosen_example = choose_rates-chosen metrics manager rates (pos 2) refl refl

apply_broker_throttles_total_example :
    (st : Applied ℤ) × (apply_broker_throttles (λ id. false) manager rates (pos 1 ∷ pos 2 ∷ [])
      ≡ some st)
    × ((k : ℤ)
        → rates_of k st.previously_set ≡ (
            let before = rates_of k manager.previously_set_throttles in
            if contains k (pos 1 ∷ pos 2 ∷ []) && not false
            then updated manager rates k before
            else before))
apply_broker_throttles_total_example =
    apply_broker_throttles_total (λ id. false) manager rates (pos 1 ∷ pos 2 ∷ [])
