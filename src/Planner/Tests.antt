-- ===== src/Planner/Tests.antt =====
-- The relocation planner's theorems at concrete inputs.
use kafka_kit.Base.{
  int_key, negsuc, String, All, ℕ, Pairs, ℤ, pos, ◌≡◌, refl, arith, length, true, some, List, [],
  ◌∷◌,
}
use kafka_kit.Samples.{whole, in_place, part, broker, stub}
use kafka_kit.Base.Outcome.{Run, panics, runs_on, returns}
use kafka_kit.Mapper.Types.{BrokerMap, Partition, PartitionMap, PartitionMetaMap, stub_broker_id}
use kafka_kit.Mapper.Mappings.{mappings}
use kafka_kit.Mapper.Stats.{mean, storage_std_dev}
use kafka_kit.Planner.{
  or_nil, is_planned, apply_relocation_plan, PlanParams, PlanState, top_partitions,
  plan_relocations_for_broker,
}
use kafka_kit.Base.GoMap.{has, lookup}
use kafka_kit.Mapper.Brokers.Keyed.{IsKeyed}
use kafka_kit.Planner.Total.{IsCovered, plan_relocations_for_broker_total}
use kafka_kit.Planner.Plan.{IsRelocated, apply_relocation_plan-IsRelocated}
use kafka_kit.Planner.Standing.{locality_at, IsWellKeyed}
use kafka_kit.Planner.Attempts.{Planned}
use kafka_kit.Planner.Scheduled.{plan_relocations_for_broker-Planned}
use kafka_kit.Planner.Bundle.{ReassignmentBundle, compute_bundle, determine_offload_targets}
use kafka_kit.Planner.Bundle.Exhausted.{RunEnd, compute_bundle-RunEnd}

-- Broker 1 is fuller than broker 3, of the same rack.
abbrev brokers : BrokerMap ℤ
brokers =
    (pos 1, broker 1 "a" 2 100)
    ∷ (pos 2, broker 2 "b" 1 400)
    ∷ (pos 3, broker 3 "a" 0 700)
    ∷ (stub_broker_id, stub)
    ∷ []

abbrev logs : List Partition
logs = part "logs" 0 (pos 1 ∷ pos 2 ∷ []) ∷ []

abbrev sizes : PartitionMetaMap ℤ
sizes = ("logs", (pos 0, pos 200) ∷ []) ∷ []

abbrev params : PlanParams ℤ
params = record {
  partition_meta = sizes;
  top_partitions_limit = 10;
  partition_size_threshold = 0;
  offload_targets_map = (pos 1, true) ∷ [];
  tolerance = pos 0;
  locality_scoped = true;
  source_id = pos 1;
}

abbrev before : PlanState ℤ
before = record { relos = []; mappings = mappings logs; brokers = brokers; plan = [] }

abbrev after : PlanState ℤ
after = record {
  relos =
      (pos 1, record { partition = part "logs" 0 (pos 1 ∷ pos 2 ∷ []); destination = pos 3 } ∷ [])
      ∷ [];
  mappings =
      (pos 1, ("logs", []) ∷ [])
      ∷ (pos 2, ("logs", part "logs" 0 (pos 1 ∷ pos 2 ∷ []) ∷ []) ∷ [])
      ∷ [];
  brokers =
      (pos 1, broker 1 "a" 2 300)
      ∷ (pos 2, broker 2 "b" 1 400)
      ∷ (pos 3, broker 3 "a" 0 500)
      ∷ (stub_broker_id, stub)
      ∷ [];
  plan = ("logs", (pos 0, (pos 1, pos 3) ∷ []) ∷ []) ∷ [];
}

sub_ℕ_zero : (x : ℤ) → whole.sub x (whole.of_ℕ 0) ≡ x
sub_ℕ_zero (pos n) = ground arith
sub_ℕ_zero (negsuc n) = ground arith

brokers-IsWellKeyed : IsWellKeyed brokers
unfolding has lookup
brokers-IsWellKeyed = record {
  keyed = (refl, (refl, (refl, (refl, tt))));
  distinct = (refl, (refl, (refl, (refl, tt))));
}

plan_relocations_for_broker-Planned_example :
    (l : String) × (locality_at (pos 1) brokers ≡ some l)
    × Planned params (mean brokers) l (top_partitions params (mappings logs)) before (1, after)
unfolding plan_relocations_for_broker mappings
plan_relocations_for_broker-Planned_example =
    plan_relocations_for_broker-Planned sub_ℕ_zero params in_place before (1, after)
      brokers-IsWellKeyed refl

apply_relocation_plan-IsRelocated_example :
    Pairs (IsRelocated after.plan) logs (part "logs" 0 (pos 3 ∷ pos 2 ∷ []) ∷ [])
unfolding apply_relocation_plan
apply_relocation_plan-IsRelocated_example = apply_relocation_plan-IsRelocated after.plan logs

brokers-IsKeyed : IsKeyed brokers
brokers-IsKeyed = (refl, (refl, (refl, (refl, tt))))

logs-IsCovered : All (IsCovered brokers []) logs
unfolding has is_planned
logs-IsCovered = (record { replicas = (refl, (refl, tt)); receiving = tt }, tt)

plan_relocations_for_broker_total_example :
    (r : ℕ × PlanState ℤ) × (plan_relocations_for_broker params in_place before ≡ some r)
unfolding top_partitions mappings has
plan_relocations_for_broker_total_example =
    plan_relocations_for_broker_total params in_place before brokers-IsKeyed refl logs-IsCovered

abbrev log_map : PartitionMap
log_map = record { version = 1; partitions = logs }

-- The first pass plans one relocation, the second one none.
bundle_of_logs :
    compute_bundle 2 params in_place (pos 1 ∷ []) log_map brokers
    ≡ returns (record {
      storage_range = pos 200;
      std_dev = storage_std_dev after.brokers;
      tolerance = pos 0;
      partition_map = record { version = 1; partitions = part "logs" 0 (pos 3 ∷ pos 2 ∷ []) ∷ [] };
      relocations = after.relos;
      brokers = after.brokers;
    })
unfolding compute_bundle
bundle_of_logs = refl

-- One pass is too few.
one_pass : compute_bundle 1 params in_place (pos 1 ∷ []) log_map brokers ≡ runs_on
unfolding compute_bundle
one_pass = refl

-- Broker 4 is not in the broker map.
missing_target : compute_bundle 2 params in_place (pos 4 ∷ []) log_map brokers ≡ panics
unfolding compute_bundle
missing_target = refl

targets_of_all : determine_offload_targets (pos 0) (pos 0) brokers ≡ pos 3 ∷ pos 2 ∷ pos 1 ∷ []
unfolding determine_offload_targets
targets_of_all = refl

compute_bundle-RunEnd_example :
    RunEnd (compute_bundle 3 params in_place (pos 1 ∷ []) log_map brokers)
unfolding mappings
compute_bundle-RunEnd_example =
    compute_bundle-RunEnd 3 params in_place (pos 1 ∷ []) log_map brokers (omega arith)

abbrev three_logs : List Partition
three_logs =
    part "logs" 0 (pos 1 ∷ pos 2 ∷ [])
    ∷ part "logs" 1 (pos 1 ∷ pos 2 ∷ [])
    ∷ part "logs" 2 (pos 1 ∷ pos 2 ∷ [])
    ∷ []

abbrev small : PlanParams ℤ
small = record params {
  partition_meta = ("logs", (pos 0, pos 50) ∷ (pos 1, pos 50) ∷ (pos 2, pos 50) ∷ []) ∷ [];
}

abbrev relocation_count : Run (ReassignmentBundle ℤ) → ℕ
relocation_count (returns b) = length (or_nil (lookup (pos 1) b.relocations))
relocation_count run = 0

-- Broker 1 has three relocations to plan.
three_relocations :
    relocation_count (
      compute_bundle 7 small in_place
        (pos 1 ∷ [])
        (record { version = 1; partitions = three_logs })
        brokers)
    ≡ 3
unfolding compute_bundle lookup
three_relocations = refl

-- Next to a target that never has one, the passes end after two of them, since each pass counts
-- that target again.
two_relocations :
    relocation_count (
      compute_bundle 8 small in_place
        (pos 2 ∷ pos 1 ∷ [])
        (record { version = 1; partitions = three_logs })
        brokers)
    ≡ 2
unfolding compute_bundle lookup
two_relocations = refl
