-- ===== src/Planner/Bundle.antt =====
-- cmd/topicmappr/commands/reassignments.go: the offload targets, and one bundle of
-- computeReassignmentBundles.
pub mod Exhausted
use kafka_kit.Base.{
  ℕ, zero, suc, ◌+◌, ◌*◌, ℤ, Bool, true, false, not, ◌&&◌, Option, some, none, List, [], ◌∷◌, map,
  length, eqb, ltb, int_key, if◌then◌else◌,
}
use kafka_kit.Base.Outcome.{Run, panics, runs_on, returns, and_then}
use kafka_kit.Base.GoMap.{Map, keys, values, insert}
use kafka_kit.Base.Float.{Float}
use kafka_kit.Base.Shuffle.{Draw}
use kafka_kit.Mapper.Types.{Broker, BrokerMap, PartitionMap}
use kafka_kit.Mapper.Brokers.{filter_map}
use kafka_kit.Mapper.Mappings.{mappings}
use kafka_kit.Mapper.Partitions.Compare.{copy}
use kafka_kit.Mapper.Stats.{storage_range, storage_std_dev, below_mean_fn, h_mean}
use kafka_kit.Planner.{
  Relocation, PlanParams, PlanState, plan_relocations_for_broker, apply_relocation_plan,
}

pub record ReassignmentBundle (F : Type 0) : Type 0 where
  pub storage_range : F
  pub std_dev : F
  pub tolerance : F
  pub partition_map : PartitionMap
  pub relocations : Map ℤ (List Relocation)
  pub brokers : BrokerMap F

module _ {F : Type 0} ⦃fl : Float F⦄ where
  -- Which brokers are targeted, by the two thresholds of the parameters.
  unfoldable pub offload_filter : F → F → BrokerMap F → Broker F → Bool
  unfolding below_mean_fn h_mean
  offload_filter threshold_gb threshold bm b =
      if fl.lt (fl.of_ℕ 0) threshold_gb
      then not b.new && fl.lt b.storage_free (fl.mul threshold_gb (fl.of_ℕ 1073741824))
      else if fl.lt (fl.of_ℕ 0) threshold
      then below_mean_fn threshold (h_mean bm) b
      else not b.new

  -- determineOffloadTargets
  unfoldable pub determine_offload_targets : F → F → BrokerMap F → List ℤ
  unfolding offload_filter filter_map
  determine_offload_targets threshold_gb threshold bm =
      map (λ b. b.id) (values (filter_map (offload_filter threshold_gb threshold bm) bm))

-- otm
unfoldable pub offload_map : List ℤ → Map ℤ Bool → Map ℤ Bool
unfolding insert
offload_map [] otm = otm
offload_map (id ∷ ids) otm = offload_map ids (insert id true otm)

module _ {F : Type 0} ⦃fl : Float F⦄ (params : PlanParams F) (draw : Draw) where
  -- The loop over the offload targets, with exhaustedCount.
  unfoldable pub target_pass : List ℤ → ℕ → PlanState F → Run (ℕ × PlanState F)
  unfolding plan_relocations_for_broker
  target_pass [] exhausted st = returns (exhausted, st)
  target_pass (id ∷ ids) exhausted st =
      elim (plan_relocations_for_broker (record params { source_id = id }) draw st) [
        | none ↦ panics
        | some r ↦ target_pass ids (if eqb r.0 0 then suc exhausted else exhausted) r.1
      ]

  -- The loop until exhaustedCount has reached the number of targets. exhaustedCount is not reset
  -- between two passes.
  unfoldable pub exhaust : ℕ → List ℤ → ℕ → PlanState F → Run (PlanState F)
  unfolding target_pass and_then
  exhaust zero targets exhausted st = if ltb exhausted (length targets) then runs_on else returns st
  exhaust (suc n) targets exhausted st =
      let next = and_then (target_pass targets exhausted st) (λ r. exhaust n targets r.0 r.1) in
      if ltb exhausted (length targets) then next else returns st

-- The bundle of a plan and the brokers after it.
unfoldable pub bundle_of :
    {F : Type 0} ⦃fl : Float F⦄ → PlanParams F → PartitionMap → PlanState F → ReassignmentBundle F
unfolding storage_range storage_std_dev apply_relocation_plan
bundle_of params pm st = record {
  storage_range = storage_range st.brokers;
  std_dev = storage_std_dev st.brokers;
  tolerance = params.tolerance;
  partition_map = record pm { partitions = apply_relocation_plan st.plan pm.partitions };
  relocations = st.relos;
  brokers = st.brokers;
}

-- One goroutine of computeReassignmentBundles.
unfoldable pub compute_bundle :
    {F : Type 0} ⦃fl : Float F⦄
    → ℕ
    → PlanParams F
    → Draw
    → List ℤ
    → PartitionMap
    → BrokerMap F
    → Run (ReassignmentBundle F)
unfolding exhaust and_then mappings copy offload_map bundle_of
compute_bundle n params draw targets pm bm =
    let p = record params { offload_targets_map = offload_map targets [] } in
    and_then
      (exhaust p draw n targets 0
        (record { relos = []; mappings = mappings pm.partitions; brokers = bm; plan = [] }))
      (λ st. returns (bundle_of p (copy pm) st))
