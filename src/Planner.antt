-- ===== src/Planner.antt =====
-- cmd/topicmappr/commands/planner.go: relocations of partitions from full brokers to emptier ones.
-- `none` is a panic: a broker that the broker map does not hold.
pub mod Plan
pub mod Standing
pub mod Apart
pub mod Destinations
pub mod Attempts
pub mod Scheduled
pub mod Removed
pub mod Total
pub mod Bundle
mod Tests
use kafka_kit.Base.{
  ℕ, zero, suc, ◌+◌, ◌*◌, ℤ, pos, Bool, true, false, not, ◌&&◌, Option, some, none, List, [], ◌∷◌,
  ◌++◌, map, String, filter, ltb_ℤ, ◌==◌, int_key, string_key, if◌then◌else◌, ◌>>=◌,
}
use kafka_kit.Base.GoMap.{Map, keys, values, lookup, insert, modify, has}
use kafka_kit.Base.Float.{Float}
use kafka_kit.Base.Shuffle.{Draw}
use kafka_kit.Mapper.Types.{Broker, BrokerMap, Partition, PartitionMetaMap, Result, ok, err}
use kafka_kit.Mapper.Brokers.{BrokerList, sort_by_storage}
use kafka_kit.Mapper.Brokers.Update.{zero_broker}
use kafka_kit.Mapper.Constraints.{
  Constraints, Selection, deref, take_all, merged_constraints, best_candidate,
}
use kafka_kit.Mapper.Partitions.{size_or_zero}
use kafka_kit.Mapper.Mappings.{Mappings, largest_partitions, remove}
use kafka_kit.Mapper.Stats.{mean}

pub record Relocation : Type 0 where
  pub partition : Partition
  pub destination : ℤ

-- Source and destination of a relocation, by topic and partition number.
abbrev pub RelocationPlan : Type 0
RelocationPlan = Map String (Map ℤ (List (ℤ × ℤ)))

abbrev pub or_nil {ℓ} : {A : Type ℓ} → Option (List A) → List A
or_nil (some xs) = xs
or_nil none = []

-- relocationPlan.isPlanned: the pairs, if there are any.
unfoldable pub is_planned : RelocationPlan → Partition → Option (List (ℤ × ℤ))
unfolding lookup
is_planned r p = do t ← lookup p.topic r; lookup p.partition t

-- relocationPlan.add
unfoldable pub add_relocation : RelocationPlan → Partition → ℤ × ℤ → RelocationPlan
unfolding lookup insert
add_relocation r p ids =
    let t = or_nil (lookup p.topic r) in
    insert p.topic (insert p.partition (or_nil (lookup p.partition t) ++ ids ∷ []) t) r

-- What the loop over the pairs makes of a replica `r`, which reads `current` so far.
unfoldable pub relocate : ℤ → List (ℤ × ℤ) → ℤ → ℤ
relocate r [] current = current
relocate r ((from, to) ∷ pairs) current = relocate r pairs (if r == from then to else current)

unfoldable pub relocate_partition : RelocationPlan → Partition → Partition
unfolding is_planned relocate
relocate_partition plan p = elim (is_planned plan p) [
  | some pairs ↦ record p { replicas = map (λ r. relocate r pairs r) p.replicas }
  | none ↦ p
]

-- applyRelocationPlan
unfoldable pub apply_relocation_plan : RelocationPlan → List Partition → List Partition
unfolding relocate_partition
apply_relocation_plan plan ps = map (relocate_partition plan) ps

pub record PlanParams (F : Type 0) : Type 0 where
  pub partition_meta : PartitionMetaMap F
  pub top_partitions_limit : ℕ
  pub partition_size_threshold : ℕ
  pub offload_targets_map : Map ℤ Bool
  pub tolerance : F
  pub locality_scoped : Bool
  pub source_id : ℤ

-- What planRelocationsForBroker writes to.
pub record PlanState (F : Type 0) : Type 0 where
  pub relos : Map ℤ (List Relocation)
  pub mappings : Mappings
  pub brokers : BrokerMap F
  pub plan : RelocationPlan

module _ {F : Type 0} ⦃fl : Float F⦄ where
  -- offloadTargetsBySize.Less
  unfoldable pub less_offload_target : BrokerMap F → ℤ → ℤ → Option Bool
  unfolding lookup
  less_offload_target bm i j = do
    b1 ← lookup i bm
    b2 ← lookup j bm
    some (
        if fl.lt b1.storage_free b2.storage_free
        then true
        else if fl.lt b2.storage_free b1.storage_free
        then false
        else ltb_ℤ i j)

module _ {F : Type 0} ⦃fl : Float F⦄ (params : PlanParams F) where
  -- The partitions up to the first one below the threshold.
  unfoldable pub above_threshold : List Partition → List Partition
  unfolding size_or_zero
  above_threshold [] = []
  above_threshold (p ∷ ps) =
      let rest = above_threshold ps in
      if fl.lt (size_or_zero params.partition_meta p)
        (fl.of_ℕ (params.partition_size_threshold * 1048576))
      then []
      else p ∷ rest

  unfoldable pub top_partitions : Mappings → List Partition
  unfolding largest_partitions above_threshold
  top_partitions m =
      elim (largest_partitions params.source_id params.top_partitions_limit params.partition_meta
        m) [ ok ps ↦ above_threshold ps | err e ↦ [] ]

  -- The first broker of the source's locality that is neither the source nor an offload target.
  unfoldable pub same_locality : String → BrokerList F → Option (Broker F)
  unfolding has
  same_locality l [] = none
  same_locality l (b ∷ bl) =
      let rest = same_locality l bl in
      if b.locality == l
        && not (b.id == params.source_id)
        && not (has b.id params.offload_targets_map)
      then some b
      else rest

  -- The constraints of the brokers that hold the partition or are to receive it.
  unfoldable pub relocation_constraints :
      BrokerMap F → RelocationPlan → Partition → Option (Constraints F)
  unfolding deref is_planned merged_constraints take_all
  relocation_constraints bm plan p = do
    held ← deref bm (filter (λ id. not (id == params.source_id)) p.replicas)
    receiving ← deref bm (map (λ ids. ids.1) (or_nil (is_planned plan p)))
    some (
        take_all (map zero_broker (keys params.offload_targets_map))
          (merged_constraints (held ++ receiving)))

  -- The destination, and the brokers as its choice leaves them.
  pub record Destination : Type 0 where
    pub chosen : Option (Broker F)
    pub brokers : BrokerMap F

  abbrev pub destination_of : Selection F → Destination
  destination_of s = record {
    chosen = elim s.result [ ok b ↦ some b | err e ↦ none ];
    brokers = s.brokers;
  }

  unfoldable pub find_destination : Draw → String → PlanState F → Partition → Option Destination
  unfolding sort_by_storage same_locality relocation_constraints best_candidate
  find_destination draw l st p =
      let by_storage = sort_by_storage (values st.brokers) in
      if params.locality_scoped
      then some (record { chosen = same_locality l by_storage; brokers = st.brokers })
      else (do
        c ← relocation_constraints st.brokers st.plan p
        s ← best_candidate draw st.brokers (map (λ b. b.id) by_storage) c "storage" (pos 0)
        some (destination_of s))

  -- The relocation is scheduled.
  unfoldable pub schedule : PlanState F → Partition → ℤ → F → F → PlanState F
  unfolding lookup insert modify add_relocation remove
  schedule st p dest source_free dest_free =
      let source = params.source_id in
      record {
        relos =
            insert source
              (or_nil (lookup source st.relos) ++ record { partition = p; destination = dest } ∷ [])
              st.relos;
        mappings = (remove source p st.mappings).0;
        brokers =
            modify dest (λ b. record b { storage_free = dest_free })
              (modify source (λ b. record b { storage_free = source_free }) st.brokers);
        plan = add_relocation st.plan p (source, dest);
      }

  -- Whether both estimates stay within the tolerance around the mean.
  unfoldable pub is_tolerated : F → F → F → Bool
  is_tolerated mean_free source_free dest_free =
      not (fl.lt (fl.mul mean_free (fl.add (fl.of_ℕ 1) params.tolerance)) source_free)
      && not (fl.lt dest_free (fl.mul mean_free (fl.sub (fl.of_ℕ 1) params.tolerance)))

  -- One partition, at the source broker as it stands: whether it is scheduled, and the state.
  unfoldable pub try_destination :
      F → Partition → PlanState F → Broker F → Option (Broker F) → Bool × PlanState F
  unfolding size_or_zero is_tolerated schedule
  try_destination mean_free p st source none = (false, st)
  try_destination mean_free p st source (some dest) =
      let size = size_or_zero params.partition_meta p in
      let source_free = fl.add source.storage_free size in
      let dest_free = fl.sub dest.storage_free size in
      if is_tolerated mean_free source_free dest_free
      then (true, schedule st p dest.id source_free dest_free)
      else (false, st)

  unfoldable pub try_partition :
      Draw → F → String → Partition → PlanState F → Option (Bool × PlanState F)
  unfolding find_destination try_destination lookup
  try_partition draw mean_free l p st = do
    d ← find_destination draw l st p
    source ← lookup params.source_id d.brokers
    some (try_destination mean_free p (record st { brokers = d.brokers }) source d.chosen)

  -- The loop, which ends at the first placement; it returns reloCount.
  unfoldable pub plan_partitions :
      Draw → F → String → List Partition → PlanState F → Option (ℕ × PlanState F)
  unfolding try_partition
  plan_partitions draw mean_free l [] st = some (0, st)
  plan_partitions draw mean_free l (p ∷ ps) st = do
    r ← try_partition draw mean_free l p st
    let rest = plan_partitions draw mean_free l ps r.1
    if r.0 then some (1, r.1) else rest

  -- planRelocationsForBroker
  unfoldable pub plan_relocations_for_broker : Draw → PlanState F → Option (ℕ × PlanState F)
  unfolding top_partitions plan_partitions mean lookup
  plan_relocations_for_broker draw st = do
    source ← lookup params.source_id st.brokers
    plan_partitions draw (mean st.brokers) source.locality (top_partitions st.mappings) st
