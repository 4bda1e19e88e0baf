-- ===== src/Commands.antt =====
-- cmd/topicmappr/commands/rebuild_steps.go: the steps of a rebuild that change the partition map,
-- without their output.
pub mod Leader
pub mod Evacuated
mod Tests
use kafka_kit.Base.{
  ℕ, suc, ◌+◌, ℤ, Bool, true, false, not, Option, some, none, List, [], ◌∷◌, String, set, eqb, ltb,
  ◌==◌, int_key, string_key, if◌then◌else◌,
}
use kafka_kit.Base.Outcome.{Run, exits, panics, returns, and_then}
use kafka_kit.Base.GoMap.{Map, contains, lookup}
use kafka_kit.Base.Float.{Float}
use kafka_kit.Base.Shuffle.{Draw}
use kafka_kit.Mapper.Types.{Broker, BrokerMap, Partition, PartitionMap, PartitionMetaMap, Error}
use kafka_kit.Mapper.Brokers.{all_brokers_fn, replaced_brokers_fn}
use kafka_kit.Mapper.Ownership.{sub_storage}
use kafka_kit.Mapper.Partitions.{set_replication}
use kafka_kit.Mapper.Partitions.Compare.{copy, strip}
use kafka_kit.Mapper.Placement.{RebuildParams}
use kafka_kit.Mapper.Rebuild.{Rebuilt, rebuild}
use kafka_kit.Mapper.Topics.{ReplicaSets, replica_sets, topics}

-- updateReplicationFactor
unfoldable pub update_replication_factor : ℕ → PartitionMap → PartitionMap
unfolding set_replication
update_replication_factor replication pm =
    if ltb 0 replication then set_replication replication pm else pm

-- A result of `none` is a panic.
unfoldable pub of_option {ℓ} : {A : Type ℓ} → Option A → Run A
of_option none = panics
of_option (some a) = returns a

module _ {F : Type 0} ⦃fl : Float F⦄ (draw : Draw) where
  -- pm.Rebuild after SubStorage, whose error ends the command.
  unfoldable pub rebuild_after : RebuildParams F → BrokerMap F × Option Error → Run (Rebuilt F)
  unfolding of_option rebuild
  rebuild_after params (bm, some e) = exits
  rebuild_after params (bm, none) = of_option (rebuild draw (record params { bm = bm }))

  -- buildMap, where `params` holds the input map.
  unfoldable pub build_map : Bool → RebuildParams F → Run (Rebuilt F)
  unfolding rebuild_after sub_storage strip
  build_map force_rebuild params =
      let stripped = if force_rebuild then strip params.pm else params.pm in
      let f = if force_rebuild then all_brokers_fn else replaced_brokers_fn in
      rebuild_after (record params { pm = stripped })
        (if params.strategy == "storage"
          then sub_storage params.pmm f params.pm.partitions params.bm
          else (params.bm, none))

-- The leader of the original replica set goes before the replicas, unless it is among them.
unfoldable pub prepend_leader : Option (List ℤ) → Partition → Run Partition
unfolding contains
prepend_leader none p = panics
prepend_leader (some []) p = panics
prepend_leader (some (leader ∷ rs)) p =
    returns (if contains leader p.replicas then p else record p { replicas = leader ∷ p.replicas })

unfoldable pub phase_partitions : String → ReplicaSets → List Partition → Run (List Partition)
unfolding prepend_leader and_then lookup
phase_partitions topic rs [] = returns []
phase_partitions topic rs (p ∷ ps) =
    let rest = phase_partitions topic rs ps in
    and_then (if p.topic == topic then prepend_leader (lookup p.partition rs) p else returns p)
      (λ q. and_then rest (λ qs. returns (q ∷ qs)))

unfoldable pub phase_topics : List Partition → List String → List Partition → Run (List Partition)
unfolding phase_partitions replica_sets and_then
phase_topics originals [] ps = returns ps
phase_topics originals (t ∷ ts) ps =
    and_then (phase_partitions t (replica_sets t originals) ps) (λ qs. phase_topics originals ts qs)

-- phasedReassignment
unfoldable pub phased_reassignment : PartitionMap → PartitionMap → Run PartitionMap
unfolding phase_topics topics copy
phased_reassignment pm1 pm2 =
    and_then (phase_topics pm1.partitions (topics pm2.partitions) pm2.partitions)
      (λ ps. returns (record (copy pm2) { partitions = ps }))

-- p.Replicas[len(p.Replicas)-1], where `r` is the first one.
abbrev pub last_replica : ℤ → List ℤ → ℤ
last_replica r [] = r
last_replica r (x ∷ xs) = last_replica x xs

-- The loop over the replicas from index `j`: where the new leader stands, and who it is.
unfoldable pub find_leader : List ℤ → ℤ → ℕ → List ℤ → Run (Option (ℕ × ℤ))
unfolding contains
find_leader evac last j [] = returns none
find_leader evac last j (r ∷ rs) =
    let rest = find_leader evac last (j + 1) rs in
    if not (contains r evac) then returns (some (j, r)) else if r == last then exits else rest

-- The leader and the new leader swap places.
unfoldable pub swap_leader : ℤ → Partition → Option (ℕ × ℤ) → Partition
swap_leader leader p none = p
swap_leader leader p (some (j, r)) = record p { replicas = set (set p.replicas j leader) 0 r }

unfoldable pub evacuate_replicas : List ℤ → Partition → List ℤ → Run Partition
unfolding find_leader swap_leader and_then contains
evacuate_replicas evac p [] = panics
evacuate_replicas evac p (leader ∷ rs) =
    if not (contains leader evac)
    then returns p
    else and_then (find_leader evac (last_replica leader rs) 0 (leader ∷ rs))
        (λ found. returns (swap_leader leader p found))

-- One partition.
unfoldable pub evacuate_partition : List ℤ → List String → Partition → Run Partition
unfolding evacuate_replicas contains
evacuate_partition evac evac_topics p =
    if not (contains p.topic evac_topics) then returns p else evacuate_replicas evac p p.replicas

unfoldable pub evacuate_partitions : List ℤ → List String → List Partition → Run (List Partition)
unfolding evacuate_partition and_then
evacuate_partitions evac evac_topics [] = returns []
evacuate_partitions evac evac_topics (p ∷ ps) =
    let rest = evacuate_partitions evac evac_topics ps in
    and_then (evacuate_partition evac evac_topics p) (λ q. and_then rest (λ qs. returns (q ∷ qs)))

-- evacuateLeadership
unfoldable pub evacuate_leadership : PartitionMap → List ℤ → List String → Run PartitionMap
unfolding evacuate_partitions and_then copy
evacuate_leadership pm evac evac_topics =
    and_then (evacuate_partitions evac evac_topics pm.partitions)
      (λ ps. returns (record (copy pm) { partitions = ps }))
