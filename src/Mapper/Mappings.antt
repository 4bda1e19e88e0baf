-- ===== src/Mapper/Mappings.antt =====
-- mapper/mappings.go: the partitions that each broker holds.
pub mod Held
pub mod Counted
use kafka_kit.Base.{
  ℕ, ℤ, not, Option, some, none, List, [], ◌∷◌, ◌++◌, String, take, filter, int_key, string_key,
}
use kafka_kit.Base.GoMap.{Map, lookup, insert}
use kafka_kit.Base.Float.{Float}
use kafka_kit.Mapper.Types.{
  Partition, PartitionMetaMap, Error, Result, ok, err, no_mapping_for_broker, no_mapping_for_topic,
}
use kafka_kit.Mapper.Partitions.{sort_by_size}
use kafka_kit.Mapper.Partitions.Compare.{equal_partition}

abbrev pub Topics : Type 0
Topics = Map String (List Partition)

abbrev pub Mappings : Type 0
Mappings = Map ℤ Topics

-- m[id], and m[id][topic], with nil for a missing key.
abbrev pub topics_of : ℤ → Mappings → Topics
topics_of id m = elim (lookup id m) [ some t ↦ t | none ↦ [] ]

abbrev pub held : String → Topics → List Partition
held topic t = elim (lookup topic t) [ some ps ↦ ps | none ↦ [] ]

-- One replica of PartitionMap.Mappings.
unfoldable pub map_replica : Partition → ℤ → Mappings → Mappings
unfolding lookup insert
map_replica p id m =
    let t = topics_of id m in insert id (insert p.topic (held p.topic t ++ p ∷ []) t) m

unfoldable pub map_replicas : Partition → List ℤ → Mappings → Mappings
unfolding map_replica
map_replicas p [] m = m
map_replicas p (id ∷ ids) m = map_replicas p ids (map_replica p id m)

unfoldable pub map_partitions : List Partition → Mappings → Mappings
unfolding map_replicas
map_partitions [] m = m
map_partitions (p ∷ ps) m = map_partitions ps (map_replicas p p.replicas m)

-- PartitionMap.Mappings
unfoldable pub mappings : List Partition → Mappings
unfolding map_partitions
mappings ps = map_partitions ps []

unfoldable pub all_held : Topics → List Partition
all_held [] = []
all_held ((topic, ps) ∷ t) = ps ++ all_held t

-- Mappings.LargestPartitions
unfoldable pub largest_partitions :
    {F : Type 0} ⦃fl : Float F⦄ → ℤ → ℕ → PartitionMetaMap F → Mappings → Result (List Partition)
unfolding lookup all_held sort_by_size
largest_partitions id k pmm m = elim (lookup id m) [
  | none ↦ err (no_mapping_for_broker id)
  | some t ↦ ok (take k (sort_by_size pmm (all_held t)))
]

-- Mappings.Remove
unfoldable pub remove : ℤ → Partition → Mappings → Mappings × Option Error
unfolding lookup insert equal_partition
remove id p m = elim (lookup id m) [
  | none ↦ (m, some (no_mapping_for_broker id))
  | some t ↦ elim (lookup p.topic t) [
    | none ↦ (m, some (no_mapping_for_topic id p.topic))
    | some ps ↦ (insert id (insert p.topic (filter (λ q. not (equal_partition q p)) ps) t) m, none)
  ]
]
