-- ===== src/Mapper/Partitions.antt =====
-- mapper/partitions.go: partition maps, apart from placement. A negative replication factor, at
-- which the source panics, is outside the model.
pub mod Compare
use kafka_kit.Base.{
  ℕ, zero, suc, ◌+◌, ◌-◌, ℤ, pos, Bool, true, false, not, ◌&&◌, Option, some, none, List, [], ◌∷◌,
  ◌++◌, map, String, length, take, replicate, ltb, leb, eqb, ltb_ℤ, ltb_text, ◌==◌, int_key,
  string_key, if◌then◌else◌,
}
use kafka_kit.Base.GoMap.{Map, lookup, insert, has, contains}
use kafka_kit.Base.Float.{Float}
use kafka_kit.Base.Sort.{sort}
use kafka_kit.Mapper.Types.{
  Broker, Partition, PartitionMap, PartitionMetaMap, Result, ok, err, topic_not_found,
  partition_not_found, stub_broker_id,
}

abbrev pub stubs : ℕ → List ℤ
stubs n = replicate n stub_broker_id

-- NewPartitionMap
abbrev pub new_partition_map : PartitionMap
new_partition_map = record { version = 1; partitions = [] }

-- The loop of Populate, which has made the partitions below `i`; `n` are left.
unfoldable pub populate_from : String → ℕ → ℕ → ℕ → List Partition
populate_from s r i zero = []
populate_from s r i (suc n) =
    record { topic = s; partition = pos i; replicas = stubs r } ∷ populate_from s r (i + 1) n

-- NewPartitionMap(Populate(s, n, r))
unfoldable pub populate : String → ℕ → ℕ → PartitionMap → PartitionMap
unfolding populate_from
populate s n r p = record p { partitions = p.partitions ++ populate_from s r 0 n }

-- PartitionList.Less
unfoldable pub less_partition : Partition → Partition → Bool
less_partition a b =
    if ltb_text a.topic b.topic
    then true
    else if ltb_text b.topic a.topic
    then false
    else ltb_ℤ a.partition b.partition

unfoldable pub sort_partitions : List Partition → List Partition
unfolding sort less_partition
sort_partitions ps = sort less_partition ps

-- PartitionMetaMap.Size
unfoldable pub size : {F : Type 0} → PartitionMetaMap F → Partition → Result F
unfolding lookup
size pmm p = elim (lookup p.topic pmm) [
  | none ↦ err (topic_not_found p.topic)
  | some t ↦ elim (lookup p.partition t) [
    | none ↦ err (partition_not_found p.topic p.partition)
    | some s ↦ ok s
  ]
]

module _ {F : Type 0} ⦃fl : Float F⦄ (pmm : PartitionMetaMap F) where
  -- s, _ := pmm.Size(p)
  unfoldable pub size_or_zero : Partition → F
  unfolding size
  size_or_zero p = elim (size pmm p) [ ok s ↦ s | err e ↦ fl.of_ℕ 0 ]

  -- partitionsBySize.Less
  unfoldable pub less_by_size : Partition → Partition → Bool
  unfolding size_or_zero
  less_by_size a b =
      if fl.lt (size_or_zero b) (size_or_zero a)
      then true
      else if fl.lt (size_or_zero a) (size_or_zero b)
      then false
      else ltb_ℤ a.partition b.partition

  -- PartitionList.SortBySize
  unfoldable pub sort_by_size : List Partition → List Partition
  unfolding sort less_by_size
  sort_by_size ps = sort less_by_size ps

unfoldable pub is_mapped : ℤ → List Partition → Bool
unfolding contains
is_mapped id [] = false
is_mapped id (p ∷ ps) = if contains id p.replicas then true else is_mapped id ps

-- PartitionMap.BrokersIn
unfoldable pub brokers_in : {F : Type 0} → PartitionMap → Broker F → Bool
unfolding is_mapped
brokers_in pm b = is_mapped b.id pm.partitions

-- SetReplication at one replica set.
unfoldable pub set_replicas : ℕ → List ℤ → List ℤ
set_replicas r replicas =
    let l = length replicas in
    if ltb r l then take r replicas else if ltb l r then replicas ++ stubs (r - l) else replicas

abbrev pub resize : ℕ → Partition → Partition
unfolding set_replicas
resize r p = record p { replicas = set_replicas r p.replicas }

-- PartitionMap.SetReplication
unfoldable pub set_replication : ℕ → PartitionMap → PartitionMap
unfolding set_replicas
set_replication r pm =
    if eqb r 0 then pm else record pm { partitions = map (resize r) pm.partitions }
