-- ===== src/Mapper/Ownership.antt =====
-- mapper/brokers.go: SubStorage and BrokerMapFromPartitionMap, which read a partition map.
use kafka_kit.Base.{
  ◌+◌, ℤ, negsuc, Bool, true, not, Option, some, none, List, [], ◌∷◌, ◌==◌, int_key, if◌then◌else◌,
}
use kafka_kit.Base.GoMap.{lookup, insert, has, modify}
use kafka_kit.Base.Float.{Float}
use kafka_kit.Mapper.Types.{
  Broker, BrokerMap, BrokerMetaMap, Partition, PartitionMap, PartitionMetaMap, Error,
  broker_not_found, ok, err, stub_broker_id,
}
use kafka_kit.Mapper.Brokers.Update.{zero_broker}
use kafka_kit.Mapper.Partitions.{size}

-- NewBrokerMap's only broker.
abbrev pub stub_broker : {F : Type 0} ⦃fl : Float F⦄ → Broker F
stub_broker = record (zero_broker stub_broker_id) { replace = true }

module _ {F : Type 0} ⦃fl : Float F⦄ where
  -- NewBrokerMap
  abbrev pub new_broker_map : BrokerMap F
  new_broker_map = (stub_broker_id, stub_broker) ∷ []

  abbrev pub give_back : F → Broker F → Broker F
  give_back s b = record b { storage_free = fl.add b.storage_free s }

  -- SubStorage over one replica set: what was added before an error stays added.
  unfoldable pub sub_replicas :
      (Broker F → Bool) → F → List ℤ → BrokerMap F → BrokerMap F × Option Error
  unfolding lookup modify
  sub_replicas f s [] bm = (bm, none)
  sub_replicas f s (bid ∷ bids) bm = elim (lookup bid bm) [
    | none ↦ (bm, some (broker_not_found bid))
    | some b ↦ sub_replicas f s bids (if f b then modify bid (give_back s) bm else bm)
  ]

  -- BrokerMap.SubStorage
  unfoldable pub sub_storage :
      PartitionMetaMap F
      → (Broker F → Bool)
      → List Partition
      → BrokerMap F
      → BrokerMap F × Option Error
  unfolding size sub_replicas
  sub_storage pmm f [] bm = (bm, none)
  sub_storage pmm f (p ∷ ps) bm = elim (size pmm p) [
    | err e ↦ (bm, some e)
    | ok s ↦
        let r = sub_replicas f s p.replicas bm in
        elim r.1 [ some e ↦ r | none ↦ sub_storage pmm f ps r.0 ]
  ]

  -- One replica of BrokerMapFromPartitionMap.
  unfoldable pub own_replica : BrokerMetaMap F → Bool → ℤ → BrokerMap F → BrokerMap F
  unfolding has insert modify lookup
  own_replica bm force id bmap =
      let known = if has id bmap then bmap else insert id (zero_broker id) bmap in
      let counted =
        if not force then modify id (λ b. record b { used = b.used + 1 }) known else known in
      if id == negsuc 0 then bmap else elim (lookup id bm) [
        | some meta ↦
            modify id (λ b. record b { locality = meta.rack; storage_free = meta.storage_free })
              counted
        | none ↦ counted
      ]

  unfoldable pub own_replicas : BrokerMetaMap F → Bool → List ℤ → BrokerMap F → BrokerMap F
  unfolding own_replica
  own_replicas bm force [] bmap = bmap
  own_replicas bm force (id ∷ ids) bmap = own_replicas bm force ids (own_replica bm force id bmap)

  unfoldable pub own_partitions :
      BrokerMetaMap F → Bool → List Partition → BrokerMap F → BrokerMap F
  unfolding own_replicas
  own_partitions bm force [] bmap = bmap
  own_partitions bm force (p ∷ ps) bmap =
      own_partitions bm force ps (own_replicas bm force p.replicas bmap)

  -- BrokerMapFromPartitionMap
  unfoldable pub broker_map_from_partition_map : PartitionMap → BrokerMetaMap F → Bool → BrokerMap F
  unfolding own_partitions insert
  broker_map_from_partition_map pm bm force =
      insert stub_broker_id stub_broker (own_partitions bm force pm.partitions [])
