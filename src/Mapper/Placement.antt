-- ===== src/Mapper/Placement.antt =====
-- mapper/partitions.go: placeByPosition, placeByPartition and Rebuild. `none` is a panic: a broker of
-- a replica set that the broker map does not hold.
pub mod Frame
pub mod Step
pub mod Replace
use kafka_kit.Base.{
  ℕ, zero, suc, ◌+◌, ◌*◌, ℤ, pos, Bool, true, false, not, ◌&&◌, Option, some, none, List, [], ◌∷◌,
  ◌++◌, map, String, length, get_elem?, leb, ltb, eqb, ◌==◌, int_key, string_key, if◌then◌else◌,
  ◌>>=◌,
}
use kafka_kit.Base.GoMap.{Map, lookup, insert, keys}
use kafka_kit.Base.Float.{Float}
use kafka_kit.Base.Shuffle.{Draw, shuffle, seeded}
use kafka_kit.Mapper.Types.{
  Broker, BrokerMap, Partition, PartitionMap, PartitionMetaMap, Error, no_brokers, at_partition,
  zero_replicas, Result, ok, err,
}
use kafka_kit.Mapper.Brokers.{filter_map, not_replaced_brokers_fn}
use kafka_kit.Mapper.Constraints.{
  Constraints, ConstraintsParams, Selection, new_constraints, merge_constraints, deref,
  passes_with_params, select_broker,
}
use kafka_kit.Mapper.Partitions.{size, new_partition_map}

pub record RebuildParams (F : Type 0) : Type 0 where
  pub pm : PartitionMap
  pub pmm : PartitionMetaMap F
  pub bm : BrokerMap F
  pub strategy : String
  pub optimization : String
  -- The ID of a replaced broker to that of its substitute.
  pub affinities : Map ℤ ℤ
  pub partn_sz_factor : F
  pub min_unique_rack_ids : ℤ

-- What the placement of a replica reads and writes beside the new map.
pub record Progress (F : Type 0) : Type 0 where
  pub brokers : BrokerMap F
  -- `bl`, in the order that the last selection left.
  pub order : List ℤ
  pub errs : List Error

-- A partition of the new map, with no replica yet.
abbrev pub new_partition : Partition → Partition
new_partition p = record p { replicas = [] }

abbrev pub append_replica : ℤ → Partition → Partition
append_replica id q = record q { replicas = q.replicas ++ id ∷ [] }

module _ {F : Type 0} where
  -- SubstitutionAffinities.Get counts a use of the substitute.
  unfoldable pub get_affinity : Map ℤ ℤ → ℤ → BrokerMap F → Option (Option (Broker F) × BrokerMap F)
  unfolding lookup insert
  get_affinity sa id bm = elim (lookup id sa) [
    | none ↦ some (none, bm)
    | some sub ↦ do
      b ← lookup sub bm
      let b' = record b { used = b.used + 1 }
      some (some b', insert b.id b' bm)
  ]

  -- The progress with an error for a partition.
  abbrev pub fail : Partition → Error → Progress F → Progress F
  fail p e st = record st { errs = st.errs ++ at_partition p.topic p.partition e ∷ [] }

module _ {F : Type 0} where
  -- What becomes of a partition and of the progress after a selection.
  unfoldable pub placed_result :
      Partition → Partition → Progress F → Selection F → Partition × Progress F
  placed_result p q st s = elim s.result [
    | ok b ↦ (append_replica b.id q, record st { brokers = s.brokers; order = s.order })
    | err e ↦ (q, fail p e (record st { brokers = s.brokers; order = s.order }))
  ]

module _ {F : Type 0} ⦃fl : Float F⦄ where
  -- The constraints of the old replica set and of the replicas placed so far.
  unfoldable pub replica_constraints : BrokerMap F → Partition → Partition → Option (Constraints F)
  unfolding deref merge_constraints
  replica_constraints bm p q = do
    old ← deref bm p.replicas
    placed ← deref bm q.replicas
    some (merge_constraints (old ++ placed) new_constraints)

module _ {F : Type 0} ⦃fl : Float F⦄ (draw : Draw) (params : RebuildParams F) where
  -- The request size, which the storage strategy reads from the metadata.
  unfoldable pub request_size : Partition → Result F
  unfolding size
  request_size p =
      if params.strategy == "storage"
      then (elim (size params.pmm p) [
        | ok s ↦ ok (fl.mul s params.partn_sz_factor)
        | err e ↦ err e
      ])
      else ok (fl.of_ℕ 0)

  abbrev pub constraints_params : F → ℤ → ConstraintsParams F
  constraints_params requested seed = record {
    selector_method = params.strategy;
    min_unique_rack_ids = params.min_unique_rack_ids;
    request_size = requested;
    seed_val = seed;
  }

  -- SelectBroker and what is done with its result.
  unfoldable pub place_selected :
      Constraints F
      → ConstraintsParams F
      → Partition
      → Partition
      → Progress F
      → Option (Partition × Progress F)
  unfolding select_broker placed_result
  place_selected c cp p q st = do
    s ← select_broker draw st.brokers c st.order cp
    some (placed_result p q st s)

  -- A selection for a request size, or the error of reading it.
  unfoldable pub place_sized :
      Constraints F
      → Partition
      → Partition
      → Progress F
      → Result F
      → Option (Partition × Progress F)
  unfolding place_selected
  place_sized c p q st (err e) = some (q, fail p e st)
  place_sized c p q st (ok requested) =
      place_selected c (constraints_params requested (pos 1)) p q st

  -- A replacement is placed by placeByPartition.
  unfoldable pub replace_in_partition :
      Partition → Partition → Progress F → Option (Partition × Progress F)
  unfolding replica_constraints request_size place_sized
  replace_in_partition p q st = do
    c ← replica_constraints st.brokers p q
    place_sized c p q st (request_size p)

  -- With the count strategy the substitute is placed if it passes; else a broker is selected.
  unfoldable pub place_substitute :
      Constraints F
      → Partition
      → Partition
      → Progress F
      → F
      → ℤ
      → Option (Broker F)
      → Option (Partition × Progress F)
  unfolding place_selected passes_with_params
  place_substitute c p q st requested seed none =
      place_selected c (constraints_params requested seed) p q st
  place_substitute c p q st requested seed (some sub) =
      if params.strategy == "count"
      then (if passes_with_params c (constraints_params requested (pos 0)) sub
          then some (append_replica sub.id q, st)
          else some (q, fail p no_brokers st))
      else place_selected c (constraints_params requested seed) p q st

  -- The substitute of the replaced broker `bid` is looked up once the request size is known.
  unfoldable pub place_sized_at :
      (pass n : ℕ)
      → Constraints F
      → Partition
      → ℤ
      → Partition
      → Progress F
      → Result F
      → Option (Partition × Progress F)
  unfolding get_affinity place_substitute
  place_sized_at pass n c p bid q st (err e) = some (q, fail p e st)
  place_sized_at pass n c p bid q st (ok requested) = do
    (affinity, bm) ← get_affinity params.affinities bid st.brokers
    place_substitute c p q (record st { brokers = bm }) requested (pos (pass * n + 1)) affinity

  -- A replacement is placed at pass `pass` of partition number `n`.
  unfoldable pub replace_at_position :
      (pass n : ℕ) → Partition → ℤ → Partition → Progress F → Option (Partition × Progress F)
  unfolding replica_constraints request_size place_sized_at
  replace_at_position pass n p bid q st = do
    c ← replica_constraints st.brokers p q
    place_sized_at pass n c p bid q st (request_size p)

  -- The brokers that may be chosen, in the map's order.
  unfoldable pub start : Progress F
  unfolding filter_map
  start = record {
    brokers = params.bm;
    order = keys (filter_map not_replaced_brokers_fn params.bm);
    errs = [];
  }
