-- ===== src/Mapper/Rebuild.antt =====
-- mapper/partitions.go: the loops of placeByPosition and placeByPartition, and Rebuild.
pub mod Filling
pub mod Passes
pub mod Uniform
pub mod Returns
pub mod Total
pub mod Candidates
pub mod Replaced
pub mod Carried
pub mod Steps
use kafka_kit.Base.{
  ℕ, zero, suc, ◌+◌, ◌*◌, ℤ, pos, Bool, true, false, Option, some, none, List, [], ◌∷◌, ◌++◌, map,
  String, length, get_elem?, leb, ltb, eqb, ◌==◌, int_key, string_key, if◌then◌else◌, ◌>>=◌,
}
use Prim.Native.Nat.{max}
use kafka_kit.Base.GoMap.{lookup}
use kafka_kit.Base.Float.{Float}
use kafka_kit.Base.Shuffle.{Draw, shuffle, seeded}
use kafka_kit.Mapper.Types.{
  Broker, BrokerMap, Partition, PartitionMap, Error, at_partition, zero_replicas,
  invalid_optimization, invalid_strategy,
}
use kafka_kit.Mapper.Partitions.{sort_partitions, sort_by_size, new_partition_map}
use kafka_kit.Mapper.Placement.{
  RebuildParams, Progress, new_partition, append_replica, replace_at_position, replace_in_partition,
  start,
}

-- The error for each partition with no replica.
unfoldable pub zero_replica_errors : List Partition → List Error
zero_replica_errors [] = []
zero_replica_errors (p ∷ ps) =
    let rest = zero_replica_errors ps in
    if eqb (length p.replicas) 0 then zero_replicas p.topic p.partition ∷ rest else rest

-- The length of the longest replica set.
unfoldable pub longest : List Partition → ℕ
longest [] = 0
longest (p ∷ ps) = max (length p.replicas) (longest ps)

-- What a placement returns, and the brokers as it leaves them.
pub record Placed (F : Type 0) : Type 0 where
  pub partition_map : PartitionMap
  pub errs : List Error
  pub brokers : BrokerMap F

module _ {F : Type 0} where
  unfoldable pub placed : List Partition → Progress F → Placed F
  unfolding zero_replica_errors
  placed qs st = record {
    partition_map = record new_partition_map { partitions = qs };
    errs = st.errs ++ zero_replica_errors qs;
    brokers = st.brokers;
  }

module _ {F : Type 0} ⦃fl : Float F⦄ (draw : Draw) (params : RebuildParams F) where
  -- The body of placeByPosition's inner loop; `skipped` counts replica sets that are done.
  unfoldable pub place_at :
      (pass n : ℕ) → Partition → Partition → ℕ → Progress F → Option (Partition × ℕ × Progress F)
  unfolding lookup replace_at_position
  place_at pass n p q skipped st = elim (get_elem? p.replicas pass) [
    | none ↦ some (q, suc skipped, st)
    | some bid ↦ do
      b ← lookup bid st.brokers
      if b.replace
          then (do
            (q', st') ← replace_at_position draw params pass n p bid q st
            some (q', skipped, st'))
          else some (append_replica bid q, skipped, st)
  ]

  -- One pass over the partitions from number `n` on, beside those of the new map.
  unfoldable pub place_pass :
      (pass n : ℕ)
      → List Partition
      → List Partition
      → ℕ
      → Progress F
      → Option (List Partition × ℕ × Progress F)
  unfolding place_at
  place_pass pass n [] qs skipped st = some ([], skipped, st)
  place_pass pass n (p ∷ ps) [] skipped st = none
  place_pass pass n (p ∷ ps) (q ∷ qs) skipped st = do
    (q', skipped', st') ← place_at pass n p q skipped st
    (qs', skipped'', st'') ← place_pass pass (suc n) ps qs skipped' st'
    some (q' ∷ qs', skipped'', st'')

  -- The passes. Fuel of two more than the longest replica set is enough.
  unfoldable pub place_passes :
      (fuel pass : ℕ)
      → List Partition
      → List Partition
      → ℕ
      → Progress F
      → Option (List Partition × Progress F)
  unfolding place_pass
  place_passes zero pass ps qs skipped st = none
  place_passes (suc fuel) pass ps qs skipped st =
      let next = (do
        (qs', skipped', st') ← place_pass pass 0 ps qs skipped st
        place_passes fuel (suc pass) ps qs' skipped' st') in
      if ltb skipped (length ps) then next else some (qs, st)

  -- placeByPosition
  unfoldable pub place_by_position : List Partition → Option (Placed F)
  unfolding longest start place_passes placed
  place_by_position ps = do
    (qs, st) ← place_passes (longest ps + 2) 0 ps (map new_partition ps) 0 (start draw params)
    some (placed qs st)

  -- The replicas of one partition in placeByPartition.
  unfoldable pub place_replicas :
      Partition → List ℤ → Partition → Progress F → Option (Partition × Progress F)
  unfolding lookup replace_in_partition
  place_replicas p [] q st = some (q, st)
  place_replicas p (bid ∷ bids) q st = do
    b ← lookup bid st.brokers
    (q', st') ←
        (if b.replace
          then replace_in_partition draw params p q st
          else some (append_replica bid q, st))
    place_replicas p bids q' st'

  unfoldable pub place_partitions :
      List Partition → Progress F → Option (List Partition × Progress F)
  unfolding place_replicas
  place_partitions [] st = some ([], st)
  place_partitions (p ∷ ps) st = do
    (q, st') ← place_replicas p p.replicas (new_partition p) st
    (qs, st'') ← place_partitions ps st'
    some (q ∷ qs, st'')

  -- placeByPartition
  unfoldable pub place_by_partition : List Partition → Option (Placed F)
  unfolding start place_partitions placed
  place_by_partition ps = do (qs, st) ← place_partitions ps (start draw params); some (placed qs st)

-- PartitionMap.shuffle of every partition, from the seed counter `s`.
unfoldable pub shuffle_partitions : Draw → ℕ → List Partition → List Partition
unfolding shuffle
shuffle_partitions draw s [] = []
shuffle_partitions draw s (p ∷ ps) =
    record p { replicas = (shuffle draw p.replicas (seeded (pos (s * 1048576)))).0 }
    ∷ shuffle_partitions draw (suc s) ps

-- What Rebuild returns and leaves: it sorts the partitions of the map that it is called on.
pub record Rebuilt (F : Type 0) : Type 0 where
  pub input : List Partition
  pub output : Option PartitionMap
  pub errs : List Error
  pub brokers : BrokerMap F

module _ {F : Type 0} ⦃fl : Float F⦄ (draw : Draw) (params : RebuildParams F) where
  -- The final sort of the new map.
  unfoldable pub finish : List Partition → (List Partition → List Partition) → Placed F → Rebuilt F
  unfolding sort_partitions
  finish input f r = record {
    input = input;
    output =
        some
          (record r.partition_map { partitions = sort_partitions (f r.partition_map.partitions) });
    errs = r.errs;
    brokers = r.brokers;
  }

  abbrev refuse : List Partition → Error → Option (Rebuilt F)
  refuse ps e = some (record { input = ps; output = none; errs = e ∷ []; brokers = params.bm })

  -- PartitionMap.Rebuild
  unfoldable pub rebuild : Option (Rebuilt F)
  unfolding sort_partitions sort_by_size place_by_position place_by_partition shuffle_partitions
      finish
  rebuild =
      let by_name = sort_partitions params.pm.partitions in
      let by_size = sort_by_size params.pmm params.pm.partitions in
      if params.strategy == "count"
      then (do r ← place_by_position draw params by_name; some (finish by_name (λ ps. ps) r))
      else if params.strategy == "storage"
      then (if params.optimization == "distribution"
          then (do r ← place_by_position draw params by_size; some (finish by_size (λ ps. ps) r))
          else if params.optimization == "storage"
          then (do
            r ← place_by_partition draw params by_size
            some (finish by_size (shuffle_partitions draw 0) r))
          else refuse by_size (invalid_optimization params.optimization))
      else refuse params.pm.partitions (invalid_strategy params.strategy)
