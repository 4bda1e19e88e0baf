-- ===== src/Chunks.antt =====
-- cmd/topicmappr/commands/reassignments.go: getPartitionMapChunks, which breaks a reassignment into a
-- sequence of smaller ones, without its output.
pub mod Settled
pub mod Converged
mod Tests
use kafka_kit.Base.{
  ℕ, zero, suc, ℤ, Bool, true, false, not, Option, some, none, List, [], ◌∷◌, map, length, take,
  eqb, int_key, if◌then◌else◌,
}
use kafka_kit.Base.GoMap.{contains}
use kafka_kit.Base.Outcome.{Run, exits, panics, runs_on, returns, and_then}
use kafka_kit.Mapper.Types.{Partition, PartitionMap}
use kafka_kit.Mapper.Brokers.{BrokerList, sort_by_id_desc}
use kafka_kit.Mapper.Partitions.Compare.{difference, copy}

-- xs[n:], empty beyond the end.
abbrev pub drop {ℓ} : {A : Type ℓ} → ℕ → List A → List A
drop zero xs = xs
drop (suc n) [] = []
drop (suc n) (x ∷ xs) = drop n xs

abbrev pub head? {ℓ} : {A : Type ℓ} → List A → Option A
head? [] = none
head? (x ∷ xs) = some x

-- A replica is on a broker of the chunk.
unfoldable pub is_touched : List ℤ → List ℤ → Bool
unfolding contains
is_touched chunk [] = false
is_touched chunk (r ∷ rs) = if contains r chunk then true else is_touched chunk rs

-- tempMap.Partitions[pIndex].Replicas[rIndex] = finalMap.Partitions[pIndex].Replicas[rIndex], for
-- replica lists of one length.
unfoldable pub switch_replicas : List ℤ → List ℤ → List ℤ → List ℤ
unfolding contains
switch_replicas chunk [] fs = []
switch_replicas chunk (r ∷ rs) [] = r ∷ rs
switch_replicas chunk (r ∷ rs) (f ∷ fs) =
    (if contains r chunk then f else r) ∷ switch_replicas chunk rs fs

-- One partition, with that of the final map at its index.
unfoldable pub switch_partition : List ℤ → Partition → Option Partition → Run Partition
unfolding is_touched switch_replicas
switch_partition chunk p final =
    if not (is_touched chunk p.replicas) then returns p else elim final [
      | none ↦ panics
      | some f ↦
          if not (eqb (length p.replicas) (length f.replicas))
          then exits
          else returns (record p { replicas = switch_replicas chunk p.replicas f.replicas })
    ]

-- The loop over intermediateMap.Partitions.
unfoldable pub switch_partitions : List ℤ → List Partition → List Partition → Run (List Partition)
unfolding switch_partition and_then
switch_partitions chunk [] finals = returns []
switch_partitions chunk (p ∷ ps) finals =
    let rest = switch_partitions chunk ps (drop 1 finals) in
    and_then (switch_partition chunk p (head? finals)) (λ q. and_then rest (λ qs. returns (q ∷ qs)))

-- out = append(out, tempMap), unless tempMap is equal to intermediateMap.
unfoldable pub add_chunk : PartitionMap → PartitionMap → List PartitionMap → List PartitionMap
add_chunk temp intermediate out = elim (difference temp intermediate) [
  | none ↦ out
  | some d ↦ temp ∷ out
]

-- The outer loop with intermediateMap; `ids` is brokerIds[i:].
unfoldable pub chunks_from : ℕ → PartitionMap → ℕ → List ℤ → PartitionMap → Run (List PartitionMap)
unfolding switch_partitions and_then add_chunk copy
chunks_from n final step [] intermediate = returns []
chunks_from zero final step (id ∷ ids) intermediate = runs_on
chunks_from (suc n) final step (id ∷ ids) intermediate =
    and_then (switch_partitions (take step (id ∷ ids)) intermediate.partitions final.partitions)
      (λ ps.
        let temp = record (copy intermediate) { partitions = ps } in
        and_then (chunks_from n final step (drop step (id ∷ ids)) temp)
          (λ out. returns (add_chunk temp intermediate out)))

-- The brokers whose replicas are moved: all but the first in descending order of their IDs.
unfoldable pub moved_ids : {F : Type 0} → BrokerList F → List ℤ
unfolding sort_by_id_desc
moved_ids bl = drop 1 (map (λ b. b.id) (sort_by_id_desc bl))

-- getPartitionMapChunks, with a step size that is not negative.
unfoldable pub get_partition_map_chunks :
    {F : Type 0} → PartitionMap → PartitionMap → BrokerList F → ℕ → Run (List PartitionMap)
unfolding chunks_from moved_ids copy
get_partition_map_chunks final initial bl step =
    chunks_from (length (moved_ids bl)) final step (moved_ids bl) (copy initial)
