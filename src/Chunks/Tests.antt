-- ===== src/Chunks/Tests.antt =====
-- getPartitionMapChunks at concrete inputs.
use kafka_kit.Base.{ℤ, pos, ◌≡◌, refl, List, [], ◌∷◌, nil, cons, All, arith}
use kafka_kit.Samples.{part, broker, stub}
use kafka_kit.Mapper.Types.{PartitionMap}
use kafka_kit.Mapper.Brokers.{BrokerList}
use kafka_kit.Mapper.Partitions.Compare.{difference, copy}
use kafka_kit.Base.Outcome.{exits, runs_on, returns}
use kafka_kit.Chunks.{moved_ids, get_partition_map_chunks}
use kafka_kit.Chunks.Settled.{AllSettled}
use kafka_kit.Chunks.Converged.{last_or, IsOnTheWay, chunks_converge}

abbrev brokers : BrokerList ℤ
brokers = broker 1 "a" 0 0 ∷ broker 2 "b" 1 0 ∷ stub ∷ broker 3 "a" 2 0 ∷ broker 4 "b" 1 0 ∷ []

abbrev old_map : PartitionMap
old_map = record {
  version = 1;
  partitions = part "logs" 0 (pos 4 ∷ pos 3 ∷ []) ∷ part "logs" 1 (pos 3 ∷ pos 2 ∷ []) ∷ [];
}

abbrev new_map : PartitionMap
new_map = record {
  version = 1;
  partitions = part "logs" 0 (pos 1 ∷ pos 2 ∷ []) ∷ part "logs" 1 (pos 1 ∷ pos 2 ∷ []) ∷ [];
}

-- The first chunk empties broker 4, the second one broker 3.
abbrev half_way : PartitionMap
half_way = record {
  version = 1;
  partitions = part "logs" 0 (pos 1 ∷ pos 3 ∷ []) ∷ part "logs" 1 (pos 3 ∷ pos 2 ∷ []) ∷ [];
}

chunks_of_one :
    get_partition_map_chunks new_map old_map brokers 1 ≡ returns (half_way ∷ new_map ∷ [])
unfolding get_partition_map_chunks difference
chunks_of_one = refl

chunks_of_two : get_partition_map_chunks new_map old_map brokers 2 ≡ returns (new_map ∷ [])
unfolding get_partition_map_chunks difference
chunks_of_two = refl

-- A step size of 0 never leaves the first chunk.
chunks_of_none : get_partition_map_chunks new_map old_map brokers 0 ≡ runs_on
unfolding get_partition_map_chunks difference
chunks_of_none = refl

-- The final map has one replica fewer.
fewer_replicas :
    get_partition_map_chunks
      (record { version = 1; partitions = part "logs" 0 (pos 1 ∷ []) ∷ [] })
      old_map
      brokers
      1
    ≡ exits
unfolding get_partition_map_chunks difference
fewer_replicas = refl

chunks_converge_example :
    (out : List PartitionMap) × (get_partition_map_chunks new_map old_map brokers 1 ≡ returns out)
    × All (IsOnTheWay old_map new_map (moved_ids brokers)) out
    × AllSettled
        (moved_ids brokers)
        old_map.partitions
        new_map.partitions
        (last_or (copy old_map) out).partitions
chunks_converge_example =
    chunks_converge new_map old_map brokers 1 (omega arith) (cons refl (cons refl nil))
