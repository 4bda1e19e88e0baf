-- ===== src/Mapper/PlacementTests.antt =====
-- Runs of placeByPosition and placeByPartition on small inputs, and their theorems there.
use kafka_kit.Base.{
  length, Pairs, ℤ, pos, ◌≡◌, refl, true, Option, some, none, List, [], ◌∷◌, map, All, ◌==◌,
  int_key, Bool-cases, inl, inr, subst,
}
use kafka_kit.Base.GoMap.{keys, lookup, has}
use kafka_kit.Samples.{whole, in_place, cluster, events, part, broker, replaced, stub}
use kafka_kit.Mapper.Types.{Partition, stub_broker_id}
use kafka_kit.Mapper.Brokers.Keyed.{IsKeyed}
use kafka_kit.Mapper.Partitions.{new_partition_map}
use kafka_kit.Mapper.Placement.{RebuildParams}
use kafka_kit.Mapper.Placement.Frame.{IsFree}
use kafka_kit.Mapper.Placement.Replace.{AreFree}
use kafka_kit.Mapper.Rebuild.{Placed, place_by_position, place_by_partition}
use kafka_kit.Mapper.Rebuild.Filling.{distinct}
use kafka_kit.Mapper.Rebuild.Replaced.{
  IsRebuilt, AreCarried, place_by_position-IsRebuilt, place_by_partition-IsRebuilt,
}
use kafka_kit.Mapper.Rebuild.Returns.{place_by_position_total, place_by_partition_total}
use kafka_kit.Mapper.Rebuild.Uniform.{place_by_position-AreCarried}
use kafka_kit.Mapper.Rebuild.Total.{AreHeld}

abbrev by_count : RebuildParams ℤ
by_count = record {
  pm = record new_partition_map { partitions = events };
  pmm = [];
  bm = cluster;
  strategy = "count";
  optimization = "";
  affinities = [];
  partn_sz_factor = pos 1;
  min_unique_rack_ids = pos 0;
}

abbrev replicas_of : Option (Placed ℤ) → List (List ℤ)
replicas_of none = []
replicas_of (some r) = map (λ p. p.replicas) r.partition_map.partitions

place_events :
    replicas_of (place_by_position in_place by_count events)
    ≡ (pos 1 ∷ pos 3 ∷ []) ∷ (pos 4 ∷ pos 3 ∷ []) ∷ []
unfolding place_by_position
place_events = refl

-- Replica sets of one and of four brokers: the fourth replica is lost.
abbrev uneven : List Partition
uneven = part "a" 0 (pos 1 ∷ []) ∷ part "b" 0 (pos 1 ∷ pos 3 ∷ pos 4 ∷ pos 1 ∷ []) ∷ []

place_uneven :
    replicas_of (place_by_position in_place by_count uneven)
    ≡ (pos 1 ∷ []) ∷ (pos 1 ∷ pos 3 ∷ pos 4 ∷ []) ∷ []
unfolding place_by_position
place_uneven = refl

-- Broker 4 is the substitute of broker 2.
abbrev by_affinity : RebuildParams ℤ
by_affinity = record by_count { affinities = (pos 2, pos 4) ∷ [] }

abbrev by_affinity_placed : Placed ℤ
by_affinity_placed = record {
  partition_map = record new_partition_map {
    partitions = part "events" 0 (pos 1 ∷ pos 4 ∷ []) ∷ part "events" 1 (pos 4 ∷ pos 3 ∷ []) ∷ [];
  };
  errs = [];
  brokers =
      (pos 1, broker 1 "a" 2 100)
      ∷ (pos 2, replaced (broker 2 "b" 2 50))
      ∷ (pos 3, broker 3 "c" 1 80)
      ∷ (pos 4, broker 4 "b" 2 200)
      ∷ (stub_broker_id, stub)
      ∷ [];
}

cluster-IsKeyed : IsKeyed cluster
cluster-IsKeyed = (refl, (refl, (refl, (refl, (refl, tt)))))

cluster_once : distinct (keys cluster) ≡ true
unfolding distinct
cluster_once = refl

events_once : All (λ p. distinct p.replicas ≡ true) events
unfolding distinct
events_once = (refl, (refl, tt))

events_held : All (λ p. AreHeld cluster p.replicas) events
unfolding has
events_held = ((refl, (refl, tt)), ((refl, (refl, tt)), tt))

by_affinity-AreFree : AreFree by_affinity.affinities cluster
unfolding lookup
by_affinity-AreFree id sub e = elim (Bool-cases (pos 2 == id)) [
  | inl same ↦
      let e' : some (pos 4) ≡ some sub = rw same at e in
      let four : pos 4 ≡ sub = cc in
      subst (λ s. IsFree cluster s) four (record { not_stub = refl; rack = "b"; stands = refl })
  | inr other ↦ let e' : none ≡ some sub = rw other at e in cc
]

place_by_position-IsRebuilt_example :
    Pairs (IsRebuilt cluster) events by_affinity_placed.partition_map.partitions
unfolding place_by_position
place_by_position-IsRebuilt_example =
    place_by_position-IsRebuilt in_place by_affinity events by_affinity_placed events_once
      cluster-IsKeyed cluster_once by_affinity-AreFree refl

place_by_position_total_example :
    (r : Placed ℤ) × (place_by_position in_place by_affinity events ≡ some r)
place_by_position_total_example =
    place_by_position_total in_place by_affinity events events_once events_held cluster-IsKeyed
      cluster_once by_affinity-AreFree

abbrev by_partition_placed : Placed ℤ
by_partition_placed = record {
  partition_map = record new_partition_map {
    partitions = part "events" 0 (pos 1 ∷ pos 4 ∷ []) ∷ part "events" 1 (pos 4 ∷ pos 3 ∷ []) ∷ [];
  };
  errs = [];
  brokers =
      (pos 1, broker 1 "a" 2 100)
      ∷ (pos 2, replaced (broker 2 "b" 2 50))
      ∷ (pos 3, broker 3 "c" 1 80)
      ∷ (pos 4, broker 4 "b" 2 200)
      ∷ (stub_broker_id, stub)
      ∷ [];
}

place_by_partition-IsRebuilt_example :
    Pairs
      (λ p q. IsRebuilt cluster p q × AreCarried cluster p q)
      events
      by_partition_placed.partition_map.partitions
unfolding place_by_partition
place_by_partition-IsRebuilt_example =
    place_by_partition-IsRebuilt in_place by_count events by_partition_placed events_once
      cluster-IsKeyed cluster_once refl

place_by_partition_total_example :
    (r : Placed ℤ) × (place_by_partition in_place by_count events ≡ some r)
place_by_partition_total_example =
    place_by_partition_total in_place by_count events events_once events_held cluster-IsKeyed
      cluster_once

events_uniform : All (λ p. length p.replicas ≡ 2) events
events_uniform = (refl, (refl, tt))

place_by_position-AreCarried_example :
    Pairs (AreCarried cluster) events by_affinity_placed.partition_map.partitions
unfolding place_by_position
place_by_position-AreCarried_example =
    place_by_position-AreCarried in_place by_affinity 2 events by_affinity_placed events_uniform
      events_once cluster-IsKeyed cluster_once by_affinity-AreFree refl
