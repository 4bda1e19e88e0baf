-- ===== src/Mapper/Usage.antt =====
-- mapper/partitions.go: UseStats and OptimizeLeaderFollower, with mapper/brokers.go's BrokerUseStats.
pub mod Counts
pub mod Optimize
use kafka_kit.Base.{
  ℕ, zero, suc, ◌+◌, ℤ, Bool, true, false, not, ◌&&◌, Option, some, none, List, [], ◌∷◌, ◌++◌, map,
  length, ltb, eqb, ltb_ℤ, ◌==◌, int_key, if◌then◌else◌,
}
use kafka_kit.Base.GoMap.{Map, lookup, insert, has, values}
use kafka_kit.Base.Float.{Float}
use kafka_kit.Base.Sort.{sort}
use kafka_kit.Mapper.Types.{Partition, PartitionMap}

pub record BrokerUseStats : Type 0 where
  pub id : ℤ
  pub leader : ℕ
  pub follower : ℕ

abbrev pub BrokerUseStatsMap : Type 0
BrokerUseStatsMap = Map ℤ BrokerUseStats

abbrev pub no_uses : ℤ → BrokerUseStats
no_uses id = record { id = id; leader = 0; follower = 0 }

abbrev pub uses : BrokerUseStatsMap → ℤ → BrokerUseStats
uses m id = elim (lookup id m) [ some s ↦ s | none ↦ no_uses id ]

-- One replica; the first of a replica set is its leader.
unfoldable pub count_replica : Bool → ℤ → BrokerUseStatsMap → BrokerUseStatsMap
unfolding insert lookup
count_replica first b m =
    let s = uses m b in
    insert b
      (if first then record s { leader = s.leader + 1 } else record s { follower = s.follower + 1 })
      m

unfoldable pub count_replicas : Bool → List ℤ → BrokerUseStatsMap → BrokerUseStatsMap
unfolding count_replica
count_replicas first [] m = m
count_replicas first (b ∷ bs) m = count_replicas false bs (count_replica first b m)

unfoldable pub count_partitions : List Partition → BrokerUseStatsMap → BrokerUseStatsMap
unfolding count_replicas
count_partitions [] m = m
count_partitions (p ∷ ps) m = count_partitions ps (count_replicas true p.replicas m)

-- PartitionMap.UseStats
unfoldable pub use_stats : List Partition → BrokerUseStatsMap
unfolding count_partitions
use_stats ps = count_partitions ps []

-- BrokerUseStatsMap.List
unfoldable pub use_stats_list : BrokerUseStatsMap → List BrokerUseStats
unfolding sort
use_stats_list m = sort (λ a b. ltb_ℤ a.id b.id) (values m)

module _ (F : Type 0) ⦃fl : Float F⦄ where
  -- replicasByLeaderFollowerRatio.Less
  unfoldable pub less_by_ratio : BrokerUseStatsMap → ℤ → ℤ → Bool
  unfolding lookup
  less_by_ratio stats id1 id2 =
      let s1 = uses stats id1 in
      let s2 = uses stats id2 in
      if eqb s1.follower 0 && eqb s2.follower 0
      then ltb s1.leader s2.leader
      else if eqb s1.follower 0
      then false
      else if eqb s2.follower 0
      then true
      else fl.lt (fl.div (fl.of_ℕ s1.leader) (fl.of_ℕ s1.follower))
          (fl.div (fl.of_ℕ s2.leader) (fl.of_ℕ s2.follower))

  -- One round: each replica set is sorted by the stats of the map as it stands.
  unfoldable pub optimize_round : List Partition → List Partition → List Partition
  unfolding use_stats less_by_ratio sort
  optimize_round done [] = done
  optimize_round done (p ∷ ps) =
      let stats = use_stats (done ++ p ∷ ps) in
      optimize_round (done ++ record p { replicas = sort (less_by_ratio stats) p.replicas } ∷ []) ps

  unfoldable pub optimize_rounds : ℕ → List Partition → List Partition
  unfolding optimize_round
  optimize_rounds zero ps = ps
  optimize_rounds (suc n) ps = optimize_rounds n (optimize_round [] ps)

  unfoldable pub optimize_from : PartitionMap → List Partition → Option PartitionMap
  unfolding optimize_rounds
  optimize_from pm [] = none
  optimize_from pm (p ∷ ps) =
      some (record pm { partitions = optimize_rounds (length p.replicas) (p ∷ ps) })

  -- PartitionMap.OptimizeLeaderFollower; with no partition at all it panics.
  unfoldable pub optimize_leader_follower : PartitionMap → Option PartitionMap
  unfolding optimize_from
  optimize_leader_follower pm = optimize_from pm pm.partitions
