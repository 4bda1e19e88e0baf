-- ===== src/Mapper/Usage/Counts.antt =====
-- UseStats against plain counts, and what OptimizeLeaderFollower keeps.
use kafka_kit.Base.{
  ℕ, ◌+◌, ℤ, Bool, true, false, ◌≡◌, List, [], ◌∷◌, arith, ◌==◌, int_key, if◌then◌else◌, beq_iff,
  ◌∙◌,
}
use kafka_kit.Base.GoMap.{lookup, lookup-insert}
use kafka_kit.Mapper.Types.{Partition}
use kafka_kit.Mapper.Usage.{
  BrokerUseStats, BrokerUseStatsMap, uses, count_replica, count_replicas, count_partitions,
  use_stats,
}

-- How often a broker stands in a list of replicas.
abbrev pub occurrences : ℤ → List ℤ → ℕ
occurrences id [] = 0
occurrences id (b ∷ bs) = (if b == id then 1 else 0) + occurrences id bs

-- 1 if the broker leads the replica set, and 0 if not.
abbrev pub leads : ℤ → List ℤ → ℕ
leads id [] = 0
leads id (b ∷ bs) = if b == id then 1 else 0

abbrev pub follows : ℤ → List ℤ → ℕ
follows id [] = 0
follows id (b ∷ bs) = occurrences id bs

abbrev pub leaderships : ℤ → List Partition → ℕ
leaderships id [] = 0
leaderships id (p ∷ ps) = leads id p.replicas + leaderships id ps

abbrev pub followerships : ℤ → List Partition → ℕ
followerships id [] = 0
followerships id (p ∷ ps) = follows id p.replicas + followerships id ps

abbrev plus : BrokerUseStats → ℕ → ℕ → BrokerUseStats
plus s l f = record s { leader = l + s.leader; follower = f + s.follower }

uses-count_replica :
    (first : Bool) (b id : ℤ) (m : BrokerUseStatsMap)
    → uses (count_replica first b m) id
      ≡ plus
          (uses m id)
          (if first then (if b == id then 1 else 0) else 0)
          (if first then 0 else (if b == id then 1 else 0))
unfolding count_replica
uses-count_replica first b id m =
    let s = uses m b in
    let after =
      if first
      then record s { leader = s.leader + 1 }
      else record s { follower = s.follower + 1 } in
    ground (arith, lookup-insert b id after m, beq_iff b id)

uses-count_followers :
    (id : ℤ) (bs : List ℤ) (m : BrokerUseStatsMap)
    → uses (count_replicas false bs m) id ≡ plus (uses m id) 0 (occurrences id bs)
unfolding count_replicas
uses-count_followers id [] m = ground arith
uses-count_followers id (b ∷ bs) m =
    uses-count_followers id bs (count_replica false b m) ∙ rw uses-count_replica (ground arith)

uses-count_replicas :
    (id : ℤ) (bs : List ℤ) (m : BrokerUseStatsMap)
    → uses (count_replicas true bs m) id ≡ plus (uses m id) (leads id bs) (follows id bs)
unfolding count_replicas
uses-count_replicas id [] m = ground arith
uses-count_replicas id (b ∷ bs) m =
    uses-count_followers id bs (count_replica true b m) ∙ rw uses-count_replica (ground arith)

uses-count_partitions :
    (id : ℤ) (ps : List Partition) (m : BrokerUseStatsMap)
    → uses (count_partitions ps m) id ≡ plus (uses m id) (leaderships id ps) (followerships id ps)
unfolding count_partitions
uses-count_partitions id [] m = ground arith
uses-count_partitions id (p ∷ ps) m =
    uses-count_partitions id ps (count_replicas true p.replicas m)
    ∙ rw uses-count_replicas (ground arith)

-- UseStats counts, for every broker, the replica sets that it leads and its other replicas.
pub uses-use_stats :
    (id : ℤ) (ps : List Partition)
    → uses (use_stats ps) id
      ≡ record { id = id; leader = leaderships id ps; follower = followerships id ps }
unfolding use_stats lookup
uses-use_stats id ps = uses-count_partitions id ps [] ∙ ground arith
