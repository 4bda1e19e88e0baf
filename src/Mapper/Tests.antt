-- ===== src/Mapper/Tests.antt =====
-- The theorems on mapper/ at concrete inputs.
use kafka_kit.Base.{
  ℤ, pos, negsuc, ◌≡◌, ◌≢◌, ◌↔◌, Perm, refl, true, false, some, none, List, [], ◌∷◌, String, All,
  int_key,
}
use kafka_kit.Base.GoMap.{lookup, has}
use kafka_kit.Samples.{whole, in_place, cluster, events, broker, replaced, stub}
use kafka_kit.Mapper.Types.{
  Broker, BrokerMeta, BrokerMetaMap, PartitionMap, no_brokers, ok, err, stub_broker_id,
}
use kafka_kit.Mapper.Brokers.{sort_pseudo_shuffle}
use kafka_kit.Mapper.Brokers.Keyed.{IsKeyed}
use kafka_kit.Mapper.Brokers.Order.{IsByUse, sort_pseudo_shuffle_lem}
use kafka_kit.Mapper.Brokers.Update.{update}
use kafka_kit.Mapper.Brokers.Update.Outcome.{lookup-update}
use kafka_kit.Mapper.Brokers.Update.Counts.{IsKeyed-update}
use kafka_kit.Mapper.Constraints.{ConstraintsParams, Selection, new_constraints, select_broker}
use kafka_kit.Mapper.Constraints.Select.{IsSelection, select_broker-ok}
use kafka_kit.Mapper.Constraints.Exhausted.{Fails, select_broker-exhausted}
use kafka_kit.Mapper.Partitions.{new_partition_map}
use kafka_kit.Mapper.Partitions.Compare.{difference, difference_iff}
use kafka_kit.Mapper.Usage.{uses, use_stats}
use kafka_kit.Mapper.Usage.Counts.{uses-use_stats}

abbrev meta : String → BrokerMeta ℤ
meta rack = record {
  storage_free = pos 500;
  metrics_incomplete = false;
  host = "";
  port = 9092;
  rack = rack;
  log_message_format = "";
  inter_broker_protocol_version = "";
}

-- ZooKeeper knows brokers 1, 3 and 5.
abbrev known : BrokerMetaMap ℤ
known = (pos 1, meta "a") ∷ (pos 3, meta "c") ∷ (pos 5, meta "d") ∷ []

-- All the existing brokers and broker 5.
abbrev provided : List ℤ
provided = negsuc 0 ∷ pos 5 ∷ []

cluster-IsKeyed : IsKeyed cluster
cluster-IsKeyed = (refl, (refl, (refl, (refl, (refl, tt)))))

lookup-update_example :
    lookup (pos 4) (update provided known cluster).0
    ≡ some (record (broker 4 "b" 0 200) { replace = true; missing = true })
unfolding lookup has
lookup-update_example = lookup-update provided known cluster (pos 4) cluster-IsKeyed

IsKeyed-update_example : IsKeyed (update provided known cluster).0
IsKeyed-update_example = IsKeyed-update provided known cluster cluster-IsKeyed

sort_pseudo_shuffle_lem_example :
    Perm
      (sort_pseudo_shuffle in_place
        (pos 7)
        (broker 1 "a" 2 100 ∷ broker 3 "c" 1 80 ∷ broker 4 "b" 0 200 ∷ []))
      (broker 1 "a" 2 100 ∷ broker 3 "c" 1 80 ∷ broker 4 "b" 0 200 ∷ [])
    × IsByUse (
        sort_pseudo_shuffle in_place
          (pos 7)
          (broker 1 "a" 2 100 ∷ broker 3 "c" 1 80 ∷ broker 4 "b" 0 200 ∷ []))
sort_pseudo_shuffle_lem_example =
    sort_pseudo_shuffle_lem in_place (pos 7)
      (broker 1 "a" 2 100 ∷ broker 3 "c" 1 80 ∷ broker 4 "b" 0 200 ∷ [])

abbrev wanted : ℤ → ConstraintsParams ℤ
wanted size = record {
  selector_method = "storage";
  min_unique_rack_ids = pos 0;
  request_size = size;
  seed_val = pos 1;
}

-- The selection of broker 4, which has the most storage.
abbrev selected : Selection ℤ
selected = record {
  brokers =
      (pos 1, broker 1 "a" 2 100)
      ∷ (pos 2, replaced (broker 2 "b" 2 50))
      ∷ (pos 3, broker 3 "c" 1 80)
      ∷ (pos 4, broker 4 "b" 1 190)
      ∷ (stub_broker_id, stub)
      ∷ [];
  order = pos 4 ∷ pos 1 ∷ pos 3 ∷ [];
  constraints = record {
    request_size = pos 10;
    locality = ("b", true) ∷ [];
    id = (pos 4, true) ∷ [];
  };
  result = ok (broker 4 "b" 1 190);
}

abbrev candidates : List ℤ
candidates = pos 1 ∷ pos 3 ∷ pos 4 ∷ []

select_broker-ok_example :
    IsSelection cluster new_constraints
      (wanted (pos 10))
      (λ id. lookup id cluster ≢ none)
      selected
      (broker 4 "b" 1 190)
unfolding select_broker lookup
select_broker-ok_example =
    select_broker-ok cluster new_constraints (wanted (pos 10)) in_place
      (λ id. lookup id cluster ≢ none) candidates selected (broker 4 "b" 1 190) cluster-IsKeyed
      (λ e. cc, (λ e. cc, (λ e. cc, tt))) refl refl

-- No broker has room for 1000.
abbrev nothing : Selection ℤ
nothing = record {
  brokers = cluster;
  order = pos 4 ∷ pos 1 ∷ pos 3 ∷ [];
  constraints = new_constraints;
  result = err no_brokers;
}

select_broker-exhausted_example :
    All
      (λ id.
        (b : Broker ℤ)
        → lookup id cluster ≡ some b
        → Fails cluster new_constraints (wanted (pos 1000)) b)
      candidates
unfolding select_broker
select_broker-exhausted_example =
    select_broker-exhausted cluster new_constraints (wanted (pos 1000)) in_place candidates nothing
      refl refl

uses-use_stats_example :
    uses (use_stats events) (pos 2) ≡ record { id = pos 2; leader = 1; follower = 1 }
uses-use_stats_example = uses-use_stats (pos 2) events

abbrev events_map : PartitionMap
events_map = record new_partition_map { partitions = events }

difference_iff_example :
    (difference events_map new_partition_map ≡ none) ↔ (events_map ≡ new_partition_map)
difference_iff_example = difference_iff events_map new_partition_map
