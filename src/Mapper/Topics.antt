-- ===== src/Mapper/Topics.antt =====
-- mapper/: what is read off a partition map or the cluster's metadata by topic.
use kafka_kit.Base.{
  ℕ, ℤ, false, List, [], ◌∷◌, ◌++◌, String, ltb_ℤ, ltb_text, ◌==◌, int_key, string_key,
  if◌then◌else◌,
}
use kafka_kit.Base.GoMap.{Map, insert, contains}
use kafka_kit.Base.Sort.{sort}
use kafka_kit.Base.Float.{Float}
use kafka_kit.Mapper.Types.{BrokerMetaMap, Partition, PartitionMap}
use kafka_kit.Mapper.Partitions.{new_partition_map}

-- The names met so far, in order, each once.
unfoldable pub topic_names : List Partition → List String → List String
unfolding contains
topic_names [] ts = ts
topic_names (p ∷ ps) ts = topic_names ps (if contains p.topic ts then ts else ts ++ p.topic ∷ [])

-- PartitionMap.Topics
unfoldable pub topics : List Partition → List String
unfolding topic_names sort
topics ps = sort ltb_text (topic_names ps [])

abbrev pub ReplicaSets : Type 0
ReplicaSets = Map ℤ (List ℤ)

unfoldable pub replica_sets_from : String → List Partition → ReplicaSets → ReplicaSets
unfolding insert
replica_sets_from t [] rs = rs
replica_sets_from t (p ∷ ps) rs =
    replica_sets_from t ps (if p.topic == t then insert p.partition p.replicas rs else rs)

-- PartitionMap.ReplicaSets
unfoldable pub replica_sets : String → List Partition → ReplicaSets
unfolding replica_sets_from
replica_sets t ps = replica_sets_from t ps []

-- The partitions of kafkaadmin's TopicState: an ID and the replicas of each.
pub record PartitionState : Type 0 where
  pub id : ℤ
  pub replicas : List ℤ

unfoldable pub topic_partitions : String → List PartitionState → List Partition
topic_partitions t [] = []
topic_partitions t (s ∷ ss) =
    record { topic = t; partition = s.id; replicas = s.replicas } ∷ topic_partitions t ss

unfoldable pub states_partitions : Map String (List PartitionState) → List Partition
unfolding topic_partitions
states_partitions [] = []
states_partitions ((t, ss) ∷ ts) = topic_partitions t ss ++ states_partitions ts

-- PartitionMapFromTopicStates
unfoldable pub partition_map_from_topic_states : Map String (List PartitionState) → PartitionMap
unfolding states_partitions
partition_map_from_topic_states ts = record new_partition_map { partitions = states_partitions ts }

-- The IDs met so far, each once.
unfoldable pub distinct_ids : List ℤ → List ℤ → List ℤ
unfolding contains
distinct_ids [] ids = ids
distinct_ids (id ∷ rest) ids = distinct_ids rest (if contains id ids then ids else ids ++ id ∷ [])

unfoldable pub all_replicas : Map String (List ℤ) → List ℤ
all_replicas [] = []
all_replicas ((p, replicas) ∷ m) = replicas ++ all_replicas m

-- TopicState.Brokers
unfoldable pub topic_state_brokers : Map String (List ℤ) → List ℤ
unfolding distinct_ids all_replicas sort
topic_state_brokers partitions = sort ltb_ℤ (distinct_ids (all_replicas partitions) [])

-- kafkaadmin's BrokerState, as far as it is read.
pub record BrokerState : Type 0 where
  pub host : String
  pub port : ℕ
  pub rack : String
  pub log_message_format : String
  pub inter_broker_protocol_version : String

-- BrokerMetaMapFromStates
unfoldable pub broker_meta_map_from_states :
    {F : Type 0} ⦃fl : Float F⦄ → Map ℤ BrokerState → BrokerMetaMap F
broker_meta_map_from_states [] = []
broker_meta_map_from_states ⦃fl⦄ ((id, s) ∷ m) =
    (
      id,
      record {
        storage_free = fl.of_ℕ 0;
        metrics_incomplete = false;
        host = s.host;
        port = s.port;
        rack = s.rack;
        log_message_format = s.log_message_format;
        inter_broker_protocol_version = s.inter_broker_protocol_version;
      },
    )
    ∷ broker_meta_map_from_states m
