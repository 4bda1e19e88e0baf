-- ===== src/Registry/Filter.antt =====
-- internal/registry/server/tag.go: TagSetFromObject and the filters of topics and brokers by tags.
-- A filter writes the custom tags through the pointers of its input; the model returns the objects
-- with these tags.
pub mod Laws
pub mod Shown
pub mod Fields
pub mod Answers
use kafka_kit.Base.{
  ℕ, Bool, true, false, List, [], ◌∷◌, String, string_key, nat_key, Option, none, some,
  if◌then◌else◌, Key,
}
use kafka_kit.Base.GoMap.{Map, insert}
use kafka_kit.Base.Strconv.{itoa}
use kafka_kit.Registry.Types.{
  KafkaObject, Tags, TagSet, Error, Result, ok, failed, is_missing_object,
}
use kafka_kit.Registry.Tags.{match_all, tag_set}
use kafka_kit.Registry.Zookeeper.{Handler, Json}
use kafka_kit.Registry.Store.{Storage, update_tags, field_reserved, get_tags}

-- The fields of pb.Topic and pb.Broker that the tags use; the numbers are 32 bits wide.
pub record Topic : Type 0 where
  pub name : String
  pub partitions : ℕ
  pub replication : ℕ
  pub tags : TagSet

pub record Broker : Type 0 where
  pub id : ℕ
  pub host : String
  pub rack : String
  pub port : ℕ
  pub log_message_format : String
  pub inter_broker_protocol_version : String
  pub tags : TagSet

-- What TagSetFromObject takes from an object of either type.
pub record Taggable (A : Type 0) : Type 0 where
  pub object : A → KafkaObject
  pub default_tags : A → TagSet
  pub add_tag : String → String → A → A

abbrev pub topic_taggable : Taggable Topic
topic_taggable = record {
  object = λ t. record { object_type = "topic"; object_id = t.name };
  default_tags = λ t.
      ("name", t.name)
      ∷ ("partitions", itoa t.partitions)
      ∷ ("replication", itoa t.replication)
      ∷ [];
  add_tag = λ k v t. record {
    name = t.name;
    partitions = t.partitions;
    replication = t.replication;
    tags = insert k v t.tags;
  };
}

abbrev pub broker_taggable : Taggable Broker
broker_taggable = record {
  object = λ b. record { object_type = "broker"; object_id = itoa b.id };
  default_tags = λ b.
      ("id", itoa b.id)
      ∷ ("host", b.host)
      ∷ ("rack", b.rack)
      ∷ ("port", itoa b.port)
      ∷ ("logmessageformat", b.log_message_format)
      ∷ ("interbrokerprotocolversion", b.inter_broker_protocol_version)
      ∷ [];
  add_tag = λ k v b. record {
    id = b.id;
    host = b.host;
    rack = b.rack;
    port = b.port;
    log_message_format = b.log_message_format;
    inter_broker_protocol_version = b.inter_broker_protocol_version;
    tags = insert k v b.tags;
  };
}

module _ {S D A : Type 0} (zk : Handler S D) (json : Json D) (t : Storage) (g : Taggable A) where
  -- Stored tags over default tags; an object without stored tags has the default ones.
  unfoldable pub tag_set_from_object : A → S → Result TagSet
  tag_set_from_object o s = elim (get_tags zk json t (g.object o) s) [
    | ok st ↦ ok (update_tags st (g.default_tags o))
    | failed e ↦ if is_missing_object e then ok (g.default_tags o) else failed e
  ]

  -- Custom tags are any non-reserved object fields.
  unfoldable pub add_custom_tags : TagSet → A → A
  add_custom_tags [] o = o
  add_custom_tags ((k, v) ∷ ts) o =
      let reserved =
        field_reserved t (record { object_type = (g.object o).object_type; object_id = "" }) k in
      add_custom_tags ts (if reserved then o else g.add_tag k v o)

  module _ {K : Type 0} ⦃key : Key K⦄ where
    -- One object of the input, whose tags are `ts`
    unfoldable pub keep_matched : TagSet → K → A → TagSet → Map K A → Map K A
    unfolding add_custom_tags
    keep_matched kv k o ts out =
        if match_all ts kv then insert k (add_custom_tags ts o) out else out

    unfoldable pub filter_objects : TagSet → Map K A → S → Map K A → Result (Map K A)
    unfolding tag_set_from_object keep_matched
    filter_objects kv [] s out = ok out
    filter_objects kv ((k, o) ∷ objects) s out = elim (tag_set_from_object o s) [
      | ok ts ↦ filter_objects kv objects s (keep_matched kv k o ts out)
      | failed e ↦ failed e
    ]

    unfoldable pub filter_by_tags : Map K A → Tags → S → Result (Map K A)
    unfolding filter_objects
    filter_by_tags objects tags s = elim (tag_set tags) [
      | ok kv ↦ filter_objects kv objects s []
      | failed e ↦ failed e
    ]

module _ {S D : Type 0} (zk : Handler S D) (json : Json D) (t : Storage) where
  unfoldable pub filter_topics : Map String Topic → Tags → S → Result (Map String Topic)
  unfolding filter_by_tags
  filter_topics topics tags s = filter_by_tags zk json t topic_taggable topics tags s

  unfoldable pub filter_brokers : Map ℕ Broker → Tags → S → Result (Map ℕ Broker)
  unfolding filter_by_tags
  filter_brokers brokers tags s = filter_by_tags zk json t broker_taggable brokers tags s
