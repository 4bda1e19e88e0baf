-- ===== src/Registry/Tests.antt =====
-- internal/registry/server: the theorems at concrete inputs, on a cluster with one topic, `events`,
-- that has tags.
use kafka_kit.Base.{
  ℕ, nat_key, true, false, List, [], ◌∷◌, String, string_key, none, some, ◌≡◌, ◌↔◌, refl, subst,
  beq_iff, if◌then◌else◌, arith,
}
use kafka_kit.Base.GoMap.{Map, lookup, insert, delete, has, contains}
use kafka_kit.Registry.Types.{KafkaObject, TagSet, ok, is_complete, ok_injective}
use kafka_kit.Base.Strconv.{is_without, split, itoa, atoi}
use kafka_kit.Registry.Tags.{match_all, equal_tag_set, tags, tag_set}
use kafka_kit.Registry.Tags.Laws.{tag_set-tags, equal_tag_set_iff}
use kafka_kit.Registry.Store.{
  Storage, update_tags, field_reserved, set_tags, get_tags, get_all_tags, delete_tags,
}
use kafka_kit.Registry.Store.Laws.{stored, set_tags-stored, delete_tags-stored}
use kafka_kit.Registry.Store.Reserved.{AllUnreserved}
use kafka_kit.Registry.Store.Requests.{
  Request, set_request, delete_request, perform_all, perform_all-AllUnreserved,
}
use kafka_kit.Registry.Filter.{
  Topic, Broker, topic_taggable, broker_taggable, filter_topics, filter_brokers,
  tag_set_from_object,
}
use kafka_kit.Registry.Filter.Laws.{tag_set_from_object-default}
use kafka_kit.Registry.Filter.Fields.{topic_field, broker_field}
use kafka_kit.Registry.Filter.Answers.{Filtered, filter_topics-Filtered}
use kafka_kit.Registry.Cleanup.{is_stale, object_exists, mark_for_deletion, delete_stale_tags}
use kafka_kit.Registry.Cleanup.Kept.{delete_stale_tags-kept, mark_for_deletion-kept}
use kafka_kit.Registry.Cluster.{
  Znodes, cluster, cluster-IsZookeeper, json, json-IsJson, map_json-IsJson, cluster-AreForeign,
  first_entries,
}

abbrev storage : Storage
storage = record {
  reserved_fields = ("topic", "name" ∷ "partitions" ∷ "replication" ∷ []) ∷ [];
  prefix = "registry";
}

abbrev events : KafkaObject
events = record { object_type = "topic"; object_id = "events" }

abbrev owned : TagSet
owned = ("team", "data") ∷ []

abbrev znodes : Znodes
znodes = ("/registry/topic/events", some owned) ∷ ("/registry/topic/audit", some []) ∷ []

abbrev audit : KafkaObject
audit = record { object_type = "topic"; object_id = "audit" }

abbrev zone : TagSet
zone = ("zone", "a") ∷ ("team", "infra") ∷ []

tag_set-tags_example : tag_set (tags zone) ≡ ok zone
unfolding has lookup is_without
tag_set-tags_example = tag_set-tags zone ((refl, refl), ((refl, refl), tt)) (refl, (refl, tt))

abbrev swapped : TagSet
swapped = ("team", "infra") ∷ ("zone", "a") ∷ []

equal_tag_set_iff_example :
    (equal_tag_set zone swapped ≡ true) ↔ ((j : String) → lookup j zone ≡ lookup j swapped)
unfolding has lookup
equal_tag_set_iff_example =
    equal_tag_set_iff zone swapped (refl, (refl, tt)) (refl, (refl, tt))
      (
        ground (arith, beq_iff {A = String} "a" ""),
        (ground (arith, beq_iff {A = String} "infra" ""), tt),
      )

-- An empty value counts as a missing key.
equal_with_empty : equal_tag_set (("a", "") ∷ []) (("b", "") ∷ []) ≡ true
unfolding equal_tag_set lookup
equal_with_empty = refl

set_tags-stored_example :
    (old back : TagSet) × (stored cluster-IsZookeeper json storage events znodes ≡ ok old)
    × (stored cluster-IsZookeeper json storage events
          (set_tags cluster json storage events zone znodes).1
        ≡ ok back)
    × ((k : String)
        → lookup k back ≡ (elim (lookup k zone) [ some v ↦ some v | none ↦ lookup k old ]))
unfolding has lookup set_tags is_complete contains
set_tags-stored_example =
    set_tags-stored cluster-IsZookeeper json-IsJson storage events zone znodes (refl, (refl, tt))
      refl

delete_tags-stored_example :
    (old back : TagSet) × (stored cluster-IsZookeeper json storage events znodes ≡ ok old)
    × (stored cluster-IsZookeeper json storage events
          (delete_tags cluster json storage events ("team" ∷ []) znodes).1
        ≡ ok back)
    × ((k : String) → lookup k back ≡ (if contains k ("team" ∷ []) then none else lookup k old))
unfolding has lookup delete_tags is_complete
delete_tags-stored_example =
    delete_tags-stored cluster-IsZookeeper json-IsJson storage events ("team" ∷ []) znodes refl

abbrev zoned : TagSet
zoned = ("team", "infra") ∷ ("zone", "a") ∷ []

start-AllUnreserved : AllUnreserved cluster-IsZookeeper json storage []
unfolding has lookup stored
start-AllUnreserved o co ts e k h =
    let path : [] ≡ ts = ok_injective e in
    let absent : has k ts ≡ false = subst (λ (m : TagSet). has k m ≡ false) path refl in cc

abbrev requests : List Request
requests = set_request events zone ∷ delete_request events ("team" ∷ []) ∷ []

perform_all-AllUnreserved_example :
    AllUnreserved cluster-IsZookeeper json storage (perform_all cluster json storage requests [])
perform_all-AllUnreserved_example =
    perform_all-AllUnreserved cluster-IsZookeeper json-IsJson storage requests []
      start-AllUnreserved

abbrev topic : Topic
topic = record { name = "events"; partitions = 12; replication = 3; tags = [] }

abbrev tagged : Topic
tagged = record { name = "events"; partitions = 12; replication = 3; tags = ("team", "data") ∷ [] }

abbrev one_topic : Map String Topic
one_topic = ("events", topic) ∷ []

abbrev matching : Map String Topic
matching = ("events", tagged) ∷ []

abbrev one_broker : Map ℕ Broker
one_broker =
    (
      1001,
      record {
        id = 1001;
        host = "kafka1";
        rack = "a";
        port = 9092;
        log_message_format = "";
        inter_broker_protocol_version = "";
        tags = [];
      },
    )
    ∷ []

-- A broker has no number of partitions, so none is left.
filter_topics-Filtered_example :
    ((name : String)
      → Filtered cluster-IsZookeeper map_json-IsJson storage topic_taggable topic_field
          (("partitions", "12") ∷ [])
          znodes
          (lookup name one_topic)
          (lookup name matching))
    × ((id : ℕ)
        → Filtered cluster-IsZookeeper map_json-IsJson storage broker_taggable broker_field
            (("partitions", "12") ∷ [])
            znodes
            (lookup id one_broker)
            (lookup id []))
unfolding has lookup filter_topics filter_brokers tag_set split get_tags insert itoa is_complete
    match_all update_tags field_reserved contains first_entries
filter_topics-Filtered_example =
    filter_topics-Filtered cluster-IsZookeeper map_json-IsJson cluster-AreForeign storage one_topic
      matching one_broker [] ("partitions:12" ∷ []) (("partitions", "12") ∷ []) znodes (refl, tt)
      (refl, tt) refl refl refl

abbrev all_tags : TagSet
all_tags = ("name", "events") ∷ ("partitions", "12") ∷ ("replication", "3") ∷ ("zone", "a") ∷ []

tag_set_from_object-default_example :
    lookup "name" all_tags ≡ lookup "name" (topic_taggable.default_tags topic)
unfolding perform_all set_tags delete_tags get_tags lookup insert delete has is_complete contains
    itoa tag_set_from_object field_reserved
tag_set_from_object-default_example =
    tag_set_from_object-default cluster-IsZookeeper json-IsJson storage topic_taggable requests
      topic [] all_tags "name" (λ o. refl) refl refl refl

abbrev marked : TagSet
marked = ("team", "data") ∷ ("tagMarkedForDeletionTime", "1000") ∷ []

abbrev one_marked : Znodes
one_marked = ("/registry/topic/events", some marked) ∷ []

delete_stale_tags-kept_example :
    stored cluster-IsZookeeper json storage events
      (delete_stale_tags cluster json storage 1500 10 none one_marked).1
    ≡ ok marked
unfolding is_complete stored lookup is_stale atoi
delete_stale_tags-kept_example =
    delete_stale_tags-kept cluster-IsZookeeper json-IsJson storage 1500 10 none events marked
      one_marked refl refl refl

mark_for_deletion-kept_example :
    stored cluster-IsZookeeper json storage events
      (mark_for_deletion cluster json storage 1500
        (record { brokers = ok []; topics = ok ("events" ∷ []); lock = none })
        znodes).1
    ≡ ok owned
unfolding is_complete stored lookup object_exists has contains
mark_for_deletion-kept_example =
    mark_for_deletion-kept cluster-IsZookeeper json-IsJson storage 1500 [] ("events" ∷ []) none
      events owned znodes refl refl refl

-- A marked topic loses all its tags once the mark is older than ten minutes.
stale_deleted :
    (delete_stale_tags cluster json storage 2000 10 none one_marked).1
    ≡ ("/registry/topic/events", some []) ∷ []
unfolding delete_stale_tags get_tags delete_tags is_stale atoi lookup insert has delete is_complete
    contains get_all_tags
stale_deleted = refl
