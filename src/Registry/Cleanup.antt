-- ===== src/Registry/Cleanup.antt =====
-- internal/registry/server/tag_cleanup.go: tags of objects that no longer exist are marked, and
-- deleted when the mark is old enough. What the handlers read outside the storage is an argument;
-- the errors that they only log are dropped.
pub mod Kept
use kafka_kit.Base.{
  ℕ, ℤ, pos, negsuc, ◌+◌, ◌-◌, ◌*◌, ◌^◌, Bool, true, false, ◌&&◌, not, List, [], ◌∷◌, String,
  string_key, int_key, Option, none, some, ◌==◌, if◌then◌else◌, leb, ltb,
}
use kafka_kit.Base.GoMap.{Map, lookup, insert, has, keys, contains}
use kafka_kit.Base.Strconv.{atoi, itoa}
use kafka_kit.Registry.Types.{KafkaObject, TagSet, Error, Result, ok, failed}
use kafka_kit.Registry.Zookeeper.{Handler, Json}
use kafka_kit.Registry.Store.{Storage, set_tags, delete_tags, get_all_tags}

abbrev pub tag_mark_time_key : String
tag_mark_time_key = "tagMarkedForDeletionTime"

-- What the cluster and the lock answer: the IDs of all brokers, the topics' names, and Lock's error.
pub record Environment : Type 0 where
  pub brokers : Result (List ℤ)
  pub topics : Result (List String)
  pub lock : Option Error

-- Whether a broker with this ID exists, unless the ID is no number
unfoldable pub broker_exists : List ℤ → String → Option Bool
broker_exists brokers id =
    let parsed = atoi id in if parsed.failed then none else some (contains parsed.value brokers)

-- Whether the object exists; a broker with an ID that is not a number is passed over.
unfoldable pub object_exists : List ℤ → List String → KafkaObject → Option Bool
unfolding broker_exists
object_exists brokers topics o =
    if o.object_type == "broker"
    then broker_exists brokers o.object_id
    else if o.object_type == "topic"
    then some (contains o.object_id topics)
    else some false

-- a - b on int64, for `a` not negative
abbrev pub sub_int64 : ℕ → ℤ → ℤ
sub_int64 a (pos b) = if leb b a then pos (a - b) else negsuc (b - a - 1)
sub_int64 a (negsuc b) =
    let sum = a + b + 1 in if ltb sum (2 ^ 63) then pos sum else negsuc (2 ^ 64 - sum - 1)

abbrev greater : ℤ → ℕ → Bool
greater (pos a) b = ltb b a
greater (negsuc a) b = false

-- The mark is older than the allowed staleness. A mark that is no number counts as time 0.
unfoldable pub is_stale : ℕ → ℕ → String → Bool
is_stale now minutes mark = greater (sub_int64 now (atoi mark).value) (minutes * 60)

module _ {S D : Type 0} (zk : Handler S D) (json : Json D) (t : Storage) where
  unfoldable pub mark_or_unmark : ℕ → Bool → KafkaObject → TagSet → S → S
  mark_or_unmark now exists o ts s =
      let marked = has tag_mark_time_key ts in
      if not exists && not marked
      then (set_tags zk json t o (insert tag_mark_time_key (itoa now) ts) s).1
      else if exists && marked
      then (delete_tags zk json t o (tag_mark_time_key ∷ []) s).1
      else s

  unfoldable pub mark_object : ℕ → List ℤ → List String → KafkaObject → TagSet → S → S
  unfolding mark_or_unmark object_exists
  mark_object now brokers topics o ts s = elim (object_exists brokers topics o) [
    | some exists ↦ mark_or_unmark now exists o ts s
    | none ↦ s
  ]

  unfoldable pub mark_objects : ℕ → List ℤ → List String → Map KafkaObject TagSet → S → S
  unfolding mark_object
  mark_objects now brokers topics [] s = s
  mark_objects now brokers topics ((o, ts) ∷ all) s =
      mark_objects now brokers topics all (mark_object now brokers topics o ts s)

  -- Under the lock, with the brokers that were read before it
  unfoldable pub mark_locked : ℕ → List ℤ → Result (List String) → S → Option Error × S
  unfolding mark_objects
  mark_locked now brokers (failed e) s = (some Error.fetching_topics, s)
  mark_locked now brokers (ok topics) s = elim (get_all_tags zk json t s) [
    | ok all ↦ (none, mark_objects now brokers topics all s)
    | failed e ↦ (some e, s)
  ]

  unfoldable pub mark_for_deletion : ℕ → Environment → S → Option Error × S
  unfolding mark_locked
  mark_for_deletion now env s = elim env.brokers [
    | failed e ↦ (some Error.fetching_brokers, s)
    | ok brokers ↦ elim env.lock [
      | some e ↦ (some e, s)
      | none ↦ mark_locked now brokers env.topics s
    ]
  ]

  unfoldable pub delete_stale : ℕ → ℕ → KafkaObject → TagSet → S → S
  unfolding is_stale
  delete_stale now minutes o ts s = elim (lookup tag_mark_time_key ts) [
    | none ↦ s
    | some mark ↦ if is_stale now minutes mark then (delete_tags zk json t o (keys ts) s).1 else s
  ]

  unfoldable pub delete_all_stale : ℕ → ℕ → Map KafkaObject TagSet → S → S
  unfolding delete_stale
  delete_all_stale now minutes [] s = s
  delete_all_stale now minutes ((o, ts) ∷ all) s =
      delete_all_stale now minutes all (delete_stale now minutes o ts s)

  -- An error of GetAllTags leaves nothing to do.
  unfoldable pub delete_stale_tags : ℕ → ℕ → Option Error → S → Option Error × S
  unfolding delete_all_stale
  delete_stale_tags now minutes (some e) s = (some e, s)
  delete_stale_tags now minutes none s = elim (get_all_tags zk json t s) [
    | ok all ↦ (none, delete_all_stale now minutes all s)
    | failed e ↦ (none, s)
  ]
