-- ===== src/Registry/Store.antt =====
-- internal/registry/server/tagstorage_zk.go: the tags of an object in its znode. A handler that
-- changes the cluster returns its error and the state.
pub mod Znodes
pub mod Laws
pub mod Reserved
pub mod Frame
pub mod Requests
use Prim.Native.String.{◌++◌ as append}
use kafka_kit.Base.{
  Bool, true, false, List, [], ◌∷◌, String, string_key, Option, none, some, ◌==◌, if◌then◌else◌,
  length, eqb,
}
use kafka_kit.Base.GoMap.{Map, lookup, insert, delete, has, keys, contains}
use kafka_kit.Registry.Types.{
  is_valid, is_complete, KafkaObject, object_key, TagSet, ReservedFields, Error, Result, ok, failed,
  is_no_node, is_missing_object,
}
use kafka_kit.Registry.Zookeeper.{Handler, Json}

-- ZKTagStorage without its handler
pub record Storage : Type 0 where
  pub reserved_fields : ReservedFields
  pub prefix : String

-- fmt.Sprintf("/%s/%s/%s", t.Prefix, o.Type, o.ID)
abbrev pub znode : Storage → KafkaObject → String
znode t o =
    append "/" (append t.prefix (append "/" (append o.object_type (append "/" o.object_id))))

-- fmt.Sprintf("/%s/%s", t.Prefix, kafkaObjectType)
abbrev pub type_znode : Storage → String → String
type_znode t object_type = append "/" (append t.prefix (append "/" object_type))

unfoldable pub load_reserved_fields : ReservedFields → Storage → Storage
load_reserved_fields r t = record { reserved_fields = r; prefix = t.prefix }

-- t.ReservedFields[objectType][f]
unfoldable pub is_reserved : Storage → String → String → Bool
is_reserved t object_type f = elim (lookup object_type t.reserved_fields) [
  | some fields ↦ contains f fields
  | none ↦ false
]

unfoldable pub field_reserved : Storage → KafkaObject → String → Bool
unfolding is_reserved
field_reserved t o f = if is_valid o then is_reserved t o.object_type f else false

-- The first reserved tag of a set.
unfoldable pub first_reserved : Storage → KafkaObject → TagSet → Option String
unfolding field_reserved
first_reserved t o [] = none
first_reserved t o ((k, v) ∷ ts) = if field_reserved t o k then some k else first_reserved t o ts

-- for k, v := range ts { tags[k] = v }
unfoldable pub update_tags : TagSet → TagSet → TagSet
update_tags [] tags = tags
update_tags ((k, v) ∷ ts) tags = update_tags ts (insert k v tags)

unfoldable pub delete_keys : List String → TagSet → TagSet
delete_keys [] tags = tags
delete_keys (k ∷ ks) tags = delete_keys ks (delete k tags)

-- A missing znode means that the object does not exist.
abbrev pub missing_object : Error → Error
missing_object e = if is_no_node e then Error.kafka_object_does_not_exist else e

module _ {D : Type 0} (json : Json D) where
  -- Data without bytes is an empty set.
  unfoldable pub decode : D → Result TagSet
  decode data' = if json.is_empty data' then ok [] else elim (json.unmarshal data') [
    | some tags ↦ ok tags
    | none ↦ failed Error.unmarshal_failed
  ]

  -- The data of the znode, which is created when it is missing.
  unfoldable pub created {ℓ} : {S : Type ℓ} → Option Error × S → Result D × S
  created (some e, s) = (failed e, s)
  created (none, s) = (ok json.no_data, s)

module _ {S D : Type 0} (zk : Handler S D) (json : Json D) (t : Storage) where
  -- Serialize, persist.
  unfoldable pub persist : KafkaObject → (TagSet → TagSet) → Result TagSet → S → Option Error × S
  persist o change (failed e) s = (some e, s)
  persist o change (ok tags) s = zk.set (znode t o) (json.marshal (change tags)) s

  unfoldable pub fetch_or_create : KafkaObject → S → Result D × S
  unfolding created
  fetch_or_create o s = elim (zk.get (znode t o) s) [
    | ok data' ↦ (ok data', s)
    | failed e ↦
        if is_no_node e then created json (zk.create (znode t o) json.no_data s) else (failed e, s)
  ]

  unfoldable pub merge_into : KafkaObject → TagSet → Result D × S → Option Error × S
  unfolding persist decode update_tags
  merge_into o ts (failed e, s) = (some e, s)
  merge_into o ts (ok data', s) = persist o (update_tags ts) (decode json data') s

  unfoldable pub set_tags : KafkaObject → TagSet → S → Option Error × S
  unfolding fetch_or_create merge_into first_reserved
  set_tags o ts s =
      if is_complete o
      then if eqb (length ts) 0 then (some Error.nil_tag_set, s) else elim (first_reserved t o ts) [
        | some k ↦ (some (Error.reserved_tag k), s)
        | none ↦ merge_into o ts (fetch_or_create o s)
      ]
      else (some Error.invalid_kafka_object_type, s)

  -- A missing znode means that the object has no tags.
  unfoldable pub fetch : KafkaObject → S → Result TagSet
  unfolding decode
  fetch o s = elim (zk.get (znode t o) s) [
    | ok data' ↦ decode json data'
    | failed e ↦ failed (missing_object e)
  ]

  unfoldable pub get_tags : KafkaObject → S → Result TagSet
  unfolding fetch
  get_tags o s = if is_complete o then fetch o s else failed Error.invalid_kafka_object_type

  unfoldable pub delete_tags : KafkaObject → List String → S → Option Error × S
  unfolding fetch persist delete_keys
  delete_tags o ks s =
      if is_complete o
      then if eqb (length ks) 0
        then (some Error.nil_tags, s)
        else persist o (delete_keys ks) (fetch o s) s
      else (some Error.invalid_kafka_object_type, s)

  unfoldable pub tags_of_children :
      String → List String → Map KafkaObject TagSet → S → Result (Map KafkaObject TagSet)
  unfolding get_tags
  tags_of_children ty [] found s = ok found
  tags_of_children ty (id ∷ ids) found s =
      elim (get_tags (record { object_type = ty; object_id = id }) s) [
        | ok tags ↦
            tags_of_children ty ids
              (insert (record { object_type = ty; object_id = id }) tags found) s
        | failed e ↦ failed e
      ]

  unfoldable pub get_all_tags_for_type : String → S → Result (Map KafkaObject TagSet)
  unfolding tags_of_children
  get_all_tags_for_type ty s = elim (zk.children (type_znode t ty) s) [
    | ok ids ↦ tags_of_children ty ids [] s
    | failed e ↦ failed (missing_object e)
  ]

-- for o, tags := range byType { tags[o] = tags }
unfoldable pub add_all_tags :
    Map KafkaObject TagSet → Map KafkaObject TagSet → Map KafkaObject TagSet
add_all_tags [] all = all
add_all_tags ((o, ts) ∷ rest) all = add_all_tags rest (insert o ts all)

-- A missing parent znode means that no tags were ever set.
unfoldable pub add_type :
    Result (Map KafkaObject TagSet) → Map KafkaObject TagSet → Result (Map KafkaObject TagSet)
unfolding add_all_tags
add_type (ok found) all = ok (add_all_tags found all)
add_type (failed e) all = if is_missing_object e then ok all else failed e

module _ {S D : Type 0} (zk : Handler S D) (json : Json D) (t : Storage) where
  unfoldable pub get_all_tags : S → Result (Map KafkaObject TagSet)
  unfolding add_type get_all_tags_for_type
  get_all_tags s = elim (add_type (get_all_tags_for_type zk json t "broker" s) []) [
    | ok brokers ↦ add_type (get_all_tags_for_type zk json t "topic" s) brokers
    | failed e ↦ failed e
  ]
