-- ===== src/Registry/Types.antt =====
-- The data of internal/registry/server/tag.go: objects, tags and the errors.
use kafka_kit.Base.{
  Bool, true, false, ◌||◌, ◌&&◌, not, List, String, ◌≡◌, refl, ◌⊎◌, inl, inr, ◌↔◌, Key, ◌==◌,
  beq_iff, arith, string_key,
}
use kafka_kit.Base.GoMap.{Map}

pub record KafkaObject : Type 0 where
  pub object_type : String
  pub object_id : String

-- A slice of "key:value" texts.
abbrev pub Tags : Type 0
Tags = List String

abbrev pub TagSet : Type 0
TagSet = Map String String

-- The errors of tag.go, kafkazk's ErrNoNode, and what a ZooKeeper request or json.Unmarshal report.
pub data Error : Type 0 where
  invalid_kafka_object_type : Error
  kafka_object_does_not_exist : Error
  nil_tag_set : Error
  nil_tags : Error
  reserved_tag : String → Error
  invalid_tag : Error
  no_node : Error
  request_failed : Error
  unmarshal_failed : Error
  fetching_brokers : Error
  fetching_topics : Error

-- case kafkazk.ErrNoNode
abbrev pub is_no_node : Error → Bool
is_no_node Error.no_node = true
is_no_node _ = false

-- err == ErrKafkaObjectDoesNotExist
abbrev pub is_missing_object : Error → Bool
is_missing_object Error.kafka_object_does_not_exist = true
is_missing_object _ = false

pub data Result {ℓ} (A : Type ℓ) : Type ℓ where
  ok : A → Result A
  failed : Error → Result A

unfoldable pub is_valid : KafkaObject → Bool
is_valid o = (o.object_type == "broker") || (o.object_type == "topic")

unfoldable pub is_complete : KafkaObject → Bool
unfolding is_valid
is_complete o = is_valid o && not (o.object_id == "")

-- Objects are the keys of GetAllTags.
abbrev pub equal_object : KafkaObject → KafkaObject → Bool
equal_object o p = (o.object_type == p.object_type) && (o.object_id == p.object_id)

pub equal_object_iff : (o p : KafkaObject) → (equal_object o p ≡ true) ↔ (o ≡ p)
equal_object_iff o p =
    ground (arith, beq_iff o.object_type p.object_type, beq_iff o.object_id p.object_id)

instance abbrev pub object_key : Key KafkaObject
object_key = record { equal = equal_object; decides = equal_object_iff }

-- The fields reserved for an object type.
abbrev pub ReservedFields : Type 0
ReservedFields = Map String (List String)

pub Result-cases {ℓ} :
    {A : Type ℓ} (r : Result A) → ((a : A) × (r ≡ ok a)) ⊎ ((e : Error) × (r ≡ failed e))
Result-cases (ok a) = inl (a, refl)
Result-cases (failed e) = inr (e, refl)

pub ok_injective {ℓ} : {A : Type ℓ} {a b : A} → ok a ≡ ok b → a ≡ b
ok_injective h = cc
