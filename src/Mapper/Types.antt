-- ===== src/Mapper/Types.antt =====
-- The data of mapper/: brokers, partitions, their metadata and the errors. A `*Broker` is named by
-- its ID: each broker map of the source holds a broker at its own ID.
use kafka_kit.Base.{ℕ, ℤ, pos, Bool, List, String, ◌≡◌, refl, ◌⊎◌, inl, inr}
use kafka_kit.Base.GoMap.{Map}

-- The platform's largest int.
abbrev pub stub_broker_id : ℤ
stub_broker_id = pos 9223372036854775807

pub record Broker (F : Type 0) : Type 0 where
  pub id : ℤ
  pub locality : String
  pub used : ℕ
  pub storage_free : F
  pub replace : Bool
  pub missing : Bool
  pub new : Bool

abbrev pub BrokerMap : Type 0 → Type 0
BrokerMap F = Map ℤ (Broker F)

-- The fields of a BrokerMeta.
pub record BrokerMeta (F : Type 0) : Type 0 where
  pub storage_free : F
  pub metrics_incomplete : Bool
  pub host : String
  pub port : ℕ
  pub rack : String
  pub log_message_format : String
  pub inter_broker_protocol_version : String

abbrev pub BrokerMetaMap : Type 0 → Type 0
BrokerMetaMap F = Map ℤ (BrokerMeta F)

pub record BrokerStatus : Type 0 where
  pub new : ℕ
  pub missing : ℕ
  pub old_missing : ℕ
  pub replace : ℕ
  pub rack_missing : ℕ

pub record Partition : Type 0 where
  pub topic : String
  pub partition : ℤ
  pub replicas : List ℤ

pub record PartitionMap : Type 0 where
  pub version : ℕ
  pub partitions : List Partition

-- topic, partition number to PartitionMeta.Size
abbrev pub PartitionMetaMap : Type 0 → Type 0
PartitionMetaMap F = Map String (Map ℤ F)

pub data Error : Type 0 where
  no_brokers invalid_selection_method : Error
  topic_not_found : String → Error
  partition_not_found : String → ℤ → Error
  broker_not_found : ℤ → Error
  -- fmt.Errorf("%s p%d: %s", topic, partition, err)
  at_partition : String → ℤ → Error → Error
  zero_replicas : String → ℤ → Error
  invalid_optimization invalid_strategy : String → Error
  insufficient_new_brokers : Error
  no_replacement_inferred : ℤ → Error
  insufficient_free_brokers : String → Error
  no_mapping_for_broker : ℤ → Error
  no_mapping_for_topic : ℤ → String → Error

pub data Result {ℓ} (A : Type ℓ) : Type ℓ where
  ok : A → Result A
  err : Error → Result A

pub Result-cases {ℓ} :
    {A : Type ℓ} (r : Result A) → ((a : A) × (r ≡ ok a)) ⊎ ((e : Error) × (r ≡ err e))
Result-cases (ok a) = inl (a, refl)
Result-cases (err e) = inr (e, refl)
