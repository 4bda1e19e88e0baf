-- ===== src/Registry/Store/Requests.antt =====
-- internal/registry/server/tagstorage_zk.go: sequences of SetTags and DeleteTags requests.
use kafka_kit.Base.{List, [], ◌∷◌, String}
use kafka_kit.Registry.Types.{KafkaObject, TagSet}
use kafka_kit.Registry.Zookeeper.{Handler, IsZookeeper, Json, IsJson}
use kafka_kit.Registry.Store.{Storage, set_tags, delete_tags}
use kafka_kit.Registry.Store.Reserved.{
  AllUnreserved, set_tags-AllUnreserved, delete_tags-AllUnreserved,
}

pub data Request : Type 0 where
  set_request : KafkaObject → TagSet → Request
  delete_request : KafkaObject → List String → Request

module _ {S D : Type 0} (zk : Handler S D) (json : Json D) (t : Storage) where
  -- The state after a request, which may have failed
  unfoldable pub perform : Request → S → S
  perform (set_request o ts) s = (set_tags zk json t o ts s).1
  perform (delete_request o ks) s = (delete_tags zk json t o ks s).1

  unfoldable pub perform_all : List Request → S → S
  unfolding perform
  perform_all [] s = s
  perform_all (r ∷ rs) s = perform_all rs (perform r s)

module _ {S D : Type 0} {zk : Handler S D} (z : IsZookeeper zk) {json : Json D} (j : IsJson json)
    (t : Storage) where
  perform-AllUnreserved :
      (r : Request) (s : S)
      → AllUnreserved z json t s
      → AllUnreserved z json t (perform zk json t r s)
  unfolding perform
  perform-AllUnreserved (set_request o ts) s inv = set_tags-AllUnreserved z j t o ts s inv
  perform-AllUnreserved (delete_request o ks) s inv = delete_tags-AllUnreserved z j t o ks s inv

  -- No sequence of SetTags and DeleteTags requests stores a reserved tag, whichever of them fail.
  pub perform_all-AllUnreserved :
      (rs : List Request) (s : S)
      → AllUnreserved z json t s
      → AllUnreserved z json t (perform_all zk json t rs s)
  unfolding perform_all
  perform_all-AllUnreserved [] s inv = inv
  perform_all-AllUnreserved (r ∷ rs) s inv =
      perform_all-AllUnreserved rs (perform zk json t r s) (perform-AllUnreserved r s inv)
