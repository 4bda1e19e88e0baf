-- ===== src/Registry/Zookeeper.antt =====
-- kafkazk.Handler, as far as the tag storage uses it: requests on a state `S` of the cluster, with
-- znode data `D`. JSON's encoding of a tag set is a parameter of the same kind.
use kafka_kit.Base.{Bool, true, false, List, String, string_key, Option, none, some, ◌≡◌, ◌⊎◌, ◌==◌}
use kafka_kit.Base.GoMap.{lookup}
use kafka_kit.Registry.Types.{TagSet, Error, Result, ok, failed, is_no_node}

pub record Handler (S D : Type 0) : Type 0 where
  pub get : String → S → Result D
  pub set : String → D → S → Option Error × S
  pub create : String → D → S → Option Error × S
  pub children : String → S → Result (List String)

-- What ZooKeeper documents: `node` is the data at a path. A request that fails may or may not have
-- changed its own path, and no other.
pub record IsZookeeper {S D : Type 0} (zk : Handler S D) : Type 0 where
  pub node : String → S → Option D
  pub get_ok : (p : String) (s : S) (d : D) → zk.get p s ≡ ok d → node p s ≡ some d
  pub get_no_node :
      (p : String) (s : S) (e : Error)
      → zk.get p s ≡ failed e
      → is_no_node e ≡ true
      → node p s ≡ none
  pub set_ok :
      (p : String) (d : D) (s : S) → (zk.set p d s).0 ≡ none → node p (zk.set p d s).1 ≡ some d
  pub set_other :
      (p q : String) (d : D) (s : S) → (p == q) ≡ false → node q (zk.set p d s).1 ≡ node q s
  pub set_partly :
      (p : String) (d : D) (s : S)
      → (node p (zk.set p d s).1 ≡ some d) ⊎ (node p (zk.set p d s).1 ≡ node p s)
  pub create_partly :
      (p : String) (d : D) (s : S)
      → (node p (zk.create p d s).1 ≡ some d) ⊎ (node p (zk.create p d s).1 ≡ node p s)
  pub create_other :
      (p q : String) (d : D) (s : S) → (p == q) ≡ false → node q (zk.create p d s).1 ≡ node q s

-- json.Marshal and json.Unmarshal on tag sets, and the znode data that has no bytes
pub record Json (D : Type 0) : Type 0 where
  pub marshal : TagSet → D
  pub unmarshal : D → Option TagSet
  pub no_data : D
  pub is_empty : D → Bool

-- An encoded tag set is not empty and decodes to a set with the same entries, in some order.
pub record IsJson {D : Type 0} (j : Json D) : Type 0 where
  pub round_trip :
      (ts : TagSet)
      → (back : TagSet) × (j.unmarshal (j.marshal ts) ≡ some back)
        × ((k : String) → lookup k back ≡ lookup k ts)
  pub marshal_data : (ts : TagSet) → j.is_empty (j.marshal ts) ≡ false
  pub no_data_empty : j.is_empty j.no_data ≡ true
