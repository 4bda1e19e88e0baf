-- ===== src/Registry/Cluster.antt =====
-- A cluster whose state is the data of its znodes, as an instance of the registry's interfaces to
-- ZooKeeper and JSON (internal/registry/server/tagstorage_zk.go).
use kafka_kit.Base.{
  nat_key, ap, sym, inl, inr, Option-cases, true, false, [], ◌∷◌, String, string_key, Option, none,
  some, ◌≡◌, ◌⊎◌, refl, subst, ◌==◌, beq_iff, if◌then◌else◌, arith,
}
use kafka_kit.Base.GoMap.{Map, lookup, insert, has, lookup-insert}
use kafka_kit.Registry.Types.{TagSet, Error, Result, ok, failed, is_no_node, is_missing_object}
use kafka_kit.Registry.Zookeeper.{Handler, IsZookeeper, Json, IsJson}
use kafka_kit.Base.GoMap.Extensional.{IsDistinct}
use kafka_kit.Mapper.Mappings.Counted.{IsDistinct-insert}
use kafka_kit.Registry.Filter.Shown.{AreForeign, failed_injective}

abbrev pub Data : Type 0
Data = Option TagSet

abbrev pub Znodes : Type 0
Znodes = Map String Data

abbrev pub get_znode : String → Znodes → Result Data
get_znode p s = elim (lookup p s) [ some d ↦ ok d | none ↦ failed Error.no_node ]

abbrev pub set_znode : String → Data → Znodes → Option Error × Znodes
set_znode p d s = if has p s then (none, insert p d s) else (some Error.no_node, s)

abbrev pub create_znode : String → Data → Znodes → Option Error × Znodes
create_znode p d s = if has p s then (some Error.request_failed, s) else (none, insert p d s)

abbrev pub cluster : Handler Znodes Data
cluster = record {
  get = get_znode;
  set = set_znode;
  create = create_znode;
  children = λ p s. ok (if p == "/registry/topic" then "events" ∷ [] else []);
}

pub get_znode_ok : (p : String) (s : Znodes) (d : Data) → get_znode p s ≡ ok d → lookup p s ≡ some d
get_znode_ok p s d e = ground arith

pub get_znode-none :
    (p : String) (s : Znodes) (e : Error)
    → get_znode p s ≡ failed e
    → is_no_node e ≡ true
    → lookup p s ≡ none
get_znode-none p s err e f = ground arith

pub lookup-set_znode :
    (p : String) (d : Data) (s : Znodes)
    → (set_znode p d s).0 ≡ none
    → lookup p (set_znode p d s).1 ≡ some d
unfolding has
lookup-set_znode p d s e = ground (arith, lookup-insert p p d s, beq_iff p p)

pub set_znode_other :
    (p q : String) (d : Data) (s : Znodes)
    → (p == q) ≡ false
    → lookup q (set_znode p d s).1 ≡ lookup q s
unfolding has
set_znode_other p q d s apart = ground (arith, lookup-insert p q d s)

pub set_znode_partly :
    (p : String) (d : Data) (s : Znodes)
    → (lookup p (set_znode p d s).1 ≡ some d) ⊎ (lookup p (set_znode p d s).1 ≡ lookup p s)
unfolding has
set_znode_partly p d s = ground (arith, lookup-insert p p d s, beq_iff p p)

pub create_znode_partly :
    (p : String) (d : Data) (s : Znodes)
    → (lookup p (create_znode p d s).1 ≡ some d) ⊎ (lookup p (create_znode p d s).1 ≡ lookup p s)
unfolding has
create_znode_partly p d s = ground (arith, lookup-insert p p d s, beq_iff p p)

pub create_znode_other :
    (p q : String) (d : Data) (s : Znodes)
    → (p == q) ≡ false
    → lookup q (create_znode p d s).1 ≡ lookup q s
unfolding has
create_znode_other p q d s apart = ground (arith, lookup-insert p q d s)

abbrev pub cluster-IsZookeeper : IsZookeeper cluster
cluster-IsZookeeper = record {
  node = lookup;
  get_ok = get_znode_ok;
  get_no_node = get_znode-none;
  set_ok = lookup-set_znode;
  set_other = set_znode_other;
  set_partly = set_znode_partly;
  create_partly = create_znode_partly;
  create_other = create_znode_other;
}

-- Unmarshalling sees the entries in the order in which they were marshalled.
abbrev pub json : Json Data
json = record {
  marshal = some;
  unmarshal = λ d. d;
  no_data = none;
  is_empty = λ d. elim d [ some ts ↦ false | none ↦ true ];
}

abbrev pub json-IsJson : IsJson json
json-IsJson = record {
  round_trip = λ ts. (ts, refl, λ k. refl);
  marshal_data = λ ts. refl;
  no_data_empty = refl;
}

-- Unmarshalling fills a map, so that its keys are distinct.
unfoldable pub first_entries : TagSet → TagSet
first_entries [] = []
first_entries ((k, v) ∷ ts) = insert k v (first_entries ts)

lookup-first_entries : (ts : TagSet) (k : String) → lookup k (first_entries ts) ≡ lookup k ts
unfolding first_entries lookup
lookup-first_entries [] k = refl
lookup-first_entries ((j, v) ∷ ts) k =
    ground (arith, lookup-first_entries ts k, lookup-insert j k v (first_entries ts))

first_entries-IsDistinct : (ts : TagSet) → IsDistinct (first_entries ts)
unfolding first_entries
first_entries-IsDistinct [] = tt
first_entries-IsDistinct ((k, v) ∷ ts) =
    IsDistinct-insert k v (first_entries ts) (first_entries-IsDistinct ts)

abbrev pub map_json : Json Data
map_json = record {
  marshal = some;
  unmarshal = λ d. elim d [ some ts ↦ some (first_entries ts) | none ↦ none ];
  no_data = none;
  is_empty = λ d. elim d [ some ts ↦ false | none ↦ true ];
}

pub map_json-IsJson : IsJson map_json
map_json-IsJson = record {
  round_trip = λ ts. (first_entries ts, refl, lookup-first_entries ts);
  marshal_data = λ ts. refl;
  no_data_empty = refl;
}

unmarshal-IsDistinct : (d : Data) (ts : TagSet) → map_json.unmarshal d ≡ some ts → IsDistinct ts
unmarshal-IsDistinct (some us) ts e =
    subst IsDistinct (ap (λ r. elim r [ some vs ↦ vs | none ↦ ts ]) e) (first_entries-IsDistinct us)
unmarshal-IsDistinct none ts e = cc

get_znode_foreign :
    (p : String) (s : Znodes) (e : Error) → get_znode p s ≡ failed e → is_missing_object e ≡ false
get_znode_foreign p s e h = elim (Option-cases (lookup p s)) [
  | inl n ↦
      let path : Error.no_node ≡ e = failed_injective (rw (get_znode, n) at h) in
      ap is_missing_object (sym path)
  | inr (d, y) ↦ let no_error : ok d ≡ failed e = rw (get_znode, y) at h in cc
]

pub cluster-AreForeign : AreForeign cluster map_json
cluster-AreForeign = record { distinct = unmarshal-IsDistinct; other_error = get_znode_foreign }
