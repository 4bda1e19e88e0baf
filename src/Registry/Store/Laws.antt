-- ===== src/Registry/Store/Laws.antt =====
-- internal/registry/server/tagstorage_zk.go: SetTags, GetTags and DeleteTags against the tag sets
-- that the znodes hold.
use kafka_kit.Base.{
  List, [], ◌∷◌, String, string_key, Option, none, some, ◌≡◌, inl, inr, refl, sym, ap, ◌∙◌, subst,
  ◌==◌, beq_iff, if◌then◌else◌, Bool-cases, arith,
}
use kafka_kit.Base.GoMap.{lookup, insert, delete, has, contains, lookup-insert, lookup-delete}
use kafka_kit.Base.GoMap.Extensional.{IsDistinct}
use kafka_kit.Registry.Types.{
  KafkaObject, object_key, TagSet, Error, Result, ok, failed, is_no_node, is_complete, Result-cases,
  ok_injective,
}
use kafka_kit.Registry.Zookeeper.{Handler, IsZookeeper, Json, IsJson}
use kafka_kit.Registry.Store.{
  Storage, znode, update_tags, delete_keys, decode, persist, created, fetch_or_create, merge_into,
  set_tags, fetch, get_tags, delete_tags, missing_object,
}

module _ {D : Type 0} {json : Json D} (j : IsJson json) where
  pub decode-marshal :
      (ts : TagSet)
      → (back : TagSet) × (decode json (json.marshal ts) ≡ ok back)
        × ((k : String) → lookup k back ≡ lookup k ts)
  unfolding decode
  decode-marshal ts =
      let (back, e, same) = j.round_trip ts in (back, rw (j.marshal_data ts, e) refl, same)

  pub decode-no_data : decode json json.no_data ≡ ok []
  unfolding decode
  decode-no_data = rw (j.no_data_empty) refl

created_ok :
    {S D : Type 0} (json : Json D) (r : Option Error × S) (d : D)
    → (created json r).0 ≡ ok d
    → d ≡ json.no_data
unfolding created
created_ok json (some e, s) d h = cc
created_ok json (none, s) d h = cc

module _ {S D : Type 0} {zk : Handler S D} (z : IsZookeeper zk) (json : Json D) (t : Storage) where
  -- The tag set that the znode of an object holds, empty where there is no znode
  unfoldable pub stored : KafkaObject → S → Result TagSet
  unfolding decode
  stored o s = elim (z.node (znode t o) s) [ some d ↦ decode json d | none ↦ ok [] ]

  stored_some :
      (o : KafkaObject) (s : S) (d : D) → z.node (znode t o) s ≡ some d → stored o s ≡ decode json d
  unfolding stored
  stored_some o s d e = rw (stored, e) refl

  pub stored_none : (o : KafkaObject) (s : S) → z.node (znode t o) s ≡ none → stored o s ≡ ok []
  unfolding stored
  stored_none o s e = rw (stored, e) refl

module _ {S D : Type 0} {zk : Handler S D} (z : IsZookeeper zk) {json : Json D} (j : IsJson json)
    (t : Storage) where
  persist-stored :
      (o : KafkaObject) (change : TagSet → TagSet) (r : Result TagSet) (s : S)
      → (persist zk json t o change r s).0 ≡ none
      → (old back : TagSet) × (r ≡ ok old)
        × (stored z json t o (persist zk json t o change r s).1 ≡ ok back)
        × ((k : String) → lookup k back ≡ lookup k (change old))
  unfolding persist
  persist-stored o change (failed e) s h = cc
  persist-stored o change (ok old) s h =
      let (back, e, same) = decode-marshal j (change old) in
      let data' = json.marshal (change old) in
      let s' = (zk.set (znode t o) data' s).1 in
      (old, back, refl, stored_some z json t o s' data' (z.set_ok (znode t o) data' s h) ∙ e, same)

  pub fetched-stored :
      (o : KafkaObject) (s : S) (d : D)
      → (fetch_or_create zk json t o s).0 ≡ ok d
      → decode json d ≡ stored z json t o s
  unfolding fetch_or_create created
  fetched-stored o s d h = elim (Result-cases (zk.get (znode t o) s)) [
    | inl (d', e) ↦
        let same : ok d' ≡ ok d = rw (fetch_or_create, e) at h in
        let found = stored_some z json t o s d' (z.get_ok (znode t o) s d' e) in cc
    | inr (err, e) ↦ elim (Bool-cases (is_no_node err)) [
      | inl absent ↦
          let made : (created json (zk.create (znode t o) json.no_data s)).0 ≡ ok d =
            rw (fetch_or_create, e, absent) at h in
          let none_data = created_ok json (zk.create (znode t o) json.no_data s) d made in
          let found = stored_none z json t o s (z.get_no_node (znode t o) s err e absent) in
          let empty = decode-no_data j in cc
      | inr other ↦ let no_result : failed err ≡ ok d = rw (fetch_or_create, e, other) at h in cc
    ]
  ]

  merge-stored :
      (o : KafkaObject) (ts : TagSet) (r : Result D × S)
      → (merge_into zk json t o ts r).0 ≡ none
      → (d : D) × (old back : TagSet) × (r.0 ≡ ok d)
        × (decode json d ≡ ok old)
        × (stored z json t o (merge_into zk json t o ts r).1 ≡ ok back)
        × ((k : String) → lookup k back ≡ lookup k (update_tags ts old))
  unfolding merge_into
  merge-stored o ts (failed e, s) h = cc
  merge-stored o ts (ok d, s) h =
      let (old, back, e, f, same) = persist-stored o (update_tags ts) (decode json d) s h in
      (d, old, back, refl, e, f, same)

  -- The guards that a call of SetTags has passed when it returns no error
  set_tags_guards :
      (o : KafkaObject) (ts : TagSet) (s : S)
      → (set_tags zk json t o ts s).0 ≡ none
      → set_tags zk json t o ts s ≡ merge_into zk json t o ts (fetch_or_create zk json t o s)
  unfolding set_tags
  set_tags_guards o ts s h = ground arith

pub lookup-update_tags :
    (k : String) (ts old : TagSet)
    → IsDistinct ts
    → lookup k (update_tags ts old) ≡ (elim (lookup k ts) [ some v ↦ some v | none ↦ lookup k old ])
unfolding update_tags lookup has
lookup-update_tags k [] old d = refl
lookup-update_tags k ((j, v) ∷ ts) old (d, ds) = elim (Bool-cases (j == k)) [
  | inl same ↦
      let path : j ≡ k = (beq_iff j k).0 same in
      ground (arith, lookup-update_tags k ts (insert j v old) ds, lookup-insert j k v old)
  | inr other ↦ ground (arith, lookup-update_tags k ts (insert j v old) ds, lookup-insert j k v old)
]

lookup-delete_keys :
    (k : String) (ks : List String) (old : TagSet)
    → lookup k (delete_keys ks old) ≡ (if contains k ks then none else lookup k old)
unfolding delete_keys contains
lookup-delete_keys k [] old = refl
lookup-delete_keys k (j ∷ ks) old =
    ground (arith, lookup-delete_keys k ks (delete j old), lookup-delete j k old)

module _ {S D : Type 0} {zk : Handler S D} (z : IsZookeeper zk) {json : Json D} (j : IsJson json)
    (t : Storage) where
  -- When SetTags returns no error, the stored set was readable before, and its entries afterwards
  -- are the provided ones and, at other keys, the earlier ones; the provided keys are distinct.
  pub set_tags-stored :
      (o : KafkaObject) (ts : TagSet) (s : S)
      → IsDistinct ts
      → (set_tags zk json t o ts s).0 ≡ none
      → (old back : TagSet) × (stored z json t o s ≡ ok old)
        × (stored z json t o (set_tags zk json t o ts s).1 ≡ ok back)
        × ((k : String)
            → lookup k back ≡ (elim (lookup k ts) [ some v ↦ some v | none ↦ lookup k old ]))
  set_tags-stored o ts s dis h =
      let guards = set_tags_guards z j t o ts s h in
      let fetched = fetch_or_create zk json t o s in
      let done : (merge_into zk json t o ts fetched).0 ≡ none =
        subst (λ (r : Option Error × S). r.0 ≡ none) guards h in
      let (d, old, back, e, f, g, same) = merge-stored z j t o ts fetched done in
      (
        old,
        back,
        sym (fetched-stored z j t o s d e) ∙ f,
        ap (λ (r : Option Error × S). stored z json t o r.1) guards ∙ g,
        λ k. same k ∙ lookup-update_tags k ts old dis,
      )

  pub fetch-stored :
      (o : KafkaObject) (s : S) (ts : TagSet)
      → fetch zk json t o s ≡ ok ts
      → stored z json t o s ≡ ok ts
  unfolding fetch
  fetch-stored o s ts h = elim (Result-cases (zk.get (znode t o) s)) [
    | inl (d, e) ↦
        let found = stored_some z json t o s d (z.get_ok (znode t o) s d e) in
        found ∙ (rw (fetch, e) at h)
    | inr (err, e) ↦ let no_result : failed (missing_object err) ≡ ok ts = rw (fetch, e) at h in cc
  ]

  -- What GetTags returns is the stored set.
  pub get_tags-stored :
      (o : KafkaObject) (s : S) (ts : TagSet)
      → get_tags zk json t o s ≡ ok ts
      → stored z json t o s ≡ ok ts
  unfolding get_tags
  get_tags-stored o s ts h = elim (Bool-cases (is_complete o)) [
    | inl e ↦ fetch-stored o s ts (rw (get_tags, e) at h)
    | inr e ↦
        let no_result : failed Error.invalid_kafka_object_type ≡ ok ts = rw (get_tags, e) at h in cc
  ]

  delete_tags_guards :
      (o : KafkaObject) (ks : List String) (s : S)
      → (delete_tags zk json t o ks s).0 ≡ none
      → delete_tags zk json t o ks s ≡ persist zk json t o (delete_keys ks) (fetch zk json t o s) s
  unfolding delete_tags
  delete_tags_guards o ks s h = ground arith

  -- When DeleteTags returns no error, the stored set was readable before, and afterwards it has
  -- its entries at the keys that are not listed.
  pub delete_tags-stored :
      (o : KafkaObject) (ks : List String) (s : S)
      → (delete_tags zk json t o ks s).0 ≡ none
      → (old back : TagSet) × (stored z json t o s ≡ ok old)
        × (stored z json t o (delete_tags zk json t o ks s).1 ≡ ok back)
        × ((k : String) → lookup k back ≡ (if contains k ks then none else lookup k old))
  delete_tags-stored o ks s h =
      let guards = delete_tags_guards o ks s h in
      let read = fetch zk json t o s in
      let done : (persist zk json t o (delete_keys ks) read s).0 ≡ none =
        subst (λ (r : Option Error × S). r.0 ≡ none) guards h in
      let (old, back, e, g, same) = persist-stored z j t o (delete_keys ks) read s done in
      (
        old,
        back,
        fetch-stored o s old e,
        ap (λ (r : Option Error × S). stored z json t o r.1) guards ∙ g,
        λ k. same k ∙ lookup-delete_keys k ks old,
      )

  -- After SetTags has returned no error, GetTags, when it returns tags, returns every provided one.
  pub get_tags-set_tags :
      (o : KafkaObject) (ts back : TagSet) (s : S) (k v : String)
      → IsDistinct ts
      → (set_tags zk json t o ts s).0 ≡ none
      → get_tags zk json t o (set_tags zk json t o ts s).1 ≡ ok back
      → lookup k ts ≡ some v
      → lookup k back ≡ some v
  get_tags-set_tags o ts back s k v dis h g e =
      let s' = (set_tags zk json t o ts s).1 in
      let (old, found, read, written, same) = set_tags-stored o ts s dis h in
      let here = get_tags-stored o s' back g in
      let one : found ≡ back = ok_injective (sym written ∙ here) in
      let entry : lookup k found ≡ some v = same k ∙ (rw e refl) in
      subst (λ (m : TagSet). lookup k m ≡ some v) one entry
