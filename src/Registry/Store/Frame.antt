-- ===== src/Registry/Store/Frame.antt =====
-- internal/registry/server/tagstorage_zk.go: a request about one object leaves the others alone.
use kafka_kit.Base.{
  true, false, List, String, string_key, Option, none, some, ◌≡◌, refl, ap, ◌∙◌, inl, inr, ◌==◌,
  beq_iff, length, eqb, Bool-cases, Option-cases,
}
use kafka_kit.Registry.Types.{
  KafkaObject, object_key, TagSet, Error, Result, ok, failed, is_no_node, is_complete, Result-cases,
}
use kafka_kit.Registry.Zookeeper.{Handler, IsZookeeper, Json}
use kafka_kit.Registry.Store.{
  Storage, znode, update_tags, delete_keys, first_reserved, decode, persist, created,
  fetch_or_create, merge_into, set_tags, fetch, delete_tags,
}
use kafka_kit.Registry.Store.Znodes.{znode_injective}
use kafka_kit.Registry.Store.Laws.{stored}

module _ {S D : Type 0} {zk : Handler S D} (z : IsZookeeper zk) (json : Json D) (t : Storage) where
  -- The states have the same data at every path but the object's own.
  abbrev IsSameElsewhere : KafkaObject → S → S → Type 0
  IsSameElsewhere o s s' = (q : String) → (znode t o == q) ≡ false → z.node q s' ≡ z.node q s

  persist-IsSameElsewhere :
      (o : KafkaObject) (change : TagSet → TagSet) (r : Result TagSet) (s : S)
      → IsSameElsewhere o s (persist zk json t o change r s).1
  unfolding persist
  persist-IsSameElsewhere o change (failed e) s q apart = refl
  persist-IsSameElsewhere o change (ok old) s q apart =
      z.set_other (znode t o) q (json.marshal (change old)) s apart

  fetch-IsSameElsewhere :
      (o : KafkaObject) (s : S) → IsSameElsewhere o s (fetch_or_create zk json t o s).1
  unfolding fetch_or_create
  fetch-IsSameElsewhere o s q apart = elim (Result-cases (zk.get (znode t o) s)) [
    | inl (d, e) ↦ rw (fetch_or_create, e) refl
    | inr (err, e) ↦ elim (Bool-cases (is_no_node err)) [
      | inl absent ↦
          let r = zk.create (znode t o) json.no_data s in
          rw (fetch_or_create, e, absent)
            (ap (z.node q) (created_state r) ∙ z.create_other (znode t o) q json.no_data s apart)
      | inr other ↦ rw (fetch_or_create, e, other) refl
    ]
  ]
    where
      created_state : (r : Option Error × S) → (created json r).1 ≡ r.1
      created_state (some e, s) = refl
      created_state (none, s) = refl

  merge-IsSameElsewhere :
      (o : KafkaObject) (ts : TagSet) (r : Result D × S)
      → IsSameElsewhere o r.1 (merge_into zk json t o ts r).1
  unfolding merge_into
  merge-IsSameElsewhere o ts (failed e, s) q apart = refl
  merge-IsSameElsewhere o ts (ok d, s) q apart =
      persist-IsSameElsewhere o (update_tags ts) (decode json d) s q apart

  set_tags-IsSameElsewhere :
      (o : KafkaObject) (ts : TagSet) (s : S) → IsSameElsewhere o s (set_tags zk json t o ts s).1
  unfolding set_tags
  set_tags-IsSameElsewhere o ts s q apart = elim (Bool-cases (is_complete o)) [
    | inr e ↦ rw (set_tags, e) refl
    | inl co ↦ elim (Bool-cases (eqb (length ts) 0)) [
      | inl e ↦ rw (set_tags, co, e) refl
      | inr some_tags ↦ elim (Option-cases (first_reserved t o ts)) [
        | inr (k, e) ↦ rw (set_tags, co, some_tags, e) refl
        | inl free ↦
            rw (set_tags, co, some_tags, free)
              (merge-IsSameElsewhere o ts (fetch_or_create zk json t o s) q apart
                ∙ fetch-IsSameElsewhere o s q apart)
      ]
    ]
  ]

  delete_tags-IsSameElsewhere :
      (o : KafkaObject) (ks : List String) (s : S)
      → IsSameElsewhere o s (delete_tags zk json t o ks s).1
  unfolding delete_tags
  delete_tags-IsSameElsewhere o ks s q apart = elim (Bool-cases (is_complete o)) [
    | inr e ↦ rw (delete_tags, e) refl
    | inl co ↦ elim (Bool-cases (eqb (length ks) 0)) [
      | inl e ↦ rw (delete_tags, co, e) refl
      | inr some_keys ↦
          rw (delete_tags, co, some_keys)
            (persist-IsSameElsewhere o (delete_keys ks) (fetch zk json t o s) s q apart)
    ]
  ]

  stored_elsewhere :
      (o p : KafkaObject) (s s' : S)
      → is_complete o ≡ true
      → is_complete p ≡ true
      → (o == p) ≡ false
      → IsSameElsewhere o s s'
      → stored z json t p s' ≡ stored z json t p s
  unfolding stored
  stored_elsewhere o p s s' co cp other same = elim (Bool-cases (znode t o == znode t p)) [
    | inl e ↦
        let path : o ≡ p = znode_injective t o p co cp ((beq_iff (znode t o) (znode t p)).0 e) in
        let eq : (o == p) ≡ true = (beq_iff o p).1 path in cc
    | inr apart ↦ rw (stored, same (znode t p) apart) refl
  ]

  -- A call of SetTags leaves the stored sets of all other objects as they are.
  pub set_tags_other :
      (o p : KafkaObject) (ts : TagSet) (s : S)
      → is_complete p ≡ true
      → (o == p) ≡ false
      → stored z json t p (set_tags zk json t o ts s).1 ≡ stored z json t p s
  unfolding set_tags
  set_tags_other o p ts s cp other = elim (Bool-cases (is_complete o)) [
    | inl co ↦
        stored_elsewhere o p s (set_tags zk json t o ts s).1 co cp other
          (set_tags-IsSameElsewhere o ts s)
    | inr e ↦ rw (set_tags, e) refl
  ]

  -- A call of DeleteTags does so too.
  pub delete_tags_other :
      (o p : KafkaObject) (ks : List String) (s : S)
      → is_complete p ≡ true
      → (o == p) ≡ false
      → stored z json t p (delete_tags zk json t o ks s).1 ≡ stored z json t p s
  unfolding delete_tags
  delete_tags_other o p ks s cp other = elim (Bool-cases (is_complete o)) [
    | inl co ↦
        stored_elsewhere o p s (delete_tags zk json t o ks s).1 co cp other
          (delete_tags-IsSameElsewhere o ks s)
    | inr e ↦ rw (delete_tags, e) refl
  ]
