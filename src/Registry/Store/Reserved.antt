-- ===== src/Registry/Store/Reserved.antt =====
-- internal/registry/server/tagstorage_zk.go: no stored set has a reserved tag, whatever requests fail.
use kafka_kit.Base.{
  true, false, List, [], ◌∷◌, String, string_key, Option, none, some, ◌≡◌, ◌⊎◌, inl, inr, refl, sym,
  ◌∙◌, subst, ◌==◌, beq_iff, length, eqb, Bool-cases, Option-cases, arith,
}
use kafka_kit.Base.GoMap.{lookup, insert, delete, has, has-insert, lookup-delete}
use kafka_kit.Registry.Types.{
  KafkaObject, TagSet, Error, Result, ok, failed, is_no_node, is_complete, Result-cases,
  ok_injective,
}
use kafka_kit.Registry.Zookeeper.{Handler, IsZookeeper, Json, IsJson}
use kafka_kit.Registry.Store.{
  Storage, znode, update_tags, delete_keys, field_reserved, first_reserved, decode, persist,
  created, fetch_or_create, merge_into, set_tags, fetch, delete_tags,
}
use kafka_kit.Registry.Store.Znodes.{znode_injective}
use kafka_kit.Registry.Store.Laws.{
  stored, decode-marshal, decode-no_data, fetched-stored, fetch-stored,
}

-- A set that was read has no tag that is reserved for the object.
abbrev pub IsUnreserved : Storage → KafkaObject → Result TagSet → Type 0
IsUnreserved t o r =
    (ts : TagSet) → r ≡ ok ts → (k : String) → has k ts ≡ true → field_reserved t o k ≡ false

first_reserved-none :
    (t : Storage) (o : KafkaObject) (ts : TagSet)
    → first_reserved t o ts ≡ none
    → IsUnreserved t o (ok ts)
unfolding first_reserved has lookup
first_reserved-none t o [] e us same k h =
    let path : [] ≡ us = ok_injective same in
    let none_has : has k us ≡ false = subst (λ (m : TagSet). has k m ≡ false) path refl in cc
first_reserved-none t o ((j, v) ∷ ts) e us same k h =
    let path : (j, v) ∷ ts ≡ us = ok_injective same in
    let mine : has k ((j, v) ∷ ts) ≡ true = subst (λ (m : TagSet). has k m ≡ true) (sym path) h in
    elim (Bool-cases (j == k)) [
      | inl eq ↦ let key : j ≡ k = (beq_iff j k).0 eq in ground arith
      | inr other ↦
          first_reserved-none t o ts (ground arith) ts refl k (rw (has, lookup, other) at mine)
    ]

has-update_tags :
    (k : String) (ts old : TagSet)
    → has k (update_tags ts old) ≡ true
    → (has k ts ≡ true) ⊎ (has k old ≡ true)
unfolding update_tags has lookup
has-update_tags k [] old h = inr h
has-update_tags k ((j, v) ∷ ts) old h = elim (has-update_tags k ts (insert j v old) h) [
  | inl e ↦ inl (ground arith)
  | inr e ↦ elim (Bool-cases (j == k)) [
    | inl same ↦ inl (ground arith)
    | inr other ↦ inr (ground (arith, has-insert j k v old))
  ]
]

has-delete_keys :
    (k : String) (ks : List String) (old : TagSet)
    → has k (delete_keys ks old) ≡ true
    → has k old ≡ true
unfolding delete_keys has
has-delete_keys k [] old h = h
has-delete_keys k (j ∷ ks) old h =
    let rest : has k (delete j old) ≡ true = has-delete_keys k ks (delete j old) h in
    ground (arith, lookup-delete j k old)

module _ {S D : Type 0} {zk : Handler S D} (z : IsZookeeper zk) (json : Json D) (t : Storage) where
  -- No object has a stored tag that is reserved for its type.
  abbrev pub AllUnreserved : S → Type 0
  AllUnreserved s =
      (o : KafkaObject) → is_complete o ≡ true → IsUnreserved t o (stored z json t o s)

  -- A request that changes at most the data of one object's znode, to data without reserved tags
  request_keeps :
      (o : KafkaObject) (d : D) (s s' : S)
      → is_complete o ≡ true
      → ((z.node (znode t o) s' ≡ some d) ⊎ (z.node (znode t o) s' ≡ z.node (znode t o) s))
      → ((q : String) → (znode t o == q) ≡ false → z.node q s' ≡ z.node q s)
      → IsUnreserved t o (decode json d)
      → AllUnreserved s
      → AllUnreserved s'
  unfolding stored
  request_keeps o d s s' co partly other fresh inv p cp =
      elim (Bool-cases (znode t o == znode t p)) [
        | inl same ↦
            let path : o ≡ p =
              znode_injective t o p co cp ((beq_iff (znode t o) (znode t p)).0 same) in
            subst (λ (q : KafkaObject). IsUnreserved t q (stored z json t q s')) path
              (elim partly [ inl e ↦ rw (stored, e) fresh | inr e ↦ rw (stored, e) (inv o co) ])
        | inr apart ↦ rw (stored, other (znode t p) apart) (inv p cp)
      ]

module _ {S D : Type 0} {zk : Handler S D} (z : IsZookeeper zk) {json : Json D} (j : IsJson json)
    (t : Storage) where
  marshal-IsUnreserved :
      (o : KafkaObject) (ts : TagSet)
      → IsUnreserved t o (ok ts)
      → IsUnreserved t o (decode json (json.marshal ts))
  unfolding has
  marshal-IsUnreserved o ts h us e k found =
      let (back, f, same) = decode-marshal j ts in
      let path : back ≡ us = ok_injective (sym f ∙ e) in
      let here : has k back ≡ true = subst (λ (m : TagSet). has k m ≡ true) (sym path) found in
      h ts refl k (ground (arith, same k))

  persist_keeps :
      (o : KafkaObject) (change : TagSet → TagSet) (r : Result TagSet) (s : S)
      → is_complete o ≡ true
      → ((old : TagSet) → r ≡ ok old → IsUnreserved t o (ok (change old)))
      → AllUnreserved z json t s
      → AllUnreserved z json t (persist zk json t o change r s).1
  unfolding persist
  persist_keeps o change (failed e) s co fresh inv = inv
  persist_keeps o change (ok old) s co fresh inv =
      let d = json.marshal (change old) in
      let p = znode t o in
      request_keeps z json t o d s (zk.set p d s).1 co (z.set_partly p d s)
        (λ q apart. z.set_other p q d s apart)
        (marshal-IsUnreserved o (change old) (fresh old refl)) inv

  created_state : (r : Option Error × S) → (created json r).1 ≡ r.1
  unfolding created
  created_state (some e, s) = refl
  created_state (none, s) = refl

  create_keeps :
      (o : KafkaObject) (s : S)
      → is_complete o ≡ true
      → AllUnreserved z json t s
      → AllUnreserved z json t (zk.create (znode t o) json.no_data s).1
  unfolding has
  create_keeps o s co inv =
      let p = znode t o in
      request_keeps z json t o json.no_data s (zk.create p json.no_data s).1 co
        (z.create_partly p json.no_data s) (λ q apart. z.create_other p q json.no_data s apart)
        (λ us e k h.
          let path : [] ≡ us = ok_injective (sym (decode-no_data j) ∙ e) in
          let none_has : has k us ≡ false = subst (λ (m : TagSet). has k m ≡ false) path refl in cc)
        inv

  fetch_keeps :
      (o : KafkaObject) (s : S)
      → is_complete o ≡ true
      → AllUnreserved z json t s
      → AllUnreserved z json t (fetch_or_create zk json t o s).1
  unfolding fetch_or_create
  fetch_keeps o s co inv = elim (Result-cases (zk.get (znode t o) s)) [
    | inl (d, e) ↦ rw (fetch_or_create, e) inv
    | inr (err, e) ↦ elim (Bool-cases (is_no_node err)) [
      | inl absent ↦
          let r = zk.create (znode t o) json.no_data s in
          rw (fetch_or_create, e, absent)
            (subst (AllUnreserved z json t) (sym (created_state r)) (create_keeps o s co inv))
      | inr other ↦ rw (fetch_or_create, e, other) inv
    ]
  ]

  merge_keeps :
      (o : KafkaObject) (ts : TagSet) (r : Result D × S)
      → is_complete o ≡ true
      → first_reserved t o ts ≡ none
      → ((d : D) → r.0 ≡ ok d → IsUnreserved t o (decode json d))
      → AllUnreserved z json t r.1
      → AllUnreserved z json t (merge_into zk json t o ts r).1
  unfolding merge_into
  merge_keeps o ts (failed e, s) co free read inv = inv
  merge_keeps o ts (ok d, s) co free read inv =
      persist_keeps o (update_tags ts) (decode json d) s co
        (λ old e us same k h.
          let path : update_tags ts old ≡ us = ok_injective same in
          let here : has k (update_tags ts old) ≡ true =
            subst (λ (m : TagSet). has k m ≡ true) (sym path) h in
          elim (has-update_tags k ts old here) [
            | inl new ↦ first_reserved-none t o ts free ts refl k new
            | inr before ↦ read d refl old e k before
          ])
        inv

  -- SetTags keeps the stored sets free of reserved tags, whether it returns an error or not.
  pub set_tags-AllUnreserved :
      (o : KafkaObject) (ts : TagSet) (s : S)
      → AllUnreserved z json t s
      → AllUnreserved z json t (set_tags zk json t o ts s).1
  unfolding set_tags
  set_tags-AllUnreserved o ts s inv = elim (Bool-cases (is_complete o)) [
    | inr e ↦ rw (set_tags, e) inv
    | inl co ↦ elim (Bool-cases (eqb (length ts) 0)) [
      | inl e ↦ rw (set_tags, co, e) inv
      | inr some_tags ↦ elim (Option-cases (first_reserved t o ts)) [
        | inr (k, e) ↦ rw (set_tags, co, some_tags, e) inv
        | inl free ↦
            rw (set_tags, co, some_tags, free)
              (merge_keeps o ts (fetch_or_create zk json t o s) co free
                (λ d e. subst (IsUnreserved t o) (sym (fetched-stored z j t o s d e)) (inv o co))
                (fetch_keeps o s co inv))
      ]
    ]
  ]

  -- DeleteTags does so too.
  pub delete_tags-AllUnreserved :
      (o : KafkaObject) (ks : List String) (s : S)
      → AllUnreserved z json t s
      → AllUnreserved z json t (delete_tags zk json t o ks s).1
  unfolding delete_tags
  delete_tags-AllUnreserved o ks s inv = elim (Bool-cases (is_complete o)) [
    | inr e ↦ rw (delete_tags, e) inv
    | inl co ↦ elim (Bool-cases (eqb (length ks) 0)) [
      | inl e ↦ rw (delete_tags, co, e) inv
      | inr some_keys ↦
          rw (delete_tags, co, some_keys)
            (persist_keeps o (delete_keys ks) (fetch zk json t o s) s co
              (λ old e us same k h.
                let path : delete_keys ks old ≡ us = ok_injective same in
                let here : has k (delete_keys ks old) ≡ true =
                  subst (λ (m : TagSet). has k m ≡ true) (sym path) h in
                inv o co old (fetch-stored z j t o s old e) k (has-delete_keys k ks old here))
              inv)
    ]
  ]
