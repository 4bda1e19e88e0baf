-- ===== src/Registry/Filter/Shown.antt =====
-- internal/registry/server/tag.go: the tags that an object shows, and which of them a filter copies.
use kafka_kit.Base.{
  true, false, [], ◌∷◌, String, string_key, Option, none, some, ◌≡◌, refl, sym, ◌∙◌, ap, subst, inl,
  inr, ◌==◌, beq_iff, if◌then◌else◌, Bool-cases, Option-cases, All, All_map, arith,
}
use kafka_kit.Base.GoMap.{lookup, insert, has, lookup-insert}
use kafka_kit.Base.GoMap.Extensional.{IsDistinct}
use kafka_kit.Mapper.Mappings.Counted.{IsDistinct-insert}
use kafka_kit.Registry.Types.{
  KafkaObject, TagSet, Error, Result, ok, failed, is_no_node, is_missing_object, is_complete,
  Result-cases, ok_injective,
}
use kafka_kit.Registry.Tags.{value_of, match_all}
use kafka_kit.Registry.Zookeeper.{Handler, IsZookeeper, Json, IsJson}
use kafka_kit.Registry.Store.{
  Storage, znode, update_tags, is_reserved, decode, fetch, get_tags, missing_object,
}
use kafka_kit.Registry.Store.Laws.{stored, stored_none, get_tags-stored, lookup-update_tags}
use kafka_kit.Registry.Filter.{Taggable, tag_set_from_object}

-- The tag at a key: the stored one, or else the default one.
abbrev pub shown : TagSet → TagSet → String → Option String
shown st defaults k = elim (lookup k st) [ some v ↦ some v | none ↦ lookup k defaults ]

-- A missing tag counts as the empty text.
abbrev pub or_empty : Option String → String
or_empty (some v) = v
or_empty none = ""

-- Every requested tag has the requested value.
abbrev pub AreRequested : TagSet → (String → Option String) → Type 0
AreRequested kv tag_at = All (λ e. or_empty (tag_at e.0) ≡ e.1) kv

value_of-lookup : (k : String) (ts : TagSet) → value_of k ts ≡ or_empty (lookup k ts)
unfolding value_of
value_of-lookup k ts = elim (Option-cases (lookup k ts)) [
  | inl e ↦ rw (value_of, e, or_empty) refl
  | inr (v, e) ↦ rw (value_of, e, or_empty) refl
]

pub match_all-AreRequested :
    (ts kv : TagSet) → match_all ts kv ≡ true → AreRequested kv (λ k. lookup k ts)
unfolding match_all
match_all-AreRequested ts [] h = tt
match_all-AreRequested ts ((k, v) ∷ kv) h = elim (Bool-cases (value_of k ts == v)) [
  | inl e ↦ (
    sym (value_of-lookup k ts) ∙ (beq_iff (value_of k ts) v).0 e,
    match_all-AreRequested ts kv (rw (match_all, e) at h),
  )
  | inr e ↦ let no_match : false ≡ true = rw (match_all, e) at h in cc
]

pub AreRequested-match_all :
    (ts kv : TagSet) → AreRequested kv (λ k. lookup k ts) → match_all ts kv ≡ true
unfolding match_all
AreRequested-match_all ts [] h = refl
AreRequested-match_all ts ((k, v) ∷ kv) (h, hs) =
    let same = (beq_iff (value_of k ts) v).1 (value_of-lookup k ts ∙ h) in
    rw (match_all, same) (AreRequested-match_all ts kv hs)

pub AreRequested-eq :
    (kv : TagSet) (f g : String → Option String)
    → ((k : String) → f k ≡ g k)
    → AreRequested kv f
    → AreRequested kv g
AreRequested-eq kv f g same h = All_map (λ e p. ap or_empty (sym (same e.0)) ∙ p) kv h

IsDistinct-update_tags : (ts old : TagSet) → IsDistinct old → IsDistinct (update_tags ts old)
unfolding update_tags
IsDistinct-update_tags [] old h = h
IsDistinct-update_tags ((k, v) ∷ ts) old h =
    IsDistinct-update_tags ts (insert k v old) (IsDistinct-insert k v old h)

-- json.Unmarshal fills a Go map, and a ZooKeeper request does not fail with the registry's own error.
pub record AreForeign {S D : Type 0} (zk : Handler S D) (json : Json D) : Type 0 where
  pub distinct : (d : D) (ts : TagSet) → json.unmarshal d ≡ some ts → IsDistinct ts
  pub other_error :
      (p : String) (s : S) (e : Error) → zk.get p s ≡ failed e → is_missing_object e ≡ false

pub failed_injective : {A : Type 0} {a b : Error} → ◌≡◌ {A = Result A} (failed a) (failed b) → a ≡ b
failed_injective h = cc

not_missing : {a b : Error} → a ≡ b → is_missing_object a ≡ false → ¬ (is_missing_object b ≡ true)
not_missing e h m = cc

module _ {S D : Type 0} {zk : Handler S D} (z : IsZookeeper zk) {json : Json D} (j : IsJson json)
    (f : AreForeign zk json) (t : Storage) where
  decode-IsDistinct : (d : D) (ts : TagSet) → decode json d ≡ ok ts → IsDistinct ts
  unfolding decode
  decode-IsDistinct d ts e = elim (Bool-cases (json.is_empty d)) [
    | inl empty ↦
        let none_read : ok [] ≡ ok ts = rw (decode, empty) at e in
        subst IsDistinct (ok_injective none_read) tt
    | inr full ↦ elim (Option-cases (json.unmarshal d)) [
      | inl g ↦
          let no_result : failed Error.unmarshal_failed ≡ ok ts = rw (decode, full, g) at e in cc
      | inr (us, g) ↦
          let read : ok us ≡ ok ts = rw (decode, full, g) at e in
          subst IsDistinct (ok_injective read) (f.distinct d us g)
    ]
  ]

  stored-IsDistinct :
      (o : KafkaObject) (s : S) (ts : TagSet) → stored z json t o s ≡ ok ts → IsDistinct ts
  unfolding stored
  stored-IsDistinct o s ts e = elim (Option-cases (z.node (znode t o) s)) [
    | inl g ↦
        let none_read : ok [] ≡ ok ts = rw (stored, g) at e in
        subst IsDistinct (ok_injective none_read) tt
    | inr (d, g) ↦ decode-IsDistinct d ts (rw (stored, g) at e)
  ]

  decode_not_missing : (d : D) (e : Error) → decode json d ≡ failed e → is_missing_object e ≡ false
  unfolding decode
  decode_not_missing d e h = elim (Bool-cases (json.is_empty d)) [
    | inl empty ↦ let result : ok [] ≡ failed e = rw (decode, empty) at h in cc
    | inr full ↦ elim (Option-cases (json.unmarshal d)) [
      | inl g ↦
          let same : failed Error.unmarshal_failed ≡ failed e = rw (decode, full, g) at h in
          ap is_missing_object (sym (failed_injective same))
      | inr (us, g) ↦ let result : ok us ≡ failed e = rw (decode, full, g) at h in cc
    ]
  ]

  fetch_missing :
      (o : KafkaObject) (s : S) (e : Error)
      → fetch zk json t o s ≡ failed e
      → is_missing_object e ≡ true
      → stored z json t o s ≡ ok []
  unfolding fetch
  fetch_missing o s e h m = elim (Result-cases (zk.get (znode t o) s)) [
    | inl (d, g) ↦
        let read : decode json d ≡ failed e = rw (fetch, g) at h in
        absurd (not_missing refl (decode_not_missing d e read) m)
    | inr (err, g) ↦ elim (Bool-cases (is_no_node err)) [
      | inl absent ↦ stored_none z json t o s (z.get_no_node (znode t o) s err g absent)
      | inr other ↦
          let same : failed err ≡ failed e = rw (fetch, g, missing_object, other) at h in
          absurd (not_missing (failed_injective same) (f.other_error (znode t o) s err g) m)
    ]
  ]

  missing-stored :
      (o : KafkaObject) (s : S) (e : Error)
      → get_tags zk json t o s ≡ failed e
      → is_missing_object e ≡ true
      → stored z json t o s ≡ ok []
  unfolding get_tags fetch
  missing-stored o s e h m = elim (Bool-cases (is_complete o)) [
    | inr n ↦
        let wrong : failed Error.invalid_kafka_object_type ≡ failed e = rw (get_tags, n) at h in
        absurd (not_missing (failed_injective wrong) refl m)
    | inl y ↦ fetch_missing o s e (rw (get_tags, y) at h) m
  ]

  -- What TagSetFromObject returns shows the stored tags over the default ones.
  pub tag_set_from_object-shown :
      {A : Type 0} (g : Taggable A) (o : A) (s : S) (ts : TagSet)
      → IsDistinct (g.default_tags o)
      → tag_set_from_object zk json t g o s ≡ ok ts
      → (st : TagSet) × (stored z json t (g.object o) s ≡ ok st)
        × ((k : String) → lookup k ts ≡ shown st (g.default_tags o) k)
        × IsDistinct ts
  unfolding tag_set_from_object lookup
  tag_set_from_object-shown g o s ts d e = elim (Result-cases (get_tags zk json t (g.object o) s)) [
    | inl (st, h) ↦
        let merged : update_tags st (g.default_tags o) ≡ ts =
          ok_injective (rw (tag_set_from_object, h) at e) in
        let found = get_tags-stored z j t (g.object o) s st h in
        (
          st,
          found,
          λ k.
              ap (lookup k) (sym merged)
              ∙ lookup-update_tags k st (g.default_tags o)
                  (stored-IsDistinct (g.object o) s st found),
          subst IsDistinct merged (IsDistinct-update_tags st (g.default_tags o) d),
        )
    | inr (err, h) ↦ elim (Bool-cases (is_missing_object err)) [
      | inl m ↦
          let same : g.default_tags o ≡ ts = ok_injective (rw (tag_set_from_object, h, m) at e) in
          (
            [],
            missing-stored (g.object o) s err h m,
            λ k. ap (lookup k) (sym same),
            subst IsDistinct same d,
          )
      | inr other ↦
          let no_result : failed err ≡ ok ts = rw (tag_set_from_object, h, other) at e in cc
    ]
  ]

-- The tags `old` with those of `ts` that are not reserved for the type
unfoldable pub with_custom : Storage → String → TagSet → TagSet → TagSet
with_custom t ty [] old = old
with_custom t ty ((k, v) ∷ ts) old =
    with_custom t ty ts (if is_reserved t ty k then old else insert k v old)

pub lookup-with_custom :
    (t : Storage) (ty k : String) (ts old : TagSet)
    → IsDistinct ts
    → lookup k (with_custom t ty ts old) ≡ (
        if is_reserved t ty k
        then lookup k old
        else (elim (lookup k ts) [ some v ↦ some v | none ↦ lookup k old ]))
unfolding with_custom lookup has
lookup-with_custom t ty k [] old d = ground arith
lookup-with_custom t ty k ((j, v) ∷ ts) old (d, ds) = elim (Bool-cases (j == k)) [
  | inl same ↦
      let path : j ≡ k = (beq_iff j k).0 same in
      let absent : lookup k ts ≡ none = ground arith in
      let rest =
        lookup-with_custom t ty k ts (if is_reserved t ty j then old else insert j v old) ds in
      let reserved = ap (is_reserved t ty) path in
      ground (arith, rest, lookup-insert j k v old, reserved)
  | inr other ↦ elim (Bool-cases (is_reserved t ty j)) [
    | inl r ↦ rw (with_custom, r, other) (lookup-with_custom t ty k ts old ds)
    | inr n ↦
        ground (arith, lookup-with_custom t ty k ts (insert j v old) ds, lookup-insert j k v old)
  ]
]
