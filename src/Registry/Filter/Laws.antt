-- ===== src/Registry/Filter/Laws.antt =====
-- internal/registry/server/tag.go: which objects the filters return, and that stored tags leave the
-- object's own fields alone.
use kafka_kit.Base.{
  true, false, List, [], ◌∷◌, String, string_key, Option, none, some, ◌≡◌, refl, sym, ◌∙◌, subst,
  inl, inr, ◌==◌, beq_iff, if◌then◌else◌, Bool-cases, Option-cases, arith, Key,
}
use kafka_kit.Base.GoMap.{Map, lookup, insert, has, lookup-insert}
use kafka_kit.Base.GoMap.Extensional.{IsDistinct}
use kafka_kit.Registry.Types.{
  KafkaObject, Tags, TagSet, ok, failed, is_missing_object, is_complete, Result-cases, ok_injective,
}
use kafka_kit.Registry.Tags.{match_all, tag_set}
use kafka_kit.Registry.Zookeeper.{Handler, IsZookeeper, Json, IsJson}
use kafka_kit.Registry.Store.{Storage, znode, update_tags, field_reserved, get_tags}
use kafka_kit.Registry.Store.Laws.{stored_none, get_tags-stored}
use kafka_kit.Registry.Store.Reserved.{AllUnreserved}
use kafka_kit.Registry.Store.Requests.{Request, perform_all, perform_all-AllUnreserved}
use kafka_kit.Registry.Filter.{
  Taggable, tag_set_from_object, add_custom_tags, keep_matched, filter_objects, filter_by_tags,
}

module _ {S D A : Type 0} (zk : Handler S D) (json : Json D) (t : Storage) (g : Taggable A) where
  -- What a filter answers for an object of its input.
  unfoldable pub matched : TagSet → S → A → Option A
  matched kv s o = elim (tag_set_from_object zk json t g o s) [
    | ok ts ↦ if match_all ts kv then some (add_custom_tags zk json t g ts o) else none
    | failed e ↦ none
  ]

  pub matched_ok :
      (kv ts : TagSet) (s : S) (o : A)
      → tag_set_from_object zk json t g o s ≡ ok ts
      → matched kv s o ≡ (if match_all ts kv then some (add_custom_tags zk json t g ts o) else none)
  unfolding matched
  matched_ok kv ts s o e = rw (matched, e) refl

module _ {S D A : Type 0} (zk : Handler S D) (json : Json D) (t : Storage) (g : Taggable A)
    {K : Type 0} ⦃key : Key K⦄ where
  lookup-keep_matched :
      (kv ts : TagSet) (s : S) (j k : K) (o : A) (out : Map K A)
      → tag_set_from_object zk json t g o s ≡ ok ts
      → lookup k (keep_matched zk json t g kv j o ts out) ≡ (
          if j == k
          then (elim (matched zk json t g kv s o) [ some p ↦ some p | none ↦ lookup k out ])
          else lookup k out)
  unfolding keep_matched
  lookup-keep_matched kv ts s j k o out e =
      let m = matched_ok zk json t g kv ts s o e in
      ground (arith, lookup-insert j k (add_custom_tags zk json t g ts o) out, m)

  lookup-filter_objects :
      (kv : TagSet) (objects : Map K A) (s : S) (out out' : Map K A) (k : K)
      → IsDistinct objects
      → filter_objects zk json t g kv objects s out ≡ ok out'
      → lookup k out' ≡ (elim (lookup k objects) [
        | some o ↦ elim (matched zk json t g kv s o) [ some p ↦ some p | none ↦ lookup k out ]
        | none ↦ lookup k out
      ])
  unfolding filter_objects lookup has
  lookup-filter_objects kv [] s out out' k d e = let path : out ≡ out' = ok_injective e in cc
  lookup-filter_objects kv ((j, o) ∷ objects) s out out' k (d, ds) e =
      elim (Result-cases (tag_set_from_object zk json t g o s)) [
        | inl (ts, f) ↦
            let kept = keep_matched zk json t g kv j o ts out in
            let rest =
              lookup-filter_objects kv objects s kept out' k ds (rw (filter_objects, f) at e) in
            let here = lookup-keep_matched kv ts s j k o out f in
            elim (Bool-cases (j == k)) [
              | inl same ↦
                  let path : j ≡ k = (beq_iff j k).0 same in
                  let absent : lookup k objects ≡ none = ground arith in ground arith
              | inr other ↦ ground arith
            ]
        | inr (err, f) ↦ let no_result : failed err ≡ ok out' = rw (filter_objects, f) at e in cc
      ]

  -- A filter that returns no error returns exactly the objects whose tags match every requested
  -- tag, each with its custom tags; the keys of its input are distinct.
  pub lookup-filter_by_tags :
      (objects : Map K A) (tags : Tags) (kv : TagSet) (s : S) (out : Map K A) (k : K)
      → IsDistinct objects
      → tag_set tags ≡ ok kv
      → filter_by_tags zk json t g objects tags s ≡ ok out
      → lookup k out
        ≡ (elim (lookup k objects) [ some o ↦ matched zk json t g kv s o | none ↦ none ])
  unfolding filter_by_tags lookup
  lookup-filter_by_tags objects tags kv s out k d e f =
      let found = lookup-filter_objects kv objects s [] out k d (rw (filter_by_tags, e) at f) in
      elim (Option-cases (lookup k objects)) [
        | inl absent ↦ ground arith
        | inr (o, here) ↦ elim (Option-cases (matched zk json t g kv s o)) [
          | inl dropped ↦ ground arith
          | inr (p, kept) ↦ ground arith
        ]
      ]

lookup-update_tags_absent :
    (k : String) (ts old : TagSet) → has k ts ≡ false → lookup k (update_tags ts old) ≡ lookup k old
unfolding update_tags has lookup
lookup-update_tags_absent k [] old h = refl
lookup-update_tags_absent k ((j, v) ∷ ts) old h =
    ground (arith, lookup-update_tags_absent k ts (insert j v old), lookup-insert j k v old)

module _ {S D A : Type 0} {zk : Handler S D} (z : IsZookeeper zk) {json : Json D} (j : IsJson json)
    (t : Storage) (g : Taggable A) where
  unreserved_default :
      (o : A) (s : S) (ts : TagSet) (k : String)
      → AllUnreserved z json t s
      → is_complete (g.object o) ≡ true
      → field_reserved t (g.object o) k ≡ true
      → tag_set_from_object zk json t g o s ≡ ok ts
      → lookup k ts ≡ lookup k (g.default_tags o)
  unfolding tag_set_from_object
  unreserved_default o s ts k inv co res e =
      elim (Result-cases (get_tags zk json t (g.object o) s)) [
        | inl (st, f) ↦
            let merged : update_tags st (g.default_tags o) ≡ ts =
              ok_injective (rw (tag_set_from_object, f) at e) in
            let free = inv (g.object o) co st (get_tags-stored z j t (g.object o) s st f) k in
            let absent : has k st ≡ false = elim (Bool-cases (has k st)) [
              | inl h ↦ let not_reserved = free h in cc
              | inr h ↦ h
            ] in
            let kept = lookup-update_tags_absent k st (g.default_tags o) absent in
            subst (λ (m : TagSet). lookup k m ≡ lookup k (g.default_tags o)) merged kept
        | inr (err, f) ↦ elim (Bool-cases (is_missing_object err)) [
          | inl m ↦
              let same : g.default_tags o ≡ ts =
                ok_injective (rw (tag_set_from_object, f, m) at e) in
              cc
          | inr other ↦
              let no_result : failed err ≡ ok ts = rw (tag_set_from_object, f, other) at e in cc
        ]
      ]

  -- No object has a znode for its tags yet.
  abbrev pub IsUntagged : S → Type 0
  IsUntagged s = (o : KafkaObject) → z.node (znode t o) s ≡ none

  untagged-AllUnreserved : (s : S) → IsUntagged s → AllUnreserved z json t s
  unfolding has lookup
  untagged-AllUnreserved s h o co ts e k found =
      let empty : [] ≡ ts = ok_injective (sym (stored_none z json t o s (h o)) ∙ e) in
      let absent : has k ts ≡ false = subst (λ (m : TagSet). has k m ≡ false) empty refl in cc

  -- From storage without tags on, after any sequence of SetTags and DeleteTags requests, whichever of
  -- them fail, the tags of an object with a type and an ID that TagSetFromObject returns show its own
  -- fields: at a reserved field they have the object's default tag. Requests to ZooKeeper and JSON
  -- behave as documented.
  pub tag_set_from_object-default :
      (rs : List Request) (o : A) (s : S) (ts : TagSet) (k : String)
      → IsUntagged s
      → is_complete (g.object o) ≡ true
      → field_reserved t (g.object o) k ≡ true
      → tag_set_from_object zk json t g o (perform_all zk json t rs s) ≡ ok ts
      → lookup k ts ≡ lookup k (g.default_tags o)
  tag_set_from_object-default rs o s ts k h co res e =
      unreserved_default o (perform_all zk json t rs s) ts k
        (perform_all-AllUnreserved z j t rs s (untagged-AllUnreserved s h)) co res e
