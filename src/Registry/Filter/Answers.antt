-- ===== src/Registry/Filter/Answers.antt =====
-- internal/registry/server/tag.go: what FilterTopics and FilterBrokers return.
use kafka_kit.Base.{
  ℕ, [], ◌∷◌, String, string_key, nat_key, Option, none, some, ◌≡◌, sym, ◌∙◌, ap, subst, inl, inr,
  ◌==◌, if◌then◌else◌, Bool-cases, Option-cases, arith, Key,
}
use kafka_kit.Base.GoMap.{Map, lookup}
use kafka_kit.Base.GoMap.Extensional.{IsDistinct}
use kafka_kit.Registry.Types.{Tags, TagSet, ok, failed, Result-cases}
use kafka_kit.Registry.Tags.{match_all, tag_set}
use kafka_kit.Registry.Zookeeper.{Handler, IsZookeeper, Json, IsJson}
use kafka_kit.Registry.Store.{Storage, is_reserved}
use kafka_kit.Registry.Store.Laws.{stored}
use kafka_kit.Registry.Filter.{
  Taggable, Topic, Broker, topic_taggable, broker_taggable, tag_set_from_object, add_custom_tags,
  keep_matched, filter_objects, filter_by_tags, filter_topics, filter_brokers,
}
use kafka_kit.Registry.Filter.Laws.{matched, matched_ok, lookup-filter_by_tags}
use kafka_kit.Registry.Filter.Shown.{
  shown, AreRequested, match_all-AreRequested, AreRequested-match_all, AreRequested-eq, AreForeign,
  tag_set_from_object-shown, with_custom, lookup-with_custom,
}
use kafka_kit.Registry.Filter.Fields.{
  Field, topic_field, broker_field, IsField, topic-IsField, broker-IsField,
  add_custom_tags-with_custom,
}

module _ {A : Type 0} (t : Storage) (g : Taggable A) (f : Field A) where
  -- What a filter answers for an object with the stored tags `st`: it is dropped when a requested tag
  -- has another value, and else it is there, and its Tags field has the shown tags but for the reserved
  -- fields, over the entries that it had.
  pub data Answer (kv st : TagSet) (o : A) : Option A → Type 0 where
    dropped : ¬ AreRequested kv (shown st (g.default_tags o)) → Answer kv st o none
    kept :
        (ts : TagSet)
        → AreRequested kv (shown st (g.default_tags o))
        → ((k : String)
            → lookup k ts ≡ (
                if is_reserved t (g.object o).object_type k
                then lookup k (f.read o)
                else (elim (shown st (g.default_tags o) k) [
                  | some v ↦ some v
                  | none ↦ lookup k (f.read o)
                ])))
        → Answer kv st o (some (f.write ts o))

module _ {S D A K : Type 0} (zk : Handler S D) (json : Json D) (t : Storage) (g : Taggable A)
    ⦃key : Key K⦄ where
  -- A filter that returns no error has read the tags of each object of its input.
  filter_objects-read :
      (kv : TagSet) (objects : Map K A) (s : S) (out out' : Map K A) (k : K) (o : A)
      → filter_objects zk json t g kv objects s out ≡ ok out'
      → lookup k objects ≡ some o
      → (ts : TagSet) × (tag_set_from_object zk json t g o s ≡ ok ts)
  unfolding filter_objects lookup
  filter_objects-read kv [] s out out' k o e h = cc
  filter_objects-read kv ((j, p) ∷ objects) s out out' k o e h =
      elim (Result-cases (tag_set_from_object zk json t g p s)) [
        | inl (ts, f) ↦ elim (Bool-cases (j == k)) [
          | inl same ↦
              let here : p ≡ o = ground arith in
              (ts, subst (λ q. tag_set_from_object zk json t g q s ≡ ok ts) here f)
          | inr other ↦
              filter_objects-read kv objects s (keep_matched zk json t g kv j p ts out) out' k o
                (rw (filter_objects, f) at e) (rw other at h)
        ]
        | inr (err, f) ↦ let no_result : failed err ≡ ok out' = rw (filter_objects, f) at e in cc
      ]

module _ {S D A : Type 0} (zk : Handler S D) (json : Json D) (t : Storage) (g : Taggable A)
    (f : Field A) (laws : IsField g f) where
  -- The answer by the tags that TagSetFromObject returns
  match-Answer :
      (kv st ts : TagSet) (o : A)
      → IsDistinct ts
      → ((k : String) → lookup k ts ≡ shown st (g.default_tags o) k)
      → Answer t g f kv st o
          (if match_all ts kv then some (add_custom_tags zk json t g ts o) else none)
  match-Answer kv st ts o distinct same = elim (Bool-cases (match_all ts kv)) [
    | inl y ↦
        let requested =
          AreRequested-eq kv (λ k. lookup k ts) (shown st (g.default_tags o)) same
            (match_all-AreRequested ts kv y) in
        let copied = with_custom t (g.object o).object_type ts (f.read o) in
        let tags_at = λ (k : String).
          lookup-with_custom t (g.object o).object_type k ts (f.read o) distinct
          ∙ ap
              (λ v.
                if is_reserved t (g.object o).object_type k
                then lookup k (f.read o)
                else (elim v [ some u ↦ some u | none ↦ lookup k (f.read o) ]))
              (same k) in
        rw (y, add_custom_tags-with_custom zk json t g f laws ts o) (kept copied requested tags_at)
    | inr n ↦
        let unwanted : ¬ AreRequested kv (shown st (g.default_tags o)) = λ r.
          let all_match = AreRequested-match_all ts kv (
            AreRequested-eq kv (shown st (g.default_tags o)) (λ k. lookup k ts) (λ k. sym (same k))
              r) in
          cc in
        rw n (dropped unwanted)
  ]

module _ {S D : Type 0} {zk : Handler S D} (z : IsZookeeper zk) {json : Json D} (j : IsJson json)
    (t : Storage) {A : Type 0} (g : Taggable A) (f : Field A) where
  -- What a filter answers at a key, by what its input has there
  pub data Filtered (kv : TagSet) (s : S) : Option A → Option A → Type 0 where
    absent : Filtered kv s none none
    present :
        {o : A} {r : Option A} (st : TagSet)
        → stored z json t (g.object o) s ≡ ok st
        → Answer t g f kv st o r
        → Filtered kv s (some o) r

module _ {S D : Type 0} {zk : Handler S D} (z : IsZookeeper zk) {json : Json D} (j : IsJson json)
    (w : AreForeign zk json) (t : Storage) {A : Type 0} (g : Taggable A) (f : Field A)
    (laws : IsField g f) where
  matched-Answer :
      (kv : TagSet) (o : A) (s : S) (ts : TagSet)
      → tag_set_from_object zk json t g o s ≡ ok ts
      → (st : TagSet) × (stored z json t (g.object o) s ≡ ok st)
        × Answer t g f kv st o (matched zk json t g kv s o)
  matched-Answer kv o s ts e =
      let (st, found, same, distinct) =
        tag_set_from_object-shown z j w t g o s ts (laws.defaults o) e in
      (
        st,
        found,
        subst (Answer t g f kv st o) (sym (matched_ok zk json t g kv ts s o e))
            (match-Answer zk json t g f laws kv st ts o distinct same),
      )

  module _ {K : Type 0} ⦃key : Key K⦄ where
    filter_by_tags-Filtered :
        (objects : Map K A) (tags : Tags) (kv : TagSet) (s : S) (out : Map K A) (k : K)
        → IsDistinct objects
        → tag_set tags ≡ ok kv
        → filter_by_tags zk json t g objects tags s ≡ ok out
        → Filtered z j t g f kv s (lookup k objects) (lookup k out)
    unfolding filter_by_tags
    filter_by_tags-Filtered objects tags kv s out k d e h =
        let found = lookup-filter_by_tags zk json t g objects tags kv s out k d e h in
        elim (Option-cases (lookup k objects)) [
          | inl n ↦ let none_out : lookup k out ≡ none = rw n at found in rw (n, none_out) absent
          | inr (o, y) ↦
              let (ts, read) =
                filter_objects-read zk json t g kv objects s [] out k o
                  (rw (filter_by_tags, e) at h) y in
              let (st, in_store, answer) = matched-Answer kv o s ts read in
              let here : lookup k out ≡ matched zk json t g kv s o = rw y at found in
              rw (y, here) (present st in_store answer)
        ]

-- What FilterTopics and FilterBrokers return when they return no error: at each key, nothing when the
-- input has nothing there; nothing for an object of the input when the tags that it shows, the stored
-- ones over the default ones, have another value than a requested one, where a missing tag counts as
-- the empty text; and else that object with the tags that it shows and that are not reserved for its
-- type in its Tags field, over the entries of this field. The keys of the input are distinct, requests
-- to ZooKeeper and JSON behave as documented, an unmarshalled set has distinct keys, and no request
-- fails with the registry's error of a missing object.
pub filter_topics-Filtered :
    {S D : Type 0} {zk : Handler S D} (z : IsZookeeper zk) {json : Json D} (j : IsJson json)
    (w : AreForeign zk json) (t : Storage) (topics topics' : Map String Topic)
    (brokers brokers' : Map ℕ Broker) (tags : Tags) (kv : TagSet) (s : S)
    → IsDistinct topics
    → IsDistinct brokers
    → tag_set tags ≡ ok kv
    → filter_topics zk json t topics tags s ≡ ok topics'
    → filter_brokers zk json t brokers tags s ≡ ok brokers'
    → ((name : String)
        → Filtered z j t topic_taggable topic_field kv s (lookup name topics) (lookup name topics'))
      × ((id : ℕ)
          → Filtered z j t broker_taggable broker_field kv s
              (lookup id brokers)
              (lookup id brokers'))
unfolding filter_topics filter_brokers
filter_topics-Filtered z j w t topics topics' brokers brokers' tags kv s dt db e ft fb = (
  λ name.
      filter_by_tags-Filtered z j w t topic_taggable topic_field topic-IsField topics tags kv s
        topics' name dt e ft,
  λ id.
      filter_by_tags-Filtered z j w t broker_taggable broker_field broker-IsField brokers tags kv s
        brokers' id db e fb,
)
