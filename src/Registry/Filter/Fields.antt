-- ===== src/Registry/Filter/Fields.antt =====
-- internal/registry/server/tag.go: the Tags field of a topic or a broker, and what the filters write
-- into it.
use kafka_kit.Base.{
  true, false, [], ◌∷◌, String, string_key, nat_key, ◌≡◌, refl, sym, ◌∙◌, ap, inl, inr,
  if◌then◌else◌, Bool-cases,
}
use kafka_kit.Base.GoMap.{lookup, insert, has}
use kafka_kit.Base.GoMap.Extensional.{IsDistinct}
use kafka_kit.Registry.Types.{TagSet, is_valid}
use kafka_kit.Registry.Zookeeper.{Handler, Json}
use kafka_kit.Registry.Store.{Storage, is_reserved, field_reserved}
use kafka_kit.Registry.Filter.{
  Taggable, Topic, Broker, topic_taggable, broker_taggable, add_custom_tags,
}
use kafka_kit.Registry.Filter.Shown.{with_custom}

-- How an object's Tags field is read and written
pub record Field (A : Type 0) : Type 0 where
  pub read : A → TagSet
  pub write : TagSet → A → A

abbrev pub topic_field : Field Topic
topic_field = record { read = λ o. o.tags; write = λ ts o. record o { tags = ts } }

abbrev pub broker_field : Field Broker
broker_field = record { read = λ o. o.tags; write = λ ts o. record o { tags = ts } }

-- A taggable type whose add_tag writes that field
pub record IsField {A : Type 0} (g : Taggable A) (f : Field A) : Type 0 where
  pub defaults : (o : A) → IsDistinct (g.default_tags o)
  pub valid :
      (o : A) (id : String)
      → is_valid (record { object_type = (g.object o).object_type; object_id = id }) ≡ true
  pub typed :
      (ts : TagSet) (o : A) → (g.object (f.write ts o)).object_type ≡ (g.object o).object_type
  pub added : (k v : String) (o : A) → g.add_tag k v o ≡ f.write (insert k v (f.read o)) o
  pub same : (o : A) → f.write (f.read o) o ≡ o
  pub twice : (ts us : TagSet) (o : A) → f.write ts (f.write us o) ≡ f.write ts o
  pub again : (ts : TagSet) (o : A) → f.read (f.write ts o) ≡ ts

pub topic-IsField : IsField topic_taggable topic_field
unfolding has lookup is_valid
topic-IsField = record {
  defaults = λ o. (refl, (refl, (refl, tt)));
  valid = λ o id. refl;
  typed = λ ts o. refl;
  added = λ k v o. refl;
  same = λ o. refl;
  twice = λ ts us o. refl;
  again = λ ts o. refl;
}

pub broker-IsField : IsField broker_taggable broker_field
unfolding has lookup is_valid
broker-IsField = record {
  defaults = λ o. (refl, (refl, (refl, (refl, (refl, (refl, tt))))));
  valid = λ o id. refl;
  typed = λ ts o. refl;
  added = λ k v o. refl;
  same = λ o. refl;
  twice = λ ts us o. refl;
  again = λ ts o. refl;
}

-- One step of with_custom, by whether the key is reserved
with_custom_reserved :
    (t : Storage) (ty k v : String) (ts old : TagSet)
    → is_reserved t ty k ≡ true
    → with_custom t ty ((k, v) ∷ ts) old ≡ with_custom t ty ts old
unfolding with_custom
with_custom_reserved t ty k v ts old r = rw r refl

with_custom_added :
    (t : Storage) (ty k v : String) (ts old : TagSet)
    → is_reserved t ty k ≡ false
    → with_custom t ty ((k, v) ∷ ts) old ≡ with_custom t ty ts (insert k v old)
unfolding with_custom
with_custom_added t ty k v ts old n = rw n refl

module _ {A : Type 0} (t : Storage) (g : Taggable A) (f : Field A) (laws : IsField g f) where
  reserved_for :
      (o : A) (k : String)
      → field_reserved t (record { object_type = (g.object o).object_type; object_id = "" }) k
        ≡ is_reserved t (g.object o).object_type k
  unfolding field_reserved
  reserved_for o k = rw (laws.valid o "") refl

module _ {S D A : Type 0} (zk : Handler S D) (json : Json D) (t : Storage) (g : Taggable A)
    (f : Field A) (laws : IsField g f) where
  custom_step :
      (k v : String) (ts : TagSet) (o : A)
      → add_custom_tags zk json t g ((k, v) ∷ ts) o
        ≡ add_custom_tags zk json t g ts
            (if is_reserved t (g.object o).object_type k then o else g.add_tag k v o)
  unfolding add_custom_tags
  custom_step k v ts o =
      ap (λ b. add_custom_tags zk json t g ts (if b then o else g.add_tag k v o))
        (reserved_for t g f laws o k)

  pub add_custom_tags-with_custom :
      (ts : TagSet) (o : A)
      → add_custom_tags zk json t g ts o
        ≡ f.write (with_custom t (g.object o).object_type ts (f.read o)) o
  unfolding add_custom_tags with_custom
  add_custom_tags-with_custom [] o = sym (laws.same o)
  add_custom_tags-with_custom ((k, v) ∷ ts) o =
      let step = custom_step k v ts o in
      let ty = (g.object o).object_type in
      elim (Bool-cases (is_reserved t ty k)) [
        | inl r ↦ rw (reserved_for t g f laws o k, r) (add_custom_tags-with_custom ts o)
        | inr n ↦
            let us = insert k v (f.read o) in
            let next = f.write us o in
            let rest =
              ap (add_custom_tags zk json t g ts) (laws.added k v o)
              ∙ add_custom_tags-with_custom ts next
              ∙ ap (λ w. f.write (with_custom t w ts (f.read next)) next) (laws.typed us o)
              ∙ ap (λ w. f.write (with_custom t ty ts w) next) (laws.again us o)
              ∙ laws.twice (with_custom t ty ts us) us o in
            rw (reserved_for t g f laws o k, n) rest
      ]
