-- ===== src/Registry/Cleanup/Kept.antt =====
-- internal/registry/server/tag_cleanup.go: what a cleanup leaves alone, whatever requests fail.
use kafka_kit.Base.{
  ℕ, ℤ, Bool, true, false, not, ◌&&◌, List, [], ◌∷◌, String, string_key, Option, none, some, ◌≡◌,
  refl, sym, ◌∙◌, subst, inl, inr, ◌==◌, beq_iff, if◌then◌else◌, All, Bool-cases, Option-cases,
  arith, Key,
}
use kafka_kit.Base.GoMap.{Map, lookup, insert, has, keys}
use mathlib.Core.Path.{subst₂}
use kafka_kit.Base.Strconv.{itoa}
use kafka_kit.Registry.Types.{
  KafkaObject, object_key, TagSet, Error, Result, ok, failed, is_missing_object, is_complete,
  Result-cases, ok_injective,
}
use kafka_kit.Registry.Zookeeper.{Handler, IsZookeeper, Json, IsJson}
use kafka_kit.Registry.Store.{
  Storage, get_tags, tags_of_children, get_all_tags_for_type, add_all_tags, add_type, get_all_tags,
  type_znode, missing_object,
}
use kafka_kit.Registry.Store.Laws.{stored, get_tags-stored}
use kafka_kit.Registry.Store.Frame.{set_tags_other, delete_tags_other}
use kafka_kit.Registry.Cleanup.{
  tag_mark_time_key, object_exists, is_stale, mark_or_unmark, mark_object, mark_objects,
  mark_locked, mark_for_deletion, delete_stale, delete_all_stale, delete_stale_tags,
}

-- What holds of a map's entries and of an entry holds after it is set.
All-insert {ℓ κ μ} :
    {K : Type ℓ} {V : Type κ} ⦃e : Key K⦄ (P : K × V → Type μ) (k : K) (v : V) (m : Map K V)
    → P (k, v)
    → All P m
    → All P (insert k v m)
unfolding insert
All-insert P k v [] h hs = (h, tt)
All-insert P k v ((j, w) ∷ m) h (hj, hs) = elim (Bool-cases (j == k)) [
  | inl same ↦ rw same (h, hs)
  | inr other ↦ rw other (hj, All-insert P k v m h hs)
]

module _ {S D : Type 0} {zk : Handler S D} (z : IsZookeeper zk) {json : Json D} (j : IsJson json)
    (t : Storage) (s : S) where
  -- The set that was read for an object is the stored one.
  abbrev IsRead : KafkaObject × TagSet → Type 0
  IsRead e = stored z json t e.0 s ≡ ok e.1

  tags_of_children-IsRead :
      (ty : String) (ids : List String) (found out : Map KafkaObject TagSet)
      → All IsRead found
      → tags_of_children zk json t ty ids found s ≡ ok out
      → All IsRead out
  unfolding tags_of_children
  tags_of_children-IsRead ty [] found out h e = subst (All IsRead) (ok_injective e) h
  tags_of_children-IsRead ty (id ∷ ids) found out h e =
      let o : KafkaObject = record { object_type = ty; object_id = id } in
      elim (Result-cases (get_tags zk json t o s)) [
        | inl (tags, f) ↦
            tags_of_children-IsRead ty ids (insert o tags found) out
              (All-insert IsRead o tags found (get_tags-stored z j t o s tags f) h)
              (rw (tags_of_children, f) at e)
        | inr (err, f) ↦ let no_result : failed err ≡ ok out = rw (tags_of_children, f) at e in cc
      ]

  for_type-IsRead :
      (ty : String) (out : Map KafkaObject TagSet)
      → get_all_tags_for_type zk json t ty s ≡ ok out
      → All IsRead out
  unfolding get_all_tags_for_type
  for_type-IsRead ty out e = elim (Result-cases (zk.children (type_znode t ty) s)) [
    | inl (ids, f) ↦ tags_of_children-IsRead ty ids [] out tt (rw (get_all_tags_for_type, f) at e)
    | inr (err, f) ↦
        let no_result : failed (missing_object err) ≡ ok out = rw (get_all_tags_for_type, f) at e in
        cc
  ]

  add_all_tags-IsRead :
      (found all : Map KafkaObject TagSet)
      → All IsRead found
      → All IsRead all
      → All IsRead (add_all_tags found all)
  unfolding add_all_tags
  add_all_tags-IsRead [] all h k = k
  add_all_tags-IsRead ((o, ts) ∷ found) all (h, hs) k =
      add_all_tags-IsRead found (insert o ts all) hs (All-insert IsRead o ts all h k)

  add_type-IsRead :
      (r : Result (Map KafkaObject TagSet)) (all out : Map KafkaObject TagSet)
      → ((found : Map KafkaObject TagSet) → r ≡ ok found → All IsRead found)
      → All IsRead all
      → add_type r all ≡ ok out
      → All IsRead out
  unfolding add_type
  add_type-IsRead (ok found) all out h k e =
      subst (All IsRead) (ok_injective e) (add_all_tags-IsRead found all (h found refl) k)
  add_type-IsRead (failed err) all out h k e = elim (Bool-cases (is_missing_object err)) [
    | inl m ↦ subst (All IsRead) (ok_injective (rw m at e)) k
    | inr m ↦ let no_result : failed err ≡ ok out = rw m at e in cc
  ]

  -- GetAllTags returns stored sets.
  pub get_all_tags-IsRead :
      (out : Map KafkaObject TagSet) → get_all_tags zk json t s ≡ ok out → All IsRead out
  unfolding get_all_tags
  get_all_tags-IsRead out e =
      let first = get_all_tags_for_type zk json t "broker" s in
      elim (Result-cases (add_type first [])) [
        | inl (brokers, f) ↦
            add_type-IsRead (get_all_tags_for_type zk json t "topic" s) brokers out
              (for_type-IsRead "topic")
              (add_type-IsRead first [] brokers (for_type-IsRead "broker") tt f)
              (rw (get_all_tags, f) at e)
        | inr (err, f) ↦ let no_result : failed err ≡ ok out = rw (get_all_tags, f) at e in cc
      ]

-- A cleanup has nothing to delete: no mark, or one that is not stale.
abbrev pub is_fresh : ℕ → ℕ → TagSet → Bool
is_fresh now minutes ts = elim (lookup tag_mark_time_key ts) [
  | some mark ↦ not (is_stale now minutes mark)
  | none ↦ true
]

-- A cleanup has nothing to mark: an object that exists has no mark, and one that does not has it.
abbrev pub is_settled : List ℤ → List String → KafkaObject → TagSet → Bool
is_settled brokers topics o ts = elim (object_exists brokers topics o) [
  | some exists ↦ if exists then not (has tag_mark_time_key ts) else has tag_mark_time_key ts
  | none ↦ true
]

module _ {S D : Type 0} {zk : Handler S D} (z : IsZookeeper zk) {json : Json D} (j : IsJson json)
    (t : Storage) where
  delete_stale_fresh :
      (now minutes : ℕ) (o : KafkaObject) (ts : TagSet) (s : S)
      → is_fresh now minutes ts ≡ true
      → delete_stale zk json t now minutes o ts s ≡ s
  unfolding delete_stale
  delete_stale_fresh now minutes o ts s h = ground arith

  delete_stale_other :
      (now minutes : ℕ) (o p : KafkaObject) (ts : TagSet) (s : S)
      → is_complete p ≡ true
      → (o == p) ≡ false
      → stored z json t p (delete_stale zk json t now minutes o ts s) ≡ stored z json t p s
  unfolding delete_stale
  delete_stale_other now minutes o p ts s cp other =
      elim (Option-cases (lookup tag_mark_time_key ts)) [
        | inl e ↦ rw (delete_stale, e) refl
        | inr (mark, e) ↦ elim (Bool-cases (is_stale now minutes mark)) [
          | inl stale ↦
              rw (delete_stale, e, stale) (delete_tags_other z json t o p (keys ts) s cp other)
          | inr fresh ↦ rw (delete_stale, e, fresh) refl
        ]
      ]

  delete_all_stale-kept :
      (now minutes : ℕ) (p : KafkaObject) (ts : TagSet) (s0 : S)
      → is_complete p ≡ true
      → is_fresh now minutes ts ≡ true
      → stored z json t p s0 ≡ ok ts
      → (all : Map KafkaObject TagSet) (s : S) → All (IsRead z j t s0) all
      → stored z json t p s ≡ ok ts
      → stored z json t p (delete_all_stale zk json t now minutes all s) ≡ ok ts
  unfolding delete_all_stale
  delete_all_stale-kept now minutes p ts s0 cp fresh start [] s h e = e
  delete_all_stale-kept now minutes p ts s0 cp fresh start ((o, us) ∷ all) s (h, hs) e =
      delete_all_stale-kept now minutes p ts s0 cp fresh start all
        (delete_stale zk json t now minutes o us s) hs
        (elim (Bool-cases (o == p)) [
          | inl same ↦
              let path : o ≡ p = (beq_iff o p).0 same in
              let read : stored z json t p s0 ≡ ok us =
                subst (λ (q : KafkaObject). stored z json t q s0 ≡ ok us) path h in
              let sets : us ≡ ts = ok_injective (sym read ∙ start) in
              let mine : is_fresh now minutes us ≡ true =
                subst (λ (m : TagSet). is_fresh now minutes m ≡ true) (sym sets) fresh in
              subst (λ (s' : S). stored z json t p s' ≡ ok ts)
                (sym (delete_stale_fresh now minutes o us s mine)) e
          | inr other ↦ delete_stale_other now minutes o p us s cp other ∙ e
        ])

  -- DeleteStaleTags leaves the tags of an object alone that has no mark or one that is not stale,
  -- whatever requests fail.
  pub delete_stale_tags-kept :
      (now minutes : ℕ) (lock : Option Error) (p : KafkaObject) (ts : TagSet) (s : S)
      → is_complete p ≡ true
      → is_fresh now minutes ts ≡ true
      → stored z json t p s ≡ ok ts
      → stored z json t p (delete_stale_tags zk json t now minutes lock s).1 ≡ ok ts
  unfolding delete_stale_tags
  delete_stale_tags-kept now minutes (some err) p ts s cp fresh e = e
  delete_stale_tags-kept now minutes none p ts s cp fresh e =
      elim (Result-cases (get_all_tags zk json t s)) [
        | inl (all, f) ↦
            rw (delete_stale_tags, f)
              (delete_all_stale-kept now minutes p ts s cp fresh e all s
                (get_all_tags-IsRead z j t s all f) e)
        | inr (err, f) ↦ rw (delete_stale_tags, f) e
      ]

  mark_or_unmark_settled :
      (now : ℕ) (exists : Bool) (o : KafkaObject) (ts : TagSet) (s : S)
      → (if exists then not (has tag_mark_time_key ts) else has tag_mark_time_key ts) ≡ true
      → mark_or_unmark zk json t now exists o ts s ≡ s
  unfolding mark_or_unmark
  mark_or_unmark_settled now exists o ts s h = ground arith

  mark_object_settled :
      (now : ℕ) (brokers : List ℤ) (topics : List String) (o : KafkaObject) (ts : TagSet) (s : S)
      → is_settled brokers topics o ts ≡ true
      → mark_object zk json t now brokers topics o ts s ≡ s
  unfolding mark_object
  mark_object_settled now brokers topics o ts s h =
      elim (Option-cases (object_exists brokers topics o)) [
        | inl e ↦ rw (mark_object, e) refl
        | inr (exists, e) ↦
            rw (mark_object, e) (mark_or_unmark_settled now exists o ts s (rw (is_settled, e) at h))
      ]

  mark_or_unmark_other :
      (now : ℕ) (exists : Bool) (o p : KafkaObject) (ts : TagSet) (s : S)
      → is_complete p ≡ true
      → (o == p) ≡ false
      → stored z json t p (mark_or_unmark zk json t now exists o ts s) ≡ stored z json t p s
  unfolding mark_or_unmark
  mark_or_unmark_other now exists o p ts s cp other =
      let marked = has tag_mark_time_key ts in
      elim (Bool-cases (not exists && not marked)) [
        | inl e ↦
            rw (mark_or_unmark, e)
              (set_tags_other z json t o p (insert tag_mark_time_key (itoa now) ts) s cp other)
        | inr e ↦ elim (Bool-cases (exists && marked)) [
          | inl f ↦
              rw (mark_or_unmark, e, f)
                (delete_tags_other z json t o p (tag_mark_time_key ∷ []) s cp other)
          | inr f ↦ rw (mark_or_unmark, e, f) refl
        ]
      ]

  mark_object_other :
      (now : ℕ) (brokers : List ℤ) (topics : List String) (o p : KafkaObject) (ts : TagSet) (s : S)
      → is_complete p ≡ true
      → (o == p) ≡ false
      → stored z json t p (mark_object zk json t now brokers topics o ts s) ≡ stored z json t p s
  unfolding mark_object
  mark_object_other now brokers topics o p ts s cp other =
      elim (Option-cases (object_exists brokers topics o)) [
        | inl e ↦ rw (mark_object, e) refl
        | inr (exists, e) ↦ rw (mark_object, e) (mark_or_unmark_other now exists o p ts s cp other)
      ]

  mark_objects-kept :
      (now : ℕ) (brokers : List ℤ) (topics : List String) (p : KafkaObject) (ts : TagSet) (s0 : S)
      → is_complete p ≡ true
      → is_settled brokers topics p ts ≡ true
      → stored z json t p s0 ≡ ok ts
      → (all : Map KafkaObject TagSet) (s : S) → All (IsRead z j t s0) all
      → stored z json t p s ≡ ok ts
      → stored z json t p (mark_objects zk json t now brokers topics all s) ≡ ok ts
  unfolding mark_objects
  mark_objects-kept now brokers topics p ts s0 cp settled start [] s h e = e
  mark_objects-kept now brokers topics p ts s0 cp settled start ((o, us) ∷ all) s (h, hs) e =
      mark_objects-kept now brokers topics p ts s0 cp settled start all
        (mark_object zk json t now brokers topics o us s) hs
        (elim (Bool-cases (o == p)) [
          | inl same ↦
              let path : o ≡ p = (beq_iff o p).0 same in
              let read : stored z json t p s0 ≡ ok us =
                subst (λ (q : KafkaObject). stored z json t q s0 ≡ ok us) path h in
              let sets : us ≡ ts = ok_injective (sym read ∙ start) in
              let mine : is_settled brokers topics o us ≡ true =
                subst₂ (λ (q : KafkaObject) (m : TagSet). is_settled brokers topics q m ≡ true)
                  (sym path) (sym sets) settled in
              subst (λ (s' : S). stored z json t p s' ≡ ok ts)
                (sym (mark_object_settled now brokers topics o us s mine)) e
          | inr other ↦ mark_object_other now brokers topics o p us s cp other ∙ e
        ])

  -- MarkForDeletion leaves the tags of an object alone that exists and has no mark, or that does
  -- not exist and has one, whatever requests fail.
  pub mark_for_deletion-kept :
      (now : ℕ) (brokers : List ℤ) (topics : List String) (lock : Option Error) (p : KafkaObject)
      (ts : TagSet) (s : S)
      → is_complete p ≡ true
      → is_settled brokers topics p ts ≡ true
      → stored z json t p s ≡ ok ts
      → stored z json t p
          (mark_for_deletion zk json t now
            (record { brokers = ok brokers; topics = ok topics; lock = lock })
            s).1
        ≡ ok ts
  unfolding mark_for_deletion mark_locked
  mark_for_deletion-kept now brokers topics (some err) p ts s cp settled e = e
  mark_for_deletion-kept now brokers topics none p ts s cp settled e =
      elim (Result-cases (get_all_tags zk json t s)) [
        | inl (all, f) ↦
            rw (mark_for_deletion, mark_locked, f)
              (mark_objects-kept now brokers topics p ts s cp settled e all s
                (get_all_tags-IsRead z j t s all f) e)
        | inr (err, f) ↦ rw (mark_for_deletion, mark_locked, f) e
      ]
