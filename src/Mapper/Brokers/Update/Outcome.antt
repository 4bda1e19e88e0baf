-- ===== src/Mapper/Brokers/Update/Outcome.antt =====
-- BrokerMap.Update against a description of the broker at each ID.
use kafka_kit.Base.{
  ℤ, Bool, true, not, ◌≡◌, ◌&&◌, ◌||◌, List, [], Option, some, none, arith, Option-cases, inl, inr,
  ◌==◌, int_key, if◌then◌else◌, refl, ltb, length, ◌∙◌, ap,
}
use kafka_kit.Base.GoMap.{Map, lookup, has, keys, contains-keys}
use kafka_kit.Base.Float.{Float}
use kafka_kit.Mapper.Types.{Broker, BrokerMap, BrokerMetaMap, stub_broker_id}
use kafka_kit.Mapper.Brokers.Keyed.{IsKeyed, IsKeyed-lookup}
use kafka_kit.Mapper.Brokers.Update.{
  Log, no_changes, provided_brokers, mark_missing, mark_existing, update,
}
use kafka_kit.Mapper.Brokers.Update.Marks.{
  after_missing, after_removed, lookup-mark_missing, lookup-mark_removed,
}
use kafka_kit.Mapper.Brokers.Update.Merge.{
  is_provided, added, has-provided_brokers, lookup-merge_provided,
}

module _ {F : Type 0} ⦃fl : Float F⦄ (bl : List ℤ) (bm : BrokerMetaMap F) (b : BrokerMap F) where
  -- An existing broker that ZooKeeper does not know, where it knows any.
  abbrev pub is_gone : ℤ → Bool
  is_gone id = ltb 0 (length bm) && not (id == stub_broker_id) && not (has id bm)

  abbrev pub is_removed : ℤ → Bool
  is_removed id = not (id == stub_broker_id) && not (is_provided bl b bm id)

  abbrev pub retired : ℤ → Broker F → Broker F
  retired id x = record x {
    replace = if is_gone id || is_removed id then true else x.replace;
    missing = if is_gone id then true else x.missing;
  }

  -- What stands at an ID after the update, by what stood there before.
  abbrev pub outcome : ℤ → Option (Broker F) → Option (Broker F)
  outcome id (some x) = some (retired id x)
  outcome id none = if is_provided bl b bm id then added bm id else none

  lookup-mark_existing :
      (provided : Map ℤ Bool) (id : ℤ)
      → lookup id (mark_existing provided bm b).0 ≡ (elim (lookup id b) [
        | some x ↦ some (
            after_removed provided bm
              (if ltb 0 (length bm) then after_missing provided bm id x else x))
        | none ↦ none
      ])
  unfolding mark_existing
  lookup-mark_existing provided id =
      let start : Log = record { status = no_changes; msgs = [] } in
      let (b1, l1) = mark_missing provided bm b start in
      ground (
        arith,
        lookup-mark_removed provided bm id b1 l1,
        lookup-mark_removed provided bm id b start,
        lookup-mark_missing provided bm id b start,
      )

  retired_lem :
      (id : ℤ) (x : Broker F)
      → x.id ≡ id
      → after_removed
          (provided_brokers bl b bm)
          bm
          (if ltb 0 (length bm) then after_missing (provided_brokers bl b bm) bm id x else x)
        ≡ retired id x
  retired_lem id x h = ground (arith, has-provided_brokers bl b bm id)

  -- What Update leaves at every ID of a map that holds each broker at its own ID. An existing broker
  -- keeps all but two flags: it is to be replaced if it was so before, or if it is not the stub broker
  -- and either is not provided or is unknown to ZooKeeper where ZooKeeper knows any broker; it is
  -- missing if it was so before or in the latter case. An ID that was absent has a broker after it only
  -- if it is provided, and then the new broker of its metadata, or one without metadata where
  -- ZooKeeper knows no broker.
  pub lookup-update : (id : ℤ) → IsKeyed b → lookup id (update bl bm b).0 ≡ outcome id (lookup id b)
  unfolding update
  lookup-update id k =
      let provided = provided_brokers bl b bm in
      lookup-merge_provided bm id (keys provided) (mark_existing provided bm b)
      ∙ rw (lookup-mark_existing provided id) (elim (Option-cases (lookup id b)) [
        | inl e ↦ rw (e, contains-keys id provided, has-provided_brokers bl b bm id) refl
        | inr (x, e) ↦ rw e (ap some (retired_lem id x (IsKeyed-lookup id x b k e)))
      ])
