-- ===== src/Mapper/Brokers/Update/Marks.antt =====
-- What the first two loops of BrokerMap.Update make of one broker.
use kafka_kit.Base.{
  ℤ, Bool, true, ◌≡◌, ◌||◌, [], ◌∷◌, some, none, arith, beq_iff, ◌==◌, int_key, if◌then◌else◌, refl,
}
use kafka_kit.Base.GoMap.{Map, lookup, has}
use kafka_kit.Mapper.Types.{Broker, BrokerMap, BrokerMetaMap, stub_broker_id}
use kafka_kit.Mapper.Brokers.Update.{
  Log, mark_missing_broker, mark_removed_broker, mark_missing, mark_removed,
}

module _ {F : Type 0} (provided : Map ℤ Bool) (bm : BrokerMetaMap F) where
  -- The broker that the loop over missing brokers leaves at `id`.
  abbrev pub after_missing : ℤ → Broker F → Broker F
  after_missing id b =
      if id == stub_broker_id || has id bm then b else record b { replace = true; missing = true }

  -- The broker that the loop over removed brokers leaves.
  abbrev pub after_removed : Broker F → Broker F
  after_removed b =
      if b.id == stub_broker_id || has b.id provided then b else record b { replace = true }

  pub lookup-mark_missing :
      (id : ℤ) (m : BrokerMap F) (l : Log)
      → lookup id (mark_missing provided bm m l).0
        ≡ (elim (lookup id m) [ some b ↦ some (after_missing id b) | none ↦ none ])
  unfolding lookup mark_missing mark_missing_broker
  lookup-mark_missing id [] l = refl
  lookup-mark_missing id ((j, b) ∷ m) l =
      ground
        (arith, beq_iff j id, lookup-mark_missing id m (mark_missing_broker provided bm j b l).1)

  pub lookup-mark_removed :
      (id : ℤ) (m : BrokerMap F) (l : Log)
      → lookup id (mark_removed provided m l).0
        ≡ (elim (lookup id m) [ some b ↦ some (after_removed b) | none ↦ none ])
  unfolding lookup mark_removed mark_removed_broker
  lookup-mark_removed id [] l = refl
  lookup-mark_removed id ((j, b) ∷ m) l =
      ground (arith, beq_iff j id, lookup-mark_removed id m (mark_removed_broker provided b l).1)
