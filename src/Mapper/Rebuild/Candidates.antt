-- ===== src/Mapper/Rebuild/Candidates.antt =====
-- The brokers that a placement starts with as candidates.
use kafka_kit.Base.{
  All_map, ℤ, Bool, true, false, not, ◌≡◌, some, [], ◌∷◌, refl, ◌==◌, int_key, if◌then◌else◌, All,
  Bool-cases, inl, inr, arith, beq_iff,
}
use kafka_kit.Base.GoMap.{keys, lookup, insert, has, contains-keys}
use kafka_kit.Base.Float.{Float}
use kafka_kit.Base.Shuffle.{Draw}
use kafka_kit.Mapper.Types.{Broker, BrokerMap, stub_broker_id}
use kafka_kit.Mapper.Brokers.{filter_map, not_replaced_brokers_fn}
use kafka_kit.Mapper.Brokers.Keyed.{IsKeyed}
use kafka_kit.Mapper.Placement.{RebuildParams, start}
use kafka_kit.Mapper.Placement.Frame.{IsFree, view}
use kafka_kit.Mapper.Placement.Step.{IsSound}
use kafka_kit.Mapper.Rebuild.Filling.{distinct}

module _ {F : Type 0} where
  -- An entry that is written to a list of entries is one of those that are there, or the new one.
  All-keys-insert :
      (P : ℤ → Type 0) (id : ℤ) (b : Broker F) (m : BrokerMap F)
      → P id
      → All P (keys m)
      → All P (keys (insert id b m))
  unfolding insert
  All-keys-insert P id b [] h hs = (h, tt)
  All-keys-insert P id b ((j, x) ∷ m) h (k, ks) = elim (Bool-cases (j == id)) [
    | inl e ↦ rw e (h, ks)
    | inr e ↦ rw e (k, All-keys-insert P id b m h ks)
  ]

  -- A later entry of a map is looked up past the first one.
  pub IsFree_later :
      (j : ℤ) (x : Broker F) (m : BrokerMap F) (id : ℤ)
      → has j m ≡ false
      → IsFree m id
      → IsFree ((j, x) ∷ m) id
  unfolding lookup has
  IsFree_later j x m id absent h =
      let found = h.stands in
      let past : view id ((j, x) ∷ m) ≡ view id m = ground (arith, beq_iff j id) in
      record { not_stub = h.not_stub; rack = h.rack; stands = ground arith }

  -- The three ways through the filter.
  All_kept :
      (P : ℤ → Type 0) (stub replaced : Bool) (more rest : BrokerMap F)
      → All P (keys rest)
      → (stub ≡ false → replaced ≡ false → All P (keys more))
      → All P (keys (if stub then rest else if not replaced then more else rest))
  All_kept P true replaced more rest h k = h
  All_kept P false true more rest h k = h
  All_kept P false false more rest h k = k refl refl

  filter_map-IsFree :
      (m : BrokerMap F)
      → IsKeyed m
      → distinct (keys m) ≡ true
      → All (IsFree m) (keys (filter_map not_replaced_brokers_fn m))
  unfolding filter_map distinct lookup
  filter_map-IsFree [] k one = tt
  filter_map-IsFree ((id, b) ∷ m) (kb, k) one =
      let rest = filter_map not_replaced_brokers_fn m in
      let inside = contains-keys id m in
      let absent : has id m ≡ false = ground arith in
      let later =
        All_map (λ j f. IsFree_later id b m j absent f) (keys rest)
          (filter_map-IsFree m k (ground arith)) in
      All_kept (IsFree ((id, b) ∷ m)) (b.id == stub_broker_id) b.replace (insert b.id b rest) rest
        later
        (λ other n.
          let at : view b.id ((id, b) ∷ m) ≡ some (false, b.locality) =
            ground (arith, beq_iff id b.id) in
          All-keys-insert (IsFree ((id, b) ∷ m)) b.id b rest
            (record { not_stub = other; rack = b.locality; stands = at }) later)

module _ {F : Type 0} ⦃fl : Float F⦄ (draw : Draw) (params : RebuildParams F) where
  pub start-IsSound :
      IsKeyed params.bm → distinct (keys params.bm) ≡ true → IsSound (start draw params)
  unfolding start
  start-IsSound k one = record { keyed = k; candidates = filter_map-IsFree params.bm k one }
