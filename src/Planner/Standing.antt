-- ===== src/Planner/Standing.antt =====
-- planRelocationsForBroker: the free storage and the locality of the brokers in the map, and what taking
-- the offload targets does.
use kafka_kit.Base.{
  ℤ, Bool, true, ◌≡◌, Option, some, none, List, [], ◌∷◌, map, refl, String, ◌==◌, int_key,
  string_key, Bool-cases, inl, inr, arith, ap, ◌∙◌, beq_iff, if◌then◌else◌,
}
use kafka_kit.Base.GoMap.{keys, lookup, insert, has, lookup-insert}
use kafka_kit.Base.GoMap.Extensional.{IsDistinct}
use kafka_kit.Base.Float.{Float}
use kafka_kit.Mapper.Types.{Broker, BrokerMap}
use kafka_kit.Mapper.Brokers.{BrokerList}
use kafka_kit.Mapper.Brokers.Keyed.{IsKeyed}
use kafka_kit.Mapper.Brokers.Update.{zero_broker}
use kafka_kit.Mapper.Constraints.{Constraints, has_id, take_broker, take_all}
use kafka_kit.Base.GoMap.{modify, lookup-modify}
use kafka_kit.Mapper.Constraints.{has_locality}
use kafka_kit.Mapper.Constraints.Taken.{has_id-take_broker, has_locality-take_broker}

module _ {F : Type 0} where
  -- The free storage and the locality of a broker of the map
  abbrev pub free_at : ℤ → BrokerMap F → Option F
  free_at id bm = elim (lookup id bm) [ some b ↦ some b.storage_free | none ↦ none ]

  abbrev pub locality_at : ℤ → BrokerMap F → Option String
  locality_at id bm = elim (lookup id bm) [ some b ↦ some b.locality | none ↦ none ]

  abbrev pub replaced_at : ℤ → BrokerMap F → Option Bool
  replaced_at id bm = elim (lookup id bm) [ some b ↦ some b.replace | none ↦ none ]

  -- A Go map that holds each broker at its own ID
  pub record IsWellKeyed (bm : BrokerMap F) : Type 0 where
    pub keyed : IsKeyed bm
    pub distinct : IsDistinct bm

  -- Every broker has the free storage, the locality and the mark for replacement that it had.
  pub record IsUnchanged (bm bm' : BrokerMap F) : Type 0 where
    pub free : (id : ℤ) → free_at id bm' ≡ free_at id bm
    pub locality : (id : ℤ) → locality_at id bm' ≡ locality_at id bm
    pub replaced : (id : ℤ) → replaced_at id bm' ≡ replaced_at id bm

  pub IsUnchanged-trans :
      {a b c : BrokerMap F} → IsUnchanged a b → IsUnchanged b c → IsUnchanged a c
  IsUnchanged-trans u v = record {
    free = λ id. v.free id ∙ u.free id;
    locality = λ id. v.locality id ∙ u.locality id;
    replaced = λ id. v.replaced id ∙ u.replaced id;
  }

  -- A search that finds a broker with the property `Q`, if any, as it stands in the map.
  pub record IsFound (Q : Broker F → Type 0) (bm bm' : BrokerMap F) (o : Option (Broker F))
      : Type 0 where
    pub unchanged : IsUnchanged bm bm'
    pub well : IsWellKeyed bm'
    pub free : (b : Broker F) → o ≡ some b → free_at b.id bm ≡ some b.storage_free
    pub located : (b : Broker F) → o ≡ some b → locality_at b.id bm ≡ some b.locality
    pub allowed : (b : Broker F) → o ≡ some b → Q b

  pub stands :
      (bm : BrokerMap F) (b : Broker F)
      → lookup b.id bm ≡ some b
      → free_at b.id bm ≡ some b.storage_free
  stands bm b e = rw (e, free_at) refl

  pub lies :
      (bm : BrokerMap F) (b : Broker F)
      → lookup b.id bm ≡ some b
      → locality_at b.id bm ≡ some b.locality
  lies bm b e = rw (e, locality_at) refl

  -- A broker that is written back with its free storage and locality
  pub written-IsUnchanged :
      (bm : BrokerMap F) (a b : Broker F)
      → lookup a.id bm ≡ some a
      → b.storage_free ≡ a.storage_free
      → b.locality ≡ a.locality
      → b.replace ≡ a.replace
      → IsUnchanged bm (insert a.id b bm)
  written-IsUnchanged bm a b e f g h = record {
    free = λ id. ground (arith, lookup-insert a.id id b bm, beq_iff a.id id);
    locality = λ id. ground (arith, lookup-insert a.id id b bm, beq_iff a.id id);
    replaced = λ id. ground (arith, lookup-insert a.id id b bm, beq_iff a.id id);
  }

  -- The offload targets are taken.
  pub has_id-take_more :
      (bl : BrokerList F) (c : Constraints F) (id : ℤ)
      → has_id c id ≡ true
      → has_id (take_all bl c) id ≡ true
  unfolding take_all
  has_id-take_more [] c id h = h
  has_id-take_more (b ∷ bl) c id h =
      has_id-take_more bl (take_broker b c) id (ground (arith, has_id-take_broker b c id))

  pub has_locality-take_more :
      (bl : BrokerList F) (c : Constraints F) (l : String)
      → has_locality c l ≡ true
      → has_locality (take_all bl c) l ≡ true
  unfolding take_all
  has_locality-take_more [] c l h = h
  has_locality-take_more (b ∷ bl) c l h =
      has_locality-take_more bl (take_broker b c) l (ground (arith, has_locality-take_broker b c l))

  pub size-take_all :
      (bl : BrokerList F) (c : Constraints F) → (take_all bl c).request_size ≡ c.request_size
  unfolding take_all take_broker
  size-take_all [] c = refl
  size-take_all (b ∷ bl) c = size-take_all bl (take_broker b c)

pub has_id-take_targets :
    {F : Type 0} ⦃fl : Float F⦄ (m : List (ℤ × Bool)) (c : Constraints F) (id : ℤ)
    → has id m ≡ true
    → has_id (take_all (map zero_broker (keys m)) c) id ≡ true
unfolding take_all has lookup
has_id-take_targets [] c id h = cc
has_id-take_targets ((j, v) ∷ m) c id h = elim (Bool-cases (j == id)) [
  | inl e ↦
      has_id-take_more (map zero_broker (keys m)) (take_broker (zero_broker j) c) id
        (ground (arith, has_id-take_broker (zero_broker j) c id))
  | inr e ↦ has_id-take_targets m (take_broker (zero_broker j) c) id (rw (e, has, lookup) at h)
]

module _ {F : Type 0} where
  pub unchanged_refl : (bm : BrokerMap F) → IsUnchanged bm bm
  unchanged_refl bm = record { free = λ id. refl; locality = λ id. refl; replaced = λ id. refl }

  -- The storage after the two writes
  free_at-writes :
      (source dest id : ℤ) (a b c d : F) (bm : BrokerMap F)
      → free_at source bm ≡ some c
      → free_at dest bm ≡ some d
      → free_at id (
          modify dest
            (λ x. record x { storage_free = b })
            (modify source (λ x. record x { storage_free = a }) bm))
        ≡ (if id == dest then some b else if id == source then some a else free_at id bm)
  free_at-writes source dest id a b c d bm e f =
      let write_a = λ (x : Broker F). record x { storage_free = a } in
      let write_b = λ (x : Broker F). record x { storage_free = b } in
      ground (
        arith,
        lookup-modify dest id write_b (modify source write_a bm),
        lookup-modify source id write_a bm,
        beq_iff id dest,
        beq_iff dest id,
        beq_iff id source,
        beq_iff source id,
      )

  -- The free storage after the two writes, where the search has left the brokers unchanged
  pub free_after :
      (source dest id : ℤ) (a b c d : F) (bm bm' : BrokerMap F)
      → IsUnchanged bm bm'
      → free_at source bm ≡ some c
      → free_at dest bm ≡ some d
      → free_at id (
          modify dest
            (λ x. record x { storage_free = b })
            (modify source (λ x. record x { storage_free = a }) bm'))
        ≡ (if id == dest then some b else if id == source then some a else free_at id bm)
  free_after source dest id a b c d bm bm' u e f =
      free_at-writes source dest id a b c d bm' (u.free source ∙ e) (u.free dest ∙ f)
      ∙ ap (λ x. if id == dest then some b else if id == source then some a else x) (u.free id)

  pub found_free :
      (id : ℤ) (bm : BrokerMap F) (b : Broker F)
      → lookup id bm ≡ some b
      → free_at id bm ≡ some b.storage_free
  found_free id bm b e = rw (e, free_at) refl
