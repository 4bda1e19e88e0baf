-- ===== src/Planner/Attempts.antt =====
-- planRelocationsForBroker: what one partition of a source comes to, and what is written for it.
use kafka_kit.Base.{
  ℕ, zero, suc, ℤ, ◌==◌, arith, sym, Bool, true, false, ◌≡◌, ◌⊎◌, Option, some, none, List, [], ◌∷◌,
  ◌++◌, refl, String, int_key, get_elem?, Bool-cases, inl, inr, if◌then◌else◌, ap, ◌∙◌,
}
use kafka_kit.Base.GoMap.{lookup, insert}
use kafka_kit.Base.Float.{Float}
use kafka_kit.Mapper.Types.{Broker, BrokerMap, Partition}
use kafka_kit.Mapper.Partitions.{size_or_zero}
use kafka_kit.Mapper.Mappings.{remove}
use kafka_kit.Planner.Standing.{
  free_at, locality_at, IsWellKeyed, IsUnchanged, IsUnchanged-trans, IsFound, free_after,
  found_free,
}
use kafka_kit.Planner.Destinations.{IsAllowed}
use kafka_kit.Planner.{
  Relocation, or_nil, add_relocation, PlanParams, PlanState, schedule, is_tolerated,
  try_destination,
}
use kafka_kit.Planner.Apart.{IsApart, IsApart-before}
use kafka_kit.Planner.Destinations.{IsDestination}

module _ {F : Type 0} ⦃fl : Float F⦄ (params : PlanParams F) where
  -- The relocations, the mappings and the plan are as before, and so is every broker's storage.
  pub record IsUnplanned (st st' : PlanState F) : Type 0 where
    pub relos : st'.relos ≡ st.relos
    pub mappings : st'.mappings ≡ st.mappings
    pub plan : st'.plan ≡ st.plan
    pub brokers : IsUnchanged st.brokers st'.brokers

  -- One of the partitions `ps` is scheduled to move to the broker `destination`, whose free storage
  -- before, as that of the source, is the one that it has in the broker map.
  pub record IsScheduled (mean_free : F) (l : String) (ps : List Partition) (st st' : PlanState F)
      : Type 0 where
    pub place : ℕ
    pub partition : Partition
    pub listed : get_elem? ps place ≡ some partition
    pub destination : ℤ
    pub locality : String
    pub allowed : IsAllowed params l destination locality
    pub apart : IsApart params st.brokers st.plan partition destination locality
    pub located : locality_at destination st.brokers ≡ some locality
    pub source_free : F
    pub source_stands : free_at params.source_id st.brokers ≡ some source_free
    pub destination_free : F
    pub destination_stands : free_at destination st.brokers ≡ some destination_free
    pub source_tolerated :
        fl.lt
          (fl.mul mean_free (fl.add (fl.of_ℕ 1) params.tolerance))
          (fl.add source_free (size_or_zero params.partition_meta partition))
        ≡ false
    pub destination_tolerated :
        fl.lt
          (fl.sub destination_free (size_or_zero params.partition_meta partition))
          (fl.mul mean_free (fl.sub (fl.of_ℕ 1) params.tolerance))
        ≡ false
    pub relos :
        st'.relos
        ≡ insert params.source_id
            (or_nil (lookup params.source_id st.relos)
              ++ record { partition = partition; destination = destination } ∷ [])
            st.relos
    pub plan : st'.plan ≡ add_relocation st.plan partition (params.source_id, destination)
    pub mappings : st'.mappings ≡ (remove params.source_id partition st.mappings).0
    pub free :
        (id : ℤ)
        → free_at id st'.brokers ≡ (
            if id == destination
            then some (fl.sub destination_free (size_or_zero params.partition_meta partition))
            else if id == params.source_id
            then some (fl.add source_free (size_or_zero params.partition_meta partition))
            else free_at id st.brokers)

  -- Nothing is planned and zero is returned, or one partition is and one is returned.
  abbrev pub Planned : F → String → List Partition → PlanState F → ℕ × PlanState F → Type 0
  Planned mean_free l ps st r =
      ((r.0 ≡ 0) × IsUnplanned st r.1) ⊎ ((r.0 ≡ 1) × IsScheduled mean_free l ps st r.1)

  -- What one partition comes to.
  abbrev pub Tried : F → String → Partition → PlanState F → Bool × PlanState F → Type 0
  Tried mean_free l p st r =
      ((r.0 ≡ false) × (IsUnplanned st r.1 × IsWellKeyed r.1.brokers))
      ⊎ ((r.0 ≡ true) × IsScheduled mean_free l (p ∷ []) st r.1)

  tolerated :
      (mean_free source_free dest_free : F)
      → is_tolerated params mean_free source_free dest_free ≡ true
      → (fl.lt (fl.mul mean_free (fl.add (fl.of_ℕ 1) params.tolerance)) source_free ≡ false)
        × (fl.lt dest_free (fl.mul mean_free (fl.sub (fl.of_ℕ 1) params.tolerance)) ≡ false)
  unfolding is_tolerated
  tolerated mean_free source_free dest_free h = (ground arith, ground arith)

  pub try_destination-Tried :
      (mean_free : F) (l : String) (p : Partition) (st : PlanState F) (bm : BrokerMap F)
      (source : Broker F) (dest : Option (Broker F))
      → IsFound (IsDestination params l st p) st.brokers bm dest
      → lookup params.source_id bm ≡ some source
      → Tried mean_free l p st
          (try_destination params mean_free p (record st { brokers = bm }) source dest)
  unfolding try_destination schedule
  try_destination-Tried mean_free l p st bm source none f e =
      inl (
        refl,
        (record { relos = refl; mappings = refl; plan = refl; brokers = f.unchanged }, f.well),
      )
  try_destination-Tried mean_free l p st bm source (some dest) f e =
      let size = size_or_zero params.partition_meta p in
      let source_free = fl.add source.storage_free size in
      let dest_free = fl.sub dest.storage_free size in
      let stands : free_at params.source_id st.brokers ≡ some source.storage_free =
        sym (f.unchanged.free params.source_id) ∙ found_free params.source_id bm source e in
      elim (Bool-cases (is_tolerated params mean_free source_free dest_free)) [
        | inl y ↦ rw y (
            inr (
              refl,
              record {
                place = 0;
                partition = p;
                listed = refl;
                destination = dest.id;
                locality = dest.locality;
                allowed = (f.allowed dest refl).0;
                apart = (f.allowed dest refl).1;
                located = f.located dest refl;
                source_free = source.storage_free;
                source_stands = stands;
                destination_free = dest.storage_free;
                destination_stands = f.free dest refl;
                source_tolerated = (tolerated mean_free source_free dest_free y).0;
                destination_tolerated = (tolerated mean_free source_free dest_free y).1;
                relos = refl;
                plan = refl;
                mappings = refl;
                free = λ id.
                    free_after params.source_id dest.id id source_free dest_free source.storage_free
                      dest.storage_free st.brokers bm f.unchanged stands (f.free dest refl);
              },
            ))
        | inr n ↦ rw n (
            inl (
              refl,
              (
                record { relos = refl; mappings = refl; plan = refl; brokers = f.unchanged },
                f.well,
              ),
            ))
      ]

  first_listed :
      (p x : Partition) (ps : List Partition) (n : ℕ)
      → get_elem? (p ∷ []) n ≡ some x
      → get_elem? (p ∷ ps) n ≡ some x
  first_listed p x ps zero e = e
  first_listed p x ps (suc n) e = absurd (cc)

  -- The first partition is scheduled.
  pub Planned-first :
      (mean_free : F) (l : String) (p : Partition) (ps : List Partition) (st st' : PlanState F)
      → IsScheduled mean_free l (p ∷ []) st st'
      → Planned mean_free l (p ∷ ps) st (1, st')
  Planned-first mean_free l p ps st st' s = inr (
    refl,
    record {
      place = s.place;
      partition = s.partition;
      listed = first_listed p s.partition ps s.place s.listed;
      destination = s.destination;
      locality = s.locality;
      allowed = s.allowed;
      apart = s.apart;
      located = s.located;
      source_free = s.source_free;
      source_stands = s.source_stands;
      destination_free = s.destination_free;
      destination_stands = s.destination_stands;
      source_tolerated = s.source_tolerated;
      destination_tolerated = s.destination_tolerated;
      relos = s.relos;
      plan = s.plan;
      mappings = s.mappings;
      free = s.free;
    },
  )

  -- The first partition is passed over.
  pub Planned-after :
      (mean_free : F) (l : String) (p : Partition) (ps : List Partition) (st st1 : PlanState F)
      (r : ℕ × PlanState F)
      → IsUnplanned st st1
      → Planned mean_free l ps st1 r
      → Planned mean_free l (p ∷ ps) st r
  Planned-after mean_free l p ps st st1 r u (inl (z, v)) = inl (
    z,
    record {
      relos = v.relos ∙ u.relos;
      mappings = v.mappings ∙ u.mappings;
      plan = v.plan ∙ u.plan;
      brokers = IsUnchanged-trans u.brokers v.brokers;
    },
  )
  Planned-after mean_free l p ps st st1 r u (inr (o, s)) =
      let moved : Relocation = record { partition = s.partition; destination = s.destination } in
      let size = size_or_zero params.partition_meta s.partition in
      inr (
        o,
        record {
          place = suc s.place;
          partition = s.partition;
          listed = s.listed;
          destination = s.destination;
          locality = s.locality;
          allowed = s.allowed;
          apart =
              IsApart-before params st.brokers st1.brokers st.plan st1.plan s.partition
                s.destination s.locality u.brokers u.plan s.apart;
          located = sym (u.brokers.locality s.destination) ∙ s.located;
          source_free = s.source_free;
          source_stands = sym (u.brokers.free params.source_id) ∙ s.source_stands;
          destination_free = s.destination_free;
          destination_stands = sym (u.brokers.free s.destination) ∙ s.destination_stands;
          source_tolerated = s.source_tolerated;
          destination_tolerated = s.destination_tolerated;
          relos =
              s.relos
              ∙ ap
                  (λ m.
                    insert params.source_id (or_nil (lookup params.source_id m) ++ moved ∷ []) m)
                  u.relos;
          plan =
              s.plan
              ∙ ap (λ r. add_relocation r s.partition (params.source_id, s.destination)) u.plan;
          mappings = s.mappings ∙ ap (λ m. (remove params.source_id s.partition m).0) u.mappings;
          free = λ id.
              s.free id
              ∙ ap
                  (λ x.
                    if id == s.destination
                    then some (fl.sub s.destination_free size)
                    else if id == params.source_id
                    then some (fl.add s.source_free size)
                    else x)
                  (u.brokers.free id);
        },
      )
