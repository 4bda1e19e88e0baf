-- ===== src/Planner/Scheduled.antt =====
-- planRelocationsForBroker: at most one relocation, and what is written for it.
use kafka_kit.Base.{
  ℕ, ℤ, Bool, ◌≡◌, Option, some, List, [], ◌∷◌, refl, String, int_key, inl, inr, >>=-eq-some,
  if◌then◌else◌, ◌>>=◌, subst,
}
use kafka_kit.Base.GoMap.{lookup}
use kafka_kit.Base.Float.{Float}
use kafka_kit.Base.Shuffle.{Draw}
use kafka_kit.Mapper.Types.{Broker, BrokerMap, Partition}
use kafka_kit.Mapper.Stats.{mean}
use kafka_kit.Planner.Standing.{locality_at, IsWellKeyed, unchanged_refl}
use kafka_kit.Planner.Destinations.{find_destination-IsFound}
use kafka_kit.Planner.{
  PlanParams, PlanState, find_destination, top_partitions, try_destination, try_partition,
  plan_partitions, plan_relocations_for_broker,
}
use kafka_kit.Planner.Attempts.{Planned, Tried, Planned-first, Planned-after, try_destination-Tried}

module _ {F : Type 0} ⦃fl : Float F⦄ (exact : (x : F) → fl.sub x (fl.of_ℕ 0) ≡ x)
    (params : PlanParams F) (draw : Draw) where
  try_partition-Tried :
      (mean_free : F) (l : String) (p : Partition) (st : PlanState F) (r : Bool × PlanState F)
      → IsWellKeyed st.brokers
      → try_partition params draw mean_free l p st ≡ some r
      → Tried params mean_free l p st r
  unfolding try_partition
  try_partition-Tried mean_free l p st r well e =
      let tried = λ (bm : BrokerMap F) (d : Option (Broker F)) (source : Broker F).
        try_destination params mean_free p (record st { brokers = bm }) source d in
      let (d, got, e1) =
        >>=-eq-some (find_destination params draw l st p)
          (λ d.
            lookup params.source_id d.brokers >>= λ source. some (tried d.brokers d.chosen source))
          e in
      let (source, found, e2) =
        >>=-eq-some (lookup params.source_id d.brokers)
          (λ source. some (tried d.brokers d.chosen source)) e1 in
      let same : tried d.brokers d.chosen source ≡ r = cc in
      subst (Tried params mean_free l p st) same (
        try_destination-Tried params mean_free l p st d.brokers source d.chosen
          (find_destination-IsFound exact params draw l st p d well got) found)

  plan_partitions-Planned :
      (mean_free : F) (l : String) (ps : List Partition) (st : PlanState F) (r : ℕ × PlanState F)
      → IsWellKeyed st.brokers
      → plan_partitions params draw mean_free l ps st ≡ some r
      → Planned params mean_free l ps st r
  unfolding plan_partitions
  plan_partitions-Planned mean_free l [] st r well e =
      let same : (0, st) ≡ r = cc in
      subst (Planned params mean_free l [] st) same (
        inl (
          refl,
          record {
            relos = refl;
            mappings = refl;
            plan = refl;
            brokers = unchanged_refl st.brokers;
          },
        ))
  plan_partitions-Planned mean_free l (p ∷ ps) st r well e =
      let next : Bool → PlanState F → Option (ℕ × PlanState F) =
        λ b s. if b then some (1, s) else plan_partitions params draw mean_free l ps s in
      let (t, got, e1) =
        >>=-eq-some (try_partition params draw mean_free l p st) (λ t. next t.0 t.1) e in
      elim (try_partition-Tried mean_free l p st t well got) [
        | inl (z, (u, well')) ↦ Planned-after params mean_free l p ps st t.1 r u (
            plan_partitions-Planned mean_free l ps t.1 r well'
              (subst (λ b. next b t.1 ≡ some r) z e1))
        | inr (o, s) ↦
            let e2 : some (1, t.1) ≡ some r = subst (λ b. next b t.1 ≡ some r) o e1 in
            let same : (1, t.1) ≡ r = cc in
            subst (Planned params mean_free l (p ∷ ps) st) same
              (Planned-first params mean_free l p ps st t.1 s)
      ]

  found_locality :
      (id : ℤ) (bm : BrokerMap F) (b : Broker F)
      → lookup id bm ≡ some b
      → locality_at id bm ≡ some b.locality
  found_locality id bm b e = rw (e, locality_at) refl

  -- On a broker map with distinct keys that holds each broker at its own ID, where x - 0 is x: when
  -- planRelocationsForBroker does not panic, it returns 0 and leaves the relocations, the mappings, the
  -- plan and every broker's free storage, locality and mark for replacement as they were, or it returns
  -- 1 and has scheduled one of the source's top partitions. The destination is no offload target. In
  -- the search within a locality it is another broker of the source's; in the search across localities
  -- it is no broker that holds another replica of the partition or is planned to receive it, and is not
  -- in the named locality of one, unless that one is marked for replacement. The free storage of the
  -- source plus the partition's size and that of the destination minus this size, both as the map had
  -- them, are within the tolerance of the mean, and the map has them afterwards, every other broker's
  -- free storage being as it was. The relocation is appended to the source's relocations and added to
  -- the plan, and the partition is removed from the source's mappings.
  pub plan_relocations_for_broker-Planned :
      (st : PlanState F) (r : ℕ × PlanState F)
      → IsWellKeyed st.brokers
      → plan_relocations_for_broker params draw st ≡ some r
      → (l : String) × (locality_at params.source_id st.brokers ≡ some l)
        × Planned params (mean st.brokers) l (top_partitions params st.mappings) st r
  unfolding plan_relocations_for_broker
  plan_relocations_for_broker-Planned st r well e =
      let (source, found, e') =
        >>=-eq-some (lookup params.source_id st.brokers)
          (λ s.
            plan_partitions params draw (mean st.brokers) s.locality
              (top_partitions params st.mappings) st)
          e in
      (
        source.locality,
        found_locality params.source_id st.brokers source found,
        plan_partitions-Planned (mean st.brokers) source.locality
            (top_partitions params st.mappings) st r well e',
      )
