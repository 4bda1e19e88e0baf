-- ===== src/Planner/Removed.antt =====
-- planRelocationsForBroker: a partition that it plans is removed from the mappings, on any broker map.
use kafka_kit.Base.{
  ℕ, suc, Bool, true, false, ◌≡◌, ◌⊎◌, Option, some, none, List, [], ◌∷◌, refl, String, int_key,
  get_elem?, Bool-cases, inl, inr, >>=-eq-some, if◌then◌else◌, ◌>>=◌, subst, ap, ◌∙◌,
}
use kafka_kit.Base.GoMap.{lookup}
use kafka_kit.Base.Float.{Float}
use kafka_kit.Base.Shuffle.{Draw}
use kafka_kit.Mapper.Types.{Broker, BrokerMap, Partition}
use kafka_kit.Mapper.Partitions.{size_or_zero}
use kafka_kit.Mapper.Mappings.{remove}
use kafka_kit.Mapper.Stats.{mean}
use kafka_kit.Planner.{
  PlanParams, PlanState, find_destination, schedule, is_tolerated, top_partitions, try_destination,
  try_partition, plan_partitions, plan_relocations_for_broker,
}

module _ {F : Type 0} ⦃fl : Float F⦄ (params : PlanParams F) where
  -- One of the partitions `ps` is removed from the source's mappings.
  pub record IsRemoved (ps : List Partition) (st st' : PlanState F) : Type 0 where
    pub place : ℕ
    pub partition : Partition
    pub listed : get_elem? ps place ≡ some partition
    pub mappings : st'.mappings ≡ (remove params.source_id partition st.mappings).0

  -- Zero is returned and the mappings are as before, or one is and a partition is removed.
  abbrev pub Counted : List Partition → PlanState F → ℕ × PlanState F → Type 0
  Counted ps st r = ((r.0 ≡ 0) × (r.1.mappings ≡ st.mappings)) ⊎ ((r.0 ≡ 1) × IsRemoved ps st r.1)

  abbrev Flagged : Partition → PlanState F → Bool × PlanState F → Type 0
  Flagged p st r =
      ((r.0 ≡ false) × (r.1.mappings ≡ st.mappings))
      ⊎ ((r.0 ≡ true) × (r.1.mappings ≡ (remove params.source_id p st.mappings).0))

  try_destination-Flagged :
      (mean_free : F) (p : Partition) (st : PlanState F) (source : Broker F)
      (dest : Option (Broker F))
      → Flagged p st (try_destination params mean_free p st source dest)
  unfolding try_destination schedule
  try_destination-Flagged mean_free p st source none = inl (refl, refl)
  try_destination-Flagged mean_free p st source (some dest) =
      let size = size_or_zero params.partition_meta p in
      elim (Bool-cases (
        is_tolerated params mean_free (fl.add source.storage_free size)
          (fl.sub dest.storage_free size))) [
            | inl y ↦ rw y (inr (refl, refl))
            | inr n ↦ rw n (inl (refl, refl))
          ]

module _ {F : Type 0} ⦃fl : Float F⦄ (params : PlanParams F) (draw : Draw) where
  try_partition-Flagged :
      (mean_free : F) (l : String) (p : Partition) (st : PlanState F) (r : Bool × PlanState F)
      → try_partition params draw mean_free l p st ≡ some r
      → Flagged params p st r
  unfolding try_partition
  try_partition-Flagged mean_free l p st r e =
      let tried = λ (bm : BrokerMap F) (d : Option (Broker F)) (source : Broker F).
        try_destination params mean_free p (record st { brokers = bm }) source d in
      let (d, got, e1) =
        >>=-eq-some (find_destination params draw l st p)
          (λ d.
            lookup params.source_id d.brokers >>= λ source. some (tried d.brokers d.chosen source))
          e in
      let (source, found, e2) =
        >>=-eq-some (lookup params.source_id d.brokers)
          (λ source. some (tried d.brokers d.chosen source)) e1 in
      let same : tried d.brokers d.chosen source ≡ r = cc in
      subst (Flagged params p st) same (
        try_destination-Flagged params mean_free p (record st { brokers = d.brokers }) source
          d.chosen)

  plan_partitions-Counted :
      (mean_free : F) (l : String) (ps : List Partition) (st : PlanState F) (r : ℕ × PlanState F)
      → plan_partitions params draw mean_free l ps st ≡ some r
      → Counted params ps st r
  unfolding plan_partitions
  plan_partitions-Counted mean_free l [] st r e =
      let same : (0, st) ≡ r = cc in subst (Counted params [] st) same (inl (refl, refl))
  plan_partitions-Counted mean_free l (p ∷ ps) st r e =
      let next : Bool → PlanState F → Option (ℕ × PlanState F) =
        λ b s. if b then some (1, s) else plan_partitions params draw mean_free l ps s in
      let (t, got, e1) =
        >>=-eq-some (try_partition params draw mean_free l p st) (λ t. next t.0 t.1) e in
      elim (try_partition-Flagged mean_free l p st t got) [
        | inl (z, u) ↦
            elim (plan_partitions-Counted mean_free l ps t.1 r
              (subst (λ b. next b t.1 ≡ some r) z e1)) [
                | inl (n, v) ↦ inl (n, v ∙ u)
                | inr (n, s) ↦ inr (
                  n,
                  record {
                    place = suc s.place;
                    partition = s.partition;
                    listed = s.listed;
                    mappings = s.mappings ∙ ap (λ m. (remove params.source_id s.partition m).0) u;
                  },
                )
              ]
        | inr (o, s) ↦
            let e2 : some (1, t.1) ≡ some r = subst (λ b. next b t.1 ≡ some r) o e1 in
            let same : (1, t.1) ≡ r = cc in
            subst (Counted params (p ∷ ps) st) same
              (inr (refl, record { place = 0; partition = p; listed = refl; mappings = s }))
      ]

  pub plan_relocations_for_broker-Counted :
      (st : PlanState F) (r : ℕ × PlanState F)
      → plan_relocations_for_broker params draw st ≡ some r
      → Counted params (top_partitions params st.mappings) st r
  unfolding plan_relocations_for_broker
  plan_relocations_for_broker-Counted st r e =
      let (source, found, e') =
        >>=-eq-some (lookup params.source_id st.brokers)
          (λ s.
            plan_partitions params draw (mean st.brokers) s.locality
              (top_partitions params st.mappings) st)
          e in
      plan_partitions-Counted (mean st.brokers) source.locality (top_partitions params st.mappings)
        st r e'
