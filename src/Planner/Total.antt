-- ===== src/Planner/Total.antt =====
-- planRelocationsForBroker returns when the broker map holds all the brokers that are named.
use kafka_kit.Base.{
  ℕ, ℤ, pos, Bool, true, false, not, ◌≡◌, Option, some, none, List, [], ◌∷◌, ◌++◌, map, refl,
  String, ◌==◌, int_key, filter, All, All_map, All-filter, Bool-cases, >>=-eq-some, ◌+◌, inl, inr,
  ◌>>=◌, arith, sym, subst, ap, ◌∙◌, beq_iff, if◌then◌else◌,
}
use kafka_kit.Base.GoMap.{keys, values, lookup, has, has-insert}
use kafka_kit.Base.Sort.{All-sort}
use kafka_kit.Base.Float.{Float}
use kafka_kit.Base.Shuffle.{Draw}
use kafka_kit.Mapper.Types.{Broker, BrokerMap, Partition}
use kafka_kit.Mapper.Brokers.{
  BrokerList, sort_by_storage, less_by_storage, filter_list, all_brokers_fn,
}
use kafka_kit.Mapper.Brokers.Keyed.{IsKeyed, IsKeyed-insert}
use kafka_kit.Mapper.Brokers.Update.{zero_broker}
use kafka_kit.Mapper.Constraints.{
  Constraints, Selection, deref, take_all, merged_constraints, choose, best_from, best_candidate,
  first_such, passes, sort_by_method,
}
use kafka_kit.Mapper.Constraints.Candidates.{deref_total}
use kafka_kit.Mapper.Partitions.{size_or_zero}
use kafka_kit.Mapper.Stats.{mean}
use kafka_kit.Mapper.Rebuild.Total.{AreHeld, lookup_total, >>=_total}
use kafka_kit.Planner.{
  RelocationPlan, or_nil, is_planned, PlanParams, PlanState, Destination, destination_of,
  relocation_constraints, find_destination, same_locality, schedule, is_tolerated, top_partitions,
  try_destination, try_partition, plan_partitions, plan_relocations_for_broker,
}

-- A choice of two results that are there and satisfy a predicate.
if_some {ℓ κ} :
    {A : Type ℓ} (b : Bool) (x : A) (y : Option A) (Q : A → Type κ)
    → Q x
    → (a : A) × (y ≡ some a) × Q a
    → (a : A) × ((if b then some x else y) ≡ some a) × Q a
if_some true x y Q h k = (x, refl, h)
if_some false x y Q h k = k

-- A flag that is not set comes with the second value.
if_keeps {ℓ} :
    {A : Type ℓ} (b : Bool) (x y : A)
    → ((if◌then◌else◌ {A = Bool × A} b (true, x) (false, y)).0 ≡ false)
    → ((if◌then◌else◌ {A = Bool × A} b (true, x) (false, y)).1 ≡ y)
if_keeps true x y h = absurd (cc)
if_keeps false x y h = refl

module _ {F : Type 0} where
  -- A broker map that is keyed and holds the brokers of another one.
  record IsWider (bm bm' : BrokerMap F) : Type 0 where
    keyed : IsKeyed bm'
    held : (id : ℤ) → has id bm ≡ true → has id bm' ≡ true

  -- The brokers that hold a partition or are to receive it are in the map.
  pub record IsCovered (bm : BrokerMap F) (plan : RelocationPlan) (p : Partition) : Type 0 where
    pub replicas : AreHeld bm p.replicas
    pub receiving : AreHeld bm (map (λ ids. ids.1) (or_nil (is_planned plan p)))

  values_held : (m : BrokerMap F) → IsKeyed m → All (λ b. has b.id m ≡ true) (values m)
  unfolding has lookup
  values_held [] k = tt
  values_held ((id, b) ∷ m) (kb, k) = (
    ground (arith, beq_iff id b.id),
    All_map (λ (y : Broker F) h. ground arith) (values m) (values_held m k),
  )

  All-ids :
      (bm : BrokerMap F) (bl : BrokerList F)
      → All (λ b. has b.id bm ≡ true) bl
      → AreHeld bm (map (λ b. b.id) bl)
  All-ids bm [] h = tt
  All-ids bm (b ∷ bl) (h, hs) = (h, All-ids bm bl hs)

module _ {F : Type 0} ⦃fl : Float F⦄ where
  choose-IsWider :
      (bm : BrokerMap F) (order : List ℤ) (c : Constraints F) (o : Option (Broker F))
      → IsKeyed bm
      → IsWider bm (choose bm order c o).brokers
  unfolding choose
  choose-IsWider bm order c none k = record { keyed = k; held = λ id h. h }
  choose-IsWider bm order c (some b) k =
      let b' = record b {
        used = b.used + 1;
        storage_free = fl.sub b.storage_free c.request_size;
      } in
      record {
        keyed = IsKeyed-insert b.id b' bm refl k;
        held = λ id h. ground (arith, has-insert b.id id b' bm);
      }

  best_from-IsWider :
      (bm : BrokerMap F) (ids : List ℤ) (c : Constraints F) (o : Option (BrokerList F))
      → IsKeyed bm
      → IsWider bm (best_from bm ids c o).brokers
  unfolding best_from
  best_from-IsWider bm ids c none k = record { keyed = k; held = λ id h. h }
  best_from-IsWider bm ids c (some sorted) k =
      choose-IsWider bm (map (λ x. x.id) sorted) c
        (first_such (passes c) (filter_list all_brokers_fn sorted)) k

module _ {F : Type 0} ⦃fl : Float F⦄ (draw : Draw) where
  best_candidate_total :
      (bm : BrokerMap F) (ids : List ℤ) (c : Constraints F) (method : String) (seed : ℤ)
      → AreHeld bm ids
      → (s : Selection F) × (best_candidate draw bm ids c method seed ≡ some s)
  unfolding best_candidate
  best_candidate_total bm ids c method seed h =
      let best = λ (b : BrokerList F). best_from bm ids c (sort_by_method draw method seed b) in
      >>=_total (deref bm ids) (λ b. some (best b)) (deref_total bm ids h) (λ b e. (best b, refl))

  best_candidate-IsWider :
      (bm : BrokerMap F) (ids : List ℤ) (c : Constraints F) (method : String) (seed : ℤ)
      (s : Selection F)
      → IsKeyed bm
      → best_candidate draw bm ids c method seed ≡ some s
      → IsWider bm s.brokers
  unfolding best_candidate
  best_candidate-IsWider bm ids c method seed s k e =
      let best = λ (b : BrokerList F). best_from bm ids c (sort_by_method draw method seed b) in
      let (b, found, e') = >>=-eq-some (deref bm ids) (λ b. some (best b)) e in
      let same : best b ≡ s = cc in
      subst (λ (s : Selection F). IsWider bm s.brokers) same
        (best_from-IsWider bm ids c (sort_by_method draw method seed b) k)

module _ {F : Type 0} ⦃fl : Float F⦄ (params : PlanParams F) (draw : Draw) where
  relocation_constraints_total :
      (bm : BrokerMap F) (plan : RelocationPlan) (p : Partition)
      → IsCovered bm plan p
      → (c : Constraints F) × (relocation_constraints params bm plan p ≡ some c)
  unfolding relocation_constraints
  relocation_constraints_total bm plan p h =
      let others = filter (λ id. not (id == params.source_id)) p.replicas in
      let receiving = map (λ (ids : ℤ × ℤ). ids.1) (or_nil (is_planned plan p)) in
      let all = λ (held more : BrokerList F).
        take_all (map zero_broker (keys params.offload_targets_map))
          (merged_constraints (held ++ more)) in
      >>=_total (deref bm others) (λ held. deref bm receiving >>= λ more. some (all held more))
        (deref_total bm others (
          All-filter (λ id. has id bm ≡ true) (λ id. not (id == params.source_id)) p.replicas
            h.replicas))
        (λ held e.
          >>=_total (deref bm receiving) (λ more. some (all held more))
            (deref_total bm receiving h.receiving) (λ more e'. (all held more, refl)))

  -- A destination is looked for without a panic, and no broker is lost.
  find_destination_total :
      (l : String) (st : PlanState F) (p : Partition)
      → IsKeyed st.brokers
      → IsCovered st.brokers st.plan p
      → (d : Destination params) × (find_destination params draw l st p ≡ some d)
        × IsWider st.brokers d.brokers
  unfolding find_destination
  find_destination_total l st p k h =
      let by_storage = sort_by_storage (values st.brokers) in
      let ids = map (λ (b : Broker F). b.id) by_storage in
      let held : AreHeld st.brokers ids = All-ids st.brokers by_storage (
        All-sort (λ b. has b.id st.brokers ≡ true) less_by_storage (values st.brokers)
          (values_held st.brokers k)) in
      let (c, e) = relocation_constraints_total st.brokers st.plan p h in
      let (s, e') = best_candidate_total draw st.brokers ids c "storage" (pos 0) held in
      let choice = λ (c : Constraints F). best_candidate draw st.brokers ids c "storage" (pos 0) in
      let give = λ (s : Selection F). some (destination_of params s) in
      if_some params.locality_scoped
        (record { chosen = same_locality params l by_storage; brokers = st.brokers })
        (relocation_constraints params st.brokers st.plan p >>= λ c. choice c >>= give)
        (λ d. IsWider st.brokers d.brokers) (record { keyed = k; held = λ id h. h })
        (
          destination_of params s,
          ap (λ o. o >>= λ c. choice c >>= give) e ∙ ap (λ o. o >>= give) e',
          best_candidate-IsWider draw st.brokers ids c "storage" (pos 0) s k e',
        )

  try_destination_keeps :
      (mean_free : F) (p : Partition) (st : PlanState F) (source : Broker F)
      (dest : Option (Broker F))
      → (try_destination params mean_free p st source dest).0 ≡ false
      → (try_destination params mean_free p st source dest).1 ≡ st
  unfolding try_destination
  try_destination_keeps mean_free p st source none h = refl
  try_destination_keeps mean_free p st source (some dest) h =
      let size = size_or_zero params.partition_meta p in
      let source_free = fl.add source.storage_free size in
      let dest_free = fl.sub dest.storage_free size in
      if_keeps (is_tolerated params mean_free source_free dest_free)
        (schedule params st p dest.id source_free dest_free) st h

  try_partition_total :
      (mean_free : F) (l : String) (p : Partition) (st : PlanState F)
      → IsKeyed st.brokers
      → has params.source_id st.brokers ≡ true
      → IsCovered st.brokers st.plan p
      → (r : Bool × PlanState F) × (try_partition params draw mean_free l p st ≡ some r)
        × (r.0 ≡ false → IsWider st.brokers r.1.brokers × (r.1.plan ≡ st.plan))
  unfolding try_partition
  try_partition_total mean_free l p st k here h =
      let (d, e, wider) = find_destination_total l st p k h in
      let (source, e') =
        lookup_total d.brokers params.source_id (wider.held params.source_id here) in
      let st' : PlanState F = record st { brokers = d.brokers } in
      let try =
        λ (source : Broker F). some (try_destination params mean_free p st' source d.chosen) in
      let keeps = try_destination_keeps mean_free p st' source d.chosen in
      (
        try_destination params mean_free p st' source d.chosen,
        ap
              (λ o. o >>= λ (d : Destination params).
                lookup params.source_id d.brokers >>= λ source. some (
                  try_destination params mean_free p (record st { brokers = d.brokers }) source
                    d.chosen))
              e
            ∙ ap (λ o. o >>= try) e',
        λ n.
            let same = keeps n in
            (
              subst (λ (s : PlanState F). IsWider st.brokers s.brokers) (sym same) wider,
              ap (λ (s : PlanState F). s.plan) same,
            ),
      )

  plan_partitions_total :
      (mean_free : F) (l : String) (ps : List Partition) (bm : BrokerMap F) (st : PlanState F)
      → has params.source_id bm ≡ true
      → All (IsCovered bm st.plan) ps
      → IsWider bm st.brokers
      → (r : ℕ × PlanState F) × (plan_partitions params draw mean_free l ps st ≡ some r)
  unfolding plan_partitions
  plan_partitions_total mean_free l [] bm st here h wider = ((0, st), refl)
  plan_partitions_total mean_free l (p ∷ ps) bm st here (h, hs) wider =
      let covered : IsCovered st.brokers st.plan p = record {
        replicas = All_map wider.held p.replicas h.replicas;
        receiving =
            All_map wider.held (map (λ (ids : ℤ × ℤ). ids.1) (or_nil (is_planned st.plan p)))
              h.receiving;
      } in
      let (r, e, keeps) =
        try_partition_total mean_free l p st wider.keyed (wider.held params.source_id here)
          covered in
      let next : Bool → PlanState F → Option (ℕ × PlanState F) =
        λ b s. if b then some (1, s) else plan_partitions params draw mean_free l ps s in
      let (out, e') : (x : ℕ × PlanState F) × (next r.0 r.1 ≡ some x) = elim (Bool-cases r.0) [
        | inl y ↦ ((1, r.1), ap (λ b. next b r.1) y)
        | inr n ↦
            let (w, same) = keeps n in
            let (x, ex) =
              plan_partitions_total mean_free l ps bm r.1 here
                (subst (λ plan. All (IsCovered bm plan) ps) (sym same) hs)
                (record { keyed = w.keyed; held = λ id g. w.held id (wider.held id g) }) in
            (x, ap (λ b. next b r.1) n ∙ ex)
      ] in
      (out, ap (λ o. o >>= λ (r : Bool × PlanState F). next r.0 r.1) e ∙ e')

  -- planRelocationsForBroker returns when the broker map holds each broker at its own ID and holds the
  -- source, the replicas of the source's top partitions, and the destinations of the relocations that
  -- are planned for these partitions.
  pub plan_relocations_for_broker_total :
      (st : PlanState F)
      → IsKeyed st.brokers
      → has params.source_id st.brokers ≡ true
      → All (IsCovered st.brokers st.plan) (top_partitions params st.mappings)
      → (r : ℕ × PlanState F) × (plan_relocations_for_broker params draw st ≡ some r)
  unfolding plan_relocations_for_broker
  plan_relocations_for_broker_total st k here h =
      >>=_total (lookup params.source_id st.brokers)
        (λ s.
          plan_partitions params draw (mean st.brokers) s.locality
            (top_partitions params st.mappings) st)
        (lookup_total st.brokers params.source_id here)
        (λ s e.
          plan_partitions_total (mean st.brokers) s.locality (top_partitions params st.mappings)
            st.brokers st here h (record { keyed = k; held = λ id g. g }))
