-- ===== src/Planner/Bundle/Exhausted.antt =====
-- The passes over the offload targets end: a relocation takes a partition out of the mappings, and a
-- target without one counts as exhausted.
use kafka_kit.Base.{
  ℕ, zero, suc, ◌+◌, ◌*◌, ◌≤◌, ℤ, true, ◌≡◌, ◌⊎◌, some, none, List, [], ◌∷◌, length, take, eqb, ltb,
  int_key, if◌then◌else◌, All, All-get_elem?, get_elem?, Bool-cases, Option-cases, inl, inr, arith,
  refl, subst, sym, ap,
}
use kafka_kit.Base.Outcome.{Run, panics, returns, and_then}
use kafka_kit.Base.GoMap.{lookup}
use kafka_kit.Base.Sort.{All-sort}
use kafka_kit.Base.Float.{Float}
use kafka_kit.Base.Shuffle.{Draw}
use kafka_kit.Mapper.Types.{BrokerMap, Partition, PartitionMap}
use kafka_kit.Mapper.Partitions.{size_or_zero, sort_by_size, less_by_size}
use kafka_kit.Mapper.Partitions.Compare.{copy}
use kafka_kit.Mapper.Mappings.{Mappings, Topics, mappings, largest_partitions, all_held}
use kafka_kit.Mapper.Mappings.Counted.{
  AreTopical, IsTopical, IsHeldIn, mapped_count, count-remove, remove-AreTopical,
  mappings-AreTopical, all_held-AreHeldIn,
}
use kafka_kit.Base.GoMap.{All-lookup}
use kafka_kit.Planner.{
  PlanParams, PlanState, above_threshold, top_partitions, plan_relocations_for_broker,
}
use kafka_kit.Planner.Removed.{plan_relocations_for_broker-Counted}
use kafka_kit.Planner.Bundle.{target_pass, exhaust, compute_bundle, bundle_of, offload_map}

All-take {ℓ κ} : {A : Type ℓ} (P : A → Type κ) (n : ℕ) (xs : List A) → All P xs → All P (take n xs)
All-take P zero xs h = tt
All-take P (suc n) [] h = tt
All-take P (suc n) (x ∷ xs) (h, hs) = (h, All-take P n xs hs)

none_listed : (n : ℕ) (p : Partition) → ¬ (get_elem? [] n ≡ some p)
none_listed n p e = cc

count_zero : (n k : ℕ) → n ≡ 0 → (if eqb n 0 then suc k else k) ≡ suc k
count_zero n k e = ground arith

count_one : (n k : ℕ) → n ≡ 1 → (if eqb n 0 then suc k else k) ≡ k
count_one n k e = ground arith

module _ {F : Type 0} ⦃fl : Float F⦄ (params : PlanParams F) where
  All-above_threshold :
      (P : Partition → Type 0) (ps : List Partition) → All P ps → All P (above_threshold params ps)
  unfolding above_threshold
  All-above_threshold P [] h = tt
  All-above_threshold P (p ∷ ps) (h, hs) =
      let test =
        fl.lt (size_or_zero params.partition_meta p)
          (fl.of_ℕ (params.partition_size_threshold * 1048576)) in
      elim (Bool-cases test) [ inl e ↦ rw e tt | inr e ↦ rw e (h, All-above_threshold P ps hs) ]

  top_none : (m : Mappings) → lookup params.source_id m ≡ none → top_partitions params m ≡ []
  unfolding top_partitions largest_partitions
  top_none m e = rw (e, top_partitions, largest_partitions) refl

  top_some :
      (m : Mappings) (t : Topics)
      → lookup params.source_id m ≡ some t
      → top_partitions params m
        ≡ above_threshold params
            (take params.top_partitions_limit (sort_by_size params.partition_meta (all_held t)))
  unfolding top_partitions largest_partitions
  top_some m t e = rw (e, top_partitions, largest_partitions) refl

  -- A top partition of the source is held in the source's mappings.
  top_held :
      (m : Mappings) (place : ℕ) (p : Partition)
      → AreTopical m
      → get_elem? (top_partitions params m) place ≡ some p
      → (t : Topics) × (lookup params.source_id m ≡ some t) × IsHeldIn t p
  unfolding sort_by_size
  top_held m place p h listed = elim (Option-cases (lookup params.source_id m)) [
    | inl e ↦
        absurd (none_listed place p (subst (λ l. get_elem? l place ≡ some p) (top_none m e) listed))
    | inr (t, e) ↦
        let ht : IsTopical t = All-lookup (λ x. IsTopical x.1) params.source_id t m h e in
        let sorted = sort_by_size params.partition_meta (all_held t) in
        (
          t,
          e,
          All-get_elem? (IsHeldIn t) (top_partitions params m) place p
              (subst (All (IsHeldIn t)) (sym (top_some m t e)) (
                All-above_threshold (IsHeldIn t) (take params.top_partitions_limit sorted) (
                  All-take (IsHeldIn t) params.top_partitions_limit sorted (
                    All-sort (IsHeldIn t) (less_by_size params.partition_meta) (all_held t)
                      (all_held-AreHeldIn t ht)))))
              listed,
        )
  ]

  -- One call at one source: fewer partitions are mapped, or one more target is exhausted.
  plan_counted :
      (draw : Draw) (k : ℕ) (st : PlanState F) (r : ℕ × PlanState F)
      → AreTopical st.mappings
      → plan_relocations_for_broker params draw st ≡ some r
      → AreTopical r.1.mappings
        × (suc (mapped_count r.1.mappings + k)
            ≤ mapped_count st.mappings + (if eqb r.0 0 then suc k else k))
  plan_counted draw k st r h e = elim (plan_relocations_for_broker-Counted params draw st r e) [
    | inl (z, u) ↦
        (subst AreTopical (sym u) h, omega (arith, ap mapped_count u, count_zero r.0 k z))
    | inr (o, s) ↦
        let (t, found, is_held) = top_held st.mappings s.place s.partition h s.listed in
        let less = count-remove params.source_id s.partition st.mappings t found is_held in
        (
          subst AreTopical (sym s.mappings)
              (remove-AreTopical params.source_id s.partition st.mappings h),
          omega (arith, ap mapped_count s.mappings, count_one r.0 k o, less),
        )
  ]

-- A run panics or returns.
abbrev pub RunEnd {ℓ} : {A : Type ℓ} → Run A → Type ℓ
RunEnd {A} run = (run ≡ panics) ⊎ ((a : A) × (run ≡ returns a))

passes_left :
    (left len k k' n mapped : ℕ)
    → ltb k len ≡ true
    → len + (left + k) ≤ mapped + k'
    → mapped + len ≤ suc n + k
    → left + len ≤ n + k'
passes_left left len k k' n mapped e c le = ground arith

module _ {F : Type 0} ⦃fl : Float F⦄ (params : PlanParams F) (draw : Draw) where
  -- A pass panics, or it returns and every target has cost a mapped partition or been exhausted.
  abbrev PassEnd : List ℤ → ℕ → PlanState F → Run (ℕ × PlanState F) → Type 0
  PassEnd ids k st run =
      (run ≡ panics)
      ⊎ ((r : ℕ × PlanState F) × (run ≡ returns r)
          × AreTopical r.1.mappings
          × (length ids + (mapped_count r.1.mappings + k) ≤ mapped_count st.mappings + r.0))

  target_pass-PassEnd :
      (ids : List ℤ) (k : ℕ) (st : PlanState F)
      → AreTopical st.mappings
      → PassEnd ids k st (target_pass params draw ids k st)
  unfolding target_pass
  target_pass-PassEnd [] k st h = inr ((k, st), refl, h, omega arith)
  target_pass-PassEnd (id ∷ ids) k st h =
      let p = record params { source_id = id } in
      elim (Option-cases (plan_relocations_for_broker p draw st)) [
        | inl e ↦ inl (rw (e, target_pass) refl)
        | inr (r, e) ↦
            let (h', c) = plan_counted p draw k st r h e in
            let k' = if eqb r.0 0 then suc k else k in
            elim (target_pass-PassEnd ids k' r.1 h') [
              | inl e' ↦ inl (rw (e, target_pass) e')
              | inr (r', e', t, c') ↦ inr (r', rw (e, target_pass) e', t, omega (arith, c, c'))
            ]
      ]

  exhaust-RunEnd :
      (n : ℕ) (ids : List ℤ) (k : ℕ) (st : PlanState F)
      → AreTopical st.mappings
      → mapped_count st.mappings + length ids ≤ n + k
      → RunEnd (exhaust params draw n ids k st)
  unfolding exhaust and_then
  exhaust-RunEnd zero ids k st h le = elim (Bool-cases (ltb k (length ids))) [
    | inl e ↦ absurd (ground arith)
    | inr e ↦ rw e (inr (st, refl))
  ]
  exhaust-RunEnd (suc n) ids k st h le = elim (Bool-cases (ltb k (length ids))) [
    | inl e ↦ rw e (elim (target_pass-PassEnd ids k st h) [
      | inl p ↦ inl (rw p refl)
      | inr (r, p, t, c) ↦ rw p (
          exhaust-RunEnd n ids r.0 r.1 t (
            passes_left (mapped_count r.1.mappings) (length ids) k r.0 n (mapped_count st.mappings)
              e c le))
    ])
    | inr e ↦ rw e (inr (st, refl))
  ]

-- The computation of a bundle panics, at a broker that the broker map does not hold, or it returns
-- one: its passes over the offload targets end, within as many passes as there are replicas in the
-- mappings of the partition map and offload targets together.
pub compute_bundle-RunEnd :
    {F : Type 0} ⦃fl : Float F⦄ (n : ℕ) (params : PlanParams F) (draw : Draw) (targets : List ℤ)
    (pm : PartitionMap) (bm : BrokerMap F)
    → mapped_count (mappings pm.partitions) + length targets ≤ n
    → RunEnd (compute_bundle n params draw targets pm bm)
unfolding compute_bundle and_then
compute_bundle-RunEnd {F} n params draw targets pm bm h =
    let p = record params { offload_targets_map = offload_map targets [] } in
    let st : PlanState F = record {
      relos = [];
      mappings = mappings pm.partitions;
      brokers = bm;
      plan = [];
    } in
    let start =
      exhaust-RunEnd p draw n targets 0 st (mappings-AreTopical pm.partitions) (omega (arith, h)) in
    elim start [
      | inl e ↦ inl (rw (e, compute_bundle) refl)
      | inr (st', e) ↦ inr (bundle_of p (copy pm) st', rw (e, compute_bundle) refl)
    ]
