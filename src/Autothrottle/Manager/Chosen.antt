-- ===== src/Autothrottle/Manager/Chosen.antt =====
-- internal/autothrottle/replication/throttles_update.go: the rate that each broker of a reassignment
-- gets.
use mathlib.Core.Path.{subst}
use kafka_kit.Base.{
  ℕ, suc, ℤ, pos, int_key, true, false, not, List, [], ◌∷◌, Option, none, some, ◌≡◌, refl, sym, ap,
  ◌∙◌, ◌==◌, beq_iff, if◌then◌else◌, >>=-eq-some, ltb, arith, Bool-cases, Option-cases, inl, inr,
}
use kafka_kit.Base.GoMap.{lookup, insert, contains, lookup-insert}
use kafka_kit.Base.Float.{Float}
use kafka_kit.Autothrottle.Types.{
  FloatMath, BrokerLoad, BrokerMetrics, Limits, ThrottleByRole, CapacityByBroker,
  ReassigningBrokers, BrokerOverrides,
}
use kafka_kit.Autothrottle.Limits.{limit}
use kafka_kit.Autothrottle.Capacities.{
  rates_of, set_all_rates_with_default, broker_rates, capacities_from,
  broker_replication_capacities,
}
use kafka_kit.Autothrottle.Capacities.Rates.{rates_of-insert, rates_of-store_both, rates_of-set_all}
use kafka_kit.Autothrottle.Manager.{
  Manager, Metrics, Choice, retained, failed, chosen, in_failure_mode, metrics_or_nil, base_choice,
  participant, merge_override, merge_overrides, with_broker_overrides, with_failures, choose_rates,
}

-- The rate of a broker's override
unfoldable pub override_of : ℤ → BrokerOverrides → ℤ
override_of id overrides = elim (lookup id overrides) [ some o ↦ o.rate | none ↦ pos 0 ]

module _ {F : Type 0} ⦃f : Float F⦄ ⦃m : FloatMath F⦄ where
  override_of-merge :
      (id k : ℤ) (r : BrokerOverrides × CapacityByBroker F)
      → override_of k (merge_override id r).0 ≡ override_of k r.0
  unfolding merge_override override_of
  override_of-merge id k (overrides, capacities) = elim (Option-cases (lookup id overrides)) [
    | inl e ↦ rw (merge_override, e) refl
    | inr (o, e) ↦
        rw (merge_override, e)
          (ground (arith, lookup-insert id k (participant o) overrides, beq_iff id k))
  ]

  rates_of-merge :
      (id k : ℤ) (r : BrokerOverrides × CapacityByBroker F)
      → rates_of k (merge_override id r).1 ≡ (
          if id == k
          then (let rate = override_of k r.0 in
              if rate == pos 0
              then rates_of k r.1
              else (some (m.of_int rate), some (m.of_int rate)))
          else rates_of k r.1)
  unfolding merge_override override_of
  rates_of-merge id k (overrides, capacities) = elim (Option-cases (lookup id overrides)) [
    | inl e ↦ rw (merge_override, e) (ground (arith, beq_iff id k))
    | inr (o, e) ↦ elim (Bool-cases (o.rate == pos 0)) [
      | inl z ↦ rw (merge_override, e, z) (ground (arith, beq_iff id k))
      | inr z ↦
          let stored = rates_of-store_both id k (m.of_int o.rate) capacities in
          rw (merge_override, e, z) (ground (arith, beq_iff id k, stored))
    ]
  ]

  rates_of-merge_all :
      (ids : List ℤ) (k : ℤ) (r : BrokerOverrides × CapacityByBroker F)
      → rates_of k (merge_overrides ids r).1 ≡ (
          if contains k ids
          then (let rate = override_of k r.0 in
              if rate == pos 0
              then rates_of k r.1
              else (some (m.of_int rate), some (m.of_int rate)))
          else rates_of k r.1)
  unfolding merge_overrides contains
  rates_of-merge_all [] k r = refl
  rates_of-merge_all (id ∷ ids) k r =
      let rest = rates_of-merge_all ids k (merge_override id r) in
      let same = override_of-merge id k r in let one = rates_of-merge id k r in ground arith

  -- One rate in both roles
  abbrev both : F → ThrottleByRole F
  both r = (some r, some r)

  -- The rates of a broker before its own override: the global override in both roles, the minimum
  -- in both roles when metrics are missing, or the computed ones.
  abbrev pub IsBaseRate : Metrics F → Manager F → ℤ → ThrottleByRole F → Type 0
  IsBaseRate metrics tm id rates =
      if not (tm.override_rate == pos 0)
      then (rates ≡ both (m.of_int tm.override_rate))
      else if in_failure_mode metrics tm.reassigning_brokers.all
      then (rates ≡ both (limit "minimum" tm.limits))
      else ((b : BrokerLoad F) × (lookup id (metrics_or_nil metrics) ≡ some b)
          × (broker_rates tm.limits tm.previously_set_throttles tm.reassigning_brokers b id
              ≡ some rates))

  -- A broker's own override, unless it is 0, before its other rates
  abbrev pub overridden : ℤ → ThrottleByRole F → ThrottleByRole F
  overridden own rates = if own == pos 0 then rates else both (m.of_int own)

  abbrev pub rates_in : Choice F → Option (CapacityByBroker F)
  rates_in (chosen capacities) = some capacities
  rates_in retained = none
  rates_in failed = none

  merged_rates :
      (tm : Manager F) (n : ℕ) (id : ℤ) (base out : CapacityByBroker F)
      → contains id tm.reassigning_brokers.all ≡ true
      → rates_in (with_broker_overrides (chosen base, with_failures n tm)).0 ≡ some out
      → rates_of id out ≡ overridden (override_of id tm.broker_overrides) (rates_of id base)
  unfolding with_broker_overrides
  merged_rates tm n id base out h e =
      let all = tm.reassigning_brokers.all in
      let r = merge_overrides all (tm.broker_overrides, base) in
      let same : r.1 ≡ out = cc in
      let rates = rates_of-merge_all all id (tm.broker_overrides, base) in
      subst
        (λ (c : CapacityByBroker F).
          rates_of id c ≡ overridden (override_of id tm.broker_overrides) (rates_of id base))
        same (rw h at rates)

  opened :
      (l : Limits F) (before : CapacityByBroker F) (re : ReassigningBrokers) (bm : BrokerMetrics F)
      (k : ℤ) (ids : List ℤ) (done out : CapacityByBroker F)
      → capacities_from l before re bm (k ∷ ids) done ≡ some out
      → (b : BrokerLoad F) × (rates : ThrottleByRole F) × (lookup k bm ≡ some b)
        × (broker_rates l before re b k ≡ some rates)
        × (capacities_from l before re bm ids (insert k rates done) ≡ some out)
  unfolding capacities_from
  opened l before re bm k ids done out e =
      let (b, found, e1) = >>=-eq-some (lookup k bm) _ e in
      let (rates, ok_rates, e2) = >>=-eq-some (broker_rates l before re b k) _ e1 in
      (b, rates, found, ok_rates, e2)

  computed_out :
      (l : Limits F) (before : CapacityByBroker F) (re : ReassigningBrokers) (bm : BrokerMetrics F)
      (ids : List ℤ) (done out : CapacityByBroker F) (id : ℤ)
      → capacities_from l before re bm ids done ≡ some out
      → contains id ids ≡ false
      → rates_of id out ≡ rates_of id done
  unfolding capacities_from contains
  computed_out l before re bm [] done out id e h = let same : done ≡ out = cc in cc
  computed_out l before re bm (k ∷ ids) done out id e h =
      let (b, rates, found, ok_rates, rest) = opened l before re bm k ids done out e in
      computed_out l before re bm ids (insert k rates done) out id rest (ground arith)
      ∙ ground (arith, rates_of-insert k id rates done)

  computed_in :
      (l : Limits F) (before : CapacityByBroker F) (re : ReassigningBrokers) (bm : BrokerMetrics F)
      (ids : List ℤ) (done out : CapacityByBroker F) (id : ℤ)
      → capacities_from l before re bm ids done ≡ some out
      → contains id ids ≡ true
      → (b : BrokerLoad F) × (lookup id bm ≡ some b)
        × (broker_rates l before re b id ≡ some (rates_of id out))
  unfolding contains
  computed_in l before re bm [] done out id e h = cc
  computed_in l before re bm (k ∷ ids) done out id e h =
      let (b, rates, found, ok_rates, rest) = opened l before re bm k ids done out e in
      elim (Bool-cases (contains id ids)) [
        | inl again ↦ computed_in l before re bm ids (insert k rates done) out id rest again
        | inr last ↦
            let same : (k == id) ≡ true = ground arith in
            let path : k ≡ id = (beq_iff k id).0 same in
            let kept = computed_out l before re bm ids (insert k rates done) out id rest last in
            let mine : rates_of id out ≡ rates =
              kept ∙ (rates_of-insert k id rates done ∙ rw same refl) in
            (
              b,
              subst (λ (i : ℤ). lookup i bm ≡ some b) path found,
              subst (λ (i : ℤ). broker_rates l before re b i ≡ some rates) path ok_rates
                  ∙ ap some (sym mine),
            )
      ]

  computed_from :
      (l : Limits F) (before : CapacityByBroker F) (re : ReassigningBrokers) (bm : BrokerMetrics F)
      (out : CapacityByBroker F)
      → broker_replication_capacities l before re bm ≡ some out
      → capacities_from l before re bm re.all [] ≡ some out
  unfolding broker_replication_capacities
  computed_from l before re bm out e = e

  -- When UpdateReplicationThrottle has rates to apply, each broker of the reassignment gets its own
  -- override, unless that is 0, and else its base rate.
  pub choose_rates-chosen :
      (metrics : Metrics F) (tm : Manager F) (out : CapacityByBroker F) (id : ℤ)
      → contains id tm.reassigning_brokers.all ≡ true
      → rates_in (choose_rates metrics tm).0 ≡ some out
      → (rates : ThrottleByRole F) × IsBaseRate metrics tm id rates
        × (rates_of id out ≡ overridden (override_of id tm.broker_overrides) rates)
  unfolding choose_rates base_choice with_broker_overrides
  choose_rates-chosen metrics tm out id h e =
      let all = tm.reassigning_brokers.all in
      elim (Bool-cases (tm.override_rate == pos 0)) [
        | inr set ↦
            let base = set_all_rates_with_default all (m.of_int tm.override_rate) [] in
            let first : rates_of id base ≡ both (m.of_int tm.override_rate) =
              rates_of-set_all all id (m.of_int tm.override_rate) [] ∙ rw h refl in
            (
              rates_of id base,
              rw set first,
              merged_rates tm 0 id base out h (rw (choose_rates, base_choice, set) at e),
            )
        | inl unset ↦ elim (Bool-cases (in_failure_mode metrics all)) [
          | inl missing ↦ elim (Bool-cases (ltb tm.failure_threshold (suc tm.failures))) [
            | inl over ↦
                let base = set_all_rates_with_default all (limit "minimum" tm.limits) [] in
                let first : rates_of id base ≡ both (limit "minimum" tm.limits) =
                  rates_of-set_all all id (limit "minimum" tm.limits) [] ∙ rw h refl in
                (
                  rates_of id base,
                  rw (unset, missing) first,
                  merged_rates tm (suc tm.failures) id base out h
                      (rw (choose_rates, base_choice, unset, missing, over) at e),
                )
            | inr under ↦
                let nothing : none ≡ some out =
                  rw (choose_rates, base_choice, unset, missing, under) at e in
                cc
          ]
          | inr complete ↦
              let computed =
                broker_replication_capacities tm.limits tm.previously_set_throttles
                  tm.reassigning_brokers (metrics_or_nil metrics) in
              elim (Option-cases computed) [
                | inl none_computed ↦
                    let nothing : none ≡ some out =
                      rw (choose_rates, base_choice, unset, complete, none_computed) at e in
                    cc
                | inr (base, some_computed) ↦ (
                  rates_of id base,
                  rw (unset, complete)
                      (computed_in tm.limits tm.previously_set_throttles tm.reassigning_brokers
                        (metrics_or_nil metrics) all [] base id
                        (computed_from tm.limits tm.previously_set_throttles tm.reassigning_brokers
                          (metrics_or_nil metrics) base some_computed)
                        h),
                  merged_rates tm 0 id base out h
                      (rw (choose_rates, base_choice, unset, complete, some_computed) at e),
                )
              ]
        ]
      ]
