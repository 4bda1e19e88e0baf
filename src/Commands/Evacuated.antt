-- ===== src/Commands/Evacuated.antt =====
-- What evacuateLeadership makes of the partitions.
use kafka_kit.Base.{
  ℕ, suc, ◌+◌, ℤ, true, false, ◌≡◌, ◌≢◌, ◌⊎◌, inl, inr, some, List, [], ◌∷◌, ◌++◌, length, set,
  String, int_key, string_key, arith, refl, ap, subst, sym, ◌∙◌, Bool-cases, All, Pairs, nil, cons,
}
use kafka_kit.Base.Outcome.{Run, exits, returns, and_then}
use kafka_kit.Base.GoMap.{contains}
use kafka_kit.Mapper.Types.{Partition, PartitionMap}
use kafka_kit.Mapper.Partitions.Compare.{copy}
use kafka_kit.Mapper.Rebuild.Filling.{distinct}
use kafka_kit.Commands.{
  last_replica, find_leader, swap_leader, evacuate_replicas, evacuate_partition,
  evacuate_partitions, evacuate_leadership,
}
use kafka_kit.Commands.Leader.{AreEvacuated, find_leader-Found, set_at}

-- What evacuateLeadership makes of one partition.
pub data Evacuation (evac : List ℤ) (evac_topics : List String) (p : Partition)
    : Run Partition → Type 0 where
  other_topic : contains p.topic evac_topics ≡ false → Evacuation evac evac_topics p (returns p)
  good_leader :
      {leader : ℤ} {rs : List ℤ}
      → p.replicas ≡ leader ∷ rs
      → contains leader evac ≡ false
      → Evacuation evac evac_topics p (returns p)
  -- The first replica on a broker that is not evacuated takes the leader's place.
  swapped :
      (leader : ℤ) (between : List ℤ) (new : ℤ) (after : List ℤ)
      → p.replicas ≡ leader ∷ between ++ new ∷ after
      → AreEvacuated evac (leader ∷ between)
      → contains new evac ≡ false
      → Evacuation evac evac_topics p
          (returns (record p { replicas = new ∷ between ++ leader ∷ after }))
  refused :
      contains p.topic evac_topics ≡ true
      → AreEvacuated evac p.replicas
      → Evacuation evac evac_topics p exits

swap_at :
    (p : Partition) (leader : ℤ) (between : List ℤ) (new : ℤ) (after : List ℤ)
    → p.replicas ≡ leader ∷ between ++ new ∷ after
    → swap_leader leader p (some (suc (length between), new))
      ≡ record p { replicas = new ∷ between ++ leader ∷ after }
unfolding swap_leader
swap_at p leader between new after e =
    ap (λ l. record p { replicas = set (set l (suc (length between)) leader) 0 new }) e
    ∙ ap (λ l. record p { replicas = new ∷ l }) (set_at between new leader after)

zero_add : (n : ℕ) → 0 + suc n ≡ suc n
zero_add n = omega arith

module _ (evac : List ℤ) (evac_topics : List String) (p : Partition) where
  evacuate_good :
      (leader : ℤ) (rs : List ℤ)
      → contains leader evac ≡ false
      → evacuate_replicas evac p (leader ∷ rs) ≡ returns p
  unfolding evacuate_replicas
  evacuate_good leader rs e = rw e refl

  evacuate_bad :
      (leader : ℤ) (rs : List ℤ)
      → contains leader evac ≡ true
      → evacuate_replicas evac p (leader ∷ rs)
        ≡ and_then
            (find_leader evac (last_replica leader rs) 0 (leader ∷ rs))
            (λ found. returns (swap_leader leader p found))
  unfolding evacuate_replicas
  evacuate_bad leader rs e = rw e refl

  swapped_first :
      (leader : ℤ) (rs before : List ℤ) (new : ℤ) (after : List ℤ)
      → p.replicas ≡ leader ∷ rs
      → contains leader evac ≡ true
      → leader ∷ rs ≡ before ++ new ∷ after
      → AreEvacuated evac before
      → contains new evac ≡ false
      → Evacuation evac evac_topics p
          (returns (swap_leader leader p (some (0 + length before, new))))
  swapped_first leader rs [] new after e bad l all good =
      let same : leader ≡ new = cc in absurd (cc)
  swapped_first leader rs (b ∷ between) new after e bad l all good =
      let same : leader ≡ b = cc in
      let split : p.replicas ≡ leader ∷ between ++ new ∷ after =
        e ∙ l ∙ ap (λ x. x ∷ between ++ new ∷ after) (sym same) in
      subst (Evacuation evac evac_topics p)
        (sym (
          ap (λ n. returns (swap_leader leader p (some (n, new)))) (zero_add (length between))
          ∙ ap returns (swap_at p leader between new after split)))
        (swapped leader between new after split (bad, all.1) good)

  evacuate_replicas-Evacuation :
      (rs : List ℤ)
      → p.replicas ≡ rs
      → rs ≢ []
      → distinct rs ≡ true
      → contains p.topic evac_topics ≡ true
      → Evacuation evac evac_topics p (evacuate_replicas evac p rs)
  unfolding and_then
  evacuate_replicas-Evacuation [] e some_rs h t = absurd (some_rs refl)
  evacuate_replicas-Evacuation (leader ∷ rs) e some_rs h t =
      elim (Bool-cases (contains leader evac)) [
        | inr good ↦
            subst (Evacuation evac evac_topics p) (sym (evacuate_good leader rs good))
              (good_leader e good)
        | inl bad ↦
            let step = evacuate_bad leader rs bad in
            elim (find_leader-Found evac 0 leader rs h) [
              | inl (o, all) ↦
                  subst (Evacuation evac evac_topics p) (sym (step ∙ rw (o, and_then) refl))
                    (refused t (subst (AreEvacuated evac) (sym e) all))
              | inr (before, new, after, l, all, good, o) ↦
                  subst (Evacuation evac evac_topics p) (sym (step ∙ rw (o, and_then) refl))
                    (swapped_first leader rs before new after e bad l all good)
            ]
      ]

  evacuate_partition-Evacuation :
      p.replicas ≢ []
      → distinct p.replicas ≡ true
      → Evacuation evac evac_topics p (evacuate_partition evac evac_topics p)
  unfolding evacuate_partition evacuate_replicas
  evacuate_partition-Evacuation some_rs h = elim (Bool-cases (contains p.topic evac_topics)) [
    | inl t ↦
        subst (Evacuation evac evac_topics p) (rw (t, evacuate_partition) refl)
          (evacuate_replicas-Evacuation p.replicas refl some_rs h t)
    | inr t ↦
        subst (Evacuation evac evac_topics p) (rw (t, evacuate_partition) refl) (other_topic t)
  ]

module _ (evac : List ℤ) (evac_topics : List String) where
  -- One partition is refused, or it has an outcome.
  evacuation-cases :
      (p : Partition) (run : Run Partition)
      → Evacuation evac evac_topics p run
      → ((run ≡ exits) × Evacuation evac evac_topics p exits)
        ⊎ ((q : Partition) × (run ≡ returns q) × Evacuation evac evac_topics p (returns q))
  evacuation-cases p _ (other_topic t) = inr (p, refl, other_topic t)
  evacuation-cases p _ (good_leader e g) = inr (p, refl, good_leader e g)
  evacuation-cases p _ (swapped leader between new after e all good) = inr (
    record p { replicas = new ∷ between ++ leader ∷ after },
    refl,
    swapped leader between new after e all good,
  )
  evacuation-cases p _ (refused t all) = inl (refl, refused t all)

  -- A partition of the list is refused.
  pub data SomeRefused : List Partition → Type 0 where
    here :
        {p : Partition} {ps : List Partition}
        → Evacuation evac evac_topics p exits
        → SomeRefused (p ∷ ps)
    later : {p : Partition} {ps : List Partition} → SomeRefused ps → SomeRefused (p ∷ ps)

  abbrev Outcome : List Partition → Run (List Partition) → Type 0
  Outcome ps run =
      ((run ≡ exits) × SomeRefused ps)
      ⊎ ((qs : List Partition) × (run ≡ returns qs)
          × Pairs (λ p q. Evacuation evac evac_topics p (returns q)) ps qs)

  evacuate_partitions-Outcome :
      (ps : List Partition)
      → All (λ p. (p.replicas ≢ []) × (distinct p.replicas ≡ true)) ps
      → Outcome ps (evacuate_partitions evac evac_topics ps)
  unfolding evacuate_partitions and_then
  evacuate_partitions-Outcome [] h = inr ([], refl, nil)
  evacuate_partitions-Outcome (p ∷ ps) ((some_rs, d), hs) =
      let one = evacuate_partition-Evacuation evac evac_topics p some_rs d in
      elim (evacuation-cases p (evacuate_partition evac evac_topics p) one) [
        | inl (e, r) ↦ inl (rw e refl, here r)
        | inr (q, e, o) ↦ elim (evacuate_partitions-Outcome ps hs) [
          | inl (e', r) ↦ inl (rw (e, e') refl, later r)
          | inr (qs, e', os) ↦ inr (q ∷ qs, rw (e, e') refl, cons o os)
        ]
      ]

-- For partitions whose replica sets are not empty and name no broker twice, evacuateLeadership exits
-- where a partition of the topics has all its replicas on evacuated brokers. Else it returns, and of
-- the partitions of the topics each one led by an evacuated broker has its leader swapped with the
-- first replica on a broker that is not evacuated; every other partition is as it was.
pub evacuate_leadership-Evacuation :
    (pm : PartitionMap) (evac : List ℤ) (evac_topics : List String)
    → All (λ p. (p.replicas ≢ []) × (distinct p.replicas ≡ true)) pm.partitions
    → ((evacuate_leadership pm evac evac_topics ≡ exits)
        × SomeRefused evac evac_topics pm.partitions)
      ⊎ ((out : PartitionMap) × (evacuate_leadership pm evac evac_topics ≡ returns out)
          × Pairs (λ p q. Evacuation evac evac_topics p (returns q)) pm.partitions out.partitions)
unfolding evacuate_leadership and_then
evacuate_leadership-Evacuation pm evac evac_topics h =
    elim (evacuate_partitions-Outcome evac evac_topics pm.partitions h) [
      | inl (e, r) ↦ inl (rw e refl, r)
      | inr (qs, e, os) ↦ inr (record (copy pm) { partitions = qs }, rw e refl, os)
    ]
