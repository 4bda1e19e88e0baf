-- ===== src/Mapper/Rebuild/Replaced.antt =====
-- What placeByPosition and placeByPartition make of all the partitions.
use kafka_kit.Base.{
  Pairs, nil, cons, Pairs-map, ℕ, ◌+◌, zero, suc, ◌≤◌, ℤ, Bool, true, false, ◌≡◌, Option, some,
  List, [], ◌∷◌, map, refl, int_key, length, ltb, if◌then◌else◌, All, Bool-cases, inl, inr,
  >>=-eq-some, ◌>>=◌, arith, subst,
}
use kafka_kit.Base.GoMap.{keys, contains}
use kafka_kit.Base.Float.{Float}
use kafka_kit.Base.Shuffle.{Draw}
use kafka_kit.Mapper.Types.{BrokerMap, Partition}
use kafka_kit.Mapper.Brokers.Keyed.{IsKeyed}
use kafka_kit.Mapper.Placement.{RebuildParams, Progress, new_partition, start}
use kafka_kit.Mapper.Placement.Frame.{IsSame-refl}
use kafka_kit.Mapper.Placement.Replace.{AreFree}
use kafka_kit.Mapper.Rebuild.{
  Placed, placed, longest, place_at, place_pass, place_passes, place_by_position, place_replicas,
  place_partitions, place_by_partition,
}
use kafka_kit.Mapper.Rebuild.Filling.{distinct, IsKept, IsFilled, IsFilled-start}
use kafka_kit.Mapper.Rebuild.Carried.{IsCarried, IsCarried-start}
use kafka_kit.Mapper.Rebuild.Candidates.{start-IsSound}
use kafka_kit.Mapper.Rebuild.Steps.{drop, IsRun, place_at-IsNext, place_replicas-IsNext}

module _ {F : Type 0} where
  -- The new partition `q` of `p`: the same topic and number; no broker twice, and none that is
  -- marked for replacement or missing from the map; no more replicas than before.
  pub record IsRebuilt (bm : BrokerMap F) (p q : Partition) : Type 0 where
    pub topic : q.topic ≡ p.topic
    pub number : q.partition ≡ p.partition
    pub once : distinct q.replicas ≡ true
    pub kept : (id : ℤ) → contains id q.replicas ≡ true → IsKept bm id
    pub room : length q.replicas ≤ length p.replicas

  pub filled-IsRebuilt :
      (bm : BrokerMap F) (p : Partition) (left : List ℤ) (q : Partition)
      → IsFilled bm p left q
      → IsRebuilt bm p q
  filled-IsRebuilt bm p left q f = record {
    topic = f.topic;
    number = f.number;
    once = f.once;
    kept = f.kept;
    room = let room = f.room in omega arith;
  }

  -- Every old replica that is not marked for replacement is still there.
  abbrev pub AreCarried : BrokerMap F → Partition → Partition → Type 0
  AreCarried bm p q =
      (id : ℤ) → contains id p.replicas ≡ true → IsKept bm id → contains id q.replicas ≡ true

  -- The partitions and those of the new map, with the replicas from number `pass` on to come.
  abbrev pub Filling : BrokerMap F → ℕ → Partition → Partition → Type 0
  Filling bm pass p q =
      IsFilled bm p (drop pass p.replicas) q × IsCarried bm p (drop pass p.replicas) q

  pub Filling-start :
      (bm : BrokerMap F) (ps : List Partition)
      → All (λ p. distinct p.replicas ≡ true) ps
      → Pairs (Filling bm 0) ps (map new_partition ps)
  Filling-start bm [] h = nil
  Filling-start bm (p ∷ ps) (h, hs) =
      cons (IsFilled-start bm p h, IsCarried-start bm p) (Filling-start bm ps hs)

module _ {F : Type 0} ⦃fl : Float F⦄ (draw : Draw) (params : RebuildParams F) where
  place_partitions-IsRebuilt :
      (ps : List Partition) (st : Progress F) (r : List Partition × Progress F)
      → All (λ p. distinct p.replicas ≡ true) ps
      → IsRun params.bm st
      → place_partitions draw params ps st ≡ some r
      → Pairs (λ p q. IsRebuilt params.bm p q × AreCarried params.bm p q) ps r.0
  unfolding place_partitions contains
  place_partitions-IsRebuilt [] st r h run e =
      let same : ([], st) ≡ r = cc in
      subst
        (λ (r : List Partition × Progress F).
          Pairs (λ p q. IsRebuilt params.bm p q × AreCarried params.bm p q) [] r.0)
        same nil
  place_partitions-IsRebuilt (p ∷ ps) st r (h, hs) run e =
      let rest = λ (s : Partition × Progress F).
        place_partitions draw params ps s.1 >>= λ t. some (s.0 ∷ t.0, t.1) in
      let (s, got, e1) =
        >>=-eq-some (place_replicas draw params p p.replicas (new_partition p) st) rest e in
      let (t, got', e2) =
        >>=-eq-some (place_partitions draw params ps s.1) (λ t. some (s.0 ∷ t.0, t.1)) e1 in
      let same : (s.0 ∷ t.0, t.1) ≡ r = cc in
      let next =
        place_replicas-IsNext draw params p p.replicas (new_partition p) st s
          (record {
            filled = IsFilled-start params.bm p h;
            carried = IsCarried-start params.bm p;
            run = run;
          })
          got in
      subst
        (λ (r : List Partition × Progress F).
          Pairs (λ p q. IsRebuilt params.bm p q × AreCarried params.bm p q) (p ∷ ps) r.0)
        same
        (cons
          (
            filled-IsRebuilt params.bm p [] s.0 next.filled,
            λ id old kept. next.carried id old kept refl,
          )
          (place_partitions-IsRebuilt ps s.1 t hs next.run got'))

  -- A pass goes from the replicas at one place to those at the next.
  pub place_pass-Filling :
      (pass n : ℕ) (ps qs : List Partition) (skipped : ℕ) (st : Progress F)
      (r : List Partition × ℕ × Progress F)
      → AreFree params.affinities params.bm
      → Pairs (Filling params.bm pass) ps qs
      → IsRun params.bm st
      → place_pass draw params pass n ps qs skipped st ≡ some r
      → Pairs (Filling params.bm (suc pass)) ps r.0 × IsRun params.bm r.2
  unfolding place_pass
  place_pass-Filling pass n _ _ skipped st r free nil run e =
      let same : ([], skipped, st) ≡ r = cc in
      subst
        (λ (r : List Partition × ℕ × Progress F).
          Pairs (Filling params.bm (suc pass)) [] r.0 × IsRun params.bm r.2)
        same (nil, run)
  place_pass-Filling pass n _ _ skipped st r free (cons {x = p} {y = q} {xs = ps} {ys = qs} h hs)
        run e =
      let rest = λ (s : Partition × ℕ × Progress F).
        place_pass draw params pass (suc n) ps qs s.1 s.2 >>= λ t. some (s.0 ∷ t.0, t.1, t.2) in
      let (s, got, e1) = >>=-eq-some (place_at draw params pass n p q skipped st) rest e in
      let (t, got', e2) =
        >>=-eq-some (place_pass draw params pass (suc n) ps qs s.1 s.2)
          (λ t. some (s.0 ∷ t.0, t.1, t.2)) e1 in
      let same : (s.0 ∷ t.0, t.1, t.2) ≡ r = cc in
      let next =
        place_at-IsNext draw params pass n p q skipped st s free
          (record { filled = h.0; carried = h.1; run = run }) got in
      let (tail, run') = place_pass-Filling pass (suc n) ps qs s.1 s.2 t free hs next.run got' in
      subst
        (λ (r : List Partition × ℕ × Progress F).
          Pairs (Filling params.bm (suc pass)) (p ∷ ps) r.0 × IsRun params.bm r.2)
        same (cons (next.filled, next.carried) tail, run')

  place_passes-IsRebuilt :
      (fuel pass : ℕ) (ps qs : List Partition) (skipped : ℕ) (st : Progress F)
      (r : List Partition × Progress F)
      → AreFree params.affinities params.bm
      → Pairs (Filling params.bm pass) ps qs
      → IsRun params.bm st
      → place_passes draw params fuel pass ps qs skipped st ≡ some r
      → Pairs (IsRebuilt params.bm) ps r.0
  unfolding place_passes
  place_passes-IsRebuilt zero pass ps qs skipped st r free h run e = cc
  place_passes-IsRebuilt (suc fuel) pass ps qs skipped st r free h run e =
      let rest = λ (s : List Partition × ℕ × Progress F).
        place_passes draw params fuel (suc pass) ps s.0 s.1 s.2 in
      let more : Bool → Option (List Partition × Progress F) = λ b.
        if b then (place_pass draw params pass 0 ps qs skipped st >>= rest) else some (qs, st) in
      let at = λ (b : Bool) (k : ltb skipped (length ps) ≡ b). subst (λ b. more b ≡ some r) k e in
      elim (Bool-cases (ltb skipped (length ps))) [
        | inl y ↦
            let (s, got, e1) =
              >>=-eq-some (place_pass draw params pass 0 ps qs skipped st) rest (at true y) in
            let (h', run') = place_pass-Filling pass 0 ps qs skipped st s free h run got in
            place_passes-IsRebuilt fuel (suc pass) ps s.0 s.1 s.2 r free h' run' e1
        | inr stop ↦
            let e1 : some (qs, st) ≡ some r = at false stop in
            let same : (qs, st) ≡ r = cc in
            subst (λ (r : List Partition × Progress F). Pairs (IsRebuilt params.bm) ps r.0) same
              (Pairs-map (λ p q f. filled-IsRebuilt params.bm p (drop pass p.replicas) q f.0) ps qs
                h)
      ]

  pub IsRun-start :
      IsKeyed params.bm → distinct (keys params.bm) ≡ true → IsRun params.bm (start draw params)
  unfolding start
  IsRun-start k one = record {
    sound = start-IsSound draw params k one;
    same = IsSame-refl params.bm;
  }

  -- placeByPosition, on replica sets that name no broker twice, with a broker map that holds each
  -- broker once at its own ID and substitutes that are in the map, not the stub broker and not
  -- marked for replacement: when it returns, the new map holds one partition for each partition, in
  -- their order, of the same topic and number, with no broker twice, with no broker that is marked
  -- for replacement or missing from the map, and with no more replicas than before.
  pub place_by_position-IsRebuilt :
      (ps : List Partition) (r : Placed F)
      → All (λ p. distinct p.replicas ≡ true) ps
      → IsKeyed params.bm
      → distinct (keys params.bm) ≡ true
      → AreFree params.affinities params.bm
      → place_by_position draw params ps ≡ some r
      → Pairs (IsRebuilt params.bm) ps r.partition_map.partitions
  unfolding place_by_position placed
  place_by_position-IsRebuilt ps r h k one free e =
      let (s, got, e1) =
        >>=-eq-some
          (place_passes draw params (longest ps + 2) 0 ps (map new_partition ps) 0
            (start draw params))
          (λ s. some (placed s.0 s.1)) e in
      let same : placed s.0 s.1 ≡ r = cc in
      subst (λ (r : Placed F). Pairs (IsRebuilt params.bm) ps r.partition_map.partitions) same
        (place_passes-IsRebuilt (longest ps + 2) 0 ps (map new_partition ps) 0 (start draw params) s
          free (Filling-start params.bm ps h) (IsRun-start k one) got)

  -- placeByPartition, on replica sets that name no broker twice, with a broker map that holds each
  -- broker once at its own ID: when it returns, the new map holds one partition for each partition,
  -- in their order, of the same topic and number, with no broker twice, with no broker that is
  -- marked for replacement or missing from the map, with no more replicas than before, and with
  -- every old replica on a broker of the map that is not marked for replacement.
  pub place_by_partition-IsRebuilt :
      (ps : List Partition) (r : Placed F)
      → All (λ p. distinct p.replicas ≡ true) ps
      → IsKeyed params.bm
      → distinct (keys params.bm) ≡ true
      → place_by_partition draw params ps ≡ some r
      → Pairs
          (λ p q. IsRebuilt params.bm p q × AreCarried params.bm p q)
          ps
          r.partition_map.partitions
  unfolding place_by_partition placed
  place_by_partition-IsRebuilt ps r h k one e =
      let (s, got, e1) =
        >>=-eq-some (place_partitions draw params ps (start draw params))
          (λ s. some (placed s.0 s.1)) e in
      let same : placed s.0 s.1 ≡ r = cc in
      subst
        (λ (r : Placed F).
          Pairs (λ p q. IsRebuilt params.bm p q × AreCarried params.bm p q) ps
            r.partition_map.partitions)
        same (place_partitions-IsRebuilt ps (start draw params) s h (IsRun-start k one) got)
