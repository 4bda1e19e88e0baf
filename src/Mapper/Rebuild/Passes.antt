-- ===== src/Mapper/Rebuild/Passes.antt =====
-- One pass of placeByPosition, and the loop of placeByPartition, return.
use kafka_kit.Base.{
  Pairs, nil, cons, ℕ, suc, ℤ, Bool, true, false, ◌≡◌, Option, some, List, [], ◌∷◌, refl, int_key,
  get_elem?, if◌then◌else◌, All, All-get_elem?, Option-cases, inl, inr, ◌>>=◌,
}
use kafka_kit.Base.GoMap.{lookup, has}
use kafka_kit.Base.Float.{Float}
use kafka_kit.Base.Shuffle.{Draw}
use kafka_kit.Mapper.Types.{BrokerMap, Partition}
use kafka_kit.Mapper.Placement.{
  RebuildParams, Progress, append_replica, new_partition, replace_at_position, replace_in_partition,
}
use kafka_kit.Mapper.Placement.Frame.{IsFree-same}
use kafka_kit.Mapper.Placement.Replace.{AreFree}
use kafka_kit.Mapper.Rebuild.{place_at, place_pass, place_replicas, place_partitions}
use kafka_kit.Mapper.Rebuild.Filling.{distinct, IsFilled-start}
use kafka_kit.Mapper.Rebuild.Carried.{IsCarried-start}
use kafka_kit.Mapper.Rebuild.Steps.{
  drop, IsRun, IsNext, place_replica, place_replica-IsNext, place_at-IsNext, place_replicas-IsNext,
}
use kafka_kit.Mapper.Rebuild.Replaced.{Filling}
use kafka_kit.Mapper.Rebuild.Total.{
  All_contained, AreHeld, AreHeld-same, has_of_kept, has_of_view, lookup_total, >>=_total,
  replace_in_partition_total, replace_at_position_total,
}

module _ {F : Type 0} where
  -- The brokers of the two replica sets are in the progress's map.
  held_now :
      (bm : BrokerMap F) (p : Partition) (left : List ℤ) (q : Partition) (st : Progress F)
      → IsNext bm p left q st
      → AreHeld bm p.replicas
      → AreHeld st.brokers p.replicas × AreHeld st.brokers q.replicas
  held_now bm p left q st n h = (
    AreHeld-same bm st.brokers p.replicas n.run.same h,
    AreHeld-same bm st.brokers q.replicas n.run.same (
        All_contained (λ id. has id bm ≡ true) q.replicas
          (λ id k. has_of_kept bm id (n.filled.kept id k))),
  )

-- A choice between two results that are there.
if_total {ℓ} :
    {A : Type ℓ} (b : Bool) (x y : Option A)
    → (r : A) × (x ≡ some r)
    → (r : A) × (y ≡ some r)
    → (r : A) × ((if b then x else y) ≡ some r)
if_total true x y h k = h
if_total false x y h k = k

module _ {F : Type 0} ⦃fl : Float F⦄ (draw : Draw) (params : RebuildParams F) where
  place_replicas_total :
      (p : Partition) (bids : List ℤ) (q : Partition) (st : Progress F)
      → AreHeld params.bm p.replicas
      → AreHeld params.bm bids
      → IsNext params.bm p bids q st
      → (r : Partition × Progress F) × (place_replicas draw params p bids q st ≡ some r)
  unfolding place_replicas
  place_replicas_total p [] q st h hs n = ((q, st), refl)
  place_replicas_total p (bid ∷ bids) q st h (hb, hs) n =
      let rest = λ (s : Partition × Progress F). place_replicas draw params p bids s.0 s.1 in
      let (held, held') = held_now params.bm p (bid ∷ bids) q st n h in
      >>=_total (lookup bid st.brokers)
        (λ b. place_replica draw params p bid q st b.replace >>= rest)
        (lookup_total st.brokers bid (has_of_view params.bm st.brokers bid (n.run.same.at bid) hb))
        (λ b found.
          >>=_total (place_replica draw params p bid q st b.replace) rest
            (if_total b.replace (replace_in_partition draw params p q st)
              (some (append_replica bid q, st))
              (replace_in_partition_total draw params p q st n.run.sound held held')
              ((append_replica bid q, st), refl))
            (λ s got.
              place_replicas_total p bids s.0 s.1 h hs
                (place_replica-IsNext draw params p bid bids q st b s n found got)))

  pub place_partitions_total :
      (ps : List Partition) (st : Progress F)
      → All (λ p. distinct p.replicas ≡ true) ps
      → All (λ p. AreHeld params.bm p.replicas) ps
      → IsRun params.bm st
      → (r : List Partition × Progress F) × (place_partitions draw params ps st ≡ some r)
  unfolding place_partitions
  place_partitions_total [] st one held run = (([], st), refl)
  place_partitions_total (p ∷ ps) st (h, hs) (k, ks) run =
      let next : IsNext params.bm p p.replicas (new_partition p) st = record {
        filled = IsFilled-start params.bm p h;
        carried = IsCarried-start params.bm p;
        run = run;
      } in
      >>=_total (place_replicas draw params p p.replicas (new_partition p) st)
        (λ s. place_partitions draw params ps s.1 >>= λ t. some (s.0 ∷ t.0, t.1))
        (place_replicas_total p p.replicas (new_partition p) st k k next)
        (λ s got.
          let after =
            place_replicas-IsNext draw params p p.replicas (new_partition p) st s next got in
          >>=_total (place_partitions draw params ps s.1) (λ t. some (s.0 ∷ t.0, t.1))
            (place_partitions_total ps s.1 hs ks after.run) (λ t e. ((s.0 ∷ t.0, t.1), refl)))

  place_at_total :
      (pass n : ℕ) (p q : Partition) (skipped : ℕ) (st : Progress F)
      → AreFree params.affinities params.bm
      → AreHeld params.bm p.replicas
      → IsNext params.bm p (drop pass p.replicas) q st
      → (r : Partition × ℕ × Progress F) × (place_at draw params pass n p q skipped st ≡ some r)
  unfolding place_at
  place_at_total pass n p q skipped st free h next =
      elim (Option-cases (get_elem? p.replicas pass)) [
        | inl out ↦ ((q, suc skipped, st), rw (out, place_at) refl)
        | inr (bid, there) ↦
            let hb = All-get_elem? (λ id. has id params.bm ≡ true) p.replicas pass bid h there in
            let (held, held') = held_now params.bm p (drop pass p.replicas) q st next h in
            let replace : Option (Partition × ℕ × Progress F) =
              replace_at_position draw params pass n p bid q st >>= λ s. some (s.0, skipped, s.1) in
            let placing : Bool → Option (Partition × ℕ × Progress F) =
              λ t. if t then replace else some (append_replica bid q, skipped, st) in
            let (r, e) =
              >>=_total (lookup bid st.brokers) (λ b. placing b.replace)
                (lookup_total st.brokers bid
                  (has_of_view params.bm st.brokers bid (next.run.same.at bid) hb))
                (λ b found.
                  if_total b.replace replace (some (append_replica bid q, skipped, st))
                    (>>=_total (replace_at_position draw params pass n p bid q st)
                      (λ s. some (s.0, skipped, s.1))
                      (replace_at_position_total draw params pass n p bid q st next.run.sound
                        (λ id sub k.
                          IsFree-same params.bm st.brokers sub next.run.same (free id sub k))
                        held held')
                      (λ s got. ((s.0, skipped, s.1), refl)))
                    ((append_replica bid q, skipped, st), refl)) in
            (r, rw (there, place_at) e)
      ]

  pub place_pass_total :
      (pass n : ℕ) (ps qs : List Partition) (skipped : ℕ) (st : Progress F)
      → AreFree params.affinities params.bm
      → Pairs (Filling params.bm pass) ps qs
      → All (λ p. AreHeld params.bm p.replicas) ps
      → IsRun params.bm st
      → (r : List Partition × ℕ × Progress F) × (place_pass draw params pass n ps qs skipped st
          ≡ some r)
  unfolding place_pass
  place_pass_total pass n _ _ skipped st free nil held run = (([], skipped, st), refl)
  place_pass_total pass n _ _ skipped st free (cons {x = p} {y = q} {xs = ps} {ys = qs} h hs)
        (k, ks) run =
      let next : IsNext params.bm p (drop pass p.replicas) q st = record {
        filled = h.0;
        carried = h.1;
        run = run;
      } in
      >>=_total (place_at draw params pass n p q skipped st)
        (λ s. place_pass draw params pass (suc n) ps qs s.1 s.2 >>= λ t. some (s.0 ∷ t.0, t.1, t.2))
        (place_at_total pass n p q skipped st free k next)
        (λ s got.
          let after = place_at-IsNext draw params pass n p q skipped st s free next got in
          >>=_total (place_pass draw params pass (suc n) ps qs s.1 s.2)
            (λ t. some (s.0 ∷ t.0, t.1, t.2))
            (place_pass_total pass (suc n) ps qs s.1 s.2 free hs ks after.run)
            (λ t e. ((s.0 ∷ t.0, t.1, t.2), refl)))
