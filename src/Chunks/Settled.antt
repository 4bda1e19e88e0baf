-- ===== src/Chunks/Settled.antt =====
-- What getPartitionMapChunks makes of the partition map.
use kafka_kit.Base.{
  ℤ, true, false, ◌≡◌, inl, inr, some, List, [], ◌∷◌, ◌++◌, length, int_key, if◌then◌else◌, arith,
  refl, ap, subst, Bool-cases, if_ind, Pairs, nil, cons,
}
use kafka_kit.Base.GoMap.{contains}
use kafka_kit.Mapper.Types.{Partition}
use kafka_kit.Base.Outcome.{returns, and_then}
use kafka_kit.Chunks.{is_touched, switch_replicas, switch_partition, switch_partitions}

-- The replicas `qs` are `rs` with each one on a broker of `moved` replaced by the final one.
pub data AreSettled (moved : List ℤ) : List ℤ → List ℤ → List ℤ → Type 0 where
  done : AreSettled moved [] [] []
  keeps :
      {r f : ℤ} {rs fs qs : List ℤ}
      → contains r moved ≡ false
      → AreSettled moved rs fs qs
      → AreSettled moved (r ∷ rs) (f ∷ fs) (r ∷ qs)
  moves :
      {r f : ℤ} {rs fs qs : List ℤ}
      → contains r moved ≡ true
      → AreSettled moved rs fs qs
      → AreSettled moved (r ∷ rs) (f ∷ fs) (f ∷ qs)

-- The same of the partitions of three maps, which agree but for the replicas.
pub data AllSettled (moved : List ℤ)
    : List Partition → List Partition → List Partition → Type 0 where
  finished : AllSettled moved [] [] []
  settled :
      {p f q : Partition} {ps fs qs : List Partition}
      → q ≡ record p { replicas = q.replicas }
      → AreSettled moved p.replicas f.replicas q.replicas
      → AllSettled moved ps fs qs
      → AllSettled moved (p ∷ ps) (f ∷ fs) (q ∷ qs)

contains-append :
    (r : ℤ) (xs ys : List ℤ)
    → contains r (xs ++ ys) ≡ (if contains r xs then true else contains r ys)
unfolding contains
contains-append r [] ys = refl
contains-append r (x ∷ xs) ys = ground (arith, contains-append r xs ys)

AreSettled-length : (moved rs fs qs : List ℤ) → AreSettled moved rs fs qs → length qs ≡ length fs
AreSettled-length moved _ _ _ done = refl
AreSettled-length moved _ _ _ (keeps h s) = omega (arith, AreSettled-length moved _ _ _ s)
AreSettled-length moved _ _ _ (moves h s) = omega (arith, AreSettled-length moved _ _ _ s)

AreSettled-refl : (rs fs : List ℤ) → length rs ≡ length fs → AreSettled [] rs fs rs
unfolding contains
AreSettled-refl [] [] h = done
AreSettled-refl [] (f ∷ fs) h = absurd (omega arith)
AreSettled-refl (r ∷ rs) [] h = absurd (omega arith)
AreSettled-refl (r ∷ rs) (f ∷ fs) h = keeps refl (AreSettled-refl rs fs (omega arith))

pub AllSettled-refl :
    (ps fs : List Partition)
    → Pairs (λ p f. length p.replicas ≡ length f.replicas) ps fs
    → AllSettled [] ps fs ps
AllSettled-refl _ _ nil = finished
AllSettled-refl (p ∷ ps) (f ∷ fs) (cons h hs) =
    settled refl (AreSettled-refl p.replicas f.replicas h) (AllSettled-refl ps fs hs)

module _ (moved chunk : List ℤ) where
  AreSettled-switch_replicas :
      (rs fs qs : List ℤ)
      → AreSettled moved rs fs qs
      → AreSettled (moved ++ chunk) rs fs (switch_replicas chunk qs fs)
  unfolding switch_replicas
  AreSettled-switch_replicas _ _ _ done = done
  AreSettled-switch_replicas (r ∷ rs) (f ∷ fs) (_ ∷ qs) (keeps h s) =
      let c = contains-append r moved chunk in
      let t = AreSettled-switch_replicas rs fs qs s in
      if_ind (λ x. AreSettled (moved ++ chunk) (r ∷ rs) (f ∷ fs) (x ∷ switch_replicas chunk qs fs))
        (contains r chunk) f r (λ e. moves (ground (arith, c)) t) (λ e. keeps (ground (arith, c)) t)
  AreSettled-switch_replicas (r ∷ rs) (f ∷ fs) (_ ∷ qs) (moves h s) =
      let c = contains-append r moved chunk in
      let t = AreSettled-switch_replicas rs fs qs s in
      if_ind (λ x. AreSettled (moved ++ chunk) (r ∷ rs) (f ∷ fs) (x ∷ switch_replicas chunk qs fs))
        (contains f chunk) f f (λ e. moves (ground (arith, c)) t) (λ e. moves (ground (arith, c)) t)

  switch_replicas_idle :
      (qs fs : List ℤ) → is_touched chunk qs ≡ false → switch_replicas chunk qs fs ≡ qs
  unfolding switch_replicas is_touched
  switch_replicas_idle [] fs h = refl
  switch_replicas_idle (q ∷ qs) [] h = refl
  switch_replicas_idle (q ∷ qs) (f ∷ fs) h = ground (arith, switch_replicas_idle qs fs)

  -- A partition is settled by one chunk more.
  switch_partition-IsSettled :
      (p f q : Partition)
      → q ≡ record p { replicas = q.replicas }
      → AreSettled moved p.replicas f.replicas q.replicas
      → (q' : Partition) × (switch_partition chunk q (some f) ≡ returns q')
        × (q' ≡ record p { replicas = q'.replicas })
        × AreSettled (moved ++ chunk) p.replicas f.replicas q'.replicas
  unfolding switch_partition
  switch_partition-IsSettled p f q h s =
      let t = AreSettled-switch_replicas p.replicas f.replicas q.replicas s in
      let l = AreSettled-length moved p.replicas f.replicas q.replicas s in
      elim (Bool-cases (is_touched chunk q.replicas)) [
        | inl e ↦ (
          record q { replicas = switch_replicas chunk q.replicas f.replicas },
          ground (arith, l),
          ap {A = Partition}
              (λ x. record x { replicas = switch_replicas chunk q.replicas f.replicas }) h,
          t,
        )
        | inr e ↦ (
          q,
          ground arith,
          h,
          subst (AreSettled (moved ++ chunk) p.replicas f.replicas)
              (switch_replicas_idle q.replicas f.replicas e) t,
        )
      ]

  pub switch_partitions-AllSettled :
      (ps fs qs : List Partition)
      → AllSettled moved ps fs qs
      → (qs' : List Partition) × (switch_partitions chunk qs fs ≡ returns qs')
        × AllSettled (moved ++ chunk) ps fs qs'
  unfolding switch_partitions and_then
  switch_partitions-AllSettled _ _ _ finished = ([], refl, finished)
  switch_partitions-AllSettled (p ∷ ps) (f ∷ fs) (q ∷ qs) (settled h s rest) =
      let (q', e, h', s') = switch_partition-IsSettled p f q h s in
      let (qs', e', rest') = switch_partitions-AllSettled ps fs qs rest in
      (q' ∷ qs', ground (arith, e, e'), settled h' s' rest')
