-- ===== src/Mapper/Rebuild/Steps.antt =====
-- One replica of placeByPosition and of placeByPartition, kept or replaced, and those of a
-- partition in placeByPartition.
use kafka_kit.Base.{
  ℕ, zero, suc, ℤ, Bool, true, false, ◌≡◌, Option, some, none, List, [], ◌∷◌, refl, int_key,
  get_elem?, Bool-cases, Option-cases, inl, inr, >>=-eq-some, ◌>>=◌, sym, subst, ◌∙◌, if◌then◌else◌,
  ap,
}
use kafka_kit.Base.GoMap.{lookup}
use kafka_kit.Base.Float.{Float}
use kafka_kit.Base.Shuffle.{Draw}
use kafka_kit.Mapper.Types.{Broker, BrokerMap, Partition}
use kafka_kit.Mapper.Placement.{
  RebuildParams, Progress, append_replica, replace_at_position, replace_in_partition,
}
use kafka_kit.Mapper.Placement.Frame.{IsSame, IsSame-trans, IsFree-same, view}
use kafka_kit.Mapper.Placement.Step.{IsSound, IsStep}
use kafka_kit.Mapper.Placement.Replace.{
  AreFree, replace_at_position-IsStep, replace_in_partition-IsStep,
}
use kafka_kit.Mapper.Rebuild.{place_at, place_replicas}
use kafka_kit.Mapper.Rebuild.Carried.{IsCarried, IsCarried-keep, IsCarried-step}
use kafka_kit.Mapper.Rebuild.Filling.{IsFilled, IsFilled-keep, IsFilled-step}

-- The elements from number `n` on.
abbrev pub drop {ℓ} : {A : Type ℓ} → ℕ → List A → List A
drop zero xs = xs
drop (suc n) [] = []
drop (suc n) (x ∷ xs) = drop n xs

drop-get_elem? {ℓ} :
    {A : Type ℓ} (n : ℕ) (xs : List A) (x : A)
    → get_elem? xs n ≡ some x
    → drop n xs ≡ x ∷ drop (suc n) xs
drop-get_elem? n [] x e = cc
drop-get_elem? zero (y ∷ xs) x e = let q : y ≡ x = cc in ap (λ z. z ∷ xs) q
drop-get_elem? (suc n) (y ∷ xs) x e = drop-get_elem? n xs x e

drop_done {ℓ} :
    {A : Type ℓ} (n : ℕ) (xs : List A) → get_elem? xs n ≡ none → drop n xs ≡ drop (suc n) xs
drop_done zero [] e = refl
drop_done (suc n) [] e = refl
drop_done zero (y ∷ xs) e = cc
drop_done (suc n) (y ∷ xs) e = drop_done n xs e

module _ {F : Type 0} where
  -- The progress from the brokers `bm` on.
  pub record IsRun (bm : BrokerMap F) (st : Progress F) : Type 0 where
    pub sound : IsSound st
    pub same : IsSame bm st.brokers

  -- What holds of a partition and the progress after one of the old replicas.
  pub record IsNext (bm : BrokerMap F) (p : Partition) (left : List ℤ) (q : Partition)
      (st : Progress F) : Type 0 where
    pub filled : IsFilled bm p left q
    pub carried : IsCarried bm p left q
    pub run : IsRun bm st

  view_found :
      (id : ℤ) (bm : BrokerMap F) (b : Broker F) (flag : Bool)
      → lookup id bm ≡ some b
      → b.replace ≡ flag
      → view id bm ≡ some (flag, b.locality)
  view_found id bm b flag found same = rw (found, view) (ap (λ r. some (r, b.locality)) same)

  pub IsNext-step :
      (bm : BrokerMap F) (p : Partition) (bid : ℤ) (left : List ℤ) (q : Partition) (st : Progress F)
      (r : Partition × Progress F) (b : Broker F)
      → IsNext bm p (bid ∷ left) q st
      → lookup bid st.brokers ≡ some b
      → b.replace ≡ true
      → IsStep st.brokers p q st r
      → IsNext bm p left r.0 r.1
  IsNext-step bm p bid left q st r b n found goes step = record {
    carried =
        IsCarried-step bm st.brokers p bid b.locality left q r.0
          (sym (n.run.same.at bid) ∙ view_found bid st.brokers b true found goes) step.outcome
          n.carried;
    filled = IsFilled-step bm st.brokers p bid left q r.0 n.filled n.run.same step.outcome;
    run = record {
      sound = step.sound;
      same = IsSame-trans bm st.brokers r.1.brokers n.run.same step.same;
    };
  }

  pub IsNext-keep :
      (bm : BrokerMap F) (p : Partition) (bid : ℤ) (left : List ℤ) (q : Partition) (st : Progress F)
      (b : Broker F)
      → IsNext bm p (bid ∷ left) q st
      → lookup bid st.brokers ≡ some b
      → b.replace ≡ false
      → IsNext bm p left (append_replica bid q) st
  IsNext-keep bm p bid left q st b n found stays =
      let seen = view_found bid st.brokers b false found stays in
      record {
        carried = IsCarried-keep bm p bid left q n.carried;
        filled =
            IsFilled-keep bm p bid left q n.filled
              (record { rack = b.locality; stands = sym (n.run.same.at bid) ∙ seen });
        run = n.run;
      }

module _ {F : Type 0} ⦃fl : Float F⦄ (draw : Draw) (params : RebuildParams F) where
  -- A replica is replaced or kept.
  abbrev pub place_replica :
      Partition → ℤ → Partition → Progress F → Bool → Option (Partition × Progress F)
  place_replica p bid q st t =
      if t then replace_in_partition draw params p q st else some (append_replica bid q, st)

  pub place_replica-IsNext :
      (p : Partition) (bid : ℤ) (bids : List ℤ) (q : Partition) (st : Progress F) (b : Broker F)
      (s : Partition × Progress F)
      → IsNext params.bm p (bid ∷ bids) q st
      → lookup bid st.brokers ≡ some b
      → place_replica p bid q st b.replace ≡ some s
      → IsNext params.bm p bids s.0 s.1
  place_replica-IsNext p bid bids q st b s n found got =
      let at =
        λ (t : Bool) (h : b.replace ≡ t). subst (λ t. place_replica p bid q st t ≡ some s) h got in
      elim (Bool-cases b.replace) [
        | inl y ↦
            IsNext-step params.bm p bid bids q st s b n found y
              (replace_in_partition-IsStep draw params p q st s n.run.sound (at true y))
        | inr stay ↦
            let e3 : some (append_replica bid q, st) ≡ some s = at false stay in
            let same : (append_replica bid q, st) ≡ s = cc in
            subst (λ (s : Partition × Progress F). IsNext params.bm p bids s.0 s.1) same
              (IsNext-keep params.bm p bid bids q st b n found stay)
      ]

  pub place_replicas-IsNext :
      (p : Partition) (bids : List ℤ) (q : Partition) (st : Progress F) (r : Partition × Progress F)
      → IsNext params.bm p bids q st
      → place_replicas draw params p bids q st ≡ some r
      → IsNext params.bm p [] r.0 r.1
  unfolding place_replicas
  place_replicas-IsNext p [] q st r n e =
      let same : (q, st) ≡ r = cc in
      subst (λ (r : Partition × Progress F). IsNext params.bm p [] r.0 r.1) same n
  place_replicas-IsNext p (bid ∷ bids) q st r n e =
      let rest = λ (s : Partition × Progress F). place_replicas draw params p bids s.0 s.1 in
      let (b, found, e1) =
        >>=-eq-some (lookup bid st.brokers) (λ b. place_replica p bid q st b.replace >>= rest) e in
      let (s, got, e2) = >>=-eq-some (place_replica p bid q st b.replace) rest e1 in
      place_replicas-IsNext p bids s.0 s.1 r (place_replica-IsNext p bid bids q st b s n found got)
        e2

  pub place_at-IsNext :
      (pass n : ℕ) (p q : Partition) (skipped : ℕ) (st : Progress F)
      (r : Partition × ℕ × Progress F)
      → AreFree params.affinities params.bm
      → IsNext params.bm p (drop pass p.replicas) q st
      → place_at draw params pass n p q skipped st ≡ some r
      → IsNext params.bm p (drop (suc pass) p.replicas) r.0 r.2
  unfolding place_at
  place_at-IsNext pass n p q skipped st r free h e =
      elim (Option-cases (get_elem? p.replicas pass)) [
        | inl out ↦
            let e' : some (q, suc skipped, st) ≡ some r = rw (out, place_at) at e in
            let same : (q, suc skipped, st) ≡ r = cc in
            subst
              (λ (r : Partition × ℕ × Progress F).
                IsNext params.bm p (drop (suc pass) p.replicas) r.0 r.2)
              same (subst (λ l. IsNext params.bm p l q st) (drop_done pass p.replicas out) h)
        | inr (bid, there) ↦
            let h' =
              subst (λ l. IsNext params.bm p l q st) (drop-get_elem? pass p.replicas bid there) h in
            let replace : Option (Partition × ℕ × Progress F) =
              replace_at_position draw params pass n p bid q st >>= λ s. some (s.0, skipped, s.1) in
            let placing : Bool → Option (Partition × ℕ × Progress F) =
              λ t. if t then replace else some (append_replica bid q, skipped, st) in
            let e' : (lookup bid st.brokers >>= λ b. placing b.replace) ≡ some r =
              rw (there, place_at) at e in
            let (b, found, e1) = >>=-eq-some (lookup bid st.brokers) (λ b. placing b.replace) e' in
            let at = λ (t : Bool) (h : b.replace ≡ t). subst (λ t. placing t ≡ some r) h e1 in
            elim (Bool-cases b.replace) [
              | inl y ↦
                  let (s, got, e2) =
                    >>=-eq-some (replace_at_position draw params pass n p bid q st)
                      (λ s. some (s.0, skipped, s.1)) (at true y) in
                  let same : (s.0, skipped, s.1) ≡ r = cc in
                  subst
                    (λ (r : Partition × ℕ × Progress F).
                      IsNext params.bm p (drop (suc pass) p.replicas) r.0 r.2)
                    same
                    (IsNext-step params.bm p bid (drop (suc pass) p.replicas) q st s b h' found y (
                      replace_at_position-IsStep draw params pass n p bid q st s h.run.sound
                        (λ id sub k.
                          IsFree-same params.bm st.brokers sub h.run.same (free id sub k))
                        got))
              | inr stay ↦
                  let e3 : some (append_replica bid q, skipped, st) ≡ some r = at false stay in
                  let same : (append_replica bid q, skipped, st) ≡ r = cc in
                  subst
                    (λ (r : Partition × ℕ × Progress F).
                      IsNext params.bm p (drop (suc pass) p.replicas) r.0 r.2)
                    same
                    (IsNext-keep params.bm p bid (drop (suc pass) p.replicas) q st b h' found stay)
            ]
      ]
