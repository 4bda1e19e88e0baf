-- ===== src/Mapper/Placement/Replace.antt =====
-- The replacement of one replica, by placeByPosition and by placeByPartition.
use kafka_kit.Base.{
  ℕ, ◌+◌, ◌*◌, ℤ, pos, Bool, true, false, ◌≡◌, Option, some, none, refl, ◌==◌, int_key, string_key,
  Bool-cases, Option-cases, inl, inr, >>=-eq-some, ◌>>=◌, sym, subst, if◌then◌else◌,
}
use kafka_kit.Base.GoMap.{Map, lookup, insert}
use kafka_kit.Base.Float.{Float}
use kafka_kit.Base.Shuffle.{Draw}
use kafka_kit.Mapper.Types.{Broker, BrokerMap, Partition, no_brokers, Result, ok, err}
use kafka_kit.Mapper.Brokers.Keyed.{IsKeyed, IsKeyed-lookup}
use kafka_kit.Mapper.Constraints.{Constraints, passes_with_params}
use kafka_kit.Mapper.Placement.{
  RebuildParams, Progress, append_replica, get_affinity, fail, replica_constraints, request_size,
  constraints_params, place_selected, place_sized, place_substitute, place_sized_at,
  replace_at_position, replace_in_partition,
}
use kafka_kit.Mapper.Placement.Frame.{IsSame, IsSame-refl, IsSame-trans, insert-IsSame, IsFree}
use kafka_kit.Mapper.Placement.Step.{
  IsSound, IsSound-same, added, IsStep, IsFresh-of_passing, idle-IsStep, place_selected-IsStep,
}

module _ {F : Type 0} where
  -- Every substitute is a broker of the map that stays.
  abbrev pub AreFree : Map ℤ ℤ → BrokerMap F → Type 0
  AreFree sa bm = (id sub : ℤ) → lookup id sa ≡ some sub → IsFree bm sub

  -- What Get leaves, and whom it finds.
  pub record IsAffinity (bm : BrokerMap F) (r : Option (Broker F) × BrokerMap F) : Type 0 where
    pub same : IsSame bm r.1
    pub free : (b : Broker F) → r.0 ≡ some b → IsFree bm b.id

  pub get_affinity-IsAffinity :
      (sa : Map ℤ ℤ) (id : ℤ) (bm : BrokerMap F) (r : Option (Broker F) × BrokerMap F)
      → IsKeyed bm
      → AreFree sa bm
      → get_affinity sa id bm ≡ some r
      → IsAffinity bm r
  unfolding get_affinity
  get_affinity-IsAffinity sa id bm r k free e = elim (Option-cases (lookup id sa)) [
    | inl g ↦
        let e' : some (none, bm) ≡ some r = rw (g, get_affinity) at e in
        let q : (none, bm) ≡ r = cc in
        subst (IsAffinity bm) q (record { same = IsSame-refl bm; free = λ b h. cc })
    | inr (sub, g) ↦
        let used = λ (b : Broker F). record b { used = b.used + 1 } in
        let e1 : (lookup sub bm >>= λ b. some (some (used b), insert b.id (used b) bm)) ≡ some r =
          rw (g, get_affinity) at e in
        let (b, found, e2) =
          >>=-eq-some (lookup sub bm) (λ b. some (some (used b), insert b.id (used b) bm)) e1 in
        let q : (some (used b), insert b.id (used b) bm) ≡ r = cc in
        let id_b = IsKeyed-lookup sub b bm k found in
        subst (IsAffinity bm) q (record {
          same =
              insert-IsSame bm b.id b (used b) (subst (λ j. lookup j bm ≡ some b) (sym id_b) found)
                refl refl;
          free = λ y h.
              let same : used b ≡ y = cc in
              subst (λ (z : Broker F). IsFree bm z.id) same
                (subst (IsFree bm) (sym id_b) (free id sub g));
        })
  ]

module _ {F : Type 0} ⦃fl : Float F⦄ (draw : Draw) (params : RebuildParams F) where
  place_sized-IsStep :
      (c : Constraints F) (p q : Partition) (st : Progress F) (size : Result F)
      (r : Partition × Progress F)
      → IsSound st
      → replica_constraints st.brokers p q ≡ some c
      → place_sized draw params c p q st size ≡ some r
      → IsStep st.brokers p q st r
  unfolding place_sized
  place_sized-IsStep c p q st (err x) r sound made e =
      let same : (q, fail p x st) ≡ r = cc in
      subst (IsStep st.brokers p q st) same (
        idle-IsStep st.brokers p q st st.brokers st.order (fail p x st).errs refl sound
          sound.candidates)
  place_sized-IsStep c p q st (ok requested) r sound made e =
      place_selected-IsStep draw params st.brokers c
        (constraints_params draw params requested (pos 1)) p q st r sound.keyed
        (IsSame-refl st.brokers) sound made e

  pub replace_in_partition-IsStep :
      (p q : Partition) (st : Progress F) (r : Partition × Progress F)
      → IsSound st
      → replace_in_partition draw params p q st ≡ some r
      → IsStep st.brokers p q st r
  unfolding replace_in_partition
  replace_in_partition-IsStep p q st r sound e =
      let (c, made, e') =
        >>=-eq-some (replica_constraints st.brokers p q)
          (λ c. place_sized draw params c p q st (request_size draw params p)) e in
      place_sized-IsStep c p q st (request_size draw params p) r sound made e'

  -- A step from the progress with the brokers of `bm` is one from the progress itself.
  IsStep-from :
      (bm : BrokerMap F) (p q : Partition) (st : Progress F) (r : Partition × Progress F)
      → IsSame st.brokers bm
      → IsStep st.brokers p q (record st { brokers = bm }) r
      → IsStep st.brokers p q st r
  IsStep-from bm p q st r same step = record {
    sound = step.sound;
    same = IsSame-trans st.brokers bm r.1.brokers same step.same;
    outcome = step.outcome;
  }

  place_substitute-IsStep :
      (bm : BrokerMap F) (c : Constraints F) (p q : Partition) (st : Progress F) (requested : F)
      (seed : ℤ) (affinity : Option (Broker F)) (r : Partition × Progress F)
      → IsKeyed bm
      → IsSame bm st.brokers
      → IsSound st
      → ((b : Broker F) → affinity ≡ some b → IsFree bm b.id)
      → replica_constraints bm p q ≡ some c
      → place_substitute draw params c p q st requested seed affinity ≡ some r
      → IsStep bm p q st r
  unfolding place_substitute
  place_substitute-IsStep bm c p q st requested seed none r k same sound free made e =
      place_selected-IsStep draw params bm c (constraints_params draw params requested seed) p q st
        r k same sound made e
  place_substitute-IsStep bm c p q st requested seed (some sub) r k same sound free made e =
      let cp = constraints_params draw params requested (pos 0) in
      let chosen : Option (Partition × Progress F) =
        if passes_with_params c cp sub
        then some (append_replica sub.id q, st)
        else some (q, fail p no_brokers st) in
      let selected : Option (Partition × Progress F) =
        place_selected draw params c (constraints_params draw params requested seed) p q st in
      let e' = λ (b : Bool) (h : (params.strategy == "count") ≡ b).
        subst (λ b. (if b then chosen else selected) ≡ some r) h e in
      elim (Bool-cases (params.strategy == "count")) [
        | inr n ↦
            place_selected-IsStep draw params bm c (constraints_params draw params requested seed) p
              q st r k same sound made (e' false n)
        | inl y ↦ elim (Bool-cases (passes_with_params c cp sub)) [
          | inl passes ↦
              let e2 : some (append_replica sub.id q, st) ≡ some r = rw passes at e' true y in
              let q' : (append_replica sub.id q, st) ≡ r = cc in
              subst (IsStep bm p q st) q' (record {
                sound = sound;
                same = IsSame-refl st.brokers;
                outcome =
                    added sub.id (IsFresh-of_passing bm p q c cp sub k (free sub refl) made passes);
              })
          | inr fails ↦
              let e2 : some (q, fail p no_brokers st) ≡ some r = rw fails at e' true y in
              let q' : (q, fail p no_brokers st) ≡ r = cc in
              subst (IsStep bm p q st) q' (
                idle-IsStep bm p q st st.brokers st.order (fail p no_brokers st).errs refl sound
                  sound.candidates)
        ]
      ]

  place_sized_at-IsStep :
      (pass n : ℕ) (c : Constraints F) (p : Partition) (bid : ℤ) (q : Partition) (st : Progress F)
      (size : Result F) (r : Partition × Progress F)
      → IsSound st
      → AreFree params.affinities st.brokers
      → replica_constraints st.brokers p q ≡ some c
      → place_sized_at draw params pass n c p bid q st size ≡ some r
      → IsStep st.brokers p q st r
  unfolding place_sized_at
  place_sized_at-IsStep pass n c p bid q st (err x) r sound free made e =
      let same : (q, fail p x st) ≡ r = cc in
      subst (IsStep st.brokers p q st) same (
        idle-IsStep st.brokers p q st st.brokers st.order (fail p x st).errs refl sound
          sound.candidates)
  place_sized_at-IsStep pass n c p bid q st (ok requested) r sound free made e =
      let seed = pos (pass * n + 1) in
      let ((affinity, bm), got, e') =
        >>=-eq-some (get_affinity params.affinities bid st.brokers)
          (λ g. place_substitute draw params c p q (record st { brokers = g.1 }) requested seed g.0)
          e in
      let a =
        get_affinity-IsAffinity params.affinities bid st.brokers (affinity, bm) sound.keyed free
          got in
      let st' : Progress F = record st { brokers = bm } in
      IsStep-from bm p q st r a.same (
        place_substitute-IsStep st.brokers c p q st' requested seed affinity r sound.keyed a.same
          (IsSound-same st st' a.same refl sound) a.free made e')

  pub replace_at_position-IsStep :
      (pass n : ℕ) (p : Partition) (bid : ℤ) (q : Partition) (st : Progress F)
      (r : Partition × Progress F)
      → IsSound st
      → AreFree params.affinities st.brokers
      → replace_at_position draw params pass n p bid q st ≡ some r
      → IsStep st.brokers p q st r
  unfolding replace_at_position
  replace_at_position-IsStep pass n p bid q st r sound free e =
      let (c, made, e') =
        >>=-eq-some (replica_constraints st.brokers p q)
          (λ c. place_sized_at draw params pass n c p bid q st (request_size draw params p)) e in
      place_sized_at-IsStep pass n c p bid q st (request_size draw params p) r sound free made e'
