-- ===== src/Mapper/Placement/Step.antt =====
-- One replacement: what it adds to the new replica set, and what it keeps.
use kafka_kit.Base.{
  ℤ, Bool, true, false, ◌≡◌, some, List, ◌++◌, refl, int_key, string_key, All, All_map, inl, inr,
  >>=-eq-some, ◌>>=◌, arith, sym, subst, ap,
}
use kafka_kit.Base.GoMap.{contains}
use kafka_kit.Base.Float.{Float}
use kafka_kit.Base.Shuffle.{Draw}
use kafka_kit.Mapper.Types.{Broker, BrokerMap, Partition, Error, Result-cases}
use kafka_kit.Mapper.Brokers.{BrokerList}
use kafka_kit.Mapper.Brokers.Keyed.{IsKeyed}
use kafka_kit.Mapper.Constraints.{
  Constraints, ConstraintsParams, Selection, new_constraints, merge_constraints, deref, has_id,
  passes_with_params, select_broker,
}
use kafka_kit.Mapper.Constraints.Taken.{has_id-merge_constraints}
use kafka_kit.Mapper.Constraints.Select.{
  IsSelection, select_broker-ok, select_broker-order, select_broker-err,
}
use kafka_kit.Mapper.Placement.{
  RebuildParams, Progress, append_replica, fail, replica_constraints, placed_result, place_selected,
}
use kafka_kit.Mapper.Placement.Frame.{
  IsSame, IsSame-refl, insert-IsSame, IsFree, IsFree-same, IsFree-back, facts, holds_id-append,
  holds_id-deref,
}

module _ {F : Type 0} where
  -- The brokers keep their IDs, and only brokers that stay are candidates.
  pub record IsSound (st : Progress F) : Type 0 where
    pub keyed : IsKeyed st.brokers
    pub candidates : All (IsFree st.brokers) st.order

  -- A broker that may join the new replica set `q` of `p`: it stays, and it is in neither set.
  pub record IsFresh (p q : Partition) (bm : BrokerMap F) (id : ℤ) : Type 0 where
    pub free : IsFree bm id
    pub not_old : contains id p.replicas ≡ false
    pub not_placed : contains id q.replicas ≡ false

  -- What a replacement makes of a partition: nothing is added, or a fresh broker.
  pub data Outcome (p q : Partition) (bm : BrokerMap F) : Partition → Type 0 where
    unchanged : Outcome p q bm q
    added : (id : ℤ) → IsFresh p q bm id → Outcome p q bm (append_replica id q)

  -- From the brokers `bm` on, over the progress `st`.
  pub record IsStep (bm : BrokerMap F) (p q : Partition) (st : Progress F)
      (r : Partition × Progress F) : Type 0 where
    pub sound : IsSound r.1
    pub same : IsSame st.brokers r.1.brokers
    pub outcome : Outcome p q bm r.0

  pub IsSound-same :
      (st st' : Progress F)
      → IsSame st.brokers st'.brokers
      → st'.order ≡ st.order
      → IsSound st
      → IsSound st'
  IsSound-same st st' same order s = record {
    keyed = same.keyed s.keyed;
    candidates =
        subst (All (IsFree st'.brokers)) (sym order)
          (All_map (λ id f. IsFree-same st.brokers st'.brokers id same f) st.order s.candidates);
  }

false_of_not : (b : Bool) → (b ≡ true → ⊥) → b ≡ false
false_of_not true h = absurd (h refl)
false_of_not false h = refl

module _ {F : Type 0} ⦃fl : Float F⦄ where
  has_id_of_passing :
      (c : Constraints F) (cp : ConstraintsParams F) (x : Broker F)
      → passes_with_params c cp x ≡ true
      → has_id c x.id ≡ false
  unfolding passes_with_params
  has_id_of_passing c cp x h = ground arith

  -- A broker that stays and passes the constraints of two replica sets is in neither.
  pub IsFresh-of_passing :
      (bm : BrokerMap F) (p q : Partition) (c : Constraints F) (cp : ConstraintsParams F)
      (x : Broker F)
      → IsKeyed bm
      → IsFree bm x.id
      → replica_constraints bm p q ≡ some c
      → passes_with_params c cp x ≡ true
      → IsFresh p q bm x.id
  unfolding replica_constraints
  IsFresh-of_passing bm p q c cp x k free e h =
      let merged =
        λ (old placed : BrokerList F). merge_constraints (old ++ placed) new_constraints in
      let (old, e1, e') =
        >>=-eq-some (deref bm p.replicas)
          (λ old. deref bm q.replicas >>= λ placed. some (merged old placed)) e in
      let (placed, e2, e'') =
        >>=-eq-some (deref bm q.replicas) (λ placed. some (merged old placed)) e' in
      let same : merged old placed ≡ c = cc in
      let clear : has_id (merged old placed) x.id ≡ false =
        subst (λ d. has_id d x.id ≡ false) (sym same) (has_id_of_passing c cp x h) in
      let taken = has_id-merge_constraints (old ++ placed) new_constraints x.id in
      let split = holds_id-append x.id old placed in
      record {
        free = free;
        not_old = false_of_not (contains x.id p.replicas) (λ inside.
            let held = holds_id-deref bm x.id p.replicas old k free e1 inside in ground arith);
        not_placed = false_of_not (contains x.id q.replicas) (λ inside.
            let held = holds_id-deref bm x.id q.replicas placed k free e2 inside in ground arith);
      }

  -- A step that leaves the brokers and the candidates alone.
  pub idle-IsStep :
      (bm : BrokerMap F) (p q : Partition) (st : Progress F) (brokers : BrokerMap F)
      (order : List ℤ) (errs : List Error)
      → brokers ≡ st.brokers
      → IsSound st
      → All (IsFree st.brokers) order
      → IsStep bm p q st (q, record { brokers = brokers; order = order; errs = errs })
  idle-IsStep bm p q st brokers order errs e sound free = record {
    sound = record {
      keyed = subst IsKeyed (sym e) sound.keyed;
      candidates = subst (λ b. All (IsFree b) order) (sym e) free;
    };
    same = subst (IsSame st.brokers) (sym e) (IsSame-refl st.brokers);
    outcome = unchanged;
  }

  selected-IsStep :
      (bm : BrokerMap F) (c : Constraints F) (cp : ConstraintsParams F) (p q : Partition)
      (st : Progress F) (s : Selection F) (b : Broker F)
      → IsKeyed bm
      → IsSame bm st.brokers
      → IsSound st
      → replica_constraints bm p q ≡ some c
      → IsSelection st.brokers c cp (IsFree st.brokers) s b
      → All (IsFree st.brokers) s.order
      → IsStep bm p q st (append_replica b.id q, record st { brokers = s.brokers; order = s.order })
  selected-IsStep bm c cp p q st s b k same sound made sel free =
      let x = sel.source in
      let id : b.id ≡ x.id = ap (λ (y : Broker F). y.id) sel.result in
      let after : IsSame st.brokers s.brokers =
        subst (IsSame st.brokers) (sym sel.written)
          (insert-IsSame st.brokers x.id x b sel.stored id (ap facts sel.result)) in
      let fresh =
        IsFresh-of_passing bm p q c cp x k (IsFree-back bm st.brokers x.id same sel.listed) made
          sel.passing in
      record {
        sound = record {
          keyed = after.keyed sound.keyed;
          candidates = All_map (λ j f. IsFree-same st.brokers s.brokers j after f) s.order free;
        };
        same = after;
        outcome = subst (λ j. Outcome p q bm (append_replica j q)) (sym id) (added x.id fresh);
      }

module _ {F : Type 0} ⦃fl : Float F⦄ (draw : Draw) (params : RebuildParams F) where
  pub place_selected-IsStep :
      (bm : BrokerMap F) (c : Constraints F) (cp : ConstraintsParams F) (p q : Partition)
      (st : Progress F) (r : Partition × Progress F)
      → IsKeyed bm
      → IsSame bm st.brokers
      → IsSound st
      → replica_constraints bm p q ≡ some c
      → place_selected draw params c cp p q st ≡ some r
      → IsStep bm p q st r
  unfolding place_selected
  place_selected-IsStep bm c cp p q st r k same sound made e =
      let (s, selected, e') =
        >>=-eq-some (select_broker draw st.brokers c st.order cp)
          (λ s. some (placed_result p q st s)) e in
      let free =
        select_broker-order st.brokers c cp draw (IsFree st.brokers) st.order s sound.keyed
          sound.candidates selected in
      let q' : placed_result p q st s ≡ r = cc in
      subst (IsStep bm p q st) q' (elim (Result-cases s.result) [
        | inl (b, ok_b) ↦
            rw (ok_b, placed_result)
              (selected-IsStep bm c cp p q st s b k same sound made
                (select_broker-ok st.brokers c cp draw (IsFree st.brokers) st.order s b sound.keyed
                  sound.candidates selected ok_b)
                free)
        | inr (e, err_e) ↦
            rw (err_e, placed_result)
              (idle-IsStep bm p q st s.brokers s.order (fail p e st).errs
                (select_broker-err st.brokers c cp draw st.order s e selected err_e) sound free)
      ])
