-- ===== src/Mapper/Constraints/Exhausted.antt =====
-- SelectBroker reports that no broker passes only if none of the list does.
use kafka_kit.Base.{
  ℤ, false, ◌≡◌, Option, some, none, List, [], ◌∷◌, map, refl, ◌==◌, int_key, string_key, All,
  All-perm, Perm, Bool-cases, inl, inr, >>=-eq-some, ◌>>=◌, subst,
}
use kafka_kit.Base.GoMap.{lookup}
use kafka_kit.Base.Float.{Float}
use kafka_kit.Base.Shuffle.{Draw}
use kafka_kit.Mapper.Types.{Broker, BrokerMap, err, no_brokers, stub_broker_id}
use kafka_kit.Mapper.Brokers.{BrokerList, filter_list, all_brokers_fn}
use kafka_kit.Mapper.Constraints.{
  Constraints, ConstraintsParams, Selection, deref, first_such, sort_by_method, take_candidate,
  select_from, passes_with_params, select_broker,
}
use kafka_kit.Mapper.Constraints.Candidates.{first_such-eq-none, sort_by_method-perm}

module _ {F : Type 0} where
  All-of_deref :
      (P : Broker F → Type 0) (bm : BrokerMap F) (ids : List ℤ) (bl : BrokerList F)
      → deref bm ids ≡ some bl
      → All P bl
      → All (λ id. (b : Broker F) → lookup id bm ≡ some b → P b) ids
  unfolding deref
  All-of_deref P bm [] bl e h = tt
  All-of_deref P bm (id ∷ ids) bl e h =
      let (b, found, e') =
        >>=-eq-some (lookup id bm) (λ b. deref bm ids >>= λ bl. some (b ∷ bl)) e in
      let (bl', rest, e'') = >>=-eq-some (deref bm ids) (λ bl. some (b ∷ bl)) e' in
      let q : bl ≡ b ∷ bl' = cc in
      let h' = subst (All P) q h in
      (λ x g. let same : b ≡ x = cc in subst P same h'.0, All-of_deref P bm ids bl' rest h'.1)

module _ {F : Type 0} ⦃fl : Float F⦄ (bm : BrokerMap F) (c : Constraints F)
    (p : ConstraintsParams F) where
  -- The stub, or a broker that does not pass.
  abbrev pub Fails : Broker F → Type 0
  Fails b = (b.id == stub_broker_id) ≡ false → passes_with_params c p b ≡ false

  All-of_filter :
      (bl : BrokerList F)
      → All (λ b. passes_with_params c p b ≡ false) (filter_list all_brokers_fn bl)
      → All Fails bl
  unfolding filter_list
  All-of_filter [] h = tt
  All-of_filter (b ∷ bl) h = elim (Bool-cases (b.id == stub_broker_id)) [
    | inl e ↦ (λ e'. cc, All-of_filter bl (rw e at h))
    | inr e ↦
        let h' : All (λ b. passes_with_params c p b ≡ false) (b ∷ filter_list all_brokers_fn bl) =
          rw e at h in
        (λ _. h'.0, All-of_filter bl h'.1)
  ]

  take_candidate-none :
      (order : List ℤ) (o : Option (Broker F))
      → (take_candidate bm order c p o).result ≡ err no_brokers
      → o ≡ none
  unfolding take_candidate
  take_candidate-none order none h = refl
  take_candidate-none order (some x) h = cc

  select_from-none :
      (bl : List ℤ) (l : BrokerList F) (o : Option (BrokerList F))
      → ((s : BrokerList F) → o ≡ some s → Perm s l)
      → (select_from bm c bl p o).result ≡ err no_brokers
      → All Fails l
  unfolding select_from
  select_from-none bl l none f h = cc
  select_from-none bl l (some sorted) f h =
      let candidates = filter_list all_brokers_fn sorted in
      let first = first_such (passes_with_params c p) candidates in
      let none_passes =
        first_such-eq-none (passes_with_params c p) candidates
          (take_candidate-none (map (λ x. x.id) sorted) first h) in
      All-perm Fails (λ b. hlevel) (f sorted refl) (All-of_filter sorted none_passes)

  -- When SelectBroker returns ErrNoBrokers, every broker of the list is the stub broker or fails the
  -- constraints.
  pub select_broker-exhausted :
      (draw : Draw) (bl : List ℤ) (s : Selection F)
      → select_broker draw bm c bl p ≡ some s
      → s.result ≡ err no_brokers
      → All (λ id. (b : Broker F) → lookup id bm ≡ some b → Fails b) bl
  unfolding select_broker
  select_broker-exhausted draw bl s h r =
      let (l, found, h') =
        >>=-eq-some (deref bm bl)
          (λ l. some (select_from bm c bl p (sort_by_method draw p.selector_method p.seed_val l)))
          h in
      let o = sort_by_method draw p.selector_method p.seed_val l in
      let q : select_from bm c bl p o ≡ s = cc in
      All-of_deref Fails bm bl l found
        (select_from-none bl l o (sort_by_method-perm draw p.selector_method p.seed_val l) (rw q r))
