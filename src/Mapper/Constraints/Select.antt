-- ===== src/Mapper/Constraints/Select.antt =====
-- SelectBroker: whom it selects, and what it leaves.
use kafka_kit.Base.{
  ◌+◌, ℤ, true, false, ◌≡◌, Option, some, none, List, [], ◌∷◌, map, refl, ◌==◌, int_key, string_key,
  All, All-map, Bool-cases, inl, inr, >>=-eq-some, sym, subst, ap,
}
use kafka_kit.Base.GoMap.{lookup, insert}
use kafka_kit.Base.Float.{Float}
use kafka_kit.Base.Shuffle.{Draw}
use kafka_kit.Mapper.Types.{Broker, BrokerMap, Error, ok, err, stub_broker_id}
use kafka_kit.Mapper.Brokers.{BrokerList, filter_list, all_brokers_fn}
use kafka_kit.Mapper.Brokers.Keyed.{IsKeyed, IsKeyed-lookup}
use kafka_kit.Mapper.Constraints.{
  Constraints, ConstraintsParams, Selection, deref, first_such, sort_by_method, take_candidate,
  select_from, passes_with_params, select_broker,
}
use kafka_kit.Mapper.Constraints.Candidates.{All-deref, first_such-eq-some, All-sort_by_method}

module _ {F : Type 0} ⦃fl : Float F⦄ (bm : BrokerMap F) (c : Constraints F)
    (p : ConstraintsParams F) where
  -- The broker after its selection: one more use, and less free storage.
  abbrev pub charged : Broker F → Broker F
  charged b = record b { used = b.used + 1; storage_free = fl.sub b.storage_free p.request_size }

  -- A selection of `b`: it passed the constraints as it stood in the map, where it is written back.
  pub record IsSelection (Q : ℤ → Type 0) (s : Selection F) (b : Broker F) : Type 0 where
    pub source : Broker F
    pub listed : Q source.id
    pub stored : lookup source.id bm ≡ some source
    pub not_stub : (source.id == stub_broker_id) ≡ false
    pub passing : passes_with_params c p source ≡ true
    pub result : b ≡ charged source
    pub written : s.brokers ≡ insert source.id b bm

  -- A broker that the map holds, and that the list names.
  abbrev IsListed : (ℤ → Type 0) → Broker F → Type 0
  IsListed Q b = Q b.id × (lookup b.id bm ≡ some b)

  take_candidate-ok :
      (Q : ℤ → Type 0) (order : List ℤ) (o : Option (Broker F)) (b : Broker F)
      → ((x : Broker F)
          → o ≡ some x
          → (passes_with_params c p x ≡ true) × (IsListed Q x × ((x.id == stub_broker_id) ≡ false)))
      → (take_candidate bm order c p o).result ≡ ok b
      → IsSelection Q (take_candidate bm order c p o) b
  unfolding take_candidate
  take_candidate-ok Q order none b f e = cc
  take_candidate-ok Q order (some x) b f e =
      let (passing, known) = f x refl in
      let q : charged x ≡ b = cc in
      record {
        source = x;
        listed = known.0.0;
        stored = known.0.1;
        not_stub = known.1;
        passing = passing;
        result = sym q;
        written = ap (λ y. insert x.id y bm) q;
      }

  -- What the filter of SelectBroker keeps is listed and is not the stub.
  candidates-IsListed :
      (Q : ℤ → Type 0) (sorted : BrokerList F)
      → All (IsListed Q) sorted
      → All
          (λ b. IsListed Q b × ((b.id == stub_broker_id) ≡ false))
          (filter_list all_brokers_fn sorted)
  unfolding filter_list
  candidates-IsListed Q [] h = tt
  candidates-IsListed Q (b ∷ bl) (h, hs) = elim (Bool-cases (b.id == stub_broker_id)) [
    | inl e ↦ rw e (candidates-IsListed Q bl hs)
    | inr e ↦ rw e ((h, e), candidates-IsListed Q bl hs)
  ]

  select_from-ok :
      (Q : ℤ → Type 0) (bl : List ℤ) (o : Option (BrokerList F)) (b : Broker F)
      → ((l : BrokerList F) → o ≡ some l → All (IsListed Q) l)
      → (select_from bm c bl p o).result ≡ ok b
      → IsSelection Q (select_from bm c bl p o) b
  unfolding select_from
  select_from-ok Q bl none b f e = cc
  select_from-ok Q bl (some sorted) b f e =
      let candidates = filter_list all_brokers_fn sorted in
      let known = candidates-IsListed Q sorted (f sorted refl) in
      take_candidate-ok Q (map (λ x. x.id) sorted) (first_such (passes_with_params c p) candidates)
        b
        (λ x g.
          first_such-eq-some (λ y. IsListed Q y × ((y.id == stub_broker_id) ≡ false))
            (passes_with_params c p) candidates x known g)
        e

  -- When SelectBroker returns a broker, on a broker map that holds each broker at its own ID and a
  -- list of IDs that all have a property Q, that broker's ID has Q, the map held the broker there, it is
  -- not the stub broker, it passed the constraints as it stood, and it is returned and written back
  -- with one more use and the request size less free storage.
  pub select_broker-ok :
      (draw : Draw) (Q : ℤ → Type 0) (bl : List ℤ) (s : Selection F) (b : Broker F)
      → IsKeyed bm
      → All Q bl
      → select_broker draw bm c bl p ≡ some s
      → s.result ≡ ok b
      → IsSelection Q s b
  unfolding select_broker
  select_broker-ok draw Q bl s b k h e r =
      let (l, found, e') =
        >>=-eq-some (deref bm bl)
          (λ l. some (select_from bm c bl p (sort_by_method draw p.selector_method p.seed_val l)))
          e in
      let listed =
        All-deref Q (IsListed Q) bm
          (λ id x q g.
            let same = IsKeyed-lookup id x bm k g in
            (subst Q (sym same) q, subst (λ j. lookup j bm ≡ some x) (sym same) g))
          bl l h found in
      let o = sort_by_method draw p.selector_method p.seed_val l in
      let q : select_from bm c bl p o ≡ s = cc in
      subst (λ t. IsSelection Q t b) q
        (select_from-ok Q bl o b
          (λ sorted g.
            All-sort_by_method (IsListed Q) draw p.selector_method p.seed_val l sorted listed g)
          (rw q r))

  take_candidate-order :
      (order : List ℤ) (o : Option (Broker F)) → (take_candidate bm order c p o).order ≡ order
  unfolding take_candidate
  take_candidate-order order none = refl
  take_candidate-order order (some x) = refl

  select_from-order :
      (Q : ℤ → Type 0) (bl : List ℤ) (o : Option (BrokerList F))
      → All Q bl
      → ((l : BrokerList F) → o ≡ some l → All (λ b. Q b.id) l)
      → All Q (select_from bm c bl p o).order
  unfolding select_from
  select_from-order Q bl none h f = h
  select_from-order Q bl (some sorted) h f =
      let first = first_such (passes_with_params c p) (filter_list all_brokers_fn sorted) in
      subst (All Q) (sym (take_candidate-order (map (λ x. x.id) sorted) first))
        (All-map Q (λ x. x.id) sorted (f sorted refl))

  -- What holds of every listed ID holds of every ID in the order that a selection leaves.
  pub select_broker-order :
      (draw : Draw) (Q : ℤ → Type 0) (bl : List ℤ) (s : Selection F)
      → IsKeyed bm
      → All Q bl
      → select_broker draw bm c bl p ≡ some s
      → All Q s.order
  unfolding select_broker
  select_broker-order draw Q bl s k h e =
      let (l, found, e') =
        >>=-eq-some (deref bm bl)
          (λ l. some (select_from bm c bl p (sort_by_method draw p.selector_method p.seed_val l)))
          e in
      let listed =
        All-deref Q (λ b. Q b.id) bm (λ id x q g. subst Q (sym (IsKeyed-lookup id x bm k g)) q) bl l
          h found in
      let o = sort_by_method draw p.selector_method p.seed_val l in
      let q : select_from bm c bl p o ≡ s = cc in
      subst (λ t. All Q t.order) q
        (select_from-order Q bl o h (λ sorted g.
          All-sort_by_method (λ b. Q b.id) draw p.selector_method p.seed_val l sorted listed g))

  take_candidate-err :
      (order : List ℤ) (o : Option (Broker F)) (e : Error)
      → (take_candidate bm order c p o).result ≡ err e
      → (take_candidate bm order c p o).brokers ≡ bm
  unfolding take_candidate
  take_candidate-err order none e h = refl
  take_candidate-err order (some x) e h = cc

  select_from-err :
      (bl : List ℤ) (o : Option (BrokerList F)) (e : Error)
      → (select_from bm c bl p o).result ≡ err e
      → (select_from bm c bl p o).brokers ≡ bm
  unfolding select_from
  select_from-err bl none e h = refl
  select_from-err bl (some sorted) e h =
      take_candidate-err (map (λ x. x.id) sorted)
        (first_such (passes_with_params c p) (filter_list all_brokers_fn sorted)) e h

  -- A selection that fails leaves every broker as it was.
  pub select_broker-err :
      (draw : Draw) (bl : List ℤ) (s : Selection F) (e : Error)
      → select_broker draw bm c bl p ≡ some s
      → s.result ≡ err e
      → s.brokers ≡ bm
  unfolding select_broker
  select_broker-err draw bl s e h r =
      let (l, found, h') =
        >>=-eq-some (deref bm bl)
          (λ l. some (select_from bm c bl p (sort_by_method draw p.selector_method p.seed_val l)))
          h in
      let o = sort_by_method draw p.selector_method p.seed_val l in
      let q : select_from bm c bl p o ≡ s = cc in
      subst (λ t. t.brokers ≡ bm) q (select_from-err bl o e (rw q r))
