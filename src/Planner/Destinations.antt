-- ===== src/Planner/Destinations.antt =====
-- planRelocationsForBroker: which destination is found, and that the search leaves the brokers' storage
-- alone.
use kafka_kit.Base.{
  ◌+◌, ℤ, pos, true, false, not, ◌&&◌, ◌≡◌, Option, some, none, List, [], ◌∷◌, ◌++◌, map, refl,
  String, ◌==◌, int_key, string_key, filter, All, All_of, All-map, All_zip, Bool-cases, >>=-eq-some,
  inl, inr, ◌>>=◌, arith, sym, subst, ap, ◌∙◌, beq_iff,
}
use kafka_kit.Base.GoMap.{keys, values, lookup, has}
use kafka_kit.Base.Sort.{All-sort}
use kafka_kit.Base.Float.{Float}
use kafka_kit.Base.Shuffle.{Draw}
use kafka_kit.Mapper.Types.{Broker, BrokerMap, Partition, ok, err, stub_broker_id}
use kafka_kit.Mapper.Brokers.{
  BrokerList, sort_by_storage, less_by_storage, filter_list, all_brokers_fn,
  not_replaced_brokers_fn,
}
use kafka_kit.Mapper.Brokers.Keyed.{IsKeyed-insert, IsKeyed-lookup}
use kafka_kit.Mapper.Brokers.Update.{zero_broker}
use kafka_kit.Mapper.Constraints.{
  Constraints, Selection, deref, has_id, take_all, new_constraints, merged_constraints, choose,
  best_from, best_candidate, first_such, passes, sort_by_method,
}
use kafka_kit.Mapper.Constraints.Candidates.{All-deref, first_such-eq-some, All-sort_by_method}
use kafka_kit.Mapper.Mappings.Counted.{IsDistinct-insert, lookup_own}
use kafka_kit.Planner.{
  RelocationPlan, or_nil, is_planned, PlanParams, PlanState, Destination, destination_of,
  relocation_constraints, find_destination, same_locality,
}
use kafka_kit.Planner.Standing.{
  free_at, locality_at, IsWellKeyed, IsFound, stands, lies, written-IsUnchanged, size-take_all,
  has_id-take_targets,
}
use kafka_kit.Planner.Apart.{IsApart, relocation_constraints-IsApart}
use kafka_kit.Planner.Standing.{unchanged_refl}

module _ {F : Type 0} ⦃fl : Float F⦄ (exact : (x : F) → fl.sub x (fl.of_ℕ 0) ≡ x)
    (Q : ℤ → String → Type 0) where
  -- The broker at an ID and a locality with the property
  abbrev At : Broker F → Type 0
  At b = Q b.id b.locality

  nothing-IsFound : (bm : BrokerMap F) → IsWellKeyed bm → IsFound At bm bm none
  nothing-IsFound bm well = record {
    unchanged = unchanged_refl bm;
    well = well;
    free = λ b e. cc;
    located = λ b e. cc;
    allowed = λ b e. cc;
  }

  abbrev chosen_of : Selection F → Option (Broker F)
  chosen_of s = elim s.result [ ok b ↦ some b | err e ↦ none ]

  choose-IsFound :
      (bm : BrokerMap F) (order : List ℤ) (c : Constraints F) (o : Option (Broker F))
      → IsWellKeyed bm
      → c.request_size ≡ fl.of_ℕ 0
      → ((a : Broker F) → o ≡ some a → (lookup a.id bm ≡ some a) × At a)
      → IsFound At bm (choose bm order c o).brokers (chosen_of (choose bm order c o))
  unfolding choose
  choose-IsFound bm order c none well size h = nothing-IsFound bm well
  choose-IsFound bm order c (some a) well size h =
      let (found, good) = h a refl in
      let b : Broker F = record a {
        used = a.used + 1;
        storage_free = fl.sub a.storage_free c.request_size;
      } in
      let same : b.storage_free ≡ a.storage_free =
        ap (fl.sub a.storage_free) size ∙ exact a.storage_free in
      record {
        unchanged = written-IsUnchanged bm a b found same refl refl;
        well = record {
          keyed = IsKeyed-insert a.id b bm refl well.keyed;
          distinct = IsDistinct-insert a.id b bm well.distinct;
        };
        free = λ x e.
            let q : b ≡ x = cc in
            subst (λ (y : Broker F). free_at y.id bm ≡ some y.storage_free) q
              (stands bm a found ∙ ap some (sym same));
        located = λ x e.
            let q : b ≡ x = cc in
            subst (λ (y : Broker F). locality_at y.id bm ≡ some y.locality) q (lies bm a found);
        allowed = λ x e. let q : b ≡ x = cc in subst At q good;
      }

  candidates_listed :
      (P : Broker F → Type 0) (bl : BrokerList F) → All P bl → All P (filter_list all_brokers_fn bl)
  unfolding filter_list
  candidates_listed P [] h = tt
  candidates_listed P (b ∷ bl) (h, hs) = elim (Bool-cases (b.id == stub_broker_id)) [
    | inl e ↦ rw e (candidates_listed P bl hs)
    | inr e ↦ rw e (h, candidates_listed P bl hs)
  ]

  best_from-IsFound :
      (bm : BrokerMap F) (ids : List ℤ) (c : Constraints F) (o : Option (BrokerList F))
      → IsWellKeyed bm
      → c.request_size ≡ fl.of_ℕ 0
      → ((a : Broker F) → passes c a ≡ true → At a)
      → ((l : BrokerList F) → o ≡ some l → All (λ a. lookup a.id bm ≡ some a) l)
      → IsFound At bm (best_from bm ids c o).brokers (chosen_of (best_from bm ids c o))
  unfolding best_from
  best_from-IsFound bm ids c none well size good h = nothing-IsFound bm well
  best_from-IsFound bm ids c (some sorted) well size good h =
      let candidates = filter_list all_brokers_fn sorted in
      choose-IsFound bm (map (λ x. x.id) sorted) c (first_such (passes c) candidates) well size
        (λ a e.
          let (pass, found) =
            first_such-eq-some (λ a. lookup a.id bm ≡ some a) (passes c) candidates a
              (candidates_listed (λ a. lookup a.id bm ≡ some a) sorted (h sorted refl)) e in
          (found, good a pass))

  best_candidate-IsFound :
      (draw : Draw) (bm : BrokerMap F) (ids : List ℤ) (c : Constraints F) (method : String)
      (seed : ℤ) (s : Selection F)
      → IsWellKeyed bm
      → c.request_size ≡ fl.of_ℕ 0
      → ((a : Broker F) → passes c a ≡ true → At a)
      → best_candidate draw bm ids c method seed ≡ some s
      → IsFound At bm s.brokers (chosen_of s)
  unfolding best_candidate
  best_candidate-IsFound draw bm ids c method seed s well size good e =
      let best = λ (b : BrokerList F). best_from bm ids c (sort_by_method draw method seed b) in
      let (l, found, e') = >>=-eq-some (deref bm ids) (λ b. some (best b)) e in
      let same : best l ≡ s = cc in
      let listed =
        All-deref {0, 0} (λ id. Unit) (λ a. lookup a.id bm ≡ some a) bm
          (λ id x q g.
            subst (λ j. lookup j bm ≡ some x) (sym (IsKeyed-lookup id x bm well.keyed g)) g)
          ids l (All_of (λ id. tt) ids) found in
      subst (λ (s : Selection F). IsFound At bm s.brokers (chosen_of s)) same
        (best_from-IsFound bm ids c (sort_by_method draw method seed l) well size good (λ sorted g.
          All-sort_by_method (λ a. lookup a.id bm ≡ some a) draw method seed l sorted listed g))

module _ {F : Type 0} ⦃fl : Float F⦄ (params : PlanParams F) where
  -- No offload target; in the search within the source's locality `l`, a broker of it but the source
  abbrev pub IsAllowed : String → ℤ → String → Type 0
  IsAllowed l id locality =
      (has id params.offload_targets_map ≡ false)
      × (params.locality_scoped ≡ true → ((id == params.source_id) ≡ false) × (locality ≡ l))

  same_locality-IsAllowed :
      (P : Broker F → Type 0) (l : String) (bl : BrokerList F) (b : Broker F)
      → All P bl
      → same_locality params l bl ≡ some b
      → P b × IsAllowed l b.id b.locality
  unfolding same_locality has
  same_locality-IsAllowed P l [] b h e = cc
  same_locality-IsAllowed P l (a ∷ bl) b (h, hs) e =
      let test =
        a.locality == l
        && not (a.id == params.source_id)
        && not (has a.id params.offload_targets_map) in
      elim (Bool-cases test) [
        | inl y ↦
            let e' : some a ≡ some b = rw y at e in
            let q : a ≡ b = cc in
            subst (λ (x : Broker F). P x × IsAllowed l x.id x.locality) q
              (h, (ground arith, λ scoped. (ground arith, ground (arith, beq_iff a.locality l))))
        | inr n ↦ same_locality-IsAllowed P l bl b hs (rw n at e)
      ]

  values_stand :
      (bm : BrokerMap F) → IsWellKeyed bm → All (λ b. lookup b.id bm ≡ some b) (values bm)
  values_stand bm well =
      All-map (λ b. lookup b.id bm ≡ some b) (λ e. e.1) bm
        (All_zip (λ e found k. subst (λ j. lookup j bm ≡ some e.1) (sym k) found) bm
          (lookup_own bm well.distinct) well.keyed)

  passes_free : (c : Constraints F) (a : Broker F) → passes c a ≡ true → has_id c a.id ≡ false
  unfolding passes
  passes_free c a h = ground arith

  constraints_forbid :
      (bm : BrokerMap F) (plan : RelocationPlan) (p : Partition) (c : Constraints F)
      → relocation_constraints params bm plan p ≡ some c
      → (c.request_size ≡ fl.of_ℕ 0)
        × ((a : Broker F) → passes c a ≡ true → has a.id params.offload_targets_map ≡ false)
  unfolding relocation_constraints merged_constraints
  constraints_forbid bm plan p c e =
      let others = filter (λ id. not (id == params.source_id)) p.replicas in
      let receiving = map (λ (ids : ℤ × ℤ). ids.1) (or_nil (is_planned plan p)) in
      let targets = map zero_broker (keys params.offload_targets_map) in
      let all =
        λ (held more : BrokerList F). take_all targets (merged_constraints (held ++ more)) in
      let (held, e1, e2) =
        >>=-eq-some (deref bm others) (λ held. deref bm receiving >>= λ more. some (all held more))
          e in
      let (more, e3, e4) = >>=-eq-some (deref bm receiving) (λ more. some (all held more)) e2 in
      let q : all held more ≡ c = cc in
      let inner = filter not_replaced_brokers_fn (held ++ more) in
      let merged = merged_constraints (held ++ more) in
      (
        ap (λ (d : Constraints F). d.request_size) (sym q)
            ∙ size-take_all targets merged
            ∙ size-take_all inner new_constraints,
        λ a pass. elim (Bool-cases (has a.id params.offload_targets_map)) [
          | inl y ↦
              let taken : has_id c a.id ≡ true =
                subst (λ (d : Constraints F). has_id d a.id ≡ true) q
                  (has_id-take_targets params.offload_targets_map merged a.id y) in
              let free = passes_free c a pass in cc
          | inr n ↦ n
        ],
      )

  -- An allowed broker that satisfies the placement constraints
  abbrev pub IsDestination : String → PlanState F → Partition → Broker F → Type 0
  IsDestination l st p b =
      IsAllowed l b.id b.locality × IsApart params st.brokers st.plan p b.id b.locality

module _ {F : Type 0} ⦃fl : Float F⦄ (exact : (x : F) → fl.sub x (fl.of_ℕ 0) ≡ x)
    (params : PlanParams F) (draw : Draw) where
  -- The search for a destination finds an allowed broker as it stands, or none.
  pub find_destination-IsFound :
      (l : String) (st : PlanState F) (p : Partition) (d : Destination params)
      → IsWellKeyed st.brokers
      → find_destination params draw l st p ≡ some d
      → IsFound (IsDestination params l st p) st.brokers d.brokers d.chosen
  unfolding find_destination sort_by_storage
  find_destination-IsFound l st p d well e =
      let by_storage = sort_by_storage (values st.brokers) in
      let ids = map (λ (b : Broker F). b.id) by_storage in
      elim (Bool-cases params.locality_scoped) [
        | inl y ↦
            let found : Destination params = record {
              chosen = same_locality params l by_storage;
              brokers = st.brokers;
            } in
            let e' : some found ≡ some d = rw (y, find_destination) at e in
            let q : found ≡ d = cc in
            let listed =
              All-sort (λ b. lookup b.id st.brokers ≡ some b) less_by_storage (values st.brokers)
                (values_stand params st.brokers well) in
            let known = λ (b : Broker F) (h : same_locality params l by_storage ≡ some b).
              same_locality-IsAllowed params (λ b. lookup b.id st.brokers ≡ some b) l by_storage b
                listed h in
            subst
              (λ (x : Destination params).
                IsFound (IsDestination params l st p) st.brokers x.brokers x.chosen)
              q
              (record {
                unchanged = unchanged_refl st.brokers;
                well = well;
                free = λ b h. stands st.brokers b (known b h).0;
                located = λ b h. lies st.brokers b (known b h).0;
                allowed = λ b h. (
                  (known b h).1,
                  record {
                    other =
                        λ i across held r. let clash : true ≡ false = sym y ∙ across in absurd (cc);
                    elsewhere = λ i m across held r at_m named.
                        let clash : true ≡ false = sym y ∙ across in absurd (cc);
                  },
                );
              })
        | inr n ↦
            let choice =
              λ (c : Constraints F). best_candidate draw st.brokers ids c "storage" (pos 0) in
            let give = λ (s : Selection F). some (destination_of params s) in
            let e' : (relocation_constraints params st.brokers st.plan p >>= λ c. choice c >>= give)
                ≡ some d =
              rw (n, find_destination) at e in
            let (c, e1, e2) =
              >>=-eq-some (relocation_constraints params st.brokers st.plan p)
                (λ c. choice c >>= give) e' in
            let (s, e3, e4) = >>=-eq-some (choice c) give e2 in
            let q : destination_of params s ≡ d = cc in
            let (size, forbids) = constraints_forbid params st.brokers st.plan p c e1 in
            subst
              (λ (x : Destination params).
                IsFound (IsDestination params l st p) st.brokers x.brokers x.chosen)
              q
              (best_candidate-IsFound exact
                (λ i m. IsAllowed params l i m × IsApart params st.brokers st.plan p i m) draw
                st.brokers ids c "storage" (pos 0) s well size
                (λ a pass. (
                  (
                    forbids a pass,
                    λ scoped. let clash : true ≡ false = sym scoped ∙ n in absurd (cc),
                  ),
                  relocation_constraints-IsApart params st.brokers st.plan p c a well.keyed e1 pass,
                ))
                e3)
      ]
