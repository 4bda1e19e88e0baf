-- ===== src/Mapper/Constraints.antt =====
-- mapper/constraints.go: the constraints on a replacement broker, and its selection. A function that
-- follows a nil pointer panics, which is `none`; a write through a pointer is a write to the map.
pub mod Taken
pub mod Candidates
pub mod Select
pub mod Exhausted
use kafka_kit.Base.{
  filter, ℕ, suc, ◌+◌, ℤ, pos, Bool, true, false, not, ◌&&◌, Option, some, none, List, [], ◌∷◌, map,
  String, length, ltb_ℤ, ◌==◌, int_key, string_key, if◌then◌else◌, ◌>>=◌,
}
use kafka_kit.Base.GoMap.{Map, lookup, insert}
use kafka_kit.Base.Float.{Float}
use kafka_kit.Base.Shuffle.{Draw}
use kafka_kit.Mapper.Types.{
  Broker, BrokerMap, Error, Result, ok, err, no_brokers, invalid_selection_method,
}
use kafka_kit.Mapper.Brokers.{
  BrokerList, sort_pseudo_shuffle, sort_by_storage, filter_list, all_brokers_fn,
  not_replaced_brokers_fn,
}

pub record Constraints (F : Type 0) : Type 0 where
  pub request_size : F
  pub locality : Map String Bool
  pub id : Map ℤ Bool

pub record ConstraintsParams (F : Type 0) : Type 0 where
  pub selector_method : String
  pub min_unique_rack_ids : ℤ
  pub request_size : F
  pub seed_val : ℤ

module _ {F : Type 0} where
  abbrev pub has_id : Constraints F → ℤ → Bool
  has_id c id = elim (lookup id c.id) [ some v ↦ v | none ↦ false ]

  abbrev pub has_locality : Constraints F → String → Bool
  has_locality c l = elim (lookup l c.locality) [ some v ↦ v | none ↦ false ]

  -- The locality and the ID of a broker are taken.
  unfoldable pub take_broker : Broker F → Constraints F → Constraints F
  unfolding insert
  take_broker b c = record c {
    locality = if b.locality == "" then c.locality else insert b.locality true c.locality;
    id = insert b.id true c.id;
  }

  unfoldable pub take_all : BrokerList F → Constraints F → Constraints F
  unfolding take_broker
  take_all [] c = c
  take_all (b ∷ bl) c = take_all bl (take_broker b c)

  -- Constraints.MergeConstraints
  unfoldable pub merge_constraints : BrokerList F → Constraints F → Constraints F
  unfolding take_all filter_list
  merge_constraints bl c = take_all (filter_list not_replaced_brokers_fn bl) c

  -- The brokers that a list of pointers stands for.
  unfoldable pub deref : BrokerMap F → List ℤ → Option (BrokerList F)
  unfolding lookup
  deref bm [] = some []
  deref bm (id ∷ ids) = do b ← lookup id bm; bl ← deref bm ids; some (b ∷ bl)

  unfoldable pub first_such : (Broker F → Bool) → BrokerList F → Option (Broker F)
  first_such f [] = none
  first_such f (b ∷ bl) = let rest = first_such f bl in if f b then some b else rest

-- What a selection leaves: the brokers, the list in its new order, the constraints, and the result.
pub record Selection (F : Type 0) : Type 0 where
  pub brokers : BrokerMap F
  pub order : List ℤ
  pub constraints : Constraints F
  pub result : Result (Broker F)

module _ {F : Type 0} ⦃fl : Float F⦄ where
  -- NewConstraints
  abbrev pub new_constraints : Constraints F
  new_constraints = record { request_size = fl.of_ℕ 0; locality = []; id = [] }

  -- MergeConstraints, the function: the brokers that are not replaced, with no other exception.
  unfoldable pub merged_constraints : BrokerList F → Constraints F
  unfolding take_all
  merged_constraints bl = take_all (filter not_replaced_brokers_fn bl) new_constraints

  -- Constraints.Add: the broker loses the request size.
  unfoldable pub add : Broker F → Constraints F → Broker F × Constraints F
  unfolding take_broker
  add b c = (record b { storage_free = fl.sub b.storage_free c.request_size }, take_broker b c)

  -- Constraints.passes
  unfoldable pub passes : Constraints F → Broker F → Bool
  passes c b =
      if has_id c b.id
      then false
      else if has_locality c b.locality
      then false
      else not (fl.lt (fl.sub b.storage_free c.request_size) (fl.of_ℕ 0))

  -- Constraints.passesWithParams. A case of the switch that does not return ends the switch.
  unfoldable pub passes_with_params : Constraints F → ConstraintsParams F → Broker F → Bool
  passes_with_params c p b =
      let unique_rack_ids_satisfied = not (ltb_ℤ (pos (length c.locality)) p.min_unique_rack_ids) in
      if has_id c b.id
      then false
      else if has_locality c b.locality && p.min_unique_rack_ids == pos 0
      then false
      else if has_locality c b.locality && ltb_ℤ (pos 0) p.min_unique_rack_ids
      then unique_rack_ids_satisfied
      else not (fl.lt (fl.sub b.storage_free p.request_size) (fl.of_ℕ 0))

  -- The order in which the candidates are tried.
  unfoldable pub sort_by_method : Draw → String → ℤ → BrokerList F → Option (BrokerList F)
  unfolding sort_pseudo_shuffle sort_by_storage
  sort_by_method draw method seed b =
      if method == "count"
      then some (sort_pseudo_shuffle draw seed b)
      else if method == "storage"
      then some (sort_by_storage b)
      else none

  -- The candidate is added to the constraints and counted, by whichever pointer it is read.
  unfoldable pub choose : BrokerMap F → List ℤ → Constraints F → Option (Broker F) → Selection F
  unfolding add insert
  choose bm order c none = record {
    brokers = bm;
    order = order;
    constraints = c;
    result = err no_brokers;
  }
  choose bm order c (some candidate) =
      let (b, c') = add candidate c in
      let b' = record b { used = b.used + 1 } in
      record { brokers = insert b'.id b' bm; order = order; constraints = c'; result = ok b' }

  -- The candidate that passes, or none, is taken from the candidates in their order.
  unfoldable pub take_candidate :
      BrokerMap F → List ℤ → Constraints F → ConstraintsParams F → Option (Broker F) → Selection F
  unfolding choose
  take_candidate bm order c p none = choose bm order c none
  take_candidate bm order c p (some candidate) =
      choose bm order (record c { request_size = p.request_size }) (some candidate)

  abbrev invalid_method : BrokerMap F → List ℤ → Constraints F → Selection F
  invalid_method bm bl c = record {
    brokers = bm;
    order = bl;
    constraints = c;
    result = err invalid_selection_method;
  }

  unfoldable pub select_from :
      BrokerMap F
      → Constraints F
      → List ℤ
      → ConstraintsParams F
      → Option (BrokerList F)
      → Selection F
  unfolding first_such filter_list passes_with_params take_candidate
  select_from bm c bl p none = invalid_method bm bl c
  select_from bm c bl p (some sorted) =
      take_candidate bm (map (λ x. x.id) sorted) c p
        (first_such (passes_with_params c p) (filter_list all_brokers_fn sorted))

  -- Constraints.SelectBroker
  unfoldable pub select_broker :
      Draw → BrokerMap F → Constraints F → List ℤ → ConstraintsParams F → Option (Selection F)
  unfolding deref sort_by_method select_from
  select_broker draw bm c bl p = do
    b ← deref bm bl
    some (select_from bm c bl p (sort_by_method draw p.selector_method p.seed_val b))

  unfoldable pub best_from :
      BrokerMap F → List ℤ → Constraints F → Option (BrokerList F) → Selection F
  unfolding first_such filter_list passes choose
  best_from bm bl c none = invalid_method bm bl c
  best_from bm bl c (some sorted) =
      choose bm (map (λ x. x.id) sorted) c
        (first_such (passes c) (filter_list all_brokers_fn sorted))

  -- BrokerList.BestCandidate
  unfoldable pub best_candidate :
      Draw → BrokerMap F → List ℤ → Constraints F → String → ℤ → Option (Selection F)
  unfolding deref sort_by_method best_from
  best_candidate draw bm bl c method seed = do
    b ← deref bm bl
    some (best_from bm bl c (sort_by_method draw method seed b))
