-- ===== src/Mapper/Brokers.antt =====
-- mapper/brokers.go: the orders, filters and lists of brokers. A BrokerList is the list of the
-- brokers that its pointers stand for.
pub mod Keyed
pub mod Order
pub mod Update
use kafka_kit.Base.{
  ℕ, ◌-◌, ℤ, Bool, true, false, not, Option, List, [], ◌∷◌, ◌++◌, ltb, leb, eqb, ltb_ℤ, ◌==◌, ◌&&◌,
  length, filter, if◌then◌else◌, int_key,
}
use kafka_kit.Base.GoMap.{values, insert}
use kafka_kit.Base.Sort.{sort}
use kafka_kit.Base.Float.{Float}
use kafka_kit.Base.Shuffle.{Draw, Rand, seeded, shuffle}
use kafka_kit.Mapper.Types.{Broker, BrokerMap, BrokerStatus, stub_broker_id}

abbrev pub BrokerList : Type 0 → Type 0
BrokerList F = List (Broker F)

-- BrokerStatus.Changes
unfoldable pub changes : BrokerStatus → Bool
changes bs =
    if not (eqb bs.new 0)
    then true
    else if not (eqb bs.missing 0)
    then true
    else if not (eqb bs.old_missing 0)
    then true
    else if not (eqb bs.replace 0)
    then true
    else not (eqb bs.rack_missing 0)

module _ {F : Type 0} where
  -- brokersByCount.Less
  unfoldable pub less_by_count : Broker F → Broker F → Bool
  less_by_count a b =
      if ltb a.used b.used then true else if ltb b.used a.used then false else ltb_ℤ a.id b.id

  -- brokersByStorage.Less: more free storage comes first.
  unfoldable pub less_by_storage : ⦃fl : Float F⦄ → Broker F → Broker F → Bool
  less_by_storage ⦃fl⦄ a b =
      if fl.lt b.storage_free a.storage_free
      then true
      else if fl.lt a.storage_free b.storage_free
      then false
      else ltb_ℤ a.id b.id

  -- brokersByID.Less
  unfoldable pub less_by_id : Broker F → Broker F → Bool
  less_by_id a b = ltb_ℤ a.id b.id

  unfoldable pub sort_by_count : BrokerList F → BrokerList F
  unfolding sort less_by_count
  sort_by_count bl = sort less_by_count bl

  unfoldable pub sort_by_storage : ⦃fl : Float F⦄ → BrokerList F → BrokerList F
  unfolding sort less_by_storage
  sort_by_storage bl = sort less_by_storage bl

  unfoldable pub sort_by_id : BrokerList F → BrokerList F
  unfolding sort less_by_id
  sort_by_id bl = sort less_by_id bl

  -- sort.Reverse swaps the arguments of Less.
  unfoldable pub sort_by_id_desc : BrokerList F → BrokerList F
  unfolding sort less_by_id
  sort_by_id_desc bl = sort (λ a b. less_by_id b a) bl

  -- The loop of SortPseudoShuffle: `run` is b[s:k], and `curr` its Used value.
  unfoldable pub shuffle_runs : Draw → ℕ → BrokerList F → BrokerList F → Rand → BrokerList F
  unfolding shuffle
  shuffle_runs draw curr run [] r = run
  shuffle_runs draw curr run (b ∷ rest) r =
      let next =
        let (run', r') = shuffle draw run r in run' ++ shuffle_runs draw b.used (b ∷ []) rest r' in
      let same : BrokerList F = elim rest [
        | [] ↦ (shuffle draw (run ++ b ∷ []) r).0
        | c ∷ cs ↦ shuffle_runs draw curr (run ++ b ∷ []) rest r
      ] in
      if not (eqb b.used curr) then next else same

  -- Shuffles each run of equal counts.
  unfoldable pub shuffle_sorted : Draw → ℤ → BrokerList F → BrokerList F
  unfolding shuffle_runs
  shuffle_sorted draw seed [] = []
  shuffle_sorted draw seed (b ∷ rest) = shuffle_runs draw b.used [] (b ∷ rest) (seeded seed)

  -- BrokerList.SortPseudoShuffle
  unfoldable pub sort_pseudo_shuffle : Draw → ℤ → BrokerList F → BrokerList F
  unfolding sort_by_count shuffle_sorted
  sort_pseudo_shuffle draw seed bl =
      let sorted = sort_by_count bl in
      if leb (length bl) 2 then sorted else shuffle_sorted draw seed sorted

  -- BrokerFilterFn values
  abbrev pub all_brokers_fn : Broker F → Bool
  all_brokers_fn b = true

  abbrev pub not_replaced_brokers_fn : Broker F → Bool
  not_replaced_brokers_fn b = not b.replace

  abbrev pub replaced_brokers_fn : Broker F → Bool
  replaced_brokers_fn b = b.replace

  -- BrokerList.Filter
  unfoldable pub filter_list : (Broker F → Bool) → BrokerList F → BrokerList F
  filter_list f bl = filter (λ b. not (b.id == stub_broker_id) && f b) bl

  -- BrokerMap.Filter. A kept broker stands at its own ID.
  unfoldable pub filter_map : (Broker F → Bool) → BrokerMap F → BrokerMap F
  unfolding insert
  filter_map f [] = []
  filter_map f ((id, b) ∷ m) =
      let rest = filter_map f m in
      if b.id == stub_broker_id then rest else if f b then insert b.id b rest else rest

  -- BrokerMap.List
  unfoldable pub list : BrokerMap F → BrokerList F
  list bm = values bm
