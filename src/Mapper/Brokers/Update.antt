-- ===== src/Mapper/Brokers/Update.antt =====
-- mapper/brokers.go: BrokerMap.Update. Each of its loops is a function over the entries of the map,
-- which hands on the status counts and the messages sent so far.
pub mod Marks
pub mod Merge
pub mod Outcome
pub mod Counts
use kafka_kit.Base.{
  ℕ, zero, ◌+◌, ℤ, negsuc, Bool, true, false, not, ◌&&◌, ◌||◌, Option, none, some, List, [], ◌∷◌,
  ◌++◌, ◌==◌, if◌then◌else◌, int_key, string_key, ltb, eqb, length,
}
use kafka_kit.Base.GoMap.{Map, keys, has, lookup, insert}
use kafka_kit.Base.Float.{Float}
use kafka_kit.Mapper.Types.{
  Broker, BrokerMap, BrokerMeta, BrokerMetaMap, BrokerStatus, stub_broker_id,
}

-- What is sent on the channel of messages.
pub data Message : Type 0 where
  previous_missing marked_for_removal not_found new_broker no_rack_id : ℤ → Message

pub record Log : Type 0 where
  pub status : BrokerStatus
  pub msgs : List Message

abbrev no_changes : BrokerStatus
no_changes = record { new = 0; missing = 0; old_missing = 0; replace = 0; rack_missing = 0 }

abbrev send : Message → Log → Log
send m l = record l { msgs = l.msgs ++ m ∷ [] }

abbrev set_status : BrokerStatus → Log → Log
set_status s l = record l { status = s }

-- The provided IDs, and whether -1 (all existing) and -2 (all discovered) stand among them.
pub record Provided : Type 0 where
  pub brokers : Map ℤ Bool
  pub all_existing : Bool
  pub all_discovered : Bool

unfoldable pub parse_id : ℤ → Provided → Provided
unfolding insert
parse_id broker p =
    if broker == negsuc 0
    then record p { all_existing = true }
    else if broker == negsuc 1
    then record p { all_discovered = true }
    else record p { brokers = insert broker true p.brokers }

unfoldable pub parse_list : List ℤ → Provided → Provided
unfolding parse_id
parse_list [] p = p
parse_list (broker ∷ bl) p = parse_list bl (parse_id broker p)

unfoldable pub add_all : List ℤ → Map ℤ Bool → Map ℤ Bool
unfolding insert
add_all [] m = m
add_all (id ∷ ids) m = add_all ids (insert id true m)

module _ {F : Type 0} where
  unfoldable pub provided_brokers : List ℤ → BrokerMap F → BrokerMetaMap F → Map ℤ Bool
  unfolding parse_list add_all
  provided_brokers bl b bm =
      let p =
        parse_list bl (record { brokers = []; all_existing = false; all_discovered = false }) in
      let m = if p.all_existing then add_all (keys b) p.brokers else p.brokers in
      if p.all_discovered then add_all (keys bm) m else m

  -- An existing broker that is not in ZooKeeper.
  unfoldable pub mark_missing_broker :
      Map ℤ Bool → BrokerMetaMap F → ℤ → Broker F → Log → Broker F × Log
  unfolding has
  mark_missing_broker provided bm id b l =
      if id == stub_broker_id then (b, l) else if has id bm then (b, l) else (
        record b { replace = true; missing = true },
        let s = l.status in
            set_status
              (if has id provided
                then record s { missing = s.missing + 1 }
                else record s { old_missing = s.old_missing + 1 })
              (send (previous_missing id) l),
      )

  -- Set the replace flag for an existing broker that is not provided.
  unfoldable pub mark_removed_broker : Map ℤ Bool → Broker F → Log → Broker F × Log
  unfolding has
  mark_removed_broker provided b l =
      if b.id == stub_broker_id then (b, l) else if has b.id provided then (b, l) else (
        record b { replace = true },
        let s = l.status in
            set_status (record s { replace = s.replace + 1 }) (send (marked_for_removal b.id) l),
      )

  unfoldable pub mark_missing : Map ℤ Bool → BrokerMetaMap F → BrokerMap F → Log → BrokerMap F × Log
  unfolding mark_missing_broker
  mark_missing provided bm [] l = ([], l)
  mark_missing provided bm ((id, b) ∷ m) l =
      let (b', l') = mark_missing_broker provided bm id b l in
      let (m', l'') = mark_missing provided bm m l' in ((id, b') ∷ m', l'')

  unfoldable pub mark_removed : Map ℤ Bool → BrokerMap F → Log → BrokerMap F × Log
  unfolding mark_removed_broker
  mark_removed provided [] l = ([], l)
  mark_removed provided ((id, b) ∷ m) l =
      let (b', l') = mark_removed_broker provided b l in
      let (m', l'') = mark_removed provided m l' in ((id, b') ∷ m', l'')

  -- The loops over the brokers that the map holds already.
  unfoldable pub mark_existing : Map ℤ Bool → BrokerMetaMap F → BrokerMap F → BrokerMap F × Log
  unfolding mark_missing mark_removed
  mark_existing provided bm b =
      let start : Log = record { status = no_changes; msgs = [] } in
      let (b1, l1) = if ltb 0 (length bm) then mark_missing provided bm b start else (b, start) in
      mark_removed provided b1 l1

module _ {F : Type 0} ⦃fl : Float F⦄ where
  -- &Broker{ID: id}, with the zero value in every other field.
  abbrev pub zero_broker : ℤ → Broker F
  zero_broker id = record {
    id = id;
    locality = "";
    used = 0;
    storage_free = fl.of_ℕ 0;
    replace = false;
    missing = false;
    new = false;
  }

  -- A broker that ZooKeeper knows.
  unfoldable pub broker_from_meta : ℤ → BrokerMeta F → Broker F
  broker_from_meta id meta = record (zero_broker id) {
    locality = meta.rack;
    storage_free = meta.storage_free;
    new = true;
  }

  -- A provided ID that the map does not hold.
  unfoldable pub merge_broker : BrokerMetaMap F → ℤ → BrokerMap F × Log → BrokerMap F × Log
  unfolding has insert broker_from_meta
  merge_broker bm id (b, l) =
      let s = l.status in
      let counted = set_status (record s { new = s.new + 1 }) l in
      if has id b
      then (b, l)
      else if eqb (length bm) 0
      then (insert id (record (zero_broker id) { new = true }) b, counted)
      else elim (lookup id bm) [
        | some meta ↦ (insert id (broker_from_meta id meta) b, counted)
        | none ↦ (b, set_status (record s { missing = s.missing + 1 }) (send (not_found id) l))
      ]

  -- Merge provided brokers with existing brokers.
  unfoldable pub merge_provided : BrokerMetaMap F → List ℤ → BrokerMap F × Log → BrokerMap F × Log
  unfolding merge_broker
  merge_provided bm [] st = st
  merge_provided bm (id ∷ ids) st = merge_provided bm ids (merge_broker bm id st)

  -- Log new brokers.
  unfoldable pub log_new : BrokerMap F → Log → Log
  log_new [] l = l
  log_new ((id, b) ∷ m) l = log_new m (if b.new then send (new_broker b.id) l else l)

  -- Brokers with no rack ID.
  unfoldable pub log_rackless : BrokerMap F → Log → Log
  log_rackless [] l = l
  log_rackless ((id, b) ∷ m) l =
      let s = l.status in
      let counted =
        set_status (record s { rack_missing = s.rack_missing + 1 }) (send (no_rack_id b.id) l) in
      log_rackless m (
        if b.id == stub_broker_id
        then l
        else if b.missing
        then l
        else if b.locality == ""
        then counted
        else l)

  -- BrokerMap.Update: the map after it, with the status and the messages.
  unfoldable pub update : List ℤ → BrokerMetaMap F → BrokerMap F → BrokerMap F × Log
  unfolding provided_brokers mark_existing merge_provided log_new log_rackless
  update bl bm b =
      let provided = provided_brokers bl b bm in
      let (b', l) = merge_provided bm (keys provided) (mark_existing provided bm b) in
      let l' = log_new b' l in (b', if ltb 0 (length bm) then log_rackless b' l' else l')
