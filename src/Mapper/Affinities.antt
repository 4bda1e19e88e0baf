-- ===== src/Mapper/Affinities.antt =====
-- mapper/subaffinity.go and PartitionMap.LocalitiesAvailable. The sets of brokers that the source
-- keys by pointer are lists of brokers, in the order in which the source's range visits them.
pub mod Traverse
pub mod Exclusive
pub mod Free
use kafka_kit.Base.{
  ◌+◌, ℤ, Bool, true, false, not, Option, some, none, List, [], ◌∷◌, String, length, ltb, ltb_text,
  filter, ◌==◌, int_key, string_key, if◌then◌else◌, ◌>>=◌,
}
use kafka_kit.Base.GoMap.{Map, lookup, insert, has, keys}
use kafka_kit.Base.Sort.{sort}
use kafka_kit.Mapper.Types.{
  Broker, BrokerMap, Partition, Error, insufficient_new_brokers, no_replacement_inferred,
  insufficient_free_brokers, stub_broker_id,
}
use kafka_kit.Mapper.Brokers.{BrokerList, sort_by_id}

abbrev pub Localities : Type 0
Localities = Map String Bool

-- The union of two sets of localities.
unfoldable pub add_localities : List String → Localities → Localities
unfolding insert
add_localities [] m = m
add_localities (l ∷ ls) m = add_localities ls (insert l true m)

module _ {F : Type 0} where
  -- The localities of a replica set, and whether it holds the reference broker; nil panics.
  unfoldable pub replica_localities :
      BrokerMap F → ℤ → List ℤ → Localities → Bool → Option (Localities × Bool)
  unfolding lookup insert
  replica_localities bm id [] ls ref = some (ls, ref)
  replica_localities bm id (r ∷ rs) ls ref =
      let reference = replica_localities bm id rs ls true in
      let other = (do
        b ← lookup r bm
        replica_localities bm id rs (if b.locality == "" then ls else insert b.locality true ls)
            ref) in
      if r == id then reference else other

  -- The localities of the replica sets without the reference broker, and of those with it.
  unfoldable pub gather_localities :
      BrokerMap F → ℤ → List Partition → Localities → Localities → Option (Localities × Localities)
  unfolding replica_localities add_localities
  gather_localities bm id [] all reference = some (all, reference)
  gather_localities bm id (p ∷ ps) all reference = do
    (ls, ref) ← replica_localities bm id p.replicas [] false
    gather_localities bm id ps (if ref then all else add_localities (keys ls) all)
        (if ref then add_localities (keys ls) reference else reference)

  -- PartitionMap.LocalitiesAvailable
  unfoldable pub localities_available : BrokerMap F → ℤ → List Partition → Option (List String)
  unfolding gather_localities sort has
  localities_available bm id ps = do
    (all, reference) ← gather_localities bm id ps [] []
    some (sort ltb_text (filter (λ l. not (has l reference)) (keys all)))

  unfoldable pub first_in : String → BrokerList F → Option (Broker F)
  first_in l [] = none
  first_in l (b ∷ bl) = let rest = first_in l bl in if b.locality == l then some b else rest

  -- constraintsMatch: the first broker of the locality by ID, and the set without it.
  unfoldable pub constraints_match : String → BrokerList F → Option (Broker F × BrokerList F)
  unfolding sort_by_id first_in
  constraints_match l new = elim (first_in l (sort_by_id new)) [
    | none ↦ none
    | some b ↦ some (b, filter (λ x. not (x.id == b.id)) new)
  ]

  -- The first locality, in order, that has a free broker.
  unfoldable pub match_any : List String → BrokerList F → Option (Broker F × BrokerList F)
  unfolding constraints_match
  match_any [] new = none
  match_any (l ∷ ls) new =
      let rest = match_any ls new in
      elim (constraints_match l new) [ some r ↦ some r | none ↦ rest ]

-- The brokers by status.
pub record Statuses (F : Type 0) : Type 0 where
  pub replace : BrokerList F
  pub missing : BrokerList F
  pub new : BrokerList F

-- The map of affinities so far, the brokers still free, and the error that ended the matching.
pub record Matching (F : Type 0) : Type 0 where
  pub affinities : Map ℤ ℤ
  pub free : BrokerList F
  pub error : Option Error

module _ {F : Type 0} where
  unfoldable pub by_status : BrokerMap F → Statuses F
  by_status [] = record { replace = []; missing = []; new = [] }
  by_status ((id, b) ∷ m) =
      let s = by_status m in
      if b.id == stub_broker_id
      then s
      else if b.missing
      then record s { missing = b ∷ s.missing }
      else if b.replace
      then record s { replace = b ∷ s.replace }
      else if b.new
      then record s { new = b ∷ s.new }
      else s

  -- A substitute for each missing broker, in a locality inferred for it.
  unfoldable pub match_missing :
      BrokerMap F → List Partition → BrokerList F → Map ℤ ℤ → BrokerList F → Option (Matching F)
  unfolding localities_available match_any insert
  match_missing bm ps [] sa free = some (record { affinities = sa; free = free; error = none })
  match_missing bm ps (b ∷ bl) sa free = do
    ls ← localities_available bm b.id ps
    elim (match_any ls free) [
      | none ↦
          some
            (record { affinities = []; free = free; error = some (no_replacement_inferred b.id) })
      | some (sub, free') ↦ match_missing bm ps bl (insert b.id sub.id sa) free'
    ]

  -- A substitute of the same rack for each broker that is replaced.
  unfoldable pub match_replaced : BrokerList F → Map ℤ ℤ → BrokerList F → Matching F
  unfolding constraints_match insert
  match_replaced [] sa free = record { affinities = sa; free = free; error = none }
  match_replaced (b ∷ bl) sa free = elim (constraints_match b.locality free) [
    | none ↦ record {
      affinities = sa;
      free = free;
      error = some (insufficient_free_brokers b.locality);
    }
    | some (sub, free') ↦ match_replaced bl (insert b.id sub.id sa) free'
  ]

  -- BrokerMap.SubstitutionAffinities
  unfoldable pub substitution_affinities : BrokerMap F → List Partition → Option (Matching F)
  unfolding by_status match_missing match_replaced
  substitution_affinities bm ps =
      let s = by_status bm in
      if ltb (length s.new) (length s.replace + length s.missing)
      then some (record { affinities = []; free = s.new; error = some insufficient_new_brokers })
      else (do
        m ← match_missing bm ps s.missing [] s.new
        elim m.error [
          | some e ↦ some m
          | none ↦ some (match_replaced s.replace m.affinities m.free)
        ])
