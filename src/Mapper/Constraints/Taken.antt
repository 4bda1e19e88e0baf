-- ===== src/Mapper/Constraints/Taken.antt =====
-- Which IDs and localities MergeConstraints takes, and which brokers a list of pointers stands for.
use kafka_kit.Base.{
  ℤ, Bool, true, false, not, ◌&&◌, ◌≡◌, [], ◌∷◌, String, arith, refl, ◌==◌, int_key, string_key,
  if◌then◌else◌,
}
use kafka_kit.Base.GoMap.{lookup-insert}
use kafka_kit.Mapper.Types.{Broker, stub_broker_id}
use kafka_kit.Mapper.Brokers.{BrokerList, filter_list}
use kafka_kit.Mapper.Constraints.{
  Constraints, has_id, has_locality, take_broker, take_all, merge_constraints,
}

module _ {F : Type 0} where
  -- A broker that stays: neither replaced nor the stub.
  abbrev pub stays : Broker F → Bool
  stays b = not (b.id == stub_broker_id) && not b.replace

  -- Whether a list holds a broker that stays, with the given ID or in the given locality.
  abbrev pub holds_id : ℤ → BrokerList F → Bool
  holds_id id [] = false
  holds_id id (b ∷ bl) = let rest = holds_id id bl in if stays b && b.id == id then true else rest

  abbrev pub holds_locality : String → BrokerList F → Bool
  holds_locality l [] = false
  holds_locality l (b ∷ bl) =
      let rest = holds_locality l bl in
      if stays b && not (b.locality == "") && b.locality == l then true else rest

  pub has_id-take_broker :
      (b : Broker F) (c : Constraints F) (id : ℤ)
      → has_id (take_broker b c) id ≡ (if b.id == id then true else has_id c id)
  unfolding take_broker
  has_id-take_broker b c id = ground (arith, lookup-insert b.id id true c.id)

  pub has_locality-take_broker :
      (b : Broker F) (c : Constraints F) (l : String)
      → has_locality (take_broker b c) l
        ≡ (if not (b.locality == "") && b.locality == l then true else has_locality c l)
  unfolding take_broker
  has_locality-take_broker b c l = ground (arith, lookup-insert b.locality l true c.locality)

  pub has_id-merge_constraints :
      (bl : BrokerList F) (c : Constraints F) (id : ℤ)
      → has_id (merge_constraints bl c) id ≡ (if holds_id id bl then true else has_id c id)
  unfolding merge_constraints take_all filter_list
  has_id-merge_constraints [] c id = refl
  has_id-merge_constraints (b ∷ bl) c id = ground (
    arith,
    has_id-merge_constraints bl c id,
    has_id-merge_constraints bl (take_broker b c) id,
    has_id-take_broker b c id,
  )

  pub has_locality-merge_constraints :
      (bl : BrokerList F) (c : Constraints F) (l : String)
      → has_locality (merge_constraints bl c) l
        ≡ (if holds_locality l bl then true else has_locality c l)
  unfolding merge_constraints take_all filter_list
  has_locality-merge_constraints [] c l = refl
  has_locality-merge_constraints (b ∷ bl) c l = ground (
    arith,
    has_locality-merge_constraints bl c l,
    has_locality-merge_constraints bl (take_broker b c) l,
    has_locality-take_broker b c l,
  )
