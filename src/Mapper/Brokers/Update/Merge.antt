-- ===== src/Mapper/Brokers/Update/Merge.antt =====
-- Which IDs BrokerMap.Update takes as provided, and the brokers that it adds for them.
use kafka_kit.Base.{
  ℤ, Bool, true, false, not, ◌≡◌, ◌&&◌, ◌||◌, List, [], ◌∷◌, Option, some, none, arith, beq_iff,
  Option-cases, inl, inr, ◌==◌, int_key, if◌then◌else◌, refl, negsuc, eqb, length, ◌∙◌, ap,
}
use kafka_kit.Base.GoMap.{
  Map, lookup, insert, has, contains, keys, has-insert, has-nil, contains-keys, lookup-insert,
}
use kafka_kit.Base.Float.{Float}
use kafka_kit.Mapper.Types.{Broker, BrokerMap, BrokerMetaMap}
use kafka_kit.Mapper.Brokers.Update.{
  Log, Provided, parse_id, parse_list, add_all, provided_brokers, merge_broker, merge_provided,
  zero_broker, broker_from_meta,
}

has-add_all :
    (id : ℤ) (ids : List ℤ) (m : Map ℤ Bool)
    → has id (add_all ids m) ≡ (if contains id ids then true else has id m)
unfolding add_all contains
has-add_all id [] m = refl
has-add_all id (j ∷ ids) m =
    ground (arith, has-add_all id ids (insert j true m), has-insert j id true m)

has-add_if :
    (id : ℤ) (c : Bool) (ids : List ℤ) (m : Map ℤ Bool)
    → has id (if c then add_all ids m else m) ≡ (if c && contains id ids then true else has id m)
has-add_if id true ids m = has-add_all id ids m
has-add_if id false ids m = refl

-- An ID of the list that is no placeholder.
abbrev named : ℤ → List ℤ → Bool
named id bl = contains id bl && not (id == negsuc 0) && not (id == negsuc 1)

has-parse_list :
    (id : ℤ) (bl : List ℤ) (p : Provided)
    → has id (parse_list bl p).brokers ≡ (if named id bl then true else has id p.brokers)
unfolding parse_list contains
has-parse_list id [] p = refl
has-parse_list id (j ∷ bl) p =
    ground
      (arith, has-parse_list id bl (parse_id j p), has-insert j id true p.brokers, beq_iff j id)

all_existing-parse_list :
    (bl : List ℤ) (p : Provided)
    → (parse_list bl p).all_existing ≡ (if contains (negsuc 0) bl then true else p.all_existing)
unfolding parse_list contains
all_existing-parse_list [] p = refl
all_existing-parse_list (j ∷ bl) p = ground (arith, all_existing-parse_list bl (parse_id j p))

all_discovered-parse_list :
    (bl : List ℤ) (p : Provided)
    → (parse_list bl p).all_discovered ≡ (if contains (negsuc 1) bl then true else p.all_discovered)
unfolding parse_list contains
all_discovered-parse_list [] p = refl
all_discovered-parse_list (j ∷ bl) p = ground (arith, all_discovered-parse_list bl (parse_id j p))

abbrev nothing_provided : Provided
nothing_provided = record { brokers = []; all_existing = false; all_discovered = false }

module _ {F : Type 0} where
  -- The IDs that a broker list stands for.
  abbrev pub is_provided : List ℤ → BrokerMap F → BrokerMetaMap F → ℤ → Bool
  is_provided bl b bm id =
      named id bl || contains (negsuc 0) bl && has id b || contains (negsuc 1) bl && has id bm

  pub has-provided_brokers :
      (bl : List ℤ) (b : BrokerMap F) (bm : BrokerMetaMap F) (id : ℤ)
      → has id (provided_brokers bl b bm) ≡ is_provided bl b bm id
  unfolding provided_brokers
  has-provided_brokers bl b bm id =
      let p = parse_list bl nothing_provided in
      let m = if p.all_existing then add_all (keys b) p.brokers else p.brokers in
      has-add_if id p.all_discovered (keys bm) m
      ∙ ap (λ h. if p.all_discovered && contains id (keys bm) then true else h)
          (has-add_if id p.all_existing (keys b) p.brokers)
      ∙ rw
          (
            has-parse_list,
            all_existing-parse_list,
            all_discovered-parse_list,
            contains-keys id b,
            contains-keys id bm,
          )
          (ground (arith, has-nil Bool id))

module _ {F : Type 0} ⦃fl : Float F⦄ (bm : BrokerMetaMap F) where
  -- The broker that is added at an ID which the map does not hold.
  abbrev pub added : ℤ → Option (Broker F)
  added id =
      if eqb (length bm) 0
      then some (record (zero_broker id) { new = true })
      else elim (lookup id bm) [ some meta ↦ some (broker_from_meta id meta) | none ↦ none ]

  lookup-merge_broker :
      (id j : ℤ) (st : BrokerMap F × Log)
      → lookup id (merge_broker bm j st).0
        ≡ (elim (lookup id st.0) [ some b ↦ some b | none ↦ if j == id then added id else none ])
  unfolding merge_broker has
  lookup-merge_broker id j st =
      let unknown = lookup-insert j id (record (zero_broker j) { new = true }) st.0 in
      elim (Option-cases (lookup j bm)) [
        | inl e ↦ ground (arith, beq_iff j id, unknown)
        | inr (meta, e) ↦
            ground (arith, beq_iff j id, unknown, lookup-insert j id (broker_from_meta j meta) st.0)
      ]

  pub lookup-merge_provided :
      (id : ℤ) (ids : List ℤ) (st : BrokerMap F × Log)
      → lookup id (merge_provided bm ids st).0 ≡ (elim (lookup id st.0) [
        | some b ↦ some b
        | none ↦ if contains id ids then added id else none
      ])
  unfolding merge_provided contains
  lookup-merge_provided id [] st = ground arith
  lookup-merge_provided id (j ∷ ids) st =
      ground
        (arith, lookup-merge_broker id j st, lookup-merge_provided id ids (merge_broker bm j st))
