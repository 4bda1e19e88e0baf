-- ===== src/Mapper/Placement/Frame.antt =====
-- What a placement leaves alone in the broker map: the IDs, the racks and the replace flags.
use kafka_kit.Base.{
  ℤ, Bool, true, false, ◌≡◌, Option, some, none, List, [], ◌∷◌, ◌++◌, String, refl, ◌==◌, int_key,
  beq_iff, Bool-cases, inl, inr, >>=-eq-some, ◌>>=◌, arith, sym, subst, ◌∙◌, if◌then◌else◌,
}
use kafka_kit.Base.GoMap.{lookup, insert, contains, lookup-insert}
use kafka_kit.Mapper.Types.{Broker, BrokerMap, stub_broker_id}
use kafka_kit.Mapper.Brokers.{BrokerList}
use kafka_kit.Mapper.Brokers.Keyed.{IsKeyed, IsKeyed-insert, IsKeyed-lookup}
use kafka_kit.Mapper.Constraints.{deref}
use kafka_kit.Mapper.Constraints.Taken.{holds_id}

module _ {F : Type 0} where
  -- The replace flag and the rack of the broker at an ID.
  abbrev pub facts : Broker F → Bool × String
  facts b = (b.replace, b.locality)

  abbrev pub view : ℤ → BrokerMap F → Option (Bool × String)
  view id bm = elim (lookup id bm) [ some b ↦ some (facts b) | none ↦ none ]

  -- The same brokers, with the same racks and flags.
  pub record IsSame (bm bm' : BrokerMap F) : Type 0 where
    pub at : (id : ℤ) → view id bm' ≡ view id bm
    pub keyed : IsKeyed bm → IsKeyed bm'

  pub IsSame-refl : (bm : BrokerMap F) → IsSame bm bm
  IsSame-refl bm = record { at = λ id. refl; keyed = λ k. k }

  pub IsSame-trans : (bm bm' bm'' : BrokerMap F) → IsSame bm bm' → IsSame bm' bm'' → IsSame bm bm''
  IsSame-trans bm bm' bm'' h k = record {
    at = λ id. k.at id ∙ h.at id;
    keyed = λ e. k.keyed (h.keyed e);
  }

  -- A broker is written back with its ID, rack and flag as they were.
  pub insert-IsSame :
      (bm : BrokerMap F) (id : ℤ) (x y : Broker F)
      → lookup id bm ≡ some x
      → y.id ≡ id
      → facts y ≡ facts x
      → IsSame bm (insert id y bm)
  insert-IsSame bm id x y found same h = record {
    at = λ j. ground (arith, lookup-insert id j y bm, beq_iff id j);
    keyed = IsKeyed-insert id y bm same;
  }

  -- A broker that is not the stub and is not replaced.
  pub record IsFree (bm : BrokerMap F) (id : ℤ) : Type 0 where
    pub not_stub : (id == stub_broker_id) ≡ false
    pub rack : String
    pub stands : view id bm ≡ some (false, rack)

  pub IsFree-same : (bm bm' : BrokerMap F) (id : ℤ) → IsSame bm bm' → IsFree bm id → IsFree bm' id
  IsFree-same bm bm' id h k = record {
    not_stub = k.not_stub;
    rack = k.rack;
    stands = h.at id ∙ k.stands;
  }

  pub IsFree-back : (bm bm' : BrokerMap F) (id : ℤ) → IsSame bm bm' → IsFree bm' id → IsFree bm id
  IsFree-back bm bm' id h k = record {
    not_stub = k.not_stub;
    rack = k.rack;
    stands = sym (h.at id) ∙ k.stands;
  }

  pub holds_id-append :
      (id : ℤ) (xs ys : BrokerList F)
      → holds_id id (xs ++ ys) ≡ (if holds_id id xs then true else holds_id id ys)
  holds_id-append id [] ys = refl
  holds_id-append id (x ∷ xs) ys = ground (arith, holds_id-append id xs ys)

  -- A broker that stays and is named by a list of pointers is held by the list of brokers.
  pub holds_id-deref :
      (bm : BrokerMap F) (id : ℤ) (ids : List ℤ) (bl : BrokerList F)
      → IsKeyed bm
      → IsFree bm id
      → deref bm ids ≡ some bl
      → contains id ids ≡ true
      → holds_id id bl ≡ true
  unfolding deref contains
  holds_id-deref bm id [] bl k free e h = cc
  holds_id-deref bm id (j ∷ ids) bl k free e h =
      let (b, found, e') =
        >>=-eq-some (lookup j bm) (λ b. deref bm ids >>= λ bl. some (b ∷ bl)) e in
      let (bl', rest, e'') = >>=-eq-some (deref bm ids) (λ bl. some (b ∷ bl)) e' in
      let q : bl ≡ b ∷ bl' = cc in
      let same = IsKeyed-lookup j b bm k found in
      let stands = free.stands in
      let not_stub = free.not_stub in
      subst (λ l. holds_id id l ≡ true) (sym q)
        (elim (Bool-cases (j == id)) [
          | inl e ↦ ground (arith, beq_iff j id, beq_iff b.id id)
          | inr n ↦ ground (arith, holds_id-deref bm id ids bl' k free rest (rw n at h))
        ])
