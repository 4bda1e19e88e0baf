-- ===== src/Mapper/Affinities/Exclusive.antt =====
-- A new broker substitutes for one broker only.
use kafka_kit.Base.{
  ℤ, Bool, true, false, ◌≡◌, some, List, [], ◌∷◌, refl, ◌==◌, int_key, string_key, beq_iff,
  Bool-cases, inl, inr, arith, sym, subst, if◌then◌else◌,
}
use kafka_kit.Base.GoMap.{Map, keys, values, insert, contains}
use kafka_kit.Mapper.Types.{Broker, BrokerMap, Partition, stub_broker_id}
use kafka_kit.Mapper.Brokers.{BrokerList}
use kafka_kit.Mapper.Brokers.Keyed.{IsKeyed}
use kafka_kit.Mapper.Affinities.{Statuses, Matching, by_status, substitution_affinities}
use kafka_kit.Mapper.Affinities.Traverse.{ids_of, without, substitution_affinities_keeps}
use kafka_kit.Mapper.Rebuild.Filling.{distinct}

contains-values-insert :
    (x id sub : ℤ) (sa : Map ℤ ℤ)
    → contains x (values sa) ≡ false
    → (sub == x) ≡ false
    → contains x (values (insert id sub sa)) ≡ false
unfolding contains insert
contains-values-insert x id sub [] h k = ground arith
contains-values-insert x id sub (e ∷ sa) h k = elim (Bool-cases (e.0 == id)) [
  | inl y ↦ rw y (ground arith)
  | inr n ↦ rw n (let rest = contains-values-insert x id sub sa in ground arith)
]

distinct-values-insert :
    (id sub : ℤ) (sa : Map ℤ ℤ)
    → distinct (values sa) ≡ true
    → contains sub (values sa) ≡ false
    → distinct (values (insert id sub sa)) ≡ true
unfolding distinct contains insert
distinct-values-insert id sub [] h k = refl
distinct-values-insert id sub (e ∷ sa) h k = elim (Bool-cases (e.0 == id)) [
  | inl y ↦ rw y (ground arith)
  | inr n ↦
      let rest = distinct-values-insert id sub sa in
      let apart = contains-values-insert e.1 id sub sa in
      rw n (ground (arith, beq_iff e.1 sub, beq_iff sub e.1))
]

module _ {F : Type 0} where
  contains-without :
      (x id : ℤ) (bl : BrokerList F)
      → contains x (ids_of (without id bl)) ≡ (if x == id then false else contains x (ids_of bl))
  unfolding contains
  contains-without x id [] = ground arith
  contains-without x id (b ∷ bl) = elim (Bool-cases (b.id == id)) [
    | inl y ↦ rw y (
        let rest = contains-without x id bl in
        ground (arith, beq_iff b.id id, beq_iff b.id x, beq_iff x id))
    | inr n ↦ rw n (
        let rest = contains-without x id bl in
        ground (arith, beq_iff b.id id, beq_iff b.id x, beq_iff x id))
  ]

  distinct-without :
      (id : ℤ) (bl : BrokerList F)
      → distinct (ids_of bl) ≡ true
      → distinct (ids_of (without id bl)) ≡ true
  unfolding distinct contains
  distinct-without id [] h = refl
  distinct-without id (b ∷ bl) h = elim (Bool-cases (b.id == id)) [
    | inl y ↦ rw y (distinct-without id bl (ground arith))
    | inr n ↦
        rw n (let rest = distinct-without id bl in ground (arith, contains-without b.id id bl))
  ]

  -- No substitute is named twice, or is still free.
  record IsExclusive (sa : Map ℤ ℤ) (free : BrokerList F) : Type 0 where
    once : distinct (values sa) ≡ true
    free_once : distinct (ids_of free) ≡ true
    apart : (x : ℤ) → contains x (values sa) ≡ true → contains x (ids_of free) ≡ false

  IsExclusive-step :
      (id sub : ℤ) (sa : Map ℤ ℤ) (free : BrokerList F)
      → contains sub (ids_of free) ≡ true
      → IsExclusive sa free
      → IsExclusive (insert id sub sa) (without sub free)
  IsExclusive-step id sub sa free t h = record {
    once = distinct-values-insert id sub sa h.once (let apart = h.apart sub in ground arith);
    free_once = distinct-without sub free h.free_once;
    apart = λ x k.
        let apart = h.apart x in
        let later = contains-values-insert x id sub sa in
        ground (arith, contains-without x sub free, beq_iff x sub, beq_iff sub x);
  }

  -- A test on the new brokers that a further broker may pass or not.
  ids_new :
      (Q : List ℤ → Type 0) (stub missing replaced new : Bool) (b : Broker F) (s : Statuses F)
      → Q (ids_of s.new)
      → Q (b.id ∷ ids_of s.new)
      → Q (
          ids_of (
            (if stub
              then s
              else if missing
              then record s { missing = b ∷ s.missing }
              else if replaced
              then record s { replace = b ∷ s.replace }
              else if new
              then record s { new = b ∷ s.new }
              else s).new))
  ids_new Q true missing replaced new b s h k = h
  ids_new Q false true replaced new b s h k = h
  ids_new Q false false true new b s h k = h
  ids_new Q false false false true b s h k = k
  ids_new Q false false false false b s h k = h

  by_status_ids :
      (m : BrokerMap F) (x : ℤ)
      → IsKeyed m
      → contains x (keys m) ≡ false
      → contains x (ids_of (by_status m).new) ≡ false
  unfolding by_status contains
  by_status_ids [] x k h = refl
  by_status_ids ((id, b) ∷ m) x (kb, k) h =
      let rest = by_status_ids m x k (ground arith) in
      ids_new (λ l. contains x l ≡ false) (b.id == stub_broker_id) b.missing b.replace b.new b
        (by_status m) rest (ground (arith, beq_iff id x, beq_iff b.id x))

  by_status_once :
      (m : BrokerMap F)
      → IsKeyed m
      → distinct (keys m) ≡ true
      → distinct (ids_of (by_status m).new) ≡ true
  unfolding by_status distinct
  by_status_once [] k h = refl
  by_status_once ((id, b) ∷ m) (kb, k) h =
      let rest = by_status_once m k (ground arith) in
      let absent : contains id (keys m) ≡ false = ground arith in
      let apart : contains b.id (ids_of (by_status m).new) ≡ false =
        subst (λ x. contains x (ids_of (by_status m).new) ≡ false) (sym kb)
          (by_status_ids m id k absent) in
      ids_new (λ l. distinct l ≡ true) (b.id == stub_broker_id) b.missing b.replace b.new b
        (by_status m) rest (ground arith)

  -- SubstitutionAffinities, on a broker map that holds each broker once at its own ID: no broker is
  -- the substitute of two brokers.
  pub substitution_affinities_exclusive :
      (bm : BrokerMap F) (ps : List Partition) (m : Matching F)
      → IsKeyed bm
      → distinct (keys bm) ≡ true
      → substitution_affinities bm ps ≡ some m
      → distinct (values m.affinities) ≡ true
  unfolding distinct contains
  substitution_affinities_exclusive bm ps m k one e =
      let start : IsExclusive [] (by_status bm).new = record {
        once = refl;
        free_once = by_status_once bm k one;
        apart = λ x h. absurd (cc);
      } in
      (substitution_affinities_keeps IsExclusive
        (λ id sa free r t h.
          subst (IsExclusive (insert id r.0.id sa)) (sym t.others)
            (IsExclusive-step id r.0.id sa free t.free_before h))
        (λ sa free h. record { once = refl; free_once = h.free_once; apart = λ x h. absurd (cc) })
        bm ps m start e).once
