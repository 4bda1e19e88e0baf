-- ===== src/Mapper/Affinities/Free.antt =====
-- The substitutes of SubstitutionAffinities are brokers that a placement may use.
use kafka_kit.Base.{
  ℤ, Bool, true, false, not, ◌≡◌, some, List, [], ◌∷◌, refl, ◌==◌, int_key, string_key, beq_iff,
  All, All_map, All-filter, Bool-cases, inl, inr, arith, sym, subst, if◌then◌else◌,
}
use kafka_kit.Base.GoMap.{Map, keys, lookup, insert, contains, has, contains-keys, All-lookup}
use kafka_kit.Mapper.Types.{Broker, BrokerMap, Partition, stub_broker_id}
use kafka_kit.Mapper.Brokers.{BrokerList}
use kafka_kit.Mapper.Brokers.Keyed.{IsKeyed}
use kafka_kit.Mapper.Affinities.{Statuses, Matching, by_status, substitution_affinities}
use kafka_kit.Mapper.Affinities.Traverse.{ids_of, substitution_affinities_keeps}
use kafka_kit.Mapper.Placement.Frame.{IsFree, view}
use kafka_kit.Mapper.Placement.Replace.{AreFree}
use kafka_kit.Mapper.Rebuild.Candidates.{IsFree_later}
use kafka_kit.Mapper.Rebuild.Filling.{distinct}

module _ {F : Type 0} where
  -- A broker that is not the stub, is not missing and is not replaced, but new, is a substitute.
  All_new :
      (P : Broker F → Type 0) (stub missing replaced new : Bool) (b : Broker F) (s : Statuses F)
      → All P s.new
      → (stub ≡ false → replaced ≡ false → P b)
      → All P
          (if stub
            then s
            else if missing
            then record s { missing = b ∷ s.missing }
            else if replaced
            then record s { replace = b ∷ s.replace }
            else if new
            then record s { new = b ∷ s.new }
            else s).new
  All_new P true missing replaced new b s h k = h
  All_new P false true replaced new b s h k = h
  All_new P false false true new b s h k = h
  All_new P false false false true b s h k = (k refl refl, h)
  All_new P false false false false b s h k = h

  by_status-IsFree :
      (m : BrokerMap F)
      → IsKeyed m
      → distinct (keys m) ≡ true
      → All (λ b. IsFree m b.id) (by_status m).new
  unfolding by_status distinct lookup
  by_status-IsFree [] k one = tt
  by_status-IsFree ((id, b) ∷ m) (kb, k) one =
      let inside = contains-keys id m in
      let absent : has id m ≡ false = ground arith in
      let later =
        All_map (λ (y : Broker F) f. IsFree_later id b m y.id absent f) (by_status m).new
          (by_status-IsFree m k (ground arith)) in
      All_new (λ y. IsFree ((id, b) ∷ m) y.id) (b.id == stub_broker_id) b.missing b.replace b.new b
        (by_status m) later
        (λ other n.
          let at : view b.id ((id, b) ∷ m) ≡ some (false, b.locality) =
            ground (arith, beq_iff id b.id) in
          record { not_stub = other; rack = b.locality; stands = at })

  -- Every broker that a map of affinities names may be used.
  abbrev AreNamedFree : BrokerMap F → Map ℤ ℤ → Type 0
  AreNamedFree bm sa = All (λ e. IsFree bm e.1) sa

  AreNamedFree-insert :
      (bm : BrokerMap F) (id sub : ℤ) (sa : Map ℤ ℤ)
      → IsFree bm sub
      → AreNamedFree bm sa
      → AreNamedFree bm (insert id sub sa)
  unfolding insert
  AreNamedFree-insert bm id sub [] f h = (f, tt)
  AreNamedFree-insert bm id sub (e ∷ sa) f (h, hs) = elim (Bool-cases (e.0 == id)) [
    | inl y ↦ rw y (f, hs)
    | inr n ↦ rw n (h, AreNamedFree-insert bm id sub sa f hs)
  ]

  taken_free :
      (bm : BrokerMap F) (bl : BrokerList F) (id : ℤ)
      → All (λ b. IsFree bm b.id) bl
      → contains id (ids_of bl) ≡ true
      → IsFree bm id
  unfolding contains
  taken_free bm [] id h e = absurd (cc)
  taken_free bm (b ∷ bl) id (h, hs) e = elim (Bool-cases (b.id == id)) [
    | inl y ↦ subst (IsFree bm) ((beq_iff b.id id).0 y) h
    | inr n ↦ taken_free bm bl id hs (rw n at e)
  ]

  -- SubstitutionAffinities, on a broker map that holds each broker once at its own ID: every
  -- substitute is a broker of the map, not the stub broker and not marked for replacement, as
  -- placeByPosition needs it, also when an error is returned.
  pub substitution_affinities-AreFree :
      (bm : BrokerMap F) (ps : List Partition) (m : Matching F)
      → IsKeyed bm
      → distinct (keys bm) ≡ true
      → substitution_affinities bm ps ≡ some m
      → AreFree m.affinities bm
  unfolding lookup
  substitution_affinities-AreFree bm ps m k one e id sub found =
      All-lookup (λ e. IsFree bm e.1) id sub m.affinities
        (substitution_affinities_keeps
          (λ sa free. AreNamedFree bm sa × All (λ b. IsFree bm b.id) free)
          (λ id sa free r t h. (
            AreNamedFree-insert bm id r.0.id sa (taken_free bm free r.0.id h.1 t.free_before) h.0,
            subst (All (λ b. IsFree bm b.id)) (sym t.others)
                (All-filter (λ b. IsFree bm b.id) (λ x. not (x.id == r.0.id)) free h.1),
          ))
          (λ sa free h. (tt, h.1)) bm ps m (tt, by_status-IsFree bm k one) e).0
        found
