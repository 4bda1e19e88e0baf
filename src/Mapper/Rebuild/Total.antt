-- ===== src/Mapper/Rebuild/Total.antt =====
-- The placement of the replicas of one partition always returns, when the broker map holds the
-- brokers of the old replica set.
use kafka_kit.Base.{
  ℕ, ◌*◌, ◌+◌, ℤ, pos, Bool, true, false, ◌≡◌, Option, some, none, List, [], ◌∷◌, ◌++◌, refl, ◌==◌,
  int_key, string_key, All, All_map, Option-cases, inl, inr, ◌>>=◌, arith, if◌then◌else◌, beq_iff,
}
use kafka_kit.Base.GoMap.{Map, lookup, insert, has, contains}
use kafka_kit.Base.Float.{Float}
use kafka_kit.Base.Shuffle.{Draw}
use kafka_kit.Mapper.Types.{Broker, BrokerMap, Partition, no_brokers, Result, ok, err}
use kafka_kit.Mapper.Constraints.{
  Constraints, ConstraintsParams, deref, merge_constraints, new_constraints, sort_by_method,
  select_from, select_broker, passes_with_params,
}
use kafka_kit.Mapper.Brokers.{BrokerList}
use kafka_kit.Mapper.Constraints.Candidates.{deref_total}
use kafka_kit.Mapper.Placement.{
  RebuildParams, Progress, append_replica, get_affinity, replica_constraints, request_size, fail,
  constraints_params, placed_result, place_selected, place_sized, place_substitute, place_sized_at,
  replace_at_position, replace_in_partition,
}
use kafka_kit.Mapper.Placement.Frame.{IsSame, IsFree, view}
use kafka_kit.Mapper.Placement.Step.{IsSound, IsSound-same}
use kafka_kit.Mapper.Placement.Replace.{AreFree, get_affinity-IsAffinity}
use kafka_kit.Mapper.Rebuild.Filling.{IsKept}

-- What holds of every ID that a list contains holds of its elements.
pub All_contained :
    (P : ℤ → Type 0) (xs : List ℤ) → ((id : ℤ) → contains id xs ≡ true → P id) → All P xs
unfolding contains
All_contained P [] h = tt
All_contained P (x ∷ xs) h =
    (h x (ground (arith, beq_iff x x)), All_contained P xs (λ id k. h id (ground arith)))

module _ {F : Type 0} where
  -- The broker map holds every broker of a list.
  abbrev pub AreHeld : BrokerMap F → List ℤ → Type 0
  AreHeld bm ids = All (λ id. has id bm ≡ true) ids

  pub has_of_view :
      (bm bm' : BrokerMap F) (id : ℤ)
      → view id bm' ≡ view id bm
      → has id bm ≡ true
      → has id bm' ≡ true
  unfolding has
  has_of_view bm bm' id e h = ground arith

  has_of_free : (bm : BrokerMap F) (id : ℤ) → IsFree bm id → has id bm ≡ true
  unfolding has
  has_of_free bm id f = let stands = f.stands in ground arith

  pub has_of_kept : (bm : BrokerMap F) (id : ℤ) → IsKept bm id → has id bm ≡ true
  unfolding has
  has_of_kept bm id f = let stands = f.stands in ground arith

  pub AreHeld-same :
      (bm bm' : BrokerMap F) (ids : List ℤ) → IsSame bm bm' → AreHeld bm ids → AreHeld bm' ids
  AreHeld-same bm bm' ids same h = All_map (λ id k. has_of_view bm bm' id (same.at id) k) ids h

  pub lookup_total :
      (bm : BrokerMap F) (id : ℤ) → has id bm ≡ true → (b : Broker F) × (lookup id bm ≡ some b)
  unfolding has
  lookup_total bm id h = elim (Option-cases (lookup id bm)) [
    | inl g ↦ (let h' : false ≡ true = rw (g, has) at h in absurd (cc))
    | inr found ↦ found
  ]

-- A chain of two results that are there.
pub >>=_total {ℓ κ} :
    {A : Type ℓ} {B : Type κ} (o : Option A) (f : A → Option B)
    → (a : A) × (o ≡ some a)
    → ((a : A) → o ≡ some a → (b : B) × (f a ≡ some b))
    → (b : B) × ((o >>= f) ≡ some b)
>>=_total none f (a, e) k = absurd (cc)
>>=_total (some x) f h k = k x refl

-- A test chooses between results that are there.
pick {ℓ} :
    {A : Type ℓ} (b c : Bool) (x y : A) (z : Option A)
    → (r : A) × (z ≡ some r)
    → (r : A) × ((if b then (if c then some x else some y) else z) ≡ some r)
pick true true x y z h = (x, refl)
pick true false x y z h = (y, refl)
pick false c x y z h = h

module _ {F : Type 0} ⦃fl : Float F⦄ (draw : Draw) (params : RebuildParams F) where
  place_selected_total :
      (c : Constraints F) (cp : ConstraintsParams F) (p q : Partition) (st : Progress F)
      → IsSound st
      → (r : Partition × Progress F) × (place_selected draw params c cp p q st ≡ some r)
  unfolding place_selected select_broker
  place_selected_total c cp p q st sound =
      let held = All_map (λ id f. has_of_free st.brokers id f) st.order sound.candidates in
      let chosen = λ (l : BrokerList F).
        select_from st.brokers c st.order cp
          (sort_by_method draw cp.selector_method cp.seed_val l) in
      >>=_total (select_broker draw st.brokers c st.order cp) (λ s. some (placed_result p q st s))
        (>>=_total (deref st.brokers st.order) (λ l. some (chosen l))
          (deref_total st.brokers st.order held) (λ l e. (chosen l, refl)))
        (λ s e. (placed_result p q st s, refl))

  replica_constraints_total :
      (bm : BrokerMap F) (p q : Partition)
      → AreHeld bm p.replicas
      → AreHeld bm q.replicas
      → (c : Constraints F) × (replica_constraints bm p q ≡ some c)
  unfolding replica_constraints
  replica_constraints_total bm p q h k =
      let merged =
        λ (old placed : BrokerList F). merge_constraints (old ++ placed) new_constraints in
      >>=_total (deref bm p.replicas)
        (λ old. deref bm q.replicas >>= λ placed. some (merged old placed))
        (deref_total bm p.replicas h)
        (λ old e.
          >>=_total (deref bm q.replicas) (λ placed. some (merged old placed))
            (deref_total bm q.replicas k) (λ placed e'. (merged old placed, refl)))

  place_sized_total :
      (c : Constraints F) (p q : Partition) (st : Progress F) (size : Result F)
      → IsSound st
      → (r : Partition × Progress F) × (place_sized draw params c p q st size ≡ some r)
  unfolding place_sized
  place_sized_total c p q st (err e) sound = (_, refl)
  place_sized_total c p q st (ok s) sound =
      place_selected_total c (constraints_params draw params s (pos 1)) p q st sound

  pub replace_in_partition_total :
      (p q : Partition) (st : Progress F)
      → IsSound st
      → AreHeld st.brokers p.replicas
      → AreHeld st.brokers q.replicas
      → (r : Partition × Progress F) × (replace_in_partition draw params p q st ≡ some r)
  unfolding replace_in_partition
  replace_in_partition_total p q st sound h k =
      >>=_total (replica_constraints st.brokers p q)
        (λ c. place_sized draw params c p q st (request_size draw params p))
        (replica_constraints_total st.brokers p q h k)
        (λ c e. place_sized_total c p q st (request_size draw params p) sound)

  place_substitute_total :
      (c : Constraints F) (p q : Partition) (st : Progress F) (requested : F) (seed : ℤ)
      (affinity : Option (Broker F))
      → IsSound st
      → (r : Partition × Progress F) × (place_substitute draw params c p q st requested seed
            affinity
          ≡ some r)
  unfolding place_substitute
  place_substitute_total c p q st requested seed none sound =
      place_selected_total c (constraints_params draw params requested seed) p q st sound
  place_substitute_total c p q st requested seed (some sub) sound =
      pick (params.strategy == "count")
        (passes_with_params c (constraints_params draw params requested (pos 0)) sub)
        (append_replica sub.id q, st) (q, fail p no_brokers st)
        (place_selected draw params c (constraints_params draw params requested seed) p q st)
        (place_selected_total c (constraints_params draw params requested seed) p q st sound)

  get_affinity_total :
      (sa : Map ℤ ℤ) (id : ℤ) (bm : BrokerMap F)
      → AreFree sa bm
      → (r : Option (Broker F) × BrokerMap F) × (get_affinity sa id bm ≡ some r)
  unfolding get_affinity
  get_affinity_total sa id bm free = elim (Option-cases (lookup id sa)) [
    | inl g ↦ ((none, bm), rw (g, get_affinity) refl)
    | inr (sub, g) ↦
        let used = λ (b : Broker F). record b { used = b.used + 1 } in
        let (b, found) = lookup_total bm sub (has_of_free bm sub (free id sub g)) in
        ((some (used b), insert b.id (used b) bm), rw (g, get_affinity, found) refl)
  ]

  place_sized_at_total :
      (pass n : ℕ) (c : Constraints F) (p : Partition) (bid : ℤ) (q : Partition) (st : Progress F)
      (size : Result F)
      → IsSound st
      → AreFree params.affinities st.brokers
      → (r : Partition × Progress F) × (place_sized_at draw params pass n c p bid q st size
          ≡ some r)
  unfolding place_sized_at
  place_sized_at_total pass n c p bid q st (err e) sound free = (_, refl)
  place_sized_at_total pass n c p bid q st (ok s) sound free =
      >>=_total (get_affinity params.affinities bid st.brokers)
        (λ g.
          place_substitute draw params c p q (record st { brokers = g.1 }) s (pos (pass * n + 1))
            g.0)
        (get_affinity_total params.affinities bid st.brokers free)
        (λ g e.
          let a = get_affinity-IsAffinity params.affinities bid st.brokers g sound.keyed free e in
          let st' : Progress F = record st { brokers = g.1 } in
          place_substitute_total c p q st' s (pos (pass * n + 1)) g.0
            (IsSound-same st st' a.same refl sound))

  pub replace_at_position_total :
      (pass n : ℕ) (p : Partition) (bid : ℤ) (q : Partition) (st : Progress F)
      → IsSound st
      → AreFree params.affinities st.brokers
      → AreHeld st.brokers p.replicas
      → AreHeld st.brokers q.replicas
      → (r : Partition × Progress F) × (replace_at_position draw params pass n p bid q st ≡ some r)
  unfolding replace_at_position
  replace_at_position_total pass n p bid q st sound free h k =
      >>=_total (replica_constraints st.brokers p q)
        (λ c. place_sized_at draw params pass n c p bid q st (request_size draw params p))
        (replica_constraints_total st.brokers p q h k)
        (λ c e. place_sized_at_total pass n c p bid q st (request_size draw params p) sound free)
