-- ===== src/Planner/Apart.antt =====
-- planRelocationsForBroker: the placement constraints of a destination.
use kafka_kit.Base.{
  ℤ, Bool, true, false, not, ◌≡◌, some, none, List, [], ◌∷◌, ◌++◌, map, filter, refl, String, ◌==◌,
  int_key, string_key, beq_iff, Bool-cases, Option-cases, >>=-eq-some, inl, inr, ◌>>=◌, arith, sym,
  subst, ap, ◌∙◌,
}
use kafka_kit.Base.GoMap.{keys, lookup, contains}
use kafka_kit.Base.Float.{Float}
use kafka_kit.Mapper.Types.{Broker, BrokerMap, Partition}
use kafka_kit.Mapper.Brokers.{BrokerList, not_replaced_brokers_fn}
use kafka_kit.Mapper.Brokers.Keyed.{IsKeyed, IsKeyed-lookup}
use kafka_kit.Mapper.Brokers.Update.{zero_broker}
use kafka_kit.Mapper.Constraints.{
  Constraints, deref, has_id, has_locality, take_broker, take_all, new_constraints,
  merged_constraints, passes,
}
use kafka_kit.Mapper.Constraints.Taken.{has_id-take_broker, has_locality-take_broker}
use kafka_kit.Planner.{RelocationPlan, or_nil, is_planned, PlanParams, relocation_constraints}
use kafka_kit.Planner.Standing.{
  locality_at, replaced_at, IsUnchanged, has_id-take_more, has_locality-take_more,
}

module _ {F : Type 0} where
  deref-append :
      (bm : BrokerMap F) (xs ys : List ℤ) (held more : BrokerList F)
      → deref bm xs ≡ some held
      → deref bm ys ≡ some more
      → deref bm (xs ++ ys) ≡ some (held ++ more)
  unfolding deref
  deref-append bm [] ys held more e f =
      let q : [] ≡ held = cc in subst (λ h. deref bm ys ≡ some (h ++ more)) q f
  deref-append bm (x ∷ xs) ys held more e f =
      let (b, found, e') = >>=-eq-some (lookup x bm) (λ b. deref bm xs >>= λ bl. some (b ∷ bl)) e in
      let (bl, rest, e'') = >>=-eq-some (deref bm xs) (λ bl. some (b ∷ bl)) e' in
      let q : b ∷ bl ≡ held = cc in
      let tail = deref-append bm xs ys bl more rest f in
      rw (found, tail) (ap (λ h. some (h ++ more)) q)

  -- A broker whose ID and locality are taken
  abbrev IsTaken : Constraints F → Broker F → Type 0
  IsTaken c b =
      (has_id c b.id ≡ true) × ((b.locality == "") ≡ false → has_locality c b.locality ≡ true)

  IsTaken-take_more :
      (bl : BrokerList F) (c : Constraints F) (b : Broker F)
      → IsTaken c b
      → IsTaken (take_all bl c) b
  IsTaken-take_more bl c b (h, l) =
      (has_id-take_more bl c b.id h, λ n. has_locality-take_more bl c b.locality (l n))

  IsTaken-take_broker : (b : Broker F) (c : Constraints F) → IsTaken (take_broker b c) b
  IsTaken-take_broker b c = (
    ground (arith, has_id-take_broker b c b.id, beq_iff b.id b.id),
    λ n. ground (arith, has_locality-take_broker b c b.locality, beq_iff b.locality b.locality),
  )

  first-IsTaken :
      (b : Broker F) (bl : BrokerList F) (c : Constraints F)
      → b.replace ≡ false
      → IsTaken (take_all (filter not_replaced_brokers_fn (b ∷ bl)) c) b
  unfolding take_all
  first-IsTaken b bl c kept = rw kept (
      IsTaken-take_more (filter not_replaced_brokers_fn bl) (take_broker b c) b
        (IsTaken-take_broker b c))

  later-IsTaken :
      (a b : Broker F) (bl : BrokerList F)
      → ((c : Constraints F) → IsTaken (take_all (filter not_replaced_brokers_fn bl) c) b)
      → (c : Constraints F) → IsTaken (take_all (filter not_replaced_brokers_fn (a ∷ bl)) c) b
  unfolding take_all
  later-IsTaken a b bl h c = elim (Bool-cases a.replace) [
    | inl y ↦ rw y (h c)
    | inr n ↦ rw n (h (take_broker a c))
  ]

  -- Each broker of a list of IDs is taken, unless it is marked for replacement.
  deref-IsTaken :
      (bm : BrokerMap F) (ids : List ℤ) (bl : BrokerList F) (c : Constraints F) (j : ℤ)
      (b : Broker F)
      → deref bm ids ≡ some bl
      → contains j ids ≡ true
      → lookup j bm ≡ some b
      → b.replace ≡ false
      → IsTaken (take_all (filter not_replaced_brokers_fn bl) c) b
  unfolding deref contains
  deref-IsTaken bm [] bl c j b e h found kept = cc
  deref-IsTaken bm (x ∷ xs) bl c j b e h found kept =
      let (a, at_x, e') = >>=-eq-some (lookup x bm) (λ a. deref bm xs >>= λ bl. some (a ∷ bl)) e in
      let (rest, at_xs, e'') = >>=-eq-some (deref bm xs) (λ bl. some (a ∷ bl)) e' in
      let q : a ∷ rest ≡ bl = cc in
      subst (λ bl. IsTaken (take_all (filter not_replaced_brokers_fn bl) c) b) q
        (elim (Bool-cases (x == j)) [
          | inl same ↦
              let at_j : lookup j bm ≡ some a =
                subst (λ i. lookup i bm ≡ some a) ((beq_iff x j).0 same) at_x in
              let first : b ≡ a = cc in
              subst (λ a. IsTaken (take_all (filter not_replaced_brokers_fn (a ∷ rest)) c) b) first
                (first-IsTaken b rest c kept)
          | inr other ↦
              let further : contains j xs ≡ true = rw other at h in
              later-IsTaken a b rest (λ c. deref-IsTaken bm xs rest c j b at_xs further found kept)
                c
        ])

module _ {F : Type 0} ⦃fl : Float F⦄ (params : PlanParams F) where
  -- The brokers of the partition's other replicas, and the destinations that are planned for it
  abbrev pub holders : RelocationPlan → Partition → List ℤ
  holders plan p =
      filter (λ id. not (id == params.source_id)) p.replicas
      ++ map (λ (ids : ℤ × ℤ). ids.1) (or_nil (is_planned plan p))

  -- In the search across localities the broker is none of these and in the locality of none, unless
  -- that one is marked for replacement. An empty locality is no locality.
  pub record IsApart (bm : BrokerMap F) (plan : RelocationPlan) (p : Partition) (id : ℤ)
      (locality : String) : Type 0 where
    pub other :
        (j : ℤ)
        → params.locality_scoped ≡ false
        → contains j (holders plan p) ≡ true
        → replaced_at j bm ≡ some false
        → (j == id) ≡ false
    pub elsewhere :
        (j : ℤ) (l : String)
        → params.locality_scoped ≡ false
        → contains j (holders plan p) ≡ true
        → replaced_at j bm ≡ some false
        → locality_at j bm ≡ some l
        → (l == "") ≡ false
        → (l == locality) ≡ false

  pub IsApart-before :
      (bm bm' : BrokerMap F) (plan plan' : RelocationPlan) (p : Partition) (id : ℤ)
      (locality : String)
      → IsUnchanged bm bm'
      → plan' ≡ plan
      → IsApart bm' plan' p id locality
      → IsApart bm plan p id locality
  IsApart-before bm bm' plan plan' p id locality u e h =
      let held = λ (j : ℤ) (y : contains j (holders plan p) ≡ true).
        subst (λ r. contains j (holders r p) ≡ true) (sym e) y in
      record {
        other = λ j scoped y r. h.other j scoped (held j y) (u.replaced j ∙ r);
        elsewhere = λ j l scoped y r m n.
            h.elsewhere j l scoped (held j y) (u.replaced j ∙ r) (u.locality j ∙ m) n;
      }

  passes_apart :
      (c : Constraints F) (a b : Broker F)
      → IsTaken c b
      → passes c a ≡ true
      → ((b.id == a.id) ≡ false) × ((b.locality == "") ≡ false → (b.locality == a.locality) ≡ false)
  unfolding passes
  passes_apart c a b (h, l) pass = (
    elim (Bool-cases (b.id == a.id)) [
      | inl y ↦
          let taken : has_id c a.id ≡ true =
            subst (λ i. has_id c i ≡ true) ((beq_iff b.id a.id).0 y) h in
          let refused : passes c a ≡ false = rw (passes, taken) refl in cc
      | inr n ↦ n
    ],
    λ named. elim (Bool-cases (b.locality == a.locality)) [
      | inl y ↦
          let taken : has_locality c a.locality ≡ true =
            subst (λ i. has_locality c i ≡ true) ((beq_iff b.locality a.locality).0 y) (l named) in
          let refused : passes c a ≡ false = ground arith in cc
      | inr n ↦ n
    ],
  )

  replaced_at-some :
      (j : ℤ) (bm : BrokerMap F) (v : Bool)
      → replaced_at j bm ≡ some v
      → (b : Broker F) × (lookup j bm ≡ some b) × (b.replace ≡ v)
  replaced_at-some j bm v e = elim (Option-cases (lookup j bm)) [
    | inl n ↦ let no_broker : none ≡ some v = rw (n, replaced_at) at e in cc
    | inr (b, y) ↦ let marked : some b.replace ≡ some v = rw (y, replaced_at) at e in (b, y, cc)
  ]

  -- The constraints of a relocation take each broker that holds the partition.
  relocation_constraints-IsTaken :
      (bm : BrokerMap F) (plan : RelocationPlan) (p : Partition) (c : Constraints F) (j : ℤ)
      (b : Broker F)
      → relocation_constraints params bm plan p ≡ some c
      → contains j (holders plan p) ≡ true
      → lookup j bm ≡ some b
      → b.replace ≡ false
      → IsTaken c b
  unfolding relocation_constraints merged_constraints
  relocation_constraints-IsTaken bm plan p c j b e y found kept =
      let others = filter (λ id. not (id == params.source_id)) p.replicas in
      let receiving = map (λ (ids : ℤ × ℤ). ids.1) (or_nil (is_planned plan p)) in
      let targets = map zero_broker (keys params.offload_targets_map) in
      let all =
        λ (held more : BrokerList F). take_all targets (merged_constraints (held ++ more)) in
      let (held, e1, e2) =
        >>=-eq-some (deref bm others) (λ held. deref bm receiving >>= λ more. some (all held more))
          e in
      let (more, e3, e4) = >>=-eq-some (deref bm receiving) (λ more. some (all held more)) e2 in
      let q : all held more ≡ c = cc in
      subst (λ c. IsTaken c b) q
        (IsTaken-take_more targets (merged_constraints (held ++ more)) b (
          deref-IsTaken bm (holders plan p) (held ++ more) new_constraints j b
            (deref-append bm others receiving held more e1 e3) y found kept))

  pub relocation_constraints-IsApart :
      (bm : BrokerMap F) (plan : RelocationPlan) (p : Partition) (c : Constraints F) (a : Broker F)
      → IsKeyed bm
      → relocation_constraints params bm plan p ≡ some c
      → passes c a ≡ true
      → IsApart bm plan p a.id a.locality
  relocation_constraints-IsApart bm plan p c a keyed e pass = record {
    other = λ j scoped y r.
        let (b, found, kept) = replaced_at-some j bm false r in
        let taken = relocation_constraints-IsTaken bm plan p c j b e y found kept in
        subst (λ i. (i == a.id) ≡ false) (IsKeyed-lookup j b bm keyed found)
          (passes_apart c a b taken pass).0;
    elsewhere = λ j l scoped y r m named.
        let (b, found, kept) = replaced_at-some j bm false r in
        let taken = relocation_constraints-IsTaken bm plan p c j b e y found kept in
        let at_b : some b.locality ≡ some l = rw (found, locality_at) at m in
        let q : b.locality ≡ l = cc in
        subst (λ l. (l == a.locality) ≡ false) q
          ((passes_apart c a b taken pass).1 (subst (λ l. (l == "") ≡ false) (sym q) named));
  }
