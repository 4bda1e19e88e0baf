-- ===== src/Autothrottle/Apply/Returned.antt =====
-- internal/autothrottle/replication/throttles_update.go: applying broker throttles uses no nil rate,
-- and remembers exactly the rates that were written.
use mathlib.Core.Path.{ap₂}
use kafka_kit.Base.{
  ℤ, pos, int_key, Bool, true, false, ◌&&◌, not, List, [], ◌∷◌, Option, none, some, ◌≡◌, refl, sym,
  ap, ◌∙◌, subst, ◌==◌, beq_iff, if◌then◌else◌, arith, Bool-cases, inl, inr, if_same,
}
use kafka_kit.Base.GoMap.{contains}
use kafka_kit.Base.Float.{Float}
use kafka_kit.Autothrottle.Types.{FloatMath, ThrottleByRole, CapacityByBroker}
use kafka_kit.Autothrottle.Capacities.{rates_of}
use kafka_kit.Autothrottle.Capacities.Rates.{rates_of-store_leader, rates_of-store_follower}
use kafka_kit.Autothrottle.Manager.{Manager}
use kafka_kit.Autothrottle.Apply.{
  Applied, limit_bytes, broker_config, store_leader, store_follower, with_leader, with_follower,
  apply_broker, apply_sequential, apply_broker_throttles,
}

-- Two updates in a row, of which each may be left out, are one.
one_update :
    {R : Type 0} (u : R → R) (same inner fails_first fails : Bool) (now a b : R)
    → ((x : R) → u (u x) ≡ u x)
    → (same ≡ true → fails_first ≡ fails)
    → a ≡ (if same && not fails_first then u now else now)
    → b ≡ (if inner && not fails then u a else a)
    → b ≡ (if (if same then true else inner) && not fails then u now else now)
one_update u false inner ff fails now a b twice agree ea eb =
    subst (λ x. b ≡ (if inner && not fails then u x else x)) ea eb
one_update u true inner ff true now a b twice agree ea eb =
    let f : ff ≡ true = agree refl in
    let first : a ≡ now = rw f at ea in let last : b ≡ a = eb ∙ no_update inner in last ∙ first
  where
    no_update : (c : Bool) → (if c && false then u a else a) ≡ a
    no_update true = refl
    no_update false = refl
one_update u true inner ff false now a b twice agree ea eb =
    let f : ff ≡ false = agree refl in
    let first : a ≡ u now = rw f at ea in
    eb ∙ ap (λ x. if inner && true then u x else x) first ∙ again inner
  where
    again : (c : Bool) → (if c && true then u (u now) else u now) ≡ u now
    again true = twice now
    again false = refl

if_twice {ℓ} :
    {A : Type ℓ} (c : Bool) (x y : A)
    → (if c then (if c then x else y) else y) ≡ (if c then x else y)
if_twice true x y = refl
if_twice false x y = refl

module _ {F : Type 0} ⦃f : Float F⦄ ⦃m : FloatMath F⦄ where
  limit_bytes-none : (threshold : F) (prev : Option F) → limit_bytes threshold prev none ≡ pos 0
  unfolding limit_bytes
  limit_bytes-none threshold prev = refl

  -- What is remembered for a role: the rate that was written, or what was remembered before
  abbrev written : F → Option F → Option F → Option F → Option F
  written threshold prev rate before =
      if limit_bytes threshold prev rate == pos 0 then before else rate

  store_leader_total :
      (id : ℤ) (threshold : F) (prev rate : Option F) (st : Applied F)
      → (st' : Applied F) × (store_leader id (limit_bytes threshold prev rate) rate st ≡ some st')
        × ((k : ℤ)
            → rates_of k st'.previously_set ≡ (
                let now = rates_of k st.previously_set in
                if id == k then (written threshold prev rate now.0, now.1) else now))
  unfolding store_leader
  store_leader_total id threshold prev none st =
      let zero_bytes = limit_bytes-none threshold prev in
      (
        st,
        rw (zero_bytes) refl,
        λ k. rw (zero_bytes) (sym (if_same (id == k) (rates_of k st.previously_set))),
      )
  store_leader_total id threshold prev (some r) st =
      elim (Bool-cases (limit_bytes threshold prev (some r) == pos 0)) [
        | inl e ↦ (
          st,
          rw (store_leader, e) refl,
          λ k. rw e (sym (if_same (id == k) (rates_of k st.previously_set))),
        )
        | inr e ↦ (
          with_leader id r st,
          rw (store_leader, e) refl,
          λ k. rw e (rates_of-store_leader id k r st.previously_set),
        )
      ]

  store_follower_total :
      (id : ℤ) (threshold : F) (prev rate : Option F) (st : Applied F)
      → (st' : Applied F) × (store_follower id (limit_bytes threshold prev rate) rate st ≡ some st')
        × ((k : ℤ)
            → rates_of k st'.previously_set ≡ (
                let now = rates_of k st.previously_set in
                if id == k then (now.0, written threshold prev rate now.1) else now))
  unfolding store_follower
  store_follower_total id threshold prev none st =
      let zero_bytes = limit_bytes-none threshold prev in
      (
        st,
        rw (zero_bytes) refl,
        λ k. rw (zero_bytes) (sym (if_same (id == k) (rates_of k st.previously_set))),
      )
  store_follower_total id threshold prev (some r) st =
      elim (Bool-cases (limit_bytes threshold prev (some r) == pos 0)) [
        | inl e ↦ (
          st,
          rw (store_follower, e) refl,
          λ k. rw e (sym (if_same (id == k) (rates_of k st.previously_set))),
        )
        | inr e ↦ (
          with_follower id r st,
          rw (store_follower, e) refl,
          λ k. rw e (rates_of-store_follower id k r st.previously_set),
        )
      ]

  -- What is remembered for a broker whose config was written
  abbrev pub updated : Manager F → CapacityByBroker F → ℤ → ThrottleByRole F → ThrottleByRole F
  updated tm capacities id now =
      let prev = rates_of id tm.previously_set_throttles in
      let rates = rates_of id capacities in
      (
        written tm.change_threshold prev.0 rates.0 now.0,
        written tm.change_threshold prev.1 rates.1 now.1,
      )

  updated_twice :
      (tm : Manager F) (capacities : CapacityByBroker F) (id : ℤ) (now : ThrottleByRole F)
      → updated tm capacities id (updated tm capacities id now) ≡ updated tm capacities id now
  updated_twice tm capacities id now =
      let prev = rates_of id tm.previously_set_throttles in
      let rates = rates_of id capacities in
      let skip = λ (p r : Option F). limit_bytes tm.change_threshold p r == pos 0 in
      ap₂ (λ (x y : Option F). (x, y)) (if_twice (skip prev.0 rates.0) now.0 rates.0)
        (if_twice (skip prev.1 rates.1) now.1 rates.1)

  apply_broker_total :
      (fails : Bool) (tm : Manager F) (capacities : CapacityByBroker F) (id : ℤ) (st : Applied F)
      → (st' : Applied F) × (apply_broker fails id
            (broker_config tm capacities id)
            (rates_of id capacities)
            st
          ≡ some st')
        × ((k : ℤ)
            → rates_of k st'.previously_set ≡ (
                let now = rates_of k st.previously_set in
                if (id == k) && not fails then updated tm capacities k now else now))
  unfolding apply_broker broker_config
  apply_broker_total true tm capacities id st = (_, refl, λ k. ground arith)
  apply_broker_total false tm capacities id st =
      let prev = rates_of id tm.previously_set_throttles in
      let rates = rates_of id capacities in
      let (st1, e1, h1) = store_leader_total id tm.change_threshold prev.0 rates.0 st in
      let (st2, e2, h2) = store_follower_total id tm.change_threshold prev.1 rates.1 st1 in
      (
        st2,
        rw e1 e2,
        λ k. elim (Bool-cases (id == k)) [
          | inl same ↦
              let self : (id == id) ≡ true = (beq_iff id id).1 refl in
              let now = rates_of id st.previously_set in
              let first : rates_of id st1.previously_set
                  ≡ (written tm.change_threshold prev.0 rates.0 now.0, now.1) =
                h1 id ∙ rw self refl in
              let second : rates_of id st2.previously_set ≡ updated tm capacities id now =
                h2 id ∙ rw (self, first) refl in
              subst
                (λ (i : ℤ). rates_of i st2.previously_set ≡ (
                  if (id == i) && true
                  then updated tm capacities i (rates_of i st.previously_set)
                  else rates_of i st.previously_set))
                ((beq_iff id k).0 same) (rw self second)
          | inr other ↦ ground (arith, h1 k, h2 k)
        ],
      )

  apply_sequential_total :
      (fails : ℤ → Bool) (tm : Manager F) (capacities : CapacityByBroker F) (ids : List ℤ)
      (st : Applied F)
      → (st' : Applied F) × (apply_sequential fails tm capacities ids st ≡ some st')
        × ((k : ℤ)
            → rates_of k st'.previously_set ≡ (
                let now = rates_of k st.previously_set in
                if contains k ids && not (fails k) then updated tm capacities k now else now))
  unfolding apply_sequential contains
  apply_sequential_total fails tm capacities [] st = (st, refl, λ k. refl)
  apply_sequential_total fails tm capacities (id ∷ ids) st =
      let (st1, e1, h1) = apply_broker_total (fails id) tm capacities id st in
      let (st2, e2, h2) = apply_sequential_total fails tm capacities ids st1 in
      (
        st2,
        rw e1 e2,
        λ k.
            one_update (updated tm capacities k) (id == k) (contains k ids) (fails id) (fails k)
              (rates_of k st.previously_set) (rates_of k st1.previously_set)
              (rates_of k st2.previously_set) (updated_twice tm capacities k)
              (λ same. ap fails ((beq_iff id k).0 same)) (h1 k) (h2 k),
      )

  -- Applying broker throttles returns, without the use of a nil rate. Afterwards the remembered
  -- rates are, for each broker whose call did not fail, those of the roles that were written, and
  -- the earlier ones everywhere else.
  pub apply_broker_throttles_total :
      (fails : ℤ → Bool) (tm : Manager F) (capacities : CapacityByBroker F) (bs : List ℤ)
      → (st : Applied F) × (apply_broker_throttles fails tm capacities bs ≡ some st)
        × ((k : ℤ)
            → rates_of k st.previously_set ≡ (
                let before = rates_of k tm.previously_set_throttles in
                if contains k bs && not (fails k) then updated tm capacities k before else before))
  unfolding apply_broker_throttles
  apply_broker_throttles_total fails tm capacities bs =
      apply_sequential_total fails tm capacities bs
        (record { events = []; errors = []; previously_set = tm.previously_set_throttles })
