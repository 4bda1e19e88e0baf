-- ===== src/Mapper/Affinities/Traverse.antt =====
-- What holds of the affinities and of the free brokers through all the matching.
use kafka_kit.Base.{
  ℤ, Bool, true, false, not, ◌≡◌, Option, some, none, List, [], ◌∷◌, String, map, refl, ◌==◌,
  int_key, string_key, beq_iff, filter, All, All-filter, All_map, Bool-cases, Option-cases, inl,
  inr, >>=-eq-some, ◌>>=◌, arith, subst, ap, ◌∙◌, if◌then◌else◌, length, ltb, ◌+◌,
}
use kafka_kit.Base.GoMap.{Map, insert, contains}
use kafka_kit.Base.Sort.{All-sort}
use kafka_kit.Mapper.Types.{
  Broker, BrokerMap, Partition, Error, no_replacement_inferred, insufficient_new_brokers,
}
use kafka_kit.Mapper.Brokers.{BrokerList, sort_by_id, less_by_id}
use kafka_kit.Mapper.Affinities.{
  Matching, first_in, constraints_match, match_any, localities_available, by_status, match_missing,
  match_replaced, substitution_affinities,
}

module _ {F : Type 0} where
  abbrev pub ids_of : BrokerList F → List ℤ
  ids_of bl = map (λ b. b.id) bl

  -- The set without one broker.
  abbrev pub without : ℤ → BrokerList F → BrokerList F
  without id bl = filter (λ x. not (x.id == id)) bl

  -- A free broker, and the free brokers without it.
  pub record IsTaken (free : BrokerList F) (r : Broker F × BrokerList F) : Type 0 where
    pub free_before : contains r.0.id (ids_of free) ≡ true
    pub others : r.1 ≡ without r.0.id free

  All_contained_ids : (bl : BrokerList F) → All (λ b. contains b.id (ids_of bl) ≡ true) bl
  unfolding contains
  All_contained_ids [] = tt
  All_contained_ids (b ∷ bl) =
      (ground (arith, beq_iff b.id b.id), All_map (λ x h. ground arith) bl (All_contained_ids bl))

  module _ (P : Broker F → Type 0) where
    first_in-All :
        (l : String) (bl : BrokerList F) (x : Broker F) → All P bl → first_in l bl ≡ some x → P x
    unfolding first_in
    first_in-All l [] x h e = absurd (cc)
    first_in-All l (b ∷ bl) x (h, hs) e = elim (Bool-cases (b.locality == l)) [
      | inl y ↦ (let e' : some b ≡ some x = rw y at e in let same : b ≡ x = cc in subst P same h)
      | inr n ↦ first_in-All l bl x hs (rw n at e)
    ]

    pub constraints_match-All :
        (l : String) (new : BrokerList F) (r : Broker F × BrokerList F)
        → All P new
        → constraints_match l new ≡ some r
        → P r.0 × All P r.1
    unfolding constraints_match sort_by_id
    constraints_match-All l new r h e = elim (Option-cases (first_in l (sort_by_id new))) [
      | inl g ↦ (let e' : none ≡ some r = rw (g, constraints_match) at e in absurd (cc))
      | inr (b, g) ↦
          let rest = filter (λ x. not (x.id == b.id)) new in
          let e' : some (b, rest) ≡ some r = rw (g, constraints_match) at e in
          let same : (b, rest) ≡ r = cc in
          subst (λ (r : Broker F × BrokerList F). P r.0 × All P r.1) same
            (
              first_in-All l (sort_by_id new) b (All-sort P less_by_id new h) g,
              All-filter P (λ x. not (x.id == b.id)) new h,
            )
    ]

    pub match_any-All :
        (ls : List String) (new : BrokerList F) (r : Broker F × BrokerList F)
        → All P new
        → match_any ls new ≡ some r
        → P r.0 × All P r.1
    unfolding match_any
    match_any-All [] new r h e = absurd (cc)
    match_any-All (l ∷ ls) new r h e = elim (Option-cases (constraints_match l new)) [
      | inl g ↦ match_any-All ls new r h (rw (g, match_any) at e)
      | inr (s, g) ↦
          let e' : some s ≡ some r = rw (g, match_any) at e in
          let same : s ≡ r = cc in constraints_match-All l new r h (g ∙ ap some same)
    ]

  constraints_match-without :
      (l : String) (new : BrokerList F) (r : Broker F × BrokerList F)
      → constraints_match l new ≡ some r
      → r.1 ≡ without r.0.id new
  unfolding constraints_match
  constraints_match-without l new r e = elim (Option-cases (first_in l (sort_by_id new))) [
    | inl g ↦ (let e' : none ≡ some r = rw (g, constraints_match) at e in absurd (cc))
    | inr (b, g) ↦
        let e' : some (b, without b.id new) ≡ some r = rw (g, constraints_match) at e in
        let same : (b, without b.id new) ≡ r = cc in
        subst (λ (r : Broker F × BrokerList F). r.1 ≡ without r.0.id new) same refl
  ]

  match_any-without :
      (ls : List String) (new : BrokerList F) (r : Broker F × BrokerList F)
      → match_any ls new ≡ some r
      → r.1 ≡ without r.0.id new
  unfolding match_any
  match_any-without [] new r e = absurd (cc)
  match_any-without (l ∷ ls) new r e = elim (Option-cases (constraints_match l new)) [
    | inl g ↦ match_any-without ls new r (rw (g, match_any) at e)
    | inr (s, g) ↦
        let e' : some s ≡ some r = rw (g, match_any) at e in
        let same : s ≡ r = cc in constraints_match-without l new r (g ∙ ap some same)
  ]

  constraints_match-IsTaken :
      (l : String) (free : BrokerList F) (r : Broker F × BrokerList F)
      → constraints_match l free ≡ some r
      → IsTaken free r
  constraints_match-IsTaken l free r e = record {
    free_before =
        (constraints_match-All (λ b. contains b.id (ids_of free) ≡ true) l free r
          (All_contained_ids free) e).0;
    others = constraints_match-without l free r e;
  }

  match_any-IsTaken :
      (ls : List String) (free : BrokerList F) (r : Broker F × BrokerList F)
      → match_any ls free ≡ some r
      → IsTaken free r
  match_any-IsTaken ls free r e = record {
    free_before =
        (match_any-All (λ b. contains b.id (ids_of free) ≡ true) ls free r (All_contained_ids free)
          e).0;
    others = match_any-without ls free r e;
  }

-- A property of the affinities and the free brokers that each match keeps, and that holds of no
-- affinities if it held.
module _ {F : Type 0} (I : Map ℤ ℤ → BrokerList F → Type 0)
    (step : (id : ℤ) (sa : Map ℤ ℤ) (free : BrokerList F) (r : Broker F × BrokerList F)
      → IsTaken free r
      → I sa free
      → I (insert id r.0.id sa) r.1)
    (reset : (sa : Map ℤ ℤ) (free : BrokerList F) → I sa free → I [] free) where
  match_replaced_keeps :
      (bl : BrokerList F) (sa : Map ℤ ℤ) (free : BrokerList F)
      → I sa free
      → I (match_replaced bl sa free).affinities (match_replaced bl sa free).free
  unfolding match_replaced
  match_replaced_keeps [] sa free h = h
  match_replaced_keeps (b ∷ bl) sa free h =
      elim (Option-cases (constraints_match b.locality free)) [
        | inl g ↦ rw (g, match_replaced) h
        | inr (r, g) ↦
            rw (g, match_replaced)
              (match_replaced_keeps bl (insert b.id r.0.id sa) r.1
                (step b.id sa free r (constraints_match-IsTaken b.locality free r g) h))
      ]

  match_missing_keeps :
      (bm : BrokerMap F) (ps : List Partition) (bl : BrokerList F) (sa : Map ℤ ℤ)
      (free : BrokerList F) (m : Matching F)
      → I sa free
      → match_missing bm ps bl sa free ≡ some m
      → I m.affinities m.free
  unfolding match_missing
  match_missing_keeps bm ps [] sa free m h e =
      let done : Matching F = record { affinities = sa; free = free; error = none } in
      let same : done ≡ m = cc in subst (λ (m : Matching F). I m.affinities m.free) same h
  match_missing_keeps bm ps (b ∷ bl) sa free m h e =
      let stop : Matching F = record {
        affinities = [];
        free = free;
        error = some (no_replacement_inferred b.id);
      } in
      let next : Option (Broker F × BrokerList F) → Option (Matching F) = λ o. elim o [
        | none ↦ some stop
        | some r ↦ match_missing bm ps bl (insert b.id r.0.id sa) r.1
      ] in
      let (ls, found, e1) =
        >>=-eq-some (localities_available bm b.id ps) (λ ls. next (match_any ls free)) e in
      elim (Option-cases (match_any ls free)) [
        | inl g ↦
            let e2 : some stop ≡ some m = subst (λ o. next o ≡ some m) g e1 in
            let same : stop ≡ m = cc in
            subst (λ (m : Matching F). I m.affinities m.free) same (reset sa free h)
        | inr (r, g) ↦
            match_missing_keeps bm ps bl (insert b.id r.0.id sa) r.1 m
              (step b.id sa free r (match_any-IsTaken ls free r g) h)
              (subst (λ o. next o ≡ some m) g e1)
      ]

  pub substitution_affinities_keeps :
      (bm : BrokerMap F) (ps : List Partition) (m : Matching F)
      → I [] (by_status bm).new
      → substitution_affinities bm ps ≡ some m
      → I m.affinities m.free
  unfolding substitution_affinities
  substitution_affinities_keeps bm ps m new e =
      let s = by_status bm in
      let few : Matching F = record {
        affinities = [];
        free = s.new;
        error = some insufficient_new_brokers;
      } in
      let replaced : Matching F → Matching F = λ m. match_replaced s.replace m.affinities m.free in
      let after : Matching F → Option Error → Option (Matching F) =
        λ m o. elim o [ some e ↦ some m | none ↦ some (replaced m) ] in
      let all : Bool → Option (Matching F) = λ b.
        if b then some few else (match_missing bm ps s.missing [] s.new >>= λ m. after m m.error) in
      let at = λ (b : Bool) (h : ltb (length s.new) (length s.replace + length s.missing) ≡ b).
        subst (λ b. all b ≡ some m) h e in
      elim (Bool-cases (ltb (length s.new) (length s.replace + length s.missing))) [
        | inl y ↦
            let e1 : some few ≡ some m = at true y in
            let same : few ≡ m = cc in subst (λ (m : Matching F). I m.affinities m.free) same new
        | inr n ↦
            let (m1, got, e1) =
              >>=-eq-some (match_missing bm ps s.missing [] s.new) (λ m. after m m.error)
                (at false n) in
            let h = match_missing_keeps bm ps s.missing [] s.new m1 new got in
            elim (Option-cases m1.error) [
              | inl none_yet ↦
                  let e2 : some (replaced m1) ≡ some m =
                    subst (λ o. after m1 o ≡ some m) none_yet e1 in
                  let same : replaced m1 ≡ m = cc in
                  subst (λ (m : Matching F). I m.affinities m.free) same
                    (match_replaced_keeps s.replace m1.affinities m1.free h)
              | inr (x, failed) ↦
                  let e2 : some m1 ≡ some m = subst (λ o. after m1 o ≡ some m) failed e1 in
                  let same : m1 ≡ m = cc in subst (λ (m : Matching F). I m.affinities m.free) same h
            ]
      ]
