-- ===== src/Mapper/Constraints/Candidates.antt =====
-- The candidates of a selection: the brokers of a list, sorted, and the first that passes.
use kafka_kit.Base.{
  ℤ, Bool, true, false, ◌≡◌, some, none, List, [], ◌∷◌, String, refl, ◌==◌, int_key, string_key,
  All, Option-cases, Bool-cases, inl, inr, ◌>>=◌, >>=-eq-some, Perm, subst,
}
use kafka_kit.Base.GoMap.{lookup, has}
use kafka_kit.Base.Float.{Float}
use kafka_kit.Base.Shuffle.{Draw}
use kafka_kit.Base.Sort.{All-sort, sort-perm}
use kafka_kit.Mapper.Types.{Broker, BrokerMap}
use kafka_kit.Mapper.Brokers.{BrokerList, sort_pseudo_shuffle, sort_by_storage, less_by_storage}
use kafka_kit.Mapper.Brokers.Order.{All-sort_pseudo_shuffle, sort_pseudo_shuffle_lem}
use kafka_kit.Mapper.Constraints.{deref, first_such, sort_by_method}

module _ {F : Type 0} where
  pub All-deref {κ μ} :
      (Q : ℤ → Type κ) (P : Broker F → Type μ) (bm : BrokerMap F)
      → ((id : ℤ) (b : Broker F) → Q id → lookup id bm ≡ some b → P b)
      → (ids : List ℤ) (bl : BrokerList F) → All Q ids
      → deref bm ids ≡ some bl
      → All P bl
  unfolding deref
  All-deref Q P bm f [] bl h e = let q : [] ≡ bl = cc in subst (All P) q tt
  All-deref Q P bm f (id ∷ ids) bl (h, hs) e =
      let (b, found, e') =
        >>=-eq-some (lookup id bm) (λ b. deref bm ids >>= λ bl. some (b ∷ bl)) e in
      let (bl', rest, e'') = >>=-eq-some (deref bm ids) (λ bl. some (b ∷ bl)) e' in
      let q : b ∷ bl' ≡ bl = cc in
      subst (All P) q (f id b h found, All-deref Q P bm f ids bl' hs rest)

  pub deref_total :
      (bm : BrokerMap F) (ids : List ℤ)
      → All (λ id. has id bm ≡ true) ids
      → (bl : BrokerList F) × (deref bm ids ≡ some bl)
  unfolding deref has
  deref_total bm [] h = ([], refl)
  deref_total bm (id ∷ ids) (h, hs) =
      let (bl, e) = deref_total bm ids hs in
      elim (Option-cases (lookup id bm)) [
        | inl g ↦ (let h' : false ≡ true = rw (g, has) at h in cc)
        | inr (b, g) ↦ (b ∷ bl, rw (g, e) refl)
      ]

  pub first_such-eq-some {κ} :
      (P : Broker F → Type κ) (f : Broker F → Bool) (bl : BrokerList F) (x : Broker F)
      → All P bl
      → first_such f bl ≡ some x
      → (f x ≡ true) × P x
  unfolding first_such
  first_such-eq-some P f [] x h e = cc
  first_such-eq-some P f (b ∷ bl) x (h, hs) e = elim (Bool-cases (f b)) [
    | inl g ↦
        let e' : some b ≡ some x = rw g at e in
        let q : b ≡ x = cc in subst (λ y. (f y ≡ true) × P y) q (g, h)
    | inr g ↦ first_such-eq-some P f bl x hs (rw g at e)
  ]

  pub first_such-eq-none :
      (f : Broker F → Bool) (bl : BrokerList F) → first_such f bl ≡ none → All (λ b. f b ≡ false) bl
  unfolding first_such
  first_such-eq-none f [] e = tt
  first_such-eq-none f (b ∷ bl) e = elim (Bool-cases (f b)) [
    | inl g ↦ let e' : some b ≡ none = rw g at e in cc
    | inr g ↦ (g, first_such-eq-none f bl (rw g at e))
  ]

module _ {F : Type 0} ⦃fl : Float F⦄ where
  sort_by_method-cases {κ} :
      (P : BrokerList F → Type κ) (draw : Draw) (method : String) (seed : ℤ) (b s : BrokerList F)
      → P (sort_pseudo_shuffle draw seed b)
      → P (sort_by_storage b)
      → sort_by_method draw method seed b ≡ some s
      → P s
  unfolding sort_by_method
  sort_by_method-cases P draw method seed b s p q e = elim (Bool-cases (method == "count")) [
    | inl g ↦
        let e' : some (sort_pseudo_shuffle draw seed b) ≡ some s = rw g at e in
        let r : sort_pseudo_shuffle draw seed b ≡ s = cc in subst P r p
    | inr g ↦ elim (Bool-cases (method == "storage")) [
      | inl h ↦
          let e' : some (sort_by_storage b) ≡ some s = rw (g, h) at e in
          let r : sort_by_storage b ≡ s = cc in subst P r q
      | inr h ↦ let e' : none ≡ some s = rw (g, h) at e in cc
    ]
  ]

  pub All-sort_by_method {κ} :
      (P : Broker F → Type κ) (draw : Draw) (method : String) (seed : ℤ) (b s : BrokerList F)
      → All P b
      → sort_by_method draw method seed b ≡ some s
      → All P s
  unfolding sort_by_storage
  All-sort_by_method P draw method seed b s h =
      sort_by_method-cases (All P) draw method seed b s (All-sort_pseudo_shuffle P draw seed b h)
        (All-sort P less_by_storage b h)

  pub sort_by_method-perm :
      (draw : Draw) (method : String) (seed : ℤ) (b s : BrokerList F)
      → sort_by_method draw method seed b ≡ some s
      → Perm s b
  unfolding sort_by_storage
  sort_by_method-perm draw method seed b s =
      sort_by_method-cases (λ l. Perm l b) draw method seed b s
        (sort_pseudo_shuffle_lem draw seed b).0 (sort-perm less_by_storage b)
