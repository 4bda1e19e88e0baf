-- ===== src/Mapper/Brokers/Update/Counts.antt =====
-- BrokerMap.Update: the count of new brokers, and the broker at each ID.
use kafka_kit.Base.{
  ℤ, ℕ, suc, ◌∙◌, ◌+◌, eqb, Bool-cases, Bool, true, false, ◌≡◌, List, [], ◌∷◌, arith, Option-cases,
  inl, inr, int_key, if◌then◌else◌, refl, ltb, length, ap,
}
use kafka_kit.Base.GoMap.{Map, lookup, has, keys, length-insert_absent}
use kafka_kit.Base.Float.{Float}
use kafka_kit.Mapper.Types.{Broker, BrokerMap, BrokerMetaMap}
use kafka_kit.Mapper.Brokers.Keyed.{IsKeyed, IsKeyed-insert}
use kafka_kit.Mapper.Brokers.Update.{
  Log, provided_brokers, mark_missing_broker, mark_removed_broker, mark_missing, mark_removed,
  mark_existing, merge_broker, merge_provided, zero_broker, broker_from_meta, log_new, log_rackless,
  update, no_changes, send, new_broker,
}

abbrev news : Log → ℕ
news l = l.status.new

module _ {F : Type 0} (provided : Map ℤ Bool) (bm : BrokerMetaMap F) where
  mark_missing-keeps :
      (m : BrokerMap F) (l : Log)
      → (length (mark_missing provided bm m l).0 ≡ length m)
        × (news (mark_missing provided bm m l).1 ≡ news l)
        × (IsKeyed m → IsKeyed (mark_missing provided bm m l).0)
  unfolding mark_missing mark_missing_broker
  mark_missing-keeps [] l = (refl, refl, λ k. tt)
  mark_missing-keeps ((id, b) ∷ m) l =
      let (len, new, keyed) = mark_missing-keeps m (mark_missing_broker provided bm id b l).1 in
      (ap suc len, ground arith, λ k. (ground (arith, k.0), keyed k.1))

  mark_removed-keeps :
      (m : BrokerMap F) (l : Log)
      → (length (mark_removed provided m l).0 ≡ length m)
        × (news (mark_removed provided m l).1 ≡ news l)
        × (IsKeyed m → IsKeyed (mark_removed provided m l).0)
  unfolding mark_removed mark_removed_broker
  mark_removed-keeps [] l = (refl, refl, λ k. tt)
  mark_removed-keeps ((id, b) ∷ m) l =
      let (len, new, keyed) = mark_removed-keeps m (mark_removed_broker provided b l).1 in
      (ap suc len, ground arith, λ k. (ground (arith, k.0), keyed k.1))

  mark_existing-keeps :
      (m : BrokerMap F)
      → (length (mark_existing provided bm m).0 ≡ length m)
        × (news (mark_existing provided bm m).1 ≡ 0)
        × (IsKeyed m → IsKeyed (mark_existing provided bm m).0)
  unfolding mark_existing
  mark_existing-keeps m =
      let start : Log = record { status = no_changes; msgs = [] } in
      elim (ltb 0 (length bm))
        as (λ c.
          let (b1, l1) = if c then mark_missing provided bm m start else (m, start) in
          (length (mark_removed provided b1 l1).0 ≡ length m)
          × (news (mark_removed provided b1 l1).1 ≡ 0)
          × (IsKeyed m → IsKeyed (mark_removed provided b1 l1).0)) [
            | true ↦
                let (len, new, keyed) = mark_missing-keeps m start in
                let (b1, l1) = mark_missing provided bm m start in
                let (len', new', keyed') = mark_removed-keeps b1 l1 in
                (len' ∙ len, new' ∙ new, λ k. keyed' (keyed k))
            | false ↦ mark_removed-keeps m start
          ]

module _ {F : Type 0} ⦃fl : Float F⦄ (bm : BrokerMetaMap F) where
  merge_broker-keeps :
      (id : ℤ) (st : BrokerMap F × Log)
      → (length (merge_broker bm id st).0 + news st.1
          ≡ length st.0 + news (merge_broker bm id st).1)
        × (IsKeyed st.0 → IsKeyed (merge_broker bm id st).0)
  unfolding merge_broker has
  merge_broker-keeps id (b, l) = elim (Bool-cases (has id b)) [
    | inl e ↦ rw (e, merge_broker) (refl, λ k. k)
    | inr e ↦ elim (Bool-cases (eqb (length bm) 0)) [
      | inl f ↦
          let x : Broker F = record (zero_broker id) { new = true } in
          rw (e, f, merge_broker)
            (omega (arith, length-insert_absent id x b e), IsKeyed-insert id x b refl)
      | inr f ↦ elim (Option-cases (lookup id bm)) [
        | inl g ↦ rw (e, f, g, merge_broker) (refl, λ k. k)
        | inr (meta, g) ↦
            let x = broker_from_meta id meta in
            rw (e, f, g, merge_broker)
              (omega (arith, length-insert_absent id x b e), IsKeyed-insert id x b refl)
      ]
    ]
  ]

  merge_provided-keeps :
      (ids : List ℤ) (st : BrokerMap F × Log)
      → (length (merge_provided bm ids st).0 + news st.1
          ≡ length st.0 + news (merge_provided bm ids st).1)
        × (IsKeyed st.0 → IsKeyed (merge_provided bm ids st).0)
  unfolding merge_provided
  merge_provided-keeps [] st = (refl, λ k. k)
  merge_provided-keeps (id ∷ ids) st =
      let (n, keyed) = merge_broker-keeps id st in
      let (n', keyed') = merge_provided-keeps ids (merge_broker bm id st) in
      (omega arith, λ k. keyed' (keyed k))

module _ {F : Type 0} ⦃fl : Float F⦄ where
  news-log_new : (m : BrokerMap F) (l : Log) → news (log_new m l) ≡ news l
  unfolding log_new
  news-log_new [] l = refl
  news-log_new ((id, b) ∷ m) l =
      news-log_new m (if b.new then send (new_broker b.id) l else l) ∙ ground arith

  news-log_rackless : (m : BrokerMap F) (l : Log) → news (log_rackless m l) ≡ news l
  unfolding log_rackless
  news-log_rackless [] l = refl
  news-log_rackless ((id, b) ∷ m) l = news-log_rackless m _ ∙ ground arith

  -- The map after Update is longer by the number of new brokers in the returned status.
  pub length-update :
      (bl : List ℤ) (bm : BrokerMetaMap F) (b : BrokerMap F)
      → length (update bl bm b).0 ≡ length b + (update bl bm b).1.status.new
  unfolding update
  length-update bl bm b =
      let provided = provided_brokers bl b bm in
      let st = mark_existing provided bm b in
      let (b', l) = merge_provided bm (keys provided) st in
      let l' = log_new b' l in
      let total = (merge_provided-keeps bm (keys provided) st).0 in
      let (len, none_yet, _) = mark_existing-keeps provided bm b in
      let logged : news (if ltb 0 (length bm) then log_rackless b' l' else l') ≡ news l =
        ground (arith, news-log_rackless b' l', news-log_new b' l) in
      omega (arith, total, len, none_yet, logged)

  -- Update keeps a map one that holds each broker at its own ID.
  pub IsKeyed-update :
      (bl : List ℤ) (bm : BrokerMetaMap F) (b : BrokerMap F)
      → IsKeyed b
      → IsKeyed (update bl bm b).0
  unfolding update
  IsKeyed-update bl bm b k =
      let provided = provided_brokers bl b bm in
      let st = mark_existing provided bm b in
      (merge_provided-keeps bm (keys provided) st).1 ((mark_existing-keeps provided bm b).2 k)
