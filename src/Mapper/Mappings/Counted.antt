-- ===== src/Mapper/Mappings/Counted.antt =====
-- How many partitions the mappings hold, and that Remove of a partition that they hold makes it fewer.
use kafka_kit.Base.{
  Key, ℕ, ◌+◌, ◌≤◌, ◌<◌, ℤ, true, false, not, ◌≡◌, some, none, List, [], ◌∷◌, ◌++◌, length, filter,
  All, All_map, All_zip, All-append, All-filter, String, ◌==◌, int_key, string_key, beq_iff,
  Bool-cases, Option-cases, inl, inr, arith, refl, subst, sym,
}
use kafka_kit.Base.GoMap.{Map, lookup, insert, has, has-insert, All-lookup}
use kafka_kit.Base.GoMap.Extensional.{IsDistinct}
use kafka_kit.Mapper.Types.{Partition}
use kafka_kit.Mapper.Partitions.Compare.{equal_partition, equal_partition_iff}
use kafka_kit.Mapper.Mappings.{
  Mappings, Topics, remove, all_held, held, topics_of, map_replica, map_replicas, map_partitions,
  mappings,
}

module _ {ℓ κ} {K : Type ℓ} {V : Type κ} ⦃e : Key K⦄ where
  -- The sum of a weight over the values.
  abbrev pub total : (V → ℕ) → Map K V → ℕ
  total w [] = 0
  total w ((k, v) ∷ m) = w v + total w m

  total-insert :
      (w : V → ℕ) (k : K) (old new : V) (m : Map K V)
      → lookup k m ≡ some old
      → total w (insert k new m) + w old ≡ total w m + w new
  unfolding lookup insert
  total-insert w k old new [] h = cc
  total-insert w k old new ((j, v) ∷ m) h = elim (Bool-cases (j == k)) [
    | inl same ↦
        let h' : some v ≡ some old = rw same at h in
        let p : v ≡ old = cc in rw (same, p) (omega arith)
    | inr other ↦ rw other (omega (arith, total-insert w k old new m (rw other at h)))
  ]

  All-insert {μ} :
      (P : K × V → Type μ) (k : K) (v : V) (m : Map K V) → P (k, v) → All P m → All P (insert k v m)
  unfolding insert
  All-insert P k v [] p h = (p, tt)
  All-insert P k v ((j, w) ∷ m) p (h, hs) = elim (Bool-cases (j == k)) [
    | inl same ↦ rw same (p, hs)
    | inr other ↦ rw other (h, All-insert P k v m p hs)
  ]

  has_same : (k j : K) (m : Map K V) → (j == k) ≡ true → has j m ≡ false → has k m ≡ false
  has_same k j m same h = let p : j ≡ k = (beq_iff j k).0 same in cc

  lookup_later :
      (k : K) (v : V) (j : K) (w : V) (m : Map K V)
      → has k m ≡ false
      → lookup j m ≡ some w
      → lookup j ((k, v) ∷ m) ≡ some w
  unfolding has lookup
  lookup_later k v j w m h found = elim (Bool-cases (k == j)) [
    | inl same ↦ let p : k ≡ j = (beq_iff k j).0 same in ground arith
    | inr other ↦ rw other found
  ]

  pub IsDistinct-insert : (k : K) (v : V) (m : Map K V) → IsDistinct m → IsDistinct (insert k v m)
  unfolding insert has
  IsDistinct-insert k v [] h = (refl, tt)
  IsDistinct-insert k v ((j, w) ∷ m) (h, hs) = elim (Bool-cases (j == k)) [
    | inl same ↦ rw same (has_same k j m same h, hs)
    | inr other ↦
        rw other
          (ground (arith, has-insert k j v m, beq_iff k j, beq_iff j k), IsDistinct-insert k v m hs)
  ]

  -- In a map of distinct keys each entry is found at its key.
  pub lookup_own : (m : Map K V) → IsDistinct m → All (λ x. lookup x.0 m ≡ some x.1) m
  unfolding lookup has
  lookup_own [] h = tt
  lookup_own ((k, v) ∷ m) (h, hs) = (
    ground (arith, beq_iff k k),
    All_map (λ x found. lookup_later k v x.0 x.1 m h found) m (lookup_own m hs),
  )

-- A broker's mappings: each topic once, with partitions of that topic.
pub record IsTopical (t : Topics) : Type 0 where
  pub distinct : IsDistinct t
  pub named : All (λ e. All (λ q. q.topic ≡ e.0) e.1) t

abbrev pub AreTopical : Mappings → Type 0
AreTopical m = All (λ e. IsTopical e.1) m

abbrev pub mapped_count : Mappings → ℕ
mapped_count m = total (total length) m

abbrev pub without : Partition → List Partition → List Partition
without p ps = filter (λ q. not (equal_partition q p)) ps

without_shorter_or_same : (p : Partition) (ps : List Partition) → length (without p ps) ≤ length ps
without_shorter_or_same p [] = omega arith
without_shorter_or_same p (q ∷ qs) = ground (arith, without_shorter_or_same p qs)

-- Each element of a list is missing from what is left without it.
without_shorter :
    (all ps : List Partition) (P : Partition → Type 0)
    → ((p : Partition) → length (without p all) < length all → P p)
    → ((p : Partition) → length (without p ps) < length ps → length (without p all) < length all)
    → All P ps
without_shorter all [] P f g = tt
without_shorter all (p ∷ ps) P f g = (
  f p (g p (ground (arith, without_shorter_or_same p ps, equal_partition_iff p p))),
  without_shorter all ps P f (λ q h. g q (ground (arith, without_shorter_or_same q ps))),
)

-- What `held` lists for the topic of `p` is longer than what is left without `p`.
abbrev pub IsHeldIn : Topics → Partition → Type 0
IsHeldIn t p = length (without p (held p.topic t)) < length (held p.topic t)

held_found :
    (topic : String) (t : Topics) (ps : List Partition)
    → lookup topic t ≡ some ps
    → held topic t ≡ ps
held_found topic t ps e = rw (e, held) refl

held_none : (topic : String) (t : Topics) → lookup topic t ≡ none → held topic t ≡ []
held_none topic t e = rw (e, held) refl

held_entry :
    (t : Topics) (topic : String) (ps : List Partition)
    → lookup topic t ≡ some ps
    → All (λ q. q.topic ≡ topic) ps
    → All (IsHeldIn t) ps
held_entry t topic ps found named =
    All_zip
      (λ q short same.
        subst (λ l. length (without q l) < length l)
          (sym (held_found q.topic t ps (subst (λ x. lookup x t ≡ some ps) (sym same) found)))
          short)
      ps (without_shorter ps ps (λ q. length (without q ps) < length ps) (λ q h. h) (λ q h. h))
      named

held_entries :
    (t sub : Topics)
    → All (λ e. lookup e.0 t ≡ some e.1) sub
    → All (λ e. All (λ q. q.topic ≡ e.0) e.1) sub
    → All (IsHeldIn t) (all_held sub)
unfolding all_held
held_entries t [] found named = tt
held_entries t ((topic, ps) ∷ sub) (found, fs) (named, ns) =
    All-append (IsHeldIn t) ps (all_held sub) (held_entry t topic ps found named)
      (held_entries t sub fs ns)

-- Every partition of a broker's mappings is held under its topic.
pub all_held-AreHeldIn : (t : Topics) → IsTopical t → All (IsHeldIn t) (all_held t)
all_held-AreHeldIn t h = held_entries t t (lookup_own t h.distinct) h.named

pub count-remove :
    (id : ℤ) (p : Partition) (m : Mappings) (t : Topics)
    → lookup id m ≡ some t
    → IsHeldIn t p
    → mapped_count (remove id p m).0 < mapped_count m
unfolding remove
count-remove id p m t found short = elim (Option-cases (lookup p.topic t)) [
  | inl e ↦
      absurd
        (omega (arith, subst (λ l. length (without p l) < length l) (held_none p.topic t e) short))
  | inr (ps, e) ↦
      let less : length (without p ps) < length ps =
        subst (λ l. length (without p l) < length l) (held_found p.topic t ps e) short in
      rw (found, remove, e)
        (omega (
          arith,
          total-insert length p.topic ps (without p ps) t e,
          total-insert (total length) id t (insert p.topic (without p ps) t) m found,
          less,
        ))
]

IsTopical-insert :
    (t : Topics) (topic : String) (ps : List Partition)
    → IsTopical t
    → All (λ q. q.topic ≡ topic) ps
    → IsTopical (insert topic ps t)
IsTopical-insert t topic ps h named = record {
  distinct = IsDistinct-insert topic ps t h.distinct;
  named = All-insert (λ e. All (λ q. q.topic ≡ e.0) e.1) topic ps t named h.named;
}

-- Remove keeps the mappings of every broker topical.
pub remove-AreTopical :
    (id : ℤ) (p : Partition) (m : Mappings) → AreTopical m → AreTopical (remove id p m).0
unfolding remove
remove-AreTopical id p m h = elim (Option-cases (lookup id m)) [
  | inl e ↦ rw (e, remove) h
  | inr (t, e) ↦ elim (Option-cases (lookup p.topic t)) [
    | inl f ↦ rw (e, remove, f) h
    | inr (ps, f) ↦
        let ht : IsTopical t = All-lookup (λ x. IsTopical x.1) id t m h e in
        let named = All-lookup (λ x. All (λ q. q.topic ≡ x.0) x.1) p.topic ps t ht.named f in
        rw (e, remove, f)
          (All-insert (λ x. IsTopical x.1) id (insert p.topic (without p ps) t) m
            (IsTopical-insert t p.topic (without p ps) ht
              (All-filter (λ q. q.topic ≡ p.topic) (λ q. not (equal_partition q p)) ps named))
            h)
  ]
]

topics_of-IsTopical : (id : ℤ) (m : Mappings) → AreTopical m → IsTopical (topics_of id m)
topics_of-IsTopical id m h = elim (Option-cases (lookup id m)) [
  | inl e ↦ rw (e, topics_of) (record { distinct = tt; named = tt })
  | inr (t, e) ↦ rw (e, topics_of) (All-lookup (λ x. IsTopical x.1) id t m h e)
]

held_named : (topic : String) (t : Topics) → IsTopical t → All (λ q. q.topic ≡ topic) (held topic t)
held_named topic t h = elim (Option-cases (lookup topic t)) [
  | inl e ↦ subst (All (λ q. q.topic ≡ topic)) (sym (held_none topic t e)) tt
  | inr (ps, e) ↦
      subst (All (λ q. q.topic ≡ topic)) (sym (held_found topic t ps e))
        (All-lookup (λ x. All (λ q. q.topic ≡ x.0) x.1) topic ps t h.named e)
]

map_replica-AreTopical :
    (p : Partition) (id : ℤ) (m : Mappings) → AreTopical m → AreTopical (map_replica p id m)
unfolding map_replica
map_replica-AreTopical p id m h =
    let t = topics_of id m in
    let ht = topics_of-IsTopical id m h in
    All-insert (λ x. IsTopical x.1) id (insert p.topic (held p.topic t ++ p ∷ []) t) m
      (IsTopical-insert t p.topic (held p.topic t ++ p ∷ []) ht (
        All-append (λ q. q.topic ≡ p.topic) (held p.topic t) (p ∷ []) (held_named p.topic t ht)
          (refl, tt)))
      h

map_replicas-AreTopical :
    (p : Partition) (ids : List ℤ) (m : Mappings) → AreTopical m → AreTopical (map_replicas p ids m)
unfolding map_replicas
map_replicas-AreTopical p [] m h = h
map_replicas-AreTopical p (id ∷ ids) m h =
    map_replicas-AreTopical p ids (map_replica p id m) (map_replica-AreTopical p id m h)

map_partitions-AreTopical :
    (ps : List Partition) (m : Mappings) → AreTopical m → AreTopical (map_partitions ps m)
unfolding map_partitions
map_partitions-AreTopical [] m h = h
map_partitions-AreTopical (p ∷ ps) m h =
    map_partitions-AreTopical ps (map_replicas p p.replicas m)
      (map_replicas-AreTopical p p.replicas m h)

-- The mappings of a partition map are topical.
pub mappings-AreTopical : (ps : List Partition) → AreTopical (mappings ps)
unfolding mappings
mappings-AreTopical ps = map_partitions-AreTopical ps [] tt
