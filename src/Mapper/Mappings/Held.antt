-- ===== src/Mapper/Mappings/Held.antt =====
-- What Mappings holds for a broker and a topic, when it is built and after Remove.
use mathlib.Core.List.{append-nil, append_assoc}
use kafka_kit.Base.{
  ℤ, Bool, true, false, not, ◌&&◌, ◌≡◌, List, [], ◌∷◌, ◌++◌, String, refl, filter, All, ◌==◌,
  int_key, string_key, beq_iff, Option-cases, inl, inr, arith, if◌then◌else◌, sym, ◌∙◌, ap,
}
use kafka_kit.Base.GoMap.{lookup, insert, contains, lookup-insert}
use kafka_kit.Mapper.Types.{Partition}
use kafka_kit.Mapper.Partitions.Compare.{equal_partition}
use kafka_kit.Mapper.Mappings.{
  Mappings, topics_of, held, map_replica, map_replicas, map_partitions, mappings, remove,
}
use kafka_kit.Mapper.Rebuild.Filling.{distinct}

-- The partitions of a topic that a broker is mapped to.
abbrev pub partitions_of : ℤ → String → Mappings → List Partition
partitions_of id t m = held t (topics_of id m)

-- Remove takes the partitions equal to `p` from those of its topic that the broker is mapped to, and
-- leaves every other broker and topic as it was, also where it returns an error.
pub partitions_of-remove :
    (id : ℤ) (p : Partition) (m : Mappings) (x : ℤ) (t : String)
    → partitions_of x t (remove id p m).0 ≡ (
        if id == x && p.topic == t
        then filter (λ q. not (equal_partition q p)) (partitions_of x t m)
        else partitions_of x t m)
unfolding remove
partitions_of-remove id p m x t = elim (Option-cases (lookup id m)) [
  | inl g ↦ rw (g, remove) (ground (arith, beq_iff id x))
  | inr (ts, g) ↦ elim (Option-cases (lookup p.topic ts)) [
    | inl g' ↦ rw (g, remove, g') (ground (arith, beq_iff id x, beq_iff p.topic t))
    | inr (ps, g') ↦
        let left = filter (λ q. not (equal_partition q p)) ps in
        rw (g, remove, g')
          (ground (
            arith,
            lookup-insert id x (insert p.topic left ts) m,
            lookup-insert p.topic t left ts,
            beq_iff id x,
            beq_iff p.topic t,
          ))
  ]
]

partitions_of-map_replica :
    (p : Partition) (id : ℤ) (m : Mappings) (x : ℤ) (t : String)
    → partitions_of x t (map_replica p id m)
      ≡ (if id == x && p.topic == t then partitions_of x t m ++ p ∷ [] else partitions_of x t m)
unfolding map_replica
partitions_of-map_replica p id m x t =
    let ts = topics_of id m in
    let ps = held p.topic ts ++ p ∷ [] in
    ground (
      arith,
      lookup-insert id x (insert p.topic ps ts) m,
      lookup-insert p.topic t ps ts,
      beq_iff id x,
      beq_iff p.topic t,
    )

partitions_of-map_replicas :
    (p : Partition) (ids : List ℤ) (m : Mappings) (x : ℤ) (t : String)
    → distinct ids ≡ true
    → partitions_of x t (map_replicas p ids m) ≡ (
        if contains x ids && p.topic == t
        then partitions_of x t m ++ p ∷ []
        else partitions_of x t m)
unfolding map_replicas contains distinct
partitions_of-map_replicas p [] m x t h = refl
partitions_of-map_replicas p (id ∷ ids) m x t h =
    let rest = partitions_of-map_replicas p ids (map_replica p id m) x t in
    ground (arith, partitions_of-map_replica p id m x t, beq_iff id x, beq_iff p.topic t)

append_if :
    (b : Bool) (before after : List Partition) (p : Partition)
    → (if b then before ++ p ∷ [] else before) ++ after ≡ before ++ (if b then p ∷ after else after)
append_if true before after p = append_assoc before (p ∷ []) after
append_if false before after p = refl

partitions_of-map_partitions :
    (ps : List Partition) (m : Mappings) (x : ℤ) (t : String)
    → All (λ p. distinct p.replicas ≡ true) ps
    → partitions_of x t (map_partitions ps m)
      ≡ partitions_of x t m ++ filter (λ p. contains x p.replicas && p.topic == t) ps
unfolding map_partitions
partitions_of-map_partitions [] m x t h = sym (append-nil (partitions_of x t m))
partitions_of-map_partitions (p ∷ ps) m x t (h, hs) =
    let one = partitions_of-map_replicas p p.replicas m x t h in
    let rest = partitions_of-map_partitions ps (map_replicas p p.replicas m) x t hs in
    let later = filter (λ p. contains x p.replicas && p.topic == t) ps in
    rest
    ∙ ap (λ l. l ++ later) one
    ∙ append_if (contains x p.replicas && p.topic == t) (partitions_of x t m) later p

-- In the mappings of partitions whose replica sets name no broker twice, a broker is mapped, for each
-- topic, to the partitions of the topic that have it as a replica, in their order.
pub partitions_of-mappings :
    (ps : List Partition) (x : ℤ) (t : String)
    → All (λ p. distinct p.replicas ≡ true) ps
    → partitions_of x t (mappings ps) ≡ filter (λ p. contains x p.replicas && p.topic == t) ps
unfolding mappings lookup
partitions_of-mappings ps x t h = partitions_of-map_partitions ps [] x t h
