-- ===== src/Mapper/Partitions/Compare.antt =====
-- mapper/partitions.go: Equal, Copy and Strip.
use kafka_kit.Base.{
  ℤ, Bool, true, false, not, Option, some, none, List, [], ◌∷◌, map, length, eqb, ◌==◌, ◌≡◌,
  int_key, string_key, if◌then◌else◌, ◌↔◌, arith, refl, beq_iff, beq_self,
}
use mathlib.Core.Path.{subst}
use kafka_kit.Mapper.Types.{Partition, PartitionMap}
use kafka_kit.Mapper.Partitions.{new_partition_map, stubs}

-- for i := range xs { if xs[i] != ys[i] ... }: lists of one length.
unfoldable pub same_replicas : List ℤ → List ℤ → Bool
same_replicas [] ys = true
same_replicas (x ∷ xs) [] = true
same_replicas (x ∷ xs) (y ∷ ys) = if not (x == y) then false else same_replicas xs ys

-- Partition.Equal
unfoldable pub equal_partition : Partition → Partition → Bool
unfolding same_replicas
equal_partition p q =
    if not (p.topic == q.topic)
    then false
    else if not (p.partition == q.partition)
    then false
    else if not (eqb (length p.replicas) (length q.replicas))
    then false
    else same_replicas p.replicas q.replicas

-- The errors of PartitionMap.Equal.
pub data Difference : Type 0 where
  partitions_len version topic_order partition_order replica_list replica : Difference

-- PartitionMap.Equal at one index.
unfoldable pub partition_difference : Partition → Partition → Option Difference
unfolding same_replicas
partition_difference p q =
    if not (p.topic == q.topic)
    then some topic_order
    else if not (p.partition == q.partition)
    then some partition_order
    else if not (eqb (length p.replicas) (length q.replicas))
    then some replica_list
    else if not (same_replicas p.replicas q.replicas)
    then some replica
    else none

-- The loop of PartitionMap.Equal, over lists of one length.
unfoldable pub partitions_difference : List Partition → List Partition → Option Difference
unfolding partition_difference
partitions_difference [] qs = none
partitions_difference (p ∷ ps) [] = none
partitions_difference (p ∷ ps) (q ∷ qs) =
    let rest = partitions_difference ps qs in
    elim (partition_difference p q) [ some d ↦ some d | none ↦ rest ]

-- PartitionMap.Equal: `none` is (true, nil).
unfoldable pub difference : PartitionMap → PartitionMap → Option Difference
unfolding partitions_difference
difference pm pm2 =
    if not (eqb (length pm.partitions) (length pm2.partitions))
    then some partitions_len
    else if not (eqb pm.version pm2.version)
    then some version
    else partitions_difference pm.partitions pm2.partitions

-- PartitionMap.Copy: the copy's version is that of a new map.
unfoldable pub copy : PartitionMap → PartitionMap
copy pm = record new_partition_map { partitions = pm.partitions }

abbrev pub strip_partition : Partition → Partition
strip_partition p = record p { replicas = stubs (length p.replicas) }

-- PartitionMap.Strip
unfoldable pub strip : PartitionMap → PartitionMap
strip pm = record new_partition_map { partitions = map strip_partition pm.partitions }

same_replicas_lem : (xs ys : List ℤ) → length xs ≡ length ys → same_replicas xs ys ≡ true → xs ≡ ys
unfolding same_replicas
same_replicas_lem [] [] h e = refl
same_replicas_lem [] (y ∷ ys) h e = absurd (omega arith)
same_replicas_lem (x ∷ xs) [] h e = absurd (omega arith)
same_replicas_lem (x ∷ xs) (y ∷ ys) h e = ground (arith, beq_iff x y, same_replicas_lem xs ys)

same_replicas_refl : (xs : List ℤ) → same_replicas xs xs ≡ true
unfolding same_replicas
same_replicas_refl [] = refl
same_replicas_refl (x ∷ xs) = ground (arith, beq_iff x x, same_replicas_refl xs)

-- Partition.Equal is true exactly for two equal partitions.
pub equal_partition_iff : (p q : Partition) → (equal_partition p q ≡ true) ↔ (p ≡ q)
unfolding equal_partition
equal_partition_iff p q = (
  ground (
    arith,
    beq_iff p.topic q.topic,
    beq_iff p.partition q.partition,
    same_replicas_lem p.replicas q.replicas,
  ),
  λ e.
      subst (λ r. equal_partition p r ≡ true) e
        (ground (arith, beq_self p.topic, beq_self p.partition, same_replicas_refl p.replicas)),
)

partition_difference_iff : (p q : Partition) → (partition_difference p q ≡ none) ↔ (p ≡ q)
unfolding partition_difference
partition_difference_iff p q = (
  ground (
    arith,
    beq_iff p.topic q.topic,
    beq_iff p.partition q.partition,
    same_replicas_lem p.replicas q.replicas,
  ),
  λ e.
      subst (λ r. partition_difference p r ≡ none) e
        (ground (arith, beq_self p.topic, beq_self p.partition, same_replicas_refl p.replicas)),
)

partitions_difference_iff :
    (ps qs : List Partition)
    → length ps ≡ length qs
    → (partitions_difference ps qs ≡ none) ↔ (ps ≡ qs)
unfolding partitions_difference
partitions_difference_iff [] [] h = (λ e. refl, λ e. refl)
partitions_difference_iff [] (q ∷ qs) h = absurd (omega arith)
partitions_difference_iff (p ∷ ps) [] h = absurd (omega arith)
partitions_difference_iff (p ∷ ps) (q ∷ qs) h =
    let (to, from) = partitions_difference_iff ps qs (omega arith) in
    ground (arith, partition_difference_iff p q)

-- PartitionMap.Equal reports no difference exactly for two equal partition maps.
pub difference_iff : (pm pm2 : PartitionMap) → (difference pm pm2 ≡ none) ↔ (pm ≡ pm2)
unfolding difference
difference_iff pm pm2 = (
  ground (arith, partitions_difference_iff pm.partitions pm2.partitions),
  λ e.
      subst (λ m. difference pm m ≡ none) e
        (ground (arith, (partitions_difference_iff pm.partitions pm.partitions refl).1 refl)),
)
