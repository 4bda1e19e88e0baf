-- ===== src/Chunks/Converged.antt =====
-- The sequence of partition maps that getPartitionMapChunks returns.
use mathlib.Core.List.{append_assoc, append-nil}
use kafka_kit.Base.{
  ℕ, zero, suc, ◌≤◌, ℤ, ◌≡◌, ◌⊎◌, inl, inr, Option-cases, List, [], ◌∷◌, ◌++◌, length, take, arith,
  refl, ap, subst, sym, ◌∙◌, All, Pairs,
}
use kafka_kit.Mapper.Types.{Partition, PartitionMap}
use kafka_kit.Mapper.Brokers.{BrokerList}
use kafka_kit.Mapper.Partitions.Compare.{difference, difference_iff, copy}
use kafka_kit.Base.Outcome.{returns, and_then}
use kafka_kit.Chunks.{
  drop, switch_partitions, add_chunk, chunks_from, moved_ids, get_partition_map_chunks,
}
use kafka_kit.Chunks.Settled.{AllSettled, AllSettled-refl, switch_partitions-AllSettled}

-- The last element, or `x` if there is none.
abbrev pub last_or {ℓ} : {A : Type ℓ} → A → List A → A
last_or x [] = x
last_or x (y ∷ ys) = last_or y ys

take-drop {ℓ} : {A : Type ℓ} (n : ℕ) (xs : List A) → take n xs ++ drop n xs ≡ xs
take-drop zero xs = refl
take-drop (suc n) [] = refl
take-drop (suc n) (x ∷ xs) = ap (x ∷◌) (take-drop n xs)

length-drop {ℓ} : {A : Type ℓ} (n : ℕ) (xs : List A) → length (drop n xs) ≤ length xs
length-drop zero xs = omega arith
length-drop (suc n) [] = omega arith
length-drop (suc n) (x ∷ xs) = omega (arith, length-drop n xs)

drop_shorter {ℓ} :
    {A : Type ℓ} (n : ℕ) (x : A) (xs : List A) → 1 ≤ n → length (drop n (x ∷ xs)) ≤ length xs
drop_shorter zero x xs h = absurd (omega arith)
drop_shorter (suc n) x xs h = length-drop n xs

add_chunk-cases :
    (temp m : PartitionMap) (out : List PartitionMap)
    → ((add_chunk temp m out ≡ out) × (temp ≡ m)) ⊎ (add_chunk temp m out ≡ temp ∷ out)
unfolding add_chunk
add_chunk-cases temp m out = elim (Option-cases (difference temp m)) [
  | inl e ↦ inl (rw (e, add_chunk) refl, (difference_iff temp m).0 e)
  | inr (d, e) ↦ inr (rw (e, add_chunk) refl)
]

last_or-add_chunk :
    (temp m : PartitionMap) (out : List PartitionMap)
    → last_or m (add_chunk temp m out) ≡ last_or temp out
last_or-add_chunk temp m out = elim (add_chunk-cases temp m out) [
  | inl (e, h) ↦ ap (last_or m) e ∙ ap (λ x. last_or x out) (sym h)
  | inr e ↦ ap (last_or m) e
]

All-add_chunk {κ} :
    (P : PartitionMap → Type κ) (temp m : PartitionMap) (out : List PartitionMap)
    → P temp
    → All P out
    → All P (add_chunk temp m out)
All-add_chunk P temp m out h hs = elim (add_chunk-cases temp m out) [
  | inl (e, _) ↦ subst (All P) (sym e) hs
  | inr e ↦ subst (All P) (sym e) (h, hs)
]

module _ (final : PartitionMap) (step n : ℕ) where
  chunks_from_done : (m : PartitionMap) → chunks_from n final step [] m ≡ returns []
  unfolding chunks_from
  chunks_from_done m = refl

  chunks_from_next :
      (id : ℤ) (ids : List ℤ) (m : PartitionMap) (ps : List Partition) (out : List PartitionMap)
      → switch_partitions (take step (id ∷ ids)) m.partitions final.partitions ≡ returns ps
      → chunks_from n final step (drop step (id ∷ ids)) (record (copy m) { partitions = ps })
        ≡ returns out
      → chunks_from (suc n) final step (id ∷ ids) m
        ≡ returns (add_chunk (record (copy m) { partitions = ps }) m out)
  unfolding chunks_from and_then
  chunks_from_next id ids m ps out e1 e2 =
      ap
        (λ r. and_then r (λ qs.
          let temp = record (copy m) { partitions = qs } in
          and_then (chunks_from n final step (drop step (id ∷ ids)) temp)
            (λ o. returns (add_chunk temp m o))))
        e1
      ∙ ap (λ r. and_then r (λ o. returns (add_chunk (record (copy m) { partitions = ps }) m o))) e2

module _ (initial final : PartitionMap) (moved : List ℤ) where
  -- The replicas on the brokers at the head of `moved` are the final ones, the others the initial.
  abbrev pub IsOnTheWay : PartitionMap → Type 0
  IsOnTheWay m =
      (before after : List ℤ) × (moved ≡ before ++ after)
      × AllSettled before initial.partitions final.partitions m.partitions

  chunks_from_lem :
      (step n : ℕ) (before ids : List ℤ) (m : PartitionMap)
      → 1 ≤ step
      → length ids ≤ n
      → moved ≡ before ++ ids
      → AllSettled before initial.partitions final.partitions m.partitions
      → (out : List PartitionMap) × (chunks_from n final step ids m ≡ returns out)
        × All IsOnTheWay out
        × AllSettled moved initial.partitions final.partitions (last_or m out).partitions
  chunks_from_lem step n before [] m hs hn e s = (
    [],
    chunks_from_done final step n m,
    tt,
    subst (λ l. AllSettled l initial.partitions final.partitions m.partitions)
        (sym (e ∙ append-nil before)) s,
  )
  chunks_from_lem step zero before (id ∷ ids) m hs hn e s = absurd (omega arith)
  chunks_from_lem step (suc n) before (id ∷ ids) m hs hn e s =
      let chunk = take step (id ∷ ids) in
      let (ps, e1, t) =
        switch_partitions-AllSettled before chunk initial.partitions final.partitions m.partitions
          s in
      let temp = record (copy m) { partitions = ps } in
      let e2 =
        e
        ∙ ap (before ++◌) (sym (take-drop step (id ∷ ids)))
        ∙ sym (append_assoc before chunk (drop step (id ∷ ids))) in
      let (out, e3, on, l) =
        chunks_from_lem step n (before ++ chunk) (drop step (id ∷ ids)) temp hs
          (omega (arith, drop_shorter step id ids hs)) e2 t in
      (
        add_chunk temp m out,
        chunks_from_next final step n id ids m ps out e1 e3,
        All-add_chunk IsOnTheWay temp m out (before ++ chunk, drop step (id ∷ ids), e2, t) on,
        subst (λ x. AllSettled moved initial.partitions final.partitions x.partitions)
            (sym (last_or-add_chunk temp m out)) l,
      )

-- Between two partition maps with as many partitions and the same number of replicas in each,
-- getPartitionMapChunks with a positive step size returns. Each map that it returns is the initial
-- one with the replicas on the first few of the moved brokers replaced by those of the final map at
-- their place, and the last map (the initial one if there is none) is so for all the moved brokers.
pub chunks_converge :
    {F : Type 0} (final initial : PartitionMap) (bl : BrokerList F) (step : ℕ)
    → 1 ≤ step
    → Pairs (λ p f. length p.replicas ≡ length f.replicas) initial.partitions final.partitions
    → (out : List PartitionMap) × (get_partition_map_chunks final initial bl step ≡ returns out)
      × All (IsOnTheWay initial final (moved_ids bl)) out
      × AllSettled
          (moved_ids bl)
          initial.partitions
          final.partitions
          (last_or (copy initial) out).partitions
unfolding get_partition_map_chunks copy
chunks_converge final initial bl step hs hp =
    let ids = moved_ids bl in
    chunks_from_lem initial final ids step (length ids) [] ids (copy initial) hs (omega arith) refl
      (AllSettled-refl initial.partitions final.partitions hp)
