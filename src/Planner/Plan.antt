-- ===== src/Planner/Plan.antt =====
-- The relocation plan, and what applyRelocationPlan makes of the partitions.
use kafka_kit.Base.{
  Pairs, nil, cons, ℤ, true, false, ◌&&◌, ◌≡◌, some, List, [], ◌∷◌, ◌++◌, map, refl, ◌==◌, int_key,
  string_key, beq_iff, Bool-cases, Option-cases, inl, inr, arith, if◌then◌else◌, sym, subst, ◌∙◌,
}
use kafka_kit.Base.GoMap.{lookup, insert, contains, lookup-insert}
use kafka_kit.Mapper.Types.{Partition}
use kafka_kit.Planner.{
  RelocationPlan, or_nil, is_planned, add_relocation, relocate, relocate_partition,
  apply_relocation_plan,
}

-- After relocationPlan.add, the pairs planned for a partition of the same topic and number are those
-- that were planned and the added pair, and any other partition has the pairs that it had.
pub is_planned-add_relocation :
    (r : RelocationPlan) (p q : Partition) (ids : ℤ × ℤ)
    → is_planned (add_relocation r p ids) q ≡ (
        if p.topic == q.topic && p.partition == q.partition
        then some (or_nil (is_planned r q) ++ ids ∷ [])
        else is_planned r q)
unfolding is_planned add_relocation
is_planned-add_relocation r p q ids =
    let t = or_nil (lookup p.topic r) in
    let pairs = or_nil (lookup p.partition t) in
    ground (
      arith,
      lookup-insert p.topic q.topic (insert p.partition (pairs ++ ids ∷ []) t) r,
      lookup-insert p.partition q.partition (pairs ++ ids ∷ []) t,
      beq_iff p.topic q.topic,
      beq_iff p.partition q.partition,
    )

-- The place of a replica after the relocations `pairs`: where it was if none of them is from there,
-- and else the destination of the last one that is.
pub data Moves (r : ℤ) : List (ℤ × ℤ) → ℤ → Type 0 where
  stays : {pairs : List (ℤ × ℤ)} → contains r (map (λ e. e.0) pairs) ≡ false → Moves r pairs r
  goes :
      (before after : List (ℤ × ℤ)) {to : ℤ}
      → contains r (map (λ e. e.0) after) ≡ false
      → Moves r (before ++ (r, to) ∷ after) to

abbrev sources : List (ℤ × ℤ) → List ℤ
sources pairs = map (λ e. e.0) pairs

relocate_idle :
    (r : ℤ) (pairs : List (ℤ × ℤ)) (current : ℤ)
    → contains r (sources pairs) ≡ false
    → relocate r pairs current ≡ current
unfolding relocate contains
relocate_idle r [] current h = refl
relocate_idle r ((from, to) ∷ pairs) current h =
    ground (arith, beq_iff from r, beq_iff r from, relocate_idle r pairs current)

Moves-cons :
    (r : ℤ) (e : ℤ × ℤ) (pairs : List (ℤ × ℤ)) (d : ℤ)
    → contains r (sources pairs) ≡ true
    → Moves r pairs d
    → Moves r (e ∷ pairs) d
Moves-cons r e pairs _ h (stays out) = absurd (cc)
Moves-cons r e _ d h (goes before after out) = goes (e ∷ before) after out

relocate-goes :
    (r : ℤ) (pairs : List (ℤ × ℤ)) (current : ℤ)
    → contains r (sources pairs) ≡ true
    → Moves r pairs (relocate r pairs current)
unfolding relocate contains
relocate-goes r [] current h = absurd (cc)
relocate-goes r ((from, to) ∷ pairs) current h = elim (Bool-cases (contains r (sources pairs))) [
  | inl later ↦
      Moves-cons r (from, to) pairs (relocate r pairs (if r == from then to else current)) later
        (relocate-goes r pairs (if r == from then to else current) later)
  | inr last ↦
      let same : r ≡ from = ground (arith, beq_iff from r, beq_iff r from) in
      let here : relocate r pairs (if r == from then to else current) ≡ to =
        relocate_idle r pairs (if r == from then to else current) last
        ∙ ground (arith, beq_iff r from) in
      subst (λ f. Moves r ((f, to) ∷ pairs) (relocate r pairs (if r == from then to else current)))
        same (subst (Moves r ((r, to) ∷ pairs)) (sym here) (goes [] pairs last))
]

relocate-Moves : (r : ℤ) (pairs : List (ℤ × ℤ)) → Moves r pairs (relocate r pairs r)
relocate-Moves r pairs = elim (Bool-cases (contains r (sources pairs))) [
  | inl moved ↦ relocate-goes r pairs r moved
  | inr idle ↦ subst (Moves r pairs) (sym (relocate_idle r pairs r idle)) (stays idle)
]

map-Pairs :
    {A B : Type 0} (R : A → B → Type 0) (f : A → B)
    → ((x : A) → R x (f x))
    → (xs : List A) → Pairs R xs (map f xs)
map-Pairs R f h [] = nil
map-Pairs R f h (x ∷ xs) = cons (h x) (map-Pairs R f h xs)

Pairs-self : {A : Type 0} (R : A → A → Type 0) → ((x : A) → R x x) → (xs : List A) → Pairs R xs xs
Pairs-self R h [] = nil
Pairs-self R h (x ∷ xs) = cons (h x) (Pairs-self R h xs)

-- The partition `q` after the relocations of `p`: each replica stands where its relocations left it.
pub record IsRelocated (plan : RelocationPlan) (p q : Partition) : Type 0 where
  pub topic : q.topic ≡ p.topic
  pub number : q.partition ≡ p.partition
  pub moved : Pairs (λ r d. Moves r (or_nil (is_planned plan p)) d) p.replicas q.replicas

relocate_partition-IsRelocated :
    (plan : RelocationPlan) (p : Partition) → IsRelocated plan p (relocate_partition plan p)
unfolding relocate_partition contains
relocate_partition-IsRelocated plan p = elim (Option-cases (is_planned plan p)) [
  | inl e ↦
      rw (e, relocate_partition)
        (record {
          topic = refl;
          number = refl;
          moved = rw e (Pairs-self (λ r d. Moves r [] d) (λ r. stays refl) p.replicas);
        })
  | inr (pairs, e) ↦
      rw (e, relocate_partition)
        (record {
          topic = refl;
          number = refl;
          moved = rw e (
              map-Pairs (λ r d. Moves r pairs d) (λ r. relocate r pairs r)
                (λ r. relocate-Moves r pairs) p.replicas);
        })
]

-- applyRelocationPlan keeps the partitions in their order, each with its topic, its number and its
-- replicas in their places; a replica from which no relocation of its partition is planned is kept,
-- and any other becomes the destination of the last relocation that is planned from it.
pub apply_relocation_plan-IsRelocated :
    (plan : RelocationPlan) (ps : List Partition)
    → Pairs (IsRelocated plan) ps (apply_relocation_plan plan ps)
unfolding apply_relocation_plan
apply_relocation_plan-IsRelocated plan ps =
    map-Pairs (IsRelocated plan) (relocate_partition plan) (relocate_partition-IsRelocated plan) ps
