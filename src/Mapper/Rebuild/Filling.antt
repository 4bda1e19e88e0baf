-- ===== src/Mapper/Rebuild/Filling.antt =====
-- The new replica set of one partition while its old replicas are gone through.
use kafka_kit.Base.{
  ◌+◌, suc, ◌≤◌, ℤ, Bool, true, false, ◌≡◌, some, List, [], ◌∷◌, ◌++◌, String, refl, int_key,
  beq_iff, length, length-append, Bool-cases, inl, inr, arith, subst, if◌then◌else◌,
}
use kafka_kit.Base.GoMap.{contains}
use kafka_kit.Mapper.Types.{BrokerMap, Partition}
use kafka_kit.Mapper.Placement.{append_replica, new_partition}
use kafka_kit.Mapper.Placement.Frame.{IsSame, IsFree-back, view}
use kafka_kit.Mapper.Placement.Step.{Outcome, unchanged, added}

-- Whether no ID is listed twice.
unfoldable pub distinct : List ℤ → Bool
unfolding contains
distinct [] = true
distinct (x ∷ xs) = let rest = distinct xs in if contains x xs then false else rest

pub contains-append :
    (x : ℤ) (xs ys : List ℤ)
    → contains x (xs ++ ys) ≡ (if contains x xs then true else contains x ys)
unfolding contains
contains-append x [] ys = refl
contains-append x (y ∷ xs) ys = ground (arith, contains-append x xs ys)

distinct-append :
    (xs : List ℤ) (y : ℤ)
    → distinct xs ≡ true
    → contains y xs ≡ false
    → distinct (xs ++ y ∷ []) ≡ true
unfolding distinct contains
distinct-append [] y h k = refl
distinct-append (x ∷ xs) y h k =
    ground (arith, distinct-append xs y, contains-append x xs (y ∷ []), beq_iff x y, beq_iff y x)

module _ {F : Type 0} where
  -- A broker that is in the map and not marked for replacement.
  pub record IsKept (bm : BrokerMap F) (id : ℤ) : Type 0 where
    pub rack : String
    pub stands : view id bm ≡ some (false, rack)

  -- The new partition `q` of `p` while the replicas `left` of `p` are still to come.
  pub record IsFilled (bm : BrokerMap F) (p : Partition) (left : List ℤ) (q : Partition)
      : Type 0 where
    pub topic : q.topic ≡ p.topic
    pub number : q.partition ≡ p.partition
    pub once : distinct q.replicas ≡ true
    pub left_once : distinct left ≡ true
    pub left_old : (id : ℤ) → contains id left ≡ true → contains id p.replicas ≡ true
    pub apart : (id : ℤ) → contains id q.replicas ≡ true → contains id left ≡ false
    pub kept : (id : ℤ) → contains id q.replicas ≡ true → IsKept bm id
    pub room : length q.replicas + length left ≤ length p.replicas

  pub IsFilled-start :
      (bm : BrokerMap F) (p : Partition)
      → distinct p.replicas ≡ true
      → IsFilled bm p p.replicas (new_partition p)
  unfolding distinct contains
  IsFilled-start bm p h = record {
    topic = refl;
    number = refl;
    once = refl;
    left_once = h;
    left_old = λ id k. k;
    apart = λ id k. cc;
    kept = λ id k. cc;
    room = omega arith;
  }

  IsFilled-drop :
      (bm : BrokerMap F) (p : Partition) (bid : ℤ) (left : List ℤ) (q : Partition)
      → IsFilled bm p (bid ∷ left) q
      → IsFilled bm p left q
  unfolding distinct contains
  IsFilled-drop bm p bid left q f =
      let once = f.left_once in
      let room = f.room in
      record {
        topic = f.topic;
        number = f.number;
        once = f.once;
        left_once = ground arith;
        left_old = λ id k. let old = f.left_old id in ground arith;
        apart = λ id k. let apart = f.apart id in ground arith;
        kept = f.kept;
        room = omega arith;
      }

  -- A broker that may stand joins the new replica set.
  IsFilled-join :
      (bm : BrokerMap F) (p : Partition) (left : List ℤ) (q : Partition) (id : ℤ)
      → IsFilled bm p left q
      → contains id q.replicas ≡ false
      → contains id left ≡ false
      → length q.replicas + suc (length left) ≤ length p.replicas
      → IsKept bm id
      → IsFilled bm p left (append_replica id q)
  unfolding contains
  IsFilled-join bm p left q id f new later room k = record {
    topic = f.topic;
    number = f.number;
    once = distinct-append q.replicas id f.once new;
    left_once = f.left_once;
    left_old = f.left_old;
    apart = λ j h. elim (Bool-cases (contains j q.replicas)) [
      | inl inside ↦ f.apart j inside
      | inr outside ↦
          let split = contains-append j q.replicas (id ∷ []) in
          let same : id ≡ j = ground (arith, beq_iff id j) in
          subst (λ j. contains j left ≡ false) same later
    ];
    kept = λ j h. elim (Bool-cases (contains j q.replicas)) [
      | inl inside ↦ f.kept j inside
      | inr outside ↦
          let split = contains-append j q.replicas (id ∷ []) in
          let same : id ≡ j = ground (arith, beq_iff id j) in subst (IsKept bm) same k
    ];
    room = omega (arith, length-append q.replicas (id ∷ []));
  }

  -- The replica is kept.
  pub IsFilled-keep :
      (bm : BrokerMap F) (p : Partition) (bid : ℤ) (left : List ℤ) (q : Partition)
      → IsFilled bm p (bid ∷ left) q
      → IsKept bm bid
      → IsFilled bm p left (append_replica bid q)
  unfolding distinct contains
  IsFilled-keep bm p bid left q f k =
      let once = f.left_once in
      let room = f.room in
      let apart = f.apart bid in
      IsFilled-join bm p left q bid (IsFilled-drop bm p bid left q f)
        (ground (arith, beq_iff bid bid)) (ground arith) (omega arith) k

  -- The replica is replaced, or dropped.
  pub IsFilled-step :
      (bm bm' : BrokerMap F) (p : Partition) (bid : ℤ) (left : List ℤ) (q q' : Partition)
      → IsFilled bm p (bid ∷ left) q
      → IsSame bm bm'
      → Outcome p q bm' q'
      → IsFilled bm p left q'
  unfolding contains
  IsFilled-step bm bm' p bid left q _ f same unchanged = IsFilled-drop bm p bid left q f
  IsFilled-step bm bm' p bid left q _ f same (added id fresh) =
      let room = f.room in
      let old = f.left_old id in
      let gone = fresh.not_old in
      let free = IsFree-back bm bm' id same fresh.free in
      IsFilled-join bm p left q id (IsFilled-drop bm p bid left q f) fresh.not_placed (ground arith)
        (omega arith) (record { rack = free.rack; stands = free.stands })
