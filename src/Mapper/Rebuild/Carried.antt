-- ===== src/Mapper/Rebuild/Carried.antt =====
-- The old replicas that stay are carried over to the new replica set.
use kafka_kit.Base.{
  ℤ, true, false, ◌≡◌, some, List, [], ◌∷◌, String, refl, ◌==◌, int_key, beq_iff, Bool-cases, inl,
  inr, arith, sym, subst, ◌∙◌,
}
use kafka_kit.Base.GoMap.{contains}
use kafka_kit.Mapper.Types.{BrokerMap, Partition}
use kafka_kit.Mapper.Placement.{append_replica, new_partition}
use kafka_kit.Mapper.Placement.Frame.{view}
use kafka_kit.Mapper.Placement.Step.{Outcome, unchanged, added}
use kafka_kit.Mapper.Rebuild.Filling.{IsKept, contains-append}

module _ {F : Type 0} where
  -- Beside the replicas `left`, every old replica that stays is in the new set.
  abbrev pub IsCarried : BrokerMap F → Partition → List ℤ → Partition → Type 0
  IsCarried bm p left q =
      (id : ℤ)
      → contains id p.replicas ≡ true
      → IsKept bm id
      → contains id left ≡ false
      → contains id q.replicas ≡ true

  pub IsCarried-start :
      (bm : BrokerMap F) (p : Partition) → IsCarried bm p p.replicas (new_partition p)
  IsCarried-start bm p id h k out = absurd (cc)

  pub IsCarried-keep :
      (bm : BrokerMap F) (p : Partition) (bid : ℤ) (left : List ℤ) (q : Partition)
      → IsCarried bm p (bid ∷ left) q
      → IsCarried bm p left (append_replica bid q)
  unfolding contains
  IsCarried-keep bm p bid left q c id h k out =
      let before = c id h k in let split = contains-append id q.replicas (bid ∷ []) in ground arith

  replaced_not_kept :
      (bm : BrokerMap F) (id : ℤ) (rack : String)
      → view id bm ≡ some (true, rack)
      → IsKept bm id
      → ⊥
  replaced_not_kept bm id rack e k = let stands = k.stands in cc

  IsCarried-drop :
      (bm : BrokerMap F) (p : Partition) (bid : ℤ) (rack : String) (left : List ℤ) (q : Partition)
      → view bid bm ≡ some (true, rack)
      → IsCarried bm p (bid ∷ left) q
      → IsCarried bm p left q
  unfolding contains
  IsCarried-drop bm p bid rack left q e c id h k out = elim (Bool-cases (bid == id)) [
    | inl same ↦
        absurd
          (replaced_not_kept bm bid rack e (subst (IsKept bm) (sym ((beq_iff bid id).0 same)) k))
    | inr other ↦ c id h k (rw other out)
  ]

  pub IsCarried-step :
      (bm bm' : BrokerMap F) (p : Partition) (bid : ℤ) (rack : String) (left : List ℤ)
      (q q' : Partition)
      → view bid bm ≡ some (true, rack)
      → Outcome p q bm' q'
      → IsCarried bm p (bid ∷ left) q
      → IsCarried bm p left q'
  IsCarried-step bm bm' p bid rack left q _ e unchanged c id h k out =
      IsCarried-drop bm p bid rack left q e c id h k out
  IsCarried-step bm bm' p bid rack left q _ e (added new fresh) c id h k out =
      let before = IsCarried-drop bm p bid rack left q e c id h k out in
      contains-append id q.replicas (new ∷ []) ∙ rw before refl
