-- ===== src/Mapper/Usage/Optimize.antt =====
-- OptimizeLeaderFollower only reorders replica sets.
use mathlib.Core.List.Perm
use kafka_kit.Base.{◌≡◌, List, [], ◌∷◌, Perm}
use kafka_kit.Base.Float.{Float}
use kafka_kit.Mapper.Types.{Partition}

-- The same partition, with its replicas in another order.
pub record IsReordered (p q : Partition) : Type 0 where
  pub same_topic : p.topic ≡ q.topic
  pub same_number : p.partition ≡ q.partition
  pub moved : Perm p.replicas q.replicas

abbrev pub AllReordered : List Partition → List Partition → Type 0
AllReordered [] [] = Unit
AllReordered [] (q ∷ qs) = ⊥
AllReordered (p ∷ ps) [] = ⊥
AllReordered (p ∷ ps) (q ∷ qs) = IsReordered p q × AllReordered ps qs
