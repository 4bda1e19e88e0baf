-- ===== src/Commands/Tests.antt =====
-- The steps of a rebuild at concrete inputs.
use kafka_kit.Base.{pos, ◌≡◌, ◌≢◌, ◌⊎◌, refl, true, [], ◌∷◌, All, Pairs, string_key, int_key}
use kafka_kit.Base.Outcome.{exits, panics, returns}
use kafka_kit.Samples.{part}
use kafka_kit.Mapper.Types.{PartitionMap}
use kafka_kit.Mapper.Rebuild.Filling.{distinct}
use kafka_kit.Commands.{phased_reassignment, evacuate_leadership}
use kafka_kit.Commands.Evacuated.{Evacuation, SomeRefused, evacuate_leadership-Evacuation}

abbrev logs : PartitionMap
logs = record {
  version = 1;
  partitions =
      part "logs" 0 (pos 1 ∷ pos 2 ∷ pos 3 ∷ [])
      ∷ part "logs" 1 (pos 3 ∷ pos 1 ∷ [])
      ∷ part "other" 0 (pos 1 ∷ pos 3 ∷ [])
      ∷ [];
}

evacuate_two :
    evacuate_leadership logs (pos 1 ∷ pos 2 ∷ []) ("logs" ∷ [])
    ≡ returns (record {
      version = 1;
      partitions =
          part "logs" 0 (pos 3 ∷ pos 2 ∷ pos 1 ∷ [])
          ∷ part "logs" 1 (pos 3 ∷ pos 1 ∷ [])
          ∷ part "other" 0 (pos 1 ∷ pos 3 ∷ [])
          ∷ [];
    })
unfolding evacuate_leadership
evacuate_two = refl

evacuate_all : evacuate_leadership logs (pos 1 ∷ pos 2 ∷ pos 3 ∷ []) ("logs" ∷ []) ≡ exits
unfolding evacuate_leadership
evacuate_all = refl

evacuate_none :
    evacuate_leadership
      (record { version = 1; partitions = part "logs" 0 [] ∷ [] })
      []
      ("logs" ∷ [])
    ≡ panics
unfolding evacuate_leadership
evacuate_none = refl

-- The leader of each partition goes before the new replicas, unless it is among them.
abbrev moved : PartitionMap
moved = record {
  version = 1;
  partitions =
      part "logs" 0 (pos 4 ∷ pos 5 ∷ pos 6 ∷ [])
      ∷ part "logs" 1 (pos 4 ∷ pos 3 ∷ [])
      ∷ part "other" 0 (pos 4 ∷ pos 5 ∷ [])
      ∷ [];
}

first_phase :
    phased_reassignment logs moved
    ≡ returns (record {
      version = 1;
      partitions =
          part "logs" 0 (pos 1 ∷ pos 4 ∷ pos 5 ∷ pos 6 ∷ [])
          ∷ part "logs" 1 (pos 4 ∷ pos 3 ∷ [])
          ∷ part "other" 0 (pos 1 ∷ pos 4 ∷ pos 5 ∷ [])
          ∷ [];
    })
unfolding phased_reassignment
first_phase = refl

logs-AreDistinct : All (λ p. (p.replicas ≢ []) × (distinct p.replicas ≡ true)) logs.partitions
unfolding distinct
logs-AreDistinct = ((cc, refl), ((cc, refl), ((cc, refl), tt)))

evacuate_leadership-Evacuation_example :
    ((evacuate_leadership logs (pos 1 ∷ pos 2 ∷ []) ("logs" ∷ []) ≡ exits)
      × SomeRefused (pos 1 ∷ pos 2 ∷ []) ("logs" ∷ []) logs.partitions)
    ⊎ ((out : PartitionMap) × (evacuate_leadership logs (pos 1 ∷ pos 2 ∷ []) ("logs" ∷ [])
          ≡ returns out)
        × Pairs
            (λ p q. Evacuation (pos 1 ∷ pos 2 ∷ []) ("logs" ∷ []) p (returns q))
            logs.partitions
            out.partitions)
evacuate_leadership-Evacuation_example =
    evacuate_leadership-Evacuation logs (pos 1 ∷ pos 2 ∷ []) ("logs" ∷ []) logs-AreDistinct
