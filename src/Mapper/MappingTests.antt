-- ===== src/Mapper/MappingTests.antt =====
-- The theorems on mappings at concrete inputs.
use kafka_kit.Base.{pos, ◌≡◌, refl, true, [], ◌∷◌, int_key, string_key, All}
use kafka_kit.Base.GoMap.{contains}
use kafka_kit.Samples.{events, part}
use kafka_kit.Mapper.Mappings.{mappings, remove}
use kafka_kit.Mapper.Mappings.Held.{partitions_of, partitions_of-remove, partitions_of-mappings}
use kafka_kit.Mapper.Rebuild.Filling.{distinct}

events_once : All (λ p. distinct p.replicas ≡ true) events
unfolding distinct
events_once = (refl, (refl, tt))

partitions_of-mappings_example :
    partitions_of (pos 3) "events" (mappings events) ≡ part "events" 1 (pos 2 ∷ pos 3 ∷ []) ∷ []
unfolding contains
partitions_of-mappings_example = partitions_of-mappings events (pos 3) "events" events_once

partitions_of-remove_example :
    partitions_of
      (pos 2)
      "events"
      (remove (pos 2) (part "events" 0 (pos 1 ∷ pos 2 ∷ [])) (mappings events)).0
    ≡ part "events" 1 (pos 2 ∷ pos 3 ∷ []) ∷ []
unfolding remove mappings
partitions_of-remove_example =
    partitions_of-remove (pos 2) (part "events" 0 (pos 1 ∷ pos 2 ∷ [])) (mappings events) (pos 2)
      "events"
