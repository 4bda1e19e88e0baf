-- ===== src/Mapper/AffinityTests.antt =====
-- The theorems on substitution affinities at a concrete input.
use kafka_kit.Base.{ℤ, pos, ◌≡◌, refl, true, none, [], ◌∷◌}
use kafka_kit.Base.GoMap.{keys, values, lookup}
use kafka_kit.Samples.{whole, events, broker, replaced, stub}
use kafka_kit.Mapper.Types.{BrokerMap, stub_broker_id}
use kafka_kit.Mapper.Brokers.Keyed.{IsKeyed}
use kafka_kit.Mapper.Affinities.{Matching, substitution_affinities}
use kafka_kit.Mapper.Affinities.Free.{substitution_affinities-AreFree}
use kafka_kit.Mapper.Affinities.Exclusive.{substitution_affinities_exclusive}
use kafka_kit.Mapper.Placement.Frame.{IsFree}
use kafka_kit.Mapper.Rebuild.Filling.{distinct}

-- Broker 5 is new, in the rack of broker 2, which is to be replaced.
abbrev grown : BrokerMap ℤ
grown =
    (pos 1, broker 1 "a" 2 100)
    ∷ (pos 2, replaced (broker 2 "b" 2 50))
    ∷ (pos 3, broker 3 "c" 1 80)
    ∷ (pos 5, record (broker 5 "b" 0 90) { new = true })
    ∷ (stub_broker_id, stub)
    ∷ []

grown-IsKeyed : IsKeyed grown
grown-IsKeyed = (refl, (refl, (refl, (refl, (refl, tt)))))

grown_once : distinct (keys grown) ≡ true
unfolding distinct
grown_once = refl

abbrev matched : Matching ℤ
matched = record { affinities = (pos 2, pos 5) ∷ []; free = []; error = none }

substitution_affinities-AreFree_example : IsFree grown (pos 5)
unfolding substitution_affinities lookup
substitution_affinities-AreFree_example =
    substitution_affinities-AreFree grown events matched grown-IsKeyed grown_once refl (pos 2)
      (pos 5) refl

substitution_affinities_exclusive_example : distinct (values matched.affinities) ≡ true
unfolding substitution_affinities
substitution_affinities_exclusive_example =
    substitution_affinities_exclusive grown events matched grown-IsKeyed grown_once refl
