-- ===== src/Samples.antt =====
-- Inputs for the tests and witnesses: brokers, partitions, and whole numbers in place of float64.
use kafka_kit.Base.{
  ℕ, suc, ◌+◌, ◌-◌, ◌*◌, ◌/◌, ℤ, pos, negsuc, true, false, not, List, [], ◌∷◌, String, leb, ltb_ℤ,
  if◌then◌else◌,
}
use kafka_kit.Base.Float.{Float}
use kafka_kit.Base.Shuffle.{Draw}
use kafka_kit.Mapper.Types.{Broker, BrokerMap, Partition, stub_broker_id}

abbrev pub pos_part : ℤ → ℕ
pos_part (pos n) = n
pos_part (negsuc n) = 0

abbrev pub neg_part : ℤ → ℕ
neg_part (pos n) = 0
neg_part (negsuc n) = suc n

-- a - b, as an integer.
abbrev pub sub_ℕ : ℕ → ℕ → ℤ
sub_ℕ a b = if leb b a then pos (a - b) else negsuc (b - a - 1)

-- Whole numbers, with the quotient of their positive parts.
instance abbrev pub whole : Float ℤ
whole = record {
  of_ℕ = pos;
  add = λ a b. sub_ℕ (pos_part a + pos_part b) (neg_part a + neg_part b);
  sub = λ a b. sub_ℕ (pos_part a + neg_part b) (neg_part a + pos_part b);
  mul = λ a b.
      sub_ℕ (pos_part a * pos_part b + neg_part a * neg_part b)
        (pos_part a * neg_part b + neg_part a * pos_part b);
  div = λ a b. pos (pos_part a / pos_part b);
  lt = ltb_ℤ;
  le = λ a b. not (ltb_ℤ b a);
  max_float = pos 1000000000;
  sqrt = λ a. a;
  pow = λ a b. a;
}

-- Draws the largest number allowed, so that a shuffle moves nothing.
abbrev pub in_place : Draw
in_place seed [] = 0
in_place seed (n ∷ ns) = n - 1

abbrev pub broker : ℕ → String → ℕ → ℕ → Broker ℤ
broker id rack used free = record {
  id = pos id;
  locality = rack;
  used = used;
  storage_free = pos free;
  replace = false;
  missing = false;
  new = false;
}

abbrev pub replaced : Broker ℤ → Broker ℤ
replaced b = record b { replace = true }

abbrev pub stub : Broker ℤ
stub = record (broker 0 "" 0 0) { id = stub_broker_id; replace = true }

-- Brokers 1 to 4 in racks a, b, c and b; broker 2 is to be replaced.
abbrev pub cluster : BrokerMap ℤ
cluster =
    (pos 1, broker 1 "a" 2 100)
    ∷ (pos 2, replaced (broker 2 "b" 2 50))
    ∷ (pos 3, broker 3 "c" 1 80)
    ∷ (pos 4, broker 4 "b" 0 200)
    ∷ (stub_broker_id, stub)
    ∷ []

abbrev pub part : String → ℕ → List ℤ → Partition
part t n rs = record { topic = t; partition = pos n; replicas = rs }

abbrev pub events : List Partition
events = part "events" 0 (pos 1 ∷ pos 2 ∷ []) ∷ part "events" 1 (pos 2 ∷ pos 3 ∷ []) ∷ []
