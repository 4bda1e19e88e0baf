-- ===== src/Autothrottle/Types.antt =====
-- The data of internal/autothrottle/replication: metrics, rates and overrides.
use kafka_kit.Base.{ℤ, List, Option, Bool, String}
use kafka_kit.Base.GoMap.{Map}

-- What the package takes from math besides the operations of Float: float64(i), math.Max, math.Abs
-- and int(math.Round(x)).
pub record FloatMath {ℓ} (F : Type ℓ) : Type ℓ where
  pub of_int : ℤ → F
  pub max : F → F → F
  pub abs : F → F
  pub round : F → ℤ

-- The fields of a kafkametrics.Broker.
pub record BrokerLoad (F : Type 0) : Type 0 where
  pub instance_type : String
  pub net_tx : F
  pub net_rx : F

abbrev pub BrokerMetrics : Type 0 → Type 0
BrokerMetrics F = Map ℤ (BrokerLoad F)

abbrev pub Limits : Type 0 → Type 0
Limits F = Map String F

-- Position 0 is the rate of a source, position 1 that of a destination; `none` is nil.
abbrev pub ThrottleByRole : Type 0 → Type 0
ThrottleByRole F = Option F × Option F

abbrev pub CapacityByBroker : Type 0 → Type 0
CapacityByBroker F = Map ℤ (ThrottleByRole F)

-- The sets of brokers of the ongoing reassignments.
pub record ReassigningBrokers : Type 0 where
  pub src : List ℤ
  pub dst : List ℤ
  pub all : List ℤ

pub record BrokerThrottleOverride : Type 0 where
  pub id : ℤ
  pub reassignment_participant : Bool
  pub rate : ℤ
  pub auto_remove : Bool

abbrev pub BrokerOverrides : Type 0
BrokerOverrides = Map ℤ BrokerThrottleOverride
