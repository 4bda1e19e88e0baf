-- ===== src/Autothrottle.antt =====
-- internal/autothrottle/replication: the throttle rates of the brokers that take part in a
-- reassignment. Limits models limits.go, Capacities capacities.go, Manager and Apply the choice and
-- the application of rates in throttles_update.go.
pub mod Types
pub mod Limits
pub mod Capacities
pub mod Manager
pub mod Apply
pub mod Tests
