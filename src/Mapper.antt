-- ===== src/Mapper.antt =====
-- mapper/: brokers, partition maps, and the placement of partitions on brokers.
pub mod Types
pub mod Brokers
pub mod Constraints
pub mod Partitions
pub mod Usage
pub mod Placement
pub mod Rebuild
pub mod Affinities
pub mod Ownership
pub mod Mappings
pub mod Stats
pub mod Topics
mod AffinityTests
mod MappingTests
mod PlacementTests
mod Tests
