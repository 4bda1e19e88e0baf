-- ===== src/Locking.antt =====
-- cluster/zookeeper: the lock that ZooKeeper's sequential znodes make. Entries models locks.go,
-- Client the calls of locking.go on one lock, System any number of clients over one ZooKeeper.
pub mod Entries
pub mod Client
pub mod System
pub mod Invariant
pub mod First
pub mod Ahead
pub mod Mutex
pub mod Refinement
pub mod Progress
pub mod Tests
