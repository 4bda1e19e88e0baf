-- ===== src/Registry.antt =====
-- internal/registry/server: the tags of topics and brokers. Types and Tags model tag.go, Zookeeper
-- the interface that the storage uses, Store tagstorage_zk.go, Filter the filters of tag.go and
-- Cleanup tag_cleanup.go.
pub mod Types
pub mod Tags
pub mod Zookeeper
pub mod Store
pub mod Filter
pub mod Cleanup
pub mod Cluster
pub mod Tests
