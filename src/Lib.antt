-- ===== src/Lib.antt =====
-- Kafka-kit: a verification library for the tools that manage a Kafka cluster's partition placement.
--
-- The program. The package mapper holds the model of a cluster that topicmappr works on: a broker map
-- with each broker's rack, use count and free storage, a partition map with the replica set of each
-- partition, and the rebuild that moves replicas off brokers marked for replacement. topicmappr reads
-- the cluster's metadata (kafkaadmin, kafkazk), turns it into these maps (BrokerMapFromPartitionMap,
-- PartitionMapFromTopicStates), marks brokers (BrokerMap.Update), optionally pairs outgoing with new
-- brokers (SubstitutionAffinities), rebuilds the partition map (PartitionMap.Rebuild) or plans single
-- relocations of partitions from full brokers (planRelocationsForBroker), and writes it.
--
-- The files.
-- - Base and its children: Boolean tests on the native numbers, lists, integers, Go's maps as
--   association lists (Base/GoMap, with Base/GoMap/Extensional on the maps as sets of entries),
--   strings.Split, strconv.Atoi and strconv.Itoa (Base/Strconv), sort.Sort as a stable sort
--   (Base/Sort), rand.Seed and rand.Shuffle over an arbitrary source of draws (Base/Shuffle), and
--   float64 as a record of operations (Base/Float).
-- - Mapper/Types: the records of mapper/brokers.go, mapper/partitions.go and mapper/brokermeta.go. A
--   pointer to a broker is its ID; a broker map holds each broker at its own ID
--   (Mapper/Brokers/Keyed).
-- - Mapper/Brokers: orders and filters of mapper/brokers.go; Brokers/Order is about SortPseudoShuffle,
--   Brokers/Update and its children about BrokerMap.Update.
-- - Mapper/Ownership: SubStorage and BrokerMapFromPartitionMap of mapper/brokers.go.
-- - Mapper/Constraints: mapper/constraints.go; its children are about SelectBroker.
-- - Mapper/Partitions, Mapper/Topics, Mapper/Usage: the partition map of mapper/partitions.go, with
--   mapper/topics.go and mapper/brokermeta.go; Partitions/Compare has Equal, Copy and Strip, Usage has
--   UseStats and OptimizeLeaderFollower.
-- - Mapper/Placement: one replica of placeByPosition and placeByPartition of mapper/partitions.go;
--   Mapper/Rebuild: their loops, and Rebuild; its children follow one partition (Filling, Carried,
--   Steps), all of them (Replaced, Uniform), and show that a result is returned (Total, Passes,
--   Returns). The broker map, the candidates' order and the errors are passed on as a Progress.
-- - Mapper/Affinities: mapper/subaffinity.go and LocalitiesAvailable; Affinities/Traverse carries a
--   property through the matching, Free and Exclusive are two such properties. Mapper/Mappings:
--   mapper/mappings.go, with Mappings/Held on what is mapped, Mappings/Counted on how much.
--   Mapper/Stats: mapper/stats.go.
-- - Planner: cmd/topicmappr/commands/planner.go without its verbose output. Planner/Plan is about the
--   relocation plan and its application; Planner/Destinations is about the search for a destination
--   (Planner/Standing about the brokers in the map, Planner/Apart about the placement constraints),
--   Planner/Attempts about one partition, Planner/Scheduled about the relocation that
--   planRelocationsForBroker schedules, Planner/Removed about what it removes from the mappings, and
--   Planner/Total about its nil brokers. Planner/Bundle is determineOffloadTargets and one bundle of
--   computeReassignmentBundles of cmd/topicmappr/commands/reassignments.go, with Bundle/Exhausted on
--   the end of its passes.
-- - Commands: the steps of a rebuild in cmd/topicmappr/commands/rebuild_steps.go: the replication
--   factor, buildMap, phasedReassignment and evacuateLeadership. Commands/Leader is about the search
--   for a new leader, Commands/Evacuated about the partitions after it.
-- - Chunks: getPartitionMapChunks of cmd/topicmappr/commands/reassignments.go. Chunks/Settled is about
--   one chunk, Chunks/Converged about their sequence. os.Exit, an index out of range and a loop
--   without an end are outcomes of a Run (Base/Outcome).
-- - Registry: the tags of topics and brokers that internal/registry/server keeps. Registry/Types and
--   Registry/Tags are tag.go's tag sets (Tags/Laws on writing, reading and comparing them);
--   Registry/Store is tagstorage_zk.go: Znodes on the paths, Laws on what SetTags, GetTags and
--   DeleteTags do, Frame on what they leave alone, Reserved and Requests on reserved tags.
--   Registry/Filter is TagSetFromObject with FilterTopics and FilterBrokers: Laws on their loops and
--   on reserved fields, Shown on the tags that an object shows, Fields on what is written into its
--   Tags field, Answers on what they return; Registry/Cleanup is tag_cleanup.go. Registry/Zookeeper is
--   the interface kafkazk.Handler with what ZooKeeper documents of it, and JSON's encoding, both
--   parameters.
-- - Locking: the distributed lock of cluster/zookeeper. Locking/Entries is locks.go with idFromZnode;
--   Locking/Client is Lock and Unlock of locking.go on the answers of ZooKeeper and the clock, with
--   Client/Returns on what a call comes to. Locking/System interleaves any number of clients: its
--   steps are the creation of a claim, the calls of locks(), the test of the first claim, the watch on
--   the claim ahead and what ends it, and the deletes. A waiting client goes on when the claim ahead
--   of its own has gone, when its request or its watch fails, or when its context ends. Invariant,
--   First (the order of the children) and Ahead (the claim ahead) carry Mutex, Refinement and
--   Progress.
-- - Autothrottle: internal/autothrottle/replication. Autothrottle/Limits is limits.go,
--   Autothrottle/Capacities capacities.go (with Capacities/Rates on the rates of one broker),
--   Autothrottle/Manager the choice of rates in UpdateReplicationThrottle of throttles_update.go, and
--   Autothrottle/Apply applyBrokerThrottles in Kafka's native mode. Floats are Base/Float and, for
--   math.Max, math.Abs and math.Round, the record FloatMath of Autothrottle/Types.
-- - Registry/Cluster: an instance of the interfaces to ZooKeeper and JSON. Samples, the Tests of
--   Mapper, Planner, Commands, Chunks, Registry, Locking and Autothrottle, and Mapper/PlacementTests,
--   Mapper/AffinityTests and Mapper/MappingTests: inputs, runs, and theorems at concrete inputs.
--
-- Choices. An int of the source is ℤ, or ℕ where the source only counts. A result of `none` is a panic
-- (a nil broker). Where the source ranges over a map the model visits an association list in its
-- order, so that a theorem over all lists covers every order. compute_bundle takes its fuel, and one
-- pass per mapped replica and offload target is enough. getPartitionMapChunks has fuel for one chunk
-- per moved broker, which a positive step size needs at most. placeByPosition has fuel of two more
-- than the longest replica set: a pass beyond the longest replica set skips every partition, after
-- which the loop stops. Sorting is stable, where Go's sort.Sort may order equal elements otherwise. A
-- float has no law but, where planned storage is compared, that x - 0 is x. ZooKeeper's number of a
-- claim is any natural number, where ZooKeeper's own counter wraps around at 32 bits.
--
-- Not modelled: JSON, files, ZooKeeper, the Kafka and Datadog clients and the HTTP and gRPC servers,
-- which are input and output; topicmappr's flags, printing and reading of metadata, the rest of
-- autothrottle and the registry's gRPC handlers; the ends of ZooKeeper sessions and, between several
-- clients, the number of iterations after which Lock gives up (a client may give up at any of them)
-- and the purge of expired claims (a TTL lets a claim of a client that still holds the lock be purged,
-- as its comment says).
pub mod Base
pub mod Samples
pub mod Mapper
pub mod Autothrottle
pub mod Chunks
pub mod Commands
pub mod Locking
pub mod Planner
pub mod Registry
