-- ===== src/Lib.antt =====
-- A model of kaf-go, a Kafka-compatible broker written in Go, and what is proved of it.
--
-- A broker reads requests from a connection (protocol/), handles each by its API key (api/) on the
-- state of the partitions, producers and groups (coordinator/) and on the segmented log
-- (storage/commitlog/); the server/ package runs the replica fetchers and the ISR manager on the
-- same state. The model has the wire codec, the coordinator's partition, producer, producer-id and
-- group state with the snapshots of the producers, the segmented log with its indexes, the registry,
-- the ISR tick and the replica fetcher of the server, and the fetch handler that brings the
-- partition states and the log together.
--
-- Base holds what the parts share: tests, lists, words, bit operations, association lists. An
-- integer of w bits is its bit pattern, a natural number below 2^w, with the wrap-around of the
-- machine written out; slt16, slt32 and slt64 compare patterns as signed numbers.
--
-- Protocol, the codec of protocol/reader.go, protocol/writer.go and protocol/header.go:
--   Protocol/Outcome     the Reader and what a read can do: give a value, an error or a panic
--   Protocol/Reader      one definition per Read method; a body behind a length prefix stands alone
--   Protocol/Writer      one definition per Write method, from the bytes so far to the bytes after
--   Protocol/Header      RequestHeader and ResponseHeader, IsFlexible of common/version.go, and
--                        ReadTaggedFields
--   Protocol/Heartbeat   the broker heartbeat's request and response, of protocol/broker/
--   Protocol/Metadata    the records of the metadata log, of protocol/metadata/metadata_record.go;
--                        RoundTrip and Short hold the proofs
--   Protocol/RoundTrip   the theory of reading back what is written: Stream (a reader between what
--                        is read and what is to come), Fixed, Uvarint, Values, Headers, Heartbeat
--                        and Codec
--   Protocol/Safety      reads on arbitrary bytes
--   Protocol/Panics      lengths that make a read panic
-- ReadUVarInt loops without a bound in the source; the model gives it ten rounds, which the read of
-- arbitrary bytes never uses up. WriteUVarInt recurs on a proof that the value shrinks.
-- UUIDs and strings are their bytes; a nil slice and an empty one that is not nil are none and some.
--
-- Coordinator, the state of coordinator/:
--   Coordinator/Idempotence   IdempotenceState of idempotence_state.go: Validate and Record, and
--                             the part of api/produce_api.go that calls them; Ring, Sequence
--                             and Chain hold the proofs
--   Coordinator/Snapshot      producer_snapshot.go: the snapshots of the producer states as bytes and
--                             as the files of a directory; Entry and File hold the round trip,
--                             Latest has LoadLatestProducerSnapshot, and Recover the
--                             ProducerStateManager of producer_state_manager.go, with the proofs
--                             in Roll, Same and Newest
--   Coordinator/Purgatory     PartitionPurgatory of partition_purgatory.go: parked requests
--   Coordinator/Partition     PartitionState of partition_state.go: the log end, the high
--                             watermark, the ISR and the followers' log ends; HighWatermark and
--                             Waiters hold the proofs, the latter over every sequence of steps;
--                             Store is the PartitionStateStore, Store/Balance its proof
--   Coordinator/Pid           PidManager of pid_manager.go and recoverPidManager of
--                             server/server.go; Unique holds the proof
--   Coordinator/Group         a consumer group of group_store.go: its members and the join barrier;
--                             Sound and Channels hold the proofs
--   Coordinator/GroupStore    GroupStore of group_store.go: Heartbeat, JoinGroup, LeaveGroup and
--                             SyncGroup, and the functions that the timers call; Steps has every
--                             sequence of them; Invariant, Sync, Timeout, Moves and Lost hold the
--                             proofs; Offsets has CommitOffsets and FetchOffsets
-- The checksum of hash/crc32 is a parameter, of which is used only that it has 32 bits.
-- Maps are association lists, the clock is an argument, each method that locks is one step, and a
-- channel is a number with the list of what was sent. Metrics and log lines are left out. The produce
-- handler's Validate, AppendRaw and Record are one step, and what AppendRaw does in it is an argument;
-- so are the records that Replay hands over at a restart.
-- The names of groups, members and protocols are numbers, 0 for the empty string. A timer is a step
-- that can come at any time, and for the rebalance timer with any generation, so that what holds
-- after all steps holds for every timing; a panic of a method is a result of its own. The members
-- of a group come in the order of the association list, which the source leaves open.
--
-- Storage, the log of storage/commitlog/:
--   Storage/Search     rounds of a loop, and the place of a key in an ordered list
--   Storage/Segments   findSegmentByOffset of commitlog.go; Floor holds the proof
--   Storage/Index      OffsetIndex of index.go over the bytes of its mapping: NewOffsetIndex,
--                      Append, grow and Lookup; Entries, Append and Floor hold the proofs
--   Storage/TimeIndex  TimeIndex of index.go: NewTimeIndex, Append and grow
--   Storage/Region     FindRawRegion of segment.go; Batches has the batches of a file, Search,
--                      Served and Previous the proofs
--   Storage/Recovery   NextOffset, scanLastOffset and walkBatchHeaders of segment.go; Whole holds
--                      the proof
--   Storage/Log        AppendRaw of segment.go, AppendRaw and FindRecords of commitlog.go; Sound,
--                      Appends and Refused hold the proofs
--   Storage/Clip       ClipRegionToOffset of clip.go over the bytes of the log file; Visible holds
--                      the proof
-- The searches get one round more than there are keys, which halving never uses up; the scan of a
-- region or of a log file gets one round more than there are bytes, and each batch has more than
-- one. What the file calls of grow, Seek and Write do is an argument, and so are the files that
-- NewSegment opens; Stat and ReadAt within a file succeed. Entry counts are those of a file in
-- memory, so their products with the entry size do not overflow.
--
-- Server, what a broker runs beside its requests, of server/:
--   Server/Registry   BrokerRegistry of broker_registry.go; Fencing holds the proof
--   Server/Isr        the tick of isr_manager.go for one partition that no other call changes
--                     meanwhile; Tick holds the proof
--   Server/Replica    what the ReplicaFetcher of replica_fetcher.go does with a response; Count,
--                     Follow and Again hold the proofs
-- The times are arguments, and so is what the topic store tells of a topic.
--
-- Api, the handlers of api/:
--   Api/Context   what a handler reads of the broker: topics, logs and partition states
--   Api/Fetch     HandleFetchApiKeys of fetch_api.go up to the writing of the response; Batches
--                 and Visible hold the proof, from those on Storage/Region and Storage/Clip
--   Api/Samples   a record batch that the tests use
-- The key of a partition is its topic's number and its index; the source writes both in a string.
--
-- Not modelled: the message bodies under protocol/ besides the headers, the broker heartbeat and the
-- metadata records; the record batches, of which the model reads and counts the headers; single
-- messages in the log; the handlers of api/ that pass a decoded request to one of the stores; the
-- directories of the topics; connections, goroutines and metrics, and the command-line tools.
pub mod Base
pub mod Protocol
pub mod Coordinator
pub mod Storage
pub mod Server
pub mod Api
