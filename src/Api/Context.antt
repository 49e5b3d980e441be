-- ===== src/Api/Context.antt =====
-- What the handlers of api/ read of the broker: the topics and their logs of storage/topic.go, and
-- the partition states of coordinator/partition_state.go. Topic names and ids are numbers.
use kaf_go.Base.{ℕ, Option}
use kaf_go.Base.Assoc.{Assoc, lookup, insert}
use kaf_go.Coordinator.Partition.{PartitionState}
use kaf_go.Coordinator.Partition.Store.{partition_key, PartitionStateStore}
use kaf_go.Storage.Log.{CommitLog}

pub record BrokerContext : Type 0 where
  pub broker_id : ℕ
  pub topics : Assoc ℕ
  pub commit_logs : Assoc CommitLog
  pub partition_states : PartitionStateStore

-- GetTopic: the name of the topic with this id.
abbrev pub get_topic : ℕ → BrokerContext → Option ℕ
get_topic topic_id b = lookup topic_id b.topics

abbrev pub get_commit_log : ℕ → ℕ → BrokerContext → Option CommitLog
get_commit_log topic_id partition b = lookup (partition_key topic_id partition) b.commit_logs

-- The state at its pointer in the store.
abbrev pub put_partition_state : ℕ → ℕ → PartitionState → BrokerContext → BrokerContext
put_partition_state name partition ps b = record b {
  partition_states = insert (partition_key name partition) ps b.partition_states;
}
