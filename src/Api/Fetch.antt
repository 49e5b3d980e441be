-- ===== src/Api/Fetch.antt =====
-- HandleFetchApiKeys of api/fetch_api.go up to the writing of the response: what a fetch request is
-- answered for each partition, and what a replica's fetch does to the partition's state. The clock
-- is an argument.
pub mod Batches
pub mod Visible
use kaf_go.Base.{
  ℕ, ◌+◌, ◌-◌, Bool, true, false, List, [], ◌∷◌, Option, none, some, ◌==◌, if◌then◌else◌, slt32,
  slt64, extend32, two64,
}
use kaf_go.Coordinator.Partition.Store.{get_partition_state}
use kaf_go.Coordinator.Partition.{PartitionState, update_replica_leo}
use kaf_go.Storage.Clip.{
  RecordsRegion, Scan, unfinished, Clipped, clipped, failed, clip_region_to_offset,
}
use kaf_go.Storage.Log.{
  CommitLog, Found, no_region, found, search_fails, search_panics, search_endless, find_records,
}
use kaf_go.Api.Context.{BrokerContext, get_topic, get_commit_log, put_partition_state}

pub record FetchPartition : Type 0 where
  pub partition : ℕ
  pub fetch_offset : ℕ
  pub partition_max_bytes : ℕ

pub record FetchTopic : Type 0 where
  pub topic_id : ℕ
  pub partitions : List FetchPartition

-- ReplicaState is none for nil, and else ReplicaId.
pub record FetchRequest : Type 0 where
  pub topics : List FetchTopic
  pub replica_state : Option ℕ

pub data ErrorCode : Type 0 where
  none_error unknown_topic_or_partition not_leader_for_partition : ErrorCode

-- A FetchPartitionResponse with the region behind it; none for no region.
pub record PartResult : Type 0 where
  pub partition_index : ℕ
  pub error_code : ErrorCode
  pub high_watermark : ℕ
  pub last_stable_offset : ℕ
  pub log_start_offset : ℕ
  pub region : Option RecordsRegion

-- The response that the loop starts with.
abbrev pub empty_result : ℕ → PartResult
empty_result partition = record {
  partition_index = partition;
  error_code = none_error;
  high_watermark = 0;
  last_stable_offset = 0;
  log_start_offset = 0;
  region = none;
}

abbrev pub error_result : ℕ → ErrorCode → PartResult
error_result partition error = record (empty_result partition) { error_code = error }

-- A value, or the panic or the endless loop of a search in the log.
pub data Answered {ℓ} (A : Type ℓ) : Type ℓ where
  answered : A → Answered A
  panics : Answered A
  endless : Answered A

abbrev pub and_then {ℓ κ} : {A : Type ℓ} {B : Type κ} → Answered A → (A → Answered B) → Answered B
and_then (answered a) f = f a
and_then panics f = panics
and_then endless f = endless

-- isReplicated, with the id of the replica.
abbrev pub replica_of : Option ℕ → Option ℕ
replica_of none = none
replica_of (some id) = if slt32 0 id then some id else none

abbrev pub after_replica_fetch : ℕ → Option ℕ → ℕ → PartitionState → PartitionState
after_replica_fetch now none fetch_offset ps = ps
after_replica_fetch now (some id) fetch_offset ps = update_replica_leo now id fetch_offset ps

-- maxVisible.
abbrev pub max_visible : Option ℕ → PartitionState → ℕ
max_visible none ps = ps.hwm
max_visible (some id) ps = ps.leo

abbrev pub not_empty : RecordsRegion → Option RecordsRegion
not_empty reg = if slt64 0 reg.size then some reg else none

-- clipped, where it holds some bytes.
abbrev pub clipped_region : Clipped → Answered (Option RecordsRegion)
clipped_region (clipped none) = answered none
clipped_region (clipped (some reg)) = answered (not_empty reg)
clipped_region (failed unfinished) = endless
clipped_region (failed _) = answered none

-- region and pr.LogStartOffset.
abbrev pub visible_region : ℕ → Found → Answered (Option RecordsRegion × ℕ)
visible_region bound no_region = answered (none, 0)
visible_region bound search_fails = answered (none, 0)
visible_region bound search_panics = panics
visible_region bound search_endless = endless
visible_region bound (found reg) =
    and_then (clipped_region (clip_region_to_offset (some reg) bound))
      (λ region. answered (region, reg.log_start))

abbrev pub with_region : ℕ → PartitionState → Option RecordsRegion × ℕ → PartResult
with_region partition ps (reg, start) = record {
  partition_index = partition;
  error_code = none_error;
  high_watermark = ps.hwm;
  last_stable_offset = ps.hwm;
  log_start_offset = start;
  region = reg;
}

-- The read of the log for a partition in this state.
unfoldable pub read_partition :
    Option ℕ → FetchPartition → CommitLog → PartitionState → Answered PartResult
unfolding find_records clip_region_to_offset
read_partition replica part cl ps =
    and_then
      (visible_region (max_visible replica ps)
        (find_records part.fetch_offset (extend32 part.partition_max_bytes) cl))
      (λ found. answered (with_region part.partition ps found))

-- The end of the round, on the partition's log.
abbrev pub fetch_log :
    ℕ
    → Option ℕ
    → ℕ
    → FetchPartition
    → PartitionState
    → BrokerContext
    → Option CommitLog
    → Answered (PartResult × BrokerContext)
fetch_log now replica name part ps b none =
    answered (error_result part.partition unknown_topic_or_partition, b)
fetch_log now replica name part ps b (some cl) =
    let ps' = after_replica_fetch now replica part.fetch_offset ps in
    and_then (read_partition replica part cl ps')
      (λ result. answered (result, put_partition_state name part.partition ps' b))

abbrev pub fetch_led :
    ℕ
    → Option ℕ
    → ℕ
    → ℕ
    → FetchPartition
    → BrokerContext
    → Option PartitionState
    → Answered (PartResult × BrokerContext)
fetch_led now replica topic_id name part b none =
    answered (error_result part.partition unknown_topic_or_partition, b)
fetch_led now replica topic_id name part b (some ps) =
    if ps.leader_broker_id == b.broker_id
    then fetch_log now replica name part ps b (get_commit_log topic_id part.partition b)
    else answered (error_result part.partition not_leader_for_partition, b)

-- One round of the loop over the partitions.
unfoldable pub fetch_partition :
    ℕ
    → Option ℕ
    → ℕ
    → Option ℕ
    → FetchPartition
    → BrokerContext
    → Answered (PartResult × BrokerContext)
unfolding read_partition update_replica_leo
fetch_partition now replica topic_id none part b =
    answered (error_result part.partition unknown_topic_or_partition, b)
fetch_partition now replica topic_id (some name) part b =
    fetch_led now replica topic_id name part b
      (get_partition_state name part.partition b.partition_states)

unfoldable pub fetch_partitions :
    ℕ
    → Option ℕ
    → ℕ
    → List FetchPartition
    → BrokerContext
    → Answered (List PartResult × BrokerContext)
unfolding fetch_partition
fetch_partitions now replica topic_id [] b = answered ([], b)
fetch_partitions now replica topic_id (part ∷ parts) b =
    and_then (fetch_partition now replica topic_id (get_topic topic_id b) part b) (λ first.
      and_then (fetch_partitions now replica topic_id parts first.1)
        (λ rest. answered (first.0 ∷ rest.0, rest.1)))

unfoldable pub fetch_topics :
    ℕ
    → Option ℕ
    → List FetchTopic
    → BrokerContext
    → Answered (List (ℕ × List PartResult) × BrokerContext)
unfolding fetch_partitions
fetch_topics now replica [] b = answered ([], b)
fetch_topics now replica (t ∷ topics) b =
    and_then (fetch_partitions now replica t.topic_id t.partitions b) (λ first.
      and_then (fetch_topics now replica topics first.1)
        (λ rest. answered ((t.topic_id, first.0) ∷ rest.0, rest.1)))

-- topicResults, and the broker after the request.
unfoldable pub handle_fetch :
    ℕ → FetchRequest → BrokerContext → Answered (List (ℕ × List PartResult) × BrokerContext)
unfolding fetch_topics
handle_fetch now request b = fetch_topics now (replica_of request.replica_state) request.topics b
