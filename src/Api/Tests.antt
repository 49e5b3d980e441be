-- ===== src/Api/Tests.antt =====
-- The fetch handler at a broker with one partition, whose log holds the offsets 5 to 7 and 8 to 9.
use kaf_go.Base.{◌≡◌, refl, arith, false, List, [], ◌∷◌, some, none}
use kaf_go.Storage.Index.{zeros, lookup}
use kaf_go.Base.Assoc
use kaf_go.Storage.Region.Batches.{LogBatch, log_contents}
use kaf_go.Storage.Segments.{find_segment_by_offset}
use kaf_go.Storage.Log.{Segment, CommitLog, segments, oldest}
use kaf_go.Coordinator.Partition.{PartitionState, new_partition_state}
use kaf_go.Coordinator.Partition.Store.{partition_key}
use kaf_go.Api.Samples.{batch_of, batch_of-IsRecordBatch}
use kaf_go.Api.Context.{BrokerContext, put_partition_state}
use kaf_go.Api.Fetch.{FetchPartition, answered, not_empty, with_region, fetch_partition}
use kaf_go.Api.Fetch.Visible.{Holds, Shown, region_of_batches, fetch_partition-committed}

abbrev two : List LogBatch
two = batch_of 5 2 ∷ batch_of 8 1 ∷ []

abbrev active : Segment
active = record {
  base_offset = 5;
  log_file = log_contents two;
  offset_index = record { mmap = zeros 16; base_offset = 5; size = 16; entry_count = 0 };
  time_index = record { mmap = []; base_offset = 5; size = 0; entry_count = 0 };
  max_bytes = 1000;
  current_size = 140;
  index_interval = 1000;
  last_indexed_position = 0;
}

abbrev log : CommitLog
log = record {
  sealed = [];
  active = active;
  config = record { segment_max_bytes = 1000; index_interval = 1000 };
  is_closed = false;
  next_offset = 10;
}

-- Offsets below 8 are committed.
abbrev state : PartitionState
state = record (new_partition_state 1 0 (1 ∷ 2 ∷ []) (1 ∷ 2 ∷ [])) {
  leo = 10;
  hwm = 8;
  replica_leo = (2, 8) ∷ [];
}

abbrev broker : BrokerContext
broker = record {
  broker_id = 1;
  topics = (40, 4) ∷ [];
  commit_logs = (partition_key 40 0, log) ∷ [];
  partition_states = (partition_key 4 0, state) ∷ [];
}

abbrev part : FetchPartition
part = record { partition = 0; fetch_offset = 5; partition_max_bytes = 0 }

log-Holds : Holds log active part [] two
unfolding find_segment_by_offset lookup
log-Holds = record {
  open_below = refl;
  place = 0;
  chosen = refl;
  not_negative = refl;
  segment = refl;
  file = refl;
  indexed = refl;
  valid =
      (batch_of-IsRecordBatch 5 2 (omega arith), (batch_of-IsRecordBatch 8 1 (omega arith), tt));
  fits = omega arith;
  bound = omega arith;
}

fetch_partition-committed_example :
    (w : Shown 5 8 two) × (fetch_partition 77 none 40 (some 4) part broker
      ≡ answered (
        with_region 0 state
            (not_empty (region_of_batches log active [] w.skipped w.shown), oldest (segments log)),
        put_partition_state 4 0 state broker,
      ))
unfolding Assoc.lookup
fetch_partition-committed_example =
    fetch_partition-committed 77 40 4 part broker state log active [] (batch_of 5 2)
      (batch_of 8 1 ∷ []) refl refl refl log-Holds
