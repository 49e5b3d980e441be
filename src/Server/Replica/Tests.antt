-- ===== src/Server/Replica/Tests.antt =====
-- A follower that has the offsets 5 to 7 and fetches from offset 8, of a leader that has 8 and 9 too.
use kaf_go.Base.{◌+◌, ◌≡◌, refl, arith, false, List, [], ◌∷◌, ◌++◌, some, length, drop}
use kaf_go.Protocol.Writer.{fixed_bytes}
use kaf_go.Storage.Index.{OffsetIndex, zeros, lookup}
use kaf_go.Storage.Search.{looked}
use kaf_go.Storage.Region.{region, find_raw_region}
use kaf_go.Storage.Region.Batches.{LogBatch, log_contents}
use kaf_go.Storage.Log.{Segment, segments}
use kaf_go.Storage.Log.Sound.{all_well, fresh}
use kaf_go.Storage.Log.Appends.{bytes_of}
use kaf_go.Api.Samples.{batch_of, batch_of-IsRecordBatch}
use kaf_go.Server.Replica.{ReplicaFetcher, PartitionResponse, handle_response}
use kaf_go.Server.Replica.Follow.{Ready, Brings, Took, handle_response-follows}
use kaf_go.Server.Replica.Again.{handle_response-again}

abbrev first : LogBatch
first = batch_of 5 2

abbrev second : LogBatch
second = batch_of 8 1

abbrev no_entries : OffsetIndex
no_entries = record { mmap = zeros 16; base_offset = 5; size = 16; entry_count = 0 }

abbrev active : Segment
active = record {
  base_offset = 5;
  log_file = log_contents (first ∷ []);
  offset_index = no_entries;
  time_index = record { mmap = zeros 12; base_offset = 5; size = 12; entry_count = 0 };
  max_bytes = 1000;
  current_size = 70;
  index_interval = 4096;
  last_indexed_position = 0;
}

abbrev follower : ReplicaFetcher
follower = record {
  fetch_offset = 8;
  high_watermark = 8;
  commit_log = record {
    sealed = [];
    active = active;
    config = record { segment_max_bytes = 1000; index_interval = 4096 };
    is_closed = false;
    next_offset = 8;
  };
}

follower-Ready : Ready follower
follower-Ready = record {
  is_open = refl;
  room = refl;
  indexed = record {
    entries = [];
    spare = zeros 16;
    holds = record { mapped = refl; sized = refl; counted = refl };
    room = omega arith;
    times = record { sized = refl; some_room = omega arith; entries = omega arith };
  };
}

abbrev response : List LogBatch → PartitionResponse
response bs = record { error_code = 0; records = log_contents bs; high_watermark = 10 }

second-Brings : Brings (response (second ∷ [])) follower (second ∷ [])
second-Brings = record {
  no_error = refl;
  batches = refl;
  valid = (batch_of-IsRecordBatch 8 1 (omega arith), tt);
  few = omega arith;
  below = omega arith;
}

both-Brings : Brings (response (first ∷ second ∷ [])) follower (first ∷ second ∷ [])
both-Brings = record {
  no_error = refl;
  batches = refl;
  valid =
      (batch_of-IsRecordBatch 5 2 (omega arith), (batch_of-IsRecordBatch 8 1 (omega arith), tt));
  few = omega arith;
  below = omega arith;
}

handle_response-follows_example :
    (t : Took
      (response (second ∷ []))
      follower
      (second ∷ [])
      (handle_response (all_well 7) (some fresh) (response (second ∷ [])) follower))
    × (log_contents (first ∷ second ∷ []) ≡ bytes_of (segments t.rf'.commit_log) ++ [])
unfolding fixed_bytes
handle_response-follows_example =
    handle_response-follows 7 (response (second ∷ [])) follower second []
      (drop 8 (log_contents (second ∷ []))) (log_contents (first ∷ second ∷ [])) [] follower-Ready
      second-Brings refl refl

from_start : lookup 8 no_entries ≡ looked 0
unfolding lookup
from_start = refl

handle_response-again_example :
    (find_raw_region ([] ++ log_contents (first ∷ second ∷ [])) no_entries 8 1000
      ≡ region 0 (length (log_contents (first ∷ second ∷ []))))
    × (t : Took
        (response (first ∷ second ∷ []))
        follower
        (first ∷ second ∷ [])
        (handle_response (all_well 7) (some fresh) (response (first ∷ second ∷ [])) follower))
    × (t.rf'.fetch_offset ≡ 8 + 2 + 3)
handle_response-again_example =
    handle_response-again 7 [] first second [] no_entries 1000 (response (first ∷ second ∷ []))
      follower from_start (omega arith) (omega arith) (omega arith) refl refl refl follower-Ready
      refl both-Brings
