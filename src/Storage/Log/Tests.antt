-- ===== src/Storage/Log/Tests.antt =====
-- The theorems on the log at two batches, of offsets 5 to 7 and 8 to 9.
use kaf_go.Base.{
  ℕ, ◌+◌, ◌≡◌, refl, inl, arith, false, List, [], ◌∷◌, ◌++◌, some, none, length, All, if◌then◌else◌,
}
use kaf_go.Protocol.Reader.{big_endian}
use kaf_go.Storage.Index.{OffsetIndex, zeros, lookup, grows, truncate_fails}
use kaf_go.Storage.Index.Entries.{IndexEntry, encode}
use kaf_go.Protocol.Writer.{fixed_bytes}
use kaf_go.Storage.TimeIndex.{TimeIndex}
use kaf_go.Storage.Search.{looked}
use kaf_go.Storage.Region.{region, find_raw_region}
use kaf_go.Storage.Region.Batches.{LogBatch, IsLogBatch, log_contents}
use kaf_go.Storage.Region.Search.{limited}
use kaf_go.Storage.Region.Served.{served, EndsBelow, find_raw_region-served}
use kaf_go.Storage.Region.Previous.{find_raw_region_misses}
use kaf_go.Storage.Recovery.{next_offset}
use kaf_go.Storage.Recovery.Whole.{next_offset-whole}
use kaf_go.Storage.Log.{
  Segment, CommitLog, Outside, written, is_full, segments, patched, appended, refused, ran,
  append_raw, found, no_region, find_records,
}
use kaf_go.Storage.Log.Sound.{Indexed, Sound, all_well, fresh}
use kaf_go.Storage.Log.Appends.{bytes_of, Fits, Appended, append_raw-Sound}
use kaf_go.Storage.Log.Refused.{append_raw_refused_but_written}

-- A batch of 70 bytes; both numbers are below 256.
abbrev batch_of : ℕ → ℕ → LogBatch
batch_of base delta = record {
  base_offset = base;
  last_offset_delta = delta;
  bytes = zeros 7 ++ (base ∷ (zeros 3 ++ (58 ∷ (zeros 14 ++ (delta ∷ zeros 43)))));
}

batch_of-IsLogBatch : (base delta : ℕ) → IsLogBatch (batch_of base delta)
unfolding big_endian
batch_of-IsLogBatch base delta = record {
  whole = omega arith;
  base = omega arith;
  len = omega arith;
  short = omega arith;
  delta = omega arith;
}

abbrev first : LogBatch
first = batch_of 5 2

abbrev second : LogBatch
second = batch_of 8 1

abbrev two : List LogBatch
two = first ∷ second ∷ []

two-IsLogBatch : All IsLogBatch two
two-IsLogBatch = (batch_of-IsLogBatch 5 2, (batch_of-IsLogBatch 8 1, tt))

abbrev no_entries : OffsetIndex
no_entries = record { mmap = zeros 16; base_offset = 5; size = 16; entry_count = 0 }

from_start : lookup 8 no_entries ≡ looked 0
unfolding lookup
from_start = refl

-- A consumer that asks for offset 8, and for 100 bytes, is given the batch that ends at offset 7.
region_for_8 : find_raw_region (log_contents two) no_entries 8 100 ≡ region 0 70
unfolding find_raw_region big_endian
region_for_8 = refl

find_raw_region-served_example :
    (skipped : List LogBatch) × (two ≡ skipped ++ served 8 none two)
    × All (EndsBelow 8) skipped
    × (find_raw_region ([] ++ log_contents two) no_entries 8 100
        ≡ region
            (0 + length (log_contents skipped))
            (length (log_contents (limited 100 0 (served 8 none two)))))
find_raw_region-served_example =
    find_raw_region-served [] first (second ∷ []) no_entries 8 100 from_start two-IsLogBatch
      (omega arith) (omega arith)

find_raw_region_misses_example :
    find_raw_region ([] ++ log_contents two) no_entries 8 100 ≡ region 0 70
find_raw_region_misses_example =
    find_raw_region_misses [] first second [] no_entries 8 100 from_start two-IsLogBatch
      (omega arith) (omega arith) (omega arith) (omega arith) refl refl refl

-- Three bytes of a third batch have reached the file.
next_offset-whole_example : next_offset 5 (log_contents two ++ (0 ∷ 0 ∷ 0 ∷ [])) ≡ some 10
next_offset-whole_example =
    next_offset-whole 5 two (0 ∷ 0 ∷ 0 ∷ []) two-IsLogBatch (omega arith, (omega arith, tt))
      (inl (omega arith)) (omega arith)

abbrev no_times : TimeIndex
no_times = record { mmap = zeros 12; base_offset = 5; size = 12; entry_count = 0 }

abbrev active : Segment
active = record {
  base_offset = 5;
  log_file = log_contents two;
  offset_index = no_entries;
  time_index = no_times;
  max_bytes = 100;
  current_size = 140;
  index_interval = 4096;
  last_indexed_position = 0;
}

abbrev full_log : CommitLog
full_log = record {
  sealed = [];
  active = active;
  config = record { segment_max_bytes = 100; index_interval = 4096 };
  is_closed = false;
  next_offset = 10;
}

full_log-Sound : Sound full_log two
full_log-Sound = record {
  is_open = refl;
  file = refl;
  valid = two-IsLogBatch;
  positive = (omega arith, (omega arith, tt));
  next = refl;
  indexed = record {
    entries = [];
    spare = zeros 16;
    holds = record { mapped = refl; sized = refl; counted = refl };
    room = omega arith;
    times = record { sized = refl; some_room = omega arith; entries = omega arith };
  };
}

third-Fits : Fits 10 1 (batch_of 0 0)
third-Fits = record {
  valid = batch_of-IsLogBatch 0 0;
  counted = refl;
  small = omega arith;
  below = omega arith;
}

-- The third batch goes to a new segment.
append_raw-Sound_example :
    Appended 7 1
      (batch_of 0 0)
      full_log
      (if is_full active then some 10 else none)
      (append_raw (all_well 7) (some fresh) (batch_of 0 0).bytes 1 full_log)
append_raw-Sound_example =
    append_raw-Sound 7 1 (batch_of 0 0) full_log two full_log-Sound third-Fits (omega arith)

-- An offset index of 16 bytes, as of a file that Close cut to two entries, with two entries written.
abbrev two_entries : List IndexEntry
two_entries =
    record { relative_offset = 0; position = 0 }
    ∷ record { relative_offset = 3; position = 70 }
    ∷ []

abbrev stuck_log : CommitLog
stuck_log = record full_log {
  active = record active {
    max_bytes = 1000;
    index_interval = 64;
    last_indexed_position = 70;
    offset_index = record {
      mmap = encode two_entries;
      base_offset = 5;
      size = 16;
      entry_count = 2;
    };
  };
}

stuck_log-Indexed : Indexed stuck_log.active
unfolding fixed_bytes
stuck_log-Indexed = record {
  entries = two_entries;
  spare = [];
  holds = record { mapped = refl; sized = refl; counted = refl };
  room = omega arith;
  times = record { sized = refl; some_room = omega arith; entries = omega arith };
}

abbrev disk_full : Outside
disk_full = record { write = written; offset_growth = truncate_fails; time_growth = grows; now = 7 }

append_raw_refused_but_written_example :
    (c' c'' : CommitLog) × (append_raw disk_full none (batch_of 0 0).bytes 1 stuck_log
      ≡ ran refused c')
    × (append_raw (all_well 8) (some fresh) (batch_of 0 1).bytes 2 c' ≡ ran (appended 10 none) c'')
    × (bytes_of (segments c'')
        ≡ (bytes_of (segments stuck_log) ++ patched 10 (batch_of 0 0).bytes)
          ++ patched 10 (batch_of 0 1).bytes)
unfolding patched fixed_bytes
append_raw_refused_but_written_example =
    append_raw_refused_but_written disk_full none (batch_of 0 0).bytes (batch_of 0 1).bytes 1 2 8
      stuck_log refl (inl refl) refl refl refl (omega arith) (omega arith) refl (omega arith)
      stuck_log-Indexed

-- Offset 9 is found with no limit on the bytes, and offset 10 is not there yet.
found_9 :
    find_records 9 0 full_log
    ≡ found (record {
      file = some (log_contents two);
      file_offset = 70;
      size = 70;
      leo = 10;
      log_start = 5;
    })
unfolding find_records big_endian
found_9 = refl

none_at_10 : find_records 10 0 full_log ≡ no_region
unfolding find_records
none_at_10 = refl
