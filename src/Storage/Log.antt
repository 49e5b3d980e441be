-- ===== src/Storage/Log.antt =====
-- NewSegment and AppendRaw of storage/commitlog/segment.go, and AppendRaw and FindRecords of
-- storage/commitlog/commitlog.go. The files are their bytes; what the calls of the file system do,
-- and the time, are arguments.
pub mod Sound
pub mod Appends
pub mod Refused
mod Tests
use kaf_go.Base.{
  ℕ, zero, suc, ◌+◌, ◌-◌, ◌%◌, Bool, true, false, List, [], ◌∷◌, ◌++◌, map, Option, some, none,
  length, get_elem?, take, drop, ltb, ◌==◌, ◌||◌,
}
use kaf_go.Base.{if◌then◌else◌, slt64, sle64, two64, extend32}
use kaf_go.Protocol.Writer.{fixed_bytes}
use kaf_go.Storage.Search.{Looked, looked, panics, unfinished}
use kaf_go.Storage.Segments.{find_segment_by_offset}
use kaf_go.Storage.Index.{OffsetIndex, new_offset_index, Growth, append}
use kaf_go.Storage.TimeIndex.{TimeIndex, new_time_index, append_time}
use kaf_go.Storage.Clip.{RecordsRegion}
use kaf_go.Storage.Region.{Region, region, failed, index_panics, endless, find_raw_region}
use kaf_go.Storage.Recovery.{next_offset}

pub record Segment : Type 0 where
  pub base_offset : ℕ
  pub log_file : List ℕ
  pub offset_index : OffsetIndex
  pub time_index : TimeIndex
  pub max_bytes : ℕ
  pub current_size : ℕ
  pub index_interval : ℕ
  pub last_indexed_position : ℕ

-- The files that NewSegment opens, and the two numbers of the configuration.
pub record SegmentFiles : Type 0 where
  pub log : List ℕ
  pub offsets : List ℕ
  pub times : List ℕ

pub record CommitLogConfig : Type 0 where
  pub segment_max_bytes : ℕ
  pub index_interval : ℕ

-- NewSegment, where the files open.
unfoldable pub new_segment : ℕ → SegmentFiles → CommitLogConfig → Segment
new_segment base_offset files config = record {
  base_offset = base_offset;
  log_file = files.log;
  offset_index = new_offset_index files.offsets base_offset;
  time_index = new_time_index files.times base_offset;
  max_bytes = config.segment_max_bytes;
  current_size = length files.log;
  index_interval = config.index_interval;
  last_indexed_position = 0;
}

-- What Seek and Write do: both succeed, Seek fails, or Write fails behind so many bytes.
pub data Written : Type 0 where
  written seek_fails : Written
  write_fails : ℕ → Written

-- What the outside does in an AppendRaw; `now` is time.Now().UnixNano().
pub record Outside : Type 0 where
  pub write : Written
  pub offset_growth : Growth
  pub time_growth : Growth
  pub now : ℕ

-- The Bool is err == nil, and none is a panic of an index.
abbrev pub time_indexed : Segment → ℕ → Option (Bool × TimeIndex) → Option (Bool × Segment)
time_indexed s position none = none
time_indexed s position (some (false, idx)) = some (false, record s { time_index = idx })
time_indexed s position (some (true, idx)) =
    some (true, record s { time_index = idx; last_indexed_position = position })

abbrev pub offset_indexed :
    Outside → ℕ → Segment → ℕ → Option (Bool × OffsetIndex) → Option (Bool × Segment)
offset_indexed o base_offset s position none = none
offset_indexed o base_offset s position (some (false, idx)) =
    some (false, record s { offset_index = idx })
offset_indexed o base_offset s position (some (true, idx)) =
    time_indexed (record s { offset_index = idx }) position
      (append_time o.time_growth base_offset o.now s.time_index)

-- The end of AppendRaw: the batch at `position` is indexed where it is far enough from the last.
abbrev pub index_batch : Outside → ℕ → ℕ → Segment → Option (Bool × Segment)
index_batch o base_offset position s =
    if (s.offset_index.entry_count == 0)
      || sle64 s.index_interval ((position + (two64 - s.last_indexed_position)) % two64)
    then offset_indexed o base_offset s position
        (append o.offset_growth base_offset position s.offset_index)
    else some (true, s)

abbrev pub write_batch : Outside → ℕ → List ℕ → Segment → Written → Option (Bool × Segment)
write_batch o base_offset batch s seek_fails = some (false, s)
write_batch o base_offset batch s (write_fails n) =
    some (false, record s { log_file = s.log_file ++ take n batch })
write_batch o base_offset batch s written =
    index_batch o base_offset (length s.log_file) (record s {
      log_file = s.log_file ++ batch;
      current_size = (s.current_size + length batch) % two64;
    })

-- PutUint64(data[0:8], baseOffset).
unfoldable pub patched : ℕ → List ℕ → List ℕ
patched base_offset batch = fixed_bytes 8 base_offset ++ drop 8 batch

unfoldable pub segment_append_raw : Outside → ℕ → List ℕ → Segment → Option (Bool × Segment)
unfolding patched append append_time
segment_append_raw o base_offset batch s =
    if ltb (length batch) 8
    then some (false, s)
    else write_batch o base_offset (patched base_offset batch) s o.write

abbrev pub is_full : Segment → Bool
is_full s = sle64 s.max_bytes s.current_size

-- The segments are the sealed ones and the active one, in this order.
pub record CommitLog : Type 0 where
  pub sealed : List Segment
  pub active : Segment
  pub config : CommitLogConfig
  pub is_closed : Bool
  pub next_offset : ℕ

abbrev pub segments : CommitLog → List Segment
segments c = c.sealed ++ (c.active ∷ [])

-- The start offset and the base offset that the roll hook is called with, or an error.
pub data Reply : Type 0 where
  appended : ℕ → Option ℕ → Reply
  refused : Reply

pub data Ran : Type 0 where
  ran : Reply → CommitLog → Ran
  append_panics : Ran
  append_endless : Ran

abbrev pub active_appended : Option ℕ → ℕ → CommitLog → Option (Bool × Segment) → Ran
active_appended rolled record_count c none = append_panics
active_appended rolled record_count c (some (false, s)) = ran refused (record c { active = s })
active_appended rolled record_count c (some (true, s)) =
    ran (appended c.next_offset rolled)
      (record c { active = s; next_offset = (c.next_offset + extend32 record_count) % two64 })

abbrev pub append_active : Outside → List ℕ → ℕ → Option ℕ → CommitLog → Ran
append_active o batch record_count rolled c =
    active_appended rolled record_count c (segment_append_raw o c.next_offset batch c.active)

-- A full segment is sealed; the files of the new one open, or do not.
abbrev pub roll : Outside → Option SegmentFiles → List ℕ → ℕ → CommitLog → Option ℕ → Ran
roll o files batch record_count c none = append_endless
roll o none batch record_count c (some base_offset) = ran refused c
roll o (some files) batch record_count c (some base_offset) =
    append_active o batch record_count (some base_offset) (record c {
      sealed = c.sealed ++ (c.active ∷ []);
      active = new_segment base_offset files c.config;
    })

unfoldable pub append_raw : Outside → Option SegmentFiles → List ℕ → ℕ → CommitLog → Ran
unfolding segment_append_raw new_segment next_offset
append_raw o files batch record_count c =
    if c.is_closed
    then ran refused c
    else if is_full c.active
    then roll o files batch record_count c (next_offset c.active.base_offset c.active.log_file)
    else append_active o batch record_count none c

-- FindRecords: no region, a region, an error, a panic, or a search without end.
pub data Found : Type 0 where
  no_region : Found
  found : RecordsRegion → Found
  search_fails : Found
  search_panics : Found
  search_endless : Found

-- c.segments[0].BaseOffset.
abbrev pub oldest : List Segment → ℕ
oldest [] = 0
oldest (s ∷ all) = s.base_offset

abbrev pub found_region : CommitLog → Segment → Region → Found
found_region c s (region file_pos size) = found (record {
  file = some s.log_file;
  file_offset = file_pos;
  size = size;
  leo = c.next_offset;
  log_start = oldest (segments c);
})
found_region c s failed = search_fails
found_region c s index_panics = search_panics
found_region c s endless = search_endless

abbrev pub found_in : CommitLog → ℕ → ℕ → Option Segment → Found
found_in c fetch_offset max_bytes none = search_panics
found_in c fetch_offset max_bytes (some s) =
    found_region c s (find_raw_region s.log_file s.offset_index fetch_offset max_bytes)

abbrev pub found_segment : CommitLog → ℕ → ℕ → Looked → Found
found_segment c fetch_offset max_bytes (looked i) =
    if slt64 i 0 then no_region else found_in c fetch_offset max_bytes (get_elem? (segments c) i)
found_segment c fetch_offset max_bytes panics = search_panics
found_segment c fetch_offset max_bytes unfinished = search_endless

unfoldable pub find_records : ℕ → ℕ → CommitLog → Found
unfolding find_segment_by_offset find_raw_region
find_records fetch_offset max_bytes c =
    if c.is_closed || sle64 c.next_offset fetch_offset
    then no_region
    else found_segment c fetch_offset max_bytes
        (find_segment_by_offset (map (λ s. s.base_offset) (segments c)) fetch_offset)
