-- ===== src/Storage/Region.antt =====
-- FindRawRegion of storage/commitlog/segment.go, over the bytes of the log file and the index. Sizes,
-- offsets and positions are int64 patterns.
pub mod Batches
pub mod Search
pub mod Served
pub mod Previous
use kaf_go.Base.{ℕ, zero, suc, ◌+◌, ◌-◌, ◌%◌, List, Option, some, none, length, ◌==◌, ◌&&◌}
use kaf_go.Base.{if◌then◌else◌, slt64, sle64, two64, extend32}
use kaf_go.Storage.Clip.{read_at, field}
use kaf_go.Storage.Index.{OffsetIndex, lookup}
use kaf_go.Storage.Search.{Looked, looked, panics, unfinished}

pub record BatchMeta : Type 0 where
  pub file_pos : ℕ
  pub base_offset : ℕ
  pub total_len : ℕ
  pub last_offset : ℕ

abbrev pub header_size_up_to_magic : ℕ
header_size_up_to_magic = 17

abbrev pub meta_of : ℕ → Option (List ℕ) → Option BatchMeta
meta_of pos none = none
meta_of pos (some buf) = some (record {
  file_pos = pos;
  base_offset = field buf 0 8;
  total_len = (12 + extend32 (field buf 8 4)) % two64;
  last_offset = two64 - 1;
})

-- readBatchMeta17; none is an error of ReadAt.
unfoldable pub read_batch_meta_17 : List ℕ → ℕ → Option BatchMeta
unfolding read_at
read_batch_meta_17 file pos = meta_of pos (read_at file pos header_size_up_to_magic)

abbrev pub last_of : ℕ → Option (List ℕ) → Option ℕ
last_of base_offset none = none
last_of base_offset (some buf) = some ((base_offset + extend32 (field buf 6 4)) % two64)

unfoldable pub read_last_offset : List ℕ → BatchMeta → Option ℕ
unfolding read_at
read_last_offset file m =
    last_of m.base_offset (read_at file ((m.file_pos + header_size_up_to_magic) % two64) 10)

-- The end of the first loop: startPos where it was set and else the place of preMeta, an error, or
-- more rounds than were given.
pub data Start : Type 0 where
  started : Option ℕ → Start
  start_fails : Start
  start_unfinished : Start

-- One round of it: it ends the loop, or goes on with preMeta.
pub data StartRound : Type 0 where
  begin : Start → StartRound
  pass : BatchMeta → StartRound

abbrev pub place : Option BatchMeta → Option ℕ
place none = none
place (some m) = some m.file_pos

abbrev pub or_else : ℕ → Option ℕ → ℕ
or_else pos none = pos
or_else pos (some p) = p

abbrev pub judge_last : ℕ → BatchMeta → Option ℕ → StartRound
judge_last fetch_offset curr none = begin start_fails
judge_last fetch_offset curr (some last) =
    if sle64 fetch_offset last
    then begin (started (some curr.file_pos))
    else pass (record curr { last_offset = last })

abbrev pub judge : List ℕ → ℕ → Option BatchMeta → Option BatchMeta → StartRound
judge file fetch_offset previous none = begin start_fails
judge file fetch_offset previous (some curr) =
    if sle64 fetch_offset curr.base_offset
    then begin (started (some (or_else curr.file_pos (place previous))))
    else judge_last fetch_offset curr (read_last_offset file curr)

-- The condition of the first loop and its body.
unfoldable pub start_round : List ℕ → ℕ → ℕ → Option BatchMeta → StartRound
unfolding read_batch_meta_17 read_last_offset
start_round file fetch_offset pos previous =
    if sle64 ((pos + header_size_up_to_magic) % two64) (length file)
    then judge file fetch_offset previous (read_batch_meta_17 file pos)
    else begin (started (place previous))

abbrev pub start_follow : StartRound → (BatchMeta → Start) → Start
start_follow (begin s) loop = s
start_follow (pass curr) loop = loop curr

unfoldable pub start_loop : List ℕ → ℕ → ℕ → ℕ → Option BatchMeta → Start
unfolding start_round
start_loop file fetch_offset zero pos previous = start_unfinished
start_loop file fetch_offset (suc rounds) pos previous =
    start_follow (start_round file fetch_offset pos previous) (λ curr.
      start_loop file fetch_offset rounds ((curr.file_pos + curr.total_len) % two64) (some curr))

pub data Gather : Type 0 where
  gathered : ℕ → Gather
  gather_fails : Gather
  gather_unfinished : Gather

pub data GatherRound : Type 0 where
  leave : Gather → GatherRound
  take_in : ℕ → ℕ → GatherRound

-- The tests of the second loop on the length of a batch.
abbrev pub weigh : ℕ → ℕ → ℕ → Option BatchMeta → GatherRound
weigh max_bytes pos accumulated none = leave gather_fails
weigh max_bytes pos accumulated (some curr) =
    let sum = (accumulated + curr.total_len) % two64 in
    if slt64 0 max_bytes && (slt64 0 accumulated && slt64 max_bytes sum)
    then leave (gathered accumulated)
    else if slt64 0 max_bytes && slt64 max_bytes sum
    then leave (gathered sum)
    else take_in ((pos + curr.total_len) % two64) sum

unfoldable pub gather_round : List ℕ → ℕ → ℕ → ℕ → GatherRound
unfolding read_batch_meta_17
gather_round file max_bytes pos accumulated =
    if sle64 ((pos + header_size_up_to_magic) % two64) (length file)
    then weigh max_bytes pos accumulated (read_batch_meta_17 file pos)
    else leave (gathered accumulated)

abbrev pub gather_follow : GatherRound → (ℕ → ℕ → Gather) → Gather
gather_follow (leave g) loop = g
gather_follow (take_in pos accumulated) loop = loop pos accumulated

unfoldable pub gather_loop : List ℕ → ℕ → ℕ → ℕ → ℕ → Gather
unfolding gather_round
gather_loop file max_bytes zero pos accumulated = gather_unfinished
gather_loop file max_bytes (suc rounds) pos accumulated =
    gather_follow (gather_round file max_bytes pos accumulated) (gather_loop file max_bytes rounds)

-- What FindRawRegion returns: filePos and size, an error of ReadAt, a panic of the index, or more
-- rounds than were given.
pub data Region : Type 0 where
  region : ℕ → ℕ → Region
  failed : Region
  index_panics : Region
  endless : Region

abbrev pub region_of : ℕ → Gather → Region
region_of start (gathered accumulated) =
    if accumulated == 0 then region 0 0 else region start accumulated
region_of start gather_fails = failed
region_of start gather_unfinished = endless

abbrev pub region_from : List ℕ → ℕ → Start → Region
region_from file max_bytes (started none) = region 0 0
region_from file max_bytes (started (some start)) =
    region_of start (gather_loop file max_bytes (suc (length file)) start 0)
region_from file max_bytes start_fails = failed
region_from file max_bytes start_unfinished = endless

abbrev pub region_at : List ℕ → ℕ → ℕ → Looked → Region
region_at file fetch_offset max_bytes (looked index_pos) =
    region_from file max_bytes (start_loop file fetch_offset (suc (length file)) index_pos none)
region_at file fetch_offset max_bytes panics = index_panics
region_at file fetch_offset max_bytes unfinished = endless

unfoldable pub find_raw_region : List ℕ → OffsetIndex → ℕ → ℕ → Region
unfolding start_loop gather_loop lookup
find_raw_region file offset_index fetch_offset max_bytes =
    region_at file fetch_offset max_bytes (lookup fetch_offset offset_index)
