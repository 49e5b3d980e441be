-- ===== src/Storage/Tests.antt =====
-- The searches on a small log, an index that is written and read, and a clipped region.
use kaf_go.Base.{
  length, ℕ, ◌+◌, ◌-◌, ◌%◌, ◌≤◌, ◌<◌, ◌≡◌, refl, arith, true, List, [], ◌∷◌, ◌++◌, some, get_elem?,
  rank64, two64,
}
use kaf_go.Protocol.Reader.{big_endian}
use kaf_go.Protocol.Writer.{fixed_bytes}
use kaf_go.Storage.Clip.{RecordsRegion, clipped, clip_region_to_offset}
use kaf_go.Storage.Clip.Visible.{
  Batch, IsBatch, contents, visible_batches, clip_region_to_offset-visible,
}
use kaf_go.Storage.Search.{looked, pred}
use kaf_go.Storage.Segments.{find_segment_by_offset}
use kaf_go.Storage.Segments.Floor.{find_segment_by_offset-floor}
use kaf_go.Storage.Index.{zeros, OffsetIndex, grows, append, lookup}
use kaf_go.Storage.Index.Entries.{IndexEntry, Holds, encode}
use kaf_go.Storage.Index.Append.{entry_of, append-Holds}
use kaf_go.Storage.Index.Floor.{before, lookup-floor}

abbrev bases : List ℕ
bases = 0 ∷ 10 ∷ 25 ∷ []

segment_of_12 : find_segment_by_offset bases 12 ≡ looked 1
unfolding find_segment_by_offset
segment_of_12 = refl

find_segment_by_offset-floor_example :
    (c : ℕ) × (find_segment_by_offset bases 12 ≡ looked (pred c))
    × (c ≤ 3)
    × ((i k : ℕ)
        → get_elem? bases i ≡ some k
        → (rank64 k ≤ rank64 12 → i < c) × (rank64 12 < rank64 k → c ≤ i))
find_segment_by_offset-floor_example =
    find_segment_by_offset-floor bases 12
      ((omega arith, (omega arith, tt)), ((omega arith, tt), (tt, tt))) (omega arith)

-- Two entries, offsets 100 and 140, in a mapping of 16 bytes that is full.
abbrev two_entries : List IndexEntry
two_entries =
    record { relative_offset = 0; position = 0 }
    ∷ record { relative_offset = 40; position = 900 }
    ∷ []

abbrev index : OffsetIndex
index = record { mmap = encode two_entries; base_offset = 100; size = 16; entry_count = 2 }

index-Holds : Holds index two_entries []
unfolding fixed_bytes
index-Holds = record { mapped = refl; sized = refl; counted = refl }

position_of_141 : lookup 141 index ≡ looked 900
unfolding lookup fixed_bytes big_endian
position_of_141 = refl

lookup-floor_example :
    (c : ℕ) × (lookup 141 index ≡ looked (before two_entries c))
    × (c ≤ 2)
    × ((i : ℕ) (e : IndexEntry)
        → get_elem? two_entries i ≡ some e
        → (rank64 e.relative_offset ≤ rank64 ((141 + (two64 - 100)) % two64) → i < c)
          × (rank64 ((141 + (two64 - 100)) % two64) < rank64 e.relative_offset → c ≤ i))
lookup-floor_example =
    lookup-floor index two_entries [] 141 index-Holds
      ((omega arith, omega arith), ((omega arith, omega arith), tt)) ((omega arith, tt), (tt, tt))
      (omega arith)

append-Holds_example :
    (idx' : OffsetIndex) × (spare' : List ℕ) × (append grows 170 1800 index ≡ some (true, idx'))
    × Holds idx' (two_entries ++ (entry_of 100 170 1800 ∷ [])) spare'
append-Holds_example = append-Holds index two_entries [] 170 1800 index-Holds (omega arith)

-- A batch of 70 bytes with the given base offset and number of records below 256.
abbrev batch_of : ℕ → ℕ → Batch
batch_of base count = record {
  base_offset = base;
  record_count = count;
  bytes = zeros 7 ++ (base ∷ (zeros 3 ++ (58 ∷ (zeros 48 ++ (count ∷ zeros 9)))));
}

batch_of-IsBatch : (base count : ℕ) → 0 < count → IsBatch (batch_of base count)
unfolding big_endian
batch_of-IsBatch base count h = record {
  whole = omega arith;
  some_records = h;
  base = omega arith;
  len = omega arith;
  count = omega arith;
}

abbrev two_batches : List Batch
two_batches = batch_of 5 3 ∷ batch_of 8 2 ∷ []

-- Offsets 5 to 7 and 8 to 9, after one byte of the file.
abbrev region : RecordsRegion
region = record {
  file = some ((1 ∷ []) ++ (contents two_batches ++ []));
  file_offset = 1;
  size = 140;
  leo = 10;
  log_start = 0;
}

clipped_to_8 : clip_region_to_offset (some region) 8 ≡ clipped (some (record region { size = 70 }))
unfolding clip_region_to_offset big_endian
clipped_to_8 = refl

clip_region_to_offset-visible_example :
    clip_region_to_offset (some region) 8
    ≡ clipped (some (record region { size = length (contents (visible_batches 8 two_batches)) }))
clip_region_to_offset-visible_example =
    clip_region_to_offset-visible (1 ∷ []) [] two_batches region 8 refl refl refl
      (batch_of-IsBatch 5 3 (omega arith), (batch_of-IsBatch 8 2 (omega arith), tt)) (omega arith)
