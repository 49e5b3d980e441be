-- ===== src/Server/Replica.antt =====
-- ReplicaFetcher of server/replica_fetcher.go: what a follower does with the response to its fetch. The
-- requests and the connection are left out; what the log's files do is an argument.
pub mod Count
pub mod Follow
pub mod Again
mod Tests
use kaf_go.Base.{
  ℕ, zero, suc, ◌+◌, ◌-◌, ◌%◌, Bool, true, false, List, [], ◌∷◌, Option, none, some, ◌==◌,
  if◌then◌else◌, length, drop, ltb, slt32, sle64, two32, two64, extend32,
}
use kaf_go.Storage.Clip.{field}
use kaf_go.Storage.Log.{
  SegmentFiles, Outside, CommitLog, Ran, ran, appended, refused, append_panics, append_endless,
  append_raw,
}

pub record ReplicaFetcher : Type 0 where
  pub fetch_offset : ℕ
  pub high_watermark : ℕ
  pub commit_log : CommitLog

-- The part of a response for one partition; Records nil and empty are the same here.
pub record PartitionResponse : Type 0 where
  pub error_code : ℕ
  pub records : List ℕ
  pub high_watermark : ℕ

-- The number of records, io.ErrUnexpectedEOF, or more rounds than were given.
pub data Counted : Type 0 where
  counted : ℕ → Counted
  unexpected_eof : Counted
  unfinished : Counted

-- The loop of countRecordsInRecordBatches; the list is raw[pos:], empty where pos is behind the end.
unfoldable pub count_loop : ℕ → List ℕ → ℕ → Counted
count_loop zero raw total = unfinished
count_loop (suc rounds) [] total = counted total
count_loop (suc rounds) (byte ∷ bytes) total =
    let raw = byte ∷ bytes in
    let rest =
      count_loop rounds (drop (12 + field raw 8 4) raw) ((total + field raw 57 4) % two32) in
    if ltb (length raw) 61
    then unexpected_eof
    else if ltb (field raw 8 4) 12
    then unexpected_eof
    else rest

unfoldable pub count_records_in_record_batches : List ℕ → Counted
unfolding count_loop
count_records_in_record_batches raw = count_loop (suc (length raw)) raw 0

-- The fetcher behind a response, or the panic or the endless loop of an append.
pub data Fetched : Type 0 where
  fetched : ReplicaFetcher → Fetched
  panics : Fetched
  endless : Fetched

abbrev pub after_append : PartitionResponse → ℕ → ReplicaFetcher → Ran → Fetched
after_append part record_count rf append_panics = panics
after_append part record_count rf append_endless = endless
after_append part record_count rf (ran refused c) = fetched (record rf { commit_log = c })
after_append part record_count rf (ran (appended base_offset rolled) c) = fetched (record {
  fetch_offset = (base_offset + extend32 record_count) % two64;
  high_watermark = part.high_watermark;
  commit_log = c;
})

abbrev pub append_counted :
    Outside → Option SegmentFiles → PartitionResponse → ReplicaFetcher → Counted → Fetched
append_counted o files part rf unexpected_eof = fetched rf
append_counted o files part rf unfinished = endless
append_counted o files part rf (counted record_count) =
    if slt32 0 record_count
    then after_append part record_count rf
        (append_raw o files part.records record_count rf.commit_log)
    else fetched rf

-- The round of Run's loop for one partition of the response.
unfoldable pub handle_response :
    Outside → Option SegmentFiles → PartitionResponse → ReplicaFetcher → Fetched
unfolding append_raw count_records_in_record_batches
handle_response o files part rf =
    if part.error_code == 0
    then (if length part.records == 0
        then fetched (record rf { high_watermark = part.high_watermark })
        else append_counted o files part rf (count_records_in_record_batches part.records))
    else fetched rf
