-- ===== src/Api/Fetch/Visible.antt =====
-- What a consumer is sent of a log: the fetch handler over FindRecords and ClipRegionToOffset.
use kaf_go.Base.{
  ap, ◌∙◌, sym, ℕ, ◌+◌, ◌^◌, ◌<◌, ◌≡◌, refl, arith, true, false, List, [], ◌∷◌, ◌++◌, map, none,
  some,
}
use kaf_go.Base.{
  length, get_elem?, length-append, append_assoc, All, ◌==◌, ==_iff, ◌||◌, sle64, slt64, extend32,
}
use mathlib.Core.Path.{subst}
use kaf_go.Coordinator.Partition.Store.{get_partition_state}
use kaf_go.Coordinator.Partition.{PartitionState}
use kaf_go.Storage.Search.{looked}
use kaf_go.Storage.Index.{lookup}
use kaf_go.Storage.Segments.{find_segment_by_offset}
use kaf_go.Storage.Clip.{RecordsRegion, clipped, clip_region_to_offset}
use kaf_go.Storage.Clip.Visible.{contents, clip_region_to_offset-visible}
use kaf_go.Storage.Region.{region, find_raw_region}
use kaf_go.Storage.Region.Batches.{LogBatch, last, log_contents, log_contents-append}
use kaf_go.Storage.Region.Search.{limited}
use kaf_go.Storage.Region.Served.{served, EndsBelow, find_raw_region-served}
use kaf_go.Storage.Log.{Segment, CommitLog, segments, oldest, found, find_records, found_region}
use kaf_go.Api.Context.{BrokerContext, get_commit_log, put_partition_state}
use kaf_go.Api.Fetch.{
  FetchPartition, answered, not_empty, with_region, read_partition, fetch_partition, visible_region,
  and_then, clipped_region,
}
use kaf_go.Api.Fetch.Batches.{
  IsRecordBatch, clip_batch, contents-clip_batch, All-log_batch, All-clip_batch, shown_batches,
  visible-shown, shown-Prefix, limited-Prefix, shown-below,
}

-- The log c holds the batches in the segment of the fetch offset, behind some bytes of its file, and the offset
-- index gives the place of the first.
pub record Holds (c : CommitLog) (s : Segment) (part : FetchPartition) (front : List ℕ)
    (batches : List LogBatch) : Type 0 where
  pub open_below : (c.is_closed || sle64 c.next_offset part.fetch_offset) ≡ false
  pub place : ℕ
  pub chosen :
      find_segment_by_offset (map (λ s. s.base_offset) (segments c)) part.fetch_offset
      ≡ looked place
  pub not_negative : slt64 place 0 ≡ false
  pub segment : get_elem? (segments c) place ≡ some s
  pub file : s.log_file ≡ front ++ log_contents batches
  pub indexed : lookup part.fetch_offset s.offset_index ≡ looked (length front)
  pub valid : All IsRecordBatch batches
  pub fits : length s.log_file < 2 ^ 62
  pub bound : extend32 part.partition_max_bytes < 2 ^ 62

-- The region of the file that starts behind the skipped batches and has the bytes of the shown ones.
abbrev pub region_of_batches :
    CommitLog → Segment → List ℕ → List LogBatch → List LogBatch → RecordsRegion
region_of_batches c s front skipped shown = record {
  file = some s.log_file;
  file_offset = length front + length (log_contents skipped);
  size = length (log_contents shown);
  leo = c.next_offset;
  log_start = oldest (segments c);
}

find_records-region :
    (c : CommitLog) (s : Segment) (part : FetchPartition) (front : List ℕ) (batches : List LogBatch)
    → Holds c s part front batches
    → find_records part.fetch_offset (extend32 part.partition_max_bytes) c
      ≡ found_region c s (
          find_raw_region s.log_file s.offset_index part.fetch_offset
            (extend32 part.partition_max_bytes))
unfolding find_records
find_records-region c s part front batches h =
    rw (h.open_below, h.chosen, h.not_negative, h.segment) refl

-- What clipping leaves of the region of the batches taken.
clip-taken :
    (c : CommitLog) (s : Segment) (front : List ℕ) (skipped taken behind : List LogBatch) (hwm : ℕ)
    → s.log_file ≡ front ++ log_contents (skipped ++ (taken ++ behind))
    → All IsRecordBatch taken
    → length s.log_file < 2 ^ 62
    → clip_region_to_offset (some (region_of_batches c s front skipped taken)) hwm
      ≡ clipped (some (region_of_batches c s front skipped (shown_batches hwm taken)))
clip-taken c s front skipped taken behind hwm file valid fits =
    let before = front ++ log_contents skipped in
    let split : s.log_file ≡ before ++ (contents (map clip_batch taken) ++ log_contents behind) =
      file
      ∙ ap (λ t. front ++ t)
          (log_contents-append skipped (taken ++ behind)
            ∙ ap (λ t. log_contents skipped ++ t)
                (log_contents-append taken behind
                  ∙ ap (λ t. t ++ log_contents behind) (sym (contents-clip_batch taken))))
      ∙ sym (append_assoc front (log_contents skipped) _) in
    clip_region_to_offset-visible before (log_contents behind) (map clip_batch taken)
      (region_of_batches c s front skipped taken) hwm (ap some split)
      (sym (length-append front (log_contents skipped)))
      (ap length (sym (contents-clip_batch taken))) (All-clip_batch taken valid)
      (omega (arith, fits, ap length split))
    ∙ ap (λ n. clipped (some (record (region_of_batches c s front skipped taken) { size = n })))
        (ap length (visible-shown hwm taken valid))

-- The batches of a log file that a consumer is shown, and what it is not.
pub record Shown (fetch_offset hwm : ℕ) (batches : List LogBatch) : Type 0 where
  pub skipped : List LogBatch
  pub shown : List LogBatch
  pub behind : List LogBatch
  pub split : batches ≡ skipped ++ (shown ++ behind)
  pub below : All (EndsBelow fetch_offset) skipped
  pub committed : All (λ x. slt64 (last x) hwm ≡ true) shown

read_partition-clipped :
    (c : CommitLog) (part : FetchPartition) (ps : PartitionState) (reg reg' : RecordsRegion)
    → find_records part.fetch_offset (extend32 part.partition_max_bytes) c ≡ found reg
    → clip_region_to_offset (some reg) ps.hwm ≡ clipped (some reg')
    → read_partition none part c ps
      ≡ answered (with_region part.partition ps (not_empty reg', reg.log_start))
unfolding read_partition
read_partition-clipped c part ps reg reg' finds clips =
    ap
      (λ f.
        and_then (visible_region ps.hwm f)
          (λ found. answered (with_region part.partition ps found)))
      finds
    ∙ ap
        (λ r.
          and_then (and_then (clipped_region r) (λ region. answered (region, reg.log_start)))
            (λ found. answered (with_region part.partition ps found)))
        clips

All-middle :
    (front xs back : List LogBatch)
    → All IsRecordBatch (front ++ (xs ++ back))
    → All IsRecordBatch xs
All-middle [] [] back h = tt
All-middle [] (x ∷ xs) back h = (h.0, All-middle [] xs back h.1)
All-middle (y ∷ front) xs back h = All-middle front xs back h.1

read_partition-shown :
    (c : CommitLog) (s : Segment) (part : FetchPartition) (front : List ℕ) (b : LogBatch)
    (bs : List LogBatch) (ps : PartitionState) (skipped : List LogBatch)
    → Holds c s part front (b ∷ bs)
    → b ∷ bs ≡ skipped ++ served part.fetch_offset none (b ∷ bs)
    → All (EndsBelow part.fetch_offset) skipped
    → find_raw_region s.log_file s.offset_index part.fetch_offset
        (extend32 part.partition_max_bytes)
      ≡ region (length front + length (log_contents skipped)) (
          length (
            log_contents (
              limited
                (extend32 part.partition_max_bytes)
                0
                (served part.fetch_offset none (b ∷ bs)))))
    → (w : Shown part.fetch_offset ps.hwm (b ∷ bs)) × (read_partition none part c ps
        ≡ answered (
            with_region part.partition ps
              (not_empty (region_of_batches c s front w.skipped w.shown), oldest (segments c))))
read_partition-shown c s part front b bs ps skipped h split below finds =
    let all = served part.fetch_offset none (b ∷ bs) in
    let taken = limited (extend32 part.partition_max_bytes) 0 all in
    let (left, taken_of) = limited-Prefix (extend32 part.partition_max_bytes) 0 all in
    let (hidden, shown_of) = shown-Prefix ps.hwm taken in
    let parts : b ∷ bs ≡ skipped ++ (taken ++ left) = split ∙ ap (λ t. skipped ++ t) taken_of in
    let valid : All IsRecordBatch (skipped ++ (taken ++ left)) =
      subst (All IsRecordBatch) parts h.valid in
    (
      record {
        skipped = skipped;
        shown = shown_batches ps.hwm taken;
        behind = hidden ++ left;
        split =
            parts
            ∙ ap (λ t. skipped ++ t)
                (ap (λ t. t ++ left) shown_of
                  ∙ append_assoc (shown_batches ps.hwm taken) hidden left);
        below = below;
        committed = shown-below ps.hwm taken;
      },
      read_partition-clipped c part ps (region_of_batches c s front skipped taken)
          (region_of_batches c s front skipped (shown_batches ps.hwm taken))
          (find_records-region c s part front (b ∷ bs) h ∙ ap (found_region c s) finds)
          (clip-taken c s front skipped taken left ps.hwm
            (h.file ∙ ap (λ t. front ++ log_contents t) parts) (All-middle skipped taken left valid)
            h.fits),
    )

read_partition-committed :
    (c : CommitLog) (s : Segment) (part : FetchPartition) (front : List ℕ) (b : LogBatch)
    (bs : List LogBatch) (ps : PartitionState)
    → Holds c s part front (b ∷ bs)
    → (w : Shown part.fetch_offset ps.hwm (b ∷ bs)) × (read_partition none part c ps
        ≡ answered (
            with_region part.partition ps
              (not_empty (region_of_batches c s front w.skipped w.shown), oldest (segments c))))
read_partition-committed c s part front b bs ps h =
    let max_bytes = extend32 part.partition_max_bytes in
    let (skipped, split, below, finds) =
      find_raw_region-served front b bs s.offset_index part.fetch_offset max_bytes h.indexed
        (All-log_batch (b ∷ bs) h.valid) (omega (arith, h.fits, ap length h.file)) h.bound in
    read_partition-shown c s part front b bs ps skipped h split below
      (ap (λ f. find_raw_region f s.offset_index part.fetch_offset max_bytes) h.file ∙ finds)

-- A consumer's fetch of a partition that this broker leads, from an offset below the log end, where the offset index
-- gives the place of a whole record batch in the segment and from there on its file holds whole record batches to its
-- end: it is answered with the partition's high watermark and with whole batches of the log, which
-- all end below the high watermark, or with no records where there are none; the batches before those end below the
-- fetch offset, and the partition is the same after it. A log file below 2^62 bytes is assumed, and a limit below it.
pub fetch_partition-committed :
    (now topic_id name : ℕ) (part : FetchPartition) (broker : BrokerContext) (ps : PartitionState)
    (c : CommitLog) (s : Segment) (front : List ℕ) (b : LogBatch) (bs : List LogBatch)
    → get_partition_state name part.partition broker.partition_states ≡ some ps
    → ps.leader_broker_id ≡ broker.broker_id
    → get_commit_log topic_id part.partition broker ≡ some c
    → Holds c s part front (b ∷ bs)
    → (w : Shown part.fetch_offset ps.hwm (b ∷ bs)) × (fetch_partition now none topic_id
          (some name)
          part
          broker
        ≡ answered (
          with_region part.partition ps
              (not_empty (region_of_batches c s front w.skipped w.shown), oldest (segments c)),
          put_partition_state name part.partition ps broker,
        ))
unfolding fetch_partition
fetch_partition-committed now topic_id name part broker ps c s front b bs state leads log h =
    let (w, reads) = read_partition-committed c s part front b bs ps h in
    let led : (ps.leader_broker_id == broker.broker_id) ≡ true =
      (==_iff ps.leader_broker_id broker.broker_id).1 leads in
    (w, rw (state, led, log, reads) refl)
