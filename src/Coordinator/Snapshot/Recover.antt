-- ===== src/Coordinator/Snapshot/Recover.antt =====
-- coordinator/producer_state_manager.go: the snapshot at the roll of a segment, and the recovery
-- of the producer states when the log is opened. The metrics and the logging are left out. The
-- clock is read by the source in each call of Record: an argument gives the reading of each.
pub mod Roll
pub mod Same
pub mod Newest
use kaf_go.Base.{
  ℕ, zero, suc, ◌+◌, ◌-◌, ◌%◌, Bool, true, false, List, [], ◌∷◌, length, leb, if◌then◌else◌, slt64,
  extend32, two32, take,
}
use kaf_go.Base.Assoc.{erase}
use kaf_go.Coordinator.Idempotence.{IdempotenceState, record_batch}
use kaf_go.Coordinator.Snapshot.{
  ProducerSnapshotEntry, SnapshotDir, Saved, saved, save_fails, snapshot, restore, write_snapshot,
  list_snapshot_files,
}
use kaf_go.Coordinator.Snapshot.Latest.{Loaded, nothing, loaded, load_latest}

pub record SnapshotBatchHeader : Type 0 where
  pub base_offset : ℕ
  pub last_offset_delta : ℕ
  pub producer_id : ℕ
  pub producer_epoch : ℕ
  pub base_sequence : ℕ

-- The headers that WalkBatchHeadersFrom hands to its function; the Bool is err == nil.
pub record CommitLogReader : Type 0 where
  pub active_segment_base_offset : ℕ
  pub walk_batch_headers_from : ℕ → List SnapshotBatchHeader × Bool

abbrev pub retain_snapshots : ℕ
retain_snapshots = 2

unfoldable pub delete_below : ℕ → List ℕ → SnapshotDir → SnapshotDir
delete_below current_base [] dir = dir
delete_below current_base (base ∷ bases) dir =
    delete_below current_base bases (if slt64 base current_base then erase base dir else dir)

unfoldable pub prune_old_snapshots : ℕ → SnapshotDir → SnapshotDir
unfolding list_snapshot_files delete_below
prune_old_snapshots current_base dir =
    let bases = list_snapshot_files dir in
    if leb (length bases) retain_snapshots
    then dir
    else delete_below current_base (take (length bases - retain_snapshots) bases) dir

-- The callback of Recover.
unfoldable pub record_header : ℕ → SnapshotBatchHeader → IdempotenceState → IdempotenceState
unfolding record_batch
record_header now h s =
    if slt64 h.producer_id 0
    then s
    else record_batch now h.producer_id h.producer_epoch h.base_sequence
        ((h.base_sequence + h.last_offset_delta) % two32) h.base_offset s

unfoldable pub record_headers :
    (ℕ → ℕ) → List SnapshotBatchHeader → IdempotenceState → IdempotenceState
unfolding record_header
record_headers clock [] s = s
record_headers clock (h ∷ headers) s =
    record_headers (λ i. clock (suc i)) headers (record_header (clock 0) h s)

-- The state with the entries restored, and the base of the snapshot.
abbrev pub restored : Loaded → IdempotenceState → ℕ × IdempotenceState
restored nothing s = (0, s)
restored (loaded base entries) s = (base, restore entries)

abbrev pub scan_from : ℕ → ℕ → ℕ
scan_from active_base snap_base = if slt64 snap_base active_base then active_base else snap_base

module _ (crc : List ℕ → ℕ) where
  -- OnSegmentRoll; the outcome of the writing is an argument. The log calls it in a goroutine after the batch that the
  -- segment was rolled for is in the new segment, and `state` is what the goroutine finds.
  abbrev pub prune_after : ℕ → Bool × SnapshotDir → SnapshotDir
  prune_after new_base (true, dir) = prune_old_snapshots new_base dir
  prune_after new_base (false, dir) = dir

  unfoldable pub on_segment_roll : Saved → ℕ → IdempotenceState → SnapshotDir → SnapshotDir
  unfolding prune_old_snapshots snapshot
  on_segment_roll outcome new_base state dir =
      prune_after new_base (write_snapshot crc outcome new_base (snapshot state) dir)

  unfoldable pub recover :
      (ℕ → ℕ) → CommitLogReader → SnapshotDir → IdempotenceState → IdempotenceState × Bool
  unfolding load_latest record_headers
  recover clock cl dir state =
      let start = restored (load_latest crc dir cl.active_segment_base_offset) state in
      let walked = cl.walk_batch_headers_from (scan_from cl.active_segment_base_offset start.0) in
      (record_headers clock walked.0 start.1, walked.1)
