-- ===== src/Coordinator/GroupStore/Offsets.antt =====
-- The committed offsets of GroupStore, of coordinator/group_store.go: CommitOffsets and FetchOffsets. The
-- groups and the offsets of a store are two maps, and no method touches both. Names of topics and
-- groups are numbers, metadata too, with none for nil; the clock is read in each round of the loop.
pub mod Last
use kaf_go.Base.{
  ℕ, suc, ◌+◌, ◌-◌, ◌*◌, ◌<◌, ◌≡◌, refl, sym, ◌∙◌, ap, arith, Bool, true, false, List, [], ◌∷◌,
  Option, none, some, map,
}
use kaf_go.Base.{
  ◌==◌, ==_iff, ◌&&◌, if◌then◌else◌, two32, two64, All, Bool-cases, Option-cases, inl, inr,
}
use kaf_go.Base.Assoc.{Assoc, lookup, insert, lookup-insert}

pub record OffsetPartition : Type 0 where
  pub topic_name : ℕ
  pub partition_idx : ℕ
  pub offset : ℕ
  pub leader_epoch : ℕ
  pub metadata : Option ℕ
  pub last_commit_timestamp : ℕ

pub record CommitOffset : Type 0 where
  pub topic_name : ℕ
  pub partition_idx : ℕ
  pub offset : ℕ
  pub leader_epoch : ℕ
  pub metadata : Option ℕ

pub record FetchOffsetQuery : Type 0 where
  pub topic_name : ℕ
  pub partition_idx : ℕ

pub record FetchOffsetResult : Type 0 where
  pub topic_name : ℕ
  pub partition_idx : ℕ
  pub offset : ℕ
  pub leader_epoch : ℕ
  pub metadata : Option ℕ

-- topicName:partition: one key for every name and int32 partition.
abbrev pub offset_key : ℕ → ℕ → ℕ
offset_key topic_name partition_idx = topic_name * two32 + partition_idx

abbrev pub Offsets : Type 0
Offsets = Assoc (Assoc OffsetPartition)

abbrev pub committed_at : ℕ → CommitOffset → OffsetPartition
committed_at now c = record {
  topic_name = c.topic_name;
  partition_idx = c.partition_idx;
  offset = c.offset;
  leader_epoch = c.leader_epoch;
  metadata = c.metadata;
  last_commit_timestamp = now;
}

-- The loop of CommitOffsets.
unfoldable pub commit_all :
    (ℕ → ℕ) → List CommitOffset → Assoc OffsetPartition → Assoc OffsetPartition
commit_all clock [] partitions = partitions
commit_all clock (c ∷ commits) partitions =
    commit_all (λ i. clock (suc i)) commits
      (insert (offset_key c.topic_name c.partition_idx) (committed_at (clock 0) c) partitions)

abbrev pub partitions_of : Option (Assoc OffsetPartition) → Assoc OffsetPartition
partitions_of none = []
partitions_of (some partitions) = partitions

unfoldable pub commit_offsets : (ℕ → ℕ) → ℕ → List CommitOffset → Offsets → Offsets
unfolding commit_all
commit_offsets clock group_id commits offsets =
    insert group_id (commit_all clock commits (partitions_of (lookup group_id offsets))) offsets

abbrev pub no_offset : FetchOffsetQuery → FetchOffsetResult
no_offset q = record {
  topic_name = q.topic_name;
  partition_idx = q.partition_idx;
  offset = two64 - 1;
  leader_epoch = two32 - 1;
  metadata = none;
}

abbrev pub offset_result : FetchOffsetQuery → Option OffsetPartition → FetchOffsetResult
offset_result q none = no_offset q
offset_result q (some op) = record (no_offset q) {
  offset = op.offset;
  leader_epoch = op.leader_epoch;
  metadata = op.metadata;
}

abbrev pub fetch_one : Option (Assoc OffsetPartition) → FetchOffsetQuery → FetchOffsetResult
fetch_one none q = no_offset q
fetch_one (some partitions) q =
    offset_result q (lookup (offset_key q.topic_name q.partition_idx) partitions)

unfoldable pub fetch_offsets : ℕ → List FetchOffsetQuery → Offsets → List FetchOffsetResult
fetch_offsets group_id queries offsets = map (fetch_one (lookup group_id offsets)) queries

-- A call of CommitOffsets.
pub record Commit : Type 0 where
  pub clock : ℕ → ℕ
  pub group_id : ℕ
  pub commits : List CommitOffset

-- The offsets after these calls, in order.
unfoldable pub after_commits : List Commit → Offsets → Offsets
unfolding commit_offsets
after_commits [] offsets = offsets
after_commits (c ∷ history) offsets =
    after_commits history (commit_offsets c.clock c.group_id c.commits offsets)
