-- ===== src/Coordinator/GroupStore/Offsets/Last.antt =====
-- FetchOffsets after any calls of CommitOffsets.
use kaf_go.Base.{
  ℕ, suc, ◌<◌, ◌≡◌, refl, ◌∙◌, ap, arith, Bool, true, false, List, [], ◌∷◌, Option, none, some, map,
}
use kaf_go.Base.{◌==◌, ==_iff, ◌&&◌, if◌then◌else◌, two32, All, Bool-cases, inl, inr}
use kaf_go.Base.Assoc.{Assoc, lookup, insert, lookup-insert}
use kaf_go.Coordinator.GroupStore.Offsets.{
  OffsetPartition, CommitOffset, FetchOffsetQuery, FetchOffsetResult, offset_key, Offsets,
  committed_at, commit_all, partitions_of, commit_offsets, no_offset, offset_result, fetch_one,
  fetch_offsets, Commit, after_commits,
}

-- The same partition of the same topic.
abbrev pub same_partition : FetchOffsetQuery → CommitOffset → Bool
same_partition q c = (c.topic_name == q.topic_name) && (c.partition_idx == q.partition_idx)

abbrev pub or_earlier : Option CommitOffset → Option CommitOffset → Option CommitOffset
or_earlier none earlier = earlier
or_earlier (some c) earlier = some c

-- The last of the commits for the partition of the query.
abbrev pub last_commit : FetchOffsetQuery → List CommitOffset → Option CommitOffset
last_commit q [] = none
last_commit q (c ∷ commits) =
    or_earlier (last_commit q commits) (if same_partition q c then some c else none)

-- The last one that the group has made in a history of calls.
abbrev pub last_in : ℕ → FetchOffsetQuery → List Commit → Option CommitOffset
last_in group_id q [] = none
last_in group_id q (c ∷ history) =
    or_earlier (last_in group_id q history)
      (if c.group_id == group_id then last_commit q c.commits else none)

-- What FetchOffsets tells of a commit.
abbrev pub told : FetchOffsetQuery → Option CommitOffset → FetchOffsetResult
told q none = no_offset q
told q (some c) = record (no_offset q) {
  offset = c.offset;
  leader_epoch = c.leader_epoch;
  metadata = c.metadata;
}

abbrev pub IsInt32 : ℕ → Type 0
IsInt32 p = p < two32

abbrev content : OffsetPartition → CommitOffset
content op = record {
  topic_name = op.topic_name;
  partition_idx = op.partition_idx;
  offset = op.offset;
  leader_epoch = op.leader_epoch;
  metadata = op.metadata;
}

abbrev contents : Option OffsetPartition → Option CommitOffset
contents none = none
contents (some op) = some (content op)

-- What the store holds for the group and the partition of the query.
abbrev held : FetchOffsetQuery → Option (Assoc OffsetPartition) → Option CommitOffset
held q partitions =
    contents (lookup (offset_key q.topic_name q.partition_idx) (partitions_of partitions))

same_key :
    (q : FetchOffsetQuery) (c : CommitOffset)
    → q.partition_idx < two32
    → c.partition_idx < two32
    → (offset_key c.topic_name c.partition_idx == offset_key q.topic_name q.partition_idx)
      ≡ same_partition q c
same_key q c hq hc = ground arith

or_earlier_assoc :
    (a b c : Option CommitOffset) → or_earlier a (or_earlier b c) ≡ or_earlier (or_earlier a b) c
or_earlier_assoc none b c = refl
or_earlier_assoc (some a) b c = refl

inserted-last :
    (q : FetchOffsetQuery) (now : ℕ) (c : CommitOffset) (m : Assoc OffsetPartition)
    → q.partition_idx < two32
    → c.partition_idx < two32
    → contents (
        lookup
          (offset_key q.topic_name q.partition_idx)
          (insert (offset_key c.topic_name c.partition_idx) (committed_at now c) m))
      ≡ or_earlier
          (if same_partition q c then some c else none)
          (contents (lookup (offset_key q.topic_name q.partition_idx) m))
inserted-last q now c m hq hc =
    ap contents (
      lookup-insert (offset_key c.topic_name c.partition_idx)
        (offset_key q.topic_name q.partition_idx) (committed_at now c) m
      ∙ ap
          (λ b.
            if b
            then some (committed_at now c)
            else lookup (offset_key q.topic_name q.partition_idx) m)
          (same_key q c hq hc))
    ∙ choose (same_partition q c)
  where
    choose :
        (b : Bool)
        → contents (
            if b
            then some (committed_at now c)
            else lookup (offset_key q.topic_name q.partition_idx) m)
          ≡ or_earlier
              (if b then some c else none)
              (contents (lookup (offset_key q.topic_name q.partition_idx) m))
    choose true = refl
    choose false = refl

commit_all-last :
    (q : FetchOffsetQuery) (clock : ℕ → ℕ) (commits : List CommitOffset) (m : Assoc OffsetPartition)
    → q.partition_idx < two32
    → All (λ c. IsInt32 c.partition_idx) commits
    → contents (lookup (offset_key q.topic_name q.partition_idx) (commit_all clock commits m))
      ≡ or_earlier
          (last_commit q commits)
          (contents (lookup (offset_key q.topic_name q.partition_idx) m))
unfolding commit_all
commit_all-last q clock [] m hq h = refl
commit_all-last q clock (c ∷ commits) m hq h =
    let key = offset_key c.topic_name c.partition_idx in
    commit_all-last q (λ i. clock (suc i)) commits (insert key (committed_at (clock 0) c) m) hq h.1
    ∙ ap (or_earlier (last_commit q commits)) (inserted-last q (clock 0) c m hq h.0)
    ∙ or_earlier_assoc (last_commit q commits) (if same_partition q c then some c else none)
        (contents (lookup (offset_key q.topic_name q.partition_idx) m))

commit_offsets-last :
    (group_id : ℕ) (q : FetchOffsetQuery) (c : Commit) (offsets : Offsets)
    → q.partition_idx < two32
    → All (λ x. IsInt32 x.partition_idx) c.commits
    → held q (lookup group_id (commit_offsets c.clock c.group_id c.commits offsets))
      ≡ or_earlier
          (if c.group_id == group_id then last_commit q c.commits else none)
          (held q (lookup group_id offsets))
unfolding commit_offsets
commit_offsets-last group_id q c offsets hq h =
    ap (held q) (
      lookup-insert c.group_id group_id
        (commit_all c.clock c.commits (partitions_of (lookup c.group_id offsets))) offsets)
    ∙ elim (Bool-cases (c.group_id == group_id)) [
      | inl e ↦ rw e (
          commit_all-last q c.clock c.commits (partitions_of (lookup c.group_id offsets)) hq h
          ∙ ap (λ g. or_earlier (last_commit q c.commits) (held q (lookup g offsets)))
              ((==_iff c.group_id group_id).0 e))
      | inr e ↦ rw e refl
    ]

after_commits-last :
    (group_id : ℕ) (q : FetchOffsetQuery) (history : List Commit) (offsets : Offsets)
    → q.partition_idx < two32
    → All (λ c. All (λ x. IsInt32 x.partition_idx) c.commits) history
    → held q (lookup group_id (after_commits history offsets))
      ≡ or_earlier (last_in group_id q history) (held q (lookup group_id offsets))
unfolding after_commits
after_commits-last group_id q [] offsets hq h = refl
after_commits-last group_id q (c ∷ history) offsets hq h =
    after_commits-last group_id q history (commit_offsets c.clock c.group_id c.commits offsets) hq
      h.1
    ∙ ap (or_earlier (last_in group_id q history)) (commit_offsets-last group_id q c offsets hq h.0)
    ∙ or_earlier_assoc (last_in group_id q history)
        (if c.group_id == group_id then last_commit q c.commits else none)
        (held q (lookup group_id offsets))

offset_result-told :
    (q : FetchOffsetQuery) (o : Option OffsetPartition) → offset_result q o ≡ told q (contents o)
offset_result-told q none = refl
offset_result-told q (some op) = refl

fetch_one-held :
    (q : FetchOffsetQuery) (o : Option (Assoc OffsetPartition)) → fetch_one o q ≡ told q (held q o)
unfolding lookup
fetch_one-held q none = refl
fetch_one-held q (some partitions) =
    offset_result-told q (lookup (offset_key q.topic_name q.partition_idx) partitions)

or_earlier-none : (o : Option CommitOffset) → or_earlier o none ≡ o
or_earlier-none none = refl
or_earlier-none (some c) = refl

-- Whatever groups have committed on a new store, in whatever order, FetchOffsets answers each query with the last
-- offset, leader epoch and metadata that the group itself committed for that partition of that topic, and with -1
-- where it committed none; partitions are int32.
pub fetch_offsets-last :
    (group_id : ℕ) (queries : List FetchOffsetQuery) (history : List Commit)
    → All (λ q. IsInt32 q.partition_idx) queries
    → All (λ c. All (λ x. IsInt32 x.partition_idx) c.commits) history
    → fetch_offsets group_id queries (after_commits history [])
      ≡ map (λ q. told q (last_in group_id q history)) queries
unfolding fetch_offsets lookup
fetch_offsets-last group_id [] history hq h = refl
fetch_offsets-last group_id (q ∷ queries) history hq h =
    let first =
      fetch_one-held q (lookup group_id (after_commits history []))
      ∙ ap (told q) (
          after_commits-last group_id q history [] hq.0 h
          ∙ or_earlier-none (last_in group_id q history)) in
    let rest = fetch_offsets-last group_id queries history hq.1 h in λ i. first i ∷ rest i
