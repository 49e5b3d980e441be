-- ===== src/Coordinator/Partition.antt =====
-- coordinator/partition_state.go: the leader's view of a partition. Offsets are int64 patterns,
-- broker ids int32 patterns, times are given by the caller. The gauges and the mutex are left out:
-- each operation is one step.
pub mod HighWatermark
pub mod Waiters
pub mod Store
use kaf_go.Base.{ℕ, zero, suc, ◌+◌, ◌%◌, Bool, true, false, List, [], ◌∷◌, ◌++◌, Option, none, some}
use kaf_go.Base.{◌==◌, leb, if◌then◌else◌, slt64, sle64, two64}
use kaf_go.Base.Assoc.{Assoc, lookup, insert}
use kaf_go.Coordinator.Idempotence.{IdempotenceState}
use kaf_go.Coordinator.Purgatory.{
  PartitionAppendWaiter, PartitionPurgatory, new_partition_purgatory, add, complete_up_to,
}

pub record PartitionState : Type 0 where
  pub leader_broker_id : ℕ
  pub leader_epoch : ℕ
  pub replicas : List ℕ
  pub isr : List ℕ
  pub leo : ℕ
  pub hwm : ℕ
  pub replica_leo : Assoc ℕ
  pub last_caught_up : Assoc ℕ
  pub purgatory : PartitionPurgatory
  pub idempotence : IdempotenceState

-- The state that SetLeader, SetPartitionState and AssignReplicas create.
abbrev pub new_partition_state : ℕ → ℕ → List ℕ → List ℕ → PartitionState
new_partition_state leader epoch replicas isr = record {
  leader_broker_id = leader;
  leader_epoch = epoch;
  replicas = replicas;
  isr = isr;
  leo = 0;
  hwm = 0;
  replica_leo = [];
  last_caught_up = [];
  purgatory = new_partition_purgatory;
  idempotence = [];
}

unfoldable pub without : ℕ → List ℕ → List ℕ
without follower [] = []
without follower (id ∷ isr) =
    let rest = without follower isr in if id == follower then rest else id ∷ rest

unfoldable pub remove_from_isr : ℕ → PartitionState → PartitionState
unfolding without
remove_from_isr follower ps = record ps { isr = without follower ps.isr }

unfoldable pub add_to_isr : ℕ → PartitionState → PartitionState
unfolding without
add_to_isr follower ps = record ps { isr = without follower ps.isr ++ (follower ∷ []) }

abbrev pub or_zero : Option ℕ → ℕ
or_zero none = 0
or_zero (some leo) = leo

-- The loop of AdvanceHWM over the ISR; `new_hwm` starts at the leader's LEO.
unfoldable pub lowest : ℕ → Assoc ℕ → List ℕ → ℕ → ℕ
lowest leader replica_leo [] new_hwm = new_hwm
lowest leader replica_leo (id ∷ isr) new_hwm = lowest leader replica_leo isr (
    if id == leader
    then new_hwm
    else (if slt64 (or_zero (lookup id replica_leo)) new_hwm
        then or_zero (lookup id replica_leo)
        else new_hwm))

abbrev pub candidate : PartitionState → ℕ
candidate ps = lowest ps.leader_broker_id ps.replica_leo ps.isr ps.leo

unfoldable pub advance_hwm : PartitionState → PartitionState
advance_hwm ps =
    if slt64 ps.hwm (candidate ps)
    then record ps { hwm = candidate ps; purgatory = complete_up_to (candidate ps) ps.purgatory }
    else ps

-- A follower's fetch from `upto`, at the time `now`.
unfoldable pub update_replica_leo : ℕ → ℕ → ℕ → PartitionState → PartitionState
update_replica_leo now follower upto ps = advance_hwm (record ps {
  replica_leo = insert follower upto ps.replica_leo;
  last_caught_up =
      if sle64 ps.leo upto then insert follower now ps.last_caught_up else ps.last_caught_up;
})

unfoldable pub on_leader_append : ℕ → PartitionState → PartitionState
on_leader_append last_offset ps = advance_hwm (
    if slt64 ps.leo ((last_offset + 1) % two64)
    then record ps { leo = (last_offset + 1) % two64 }
    else ps)

-- The produce handler parks a request with acks=-1: Purgatory.Add, then CompleteUpTo(GetHWM()).
unfoldable pub park : PartitionAppendWaiter → PartitionState → PartitionState
park w ps = record ps { purgatory = complete_up_to ps.hwm (add w ps.purgatory) }
