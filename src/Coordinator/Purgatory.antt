-- ===== src/Coordinator/Purgatory.antt =====
-- coordinator/partition_purgatory.go: the produce requests of a partition that wait for their
-- batch to be committed. A waiter's channel is its `id`; what is sent on it goes to `signals`.
-- The metric labels are left out.
use kaf_go.Base.{ℕ, List, [], ◌∷◌, ◌++◌, if◌then◌else◌, slt64}

pub record PartitionAppendWaiter : Type 0 where
  pub id : ℕ
  pub required_offset : ℕ
  pub isr_snapshot : List ℕ
  pub deadline : ℕ

-- What closes a waiter: nil, or the code of an error.
pub data Signal : Type 0 where
  committed : Signal
  failed : ℕ → Signal

pub record PartitionPurgatory : Type 0 where
  pub waiters : List PartitionAppendWaiter
  pub signals : List (ℕ × Signal)

abbrev pub new_partition_purgatory : PartitionPurgatory
new_partition_purgatory = record { waiters = []; signals = [] }

unfoldable pub add : PartitionAppendWaiter → PartitionPurgatory → PartitionPurgatory
add w p = record p { waiters = p.waiters ++ (w ∷ []) }

-- The loop of CompleteUpTo: the waiters that stay, and the signals in order.
unfoldable pub complete_loop :
    ℕ → List PartitionAppendWaiter → List PartitionAppendWaiter × List (ℕ × Signal)
complete_loop hwm [] = ([], [])
complete_loop hwm (w ∷ ws) =
    let (remaining, sent) = complete_loop hwm ws in
    if slt64 w.required_offset hwm
    then (remaining, (w.id, committed) ∷ sent)
    else (w ∷ remaining, sent)

unfoldable pub complete_up_to : ℕ → PartitionPurgatory → PartitionPurgatory
complete_up_to hwm p =
    let (remaining, sent) = complete_loop hwm p.waiters in
    record { waiters = remaining; signals = p.signals ++ sent }

unfoldable pub fail_loop : ℕ → List PartitionAppendWaiter → List (ℕ × Signal)
fail_loop err [] = []
fail_loop err (w ∷ ws) = (w.id, failed err) ∷ fail_loop err ws

unfoldable pub fail_all : ℕ → PartitionPurgatory → PartitionPurgatory
unfolding fail_loop
fail_all err p = record { waiters = []; signals = p.signals ++ fail_loop err p.waiters }
