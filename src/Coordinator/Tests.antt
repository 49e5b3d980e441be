-- ===== src/Coordinator/Tests.antt =====
-- The coordinator's theorems at concrete states of a partition and of a producer.
use kaf_go.Base.{
  get_elem?, zero, suc, ◌+◌, length, ℕ, ◌≤◌, ◌<◌, ◌≡◌, ◌⊎◌, refl, arith, some, List, [], ◌∷◌, ◌++◌,
  map, All, rank64,
}
use kaf_go.Base.Assoc.{lookup, insert}
use kaf_go.Coordinator.Purgatory.{PartitionAppendWaiter}
use kaf_go.Coordinator.Partition.{
  PartitionState, new_partition_state, lowest, advance_hwm, update_replica_leo, on_leader_append,
  park,
}
use kaf_go.Coordinator.Partition.Store.{PartitionStateStore, assign_replicas, partitions_led_by}
use kaf_go.Coordinator.Partition.Store.Balance.{share, assign_replicas-share}
use kaf_go.Coordinator.Partition.HighWatermark.{AllReached, IsFollowerAt, advance_hwm_committed}
use kaf_go.Coordinator.Partition.Waiters.{
  released, waiting, acknowledgement, AllParked, append, wait, fetch, Reach, here, next,
  advance_hwm_acknowledges, reachable-IsSafe, reachable-hwm,
}
use kaf_go.Coordinator.Idempotence.{
  Batch, Appending, appends, append_fails, ProducerBatchLog, minus_one32, new_producer_batch_log,
  lookup_ring, record_in, record_batch, validate, duplicate, reject, invalid_producer_epoch,
}
use kaf_go.Coordinator.Idempotence.Ring.{record_all, recent_batch_found}
use kaf_go.Coordinator.Idempotence.Chain.{Chain, accepted, accepted-Chain}
use kaf_go.Coordinator.Idempotence.Sequence.{validate_retry, validate_fenced}
use kaf_go.Coordinator.Pid.{
  stored, refused, stored_with_error, allocate, restart, Event, issued, handle, recover_pid_manager,
  new_pid_manager, max_seen,
}
use kaf_go.Coordinator.Pid.Unique.{Increasing, issued-Increasing}

-- Broker 1 leads, 2 and 3 follow; a request waits for offset 4.
abbrev waiter : PartitionAppendWaiter
waiter = record { id = 7; required_offset = 4; isr_snapshot = 1 ∷ 2 ∷ 3 ∷ []; deadline = 0 }

abbrev in_sync : PartitionState
in_sync = record (new_partition_state 1 0 (1 ∷ 2 ∷ 3 ∷ []) (1 ∷ 2 ∷ 3 ∷ [])) {
  leo = 10;
  hwm = 3;
  replica_leo = (2, 5) ∷ (3, 6) ∷ [];
  purgatory = record { waiters = waiter ∷ []; signals = [] };
}

advance_hwm_committed_example :
    (rank64 (advance_hwm in_sync).hwm ≤ rank64 10)
    × AllReached in_sync (advance_hwm in_sync).hwm
    × (((advance_hwm in_sync).hwm ≡ 10)
        ⊎ IsFollowerAt 1 in_sync.replica_leo in_sync.isr (advance_hwm in_sync).hwm)
unfolding advance_hwm lowest lookup
advance_hwm_committed_example = advance_hwm_committed in_sync refl

advance_hwm_acknowledges_example :
    ((advance_hwm in_sync).purgatory.signals
      ≡ [] ++ map acknowledgement (released (advance_hwm in_sync).hwm (waiter ∷ [])))
    × ((advance_hwm in_sync).purgatory.waiters ≡ waiting (advance_hwm in_sync).hwm (waiter ∷ []))
    × All
        (λ w. rank64 w.required_offset < rank64 10)
        (released (advance_hwm in_sync).hwm (waiter ∷ []))
    × AllReached in_sync (advance_hwm in_sync).hwm
unfolding advance_hwm lowest lookup
advance_hwm_acknowledges_example = advance_hwm_acknowledges in_sync refl

-- An append up to offset 4, a request parked for it, and a fetch from 5.
abbrev fresh : PartitionState
fresh = new_partition_state 1 0 (1 ∷ 2 ∷ []) (1 ∷ 2 ∷ [])

abbrev fetched : PartitionState
fetched = update_replica_leo 9 2 5 (park waiter (on_leader_append 4 fresh))

abbrev run : Reach fresh fetched
run =
    next (next (next here (append 4 fresh)) (wait waiter (on_leader_append 4 fresh)))
      (fetch 9 2 5 (park waiter (on_leader_append 4 fresh)))

reachable-IsSafe_example :
    (rank64 fetched.hwm ≤ rank64 fetched.leo) × AllParked fetched.hwm fetched.purgatory.waiters
reachable-IsSafe_example = reachable-IsSafe 1 0 (1 ∷ 2 ∷ []) (1 ∷ 2 ∷ []) fetched run

reachable-hwm_example : rank64 fresh.hwm ≤ rank64 fetched.hwm
reachable-hwm_example = reachable-hwm fresh fetched run refl

abbrev batches : List Batch
batches =
    record { now = 10; first_seq = 0; last_seq = 2; base_offset = 100 }
    ∷ record { now = 11; first_seq = 5; last_seq = 6; base_offset = 103 }
    ∷ record { now = 12; first_seq = 3; last_seq = 4; base_offset = 103 }
    ∷ []

recent_batch_found_example :
    lookup_ring (record_all 0 batches (record_in 9 0 7 8 40 (new_producer_batch_log 0))).ring 7 8
    ≡ some 40
unfolding new_producer_batch_log lookup_ring
recent_batch_found_example =
    recent_batch_found 9 0 7 8 40 batches (new_producer_batch_log 0) refl (omega arith)
      (omega arith) refl (omega arith) (refl, (refl, (refl, tt)))

-- The batch from 3 on is presented twice: its first append fails.
abbrev presented : List (Batch × Appending)
presented =
    (record { now = 10; first_seq = 0; last_seq = 2; base_offset = 100 }, appends)
    ∷ (record { now = 11; first_seq = 5; last_seq = 6; base_offset = 103 }, appends)
    ∷ (record { now = 12; first_seq = 3; last_seq = 4; base_offset = 103 }, append_fails)
    ∷ (record { now = 13; first_seq = 3; last_seq = 4; base_offset = 103 }, appends)
    ∷ []

two_accepted : length (accepted 1 0 presented []) ≡ 2
unfolding accepted lookup insert record_in new_producer_batch_log lookup_ring
two_accepted = refl

accepted-Chain_example : Chain minus_one32 (accepted 1 0 presented [])
unfolding lookup
accepted-Chain_example = accepted-Chain 1 0 10 presented [] (omega arith) refl (
  (omega arith, omega arith),
  ((omega arith, omega arith), ((omega arith, omega arith), ((omega arith, omega arith), tt))),
)

-- Producer 1 after the batch of sequences 3 to 8.
abbrev known : ℕ → ℕ → ℕ → List (ℕ × ProducerBatchLog)
known epoch f l = record_batch 10 1 epoch f l 100 []

validate_retry_example : validate 20 1 0 3 8 (known 0 3 8) ≡ (known 0 3 8, duplicate 100)
unfolding lookup_ring record_in new_producer_batch_log lookup
validate_retry_example =
    validate_retry 10 1 0 3 8 100 [] 20 3 8 100 (omega arith) (omega arith) (omega arith)
      (omega arith) (omega arith) refl

validate_fenced_example :
    validate 20 1 4 9 9 (known 5 3 8) ≡ (known 5 3 8, reject invalid_producer_epoch)
validate_fenced_example =
    validate_fenced 10 1 5 3 8 100 [] 20 4 9 9 (omega arith) (omega arith) (omega arith) refl

-- Two ids, a restart, a failed append, and two more ids.
abbrev events : List Event
events =
    allocate stored
    ∷ allocate stored
    ∷ restart (1000 ∷ [])
    ∷ allocate refused
    ∷ allocate stored_with_error
    ∷ allocate stored
    ∷ restart (1000 ∷ 2000 ∷ 2000 ∷ [])
    ∷ allocate stored
    ∷ []

issued_ids :
    (issued events (recover_pid_manager [] (new_pid_manager []))).0 ≡ 0 ∷ 1 ∷ 1000 ∷ 2000 ∷ []
unfolding issued recover_pid_manager
issued_ids = refl

issued-Increasing_example :
    Increasing 0 (issued events (recover_pid_manager [] (new_pid_manager []))).0
    × All
        (λ pid. pid < max_seen (issued events (recover_pid_manager [] (new_pid_manager []))).1.log)
        (issued events (recover_pid_manager [] (new_pid_manager []))).0
unfolding handle
issued-Increasing_example =
    issued-Increasing events (omega arith)
      (refl, (refl, (refl, (refl, (refl, (refl, (refl, (refl, tt))))))))

-- A Replay that hands over nothing of the log, after which the first id is issued again.
issued_again :
    (issued
      (allocate stored ∷ restart [] ∷ allocate stored ∷ [])
      (recover_pid_manager [] (new_pid_manager []))).0
    ≡ 0 ∷ 0 ∷ []
unfolding issued recover_pid_manager
issued_again = refl

abbrev three_brokers : List ℕ
three_brokers = 11 ∷ 12 ∷ 13 ∷ []

only_second : (i : ℕ) → get_elem? three_brokers i ≡ some 12 → i ≡ 1
only_second zero h = ground arith
only_second (suc zero) h = refl
only_second (suc (suc zero)) h = ground arith
only_second (suc (suc (suc i))) h = ground arith

-- Seven partitions of topic 4 on three brokers, two replicas each: the second broker leads two.
assign_replicas-share_example :
    (store : PartitionStateStore) × (assign_replicas 4 7 2 three_brokers [] ≡ some store)
    × (length (partitions_led_by 12 store) ≡ length (partitions_led_by 12 []) + share 3 1 7)
unfolding lookup
assign_replicas-share_example =
    assign_replicas-share three_brokers (omega arith) 12 1 refl only_second 4 2 7 [] (omega arith)
      (omega arith) (omega arith) (λ m lt. refl)
