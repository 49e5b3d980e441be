-- ===== src/Server/Tests.antt =====
-- The theorems on the registry and on the ISR at small states.
use kaf_go.Base.{ℕ, ◌-◌, ◌*◌, ◌^◌, ◌<◌, ◌≡◌, refl, arith, ◌&&◌, List, [], ◌∷◌, some}
use kaf_go.Base.{◌==◌, if◌then◌else◌, not}
use kaf_go.Base.Assoc.{lookup}
use kaf_go.Coordinator.Partition.{PartitionState, new_partition_state, lowest}
use kaf_go.Coordinator.Partition.HighWatermark.{int32_slice_contains}
use kaf_go.Server.Registry.{
  BrokerRegistry, register_broker, validate_and_update, stale_epoch, lowest_broker_id,
}
use kaf_go.Server.Registry.Fencing.{Call, register, heartbeat, run_all, register_broker_fences}
use kaf_go.Server.Isr.{lags, caught_up, tick}
use kaf_go.Server.Isr.Tick.{tick-isr}

abbrev nobody : BrokerRegistry
nobody = []

-- Broker 3 comes, 2 comes, 3 comes again and sends a heartbeat, and then its first run does.
abbrev other_comes : List Call
other_comes = register 11 2 (104 ∷ []) 9092 ∷ []

abbrev one_heartbeat : List Call
one_heartbeat = heartbeat 13 3 2 70 ∷ []

register_broker_fences_example :
    (newer : ℕ) × (validate_and_update 14 3 (register_broker 10 3 (104 ∷ []) 9093 nobody).0 50 (
        run_all one_heartbeat
          (register_broker 12 3
            (104 ∷ [])
            9094
            (run_all other_comes (register_broker 10 3 (104 ∷ []) 9093 nobody).1)).1)
      ≡ (
        stale_epoch newer (register_broker 10 3 (104 ∷ []) 9093 nobody).0,
        run_all one_heartbeat
            (register_broker 12 3
              (104 ∷ [])
              9094
              (run_all other_comes (register_broker 10 3 (104 ∷ []) 9093 nobody).1)).1,
      ))
    × ((register_broker 10 3 (104 ∷ []) 9093 nobody).0 < newer)
unfolding lookup
register_broker_fences_example =
    register_broker_fences nobody 3 10 (104 ∷ []) 9093 other_comes 12 (104 ∷ []) 9094 one_heartbeat
      14 50 (omega arith)

lowest_of_none : lowest_broker_id nobody ≡ 2 ^ 32 - 1
unfolding lowest_broker_id
lowest_of_none = refl

-- Broker 1 leads; follower 2 lags, and 3, out of the ISR, has caught up.
abbrev leading : PartitionState
leading = record (new_partition_state 1 0 (1 ∷ 2 ∷ 3 ∷ []) (1 ∷ 2 ∷ [])) {
  leo = 10;
  hwm = 4;
  replica_leo = (2, 4) ∷ (3, 9) ∷ [];
  last_caught_up = (2, 0) ∷ [];
}

isr_after : (tick (11 * 10 ^ 9) (some 1) leading).0.isr ≡ 1 ∷ 3 ∷ []
unfolding tick lookup lowest
isr_after = refl

tick-isr_example : int32_slice_contains (tick (11 * 10 ^ 9) (some 1) leading).0.isr 3 ≡ (
    if 3 == 1
    then int32_slice_contains (1 ∷ 2 ∷ []) 3
    else if int32_slice_contains (1 ∷ 2 ∷ []) 3
    then not (lags (11 * 10 ^ 9) (lookup 3 leading.last_caught_up))
    else int32_slice_contains (1 ∷ 2 ∷ 3 ∷ []) 3 && caught_up 4 (lookup 3 leading.replica_leo))
tick-isr_example = tick-isr (11 * 10 ^ 9) (some 1) leading 3
