-- ===== src/Server/Isr.antt =====
-- ISRManager of server/isr_manager.go: one tick over a partition that the broker leads. The two
-- lookups in the topic store are arguments, none where the topic is not known; times are numbers of
-- nanoseconds.
pub mod Tick
use kaf_go.Base.{
  ℕ, ◌+◌, ◌-◌, ◌*◌, ◌^◌, ◌%◌, Bool, true, false, ◌||◌, List, [], ◌∷◌, Option, none, some, length,
}
use kaf_go.Base.{◌==◌, if◌then◌else◌, ltb, not, slt16, sle64}
use kaf_go.Base.Assoc.{lookup}
use kaf_go.Coordinator.Purgatory.{fail_all}
use kaf_go.Coordinator.Partition.{PartitionState, remove_from_isr, add_to_isr, advance_hwm}
use kaf_go.Coordinator.Partition.HighWatermark.{int32_slice_contains}

abbrev pub default_isr_lag_max : ℕ
default_isr_lag_max = 10 * 10 ^ 9

abbrev pub lags : ℕ → Option ℕ → Bool
lags now none = true
lags now (some last) = ltb default_isr_lag_max (now - last)

abbrev pub caught_up : ℕ → Option ℕ → Bool
caught_up hwm none = false
caught_up hwm (some leo) = sle64 hwm leo

-- The body of the loop over snap.ISR; the Bool is `changed`.
unfoldable pub shrink : ℕ → PartitionState → ℕ → Bool × PartitionState → Bool × PartitionState
unfolding remove_from_isr
shrink now snap f (changed, ps) =
    if f == snap.leader_broker_id
    then (changed, ps)
    else if lags now (lookup f snap.last_caught_up)
    then (true, remove_from_isr f ps)
    else (changed, ps)

unfoldable pub shrink_loop :
    ℕ → PartitionState → List ℕ → Bool × PartitionState → Bool × PartitionState
unfolding shrink
shrink_loop now snap [] st = st
shrink_loop now snap (f ∷ isr) st = shrink_loop now snap isr (shrink now snap f st)

-- The body of the loop over snap.Replicas.
unfoldable pub expand : PartitionState → ℕ → Bool × PartitionState → Bool × PartitionState
unfolding add_to_isr int32_slice_contains
expand snap f (changed, ps) =
    if (f == snap.leader_broker_id) || int32_slice_contains snap.isr f
    then (changed, ps)
    else if caught_up snap.hwm (lookup f snap.replica_leo)
    then (true, add_to_isr f ps)
    else (changed, ps)

unfoldable pub expand_loop : PartitionState → List ℕ → Bool × PartitionState → Bool × PartitionState
unfolding expand
expand_loop snap [] st = st
expand_loop snap (f ∷ replicas) st = expand_loop snap replicas (expand snap f st)

-- The code of ErrNotEnoughReplicasAfterAppend.
abbrev pub not_enough_replicas_after_append : ℕ
not_enough_replicas_after_append = 20

unfoldable pub check_min_isr : Option ℕ → PartitionState → PartitionState
unfolding fail_all
check_min_isr none ps = ps
check_min_isr (some min_isr) ps =
    if slt16 (length ps.isr % 2 ^ 16) min_isr
    then record ps { purgatory = fail_all not_enough_replicas_after_append ps.purgatory }
    else ps

-- The end of a tick, and the snapshot that publishPartitionRecord appends to the metadata log.
abbrev pub publish_and_check :
    Option ℕ → Bool × PartitionState → PartitionState × Option PartitionState
publish_and_check min_isr (false, ps) = (ps, none)
publish_and_check none (true, ps) = (advance_hwm ps, none)
publish_and_check (some min_isr) (true, ps) =
    (check_min_isr (some min_isr) (advance_hwm ps), some ps)

-- tick, for one partition that no other call changes meanwhile.
unfoldable pub tick : ℕ → Option ℕ → PartitionState → PartitionState × Option PartitionState
unfolding shrink_loop expand_loop advance_hwm check_min_isr
tick now min_isr ps =
    publish_and_check min_isr (expand_loop ps ps.replicas (shrink_loop now ps ps.isr (false, ps)))
