-- ===== src/Coordinator/Partition/Waiters.antt =====
-- Parked produce requests, over every sequence of the partition's operations, its replacement included.
use kaf_go.Base.{ℕ, ◌+◌, ◌%◌, ◌≤◌, ◌<◌, ◌≡◌, refl, arith, true, map}
use kaf_go.Base.{
  List, [], ◌∷◌, ◌++◌, if◌then◌else◌, Bool-cases, inl, inr, slt64, rank64, two64, All, some,
}
use kaf_go.Coordinator.Purgatory.{
  PartitionAppendWaiter, Signal, committed, add, complete_loop, complete_up_to, fail_all,
}
use kaf_go.Coordinator.Partition.{
  PartitionState, new_partition_state, candidate, advance_hwm, update_replica_leo, on_leader_append,
  remove_from_isr, add_to_isr, park,
}
use kaf_go.Coordinator.Partition.Store.{led_state, in_isr, with_isr}
use kaf_go.Coordinator.Partition.HighWatermark.{
  AllReached, lowest-le, advance_hwm_committed, hwm-advance_hwm,
}

-- The waiters of offsets below `hwm`, in order.
abbrev pub released : ℕ → List PartitionAppendWaiter → List PartitionAppendWaiter
released hwm [] = []
released hwm (w ∷ ws) =
    let rest = released hwm ws in if slt64 w.required_offset hwm then w ∷ rest else rest

-- The waiters that are left, in order.
abbrev pub waiting : ℕ → List PartitionAppendWaiter → List PartitionAppendWaiter
waiting hwm [] = []
waiting hwm (w ∷ ws) =
    let rest = waiting hwm ws in if slt64 w.required_offset hwm then rest else w ∷ rest

abbrev pub acknowledgement : PartitionAppendWaiter → ℕ × Signal
acknowledgement w = (w.id, committed)

-- The waiters of offsets at `hwm` or above.
abbrev pub AllParked : ℕ → List PartitionAppendWaiter → Type 0
AllParked hwm = All (λ w. rank64 hwm ≤ rank64 w.required_offset)

complete_loop_sent :
    (hwm : ℕ) (ws : List PartitionAppendWaiter)
    → (complete_loop hwm ws).1 ≡ map acknowledgement (released hwm ws)
unfolding complete_loop
complete_loop_sent hwm [] = refl
complete_loop_sent hwm (w ∷ ws) = ground (arith, complete_loop_sent hwm ws)

complete_loop_left :
    (hwm : ℕ) (ws : List PartitionAppendWaiter) → (complete_loop hwm ws).0 ≡ waiting hwm ws
unfolding complete_loop
complete_loop_left hwm [] = refl
complete_loop_left hwm (w ∷ ws) = ground (arith, complete_loop_left hwm ws)

complete_loop-AllParked :
    (hwm : ℕ) (ws : List PartitionAppendWaiter) → AllParked hwm (complete_loop hwm ws).0
unfolding complete_loop
complete_loop-AllParked hwm [] = tt
complete_loop-AllParked hwm (w ∷ ws) = elim (Bool-cases (slt64 w.required_offset hwm)) [
  | inl below ↦ rw below (complete_loop-AllParked hwm ws)
  | inr above ↦ rw above (ground arith, complete_loop-AllParked hwm ws)
]

released-All :
    (hwm bound : ℕ) (ws : List PartitionAppendWaiter)
    → rank64 hwm ≤ rank64 bound
    → All (λ w. rank64 w.required_offset < rank64 bound) (released hwm ws)
released-All hwm bound [] h = tt
released-All hwm bound (w ∷ ws) h = elim (Bool-cases (slt64 w.required_offset hwm)) [
  | inl below ↦ rw below (ground arith, released-All hwm bound ws h)
  | inr above ↦ rw above (released-All hwm bound ws h)
]

advance_hwm_signals :
    (ps : PartitionState)
    → slt64 ps.hwm (advance_hwm ps).hwm ≡ true
    → (advance_hwm ps).purgatory.signals
      ≡ ps.purgatory.signals
        ++ map acknowledgement (released (advance_hwm ps).hwm ps.purgatory.waiters)
unfolding advance_hwm complete_up_to
advance_hwm_signals ps h = elim (Bool-cases (slt64 ps.hwm (candidate ps))) [
  | inl up ↦ rw up (rw complete_loop_sent)
  | inr stay ↦ absurd (ground arith)
]

advance_hwm_waiters :
    (ps : PartitionState)
    → slt64 ps.hwm (advance_hwm ps).hwm ≡ true
    → (advance_hwm ps).purgatory.waiters ≡ waiting (advance_hwm ps).hwm ps.purgatory.waiters
unfolding advance_hwm complete_up_to
advance_hwm_waiters ps h = elim (Bool-cases (slt64 ps.hwm (candidate ps))) [
  | inl up ↦ rw up (rw complete_loop_left)
  | inr stay ↦ absurd (ground arith)
]

-- Where AdvanceHWM raises the high watermark it acknowledges, in order and each once, exactly the parked requests below
-- the new one. The last offset of each of these lies below the leader's log end; and every member of the ISR has
-- reached the new high watermark, so an acknowledged batch is on all of them.
pub advance_hwm_acknowledges :
    (ps : PartitionState)
    → slt64 ps.hwm (advance_hwm ps).hwm ≡ true
    → ((advance_hwm ps).purgatory.signals
        ≡ ps.purgatory.signals
          ++ map acknowledgement (released (advance_hwm ps).hwm ps.purgatory.waiters))
      × ((advance_hwm ps).purgatory.waiters ≡ waiting (advance_hwm ps).hwm ps.purgatory.waiters)
      × All
          (λ w. rank64 w.required_offset < rank64 ps.leo)
          (released (advance_hwm ps).hwm ps.purgatory.waiters)
      × AllReached ps (advance_hwm ps).hwm
advance_hwm_acknowledges ps up =
    let (leader, reached, which) = advance_hwm_committed ps up in
    (
      advance_hwm_signals ps up,
      advance_hwm_waiters ps up,
      released-All (advance_hwm ps).hwm ps.leo ps.purgatory.waiters leader,
      reached,
    )

-- What the operations of a partition keep.
pub record IsSafe (ps : PartitionState) : Type 0 where
  pub below_leo : rank64 ps.hwm ≤ rank64 ps.leo
  pub parked : AllParked ps.hwm ps.purgatory.waiters

-- One operation on the partition's entry of the store: a follower's fetch, a leader's append, the two changes of the
-- ISR, parking a request, failing all parked requests, the ISR manager's AdvanceHWM, SetPartitionState, which puts a
-- new state in its place, and SetLeader and UpdateISR of the store.
pub data Step : PartitionState → PartitionState → Type 0 where
  fetch :
      (now follower upto : ℕ) (ps : PartitionState)
      → Step ps (update_replica_leo now follower upto ps)
  append : (last_offset : ℕ) (ps : PartitionState) → Step ps (on_leader_append last_offset ps)
  shrink : (follower : ℕ) (ps : PartitionState) → Step ps (remove_from_isr follower ps)
  grow : (follower : ℕ) (ps : PartitionState) → Step ps (add_to_isr follower ps)
  wait : (w : PartitionAppendWaiter) (ps : PartitionState) → Step ps (park w ps)
  fail :
      (err : ℕ) (ps : PartitionState)
      → Step ps (record ps { purgatory = fail_all err ps.purgatory })
  advance : (ps : PartitionState) → Step ps (advance_hwm ps)
  replace :
      (leader epoch : ℕ) (replicas isr : List ℕ) (ps : PartitionState)
      → Step ps (new_partition_state leader epoch replicas isr)
  lead : (broker : ℕ) (ps : PartitionState) → Step ps (led_state broker (some ps))
  join : (id : ℕ) (ps : PartitionState) → Step ps (with_isr id ps)

pub data Reach (start : PartitionState) : PartitionState → Type 0 where
  here : Reach start start
  next : {s t : PartitionState} → Reach start s → Step s t → Reach start t

advance-IsSafe : (ps : PartitionState) → IsSafe ps → IsSafe (advance_hwm ps)
unfolding advance_hwm
advance-IsSafe ps h = elim (Bool-cases (slt64 ps.hwm (candidate ps))) [
  | inl up ↦ rw up (record {
    below_leo = lowest-le ps.leader_broker_id ps.replica_leo ps.isr ps.leo;
    parked = unfold complete_up_to in complete_loop-AllParked (candidate ps) ps.purgatory.waiters;
  })
  | inr stay ↦ rw stay h
]

Step-IsSafe : {s t : PartitionState} → Step s t → IsSafe s → IsSafe t
Step-IsSafe (fetch now follower upto ps) h =
    unfold update_replica_leo in
    advance-IsSafe _ (record { below_leo = h.below_leo; parked = h.parked })
Step-IsSafe (append last_offset ps) h =
    unfold on_leader_append in
    elim (Bool-cases (slt64 ps.leo ((last_offset + 1) % two64))) [
      | inl up ↦ rw up (advance-IsSafe _ (record { below_leo = ground arith; parked = h.parked }))
      | inr stay ↦ rw stay (advance-IsSafe ps h)
    ]
Step-IsSafe (shrink follower ps) h =
    unfold remove_from_isr in record { below_leo = h.below_leo; parked = h.parked }
Step-IsSafe (grow follower ps) h =
    unfold add_to_isr in record { below_leo = h.below_leo; parked = h.parked }
Step-IsSafe (wait w ps) h =
    unfold park complete_up_to in
    record {
      below_leo = h.below_leo;
      parked = complete_loop-AllParked ps.hwm (add w ps.purgatory).waiters;
    }
Step-IsSafe (fail err ps) h = unfold fail_all in record { below_leo = h.below_leo; parked = tt }
Step-IsSafe (advance ps) h = advance-IsSafe ps h
Step-IsSafe (replace leader epoch replicas isr ps) h = record {
  below_leo = omega arith;
  parked = tt;
}
Step-IsSafe (lead broker ps) h = record { below_leo = h.below_leo; parked = h.parked }
Step-IsSafe (join id ps) h = elim (Bool-cases (in_isr id ps.isr)) [
  | inl member ↦ rw member h
  | inr new ↦ rw new (record { below_leo = h.below_leo; parked = h.parked })
]

Reach-IsSafe : {s t : PartitionState} → IsSafe s → Reach s t → IsSafe t
Reach-IsSafe h here = h
Reach-IsSafe h (next r st) = Step-IsSafe st (Reach-IsSafe h r)

-- From a new partition, after any operations in any order, its replacement by a new state included: the high watermark is not above the
-- leader's log end, and every request still parked waits for an offset that is not committed, so
-- no request is left behind by a high watermark that has passed it.
pub reachable-IsSafe :
    (leader epoch : ℕ) (replicas isr : List ℕ) (ps : PartitionState)
    → Reach (new_partition_state leader epoch replicas isr) ps
    → (rank64 ps.hwm ≤ rank64 ps.leo) × AllParked ps.hwm ps.purgatory.waiters
reachable-IsSafe leader epoch replicas isr ps r =
    let safe = Reach-IsSafe (record { below_leo = omega arith; parked = tt }) r in
    (safe.below_leo, safe.parked)

-- The steps that put a new state in place.
abbrev pub replaces : {s t : PartitionState} → Step s t → ℕ
replaces (replace leader epoch replicas isr ps) = 1
replaces _ = 0

abbrev pub replacements : {s t : PartitionState} → Reach s t → ℕ
replacements here = 0
replacements (next r st) = replacements r + replaces st

Step-hwm : {s t : PartitionState} (st : Step s t) → replaces st ≡ 0 → rank64 s.hwm ≤ rank64 t.hwm
Step-hwm (fetch now follower upto ps) n = unfold update_replica_leo in hwm-advance_hwm _
Step-hwm (append last_offset ps) n =
    unfold on_leader_append in
    elim (Bool-cases (slt64 ps.leo ((last_offset + 1) % two64))) [
      | inl up ↦ rw up (hwm-advance_hwm (record ps { leo = (last_offset + 1) % two64 }))
      | inr stay ↦ rw stay (hwm-advance_hwm ps)
    ]
Step-hwm (shrink follower ps) n = unfold remove_from_isr in omega arith
Step-hwm (grow follower ps) n = unfold add_to_isr in omega arith
Step-hwm (wait w ps) n = unfold park in omega arith
Step-hwm (fail err ps) n = omega arith
Step-hwm (advance ps) n = hwm-advance_hwm ps
Step-hwm (replace leader epoch replicas isr ps) n = absurd (omega arith)
Step-hwm (lead broker ps) n = omega arith
Step-hwm (join id ps) n = ground arith

-- The high watermark of a partition does not go back over any operations in any order in which SetPartitionState does
-- not put a new state, whose high watermark is 0, in place of the partition's.
pub reachable-hwm :
    (s t : PartitionState) (r : Reach s t) → replacements r ≡ 0 → rank64 s.hwm ≤ rank64 t.hwm
reachable-hwm s t here none_new = omega arith
reachable-hwm s t (next {s = u} r st) none_new =
    omega (arith, reachable-hwm s u r (omega arith), Step-hwm st (omega arith))
