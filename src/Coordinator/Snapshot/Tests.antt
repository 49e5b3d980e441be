-- ===== src/Coordinator/Snapshot/Tests.antt =====
-- The theorems on producer snapshots at a concrete directory, with the sum of the bytes for the
-- checksum.
use kaf_go.Base.{
  ℕ, ◌+◌, ◌-◌, ◌%◌, ◌<◌, ◌≡◌, refl, arith, true, List, [], ◌∷◌, none, some, map, All, two32, two64,
}
use kaf_go.Base.Assoc.{lookup, has}
use kaf_go.Coordinator.Idempotence.{
  ProducerRingSlot, ProducerBatchLog, IdempotenceState, empty_slot, lookup_ring, record_in,
  validate,
}
use kaf_go.Coordinator.Snapshot.{
  ProducerSnapshotEntry, SnapshotDir, decoded, encode_producer_state_entry,
  decode_producer_state_entry, entries_of, saved, snapshot, encode_snapshot, decode_snapshot,
}
use kaf_go.Coordinator.Snapshot.Entry.{IsSlot, IsEntry, compacted_entry}
use kaf_go.Coordinator.Snapshot.File.{decode_snapshot-encode}
use kaf_go.Coordinator.Snapshot.Latest.{IsLatestOf, load_latest, load_latest-IsLatest}
use kaf_go.Coordinator.Snapshot.Recover.{CommitLogReader, record_headers, on_segment_roll, recover}
use kaf_go.Coordinator.Snapshot.Recover.Same.{verdict-recover}
use kaf_go.Coordinator.Snapshot.Recover.Newest.{full_entry, lookup_ring-restored}

abbrev sum : List ℕ → ℕ
sum [] = 0
sum (b ∷ bytes) = b + sum bytes

abbrev checksum : List ℕ → ℕ
checksum bytes = sum bytes % two32

checksum_fits : (bytes : List ℕ) → checksum bytes < two32
checksum_fits bytes = omega arith

abbrev batch : ℕ → ℕ → ℕ → ProducerRingSlot
batch first last base = record {
  first_seq = first;
  last_seq = last;
  base_offset = base;
  leader_epoch = two32 - 1;
}

abbrev two_batches : ProducerBatchLog
two_batches = record {
  last_seq = 7;
  last_offset = 107;
  last_epoch = 2;
  last_leader_epoch = two32 - 1;
  last_timestamp = 5000;
  ring = batch 0 4 100 ∷ batch 5 7 105 ∷ empty_slot ∷ empty_slot ∷ empty_slot ∷ [];
  ring_head = 2;
}

abbrev producers : IdempotenceState
producers = (9, two_batches) ∷ []

batch-IsSlot :
    (first last base : ℕ)
    → first < two32
    → last < two32
    → base < two64
    → IsSlot (batch first last base)
batch-IsSlot first last base f l b = record { first = f; last = l; base = b; leader = omega arith }

empty_slot-IsSlot : IsSlot empty_slot
empty_slot-IsSlot = record {
  first = omega arith;
  last = omega arith;
  base = omega arith;
  leader = omega arith;
}

producers-IsEntry : All IsEntry (snapshot producers)
unfolding snapshot
producers-IsEntry = (
  record {
    pid = omega arith;
    epoch = omega arith;
    seq = omega arith;
    offset = omega arith;
    leader = omega arith;
    timestamp = omega arith;
    slots = (
      batch-IsSlot 0 4 100 (omega arith) (omega arith) (omega arith),
      (
        batch-IsSlot 5 7 105 (omega arith) (omega arith) (omega arith),
        (empty_slot-IsSlot, (empty_slot-IsSlot, (empty_slot-IsSlot, tt))),
      ),
    );
    five = refl;
  },
  tt,
)

decode_snapshot-encode_example :
    decode_snapshot checksum 108 (encode_snapshot checksum 108 (snapshot producers))
    ≡ entries_of (map compacted_entry (snapshot producers))
unfolding snapshot
decode_snapshot-encode_example =
    decode_snapshot-encode checksum checksum_fits 108 (snapshot producers) (omega arith)
      (omega arith) producers-IsEntry

-- Two snapshots, the later one cut short.
abbrev crashed : SnapshotDir
crashed = (50, encode_snapshot checksum 50 (snapshot producers)) ∷ (108, 75 ∷ 65 ∷ []) ∷ []

load_latest-IsLatest_example :
    IsLatestOf checksum crashed 108 (λ c. has c crashed) (load_latest checksum crashed 108)
load_latest-IsLatest_example = load_latest-IsLatest checksum crashed 108

-- The new segment from offset 108 holds the batch of producer 11 that it was rolled for.
abbrev log_at_roll : CommitLogReader
log_at_roll = record {
  active_segment_base_offset = 108;
  walk_batch_headers_from = λ from_offset. (
    record {
      base_offset = 108;
      last_offset_delta = 2;
      producer_id = 11;
      producer_epoch = 0;
      base_sequence = 0;
    }
        ∷ [],
    true,
  );
}

-- A retry of the first batch of producer 9.
verdict-recover_example :
    (validate 6000 9 2 0 4
      (recover checksum
        (λ i. 6000)
        log_at_roll
        (on_segment_roll checksum saved 108 producers [])
        []).0).1
    ≡ (validate 6000 9 2 0 4
        (record_headers (λ i. 5500) (log_at_roll.walk_batch_headers_from 108).0 producers)).1
unfolding lookup
verdict-recover_example =
    verdict-recover checksum checksum_fits (λ i. 6000) log_at_roll [] producers [] (omega arith)
      (omega arith) producers-IsEntry (refl, tt) (λ c h. ground arith) 6000 9 2 0 4 (λ i. 5500)
      (refl, tt)

abbrev full_ring : ProducerSnapshotEntry
full_ring =
    full_entry 9 two_batches (batch 25 29 125) (batch 5 9 105) (batch 10 14 110) (batch 15 19 115)
      (batch 20 24 120)

full_ring-IsEntry : IsEntry full_ring
full_ring-IsEntry = record {
  pid = omega arith;
  epoch = omega arith;
  seq = omega arith;
  offset = omega arith;
  leader = omega arith;
  timestamp = omega arith;
  slots = (
    batch-IsSlot 25 29 125 (omega arith) (omega arith) (omega arith),
    (
      batch-IsSlot 5 9 105 (omega arith) (omega arith) (omega arith),
      (
        batch-IsSlot 10 14 110 (omega arith) (omega arith) (omega arith),
        (
          batch-IsSlot 15 19 115 (omega arith) (omega arith) (omega arith),
          (batch-IsSlot 20 24 120 (omega arith) (omega arith) (omega arith), tt),
        ),
      ),
    ),
  );
  five = refl;
}

lookup_ring-restored_example :
    (lookup_ring (record_in 6000 2 30 34 130 full_ring.log).ring 25 29 ≡ some 125)
    × ((restored : ProducerSnapshotEntry) × (decode_producer_state_entry
            (encode_producer_state_entry full_ring)
          ≡ decoded restored [])
        × (lookup_ring (record_in 6000 2 30 34 130 restored.log).ring 25 29 ≡ none))
lookup_ring-restored_example =
    lookup_ring-restored 9 two_batches 6000 2 (batch 25 29 125) (batch 5 9 105) (batch 10 14 110)
      (batch 15 19 115) (batch 20 24 120) (batch 30 34 130) full_ring-IsEntry
      (refl, (refl, (refl, (refl, (refl, tt))))) (refl, (refl, (refl, (refl, (refl, tt)))))
