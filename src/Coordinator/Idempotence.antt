-- ===== src/Coordinator/Idempotence.antt =====
-- coordinator/idempotence_state.go: the producer states of a partition, and the test that an
-- incoming batch is next in sequence, a duplicate or an error. The clock reading `now` of each
-- call is an argument. Sequence numbers are int32 patterns, epochs int16, the others int64.
pub mod Ring
pub mod Sequence
pub mod Chain
use kaf_go.Base.{ℕ, ◌+◌, ◌-◌, ◌*◌, ◌%◌, ◌^◌, Bool, List, [], ◌∷◌, Option}
use kaf_go.Base.{none, some, ◌&&◌, ◌==◌, if◌then◌else◌, set, two32, two64, slt16, slt32, slt64}
use kaf_go.Base.{extend32}
use kaf_go.Base.Assoc.{Assoc, lookup, insert, erase}

abbrev pub ring_size : ℕ
ring_size = 5

abbrev pub producer_id_expiration_ms : ℕ
producer_id_expiration_ms = 60 * 60 * 1000

abbrev pub max_int32 : ℕ
max_int32 = 2 ^ 31 - 1

pub record ProducerRingSlot : Type 0 where
  pub first_seq : ℕ
  pub last_seq : ℕ
  pub base_offset : ℕ
  pub leader_epoch : ℕ

pub record ProducerBatchLog : Type 0 where
  pub last_seq : ℕ
  pub last_offset : ℕ
  pub last_epoch : ℕ
  pub last_leader_epoch : ℕ
  pub last_timestamp : ℕ
  pub ring : List ProducerRingSlot
  pub ring_head : ℕ

abbrev pub IdempotenceState : Type 0
IdempotenceState = Assoc ProducerBatchLog

-- The error codes of constant/error.go that Validate gives.
pub data ValidateError : Type 0 where
  unknown_producer_id invalid_producer_epoch : ValidateError
  out_of_order_sequence_number duplicate_sequence_number : ValidateError

-- (0, false, nil), (baseOff, true, nil) and (0, false, err).
pub data Verdict : Type 0 where
  accept : Verdict
  duplicate : ℕ → Verdict
  reject : ValidateError → Verdict

unfoldable pub lookup_ring : List ProducerRingSlot → ℕ → ℕ → Option ℕ
lookup_ring [] first_seq last_seq = none
lookup_ring (e ∷ ring) first_seq last_seq =
    let rest = lookup_ring ring first_seq last_seq in
    if slt32 e.first_seq 0
    then rest
    else if (e.first_seq == first_seq) && (e.last_seq == last_seq)
    then some e.base_offset
    else rest

abbrev pub verdict_of_ring : Option ℕ → Verdict
verdict_of_ring (some cached) = duplicate cached
verdict_of_ring none = reject duplicate_sequence_number

-- The switch on the sequence numbers, for an epoch that is the producer's own.
unfoldable pub validate_sequence : ProducerBatchLog → ℕ → ℕ → Verdict
unfolding lookup_ring
validate_sequence prod first_seq last_seq =
    if first_seq == (prod.last_seq + 1) % two32
    then accept
    else if (first_seq == 0) && (prod.last_seq == max_int32)
    then accept
    else if slt32 ((prod.last_seq + 1) % two32) first_seq
    then reject out_of_order_sequence_number
    else verdict_of_ring (lookup_ring prod.ring first_seq last_seq)

-- now - prod.LastTimestamp > producerIdExpirationMs
unfoldable pub expired : ℕ → ProducerBatchLog → Bool
expired now prod = slt64 producer_id_expiration_ms ((now + two64 - prod.last_timestamp) % two64)

unfoldable pub live : ℕ → Option ProducerBatchLog → Option ProducerBatchLog
unfolding expired
live now none = none
live now (some prod) = if expired now prod then none else some prod

-- The producers after the lazy removal of an expired one.
unfoldable pub drop_expired : ℕ → ℕ → Option ProducerBatchLog → IdempotenceState → IdempotenceState
unfolding expired
drop_expired now pid none s = s
drop_expired now pid (some prod) s = if expired now prod then erase pid s else s

-- The tests behind the lookup, on the live producer.
unfoldable pub validate_live :
    ℕ → ℕ → ℕ → ℕ → Option ProducerBatchLog → IdempotenceState → IdempotenceState × Verdict
unfolding validate_sequence
validate_live pid epoch first_seq last_seq none s =
    if first_seq == 0 then (s, accept) else (s, reject unknown_producer_id)
validate_live pid epoch first_seq last_seq (some prod) s =
    if slt16 epoch prod.last_epoch
    then (s, reject invalid_producer_epoch)
    else if slt16 prod.last_epoch epoch
    then (if first_seq == 0
        then (erase pid s, accept)
        else (s, reject out_of_order_sequence_number))
    else (s, validate_sequence prod first_seq last_seq)

unfoldable pub validate : ℕ → ℕ → ℕ → ℕ → ℕ → IdempotenceState → IdempotenceState × Verdict
unfolding validate_live live drop_expired
validate now pid epoch first_seq last_seq s =
    let prod = lookup pid s in
    validate_live pid epoch first_seq last_seq (live now prod) (drop_expired now pid prod s)

abbrev pub minus_one32 : ℕ
minus_one32 = two32 - 1

abbrev pub empty_slot : ProducerRingSlot
empty_slot = record { first_seq = minus_one32; last_seq = 0; base_offset = 0; leader_epoch = 0 }

unfoldable pub new_producer_batch_log : ℕ → ProducerBatchLog
new_producer_batch_log epoch = record {
  last_seq = minus_one32;
  last_offset = 0;
  last_epoch = epoch;
  last_leader_epoch = minus_one32;
  last_timestamp = 0;
  ring = empty_slot ∷ empty_slot ∷ empty_slot ∷ empty_slot ∷ empty_slot ∷ [];
  ring_head = 0;
}

abbrev pub found_or_new : ℕ → Option ProducerBatchLog → ProducerBatchLog
found_or_new epoch none = new_producer_batch_log epoch
found_or_new epoch (some prod) = prod

-- baseOff + int64(lastSeq-firstSeq)
abbrev pub last_offset_of : ℕ → ℕ → ℕ → ℕ
last_offset_of base first_seq last_seq =
    (base + extend32 ((last_seq + two32 - first_seq) % two32)) % two64

unfoldable pub record_in : ℕ → ℕ → ℕ → ℕ → ℕ → ProducerBatchLog → ProducerBatchLog
record_in now epoch first_seq last_seq base prod = record {
  last_epoch = epoch;
  last_seq = last_seq;
  last_offset = last_offset_of base first_seq last_seq;
  last_leader_epoch = prod.last_leader_epoch;
  last_timestamp = now;
  ring = set prod.ring prod.ring_head (record {
    first_seq = first_seq;
    last_seq = last_seq;
    base_offset = base;
    leader_epoch = minus_one32;
  });
  ring_head = (prod.ring_head + 1) % ring_size;
}

-- Record: the update of the producer's log in the map.
unfoldable pub record_batch : ℕ → ℕ → ℕ → ℕ → ℕ → ℕ → IdempotenceState → IdempotenceState
unfolding record_in new_producer_batch_log
record_batch now pid epoch first_seq last_seq base s =
    insert pid (record_in now epoch first_seq last_seq base (found_or_new epoch (lookup pid s))) s

-- A batch as the produce handler presents it to the gate.
pub record Batch : Type 0 where
  pub now : ℕ
  pub first_seq : ℕ
  pub last_seq : ℕ
  pub base_offset : ℕ

-- What becomes of a batch that passes the gate: AppendRaw gives it its base offset, the partition has no commit log,
-- or AppendRaw gives an error.
pub data Appending : Type 0 where
  appends no_commit_log append_fails : Appending

-- What the handler makes of a batch: it is appended and recorded, answered with the offset in the ring, refused by
-- Validate, or answered with ErrUnknownTopicOrPartition or ErrKafkaStorageError.
pub data Gated : Type 0 where
  recorded : Gated
  cached : ℕ → Gated
  refused : ValidateError → Gated
  unknown_topic_or_partition kafka_storage_error : Gated

abbrev pub append_after : ℕ → ℕ → Batch → Appending → IdempotenceState → IdempotenceState × Gated
append_after pid epoch b appends s =
    (record_batch b.now pid epoch b.first_seq b.last_seq b.base_offset s, recorded)
append_after pid epoch b no_commit_log s = (s, unknown_topic_or_partition)
append_after pid epoch b append_fails s = (s, kafka_storage_error)

abbrev pub gate_after :
    ℕ → ℕ → Batch → Appending → IdempotenceState × Verdict → IdempotenceState × Gated
gate_after pid epoch b a (s, accept) = append_after pid epoch b a s
gate_after pid epoch b a (s, duplicate base) = (s, cached base)
gate_after pid epoch b a (s, reject e) = (s, refused e)

-- The produce handler on a batch of one producer and epoch (api/produce_api.go), from Validate to Record. Validate,
-- AppendRaw and Record lock one by one: no other batch of the producer is handled between them.
unfoldable pub gate : ℕ → ℕ → Batch → Appending → IdempotenceState → IdempotenceState × Gated
unfolding validate record_batch
gate pid epoch b a s = gate_after pid epoch b a (validate b.now pid epoch b.first_seq b.last_seq s)
