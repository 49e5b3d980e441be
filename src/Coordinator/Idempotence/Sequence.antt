-- ===== src/Coordinator/Idempotence/Sequence.antt =====
-- What Validate gives after a batch is recorded: the next batch, a retry, an old epoch, other producers.
use kaf_go.Base.{ℕ, ◌+◌, ◌%◌, ◌^◌, ◌≤◌, ◌<◌, ◌≡◌, refl, arith, true, false}
use kaf_go.Base.{some, ◌&&◌, ◌==◌, if◌then◌else◌, slt32, if◌then◌else◌, slt32, slt16, two32}
use kaf_go.Base.Assoc.{lookup, erase, lookup-insert, lookup-erase}
use kaf_go.Coordinator.Idempotence.{
  producer_id_expiration_ms, max_int32, ProducerBatchLog, IdempotenceState, accept, duplicate,
  reject, out_of_order_sequence_number, invalid_producer_epoch, lookup_ring, found_or_new, validate,
  validate_sequence, validate_live, live, drop_expired, expired, record_in, record_batch,
}

-- Validate on a producer that is known, not expired and of the same epoch.
pub validate_known :
    (now pid epoch f l : ℕ) (s : IdempotenceState) (prod : ProducerBatchLog)
    → lookup pid s ≡ some prod
    → prod.last_epoch ≡ epoch
    → expired now prod ≡ false
    → validate now pid epoch f l s ≡ (s, validate_sequence prod f l)
unfolding validate validate_live live drop_expired
validate_known now pid epoch f l s prod found same fresh = rw (found, fresh, ← same) (ground arith)

module _ (now pid epoch f l base : ℕ) (s : IdempotenceState) where
  abbrev pub after : IdempotenceState
  after = record_batch now pid epoch f l base s

  abbrev pub recorded_log : ProducerBatchLog
  recorded_log = record_in now epoch f l base (found_or_new epoch (lookup pid s))

  lookup-after : lookup pid after ≡ some recorded_log
  unfolding record_batch
  lookup-after = ground (arith, lookup-insert pid pid recorded_log s)

  module _ (later : ℕ) (order : now ≤ later) (soon : later ≤ now + producer_id_expiration_ms)
      (room : later < 2 ^ 63) where
    validate-after :
        (f' l' : ℕ)
        → validate later pid epoch f' l' after ≡ (after, validate_sequence recorded_log f' l')
    validate-after f' l' =
        validate_known later pid epoch f' l' after recorded_log lookup-after
          (unfold record_in in refl) fresh
      where
        fresh : expired later recorded_log ≡ false
        fresh = unfold record_in expired in ground arith

-- A batch of the same producer and epoch within the hour, after a batch f to l below 2^31 - 1:
-- the one that starts at l + 1 is accepted, and any that starts above l + 1 is out of order.
-- The state stays.
pub validate_next :
    (now pid epoch f l base : ℕ) (s : IdempotenceState) (later f' l' : ℕ)
    → now ≤ later
    → later ≤ now + producer_id_expiration_ms
    → later < 2 ^ 63
    → l < max_int32
    → l < f'
    → f' < 2 ^ 31
    → validate later pid epoch f' l' (record_batch now pid epoch f l base s) ≡ (
      record_batch now pid epoch f l base s,
      (if f' == l + 1 then accept else reject out_of_order_sequence_number),
    )
validate_next now pid epoch f l base s later f' l' order soon room low above fits =
    rw (validate-after now pid epoch f l base s later order soon room f' l')
      (unfold validate_sequence record_in in ground arith)

-- The retry of a batch that is in the ring, within the hour: its first offset is given back,
-- whatever batch was recorded_log last, provided that batch ends below 2^31 - 1 and not before it.
pub validate_retry :
    (now pid epoch f l base : ℕ) (s : IdempotenceState) (later f' l' b : ℕ)
    → now ≤ later
    → later ≤ now + producer_id_expiration_ms
    → later < 2 ^ 63
    → l < max_int32
    → f' ≤ l
    → lookup_ring (record_in now epoch f l base (found_or_new epoch (lookup pid s))).ring f' l'
      ≡ some b
    → validate later pid epoch f' l' (record_batch now pid epoch f l base s)
      ≡ (record_batch now pid epoch f l base s, duplicate b)
validate_retry now pid epoch f l base s later f' l' b order soon room low old hit =
    rw (validate-after now pid epoch f l base s later order soon room f' l')
      (unfold validate_sequence in rw (last_test, second_test, third_test, hit))
  where
    prod : ProducerBatchLog
    prod = record_in now epoch f l base (found_or_new epoch (lookup pid s))

    last_test : (f' == (prod.last_seq + 1) % two32) ≡ false
    last_test = unfold record_in in ground arith

    second_test : ((f' == 0) && (prod.last_seq == max_int32)) ≡ false
    second_test = unfold record_in in ground arith

    third_test : slt32 ((prod.last_seq + 1) % two32) f' ≡ false
    third_test = unfold record_in in ground arith

-- At the top of the sequence numbers the retry is lost: after a batch that starts above 0 and ends
-- at 2^31 - 1, the same batch again within the hour is refused as out of order.
pub validate_retry_at_top :
    (now pid epoch f base : ℕ) (s : IdempotenceState) (later : ℕ)
    → now ≤ later
    → later ≤ now + producer_id_expiration_ms
    → later < 2 ^ 63
    → 0 < f
    → f ≤ max_int32
    → validate later pid epoch f max_int32 (record_batch now pid epoch f max_int32 base s)
      ≡ (record_batch now pid epoch f max_int32 base s, reject out_of_order_sequence_number)
validate_retry_at_top now pid epoch f base s later order soon room pos top =
    rw (validate-after now pid epoch f max_int32 base s later order soon room f max_int32)
      (unfold validate_sequence record_in in ground arith)

-- Producers do not disturb one another: whatever Validate and Record do for one producer, the
-- state of every other stays.
pub validate_others :
    (now pid epoch f l base : ℕ) (s : IdempotenceState) (j : ℕ)
    → (pid == j) ≡ false
    → (lookup j (validate now pid epoch f l s).0 ≡ lookup j s)
      × (lookup j (record_batch now pid epoch f l base s) ≡ lookup j s)
validate_others now pid epoch f l base s j ne = (
  unfold validate validate_live live drop_expired in
      ground (arith, lookup-erase pid j s, lookup-erase pid j (erase pid s)),
  unfold record_batch in
      ground (
        arith,
        lookup-insert pid j (record_in now epoch f l base (found_or_new epoch (lookup pid s))) s,
      ),
)

-- Fencing: once a batch of a newer epoch is recorded_log, every batch of an older epoch is refused
-- within the hour, whatever its sequence numbers, and changes nothing.
pub validate_fenced :
    (now pid epoch f l base : ℕ) (s : IdempotenceState) (later old f' l' : ℕ)
    → now ≤ later
    → later ≤ now + producer_id_expiration_ms
    → later < 2 ^ 63
    → slt16 old epoch ≡ true
    → validate later pid old f' l' (record_batch now pid epoch f l base s)
      ≡ (record_batch now pid epoch f l base s, reject invalid_producer_epoch)
unfolding record_in record_batch
validate_fenced now pid epoch f l base s later old f' l' order soon room below =
    unfold validate validate_live live drop_expired in
    rw (lookup-after now pid epoch f l base s, fresh, below)
  where
    fresh : expired later (record_in now epoch f l base (found_or_new epoch (lookup pid s))) ≡ false
    fresh = unfold record_in expired in ground arith
