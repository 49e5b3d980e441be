-- ===== src/Coordinator/Snapshot/Recover/Newest.antt =====
-- A full ring that is written and read back, and Record behind it.
use kaf_go.Base.{
  ℕ, ◌≡◌, refl, arith, false, [], ◌∷◌, none, some, ◌&&◌, ◌==◌, slt32, All, ap, ◌∙◌, sym, append-nil,
}
use kaf_go.Coordinator.Idempotence.{ProducerRingSlot, ProducerBatchLog, lookup_ring, record_in}
use kaf_go.Coordinator.Snapshot.{
  ProducerSnapshotEntry, used, decoded, encode_producer_state_entry, decode_producer_state_entry,
}
use kaf_go.Coordinator.Snapshot.Entry.{IsEntry, compacted, compacted_entry, decode_entry-encode}

abbrev InUse : ProducerRingSlot → Type 0
InUse s = slt32 s.first_seq 0 ≡ false

-- The slot does not hold the batch of the other slot.
abbrev Other : ProducerRingSlot → ProducerRingSlot → Type 0
Other a s = ((s.first_seq == a.first_seq) && (s.last_seq == a.last_seq)) ≡ false

abbrev pub full_log :
    ProducerBatchLog
    → ProducerRingSlot
    → ProducerRingSlot
    → ProducerRingSlot
    → ProducerRingSlot
    → ProducerRingSlot
    → ProducerBatchLog
full_log log a b c d e = record log { ring = a ∷ b ∷ c ∷ d ∷ e ∷ []; ring_head = 1 }

used_all :
    (a b c d e : ProducerRingSlot)
    → All InUse (a ∷ b ∷ c ∷ d ∷ e ∷ [])
    → used (a ∷ b ∷ c ∷ d ∷ e ∷ []) ≡ a ∷ b ∷ c ∷ d ∷ e ∷ []
unfolding used
used_all a b c d e (ha, (hb, (hc, (hd, (he, last))))) = rw (ha, hb, hc, hd, he) refl

compacted_full :
    (log : ProducerBatchLog) (a b c d e : ProducerRingSlot)
    → All InUse (a ∷ b ∷ c ∷ d ∷ e ∷ [])
    → compacted (full_log log a b c d e)
      ≡ record log { ring = a ∷ b ∷ c ∷ d ∷ e ∷ []; ring_head = 0 }
unfolding compacted
compacted_full log a b c d e h = rw (used_all a b c d e h) refl

found :
    (log : ProducerBatchLog) (now epoch f l base : ℕ) (a b c d e : ProducerRingSlot)
    → InUse a
    → lookup_ring
        (record_in now epoch f l base (full_log log a b c d e)).ring
        a.first_seq
        a.last_seq
      ≡ some a.base_offset
unfolding record_in lookup_ring
found log now epoch f l base a b c d e ha = ground arith

lost :
    (log : ProducerBatchLog) (now epoch : ℕ) (a b c d e new : ProducerRingSlot)
    → All (Other a) (b ∷ c ∷ d ∷ e ∷ new ∷ [])
    → lookup_ring
        (record_in now epoch new.first_seq new.last_seq new.base_offset
          (record log { ring = a ∷ b ∷ c ∷ d ∷ e ∷ []; ring_head = 0 })).ring
        a.first_seq
        a.last_seq
      ≡ none
unfolding record_in lookup_ring
lost log now epoch a b c d e new (ob, (oc, (od, (oe, (on, last))))) = ground arith

abbrev pub full_entry :
    ℕ
    → ProducerBatchLog
    → ProducerRingSlot
    → ProducerRingSlot
    → ProducerRingSlot
    → ProducerRingSlot
    → ProducerRingSlot
    → ProducerSnapshotEntry
full_entry pid log a b c d e = record { producer_id = pid; log = full_log log a b c d e }

read_back :
    (e : ProducerSnapshotEntry)
    → IsEntry e
    → decode_producer_state_entry (encode_producer_state_entry e) ≡ decoded (compacted_entry e) []
read_back e h =
    ap decode_producer_state_entry (sym (append-nil (encode_producer_state_entry e)))
    ∙ decode_entry-encode e [] h

-- A producer's entry whose fields fit their types, with a full ring whose newest batch a stands in slot 0 and differs
-- from the others and from the next batch: when the next batch is recorded, a retry of a is still found; but the entry
-- that is decoded from what encodeProducerStateEntry wrote of it is one in whose ring the next batch takes the slot of
-- a, so that a retry of a is not found.
pub lookup_ring-restored :
    (pid : ℕ) (log : ProducerBatchLog) (now epoch : ℕ) (a b c d e new : ProducerRingSlot)
    → IsEntry (full_entry pid log a b c d e)
    → All InUse (a ∷ b ∷ c ∷ d ∷ e ∷ [])
    → All (Other a) (b ∷ c ∷ d ∷ e ∷ new ∷ [])
    → (lookup_ring
          (record_in now epoch new.first_seq new.last_seq new.base_offset
            (full_log log a b c d e)).ring
          a.first_seq
          a.last_seq
        ≡ some a.base_offset)
      × ((restored : ProducerSnapshotEntry) × (decode_producer_state_entry
              (encode_producer_state_entry (full_entry pid log a b c d e))
            ≡ decoded restored [])
          × (lookup_ring
                (record_in now epoch new.first_seq new.last_seq new.base_offset restored.log).ring
                a.first_seq
                a.last_seq
              ≡ none))
lookup_ring-restored pid log now epoch a b c d e new fits h others = (
  found log now epoch new.first_seq new.last_seq new.base_offset a b c d e h.0,
  (
    compacted_entry (full_entry pid log a b c d e),
    read_back (full_entry pid log a b c d e) fits,
    ap
          (λ l.
            lookup_ring (record_in now epoch new.first_seq new.last_seq new.base_offset l).ring
              a.first_seq a.last_seq)
          (compacted_full log a b c d e h)
        ∙ lost log now epoch a b c d e new others,
  ),
)
