-- ===== src/Coordinator/Snapshot/Entry.antt =====
-- An entry of a snapshot that is written and read back.
use kaf_go.Base.{
  Bool-cases, inl, inr, ap, ◌∙◌, sym, ℕ, suc, ◌+◌, ◌-◌, ◌*◌, ◌%◌, ◌^◌, ◌≤◌, ◌<◌, ◌≡◌, refl, arith,
  false, List, [], ◌∷◌, ◌++◌,
}
use kaf_go.Base.{
  length, drop, length-append, drop-append_length, append_assoc, ltb, slt32, All, two32, two64,
}
use kaf_go.Storage.Clip.{field}
use kaf_go.Protocol.Writer.{fixed_bytes}
use kaf_go.Protocol.RoundTrip.Fixed.{value_8, value_16, value_32, value_64}
use kaf_go.Coordinator.Idempotence.{ring_size, ProducerRingSlot, ProducerBatchLog}
use kaf_go.Coordinator.Snapshot.{
  ProducerSnapshotEntry, used, encode_slot, encode_slots, ring_len, encode_header,
  encode_producer_state_entry, decoded, decode_slots, empty_slots, entry_from, decode_ring,
  decode_producer_state_entry,
}

-- The fields fit their types.
pub record IsSlot (s : ProducerRingSlot) : Type 0 where
  pub first : s.first_seq < two32
  pub last : s.last_seq < two32
  pub base : s.base_offset < two64
  pub leader : s.leader_epoch < two32

pub record IsEntry (e : ProducerSnapshotEntry) : Type 0 where
  pub pid : e.producer_id < two64
  pub epoch : e.log.last_epoch < 2 ^ 16
  pub seq : e.log.last_seq < two32
  pub offset : e.log.last_offset < two64
  pub leader : e.log.last_leader_epoch < two32
  pub timestamp : e.log.last_timestamp < two64
  pub slots : All IsSlot e.log.ring
  pub five : length e.log.ring ≡ ring_size

-- The log that is read back: the slots in use stand first, and the next goes behind them.
unfoldable pub compacted : ProducerBatchLog → ProducerBatchLog
unfolding used
compacted log = record log {
  ring = used log.ring ++ empty_slots (ring_size - length (used log.ring));
  ring_head = length (used log.ring) % ring_size;
}

abbrev pub compacted_entry : ProducerSnapshotEntry → ProducerSnapshotEntry
compacted_entry e = record e { log = compacted e.log }

slot_bytes : (s : ProducerRingSlot) (rest : List ℕ) → drop 20 (encode_slot s ++ rest) ≡ rest
unfolding encode_slot fixed_bytes
slot_bytes s rest = refl

abbrev slot : ℕ → ℕ → ℕ → ℕ → ProducerRingSlot
slot a b c d = record { first_seq = a; last_seq = b; base_offset = c; leader_epoch = d }

slot-ext :
    {a b c d a' b' c' d' : ℕ} → a ≡ a' → b ≡ b' → c ≡ c' → d ≡ d' → slot a b c d ≡ slot a' b' c' d'
slot-ext p q r s i = slot (p i) (q i) (r i) (s i)

decode_slots-first :
    (s : ProducerRingSlot) (n : ℕ) (rest : List ℕ)
    → IsSlot s
    → decode_slots (suc n) (encode_slot s ++ rest) ≡ s ∷ decode_slots n rest
unfolding decode_slots encode_slot fixed_bytes
decode_slots-first s n rest h =
    ap (λ t. t ∷ decode_slots n rest)
      (slot-ext (value_32 s.first_seq h.first) (value_32 s.last_seq h.last)
        (value_64 s.base_offset h.base) (value_32 s.leader_epoch h.leader))

decode_slots-encode :
    (slots : List ProducerRingSlot) (rest : List ℕ)
    → All IsSlot slots
    → decode_slots (length slots) (encode_slots slots ++ rest) ≡ slots
unfolding encode_slots
decode_slots-encode [] rest h = unfold decode_slots in refl
decode_slots-encode (s ∷ slots) rest h =
    ap (decode_slots (suc (length slots))) (append_assoc (encode_slot s) (encode_slots slots) rest)
    ∙ decode_slots-first s (length slots) (encode_slots slots ++ rest) h.0
    ∙ ap (λ t. s ∷ t) (decode_slots-encode slots rest h.1)

pub length-encode_slots :
    (slots : List ProducerRingSlot) → length (encode_slots slots) ≡ length slots * 20
unfolding encode_slots encode_slot fixed_bytes
length-encode_slots [] = refl
length-encode_slots (s ∷ slots) = omega (arith, length-encode_slots slots)

used-IsSlot : (ring : List ProducerRingSlot) → All IsSlot ring → All IsSlot (used ring)
unfolding used
used-IsSlot [] h = tt
used-IsSlot (s ∷ ring) h = elim (Bool-cases (slt32 s.first_seq 0)) [
  | inl e ↦ rw (e) (used-IsSlot ring h.1)
  | inr e ↦ rw (e) (h.0, used-IsSlot ring h.1)
]

length-used : (ring : List ProducerRingSlot) → length (used ring) ≤ length ring
unfolding used
length-used [] = omega arith
length-used (s ∷ ring) = ground (arith, length-used ring)

header_bytes :
    (e : ProducerSnapshotEntry) (rest : List ℕ) → drop 35 (encode_header e ++ rest) ≡ rest
unfolding encode_header fixed_bytes
header_bytes e rest = refl

length-encode_header :
    (e : ProducerSnapshotEntry) (rest : List ℕ)
    → length (encode_header e ++ rest) ≡ 35 + length rest
unfolding encode_header fixed_bytes
length-encode_header e rest = omega arith

few_used : (e : ProducerSnapshotEntry) → IsEntry e → length (used e.log.ring) ≤ 5
few_used e h = omega (arith, length-used e.log.ring, h.five)

ring_len-used : (slots : List ProducerRingSlot) → length slots ≤ 5 → ring_len slots ≡ length slots
ring_len-used slots few = ground arith

ring_len_field :
    (e : ProducerSnapshotEntry) (rest : List ℕ)
    → IsEntry e
    → field (encode_header e ++ rest) 34 1 ≡ length (used e.log.ring)
unfolding encode_header fixed_bytes
ring_len_field e rest h =
    let few = ring_len-used (used e.log.ring) (few_used e h) in
    value_8 (ring_len (used e.log.ring)) (omega (arith, few, few_used e h)) ∙ few

entry_from-encode :
    (e : ProducerSnapshotEntry) (behind rest : List ℕ)
    → IsEntry e
    → entry_from
        (encode_header e ++ behind)
        (length (used e.log.ring))
        (encode_slots (used e.log.ring) ++ rest)
      ≡ compacted_entry e
unfolding encode_header fixed_bytes compacted
entry_from-encode e behind rest h i = record {
  producer_id = value_64 e.producer_id h.pid i;
  log = record {
    last_epoch = value_16 e.log.last_epoch h.epoch i;
    last_seq = value_32 e.log.last_seq h.seq i;
    last_offset = value_64 e.log.last_offset h.offset i;
    last_leader_epoch = value_32 e.log.last_leader_epoch h.leader i;
    last_timestamp = value_64 e.log.last_timestamp h.timestamp i;
    ring =
        decode_slots-encode (used e.log.ring) rest (used-IsSlot e.log.ring h.slots) i
        ++ empty_slots (ring_size - length (used e.log.ring));
    ring_head = length (used e.log.ring) % ring_size;
  };
}

drop_size : (xs : List ℕ) (n : ℕ) (rest : List ℕ) → length xs ≡ n → drop n (xs ++ rest) ≡ rest
drop_size xs n rest e = ap (λ k. drop k (xs ++ rest)) (sym e) ∙ drop-append_length xs rest

decode_ring-encode :
    (e : ProducerSnapshotEntry) (behind rest : List ℕ)
    → IsEntry e
    → decode_ring
        (encode_header e ++ behind)
        (length (used e.log.ring))
        (encode_slots (used e.log.ring) ++ rest)
      ≡ decoded (compacted_entry e) rest
decode_ring-encode e behind rest h =
    let slots = used e.log.ring in
    let few : ltb ring_size (length slots) ≡ false = ground (arith, few_used e h) in
    let size = length-encode_slots slots in
    let long = length-append (encode_slots slots) rest in
    let there : ltb (length (encode_slots slots ++ rest)) (length slots * 20) ≡ false =
      ground (arith, size, long) in
    rw (few, there, entry_from-encode e behind rest h)
      (ap (decoded (compacted_entry e))
        (drop_size (encode_slots slots) (length slots * 20) rest size))

decode_whole-encode :
    (e : ProducerSnapshotEntry) (rest : List ℕ)
    → IsEntry e
    → decode_producer_state_entry (encode_header e ++ (encode_slots (used e.log.ring) ++ rest))
      ≡ decoded (compacted_entry e) rest
unfolding decode_producer_state_entry
decode_whole-encode e rest h =
    let behind = encode_slots (used e.log.ring) ++ rest in
    let long : ltb (length (encode_header e ++ behind)) 35 ≡ false =
      ground (arith, length-encode_header e behind) in
    rw (long, ring_len_field e behind h, header_bytes e behind) (decode_ring-encode e behind rest h)

-- Decoding what encodeProducerStateEntry wrote gives the entry with its ring compacted, and the bytes behind.
pub decode_entry-encode :
    (e : ProducerSnapshotEntry) (rest : List ℕ)
    → IsEntry e
    → decode_producer_state_entry (encode_producer_state_entry e ++ rest)
      ≡ decoded (compacted_entry e) rest
unfolding encode_producer_state_entry
decode_entry-encode e rest h =
    ap decode_producer_state_entry
      (append_assoc (encode_header e) (encode_slots (used e.log.ring)) rest)
    ∙ decode_whole-encode e rest h
