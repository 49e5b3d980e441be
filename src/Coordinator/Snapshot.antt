-- ===== src/Coordinator/Snapshot.antt =====
-- coordinator/producer_snapshot.go: the snapshots of the producer states, as bytes and as files of
-- a directory that can be read. The checksum of hash/crc32 is a parameter. A snapshot file is known
-- by its base offset, which its name spells out.
pub mod Entry
pub mod File
pub mod Latest
pub mod Recover
mod Tests
use kaf_go.Base.{
  ℕ, zero, suc, ◌+◌, ◌-◌, ◌*◌, ◌%◌, Bool, true, false, List, [], ◌∷◌, ◌++◌, Option, none, some,
}
use kaf_go.Base.{◌==◌, if◌then◌else◌, length, take, drop, ltb, slt32, slt64}
use kaf_go.Base.Assoc.{Assoc, lookup, insert, erase}
use kaf_go.Protocol.Writer.{fixed_bytes}
use kaf_go.Storage.Clip.{field}
use kaf_go.Coordinator.Idempotence.{
  ring_size, minus_one32, ProducerRingSlot, ProducerBatchLog, empty_slot, IdempotenceState,
}

pub record ProducerSnapshotEntry : Type 0 where
  pub producer_id : ℕ
  pub log : ProducerBatchLog

-- Snapshot and Restore of idempotence_state.go; the source leaves the order of the entries open.
unfoldable pub snapshot : IdempotenceState → List ProducerSnapshotEntry
snapshot [] = []
snapshot ((pid, log) ∷ s) = record { producer_id = pid; log = log } ∷ snapshot s

abbrev pub restore_from : IdempotenceState → List ProducerSnapshotEntry → IdempotenceState
restore_from s [] = s
restore_from s (e ∷ entries) = restore_from (insert e.producer_id e.log s) entries

unfoldable pub restore : List ProducerSnapshotEntry → IdempotenceState
restore entries = restore_from [] entries

abbrev pub producer_state_header_size : ℕ
producer_state_header_size = 35

abbrev pub producer_state_ring_slot_bytes : ℕ
producer_state_ring_slot_bytes = 20

-- The slots that are in use: FirstSeq is not negative.
unfoldable pub used : List ProducerRingSlot → List ProducerRingSlot
used [] = []
used (slot ∷ ring) = let rest = used ring in if slt32 slot.first_seq 0 then rest else slot ∷ rest

unfoldable pub encode_slot : ProducerRingSlot → List ℕ
unfolding fixed_bytes
encode_slot slot =
    fixed_bytes 4 slot.first_seq
    ++ (fixed_bytes 4 slot.last_seq
        ++ (fixed_bytes 8 slot.base_offset ++ fixed_bytes 4 slot.leader_epoch))

unfoldable pub encode_slots : List ProducerRingSlot → List ℕ
unfolding encode_slot
encode_slots [] = []
encode_slots (slot ∷ ring) = encode_slot slot ++ encode_slots ring

abbrev pub ring_len : List ProducerRingSlot → ℕ
ring_len slots = if ltb 255 (length slots) then 255 else length slots

unfoldable pub encode_header : ProducerSnapshotEntry → List ℕ
unfolding fixed_bytes used
encode_header e =
    fixed_bytes 8 e.producer_id
    ++ (fixed_bytes 2 e.log.last_epoch
        ++ (fixed_bytes 4 e.log.last_seq
            ++ (fixed_bytes 8 e.log.last_offset
                ++ (fixed_bytes 4 e.log.last_leader_epoch
                    ++ (fixed_bytes 8 e.log.last_timestamp
                        ++ fixed_bytes 1 (ring_len (used e.log.ring)))))))

-- encodeProducerStateEntry, on an empty buffer.
unfoldable pub encode_producer_state_entry : ProducerSnapshotEntry → List ℕ
unfolding encode_header encode_slots used
encode_producer_state_entry e = encode_header e ++ encode_slots (used e.log.ring)

pub data SnapshotError : Type 0 where
  unexpected_eof crc_mismatch bad_magic : SnapshotError
  unsupported_version base_mismatch ring_too_long : SnapshotError

-- A value with the bytes behind it, or an error.
pub data Decoded {ℓ} (A : Type ℓ) : Type ℓ where
  decoded : A → List ℕ → Decoded A
  refused : SnapshotError → Decoded A

-- The loop over the slots; the first list is `raw[off:]`.
unfoldable pub decode_slots : ℕ → List ℕ → List ProducerRingSlot
decode_slots zero raw = []
decode_slots (suc n) raw =
    record {
      first_seq = field raw 0 4;
      last_seq = field raw 4 4;
      base_offset = field raw 8 8;
      leader_epoch = field raw 16 4;
    }
    ∷ decode_slots n (drop 20 raw)

abbrev pub empty_slots : ℕ → List ProducerRingSlot
empty_slots zero = []
empty_slots (suc n) = empty_slot ∷ empty_slots n

-- The entry with so many slots, whose bytes are `slots`.
abbrev pub entry_from : List ℕ → ℕ → List ℕ → ProducerSnapshotEntry
entry_from raw n slots = record {
  producer_id = field raw 0 8;
  log = record {
    last_epoch = field raw 8 2;
    last_seq = field raw 10 4;
    last_offset = field raw 14 8;
    last_leader_epoch = field raw 22 4;
    last_timestamp = field raw 26 8;
    ring = decode_slots n slots ++ empty_slots (ring_size - n);
    ring_head = n % ring_size;
  };
}

abbrev pub decode_ring : List ℕ → ℕ → List ℕ → Decoded ProducerSnapshotEntry
decode_ring raw n slots =
    if ltb ring_size n
    then refused ring_too_long
    else if ltb (length slots) (n * producer_state_ring_slot_bytes)
    then refused unexpected_eof
    else decoded (entry_from raw n slots) (drop (n * producer_state_ring_slot_bytes) slots)

unfoldable pub decode_producer_state_entry : List ℕ → Decoded ProducerSnapshotEntry
unfolding decode_slots
decode_producer_state_entry raw =
    if ltb (length raw) producer_state_header_size
    then refused unexpected_eof
    else decode_ring raw (field raw 34 1) (drop producer_state_header_size raw)

unfoldable pub encode_entries : List ProducerSnapshotEntry → List ℕ
unfolding encode_producer_state_entry
encode_entries [] = []
encode_entries (e ∷ entries) = encode_producer_state_entry e ++ encode_entries entries

abbrev pub and_entry :
    ProducerSnapshotEntry
    → Decoded (List ProducerSnapshotEntry)
    → Decoded (List ProducerSnapshotEntry)
and_entry e (decoded entries rest) = decoded (e ∷ entries) rest
and_entry e (refused err) = refused err

-- The loop of decodeSnapshotFile over the entries.
unfoldable pub decode_entries : ℕ → List ℕ → Decoded (List ProducerSnapshotEntry)
unfolding decode_producer_state_entry
decode_entries zero raw = decoded [] raw
decode_entries (suc n) raw = elim (decode_producer_state_entry raw) [
  | decoded e rest ↦ and_entry e (decode_entries n rest)
  | refused err ↦ refused err
]

abbrev pub producer_snapshot_magic : ℕ
producer_snapshot_magic = 0x4B41464B

abbrev pub producer_snapshot_version : ℕ
producer_snapshot_version = 1

-- The bytes before the checksum.
unfoldable pub encode_body : ℕ → List ProducerSnapshotEntry → List ℕ
unfolding fixed_bytes encode_entries
encode_body base entries =
    fixed_bytes 4 producer_snapshot_magic
    ++ (fixed_bytes 2 producer_snapshot_version
        ++ (fixed_bytes 8 base ++ (fixed_bytes 4 (length entries) ++ encode_entries entries)))

pub data Snapshot : Type 0 where
  entries_of : List ProducerSnapshotEntry → Snapshot
  fails : SnapshotError → Snapshot

abbrev pub entries_or : Decoded (List ProducerSnapshotEntry) → Snapshot
entries_or (decoded entries rest) = entries_of entries
entries_or (refused err) = fails err

-- The tests on a body whose checksum is right.
unfoldable pub decode_body : ℕ → List ℕ → Snapshot
unfolding decode_entries
decode_body expected_base body =
    if field body 0 4 == producer_snapshot_magic
    then (if field body 4 2 == producer_snapshot_version
        then (if field body 6 8 == expected_base
            then entries_or (decode_entries (field body 14 4) (drop 18 body))
            else fails base_mismatch)
        else fails unsupported_version)
    else fails bad_magic

-- The directory of one partition: its snapshot files by base offset.
abbrev pub SnapshotDir : Type 0
SnapshotDir = Assoc (List ℕ)

-- What creating, writing, syncing, closing and renaming the file do.
pub data Saved : Type 0 where
  saved save_fails : Saved

module _ (crc : List ℕ → ℕ) where
  -- What WriteProducerSnapshot writes.
  unfoldable pub encode_snapshot : ℕ → List ProducerSnapshotEntry → List ℕ
  unfolding encode_body fixed_bytes
  encode_snapshot base entries =
      encode_body base entries ++ fixed_bytes 4 (crc (encode_body base entries))

  -- decodeSnapshotFile, on the bytes of the file.
  unfoldable pub decode_snapshot : ℕ → List ℕ → Snapshot
  unfolding decode_body
  decode_snapshot expected_base raw =
      if ltb (length raw) 22
      then fails unexpected_eof
      else if crc (take (length raw - 4) raw) == field raw (length raw - 4) 4
      then decode_body expected_base (take (length raw - 4) raw)
      else fails crc_mismatch

  -- WriteProducerSnapshot; the Bool is err == nil. The file takes its place by its renaming.
  abbrev pub write_snapshot :
      Saved → ℕ → List ProducerSnapshotEntry → SnapshotDir → Bool × SnapshotDir
  write_snapshot saved base entries dir = (true, insert base (encode_snapshot base entries) dir)
  write_snapshot save_fails base entries dir = (false, dir)

abbrev pub insert_sorted : ℕ → List ℕ → List ℕ
insert_sorted b [] = b ∷ []
insert_sorted b (c ∷ bases) =
    let rest = insert_sorted b bases in if slt64 c b then c ∷ rest else b ∷ c ∷ bases

-- listSnapshotFiles: the bases in order.
unfoldable pub list_snapshot_files : SnapshotDir → List ℕ
list_snapshot_files [] = []
list_snapshot_files ((base, raw) ∷ dir) = insert_sorted base (list_snapshot_files dir)
