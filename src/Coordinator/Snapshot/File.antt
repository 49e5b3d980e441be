-- ===== src/Coordinator/Snapshot/File.antt =====
-- WriteProducerSnapshot and decodeSnapshotFile of coordinator/producer_snapshot.go: a file that is
-- written and read back.
use kaf_go.Base.{
  ap, ◌∙◌, ℕ, suc, ◌+◌, ◌-◌, ◌≤◌, ◌<◌, ◌≡◌, refl, arith, true, false, List, [], ◌∷◌, ◌++◌, map,
}
use kaf_go.Base.{
  ◌==◌, length, take, drop, length-append, take-append_length, drop-append_length, ltb, All, two32,
  two64,
}
use kaf_go.Protocol.Writer.{fixed_bytes}
use kaf_go.Protocol.Reader.{big_endian}
use kaf_go.Protocol.RoundTrip.Fixed.{value_32, value_64}
use kaf_go.Storage.Clip.{field}
use kaf_go.Coordinator.Snapshot.{
  ProducerSnapshotEntry, decoded, entries_of, encode_entries, decode_entries, and_entry,
  decode_producer_state_entry, encode_producer_state_entry, encode_body, decode_body,
  encode_snapshot, decode_snapshot, producer_snapshot_magic, producer_snapshot_version,
}
use kaf_go.Coordinator.Snapshot.Entry.{IsEntry, compacted_entry, decode_entry-encode}

decode_entries-first :
    (n : ℕ) (raw rest : List ℕ) (e : ProducerSnapshotEntry)
    → decode_producer_state_entry raw ≡ decoded e rest
    → decode_entries (suc n) raw ≡ and_entry e (decode_entries n rest)
unfolding decode_entries
decode_entries-first n raw rest e h = rw (h, decode_entries) refl

decode_entries-encode :
    (entries : List ProducerSnapshotEntry)
    → All IsEntry entries
    → decode_entries (length entries) (encode_entries entries)
      ≡ decoded (map compacted_entry entries) []
unfolding decode_entries encode_entries
decode_entries-encode [] h = refl
decode_entries-encode (e ∷ entries) h =
    decode_entries-first (length entries) (encode_producer_state_entry e ++ encode_entries entries)
      (encode_entries entries) (compacted_entry e)
      (decode_entry-encode e (encode_entries entries) h.0)
    ∙ ap (and_entry (compacted_entry e)) (decode_entries-encode entries h.1)

body_bytes :
    (base : ℕ) (entries : List ProducerSnapshotEntry)
    → drop 18 (encode_body base entries) ≡ encode_entries entries
unfolding encode_body fixed_bytes
body_bytes base entries = refl

length-encode_body :
    (base : ℕ) (entries : List ProducerSnapshotEntry)
    → length (encode_body base entries) ≡ 18 + length (encode_entries entries)
unfolding encode_body fixed_bytes
length-encode_body base entries = omega arith

body_magic :
    (base : ℕ) (entries : List ProducerSnapshotEntry)
    → field (encode_body base entries) 0 4 ≡ producer_snapshot_magic
unfolding encode_body fixed_bytes big_endian
body_magic base entries = refl

body_version :
    (base : ℕ) (entries : List ProducerSnapshotEntry)
    → field (encode_body base entries) 4 2 ≡ producer_snapshot_version
unfolding encode_body fixed_bytes big_endian
body_version base entries = refl

body_base :
    (base : ℕ) (entries : List ProducerSnapshotEntry)
    → base < two64
    → field (encode_body base entries) 6 8 ≡ base
unfolding encode_body fixed_bytes
body_base base entries fits = value_64 base fits

body_count :
    (base : ℕ) (entries : List ProducerSnapshotEntry)
    → length entries < two32
    → field (encode_body base entries) 14 4 ≡ length entries
unfolding encode_body fixed_bytes
body_count base entries fits = value_32 (length entries) fits

==-refl : (n : ℕ) → (n == n) ≡ true
==-refl n = ground arith

decode_body-encode :
    (base : ℕ) (entries : List ProducerSnapshotEntry)
    → base < two64
    → length entries < two32
    → All IsEntry entries
    → decode_body base (encode_body base entries) ≡ entries_of (map compacted_entry entries)
unfolding decode_body
decode_body-encode base entries fits few h =
    rw
      (
        body_magic base entries,
        body_version base entries,
        body_base base entries fits,
        ==-refl base,
        body_count base entries few,
        body_bytes base entries,
        decode_entries-encode entries h,
      )
      refl

length-four : (v : ℕ) → length (fixed_bytes 4 v) ≡ 4
unfolding fixed_bytes
length-four v = refl

take_four : (v : ℕ) → take 4 (fixed_bytes 4 v) ≡ fixed_bytes 4 v
unfolding fixed_bytes
take_four v = refl

module _ (crc : List ℕ → ℕ) (crc_fits : (bytes : List ℕ) → crc bytes < two32) where
  -- The four bytes of a value behind a body are the checksum that is read.
  checksum_field :
      (body : List ℕ) (v : ℕ) → v < two32 → field (body ++ fixed_bytes 4 v) (length body) 4 ≡ v
  checksum_field body v fits =
      rw (drop-append_length body (fixed_bytes 4 v), take_four v) (value_32 v fits)

  checked-decode :
      (base : ℕ) (body : List ℕ)
      → 18 ≤ length body
      → decode_snapshot crc base (body ++ fixed_bytes 4 (crc body)) ≡ decode_body base body
  unfolding decode_snapshot
  checked-decode base body long =
      let size = length-append body (fixed_bytes 4 (crc body)) in
      let four = length-four (crc body) in
      let short : ltb (length (body ++ fixed_bytes 4 (crc body))) 22 ≡ false =
        ground (arith, size, four) in
      let back : length (body ++ fixed_bytes 4 (crc body)) - 4 ≡ length body =
        omega (arith, size, four) in
      rw
        (
          short,
          back,
          take-append_length body (fixed_bytes 4 (crc body)),
          checksum_field body (crc body) (crc_fits body),
          ==-refl (crc body),
        )
        refl

  -- A snapshot that WriteProducerSnapshot wrote is decoded, with its own base offset, into the entries that were
  -- written, the ring of each compacted: the slots in use in their order, and the next slot behind them.
  pub decode_snapshot-encode :
      (base : ℕ) (entries : List ProducerSnapshotEntry)
      → base < two64
      → length entries < two32
      → All IsEntry entries
      → decode_snapshot crc base (encode_snapshot crc base entries)
        ≡ entries_of (map compacted_entry entries)
  unfolding encode_snapshot
  decode_snapshot-encode base entries fits few h =
      checked-decode base (encode_body base entries)
        (omega (arith, length-encode_body base entries))
      ∙ decode_body-encode base entries fits few h
