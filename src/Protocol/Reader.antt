-- ===== src/Protocol/Reader.antt =====
-- The fixed-size and length-prefixed reads of protocol/reader.go.
use kaf_go.Base.{ℕ, zero, suc, ◌+◌, ◌-◌, ◌*◌, ◌/◌, ◌%◌, ◌^◌, List, [], ◌∷◌, Bool, not}
use kaf_go.Base.{Option, none, some, bit_and, bit_or, bit_xor, length}
use kaf_go.Base.{
  ltb, leb, ◌==◌, if◌then◌else◌, two64, slt16, slt32, slt64, extend16, extend32, ◌&&◌,
}
use kaf_go.Protocol.Outcome.{
  Outcome, ok, fail, panic, diverge, eof, uvarint_overflow, invalid_length, Reader, M, ◌>>=◌, ◌>>◌,
  pure, throw, require, slice, chunk,
}

-- r.Remaining() and r.Done()
unfoldable pub remaining : Reader → ℕ
remaining r = (length r.buff + two64 - r.pos) % two64

unfoldable pub done : Reader → Bool
done r = not (slt64 r.pos (length r.buff))

abbrev pub keep_pos : Reader → Outcome (List ℕ) → Outcome (List ℕ × Reader)
keep_pos r (ok raw) = ok (raw, r)
keep_pos r (fail e) = fail e
keep_pos r panic = panic
keep_pos r diverge = diverge

-- A copy of the next n bytes; the position stays.
unfoldable pub read_raw_bytes : ℕ → M (List ℕ)
unfolding require slice done
read_raw_bytes n r =
    if done r
    then fail eof
    else (require n >>= λ _ s. keep_pos s (slice s.buff s.pos ((s.pos + n) % two64))) r

-- binary.BigEndian over the bytes read.
unfoldable pub big_endian : ℕ → List ℕ → ℕ
big_endian acc [] = acc
big_endian acc (b ∷ bs) = big_endian (acc * 256 + b) bs

unfoldable pub read_fixed : ℕ → M ℕ
unfolding require chunk big_endian
read_fixed n = do require n; bytes ← chunk n; pure (big_endian 0 bytes)

unfoldable pub read_bool : M Bool
unfolding read_fixed
read_bool = do b ← read_fixed 1; pure (not (b == 0))

unfoldable pub read_int8 : M ℕ
unfolding read_fixed
read_int8 = read_fixed 1

unfoldable pub read_int16 : M ℕ
unfolding read_fixed
read_int16 = read_fixed 2

unfoldable pub read_int32 : M ℕ
unfolding read_fixed
read_int32 = read_fixed 4

unfoldable pub read_int64 : M ℕ
unfolding read_fixed
read_int64 = read_fixed 8

unfoldable pub read_uint32 : M ℕ
unfolding read_fixed
read_uint32 = read_fixed 4

-- The loop of ReadUVarInt with `result` and `shift`; ten rounds are enough for any input.
unfoldable pub uvarint_loop : ℕ → ℕ → ℕ → M ℕ
uvarint_loop zero result shift = λ r. diverge
uvarint_loop (suc rounds) result shift = do
  b ← read_fixed 1
  let result' = bit_or result (bit_and b 0x7f * 2 ^ shift % two64)
  if shift == 63 && ltb 1 b
      then throw uvarint_overflow
      else if ltb b 0x80
      then pure result'
      else if leb 64 (shift + 7)
      then throw uvarint_overflow
      else uvarint_loop rounds result' (shift + 7)

unfoldable pub read_uvarint : M ℕ
unfolding uvarint_loop read_fixed
read_uvarint = uvarint_loop 10 0 0

-- (uv >> 1) ^ -(uv & 1)
unfoldable pub unzigzag : ℕ → ℕ
unzigzag uv = bit_xor (uv / 2) ((two64 - bit_and uv 1) % two64)

-- ReadVarInt; ReadVarint and ReadVarlong have the same body.
unfoldable pub read_varint : M ℕ
unfolding read_uvarint unzigzag
read_varint = do uv ← read_uvarint; pure (unzigzag uv)

unfoldable pub read_uuid : M (List ℕ)
unfolding require chunk
read_uuid = do require 16; chunk 16

-- The int n of a length field, then its bytes.
unfoldable pub read_counted : ℕ → M (List ℕ)
unfolding require chunk
read_counted n = do require n; chunk n

unfoldable pub read_string : M (List ℕ)
unfolding read_int16 read_counted
read_string = do n ← read_int16; read_counted (extend16 n)

abbrev pub present : M (List ℕ) → M (Option (List ℕ))
present m = do bytes ← m; pure (some bytes)

unfoldable pub nullable_string_body : ℕ → M (Option (List ℕ))
unfolding read_counted
nullable_string_body n =
    if n == 0xffff
    then pure none
    else if slt16 n 1
    then throw invalid_length
    else present (read_counted (extend16 n))

unfoldable pub read_nullable_string : M (Option (List ℕ))
unfolding read_int16 nullable_string_body
read_nullable_string = do n ← read_int16; nullable_string_body n

-- n - 1 on a uint64 wraps.
abbrev pub less_one : ℕ → ℕ
less_one n = (n + (two64 - 1)) % two64

unfoldable pub compact_string_body : ℕ → M (List ℕ)
unfolding read_counted
compact_string_body n = if less_one n == 0 then pure [] else read_counted (less_one n)

unfoldable pub read_compact_string : M (List ℕ)
unfolding read_uvarint compact_string_body
read_compact_string = do n ← read_uvarint; compact_string_body n

unfoldable pub compact_nullable_string_body : ℕ → M (Option (List ℕ))
unfolding read_counted
compact_nullable_string_body wl =
    if wl == 0
    then pure none
    else if less_one wl == 0
    then pure (some [])
    else present (read_counted (less_one wl))

unfoldable pub read_compact_nullable_string : M (Option (List ℕ))
unfolding read_uvarint compact_nullable_string_body
read_compact_nullable_string = do wl ← read_uvarint; compact_nullable_string_body wl

unfoldable pub read_bytes : M (List ℕ)
unfolding read_int32 read_counted
read_bytes = do n ← read_int32; read_counted (extend32 n)

abbrev pub minus_one32 : ℕ
minus_one32 = 2 ^ 32 - 1

-- ReadNullableBytes; ReadRecords has the same body.
unfoldable pub nullable_bytes_body : ℕ → M (Option (List ℕ))
unfolding read_counted
nullable_bytes_body n =
    if n == minus_one32
    then pure none
    else if slt32 n minus_one32
    then throw invalid_length
    else present (read_counted (extend32 n))

unfoldable pub read_nullable_bytes : M (Option (List ℕ))
unfolding read_int32 nullable_bytes_body
read_nullable_bytes = do n ← read_int32; nullable_bytes_body n

unfoldable pub compact_bytes_body : ℕ → M (List ℕ)
unfolding read_counted
compact_bytes_body wl =
    if slt64 (less_one wl) 0 then throw invalid_length else read_counted (less_one wl)

unfoldable pub read_compact_bytes : M (List ℕ)
unfolding read_uvarint compact_bytes_body
read_compact_bytes = do wl ← read_uvarint; compact_bytes_body wl

unfoldable pub compact_nullable_bytes_body : ℕ → M (Option (List ℕ))
unfolding read_counted
compact_nullable_bytes_body wl =
    if less_one wl == 0
    then pure none
    else if slt64 (less_one wl) 0
    then throw invalid_length
    else present (read_counted (less_one wl))

unfoldable pub read_compact_nullable_bytes : M (Option (List ℕ))
unfolding read_uvarint compact_nullable_bytes_body
read_compact_nullable_bytes = do wl ← read_uvarint; compact_nullable_bytes_body wl

unfoldable pub compact_records_body : ℕ → M (Option (List ℕ))
unfolding read_counted
compact_records_body wl =
    if wl == 0
    then pure none
    else if slt64 (less_one wl) 0
    then throw invalid_length
    else present (read_counted (less_one wl))

unfoldable pub read_compact_records : M (Option (List ℕ))
unfolding read_uvarint compact_records_body
read_compact_records = do wl ← read_uvarint; compact_records_body wl

unfoldable pub read_array_len : M ℕ
unfolding read_int32
read_array_len = do
  n ← read_int32
  if slt32 n minus_one32 then throw invalid_length else pure (extend32 n)

-- A null array is -1.
unfoldable pub read_compact_array_len : M ℕ
unfolding read_uvarint
read_compact_array_len = do wl ← read_uvarint; if wl == 0 then pure (two64 - 1) else pure (wl - 1)
