-- ===== src/Protocol/Writer.antt =====
-- The encoder of protocol/writer.go. A Writer is the bytes written so far; an operation appends.
use mathlib.Core.Logic.{dite}
use mathlib.Core.WellFounded.{Acc}
use native.Mathlib.Decide.{dec_le}
use kaf_go.Base.{ℕ, zero, suc, ◌+◌, ◌-◌, ◌*◌, ◌/◌, ◌%◌, ◌^◌, ◌<◌, List, [], ◌∷◌, ◌++◌, Bool}
use kaf_go.Base.{Option, none, some, bit_or, bit_xor, length, arith}
use kaf_go.Base.{ltb, if◌then◌else◌, two64}

abbrev pub Writer : Type 0
Writer = List ℕ

-- w bytes of a value, the highest first: byte(value>>8*(w-1)), ..., byte(value).
unfoldable pub fixed_bytes : ℕ → ℕ → List ℕ
fixed_bytes zero v = []
fixed_bytes (suc w) v = (v / 256 ^ w % 256) ∷ fixed_bytes w v

unfoldable pub write_bool : Bool → Writer → Writer
write_bool b w = if b then w ++ (1 ∷ []) else w ++ (0 ∷ [])

unfoldable pub write_int8 : ℕ → Writer → Writer
unfolding fixed_bytes
write_int8 v w = w ++ fixed_bytes 1 v

unfoldable pub write_int16 : ℕ → Writer → Writer
unfolding fixed_bytes
write_int16 v w = w ++ fixed_bytes 2 v

unfoldable pub write_int32 : ℕ → Writer → Writer
unfolding fixed_bytes
write_int32 v w = w ++ fixed_bytes 4 v

unfoldable pub write_int64 : ℕ → Writer → Writer
unfolding fixed_bytes
write_int64 v w = w ++ fixed_bytes 8 v

below : (k n : ℕ) → n < k → Acc ◌<◌ n
below zero n h = elim h [ ]
below (suc k) n h = Acc.intro n (λ m lt. below k m (omega arith))

unfoldable pub all_below : (v : ℕ) → Acc ◌<◌ v
unfolding below
all_below v = below (suc v) v (omega arith)

-- The loop of WriteUVarInt, on the proof that the value shrinks.
unfoldable pub uvarint_loop : (v : ℕ) → Acc ◌<◌ v → Writer → Writer
unfolding dec_le
uvarint_loop v (Acc.intro _ smaller) w =
    dite (dec_le 0x80 v)
      (λ h.
        uvarint_loop (v / 2 ^ 7) (smaller (v / 2 ^ 7) (omega arith))
          (w ++ (bit_or (v % 256) 0x80 ∷ [])))
      (λ _. w ++ ((v % 256) ∷ []))

unfoldable pub write_uvarint : ℕ → Writer → Writer
unfolding uvarint_loop all_below
write_uvarint v w = uvarint_loop v (all_below v) w

-- (value << 1) ^ (value >> 63), the second shift copying the sign.
unfoldable pub zigzag : ℕ → ℕ
zigzag v = bit_xor (v * 2 % two64) (if ltb v (2 ^ 63) then 0 else two64 - 1)

-- WriteVarInt; WriteVarint and WriteVarlong call it.
unfoldable pub write_varint : ℕ → Writer → Writer
unfolding zigzag write_uvarint
write_varint v w = write_uvarint (zigzag v) w

unfoldable pub write_uuid : List ℕ → Writer → Writer
write_uuid value w = w ++ value

unfoldable pub write_string : List ℕ → Writer → Writer
unfolding write_int16
write_string s w = write_int16 (length s % 2 ^ 16) w ++ s

unfoldable pub write_compact_string : List ℕ → Writer → Writer
unfolding write_uvarint
write_compact_string s w = write_uvarint (length s + 1) w ++ s

unfoldable pub write_nullable_string : Option (List ℕ) → Writer → Writer
unfolding write_string write_int16
write_nullable_string none w = write_int16 0xffff w
write_nullable_string (some s) w = write_string s w

-- WriteCompactNullableString; WriteCompactNullableBytes and WriteCompactRecords have the same body.
unfoldable pub write_compact_nullable : Option (List ℕ) → Writer → Writer
unfolding write_uvarint
write_compact_nullable none w = write_uvarint 0 w
write_compact_nullable (some s) w = write_uvarint (length s + 1) w ++ s

unfoldable pub write_bytes : List ℕ → Writer → Writer
unfolding write_int32
write_bytes s w = write_int32 (length s % 2 ^ 32) w ++ s

unfoldable pub write_compact_bytes : List ℕ → Writer → Writer
unfolding write_uvarint
write_compact_bytes s w = write_uvarint (length s + 1) w ++ s

-- WriteNullableBytes; WriteRecords has the same body.
unfoldable pub write_nullable_bytes : Option (List ℕ) → Writer → Writer
unfolding write_int32
write_nullable_bytes none w = write_int32 (2 ^ 32 - 1) w
write_nullable_bytes (some s) w = write_int32 (length s % 2 ^ 32) w ++ s

unfoldable pub write_array_len : ℕ → Writer → Writer
unfolding write_int32
write_array_len n w = write_int32 (n % 2 ^ 32) w

unfoldable pub write_compact_array_len : ℕ → Writer → Writer
unfolding write_uvarint
write_compact_array_len n w = write_uvarint ((n + 1) % two64) w

unfoldable pub write_nullable_array_len : ℕ → Bool → Writer → Writer
unfolding write_int32
write_nullable_array_len n is_null w =
    if is_null then write_int32 (2 ^ 32 - 1) w else write_int32 (n % 2 ^ 32) w

unfoldable pub write_raw : List ℕ → Writer → Writer
write_raw b w = w ++ b

unfoldable pub write_empty_tagged_fields : Writer → Writer
write_empty_tagged_fields w = w ++ (0x00 ∷ [])
