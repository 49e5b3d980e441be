-- ===== src/Protocol/RoundTrip/Codec.antt =====
-- The round trips of the primitive types, in full.
use kaf_go.Base.{ℕ, ◌+◌, ◌^◌, ◌<◌, ◌≡◌, some, List, [], ◌++◌, length, two64}
use kaf_go.Protocol.Outcome.{ok}
use kaf_go.Protocol.Reader.{
  read_int64, read_uvarint, read_varint, read_string, read_nullable_string, read_bytes,
  read_nullable_bytes, read_compact_string, read_compact_bytes,
}
use kaf_go.Protocol.Writer.{
  write_int64, write_uvarint, write_varint, write_string, write_nullable_string, write_bytes,
  write_nullable_bytes, write_compact_string, write_compact_bytes,
}
use kaf_go.Protocol.RoundTrip.Stream.{at}
use kaf_go.Protocol.RoundTrip.Fixed.{Reads-int64}
use kaf_go.Protocol.RoundTrip.Uvarint.{write_uvarint-groups, Reads-uvarint}
use kaf_go.Protocol.RoundTrip.Values.{
  Reads-varint, Reads-string, Reads-nullable_string, Reads-bytes, Reads-nullable_bytes,
  Reads-compact_string, Reads-compact_bytes,
}

-- Every uint64 that WriteUVarInt writes is read back by ReadUVarInt, wherever it stands in a
-- buffer, and the reader then stands right behind it.
pub read_uvarint-write_uvarint :
    (v : ℕ) (front rest : List ℕ)
    → v < two64
    → length (front ++ (write_uvarint v [] ++ rest)) < 2 ^ 63
    → read_uvarint (at front (write_uvarint v [] ++ rest))
      ≡ ok (v, at (front ++ write_uvarint v []) rest)
read_uvarint-write_uvarint v front rest h fits =
    rw (write_uvarint-groups v [] h)
      (Reads-uvarint v h front rest (rw (write_uvarint-groups v [] h) at fits))

-- Every int64 that WriteVarInt writes in zigzag form, negative ones included, is read back by
-- ReadVarInt, and every int64 that WriteInt64 writes in eight bytes by ReadInt64.
pub read_varint-write_varint :
    (v : ℕ) (front rest : List ℕ)
    → v < two64
    → length (front ++ (write_varint v [] ++ rest)) < 2 ^ 63
    → length (front ++ (write_int64 v [] ++ rest)) < 2 ^ 63
    → (read_varint (at front (write_varint v [] ++ rest))
        ≡ ok (v, at (front ++ write_varint v []) rest))
      × (read_int64 (at front (write_int64 v [] ++ rest))
          ≡ ok (v, at (front ++ write_int64 v []) rest))
unfolding write_int64
read_varint-write_varint v front rest h fits fits8 =
    (Reads-varint v h front rest fits, Reads-int64 v h front rest fits8)

-- A string of 1 to 2^15 - 1 bytes comes back from both length-prefixed forms.
pub read_string-write_string :
    (s front rest : List ℕ)
    → 0 < length s
    → length s < 2 ^ 15
    → length (front ++ (write_string s [] ++ rest)) < 2 ^ 63
    → (read_string (at front (write_string s [] ++ rest))
        ≡ ok (s, at (front ++ write_string s []) rest))
      × (read_nullable_string (at front (write_nullable_string (some s) [] ++ rest))
          ≡ ok (some s, at (front ++ write_nullable_string (some s) []) rest))
read_string-write_string s front rest pos h fits = (
  Reads-string s h front rest fits,
  Reads-nullable_string s pos h front rest (unfold write_nullable_string in fits),
)

-- A byte sequence below 2^31 bytes, empty or not, comes back from both forms with an int32 length.
pub read_bytes-write_bytes :
    (s front rest : List ℕ)
    → length s < 2 ^ 31
    → length (front ++ (write_bytes s [] ++ rest)) < 2 ^ 63
    → (read_bytes (at front (write_bytes s [] ++ rest))
        ≡ ok (s, at (front ++ write_bytes s []) rest))
      × (read_nullable_bytes (at front (write_nullable_bytes (some s) [] ++ rest))
          ≡ ok (some s, at (front ++ write_nullable_bytes (some s) []) rest))
read_bytes-write_bytes s front rest h fits = (
  Reads-bytes s h front rest fits,
  Reads-nullable_bytes s h front rest (unfold write_nullable_bytes write_bytes in fits),
)

-- A compact string, or compact bytes, of any length that a buffer can hold comes back, the empty
-- one included.
pub read_compact-write_compact :
    (s front rest : List ℕ)
    → length s + 1 < 2 ^ 63
    → length (front ++ (write_compact_string s [] ++ rest)) < 2 ^ 63
    → (read_compact_string (at front (write_compact_string s [] ++ rest))
        ≡ ok (s, at (front ++ write_compact_string s []) rest))
      × (read_compact_bytes (at front (write_compact_bytes s [] ++ rest))
          ≡ ok (s, at (front ++ write_compact_bytes s []) rest))
read_compact-write_compact s front rest h fits = (
  Reads-compact_string s h front rest fits,
  Reads-compact_bytes s h front rest (unfold write_compact_string write_compact_bytes in fits),
)
