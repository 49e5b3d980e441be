-- ===== src/Protocol/RoundTrip/Fixed.antt =====
-- The big-endian integers of 1, 2, 4 and 8 bytes.
use kaf_go.Base.{ℕ, [], ◌∷◌, ◌^◌, ◌<◌, ◌≡◌, ap, arith, List, ◌++◌, length}
use kaf_go.Protocol.Outcome.{ok}
use kaf_go.Protocol.Reader.{big_endian, read_fixed, read_int8, read_int16, read_int32, read_int64}
use kaf_go.Protocol.Writer.{fixed_bytes}
use kaf_go.Protocol.RoundTrip.Stream.{at, Reads, require-at, chunk-at}

Reads-fixed : (xs : List ℕ) (v : ℕ) → big_endian 0 xs ≡ v → Reads (read_fixed (length xs)) xs v
unfolding read_fixed
Reads-fixed xs v e front rest h =
    rw (require-at front xs rest h, chunk-at front xs rest h)
      (ap (λ x. ok (x, at (front ++ xs) rest)) e)

-- One byte.
pub Reads-byte : (b : ℕ) → Reads (read_fixed 1) (b ∷ []) b
unfolding big_endian
Reads-byte b = Reads-fixed (b ∷ []) b (omega arith)

pub value_8 : (v : ℕ) → v < 2 ^ 8 → big_endian 0 (fixed_bytes 1 v) ≡ v
unfolding fixed_bytes big_endian
value_8 v fits = omega arith

pub Reads-int8 : (v : ℕ) → v < 2 ^ 8 → Reads read_int8 (fixed_bytes 1 v) v
unfolding read_int8 fixed_bytes
Reads-int8 v fits = Reads-fixed (fixed_bytes 1 v) v (value_8 v fits)

pub value_16 : (v : ℕ) → v < 2 ^ 16 → big_endian 0 (fixed_bytes 2 v) ≡ v
unfolding fixed_bytes big_endian
value_16 v fits = omega arith

pub Reads-int16 : (v : ℕ) → v < 2 ^ 16 → Reads read_int16 (fixed_bytes 2 v) v
unfolding read_int16 fixed_bytes
Reads-int16 v fits = Reads-fixed (fixed_bytes 2 v) v (value_16 v fits)

pub value_32 : (v : ℕ) → v < 2 ^ 32 → big_endian 0 (fixed_bytes 4 v) ≡ v
unfolding fixed_bytes big_endian
value_32 v fits = omega arith

pub Reads-int32 : (v : ℕ) → v < 2 ^ 32 → Reads read_int32 (fixed_bytes 4 v) v
unfolding read_int32 fixed_bytes
Reads-int32 v fits = Reads-fixed (fixed_bytes 4 v) v (value_32 v fits)

pub value_64 : (v : ℕ) → v < 2 ^ 64 → big_endian 0 (fixed_bytes 8 v) ≡ v
unfolding fixed_bytes big_endian
value_64 v fits = omega arith

pub Reads-int64 : (v : ℕ) → v < 2 ^ 64 → Reads read_int64 (fixed_bytes 8 v) v
unfolding read_int64 fixed_bytes
Reads-int64 v fits = Reads-fixed (fixed_bytes 8 v) v (value_64 v fits)
