-- ===== src/Protocol/RoundTrip/Values.antt =====
-- Strings, byte sequences, lengths and signed varints.
use mathlib.Core.Path.{subst}
use kaf_go.Base.{ℕ, ◌+◌, ◌-◌, ◌*◌, ◌/◌, ◌%◌, ◌^◌, ◌<◌, ◌≡◌, refl, ap, arith, Option, none, some}
use kaf_go.Base.{
  List, [], ◌∷◌, ◌++◌, length, two64, extend16, ◌==◌, slt16, slt32, slt64, false, extend32,
}
use kaf_go.Base.Bits.{xor_zero, xor_all, and_one}
use kaf_go.Protocol.Outcome.{M, then_do, ◌>>=◌, pure}
use kaf_go.Protocol.Reader.{
  read_int16, read_int32, read_uvarint, read_counted, read_string, read_nullable_string,
  read_compact_string, read_compact_nullable_string, read_bytes, read_nullable_bytes,
  read_compact_bytes, read_compact_records, read_varint, unzigzag, less_one, present, minus_one32,
  nullable_string_body, compact_string_body, compact_nullable_string_body, nullable_bytes_body,
  compact_bytes_body, compact_records_body,
}
use kaf_go.Protocol.Writer.{
  fixed_bytes, write_int16, write_int32, write_uvarint, write_string, write_nullable_string,
  write_compact_string, write_compact_nullable, write_bytes, write_compact_bytes,
  write_nullable_bytes, write_varint, zigzag,
}
use kaf_go.Protocol.RoundTrip.Stream.{Reads, Reads-pure, Reads-bind, Reads-counted}
use kaf_go.Protocol.RoundTrip.Fixed.{Reads-int16, Reads-int32}
use kaf_go.Protocol.RoundTrip.Uvarint.{groups, write_uvarint-groups, Reads-uvarint}

pub unzigzag-zigzag : (v : ℕ) → v < two64 → unzigzag (zigzag v) ≡ v
unfolding unzigzag zigzag
unzigzag-zigzag v h = ground (
  arith,
  xor_zero (v * 2 % two64),
  xor_all (v * 2 % two64),
  and_one (v * 2 % two64),
  and_one (two64 - 1 - v * 2 % two64),
  xor_zero (v * 2 % two64 / 2),
  xor_all ((two64 - 1 - v * 2 % two64) / 2),
)

counted : (xs : List ℕ) (n : ℕ) → n ≡ length xs → Reads (read_counted n) xs xs
unfolding read_counted
counted xs n e = rw e (Reads-counted xs)

present_counted :
    (xs : List ℕ) (n : ℕ) → n ≡ length xs → Reads (present (read_counted n)) xs (some xs)
present_counted xs n e front rest h = rw (counted xs n e front rest h)

pub Reads-string : (s : List ℕ) → length s < 2 ^ 15 → Reads read_string (write_string s []) s
unfolding read_string write_string write_int16
Reads-string s h =
    Reads-bind read_int16 (λ n. read_counted (extend16 n)) (fixed_bytes 2 (length s % 2 ^ 16)) s
      (Reads-int16 (length s % 2 ^ 16) (omega arith)) (counted s _ (ground arith))

pub Reads-null_string : Reads read_nullable_string (write_nullable_string none []) none
unfolding read_nullable_string write_nullable_string write_int16
Reads-null_string =
    Reads-bind read_int16 nullable_string_body (fixed_bytes 2 0xffff) []
      (Reads-int16 0xffff (omega arith)) (Reads-pure none)

pub Reads-nullable_string :
    (s : List ℕ)
    → 0 < length s
    → length s < 2 ^ 15
    → Reads read_nullable_string (write_nullable_string (some s) []) (some s)
unfolding read_nullable_string write_nullable_string write_string write_int16
Reads-nullable_string s pos h =
    Reads-bind read_int16 nullable_string_body (fixed_bytes 2 (length s % 2 ^ 16)) s
      (Reads-int16 (length s % 2 ^ 16) (omega arith)) body
  where
    not_null : (length s % 2 ^ 16 == 0xffff) ≡ false
    not_null = ground arith

    positive : slt16 (length s % 2 ^ 16) 1 ≡ false
    positive = ground arith

    body : Reads (nullable_string_body (length s % 2 ^ 16)) s (some s)
    body front rest l =
        unfold nullable_string_body in
        rw (not_null, positive) (present_counted s _ (ground arith) front rest l)

pub Reads-bytes : (s : List ℕ) → length s < 2 ^ 31 → Reads read_bytes (write_bytes s []) s
unfolding read_bytes write_bytes write_int32
Reads-bytes s h =
    Reads-bind read_int32 (λ n. read_counted (extend32 n)) (fixed_bytes 4 (length s % 2 ^ 32)) s
      (Reads-int32 (length s % 2 ^ 32) (omega arith)) (counted s _ (ground arith))

-- A compact value: the length plus one as a uvarint, then the bytes.
compact :
    {A : Type 0} (s : List ℕ) (body : ℕ → M A) {v : A}
    → length s + 1 < 2 ^ 63
    → Reads (body (length s + 1)) s v
    → Reads (read_uvarint >>= body) (write_uvarint (length s + 1) [] ++ s) v
compact s body h reads =
    rw (write_uvarint-groups (length s + 1) [] (omega arith)) (
      Reads-bind read_uvarint body (groups 9 (length s + 1)) s (Reads-uvarint _ (omega arith))
        reads)

one_less : (s : List ℕ) → length s + 1 < 2 ^ 63 → less_one (length s + 1) ≡ length s
one_less s h = omega arith

string_body : (s : List ℕ) → length s + 1 < 2 ^ 63 → Reads (compact_string_body (length s + 1)) s s
unfolding compact_string_body
string_body [] h front rest l = Reads-pure [] front rest l
string_body (c ∷ s) h front rest l =
    rw (not_empty, one_less (c ∷ s) h) (counted (c ∷ s) _ refl front rest l)
  where
    not_empty : (less_one (length (c ∷ s) + 1) == 0) ≡ false
    not_empty = ground arith

pub Reads-compact_string :
    (s : List ℕ) → length s + 1 < 2 ^ 63 → Reads read_compact_string (write_compact_string s []) s
unfolding read_compact_string write_compact_string
Reads-compact_string s h = compact s compact_string_body h (string_body s h)

nullable_string_body_some :
    (s : List ℕ)
    → length s + 1 < 2 ^ 63
    → Reads (compact_nullable_string_body (length s + 1)) s (some s)
unfolding compact_nullable_string_body
nullable_string_body_some [] h front rest l = Reads-pure (some []) front rest l
nullable_string_body_some (c ∷ s) h front rest l =
    rw (not_null, not_empty, one_less (c ∷ s) h) (present_counted (c ∷ s) _ refl front rest l)
  where
    not_null : (length (c ∷ s) + 1 == 0) ≡ false
    not_null = ground arith

    not_empty : (less_one (length (c ∷ s) + 1) == 0) ≡ false
    not_empty = ground arith

-- The lengths that a reader of compact values can meet.
abbrev pub Fits : Option (List ℕ) → Type 0
Fits none = Unit
Fits (some s) = length s + 1 < 2 ^ 63

pub Reads-compact_nullable_string :
    (v : Option (List ℕ))
    → Fits v
    → Reads read_compact_nullable_string (write_compact_nullable v []) v
unfolding read_compact_nullable_string write_compact_nullable groups
Reads-compact_nullable_string none h = rw (write_uvarint-groups 0 [] (omega arith)) (
    Reads-bind read_uvarint compact_nullable_string_body (groups 9 0) []
      (Reads-uvarint 0 (omega arith)) (unfold compact_nullable_string_body in Reads-pure none))
Reads-compact_nullable_string (some s) h =
    compact s compact_nullable_string_body h (nullable_string_body_some s h)

-- The test on the sign of a compact length that fits.
not_negative : (s : List ℕ) → length s + 1 < 2 ^ 63 → slt64 (less_one (length s + 1)) 0 ≡ false
not_negative s h = ground arith

pub Reads-compact_bytes :
    (s : List ℕ) → length s + 1 < 2 ^ 63 → Reads read_compact_bytes (write_compact_bytes s []) s
unfolding read_compact_bytes write_compact_bytes
Reads-compact_bytes s h = compact s compact_bytes_body h body
  where
    body : Reads (compact_bytes_body (length s + 1)) s s
    body front rest l =
        unfold compact_bytes_body in
        rw (not_negative s h, one_less s h) (counted s _ refl front rest l)

pub Reads-compact_records :
    (v : Option (List ℕ)) → Fits v → Reads read_compact_records (write_compact_nullable v []) v
unfolding read_compact_records write_compact_nullable groups
Reads-compact_records none h = rw (write_uvarint-groups 0 [] (omega arith)) (
    Reads-bind read_uvarint compact_records_body (groups 9 0) [] (Reads-uvarint 0 (omega arith))
      (unfold compact_records_body in Reads-pure none))
Reads-compact_records (some s) h = compact s compact_records_body h body
  where
    not_null : (length s + 1 == 0) ≡ false
    not_null = ground arith

    body : Reads (compact_records_body (length s + 1)) s (some s)
    body front rest l =
        unfold compact_records_body in
        rw (not_null, not_negative s h, one_less s h) (present_counted s _ refl front rest l)

pub Reads-null_bytes : Reads read_nullable_bytes (write_nullable_bytes none []) none
unfolding read_nullable_bytes write_nullable_bytes write_int32
Reads-null_bytes =
    Reads-bind read_int32 nullable_bytes_body (fixed_bytes 4 (2 ^ 32 - 1)) []
      (Reads-int32 (2 ^ 32 - 1) (omega arith)) (Reads-pure none)

pub Reads-nullable_bytes :
    (s : List ℕ)
    → length s < 2 ^ 31
    → Reads read_nullable_bytes (write_nullable_bytes (some s) []) (some s)
unfolding read_nullable_bytes write_nullable_bytes write_int32
Reads-nullable_bytes s h =
    Reads-bind read_int32 nullable_bytes_body (fixed_bytes 4 (length s % 2 ^ 32)) s
      (Reads-int32 (length s % 2 ^ 32) (omega arith)) body
  where
    not_null : (length s % 2 ^ 32 == minus_one32) ≡ false
    not_null = ground arith

    not_below : slt32 (length s % 2 ^ 32) minus_one32 ≡ false
    not_below = ground arith

    body : Reads (nullable_bytes_body (length s % 2 ^ 32)) s (some s)
    body front rest l =
        unfold nullable_bytes_body in
        rw (not_null, not_below) (present_counted s _ (ground arith) front rest l)

zigzag-lt : (v : ℕ) → v < two64 → zigzag v < two64
unfolding zigzag
zigzag-lt v h = ground (arith, xor_zero (v * 2 % two64), xor_all (v * 2 % two64))

varint_value : (v : ℕ) → v < two64 → Reads read_varint (groups 9 (zigzag v)) (unzigzag (zigzag v))
unfolding read_varint
varint_value v h front rest l =
    ap (λ o. then_do o (λ uv. pure (unzigzag uv)))
      (Reads-uvarint (zigzag v) (zigzag-lt v h) front rest l)

pub Reads-varint : (v : ℕ) → v < two64 → Reads read_varint (write_varint v []) v
unfolding write_varint
Reads-varint v h = rw (write_uvarint-groups (zigzag v) [] (zigzag-lt v h)) (
    subst (λ t. Reads read_varint (groups 9 (zigzag v)) t) (unzigzag-zigzag v h) (varint_value v h))
