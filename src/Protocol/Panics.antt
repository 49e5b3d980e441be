-- ===== src/Protocol/Panics.antt =====
-- Lengths that the reader does not check: inputs on which it panics.
use kaf_go.Base.{
  refl, ◌⊎◌, ℕ, ◌+◌, ◌^◌, ◌≤◌, ◌<◌, ◌≡◌, ◌∙◌, ap, arith, List, [], ◌++◌, length, length-append,
  two64,
}
use kaf_go.Base.{inl, inr, extend16, slt64, false, ◌==◌}
use kaf_go.Protocol.Outcome.{Reader, M, ◌>>=◌, panic, then_do, require, chunk}
use kaf_go.Protocol.Reader.{
  read_uvarint, read_counted, read_string, read_compact_string, compact_string_body,
  read_compact_bytes, compact_bytes_body, less_one,
}
use kaf_go.Protocol.Writer.{fixed_bytes, write_int16, write_uvarint}
use kaf_go.Protocol.RoundTrip.Stream.{at}
use kaf_go.Protocol.RoundTrip.Fixed.{Reads-int16}
use kaf_go.Protocol.RoundTrip.Codec.{read_uvarint-write_uvarint}

-- A count n for which pos + n is negative, or below pos, passes `require` and fails as a slice.
counted_panics :
    (n : ℕ) (r : Reader)
    → r.pos ≤ length r.buff
    → length r.buff < 2 ^ 62
    → n < two64
    → 2 ^ 63 ≤ r.pos + n
    → read_counted n r ≡ panic
unfolding read_counted require chunk
counted_panics n r inside fits small h = ground arith

module _ (front xs rest : List ℕ) where
  total : length ((front ++ xs) ++ rest) ≡ length front + (length xs + length rest)
  total = omega (arith, length-append (front ++ xs) rest, length-append front xs)

  total-right : length (front ++ (xs ++ rest)) ≡ length front + (length xs + length rest)
  total-right = omega (arith, length-append front (xs ++ rest), length-append xs rest)

  stands : length (front ++ xs) ≡ length front + length xs
  stands = length-append front xs

-- ReadString panics on every negative length, whatever follows it.
pub read_string_panics :
    (n : ℕ) (front rest : List ℕ)
    → 2 ^ 15 ≤ n
    → n < 2 ^ 16
    → length (front ++ (write_int16 n [] ++ rest)) < 2 ^ 62
    → read_string (at front (write_int16 n [] ++ rest)) ≡ panic
unfolding read_string write_int16
read_string_panics n front rest negative h fits =
    let bytes = fixed_bytes 2 n in
    ap (λ o. then_do o (λ m. read_counted (extend16 m))) (Reads-int16 n h front rest (omega arith))
    ∙ counted_panics (extend16 n) (at (front ++ bytes) rest)
        (omega (arith, total front bytes rest, stands front bytes))
        (omega (arith, total front bytes rest, total-right front bytes rest)) (ground arith)
        (ground arith)

-- What a length prefix leads to, once it is read.
after_uvarint :
    {A : Type 0} (f : ℕ → M A) (v : ℕ) (front rest : List ℕ)
    → v < two64
    → length (front ++ (write_uvarint v [] ++ rest)) < 2 ^ 62
    → f v (at (front ++ write_uvarint v []) rest) ≡ panic
    → (read_uvarint >>= f) (at front (write_uvarint v [] ++ rest)) ≡ panic
after_uvarint f v front rest h fits e =
    ap (λ o. then_do o f) (read_uvarint-write_uvarint v front rest h (omega arith)) ∙ e

module _ (v : ℕ) (front rest : List ℕ) (h : v < two64)
    (fits : length (front ++ (write_uvarint v [] ++ rest)) < 2 ^ 62) where
  counted_at :
      2 ^ 63 ≤ length (front ++ write_uvarint v []) + less_one v
      → read_counted (less_one v) (at (front ++ write_uvarint v []) rest) ≡ panic
  counted_at far =
      let bytes = write_uvarint v [] in
      counted_panics (less_one v) (at (front ++ bytes) rest)
        (omega (arith, total front bytes rest, stands front bytes))
        (omega (arith, total front bytes rest, total-right front bytes rest)) (omega arith) far

-- ReadCompactString panics on the length 0, which stands for null, and on every length above
-- 2^63, whatever follows it.
pub read_compact_string_panics :
    (v : ℕ) (front rest : List ℕ)
    → v < two64
    → (v ≡ 0) ⊎ (2 ^ 63 < v)
    → length (front ++ (write_uvarint v [] ++ rest)) < 2 ^ 62
    → read_compact_string (at front (write_uvarint v [] ++ rest)) ≡ panic
unfolding read_compact_string compact_string_body
read_compact_string_panics v front rest h which fits =
    after_uvarint compact_string_body v front rest h fits body
  where
    far : 2 ^ 63 ≤ length (front ++ write_uvarint v []) + less_one v
    far = elim which [ inl e ↦ rw e (omega arith) | inr e ↦ omega arith ]

    not_empty : (less_one v == 0) ≡ false
    not_empty = elim which [ inl e ↦ rw e refl | inr e ↦ ground arith ]

    body : compact_string_body v (at (front ++ write_uvarint v []) rest) ≡ panic
    body = rw not_empty (counted_at v front rest h fits far)

-- ReadCompactBytes panics on every length that is no negative int and that carries the position
-- past the largest int, whatever follows it.
pub read_compact_bytes_panics :
    (v : ℕ) (front rest : List ℕ)
    → 0 < v
    → v ≤ 2 ^ 63
    → 2 ^ 63 < length (front ++ write_uvarint v []) + v
    → length (front ++ (write_uvarint v [] ++ rest)) < 2 ^ 62
    → read_compact_bytes (at front (write_uvarint v [] ++ rest)) ≡ panic
unfolding read_compact_bytes compact_bytes_body
read_compact_bytes_panics v front rest positive small far fits =
    after_uvarint compact_bytes_body v front rest (omega arith) fits body
  where
    not_negative : slt64 (less_one v) 0 ≡ false
    not_negative = ground arith

    body : compact_bytes_body v (at (front ++ write_uvarint v []) rest) ≡ panic
    body = rw not_negative (counted_at v front rest (omega arith) fits (omega arith))
