-- ===== src/Protocol/RoundTrip/Stream.antt =====
-- A reader that stands between what it has read and what is still to come.
use kaf_go.Base.{ℕ, ◌+◌, ◌%◌, ◌^◌, ◌<◌, ◌≡◌, arith, List, [], ◌++◌}
use kaf_go.Base.{append_assoc, append-nil, length, length-append, two64}
use kaf_go.Base.{take-append_length, drop-append_length}
use kaf_go.Protocol.Outcome.{ok, Reader, M, ◌>>=◌, ◌>>◌, pure, require, slice, chunk}

abbrev pub at : List ℕ → List ℕ → Reader
at front rest = record { buff = front ++ rest; pos = length front }

-- `m` takes the bytes `xs` for the value `v`, wherever they stand.
abbrev pub Reads : {A : Type 0} → M A → List ℕ → A → Type 0
Reads m xs v =
    (front rest : List ℕ)
    → length (front ++ (xs ++ rest)) < 2 ^ 63
    → m (at front (xs ++ rest)) ≡ ok (v, at (front ++ xs) rest)

module _ (front xs rest : List ℕ) where
  pub at-append :
      at (front ++ xs) rest
      ≡ record { buff = front ++ (xs ++ rest); pos = length front + length xs }
  at-append = λ i. record { buff = append_assoc front xs rest i; pos = length-append front xs i }

  measure : length (front ++ (xs ++ rest)) ≡ length front + (length xs + length rest)
  measure = omega (arith, length-append front (xs ++ rest), length-append xs rest)

  pub require-at :
      length (front ++ (xs ++ rest)) < 2 ^ 63
      → require (length xs) (at front (xs ++ rest)) ≡ ok (tt, at front (xs ++ rest))
  unfolding require
  require-at h = ground (arith, measure)

  slice-at : slice (front ++ (xs ++ rest)) (length front) (length front + length xs) ≡ ok xs
  unfolding slice
  slice-at =
      ground (arith, measure, drop-append_length front (xs ++ rest), take-append_length xs rest)

  pub chunk-at :
      length (front ++ (xs ++ rest)) < 2 ^ 63
      → chunk (length xs) (at front (xs ++ rest)) ≡ ok (xs, at (front ++ xs) rest)
  unfolding chunk
  chunk-at h =
      let wrap : (length front + length xs) % two64 ≡ length front + length xs =
        omega (arith, measure) in
      rw (wrap, slice-at, at-append) (rw wrap)

pub Reads-pure : {A : Type 0} (v : A) → Reads (pure v) [] v
Reads-pure v front rest h = rw append-nil

pub Reads-bind :
    {A B : Type 0} (m : M A) (f : A → M B) (xs ys : List ℕ) {a : A} {b : B}
    → Reads m xs a
    → Reads (f a) ys b
    → Reads (m >>= f) (xs ++ ys) b
Reads-bind m f xs ys hm hf front rest h =
    rw
      (
        append_assoc xs ys rest,
        hm front (ys ++ rest) (rw (append_assoc xs ys rest) at h),
        ← append_assoc front xs ys,
      )
      (hf (front ++ xs) rest
        (rw (append_assoc xs ys rest, ← append_assoc front xs (ys ++ rest)) at h))

pub Reads-counted : (xs : List ℕ) → Reads (require (length xs) >> chunk (length xs)) xs xs
Reads-counted xs front rest h = rw (require-at front xs rest h) (chunk-at front xs rest h)
