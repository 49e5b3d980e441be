-- ===== src/Storage/Region/Batches.antt =====
-- The record batches that a log file holds, as the searches of a segment read them.
use kaf_go.Base.{
  ap, ◌∙◌, sym, ℕ, zero, suc, ◌+◌, ◌-◌, ◌%◌, ◌^◌, ◌≤◌, ◌<◌, ◌≡◌, refl, arith, true, List, [], ◌∷◌,
  ◌++◌, some,
}
use kaf_go.Base.{
  length, take, drop, length-append, drop-append_length, append_assoc, leb, All, two64, extend32,
}
use kaf_go.Protocol.Reader.{big_endian}
use kaf_go.Storage.Clip.{read_at, field}

-- A batch in the log file: its base offset, lastOffsetDelta as an int32 pattern, and its bytes.
pub record LogBatch : Type 0 where
  pub base_offset : ℕ
  pub last_offset_delta : ℕ
  pub bytes : List ℕ

abbrev pub last : LogBatch → ℕ
last b = (b.base_offset + extend32 b.last_offset_delta) % two64

-- The bytes are those of the batch: its length, below 2^31, counts all behind it.
pub record IsLogBatch (b : LogBatch) : Type 0 where
  pub whole : 27 ≤ length b.bytes
  pub base : field b.bytes 0 8 ≡ b.base_offset
  pub len : 12 + field b.bytes 8 4 ≡ length b.bytes
  pub short : length b.bytes < 2 ^ 31
  pub delta : field b.bytes 23 4 ≡ b.last_offset_delta

abbrev pub log_contents : List LogBatch → List ℕ
log_contents [] = []
log_contents (b ∷ bs) = b.bytes ++ log_contents bs

pub take-append_le : (n : ℕ) (xs ys : List ℕ) → n ≤ length xs → take n (xs ++ ys) ≡ take n xs
take-append_le zero xs ys h = refl
take-append_le (suc n) [] ys h = absurd (omega arith)
take-append_le (suc n) (x ∷ xs) ys h = ap (λ t. x ∷ t) (take-append_le n xs ys (omega arith))

drop-append_le : (n : ℕ) (xs ys : List ℕ) → n ≤ length xs → drop n (xs ++ ys) ≡ drop n xs ++ ys
drop-append_le zero xs ys h = refl
drop-append_le (suc n) [] ys h = absurd (omega arith)
drop-append_le (suc n) (x ∷ xs) ys h = drop-append_le n xs ys (omega arith)

drop_nil : (n : ℕ) → drop {A = ℕ} n [] ≡ []
drop_nil zero = refl
drop_nil (suc n) = refl

pub drop-drop : (m n : ℕ) (xs : List ℕ) → drop n (drop m xs) ≡ drop (m + n) xs
drop-drop zero n xs = ap (λ k. drop k xs) (omega arith)
drop-drop (suc m) n [] = drop_nil n ∙ sym (drop_nil (suc m + n))
drop-drop (suc m) n (x ∷ xs) =
    let next : suc (m + n) ≡ suc m + n = omega arith in
    drop-drop m n xs ∙ ap (λ k. drop k (x ∷ xs)) next

length-drop_le : (n : ℕ) (xs : List ℕ) → length (drop n xs) ≡ length xs - n
length-drop_le zero xs = omega arith
length-drop_le (suc n) [] = omega arith
length-drop_le (suc n) (x ∷ xs) = omega (arith, length-drop_le n xs)

take-take_le : (w n : ℕ) (xs : List ℕ) → w ≤ n → take w (take n xs) ≡ take w xs
take-take_le zero n xs h = refl
take-take_le (suc w) zero xs h = absurd (omega arith)
take-take_le (suc w) (suc n) [] h = refl
take-take_le (suc w) (suc n) (x ∷ xs) h = ap (λ t. x ∷ t) (take-take_le w n xs (omega arith))

take_nil : (n : ℕ) → take {A = ℕ} n [] ≡ []
take_nil zero = refl
take_nil (suc n) = refl

drop-take : (p n : ℕ) (xs : List ℕ) → drop p (take (p + n) xs) ≡ take n (drop p xs)
drop-take zero n xs = ap (λ k. take k xs) (omega arith)
drop-take (suc p) n [] = ap (drop (suc p)) (take_nil (suc p + n)) ∙ sym (take_nil n)
drop-take (suc p) n (x ∷ xs) =
    let next : suc p + n ≡ suc (p + n) = omega arith in
    ap (λ k. drop (suc p) (take k (x ∷ xs))) next ∙ drop-take p n xs

-- A field of the first n bytes is that of all.
pub field-take : (p w n : ℕ) (xs : List ℕ) → p + w ≤ n → field (take n xs) p w ≡ field xs p w
field-take p w n xs h =
    let split : n ≡ p + (n - p) = omega arith in
    ap (big_endian 0) (
      ap (λ m. take w (drop p (take m xs))) split
      ∙ ap (take w) (drop-take p (n - p) xs)
      ∙ take-take_le w (n - p) (drop p xs) (omega arith))

-- What ReadAt gives of a piece xs of the file.
pub read_at-piece :
    (pre xs rest : List ℕ) (p q n : ℕ)
    → p ≡ length pre + q
    → q + n ≤ length xs
    → read_at (pre ++ (xs ++ rest)) p n ≡ some (take n (drop q xs))
unfolding read_at
read_at-piece pre xs rest p q n e h =
    let room : leb (length pre + q + n) (length (pre ++ (xs ++ rest))) ≡ true =
      ground (arith, length-append pre (xs ++ rest), length-append xs rest) in
    rw (e, room)
      (ap some (
        ap (take n) (
          sym (drop-drop (length pre) q (pre ++ (xs ++ rest)))
          ∙ ap (drop q) (drop-append_length pre (xs ++ rest))
          ∙ drop-append_le q xs rest (omega arith))
        ∙ take-append_le n (drop q xs) rest (omega (arith, length-drop_le q xs))))

pub log_contents-append :
    (xs ys : List LogBatch) → log_contents (xs ++ ys) ≡ log_contents xs ++ log_contents ys
log_contents-append [] ys = refl
log_contents-append (x ∷ xs) ys =
    ap (λ t. x.bytes ++ t) (log_contents-append xs ys)
    ∙ sym (append_assoc x.bytes (log_contents xs) (log_contents ys))

pub length-log_contents :
    (bs : List LogBatch) → All IsLogBatch bs → length bs ≤ length (log_contents bs)
length-log_contents [] h = omega arith
length-log_contents (b ∷ bs) h =
    omega (arith, h.0.whole, length-append b.bytes (log_contents bs), length-log_contents bs h.1)
