-- ===== src/Storage/Region/Previous.antt =====
-- FindRawRegion where it starts at the batch before the one that reaches the fetch offset.
use kaf_go.Base.{
  ap, ◌∙◌, ℕ, ◌+◌, ◌^◌, ◌<◌, ◌≡◌, refl, inl, inr, arith, Bool-cases, true, false, List, [], ◌∷◌,
  ◌++◌, none,
}
use kaf_go.Base.{length, length-append, All, ltb, sle64}
use kaf_go.Storage.Search.{looked}
use kaf_go.Storage.Index.{OffsetIndex, lookup}
use kaf_go.Storage.Region.{region, find_raw_region}
use kaf_go.Storage.Region.Batches.{LogBatch, IsLogBatch, log_contents}
use kaf_go.Storage.Region.Search.{limited}
use kaf_go.Storage.Region.Served.{served, EndsBelow, find_raw_region-served}

empty_of : (xs : List LogBatch) → length xs ≡ 0 → length (log_contents xs) ≡ 0
empty_of [] e = refl
empty_of (x ∷ xs) e = absurd (omega arith)

-- The batch p ends below the fetch offset, the next starts at or above it, and the index gives the place of p: the
-- region starts at p.
pub find_raw_region-previous :
    (front : List ℕ) (p b : LogBatch) (bs : List LogBatch) (offset_index : OffsetIndex)
    (fetch_offset max_bytes : ℕ)
    → lookup fetch_offset offset_index ≡ looked (length front)
    → All IsLogBatch (p ∷ b ∷ bs)
    → length (front ++ log_contents (p ∷ b ∷ bs)) < 2 ^ 62
    → max_bytes < 2 ^ 62
    → sle64 fetch_offset p.base_offset ≡ false
    → EndsBelow fetch_offset p
    → sle64 fetch_offset b.base_offset ≡ true
    → find_raw_region (front ++ log_contents (p ∷ b ∷ bs)) offset_index fetch_offset max_bytes
      ≡ region (length front) (length (log_contents (limited max_bytes 0 (p ∷ b ∷ bs))))
find_raw_region-previous front p b bs offset_index fetch_offset max_bytes found valid small bound
      starts low next =
    let (skipped, split, below, result) =
      find_raw_region-served front p (b ∷ bs) offset_index fetch_offset max_bytes found valid small
        bound in
    let both : served fetch_offset none (p ∷ b ∷ bs) ≡ p ∷ b ∷ bs =
      unfold served in rw (starts, low, next) refl in
    let nothing : length (log_contents skipped) ≡ 0 = empty_of skipped (
      omega (
        arith,
        ap length (split ∙ ap (λ t. skipped ++ t) both),
        length-append skipped (p ∷ b ∷ bs),
      )) in
    let ends : length front + 0 ≡ length front = omega arith in
    result ∙ rw (both, nothing, ends) refl

limited-first :
    (max_bytes : ℕ) (p b : LogBatch) (bs : List LogBatch)
    → 0 < length p.bytes
    → 0 < max_bytes
    → max_bytes < length p.bytes + length b.bytes
    → limited max_bytes 0 (p ∷ b ∷ bs) ≡ p ∷ []
limited-first max_bytes p b bs some_bytes positive heavy =
    let limit : ltb 0 max_bytes ≡ true = ground arith in
    let filled : ltb 0 (0 + length p.bytes) ≡ true = ground arith in
    let over : ltb max_bytes (0 + length p.bytes + length b.bytes) ≡ true = ground arith in
    elim (Bool-cases (ltb max_bytes (0 + length p.bytes))) [
      | inl alone ↦ rw (limit, alone) refl
      | inr fits ↦ rw (limit, filled, over, fits) refl
    ]

-- Where a batch ends below the fetch offset, the next starts at or above it, and the two together
-- exceed maxBytes, FindRawRegion that looks from the first on gives the first batch alone, in which
-- there is no record that was asked for.
pub find_raw_region_misses :
    (front : List ℕ) (p b : LogBatch) (bs : List LogBatch) (offset_index : OffsetIndex)
    (fetch_offset max_bytes : ℕ)
    → lookup fetch_offset offset_index ≡ looked (length front)
    → All IsLogBatch (p ∷ b ∷ bs)
    → length (front ++ log_contents (p ∷ b ∷ bs)) < 2 ^ 62
    → 0 < max_bytes
    → max_bytes < 2 ^ 62
    → max_bytes < length p.bytes + length b.bytes
    → sle64 fetch_offset p.base_offset ≡ false
    → EndsBelow fetch_offset p
    → sle64 fetch_offset b.base_offset ≡ true
    → find_raw_region (front ++ log_contents (p ∷ b ∷ bs)) offset_index fetch_offset max_bytes
      ≡ region (length front) (length p.bytes)
find_raw_region_misses front p b bs offset_index fetch_offset max_bytes found valid small positive
      bound heavy starts low next =
    let only = limited-first max_bytes p b bs (omega (arith, valid.0.whole)) positive heavy in
    let sized : length (p.bytes ++ []) ≡ length p.bytes = omega (arith, length-append p.bytes []) in
    find_raw_region-previous front p b bs offset_index fetch_offset max_bytes found valid small
      bound starts low next
    ∙ rw (only, sized) refl
