-- ===== src/Storage/Region/Served.antt =====
-- The batches of the region that FindRawRegion gives.
use kaf_go.Base.{
  ap, ◌∙◌, sym, ℕ, suc, ◌+◌, ◌^◌, ◌<◌, ◌≡◌, refl, inl, inr, arith, Bool-cases, false, List, [], ◌∷◌,
  ◌++◌, Option, none, some,
}
use kaf_go.Base.{length, length-append, append_assoc, All, if◌then◌else◌, ltb, ◌==◌, sle64}
use mathlib.Core.Path.{subst}
use kaf_go.Storage.Search.{looked}
use kaf_go.Storage.Index.{OffsetIndex, lookup}
use kaf_go.Storage.Region.{
  gathered, started, region, region_of, region_from, region_at, find_raw_region,
}
use kaf_go.Storage.Region.Batches.{
  LogBatch, IsLogBatch, last, log_contents, log_contents-append, length-log_contents,
}
use kaf_go.Storage.Region.Search.{
  Stands, start_pos, start_loop-start_pos, limited, gather_loop-limited,
}

abbrev to_list : Option LogBatch → List LogBatch
to_list none = []
to_list (some b) = b ∷ []

-- The batches from the first that reaches the fetch offset; the one before it comes too where it was
-- passed and the first starts at or above the fetch offset, and the last where there is no first.
unfoldable pub served : ℕ → Option LogBatch → List LogBatch → List LogBatch
served fetch_offset previous [] = to_list previous
served fetch_offset previous (b ∷ bs) =
    let rest = served fetch_offset (some b) bs in
    if sle64 fetch_offset b.base_offset
    then to_list previous ++ (b ∷ bs)
    else if sle64 fetch_offset (last b)
    then b ∷ bs
    else rest

-- The batch ends below the fetch offset.
abbrev pub EndsBelow : ℕ → LogBatch → Type 0
EndsBelow fetch_offset b = sle64 fetch_offset (last b) ≡ false

-- start_pos is the place of the batches served, and the ones skipped end below the fetch offset.
record Cut (fetch_offset pos : ℕ) (batches from : List LogBatch) (start : Option ℕ) : Type 0 where
  skipped : List LogBatch
  split : batches ≡ skipped ++ from
  below : All (EndsBelow fetch_offset) skipped
  here : start ≡ some (pos + length (log_contents skipped))

start_pos-behind :
    (fetch_offset pos : ℕ) (p : LogBatch) (bs : List LogBatch)
    → EndsBelow fetch_offset p
    → Cut fetch_offset pos
        (p ∷ bs)
        (served fetch_offset (some p) bs)
        (start_pos fetch_offset (some pos) (pos + length p.bytes) bs)
unfolding served
start_pos-behind fetch_offset pos p [] low = record {
  skipped = [];
  split = refl;
  below = tt;
  here = ap some (omega arith);
}
start_pos-behind fetch_offset pos p (b ∷ bs) low =
    elim (Bool-cases (sle64 fetch_offset b.base_offset)) [
      | inl starts ↦
          rw starts
            (record { skipped = []; split = refl; below = tt; here = ap some (omega arith) })
      | inr inner ↦ elim (Bool-cases (sle64 fetch_offset (last b))) [
        | inl holds ↦
            rw (inner, holds)
              (record {
                skipped = p ∷ [];
                split = refl;
                below = (low, tt);
                here = ap some (omega (arith, length-append p.bytes []));
              })
        | inr under ↦
            let cut = start_pos-behind fetch_offset (pos + length p.bytes) b bs under in
            rw (inner, under)
              (record {
                skipped = p ∷ cut.skipped;
                split = ap (λ t. p ∷ t) cut.split;
                below = (low, cut.below);
                here =
                    cut.here
                    ∙ ap some (omega (arith, length-append p.bytes (log_contents cut.skipped)));
              })
      ]
    ]

start_pos-front :
    (fetch_offset pos : ℕ) (b : LogBatch) (bs : List LogBatch)
    → Cut fetch_offset pos
        (b ∷ bs)
        (served fetch_offset none (b ∷ bs))
        (start_pos fetch_offset none pos (b ∷ bs))
unfolding served
start_pos-front fetch_offset pos b bs = elim (Bool-cases (sle64 fetch_offset b.base_offset)) [
  | inl starts ↦
      rw starts (record { skipped = []; split = refl; below = tt; here = ap some (omega arith) })
  | inr inner ↦ elim (Bool-cases (sle64 fetch_offset (last b))) [
    | inl holds ↦
        rw (inner, holds)
          (record { skipped = []; split = refl; below = tt; here = ap some (omega arith) })
    | inr under ↦ rw (inner, under) (start_pos-behind fetch_offset pos b bs under)
  ]
]

valid_rest : (xs ys : List LogBatch) → All IsLogBatch (xs ++ ys) → All IsLogBatch ys
valid_rest [] ys h = h
valid_rest (x ∷ xs) ys h = valid_rest xs ys h.1

-- The batches that are behind the ones skipped.
Stands-rest :
    (file front : List ℕ) (skipped from : List LogBatch)
    → Stands file front (length front) (skipped ++ from)
    → Stands file
        (front ++ log_contents skipped)
        (length front + length (log_contents skipped))
        from
Stands-rest file front skipped from s = record {
  split =
      s.split
      ∙ ap (λ t. front ++ t) (log_contents-append skipped from)
      ∙ sym (append_assoc front (log_contents skipped) (log_contents from));
  at = omega (arith, length-append front (log_contents skipped));
  small = s.small;
  valid = valid_rest skipped from s.valid;
}

-- The batches do not outnumber the bytes of the file.
enough_rounds :
    (file pre : List ℕ) (pos : ℕ) (bs : List LogBatch)
    → Stands file pre pos bs
    → length bs < suc (length file)
enough_rounds file pre pos bs s =
    omega (
      arith,
      length-log_contents bs s.valid,
      ap length s.split,
      length-append pre (log_contents bs),
    )

served-some :
    (fetch_offset : ℕ) (p : LogBatch) (bs : List LogBatch)
    → (x : LogBatch) × (xs : List LogBatch) × (served fetch_offset (some p) bs ≡ x ∷ xs)
unfolding served
served-some fetch_offset p [] = (p, [], refl)
served-some fetch_offset p (b ∷ bs) = elim (Bool-cases (sle64 fetch_offset b.base_offset)) [
  | inl starts ↦ rw starts (p, b ∷ bs, refl)
  | inr inner ↦ elim (Bool-cases (sle64 fetch_offset (last b))) [
    | inl holds ↦ rw (inner, holds) (b, bs, refl)
    | inr under ↦ rw (inner, under) (served-some fetch_offset b bs)
  ]
]

served-front :
    (fetch_offset : ℕ) (b : LogBatch) (bs : List LogBatch)
    → (x : LogBatch) × (xs : List LogBatch) × (served fetch_offset none (b ∷ bs) ≡ x ∷ xs)
unfolding served
served-front fetch_offset b bs = elim (Bool-cases (sle64 fetch_offset b.base_offset)) [
  | inl starts ↦ rw starts (b, bs, refl)
  | inr inner ↦ elim (Bool-cases (sle64 fetch_offset (last b))) [
    | inl holds ↦ rw (inner, holds) (b, bs, refl)
    | inr under ↦ rw (inner, under) (served-some fetch_offset b bs)
  ]
]

-- The second loop always takes the first batch.
limited-first :
    (max_bytes : ℕ) (x : LogBatch) (xs : List LogBatch)
    → (ys : List LogBatch) × (limited max_bytes 0 (x ∷ xs) ≡ x ∷ ys)
limited-first max_bytes x xs = elim (Bool-cases (ltb 0 max_bytes)) [
  | inr without_limit ↦ rw without_limit (limited max_bytes (0 + length x.bytes) xs, refl)
  | inl limit ↦ elim (Bool-cases (ltb max_bytes (0 + length x.bytes))) [
    | inl over ↦ rw (limit, over) ([], refl)
    | inr under ↦ rw (limit, under) (limited max_bytes (0 + length x.bytes) xs, refl)
  ]
]

limited-positive :
    (max_bytes : ℕ) (x : LogBatch) (xs : List LogBatch)
    → IsLogBatch x
    → (length (log_contents (limited max_bytes 0 (x ∷ xs))) == 0) ≡ false
limited-positive max_bytes x xs h =
    let (ys, taken) = limited-first max_bytes x xs in
    rw taken (ground (arith, h.whole, length-append x.bytes (log_contents ys)))

region_of-positive :
    (start n : ℕ) → (n == 0) ≡ false → region_of start (gathered (0 + n)) ≡ region start n
region_of-positive start n h = let same : 0 + n ≡ n = omega arith in rw (same, h) refl

region_from-limited :
    (file pre : List ℕ) (max_bytes start : ℕ) (x : LogBatch) (xs : List LogBatch)
    → Stands file pre start (x ∷ xs)
    → max_bytes < 2 ^ 62
    → region_from file max_bytes (started (some start))
      ≡ region start (length (log_contents (limited max_bytes 0 (x ∷ xs))))
region_from-limited file pre max_bytes start x xs s bound =
    ap (region_of start) (
      gather_loop-limited file max_bytes (suc (length file)) pre start 0 (x ∷ xs) s bound
        (omega arith) (enough_rounds file pre start (x ∷ xs) s))
    ∙ region_of-positive start _ (limited-positive max_bytes x xs s.valid.0)

-- On a log file whose index gives the place of a whole batch, with only whole batches from there on,
-- FindRawRegion ends without an error and skips a number of batches, which all end below the fetch
-- offset; its region starts at the first one served and holds those of them that fit in maxBytes, and
-- in any case the first. A file below 2^62 bytes is assumed, and a maxBytes below it.
pub find_raw_region-served :
    (front : List ℕ) (b : LogBatch) (bs : List LogBatch) (offset_index : OffsetIndex)
    (fetch_offset max_bytes : ℕ)
    → lookup fetch_offset offset_index ≡ looked (length front)
    → All IsLogBatch (b ∷ bs)
    → length (front ++ log_contents (b ∷ bs)) < 2 ^ 62
    → max_bytes < 2 ^ 62
    → (skipped : List LogBatch) × (b ∷ bs ≡ skipped ++ served fetch_offset none (b ∷ bs))
      × All (EndsBelow fetch_offset) skipped
      × (find_raw_region (front ++ log_contents (b ∷ bs)) offset_index fetch_offset max_bytes
          ≡ region
              (length front + length (log_contents skipped))
              (length (log_contents (limited max_bytes 0 (served fetch_offset none (b ∷ bs))))))
unfolding find_raw_region
find_raw_region-served front b bs offset_index fetch_offset max_bytes found valid small bound = (
  cut.skipped,
  cut.split,
  cut.below,
  ap (region_at file fetch_offset max_bytes) found ∙ starts ∙ gathers,
)
  where
    file : List ℕ
    file = front ++ log_contents (b ∷ bs)

    stands : Stands file front (length front) (b ∷ bs)
    stands = record { split = refl; at = refl; small = small; valid = valid }

    cut :
        Cut fetch_offset
          (length front)
          (b ∷ bs)
          (served fetch_offset none (b ∷ bs))
          (start_pos fetch_offset none (length front) (b ∷ bs))
    cut = start_pos-front fetch_offset (length front) b bs

    start : ℕ
    start = length front + length (log_contents cut.skipped)

    starts :
        region_at file fetch_offset max_bytes (looked (length front))
        ≡ region_from file max_bytes (started (some start))
    starts = ap (region_from file max_bytes) (
        start_loop-start_pos file fetch_offset (suc (length file)) front (length front) (b ∷ bs)
          none stands (enough_rounds file front (length front) (b ∷ bs) stands)
        ∙ ap started cut.here)

    gathers :
        region_from file max_bytes (started (some start))
        ≡ region start
            (length (log_contents (limited max_bytes 0 (served fetch_offset none (b ∷ bs)))))
    gathers =
        let (x, xs, first) = served-front fetch_offset b bs in
        let rest : Stands file (front ++ log_contents cut.skipped) start (x ∷ xs) =
          Stands-rest file front cut.skipped (x ∷ xs) (record {
            split =
                ap (λ t. front ++ log_contents t) (cut.split ∙ ap (λ t. cut.skipped ++ t) first);
            at = refl;
            small = small;
            valid = subst (All IsLogBatch) (cut.split ∙ ap (λ t. cut.skipped ++ t) first) valid;
          }) in
        rw first (
          region_from-limited file (front ++ log_contents cut.skipped) max_bytes start x xs rest
            bound)
