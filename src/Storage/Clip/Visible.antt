-- ===== src/Storage/Clip/Visible.antt =====
-- A clipped region holds the whole batches before the first that is not visible.
use kaf_go.Base.{
  ap, sym, ◌∙◌, ℕ, zero, suc, ◌+◌, ◌-◌, ◌%◌, ◌^◌, ◌≤◌, ◌<◌, ◌≡◌, refl, arith, true, false, List, [],
  ◌∷◌, ◌++◌, some,
}
use kaf_go.Base.{
  Bool-cases, inl, inr, length, take, length-append, drop-append_length, append_assoc, All, leb,
  ltb, ◌==◌, ◌||◌, sle64, slt64, if◌then◌else◌, two64,
}
use kaf_go.Storage.Clip.{
  RecordsRegion, batch_log_overhead, batch_header_read_size, visible, stop, more, read_at, field,
  last_offset, scan_batch, scan_round, scan_loop, clipped, with_size, clip_file,
  clip_region_to_offset,
}

-- A record batch in the log file: its base offset, its number of records, and its bytes.
pub record Batch : Type 0 where
  pub base_offset : ℕ
  pub record_count : ℕ
  pub bytes : List ℕ

-- The header in the bytes is that of the batch.
pub record IsBatch (b : Batch) : Type 0 where
  pub whole : 61 ≤ length b.bytes
  pub some_records : 0 < b.record_count
  pub base : field (take 61 b.bytes) 0 8 ≡ b.base_offset
  pub len : 12 + field (take 61 b.bytes) 8 4 ≡ length b.bytes
  pub count : field (take 61 b.bytes) 57 4 ≡ b.record_count

abbrev pub contents : List Batch → List ℕ
contents [] = []
contents (b ∷ bs) = b.bytes ++ contents bs

-- The batches before the first whose last offset is `max_visible` or above.
abbrev pub visible_batches : ℕ → List Batch → List Batch
visible_batches max_visible [] = []
visible_batches max_visible (b ∷ bs) =
    let rest = visible_batches max_visible bs in
    if sle64 max_visible (last_offset b.base_offset b.record_count) then [] else b ∷ rest

take-append_le : (n : ℕ) (xs ys : List ℕ) → n ≤ length xs → take n (xs ++ ys) ≡ take n xs
take-append_le zero xs ys h = refl
take-append_le (suc n) [] ys h = absurd (omega arith)
take-append_le (suc n) (x ∷ xs) ys h = ap (λ t. x ∷ t) (take-append_le n xs ys (omega arith))

read_at-front :
    (pre xs rest : List ℕ) (p : ℕ)
    → p ≡ length pre
    → 61 ≤ length xs
    → read_at (pre ++ (xs ++ rest)) p 61 ≡ some (take 61 xs)
unfolding read_at
read_at-front pre xs rest p e h =
    let room : leb (length pre + 61) (length (pre ++ (xs ++ rest))) ≡ true =
      ground (arith, length-append pre (xs ++ rest), length-append xs rest) in
    rw (e, room, drop-append_length pre (xs ++ rest), take-append_le 61 xs rest h) refl

scan_batch-whole :
    (size max_visible pos base len count total : ℕ)
    → 12 + len ≡ total
    → 61 ≤ total
    → 0 < count
    → pos + total ≤ size
    → size < 2 ^ 62
    → scan_batch size max_visible pos pos base len count ≡ (
        if sle64 max_visible (last_offset base count)
        then stop (visible pos)
        else more (pos + total) (pos + total))
unfolding scan_batch
scan_batch-whole size max_visible pos base len count total e whole positive inside fits =
    let good : (ltb len batch_log_overhead || (count == 0)) ≡ false = ground arith in
    let next : (pos + (batch_log_overhead + len)) % two64 ≡ pos + total = omega arith in
    let under : slt64 size (pos + total) ≡ false = ground arith in rw (good, next, under) refl

module _ (file : List ℕ) (file_offset size max_visible : ℕ) (back : List ℕ)
    (small : length file < 2 ^ 62) where
  -- The loop stands between the batches it has passed and `bs`.
  record Stands (pre : List ℕ) (pos : ℕ) (bs : List Batch) : Type 0 where
    split : file ≡ pre ++ (contents bs ++ back)
    place : length pre ≡ file_offset + pos
    left : size ≡ pos + length (contents bs)

  regroup :
      (pre : List ℕ) (b : Batch) (bs : List Batch)
      → file ≡ pre ++ (contents (b ∷ bs) ++ back)
      → file ≡ pre ++ (b.bytes ++ (contents bs ++ back))
  regroup pre b bs e = e ∙ ap (λ t. pre ++ t) (append_assoc b.bytes (contents bs) back)

  passed :
      (pre : List ℕ) (pos : ℕ) (b : Batch) (bs : List Batch)
      → Stands pre pos (b ∷ bs)
      → Stands (pre ++ b.bytes) (pos + length b.bytes) bs
  passed pre pos b bs s = record {
    split = regroup pre b bs s.split ∙ sym (append_assoc pre b.bytes (contents bs ++ back));
    place = omega (arith, s.place, length-append pre b.bytes);
    left = omega (arith, s.left, length-append b.bytes (contents bs));
  }

  scan_round-end :
      (pre : List ℕ) (pos : ℕ)
      → Stands pre pos []
      → scan_round file file_offset size max_visible pos pos ≡ stop (visible pos)
  unfolding scan_round
  scan_round-end pre pos s =
      let all : slt64 pos size ≡ false = ground (arith, s.left) in rw all refl

  scan_round-batch :
      (pre : List ℕ) (pos : ℕ) (b : Batch) (bs : List Batch)
      → Stands pre pos (b ∷ bs)
      → IsBatch b
      → scan_round file file_offset size max_visible pos pos ≡ (
          if sle64 max_visible (last_offset b.base_offset b.record_count)
          then stop (visible pos)
          else more (pos + length b.bytes) (pos + length b.bytes))
  unfolding scan_round
  scan_round-batch pre pos b bs s h =
      rw (inside, room, header)
        (rw (h.base, h.count)
          (scan_batch-whole size max_visible pos b.base_offset (field (take 61 b.bytes) 8 4)
            b.record_count (length b.bytes) h.len h.whole h.some_records (omega (arith, measure))
            (omega (arith, measure, total, s.place))))
    where
      total : length file ≡ length pre + (length b.bytes + (length (contents bs) + length back))
      total = omega (
        arith,
        ap length s.split,
        length-append pre (contents (b ∷ bs) ++ back),
        length-append (contents (b ∷ bs)) back,
        length-append b.bytes (contents bs),
      )

      measure : size ≡ pos + (length b.bytes + length (contents bs))
      measure = omega (arith, s.left, length-append b.bytes (contents bs))

      inside : slt64 pos size ≡ true
      inside = ground (arith, measure, total, s.place, h.whole)

      room : slt64 ((size + (two64 - pos)) % two64) batch_header_read_size ≡ false
      room = ground (arith, measure, total, s.place, h.whole)

      header :
          read_at file ((file_offset + pos) % two64) batch_header_read_size ≡ some (take 61 b.bytes)
      header =
          ap (λ f. read_at f ((file_offset + pos) % two64) 61) (regroup pre b bs s.split)
          ∙ read_at-front pre b.bytes (contents bs ++ back) ((file_offset + pos) % two64)
              (omega (arith, total, s.place)) h.whole

  scan_loop-visible :
      (rounds : ℕ) (pre : List ℕ) (pos : ℕ) (bs : List Batch)
      → Stands pre pos bs
      → All IsBatch bs
      → length bs < rounds
      → scan_loop file file_offset size max_visible rounds pos pos
        ≡ visible (pos + length (contents (visible_batches max_visible bs)))
  unfolding scan_loop
  scan_loop-visible zero pre pos bs s h enough = absurd (omega arith)
  scan_loop-visible (suc rounds) pre pos [] s h enough =
      rw (scan_round-end pre pos s) (ap visible (omega arith))
  scan_loop-visible (suc rounds) pre pos (b ∷ bs) s h enough =
      rw (scan_round-batch pre pos b bs s h.0)
        (elim (Bool-cases (sle64 max_visible (last_offset b.base_offset b.record_count))) [
          | inl hidden ↦ rw hidden (ap visible (omega arith))
          | inr seen ↦ rw seen (
              scan_loop-visible rounds (pre ++ b.bytes) (pos + length b.bytes) bs
                (passed pre pos b bs s) h.1 (omega arith)
              ∙ ap visible (
                  omega (arith, length-append b.bytes (contents (visible_batches max_visible bs)))))
        ])

length-contents : (bs : List Batch) → All IsBatch bs → length bs ≤ length (contents bs)
length-contents [] h = omega arith
length-contents (b ∷ bs) h =
    omega (arith, h.0.whole, length-append b.bytes (contents bs), length-contents bs h.1)

visible_batches-le :
    (max_visible : ℕ) (bs : List Batch)
    → length (contents (visible_batches max_visible bs)) ≤ length (contents bs)
visible_batches-le max_visible [] = omega arith
visible_batches-le max_visible (b ∷ bs) =
    elim (Bool-cases (sle64 max_visible (last_offset b.base_offset b.record_count))) [
      | inl hidden ↦ rw hidden (omega arith)
      | inr seen ↦ rw seen (
          omega (
            arith,
            length-append b.bytes (contents bs),
            visible_batches-le max_visible bs,
            length-append b.bytes (contents (visible_batches max_visible bs)),
          ))
    ]

resized :
    (reg : RecordsRegion) (n : ℕ)
    → reg.size ≡ n
    → clipped (some reg) ≡ clipped (some (record reg { size = n }))
resized reg n e = ap (λ m. clipped (some (record reg { size = m }))) e

with_size-visible :
    (reg : RecordsRegion) (n : ℕ)
    → with_size reg (visible n) ≡ clipped (some (record reg { size = n }))
with_size-visible reg n = elim (Bool-cases (n == reg.size)) [
  | inl same ↦ rw same (resized reg n (ground arith))
  | inr other ↦ rw other refl
]

-- On a region of the log file that holds whole record batches ClipRegionToOffset ends and gives the
-- region back with the size of the batches before the first whose last offset is `max_visible` or
-- above, so that it holds exactly these; a file below 2^62 bytes is assumed.
pub clip_region_to_offset-visible :
    (front back : List ℕ) (batches : List Batch) (reg : RecordsRegion) (max_visible : ℕ)
    → reg.file ≡ some (front ++ (contents batches ++ back))
    → reg.file_offset ≡ length front
    → reg.size ≡ length (contents batches)
    → All IsBatch batches
    → length (front ++ (contents batches ++ back)) < 2 ^ 62
    → clip_region_to_offset (some reg) max_visible
      ≡ clipped
          (some (record reg { size = length (contents (visible_batches max_visible batches)) }))
unfolding clip_region_to_offset
clip_region_to_offset-visible front back batches reg max_visible in_file at_front sized valid fits =
    elim (Bool-cases (reg.size == 0)) [
      | inl empty ↦
          rw empty (resized reg _ (ground (arith, sized, visible_batches-le max_visible batches)))
      | inr some_bytes ↦ rw some_bytes (ap (clip_file reg max_visible) in_file ∙ scanned)
    ]
  where
    file : List ℕ
    file = front ++ (contents batches ++ back)

    stands : Stands file reg.file_offset reg.size max_visible back fits front 0 batches
    stands = record { split = refl; place = omega (arith, at_front); left = omega (arith, sized) }

    scanned :
        clip_file reg max_visible (some file)
        ≡ clipped
            (some (record reg { size = length (contents (visible_batches max_visible batches)) }))
    scanned =
        ap (with_size reg) (
          scan_loop-visible file reg.file_offset reg.size max_visible back fits (suc reg.size) front
            0 batches stands valid (omega (arith, sized, length-contents batches valid))
          ∙ ap visible (omega arith))
        ∙ with_size-visible reg _
