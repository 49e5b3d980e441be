-- ===== src/Server/Replica/Count.antt =====
-- countRecordsInRecordBatches, on any bytes and on whole record batches.
use kaf_go.Base.{
  ap, ◌∙◌, sym, ℕ, zero, suc, ◌+◌, ◌-◌, ◌%◌, ◌≤◌, ◌<◌, ◌≡◌, refl, arith, Bool-cases, inl, inr,
  false, List, [], ◌∷◌, ◌++◌,
}
use kaf_go.Base.{
  length, drop, ltb, All, two32, length-append, take-append_length, drop-append_length,
}
use kaf_go.Storage.Clip.{field}
use kaf_go.Storage.Region.Batches.{LogBatch, log_contents, field-take, length-log_contents}
use kaf_go.Api.Fetch.Batches.{IsRecordBatch, All-log_batch}
use kaf_go.Server.Replica.{
  Counted, counted, unexpected_eof, unfinished, count_loop, count_records_in_record_batches,
}

-- The batches hold so many records.
abbrev pub records_in : List LogBatch → ℕ
records_in [] = 0
records_in (b ∷ bs) = (b.last_offset_delta + 1) + records_in bs

length-drop : (n : ℕ) (xs : List ℕ) → length (drop n xs) ≡ length xs - n
length-drop zero xs = omega arith
length-drop (suc n) [] = omega arith
length-drop (suc n) (x ∷ xs) = omega (arith, length-drop n xs)

abbrev Ends : Counted → Type 0
Ends (counted n) = Unit
Ends unexpected_eof = Unit
Ends unfinished = ⊥

count_loop-Ends :
    (rounds : ℕ) (raw : List ℕ) (total : ℕ)
    → length raw < rounds
    → Ends (count_loop rounds raw total)
unfolding count_loop
count_loop-Ends zero raw total h = absurd (omega arith)
count_loop-Ends (suc rounds) [] total h = tt
count_loop-Ends (suc rounds) (byte ∷ bytes) total h =
    let raw = byte ∷ bytes in
    elim (Bool-cases (ltb (length raw) 61)) [
      | inl e ↦ rw e tt
      | inr e ↦ elim (Bool-cases (ltb (field raw 8 4) 12)) [
        | inl f ↦ rw (e, f) tt
        | inr f ↦
            rw (e, f)
              (count_loop-Ends rounds (drop (12 + field raw 8 4) raw)
                ((total + field raw 57 4) % two32)
                (omega (arith, length-drop (12 + field raw 8 4) raw, h)))
      ]
    ]

-- Counting the records of any bytes comes to an end.
pub count_records-Ends : (raw : List ℕ) → Ends (count_records_in_record_batches raw)
unfolding count_records_in_record_batches
count_records-Ends raw = count_loop-Ends (suc (length raw)) raw 0 (omega arith)

field-append : (p w : ℕ) (xs ys : List ℕ) → p + w ≤ length xs → field (xs ++ ys) p w ≡ field xs p w
field-append p w xs ys h =
    sym (field-take p w (length xs) (xs ++ ys) h) ∙ ap (λ t. field t p w) (take-append_length xs ys)

count_loop-step :
    (rounds total : ℕ) (raw : List ℕ)
    → 61 ≤ length raw
    → 12 ≤ field raw 8 4
    → count_loop (suc rounds) raw total
      ≡ count_loop rounds (drop (12 + field raw 8 4) raw) ((total + field raw 57 4) % two32)
unfolding count_loop
count_loop-step rounds total [] long len = absurd (omega arith)
count_loop-step rounds total (byte ∷ bytes) long len =
    let whole : ltb (length (byte ∷ bytes)) 61 ≡ false = ground arith in
    let enough : ltb (field (byte ∷ bytes) 8 4) 12 ≡ false = ground arith in rw (whole, enough) refl

count_loop-batch :
    (rounds total : ℕ) (b : LogBatch) (rest : List ℕ)
    → IsRecordBatch b
    → total + (b.last_offset_delta + 1) < two32
    → count_loop (suc rounds) (b.bytes ++ rest) total
      ≡ count_loop rounds rest (total + (b.last_offset_delta + 1))
count_loop-batch rounds total b rest h small =
    let len = field-append 8 4 b.bytes rest (omega (arith, h.header)) in
    let count = field-append 57 4 b.bytes rest (omega (arith, h.header)) ∙ h.counted in
    let size : 12 + field (b.bytes ++ rest) 8 4 ≡ length b.bytes =
      ap (λ n. 12 + n) len ∙ h.log_batch.len in
    count_loop-step rounds total (b.bytes ++ rest)
      (omega (arith, h.header, length-append b.bytes rest)) (omega (arith, size, h.header))
    ∙ ap (λ t. count_loop rounds t ((total + field (b.bytes ++ rest) 57 4) % two32))
        (ap (λ n. drop n (b.bytes ++ rest)) size ∙ drop-append_length b.bytes rest)
    ∙ ap (count_loop rounds rest) (omega (arith, count))

count_loop-batches :
    (rounds total : ℕ) (bs : List LogBatch)
    → All IsRecordBatch bs
    → length bs < rounds
    → total + records_in bs < two32
    → count_loop rounds (log_contents bs) total ≡ counted (total + records_in bs)
count_loop-batches zero total bs h enough small = absurd (omega arith)
count_loop-batches (suc rounds) total [] h enough small =
    unfold count_loop in ap counted (omega arith)
count_loop-batches (suc rounds) total (b ∷ bs) h enough small =
    count_loop-batch rounds total b (log_contents bs) h.0 (omega arith)
    ∙ count_loop-batches rounds (total + (b.last_offset_delta + 1)) bs h.1 (omega arith)
        (omega arith)
    ∙ ap counted (omega arith)

-- On whole record batches the records are counted.
pub count_records-batches :
    (bs : List LogBatch)
    → All IsRecordBatch bs
    → records_in bs < two32
    → count_records_in_record_batches (log_contents bs) ≡ counted (records_in bs)
unfolding count_records_in_record_batches
count_records-batches bs h small =
    count_loop-batches (suc (length (log_contents bs))) 0 bs h
      (omega (arith, length-log_contents bs (All-log_batch bs h))) (omega arith)
    ∙ ap counted (omega arith)
