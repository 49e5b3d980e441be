-- ===== src/Storage/Region/Search.antt =====
-- What the two loops of FindRawRegion compute on a file of whole batches.
use kaf_go.Base.{
  ap, ◌∙◌, sym, ℕ, zero, suc, ◌+◌, ◌-◌, ◌%◌, ◌^◌, ◌≤◌, ◌<◌, ◌≡◌, refl, inl, inr, arith, Bool-cases,
  true, false, List, [], ◌∷◌, ◌++◌, Option, some,
}
use kaf_go.Base.{
  length, take, drop, length-append, append_assoc, append-nil, All, if◌then◌else◌, ltb, ◌&&◌, slt64,
  sle64, two64, extend32,
}
use kaf_go.Protocol.Reader.{big_endian}
use kaf_go.Storage.Clip.{read_at, field}
use kaf_go.Storage.Region.{
  BatchMeta, header_size_up_to_magic, meta_of, read_batch_meta_17, last_of, read_last_offset,
  started, begin, pass, place, or_else, start_round, start_loop, gathered, weigh, gather_round,
  gather_loop,
}
use kaf_go.Storage.Region.Batches.{
  LogBatch, IsLogBatch, last, log_contents, drop-drop, field-take, read_at-piece,
}

abbrev as_meta : ℕ → LogBatch → BatchMeta
as_meta pos b = record {
  file_pos = pos;
  base_offset = b.base_offset;
  total_len = length b.bytes;
  last_offset = two64 - 1;
}

-- The file holds the batches bs behind `pre`, which ends at pos.
pub record Stands (file pre : List ℕ) (pos : ℕ) (bs : List LogBatch) : Type 0 where
  pub split : file ≡ pre ++ log_contents bs
  pub at : pos ≡ length pre
  pub small : length file < 2 ^ 62
  pub valid : All IsLogBatch bs

pub passed :
    (file pre : List ℕ) (pos : ℕ) (b : LogBatch) (bs : List LogBatch)
    → Stands file pre pos (b ∷ bs)
    → Stands file (pre ++ b.bytes) (pos + length b.bytes) bs
passed file pre pos b bs s = record {
  split = s.split ∙ sym (append_assoc pre b.bytes (log_contents bs));
  at = omega (arith, s.at, length-append pre b.bytes);
  small = s.small;
  valid = s.valid.1;
}

pub measure :
    (file pre : List ℕ) (pos : ℕ) (b : LogBatch) (bs : List LogBatch)
    → Stands file pre pos (b ∷ bs)
    → length file ≡ pos + (length b.bytes + length (log_contents bs))
measure file pre pos b bs s = omega (
  arith,
  s.at,
  ap length s.split,
  length-append pre (b.bytes ++ log_contents bs),
  length-append b.bytes (log_contents bs),
)

module _ (file pre : List ℕ) (pos : ℕ) (b : LogBatch) (bs : List LogBatch)
    (s : Stands file pre pos (b ∷ bs)) where
  read_piece :
      (p q n : ℕ)
      → p ≡ pos + q
      → q + n ≤ length b.bytes
      → read_at file p n ≡ some (take n (drop q b.bytes))
  read_piece p q n e h =
      ap (λ f. read_at f p n) s.split
      ∙ read_at-piece pre b.bytes (log_contents bs) p q n (omega (arith, e, s.at)) h

  total : (12 + extend32 (field (take 17 b.bytes) 8 4)) % two64 ≡ length b.bytes
  total =
      let len = ap (λ n. (12 + extend32 n) % two64) (field-take 8 4 17 b.bytes (omega arith)) in
      ground (arith, len, s.valid.0.len, s.valid.0.short)

  read_batch_meta_17-batch : read_batch_meta_17 file pos ≡ some (as_meta pos b)
  unfolding read_batch_meta_17
  read_batch_meta_17-batch =
      ap (meta_of pos) (read_piece pos 0 17 (omega arith) (omega (arith, s.valid.0.whole)))
      ∙ rw (field-take 0 8 17 b.bytes (omega arith) ∙ s.valid.0.base, total) refl

  delta : field (take 10 (drop 17 b.bytes)) 6 4 ≡ b.last_offset_delta
  delta =
      field-take 6 4 10 (drop 17 b.bytes) (omega arith)
      ∙ ap (λ t. big_endian 0 (take 4 t)) (drop-drop 17 6 b.bytes)
      ∙ s.valid.0.delta

  read_last_offset-batch : read_last_offset file (as_meta pos b) ≡ some (last b)
  unfolding read_last_offset
  read_last_offset-batch =
      ap (last_of b.base_offset) (
        read_piece ((pos + header_size_up_to_magic) % two64) 17 10
          (omega (arith, measure file pre pos b bs s, s.small)) (omega (arith, s.valid.0.whole)))
      ∙ ap (λ d. some ((b.base_offset + extend32 d) % two64)) delta

  inside : sle64 ((pos + header_size_up_to_magic) % two64) (length file) ≡ true
  inside = ground (arith, measure file pre pos b bs s, s.small, s.valid.0.whole)

  start_round-batch :
      (fetch_offset : ℕ) (previous : Option BatchMeta)
      → start_round file fetch_offset pos previous ≡ (
          if sle64 fetch_offset b.base_offset
          then begin (started (some (or_else pos (place previous))))
          else if sle64 fetch_offset (last b)
          then begin (started (some pos))
          else pass (record (as_meta pos b) { last_offset = last b }))
  unfolding start_round
  start_round-batch fetch_offset previous =
      rw (inside, read_batch_meta_17-batch, read_last_offset-batch) refl

  gather_round-batch :
      (max_bytes accumulated : ℕ)
      → gather_round file max_bytes pos accumulated
        ≡ weigh max_bytes pos accumulated (some (as_meta pos b))
  unfolding gather_round
  gather_round-batch max_bytes accumulated = rw (inside, read_batch_meta_17-batch) refl

outside :
    (file pre : List ℕ) (pos : ℕ)
    → Stands file pre pos []
    → sle64 ((pos + header_size_up_to_magic) % two64) (length file) ≡ false
outside file pre pos s =
    let end : length file ≡ pos = omega (arith, s.at, ap length (s.split ∙ append-nil pre)) in
    ground (arith, s.small)

-- Where the first loop stops on batches that stand at pos.
abbrev pub start_pos : ℕ → Option ℕ → ℕ → List LogBatch → Option ℕ
start_pos fetch_offset previous pos [] = previous
start_pos fetch_offset previous pos (b ∷ bs) =
    let rest = start_pos fetch_offset (some pos) (pos + length b.bytes) bs in
    if sle64 fetch_offset b.base_offset
    then some (or_else pos previous)
    else if sle64 fetch_offset (last b)
    then some pos
    else rest

pub start_loop-start_pos :
    (file : List ℕ) (fetch_offset rounds : ℕ) (pre : List ℕ) (pos : ℕ) (bs : List LogBatch)
    (previous : Option BatchMeta)
    → Stands file pre pos bs
    → length bs < rounds
    → start_loop file fetch_offset rounds pos previous
      ≡ started (start_pos fetch_offset (place previous) pos bs)
unfolding start_loop
start_loop-start_pos file fetch_offset zero pre pos bs previous s enough = absurd (omega arith)
start_loop-start_pos file fetch_offset (suc rounds) pre pos [] previous s enough =
    unfold start_round in rw (outside file pre pos s) refl
start_loop-start_pos file fetch_offset (suc rounds) pre pos (b ∷ bs) previous s enough =
    rw (start_round-batch file pre pos b bs s fetch_offset previous)
      (elim (Bool-cases (sle64 fetch_offset b.base_offset)) [
        | inl starts ↦ rw starts refl
        | inr below ↦ elim (Bool-cases (sle64 fetch_offset (last b))) [
          | inl holds ↦ rw (below, holds) refl
          | inr above ↦
              let next : (pos + length b.bytes) % two64 ≡ pos + length b.bytes =
                omega (arith, measure file pre pos b bs s, s.small) in
              rw (below, above, next)
                (start_loop-start_pos file fetch_offset rounds (pre ++ b.bytes)
                  (pos + length b.bytes) bs (some (record (as_meta pos b) { last_offset = last b }))
                  (passed file pre pos b bs s) (omega arith))
        ]
      ])

-- The batches that the second loop takes: the first, and more while they fit in max_bytes, which does
-- not limit them where it is 0.
abbrev pub limited : ℕ → ℕ → List LogBatch → List LogBatch
limited max_bytes accumulated [] = []
limited max_bytes accumulated (b ∷ bs) =
    let sum = accumulated + length b.bytes in
    let rest = limited max_bytes sum bs in
    if ltb 0 max_bytes && (ltb 0 accumulated && ltb max_bytes sum)
    then []
    else if ltb 0 max_bytes && ltb max_bytes sum
    then b ∷ []
    else b ∷ rest

pub gather_loop-limited :
    (file : List ℕ) (max_bytes rounds : ℕ) (pre : List ℕ) (pos accumulated : ℕ) (bs : List LogBatch)
    → Stands file pre pos bs
    → max_bytes < 2 ^ 62
    → accumulated ≤ pos
    → length bs < rounds
    → gather_loop file max_bytes rounds pos accumulated
      ≡ gathered (accumulated + length (log_contents (limited max_bytes accumulated bs)))
unfolding gather_loop
gather_loop-limited file max_bytes zero pre pos accumulated bs s bound le enough =
    absurd (omega arith)
gather_loop-limited file max_bytes (suc rounds) pre pos accumulated [] s bound le enough =
    unfold gather_round in rw (outside file pre pos s) (ap gathered (omega arith))
gather_loop-limited file max_bytes (suc rounds) pre pos accumulated (b ∷ bs) s bound le enough =
    rw (gather_round-batch file pre pos b bs s max_bytes accumulated) (
      rw (sum, some_bytes, some_sum, over)
        (elim (Bool-cases (
          ltb 0 max_bytes && (ltb 0 accumulated && ltb max_bytes (accumulated + length b.bytes)))) [
            | inl full ↦ rw full (ap gathered (omega arith))
            | inr fits ↦
                elim (Bool-cases
                  (ltb 0 max_bytes && ltb max_bytes (accumulated + length b.bytes))) [
                    | inl ends ↦
                        rw (fits, ends) (ap gathered (omega (arith, length-append b.bytes [])))
                    | inr more ↦
                        rw (fits, more, next)
                          (gather_loop-limited file max_bytes rounds (pre ++ b.bytes)
                              (pos + length b.bytes) (accumulated + length b.bytes) bs
                              (passed file pre pos b bs s) bound (omega arith) (omega arith)
                            ∙ ap gathered (
                                omega (
                                  arith,
                                  length-append b.bytes (
                                      log_contents
                                        (limited max_bytes (accumulated + length b.bytes) bs)),
                                )))
                  ]
          ]))
  where
    room : pos + length b.bytes < 2 ^ 62
    room = omega (arith, measure file pre pos b bs s, s.small)

    sum : (accumulated + length b.bytes) % two64 ≡ accumulated + length b.bytes
    sum = omega (arith, room)

    next : (pos + length b.bytes) % two64 ≡ pos + length b.bytes
    next = omega (arith, room)

    some_bytes : slt64 0 max_bytes ≡ ltb 0 max_bytes
    some_bytes = ground arith

    some_sum : slt64 0 accumulated ≡ ltb 0 accumulated
    some_sum = ground (arith, room)

    over :
        slt64 max_bytes (accumulated + length b.bytes)
        ≡ ltb max_bytes (accumulated + length b.bytes)
    over = ground (arith, room)
