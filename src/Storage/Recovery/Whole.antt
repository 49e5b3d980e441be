-- ===== src/Storage/Recovery/Whole.antt =====
-- What a segment finds again in a log file of whole batches, the last of them perhaps cut off.
use kaf_go.Base.{
  ap, ◌∙◌, sym, ℕ, zero, suc, ◌+◌, ◌-◌, ◌%◌, ◌^◌, ◌≤◌, ◌<◌, ◌≡◌, ◌⊎◌, refl, inl, inr, arith,
  Bool-cases, true, false, List, [], ◌∷◌, ◌++◌, Option, none, some,
}
use kaf_go.Base.{
  length, take, length-append, append_assoc, append-nil, All, if◌then◌else◌, leb, ◌||◌, slt64,
  sle64, two64, extend32,
}
use kaf_go.Storage.Clip.{read_at, field}
use kaf_go.Storage.Recovery.{
  Walk, stop, more, walk, base_header, base_round, offset_header, offset_round, scan_last_offset,
  known_last, next_offset,
}
use kaf_go.Storage.Region.Batches.{
  LogBatch, IsLogBatch, last, log_contents, field-take, read_at-piece, length-log_contents,
}

-- What is left of a batch whose write was cut off: less than the header that is read, or less than
-- the length in it.
abbrev pub IsTorn : List ℕ → Type 0
IsTorn torn =
    (length torn < 27)
    ⊎ ((27 ≤ length torn) × (length torn < 12 + field torn 8 4) × (field torn 8 4 < 2 ^ 31))

-- The file holds the batches bs behind `pre`, which ends at pos, and then a torn one.
pub record Stands (torn file pre : List ℕ) (pos : ℕ) (bs : List LogBatch) : Type 0 where
  pub split : file ≡ pre ++ (log_contents bs ++ torn)
  pub at : pos ≡ length pre
  pub small : length file < 2 ^ 62
  pub valid : All IsLogBatch bs

pub passed :
    (torn file pre : List ℕ) (pos : ℕ) (b : LogBatch) (bs : List LogBatch)
    → Stands torn file pre pos (b ∷ bs)
    → Stands torn file (pre ++ b.bytes) (pos + length b.bytes) bs
passed torn file pre pos b bs s = record {
  split =
      s.split
      ∙ ap (λ t. pre ++ t) (append_assoc b.bytes (log_contents bs) torn)
      ∙ sym (append_assoc pre b.bytes (log_contents bs ++ torn));
  at = omega (arith, s.at, length-append pre b.bytes);
  small = s.small;
  valid = s.valid.1;
}

pub measure :
    (torn file pre : List ℕ) (pos : ℕ) (bs : List LogBatch)
    → Stands torn file pre pos bs
    → length file ≡ pos + (length (log_contents bs) + length torn)
measure torn file pre pos bs s = omega (
  arith,
  s.at,
  ap length s.split,
  length-append pre (log_contents bs ++ torn),
  length-append (log_contents bs) torn,
)

-- The batches in order, each treated by `step`.
abbrev pub over {ℓ} : {A : Type ℓ} → (LogBatch → A → A) → A → List LogBatch → A
over step x [] = x
over step x (b ∷ bs) = over step (step b x) bs

-- A walk that treats every batch by `step` and ends at the torn one.
pub walk-batches {ℓ} :
    {A : Type ℓ} (torn file : List ℕ) (round : ℕ → A → Walk A) (step : LogBatch → A → A)
    → ((pre : List ℕ) (pos : ℕ) (b : LogBatch) (bs : List LogBatch) (x : A)
        → Stands torn file pre pos (b ∷ bs)
        → round pos x ≡ more (pos + length b.bytes) (step b x))
    → ((pre : List ℕ) (pos : ℕ) (x : A) → Stands torn file pre pos [] → round pos x ≡ stop x)
    → (rounds : ℕ) (pre : List ℕ) (pos : ℕ) (bs : List LogBatch) (x : A)
    → Stands torn file pre pos bs
    → length bs < rounds
    → walk round rounds pos x ≡ some (over step x bs)
walk-batches torn file round step goes ends zero pre pos bs x s enough = absurd (omega arith)
walk-batches torn file round step goes ends (suc rounds) pre pos [] x s enough =
    rw (ends pre pos x s) refl
walk-batches torn file round step goes ends (suc rounds) pre pos (b ∷ bs) x s enough =
    rw (goes pre pos b bs x s) (
      walk-batches torn file round step goes ends rounds (pre ++ b.bytes) (pos + length b.bytes) bs
        (step b x) (passed torn file pre pos b bs s) (omega arith))

module _ (torn file pre : List ℕ) (pos : ℕ) (b : LogBatch) (bs : List LogBatch)
    (s : Stands torn file pre pos (b ∷ bs)) where
  room : length file ≡ pos + (length b.bytes + (length (log_contents bs) + length torn))
  room =
      omega (arith, measure torn file pre pos (b ∷ bs) s, length-append b.bytes (log_contents bs))

  pub read_header : (n : ℕ) → n ≤ length b.bytes → read_at file pos n ≡ some (take n b.bytes)
  read_header n h =
      ap (λ f. read_at f pos n)
        (s.split ∙ ap (λ t. pre ++ t) (append_assoc b.bytes (log_contents bs) torn))
      ∙ read_at-piece pre b.bytes (log_contents bs ++ torn) pos 0 n (omega (arith, s.at))
          (omega arith)

  pub inside :
      (n : ℕ) → n ≤ length b.bytes → n < 2 ^ 32 → sle64 ((pos + n) % two64) (length file) ≡ true
  inside n h small = ground (arith, room, s.small)

  wide : (12 + field (take 27 b.bytes) 8 4) % two64 ≡ length b.bytes
  wide =
      let len = ap (λ n. (12 + n) % two64) (field-take 8 4 27 b.bytes (omega arith)) in
      ground (arith, len, s.valid.0.len, s.valid.0.short)

  pub narrow :
      (n : ℕ) → 12 ≤ n → (12 + extend32 (field (take n b.bytes) 8 4)) % two64 ≡ length b.bytes
  narrow n h =
      let len = ap (λ n. (12 + extend32 n) % two64) (field-take 8 4 n b.bytes (omega arith)) in
      ground (arith, len, s.valid.0.len, s.valid.0.short)

  pub fits :
      (sle64 (length b.bytes) 0 || slt64 (length file) ((pos + length b.bytes) % two64)) ≡ false
  fits = ground (arith, room, s.small, s.valid.0.whole)

  pub place_after : (pos + length b.bytes) % two64 ≡ pos + length b.bytes
  place_after = omega (arith, room, s.small)

  base_round-batch : (x : ℕ) → base_round file pos x ≡ more (pos + length b.bytes) b.base_offset
  unfolding base_round
  base_round-batch x =
      rw (inside 17 (omega (arith, s.valid.0.whole)) (omega arith), read_header 27 s.valid.0.whole)
        (rw (wide, fits, place_after, field-take 0 8 27 b.bytes (omega arith) ∙ s.valid.0.base)
          refl)

  offset_round-batch :
      (x : ℕ) → offset_round file pos x ≡ more (pos + length b.bytes) ((last b + 1) % two64)
  unfolding offset_round
  offset_round-batch x =
      let next : (b.base_offset + extend32 b.last_offset_delta + 1) % two64 ≡ (last b + 1) % two64 =
        omega arith in
      rw (inside 27 s.valid.0.whole (omega arith), read_header 27 s.valid.0.whole)
        (rw
          (
            narrow 27 (omega arith),
            fits,
            place_after,
            field-take 0 8 27 b.bytes (omega arith) ∙ s.valid.0.base,
            field-take 23 4 27 b.bytes (omega arith) ∙ s.valid.0.delta,
            next,
          )
          refl)

module _ (torn file pre : List ℕ) (pos : ℕ) (s : Stands torn file pre pos []) where
  torn_size : length file ≡ pos + length torn
  torn_size = omega (arith, measure torn file pre pos [] s)

  short_read : length torn < 27 → read_at file pos 27 ≡ none
  unfolding read_at
  short_read h =
      let beyond : leb (pos + 27) (length file) ≡ false = ground (arith, torn_size) in
      rw beyond refl

  torn_header : 27 ≤ length torn → read_at file pos 27 ≡ some (take 27 torn)
  torn_header h =
      ap (λ f. read_at f pos 27) (s.split ∙ ap (λ t. pre ++ t) (sym (append-nil torn)))
      ∙ read_at-piece pre torn [] pos 0 27 (omega (arith, s.at)) h

  module _ (h : 27 ≤ length torn) (cut : length torn < 12 + field torn 8 4)
      (low : field torn 8 4 < 2 ^ 31) where
    len : field (take 27 torn) 8 4 ≡ field torn 8 4
    len = field-take 8 4 27 torn (omega arith)

    beyond :
        (n : ℕ)
        → n ≡ (12 + field torn 8 4) % two64
        → (sle64 n 0 || slt64 (length file) ((pos + n) % two64)) ≡ true
    beyond n e = ground (arith, torn_size, s.small)

    base_header-torn : (x : ℕ) → base_header (length file) pos x (some (take 27 torn)) ≡ stop x
    base_header-torn x = rw (beyond _ (ap (λ n. (12 + n) % two64) len)) refl

    offset_header-torn : (x : ℕ) → offset_header (length file) pos x (some (take 27 torn)) ≡ stop x
    offset_header-torn x =
        let signed : extend32 (field torn 8 4) ≡ field torn 8 4 = ground arith in
        rw (beyond _ (ap (λ n. (12 + extend32 n) % two64) len ∙ ap (λ n. (12 + n) % two64) signed))
          refl

  stops :
      (small : ℕ) (x : ℕ) (header : Option (List ℕ) → Walk ℕ)
      → header none ≡ stop x
      → (27 ≤ length torn
          → length torn < 12 + field torn 8 4
          → field torn 8 4 < 2 ^ 31
          → header (some (take 27 torn)) ≡ stop x)
      → IsTorn torn
      → (if sle64 ((pos + small) % two64) (length file)
          then header (read_at file pos 27)
          else stop x)
        ≡ stop x
  stops small x header none_read long t =
      elim (Bool-cases (sle64 ((pos + small) % two64) (length file))) [
        | inr beyond ↦ rw beyond refl
        | inl within ↦ rw within (read t)
      ]
    where
      read : IsTorn torn → header (read_at file pos 27) ≡ stop x
      read (inl short) = ap header (short_read short) ∙ none_read
      read (inr (h, cut, low)) = ap header (torn_header h) ∙ long h cut low

  base_round-torn : (x : ℕ) → IsTorn torn → base_round file pos x ≡ stop x
  unfolding base_round
  base_round-torn x t =
      stops 17 x (base_header (length file) pos x) refl (λ h cut low. base_header-torn h cut low x)
        t

  offset_round-torn : (x : ℕ) → IsTorn torn → offset_round file pos x ≡ stop x
  unfolding offset_round
  offset_round-torn x t =
      stops 27 x (offset_header (length file) pos x) refl
        (λ h cut low. offset_header-torn h cut low x) t

-- The offset after the batches of a segment.
abbrev pub after : ℕ → List LogBatch → ℕ
after = over (λ b _. (last b + 1) % two64)

known_base :
    (x : ℕ) (bs : List LogBatch)
    → x < 2 ^ 63
    → All (λ b. b.base_offset < 2 ^ 63) bs
    → over (λ b _. b.base_offset) x bs < 2 ^ 63
known_base x [] h all = h
known_base x (b ∷ bs) h all = known_base b.base_offset bs all.0 all.1

-- On a log file of whole batches with no negative offset, behind them perhaps a batch whose write was
-- cut off, NextOffset ends and gives the offset after the last whole batch, or the base offset of the
-- segment where there is none.
pub next_offset-whole :
    (base_offset : ℕ) (bs : List LogBatch) (torn : List ℕ)
    → All IsLogBatch bs
    → All (λ b. b.base_offset < 2 ^ 63) bs
    → IsTorn torn
    → length (log_contents bs ++ torn) < 2 ^ 62
    → next_offset base_offset (log_contents bs ++ torn) ≡ some (after base_offset bs)
unfolding next_offset scan_last_offset
next_offset-whole base_offset bs torn valid positive t small =
    ap (known_last base_offset file) (
      walk-batches torn file (base_round file) (λ b _. b.base_offset)
        (λ pre pos b bs x s. base_round-batch torn file pre pos b bs s x)
        (λ pre pos x s. base_round-torn torn file pre pos s x t) (suc (length file)) [] 0 bs
        (two64 - 1) stands enough)
    ∙ known bs positive scanned
  where
    file : List ℕ
    file = log_contents bs ++ torn

    stands : Stands torn file [] 0 bs
    stands = record { split = refl; at = refl; small = small; valid = valid }

    enough : length bs < suc (length file)
    enough = omega (arith, length-log_contents bs valid, length-append (log_contents bs) torn)

    scanned : scan_last_offset base_offset file ≡ some (after base_offset bs)
    scanned =
        walk-batches torn file (offset_round file) (λ b _. (last b + 1) % two64)
          (λ pre pos b bs x s. offset_round-batch torn file pre pos b bs s x)
          (λ pre pos x s. offset_round-torn torn file pre pos s x t) (suc (length file)) [] 0 bs
          base_offset stands enough

    known :
        (cs : List LogBatch)
        → All (λ b. b.base_offset < 2 ^ 63) cs
        → scan_last_offset base_offset file ≡ some (after base_offset cs)
        → known_last base_offset file (some (over (λ b _. b.base_offset) (two64 - 1) cs))
          ≡ some (after base_offset cs)
    known [] all e = refl
    known (c ∷ cs) all e =
        let nonnegative : slt64 (over (λ b _. b.base_offset) c.base_offset cs) 0 ≡ false =
          ground (arith, known_base c.base_offset cs all.0 all.1) in
        rw nonnegative e
