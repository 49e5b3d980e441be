-- ===== src/Api/Fetch/Batches.antt =====
-- The record batches of a log file as FindRawRegion and ClipRegionToOffset read them, and the ones that
-- are shown.
use kaf_go.Base.{
  ap, ◌∙◌, ℕ, ◌+◌, ◌^◌, ◌≤◌, ◌<◌, ◌≡◌, refl, inl, inr, arith, Bool-cases, true, List, [], ◌∷◌, ◌++◌,
  map,
}
use kaf_go.Base.{length, All, if◌then◌else◌, ltb, ◌&&◌, sle64, slt64, extend32}
use kaf_go.Storage.Clip.{field, last_offset}
use kaf_go.Storage.Clip.Visible.{Batch, IsBatch, contents, visible_batches}
use kaf_go.Storage.Region.Batches.{LogBatch, IsLogBatch, last, log_contents, field-take}
use kaf_go.Storage.Region.Search.{limited}

-- A batch of the log file has a header of 61 bytes whose record count is lastOffsetDelta + 1.
pub record IsRecordBatch (b : LogBatch) : Type 0 where
  pub log_batch : IsLogBatch b
  pub header : 61 ≤ length b.bytes
  pub counted : field b.bytes 57 4 ≡ b.last_offset_delta + 1
  pub small : b.last_offset_delta < 2 ^ 31

abbrev pub clip_batch : LogBatch → Batch
clip_batch b = record {
  base_offset = b.base_offset;
  record_count = field b.bytes 57 4;
  bytes = b.bytes;
}

pub contents-clip_batch : (bs : List LogBatch) → contents (map clip_batch bs) ≡ log_contents bs
contents-clip_batch [] = refl
contents-clip_batch (b ∷ bs) = ap (λ t. b.bytes ++ t) (contents-clip_batch bs)

pub clip_batch-IsBatch : (b : LogBatch) → IsRecordBatch b → IsBatch (clip_batch b)
clip_batch-IsBatch b h = record {
  whole = h.header;
  some_records = omega (arith, h.counted);
  base = field-take 0 8 61 b.bytes (omega arith) ∙ h.log_batch.base;
  len = ap (λ n. 12 + n) (field-take 8 4 61 b.bytes (omega arith)) ∙ h.log_batch.len;
  count = field-take 57 4 61 b.bytes (omega arith);
}

pub All-log_batch : (bs : List LogBatch) → All IsRecordBatch bs → All IsLogBatch bs
All-log_batch [] h = tt
All-log_batch (b ∷ bs) h = (h.0.log_batch, All-log_batch bs h.1)

pub All-clip_batch : (bs : List LogBatch) → All IsRecordBatch bs → All IsBatch (map clip_batch bs)
All-clip_batch [] h = tt
All-clip_batch (b ∷ bs) h = (clip_batch-IsBatch b h.0, All-clip_batch bs h.1)

-- The two readings of the last offset agree.
pub last_offset-last :
    (b : LogBatch) → IsRecordBatch b → last_offset b.base_offset (field b.bytes 57 4) ≡ last b
last_offset-last b h =
    let same : extend32 b.last_offset_delta ≡ b.last_offset_delta = ground (arith, h.small) in
    omega (arith, h.counted, same)

-- The batches before the first that reaches the bound.
abbrev pub shown_batches : ℕ → List LogBatch → List LogBatch
shown_batches bound [] = []
shown_batches bound (b ∷ bs) =
    let rest = shown_batches bound bs in if sle64 bound (last b) then [] else b ∷ rest

pub visible-shown :
    (bound : ℕ) (bs : List LogBatch)
    → All IsRecordBatch bs
    → contents (visible_batches bound (map clip_batch bs)) ≡ log_contents (shown_batches bound bs)
visible-shown bound [] h = refl
visible-shown bound (b ∷ bs) h =
    rw (last_offset-last b h.0) (elim (Bool-cases (sle64 bound (last b))) [
      | inl e ↦ rw e refl
      | inr e ↦ rw e (ap (λ t. b.bytes ++ t) (visible-shown bound bs h.1))
    ])

-- A list that begins another.
abbrev pub Prefix : List LogBatch → List LogBatch → Type 0
Prefix xs ys = (behind : List LogBatch) × (ys ≡ xs ++ behind)

pub shown-Prefix : (bound : ℕ) (bs : List LogBatch) → Prefix (shown_batches bound bs) bs
shown-Prefix bound [] = ([], refl)
shown-Prefix bound (b ∷ bs) = elim (Bool-cases (sle64 bound (last b))) [
  | inl e ↦ rw e (b ∷ bs, refl)
  | inr e ↦ let p = shown-Prefix bound bs in rw e (p.0, ap (λ t. b ∷ t) p.1)
]

pub limited-Prefix :
    (max_bytes accumulated : ℕ) (bs : List LogBatch) → Prefix (limited max_bytes accumulated bs) bs
limited-Prefix max_bytes accumulated [] = ([], refl)
limited-Prefix max_bytes accumulated (b ∷ bs) =
    let sum = accumulated + length b.bytes in
    elim (Bool-cases (ltb 0 max_bytes && (ltb 0 accumulated && ltb max_bytes sum))) [
      | inl e ↦ rw e (b ∷ bs, refl)
      | inr e ↦ elim (Bool-cases (ltb 0 max_bytes && ltb max_bytes sum)) [
        | inl f ↦ rw (e, f) (bs, refl)
        | inr f ↦ let p = limited-Prefix max_bytes sum bs in rw (e, f) (p.0, ap (λ t. b ∷ t) p.1)
      ]
    ]

pub shown-below :
    (bound : ℕ) (bs : List LogBatch)
    → All (λ b. slt64 (last b) bound ≡ true) (shown_batches bound bs)
shown-below bound [] = tt
shown-below bound (b ∷ bs) = elim (Bool-cases (sle64 bound (last b))) [
  | inl e ↦ rw e tt
  | inr e ↦ rw e (ground arith, shown-below bound bs)
]
