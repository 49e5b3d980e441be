-- ===== src/Storage/Recovery.antt =====
-- NextOffset, scanLastOffset and walkBatchHeaders of storage/commitlog/segment.go, over the bytes of
-- the log file, where Stat succeeds. Sizes, offsets and positions are int64 patterns.
pub mod Whole
use kaf_go.Base.{
  ℕ, zero, suc, ◌+◌, ◌-◌, ◌%◌, Bool, true, false, List, Option, some, none, length, ◌==◌, ◌||◌,
}
use kaf_go.Base.{if◌then◌else◌, slt64, sle64, two64, extend32}
use kaf_go.Storage.Clip.{read_at, field}

abbrev pub header_size_with_delta : ℕ
header_size_with_delta = 27

abbrev pub header_size_with_producer_info : ℕ
header_size_with_producer_info = 57

-- One round of a walk over the batches: it ends the walk with a value, or goes on at a position.
pub data Walk {ℓ} (A : Type ℓ) : Type ℓ where
  stop : A → Walk A
  more : ℕ → A → Walk A

abbrev pub follow {ℓ} : {A : Type ℓ} → Walk A → (ℕ → A → Option A) → Option A
follow (stop x) loop = some x
follow (more pos x) loop = loop pos x

-- A walk of so many rounds; none is a walk that needs more.
abbrev pub walk {ℓ} : {A : Type ℓ} → (ℕ → A → Walk A) → ℕ → ℕ → A → Option A
walk round zero pos x = none
walk round (suc rounds) pos x = follow (round pos x) (walk round rounds)

-- The loop of NextOffset, which reads the length as a uint32.
abbrev pub base_header : ℕ → ℕ → ℕ → Option (List ℕ) → Walk ℕ
base_header size pos last_base_offset none = stop last_base_offset
base_header size pos last_base_offset (some buf) =
    let total_len = (12 + field buf 8 4) % two64 in
    if sle64 total_len 0 || slt64 size ((pos + total_len) % two64)
    then stop last_base_offset
    else more ((pos + total_len) % two64) (field buf 0 8)

unfoldable pub base_round : List ℕ → ℕ → ℕ → Walk ℕ
unfolding read_at
base_round file pos last_base_offset =
    if sle64 ((pos + 17) % two64) (length file)
    then base_header (length file) pos last_base_offset (read_at file pos header_size_with_delta)
    else stop last_base_offset

-- The loop of scanLastOffset, which reads it as an int32.
abbrev pub offset_header : ℕ → ℕ → ℕ → Option (List ℕ) → Walk ℕ
offset_header size pos next none = stop next
offset_header size pos next (some buf) =
    let total_len = (12 + extend32 (field buf 8 4)) % two64 in
    if sle64 total_len 0 || slt64 size ((pos + total_len) % two64)
    then stop next
    else more ((pos + total_len) % two64) ((field buf 0 8 + extend32 (field buf 23 4) + 1) % two64)

unfoldable pub offset_round : List ℕ → ℕ → ℕ → Walk ℕ
unfolding read_at
offset_round file pos next =
    if sle64 ((pos + header_size_with_delta) % two64) (length file)
    then offset_header (length file) pos next (read_at file pos header_size_with_delta)
    else stop next

unfoldable pub scan_last_offset : ℕ → List ℕ → Option ℕ
unfolding offset_round
scan_last_offset base_offset file = walk (offset_round file) (suc (length file)) 0 base_offset

abbrev pub known_last : ℕ → List ℕ → Option ℕ → Option ℕ
known_last base_offset file none = none
known_last base_offset file (some last_base_offset) =
    if slt64 last_base_offset 0 then some base_offset else scan_last_offset base_offset file

unfoldable pub next_offset : ℕ → List ℕ → Option ℕ
unfolding base_round scan_last_offset
next_offset base_offset file =
    known_last base_offset file (walk (base_round file) (suc (length file)) 0 (two64 - 1))

pub record BatchHeader : Type 0 where
  pub base_offset : ℕ
  pub last_offset_delta : ℕ
  pub producer_id : ℕ
  pub producer_epoch : ℕ
  pub base_sequence : ℕ

abbrev pub header_of : List ℕ → BatchHeader
header_of buf = record {
  base_offset = field buf 0 8;
  last_offset_delta = field buf 23 4;
  producer_id = field buf 43 8;
  producer_epoch = field buf 51 2;
  base_sequence = field buf 53 4;
}

-- The callback fn changes a state, and gives an error or none; so does walkBatchHeaders.
module _ {ℓ κ} {S : Type ℓ} {E : Type κ} (fn : BatchHeader → S → S × Option E) where
  abbrev pub visited : ℕ → S × Option E → Walk (S × Option E)
  visited next (s, none) = more next (s, none)
  visited next (s, some error) = stop (s, some error)

  abbrev pub visit_header : ℕ → ℕ → ℕ → S → Option (List ℕ) → Walk (S × Option E)
  visit_header size from_offset pos s none = stop (s, none)
  visit_header size from_offset pos s (some buf) =
      let total_len = (12 + extend32 (field buf 8 4)) % two64 in
      if sle64 total_len 0 || slt64 size ((pos + total_len) % two64)
      then stop (s, none)
      else if sle64 from_offset (field buf 0 8)
      then visited ((pos + total_len) % two64) (fn (header_of buf) s)
      else more ((pos + total_len) % two64) (s, none)

  unfoldable pub visit_round : List ℕ → ℕ → ℕ → S × Option E → Walk (S × Option E)
  unfolding read_at
  visit_round file from_offset pos (s, error) =
      if sle64 ((pos + header_size_with_producer_info) % two64) (length file)
      then visit_header (length file) from_offset pos s
          (read_at file pos header_size_with_producer_info)
      else stop (s, none)

  unfoldable pub walk_batch_headers : List ℕ → ℕ → S → Option (S × Option E)
  unfolding visit_round
  walk_batch_headers file from_offset s =
      walk (visit_round file from_offset) (suc (length file)) 0 (s, none)
