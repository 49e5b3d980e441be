-- ===== src/Storage/Index.antt =====
-- OffsetIndex of storage/commitlog/index.go, over the bytes of its mapped file. Offsets and
-- positions are int64 patterns; an index into the mapping that is out of range is a panic.
pub mod Entries
pub mod Append
pub mod Floor
use kaf_go.Base.{ℕ, zero, suc, ◌+◌, ◌-◌, ◌*◌, ◌/◌, ◌%◌, ◌^◌, Bool, true, false, List, [], ◌∷◌, ◌++◌}
use kaf_go.Base.{
  Option, some, none, length, take, drop, leb, ltb, ◌==◌, if◌then◌else◌, slt64, sle64, two32, two64,
}
use kaf_go.Protocol.Reader.{big_endian}
use kaf_go.Protocol.Writer.{fixed_bytes}
use kaf_go.Storage.Search.{Looked, looked, panics, unfinished, Round, stop, more, follow, pred}

pub record OffsetIndex : Type 0 where
  pub mmap : List ℕ
  pub base_offset : ℕ
  pub size : ℕ
  pub entry_count : ℕ

abbrev pub zeros : ℕ → List ℕ
zeros zero = []
zeros (suc n) = 0 ∷ zeros n

-- NewOffsetIndex on a file of the given bytes, where the file calls succeed.
unfoldable pub new_offset_index : List ℕ → ℕ → OffsetIndex
new_offset_index file base_offset =
    let mapped = if length file == 0 then zeros (1024 * 1024) else file in
    record { mmap = mapped; base_offset = base_offset; size = length mapped; entry_count = 0 }

-- binary.BigEndian.Uint32(mmap[p:p+4]) and PutUint32.
unfoldable pub uint32_at : List ℕ → ℕ → Option ℕ
uint32_at mmap p =
    if leb (p + 4) (length mmap) then some (big_endian 0 (take 4 (drop p mmap))) else none

unfoldable pub put_uint32 : List ℕ → ℕ → ℕ → Option (List ℕ)
put_uint32 mmap p v =
    if leb (p + 4) (length mmap)
    then some (take p mmap ++ (fixed_bytes 4 v ++ drop (p + 4) mmap))
    else none

-- What the file calls of grow do: they succeed, or one of Truncate, Munmap and Mmap fails.
pub data Growth : Type 0 where
  grows truncate_fails munmap_fails mmap_fails : Growth

-- grow; the Bool is err == nil.
abbrev pub grow : Growth → OffsetIndex → Bool × OffsetIndex
grow grows idx = (true, record idx { mmap = idx.mmap ++ zeros idx.size; size = idx.size * 2 })
grow truncate_fails idx = (false, idx)
grow munmap_fails idx = (false, idx)
grow mmap_fails idx = (false, record idx { mmap = [] })

-- The entry count after the two writes; none is a panic of one of them.
abbrev pub counted : OffsetIndex → Option (List ℕ) → Option (Bool × OffsetIndex)
counted idx none = none
counted idx (some mmap) = some (true, record idx { mmap = mmap; entry_count = idx.entry_count + 1 })

abbrev pub put_then : ℕ → ℕ → Option (List ℕ) → Option (List ℕ)
put_then p v none = none
put_then p v (some mmap) = put_uint32 mmap p v

-- Append behind the growth: the two fields are written and the entry is counted.
abbrev pub put_entry : ℕ → ℕ → Bool × OffsetIndex → Option (Bool × OffsetIndex)
put_entry offset position (false, idx) = some (false, idx)
put_entry offset position (true, idx) = counted idx (
    put_then (idx.entry_count * 8 + 4) (position % two32) (
      put_uint32 idx.mmap (idx.entry_count * 8)
        ((offset + (two64 - idx.base_offset)) % two64 % two32)))

-- Append; none is a panic, and the Bool is err == nil.
unfoldable pub append : Growth → ℕ → ℕ → OffsetIndex → Option (Bool × OffsetIndex)
unfolding put_uint32
append growth offset position idx =
    if ltb idx.size ((idx.entry_count + 1) * 8)
    then put_entry offset position (grow growth idx)
    else put_entry offset position (true, idx)

abbrev pub looked_of : Option ℕ → Looked
looked_of none = panics
looked_of (some position) = looked position

-- The position of entry `mid`.
abbrev pub position_at : List ℕ → ℕ → Looked
position_at mmap mid = looked_of (uint32_at mmap (mid * 8 + 4))

-- The tests on the offset of entry `mid`.
abbrev pub probe : List ℕ → ℕ → ℕ → ℕ → ℕ → ℕ → Option ℕ → Round
probe mmap relative left right result mid none = stop panics
probe mmap relative left right result mid (some entry) =
    if entry == relative
    then stop (position_at mmap mid)
    else if slt64 entry relative
    then more ((mid + 1) % two64) right mid
    else more left (pred mid) result

abbrev pub middle : ℕ → ℕ → ℕ
middle left right = (left + (right + (two64 - left)) % two64 / 2) % two64

unfoldable pub lookup_round : List ℕ → ℕ → ℕ → ℕ → ℕ → Round
unfolding uint32_at
lookup_round mmap relative left right result =
    if sle64 left right
    then probe mmap relative left right result (middle left right)
        (uint32_at mmap (middle left right * 8))
    else (if sle64 0 result then stop (position_at mmap result) else stop (looked 0))

unfoldable pub lookup_loop : List ℕ → ℕ → ℕ → ℕ → ℕ → ℕ → Looked
unfolding lookup_round
lookup_loop mmap relative zero left right result = unfinished
lookup_loop mmap relative (suc rounds) left right result =
    follow (lookup_round mmap relative left right result) (lookup_loop mmap relative rounds)

unfoldable pub lookup : ℕ → OffsetIndex → Looked
unfolding lookup_loop
lookup offset idx =
    if idx.entry_count == 0
    then looked 0
    else lookup_loop idx.mmap ((offset + (two64 - idx.base_offset)) % two64) (suc idx.entry_count) 0
        (pred idx.entry_count) (two64 - 1)
