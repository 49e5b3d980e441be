-- ===== src/Storage/TimeIndex.antt =====
-- TimeIndex of storage/commitlog/index.go, over the bytes of its mapped file: NewTimeIndex, Append
-- and grow. Entries have twelve bytes.
use kaf_go.Base.{
  ℕ, zero, suc, ◌+◌, ◌-◌, ◌*◌, ◌%◌, ◌≤◌, ◌≡◌, refl, ◌∙◌, sym, arith, inl, inr, Bool, Bool-cases,
  true, false, List, [], ◌∷◌, ◌++◌,
}
use kaf_go.Base.{
  Option, some, none, length, take, drop, length-append, leb, ltb, ◌==◌, if◌then◌else◌, two32,
  two64,
}
use kaf_go.Protocol.Writer.{fixed_bytes}
use kaf_go.Storage.Index.{
  zeros, put_uint32, Growth, grows, truncate_fails, munmap_fails, mmap_fails,
}
use kaf_go.Storage.Index.Append.{length-zeros}

pub record TimeIndex : Type 0 where
  pub mmap : List ℕ
  pub base_offset : ℕ
  pub size : ℕ
  pub entry_count : ℕ

-- NewTimeIndex on a file of the given bytes, where the file calls succeed.
unfoldable pub new_time_index : List ℕ → ℕ → TimeIndex
new_time_index file base_offset =
    let mapped = if length file == 0 then zeros (1024 * 1024) else file in
    record { mmap = mapped; base_offset = base_offset; size = length mapped; entry_count = 0 }

-- binary.BigEndian.PutUint64(mmap[p:], v).
unfoldable pub put_uint64 : List ℕ → ℕ → ℕ → Option (List ℕ)
put_uint64 mmap p v =
    if leb (p + 8) (length mmap)
    then some (take p mmap ++ (fixed_bytes 8 v ++ drop (p + 8) mmap))
    else none

-- grow; the Bool is err == nil.
abbrev pub grow_time : Growth → TimeIndex → Bool × TimeIndex
grow_time grows idx = (true, record idx { mmap = idx.mmap ++ zeros idx.size; size = idx.size * 2 })
grow_time truncate_fails idx = (false, idx)
grow_time munmap_fails idx = (false, idx)
grow_time mmap_fails idx = (false, record idx { mmap = [] })

abbrev pub time_counted : TimeIndex → Option (List ℕ) → Option (Bool × TimeIndex)
time_counted idx none = none
time_counted idx (some mmap) =
    some (true, record idx { mmap = mmap; entry_count = idx.entry_count + 1 })

abbrev pub put_relative : ℕ → ℕ → Option (List ℕ) → Option (List ℕ)
put_relative p v none = none
put_relative p v (some mmap) = put_uint32 mmap p v

abbrev pub put_time_entry : ℕ → ℕ → Bool × TimeIndex → Option (Bool × TimeIndex)
put_time_entry offset timestamp (false, idx) = some (false, idx)
put_time_entry offset timestamp (true, idx) = time_counted idx (
    put_relative (idx.entry_count * 12 + 8) ((offset + (two64 - idx.base_offset)) % two64 % two32)
      (put_uint64 idx.mmap (idx.entry_count * 12) timestamp))

-- Append; none is a panic, and the Bool is err == nil.
unfoldable pub append_time : Growth → ℕ → ℕ → TimeIndex → Option (Bool × TimeIndex)
unfolding put_uint64 put_uint32
append_time growth offset timestamp idx =
    if ltb idx.size ((idx.entry_count + 1) * 12)
    then put_time_entry offset timestamp (grow_time growth idx)
    else put_time_entry offset timestamp (true, idx)

-- The mapping has its size, and room for the entries.
pub record HasRoom (idx : TimeIndex) : Type 0 where
  pub sized : idx.size ≡ length idx.mmap
  pub some_room : 12 ≤ idx.size
  pub entries : idx.entry_count * 12 ≤ idx.size

length-put :
    (w p v : ℕ) (mmap : List ℕ)
    → length (fixed_bytes w v) ≡ w
    → p + w ≤ length mmap
    → length (take p mmap ++ (fixed_bytes w v ++ drop (p + w) mmap)) ≡ length mmap
length-put w p v mmap e h = omega (
  arith,
  e,
  length-append (take p mmap) (fixed_bytes w v ++ drop (p + w) mmap),
  length-append (fixed_bytes w v) (drop (p + w) mmap),
  length-take p mmap (omega arith),
  length-drop (p + w) mmap,
)
  where
    length-take : (n : ℕ) (xs : List ℕ) → n ≤ length xs → length (take n xs) ≡ n
    length-take zero xs h = refl
    length-take (suc n) [] h = absurd (omega arith)
    length-take (suc n) (x ∷ xs) h = omega (arith, length-take n xs (omega arith))

    length-drop : (n : ℕ) (xs : List ℕ) → length (drop n xs) ≡ length xs - n
    length-drop zero xs = omega arith
    length-drop (suc n) [] = omega arith
    length-drop (suc n) (x ∷ xs) = omega (arith, length-drop n xs)

put-HasRoom :
    (idx : TimeIndex) (offset timestamp : ℕ)
    → idx.size ≡ length idx.mmap
    → (idx.entry_count + 1) * 12 ≤ idx.size
    → (idx' : TimeIndex) × (put_time_entry offset timestamp (true, idx) ≡ some (true, idx'))
      × HasRoom idx'
unfolding put_uint64 put_uint32 fixed_bytes
put-HasRoom idx offset timestamp sized room =
    let relative = (offset + (two64 - idx.base_offset)) % two64 % two32 in
    let first =
      take (idx.entry_count * 12) idx.mmap
      ++ (fixed_bytes 8 timestamp ++ drop (idx.entry_count * 12 + 8) idx.mmap) in
    let one : length first ≡ length idx.mmap =
      length-put 8 (idx.entry_count * 12) timestamp idx.mmap (omega arith) (omega arith) in
    let two = length-put 4 (idx.entry_count * 12 + 8) relative first (omega arith) (omega arith) in
    let fits : leb (idx.entry_count * 12 + 8) (length idx.mmap) ≡ true = ground arith in
    let fits' : leb (idx.entry_count * 12 + 8 + 4) (length first) ≡ true = ground arith in
    let second =
      take (idx.entry_count * 12 + 8) first
      ++ (fixed_bytes 4 relative ++ drop (idx.entry_count * 12 + 8 + 4) first) in
    (
      record idx { mmap = second; entry_count = idx.entry_count + 1 },
      rw (fits, fits') refl,
      record { sized = sized ∙ sym one ∙ sym two; some_room = omega arith; entries = omega arith },
    )

-- Append with room, or with a growth that succeeds, adds an entry and does not panic.
pub append_time-HasRoom :
    (offset timestamp : ℕ) (idx : TimeIndex)
    → HasRoom idx
    → (idx' : TimeIndex) × (append_time grows offset timestamp idx ≡ some (true, idx'))
      × HasRoom idx'
unfolding append_time
append_time-HasRoom offset timestamp idx h =
    elim (Bool-cases (ltb idx.size ((idx.entry_count + 1) * 12))) [
      | inr room ↦
          let put = put-HasRoom idx offset timestamp h.sized (ground arith) in
          (put.0, rw room put.1, put.2)
      | inl full ↦
          let wide = (grow_time grows idx).1 in
          let put =
            put-HasRoom wide offset timestamp
              (omega
                (arith, h.sized, length-append idx.mmap (zeros idx.size), length-zeros idx.size))
              (omega (arith, h.some_room, h.entries)) in
          (put.0, rw full put.1, put.2)
    ]
