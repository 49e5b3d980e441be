-- ===== src/Storage/Clip.antt =====
-- ClipRegionToOffset of storage/commitlog/clip.go, over the bytes of the log file. Sizes, offsets
-- and positions are int64 patterns.
pub mod Visible
use kaf_go.Base.{
  ℕ, zero, suc, ◌+◌, ◌-◌, ◌%◌, List, Option, some, none, length, take, drop, leb, ltb, ◌==◌, ◌||◌,
}
use kaf_go.Base.{if◌then◌else◌, slt64, sle64, two64}
use kaf_go.Protocol.Reader.{big_endian}

-- `file` is none where File is nil.
pub record RecordsRegion : Type 0 where
  pub file : Option (List ℕ)
  pub file_offset : ℕ
  pub size : ℕ
  pub leo : ℕ
  pub log_start : ℕ

abbrev pub batch_log_overhead : ℕ
batch_log_overhead = 12

abbrev pub batch_header_read_size : ℕ
batch_header_read_size = 61

abbrev pub batch_record_count_off : ℕ
batch_record_count_off = 57

-- The end of the loop: visibleSize, io.ErrUnexpectedEOF, the error of ReadAt, or more rounds than
-- were given.
pub data Scan : Type 0 where
  visible : ℕ → Scan
  unexpected_eof : Scan
  read_error : Scan
  unfinished : Scan

-- One round: it ends the loop, or goes on with pos and visibleSize.
pub data ScanRound : Type 0 where
  stop : Scan → ScanRound
  more : ℕ → ℕ → ScanRound

abbrev pub follow : ScanRound → (ℕ → ℕ → Scan) → Scan
follow (stop s) loop = s
follow (more pos visible_size) loop = loop pos visible_size

-- reg.File.ReadAt, of n bytes at p.
unfoldable pub read_at : List ℕ → ℕ → ℕ → Option (List ℕ)
read_at file p n = if leb (p + n) (length file) then some (take n (drop p file)) else none

-- The big-endian number in w bytes at p of a header.
abbrev pub field : List ℕ → ℕ → ℕ → ℕ
field hdr p w = big_endian 0 (take w (drop p hdr))

abbrev pub last_offset : ℕ → ℕ → ℕ
last_offset base_offset record_count = (base_offset + record_count + (two64 - 1)) % two64

-- The tests on the three fields of a header.
unfoldable pub scan_batch : ℕ → ℕ → ℕ → ℕ → ℕ → ℕ → ℕ → ScanRound
scan_batch size max_visible pos visible_size base_offset batch_len record_count =
    let next = (pos + (batch_log_overhead + batch_len)) % two64 in
    if ltb batch_len batch_log_overhead || (record_count == 0)
    then stop unexpected_eof
    else if sle64 max_visible (last_offset base_offset record_count)
    then stop (visible visible_size)
    else if slt64 size next
    then stop (visible visible_size)
    else more next next

abbrev pub scan_header : ℕ → ℕ → ℕ → ℕ → Option (List ℕ) → ScanRound
scan_header size max_visible pos visible_size none = stop read_error
scan_header size max_visible pos visible_size (some hdr) =
    scan_batch size max_visible pos visible_size (field hdr 0 8) (field hdr 8 4)
      (field hdr batch_record_count_off 4)

-- The loop's condition and its body.
unfoldable pub scan_round : List ℕ → ℕ → ℕ → ℕ → ℕ → ℕ → ScanRound
unfolding read_at scan_batch
scan_round file file_offset size max_visible pos visible_size =
    if slt64 pos size
    then (if slt64 ((size + (two64 - pos)) % two64) batch_header_read_size
        then stop unexpected_eof
        else scan_header size max_visible pos visible_size
            (read_at file ((file_offset + pos) % two64) batch_header_read_size))
    else stop (visible visible_size)

unfoldable pub scan_loop : List ℕ → ℕ → ℕ → ℕ → ℕ → ℕ → ℕ → Scan
unfolding scan_round
scan_loop file file_offset size max_visible zero pos visible_size = unfinished
scan_loop file file_offset size max_visible (suc rounds) pos visible_size =
    follow (scan_round file file_offset size max_visible pos visible_size)
      (scan_loop file file_offset size max_visible rounds)

pub data Clipped : Type 0 where
  clipped : Option RecordsRegion → Clipped
  failed : Scan → Clipped

abbrev pub with_size : RecordsRegion → Scan → Clipped
with_size reg (visible visible_size) =
    if visible_size == reg.size
    then clipped (some reg)
    else clipped (some (record reg { size = visible_size }))
with_size reg unexpected_eof = failed unexpected_eof
with_size reg read_error = failed read_error
with_size reg unfinished = failed unfinished

abbrev pub clip_file : RecordsRegion → ℕ → Option (List ℕ) → Clipped
clip_file reg max_visible none = clipped (some reg)
clip_file reg max_visible (some file) =
    with_size reg (scan_loop file reg.file_offset reg.size max_visible (suc reg.size) 0 0)

unfoldable pub clip_region_to_offset : Option RecordsRegion → ℕ → Clipped
unfolding scan_loop
clip_region_to_offset none max_visible = clipped none
clip_region_to_offset (some reg) max_visible =
    if reg.size == 0 then clipped (some reg) else clip_file reg max_visible reg.file
