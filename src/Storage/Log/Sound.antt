-- ===== src/Storage/Log/Sound.antt =====
-- What the active segment of a commit log keeps, and an append to it.
use kaf_go.Base.{
  ap, ◌∙◌, sym, ℕ, zero, suc, ◌+◌, ◌-◌, ◌*◌, ◌%◌, ◌^◌, ◌≤◌, ◌<◌, ◌≡◌, refl, inl, inr, arith,
  Bool-cases, true, false, List, [], ◌∷◌, ◌++◌, some,
}
use kaf_go.Base.{length, take, drop, length-append, All, ltb, leb, ◌||◌, ◌==◌, sle64, two64}
use mathlib.Core.Path.{subst}
use kaf_go.Protocol.Writer.{fixed_bytes}
use kaf_go.Protocol.Reader.{big_endian}
use kaf_go.Protocol.RoundTrip.Fixed.{value_64}
use kaf_go.Storage.Index.{zeros, new_offset_index, grows, append}
use kaf_go.Storage.Index.Entries.{IndexEntry, Holds, encode, length-encode}
use kaf_go.Storage.Index.Append.{length-zeros, entry_of, append-Holds}
use kaf_go.Storage.TimeIndex.{new_time_index, HasRoom, append_time-HasRoom}
use kaf_go.Storage.Region.Batches.{LogBatch, IsLogBatch, log_contents, drop-drop}
use kaf_go.Storage.Recovery.Whole.{after}
use kaf_go.Storage.Log.{
  Segment, SegmentFiles, CommitLogConfig, new_segment, written, Outside, offset_indexed,
  time_indexed, index_batch, patched, segment_append_raw, CommitLog,
}

-- Both indexes are whole, and can take an entry or grow.
pub record Indexed (s : Segment) : Type 0 where
  pub entries : List IndexEntry
  pub spare : List ℕ
  pub holds : Holds s.offset_index entries spare
  pub room : 8 ≤ s.offset_index.size
  pub times : HasRoom s.time_index

-- An open log whose active segment holds the batches bs, none with a negative offset, and whose next
-- offset is the one after them.
pub record Sound (c : CommitLog) (bs : List LogBatch) : Type 0 where
  pub is_open : c.is_closed ≡ false
  pub file : c.active.log_file ≡ log_contents bs
  pub valid : All IsLogBatch bs
  pub positive : All (λ b. b.base_offset < 2 ^ 63) bs
  pub next : c.next_offset ≡ after c.active.base_offset bs
  pub indexed : Indexed c.active

-- The file system does what it is asked for.
abbrev pub all_well : ℕ → Outside
all_well now = record { write = written; offset_growth = grows; time_growth = grows; now = now }

-- New files.
abbrev pub fresh : SegmentFiles
fresh = record { log = []; offsets = []; times = [] }

-- A segment whose indexes are mapped to n zeros.
zeroed : ℕ → ℕ → CommitLogConfig → Segment
zeroed n base_offset config = record {
  base_offset = base_offset;
  log_file = [];
  offset_index = record {
    mmap = zeros n;
    base_offset = base_offset;
    size = length (zeros n);
    entry_count = 0;
  };
  time_index = record {
    mmap = zeros n;
    base_offset = base_offset;
    size = length (zeros n);
    entry_count = 0;
  };
  max_bytes = config.segment_max_bytes;
  current_size = 0;
  index_interval = config.index_interval;
  last_indexed_position = 0;
}

zeroed-Indexed :
    (n base_offset : ℕ) (config : CommitLogConfig) → 12 ≤ n → Indexed (zeroed n base_offset config)
unfolding zeroed
zeroed-Indexed n base_offset config h = record {
  entries = [];
  spare = zeros n;
  holds = record { mapped = refl; sized = refl; counted = refl };
  room = omega (arith, length-zeros n);
  times = record {
    sized = refl;
    some_room = omega (arith, length-zeros n);
    entries = omega (arith, length-zeros n);
  };
}

new_segment_lem :
    (base_offset : ℕ) (config : CommitLogConfig)
    → new_segment base_offset fresh config ≡ zeroed (1024 * 1024) base_offset config
unfolding new_segment new_offset_index new_time_index zeroed
new_segment_lem base_offset config = refl

pub new_segment-Indexed :
    (base_offset : ℕ) (config : CommitLogConfig) → Indexed (new_segment base_offset fresh config)
new_segment-Indexed base_offset config =
    subst Indexed (sym (new_segment_lem base_offset config))
      (zeroed-Indexed (1024 * 1024) base_offset config (leb→le refl))
  where
    leb→le : {n : ℕ} → leb 12 n ≡ true → 12 ≤ n
    leb→le h = ground arith

module _ (now base_offset position : ℕ) (s : Segment) (h : Indexed s) where
  offset_indexed-Indexed :
      (s' : Segment) × (offset_indexed
          (all_well now)
          base_offset
          s
          position
          (append grows base_offset position s.offset_index)
        ≡ some (true, s'))
      × (s'.log_file ≡ s.log_file)
      × (s'.base_offset ≡ s.base_offset)
      × Indexed s'
  offset_indexed-Indexed =
      let (idx, spare, done, holds) =
        append-Holds s.offset_index h.entries h.spare base_offset position h.holds h.room in
      let (times, timed, room) = append_time-HasRoom base_offset now s.time_index h.times in
      let e = entry_of s.offset_index.base_offset base_offset position in
      (
        record s { offset_index = idx; time_index = times; last_indexed_position = position },
        ap (offset_indexed (all_well now) base_offset s position) done
            ∙ ap (time_indexed (record s { offset_index = idx }) position) timed,
        refl,
        refl,
        record {
          entries = h.entries ++ (e ∷ []);
          spare = spare;
          holds = holds;
          room = omega (
            arith,
            holds.sized,
            ap length holds.mapped,
            length-append (encode (h.entries ++ (e ∷ []))) spare,
            length-encode (h.entries ++ (e ∷ [])),
            length-append h.entries (e ∷ []),
          );
          times = room;
        },
      )

  index_batch-Indexed :
      (s' : Segment) × (index_batch (all_well now) base_offset position s ≡ some (true, s'))
      × (s'.log_file ≡ s.log_file)
      × (s'.base_offset ≡ s.base_offset)
      × Indexed s'
  index_batch-Indexed =
      elim (Bool-cases (
        (s.offset_index.entry_count == 0)
        || sle64 s.index_interval ((position + (two64 - s.last_indexed_position)) % two64))) [
          | inl far ↦ rw far offset_indexed-Indexed
          | inr near ↦ rw near (s, refl, refl, refl, h)
        ]

-- A segment whose indexes are whole takes a batch.
pub segment_append_raw-Indexed :
    (now base_offset : ℕ) (batch : List ℕ) (s : Segment)
    → Indexed s
    → 8 ≤ length batch
    → (s' : Segment) × (segment_append_raw (all_well now) base_offset batch s ≡ some (true, s'))
      × (s'.log_file ≡ s.log_file ++ patched base_offset batch)
      × (s'.base_offset ≡ s.base_offset)
      × Indexed s'
unfolding segment_append_raw
segment_append_raw-Indexed now base_offset batch s h long =
    let enough : ltb (length batch) 8 ≡ false = ground arith in
    let longer : Segment = record s {
      log_file = s.log_file ++ patched base_offset batch;
      current_size = (s.current_size + length (patched base_offset batch)) % two64;
    } in
    rw enough (
      index_batch-Indexed now base_offset (length s.log_file) longer (record {
        entries = h.entries;
        spare = h.spare;
        holds = h.holds;
        room = h.room;
        times = h.times;
      }))

-- The batch as it is written.
abbrev pub rebased : ℕ → LogBatch → LogBatch
rebased base_offset d = record d { base_offset = base_offset; bytes = patched base_offset d.bytes }

pub rebased-IsLogBatch :
    (base_offset : ℕ) (d : LogBatch)
    → base_offset < 2 ^ 64
    → IsLogBatch d
    → IsLogBatch (rebased base_offset d)
unfolding patched fixed_bytes
rebased-IsLogBatch base_offset d small h = record {
  whole = omega (arith, h.whole, size);
  base = unfold fixed_bytes in value_64 base_offset small;
  len = omega (arith, h.len, size);
  short = omega (arith, h.short, size);
  delta = ap (λ t. big_endian 0 (take 4 t)) (drop-drop 8 15 d.bytes) ∙ h.delta;
}
  where
    length-drop : (n : ℕ) (xs : List ℕ) → length (drop n xs) ≡ length xs - n
    length-drop zero xs = omega arith
    length-drop (suc n) [] = omega arith
    length-drop (suc n) (x ∷ xs) = omega (arith, length-drop n xs)

    size : length (patched base_offset d.bytes) ≡ length d.bytes
    size = omega (arith, length-drop 8 d.bytes, h.whole)
