-- ===== src/Storage/Log/Refused.antt =====
-- AppendRaw of a commit log whose offset index is full and cannot grow, and the next AppendRaw.
use kaf_go.Base.{
  ap, ◌∙◌, sym, ℕ, ◌+◌, ◌-◌, ◌*◌, ◌%◌, ◌≤◌, ◌<◌, ◌≡◌, ◌⊎◌, inl, inr, refl, arith, Bool, true, false,
  List, ◌++◌, Option, none, some,
}
use kaf_go.Base.{length, append_assoc, if◌then◌else◌, ltb, ◌==◌, ◌||◌, sle64, two64, extend32}
use kaf_go.Storage.Index.{Growth, truncate_fails, munmap_fails, append}
use kaf_go.Storage.Log.{
  Segment, SegmentFiles, written, Outside, offset_indexed, patched, segment_append_raw, is_full,
  CommitLog, segments, appended, refused, ran, Ran, roll, active_appended, append_active,
  append_raw,
}
use kaf_go.Storage.Log.Sound.{Indexed, all_well, fresh, segment_append_raw-Indexed}
use kaf_go.Storage.Log.Appends.{bytes_of, bytes_of-last, append_raw-room}
use kaf_go.Storage.Recovery.{next_offset}

-- AppendRaw indexes the batch that it writes to s.
abbrev pub is_indexed : Segment → Bool
is_indexed s =
    (s.offset_index.entry_count == 0)
    || sle64 s.index_interval ((length s.log_file + (two64 - s.last_indexed_position)) % two64)

-- Truncate or Munmap fails, so that the index is as it was.
abbrev pub GrowthFails : Growth → Type 0
GrowthFails growth = (growth ≡ truncate_fails) ⊎ (growth ≡ munmap_fails)

-- The log with the batch written to the active segment, at the next offset, and nothing else changed.
abbrev pub with_batch : List ℕ → CommitLog → CommitLog
with_batch batch c = record c {
  active = record c.active {
    log_file = c.active.log_file ++ patched c.next_offset batch;
    current_size = (c.active.current_size + length (patched c.next_offset batch)) % two64;
  };
}

module _ (o : Outside) (batch : List ℕ) (c : CommitLog) (writes : o.write ≡ written)
    (stuck : GrowthFails o.offset_growth) where
  index_refuses :
      c.active.offset_index.size < (c.active.offset_index.entry_count + 1) * 8
      → append o.offset_growth c.next_offset (length c.active.log_file) c.active.offset_index
        ≡ some (false, c.active.offset_index)
  unfolding append
  index_refuses full =
      let over : ltb c.active.offset_index.size ((c.active.offset_index.entry_count + 1) * 8)
          ≡ true =
        ground arith in
      elim stuck [ inl truncates ↦ rw (over, truncates) refl | inr unmaps ↦ rw (over, unmaps) refl ]

  segment_refuses :
      8 ≤ length batch
      → is_indexed c.active ≡ true
      → c.active.offset_index.size < (c.active.offset_index.entry_count + 1) * 8
      → segment_append_raw o c.next_offset batch c.active
        ≡ some (false, (with_batch batch c).active)
  unfolding segment_append_raw
  segment_refuses long far full =
      let enough : ltb (length batch) 8 ≡ false = ground arith in
      rw (enough, writes, far)
        (ap (offset_indexed o c.next_offset (with_batch batch c).active (length c.active.log_file))
          (index_refuses full))

  log_refuses :
      (files : Option SegmentFiles) (record_count : ℕ)
      → c.is_closed ≡ false
      → is_full c.active ≡ false
      → 8 ≤ length batch
      → is_indexed c.active ≡ true
      → c.active.offset_index.size < (c.active.offset_index.entry_count + 1) * 8
      → append_raw o files batch record_count c ≡ ran refused (with_batch batch c)
  unfolding append_raw
  log_refuses files record_count is_open room long far full =
      ap (λ b. if b then ran refused c else when_open (is_full c.active)) is_open
      ∙ ap when_open room
      ∙ ap (active_appended none record_count c) (segment_refuses long far full)
    where
      when_open : Bool → Ran
      when_open b =
          if b
          then roll o files batch record_count c
              (next_offset c.active.base_offset c.active.log_file)
          else append_active o batch record_count none c

with_batch-bytes :
    (batch : List ℕ) (c : CommitLog)
    → bytes_of (segments (with_batch batch c))
      ≡ bytes_of (segments c) ++ patched c.next_offset batch
with_batch-bytes batch c =
    bytes_of-last c.sealed (with_batch batch c).active
    ∙ sym (append_assoc (bytes_of c.sealed) c.active.log_file (patched c.next_offset batch))
    ∙ ap (λ t. t ++ patched c.next_offset batch) (sym (bytes_of-last c.sealed c.active))

-- An append to an active segment that has room and whose indexes are whole is given the next offset.
next_append :
    (now record_count : ℕ) (batch : List ℕ) (c : CommitLog)
    → c.is_closed ≡ false
    → is_full c.active ≡ false
    → 8 ≤ length batch
    → Indexed c.active
    → (c' : CommitLog) × (append_raw (all_well now) (some fresh) batch record_count c
        ≡ ran (appended c.next_offset none) c')
      × (bytes_of (segments c') ≡ bytes_of (segments c) ++ patched c.next_offset batch)
next_append now record_count batch c is_open room long whole =
    let (s, done, file, base, indexed) =
      segment_append_raw-Indexed now c.next_offset batch c.active whole long in
    (
      record c { active = s; next_offset = (c.next_offset + extend32 record_count) % two64 },
      append_raw-room (all_well now) batch record_count c is_open room
          ∙ ap (active_appended none record_count c) done,
      bytes_of-last c.sealed s
          ∙ ap (λ t. bytes_of c.sealed ++ t) file
          ∙ sym (append_assoc (bytes_of c.sealed) c.active.log_file (patched c.next_offset batch))
          ∙ ap (λ t. t ++ patched c.next_offset batch) (sym (bytes_of-last c.sealed c.active)),
    )

-- An open log whose active segment has room for two batches and an offset index that is full, with a batch that is to
-- be indexed: where Truncate or Munmap fails in the growth of the index, AppendRaw gives an error, though the batch is
-- written. The next AppendRaw, where the file system does what it is asked for, is given the same offset, so that two
-- batches of one base offset stand in the log, the refused one first.
pub append_raw_refused_but_written :
    (o : Outside) (files : Option SegmentFiles) (batch later : List ℕ)
    (record_count later_count now : ℕ) (c : CommitLog)
    → o.write ≡ written
    → GrowthFails o.offset_growth
    → c.is_closed ≡ false
    → is_full c.active ≡ false
    → is_full (with_batch batch c).active ≡ false
    → 8 ≤ length batch
    → 8 ≤ length later
    → is_indexed c.active ≡ true
    → c.active.offset_index.size < (c.active.offset_index.entry_count + 1) * 8
    → Indexed c.active
    → (c' c'' : CommitLog) × (append_raw o files batch record_count c ≡ ran refused c')
      × (append_raw (all_well now) (some fresh) later later_count c'
          ≡ ran (appended c.next_offset none) c'')
      × (bytes_of (segments c'')
          ≡ (bytes_of (segments c) ++ patched c.next_offset batch) ++ patched c.next_offset later)
append_raw_refused_but_written o files batch later record_count later_count now c writes stuck
      is_open room room' long long' far full whole =
    let (c'', done, bytes) =
      next_append now later_count later (with_batch batch c) is_open room' long' (record {
        entries = whole.entries;
        spare = whole.spare;
        holds = whole.holds;
        room = whole.room;
        times = whole.times;
      }) in
    (
      with_batch batch c,
      c'',
      log_refuses o batch c writes stuck files record_count is_open room long far full,
      done,
      bytes ∙ ap (λ t. t ++ patched c.next_offset later) (with_batch-bytes batch c),
    )
