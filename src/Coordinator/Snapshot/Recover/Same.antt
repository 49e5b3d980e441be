-- ===== src/Coordinator/Snapshot/Recover/Same.antt =====
-- Recover behind a roll: the states that are restored judge every batch as the states that were
-- written did.
use kaf_go.Base.{
  ℕ, zero, suc, ◌-◌, ◌<◌, ◌≡◌, refl, sym, ◌∙◌, ap, arith, Bool, true, false, List, [], ◌∷◌, ◌++◌,
  Option, none, some, map, length,
}
use kaf_go.Base.{◌==◌, ==_iff, if◌then◌else◌, slt64, All, Bool-cases, inl, inr, two32, two64}
use kaf_go.Base.Assoc.{lookup, insert, has, lookup-insert}
use kaf_go.Coordinator.Idempotence.{
  ring_size, ProducerRingSlot, ProducerBatchLog, IdempotenceState, lookup_ring, validate_sequence,
  expired, live, drop_expired, validate_live, validate, record_batch,
}
use kaf_go.Coordinator.Snapshot.{
  SnapshotDir, saved, snapshot, restore_from, restore, used, empty_slots,
}
use kaf_go.Coordinator.Snapshot.Entry.{IsEntry, compacted, compacted_entry}
use kaf_go.Coordinator.Snapshot.Recover.{
  SnapshotBatchHeader, CommitLogReader, record_header, record_headers, on_segment_roll, recover,
}
use kaf_go.Coordinator.Snapshot.Recover.Roll.{slt64_irrefl, load-on_segment_roll}

-- No producer has two entries, as in a Go map.
abbrev pub Distinct : IdempotenceState → Type 0
Distinct [] = Unit
Distinct ((pid, log) ∷ s) = (has pid s ≡ false) × Distinct s

abbrev restored_log : Option ProducerBatchLog → Option ProducerBatchLog → Option ProducerBatchLog
restored_log none before = before
restored_log (some log) before = some (compacted log)

lookup_absent : (k : ℕ) (s : IdempotenceState) → has k s ≡ false → lookup k s ≡ none
lookup_absent k s h = ground arith

lookup-restore_from :
    (k : ℕ) (s acc : IdempotenceState)
    → Distinct s
    → lookup k (restore_from acc (map compacted_entry (snapshot s)))
      ≡ restored_log (lookup k s) (lookup k acc)
unfolding snapshot lookup
lookup-restore_from k [] acc d = refl
lookup-restore_from k ((pid, log) ∷ s) acc d =
    lookup-restore_from k s (insert pid (compacted log) acc) d.1 ∙ elim (Bool-cases (pid == k)) [
      | inl e ↦
          rw
            (
              e,
              ap (λ j. lookup j s) (sym ((==_iff pid k).0 e)) ∙ lookup_absent pid s d.0,
              lookup-insert pid k (compacted log) acc,
              e,
            )
            refl
      | inr e ↦ rw (lookup-insert pid k (compacted log) acc, e) refl
    ]

lookup_ring-empty : (n f l : ℕ) → lookup_ring (empty_slots n) f l ≡ none
unfolding lookup_ring
lookup_ring-empty zero f l = refl
lookup_ring-empty (suc n) f l = lookup_ring-empty n f l

lookup_ring-append :
    (xs : List ProducerRingSlot) (n f l : ℕ)
    → lookup_ring (xs ++ empty_slots n) f l ≡ lookup_ring xs f l
unfolding lookup_ring
lookup_ring-append [] n f l = lookup_ring-empty n f l
lookup_ring-append (x ∷ xs) n f l = ground (arith, lookup_ring-append xs n f l)

lookup_ring-used :
    (ring : List ProducerRingSlot) (f l : ℕ) → lookup_ring (used ring) f l ≡ lookup_ring ring f l
unfolding lookup_ring used
lookup_ring-used [] f l = refl
lookup_ring-used (x ∷ ring) f l = ground (arith, lookup_ring-used ring f l)

same_ring :
    (log : ProducerBatchLog) (f l : ℕ)
    → lookup_ring (compacted log).ring f l ≡ lookup_ring log.ring f l
unfolding compacted
same_ring log f l =
    lookup_ring-append (used log.ring) (ring_size - length (used log.ring)) f l
    ∙ lookup_ring-used log.ring f l

same_sequence :
    (log : ProducerBatchLog) (f l : ℕ)
    → validate_sequence (compacted log) f l ≡ validate_sequence log f l
unfolding validate_sequence compacted
same_sequence log f l = rw (same_ring log f l) refl

same_live :
    (pid epoch f l : ℕ) (log : ProducerBatchLog) (s t : IdempotenceState)
    → (validate_live pid epoch f l (some (compacted log)) s).1
      ≡ (validate_live pid epoch f l (some log) t).1
unfolding validate_live compacted
same_live pid epoch f l log s t = ground (arith, same_sequence log f l)

same_none :
    (pid epoch f l : ℕ) (s t : IdempotenceState)
    → (validate_live pid epoch f l none s).1 ≡ (validate_live pid epoch f l none t).1
unfolding validate_live
same_none pid epoch f l s t = ground arith

same_if :
    (pid epoch f l : ℕ) (gone : Bool) (log : ProducerBatchLog) (s t : IdempotenceState)
    → (validate_live pid epoch f l (if gone then none else some (compacted log)) s).1
      ≡ (validate_live pid epoch f l (if gone then none else some log) t).1
same_if pid epoch f l true log s t = same_none pid epoch f l s t
same_if pid epoch f l false log s t = same_live pid epoch f l log s t

-- The verdict depends on the producer's own log alone, and not on the order of its slots.
same_verdict :
    (now pid epoch f l : ℕ) (o : Option ProducerBatchLog) (s t : IdempotenceState)
    → (validate_live pid epoch f l (live now (restored_log o none)) s).1
      ≡ (validate_live pid epoch f l (live now o) t).1
unfolding live compacted
same_verdict now pid epoch f l none s t = same_none pid epoch f l s t
same_verdict now pid epoch f l (some log) s t = same_if pid epoch f l (expired now log) log s t

same_validate :
    (now pid epoch f l : ℕ) (s t : IdempotenceState)
    → lookup pid s ≡ restored_log (lookup pid t) none
    → (validate now pid epoch f l s).1 ≡ (validate now pid epoch f l t).1
unfolding validate
same_validate now pid epoch f l s t h =
    ap (λ o. (validate_live pid epoch f l (live now o) (drop_expired now pid o s)).1) h
    ∙ same_verdict now pid epoch f l (lookup pid t)
        (drop_expired now pid (restored_log (lookup pid t) none) s)
        (drop_expired now pid (lookup pid t) t)

lookup-record_header :
    (pid now : ℕ) (h : SnapshotBatchHeader) (s : IdempotenceState)
    → (h.producer_id == pid) ≡ false
    → lookup pid (record_header now h s) ≡ lookup pid s
unfolding record_header record_batch
lookup-record_header pid now h s other = elim (Bool-cases (slt64 h.producer_id 0)) [
  | inl negative ↦ rw negative refl
  | inr idempotent ↦ rw (idempotent, lookup-insert, other) refl
]

-- The batches of the other producers leave a producer's log as it is.
lookup-record_headers :
    (pid : ℕ) (clock : ℕ → ℕ) (headers : List SnapshotBatchHeader) (s : IdempotenceState)
    → All (λ h. (h.producer_id == pid) ≡ false) headers
    → lookup pid (record_headers clock headers s) ≡ lookup pid s
unfolding record_headers
lookup-record_headers pid clock [] s others = refl
lookup-record_headers pid clock (h ∷ headers) s others =
    lookup-record_headers pid (λ i. clock (suc i)) headers (record_header (clock 0) h s) others.1
    ∙ lookup-record_header pid (clock 0) h s others.0

module _ (crc : List ℕ → ℕ) (crc_fits : (bytes : List ℕ) → crc bytes < two32) where
  -- Recover behind a roll gives the states that the snapshot restores, and the batches of the new segment on them.
  pub recover-on_segment_roll :
      (clock : ℕ → ℕ) (cl : CommitLogReader) (before state : IdempotenceState) (dir : SnapshotDir)
      → cl.active_segment_base_offset < two64
      → length state < two32
      → All IsEntry (snapshot state)
      → ((c : ℕ) → has c dir ≡ true → slt64 c cl.active_segment_base_offset ≡ true)
      → (recover crc clock cl
          (on_segment_roll crc saved cl.active_segment_base_offset state dir)
          before).0
        ≡ record_headers clock
            (cl.walk_batch_headers_from cl.active_segment_base_offset).0
            (restore (map compacted_entry (snapshot state)))
  unfolding recover
  recover-on_segment_roll clock cl before state dir fits few ok below =
      let base = cl.active_segment_base_offset in
      rw (load-on_segment_roll crc crc_fits base state dir fits few ok below, slt64_irrefl base)
        refl

  -- The broker restarts behind a roll. The snapshot that OnSegmentRoll saved holds `state`; the batches of the new
  -- segment, which are there before it is saved, are recorded on it. For a producer none of whose batches stands in the
  -- new segment, Validate gives every batch the verdict that it gives on `state` with those batches recorded, so without
  -- the restart. The states have fields that fit their types and one entry for each producer, the checksum has 32 bits,
  -- and the base of the new segment is above the other snapshots.
  pub verdict-recover :
      (clock : ℕ → ℕ) (cl : CommitLogReader) (before state : IdempotenceState) (dir : SnapshotDir)
      → cl.active_segment_base_offset < two64
      → length state < two32
      → All IsEntry (snapshot state)
      → Distinct state
      → ((c : ℕ) → has c dir ≡ true → slt64 c cl.active_segment_base_offset ≡ true)
      → (now pid epoch first_seq last_seq : ℕ) (recorded_at : ℕ → ℕ)
      → All
          (λ h. (h.producer_id == pid) ≡ false)
          (cl.walk_batch_headers_from cl.active_segment_base_offset).0
      → (validate now pid epoch first_seq last_seq
          (recover crc clock cl
            (on_segment_roll crc saved cl.active_segment_base_offset state dir)
            before).0).1
        ≡ (validate now pid epoch first_seq last_seq (
            record_headers recorded_at
              (cl.walk_batch_headers_from cl.active_segment_base_offset).0
              state)).1
  unfolding restore lookup
  verdict-recover clock cl before state dir fits few ok distinct below now pid epoch f l recorded_at
        others =
      let headers = (cl.walk_batch_headers_from cl.active_segment_base_offset).0 in
      let live = record_headers recorded_at headers state in
      let loaded = restore (map compacted_entry (snapshot state)) in
      ap (λ s. (validate now pid epoch f l s).1)
        (recover-on_segment_roll clock cl before state dir fits few ok below)
      ∙ same_validate now pid epoch f l (record_headers clock headers loaded) live (
          lookup-record_headers pid clock headers loaded others
          ∙ lookup-restore_from pid state [] distinct
          ∙ ap (λ o. restored_log o none)
              (sym (lookup-record_headers pid recorded_at headers state others)))
