-- ===== src/Coordinator/Snapshot/Recover/Roll.antt =====
-- OnSegmentRoll and LoadLatestProducerSnapshot: the snapshot that a roll wrote is the one that is
-- loaded while its segment is the active one.
use kaf_go.Base.{
  ℕ, suc, ◌-◌, ◌<◌, ◌≡◌, refl, sym, ◌∙◌, ap, arith, true, false, List, [], ◌∷◌, none, some, map,
  length, take, leb, ◌==◌, ==_iff,
}
use kaf_go.Base.{slt64, All, Bool-cases, inl, inr, two32, two64}
use kaf_go.Base.Assoc.{lookup, insert, has, erase, lookup-erase, lookup-insert, has-insert}
use kaf_go.Coordinator.Idempotence.{IdempotenceState}
use kaf_go.Coordinator.Snapshot.{
  ProducerSnapshotEntry, entries_of, SnapshotDir, saved, snapshot, encode_snapshot, decode_snapshot,
  list_snapshot_files,
}
use kaf_go.Coordinator.Snapshot.Entry.{IsEntry, compacted_entry}
use kaf_go.Coordinator.Snapshot.File.{decode_snapshot-encode}
use kaf_go.Coordinator.Snapshot.Latest.{
  Loaded, nothing, loaded, ok_entries, read_snapshot, try_base, load_latest, load_latest-IsLatest,
  IsLatestOf,
}
use kaf_go.Coordinator.Snapshot.Recover.{
  delete_below, prune_old_snapshots, on_segment_roll, retain_snapshots,
}

has-erase : (k c : ℕ) (dir : SnapshotDir) → has c (erase k dir) ≡ true → has c dir ≡ true
has-erase k c dir h = elim (Bool-cases (k == c)) [
  | inl e ↦ ground (arith, lookup-erase k c dir)
  | inr e ↦ ground (arith, lookup-erase k c dir)
]

delete_below-has :
    (cur c : ℕ) (bases : List ℕ) (dir : SnapshotDir)
    → has c (delete_below cur bases dir) ≡ true
    → has c dir ≡ true
unfolding delete_below
delete_below-has cur c [] dir h = h
delete_below-has cur c (b ∷ bases) dir h = elim (Bool-cases (slt64 b cur)) [
  | inl e ↦ has-erase b c dir (delete_below-has cur c bases (erase b dir) (simp e at h))
  | inr e ↦ delete_below-has cur c bases dir (simp e at h)
]

delete_below-kept :
    (cur c : ℕ) (bases : List ℕ) (dir : SnapshotDir)
    → slt64 c cur ≡ false
    → lookup c (delete_below cur bases dir) ≡ lookup c dir
unfolding delete_below
delete_below-kept cur c [] dir h = refl
delete_below-kept cur c (b ∷ bases) dir h = elim (Bool-cases (slt64 b cur)) [
  | inl e ↦
      rw e (delete_below-kept cur c bases (erase b dir) h ∙ ground (arith, lookup-erase b c dir))
  | inr e ↦ rw e (delete_below-kept cur c bases dir h)
]

prune-has :
    (cur c : ℕ) (dir : SnapshotDir) → has c (prune_old_snapshots cur dir) ≡ true → has c dir ≡ true
unfolding prune_old_snapshots
prune-has cur c dir h =
    let bases = list_snapshot_files dir in
    elim (Bool-cases (leb (length bases) retain_snapshots)) [
      | inl e ↦ simp e at h
      | inr e ↦
          delete_below-has cur c (take (length bases - retain_snapshots) bases) dir (simp e at h)
    ]

prune-kept :
    (cur c : ℕ) (dir : SnapshotDir)
    → slt64 c cur ≡ false
    → lookup c (prune_old_snapshots cur dir) ≡ lookup c dir
unfolding prune_old_snapshots
prune-kept cur c dir h =
    let bases = list_snapshot_files dir in
    elim (Bool-cases (leb (length bases) retain_snapshots)) [
      | inl e ↦ rw e refl
      | inr e ↦ rw e (delete_below-kept cur c (take (length bases - retain_snapshots) bases) dir h)
    ]

pub slt64_irrefl : (b : ℕ) → slt64 b b ≡ false
slt64_irrefl b = ground arith

some-inj : {A : Type 0} {a b : A} → some a ≡ some b → a ≡ b
some-inj h = ground arith

length-snapshot : (s : IdempotenceState) → length (snapshot s) ≡ length s
unfolding snapshot
length-snapshot [] = refl
length-snapshot ((pid, log) ∷ s) = ap suc (length-snapshot s)

module _ (crc : List ℕ → ℕ) where
  read_snapshot-some :
      (dir : SnapshotDir) (base : ℕ) (raw : List ℕ) (entries : List ProducerSnapshotEntry)
      → lookup base dir ≡ some raw
      → decode_snapshot crc base raw ≡ entries_of entries
      → read_snapshot crc dir base ≡ some entries
  unfolding read_snapshot
  read_snapshot-some dir base raw entries e d = rw (e, read_snapshot) (ap ok_entries d)

  try_base-at :
      (dir : SnapshotDir) (base : ℕ) (entries : List ProducerSnapshotEntry)
      → read_snapshot crc dir base ≡ some entries
      → try_base crc dir base base ≡ some entries
  unfolding try_base
  try_base-at dir base entries r = rw (slt64_irrefl base) r

  try_base-above :
      (dir : SnapshotDir) (max_base base : ℕ)
      → slt64 max_base base ≡ true
      → try_base crc dir max_base base ≡ none
  unfolding try_base
  try_base-above dir max_base base gt = rw gt refl

  same_base :
      (dir : SnapshotDir) (base b : ℕ) (entries found : List ProducerSnapshotEntry)
      → try_base crc dir base base ≡ some entries
      → try_base crc dir base b ≡ some found
      → base ≡ b
      → loaded b found ≡ loaded base entries
  same_base dir base b entries found usable tried e =
      let same : found ≡ entries =
        some-inj (sym tried ∙ ap (try_base crc dir base) (sym e) ∙ usable) in
      λ i. loaded (sym e i) (same i)

  top_of_latest :
      (dir : SnapshotDir) (base : ℕ) (entries : List ProducerSnapshotEntry)
      → has base dir ≡ true
      → try_base crc dir base base ≡ some entries
      → ((c : ℕ) → has c dir ≡ true → (base == c) ≡ false → slt64 c base ≡ true)
      → (l : Loaded) → IsLatestOf crc dir base (λ c. has c dir) l
      → l ≡ loaded base entries
  top_of_latest dir base entries there usable others nothing h = ground (arith, h base there)
  top_of_latest dir base entries there usable others (loaded b found) h =
      elim (Bool-cases (base == b)) [
        | inl e ↦ same_base dir base b entries found usable h.1 ((==_iff base b).0 e)
        | inr e ↦ ground (arith, h.2 base there (others b h.0 e))
      ]

  -- When the file of the bound itself can be decoded and the other bases are below the bound, it is the one loaded.
  load_top :
      (dir : SnapshotDir) (base : ℕ) (entries : List ProducerSnapshotEntry)
      → has base dir ≡ true
      → try_base crc dir base base ≡ some entries
      → ((c : ℕ) → has c dir ≡ true → (base == c) ≡ false → slt64 c base ≡ true)
      → load_latest crc dir base ≡ loaded base entries
  load_top dir base entries there usable others =
      top_of_latest dir base entries there usable others (load_latest crc dir base)
        (load_latest-IsLatest crc dir base)

  -- The snapshot that a roll wrote is the one loaded when the bound is the base of the new segment.
  pub load-on_segment_roll :
      ((bytes : List ℕ) → crc bytes < two32)
      → (base : ℕ) (state : IdempotenceState) (dir : SnapshotDir) → base < two64
      → length state < two32
      → All IsEntry (snapshot state)
      → ((c : ℕ) → has c dir ≡ true → slt64 c base ≡ true)
      → load_latest crc (on_segment_roll crc saved base state dir) base
        ≡ loaded base (map compacted_entry (snapshot state))
  unfolding on_segment_roll
  load-on_segment_roll crc_fits base state dir fits few ok below =
      let raw = encode_snapshot crc base (snapshot state) in
      let written = insert base raw dir in
      let dir' = prune_old_snapshots base written in
      let there : lookup base dir' ≡ some raw =
        prune-kept base base written (slt64_irrefl base)
        ∙ ground (arith, lookup-insert base base raw dir) in
      let read =
        decode_snapshot-encode crc crc_fits base (snapshot state) fits
          (omega (arith, length-snapshot state)) ok in
      let entries = map compacted_entry (snapshot state) in
      load_top dir' base entries (rw there refl)
        (try_base-at dir' base entries (read_snapshot-some dir' base raw entries there read))
        (λ c p ne. below c (ground (arith, prune-has base c written p, has-insert base c raw dir)))
