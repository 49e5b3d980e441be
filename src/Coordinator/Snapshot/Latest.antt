-- ===== src/Coordinator/Snapshot/Latest.antt =====
-- LoadLatestProducerSnapshot of coordinator/producer_snapshot.go, on a directory that can be read:
-- the snapshot that recovery starts from.
use kaf_go.Base.{
  ℕ, ◌≡◌, refl, sym, ◌∙◌, ap, arith, Bool, true, false, List, [], ◌∷◌, ◌++◌, Option, none, some,
}
use kaf_go.Base.{◌==◌, ==_iff, if◌then◌else◌, slt64, All, Bool-cases, Option-cases, inl, inr}
use kaf_go.Base.Assoc.{lookup, has}
use kaf_go.Coordinator.Snapshot.{
  ProducerSnapshotEntry, Snapshot, entries_of, fails, SnapshotDir, decode_snapshot,
  list_snapshot_files, insert_sorted,
}

-- (0, nil, nil), and a base offset with its entries.
pub data Loaded : Type 0 where
  nothing : Loaded
  loaded : ℕ → List ProducerSnapshotEntry → Loaded

abbrev pub reverse : List ℕ → List ℕ
reverse [] = []
reverse (x ∷ xs) = reverse xs ++ (x ∷ [])

abbrev pub ok_entries : Snapshot → Option (List ProducerSnapshotEntry)
ok_entries (entries_of entries) = some entries
ok_entries (fails err) = none

module _ (crc : List ℕ → ℕ) where
  -- decodeSnapshotFile on the file of a base offset; none for an error.
  unfoldable pub read_snapshot : SnapshotDir → ℕ → Option (List ProducerSnapshotEntry)
  unfolding decode_snapshot
  read_snapshot dir base = elim (lookup base dir) [
    | none ↦ none
    | some raw ↦ ok_entries (decode_snapshot crc base raw)
  ]

  -- One round of the loop: none when it continues.
  unfoldable pub try_base : SnapshotDir → ℕ → ℕ → Option (List ProducerSnapshotEntry)
  unfolding read_snapshot
  try_base dir max_base base = if slt64 max_base base then none else read_snapshot dir base

  -- The loop, on the files from the last to the first.
  unfoldable pub load_down : SnapshotDir → ℕ → List ℕ → Loaded
  unfolding try_base
  load_down dir max_base [] = nothing
  load_down dir max_base (base ∷ files) = elim (try_base dir max_base base) [
    | none ↦ load_down dir max_base files
    | some entries ↦ loaded base entries
  ]

  unfoldable pub load_latest : SnapshotDir → ℕ → Loaded
  unfolding load_down list_snapshot_files
  load_latest dir max_base = load_down dir max_base (reverse (list_snapshot_files dir))

abbrev listed : ℕ → List ℕ → Bool
listed c [] = false
listed c (b ∷ bases) = if b == c then true else listed c bases

listed-insert_sorted :
    (c b : ℕ) (bases : List ℕ)
    → listed c (insert_sorted b bases) ≡ (if b == c then true else listed c bases)
listed-insert_sorted c b [] = refl
listed-insert_sorted c b (d ∷ bases) = ground (arith, listed-insert_sorted c b bases)

listed-files : (c : ℕ) (dir : SnapshotDir) → listed c (list_snapshot_files dir) ≡ has c dir
unfolding list_snapshot_files lookup
listed-files c [] = refl
listed-files c ((b, raw) ∷ dir) =
    listed-insert_sorted c b (list_snapshot_files dir) ∙ ground (arith, listed-files c dir)

-- The bases from b on, in order.
abbrev From : ℕ → List ℕ → Type 0
From b bases = All (λ c. slt64 c b ≡ false) bases

abbrev Sorted : List ℕ → Type 0
Sorted [] = Unit
Sorted (b ∷ bases) = From b bases × Sorted bases

From-mono : (b c : ℕ) (bases : List ℕ) → slt64 c b ≡ false → From c bases → From b bases
From-mono b c [] le h = tt
From-mono b c (d ∷ bases) le h = (ground (arith, h.0), From-mono b c bases le h.1)

From-insert_sorted :
    (b c : ℕ) (bases : List ℕ) → slt64 c b ≡ false → From b bases → From b (insert_sorted c bases)
From-insert_sorted b c [] le h = (le, tt)
From-insert_sorted b c (d ∷ bases) le h = elim (Bool-cases (slt64 d c)) [
  | inl e ↦ rw e (h.0, From-insert_sorted b c bases le h.1)
  | inr e ↦ rw e (le, (h.0, h.1))
]

insert_sorted-Sorted : (b : ℕ) (bases : List ℕ) → Sorted bases → Sorted (insert_sorted b bases)
insert_sorted-Sorted b [] h = (tt, tt)
insert_sorted-Sorted b (d ∷ bases) h = elim (Bool-cases (slt64 d b)) [
  | inl e ↦ rw e (From-insert_sorted d b bases (ground arith) h.0, insert_sorted-Sorted b bases h.1)
  | inr e ↦ rw e ((e, From-mono b d bases e h.0), h)
]

files-Sorted : (dir : SnapshotDir) → Sorted (list_snapshot_files dir)
unfolding list_snapshot_files
files-Sorted [] = tt
files-Sorted ((b, raw) ∷ dir) = insert_sorted-Sorted b (list_snapshot_files dir) (files-Sorted dir)

From-listed : (b c : ℕ) (bases : List ℕ) → From b bases → listed c bases ≡ true → slt64 c b ≡ false
From-listed b c [] h l = ground arith
From-listed b c (d ∷ bases) h l = elim (Bool-cases (d == c)) [
  | inl e ↦ ground (arith, h.0)
  | inr e ↦ From-listed b c bases h.1 (ground arith)
]

module _ (crc : List ℕ → ℕ) (dir : SnapshotDir) (max_base : ℕ) where
  abbrev or_else : Loaded → Loaded → Loaded
  or_else nothing l = l
  or_else (loaded b entries) l = loaded b entries

  load_down-append :
      (xs ys : List ℕ)
      → load_down crc dir max_base (xs ++ ys)
        ≡ or_else (load_down crc dir max_base xs) (load_down crc dir max_base ys)
  unfolding load_down
  load_down-append [] ys = refl
  load_down-append (b ∷ xs) ys = elim (Option-cases (try_base crc dir max_base b)) [
    | inl e ↦ rw (e, load_down) (load_down-append xs ys)
    | inr (entries, e) ↦ rw (e, load_down) refl
  ]

  -- What is loaded of some bases: nothing when no file can be used; else the file of a base, and none above it can be used.
  abbrev pub IsLatestOf : (ℕ → Bool) → Loaded → Type 0
  IsLatestOf present nothing = (c : ℕ) → present c ≡ true → try_base crc dir max_base c ≡ none
  IsLatestOf present (loaded b entries) =
      (present b ≡ true)
      × (try_base crc dir max_base b ≡ some entries)
      × ((c : ℕ) → present c ≡ true → slt64 b c ≡ true → try_base crc dir max_base c ≡ none)

  load_one-none :
      (b : ℕ) → try_base crc dir max_base b ≡ none → load_down crc dir max_base (b ∷ []) ≡ nothing
  unfolding load_down
  load_one-none b e = rw (e, load_down) refl

  load_one-some :
      (b : ℕ) (entries : List ProducerSnapshotEntry)
      → try_base crc dir max_base b ≡ some entries
      → load_down crc dir max_base (b ∷ []) ≡ loaded b entries
  unfolding load_down
  load_one-some b entries e = rw (e, load_down) refl

  later :
      (b : ℕ) (bases : List ℕ) (l : Loaded)
      → Sorted (b ∷ bases)
      → IsLatestOf (λ c. listed c bases) l
      → IsLatestOf (λ c. listed c (b ∷ bases)) (or_else l (load_down crc dir max_base (b ∷ [])))
  later b bases (loaded d entries) sorted h = (
    ground (arith, h.0),
    h.1,
    λ c l gt. elim (Bool-cases (b == c)) [
      | inl e ↦ (ground (arith, From-listed b d bases sorted.0 h.0))
      | inr e ↦ h.2 c (ground arith) gt
    ],
  )
  later b bases nothing sorted h = elim (Option-cases (try_base crc dir max_base b)) [
    | inl e ↦ rw (load_one-none b e) (λ c l. elim (Bool-cases (b == c)) [
      | inl same ↦ ap (try_base crc dir max_base) (sym ((==_iff b c).0 same)) ∙ e
      | inr other ↦ h c (ground arith)
    ])
    | inr (entries, e) ↦
        rw (load_one-some b entries e) (ground arith, e, λ c l gt. h c (ground arith))
  ]

  by_presence :
      (l : Loaded)
      → IsLatestOf (λ c. listed c (list_snapshot_files dir)) l
      → IsLatestOf (λ c. has c dir) l
  by_presence nothing h = λ c p. h c (listed-files c dir ∙ p)
  by_presence (loaded b entries) h =
      (sym (listed-files b dir) ∙ h.0, h.1, λ c p gt. h.2 c (listed-files c dir ∙ p) gt)

  latest_of :
      (bases : List ℕ)
      → Sorted bases
      → IsLatestOf (λ c. listed c bases) (load_down crc dir max_base (reverse bases))
  unfolding load_down
  latest_of [] sorted = λ c l. ground arith
  latest_of (b ∷ bases) sorted =
      rw (load_down-append (reverse bases) (b ∷ [])) (
        later b bases (load_down crc dir max_base (reverse bases)) sorted
          (latest_of bases sorted.1))

  -- What LoadLatestProducerSnapshot loads: when it finds nothing, no snapshot file of the directory at or below the
  -- bound can be decoded; else it gives the base and the entries of a file that can, and no file of a greater base
  -- at or below the bound can.
  pub load_latest-IsLatest : IsLatestOf (λ c. has c dir) (load_latest crc dir max_base)
  unfolding load_latest
  load_latest-IsLatest =
      by_presence (load_latest crc dir max_base)
        (latest_of (list_snapshot_files dir) (files-Sorted dir))
