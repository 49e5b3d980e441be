-- ===== src/Storage/Log/Appends.antt =====
-- AppendRaw of a commit log, against the log as one sequence of batches.
use kaf_go.Base.{
  ap, ◌∙◌, sym, ℕ, ◌+◌, ◌%◌, ◌^◌, ◌<◌, ◌≡◌, refl, inl, inr, arith, Bool-cases, Bool, true, false,
  List, [], ◌∷◌, ◌++◌, Option, none, some,
}
use kaf_go.Base.{length, append_assoc, append-nil, All, if◌then◌else◌, two64, extend32}
use mathlib.Core.Path.{subst}
use kaf_go.Storage.Region.Batches.{LogBatch, IsLogBatch, last, log_contents, log_contents-append}
use kaf_go.Storage.Recovery.{next_offset}
use kaf_go.Storage.Recovery.Whole.{over, next_offset-whole}
use kaf_go.Storage.Log.{
  Segment, new_segment, Outside, patched, is_full, CommitLog, segments, appended, refused, ran, Ran,
  active_appended, append_active, roll, append_raw,
}
use kaf_go.Storage.Log.Sound.{
  Sound, all_well, fresh, new_segment-Indexed, segment_append_raw-Indexed, rebased,
  rebased-IsLogBatch,
}

-- The bytes of the log, from its first segment to its last.
abbrev pub bytes_of : List Segment → List ℕ
bytes_of [] = []
bytes_of (s ∷ all) = s.log_file ++ bytes_of all

bytes_of-append : (xs ys : List Segment) → bytes_of (xs ++ ys) ≡ bytes_of xs ++ bytes_of ys
bytes_of-append [] ys = refl
bytes_of-append (x ∷ xs) ys =
    ap (λ t. x.log_file ++ t) (bytes_of-append xs ys)
    ∙ sym (append_assoc x.log_file (bytes_of xs) (bytes_of ys))

pub bytes_of-last :
    (xs : List Segment) (s : Segment) → bytes_of (xs ++ (s ∷ [])) ≡ bytes_of xs ++ s.log_file
bytes_of-last xs s =
    bytes_of-append xs (s ∷ []) ∙ ap (λ t. bytes_of xs ++ t) (append-nil s.log_file)

over-append :
    {A : Type 0} (step : LogBatch → A → A) (x : A) (bs : List LogBatch) (b : LogBatch)
    → over step x (bs ++ (b ∷ [])) ≡ step b (over step x bs)
over-append step x [] b = refl
over-append step x (c ∷ bs) b = over-append step (step c x) bs b

All-append {ℓ} :
    {A : Type 0} (P : A → Type ℓ) (xs : List A) (x : A) → All P xs → P x → All P (xs ++ (x ∷ []))
All-append P [] x h p = (p, tt)
All-append P (y ∷ xs) x h p = (h.0, All-append P xs x h.1 p)

-- A batch of so many records that the next offset stays an int64.
pub record Fits (next record_count : ℕ) (d : LogBatch) : Type 0 where
  pub valid : IsLogBatch d
  pub counted : record_count ≡ d.last_offset_delta + 1
  pub small : record_count < 2 ^ 31
  pub below : next + record_count < 2 ^ 63

-- The segments that are sealed, the base of the active one and its bytes, before the batch is written: those of the
-- log, or, where a segment is rolled, with the active one sealed and a new one at the base.
abbrev pub sealed_by : Option ℕ → CommitLog → List Segment
sealed_by none c = c.sealed
sealed_by (some base) c = c.sealed ++ (c.active ∷ [])

abbrev pub base_by : Option ℕ → CommitLog → ℕ
base_by none c = c.active.base_offset
base_by (some base) c = base

abbrev pub file_by : Option ℕ → CommitLog → List ℕ
file_by none c = c.active.log_file
file_by (some base) c = []

-- An append that succeeds, and what the log is after it: its sealed segments and the base and the bytes of its active
-- one are those that the roll asks for, if any.
pub record Appended (now record_count : ℕ) (d : LogBatch) (c : CommitLog) (rolled : Option ℕ)
    (o : Ran) : Type 0 where
  pub c' : CommitLog
  pub bs' : List LogBatch
  pub done : o ≡ ran (appended c.next_offset rolled) c'
  pub sound : Sound c' bs'
  pub next : c'.next_offset ≡ c.next_offset + record_count
  pub bytes : bytes_of (segments c') ≡ bytes_of (segments c) ++ patched c.next_offset d.bytes
  pub sealed : c'.sealed ≡ sealed_by rolled c
  pub base : c'.active.base_offset ≡ base_by rolled c
  pub file : c'.active.log_file ≡ file_by rolled c ++ patched c.next_offset d.bytes

-- The same for the active segment alone, whatever roll is reported.
record Taken (now record_count : ℕ) (d : LogBatch) (c : CommitLog) (rolled : Option ℕ) (o : Ran)
    : Type 0 where
  c' : CommitLog
  bs' : List LogBatch
  done : o ≡ ran (appended c.next_offset rolled) c'
  sound : Sound c' bs'
  next : c'.next_offset ≡ c.next_offset + record_count
  bytes : bytes_of (segments c') ≡ bytes_of (segments c) ++ patched c.next_offset d.bytes
  sealed : c'.sealed ≡ c.sealed
  base : c'.active.base_offset ≡ c.active.base_offset
  file : c'.active.log_file ≡ c.active.log_file ++ patched c.next_offset d.bytes

append_active-Sound :
    (now record_count : ℕ) (d : LogBatch) (rolled : Option ℕ) (c : CommitLog) (bs : List LogBatch)
    → Sound c bs
    → Fits c.next_offset record_count d
    → Taken now record_count d c rolled (append_active (all_well now) d.bytes record_count rolled c)
append_active-Sound now record_count d rolled c bs h fits =
    let (s, done, file, base, indexed) =
      segment_append_raw-Indexed now c.next_offset d.bytes c.active h.indexed
        (omega (arith, fits.valid.whole)) in
    let b = rebased c.next_offset d in
    let count : extend32 record_count ≡ record_count = ground (arith, fits.small) in
    let delta : extend32 d.last_offset_delta ≡ d.last_offset_delta =
      ground (arith, fits.small, fits.counted) in
    let sum : (c.next_offset + extend32 record_count) % two64 ≡ c.next_offset + record_count =
      omega (arith, count, fits.below) in
    let next : (last b + 1) % two64 ≡ c.next_offset + record_count =
      omega (arith, delta, fits.counted, fits.below) in
    record {
      c' = record c { active = s; next_offset = (c.next_offset + extend32 record_count) % two64 };
      bs' = bs ++ (b ∷ []);
      done = ap (active_appended rolled record_count c) done;
      sound = record {
        is_open = h.is_open;
        file =
            file
            ∙ ap (λ t. t ++ b.bytes) h.file
            ∙ sym (
                log_contents-append bs (b ∷ [])
                ∙ ap (λ t. log_contents bs ++ t) (append-nil b.bytes));
        valid =
            All-append IsLogBatch bs b h.valid
              (rebased-IsLogBatch c.next_offset d (omega (arith, fits.below)) fits.valid);
        positive =
            All-append (λ x. x.base_offset < 2 ^ 63) bs b h.positive (omega (arith, fits.below));
        next = sum ∙ sym next ∙ sym (over-append (λ x _. (last x + 1) % two64) s.base_offset bs b);
        indexed = indexed;
      };
      next = sum;
      bytes =
          bytes_of-last c.sealed s
          ∙ ap (λ t. bytes_of c.sealed ++ t) file
          ∙ sym (append_assoc (bytes_of c.sealed) c.active.log_file b.bytes)
          ∙ ap (λ t. t ++ b.bytes) (sym (bytes_of-last c.sealed c.active));
      sealed = refl;
      base = base;
      file = file;
    }

-- What NextOffset of the active segment gives is the next offset of the log.
next_offset-active :
    (c : CommitLog) (bs : List LogBatch)
    → Sound c bs
    → length c.active.log_file < 2 ^ 62
    → next_offset c.active.base_offset c.active.log_file ≡ some c.next_offset
next_offset-active c bs h small =
    let whole : c.active.log_file ≡ log_contents bs ++ [] =
      h.file ∙ sym (append-nil (log_contents bs)) in
    ap (next_offset c.active.base_offset) whole
    ∙ next_offset-whole c.active.base_offset bs [] h.valid h.positive (inl (omega arith))
        (subst (λ t. length t < 2 ^ 62) whole small)
    ∙ ap some (sym h.next)

rolled_log : CommitLog → CommitLog
rolled_log c = record c {
  sealed = c.sealed ++ (c.active ∷ []);
  active = new_segment c.next_offset fresh c.config;
}

rolled_log-Sound : (c : CommitLog) (bs : List LogBatch) → Sound c bs → Sound (rolled_log c) []
unfolding rolled_log new_segment
rolled_log-Sound c bs h = record {
  is_open = h.is_open;
  file = refl;
  valid = tt;
  positive = tt;
  next = refl;
  indexed = new_segment-Indexed c.next_offset c.config;
}

rolled_bytes : (c : CommitLog) → bytes_of (segments (rolled_log c)) ≡ bytes_of (segments c)
unfolding rolled_log new_segment
rolled_bytes c =
    bytes_of-last (segments c) (new_segment c.next_offset fresh c.config)
    ∙ append-nil (bytes_of (segments c))

-- An append to the active segment is one to the log.
stays :
    (now record_count : ℕ) (d : LogBatch) (c : CommitLog) (o : Ran)
    → Taken now record_count d c none o
    → Appended now record_count d c none o
stays now record_count d c o a = record {
  c' = a.c';
  bs' = a.bs';
  done = a.done;
  sound = a.sound;
  next = a.next;
  bytes = a.bytes;
  sealed = a.sealed;
  base = a.base;
  file = a.file;
}

-- An append to the active segment of the log that is rolled is one to the log.
rolls :
    (now record_count : ℕ) (d : LogBatch) (c : CommitLog) (o : Ran)
    → Taken now record_count d (rolled_log c) (some c.next_offset) o
    → Appended now record_count d c (some c.next_offset) o
unfolding rolled_log new_segment
rolls now record_count d c o a = record {
  c' = a.c';
  bs' = a.bs';
  done = a.done;
  sound = a.sound;
  next = a.next;
  bytes = a.bytes ∙ ap (λ t. t ++ patched c.next_offset d.bytes) (rolled_bytes c);
  sealed = a.sealed;
  base = a.base;
  file = a.file;
}

module _ (o : Outside) (batch : List ℕ) (record_count : ℕ) (c : CommitLog)
    (is_open : c.is_closed ≡ false) where
  abbrev when_open : Ran
  when_open =
      if is_full c.active
      then roll o (some fresh) batch record_count c
          (next_offset c.active.base_offset c.active.log_file)
      else append_active o batch record_count none c

  opened : append_raw o (some fresh) batch record_count c ≡ when_open
  unfolding append_raw
  opened = ap (λ b. if b then ran refused c else when_open) is_open

  pub append_raw-room :
      is_full c.active ≡ false
      → append_raw o (some fresh) batch record_count c ≡ append_active o batch record_count none c
  append_raw-room room =
      opened
      ∙ ap
          (λ b.
            if b
            then roll o (some fresh) batch record_count c
                (next_offset c.active.base_offset c.active.log_file)
            else append_active o batch record_count none c)
          room

  append_raw-full :
      is_full c.active ≡ true
      → next_offset c.active.base_offset c.active.log_file ≡ some c.next_offset
      → append_raw o (some fresh) batch record_count c
        ≡ append_active o batch record_count (some c.next_offset) (rolled_log c)
  unfolding rolled_log
  append_raw-full full base =
      opened
      ∙ ap
          (λ b.
            if b
            then roll o (some fresh) batch record_count c
                (next_offset c.active.base_offset c.active.log_file)
            else append_active o batch record_count none c)
          full
      ∙ ap (roll o (some fresh) batch record_count c) base

-- On a sound log whose active file is below 2^62 bytes, where the file system does what it is asked
-- for and the files of a new segment are new, AppendRaw of a batch of record_count records that fits
-- gives the next offset of the log as its start. The log after it is sound, its next offset is higher
-- by record_count, and its bytes are those before with the batch, at its start offset, behind them.
-- Where the active segment is full it is sealed as it is, the roll is reported, and the batch is all
-- that the new active segment holds, whose base is the next offset; otherwise no roll is reported, the
-- sealed segments and the base of the active one stay, and the batch stands behind what the active one
-- held.
pub append_raw-Sound :
    (now record_count : ℕ) (d : LogBatch) (c : CommitLog) (bs : List LogBatch)
    → Sound c bs
    → Fits c.next_offset record_count d
    → length c.active.log_file < 2 ^ 62
    → Appended now record_count d c
        (if is_full c.active then some c.next_offset else none)
        (append_raw (all_well now) (some fresh) d.bytes record_count c)
append_raw-Sound now record_count d c bs h fits small = elim (Bool-cases (is_full c.active)) [
  | inr room ↦ rw (ap rolled_if room) (
      subst (Appended now record_count d c none)
        (sym (append_raw-room (all_well now) d.bytes record_count c h.is_open room))
        (stays now record_count d c _ (append_active-Sound now record_count d none c bs h fits)))
  | inl full ↦ rw (ap rolled_if full) (
      subst (Appended now record_count d c (some c.next_offset))
        (sym (
          append_raw-full (all_well now) d.bytes record_count c h.is_open full
            (next_offset-active c bs h small)))
        (rolls now record_count d c _ (
          append_active-Sound now record_count d (some c.next_offset) (rolled_log c) []
            (rolled_log-Sound c bs h) (rolled_fits fits))))
]
  where
    rolled_if : Bool → Option ℕ
    rolled_if full = if full then some c.next_offset else none

    rolled_fits : Fits c.next_offset record_count d → Fits (rolled_log c).next_offset record_count d
    rolled_fits f = unfold rolled_log in f
