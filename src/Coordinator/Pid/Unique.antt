-- ===== src/Coordinator/Pid/Unique.antt =====
-- The producer ids of a run, restarts and failed appends included.
use mathlib.Core.Path.{subst}
use kaf_go.Base.{
  ℕ, ◌%◌, ap, suc, ◌+◌, ◌*◌, ◌^◌, ◌≤◌, ◌<◌, ◌≡◌, refl, sym, arith, Bool, true, false, List, [], ◌∷◌,
  ◌++◌, Option, none, some,
}
use kaf_go.Base.{if◌then◌else◌, Bool-cases, inl, inr, slt64, sle64, two64, length, All}
use kaf_go.Coordinator.Pid.{
  PidManager, AppendResult, stored, refused, stored_with_error, dropped, Event, allocate, restart,
  keep, new_pid_manager, allocate_one, lease_next_block, recover_pid_manager, configure,
  seed_from_log, max_seen_loop, max_seen, handle, issued, default_pid_block_size, lease_logged,
  append, extend_block, issue_if, issue,
}

-- Every member is at least `low`, and above those before it.
abbrev pub Increasing : ℕ → List ℕ → Type 0
Increasing low [] = Unit
Increasing low (x ∷ xs) = (low ≤ x) × Increasing (suc x) xs

Increasing-le : (low high : ℕ) (xs : List ℕ) → low ≤ high → Increasing high xs → Increasing low xs
Increasing-le low high [] h r = tt
Increasing-le low high (x ∷ xs) h (first, r) = (omega arith, r)

abbrev larger : ℕ → ℕ → ℕ
larger a b = if slt64 a b then b else a

max_seen_loop-append :
    (a x : ℕ) (log : List ℕ) → max_seen_loop a (log ++ (x ∷ [])) ≡ larger (max_seen_loop a log) x
unfolding max_seen_loop
max_seen_loop-append a x [] = refl
max_seen_loop-append a x (y ∷ log) = max_seen_loop-append (if slt64 a y then y else a) x log

-- After k events: the block is leased in the log, and no log entry is above k blocks.
record Leased (k : ℕ) (m : PidManager) : Type 0 where
  steps : m.step ≡ default_pid_block_size
  logged : m.attached ≡ true
  inside : m.next_base ≤ m.block_end
  covered : m.block_end ≤ max_seen m.log
  bounded : max_seen m.log ≤ 1000 * k

abbrev pub is_dropped : AppendResult → Bool
is_dropped dropped = true
is_dropped _ = false

-- No record is dropped, and each restart replays every record of the log.
abbrev pub IsWhole : Event → List ℕ → Type 0
IsWhole (allocate result) log = is_dropped result ≡ false
IsWhole (restart replayed) log = replayed ≡ log

abbrev pub AllWhole : List Event → PidManager → Type 0
AllWhole [] m = Unit
AllWhole (e ∷ events) m = IsWhole e m.log × AllWhole events (handle e m).1

-- What one event does to the ids from `low` on, and to the largest log entry, `seen`.
Issues : ℕ → ℕ → ℕ → Option ℕ × PidManager → Type 0
Issues low seen k (none, m) = Leased k m × (low ≤ m.next_base) × (seen ≤ max_seen m.log)
Issues low seen k (some pid, m) =
    Leased k m
    × (low ≤ pid)
    × (m.next_base ≡ suc pid)
    × (pid < max_seen m.log)
    × (seen ≤ max_seen m.log)

module _ (k : ℕ) (m : PidManager) (h : Leased k m) (fits : 1000 * suc k < 2 ^ 63) where
  new_end : (m.block_end + m.step) % two64 ≡ m.block_end + 1000
  new_end = rw h.steps (omega (arith, h.covered, h.bounded))

  max_seen-append :
      max_seen (append m).log
      ≡ (if slt64 (max_seen m.log) (m.block_end + 1000) then m.block_end + 1000 else max_seen m.log)
  max_seen-append = rw new_end (max_seen_loop-append 0 (m.block_end + 1000) m.log)

  grown :
      (max_seen m.log ≤ max_seen (append m).log) × (m.block_end + 1000 ≤ max_seen (append m).log)
  grown = ground (arith, max_seen-append, h.covered, h.bounded)

  append-Leased : Leased (suc k) (append m)
  append-Leased = record {
    steps = h.steps;
    logged = h.logged;
    inside = h.inside;
    covered = omega (arith, h.covered, grown.0);
    bounded = ground (arith, max_seen-append, h.covered, h.bounded);
  }

  same_base :
      m.block_end ≤ m.next_base
      → (if slt64 m.next_base m.block_end then m.block_end else m.next_base) ≡ m.next_base
  same_base empty = ground (arith, h.inside, h.covered, h.bounded)

  recover-Issues :
      Issues m.next_base
        (max_seen m.log)
        (suc k)
        (none, recover_pid_manager m.log (new_pid_manager m.log))
  unfolding Issues recover_pid_manager configure seed_from_log
  recover-Issues = elim (Bool-cases (slt64 0 (max_seen m.log))) [
    | inl some_seen ↦ rw some_seen (
      record {
        steps = refl;
        logged = refl;
        inside = omega arith;
        covered = omega arith;
        bounded = omega (arith, h.bounded);
      },
      omega (arith, h.inside, h.covered),
      omega arith,
    )
    | inr none_seen ↦ rw none_seen (
      record {
        steps = refl;
        logged = refl;
        inside = omega arith;
        covered = omega arith;
        bounded = omega (arith, h.bounded);
      },
      ground (arith, h.inside, h.covered, h.bounded),
      omega arith,
    )
  ]

  issue-Issues : m.next_base < m.block_end → Issues m.next_base (max_seen m.log) (suc k) (issue m)
  unfolding Issues
  issue-Issues room = (
    record {
      steps = h.steps;
      logged = h.logged;
      inside = omega (arith, h.covered, h.bounded);
      covered = h.covered;
      bounded = omega (arith, h.bounded);
    },
    omega arith,
    omega (arith, h.covered, h.bounded),
    omega (arith, h.covered),
    omega arith,
  )

  lease-Issues :
      (result : AppendResult)
      → is_dropped result ≡ false
      → m.block_end ≤ m.next_base
      → Issues m.next_base (max_seen m.log) (suc k) (issue_if (lease_logged result m))
  unfolding Issues
  lease-Issues stored keeps empty = rw (same_base empty) (
    record {
      steps = h.steps;
      logged = h.logged;
      inside = omega (arith, new_end, h.inside, h.covered, h.bounded);
      covered = omega (arith, new_end, grown.1);
      bounded = append-Leased.bounded;
    },
    omega arith,
    omega (arith, h.inside, h.covered, h.bounded),
    omega (arith, h.inside, grown.1),
    grown.0,
  )
  lease-Issues refused keeps empty = (
    record {
      steps = h.steps;
      logged = h.logged;
      inside = h.inside;
      covered = h.covered;
      bounded = omega (arith, h.bounded);
    },
    omega arith,
    omega arith,
  )
  lease-Issues stored_with_error keeps empty = (append-Leased, omega arith, grown.0)
  lease-Issues dropped keeps empty = cc

  leased_by : (result : AppendResult) → lease_next_block result m ≡ lease_logged result m
  unfolding lease_next_block
  leased_by result = ap (λ b. if b then lease_logged result m else (true, extend_block m)) h.logged

  allocate-Issues :
      (result : AppendResult)
      → is_dropped result ≡ false
      → Issues m.next_base (max_seen m.log) (suc k) (allocate_one result m)
  unfolding allocate_one
  allocate-Issues result keeps = elim (Bool-cases (sle64 m.block_end m.next_base)) [
    | inr room ↦ rw room (issue-Issues (ground (arith, h.inside, h.covered, h.bounded)))
    | inl empty ↦
        rw (empty, leased_by result)
          (lease-Issues result keeps (ground (arith, h.inside, h.covered, h.bounded)))
  ]

  handle-Issues :
      (e : Event) → IsWhole e m.log → Issues m.next_base (max_seen m.log) (suc k) (handle e m)
  unfolding handle
  handle-Issues (allocate result) whole = allocate-Issues result whole
  handle-Issues (restart replayed) whole =
      subst
        (λ r.
          Issues m.next_base (max_seen m.log) (suc k)
            (none, recover_pid_manager r (new_pid_manager m.log)))
        (sym whole) recover-Issues

-- The ids of a run, from a manager that has leased.
Run : ℕ → ℕ → List ℕ × PidManager → Type 0
Run low seen (pids, m) =
    Increasing low pids × All (λ pid. pid < max_seen m.log) pids × (seen ≤ max_seen m.log)

Run-ids :
    (low seen : ℕ) (o : List ℕ × PidManager)
    → Run low seen o
    → Increasing low o.0 × All (λ pid. pid < max_seen o.1.log) o.0
unfolding Run
Run-ids low seen (pids, m) (up, below, more) = (up, below)

one_event :
    (k : ℕ) (m : PidManager) (first : Option ℕ × PidManager) (rest : List ℕ × PidManager)
    → Issues m.next_base (max_seen m.log) (suc k) first
    → Run first.1.next_base (max_seen first.1.log) rest
    → Run m.next_base (max_seen m.log) (keep first.0 rest.0, rest.1)
unfolding Issues Run
one_event k m (none, _) (pids, last) (l, low, seen) (up, below, more) =
    (Increasing-le _ _ pids low up, below, omega arith)
one_event k m (some pid, _) (pids, last) (l, low, next, logged, seen) (up, below, more) =
    ((low, subst (λ n. Increasing n pids) next up), (omega arith, below), omega arith)

issued-Run :
    (events : List Event) (k : ℕ) (m : PidManager)
    → Leased k m
    → 1000 * (k + length events) < 2 ^ 63
    → AllWhole events m
    → Run m.next_base (max_seen m.log) (issued events m)
unfolding Run issued Issues
issued-Run [] k m h fits whole = (tt, tt, omega arith)
issued-Run (e ∷ events) k m h fits whole =
    let step = handle-Issues k m h (omega arith) e whole.0 in
    one_event k m (handle e m) (issued events (handle e m).1) step (
      issued-Run events (suc k) (handle e m).1 (after-Leased (handle e m) step) (omega arith)
        whole.1)
  where
    after-Leased :
        (o : Option ℕ × PidManager)
        → Issues m.next_base (max_seen m.log) (suc k) o
        → Leased (suc k) o.1
    after-Leased (none, _) (l, _, _) = l
    after-Leased (some _, _) (l, _, _, _, _) = l

-- A broker that recovers from an empty metadata log, over any calls of AllocateOne, whether the log's Append
-- succeeds, fails, or fails after it has stored the record, and any restarts between them: the ids issued strictly
-- increase, so none is issued twice, and each is below the largest NextProducerId in the log, so the log has leased it.
-- Each restart is assumed to replay every record of the log (Replay reads the first segment alone), no Append to drop
-- the record, and fewer than 2^63 / 1000 events.
pub issued-Increasing :
    (events : List Event)
    → 1000 * length events < 2 ^ 63
    → AllWhole events (recover_pid_manager [] (new_pid_manager []))
    → let run = issued events (recover_pid_manager [] (new_pid_manager [])) in
      Increasing 0 run.0 × All (λ pid. pid < max_seen run.1.log) run.0
unfolding recover_pid_manager configure seed_from_log max_seen_loop
issued-Increasing events fits whole =
    Run-ids 0 0 (issued events (recover_pid_manager [] (new_pid_manager [])))
      (issued-Run events 0 (recover_pid_manager [] (new_pid_manager [])) fresh (omega arith) whole)
  where
    fresh : Leased 0 (recover_pid_manager [] (new_pid_manager []))
    fresh = record {
      steps = refl;
      logged = refl;
      inside = omega arith;
      covered = omega arith;
      bounded = omega arith;
    }
