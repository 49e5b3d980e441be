-- ===== src/Coordinator/Pid.antt =====
-- coordinator/pid_manager.go: producer ids, issued from blocks that are leased by a record in the
-- metadata log, and recoverPidManager of server/server.go. All numbers are int64 patterns.
pub mod Unique
use kaf_go.Base.{ℕ, ◌+◌, ◌%◌, Bool, true, false, List, [], ◌∷◌, ◌++◌, Option, none, some}
use kaf_go.Base.{if◌then◌else◌, slt64, sle64, two64}

abbrev pub default_pid_block_size : ℕ
default_pid_block_size = 1000

-- `attached` is metaLog != nil; `log` are the NextProducerId values of the ProducerIdsRecords in
-- the metadata log, the oldest first.
pub record PidManager : Type 0 where
  pub next_base : ℕ
  pub block_end : ℕ
  pub step : ℕ
  pub attached : Bool
  pub log : List ℕ

-- What an Append to the metadata log does: it can fail before or after the record is in the log, and it gives no
-- error but drops the record while the log has no commit log yet.
pub data AppendResult : Type 0 where
  stored refused stored_with_error dropped : AppendResult

abbrev pub new_pid_manager : List ℕ → PidManager
new_pid_manager log = record {
  next_base = 0;
  block_end = 0;
  step = default_pid_block_size;
  attached = false;
  log = log;
}

unfoldable pub configure : PidManager → PidManager
configure m = record m { attached = true }

unfoldable pub seed_from_log : ℕ → PidManager → PidManager
seed_from_log max_seen m = record m {
  next_base = if slt64 m.next_base max_seen then max_seen else m.next_base;
  block_end = if slt64 m.block_end max_seen then max_seen else m.block_end;
}

-- The end of leaseNextBlockLocked, once the record is appended or no log is attached.
abbrev pub extend_block : PidManager → PidManager
extend_block m = record m {
  next_base = if slt64 m.next_base m.block_end then m.block_end else m.next_base;
  block_end = (m.block_end + m.step) % two64;
}

abbrev pub append : PidManager → PidManager
append m = record m { log = m.log ++ (((m.block_end + m.step) % two64) ∷ []) }

abbrev pub lease_logged : AppendResult → PidManager → Bool × PidManager
lease_logged stored m = (true, extend_block (append m))
lease_logged refused m = (false, m)
lease_logged stored_with_error m = (false, append m)
lease_logged dropped m = (true, extend_block m)

-- leaseNextBlockLocked; the Bool is err == nil.
unfoldable pub lease_next_block : AppendResult → PidManager → Bool × PidManager
lease_next_block result m = if m.attached then lease_logged result m else (true, extend_block m)

abbrev pub issue : PidManager → Option ℕ × PidManager
issue m = (some m.next_base, record m { next_base = (m.next_base + 1) % two64 })

abbrev pub issue_if : Bool × PidManager → Option ℕ × PidManager
issue_if (true, m) = issue m
issue_if (false, m) = (none, m)

-- AllocateOne; none stands for an error.
unfoldable pub allocate_one : AppendResult → PidManager → Option ℕ × PidManager
unfolding lease_next_block
allocate_one result m =
    if sle64 m.block_end m.next_base then issue_if (lease_next_block result m) else issue m

-- The callback of Replay, over the records of the log.
unfoldable pub max_seen_loop : ℕ → List ℕ → ℕ
max_seen_loop max_seen [] = max_seen
max_seen_loop max_seen (next ∷ log) =
    max_seen_loop (if slt64 max_seen next then next else max_seen) log

abbrev pub max_seen : List ℕ → ℕ
max_seen log = max_seen_loop 0 log

-- recoverPidManager on the records that Replay hands over, whether it ends with an error or not.
unfoldable pub recover_pid_manager : List ℕ → PidManager → PidManager
unfolding configure seed_from_log max_seen_loop
recover_pid_manager replayed m =
    configure (if slt64 0 (max_seen replayed) then seed_from_log (max_seen replayed) m else m)

-- A call of AllocateOne, or a restart of the broker, which finds the same log and replays these records of it.
pub data Event : Type 0 where
  allocate : AppendResult → Event
  restart : List ℕ → Event

unfoldable pub handle : Event → PidManager → Option ℕ × PidManager
unfolding allocate_one recover_pid_manager
handle (allocate result) m = allocate_one result m
handle (restart replayed) m = (none, recover_pid_manager replayed (new_pid_manager m.log))

abbrev pub keep : Option ℕ → List ℕ → List ℕ
keep none pids = pids
keep (some pid) pids = pid ∷ pids

-- The ids issued over a sequence of events, in order, and the manager at the end.
unfoldable pub issued : List Event → PidManager → List ℕ × PidManager
unfolding handle
issued [] m = ([], m)
issued (e ∷ events) m =
    let after = handle e m in let rest = issued events after.1 in (keep after.0 rest.0, rest.1)
