-- ===== src/JobService/Control.antt =====
-- packages/windows-worker/src/jobs.ts: what a caller does with one Job. A Job is shown by its row. The
-- process table, the input pipe and the snapshot reader are parameters. An empty reservation id and a
-- process id of 0, which the code takes for none, are taken to be never stored.
pub mod Cancel
use mira_bridge.Base.{
  ℕ, String, Bool, true, false, Option, none, some, List, [], ◌∷◌, ◌++◌, ◌&&◌, ◌||◌, not, Result,
  ok, err, Exec, if◌then◌else◌, is_some, continue, ◌>>=◌, ◌>>◌,
}
use mira_bridge.Protocol.Constants.{
  JobStatus, queued, starting, running, exited, failed_to_start, cancelled, timed_out, lost,
  is_terminal,
}
use mira_bridge.Protocol.Errors.{
  BridgeError, bridge_error, job_not_found, job_already_finished, job_input_unavailable,
  terminal_unavailable, terminal_snapshot_unavailable, job_logs_expired,
}
use mira_bridge.State.Rows.{JobRow, Database, Time, StdinMode, closed, pipe, conpty}
use mira_bridge.State.Jobs as Statements
use mira_bridge.State.Jobs.{
  StatusFields, no_fields, set_job_status, request_cancel, set_job_terminal_size,
}
use mira_bridge.State.Reservations.{release_storage_reservation}

-- The database, and the processes whose trees have been terminated, in order.
pub record World : Type 0 where
  pub db : Database
  pub terminated : List ℕ

abbrev pub Action : Type 0 → Type 0
Action A = Exec World BridgeError A

unfoldable pub on_db : (Database → Database) → Action (Unit {0})
on_db f w = (ok tt, record w { db = f w.db })

-- if (job.storage_reservation_id) state.releaseStorageReservation(...)
unfoldable pub release_of : Option String → Database → Database
release_of none db = db
release_of (some id) db = release_storage_reservation id db

abbrev missing : BridgeError
missing = bridge_error job_not_found none

found : Option JobRow → Result BridgeError JobRow
found none = err missing
found (some job) = ok job

-- `getJob`
unfoldable pub get_job : String → Action JobRow
unfolding found
get_job id w = (found (Statements.get_job id w.db), w)

-- `terminateProcessTree(pid, startedAt)` by what it throws.
abbrev pub Terminate : Type 0
Terminate = ℕ → Option Time → Result BridgeError (Unit {0})

abbrev is_cancelled : JobStatus → Bool
is_cancelled status = elim status [ cancelled ↦ true | _ ↦ false ]

module _ (terminate : Terminate) where
  unfoldable pub terminate_tree : ℕ → Option Time → Action (Unit {0})
  terminate_tree pid started_at w =
      (terminate pid started_at, record w { terminated = w.terminated ++ pid ∷ [] })

  -- if (job.pid) ... else if (job.runner_pid) ...
  unfoldable pub terminate_job : Option ℕ → Option Time → Option ℕ → Option Time → Action (Unit {0})
  unfolding terminate_tree
  terminate_job (some pid) started runner runner_started w = terminate_tree pid started w
  terminate_job none started (some runner) runner_started w = terminate_tree runner runner_started w
  terminate_job none started none runner_started w = (ok tt, w)

  -- What follows the termination.
  unfoldable pub mark_cancelled : Time → String → JobRow → Action JobRow
  unfolding on_db release_of get_job
  mark_cancelled now id job = do
    on_db (set_job_status id cancelled (record no_fields { new_finished_at = some (some now) }))
    on_db (release_of job.spec.storage_reservation_id)
    get_job id

  -- The statements of `cancelJob` for a Job that has not ended.
  unfoldable pub cancel_live : Time → String → JobRow → Action JobRow
  unfolding terminate_job on_db mark_cancelled
  cancel_live now id job = do
    on_db (request_cancel id)
    terminate_job job.progress.pid job.progress.pid_started_at job.runner.runner_pid
        job.runner.runner_started_at
    mark_cancelled now id job

  unfoldable pub cancel_found : Time → String → JobRow → Action JobRow
  unfolding cancel_live
  cancel_found now id job w =
      if is_cancelled job.executor_status
      then (ok job, record w { db = release_of job.spec.storage_reservation_id w.db })
      else if is_terminal job.executor_status
      then (
        err (bridge_error job_already_finished none),
        record w { db = release_of job.spec.storage_reservation_id w.db },
      )
      else cancel_live now id job w

  -- `cancelJob`
  unfoldable pub cancel_job : Time → String → Action JobRow
  unfolding cancel_found
  cancel_job now id w = elim (Statements.get_job id w.db) [
    | none ↦ (err missing, w)
    | some job ↦ cancel_found now id job w
  ]

-- The Job of an id, unless it has ended.
open_job : Option JobRow → Result BridgeError JobRow
open_job none = err missing
open_job (some job) =
    if is_terminal job.executor_status then err (bridge_error job_already_finished none) else ok job

accepts_input : StdinMode → Bool
accepts_input mode = elim mode [ closed ↦ false | _ ↦ true ]

abbrev is_conpty : StdinMode → Bool
is_conpty mode = elim mode [ conpty ↦ true | _ ↦ false ]

module _ {A : Type 0} (send : String → Result BridgeError A) where
  send_to : Bool → BridgeError → Option String → Result BridgeError A
  send_to true e (some endpoint) = send endpoint
  send_to _ e _ = err e

  input_of : Result BridgeError JobRow → Result BridgeError A
  unfolding send_to accepts_input
  input_of (err e) = err e
  input_of (ok job) =
      send_to (accepts_input job.spec.stdin_mode) (bridge_error job_input_unavailable none)
        job.spec.stdin_pipe

  -- `writeJobInput`, with `sendJobInput` on the text and the close flag as `send`.
  unfoldable pub write_job_input : String → Database → Result BridgeError A
  unfolding input_of open_job
  write_job_input id db = input_of (open_job (Statements.get_job id db))

  terminal_of : Result BridgeError JobRow → Result BridgeError A
  unfolding send_to
  terminal_of (err e) = err e
  terminal_of (ok job) =
      send_to (is_conpty job.spec.stdin_mode) (bridge_error terminal_unavailable none)
        job.spec.stdin_pipe

resized : String → Result BridgeError (ℕ × ℕ) → Action (ℕ × ℕ)
resized id (err e) w = (err e, w)
resized id (ok size) w = (ok size, record w { db = set_job_terminal_size id size.0 size.1 w.db })

-- `resizeJobTerminal`, with `sendJobResize` to the wanted size as `send`.
unfoldable pub resize_job_terminal : (String → Result BridgeError (ℕ × ℕ)) → String → Action (ℕ × ℕ)
unfolding resized terminal_of open_job
resize_job_terminal send id w =
    resized id (terminal_of send (open_job (Statements.get_job id w.db))) w

snapshot_of :
    {A : Type 0} → (String → Result BridgeError A) → JobRow → Option String → Result BridgeError A
snapshot_of read job none = err (bridge_error terminal_unavailable none)
snapshot_of read job (some path) =
    if not (is_conpty job.spec.stdin_mode)
    then err (bridge_error terminal_unavailable none)
    else if is_some job.logs_pruned_at
    then err (bridge_error terminal_snapshot_unavailable none)
    else read path

-- `readJobTerminal`, with `readTerminalSnapshot` as `read`.
unfoldable pub read_job_terminal :
    {A : Type 0} → (String → Result BridgeError A) → String → Database → Result BridgeError A
unfolding snapshot_of
read_job_terminal read id db = elim (Statements.get_job id db) [
  | none ↦ err missing
  | some job ↦ snapshot_of read job job.spec.terminal_snapshot_path
]

pub data Stream : Type 0 where
  stdout stderr : Stream

-- What `readJobLogs` adds to the range it has read.
pub record LogCounts : Type 0 where
  pub total_bytes : ℕ
  pub stored_bytes : ℕ
  pub storage_truncated : Bool
  pub counts_final : Bool
  pub encoding : Option String

stored_counts : Stream → JobRow → LogCounts
stored_counts stdout job = record {
  total_bytes = job.progress.stdout_bytes;
  stored_bytes = job.progress.stdout_stored_bytes;
  storage_truncated = job.progress.stdout_storage_truncated;
  counts_final = true;
  encoding = job.progress.stdout_encoding;
}
stored_counts stderr job = record {
  total_bytes = job.progress.stderr_bytes;
  stored_bytes = job.progress.stderr_stored_bytes;
  storage_truncated = job.progress.stderr_storage_truncated;
  counts_final = true;
  encoding = job.progress.stderr_encoding;
}

-- The counts of a Job that has not ended are those of the file.
unfoldable pub log_counts : Stream → JobRow → ℕ → LogCounts
unfolding stored_counts
log_counts stream job file_bytes =
    if is_terminal job.executor_status then stored_counts stream job else record {
      total_bytes = file_bytes;
      stored_bytes = file_bytes;
      storage_truncated = false;
      counts_final = false;
      encoding = (stored_counts stream job).encoding;
    }

abbrev log_path : Stream → JobRow → String
log_path stdout job = job.spec.stdout_path
log_path stderr job = job.spec.stderr_path

counted : Stream → JobRow → Result BridgeError ℕ → Result BridgeError LogCounts
unfolding log_counts
counted stream job (err e) = err e
counted stream job (ok file_bytes) = ok (log_counts stream job file_bytes)

-- `readJobLogs`, with `readOutputRange` as `read`: of the range only its `total_bytes` is kept.
unfoldable pub read_job_logs :
    (String → Result BridgeError ℕ) → String → Stream → Database → Result BridgeError LogCounts
unfolding counted
read_job_logs read id stream db = elim (Statements.get_job id db) [
  | none ↦ err missing
  | some job ↦
      if is_some job.logs_pruned_at
      then err (bridge_error job_logs_expired none)
      else counted stream job (read (log_path stream job))
]
