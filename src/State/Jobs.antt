-- ===== src/State/Jobs.antt =====
-- The Job statements of packages/windows-worker/src/state.ts.
pub mod Claims
pub mod Idempotency
use mira_bridge.Base.{
  ℕ, String, Bool, true, false, Option, none, some, List, [], ◌∷◌, ◌==◌, ◌&&◌, ◌||◌, not, Exec,
  pure, gets, modify, throw, continue, ◌>>=◌, ◌>>◌, transaction, filter_by, sort_by, any, count_by,
  ltb, leb, eqb, if◌then◌else◌, is_some, is_none, or_default, holds_text, holds_number,
}
use mira_bridge.Base.Json.{StoredJson}
use mira_bridge.Base.Table
use mira_bridge.Protocol.Constants.{
  JobStatus, queued, starting, running, cancelled, is_terminal, status_index,
}
use mira_bridge.State.Rows.{
  JobRow, JobSpecColumns, JobProgress, JobRunner, Database, Call, StateError, constraint_failed,
  execution_maintenance, ExecutionMaintenanceLease, Time,
}
use mira_bridge.State.Maintenance.{execution_maintenance_lease}
use Prim.Native.String.{compare}
use text.Mathlib.Text.{is_le, is_eq}
use Prim.Native.Nat.{Ordering}

abbrev pub job_key : JobRow → String
job_key job = job.spec.job_id

-- executor_status IN ('starting','running')
abbrev pub holds_slot : JobRow → Bool
holds_slot job = elim job.executor_status [ starting ↦ true | running ↦ true | _ ↦ false ]

-- executor_status IN ('queued','starting','running')
abbrev pub is_live : JobRow → Bool
is_live job = not (is_terminal job.executor_status)

unfoldable pub get_job : String → Database → Option JobRow
get_job id db = Table.find job_key id db.jobs

abbrev find_by_key : String → String → List JobRow → Option JobRow
find_by_key node_id key [] = none
find_by_key node_id key (job ∷ jobs) =
    if (job.spec.node_id == node_id) && holds_text job.spec.idempotency_key key
    then some job
    else find_by_key node_id key jobs

unfoldable pub find_idempotent_job : String → String → Database → Option JobRow
find_idempotent_job node_id key db = find_by_key node_id key db.jobs

-- UNIQUE(node_id, idempotency_key): rows without a key never collide.
abbrev key_taken : String → Option String → Database → Bool
key_taken node_id none db = false
key_taken node_id (some key) db = is_some (find_by_key node_id key db.jobs)

unfoldable pub insert_job : JobRow → Call (Unit {0})
insert_job job db =
    if key_taken job.spec.node_id job.spec.idempotency_key db
    then throw constraint_failed db
    else elim (Table.insert job_key job db.jobs) [
      | none ↦ throw constraint_failed db
      | some rows ↦ pure tt (record db { jobs = rows })
    ]

-- `job.idempotency_key ? this.findIdempotentJob(...) : undefined`
abbrev pub existing_key : JobRow → Option String → Database → Option JobRow
existing_key job none db = none
existing_key job (some key) db =
    if key == "" then none else find_by_key job.spec.node_id key db.jobs

abbrev pub existing_job : JobRow → Database → Option JobRow
existing_job job db = existing_key job job.spec.idempotency_key db

insert_unless_paused : JobRow → Option ExecutionMaintenanceLease → Call (Option JobRow)
unfolding insert_job
insert_unless_paused job (some lease) = throw (execution_maintenance lease)
insert_unless_paused job none = do insert_job job; pure none

insert_unless_existing : JobRow → Time → Option JobRow → Call (Option JobRow)
unfolding insert_unless_paused
insert_unless_existing job now (some existing) = pure (some existing)
insert_unless_existing job now none = do
  lease ← gets (execution_maintenance_lease now)
  insert_unless_paused job lease

unfoldable pub insert_job_idempotent : JobRow → Time → Call (Option JobRow)
unfolding insert_unless_existing
insert_job_idempotent job now =
    transaction (do existing ← gets (existing_job job); insert_unless_existing job now existing)

-- ORDER BY created_at DESC, job_id DESC
abbrev pub newest_first : JobRow → JobRow → Bool
newest_first a b =
    ltb b.spec.created_at a.spec.created_at
    || (eqb b.spec.created_at a.spec.created_at && is_le (compare b.spec.job_id a.spec.job_id))

abbrev selected : List JobStatus → Option String → JobRow → Bool
selected [] none job = true
selected [] (some node) job = (node == "") || (job.spec.node_id == node)
selected (s ∷ ss) none job =
    any (λ t. eqb (status_index t) (status_index job.executor_status)) (s ∷ ss)
selected (s ∷ ss) (some node) job =
    any (λ t. eqb (status_index t) (status_index job.executor_status)) (s ∷ ss)
    && ((node == "") || (job.spec.node_id == node))

unfoldable pub list_jobs : List JobStatus → Option String → Database → List JobRow
list_jobs statuses node_id db = sort_by newest_first (filter_by (selected statuses node_id) db.jobs)

-- UPDATE jobs SET ... WHERE job_id = ?
unfoldable pub update_job : String → (JobRow → JobRow) → Database → Database
update_job id f db = record db { jobs = Table.update (λ job. job.spec.job_id == id) f db.jobs }

unfoldable pub request_cancel : String → Database → Database
request_cancel id db = update_job id (λ job. record job { cancel_requested = true }) db

-- The optional `fields` of `setJobStatus`: `none` is undefined, `some none` writes NULL.
pub record StatusFields : Type 0 where
  pub new_pid : Option (Option ℕ)
  pub new_pid_started_at : Option (Option Time)
  pub new_exit_code : Option (Option ℕ)
  pub new_error_json : Option (Option StoredJson)
  pub new_started_at : Option (Option Time)
  pub new_finished_at : Option (Option Time)
  pub new_stdout_bytes : Option ℕ
  pub new_stderr_bytes : Option ℕ
  pub new_stdout_stored_bytes : Option ℕ
  pub new_stderr_stored_bytes : Option ℕ
  pub new_stdout_storage_truncated : Option Bool
  pub new_stderr_storage_truncated : Option Bool
  pub new_stdout_encoding : Option (Option String)
  pub new_stderr_encoding : Option (Option String)

abbrev pub no_fields : StatusFields
no_fields = record {
  new_pid = none;
  new_pid_started_at = none;
  new_exit_code = none;
  new_error_json = none;
  new_started_at = none;
  new_finished_at = none;
  new_stdout_bytes = none;
  new_stderr_bytes = none;
  new_stdout_stored_bytes = none;
  new_stderr_stored_bytes = none;
  new_stdout_storage_truncated = none;
  new_stderr_storage_truncated = none;
  new_stdout_encoding = none;
  new_stderr_encoding = none;
}

unfoldable pub merge_fields : StatusFields → JobProgress → JobProgress
merge_fields f p = record {
  pid = or_default f.new_pid p.pid;
  pid_started_at = or_default f.new_pid_started_at p.pid_started_at;
  exit_code = or_default f.new_exit_code p.exit_code;
  error_json = or_default f.new_error_json p.error_json;
  started_at = or_default f.new_started_at p.started_at;
  finished_at = or_default f.new_finished_at p.finished_at;
  stdout_bytes = or_default f.new_stdout_bytes p.stdout_bytes;
  stderr_bytes = or_default f.new_stderr_bytes p.stderr_bytes;
  stdout_stored_bytes = or_default f.new_stdout_stored_bytes p.stdout_stored_bytes;
  stderr_stored_bytes = or_default f.new_stderr_stored_bytes p.stderr_stored_bytes;
  stdout_storage_truncated = or_default f.new_stdout_storage_truncated p.stdout_storage_truncated;
  stderr_storage_truncated = or_default f.new_stderr_storage_truncated p.stderr_storage_truncated;
  stdout_encoding = or_default f.new_stdout_encoding p.stdout_encoding;
  stderr_encoding = or_default f.new_stderr_encoding p.stderr_encoding;
}

-- The columns are merged with those of the row that `getJob` found.
unfoldable pub set_job_status : String → JobStatus → StatusFields → Database → Database
unfolding get_job
set_job_status id status fields db = elim (get_job id db) [
  | none ↦ db
  | some current ↦
      update_job id
        (λ job. record job {
          executor_status = status;
          progress = merge_fields fields current.progress;
        })
        db
]

unfoldable pub set_job_runner : String → ℕ → Time → Database → Database
set_job_runner id pid now db = record db {
  jobs =
      Table.update (λ job. (job.spec.job_id == id) && is_live job)
        (λ job. record job {
          runner = record {
            runner_pid = some pid;
            runner_started_at = some (or_default job.runner.runner_started_at now);
            runner_heartbeat_at = some now;
          };
        })
        db.jobs;
}

unfoldable pub touch_job_runner : String → ℕ → Time → Database → Database
touch_job_runner id pid now db = record db {
  jobs =
      Table.update (λ job. (job.spec.job_id == id) && holds_number job.runner.runner_pid pid)
        (λ job. record job { runner = record job.runner { runner_heartbeat_at = some now } })
        db.jobs;
}

unfoldable pub clear_job_runner : String → ℕ → Database → Database
clear_job_runner id pid db = record db {
  jobs =
      Table.update (λ job. (job.spec.job_id == id) && holds_number job.runner.runner_pid pid)
        (λ job. record job { runner = record job.runner { runner_pid = none } }) db.jobs;
}

unfoldable pub set_job_terminal_size : String → ℕ → ℕ → Database → Database
set_job_terminal_size id cols rows db =
    update_job id (λ job. record job { terminal_cols = some cols; terminal_rows = some rows }) db

pub data Claim : Type 0 where
  claimed wait claim_cancelled missing : Claim

unfoldable pub try_claim_job : String → ℕ → Time → Database → Claim × Database
try_claim_job id max_concurrent now db = elim (get_job id db) [
  | none ↦ (missing, db)
  | some job ↦
      if job.cancel_requested
      then (
        claim_cancelled,
        set_job_status id cancelled (record no_fields { new_finished_at = some (some now) }) db,
      )
      else if leb max_concurrent (count_by holds_slot db.jobs)
      then (wait, db)
      else (
        claimed,
        set_job_status id starting (record no_fields { new_started_at = some (some now) }) db,
      )
]

unfoldable pub delete_job : String → Database → Database
delete_job id db = record db { jobs = Table.delete (λ job. job.spec.job_id == id) db.jobs }

-- COALESCE(finished_at, created_at)
abbrev pub ended_at : JobRow → Time
ended_at job = or_default job.progress.finished_at job.spec.created_at

abbrev before_cutoff : Option Time → Time → Bool
before_cutoff none t = true
before_cutoff (some cutoff) t = ltb t cutoff

unfoldable pub unpruned_terminal_job_logs : Option Time → Database → List JobRow
unpruned_terminal_job_logs cutoff db =
    sort_by (λ a b. leb (ended_at a) (ended_at b))
      (filter_by
        (λ job.
          is_none job.logs_pruned_at
          && (is_terminal job.executor_status && before_cutoff cutoff (ended_at job)))
        db.jobs)

unfoldable pub mark_job_logs_pruned : String → Time → String → Database → Database
mark_job_logs_pruned id now reason db = record db {
  jobs =
      Table.update (λ job. (job.spec.job_id == id) && is_none job.logs_pruned_at)
        (λ job. record job { logs_pruned_at = some now; logs_prune_reason = some reason }) db.jobs;
}

unfoldable pub expired_job_metadata : Time → Database → List JobRow
expired_job_metadata cutoff db =
    sort_by (λ a b. leb (ended_at a) (ended_at b))
      (filter_by (λ job. is_terminal job.executor_status && ltb (ended_at job) cutoff) db.jobs)
