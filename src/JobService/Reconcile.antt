-- ===== src/JobService/Reconcile.antt =====
-- `reconcileJobs` and `waitJob` of packages/windows-worker/src/jobs.ts. `processMatchesStart` and
-- `terminateProcessTree` are parameters. What other processes write between two polls of `waitJob`
-- is the list of the databases that it finds.
pub mod Rows
pub mod Late
use mira_bridge.Base.{
  ℕ, ◌+◌, ◌-◌, String, Bool, true, false, Option, none, some, List, [], ◌∷◌, ◌&&◌, ◌||◌, not, ltb,
  leb, eqb, if◌then◌else◌, Result, ok, err, or_default,
}
use mira_bridge.Base.Json.{StoredJson, Json, parsed, obj, field, str, end}
use mira_bridge.Base.Loops.{each}
use mira_bridge.Protocol.Constants.{
  JobStatus, queued, failed_to_start, lost, is_terminal, status_index,
}
use mira_bridge.Protocol.Errors.{BridgeError, bridge_error, job_not_found}
use mira_bridge.State.Rows.{JobRow, Database, Time}
use mira_bridge.State.Jobs as Statements
use mira_bridge.State.Jobs.{StatusFields, no_fields, set_job_status}
use mira_bridge.JobService.Control.{World, Action, Terminate, terminate_tree, release_of, on_db}

-- JSON.stringify of the error of a Job whose runner is gone.
abbrev lost_error : String → StoredJson
lost_error message =
    parsed (obj (field "code" (str "PROCESS_START_FAILED") (field "message" (str message) end)))

abbrev pub lost_status : JobStatus → JobStatus
lost_status status = elim status [ queued ↦ failed_to_start | _ ↦ lost ]

unfoldable pub lost_fields : Time → String → StatusFields
lost_fields now message = record no_fields {
  new_error_json = some (some (lost_error message));
  new_finished_at = some (some now);
}

-- heartbeatAge <= 15_000
unfoldable pub is_fresh : Time → Option Time → Bool
is_fresh now none = false
is_fresh now (some beat) = leb (now - beat) 15000

module _ (matches : ℕ → Option Time → Bool) (terminate : Terminate) (now : Time) where
  -- The status of a lost Job is stored, and its reservation released.
  unfoldable pub mark_lost : String → JobRow → Database → Database
  unfolding lost_fields release_of
  mark_lost message job db = release_of job.spec.storage_reservation_id (
      set_job_status job.spec.job_id (lost_status job.executor_status) (lost_fields now message) db)

  -- if (job.pid && await processMatchesStart(...)) await terminateProcessTree(...).catch(...)
  unfoldable pub stop_process : Option ℕ → Option Time → World → World
  unfolding terminate_tree
  stop_process none started w = w
  stop_process (some pid) started w =
      if matches pid started then (terminate_tree terminate pid started w).1 else w

  unfoldable pub reconcile_runner : Option ℕ → JobRow → World → World
  unfolding mark_lost stop_process is_fresh
  reconcile_runner none job w = if ltb (now - job.spec.created_at) 30000 then w else record w {
    db = mark_lost "The durable Job runner did not start or disappeared." job w.db;
  }
  reconcile_runner (some pid) job w =
      if is_fresh now job.runner.runner_heartbeat_at
      then w
      else if matches pid job.runner.runner_started_at
      then w
      else let stopped = stop_process job.progress.pid job.progress.pid_started_at w in
        record stopped { db = mark_lost "The durable Job runner was lost." job stopped.db }

  -- One round of the loop.
  unfoldable pub reconcile_job : JobRow → World → World
  unfolding reconcile_runner
  reconcile_job job w =
      if is_terminal job.executor_status
      then record w { db = release_of job.spec.storage_reservation_id w.db }
      else reconcile_runner job.runner.runner_pid job w

  unfoldable pub reconcile_rows : List JobRow → World → World
  unfolding reconcile_job
  reconcile_rows [] w = w
  reconcile_rows (job ∷ jobs) w = reconcile_rows jobs (reconcile_job job w)

  -- `reconcileJobs`
  unfoldable pub reconcile_jobs : World → World
  unfolding reconcile_rows
  reconcile_jobs w = reconcile_rows (Statements.list_jobs [] none w.db) w

-- The polls of `waitJob` up to its deadline, each on the database as it then is, and the database
-- after the last.
unfoldable pub poll : String → JobRow → List Database → Database → Result BridgeError JobRow
poll id initial [] last = ok (or_default (Statements.get_job id last) initial)
poll id initial (db ∷ dbs) last =
    let rest = poll id initial dbs last in
    elim (Statements.get_job id db) [
      | none ↦ err (bridge_error job_not_found none)
      | some current ↦
          if not (eqb (status_index current.executor_status) (status_index initial.executor_status))
            || is_terminal current.executor_status
          then ok current
          else rest
    ]

-- `waitJob`: `reconciled` is the database after the first `reconcileJobs`.
unfoldable pub wait_job : String → Database → List Database → Database → Result BridgeError JobRow
unfolding poll
wait_job id reconciled dbs last = elim (Statements.get_job id reconciled) [
  | none ↦ err (bridge_error job_not_found none)
  | some initial ↦ poll id initial dbs last
]
