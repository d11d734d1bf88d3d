-- ===== src/JobService/Reconcile/Late.antt =====
-- packages/windows-worker/src/jobs.ts and state.ts: a runner that reports after `reconcileJobs` has given its Job up.
use mira_bridge.Base.{ℕ, ◌-◌, ◌<◌, Bool, false, Option, none, some, String, ltb, ◌≡◌, ◌∙◌, ap, refl}
use mira_bridge.Base.Table
use mira_bridge.Protocol.Constants.{queued, failed_to_start, starting}
use mira_bridge.State.Rows.{JobRow, Time}
use mira_bridge.State.Jobs.{job_key, get_job, try_claim_job, claimed}
use mira_bridge.State.Jobs.Claims.{slots, try_claim_job-claimed}
use mira_bridge.JobService.Control.{World, Terminate}
use mira_bridge.JobService.Reconcile.{lost_status, reconcile_jobs}
use mira_bridge.JobService.Reconcile.Rows.{reconciled, lost_row, reconcile_jobs-reconciled}

-- A Job that has waited for its runner and has no process of one.
abbrev pub NeverStarted : Time → JobRow → Type 0
NeverStarted now job =
    (job.executor_status ≡ queued)
    × (job.runner.runner_pid ≡ none)
    × (ltb (now - job.spec.created_at) 30000 ≡ false)

reconciled-lost :
    (matches : ℕ → Option Time → Bool) (now : Time) (job : JobRow)
    → NeverStarted now job
    → reconciled matches now job ≡ lost_row now job
reconciled-lost matches now job (waits, alone, old) = rw (waits, alone, old) refl

-- A Job that `reconcileJobs` finds queued, not cancelled and without a runner for 30 seconds becomes failed_to_start;
-- when its runner then asks for it while a slot is free, `tryClaimJob` gives it the Job, which goes from that
-- terminal status back to starting. Job identifiers are unique.
pub reconcile_jobs-try_claim_job :
    (matches : ℕ → Option Time → Bool) (terminate : Terminate) (now later : Time) (id : String)
    (max_concurrent : ℕ) (w : World) (job : JobRow)
    → Table.UniqueKeys job_key w.db.jobs
    → get_job id w.db ≡ some job
    → NeverStarted now job
    → job.cancel_requested ≡ false
    → slots (reconcile_jobs matches terminate now w).db < max_concurrent
    → let lost = lost_row now job in
      let db = (reconcile_jobs matches terminate now w).db in
      let (answer, after) = try_claim_job id max_concurrent later db in
      (get_job id db ≡ some lost)
      × (lost.executor_status ≡ failed_to_start)
      × (answer ≡ claimed)
      × (get_job id after
          ≡ some (record lost {
            executor_status = starting;
            progress = record lost.progress { started_at = some later };
          }))
reconcile_jobs-try_claim_job matches terminate now later id max_concurrent w job unique stored never
      live room =
    let found =
      reconcile_jobs-reconciled matches terminate now w id job unique stored
      ∙ ap some (reconciled-lost matches now job never) in
    let claims =
      try_claim_job-claimed id max_concurrent later (reconcile_jobs matches terminate now w).db
        (lost_row now job) found live room in
    (found, ap lost_status never.0, claims.0, claims.1)
