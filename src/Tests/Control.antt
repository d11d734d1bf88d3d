-- ===== src/Tests/Control.antt =====
-- A cancellation and a reconciliation of concrete Jobs.
use mira_bridge.Base.{◌≡◌, refl, false, none, some, [], ◌∷◌, ok, sort_by, arith}
use mira_bridge.Base.Table
use mira_bridge.Protocol.Constants.{queued, running, starting, exited, failed_to_start}
use mira_bridge.State.Rows.{JobRow}
use mira_bridge.State.Jobs as Statements
use mira_bridge.State.Jobs.{try_claim_job, claimed}
use mira_bridge.JobService.Reconcile.Late.{reconcile_jobs-try_claim_job}
use mira_bridge.JobService.Control.{World, cancel_job}
use mira_bridge.JobService.Control.Cancel.{cancelled_row, cancel_job_twice}
use mira_bridge.JobService.Reconcile.{reconcile_jobs}
use mira_bridge.JobService.Reconcile.Rows.{reconciled, lost_row, reconcile_jobs-reconciled}
use mira_bridge.Tests.Samples.{job_named, with_jobs}

abbrev world : World
world = record {
  db = with_jobs (job_named "a" none running ∷ job_named "b" none exited ∷ []);
  terminated = [];
}

cancel_job_twice_example :
    ((cancel_job (λ pid started. ok tt) 70000 "a" world).0
      ≡ ok (cancelled_row 70000 (job_named "a" none running)))
    × (Statements.get_job "a" (cancel_job (λ pid started. ok tt) 70000 "a" world).1.db
        ≡ some (cancelled_row 70000 (job_named "a" none running)))
    × ((cancel_job
          (λ pid started. ok tt)
          80000
          "a"
          (cancel_job (λ pid started. ok tt) 70000 "a" world).1).0
        ≡ ok (cancelled_row 70000 (job_named "a" none running)))
    × (Statements.get_job "a"
          (cancel_job
            (λ pid started. ok tt)
            80000
            "a"
            (cancel_job (λ pid started. ok tt) 70000 "a" world).1).1.db
        ≡ some (cancelled_row 70000 (job_named "a" none running)))
unfolding Table.find Statements.get_job
cancel_job_twice_example =
    cancel_job_twice (λ pid started. ok tt) 70000 80000 "a" (job_named "a" none running) world refl
      refl (λ pid started. refl)

reconcile_jobs-reconciled_example :
    Statements.get_job "a"
      (reconcile_jobs (λ pid started. false) (λ pid started. ok tt) 70000 world).db
    ≡ some (reconciled (λ pid started. false) 70000 (job_named "a" none running))
unfolding Table.find Statements.get_job
reconcile_jobs-reconciled_example =
    reconcile_jobs-reconciled (λ pid started. false) (λ pid started. ok tt) 70000 world "a"
      (job_named "a" none running) (refl, (refl, tt)) refl

-- The Job "a" was made at 5 and has no runner at 70000; its runner comes at 70001.
abbrev waiting : World
waiting = record { db = with_jobs (job_named "a" none queued ∷ []); terminated = [] }

abbrev lost_job : JobRow
lost_job = lost_row 70000 (job_named "a" none queued)

reconcile_jobs-try_claim_job_example :
    let db = (reconcile_jobs (λ pid started. false) (λ pid started. ok tt) 70000 waiting).db in
    let (answer, after) = try_claim_job "a" 2 70001 db in
    (Statements.get_job "a" db ≡ some lost_job)
    × (lost_job.executor_status ≡ failed_to_start)
    × (answer ≡ claimed)
    × (Statements.get_job "a" after
        ≡ some (record lost_job {
          executor_status = starting;
          progress = record lost_job.progress { started_at = some 70001 };
        }))
unfolding Table.find Statements.get_job Statements.list_jobs sort_by reconcile_jobs
    Statements.set_job_status Statements.update_job Table.update
reconcile_jobs-try_claim_job_example =
    reconcile_jobs-try_claim_job (λ pid started. false) (λ pid started. ok tt) 70000 70001 "a" 2
      waiting (job_named "a" none queued) (refl, tt) refl (refl, refl, refl) refl (omega arith)
