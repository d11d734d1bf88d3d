-- ===== src/Tests/Jobs.antt =====
-- The Job statements on concrete rows.
use mira_bridge.Base.{◌≤◌, ◌≡◌, refl, none, some, [], ◌∷◌, ok, arith}
use mira_bridge.Base.Table
use mira_bridge.Protocol.Constants.{queued, running}
use mira_bridge.State.Rows.{empty}
use mira_bridge.State.Jobs.{try_claim_job, insert_job_idempotent}
use mira_bridge.State.Jobs.Claims.{slots, try_claim_job-slots}
use mira_bridge.State.Jobs.Idempotency.{
  Outcome, insert_job_idempotent-Outcome, insert_job_idempotent_again,
}
use mira_bridge.Tests.Samples.{job_named, with_jobs}

try_claim_job-slots_example :
    slots
      (try_claim_job "b" 2 9
        (with_jobs (job_named "a" none running ∷ job_named "b" none queued ∷ []))).1
    ≤ 2
unfolding Table.find
try_claim_job-slots_example =
    try_claim_job-slots "b" 2 9
      (with_jobs (job_named "a" none running ∷ job_named "b" none queued ∷ [])) (refl, (refl, tt))
      (omega arith)

insert_job_idempotent-Outcome_example :
    Outcome
      (job_named "a" (some "k") queued)
      3
      empty
      (insert_job_idempotent (job_named "a" (some "k") queued) 3 empty)
insert_job_idempotent-Outcome_example =
    insert_job_idempotent-Outcome (job_named "a" (some "k") queued) 3 empty

insert_job_idempotent_again_example :
    insert_job_idempotent
      (job_named "b" (some "k") queued)
      9
      (with_jobs (job_named "a" (some "k") queued ∷ []))
    ≡ (
      ok (some (job_named "a" (some "k") queued)),
      with_jobs (job_named "a" (some "k") queued ∷ []),
    )
insert_job_idempotent_again_example =
    insert_job_idempotent_again (job_named "a" (some "k") queued) (job_named "b" (some "k") queued)
      "k" 9 empty refl refl refl refl
