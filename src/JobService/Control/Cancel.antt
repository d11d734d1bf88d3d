-- ===== src/JobService/Control/Cancel.antt =====
-- `cancelJob` of packages/windows-worker/src/jobs.ts.
use mira_bridge.Base.{
  ◌==◌, ℕ, String, Bool, true, false, Option, none, some, Result, ok, ◌≡◌, refl, ◌∙◌, sym, ap,
  subst, arith, if_true, if_false, continue, eq_refl,
}
use mira_bridge.Base.Table
use mira_bridge.Protocol.Constants.{
  JobStatus, queued, starting, running, exited, failed_to_start, cancelled, timed_out, lost,
  is_terminal,
}
use mira_bridge.Protocol.Errors.{BridgeError}
use mira_bridge.State.Rows.{JobRow, Database, Time}
use mira_bridge.State.Jobs as Statements
use mira_bridge.State.Jobs.{
  job_key, no_fields, merge_fields, set_job_status, request_cancel, update_job,
}
use mira_bridge.State.Jobs.Claims.{get_job-set_job_status}
use mira_bridge.State.Reservations.{release_storage_reservation}
use mira_bridge.JobService.Control.{
  World, Terminate, terminate_job, terminate_tree, mark_cancelled, cancel_live, cancel_found,
  cancel_job, release_of, on_db, get_job, found, is_cancelled,
}

-- The row of a Job that has been cancelled.
abbrev pub cancelled_row : Time → JobRow → JobRow
cancelled_row now job = record job {
  cancel_requested = true;
  executor_status = cancelled;
  progress = merge_fields (record no_fields { new_finished_at = some (some now) }) job.progress;
}

pub release-jobs :
    (reservation : Option String) (id : String) (db : Database)
    → Statements.get_job id (release_of reservation db) ≡ Statements.get_job id db
unfolding release_of Statements.get_job release_storage_reservation
release-jobs none id db = refl
release-jobs (some r) id db = refl

get_job-request_cancel :
    (id : String) (job : JobRow) (db : Database)
    → Statements.get_job id db ≡ some job
    → Statements.get_job id (request_cancel id db) ≡ some (record job { cancel_requested = true })
unfolding Statements.get_job request_cancel update_job
get_job-request_cancel id job db e =
    let selects : JobRow → Bool = λ j. j.spec.job_id == id in
    let mark : JobRow → JobRow = λ j. record j { cancel_requested = true } in
    Table.find-update job_key selects mark id db.jobs (λ r. refl)
    ∙ ap (Table.touched job_key selects mark) e
    ∙ ap some (
        if_true (selects job) (mark job) job
          (ground (arith, eq_refl id, Table.find_key job_key id db.jobs job e)))

-- A tree that is terminated leaves the database as it is.
terminate_job-ok :
    (terminate : Terminate) (pid : Option ℕ) (started : Option Time) (runner : Option ℕ)
    (runner_started : Option Time) (w : World)
    → ((p : ℕ) (t : Option Time) → terminate p t ≡ ok tt)
    → ((terminate_job terminate pid started runner runner_started w).0 ≡ ok tt)
      × ((terminate_job terminate pid started runner runner_started w).1.db ≡ w.db)
unfolding terminate_job terminate_tree
terminate_job-ok terminate (some p) started runner runner_started w h = (h p started, refl)
terminate_job-ok terminate none started (some r) runner_started w h = (h r runner_started, refl)
terminate_job-ok terminate none started none runner_started w h = (refl, refl)

-- An answer with a Job, and that Job in the database.
Answers : String → JobRow → Result BridgeError JobRow × World → Type 0
Answers id row r = (r.0 ≡ ok row) × (Statements.get_job id r.1.db ≡ some row)

mark_cancelled-Answers :
    (terminate : Terminate) (now : Time) (id : String) (job : JobRow) (w : World)
    → Statements.get_job id w.db ≡ some (record job { cancel_requested = true })
    → Answers id (cancelled_row now job) (mark_cancelled terminate now id job w)
unfolding Answers mark_cancelled on_db get_job found merge_fields
mark_cancelled-Answers terminate now id job w e =
    let fields = record no_fields { new_finished_at = some (some now) } in
    let stored : Statements.get_job id
          (release_of job.spec.storage_reservation_id (set_job_status id cancelled fields w.db))
        ≡ some (cancelled_row now job) =
      release-jobs job.spec.storage_reservation_id id (set_job_status id cancelled fields w.db)
      ∙ get_job-set_job_status id id cancelled fields w.db (record job { cancel_requested = true })
          e
      ∙ if_true (id == id) _ _ (eq_refl id) in
    (ap found stored, stored)

cancel_live-Answers :
    (terminate : Terminate) (now : Time) (id : String) (job : JobRow) (w : World)
    → Statements.get_job id w.db ≡ some job
    → ((p : ℕ) (t : Option Time) → terminate p t ≡ ok tt)
    → Answers id (cancelled_row now job) (cancel_live terminate now id job w)
unfolding cancel_live on_db
cancel_live-Answers terminate now id job w e h =
    let asked : World = record w { db = request_cancel id w.db } in
    let t : Result BridgeError (Unit {0}) × World =
      terminate_job terminate job.progress.pid job.progress.pid_started_at job.runner.runner_pid
        job.runner.runner_started_at asked in
    let done =
      terminate_job-ok terminate job.progress.pid job.progress.pid_started_at job.runner.runner_pid
        job.runner.runner_started_at asked h in
    subst
      (λ r.
        Answers id (cancelled_row now job)
          (continue (λ _. mark_cancelled terminate now id job) r t.1))
      (sym done.0)
      (mark_cancelled-Answers terminate now id job t.1
        (ap (Statements.get_job id) done.1 ∙ get_job-request_cancel id job w.db e))

cancel_job-found :
    (terminate : Terminate) (now : Time) (id : String) (job : JobRow) (w : World)
    → Statements.get_job id w.db ≡ some job
    → cancel_job terminate now id w ≡ cancel_found terminate now id job w
unfolding cancel_job
cancel_job-found terminate now id job w e = rw (cancel_job, e) refl

live_uncancelled : (status : JobStatus) → is_terminal status ≡ false → is_cancelled status ≡ false
live_uncancelled queued h = refl
live_uncancelled starting h = refl
live_uncancelled running h = refl
live_uncancelled exited h = refl
live_uncancelled failed_to_start h = refl
live_uncancelled cancelled h = h
live_uncancelled timed_out h = refl
live_uncancelled lost h = refl

-- Cancelling a stored Job that has not ended, when its processes can be terminated, answers with the Job
-- in the status cancelled, its cancellation asked for and its end set to now, and stores it so; every
-- later cancellation answers with the same Job and leaves it as it is.
pub cancel_job_twice :
    (terminate : Terminate) (now later : Time) (id : String) (job : JobRow) (w : World)
    → Statements.get_job id w.db ≡ some job
    → is_terminal job.executor_status ≡ false
    → ((p : ℕ) (t : Option Time) → terminate p t ≡ ok tt)
    → ((cancel_job terminate now id w).0 ≡ ok (cancelled_row now job))
      × (Statements.get_job id (cancel_job terminate now id w).1.db ≡ some (cancelled_row now job))
      × ((cancel_job terminate later id (cancel_job terminate now id w).1).0
          ≡ ok (cancelled_row now job))
      × (Statements.get_job id
            (cancel_job terminate later id (cancel_job terminate now id w).1).1.db
          ≡ some (cancelled_row now job))
unfolding Answers cancel_found
cancel_job_twice terminate now later id job w e live h =
    let w' : World = (cancel_job terminate now id w).1 in
    let first : Answers id (cancelled_row now job) (cancel_job terminate now id w) =
      subst (Answers id (cancelled_row now job))
        (sym (
          cancel_job-found terminate now id job w e
          ∙ if_false (is_cancelled job.executor_status) _ _
              (live_uncancelled job.executor_status live)
          ∙ if_false (is_terminal job.executor_status) _ _ live))
        (cancel_live-Answers terminate now id job w e h) in
    let second : cancel_job terminate later id w'
        ≡ cancel_found terminate later id (cancelled_row now job) w' =
      cancel_job-found terminate later id (cancelled_row now job) w' first.1 in
    (
      first.0,
      first.1,
      ap (λ r. r.0) second,
      ap (λ r. Statements.get_job id r.1.db) second
          ∙ release-jobs job.spec.storage_reservation_id id w'.db
          ∙ first.1,
    )
