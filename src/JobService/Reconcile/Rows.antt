-- ===== src/JobService/Reconcile/Rows.antt =====
-- What `reconcileJobs` makes of each Job.
use mira_bridge.Base.{
  ℕ, ◌-◌, String, Bool, true, false, Option, none, some, List, [], ◌∷◌, ◌==◌, ◌||◌, ltb, ◌≡◌, refl,
  sym, ap, ◌∙◌, subst, if◌then◌else◌, if_true, if_false, Bool-cases, inl, inr, arith, eq_iff, All,
  filter_by, sort_by,
}
use mira_bridge.Base.Table
use mira_bridge.Base.Keys.{
  find-sort_by, absent-All, UniqueKeys-find, UniqueKeys-sort_by, All-sort_by,
}
use mira_bridge.Protocol.Constants.{is_terminal}
use mira_bridge.State.Rows.{JobRow, Database, Time}
use mira_bridge.State.Jobs as Statements
use mira_bridge.State.Jobs.{job_key, merge_fields, set_job_status, newest_first}
use mira_bridge.State.Jobs.Claims.{get_job-set_job_status}
use mira_bridge.JobService.Control.{World, Terminate, terminate_tree}
use mira_bridge.JobService.Control.Cancel.{release-jobs}
use mira_bridge.JobService.Reconcile.{
  lost_status, lost_fields, mark_lost, stop_process, is_fresh, reconcile_runner, reconcile_job,
  reconcile_rows, reconcile_jobs,
}

-- Whether the runner of a Job is there, or may still come.
abbrev pub runner_alive : (ℕ → Option Time → Bool) → Time → Option ℕ → JobRow → Bool
runner_alive matches now none job = ltb (now - job.spec.created_at) 30000
runner_alive matches now (some pid) job =
    is_fresh now job.runner.runner_heartbeat_at || matches pid job.runner.runner_started_at

abbrev lost_message : Option ℕ → String
lost_message none = "The durable Job runner did not start or disappeared."
lost_message (some pid) = "The durable Job runner was lost."

-- The row of a Job whose runner is gone.
abbrev pub lost_row : Time → JobRow → JobRow
lost_row now job = record job {
  executor_status = lost_status job.executor_status;
  progress = merge_fields (lost_fields now (lost_message job.runner.runner_pid)) job.progress;
}

-- What a Job becomes: a Job that has ended or whose runner is alive stays.
abbrev pub reconciled : (ℕ → Option Time → Bool) → Time → JobRow → JobRow
reconciled matches now job =
    if is_terminal job.executor_status || runner_alive matches now job.runner.runner_pid job
    then job
    else lost_row now job

module _ (matches : ℕ → Option Time → Bool) (terminate : Terminate) (now : Time) where
  stop_process-db :
      (pid : Option ℕ) (started : Option Time) (w : World)
      → (stop_process matches terminate now pid started w).db ≡ w.db
  unfolding stop_process terminate_tree
  stop_process-db none started w = refl
  stop_process-db (some pid) started w = elim (Bool-cases (matches pid started)) [
    | inl e ↦ ap (λ (t : World). t.db) (if_true (matches pid started) _ w e)
    | inr e ↦ ap (λ (t : World). t.db) (if_false (matches pid started) _ w e)
  ]

  -- What is found under an id after a row has been written.
  Writes : String → JobRow → JobRow → World → World → Type 0
  Writes id before after w w' =
      Statements.get_job id w'.db
      ≡ (if before.spec.job_id == id then some after else Statements.get_job id w.db)

  same-Writes :
      (id : String) (job : JobRow) (w : World)
      → Statements.get_job job.spec.job_id w.db ≡ some job
      → Writes id job job w w
  unfolding Writes
  same-Writes id job w e = elim (Bool-cases (job.spec.job_id == id)) [
    | inl y ↦
        subst (λ t. Statements.get_job t w.db ≡ some job) ((eq_iff job.spec.job_id id).0 y) e
        ∙ sym (if_true (job.spec.job_id == id) _ _ y)
    | inr n ↦ sym (if_false (job.spec.job_id == id) _ _ n)
  ]

  mark_lost-Writes :
      (id : String) (job : JobRow) (db : Database)
      → Statements.get_job job.spec.job_id db ≡ some job
      → Statements.get_job id
          (mark_lost matches terminate now (lost_message job.runner.runner_pid) job db)
        ≡ (if job.spec.job_id == id then some (lost_row now job) else Statements.get_job id db)
  unfolding mark_lost
  mark_lost-Writes id job db e =
      release-jobs job.spec.storage_reservation_id id _
      ∙ get_job-set_job_status job.spec.job_id id (lost_status job.executor_status)
          (lost_fields now (lost_message job.runner.runner_pid)) db job e

  -- The same with another text for the runner of the row.
  Lost : String → JobRow → World → Option ℕ → Type 0
  Lost id job w runner =
      Statements.get_job id (mark_lost matches terminate now (lost_message runner) job w.db)
      ≡ (if job.spec.job_id == id then some (lost_row now job) else Statements.get_job id w.db)

  reconcile_runner-Writes :
      (runner : Option ℕ) (id : String) (job : JobRow) (w : World)
      → job.runner.runner_pid ≡ runner
      → Statements.get_job job.spec.job_id w.db ≡ some job
      → Writes id job
          (if runner_alive matches now runner job then job else lost_row now job)
          w
          (reconcile_runner matches terminate now runner job w)
  unfolding reconcile_runner Writes Lost
  reconcile_runner-Writes none id job w r e =
      elim (Bool-cases (ltb (now - job.spec.created_at) 30000)) [
        | inl y ↦ rw y (same-Writes id job w e)
        | inr n ↦ rw n (subst (Lost id job w) r (mark_lost-Writes id job w.db e))
      ]
  reconcile_runner-Writes (some pid) id job w r e =
      elim (Bool-cases (is_fresh now job.runner.runner_heartbeat_at)) [
        | inl y ↦ rw y (same-Writes id job w e)
        | inr n ↦ elim (Bool-cases (matches pid job.runner.runner_started_at)) [
          | inl y ↦ rw (n, y) (same-Writes id job w e)
          | inr m ↦
              let stopped : World =
                stop_process matches terminate now job.progress.pid job.progress.pid_started_at w in
              let kept : stopped.db ≡ w.db =
                stop_process-db job.progress.pid job.progress.pid_started_at w in
              rw (n, m)
                (subst (λ db. Lost id job (record w { db = db }) (some pid)) (sym kept)
                    (subst (Lost id job w) r (mark_lost-Writes id job w.db e))
                  ∙ ap
                      (λ db.
                        if job.spec.job_id == id
                        then some (lost_row now job)
                        else Statements.get_job id db)
                      kept)
        ]
      ]

  reconcile_job-Writes :
      (id : String) (job : JobRow) (w : World)
      → Statements.get_job job.spec.job_id w.db ≡ some job
      → Writes id job (reconciled matches now job) w (reconcile_job matches terminate now job w)
  unfolding reconcile_job Writes
  reconcile_job-Writes id job w e = elim (Bool-cases (is_terminal job.executor_status)) [
    | inl y ↦ rw y (release-jobs job.spec.storage_reservation_id id w.db ∙ same-Writes id job w e)
    | inr n ↦ rw n (reconcile_runner-Writes job.runner.runner_pid id job w refl e)
  ]

  -- The rows that are still to be read are stored as they were.
  still_stored :
      (job : JobRow) (rows : List JobRow) (w : World)
      → Statements.get_job job.spec.job_id w.db ≡ some job
      → All (λ (r : JobRow). (r.spec.job_id == job.spec.job_id) ≡ false) rows
      → All (λ (r : JobRow). Statements.get_job r.spec.job_id w.db ≡ some r) rows
      → All
          (λ (r : JobRow).
            Statements.get_job r.spec.job_id (reconcile_job matches terminate now job w).db
            ≡ some r)
          rows
  unfolding Writes
  still_stored job [] w e others stored = tt
  still_stored job (r ∷ rows) w e others stored = (
    reconcile_job-Writes r.spec.job_id job w e
        ∙ if_false (job.spec.job_id == r.spec.job_id) _ _ (
            ground (
              arith,
              others.0,
              eq_iff r.spec.job_id job.spec.job_id,
              eq_iff job.spec.job_id r.spec.job_id,
            ))
        ∙ stored.0,
    still_stored job rows w e others.1 stored.1,
  )

  abbrev outcome : Option JobRow → Option JobRow → Option JobRow
  outcome otherwise none = otherwise
  outcome otherwise (some job) = some (reconciled matches now job)

  reconcile_rows-Rows :
      (rows : List JobRow) (id : String) (w : World)
      → Table.UniqueKeys job_key rows
      → All (λ (r : JobRow). Statements.get_job r.spec.job_id w.db ≡ some r) rows
      → Statements.get_job id (reconcile_rows matches terminate now rows w).db
        ≡ outcome (Statements.get_job id w.db) (Table.find job_key id rows)
  unfolding reconcile_rows Writes Table.find
  reconcile_rows-Rows [] id w u stored = refl
  reconcile_rows-Rows (job ∷ rows) id w u stored =
      let next : World = reconcile_job matches terminate now job w in
      let rest =
        reconcile_rows-Rows rows id next u.1 (
          still_stored job rows w stored.0 (absent-All job_key job.spec.job_id rows u.0)
            stored.1) in
      let here = reconcile_job-Writes id job w stored.0 in
      elim (Bool-cases (job.spec.job_id == id)) [
        | inl y ↦
            let gone : Table.find job_key id rows ≡ none =
              subst (λ t. Table.find job_key t rows ≡ none) ((eq_iff job.spec.job_id id).0 y) u.0 in
            rest
            ∙ ap (outcome (Statements.get_job id next.db)) gone
            ∙ here
            ∙ if_true (job.spec.job_id == id) _ _ y
            ∙ ap (outcome (Statements.get_job id w.db))
                (sym (if_true (job.spec.job_id == id) (some job) (Table.find job_key id rows) y))
        | inr n ↦
            rest
            ∙ ap (λ t. outcome t (Table.find job_key id rows))
                (here ∙ if_false (job.spec.job_id == id) _ _ n)
            ∙ ap (outcome (Statements.get_job id w.db))
                (sym (if_false (job.spec.job_id == id) (some job) (Table.find job_key id rows) n))
      ]

every_row : (rows : List JobRow) → filter_by (λ _. true) rows ≡ rows
every_row [] = refl
every_row (job ∷ rows) = ap (λ t. job ∷ t) (every_row rows)

listed : (db : Database) → Statements.list_jobs [] none db ≡ sort_by newest_first db.jobs
unfolding Statements.list_jobs
listed db = ap (sort_by newest_first) (every_row db.jobs)

-- After a reconciliation every stored Job is as it was if it has ended or its runner is alive, by a
-- heartbeat of the last 15 seconds, by its process, or by being younger than 30 seconds without one; any
-- other is failed_to_start if it was queued and else lost, with an error and its end. Job identifiers are
-- unique; the order in which the Jobs are listed and failures to terminate a process do not matter.
pub reconcile_jobs-reconciled :
    (matches : ℕ → Option Time → Bool) (terminate : Terminate) (now : Time) (w : World)
    (id : String) (job : JobRow)
    → Table.UniqueKeys job_key w.db.jobs
    → Statements.get_job id w.db ≡ some job
    → Statements.get_job id (reconcile_jobs matches terminate now w).db
      ≡ some (reconciled matches now job)
unfolding reconcile_jobs Statements.get_job
reconcile_jobs-reconciled matches terminate now w id job unique stored =
    let rows : List JobRow = sort_by newest_first w.db.jobs in
    ap (λ l. Statements.get_job id (reconcile_rows matches terminate now l w).db) (listed w.db)
    ∙ reconcile_rows-Rows matches terminate now rows id w
        (UniqueKeys-sort_by job_key newest_first w.db.jobs unique)
        (All-sort_by _ newest_first w.db.jobs (UniqueKeys-find job_key w.db.jobs unique))
    ∙ ap (outcome matches terminate now (Statements.get_job id w.db))
        (find-sort_by job_key newest_first id w.db.jobs unique ∙ stored)
