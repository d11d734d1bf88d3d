-- ===== src/State/Jobs/Claims.antt =====
-- Claiming a slot, inserting once, and what an update leaves alone.
use mira_bridge.Base.{
  ℕ, suc, ◌≤◌, ◌<◌, ◌≡◌, refl, ◌∙◌, sym, String, Bool, false, Option, none, some, List, [], ◌∷◌,
  ◌==◌, arith, eq_iff, if◌then◌else◌, count_by, Bool-cases, Option-cases, inl, inr,
}
use mira_bridge.Base.Table
use mira_bridge.Protocol.Constants.{JobStatus, starting, cancelled}
use mira_bridge.State.Rows.{JobRow, JobProgress, Database, Time}
use mira_bridge.State.Jobs.{
  job_key, holds_slot, get_job, update_job, set_job_status, StatusFields, no_fields, merge_fields,
  try_claim_job, claimed,
}

abbrev pub UniqueJobs : Database → Type 0
UniqueJobs db = Table.UniqueKeys job_key db.jobs

abbrev pub slots : Database → ℕ
slots db = count_by holds_slot db.jobs

pub get_job-update_job :
    (id j : String) (f : JobRow → JobRow) (db : Database)
    → ((job : JobRow) → job_key (f job) ≡ job_key job)
    → get_job j (update_job id f db)
      ≡ Table.touched job_key (λ job. job.spec.job_id == id) f (get_job j db)
unfolding get_job update_job
get_job-update_job id j f db keeps =
    Table.find-update job_key (λ job. job.spec.job_id == id) f j db.jobs keeps

slots-set_job_status :
    (id : String) (status : JobStatus) (fields : StatusFields) (db : Database)
    → UniqueJobs db
    → slots (set_job_status id status fields db) ≤ suc (slots db)
unfolding set_job_status update_job
slots-set_job_status id status fields db u = elim (Option-cases (get_job id db)) [
  | inl e ↦ rw (e, set_job_status) (omega arith)
  | inr (current, e) ↦
      rw (e, set_job_status)
        (Table.count_by-update job_key holds_slot id
          (λ job. record job {
            executor_status = status;
            progress = merge_fields fields current.progress;
          })
          db.jobs u)
]

-- A status that holds no slot takes none.
count_by-update_le :
    (p : JobRow → Bool) (f : JobRow → JobRow) (rows : List JobRow)
    → ((job : JobRow) → holds_slot (f job) ≡ false)
    → count_by holds_slot (Table.update p f rows) ≤ count_by holds_slot rows
unfolding Table.update
count_by-update_le p f [] h = omega arith
count_by-update_le p f (job ∷ rows) h = ground (arith, h job, count_by-update_le p f rows h)

slots-set_cancelled :
    (id : String) (fields : StatusFields) (db : Database)
    → slots (set_job_status id cancelled fields db) ≤ slots db
unfolding set_job_status update_job
slots-set_cancelled id fields db = elim (Option-cases (get_job id db)) [
  | inl e ↦ rw (e, set_job_status) (omega arith)
  | inr (current, e) ↦ rw (e, set_job_status) (count_by-update_le _ _ db.jobs (λ job. refl))
]

-- Whatever `tryClaimJob` answers, the Jobs that are starting or running stay within the limit, when
-- they were within it and no two rows share an identifier.
pub try_claim_job-slots :
    (id : String) (max_concurrent : ℕ) (now : Time) (db : Database)
    → UniqueJobs db
    → slots db ≤ max_concurrent
    → slots (try_claim_job id max_concurrent now db).1 ≤ max_concurrent
unfolding try_claim_job
try_claim_job-slots id max_concurrent now db u h = ground (
  arith,
  slots-set_job_status id starting (record no_fields { new_started_at = some (some now) }) db u,
  slots-set_cancelled id (record no_fields { new_finished_at = some (some now) }) db,
)

touched_lem :
    (id j : String) (status : JobStatus) (progress : JobProgress) (db : Database) (current : JobRow)
    → get_job id db ≡ some current
    → Table.touched job_key
        (λ job. job.spec.job_id == id)
        (λ job. record job { executor_status = status; progress = progress })
        (get_job j db)
      ≡ (if id == j
          then some (record current { executor_status = status; progress = progress })
          else get_job j db)
touched_lem id j status progress db current found = elim (Bool-cases (id == j)) [
  | inl e ↦
      rw (e, sym ((eq_iff id j).0 e), found)
        (ground (arith, eq_iff current.spec.job_id id, found_key))
  | inr e ↦ rw e (go e (get_job j db) refl)
]
  where
    found_key : current.spec.job_id ≡ id
    found_key = Table.find_key job_key id db.jobs current (unfold get_job in found)

    go :
        (id == j) ≡ false
        → (o : Option JobRow) → get_job j db ≡ o
        → Table.touched job_key
            (λ job. job.spec.job_id == id)
            (λ job. record job { executor_status = status; progress = progress })
            o
          ≡ o
    go e none k = refl
    go e (some job) k = ground (
      arith,
      eq_iff job.spec.job_id id,
      eq_iff id j,
      Table.find_key job_key j db.jobs job (unfold get_job in k),
    )

-- An update of one Job by `setJobStatus` gives that row the status and merges the given columns, and
-- leaves every other Job as it was.
pub get_job-set_job_status :
    (id j : String) (status : JobStatus) (fields : StatusFields) (db : Database) (current : JobRow)
    → get_job id db ≡ some current
    → get_job j (set_job_status id status fields db) ≡ (
        if id == j
        then some (record current {
          executor_status = status;
          progress = merge_fields fields current.progress;
        })
        else get_job j db)
unfolding set_job_status
get_job-set_job_status id j status fields db current found =
    rw (found, set_job_status)
      (get_job-update_job id j _ db (λ job. refl)
        ∙ touched_lem id j status (merge_fields fields current.progress) db current found)

-- A claim takes any Job that is not cancelled when a slot is free, whatever its status is.
pub try_claim_job-claimed :
    (id : String) (max_concurrent : ℕ) (now : Time) (db : Database) (job : JobRow)
    → get_job id db ≡ some job
    → job.cancel_requested ≡ false
    → slots db < max_concurrent
    → ((try_claim_job id max_concurrent now db).0 ≡ claimed)
      × (get_job id (try_claim_job id max_concurrent now db).1
          ≡ some (record job {
            executor_status = starting;
            progress = record job.progress { started_at = some now };
          }))
unfolding try_claim_job merge_fields
try_claim_job-claimed id max_concurrent now db job found live room = ground (
  arith,
  get_job-set_job_status id id starting (record no_fields { new_started_at = some (some now) }) db
      job found,
  eq_iff id id,
)
