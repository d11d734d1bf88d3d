-- ===== src/State/Jobs/Idempotency.antt =====
-- One Job for each idempotency key, and no new Job while execution is paused.
use mira_bridge.Base.{
  ◌≡◌, refl, String, false, Option, none, some, ◌∷◌, ◌==◌, arith, eq_iff, Result, ok, err, inl, inr,
  ◌⊎◌, continue, Bool-cases, true, sym, ap, ◌∙◌, is_some, pure, commit_or_rollback,
}
use mira_bridge.Base.Table
use mira_bridge.State.Rows.{
  JobRow, Database, Time, ExecutionMaintenanceLease, StateError, execution_maintenance,
  constraint_failed,
}
use mira_bridge.State.Maintenance.{execution_maintenance_lease}
use mira_bridge.State.Jobs.{
  get_job, insert_job_idempotent, insert_unless_existing, insert_unless_paused, insert_job,
  existing_job, existing_key, key_taken, find_by_key, find_idempotent_job, job_key,
}

-- A stored row that violates a constraint on the new one: it has the identifier, or the node and the
-- key where the key is empty, which `insertJobIdempotent` does not look up.
pub data Clash (job : JobRow) (db : Database) : Type 0 where
  same_id : (row : JobRow) → get_job job.spec.job_id db ≡ some row → Clash job db
  same_empty_key :
      (row : JobRow)
      → job.spec.idempotency_key ≡ some ""
      → find_idempotent_job job.spec.node_id "" db ≡ some row
      → Clash job db

-- What one call of `insertJobIdempotent` may do: the answer and the database after it.
pub data Outcome (job : JobRow) (now : Time) (db : Database)
    : Result StateError (Option JobRow) × Database → Type 0 where
  found :
      (existing : JobRow)
      → existing_job job db ≡ some existing
      → Outcome job now db (ok (some existing), db)
  paused :
      (lease : ExecutionMaintenanceLease)
      → existing_job job db ≡ none
      → execution_maintenance_lease now db ≡ some lease
      → Outcome job now db (err (execution_maintenance lease), db)
  collides :
      Clash job db
      → existing_job job db ≡ none
      → execution_maintenance_lease now db ≡ none
      → Outcome job now db (err constraint_failed, db)
  inserted :
      existing_job job db ≡ none
      → execution_maintenance_lease now db ≡ none
      → get_job job.spec.job_id db ≡ none
      → Outcome job now db (ok none, record db { jobs = job ∷ db.jobs })

-- An option that is not `none`.
the_value : {A : Type 0} (o : Option A) → is_some o ≡ true → (x : A) × (o ≡ some x)
the_value none h = cc h
the_value (some x) h = (x, refl)

taken_key :
    (job : JobRow) (db : Database) (key : Option String)
    → job.spec.idempotency_key ≡ key
    → key_taken job.spec.node_id key db ≡ true
    → existing_key job key db ≡ none
    → Clash job db
unfolding find_idempotent_job
taken_key job db none e h n = cc h
taken_key job db (some key) e h n = elim (Bool-cases (key == "")) [
  | inl y ↦
      let empty : key ≡ "" = ground (arith, y, eq_iff key "") in
      let (row, hit) = the_value (find_by_key job.spec.node_id key db.jobs) h in
      same_empty_key row (e ∙ ap some empty)
        (ap (λ k. find_by_key job.spec.node_id k db.jobs) (sym empty) ∙ hit)
  | inr m ↦ absurd (ground (arith, h, n, m))
]

insert_job-cases :
    (job : JobRow) (db : Database)
    → existing_job job db ≡ none
    → (Clash job db × (insert_job job db ≡ (err constraint_failed, db)))
      ⊎ ((get_job job.spec.job_id db ≡ none)
          × (insert_job job db ≡ (ok tt, record db { jobs = job ∷ db.jobs })))
unfolding insert_job get_job Table.insert
insert_job-cases job db n =
    elim (Bool-cases (key_taken job.spec.node_id job.spec.idempotency_key db)) [
      | inl y ↦ inl (taken_key job db job.spec.idempotency_key refl y n, ground (arith, y))
      | inr f ↦ by_id (Table.find job_key job.spec.job_id db.jobs) refl f
    ]
  where
    by_id :
        (found : Option JobRow)
        → Table.find job_key job.spec.job_id db.jobs ≡ found
        → key_taken job.spec.node_id job.spec.idempotency_key db ≡ false
        → (Clash job db × (insert_job job db ≡ (err constraint_failed, db)))
          ⊎ ((get_job job.spec.job_id db ≡ none)
              × (insert_job job db ≡ (ok tt, record db { jobs = job ∷ db.jobs })))
    by_id none e f = inr (e, rw (f, e) refl)
    by_id (some row) e f = inl (same_id row e, rw (f, e) refl)

-- The four branches, each from the values that the transaction has read.
module _ (job : JobRow) (now : Time) (db : Database) where
  finish :
      (out : Result StateError (Unit {0}) × Database)
      → existing_job job db ≡ none
      → execution_maintenance_lease now db ≡ none
      → (Clash job db × (out ≡ (err constraint_failed, db)))
        ⊎ ((get_job job.spec.job_id db ≡ none)
            × (out ≡ (ok tt, record db { jobs = job ∷ db.jobs })))
      → Outcome job now db (
          commit_or_rollback db
            (continue {B = Option JobRow} (λ _. pure none) out.0 out.1).0
            (continue {B = Option JobRow} (λ _. pure none) out.0 out.1).1)
  finish out e l (inl (clash, p)) = rw p (collides clash e l)
  finish out e l (inr (absent, p)) = rw p (inserted e l absent)

  admitted :
      (lease : Option ExecutionMaintenanceLease)
      → existing_job job db ≡ none
      → execution_maintenance_lease now db ≡ lease
      → Outcome job now db (
          commit_or_rollback db
            (insert_unless_paused job lease db).0
            (insert_unless_paused job lease db).1)
  unfolding insert_unless_paused
  admitted (some lease) e l = paused lease e l
  admitted none e l = finish (insert_job job db) e l (insert_job-cases job db e)

  checked :
      (existing : Option JobRow)
      → existing_job job db ≡ existing
      → Outcome job now db (
          commit_or_rollback db
            (insert_unless_existing job now existing db).0
            (insert_unless_existing job now existing db).1)
  unfolding insert_unless_existing
  checked (some existing) e = found existing e
  checked none e = admitted (execution_maintenance_lease now db) e refl

-- Every call of `insertJobIdempotent` does one of four things: it returns the Job that has the key
-- and changes nothing; it is refused by an active maintenance lease and changes nothing; it is
-- refused and changes nothing, since a stored row has the identifier, or the key where that is empty;
-- or it stores the row, when no Job has the key, no lease is active and the identifier is free.
pub insert_job_idempotent-Outcome :
    (job : JobRow) (now : Time) (db : Database)
    → Outcome job now db (insert_job_idempotent job now db)
unfolding insert_job_idempotent
insert_job_idempotent-Outcome job now db = checked job now db (existing_job job db) refl

-- Once a Job with a non-empty key is stored, a second one with that node and key is not: the call
-- returns the first row and changes nothing, whatever else the second Job says and also while
-- execution is paused.
pub insert_job_idempotent_again :
    (job second : JobRow) (key : String) (later : Time) (db : Database)
    → job.spec.idempotency_key ≡ some key
    → second.spec.idempotency_key ≡ some key
    → (key == "") ≡ false
    → second.spec.node_id ≡ job.spec.node_id
    → insert_job_idempotent second later (record db { jobs = job ∷ db.jobs })
      ≡ (ok (some job), record db { jobs = job ∷ db.jobs })
insert_job_idempotent_again job second key later db k k' named node =
    go (insert_job_idempotent second later after) (insert_job_idempotent-Outcome second later after)
  where
    after : Database
    after = record db { jobs = job ∷ db.jobs }

    hit : existing_job second after ≡ some job
    hit = ground (arith, eq_iff job.spec.node_id second.spec.node_id, eq_iff key key)

    go :
        (out : Result StateError (Option JobRow) × Database)
        → Outcome second later after out
        → out ≡ (ok (some job), after)
    go _ (found existing e) = cc hit
    go _ (paused lease e l) = cc hit
    go _ (collides clash e l) = cc hit
    go _ (inserted e l a) = cc hit
