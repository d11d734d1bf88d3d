-- ===== src/Storage/Collect/Live.antt =====
-- What `pruneStorage` keeps of the database: rows outside what it selects, Jobs that have not ended,
-- and its own lease until it ends.
use mira_bridge.Base.{
  String, Bool, false, none, some, List, [], ◌∷◌, ◌==◌, ◌&&◌, not, filter_by, Result, All,
  All-filter_by_of, Bool-cases, inl, inr, ◌≡◌, sort_by, is_none, sym, if_true, if_false, refl,
  subst, ap, ◌∙◌, eq_iff, arith,
}
use mira_bridge.Protocol.Errors.{BridgeError}
use mira_bridge.State.Rows.{JobRow, Database}
use mira_bridge.State.Requests.{delete_request, delete_request_tombstone}
use mira_bridge.State.Outputs.{mark_output_pruned, delete_output}
use mira_bridge.State.Jobs.{
  unpruned_terminal_job_logs, mark_job_logs_pruned, expired_job_metadata, delete_job, get_job,
  job_key,
}
use mira_bridge.State.Workspaces.{delete_workspace}
use mira_bridge.State.Scans.{remove_recycle_scan}
use mira_bridge.State.Reservations.{release_storage_reservation}
use mira_bridge.State.Maintenance.{
  set_maintenance_value, try_acquire_maintenance_lease, release_maintenance_lease, delete_key,
}
use mira_bridge.Storage.{Disk, StorageConfig}
use mira_bridge.Storage.Prune.{Collection, PruneResult, PruneOptions, record_action}
use mira_bridge.Base.Table
use mira_bridge.Base.Loops.{Keeps-bind}
use mira_bridge.Base.Keys.{All-sort_by, UniqueKeys-delete}
use mira_bridge.Protocol.Constants.{is_terminal}
use mira_bridge.Storage.Collect.{
  prune_storage, collect_and_unlock, skipped, status_now, unlock, gc_lease_ms,
}
use mira_bridge.Storage.Collect.Kept.{Kept}
use mira_bridge.Storage.Collect.Whole.{Keeps-collect}
use mathlib.Core.Option.{some-injective, none-ne-some}
use mira_bridge.Storage.Collect.Stored.{Stored, Keeps-write, Keeps-remove}

-- The other rows that a filter selects, when it does not select the row of an id.
absent_others :
    (id : String) (rows : List JobRow)
    → Table.find job_key id rows ≡ none
    → All (λ (r : JobRow). (r.spec.job_id == id) ≡ false) rows
unfolding Table.find
absent_others id [] h = tt
absent_others id (r ∷ rows) h = elim (Bool-cases (r.spec.job_id == id)) [
  | inl e ↦ absurd (none-ne-some r (sym (rw e at h)))
  | inr e ↦ (e, absent_others id rows (rw e at h))
]

selected_others :
    (p : JobRow → Bool) (id : String) (job : JobRow) (rows : List JobRow)
    → p job ≡ false
    → Table.UniqueKeys job_key rows
    → Table.find job_key id rows ≡ some job
    → All (λ (r : JobRow). (r.spec.job_id == id) ≡ false) (filter_by p rows)
unfolding Table.find
selected_others p id job [] out u h = tt
selected_others p id job (r ∷ rows) out u h = elim (Bool-cases (r.spec.job_id == id)) [
  | inl e ↦
      let same : r ≡ job = some-injective r job (rw e at h) in
      let unselected : p r ≡ false = ap p same ∙ out in
      rw unselected (
        All-filter_by_of _ p rows (
          absent_others id rows
            (subst (λ t. Table.find job_key t rows ≡ none) ((eq_iff r.spec.job_id id).0 e) u.0)))
  | inr e ↦
      let others = selected_others p id job rows out u.1 (rw e at h) in
      elim (Bool-cases (p r)) [ inl y ↦ rw y (e, others) | inr n ↦ rw n others ]
]

module _ (d : Disk) (config : StorageConfig) (o : PruneOptions) (id : String) (job : JobRow)
    (live : is_terminal job.executor_status ≡ false) where
  -- The Job is stored, once.
  Present : Database → Type 0
  Present db = Table.UniqueKeys job_key db.jobs × (Table.find job_key id db.jobs ≡ some job)

  abbrev Other : JobRow → Type 0
  Other row = (row.spec.job_id == id) ≡ false

  marked :
      (row : JobRow) (reason : String)
      → Other row
      → (db : Database) → Present db
      → Present (mark_job_logs_pruned row.spec.job_id o.now reason db)
  unfolding Present mark_job_logs_pruned
  marked row reason other db (u, f) =
      let selects : JobRow → Bool =
        λ j. (j.spec.job_id == row.spec.job_id) && is_none j.logs_pruned_at in
      let mark : JobRow → JobRow =
        λ j. record j { logs_pruned_at = some o.now; logs_prune_reason = some reason } in
      let unmarked : selects job ≡ false = ground (
        arith,
        eq_iff row.spec.job_id id,
        eq_iff job.spec.job_id row.spec.job_id,
        Table.find_key job_key id db.jobs job f,
        other,
      ) in
      (
        Table.UniqueKeys-update job_key selects mark db.jobs (λ r. refl) u,
        Table.find-update job_key selects mark id db.jobs (λ r. refl)
            ∙ ap (Table.touched job_key selects mark) f
            ∙ ap some (if_false (selects job) (mark job) job unmarked),
      )

  deleted :
      (row : JobRow)
      → Other row
      → (db : Database) → Present db
      → Present (delete_job row.spec.job_id db)
  unfolding Present delete_job
  deleted row other db (u, f) = (
    UniqueKeys-delete job_key _ db.jobs u,
    Table.find-delete job_key row.spec.job_id id db.jobs ∙ if_false _ _ _ other ∙ f,
  )

  selected-Other :
      (p : JobRow → Bool) (le : JobRow → JobRow → Bool) (db : Database)
      → p job ≡ false
      → Present db
      → All Other (sort_by le (filter_by p db.jobs))
  unfolding Present
  selected-Other p le db out (u, f) =
      All-sort_by Other le _ (selected_others p id job db.jobs out u f)

  live-Kept : Kept d config o (Stored d config o Present) Other
  unfolding Present record_action Stored unpruned_terminal_job_logs expired_job_metadata
      delete_request mark_output_pruned delete_output delete_workspace delete_request_tombstone
      remove_recycle_scan release_storage_reservation set_maintenance_value
  live-Kept = record {
    by_action = λ action s h. h;
    by_remove = Keeps-remove d config o Present;
    by_request = λ id. Keeps-write d config o Present _ (λ db h. h);
    by_output = λ id reason. Keeps-write d config o Present _ (λ db h. h);
    by_output_metadata = λ id. Keeps-write d config o Present _ (λ db h. h);
    by_workspace = λ id. Keeps-write d config o Present _ (λ db h. h);
    by_tombstone = λ id. Keeps-write d config o Present _ (λ db h. h);
    by_scan = λ id. Keeps-write d config o Present _ (λ db h. h);
    by_reservation = λ id. Keeps-write d config o Present _ (λ db h. h);
    by_nothing = Keeps-write d config o Present _ (λ db h. h);
    by_last_gc = λ value. Keeps-write d config o Present _ (λ db h. h);
    by_job_logs = λ row reason other. Keeps-write d config o Present _ (marked row reason other);
    by_job = λ row other. Keeps-write d config o Present _ (deleted row other);
    logs_selected = λ cutoff s h. selected-Other _ _ s.db (ground (arith, live)) h;
    jobs_selected = λ cutoff s h. selected-Other _ _ s.db (ground (arith, live)) h;
  }

  acquired-Present :
      (db : Database)
      → Present db
      → Present (try_acquire_maintenance_lease "gc_lease" o.owner o.now gc_lease_ms db).1
  unfolding Present try_acquire_maintenance_lease set_maintenance_value
  acquired-Present db h = ground (arith, h)

  released-Present :
      (db : Database) → Present db → Present (release_maintenance_lease "gc_lease" o.owner db)
  unfolding Present release_maintenance_lease delete_key
  released-Present db h = ground (arith, h)

  unlocked-Present : (s : Collection d) → Present s.db → Present (unlock d config o s).db
  unfolding unlock
  unlocked-Present s h = elim (Bool-cases o.dry_run) [
    | inl e ↦ subst (λ (t : Collection d). Present t.db) (sym (if_true o.dry_run _ _ e)) h
    | inr e ↦
        subst (λ (t : Collection d). Present t.db) (sym (if_false o.dry_run _ _ e))
          (released-Present s.db h)
  ]

  collected-Present :
      (s : Collection d) → Present s.db → Present (collect_and_unlock d config o s).1.db
  unfolding collect_and_unlock Stored
  collected-Present s h =
      unlocked-Present _ (Keeps-collect d config o (Stored d config o Present) Other live-Kept s h)

  skipped-Present : (s : Collection d) → Present s.db → Present (skipped d config o s).1.db
  unfolding skipped
  skipped-Present =
      Keeps-bind (λ (s : Collection d). Present s.db) (status_now d config o) _ (λ s h. h)
        (λ before s h. h)

  pruned-Present : (s : Collection d) → Present s.db → Present (prune_storage d config o s).1.db
  unfolding prune_storage
  pruned-Present s h =
      let lease = try_acquire_maintenance_lease "gc_lease" o.owner o.now gc_lease_ms s.db in
      let P = λ (r : Result BridgeError PruneResult × Collection d). Present r.1.db in
      elim (Bool-cases o.dry_run) [
        | inl e ↦ subst P (sym (if_true o.dry_run _ _ e)) (collected-Present s h)
        | inr e ↦ subst P (sym (if_false o.dry_run _ _ e)) (elim (Bool-cases (not lease.0)) [
          | inl r ↦ subst P (sym (if_true (not lease.0) _ _ r)) (skipped-Present s h)
          | inr a ↦
              subst P (sym (if_false (not lease.0) _ _ a))
                (collected-Present (record s { db = lease.1 }) (acquired-Present s.db h))
        ])
      ]

-- A Job that has not ended stays as it is, whatever is collected and wherever a failure of the file
-- system stops the call, when Job identifiers are unique.
pub prune_storage-keeps_live :
    (d : Disk) (config : StorageConfig) (o : PruneOptions) (s : Collection d) (id : String)
    (job : JobRow)
    → is_terminal job.executor_status ≡ false
    → Table.UniqueKeys job_key s.db.jobs
    → get_job id s.db ≡ some job
    → get_job id (prune_storage d config o s).1.db ≡ some job
unfolding get_job Present
prune_storage-keeps_live d config o s id job live unique stored =
    (pruned-Present d config o id job live s (unique, stored)).1
