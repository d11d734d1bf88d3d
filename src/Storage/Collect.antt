-- ===== src/Storage/Collect.antt =====
-- `pruneStorage` of packages/windows-worker/src/storage.ts: retention, then the quota, under a lease.
pub mod Kept
pub mod Whole
pub mod Untouched
pub mod Stored
pub mod Live
pub mod Lease
use mira_bridge.Base.{
  eqb, ◌||◌, ℕ, ◌+◌, ◌-◌, ◌*◌, ◌/◌, String, Bool, true, false, Option, none, some, List, [], ◌∷◌,
  ◌++◌, ◌==◌, ◌&&◌, not, map, any, sum_by, length, filter_by, ltb, leb, if◌then◌else◌, Result, ok,
  err, Exec, pure, gets, modify, continue, ◌>>=◌, ◌>>◌,
}
use mira_bridge.Base.Json.{Json, obj, str, num, field, end, parsed}
use mira_bridge.Protocol.Errors.{BridgeError}
use mira_bridge.State.Rows.{
  OutputRow, JobRow, WorkspaceRow, RecycleScanRow, StorageReservationRow, Database, Time,
}
use mira_bridge.State.Requests.{
  expired_requests, delete_request, expired_request_tombstones, delete_request_tombstone,
}
use mira_bridge.State.Outputs.{
  unpruned_outputs, mark_output_pruned, expired_output_metadata, delete_output,
}
use mira_bridge.State.Jobs.{
  unpruned_terminal_job_logs, mark_job_logs_pruned, expired_job_metadata, delete_job,
}
use mira_bridge.State.Workspaces.{expired_workspaces, delete_workspace}
use mira_bridge.State.Scans.{expired_recycle_scans, remove_recycle_scan}
use mira_bridge.State.Reservations.{storage_reservations_by_age, release_storage_reservation}
use mira_bridge.State.Maintenance.{
  set_maintenance_value, try_acquire_maintenance_lease, release_maintenance_lease,
}
use mira_bridge.Storage.{Disk, AuditFile, StorageConfig, StorageStatus, storage_status}
use mira_bridge.Base.Loops.{each, for_rows}
use mira_bridge.Storage.Prune.{
  ActionKind, request, request_tombstone, output, output_metadata, job_logs, job_metadata,
  workspace, recycle_scan, storage_reservation, audit, PruneReason, retention, quota, PruneAction,
  Collection, PruneResult, PruneOptions, Step, remove_path, record_action, write, drop_row,
  drop_files, drop_files_, drop_output, drop_job_logs,
}

abbrev day_ms : ℕ
day_ms = 24 * 60 * 60 * 1000

abbrev pub gc_lease_ms : ℕ
gc_lease_ms = 5 * 60 * 1000

-- A time before 1970 is 0.
abbrev cutoff : ℕ → Time → Time
cutoff days now = now - days * day_ms

-- actions.reduce((sum, action) => sum + action.bytes, 0)
unfoldable pub reclaimed : List PruneAction → ℕ
reclaimed actions = sum_by (λ (a : PruneAction). a.bytes) actions

-- The ids that the first phase has pruned.
pruned_ids : (ActionKind → Bool) → List PruneAction → List String
pruned_ids is_kind actions =
    map (λ (a : PruneAction). a.id) (filter_by (λ (a : PruneAction). is_kind a.kind) actions)

abbrev is_member : List String → String → Bool
is_member ids id = any (λ other. other == id) ids

abbrev is_output : ActionKind → Bool
is_output kind = elim kind [ output ↦ true | _ ↦ false ]

abbrev is_job_logs : ActionKind → Bool
is_job_logs kind = elim kind [ job_logs ↦ true | _ ↦ false ]

abbrev is_audit : ActionKind → Bool
is_audit kind = elim kind [ audit ↦ true | _ ↦ false ]

module _ (d : Disk) (config : StorageConfig) (o : PruneOptions) where
  prune_requests : Step d config o (Unit {0})
  prune_requests =
      for_rows (λ s. expired_requests (cutoff config.request_retention_days o.now) s.db)
        (drop_row d config o request delete_request)

  prune_outputs : Step d config o (Unit {0})
  prune_outputs =
      for_rows (λ s. unpruned_outputs (some (cutoff config.output_retention_days o.now)) s.db)
        (λ row. do _ ← drop_output d config o retention "retention" row; pure tt)

  prune_job_logs : Step d config o (Unit {0})
  prune_job_logs =
      for_rows
        (λ s. unpruned_terminal_job_logs (some (cutoff config.job_log_retention_days o.now)) s.db)
        (λ job. do _ ← drop_job_logs d config o retention "retention" job; pure tt)

  prune_output_metadata : Step d config o (Unit {0})
  prune_output_metadata =
      for_rows (λ s. expired_output_metadata (cutoff config.metadata_retention_days o.now) s.db)
        (λ row. drop_row d config o output_metadata delete_output row.output_ref)

  prune_job_metadata : Step d config o (Unit {0})
  prune_job_metadata =
      for_rows (λ s. expired_job_metadata (cutoff config.metadata_retention_days o.now) s.db)
        (λ (job : JobRow). do
          _ ←
              drop_files d config o job_metadata retention (d.dirname job.spec.stdout_path)
                job.spec.job_id (delete_job job.spec.job_id)
          pure tt)

  prune_workspaces : Step d config o (Unit {0})
  prune_workspaces =
      for_rows (λ s. expired_workspaces (cutoff config.metadata_retention_days o.now) s.db)
        (λ row. drop_row d config o workspace delete_workspace row.workspace_id)

  prune_tombstones : Step d config o (Unit {0})
  prune_tombstones =
      for_rows (λ s. expired_request_tombstones (cutoff config.metadata_retention_days o.now) s.db)
        (drop_row d config o request_tombstone delete_request_tombstone)

  prune_scans : Step d config o (Unit {0})
  prune_scans =
      for_rows (λ s. expired_recycle_scans o.now s.db)
        (λ row. drop_row d config o recycle_scan remove_recycle_scan row.scan_id)

  prune_reservation : StorageReservationRow → Step d config o (Unit {0})
  prune_reservation row s =
      if ltb o.now row.expires_at
      then (ok tt, s)
      else drop_row d config o storage_reservation release_storage_reservation row.reservation_id s

  prune_reservations : Step d config o (Unit {0})
  unfolding prune_reservation
  prune_reservations = for_rows (λ s. storage_reservations_by_age s.db) prune_reservation

  prune_audit : AuditFile → Step d config o (Unit {0})
  prune_audit file s =
      if leb (cutoff config.audit_retention_days o.now) file.modified
      then (ok tt, s)
      else drop_files_ d config o audit retention file.path file.name (λ db. db) s

  prune_audits : Step d config o (Unit {0})
  unfolding prune_audit
  prune_audits s = continue (each prune_audit) (d.audit_files o.root s.files) s

  -- The loops that delete what is past its retention.
  pub prune_expired : Step d config o (Unit {0})
  unfolding prune_requests prune_outputs prune_job_logs prune_output_metadata prune_job_metadata
      prune_workspaces prune_tombstones prune_scans prune_reservations prune_audits
  prune_expired =
      each (λ loop. loop)
        (prune_requests ∷ prune_outputs ∷ prune_job_logs ∷ prune_output_metadata
          ∷ prune_job_metadata ∷ prune_workspaces ∷ prune_tombstones ∷ prune_scans
          ∷ prune_reservations ∷ prune_audits ∷ [])

  -- if (estimatedUsed <= target) break; ...; estimatedUsed -= bytes
  unfoldable pub until_target :
      {A : Type 0} → (A → Step d config o ℕ) → List A → ℕ → Step d config o ℕ
  until_target drop [] used s = (ok used, s)
  until_target drop (row ∷ rows) used s =
      if leb used (config.max_bytes * 9 / 10)
      then (ok used, s)
      else continue (λ bytes. until_target drop rows (used - bytes)) (drop row s).0 (drop row s).1

  -- `continue` in the loop over audit files: what is dropped is of no bytes.
  quota_audit : List String → AuditFile → Step d config o ℕ
  quota_audit pruned file s =
      if is_member pruned file.name
      then (ok 0, s)
      else if file.name == d.audit_name o.now
      then (ok 0, s)
      else drop_files d config o audit quota file.path file.name (λ db. db) s

  -- The loops of the second phase; the ids left out are those that the first phase has pruned.
  over_quota_outputs : List PruneAction → ℕ → Step d config o ℕ
  unfolding until_target pruned_ids
  over_quota_outputs first used s =
      until_target (drop_output d config o quota "quota")
        (filter_by (λ (r : OutputRow). not (is_member (pruned_ids is_output first) r.output_ref))
          (unpruned_outputs none s.db))
        used s

  over_quota_job_logs : List PruneAction → ℕ → Step d config o ℕ
  unfolding until_target pruned_ids
  over_quota_job_logs first used s =
      until_target (drop_job_logs d config o quota "quota")
        (filter_by (λ (j : JobRow). not (is_member (pruned_ids is_job_logs first) j.spec.job_id))
          (unpruned_terminal_job_logs none s.db))
        used s

  over_quota_audits : List PruneAction → ℕ → Step d config o ℕ
  unfolding until_target quota_audit pruned_ids
  over_quota_audits first used s =
      continue (λ files. until_target (quota_audit (pruned_ids is_audit first)) files used)
        (d.audit_files o.root s.files) s

  prune_over_quota : List PruneAction → ℕ → Step d config o (Unit {0})
  unfolding over_quota_outputs over_quota_job_logs over_quota_audits
  prune_over_quota first used = do
    used ← over_quota_outputs first used
    used ← over_quota_job_logs first used
    _ ← over_quota_audits first used
    pure tt

  prune_to_quota : ℕ → Step d config o (Unit {0})
  unfolding prune_over_quota reclaimed
  prune_to_quota used_before s =
      if ltb config.max_bytes (used_before - reclaimed s.actions)
      then prune_over_quota s.actions (used_before - reclaimed s.actions) s
      else (ok tt, s)

  abbrev pub status_now : Step d config o StorageStatus
  status_now s = (storage_status d config o.root s.db s.files, s)

  abbrev pub status_after : StorageStatus → Step d config o StorageStatus
  status_after before s =
      if o.dry_run || eqb (length s.actions) 0 then (ok before, s) else status_now s

  abbrev report : StorageStatus → StorageStatus → Collection d → PruneResult
  report before after s = record {
    dry_run = o.dry_run;
    skipped_lease = false;
    actions = s.actions;
    reclaimed_bytes = reclaimed s.actions;
    before = before;
    after = after;
  }

  -- The body of `pruneStorage` once the lease is held.
  unfoldable pub collect : Step d config o PruneResult
  unfolding prune_expired prune_to_quota write
  collect = do
    before ← status_now
    prune_expired
    prune_to_quota before.used_bytes
    count ← gets (λ s. length s.actions)
    write d config o (
        set_maintenance_value "last_gc" (
          parsed (
            obj (
              field "at" (str (d.iso_string o.now))
                (field "reason" (str o.gc_reason) (field "actions" (num count) end))))))
    after ← status_after before
    gets (report before after)

  unlock : Collection d → Collection d
  unlock s =
      if o.dry_run then s else record s { db = release_maintenance_lease "gc_lease" o.owner s.db }

  skipped : Step d config o PruneResult
  skipped = do
    before ← status_now
    pure (record {
      dry_run = false;
      skipped_lease = true;
      actions = [];
      reclaimed_bytes = 0;
      before = before;
      after = before;
    })

  -- `try { ... } finally { ... }`
  collect_and_unlock : Step d config o PruneResult
  unfolding collect unlock
  collect_and_unlock s = ((collect s).0, unlock (collect s).1)

  -- `pruneStorage`, from a state without actions.
  unfoldable pub prune_storage : Step d config o PruneResult
  unfolding collect_and_unlock skipped
  prune_storage s =
      let lease = try_acquire_maintenance_lease "gc_lease" o.owner o.now gc_lease_ms s.db in
      if o.dry_run
      then collect_and_unlock s
      else if not lease.0
      then skipped s
      else collect_and_unlock (record s { db = lease.1 })
