-- ===== src/Storage/Collect/Lease.antt =====
-- `pruneStorage` gives its lease back.
use mira_bridge.Base.{◌+◌, false, none, some, not, Result, ◌≡◌, sym, if_false, subst, ap, ◌∙◌, true}
use mira_bridge.Protocol.Errors.{BridgeError}
use mira_bridge.State.Rows.{Database}
use mira_bridge.State.Requests.{delete_request, delete_request_tombstone}
use mira_bridge.State.Outputs.{mark_output_pruned, delete_output}
use mira_bridge.State.Jobs.{
  unpruned_terminal_job_logs, mark_job_logs_pruned, expired_job_metadata, delete_job,
}
use mira_bridge.State.Workspaces.{delete_workspace}
use mira_bridge.State.Scans.{remove_recycle_scan}
use mira_bridge.State.Reservations.{release_storage_reservation}
use mira_bridge.State.Maintenance.{
  set_maintenance_value, try_acquire_maintenance_lease, maintenance_value, keyed_lease,
}
use mira_bridge.Storage.{Disk, StorageConfig}
use mira_bridge.Storage.Prune.{Collection, PruneResult, PruneOptions, record_action}
use mira_bridge.Storage.Collect.{prune_storage, collect_and_unlock, unlock, gc_lease_ms}
use mira_bridge.Storage.Collect.Kept.{Kept, any_rows}
use mira_bridge.Storage.Collect.Whole.{Keeps-collect}
use mira_bridge.State.Maintenance.Leases.{release-held, acquire-held, maintenance_value-set}
use mira_bridge.Base.Json.{StoredJson}
use mira_bridge.Storage.Collect.Stored.{Stored, Keeps-write, Keeps-remove}

module _ (d : Disk) (config : StorageConfig) (o : PruneOptions) where
  -- The lease of this call is stored.
  Held : Database → Type 0
  Held db = maintenance_value "gc_lease" db ≡ some (keyed_lease o.owner (o.now + gc_lease_ms))

  kept_value :
      (value : StoredJson) (db : Database)
      → Held db
      → Held (set_maintenance_value "last_gc" value db)
  unfolding Held
  kept_value value db h = maintenance_value-set "last_gc" "gc_lease" value db ∙ h

  Held-Kept : Kept d config o (Stored d config o Held) (λ _. Unit)
  unfolding Held record_action Stored unpruned_terminal_job_logs expired_job_metadata delete_request
      mark_output_pruned delete_output delete_workspace delete_request_tombstone remove_recycle_scan
      release_storage_reservation mark_job_logs_pruned delete_job maintenance_value
  Held-Kept = record {
    by_action = λ action s h. h;
    by_remove = Keeps-remove d config o Held;
    by_request = λ id. Keeps-write d config o Held (delete_request id) (λ db h. h);
    by_output =
        λ id reason. Keeps-write d config o Held (mark_output_pruned id o.now reason) (λ db h. h);
    by_output_metadata = λ id. Keeps-write d config o Held (delete_output id) (λ db h. h);
    by_workspace = λ id. Keeps-write d config o Held (delete_workspace id) (λ db h. h);
    by_tombstone = λ id. Keeps-write d config o Held (delete_request_tombstone id) (λ db h. h);
    by_scan = λ id. Keeps-write d config o Held (remove_recycle_scan id) (λ db h. h);
    by_reservation = λ id. Keeps-write d config o Held (release_storage_reservation id) (λ db h. h);
    by_nothing = Keeps-write d config o Held (λ db. db) (λ db h. h);
    by_last_gc = λ value.
        Keeps-write d config o Held (set_maintenance_value "last_gc" value) (kept_value value);
    by_job_logs = λ row reason other.
        Keeps-write d config o Held (mark_job_logs_pruned row.spec.job_id o.now reason) (λ db h. h);
    by_job = λ row other. Keeps-write d config o Held (delete_job row.spec.job_id) (λ db h. h);
    logs_selected = λ cutoff s h. any_rows _;
    jobs_selected = λ cutoff s h. any_rows _;
  }

-- A collection that is no dry run and has acquired its lease leaves no lease, whether it ends or a
-- failure of the file system stops it.
pub prune_storage_unlocks :
    (d : Disk) (config : StorageConfig) (o : PruneOptions) (s : Collection d)
    → o.dry_run ≡ false
    → (try_acquire_maintenance_lease "gc_lease" o.owner o.now gc_lease_ms s.db).0 ≡ true
    → maintenance_value "gc_lease" (prune_storage d config o s).1.db ≡ none
unfolding prune_storage collect_and_unlock unlock Held Stored
prune_storage_unlocks d config o s real acquired =
    let lease = try_acquire_maintenance_lease "gc_lease" o.owner o.now gc_lease_ms s.db in
    let P = λ (r : Result BridgeError PruneResult × Collection d).
      maintenance_value "gc_lease" r.1.db ≡ none in
    let t : Collection d = record s { db = lease.1 } in
    subst P (sym (if_false o.dry_run _ _ real)) (
      subst P (sym (if_false (not lease.0) _ _ (ap not acquired))) (
        subst (λ (u : Collection d). maintenance_value "gc_lease" u.db ≡ none)
          (sym (if_false o.dry_run _ _ real))
          (release-held "gc_lease" o.owner (o.now + gc_lease_ms) _ (
            Keeps-collect d config o (Stored d config o (Held d config o)) (λ _. Unit)
              (Held-Kept d config o) t
              (acquire-held "gc_lease" o.owner o.now gc_lease_ms s.db acquired)))))
