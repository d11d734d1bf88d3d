-- ===== src/Storage/Collect/Kept.antt =====
-- What the steps of `pruneStorage` keep, the whole collection keeps.
use mira_bridge.Base.{
  String, Bool, true, false, Option, List, [], ◌∷◌, ltb, leb, if◌then◌else◌, ok, pure, continue,
  All,
}
use mira_bridge.State.Rows.{OutputRow, JobRow, Database, Time}
use mira_bridge.State.Requests.{delete_request, delete_request_tombstone}
use mira_bridge.State.Outputs.{mark_output_pruned, delete_output}
use mira_bridge.State.Jobs.{
  unpruned_terminal_job_logs, mark_job_logs_pruned, expired_job_metadata, delete_job,
}
use mira_bridge.State.Workspaces.{delete_workspace}
use mira_bridge.State.Scans.{remove_recycle_scan}
use mira_bridge.State.Reservations.{release_storage_reservation}
use mira_bridge.State.Maintenance.{set_maintenance_value}
use mira_bridge.Storage.{Disk, StorageConfig}
use mira_bridge.Storage.Prune.{
  ActionKind, request, request_tombstone, output, output_metadata, job_logs, job_metadata,
  workspace, recycle_scan, storage_reservation, audit, PruneReason, retention, PruneAction,
  Collection, PruneOptions, Step, remove_path, record_action, write, drop_row, drop_files,
  drop_files_, drop_output, drop_job_logs,
}
use mira_bridge.Base.Json.{StoredJson}
use mira_bridge.Base.Loops.{each, Keeps, Keeps-bind, Keeps-each, Keeps-for_rows}
use mira_bridge.Storage.Collect.{
  prune_requests, prune_outputs, prune_job_logs, prune_output_metadata, prune_job_metadata,
  prune_workspaces, prune_tombstones, prune_scans, prune_reservation, prune_reservations,
  prune_audit, prune_audits, prune_expired, cutoff,
}

pub any_rows : {A : Type 0} (rows : List A) → All (λ _. Unit {0}) rows
any_rows [] = tt
any_rows (row ∷ rows) = (tt, any_rows rows)

module _ (d : Disk) (config : StorageConfig) (o : PruneOptions) (I : Collection d → Type 0) where
  -- The invariant `I` is kept by every write; `P` is what it says of the Jobs that are selected.
  pub record Kept (P : JobRow → Type 0) : Type 1 where
    pub by_action : (action : PruneAction) → Keeps I (record_action d config o action)
    pub by_remove : (path : String) → Keeps I (remove_path d config o path)
    pub by_request : (id : String) → Keeps I (write d config o (delete_request id))
    pub by_output :
        (id reason : String) → Keeps I (write d config o (mark_output_pruned id o.now reason))
    pub by_output_metadata : (id : String) → Keeps I (write d config o (delete_output id))
    pub by_workspace : (id : String) → Keeps I (write d config o (delete_workspace id))
    pub by_tombstone : (id : String) → Keeps I (write d config o (delete_request_tombstone id))
    pub by_scan : (id : String) → Keeps I (write d config o (remove_recycle_scan id))
    pub by_reservation : (id : String) → Keeps I (write d config o (release_storage_reservation id))
    pub by_nothing : Keeps I (write d config o (λ db. db))
    pub by_last_gc :
        (value : StoredJson) → Keeps I (write d config o (set_maintenance_value "last_gc" value))
    pub by_job_logs :
        (job : JobRow) (reason : String)
        → P job
        → Keeps I (write d config o (mark_job_logs_pruned job.spec.job_id o.now reason))
    pub by_job : (job : JobRow) → P job → Keeps I (write d config o (delete_job job.spec.job_id))
    pub logs_selected :
        (cutoff : Option Time) (s : Collection d)
        → I s
        → All P (unpruned_terminal_job_logs cutoff s.db)
    pub jobs_selected :
        (cutoff : Time) (s : Collection d) → I s → All P (expired_job_metadata cutoff s.db)

  module _ (P : JobRow → Type 0) (k : Kept P) where
    Keeps-drop_row :
        (kind : ActionKind) (delete : String → Database → Database) (id : String)
        → Keeps I (write d config o (delete id))
        → Keeps I (drop_row d config o kind delete id)
    unfolding drop_row
    Keeps-drop_row kind delete id w =
        Keeps-bind I
          (record_action d config o
            (record { kind = kind; id = id; reason = retention; bytes = 0 }))
          (λ _. write d config o (delete id)) (k.by_action _) (λ _. w)

    pub Keeps-drop_files :
        (kind : ActionKind) (reason : PruneReason) (path id : String) (change : Database → Database)
        → Keeps I (write d config o change)
        → Keeps I (drop_files d config o kind reason path id change)
    unfolding drop_files
    Keeps-drop_files kind reason path id change w =
        Keeps-bind I (remove_path d config o path) _ (k.by_remove path) (λ bytes.
          Keeps-bind I
            (record_action d config o
              (record { kind = kind; id = id; reason = reason; bytes = bytes }))
            (λ _ s.
              continue (λ _. pure bytes) (write d config o change s).0
                (write d config o change s).1)
            (k.by_action _)
            (λ _. Keeps-bind I (write d config o change) (λ _. pure bytes) w (λ _ s h. h)))

    pub Keeps-quietly :
        {A : Type 0} (m : Step d config o A)
        → Keeps I m
        → Keeps I (λ s. continue (λ _. pure tt) (m s).0 (m s).1)
    Keeps-quietly m km = Keeps-bind I m (λ _. pure tt) km (λ _ s h. h)

    Keeps-prune_requests : Keeps I (prune_requests d config o)
    unfolding prune_requests
    Keeps-prune_requests =
        Keeps-for_rows I (λ _. Unit) _ _ (λ s h. any_rows _)
          (λ id _. Keeps-drop_row request delete_request id (k.by_request id))

    pub Keeps-drop_output :
        (reason : PruneReason) (text : String) (row : OutputRow)
        → Keeps I (drop_output d config o reason text row)
    unfolding drop_output
    Keeps-drop_output reason text row =
        Keeps-drop_files output reason _ _ _ (k.by_output row.output_ref text)

    pub Keeps-drop_job_logs :
        (reason : PruneReason) (text : String) (job : JobRow)
        → P job
        → Keeps I (drop_job_logs d config o reason text job)
    unfolding drop_job_logs
    Keeps-drop_job_logs reason text job p =
        Keeps-drop_files job_logs reason _ _ _ (k.by_job_logs job text p)

    Keeps-prune_outputs : Keeps I (prune_outputs d config o)
    unfolding prune_outputs
    Keeps-prune_outputs =
        Keeps-for_rows I (λ _. Unit) _ _ (λ s h. any_rows _)
          (λ row _. Keeps-quietly _ (Keeps-drop_output retention "retention" row))

    Keeps-prune_job_logs : Keeps I (prune_job_logs d config o)
    unfolding prune_job_logs
    Keeps-prune_job_logs =
        Keeps-for_rows I P _ _ (λ s h. k.logs_selected _ s h)
          (λ job p. Keeps-quietly _ (Keeps-drop_job_logs retention "retention" job p))

    Keeps-prune_output_metadata : Keeps I (prune_output_metadata d config o)
    unfolding prune_output_metadata
    Keeps-prune_output_metadata =
        Keeps-for_rows I (λ _. Unit) _ _ (λ s h. any_rows _)
          (λ row _.
            Keeps-drop_row output_metadata delete_output _ (k.by_output_metadata row.output_ref))

    Keeps-prune_job_metadata : Keeps I (prune_job_metadata d config o)
    unfolding prune_job_metadata
    Keeps-prune_job_metadata =
        Keeps-for_rows I P _ _ (λ s h. k.jobs_selected _ s h)
          (λ job p.
            Keeps-quietly _ (Keeps-drop_files job_metadata retention _ _ _ (k.by_job job p)))

    Keeps-prune_workspaces : Keeps I (prune_workspaces d config o)
    unfolding prune_workspaces
    Keeps-prune_workspaces =
        Keeps-for_rows I (λ _. Unit) _ _ (λ s h. any_rows _)
          (λ row _. Keeps-drop_row workspace delete_workspace _ (k.by_workspace row.workspace_id))

    Keeps-prune_tombstones : Keeps I (prune_tombstones d config o)
    unfolding prune_tombstones
    Keeps-prune_tombstones =
        Keeps-for_rows I (λ _. Unit) _ _ (λ s h. any_rows _)
          (λ id _. Keeps-drop_row request_tombstone delete_request_tombstone id (k.by_tombstone id))

    Keeps-prune_scans : Keeps I (prune_scans d config o)
    unfolding prune_scans
    Keeps-prune_scans =
        Keeps-for_rows I (λ _. Unit) _ _ (λ s h. any_rows _)
          (λ row _. Keeps-drop_row recycle_scan remove_recycle_scan _ (k.by_scan row.scan_id))

    pub Keeps-unless :
        {A : Type 0} (b : Bool) (a : A) (m : Step d config o A)
        → Keeps I m
        → Keeps I (λ s. if b then (ok a, s) else m s)
    Keeps-unless true a m km s h = h
    Keeps-unless false a m km s h = km s h

    Keeps-prune_reservations : Keeps I (prune_reservations d config o)
    unfolding prune_reservations prune_reservation
    Keeps-prune_reservations =
        Keeps-for_rows I (λ _. Unit) _ _ (λ s h. any_rows _)
          (λ row _. Keeps-unless (ltb o.now row.expires_at) tt _ (
            Keeps-drop_row storage_reservation release_storage_reservation _
              (k.by_reservation row.reservation_id)))

    Keeps-prune_audits : Keeps I (prune_audits d config o)
    unfolding prune_audits prune_audit drop_files_
    Keeps-prune_audits =
        Keeps-bind I (λ s. (d.audit_files o.root s.files, s)) (each (prune_audit d config o))
          (λ s h. h)
          (λ files.
            Keeps-each I (λ _. Unit) _
              (λ file _.
                Keeps-unless (leb (cutoff config.audit_retention_days o.now) file.modified) tt _
                  (Keeps-quietly _ (Keeps-drop_files audit retention _ _ _ k.by_nothing)))
              files (any_rows _))

    pub Keeps-prune_expired : Keeps I (prune_expired d config o)
    unfolding prune_expired
    Keeps-prune_expired =
        Keeps-each I (Keeps I) (λ loop. loop) (λ loop kept. kept) _
          (
            Keeps-prune_requests,
            (
              Keeps-prune_outputs,
              (
                Keeps-prune_job_logs,
                (
                  Keeps-prune_output_metadata,
                  (
                    Keeps-prune_job_metadata,
                    (
                      Keeps-prune_workspaces,
                      (
                        Keeps-prune_tombstones,
                        (Keeps-prune_scans, (Keeps-prune_reservations, (Keeps-prune_audits, tt))),
                      ),
                    ),
                  ),
                ),
              ),
            ),
          )
