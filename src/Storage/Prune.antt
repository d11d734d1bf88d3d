-- ===== src/Storage/Prune.antt =====
-- The steps of `pruneStorage` of packages/windows-worker/src/storage.ts. Every `new Date()` of one call is the
-- time it starts with. An error of the file system ends the call after what it has written.
use mira_bridge.Base.{
  ℕ, String, Bool, List, [], ◌∷◌, ◌++◌, if◌then◌else◌, Result, ok, err, Exec, pure, continue, ◌>>=◌,
  ◌>>◌,
}
use mira_bridge.Protocol.Errors.{BridgeError}
use mira_bridge.State.Rows.{OutputRow, JobRow, Database, Time}
use mira_bridge.State.Outputs.{mark_output_pruned}
use mira_bridge.State.Jobs.{mark_job_logs_pruned}
use mira_bridge.Storage.{Disk, StorageConfig, StorageStatus}

pub data ActionKind : Type 0 where
  request request_tombstone output output_metadata job_logs job_metadata : ActionKind
  workspace recycle_scan storage_reservation audit : ActionKind

pub data PruneReason : Type 0 where
  retention quota : PruneReason

pub record PruneAction : Type 0 where
  pub kind : ActionKind
  pub id : String
  pub reason : PruneReason
  pub bytes : ℕ

-- The database, the files, and the local `actions` of a call.
pub record Collection (d : Disk) : Type 0 where
  pub db : Database
  pub files : d.Files
  pub actions : List PruneAction

pub record PruneResult : Type 0 where
  pub dry_run : Bool
  pub skipped_lease : Bool
  pub actions : List PruneAction
  pub reclaimed_bytes : ℕ
  pub before : StorageStatus
  pub after : StorageStatus

-- `options`, with the root and the owner that `randomUUID` gives.
pub record PruneOptions : Type 0 where
  pub dry_run : Bool
  pub root : String
  pub now : Time
  pub owner : String
  pub gc_reason : String

module _ (d : Disk) (config : StorageConfig) (o : PruneOptions) where
  abbrev pub Step : Type 0 → Type 0
  Step A = Exec (Collection d) BridgeError A

  unfoldable pub after_removal :
      ℕ → Collection d → Result BridgeError d.Files → Result BridgeError ℕ × Collection d
  after_removal bytes s (err e) = (err e, s)
  after_removal bytes s (ok files) = (ok bytes, record s { files = files })

  unfoldable pub remove_sized : String → ℕ → Step ℕ
  unfolding after_removal
  remove_sized path bytes s =
      if o.dry_run then (ok bytes, s) else after_removal bytes s (d.remove path s.files)

  -- `removePath(path, dryRun)`
  unfoldable pub remove_path : String → Step ℕ
  unfolding remove_sized
  remove_path path s = continue (remove_sized path) (d.path_size path s.files) s

  unfoldable pub record_action : PruneAction → Step (Unit {0})
  record_action action s = (ok tt, record s { actions = s.actions ++ action ∷ [] })

  -- if (!options.dryRun) ...
  unfoldable pub write : (Database → Database) → Step (Unit {0})
  write f s = (ok tt, if o.dry_run then s else record s { db = f s.db })

  -- A row without files.
  unfoldable pub drop_row : ActionKind → (String → Database → Database) → String → Step (Unit {0})
  unfolding record_action write
  drop_row kind delete id = do
    record_action (record { kind = kind; id = id; reason = retention; bytes = 0 })
    write (delete id)

  -- A row with files: they are removed first.
  unfoldable pub drop_files :
      ActionKind → PruneReason → String → String → (Database → Database) → Step ℕ
  unfolding remove_path record_action write
  drop_files kind reason path id change = do
    bytes ← remove_path path
    record_action (record { kind = kind; id = id; reason = reason; bytes = bytes })
    write change
    pure bytes

  unfoldable pub drop_files_ :
      ActionKind → PruneReason → String → String → (Database → Database) → Step (Unit {0})
  unfolding drop_files
  drop_files_ kind reason path id change = do _ ← drop_files kind reason path id change; pure tt

  unfoldable pub drop_output : PruneReason → String → OutputRow → Step ℕ
  unfolding drop_files
  drop_output reason text row =
      drop_files output reason (d.dirname row.stdout_path) row.output_ref
        (mark_output_pruned row.output_ref o.now text)

  unfoldable pub drop_job_logs : PruneReason → String → JobRow → Step ℕ
  unfolding drop_files
  drop_job_logs reason text job =
      drop_files job_logs reason (d.dirname job.spec.stdout_path) job.spec.job_id
        (mark_job_logs_pruned job.spec.job_id o.now text)
