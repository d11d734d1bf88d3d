-- ===== src/Storage/Collect/Untouched.antt =====
-- A dry run of `pruneStorage` changes nothing.
use mira_bridge.Base.{String, true, Result, ◌≡◌, sym, if_true, refl, subst}
use mira_bridge.Protocol.Errors.{BridgeError}
use mira_bridge.State.Rows.{Database}
use mira_bridge.Storage.{Disk, StorageConfig}
use mira_bridge.Storage.Prune.{
  Collection, PruneResult, PruneOptions, remove_path, remove_sized, record_action, write,
}
use mira_bridge.Base.Loops.{Keeps, Keeps-bind}
use mira_bridge.Storage.Collect.{prune_storage, collect_and_unlock, unlock}
use mira_bridge.Storage.Collect.Kept.{Kept, any_rows}
use mira_bridge.Storage.Collect.Whole.{Keeps-collect}

module _ (d : Disk) (config : StorageConfig) (o : PruneOptions) where
  module _ (dry : o.dry_run ≡ true) (db : Database) (files : d.Files) where
    Untouched : Collection d → Type 0
    Untouched s = (s.db ≡ db) × (s.files ≡ files)

    unwritten : (f : Database → Database) → Keeps Untouched (write d config o f)
    unfolding write
    unwritten f s h = subst Untouched (sym (if_true o.dry_run _ _ dry)) h

    unremoved : (path : String) → Keeps Untouched (remove_path d config o path)
    unfolding remove_path remove_sized Untouched
    unremoved path =
        Keeps-bind Untouched (λ s. (d.path_size path s.files, s)) (remove_sized d config o path)
          (λ s h. h) (λ bytes s h. rw dry h)

    dry_run-Kept : Kept d config o Untouched (λ _. Unit)
    unfolding remove_path record_action Untouched
    dry_run-Kept = record {
      by_action = λ action s h. h;
      by_remove = λ path. unremoved path;
      by_request = λ id. unwritten _;
      by_output = λ id reason. unwritten _;
      by_output_metadata = λ id. unwritten _;
      by_workspace = λ id. unwritten _;
      by_tombstone = λ id. unwritten _;
      by_scan = λ id. unwritten _;
      by_reservation = λ id. unwritten _;
      by_nothing = unwritten _;
      by_last_gc = λ value. unwritten _;
      by_job_logs = λ job reason p. unwritten _;
      by_job = λ job p. unwritten _;
      logs_selected = λ cutoff s h. any_rows _;
      jobs_selected = λ cutoff s h. any_rows _;
    }

  -- A dry run leaves the database and the files as they are.
  pub prune_storage-dry_run :
      (s : Collection d)
      → o.dry_run ≡ true
      → ((prune_storage d config o s).1.db ≡ s.db)
        × ((prune_storage d config o s).1.files ≡ s.files)
  unfolding collect_and_unlock unlock prune_storage Untouched
  prune_storage-dry_run s dry =
      subst
        (λ (r : Result BridgeError PruneResult × Collection d).
          (r.1.db ≡ s.db) × (r.1.files ≡ s.files))
        (sym (if_true o.dry_run _ _ dry))
        (subst (λ (t : Collection d). (t.db ≡ s.db) × (t.files ≡ s.files))
          (sym (if_true o.dry_run _ _ dry))
          (Keeps-collect d config o (Untouched dry s.db s.files) (λ _. Unit)
            (dry_run-Kept dry s.db s.files) s (refl, refl)))
