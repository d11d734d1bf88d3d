-- ===== src/Tests/Storage.antt =====
-- A collection on a disk whose files are a number of bytes.
use mira_bridge.Base.{ℕ, ◌≡◌, refl, Bool, true, false, none, some, [], ◌∷◌, ok, err}
use mira_bridge.Base.Table
use mira_bridge.Protocol.Errors.{bridge_error, permission_denied}
use mira_bridge.Protocol.Constants.{running, exited}
use mira_bridge.State.Jobs.{get_job}
use mira_bridge.State.Maintenance.{maintenance_value, try_acquire_maintenance_lease}
use mira_bridge.Storage.Collect.Lease.{prune_storage_unlocks}
use mira_bridge.Storage.{Disk, StorageConfig}
use mira_bridge.Storage.Prune.{Collection, PruneOptions}
use mira_bridge.Storage.Collect.{prune_storage}
use mira_bridge.Storage.Collect.Untouched.{prune_storage-dry_run}
use mira_bridge.Storage.Collect.Live.{prune_storage-keeps_live}
use mira_bridge.Tests.Samples.{job_named, with_jobs}

abbrev pub plain_disk : Disk
plain_disk = record {
  Files = ℕ;
  path_size = λ path files. ok 10;
  free_bytes = λ path files. some 1000;
  remove = λ path files. ok 0;
  audit_files = λ root files. ok [];
  dirname = λ path. path;
  volume_key = λ path. path;
  audit_name = λ now. "audit";
  iso_string = λ now. "now";
}

abbrev pub config : StorageConfig
config = record {
  max_bytes = 5;
  min_free_bytes = 1;
  request_retention_days = 1;
  output_retention_days = 1;
  job_log_retention_days = 1;
  metadata_retention_days = 1;
  audit_retention_days = 1;
}

abbrev pub options : Bool → PruneOptions
options dry = record {
  dry_run = dry;
  root = "r";
  now = 900000000;
  owner = "o";
  gc_reason = "manual";
}

abbrev two_jobs : Collection plain_disk
two_jobs = record {
  db = with_jobs (job_named "a" none exited ∷ job_named "b" none running ∷ []);
  files = 20;
  actions = [];
}

prune_storage-dry_run_example :
    ((prune_storage plain_disk config (options true) two_jobs).1.db ≡ two_jobs.db)
    × ((prune_storage plain_disk config (options true) two_jobs).1.files ≡ 20)
prune_storage-dry_run_example = prune_storage-dry_run plain_disk config (options true) two_jobs refl

prune_storage-keeps_live_example :
    get_job "b" (prune_storage plain_disk config (options false) two_jobs).1.db
    ≡ some (job_named "b" none running)
unfolding Table.find get_job
prune_storage-keeps_live_example =
    prune_storage-keeps_live plain_disk config (options false) two_jobs "b"
      (job_named "b" none running) refl (refl, (refl, tt)) refl

-- A disk whose list of audit files cannot be read.
abbrev torn_disk : Disk
torn_disk = record plain_disk {
  audit_files = λ root files. err (bridge_error permission_denied none);
}

abbrev torn_jobs : Collection torn_disk
torn_jobs = record { db = two_jobs.db; files = 20; actions = [] }

prune_storage_unlocks_example :
    maintenance_value "gc_lease" (prune_storage torn_disk config (options false) torn_jobs).1.db
    ≡ none
unfolding try_acquire_maintenance_lease maintenance_value Table.find
prune_storage_unlocks_example =
    prune_storage_unlocks torn_disk config (options false) torn_jobs refl refl
