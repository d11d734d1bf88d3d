-- ===== src/Tests/Capacity.antt =====
-- A capacity check on a concrete disk.
use mira_bridge.Base.{refl, false, none, some, [], sort_by}
use mira_bridge.Base.Table
use mira_bridge.State.Rows.{empty}
use mira_bridge.State.Reservations.Quota.{WithinQuota}
use mira_bridge.State.Reservations.Volumes.{volume_bytes, Fits}
use mira_bridge.Storage.{StorageConfig, StorageStatus, storage_status, status_of}
use mira_bridge.State.Counts.{counts}
use mira_bridge.Base.Loops.{for_rows, each}
use mira_bridge.Storage.Collect.{prune_storage, collect}
use mira_bridge.State.Maintenance.{
  set_maintenance_value, release_maintenance_lease, try_acquire_maintenance_lease,
  maintenance_value,
}
use mira_bridge.State.Reservations.{
  try_reserve_storage, delete_expired_storage_reservations, storage_reservations_by_age,
}
use mira_bridge.State.Requests.{expired_requests, expired_request_tombstones}
use mira_bridge.State.Outputs.{unpruned_outputs, expired_output_metadata}
use mira_bridge.State.Jobs.{unpruned_terminal_job_logs, expired_job_metadata}
use mira_bridge.State.Workspaces.{expired_workspaces}
use mira_bridge.State.Scans.{expired_recycle_scans}
use mira_bridge.Storage.Prune.{Collection}
use mira_bridge.Storage.Capacity.{CapacityRequest, capacity_of, wanted_row, ensure_storage_capacity}
use mira_bridge.Storage.Capacity.Admitted.{ensure_storage_capacity-Fits}
use mira_bridge.Tests.Storage.{plain_disk, config, options}

abbrev roomy : StorageConfig
roomy = record config { max_bytes = 500 }

abbrev wanted : CapacityRequest
wanted = record {
  operation = "start_job";
  required_bytes = 20;
  target_path = none;
  target_required_bytes = 0;
  reservation_id = some "r1";
  reservation_ttl_ms = none;
  fresh_id = "check";
  admitted_at = 900000001;
}

abbrev nothing_stored : Collection plain_disk
nothing_stored = record { db = empty; files = 20; actions = [] }

abbrev found_status : StorageStatus
found_status = status_of plain_disk roomy "r" nothing_stored.db nothing_stored.files 10

ensure_storage_capacity-Fits_example :
    WithinQuota
      (capacity_of plain_disk roomy
        (options false)
        wanted
        found_status
        (ensure_storage_capacity plain_disk roomy (options false) wanted nothing_stored).1.files)
      (ensure_storage_capacity plain_disk roomy (options false) wanted nothing_stored).1.db
    × Fits
        (capacity_of plain_disk roomy
          (options false)
          wanted
          found_status
          (ensure_storage_capacity plain_disk roomy (options false) wanted nothing_stored).1.files)
        "r"
        (volume_bytes "r"
          (ensure_storage_capacity plain_disk roomy
            (options false)
            wanted
            nothing_stored).1.db.storage_reservations)
unfolding ensure_storage_capacity Table.find Table.delete delete_expired_storage_reservations
    prune_storage collect storage_status status_of wanted_row capacity_of
    try_acquire_maintenance_lease maintenance_value for_rows each sort_by set_maintenance_value
    release_maintenance_lease expired_requests unpruned_outputs unpruned_terminal_job_logs
    expired_output_metadata expired_job_metadata expired_workspaces expired_request_tombstones
    expired_recycle_scans storage_reservations_by_age Table.replace try_reserve_storage Table.insert
    counts
ensure_storage_capacity-Fits_example =
    ensure_storage_capacity-Fits plain_disk roomy (options false) wanted "r1" "r" found_status
      nothing_stored refl (refl, refl) refl refl
