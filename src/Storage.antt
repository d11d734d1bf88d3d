-- ===== src/Storage.antt =====
-- packages/windows-worker/src/storage.ts: the status of the data directory, and whether a collection
-- is due. The file system is a parameter: sizes, removal, free space and the list of audit files.
-- The target of 0.9 times the quota is computed exactly. What `status` shows of the last collection and of the configured retention is left out.
pub mod Prune
pub mod Collect
pub mod Capacity
use mira_bridge.Base.{
  ℕ, ◌+◌, ◌-◌, ◌*◌, ◌/◌, String, Bool, true, false, Option, none, some, List, ◌==◌, ◌&&◌, sum_by,
  length, ltb, leb, if◌then◌else◌, Result, ok, err, holds_text,
}
use mira_bridge.Base.Json.{Json, StoredJson, parsed, corrupt, blank, property, as_text}
use mira_bridge.Protocol.Errors.{BridgeError}
use mira_bridge.State.Rows.{StorageReservationRow, Database, Time}
use mira_bridge.State.Counts.{Counts, counts}
use mira_bridge.State.Maintenance.{maintenance_value}

pub record AuditFile : Type 0 where
  pub path : String
  pub name : String
  pub modified : Time

-- What storage.ts asks of node:fs and node:path. A sum of sizes (`pathSize`), a removal and the list of audit
-- files (`auditFiles`) may throw; `freeBytes` answers null instead.
pub record Disk : Type 1 where
  pub Files : Type 0
  pub path_size : String → Files → Result BridgeError ℕ
  pub free_bytes : String → Files → Option ℕ
  pub remove : String → Files → Result BridgeError Files
  pub audit_files : String → Files → Result BridgeError (List AuditFile)
  pub dirname : String → String
  pub volume_key : String → String
  -- The name of the audit file of the day of a time.
  pub audit_name : Time → String
  -- `Date.prototype.toISOString`
  pub iso_string : Time → String

-- `StorageConfig`
pub record StorageConfig : Type 0 where
  pub max_bytes : ℕ
  pub min_free_bytes : ℕ
  pub request_retention_days : ℕ
  pub output_retention_days : ℕ
  pub job_log_retention_days : ℕ
  pub metadata_retention_days : ℕ
  pub audit_retention_days : ℕ

pub record StorageStatus : Type 0 where
  pub used_bytes : ℕ
  pub quota_bytes : ℕ
  pub quota_target_bytes : ℕ
  pub free_bytes : Option ℕ
  pub minimum_free_bytes : ℕ
  pub quota_available : Bool
  pub reserved_root_bytes : ℕ
  pub reservations : ℕ
  pub records : Counts

-- `Date.parse` of the time of the last collection: `none` when that is no time.
last_collection : (String → Option Time) → Option StoredJson → Option Time
unfolding property
last_collection parse none = none
last_collection parse (some corrupt) = none
last_collection parse (some blank) = none
last_collection parse (some (parsed j)) = elim (as_text (property "at" j)) [
  | none ↦ none
  | some text ↦ parse text
]

-- `storageMaintenanceDue`
unfoldable pub storage_maintenance_due : (String → Option Time) → Database → ℕ → Time → Bool
unfolding last_collection
storage_maintenance_due parse db interval_minutes now =
    elim (last_collection parse (maintenance_value "last_gc" db)) [
      | none ↦ true
      | some last ↦ leb (last + interval_minutes * 60 * 1000) now
    ]

-- The bytes a reservation holds on a volume.
unfoldable pub bytes_on : String → StorageReservationRow → ℕ
bytes_on volume r =
    (if r.root_volume == volume then r.root_bytes else 0)
    + (if holds_text r.target_volume volume then r.target_bytes else 0)

module _ (d : Disk) where
  -- The status, once the bytes in use are summed.
  unfoldable pub status_of : StorageConfig → String → Database → d.Files → ℕ → StorageStatus
  unfolding bytes_on
  status_of config root db files used =
      let available = d.free_bytes root files in
      let rows = db.storage_reservations in
      let reserved_root = sum_by (λ (r : StorageReservationRow). r.root_bytes) rows in
      let reserved_on_root = sum_by (bytes_on (d.volume_key root)) rows in
      record {
        used_bytes = used;
        quota_bytes = config.max_bytes;
        quota_target_bytes = config.max_bytes * 9 / 10;
        free_bytes = available;
        minimum_free_bytes = config.min_free_bytes;
        quota_available = ltb (used + reserved_root) config.max_bytes && (elim available [
          | none ↦ false
          | some bytes ↦ leb (config.min_free_bytes + reserved_on_root) bytes
        ]);
        reserved_root_bytes = reserved_root;
        reservations = length rows;
        records = counts db;
      }

  -- `storageStatus`
  unfoldable pub storage_status :
      StorageConfig → String → Database → d.Files → Result BridgeError StorageStatus
  unfolding status_of
  storage_status config root db files = elim (d.path_size root files) [
    | ok used ↦ ok (status_of config root db files used)
    | err e ↦ err e
  ]
