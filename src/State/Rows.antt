-- ===== src/State/Rows.antt =====
-- The row types of packages/windows-worker/src/state.ts, the database, and what its calls throw.
-- An ISO-8601 time column is the number of milliseconds it stands for: SQLite compares these texts
-- as the numbers compare. A 0/1 column is a Bool.
use mira_bridge.Base.{ℕ, String, Bool, Option, List, [], Exec}
use mira_bridge.Base.Json.{Json, StoredJson}
use mira_bridge.Protocol.Errors.{BridgeError}
use mira_bridge.Protocol.Constants.{JobStatus}

abbrev pub Time : Type 0
Time = ℕ

pub data Mode : Type 0 where
  read_only read_write : Mode

pub record WorkspaceRow : Type 0 where
  pub workspace_id : String
  pub node_id : String
  pub canonical_path : String
  pub mode : Mode
  pub created_at : Time
  pub last_used_at : Time

pub record OutputRow : Type 0 where
  pub output_ref : String
  pub node_id : String
  pub stdout_path : String
  pub stderr_path : String
  pub stdout_bytes : ℕ
  pub stderr_bytes : ℕ
  pub stdout_stored_bytes : ℕ
  pub stderr_stored_bytes : ℕ
  pub stdout_storage_truncated : Bool
  pub stderr_storage_truncated : Bool
  pub created_at : Time
  pub pruned_at : Option Time
  pub prune_reason : Option String

pub data StdinMode : Type 0 where
  closed pipe conpty : StdinMode

-- The columns of a Job that no statement updates.
pub record JobSpecColumns : Type 0 where
  pub job_id : String
  pub node_id : String
  pub workspace_id : String
  pub spec_hash : String
  pub idempotency_key : Option String
  pub label : Option String
  pub program : Option String
  pub cwd : Option String
  pub args_summary_json : Option StoredJson
  pub stdin_mode : StdinMode
  pub stdin_pipe : Option String
  pub output_encoding : String
  pub terminal_snapshot_path : Option String
  pub storage_reservation_id : Option String
  pub stdout_path : String
  pub stderr_path : String
  pub timeout_ms : ℕ
  pub created_at : Time

-- The columns that `setJobStatus` writes beside the status.
pub record JobProgress : Type 0 where
  pub pid : Option ℕ
  pub pid_started_at : Option Time
  pub exit_code : Option ℕ
  pub error_json : Option StoredJson
  pub started_at : Option Time
  pub finished_at : Option Time
  pub stdout_bytes : ℕ
  pub stderr_bytes : ℕ
  pub stdout_stored_bytes : ℕ
  pub stderr_stored_bytes : ℕ
  pub stdout_storage_truncated : Bool
  pub stderr_storage_truncated : Bool
  pub stdout_encoding : Option String
  pub stderr_encoding : Option String

pub record JobRunner : Type 0 where
  pub runner_pid : Option ℕ
  pub runner_started_at : Option Time
  pub runner_heartbeat_at : Option Time

-- `JobRow`: its columns stand in three groups, by the statements that write them.
pub record JobRow : Type 0 where
  pub spec : JobSpecColumns
  pub open spec use *
  pub executor_status : JobStatus
  pub progress : JobProgress
  pub open progress use *
  pub runner : JobRunner
  pub open runner use *
  pub terminal_cols : Option ℕ
  pub terminal_rows : Option ℕ
  pub cancel_requested : Bool
  pub logs_pruned_at : Option Time
  pub logs_prune_reason : Option String

pub data Direction : Type 0 where
  push pull : Direction

pub data TransferKind : Type 0 where
  file directory : TransferKind

pub data Phase : Type 0 where
  receiving extracting validated committing backed_up installed : Phase

pub record TransferRow : Type 0 where
  pub transfer_id : String
  pub node_id : String
  pub direction : Direction
  pub kind : TransferKind
  pub source_path : Option String
  pub destination_path : Option String
  pub temporary_path : Option String
  pub size : ℕ
  pub sha256 : String
  pub transferred : ℕ
  pub overwrite : Bool
  pub manifest_json : Option String
  pub manifest_sha256 : Option String
  pub phase : Phase
  pub staging_path : Option String
  pub backup_path : Option String
  pub owner_id : Option String
  pub owner_pid : Option ℕ
  pub owner_started_at : Option Time
  pub created_at : Time
  pub updated_at : Time

pub record RecycleScanRow : Type 0 where
  pub scan_id : String
  pub node_id : String
  pub snapshot_hash : String
  pub drives_json : String
  pub item_count : ℕ
  pub total_bytes : ℕ
  pub snapshot_json : String
  pub created_at : Time
  pub expires_at : Time

pub record StorageReservationRow : Type 0 where
  pub reservation_id : String
  pub operation : String
  pub root_bytes : ℕ
  pub root_volume : String
  pub target_bytes : ℕ
  pub target_volume : Option String
  pub created_at : Time
  pub expires_at : Time

-- `RpcPayload` of packages/protocol: `audit_warning` stands for the field that is added to the
-- result or to the error's details.
pub record RpcPayload : Type 0 where
  pub request_id : String
  pub ok : Bool
  pub result : Option Json
  pub error : Option BridgeError
  pub audit_warning : Bool
  pub duration_ms : ℕ

pub record RpcResponse : Type 0 where
  pub id : String
  pub payload : RpcPayload

-- `response_json` holds JSON.stringify of a response; it is the response JSON.parse gives back.
pub record RequestRow : Type 0 where
  pub request_id : String
  pub payload_hash : String
  pub response_json : RpcResponse
  pub created_at : Time

pub record TombstoneRow : Type 0 where
  pub request_id : String
  pub payload_hash : String
  pub operation : String
  pub created_at : Time

pub record MaintenanceRow : Type 0 where
  pub key : String
  pub value : StoredJson

-- `ExecutionMaintenanceLease`; its `created_at` and `expires_at` are texts of the two times.
pub record ExecutionMaintenanceLease : Type 0 where
  pub owner : String
  pub reason : String
  pub created_at : String
  pub expires_at : String
  pub expires_at_ms : ℕ

-- The tables of state.sqlite3.
pub record Database : Type 0 where
  pub requests : List RequestRow
  pub request_tombstones : List TombstoneRow
  pub workspaces : List WorkspaceRow
  pub outputs : List OutputRow
  pub jobs : List JobRow
  pub transfers : List TransferRow
  pub recycle_scans : List RecycleScanRow
  pub storage_reservations : List StorageReservationRow
  pub maintenance : List MaintenanceRow

-- A new database: the tables that the constructor creates.
abbrev pub empty : Database
empty = record {
  requests = [];
  request_tombstones = [];
  workspaces = [];
  outputs = [];
  jobs = [];
  transfers = [];
  recycle_scans = [];
  storage_reservations = [];
  maintenance = [];
}

-- A constraint that SQLite refuses, or the `ExecutionMaintenanceError` of state.ts.
pub data StateError : Type 0 where
  constraint_failed : StateError
  execution_maintenance : ExecutionMaintenanceLease → StateError

-- A call of `WorkerState`.
abbrev pub Call : Type 0 → Type 0
Call A = Exec Database StateError A
