-- ===== src/Tests/Samples.antt =====
-- A Job, a reservation and a transfer that the tests share.
use mira_bridge.Base.{ℕ, String, true, false, Option, none, some, List}
use mira_bridge.Protocol.Constants.{JobStatus}
use mira_bridge.State.Rows.{
  JobRow, StorageReservationRow, TransferRow, Database, RpcResponse, closed, pull, file, receiving,
  empty,
}

abbrev pub job_named : String → Option String → JobStatus → JobRow
job_named id key status = record {
  spec = record {
    job_id = id;
    node_id = "pc";
    workspace_id = "ws";
    spec_hash = "h";
    idempotency_key = key;
    label = none;
    program = some "cmd.exe";
    cwd = none;
    args_summary_json = none;
    stdin_mode = closed;
    stdin_pipe = none;
    output_encoding = "auto";
    terminal_snapshot_path = none;
    storage_reservation_id = none;
    stdout_path = "out";
    stderr_path = "err";
    timeout_ms = 1000;
    created_at = 5;
  };
  executor_status = status;
  progress = record {
    pid = none;
    pid_started_at = none;
    exit_code = none;
    error_json = none;
    started_at = none;
    finished_at = none;
    stdout_bytes = 0;
    stderr_bytes = 0;
    stdout_stored_bytes = 0;
    stderr_stored_bytes = 0;
    stdout_storage_truncated = false;
    stderr_storage_truncated = false;
    stdout_encoding = none;
    stderr_encoding = none;
  };
  runner = record { runner_pid = none; runner_started_at = none; runner_heartbeat_at = none };
  terminal_cols = none;
  terminal_rows = none;
  cancel_requested = false;
  logs_pruned_at = none;
  logs_prune_reason = none;
}

abbrev pub with_jobs : List JobRow → Database
with_jobs jobs = record empty { jobs = jobs }

abbrev pub reservation_of : String → ℕ → StorageReservationRow
reservation_of id bytes = record {
  reservation_id = id;
  operation = "start_job";
  root_bytes = bytes;
  root_volume = "c:";
  target_bytes = 7;
  target_volume = some "d:";
  created_at = 10;
  expires_at = 90;
}

abbrev pub free_transfer : TransferRow
free_transfer = record {
  transfer_id = "t";
  node_id = "pc";
  direction = pull;
  kind = file;
  source_path = some "a";
  destination_path = none;
  temporary_path = none;
  size = 3;
  sha256 = "s";
  transferred = 0;
  overwrite = false;
  manifest_json = none;
  manifest_sha256 = none;
  phase = receiving;
  staging_path = none;
  backup_path = none;
  owner_id = none;
  owner_pid = none;
  owner_started_at = none;
  created_at = 1;
  updated_at = 1;
}

abbrev pub reply : RpcResponse
reply = record {
  id = "1";
  payload = record {
    request_id = "r";
    ok = true;
    result = none;
    error = none;
    audit_warning = false;
    duration_ms = 4;
  };
}
