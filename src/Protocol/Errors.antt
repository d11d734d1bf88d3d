-- ===== src/Protocol/Errors.antt =====
-- plugins/mira-bridge/packages/protocol/src/errors.ts and the error codes of constants.ts.
use mira_bridge.Base.{
  String, Bool, true, false, Option, none, some, ◌==◌, ◌||◌, if◌then◌else◌, or_default,
}

pub data ErrorCode : Type 0 where
  node_not_found node_offline ssh_auth_failed host_key_mismatch worker_not_found : ErrorCode
  protocol_mismatch invalid_argument duplicate_request_id workspace_not_found : ErrorCode
  workspace_read_only workspace_out_of_bounds capability_not_enabled path_not_found : ErrorCode
  path_is_binary unsupported_encoding file_changed program_not_found : ErrorCode
  process_start_failed process_timeout job_not_found job_already_finished : ErrorCode
  job_input_unavailable terminal_unavailable terminal_snapshot_unavailable : ErrorCode
  transfer_failed output_not_found output_expired job_logs_expired resource_changed : ErrorCode
  confirmation_expired recycle_bin_not_empty browser_unavailable : ErrorCode
  storage_quota_exceeded node_maintenance permission_denied internal_error : ErrorCode

-- A `BridgeError`: the code and whether a retry may help. Messages and details are left out.
pub record BridgeError : Type 0 where
  pub code : ErrorCode
  pub retryable : Bool

-- `new BridgeError(code, message, options)`, with `options.retryable`.
abbrev pub bridge_error : ErrorCode → Option Bool → BridgeError
bridge_error code retryable = record { code = code; retryable = or_default retryable false }

-- What a `catch` receives: a `BridgeError`, a `ZodError` of a schema, or another error with the system code
-- it may carry.
pub data Thrown : Type 0 where
  bridge : BridgeError → Thrown
  other : Option String → Thrown
  schema : Thrown

-- The branches of `asBridgeError` on a system code, in the source's order.
from_system_code : String → BridgeError
from_system_code c =
    if c == "ENOENT"
    then bridge_error path_not_found none
    else if c == "EACCES" || c == "EPERM"
    then bridge_error permission_denied none
    else if c == "EEXIST"
    then bridge_error file_changed none
    else if c == "ENOSPC" || c == "EDQUOT"
    then bridge_error storage_quota_exceeded none
    else if c == "ENOTDIR"
        || (c == "EISDIR" || (c == "ENAMETOOLONG" || (c == "EINVAL" || c == "EXDEV")))
    then bridge_error invalid_argument none
    else if c == "EBUSY"
    then bridge_error resource_changed (some true)
    else bridge_error internal_error none

unfoldable pub as_bridge_error : Thrown → BridgeError
unfolding from_system_code
as_bridge_error (bridge e) = e
as_bridge_error schema = bridge_error internal_error none
as_bridge_error (other none) = bridge_error internal_error none
as_bridge_error (other (some c)) = from_system_code c
