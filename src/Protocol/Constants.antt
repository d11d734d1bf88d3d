-- ===== src/Protocol/Constants.antt =====
-- plugins/mira-bridge/packages/protocol/src/constants.ts: the limits and the Job statuses.
use mira_bridge.Base.{ℕ, ◌*◌, Bool, true, false}

abbrev pub max_rpc_message_bytes : ℕ
max_rpc_message_bytes = 2 * 1024 * 1024

abbrev pub default_inline_output_bytes : ℕ
default_inline_output_bytes = 64 * 1024

pub data JobStatus : Type 0 where
  queued starting running exited failed_to_start cancelled timed_out lost : JobStatus

pub JobStatus-discrete : Discrete JobStatus
JobStatus-discrete = hlevel

-- `terminalJobStatuses.has(status)`
abbrev pub is_terminal : JobStatus → Bool
is_terminal queued = false
is_terminal starting = false
is_terminal running = false
is_terminal _ = true

-- `===` on statuses, by their place in `jobStatuses`.
abbrev pub status_index : JobStatus → ℕ
status_index queued = 0
status_index starting = 1
status_index running = 2
status_index exited = 3
status_index failed_to_start = 4
status_index cancelled = 5
status_index timed_out = 6
status_index lost = 7
