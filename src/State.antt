-- ===== src/State.antt =====
-- plugins/mira-bridge/packages/windows-worker/src/state.ts: the worker's database.
pub mod Rows
pub mod Requests
pub mod Maintenance
pub mod Jobs
pub mod Reservations
pub mod Transfers
pub mod Workspaces
pub mod Outputs
pub mod Scans
pub mod Counts
