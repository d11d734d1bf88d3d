-- ===== src/State/Counts.antt =====
-- `counts()` of packages/windows-worker/src/state.ts.
use mira_bridge.Base.{ℕ, length}
use mira_bridge.State.Rows.{Database}

pub record Counts : Type 0 where
  pub requests : ℕ
  pub request_tombstones : ℕ
  pub workspaces : ℕ
  pub outputs : ℕ
  pub jobs : ℕ
  pub transfers : ℕ
  pub recycle_scans : ℕ
  pub storage_reservations : ℕ

unfoldable pub counts : Database → Counts
counts db = record {
  requests = length db.requests;
  request_tombstones = length db.request_tombstones;
  workspaces = length db.workspaces;
  outputs = length db.outputs;
  jobs = length db.jobs;
  transfers = length db.transfers;
  recycle_scans = length db.recycle_scans;
  storage_reservations = length db.storage_reservations;
}
