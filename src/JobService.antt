-- ===== src/JobService.antt =====
-- plugins/mira-bridge/packages/windows-worker/src/jobs.ts: what the worker does with Jobs.
pub mod Listing
pub mod Control
pub mod Reconcile
