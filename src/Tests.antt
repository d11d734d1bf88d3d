-- ===== src/Tests.antt =====
-- Sample data, and the theorems at concrete inputs.
mod Samples
mod Requests
mod Jobs
mod Reservations
mod Leases
mod Listing
mod Capture
mod Storage
mod Capacity
mod Control
mod JobInput
mod Transfers
mod Chunks
mod OutputFiles
mod Commit
mod Begin
