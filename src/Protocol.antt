-- ===== src/Protocol.antt =====
-- packages/protocol of plugins/mira-bridge: the error codes and the limits that both ends share.
pub mod Errors
pub mod Constants
