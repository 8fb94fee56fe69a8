-- ===== src/Init.antt =====
-- cmd/keel-init: the first process of the node.
pub mod Supervise
pub mod Telemetry
pub mod Host
pub mod Storage
pub mod Networking
mod Examples
