-- ===== src/Agent.antt =====
-- cmd/keel-agent: the management agent.
pub mod Status
pub mod Network
pub mod Rbac
pub mod Io
pub mod Disk
pub mod Health
pub mod Bootstrap
pub mod Executor
pub mod Scheduler
pub mod Mtls
pub mod Diagnostics
pub mod Logs
pub mod Audit
pub mod Enrolment
pub mod Certificates
mod Examples
