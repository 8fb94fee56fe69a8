-- ===== src/Agent/Examples.antt =====
-- The theorems about the agent at concrete inputs.
mod RollbackCodec
mod Machine
mod Disk
mod Executor
mod Supervisor
mod Diagnostics
mod Network
mod Access
mod Scheduler
mod Bootstrap
mod Status
mod Logs
mod Enrolment
mod Certificates
mod Reports
