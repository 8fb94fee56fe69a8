-- ===== src/Osctl.antt =====
-- cmd/osctl: the command line client. clap, the connection and the printing are left out.
pub mod CertStore
pub mod Commands
pub mod Network
mod Examples
