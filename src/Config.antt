-- ===== src/Config.antt =====
-- pkg/config: the node's configuration files.
pub mod Network
pub mod Bootstrap
