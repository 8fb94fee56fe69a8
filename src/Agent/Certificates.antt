-- ===== src/Agent/Certificates.antt =====
-- The operational certificate of a node: cmd/keel-agent/src/k8s_csr.rs (Csr), the pair of files
-- (Store), `rotate_certificate` of lib.rs and `init_k8s_certificates` of main.rs (Rotation), and
-- cert_renewal.rs with cert_metrics.rs (Renewal).
pub mod Csr
pub mod Store
pub mod Rotation
pub mod Renewal
pub mod Issued
pub mod Twice
pub mod Pairs
pub mod Rotated
pub mod Mismatched
pub mod Due
