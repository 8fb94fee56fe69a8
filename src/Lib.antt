-- ===== src/Lib.antt =====
-- KeelOS: a model of the agent that manages a node, and of the configuration it writes.
--
-- The program has an init process (cmd/keel-init), an agent that serves gRPC requests
-- (cmd/keel-agent), a client (cmd/osctl), and packages for configuration, cryptography and the API
-- (pkg). This library models the agent's updates, rollbacks, network configuration and access
-- control, its certificates, audit log and log stream, the network part of pkg/config, keel-init:
-- its start-up, its networking and its supervision, and the requests and certificates of osctl.
--
-- How the parts interact. A client's request (Osctl/Commands), sent with the client's pair
-- (Osctl/CertStore), passes the TLS configuration (Agent/Mtls) and the authorisation (Agent/Rbac).
-- A scheduled update is kept by the scheduler (Agent/Scheduler); the executor (Agent/Executor)
-- takes the due ones, writes the image to the inactive partition (Agent/Disk/Flash), records the
-- active one and switches the boot flag (Agent/Disk/Boot). After a boot the supervisor
-- (Agent/Executor/Supervisor) runs the health checks (Agent/Health) and switches the boot flag
-- to the recorded partition. `install_update` writes an image and switches at once, with a stream of
-- progress and without a record (Agent/Executor/Install). `configure_network` (Agent/Network) converts a request, validates and
-- saves it (Config/Network); the init process, which mounts the file systems and the data disk
-- (Init/Storage) and sets the hostname (Init/Host), applies it at the next boot (Init/Networking),
-- and then watches the agent, containerd and kubelet (Init/Supervise).
--
-- Files and code.
--   Config/Network          pkg/config/src/network.rs: types and `validate`
--   Config/Network/Storage  the same: `load_from`, `save_to`
--   Agent/Network           cmd/keel-agent/src/network.rs: `configure_network`, `get_network_config`;
--                           Convert from the proto messages, Render to them; Interfaces:
--                           `get_network_status`
--   Agent/Rbac              cmd/keel-agent/src/rbac.rs; Rpcs: the roles that lib.rs asks for
--   Agent/Mtls              cmd/keel-agent/src/mtls.rs: `build_tls_config`
--   Agent/Enrolment         cmd/keel-agent/src/lib.rs: `init_bootstrap`, with pkg/crypto/src/lib.rs
--   Agent/Certificates      Csr: cmd/keel-agent/src/k8s_csr.rs; Store: the pair of files, with
--                           pkg/crypto/src/lib.rs; Rotation: lib.rs, `rotate_certificate`, and
--                           main.rs, `init_k8s_certificates`; Renewal: cert_renewal.rs and
--                           cert_metrics.rs; Issued, Pairs, Rotated, Mismatched, Twice and
--                           Due: the proofs
--   Agent/Audit             cmd/keel-agent/src/audit.rs: the log of the requests
--   Agent/Logs              cmd/keel-agent/src/lib.rs: `stream_logs`, `parse_log_line`
--   Agent/Scheduler         cmd/keel-agent/src/update_scheduler.rs; Writes: the methods that change it;
--                           Rpc: lib.rs, the RPCs about schedules
--   Agent/Disk              cmd/keel-agent/src/disk.rs: detection of the partitions; Flash: writing
--                           an image; Boot: the boot flag, the rollback state, the boot counter;
--                           Slots, Boot/Switch and Boot/Laws: the proofs
--   Config/Bootstrap        pkg/config/src/bootstrap.rs: the state's file, `generate_kubeconfig`
--   Agent/Bootstrap         cmd/keel-agent/src/lib.rs: `bootstrap_kubernetes`, `get_bootstrap_status`
--   Agent/Health            cmd/keel-agent/src/health_check.rs: `run_all_checks`, `run_with_retry`;
--                           Checks: the built-in checks, and `get_health` of lib.rs
--   Agent/Diagnostics       cmd/keel-agent/src/diagnostics.rs: the debug and recovery sessions;
--                           Crash: `analyze_crash_dump`; Dumps: `collect_crash_dump`,
--                           `create_system_snapshot`; Rpc: the RPCs of lib.rs
--   Agent/Executor          cmd/keel-agent/src/main.rs and hooks.rs: `schedule_executor`,
--                           `execute_scheduled_update`, `execute_hook`; Supervisor:
--                           `start_rollback_supervisor`; Install: lib.rs, `install_update` and
--                           `trigger_rollback`; Parts, Laws, Histories and Requests: the proofs
--   Init/Networking         cmd/keel-init/src/main.rs: `setup_networking` and what it calls
--   Init/Storage            the same: `setup_filesystems`, `setup_persistent_storage`, `setup_cgroups`
--   Init/Host               the same: `setup_hostname`, the arguments of `spawn_kubelet`
--   Init/Supervise          the same: the loop of `supervise_services`
--   Init/Telemetry          cmd/keel-init/src/telemetry.rs: the phases of the boot
--   Osctl/Commands          cmd/osctl/src/main.rs: the requests of four commands; Network: what the
--                           agent and the next boot make of `network dns set`
--   Osctl/CertStore         cmd/osctl/src/cert_store.rs, with `connect_with_auto_tls` of main.rs
--   Agent/Examples, Init/Examples, Osctl/Examples   the theorems at concrete inputs
--
-- State and operations. The boot flags are a function of the disk and of the partition's number: the
-- slots are found on the disk that is booted, and the code switches the flags of /dev/sda. A method that locks a map is one step on a record. The executor awaits
-- between its calls, so it is a state machine whose steps may alternate with requests. An execution is
-- one step of it: a hook that never returns, which the code does not time out, is a history without
-- further steps. A file is
-- the text it holds, or nothing; a write may fail, with an error and with what it leaves. A
-- `HashMap` is an association list, whose order stands for the order of iteration, which Rust
-- leaves open. Logging is left out.
--
-- Numbers and fuel. A u32 or u64 is a natural number; where the code adds or subtracts, the result
-- is reduced by the width (the boot counter, the bytes saved), and a shift by a u32 is that of a
-- build without overflow checks. Times are nanoseconds since the epoch. `run_with_retry` recurses
-- on fuel one above the number of retries allowed, and its result says whether the fuel ran out;
-- it never does, since the number of the attempt rises by one in each round.
--
-- `wait_for_certificate` recurses on the number of its polls, 30 at the start.
--
-- Parameters. serde_json, the Kubernetes client, rcgen, the address parsers, the certificate
-- parser, the TLS handshake, HTTP, SHA-256, bsdiff, sgdisk, the hooks, chrono's
-- formatting and the clock are arguments. A hook may change the devices and the boot flags and files.
-- What a theorem relies on of them is a named hypothesis: `IsFaithful` for serde_json, `IsSgdisk`
-- for sgdisk, `IsHarmless` for hooks that change neither devices nor boot flags and files,
-- `ShowsWholeSeconds` for the formats of chrono, `AllowsAnonymous` for the handshake, `Remembers` for the objects of a Kubernetes
-- cluster. Texts are folded and split by ASCII rules.
--
-- Not modelled: the import of images and the test mode of the init process; the other commands of
-- osctl, its parsing and its printing; the agent's telemetry, the health endpoints and the generated API
-- (calls of libraries). Two installations at once on one machine are not modelled.
pub mod Agent
pub mod Config
pub mod Init
pub mod Osctl
pub mod Prelude
