-- ===== src/Agent/Rbac/Rpcs.antt =====
-- cmd/keel-agent/src/lib.rs: the role that each RPC of `NodeService` asks for in its first line.
use keelos.Prelude.{Option, none, some, String, Result, ok, List}
use keelos.Agent.Status.{Status}
use keelos.Agent.Rbac.{Role, viewer, operator, admin, authorize}

pub data Rpc : Type 0 where
  get_status reboot install_update schedule_update get_update_schedule : Rpc
  cancel_scheduled_update get_health trigger_rollback get_rollback_history : Rpc
  bootstrap_kubernetes get_bootstrap_status init_bootstrap rotate_certificate : Rpc
  configure_network get_network_config get_network_status enable_debug_mode get_debug_status : Rpc
  collect_crash_dump stream_logs create_system_snapshot enable_recovery_mode : Rpc
  analyze_crash_dump : Rpc

-- `init_bootstrap` authorises nobody.
unfoldable pub required : Rpc → Option Role
required get_status = some viewer
required reboot = some admin
required install_update = some operator
required schedule_update = some operator
required get_update_schedule = some viewer
required cancel_scheduled_update = some operator
required get_health = some viewer
required trigger_rollback = some admin
required get_rollback_history = some viewer
required bootstrap_kubernetes = some admin
required get_bootstrap_status = some viewer
required init_bootstrap = none
required rotate_certificate = some operator
required configure_network = some admin
required get_network_config = some viewer
required get_network_status = some viewer
required enable_debug_mode = some admin
required get_debug_status = some viewer
required collect_crash_dump = some operator
required stream_logs = some operator
required create_system_snapshot = some operator
required enable_recovery_mode = some admin
required analyze_crash_dump = some operator

module _ {Cert : Type 0} (organizations : Cert → Result (List (Option String)) String) where
  -- The check in front of a handler's body.
  unfoldable pub admitted : Option (List Cert) → Rpc → Result (Unit {0}) Status
  unfolding required
  admitted certs rpc = elim (required rpc) [
    | none ↦ ok tt
    | some role ↦ authorize organizations certs role
  ]
