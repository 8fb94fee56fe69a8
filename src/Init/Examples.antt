-- ===== src/Init/Examples.antt =====
-- The theorems about the init process at concrete inputs.
mod Startup
use keelos.Prelude.{
  All, ◌≡◌, ◌≢◌, ◌≤◌, ◌%◌, ◌↔◌, refl, arith, String, str_eq, any, if◌then◌else◌, Bool, true, false,
  none, some, List, [], ◌∷◌, ◌++◌, In, ok,
}
use keelos.Prelude.Dict.{get}
use keelos.Config.Network.{NetworkConfig, VlanIpConfig, InterfaceConfig, InterfaceType, RouteConfig}
use keelos.Init.Supervise.{Services, Found, restart_delay, round, supervise}
use keelos.Init.Supervise.Laws.{supervise-reaped, round-kubelet, restart_delay_iff}
use keelos.Init.Networking.{
  Exit, success, failure, Command, Net, link_up, route_command, configure_interface,
  apply_network_config, setup_networking,
}
use keelos.Init.Networking.Laws.{apply-tries}
use keelos.Init.Networking.Files.{setup-files}

-- No agent is held; containerd and kubelet run.
abbrev services : Services
services = record {
  agent = none;
  containerd = some 12;
  kubelet = some 13;
  agent_restart_count = 3;
  switched = false;
  reaped = [];
}

abbrev found : Found
found = record {
  exited = [];
  exited_since = 12 ∷ 13 ∷ [];
  spawn_containerd = some 20;
  spawn_agent = some 21;
  spawn_kubelet = some 22;
  respawn_kubelet = some 23;
  bootstrap_exists = true;
  permanent_exists = true;
  restart_signal = false;
}

-- The agent exits while the loop sleeps.
abbrev running : Services
running = record services { agent = some 11 }

abbrev slept : Found
slept = record found { exited = 11 ∷ [] }

supervise-reaped_example : (supervise (slept ∷ found ∷ []) running).0.agent ≡ some 11
supervise-reaped_example = supervise-reaped 11 slept (found ∷ []) running refl refl

-- A kernel is the names of its links; a command of three words or more ends with success when its
-- third word is one of them.
abbrev Kernel : Type 0
Kernel = List String

abbrev ip : Command → Kernel → Kernel × Exit
ip (verb ∷ what ∷ name ∷ rest) k = (k, if any (str_eq name) k then success else failure)
ip _ k = (k, failure)

abbrev never_fails : String → Bool
never_fails path = false

abbrev vlan : InterfaceConfig
vlan = record {
  name = "vlan7";
  config =
      InterfaceType.vlan (record { parent = "eth0"; vlan_id = 7; ip_config = VlanIpConfig.dhcp });
}

abbrev route : RouteConfig
route = record { destination = "10.1.0.0/16"; gateway = "10.0.0.1"; metric = some 5 }

abbrev config : NetworkConfig
config = record { interfaces = vlan ∷ []; dns = none; routes = route ∷ [] }

abbrev net : Net Kernel
net = record { kernel = "lo" ∷ "eth0" ∷ []; files = []; trace = [] }

apply-tries_example :
    All
      (λ i.
        In (link_up ip never_fails i.name) (apply_network_config ip never_fails config net).trace)
      config.interfaces
    × All
        (λ r.
          In
            (route_command ip never_fails r)
            (apply_network_config ip never_fails config net).trace)
        config.routes
apply-tries_example = apply-tries ip never_fails config net
