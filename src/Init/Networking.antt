-- ===== src/Init/Networking.antt =====
-- cmd/keel-init/src/main.rs: the network configuration as the commands and writes that apply it.
-- What /sbin/ip does to the kernel, and which writes fail, are parameters.
pub mod Laws
pub mod Trace
pub mod Files
use keelos.Prelude.{
  ℕ, ◌==◌, if◌then◌else◌, String, is_empty, format, join, show, str_eq, Bool, true, false, not,
  is_some, unwrap_or, Option, none, some, List, [], ◌∷◌, ◌++◌, Result, ok, err,
}
use keelos.Prelude.Dict.{Dict, get, put}
use keelos.Config.Network.{
  StaticConfig, VlanIpConfig, VlanConfig, BondIpConfig, BondConfig, InterfaceType, InterfaceConfig,
  DnsConfig, RouteConfig, NetworkConfig, NetworkConfigError, as_str,
}

-- How a run of a command ends: with success, with another exit status, or not started at all.
pub data Exit : Type 0 where
  success failure not_run : Exit

abbrev pub Command : Type 0
Command = List String

-- The kernel, the files written, and the commands run, the first one first.
pub record Net (K : Type 0) : Type 0 where
  pub kernel : K
  pub files : Dict String
  pub trace : List Command

module _ {K : Type 0} (ip : Command → K → K × Exit) (write_fails : String → Bool) where
  abbrev pub logged : Command → Net K → K × Exit → Net K × Exit
  logged c n (k, e) = (record n { kernel = k; trace = n.trace ++ (c ∷ []) }, e)

  unfoldable pub exec : Command → Net K → Net K × Exit
  exec c n = logged c n (ip c n.kernel)

  -- A command whose result is only logged.
  unfoldable pub run : Command → Net K → Net K
  unfolding exec
  run c n = (exec c n).0

  abbrev pub continue : (Net K → Net K) → Net K × Exit → Net K
  continue next (n, success) = next n
  continue next (n, failure) = n
  continue next (n, not_run) = n

  -- A command, and what follows when it ends with success.
  unfoldable pub run_then : Command → (Net K → Net K) → Net K → Net K
  unfolding exec
  run_then c next n = continue next (exec c n)

  -- What follows unless the command could not be started.
  abbrev pub unless_error : (Net K → Net K) → Net K × Exit → Net K
  unless_error next (n, success) = next n
  unless_error next (n, failure) = next n
  unless_error next (n, not_run) = n

  unfoldable pub run_if_started : Command → (Net K → Net K) → Net K → Net K
  unfolding exec
  run_if_started c next n = unless_error next (exec c n)

  unfoldable pub write : String → String → Net K → Net K
  write path text n = if write_fails path then n else record n { files = put path text n.files }

  abbrev pub for_each : {A : Type 0} → (A → Net K → Net K) → List A → Net K → Net K
  for_each f [] n = n
  for_each f (x ∷ xs) n = for_each f xs (f x n)

  abbrev pub for_some : {A : Type 0} → (A → Net K → Net K) → Option A → Net K → Net K
  for_some f none n = n
  for_some f (some x) n = f x n

  abbrev pub when : Bool → (Net K → Net K) → Net K → Net K
  when true f n = f n
  when false f n = n

  abbrev pub link_up : String → Command
  link_up name = "link" ∷ "set" ∷ name ∷ "up" ∷ []

  unfoldable pub configure_loopback : Net K → Net K
  unfolding run_then run
  configure_loopback =
      run_then (link_up "lo") (run ("addr" ∷ "add" ∷ "127.0.0.1/8" ∷ "dev" ∷ "lo" ∷ []))

  abbrev pub set_ipv4 : String → StaticConfig → Net K → Net K
  unfolding run
  set_ipv4 name cfg n =
      for_some (λ gateway. run ("route" ∷ "add" ∷ "default" ∷ "via" ∷ gateway ∷ "dev" ∷ name ∷ []))
        cfg.gateway (run ("addr" ∷ "add" ∷ cfg.ipv4_address ∷ "dev" ∷ name ∷ []) n)

  abbrev pub set_ipv6 : String → StaticConfig → Net K → Net K
  unfolding run
  set_ipv6 name cfg n =
      for_some
        (λ gateway. run ("-6" ∷ "route" ∷ "add" ∷ "default" ∷ "via" ∷ gateway ∷ "dev" ∷ name ∷ []))
        cfg.ipv6_gateway
        (for_each (λ addr. run ("-6" ∷ "addr" ∷ "add" ∷ addr ∷ "dev" ∷ name ∷ []))
          cfg.ipv6_addresses n)

  abbrev pub enable_slaac : String → Net K → Net K
  unfolding write
  enable_slaac name n =
      write (format ("/proc/sys/net/ipv6/conf/" ∷ name ∷ "/autoconf" ∷ [])) "1"
        (write (format ("/proc/sys/net/ipv6/conf/" ∷ name ∷ "/accept_ra" ∷ [])) "1" n)

  unfoldable pub apply_static_ip_config : String → StaticConfig → Net K → Net K
  unfolding set_ipv4 set_ipv6 enable_slaac run show
  apply_static_ip_config name cfg n =
      when (not (cfg.mtu == 1500)) (run ("link" ∷ "set" ∷ name ∷ "mtu" ∷ show cfg.mtu ∷ [])) (
        when cfg.ipv6_auto (enable_slaac name)
          (set_ipv6 name cfg (when (not (is_empty cfg.ipv4_address)) (set_ipv4 name cfg) n)))

  abbrev pub vlan_ip : String → VlanIpConfig → Net K → Net K
  unfolding apply_static_ip_config
  vlan_ip name VlanIpConfig.dhcp n = n
  vlan_ip name (VlanIpConfig.static cfg) n = apply_static_ip_config name cfg n

  abbrev pub bond_ip : String → BondIpConfig → Net K → Net K
  unfolding apply_static_ip_config
  bond_ip name BondIpConfig.dhcp n = n
  bond_ip name (BondIpConfig.static cfg) n = apply_static_ip_config name cfg n

  abbrev pub enslave : String → String → Net K → Net K
  unfolding run run_then
  enslave name slave n =
      run_then ("link" ∷ "set" ∷ slave ∷ "master" ∷ name ∷ []) (run (link_up slave))
        (run ("link" ∷ "set" ∷ slave ∷ "down" ∷ []) n)

  abbrev pub add_vlan : String → VlanConfig → Command
  unfolding show
  add_vlan name v =
      "link"
      ∷ "add"
      ∷ "link"
      ∷ v.parent
      ∷ "name"
      ∷ name
      ∷ "type"
      ∷ "vlan"
      ∷ "id"
      ∷ show v.vlan_id
      ∷ []

  abbrev pub add_bond : String → BondConfig → Command
  unfolding as_str
  add_bond name b = "link" ∷ "add" ∷ name ∷ "type" ∷ "bond" ∷ "mode" ∷ as_str b.mode ∷ []

  unfoldable pub bond_slaves : String → BondConfig → Net K → Net K
  unfolding enslave bond_ip
  bond_slaves name b n = bond_ip name b.ip_config (for_each (enslave name) b.slaves n)

  unfoldable pub configure_type : String → InterfaceType → Net K → Net K
  unfolding apply_static_ip_config vlan_ip bond_slaves add_vlan add_bond run_then run_if_started
  configure_type name InterfaceType.dhcp = λ n. n
  configure_type name (InterfaceType.static cfg) = apply_static_ip_config name cfg
  configure_type name (InterfaceType.vlan v) =
      run_then (add_vlan name v) (run_if_started (link_up name) (vlan_ip name v.ip_config))
  configure_type name (InterfaceType.bond b) =
      run_then (add_bond name b) (run_if_started (link_up name) (bond_slaves name b))

  unfoldable pub configure_interface : InterfaceConfig → Net K → Net K
  unfolding configure_type run_then
  configure_interface i = run_then (link_up i.name) (configure_type i.name i.config)

  abbrev pub server_lines : List String → String
  server_lines [] = ""
  server_lines (ns ∷ rest) = format ("nameserver " ∷ ns ∷ "\n" ∷ server_lines rest ∷ [])

  abbrev pub search_line : List String → String
  unfolding join
  search_line [] = ""
  search_line (d ∷ ds) = format ("search " ∷ join " " (d ∷ ds) ∷ "\n" ∷ [])

  unfoldable pub configure_dns : DnsConfig → Net K → Net K
  unfolding write search_line
  configure_dns dns = write "/etc/resolv.conf" (
      format (
        "# Generated by keel-init\n"
        ∷ server_lines dns.nameservers
        ∷ search_line dns.search_domains
        ∷ []))

  abbrev pub metric_args : Option ℕ → List String
  unfolding show
  metric_args none = []
  metric_args (some metric) = "metric" ∷ show metric ∷ []

  abbrev pub route_command : RouteConfig → Command
  unfolding metric_args
  route_command r = "route" ∷ "add" ∷ r.destination ∷ "via" ∷ r.gateway ∷ metric_args r.metric

  unfoldable pub configure_route : RouteConfig → Net K → Net K
  unfolding route_command run
  configure_route r = run (route_command r)

  unfoldable pub apply_network_config : NetworkConfig → Net K → Net K
  unfolding configure_interface configure_dns configure_route
  apply_network_config c n =
      for_each configure_route c.routes
        (for_some configure_dns c.dns (for_each configure_interface c.interfaces n))

  unfoldable pub configure_dhcp_fallback : Net K → Net K
  unfolding run_then run
  configure_dhcp_fallback = run_then (link_up "eth0") (
      run_then ("addr" ∷ "add" ∷ "10.0.2.15/24" ∷ "dev" ∷ "eth0" ∷ [])
        (run ("route" ∷ "add" ∷ "default" ∷ "via" ∷ "10.0.2.2" ∷ "dev" ∷ "eth0" ∷ [])))

  -- A file that is written only if it is not there.
  unfoldable pub ensure : String → String → Net K → Net K
  unfolding write
  ensure path text n = if is_some (get path n.files) then n else write path text n

  abbrev pub loaded : Result NetworkConfig NetworkConfigError → Net K → Net K
  unfolding apply_network_config configure_dhcp_fallback
  loaded (ok c) = apply_network_config c
  loaded (err e) = configure_dhcp_fallback

  abbrev pub default_resolv : String
  default_resolv =
      "# Generated by keel-init (default fallback)\nnameserver 8.8.8.8\nnameserver 1.1.1.1\n"

  abbrev pub hosts_text : Option String → String
  hosts_text hostname = format (
      "# Generated by keel-init\n127.0.0.1\tlocalhost\n::1\t\tlocalhost\n127.0.1.1\t"
      ∷ unwrap_or hostname "keelos"
      ∷ "\n"
      ∷ [])

  -- The configuration is what `NetworkConfig::load` gives, and the hostname the kernel's, if it is
  -- a text.
  unfoldable pub setup_networking :
      Result NetworkConfig NetworkConfigError → Option String → Net K → Net K
  unfolding configure_loopback loaded ensure
  setup_networking config hostname n =
      ensure "/etc/hosts" (hosts_text hostname)
        (ensure "/etc/resolv.conf" default_resolv (loaded config (configure_loopback n)))
