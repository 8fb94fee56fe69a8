-- ===== src/Init/Networking/Trace.antt =====
-- The trace of the commands of `apply_network_config`: each function of it only adds to the trace.
use keelos.Prelude.{
  refl, arith, inl, String, Bool, true, false, Option, none, some, List, [], ◌∷◌, In,
  In-append_left, In-append_right,
}
use keelos.Config.Network.{
  StaticConfig, VlanIpConfig, BondIpConfig, BondConfig, InterfaceType, InterfaceConfig, DnsConfig,
  RouteConfig,
}
use keelos.Init.Networking.{
  Exit, success, failure, not_run, Command, Net, exec, run, continue, run_then, unless_error,
  run_if_started, write, for_each, for_some, when, link_up, set_ipv4, set_ipv6, enable_slaac,
  apply_static_ip_config, vlan_ip, bond_ip, enslave, add_vlan, add_bond, bond_slaves,
  configure_type, configure_interface, configure_dns, configure_route,
}

module _ {K : Type 0} (ip : Command → K → K × Exit) (write_fails : String → Bool) where
  -- What has been run stays in the trace.
  abbrev pub Grows : (Net K → Net K) → Type 0
  Grows f = (c : Command) (n : Net K) → In c n.trace → In c (f n).trace

  pub run-Grows : (a : Command) → Grows (run ip write_fails a)
  unfolding run exec
  run-Grows a c n m = In-append_left n.trace (a ∷ []) c m

  pub run-In : (a : Command) (n : Net K) → In a (run ip write_fails a n).trace
  unfolding run exec
  run-In a n = In-append_right n.trace (a ∷ []) a (inl refl)

  pub continue-Grows :
      (f : Net K → Net K) (c : Command) (x : Net K × Exit)
      → Grows f
      → In c x.0.trace
      → In c (continue ip write_fails f x).trace
  continue-Grows f c (n, success) g m = g c n m
  continue-Grows f c (n, failure) g m = m
  continue-Grows f c (n, not_run) g m = m

  pub run_then-Grows :
      (a : Command) (f : Net K → Net K) → Grows f → Grows (run_then ip write_fails a f)
  unfolding run_then exec
  run_then-Grows a f g c n m =
      continue-Grows f c (exec ip write_fails a n) g (In-append_left n.trace (a ∷ []) c m)

  pub run_then-In :
      (a : Command) (f : Net K → Net K) (n : Net K)
      → Grows f
      → In a (run_then ip write_fails a f n).trace
  unfolding run_then exec
  run_then-In a f n g =
      continue-Grows f a (exec ip write_fails a n) g (In-append_right n.trace (a ∷ []) a (inl refl))

  pub unless-Grows :
      (f : Net K → Net K) (c : Command) (x : Net K × Exit)
      → Grows f
      → In c x.0.trace
      → In c (unless_error ip write_fails f x).trace
  unless-Grows f c (n, success) g m = g c n m
  unless-Grows f c (n, failure) g m = g c n m
  unless-Grows f c (n, not_run) g m = m

  pub run_if_started-Grows :
      (a : Command) (f : Net K → Net K) → Grows f → Grows (run_if_started ip write_fails a f)
  unfolding run_if_started exec
  run_if_started-Grows a f g c n m =
      unless-Grows f c (exec ip write_fails a n) g (In-append_left n.trace (a ∷ []) c m)

  pub write-Grows : (path text : String) → Grows (write ip write_fails path text)
  unfolding write
  write-Grows path text c n m = ground arith

  pub for_each-Grows :
      {A : Type 0} (f : A → Net K → Net K) (xs : List A)
      → ((x : A) → Grows (f x))
      → Grows (for_each ip write_fails f xs)
  for_each-Grows f [] g c n m = m
  for_each-Grows f (x ∷ xs) g c n m = for_each-Grows f xs g c (f x n) (g x c n m)

  pub for_some-Grows :
      {A : Type 0} (f : A → Net K → Net K) (o : Option A)
      → ((x : A) → Grows (f x))
      → Grows (for_some ip write_fails f o)
  for_some-Grows f none g c n m = m
  for_some-Grows f (some x) g c n m = g x c n m

  pub when-Grows : (b : Bool) (f : Net K → Net K) → Grows f → Grows (when ip write_fails b f)
  when-Grows true f g c n m = g c n m
  when-Grows false f g c n m = m

  pub ipv4-Grows : (name : String) (cfg : StaticConfig) → Grows (set_ipv4 ip write_fails name cfg)
  unfolding set_ipv4
  ipv4-Grows name cfg c n m =
      for_some-Grows _ cfg.gateway (λ g. run-Grows _) c _ (run-Grows _ c n m)

  pub ipv6-Grows : (name : String) (cfg : StaticConfig) → Grows (set_ipv6 ip write_fails name cfg)
  unfolding set_ipv6
  ipv6-Grows name cfg c n m =
      for_some-Grows _ cfg.ipv6_gateway (λ g. run-Grows _) c _
        (for_each-Grows _ cfg.ipv6_addresses (λ a. run-Grows _) c n m)

  pub slaac-Grows : (name : String) → Grows (enable_slaac ip write_fails name)
  unfolding enable_slaac
  slaac-Grows name c n m = write-Grows _ _ c _ (write-Grows _ _ c n m)

  pub static-Grows :
      (name : String) (cfg : StaticConfig) → Grows (apply_static_ip_config ip write_fails name cfg)
  unfolding apply_static_ip_config
  static-Grows name cfg c n m = when-Grows _ _ (run-Grows _) c _ (
      when-Grows cfg.ipv6_auto _ (slaac-Grows name) c _
        (ipv6-Grows name cfg c _ (when-Grows _ _ (ipv4-Grows name cfg) c n m)))

  pub vlan_ip-Grows : (name : String) (v : VlanIpConfig) → Grows (vlan_ip ip write_fails name v)
  unfolding vlan_ip
  vlan_ip-Grows name VlanIpConfig.dhcp c n m = m
  vlan_ip-Grows name (VlanIpConfig.static cfg) c n m = static-Grows name cfg c n m

  pub bond_ip-Grows : (name : String) (b : BondIpConfig) → Grows (bond_ip ip write_fails name b)
  unfolding bond_ip
  bond_ip-Grows name BondIpConfig.dhcp c n m = m
  bond_ip-Grows name (BondIpConfig.static cfg) c n m = static-Grows name cfg c n m

  pub enslave-Grows : (name slave : String) → Grows (enslave ip write_fails name slave)
  unfolding enslave
  enslave-Grows name slave c n m =
      let up = link_up ip write_fails slave in
      let down = "link" ∷ "set" ∷ slave ∷ "down" ∷ [] in
      let master = "link" ∷ "set" ∷ slave ∷ "master" ∷ name ∷ [] in
      run_then-Grows master (run ip write_fails up) (run-Grows up) c (run ip write_fails down n)
        (run-Grows down c n m)

  pub bond_slaves-Grows :
      (name : String) (b : BondConfig) → Grows (bond_slaves ip write_fails name b)
  unfolding bond_slaves
  bond_slaves-Grows name b c n m =
      bond_ip-Grows name b.ip_config c
        (for_each ip write_fails (enslave ip write_fails name) b.slaves n)
        (for_each-Grows (enslave ip write_fails name) b.slaves (enslave-Grows name) c n m)

  pub type-Grows :
      (name : String) (t : InterfaceType) → Grows (configure_type ip write_fails name t)
  unfolding configure_type
  type-Grows name InterfaceType.dhcp = λ c n m. m
  type-Grows name (InterfaceType.static cfg) = static-Grows name cfg
  type-Grows name (InterfaceType.vlan v) =
      let f = vlan_ip ip write_fails name v.ip_config in
      let up = link_up ip write_fails name in
      run_then-Grows (add_vlan ip write_fails name v) (run_if_started ip write_fails up f)
        (run_if_started-Grows up f (vlan_ip-Grows name v.ip_config))
  type-Grows name (InterfaceType.bond b) =
      let f = bond_slaves ip write_fails name b in
      let up = link_up ip write_fails name in
      run_then-Grows (add_bond ip write_fails name b) (run_if_started ip write_fails up f)
        (run_if_started-Grows up f (bond_slaves-Grows name b))

  pub interface-Grows : (i : InterfaceConfig) → Grows (configure_interface ip write_fails i)
  unfolding configure_interface
  interface-Grows i =
      run_then-Grows (link_up ip write_fails i.name) (configure_type ip write_fails i.name i.config)
        (type-Grows i.name i.config)

  pub dns-Grows : (d : DnsConfig) → Grows (configure_dns ip write_fails d)
  unfolding configure_dns
  dns-Grows d = write-Grows _ _

  pub route-Grows : (r : RouteConfig) → Grows (configure_route ip write_fails r)
  unfolding configure_route
  route-Grows r = run-Grows _
