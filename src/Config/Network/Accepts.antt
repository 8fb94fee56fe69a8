-- ===== src/Config/Network/Accepts.antt =====
-- `NetworkConfig::validate` accepts exactly the valid configurations.
use keelos.Prelude.{
  ℕ, ◌≤◌, ◌≡◌, ◌≢◌, ◌↔◌, ◌⊎◌, refl, arith, ltb, String, len, is_empty, is_empty-false,
  ne-empty_of_false, or_iff, true, not, ◌||◌, List, [], ◌∷◌, All, ok,
}
use keelos.Config.Network.{
  invalid_ip_address, InterfaceConfig, InterfaceType, VlanIpConfig, BondIpConfig, DnsConfig,
  RouteConfig, NetworkConfig, Parsers, require, no_items, validate_vlan_ip, validate_bond_ip,
  validate_type, validate_vlan, validate_bond, validate_interface, validate_dns, validate_route,
  validate,
}
use keelos.Config.Network.Names.{unique_names_iff}
use keelos.Config.Network.Static.{static_iff}
use keelos.Config.Network.Checks.{
  require_iff, then_iff, for_each_iff, for_some_iff, All-iff, no_items-false, ne-nil_of_false,
}
use keelos.Config.Network.Valid.{
  IsValidType, IsValidVlanIp, IsValidBondIp, IsValidInterface, IsValidDns, IsValidRoute,
  IsValidConfig,
}

module _ (p : Parsers) where
  open p use {ipv4_addr, ipv6_addr, ipv4_network, ipv6_network}

  vlan_ip_iff : (c : VlanIpConfig) → (validate_vlan_ip p c ≡ ok tt) ↔ IsValidVlanIp p c
  unfolding validate_vlan_ip
  vlan_ip_iff VlanIpConfig.dhcp = ((λ _. tt), (λ _. refl))
  vlan_ip_iff (VlanIpConfig.static s) = static_iff p s

  bond_ip_iff : (c : BondIpConfig) → (validate_bond_ip p c ≡ ok tt) ↔ IsValidBondIp p c
  unfolding validate_bond_ip
  bond_ip_iff BondIpConfig.dhcp = ((λ _. tt), (λ _. refl))
  bond_ip_iff (BondIpConfig.static s) = static_iff p s

  vlan_id_iff : (n : ℕ) → (not (ltb n 1 || ltb 4094 n) ≡ true) ↔ ((1 ≤ n) × (n ≤ 4094))
  vlan_id_iff n = ((λ h. (ground arith, ground arith)), (λ h. ground arith))

  named_iff : (s : String) → (not (is_empty s) ≡ true) ↔ (s ≢ "")
  named_iff s =
      ((λ h. ne-empty_of_false s (ground arith)), (λ h. ground (arith, is_empty-false s h)))

  filled_iff : (xs : List String) → (not (no_items xs) ≡ true) ↔ (xs ≢ [])
  filled_iff xs =
      ((λ h. ne-nil_of_false xs (ground arith)), (λ h. ground (arith, no_items-false xs h)))

  name_iff : (s : String) → (not (is_empty s || ltb 15 (len s)) ≡ true) ↔ ((s ≢ "") × (len s ≤ 15))
  name_iff s = (
    (λ h. (ne-empty_of_false s (ground arith), ground arith)),
    (λ h. ground (arith, is_empty-false s h.0)),
  )

  type_iff : (t : InterfaceType) → (validate_type p t ≡ ok tt) ↔ IsValidType p t
  unfolding validate_type validate_vlan validate_bond
  type_iff InterfaceType.dhcp = ((λ _. tt), (λ _. refl))
  type_iff (InterfaceType.static c) = static_iff p c
  type_iff (InterfaceType.vlan c) = (
    (λ h.
        let (id, h₁) = (then_iff _ _).0 h in
        let (parent, ip) = (then_iff _ _).0 h₁ in
        let (lo, hi) = (vlan_id_iff c.vlan_id).0 ((require_iff _ _).0 id) in
        (
          lo,
          hi,
          (named_iff c.parent).0 ((require_iff _ _).0 parent),
          (vlan_ip_iff c.ip_config).0 ip,
        )),
    (λ v. (then_iff _ _).1 (
      (require_iff _ _).1 ((vlan_id_iff c.vlan_id).1 (v.0, v.1)),
      (then_iff _ _).1
          ((require_iff _ _).1 ((named_iff c.parent).1 v.2), (vlan_ip_iff c.ip_config).1 v.3),
    )),
  )
  type_iff (InterfaceType.bond c) = (
    (λ h.
        let (slaves, ip) = (then_iff _ _).0 h in
        ((filled_iff c.slaves).0 ((require_iff _ _).0 slaves), (bond_ip_iff c.ip_config).0 ip)),
    (λ v.
        (then_iff _ _).1
          ((require_iff _ _).1 ((filled_iff c.slaves).1 v.0), (bond_ip_iff c.ip_config).1 v.1)),
  )

  interface_iff : (i : InterfaceConfig) → (validate_interface p i ≡ ok tt) ↔ IsValidInterface p i
  unfolding validate_interface
  interface_iff i = (
    (λ h.
        let (name, config) = (then_iff _ _).0 h in
        let (named, short) = (name_iff i.name).0 ((require_iff _ _).0 name) in
        record { named = named; short = short; config_ok = (type_iff i.config).0 config }),
    (λ v. (then_iff _ _).1 (
      (require_iff _ _).1 ((name_iff i.name).1 (v.named, v.short)),
      (type_iff i.config).1 v.config_ok,
    )),
  )

  dns_iff : (d : DnsConfig) → (validate_dns p d ≡ ok tt) ↔ IsValidDns p d
  unfolding validate_dns
  dns_iff d = (
    (λ h.
        let (some_ns, each) = (then_iff _ _).0 h in
        record {
          some_server = (filled_iff d.nameservers).0 ((require_iff _ _).0 some_ns);
          servers =
              (All-iff (λ s. server_iff s) d.nameservers).0 ((for_each_iff _ d.nameservers).0 each);
        }),
    (λ v. (then_iff _ _).1 (
      (require_iff _ _).1 ((filled_iff d.nameservers).1 v.some_server),
      (for_each_iff _ d.nameservers).1 ((All-iff (λ s. server_iff s) d.nameservers).1 v.servers),
    )),
  )
    where
      server_iff :
          (s : String)
          → (require (ipv4_addr s || ipv6_addr s) (invalid_ip_address s) ≡ ok tt)
            ↔ ((ipv4_addr s ≡ true) ⊎ (ipv6_addr s ≡ true))
      server_iff s = (
        (λ h. (or_iff _ _).0 ((require_iff _ _).0 h)),
        (λ h. (require_iff _ _).1 ((or_iff _ _).1 h)),
      )

  route_iff : (r : RouteConfig) → (validate_route p r ≡ ok tt) ↔ IsValidRoute p r
  unfolding validate_route
  route_iff r = (
    (λ h.
        let (to, via) = (then_iff _ _).0 h in
        record {
          to = (or_iff _ _).0 ((require_iff _ _).0 to);
          via = (or_iff _ _).0 ((require_iff _ _).0 via);
        }),
    (λ v.
        (then_iff _ _).1
          ((require_iff _ _).1 ((or_iff _ _).1 v.to), (require_iff _ _).1 ((or_iff _ _).1 v.via))),
  )

  -- `validate` returns `Ok` exactly on the valid configurations: every interface has a name of 1 to
  -- 15 bytes and a valid address, VLAN (id 1 to 4094) or bond part, the servers, routes and MTUs
  -- are in order, and no two interfaces share a name.
  pub validate_iff : (c : NetworkConfig) → (validate p c ≡ ok tt) ↔ IsValidConfig p c
  unfolding validate
  validate_iff c = (
    (λ h.
        let (is, h₁) = (then_iff _ _).0 h in
        let (dns, h₂) = (then_iff _ _).0 h₁ in
        let (routes, names) = (then_iff _ _).0 h₂ in
        record {
          all_interfaces =
              (All-iff interface_iff c.interfaces).0 ((for_each_iff _ c.interfaces).0 is);
          dns_ok = λ d e. (dns_iff d).0 ((for_some_iff _ c.dns).0 dns d e);
          all_routes = (All-iff route_iff c.routes).0 ((for_each_iff _ c.routes).0 routes);
          names = ((unique_names_iff [] c.interfaces).0 names).1;
        }),
    (λ v. (then_iff _ _).1 (
      (for_each_iff _ c.interfaces).1 ((All-iff interface_iff c.interfaces).1 v.all_interfaces),
      (then_iff _ _).1 (
        (for_some_iff _ c.dns).1 (λ d e. (dns_iff d).1 (v.dns_ok d e)),
        (then_iff _ _).1 (
          (for_each_iff _ c.routes).1 ((All-iff route_iff c.routes).1 v.all_routes),
          (unique_names_iff [] c.interfaces).1 (none_seen c.interfaces, v.names),
        ),
      ),
    )),
  )
    where
      none_seen : (is : List InterfaceConfig) → All (λ i. All (λ s. i.name ≢ s) []) is
      none_seen [] = tt
      none_seen (i ∷ is) = (tt, none_seen is)
