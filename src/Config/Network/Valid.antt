-- ===== src/Config/Network/Valid.antt =====
-- What a valid network configuration is, said without the order in which `validate` looks.
use keelos.Prelude.{◌≤◌, ◌≡◌, ◌≢◌, ◌⊎◌, String, len, true, some, List, [], ◌∷◌, All}
use keelos.Config.Network.{
  StaticConfig, VlanIpConfig, BondIpConfig, InterfaceType, InterfaceConfig, DnsConfig, RouteConfig,
  NetworkConfig, Parsers,
}

-- No two interfaces have one name.
abbrev pub Distinct : List InterfaceConfig → Type 0
Distinct [] = Unit
Distinct (i ∷ is) = All (λ j. j.name ≢ i.name) is × Distinct is

module _ (p : Parsers) where
  open p use {ipv4_addr, ipv6_addr, ipv4_network, ipv6_network}

  pub record IsValidStatic (c : StaticConfig) : Type 0 where
    pub some_address : (c.ipv4_address ≢ "") ⊎ (c.ipv6_addresses ≢ []) ⊎ (c.ipv6_auto ≡ true)
    pub ipv4 : c.ipv4_address ≢ "" → ipv4_network c.ipv4_address ≡ true
    pub ipv4_gateway : c.ipv4_address ≢ "" → (g : String) → c.gateway ≡ some g → ipv4_addr g ≡ true
    pub ipv6 : All (λ a. ipv6_network a ≡ true) c.ipv6_addresses
    pub gateway6 : (g : String) → c.ipv6_gateway ≡ some g → ipv6_addr g ≡ true
    pub mtu_from : 68 ≤ c.mtu
    pub mtu_to : c.mtu ≤ 9000

  abbrev pub IsValidVlanIp : VlanIpConfig → Type 0
  IsValidVlanIp VlanIpConfig.dhcp = Unit
  IsValidVlanIp (VlanIpConfig.static c) = IsValidStatic c

  abbrev pub IsValidBondIp : BondIpConfig → Type 0
  IsValidBondIp BondIpConfig.dhcp = Unit
  IsValidBondIp (BondIpConfig.static c) = IsValidStatic c

  abbrev pub IsValidType : InterfaceType → Type 0
  IsValidType InterfaceType.dhcp = Unit
  IsValidType (InterfaceType.static c) = IsValidStatic c
  IsValidType (InterfaceType.vlan c) =
      (1 ≤ c.vlan_id) × (c.vlan_id ≤ 4094) × (c.parent ≢ "") × IsValidVlanIp c.ip_config
  IsValidType (InterfaceType.bond c) = (c.slaves ≢ []) × IsValidBondIp c.ip_config

  pub record IsValidInterface (i : InterfaceConfig) : Type 0 where
    pub named : i.name ≢ ""
    pub short : len i.name ≤ 15
    pub config_ok : IsValidType i.config

  pub record IsValidDns (d : DnsConfig) : Type 0 where
    pub some_server : d.nameservers ≢ []
    pub servers : All (λ s. (ipv4_addr s ≡ true) ⊎ (ipv6_addr s ≡ true)) d.nameservers

  pub record IsValidRoute (r : RouteConfig) : Type 0 where
    pub to : (ipv4_network r.destination ≡ true) ⊎ (ipv6_network r.destination ≡ true)
    pub via : (ipv4_addr r.gateway ≡ true) ⊎ (ipv6_addr r.gateway ≡ true)

  pub record IsValidConfig (c : NetworkConfig) : Type 0 where
    pub all_interfaces : All IsValidInterface c.interfaces
    pub dns_ok : (d : DnsConfig) → c.dns ≡ some d → IsValidDns d
    pub all_routes : All IsValidRoute c.routes
    pub names : Distinct c.interfaces
