-- ===== src/Agent/Network/Convert.antt =====
-- cmd/keel-agent/src/network.rs: the conversions between the proto messages and the configuration.
use keelos.Prelude.{
  ℕ, ◌==◌, if◌then◌else◌, String, is_empty, format, Bool, Option, none, some, List, [], ◌∷◌, Result,
  ok, err, ◌>>=◌, map_err,
}
use keelos.Config.Network.{
  NetworkConfigError, StaticConfig, VlanIpConfig, BondIpConfig, InterfaceType, InterfaceConfig,
  DnsConfig, RouteConfig, mode_from_str, describe,
}
use keelos.Agent.Status.{invalid_argument, Status}

pub record ProtoStatic : Type 0 where
  pub ipv4_address : String
  pub gateway : String
  pub mtu : ℕ  -- uint32
  pub ipv6_addresses : List String
  pub ipv6_gateway : String
  pub ipv6_auto : Bool

-- `DhcpConfig` has the one field `enabled`.
pub data ProtoIp : Type 0 where
  dhcp : Bool → ProtoIp
  static : ProtoStatic → ProtoIp

pub record ProtoVlan : Type 0 where
  pub parent : String
  pub vlan_id : ℕ
  pub ip_config : Option ProtoIp

pub record ProtoBond : Type 0 where
  pub mode : String
  pub slaves : List String
  pub ip_config : Option ProtoIp

pub data ProtoConfig : Type 0 where
  dhcp : Bool → ProtoConfig
  static : ProtoStatic → ProtoConfig
  vlan : ProtoVlan → ProtoConfig
  bond : ProtoBond → ProtoConfig

pub record NetworkInterface : Type 0 where
  pub name : String
  pub config : Option ProtoConfig

pub record ProtoDns : Type 0 where
  pub nameservers : List String
  pub search_domains : List String

pub record NetworkRoute : Type 0 where
  pub destination : String
  pub gateway : String
  pub metric : ℕ  -- uint32

abbrev pub opt_text : String → Option String
opt_text s = if is_empty s then none else some s

unfoldable pub static_of_proto : ProtoStatic → StaticConfig
static_of_proto s = record {
  ipv4_address = s.ipv4_address;
  gateway = opt_text s.gateway;
  mtu = if s.mtu == 0 then 1500 else s.mtu;
  ipv6_addresses = s.ipv6_addresses;
  ipv6_gateway = opt_text s.ipv6_gateway;
  ipv6_auto = s.ipv6_auto;
}

unfoldable pub vlan_ip_of_proto : Option ProtoIp → VlanIpConfig
unfolding static_of_proto
vlan_ip_of_proto (some (ProtoIp.dhcp e)) = VlanIpConfig.dhcp
vlan_ip_of_proto (some (ProtoIp.static s)) = VlanIpConfig.static (static_of_proto s)
vlan_ip_of_proto none = VlanIpConfig.dhcp

unfoldable pub bond_ip_of_proto : Option ProtoIp → BondIpConfig
unfolding static_of_proto
bond_ip_of_proto (some (ProtoIp.dhcp e)) = BondIpConfig.dhcp
bond_ip_of_proto (some (ProtoIp.static s)) = BondIpConfig.static (static_of_proto s)
bond_ip_of_proto none = BondIpConfig.dhcp

bad_mode : NetworkConfigError → Status
bad_mode e = record {
  code = invalid_argument;
  message = format ("Invalid bonding mode: " ∷ describe e ∷ []);
}

unfoldable pub type_of_proto : Option ProtoConfig → Result InterfaceType Status
unfolding static_of_proto vlan_ip_of_proto bond_ip_of_proto bad_mode
type_of_proto (some (ProtoConfig.dhcp e)) = ok InterfaceType.dhcp
type_of_proto (some (ProtoConfig.static s)) = ok (InterfaceType.static (static_of_proto s))
type_of_proto (some (ProtoConfig.vlan v)) = ok (
    InterfaceType.vlan
      (record { parent = v.parent; vlan_id = v.vlan_id; ip_config = vlan_ip_of_proto v.ip_config }))
type_of_proto (some (ProtoConfig.bond b)) = do
  mode ← map_err bad_mode (mode_from_str b.mode)
  ok (
      InterfaceType.bond
        (record { mode = mode; slaves = b.slaves; ip_config = bond_ip_of_proto b.ip_config }))
type_of_proto none =
    err (record { code = invalid_argument; message = "Interface config is required" })

-- The loop over the interfaces, in order.
unfoldable pub interfaces_of_proto : List NetworkInterface → Result (List InterfaceConfig) Status
unfolding type_of_proto
interfaces_of_proto [] = ok []
interfaces_of_proto (i ∷ is) = do
  config ← type_of_proto i.config
  rest ← interfaces_of_proto is
  ok (record { name = i.name; config = config } ∷ rest)

unfoldable pub route_of_proto : NetworkRoute → RouteConfig
route_of_proto r = record {
  destination = r.destination;
  gateway = r.gateway;
  metric = if r.metric == 0 then none else some r.metric;
}

unfoldable pub dns_of_proto : Option ProtoDns → Option DnsConfig
dns_of_proto none = none
dns_of_proto (some d) =
    some (record { nameservers = d.nameservers; search_domains = d.search_domains })
