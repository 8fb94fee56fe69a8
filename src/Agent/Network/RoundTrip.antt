-- ===== src/Agent/Network/RoundTrip.antt =====
-- A network request and the configuration that the agent reports after it.
use keelos.Prelude.{
  ◌==◌, ◌≡◌, inl, inr, refl, ap, arith, if◌then◌else◌, String, unwrap_or, eq_iff, true, Option,
  none, some, List, [], ◌∷◌, map, Result-cases, ok,
}
use keelos.Config.Network.{
  InterfaceType, BondingMode, InterfaceConfig, lacp, active_backup, balance_rr, as_str,
  mode_from_str,
}
use keelos.Agent.Network.Convert.{
  ProtoStatic, ProtoIp, ProtoBond, ProtoConfig, NetworkInterface, ProtoDns, NetworkRoute, opt_text,
  static_of_proto, vlan_ip_of_proto, bond_ip_of_proto, type_of_proto, interfaces_of_proto,
  dns_of_proto, route_of_proto,
}
use keelos.Agent.Network.Render.{
  proto_static, proto_vlan_ip, proto_bond_ip, proto_type, proto_interface, proto_dns, proto_route,
}

-- What a request means: an MTU of 0 is 1500, a missing address part is DHCP, and DHCP is enabled.
abbrev pub normal_static : ProtoStatic → ProtoStatic
normal_static s = record s { mtu = if s.mtu == 0 then 1500 else s.mtu }

abbrev pub normal_ip : Option ProtoIp → Option ProtoIp
normal_ip none = some (ProtoIp.dhcp true)
normal_ip (some (ProtoIp.dhcp e)) = some (ProtoIp.dhcp true)
normal_ip (some (ProtoIp.static s)) = some (ProtoIp.static (normal_static s))

abbrev pub normal_config : ProtoConfig → ProtoConfig
normal_config (ProtoConfig.dhcp e) = ProtoConfig.dhcp true
normal_config (ProtoConfig.static s) = ProtoConfig.static (normal_static s)
normal_config (ProtoConfig.vlan v) =
    ProtoConfig.vlan (record v { ip_config = normal_ip v.ip_config })
normal_config (ProtoConfig.bond b) =
    ProtoConfig.bond (record b { ip_config = normal_ip b.ip_config })

abbrev pub normal_some : Option ProtoConfig → Option ProtoConfig
normal_some none = none
normal_some (some c) = some (normal_config c)

abbrev pub normal_interface : NetworkInterface → NetworkInterface
normal_interface i = record i { config = normal_some i.config }

opt_text-unwrap : (s : String) → unwrap_or (opt_text s) "" ≡ s
opt_text-unwrap String.[] = refl
opt_text-unwrap (String.◌∷◌ c s) = refl

static-static : (s : ProtoStatic) → proto_static (static_of_proto s) ≡ normal_static s
unfolding proto_static static_of_proto
static-static s = ground (arith, opt_text-unwrap s.gateway, opt_text-unwrap s.ipv6_gateway)

vlan_ip-vlan_ip : (o : Option ProtoIp) → proto_vlan_ip (vlan_ip_of_proto o) ≡ normal_ip o
unfolding proto_vlan_ip vlan_ip_of_proto
vlan_ip-vlan_ip none = refl
vlan_ip-vlan_ip (some (ProtoIp.dhcp e)) = refl
vlan_ip-vlan_ip (some (ProtoIp.static s)) = ap (λ t. some (ProtoIp.static t)) (static-static s)

bond_ip-bond_ip : (o : Option ProtoIp) → proto_bond_ip (bond_ip_of_proto o) ≡ normal_ip o
unfolding proto_bond_ip bond_ip_of_proto
bond_ip-bond_ip none = refl
bond_ip-bond_ip (some (ProtoIp.dhcp e)) = refl
bond_ip-bond_ip (some (ProtoIp.static s)) = ap (λ t. some (ProtoIp.static t)) (static-static s)

-- A bonding mode that parses is printed as it was given.
as_str-mode_from_str : (s : String) (m : BondingMode) → mode_from_str s ≡ ok m → as_str m ≡ s
unfolding mode_from_str as_str
as_str-mode_from_str s m h =
    ground (arith, eq_iff s "802.3ad", eq_iff s "active-backup", eq_iff s "balance-rr")

mode_from_str-as_str : (m : BondingMode) → mode_from_str (as_str m) ≡ ok m
unfolding mode_from_str as_str
mode_from_str-as_str lacp = refl
mode_from_str-as_str active_backup = refl
mode_from_str-as_str balance_rr = refl

bond-bond :
    (b : ProtoBond) (t : InterfaceType)
    → type_of_proto (some (ProtoConfig.bond b)) ≡ ok t
    → some (proto_type t) ≡ normal_some (some (ProtoConfig.bond b))
unfolding type_of_proto proto_type
bond-bond b t h = elim (Result-cases (mode_from_str b.mode)) [
  | inl (m, e) ↦ ground (arith, as_str-mode_from_str b.mode m e, bond_ip-bond_ip b.ip_config)
  | inr (x, e) ↦ ground arith
]

type-type :
    (o : Option ProtoConfig) (t : InterfaceType)
    → type_of_proto o ≡ ok t
    → some (proto_type t) ≡ normal_some o
unfolding type_of_proto proto_type
type-type (some (ProtoConfig.dhcp e)) t h = ground arith
type-type (some (ProtoConfig.static s)) t h = ground (arith, static-static s)
type-type (some (ProtoConfig.vlan v)) t h = ground (arith, vlan_ip-vlan_ip v.ip_config)
type-type (some (ProtoConfig.bond b)) t h = bond-bond b t h
type-type none t h = cc

-- The interfaces that the conversion accepts are shown as they were asked for.
pub interfaces-interfaces :
    (is : List NetworkInterface) (cs : List InterfaceConfig)
    → interfaces_of_proto is ≡ ok cs
    → map proto_interface cs ≡ map normal_interface is
unfolding interfaces_of_proto proto_interface
interfaces-interfaces [] cs h = ground arith
interfaces-interfaces (i ∷ is) cs h = elim (Result-cases (type_of_proto i.config)) [
  | inr (s, e) ↦ ground arith
  | inl (t, e) ↦ elim (Result-cases (interfaces_of_proto is)) [
    | inr (s, f) ↦ ground arith
    | inl (rest, f) ↦ ground (arith, type-type i.config t e, interfaces-interfaces is rest f)
  ]
]

pub dns-dns : (d : Option ProtoDns) → proto_dns (dns_of_proto d) ≡ d
unfolding proto_dns dns_of_proto
dns-dns none = refl
dns-dns (some d) = refl

route-route : (r : NetworkRoute) → proto_route (route_of_proto r) ≡ r
unfolding proto_route route_of_proto
route-route r = ground arith

pub routes-routes : (rs : List NetworkRoute) → map proto_route (map route_of_proto rs) ≡ rs
routes-routes [] = refl
routes-routes (r ∷ rs) = cc (route-route r, routes-routes rs)
