-- ===== src/Agent/Network/Render.antt =====
-- cmd/keel-agent/src/network.rs: the configuration as the proto messages of `get_network_config`.
use keelos.Prelude.{unwrap_or, true, Option, none, some}
use keelos.Config.Network.{
  StaticConfig, VlanIpConfig, BondIpConfig, InterfaceType, InterfaceConfig, DnsConfig, RouteConfig,
  as_str,
}
use keelos.Agent.Network.Convert.{
  ProtoStatic, ProtoIp, ProtoConfig, NetworkInterface, ProtoDns, NetworkRoute,
}

unfoldable pub proto_static : StaticConfig → ProtoStatic
proto_static c = record {
  ipv4_address = c.ipv4_address;
  gateway = unwrap_or c.gateway "";
  mtu = c.mtu;
  ipv6_addresses = c.ipv6_addresses;
  ipv6_gateway = unwrap_or c.ipv6_gateway "";
  ipv6_auto = c.ipv6_auto;
}

unfoldable pub proto_vlan_ip : VlanIpConfig → Option ProtoIp
unfolding proto_static
proto_vlan_ip VlanIpConfig.dhcp = some (ProtoIp.dhcp true)
proto_vlan_ip (VlanIpConfig.static c) = some (ProtoIp.static (proto_static c))

unfoldable pub proto_bond_ip : BondIpConfig → Option ProtoIp
unfolding proto_static
proto_bond_ip BondIpConfig.dhcp = some (ProtoIp.dhcp true)
proto_bond_ip (BondIpConfig.static c) = some (ProtoIp.static (proto_static c))

unfoldable pub proto_type : InterfaceType → ProtoConfig
unfolding proto_static proto_vlan_ip proto_bond_ip
proto_type InterfaceType.dhcp = ProtoConfig.dhcp true
proto_type (InterfaceType.static c) = ProtoConfig.static (proto_static c)
proto_type (InterfaceType.vlan c) =
    ProtoConfig.vlan
      (record { parent = c.parent; vlan_id = c.vlan_id; ip_config = proto_vlan_ip c.ip_config })
proto_type (InterfaceType.bond c) =
    ProtoConfig.bond
      (record { mode = as_str c.mode; slaves = c.slaves; ip_config = proto_bond_ip c.ip_config })

unfoldable pub proto_interface : InterfaceConfig → NetworkInterface
unfolding proto_type
proto_interface i = record { name = i.name; config = some (proto_type i.config) }

unfoldable pub proto_dns : Option DnsConfig → Option ProtoDns
proto_dns none = none
proto_dns (some d) =
    some (record { nameservers = d.nameservers; search_domains = d.search_domains })

unfoldable pub proto_route : RouteConfig → NetworkRoute
proto_route r = record {
  destination = r.destination;
  gateway = r.gateway;
  metric = unwrap_or r.metric 0;
}
