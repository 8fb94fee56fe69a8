-- ===== src/Agent/Examples/Network.antt =====
-- The theorems about the network configuration at concrete configurations.
use keelos.Prelude.{
  ◌≡◌, ◌↔◌, refl, ap, arith, str_eq, String, Bool, true, false, Option, none, some, List, [], ◌∷◌,
  Result, ok, err,
}
use keelos.Config.Network.{
  VlanIpConfig, InterfaceType, InterfaceConfig, DnsConfig, RouteConfig, NetworkConfig, Parsers,
  validate,
}
use keelos.Config.Network.Valid.{IsValidConfig}
use keelos.Config.Network.Accepts.{validate_iff}
use keelos.Config.Network.Storage.{Codec, IsFaithful, Disk, save, load}
use keelos.Config.Network.Storage.Laws.{save-load}
use keelos.Agent.Status.{Status, invalid_argument}
use keelos.Agent.Network.Convert.{ProtoIp, ProtoConfig, NetworkInterface, interfaces_of_proto}
use keelos.Agent.Network.Rpc.{shown, configure-get}
use keelos.Agent.Network.{
  ConfigureNetworkRequest, ConfigureNetworkResponse, configure_network, get_network_config,
}

-- Parsers that know one IPv4 network and one IPv4 address.
abbrev parsers : Parsers
parsers = record {
  ipv4_addr = λ s. str_eq s "10.0.0.1";
  ipv6_addr = λ s. false;
  ipv4_network = λ s. str_eq s "10.0.0.2/24";
  ipv6_network = λ s. false;
}

abbrev config : String → NetworkConfig
config name = record {
  interfaces = record { name = name; config = InterfaceType.dhcp } ∷ [];
  dns = none;
  routes = [];
}

-- A text form for the configurations with one interface by DHCP.
abbrev text_of_type : String → InterfaceType → Result String String
text_of_type name InterfaceType.dhcp = ok name
text_of_type name _ = err "unsupported"

abbrev text_of : List InterfaceConfig → Option DnsConfig → List RouteConfig → Result String String
text_of (i ∷ []) none [] = text_of_type i.name i.config
text_of _ _ _ = err "unsupported"

abbrev codec : Codec
codec = record {
  to_string = λ c. text_of c.interfaces c.dns c.routes;
  from_str = λ s. ok (config s);
}

text_of_type-name :
    (name s : String) (t : InterfaceType)
    → text_of_type name t ≡ ok s
    → (t ≡ InterfaceType.dhcp) × (name ≡ s)
text_of_type-name name s InterfaceType.dhcp h = (refl, ground arith)
text_of_type-name name s (InterfaceType.static c) h = absurd (ground arith)
text_of_type-name name s (InterfaceType.vlan c) h = absurd (ground arith)
text_of_type-name name s (InterfaceType.bond c) h = absurd (ground arith)

text_of-config :
    (is : List InterfaceConfig) (d : Option DnsConfig) (rs : List RouteConfig) (s : String)
    → text_of is d rs ≡ ok s
    → config s ≡ record { interfaces = is; dns = d; routes = rs }
text_of-config (i ∷ []) none [] s h =
    let (t, n) = text_of_type-name i.name s i.config h in ground arith
text_of-config [] d rs s h = absurd (ground arith)
text_of-config (i ∷ j ∷ is) d rs s h = absurd (ground arith)
text_of-config (i ∷ []) (some d) rs s h = absurd (ground arith)
text_of-config (i ∷ []) none (r ∷ rs) s h = absurd (ground arith)

codec-IsFaithful : IsFaithful codec
codec-IsFaithful c s h = ap ok (text_of-config c.interfaces c.dns c.routes s h)

validate_iff_example :
    (validate parsers (config "eth0") ≡ ok tt) ↔ IsValidConfig parsers (config "eth0")
validate_iff_example = validate_iff parsers (config "eth0")

abbrev disk : Disk
disk = record { file = none; dir_fault = none; write_fault = none }

abbrev stored : Disk
stored = record disk { file = some "eth0" }

saved : save parsers codec (config "eth0") disk ≡ (stored, ok tt)
unfolding save validate
saved = refl

save-load_example : load parsers codec stored ≡ ok (config "eth0")
save-load_example = save-load parsers codec (config "eth0") disk stored codec-IsFaithful saved

loaded : load parsers codec stored ≡ ok (config "eth0")
unfolding load validate
loaded = refl

-- A VLAN with a static address and no MTU.
abbrev vlan : NetworkInterface
vlan = record {
  name = "vlan7";
  config = some (
      ProtoConfig.vlan (record {
        parent = "eth0";
        vlan_id = 7;
        ip_config = some (
            ProtoIp.static (record {
              ipv4_address = "10.0.0.2/24";
              gateway = "10.0.0.1";
              mtu = 0;
              ipv6_addresses = [];
              ipv6_gateway = "";
              ipv6_auto = false;
            }));
      }));
}

abbrev converted : List InterfaceConfig
converted =
    record {
      name = "vlan7";
      config = InterfaceType.vlan (record {
        parent = "eth0";
        vlan_id = 7;
        ip_config = VlanIpConfig.static (record {
          ipv4_address = "10.0.0.2/24";
          gateway = some "10.0.0.1";
          mtu = 1500;
          ipv6_addresses = [];
          ipv6_gateway = none;
          ipv6_auto = false;
        });
      });
    }
    ∷ []

conversion : interfaces_of_proto (vlan ∷ []) ≡ ok converted
unfolding interfaces_of_proto
conversion = refl

abbrev request : Bool → ConfigureNetworkRequest
request reboot = record {
  interfaces = record { name = "eth0"; config = some (ProtoConfig.dhcp true) } ∷ [];
  dns = none;
  routes = [];
  auto_reboot = reboot;
}

abbrev response : ConfigureNetworkResponse
response = record {
  success = true;
  message = "Network configuration saved. Changes will apply on next boot.";
  reboot_required = true;
}

configured : (configure_network parsers codec (request true) disk).result ≡ ok response
unfolding configure_network save validate
configured = refl

configure-get_example :
    get_network_config parsers codec (configure_network parsers codec (request true) disk).disk
    ≡ shown (request true)
configure-get_example =
    configure-get parsers codec (request true) disk response codec-IsFaithful configured

-- A request whose interface has no configuration.
abbrev bad_request : ConfigureNetworkRequest
bad_request = record (request true) { interfaces = record { name = "eth0"; config = none } ∷ [] }

abbrev refusal : Status
refusal = record { code = invalid_argument; message = "Interface config is required" }

refused : (configure_network parsers codec bad_request disk).result ≡ err refusal
unfolding configure_network
refused = refl
