-- ===== src/Osctl/Examples.antt =====
-- The theorems about the client at concrete inputs.
use keelos.Prelude.{
  ◌≡◌, refl, ap, ℕ, ◌+◌, arith, str_eq, String, true, false, Option, none, some, List, [], ◌∷◌,
  Result, ok, err, split,
}
use keelos.Config.Network.{
  InterfaceConfig, DnsConfig, RouteConfig, NetworkConfig, Parsers, validate,
}
use keelos.Config.Network.Storage.{Codec, IsFaithful, Disk, save, load}
use keelos.Agent.Network.{ConfigureNetworkResponse, configure_network, get_network_config}
use keelos.Init.Networking.{Command, Exit, Net, success, configure_loopback, setup_networking}
use keelos.Osctl.Commands.{DnsSet, dns_set_request}
use keelos.Osctl.Network.{dns_set-isolates}
use keelos.Agent.Certificates.Store.{write_file}
use keelos.Osctl.CertStore
use keelos.Osctl.CertStore.{
  save_certs, load_certs, extract_node_from_endpoint, identity_for, trim_matches, underscored,
}
use keelos.Osctl.CertStore.Laws.{no_faults, ipv6_endpoint, ipv6_nodes_share}

abbrev empty : CertStore.Disk
empty = record { files = []; dirs = []; modes = [] }

abbrev base_dir : String
base_dir = "/home/op/.keel/certs"

abbrev node_id : String
node_id = extract_node_from_endpoint (ipv6_endpoint "fe80" ":1]:50051")

no_operational :
    load_certs base_dir node_id "operational"
      (save_certs base_dir no_faults node_id "bootstrap" "cert" "key" none empty).0
    ≡ err "No certificates found for node [fe80 tier operational"
unfolding load_certs save_certs extract_node_from_endpoint trim_matches underscored split write_file
no_operational = refl

ipv6_nodes_share_example :
    identity_for base_dir
      (ipv6_endpoint "fe80" ":2]:50051")
      (save_certs base_dir no_faults node_id "bootstrap" "cert" "key" none empty).0
    ≡ some ("bootstrap", "cert", "key")
ipv6_nodes_share_example =
    ipv6_nodes_share base_dir "fe80" ":1]:50051" ":2]:50051" "cert" "key"
      "No certificates found for node [fe80 tier operational" empty no_operational

-- Parsers that know one address, and a text form for the configurations with one name server alone.
abbrev parsers : Parsers
parsers = record {
  ipv4_addr = λ s. str_eq s "10.0.0.1";
  ipv6_addr = λ s. false;
  ipv4_network = λ s. false;
  ipv6_network = λ s. false;
}

abbrev config : String → NetworkConfig
config server = record {
  interfaces = [];
  dns = some (record { nameservers = server ∷ []; search_domains = [] });
  routes = [];
}

abbrev text_of_dns : List String → List String → Result String String
text_of_dns (server ∷ []) [] = ok server
text_of_dns _ _ = err "unsupported"

abbrev text_of : List InterfaceConfig → Option DnsConfig → List RouteConfig → Result String String
text_of [] (some d) [] = text_of_dns d.nameservers d.search_domains
text_of _ _ _ = err "unsupported"

abbrev codec : Codec
codec = record {
  to_string = λ c. text_of c.interfaces c.dns c.routes;
  from_str = λ s. ok (config s);
}

dns-config :
    (servers domains : List String) (s : String)
    → text_of_dns servers domains ≡ ok s
    → config s ≡ record {
      interfaces = [];
      dns = some (record { nameservers = servers; search_domains = domains });
      routes = [];
    }
dns-config [] domains s h = absurd (ground (arith, h))
dns-config (server ∷ []) [] s h = ground (arith, h)
dns-config (server ∷ []) (d ∷ domains) s h = absurd (ground (arith, h))
dns-config (server ∷ other ∷ servers) domains s h = absurd (ground (arith, h))

text_of-config :
    (is : List InterfaceConfig) (dns : Option DnsConfig) (rs : List RouteConfig) (s : String)
    → text_of is dns rs ≡ ok s
    → config s ≡ record { interfaces = is; dns = dns; routes = rs }
text_of-config (i ∷ is) dns rs s h = absurd (ground (arith, h))
text_of-config [] none rs s h = absurd (ground (arith, h))
text_of-config [] (some d) (r ∷ rs) s h = absurd (ground (arith, h))
text_of-config [] (some d) [] s h = dns-config d.nameservers d.search_domains s h

codec-IsFaithful : IsFaithful codec
codec-IsFaithful c s h = ap ok (text_of-config c.interfaces c.dns c.routes s h)

abbrev disk : Disk
disk = record { file = some "10.9.9.9"; dir_fault = none; write_fault = none }

abbrev command : DnsSet
command = record { nameserver = "10.0.0.1" ∷ []; search = []; auto_reboot = false }

abbrev response : ConfigureNetworkResponse
response = record {
  success = true;
  message = "Network configuration saved. Changes will apply on next boot.";
  reboot_required = true;
}

configured : (configure_network parsers codec (dns_set_request command) disk).result ≡ ok response
unfolding configure_network save validate dns_set_request
configured = refl

-- A kernel that counts the commands.
abbrev ip : Command → ℕ → ℕ × Exit
ip c n = (n + 1, success)

abbrev net : Net ℕ
net = record { kernel = 0; files = []; trace = [] }

dns_set-isolates_example :
    let after = (configure_network parsers codec (dns_set_request command) disk).disk in
    ((get_network_config parsers codec after).interfaces ≡ [])
    × ((get_network_config parsers codec after).routes ≡ [])
    × ((setup_networking ip (λ path. false) (load parsers codec after) none net).trace
        ≡ (configure_loopback ip (λ path. false) net).trace)
dns_set-isolates_example =
    dns_set-isolates ip (λ path. false) parsers codec command disk response none net
      codec-IsFaithful configured
