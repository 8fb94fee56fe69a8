-- ===== src/Osctl/Commands.antt =====
-- cmd/osctl/src/main.rs: the requests that the commands `update`, `network config set`, `network dns
-- set` and `bootstrap` send, or the message with which the client ends.
use keelos.Prelude.{
  ℕ, if◌then◌else◌, is_some, unwrap_or, String, Bool, not, ◌&&◌, ◌||◌, true, Option, none, some,
  List, [], ◌∷◌, Result, ok, err, ◌>>=◌,
}
use keelos.Agent.Network.Convert.{ProtoConfig}
use keelos.Agent.Network.{ConfigureNetworkRequest}
use keelos.Agent.Executor.Install.{InstallUpdateRequest}
use keelos.Agent.Bootstrap.{BootstrapKubernetesRequest}

pub record Update : Type 0 where
  pub source : String
  pub sha256 : Option String
  pub delta : Bool
  pub fallback : Bool
  pub full_image_url : Option String

abbrev pub update_request : Update → InstallUpdateRequest
update_request c = record {
  source_url = c.source;
  expected_sha256 = unwrap_or c.sha256 "";
  is_delta = c.delta;
  fallback_to_full = c.fallback;
  full_image_url = unwrap_or c.full_image_url "";
}

pub record ConfigSet : Type 0 where
  pub interface : String
  pub dhcp : Bool
  pub ip : Option String
  pub gateway : Option String
  pub ipv6 : List String
  pub ipv6_gateway : Option String
  pub ipv6_auto : Bool
  pub mtu : Option ℕ
  pub auto_reboot : Bool

abbrev no_texts : List String → Bool
no_texts [] = true
no_texts (s ∷ rest) = not true

unfoldable pub iface_config : ConfigSet → Result ProtoConfig String
iface_config c =
    if c.dhcp
    then ok (ProtoConfig.dhcp true)
    else if is_some c.ip || not (no_texts c.ipv6) || c.ipv6_auto
    then ok (
        ProtoConfig.static (record {
          ipv4_address = unwrap_or c.ip "";
          gateway = unwrap_or c.gateway "";
          mtu = unwrap_or c.mtu 1500;
          ipv6_addresses = c.ipv6;
          ipv6_gateway = unwrap_or c.ipv6_gateway "";
          ipv6_auto = c.ipv6_auto;
        }))
    else err "Error: Either --dhcp, --ip, --ipv6, or --ipv6-auto must be specified"

-- The request names one interface, and nothing else of the configuration.
unfoldable pub config_set_request : ConfigSet → Result ConfigureNetworkRequest String
config_set_request c = do
  config ← iface_config c
  ok (record {
    interfaces = record { name = c.interface; config = some config } ∷ [];
    dns = none;
    routes = [];
    auto_reboot = c.auto_reboot;
  })

pub record DnsSet : Type 0 where
  pub nameserver : List String
  pub search : List String
  pub auto_reboot : Bool

unfoldable pub dns_set_request : DnsSet → ConfigureNetworkRequest
dns_set_request c = record {
  interfaces = [];
  dns = some (record { nameservers = c.nameserver; search_domains = c.search });
  routes = [];
  auto_reboot = c.auto_reboot;
}

pub record Bootstrap : Type 0 where
  pub api_server : String
  pub token : Option String
  pub ca_cert : Option String
  pub kubeconfig : Option String
  pub node_name : Option String

-- A file that is named is read: its path is followed by what reading gives.
abbrev read_if {ℓ} : {A : Type ℓ} → (String → Result A String) → A → Option String → Result A String
read_if read default none = ok default
read_if read default (some path) = read path

module _ (read_text : String → Result String String)
    (read_bytes : String → Result (List ℕ) String) where
  abbrev pub bootstrap_files : Bootstrap → Result BootstrapKubernetesRequest String
  bootstrap_files c = do
    ca_cert_pem ← read_if read_text "" c.ca_cert
    kubeconfig ← read_if read_bytes [] c.kubeconfig
    ok (record {
      api_server_endpoint = c.api_server;
      bootstrap_token = unwrap_or c.token "";
      ca_cert_pem = ca_cert_pem;
      kubeconfig = kubeconfig;
      node_name = unwrap_or c.node_name "";
    })

  unfoldable pub bootstrap_request : Bootstrap → Result BootstrapKubernetesRequest String
  bootstrap_request c =
      if not (is_some c.token) && not (is_some c.kubeconfig)
      then err "Error: Either --token or --kubeconfig must be provided"
      else if is_some c.token && not (is_some c.ca_cert)
      then err "Error: --ca-cert is required when using --token"
      else bootstrap_files c
