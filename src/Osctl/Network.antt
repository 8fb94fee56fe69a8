-- ===== src/Osctl/Network.antt =====
-- What becomes of `osctl network dns set` in the agent and at the next boot.
use keelos.Prelude.{◌≡◌, refl, ap, ◌∙◌, String, Bool, Option, some, [], ok, arith}
use keelos.Config.Network.{NetworkConfig, Parsers}
use keelos.Config.Network.Storage.{Codec, IsFaithful, Disk, load}
use keelos.Config.Network.Storage.Laws.{save-load}
use keelos.Agent.Network.{
  ConfigureNetworkResponse, GetNetworkConfigResponse, configure_network, get_network_config,
  config_of_request,
}
use keelos.Agent.Network.Rpc.{configured, configure-get}
use keelos.Init.Networking.{
  Command, Exit, Net, write, ensure, configure_loopback, configure_dns, apply_network_config,
  setup_networking, hosts_text, default_resolv,
}
use keelos.Osctl.Commands.{DnsSet, dns_set_request}

abbrev dns_config : DnsSet → NetworkConfig
dns_config c = record {
  interfaces = [];
  dns = some (record { nameservers = c.nameserver; search_domains = c.search });
  routes = [];
}

dns_set-config : (c : DnsSet) → config_of_request (dns_set_request c) ≡ ok (dns_config c)
unfolding config_of_request dns_set_request
dns_set-config c = refl

module _ {K : Type 0} (ip : Command → K → K × Exit) (write_fails : String → Bool) where
  write-trace :
      (path text : String) (n : Net K) → (write ip write_fails path text n).trace ≡ n.trace
  unfolding write
  write-trace path text n = ground arith

  ensure-trace :
      (path text : String) (n : Net K) → (ensure ip write_fails path text n).trace ≡ n.trace
  unfolding ensure
  ensure-trace path text n = ground (arith, write-trace path text n)

  setup-trace :
      (c : DnsSet) (hostname : Option String) (n : Net K)
      → (setup_networking ip write_fails (ok (dns_config c)) hostname n).trace
        ≡ (configure_loopback ip write_fails n).trace
  unfolding setup_networking apply_network_config configure_dns
  setup-trace c hostname n =
      let start = configure_loopback ip write_fails n in
      let dns =
        configure_dns ip write_fails
          (record { nameservers = c.nameserver; search_domains = c.search }) start in
      let resolv = ensure ip write_fails "/etc/resolv.conf" (default_resolv ip write_fails) dns in
      ensure-trace "/etc/hosts" (hosts_text ip write_fails hostname) resolv
      ∙ ensure-trace "/etc/resolv.conf" (default_resolv ip write_fails) dns
      ∙ write-trace "/etc/resolv.conf" _ start

  -- After `osctl network dns set`, where the agent answers that it has saved the configuration, the
  -- interfaces and routes that the node had are gone, whatever they were: the agent shows none, and
  -- the next boot runs the commands for the loopback interface and no others; if `serde_json`
  -- reads back what it writes.
  pub dns_set-isolates :
      (p : Parsers) (j : Codec) (c : DnsSet) (d : Disk) (r : ConfigureNetworkResponse)
      (hostname : Option String) (n : Net K)
      → IsFaithful j
      → (configure_network p j (dns_set_request c) d).result ≡ ok r
      → let after = (configure_network p j (dns_set_request c) d).disk in
        ((get_network_config p j after).interfaces ≡ [])
        × ((get_network_config p j after).routes ≡ [])
        × ((setup_networking ip write_fails (load p j after) hostname n).trace
            ≡ (configure_loopback ip write_fails n).trace)
  unfolding dns_set_request
  dns_set-isolates p j c d r hostname n law h =
      let after = (configure_network p j (dns_set_request c) d).disk in
      let shows = configure-get p j (dns_set_request c) d r law h in
      let stored =
        save-load p j (dns_config c) d after law
          (configured p j (dns_set_request c) d (dns_config c) r (dns_set-config c) h) in
      (
        ap (λ (g : GetNetworkConfigResponse). g.interfaces) shows,
        ap (λ (g : GetNetworkConfigResponse). g.routes) shows,
        ap (λ config. (setup_networking ip write_fails config hostname n).trace) stored
            ∙ setup-trace c hostname n,
      )
