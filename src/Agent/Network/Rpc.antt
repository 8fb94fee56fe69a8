-- ===== src/Agent/Network/Rpc.antt =====
-- What `configure_network` leaves behind, and what `get_network_config` shows of it.
use keelos.Prelude.{
  ◌≡◌, ◌∙◌, ◌⊎◌, Option, none, some, List, [], ◌∷◌, inl, inr, arith, false, map, Result-cases, ok,
  err,
}
use keelos.Config.Network.{NetworkConfig, Parsers, mode_from_str}
use keelos.Config.Network.Valid.{IsValidConfig}
use keelos.Config.Network.Accepts.{validate_iff}
use keelos.Config.Network.Storage.{Codec, IsFaithful, Disk, save, load}
use keelos.Config.Network.Storage.Laws.{save-load}
use keelos.Agent.Status.{Status, invalid_argument, internal}
use keelos.Agent.Network.Convert.{NetworkInterface, ProtoConfig, type_of_proto, interfaces_of_proto}
use keelos.Agent.Network.Render.{proto_interface, proto_dns, proto_route}
use keelos.Agent.Network.RoundTrip.{normal_interface, interfaces-interfaces, dns-dns, routes-routes}
use keelos.Agent.Network.{
  ConfigureNetworkRequest, ConfigureNetworkResponse, GetNetworkConfigResponse, config_of_request,
  configure_network, get_network_config,
}

-- What a request asks for, as the agent reports it.
abbrev pub shown : ConfigureNetworkRequest → GetNetworkConfigResponse
shown req = record {
  interfaces = map normal_interface req.interfaces;
  dns = req.dns;
  routes = req.routes;
}

abbrev pub shown_config : NetworkConfig → GetNetworkConfigResponse
shown_config c = record {
  interfaces = map proto_interface c.interfaces;
  dns = proto_dns c.dns;
  routes = map proto_route c.routes;
}

config_of_request-shown :
    (req : ConfigureNetworkRequest) (c : NetworkConfig)
    → config_of_request req ≡ ok c
    → shown_config c ≡ shown req
unfolding config_of_request
config_of_request-shown req c h = elim (Result-cases (interfaces_of_proto req.interfaces)) [
  | inr (s, e) ↦ ground arith
  | inl (is, e) ↦
      ground (
        arith,
        interfaces-interfaces req.interfaces is e,
        dns-dns req.dns,
        routes-routes req.routes,
      )
]

type_of_proto-invalid :
    (c : Option ProtoConfig) (s : Status) → type_of_proto c ≡ err s → s.code ≡ invalid_argument
unfolding type_of_proto
type_of_proto-invalid none s h = ground arith
type_of_proto-invalid (some (ProtoConfig.dhcp e)) s h = absurd (ground arith)
type_of_proto-invalid (some (ProtoConfig.static c)) s h = absurd (ground arith)
type_of_proto-invalid (some (ProtoConfig.vlan c)) s h = absurd (ground arith)
type_of_proto-invalid (some (ProtoConfig.bond c)) s h = elim (Result-cases (mode_from_str c.mode)) [
  | inl (m, e) ↦ absurd (ground arith)
  | inr (x, e) ↦ ground arith
]

interfaces-invalid :
    (is : List NetworkInterface) (s : Status)
    → interfaces_of_proto is ≡ err s
    → s.code ≡ invalid_argument
unfolding interfaces_of_proto
interfaces-invalid [] s h = absurd (ground arith)
interfaces-invalid (i ∷ is) s h = elim (Result-cases (type_of_proto i.config)) [
  | inr (x, e) ↦ ground (arith, type_of_proto-invalid i.config x e)
  | inl (t, e) ↦ elim (Result-cases (interfaces_of_proto is)) [
    | inl (rest, f) ↦ absurd (ground arith)
    | inr (x, f) ↦ ground (arith, interfaces-invalid is x f)
  ]
]

config_of_request-invalid :
    (req : ConfigureNetworkRequest) (s : Status)
    → config_of_request req ≡ err s
    → s.code ≡ invalid_argument
unfolding config_of_request
config_of_request-invalid req s h = elim (Result-cases (interfaces_of_proto req.interfaces)) [
  | inl (is, e) ↦ absurd (ground arith)
  | inr (x, e) ↦ ground (arith, interfaces-invalid req.interfaces x e)
]

module _ (p : Parsers) (j : Codec) where
  -- A call that succeeds has converted, validated and saved.
  pub configured :
      (req : ConfigureNetworkRequest) (d : Disk) (c : NetworkConfig) (r : ConfigureNetworkResponse)
      → config_of_request req ≡ ok c
      → (configure_network p j req d).result ≡ ok r
      → save p j c d ≡ ((configure_network p j req d).disk, ok tt)
  unfolding configure_network
  configured req d c r e h = ground arith

  pub not_configured :
      (req : ConfigureNetworkRequest) (d : Disk) (s : Status) (r : ConfigureNetworkResponse)
      → config_of_request req ≡ err s
      → (configure_network p j req d).result ≡ ok r
      → ⊥
  unfolding configure_network
  not_configured req d s r e h = ground arith

  loaded :
      (d : Disk) (c : NetworkConfig) → load p j d ≡ ok c → get_network_config p j d ≡ shown_config c
  unfolding get_network_config
  loaded d c h = ground arith

  -- After a `configure_network` that returns `Ok`, `get_network_config` shows the interfaces, the
  -- DNS part and the routes of the request, with MTU 0 read as 1500, a missing address part as
  -- DHCP and every `enabled` as true; if `serde_json` reads back what it writes.
  pub configure-get :
      (req : ConfigureNetworkRequest) (d : Disk) (r : ConfigureNetworkResponse)
      → IsFaithful j
      → (configure_network p j req d).result ≡ ok r
      → get_network_config p j (configure_network p j req d).disk ≡ shown req
  configure-get req d r law h = elim (Result-cases (config_of_request req)) [
    | inr (s, e) ↦ absurd (not_configured req d s r e h)
    | inl (c, e) ↦
        loaded _ c (save-load p j c d _ law (configured req d c r e h))
        ∙ config_of_request-shown req c e
  ]

  -- A request that `configure_network` refuses is refused with `invalid_argument`, and the disk is as
  -- it was, or with `internal`, when the save failed; and no refused request starts a reboot.
  pub configure_refused :
      (req : ConfigureNetworkRequest) (d : Disk) (s : Status)
      → (configure_network p j req d).result ≡ err s
      → (((s.code ≡ invalid_argument) × ((configure_network p j req d).disk ≡ d))
          ⊎ (s.code ≡ internal))
        × ((configure_network p j req d).reboot ≡ false)
  unfolding configure_network
  configure_refused req d s h = elim (Result-cases (config_of_request req)) [
    | inl (c, e) ↦ (ground (arith, e), ground (arith, e))
    | inr (x, e) ↦ (ground (arith, e, config_of_request-invalid req x e), ground (arith, e))
  ]

  -- `configure_network` saves only valid configurations: when it returns `Ok`, the request converts
  -- to a valid configuration, and the reboot task is spawned exactly when the request asks for it.
  pub configure_ok :
      (req : ConfigureNetworkRequest) (d : Disk) (c : NetworkConfig) (r : ConfigureNetworkResponse)
      → config_of_request req ≡ ok c
      → (configure_network p j req d).result ≡ ok r
      → IsValidConfig p c × ((configure_network p j req d).reboot ≡ req.auto_reboot)
  unfolding configure_network
  configure_ok req d c r e h = ((validate_iff p c).0 (ground arith), ground arith)
