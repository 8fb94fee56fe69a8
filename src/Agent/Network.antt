-- ===== src/Agent/Network.antt =====
-- cmd/keel-agent/src/network.rs: the network RPCs, and the messages of pkg/api/proto/node.proto
-- that they carry. A `oneof` is an `Option` of a data type, as the generated code has it.
pub mod Convert
pub mod Render
pub mod RoundTrip
pub mod Rpc
pub mod Interfaces
use keelos.Prelude.{
  ℕ, ◌==◌, if◌then◌else◌, String, is_empty, format, unwrap_or, Bool, true, false, Option, none,
  some, List, [], ◌∷◌, ◌++◌, map, Result, ok, err, ◌>>=◌,
}
use keelos.Config.Network.{NetworkConfigError, Parsers, NetworkConfig, Check, validate, describe}
use keelos.Config.Network.Storage.{Codec, Disk, load, save}
use keelos.Agent.Status.{Code, invalid_argument, internal, Status}
use Convert.{
  NetworkInterface, ProtoDns, NetworkRoute, interfaces_of_proto, dns_of_proto, route_of_proto,
}
use Render.{proto_interface, proto_dns, proto_route}

pub record ConfigureNetworkRequest : Type 0 where
  pub interfaces : List NetworkInterface
  pub dns : Option ProtoDns
  pub routes : List NetworkRoute
  pub auto_reboot : Bool

pub record ConfigureNetworkResponse : Type 0 where
  pub success : Bool
  pub message : String
  pub reboot_required : Bool

pub record GetNetworkConfigResponse : Type 0 where
  pub interfaces : List NetworkInterface
  pub dns : Option ProtoDns
  pub routes : List NetworkRoute

-- What a call does: the disk after it, whether it spawned the reboot task, and its result.
pub record Effect : Type 0 where
  pub disk : Disk
  pub reboot : Bool
  pub result : Result ConfigureNetworkResponse Status

abbrev pub invalid : String → Status
invalid m = record { code = invalid_argument; message = m }

abbrev pub failure : Status → Disk → Effect
failure s d = record { disk = d; reboot = false; result = err s }

-- The configuration that a request asks for.
unfoldable pub config_of_request : ConfigureNetworkRequest → Result NetworkConfig Status
unfolding interfaces_of_proto dns_of_proto route_of_proto
config_of_request req = do
  interfaces ← interfaces_of_proto req.interfaces
  ok (record {
    interfaces = interfaces;
    dns = dns_of_proto req.dns;
    routes = map route_of_proto req.routes;
  })

-- `match config.save()`.
saved : Bool → Disk × Check → Effect
saved auto_reboot (d, ok tt) = record {
  disk = d;
  reboot = auto_reboot;
  result = ok (record {
    success = true;
    message = "Network configuration saved. Changes will apply on next boot.";
    reboot_required = true;
  });
}
saved auto_reboot (d, err e) = record {
  disk = d;
  reboot = false;
  result = err (record {
    code = internal;
    message = format ("Failed to save configuration: " ∷ describe e ∷ []);
  });
}

module _ (p : Parsers) (j : Codec) where
  -- Validation, and then the save (which validates again).
  validated : Bool → NetworkConfig → Check → Disk → Effect
  unfolding saved
  validated auto_reboot c (ok tt) d = saved auto_reboot (save p j c d)
  validated auto_reboot c (err e) d =
      failure (invalid (format ("Invalid network configuration: " ∷ describe e ∷ []))) d

  converted : Bool → Result NetworkConfig Status → Disk → Effect
  unfolding validated
  converted auto_reboot (ok c) d = validated auto_reboot c (validate p c) d
  converted auto_reboot (err s) d = failure s d

  unfoldable pub configure_network : ConfigureNetworkRequest → Disk → Effect
  unfolding converted config_of_request
  configure_network req d = converted req.auto_reboot (config_of_request req) d

  config_response : Result NetworkConfig NetworkConfigError → GetNetworkConfigResponse
  config_response (ok c) = record {
    interfaces = map proto_interface c.interfaces;
    dns = proto_dns c.dns;
    routes = map proto_route c.routes;
  }
  config_response (err e) = record { interfaces = []; dns = none; routes = [] }

  unfoldable pub get_network_config : Disk → GetNetworkConfigResponse
  unfolding config_response
  get_network_config d = config_response (load p j d)
