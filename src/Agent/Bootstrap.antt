-- ===== src/Agent/Bootstrap.antt =====
-- cmd/keel-agent/src/lib.rs: `bootstrap_kubernetes` and `get_bootstrap_status`, behind their
-- authorisation. The faults of the files, the hostname, the clock and the codecs are what a call is
-- given.
pub mod Laws
pub mod Errors
use keelos.Prelude.{
  ℕ, if◌then◌else◌, String, is_empty, format, Bool, true, false, not, ◌&&◌, Option, none, some,
  List, [], ◌∷◌, Result, ok, err, map_err,
}
use keelos.Agent.Status.{Code, Status, invalid_argument, internal}
use keelos.Config.Bootstrap
use keelos.Config.Bootstrap.{
  BootstrapError, BootstrapConfig, Codec, Files, Fault, describe, write, save, load,
  is_bootstrapped, generate_kubeconfig,
}

pub record BootstrapKubernetesRequest : Type 0 where
  pub api_server_endpoint : String
  pub bootstrap_token : String
  pub ca_cert_pem : String
  pub kubeconfig : List ℕ
  pub node_name : String

pub record BootstrapKubernetesResponse : Type 0 where
  pub success : Bool
  pub message : String
  pub kubeconfig_path : String

pub record GetBootstrapStatusResponse : Type 0 where
  pub is_bootstrapped : Bool
  pub api_server_endpoint : String
  pub node_name : String
  pub kubeconfig_path : String
  pub bootstrapped_at : String

pub record Env : Type 0 where
  pub codec : Codec
  pub encode : String → String
  pub from_utf8 : List ℕ → Result String String
  pub hostname : Result String String
  pub now : String
  pub dir_fault : Option String
  pub ca_fault : Fault
  pub kubeconfig_fault : Fault
  pub state_fault : Fault
  pub signal_fault : Fault

abbrev pub ca_cert_path : String
ca_cert_path = "/var/lib/keel/kubernetes/ca.crt"

abbrev pub kubeconfig_path : String
kubeconfig_path = "/var/lib/keel/kubernetes/kubelet.kubeconfig"

abbrev pub bootstrap_state_path : String
bootstrap_state_path = "/var/lib/keel/kubernetes/bootstrap.json"

abbrev pub restart_signal_path : String
restart_signal_path = "/run/keel/restart-kubelet"

abbrev pub Outcome : Type 0
Outcome = Files × Result BootstrapKubernetesResponse Status

abbrev pub failed : Code → String → String → Files → Outcome
failed code what e files = (files, err (record { code = code; message = format (what ∷ e ∷ []) }))

abbrev pub no_bytes : List ℕ → Bool
no_bytes [] = true
no_bytes (b ∷ bs) = false

-- What goes on behind a write.
abbrev pub and_then :
    {E : Type 0} → (E → String) → String → (Files → Outcome) → Files × Result (Unit {0}) E → Outcome
and_then text what next (files, ok tt) = next files
and_then text what next (files, err e) = failed internal what (text e) files

abbrev pub same : String → String
same e = e

abbrev pub signalled : String → Files → Outcome
signalled node files = (
  files,
  ok (record {
    success = true;
    message = format (
        "Bootstrap successful. Node '" ∷ node
        ∷ "' configured to join cluster. Kubelet will restart." ∷ []);
    kubeconfig_path = kubeconfig_path;
  }),
)

abbrev pub state_of : BootstrapKubernetesRequest → String → String → BootstrapConfig
state_of req node now = record {
  api_server = req.api_server_endpoint;
  node_name = node;
  kubeconfig_path = kubeconfig_path;
  ca_cert_path = ca_cert_path;
  bootstrapped_at = now;
}

unfoldable pub signal_restart : Env → String → Files → Outcome
signal_restart env node files =
    and_then same "Failed to create restart signal: " (signalled node)
      (write restart_signal_path "1" env.signal_fault files)

unfoldable pub save_state : BootstrapKubernetesRequest → Env → String → Files → Outcome
unfolding save describe signal_restart
save_state req env node files =
    and_then describe "Failed to save bootstrap state: " (signal_restart env node)
      (save env.codec (state_of req node env.now) bootstrap_state_path env.state_fault files)

write_kubeconfig : BootstrapKubernetesRequest → Env → String → String → Files → Outcome
unfolding save_state
write_kubeconfig req env node content files =
    and_then same "Failed to write kubeconfig: " (save_state req env node)
      (write kubeconfig_path content env.kubeconfig_fault files)

kubeconfig_given :
    BootstrapKubernetesRequest → Env → String → Result String String → Files → Outcome
unfolding write_kubeconfig
kubeconfig_given req env node (ok content) files = write_kubeconfig req env node content files
kubeconfig_given req env node (err e) files =
    failed invalid_argument "Invalid kubeconfig encoding: " e files

kubeconfig_made :
    BootstrapKubernetesRequest → Env → String → Result String BootstrapError → Files → Outcome
unfolding write_kubeconfig describe
kubeconfig_made req env node (ok content) files = write_kubeconfig req env node content files
kubeconfig_made req env node (err e) files =
    failed internal "Failed to generate kubeconfig: " (describe e) files

unfoldable pub make_kubeconfig : BootstrapKubernetesRequest → Env → String → Files → Outcome
unfolding kubeconfig_given kubeconfig_made generate_kubeconfig
make_kubeconfig req env node files =
    if not (no_bytes req.kubeconfig)
    then kubeconfig_given req env node (env.from_utf8 req.kubeconfig) files
    else kubeconfig_made req env node
        (generate_kubeconfig env.encode req.api_server_endpoint req.ca_cert_pem req.bootstrap_token)
        files

unfoldable pub write_ca : BootstrapKubernetesRequest → Env → String → Files → Outcome
unfolding make_kubeconfig
write_ca req env node files =
    if not (is_empty req.ca_cert_pem)
    then and_then same "Failed to write CA certificate: " (make_kubeconfig req env node)
        (write ca_cert_path req.ca_cert_pem env.ca_fault files)
    else make_kubeconfig req env node files

in_directory : BootstrapKubernetesRequest → Env → Option String → String → Files → Outcome
unfolding write_ca
in_directory req env none node files = write_ca req env node files
in_directory req env (some e) node files =
    failed internal "Failed to create directories: IO error: " e files

named : BootstrapKubernetesRequest → Env → Result String String → Files → Outcome
unfolding in_directory
named req env (ok node) files = in_directory req env env.dir_fault node files
named req env (err e) files = failed internal "Failed to get hostname: " e files

abbrev pub node_name_of : BootstrapKubernetesRequest → Env → Result String String
node_name_of req env = if not (is_empty req.node_name) then ok req.node_name else env.hostname

-- The validation of the inputs, before anything is done.
abbrev pub checked : BootstrapKubernetesRequest → Files → Outcome → Outcome
checked req files next =
    if is_empty req.api_server_endpoint
    then failed invalid_argument "api_server_endpoint is required" "" files
    else if is_empty req.bootstrap_token && no_bytes req.kubeconfig
    then failed invalid_argument "Either bootstrap_token or kubeconfig must be provided" "" files
    else if not (is_empty req.bootstrap_token) && is_empty req.ca_cert_pem
    then failed invalid_argument "ca_cert_pem is required when using bootstrap_token" "" files
    else next

unfoldable pub bootstrap_kubernetes : BootstrapKubernetesRequest → Env → Files → Outcome
unfolding named
bootstrap_kubernetes req env files = checked req files (named req env (node_name_of req env) files)

status_of : Result BootstrapConfig BootstrapError → Result GetBootstrapStatusResponse Status
unfolding describe
status_of (ok c) = ok (record {
  is_bootstrapped = true;
  api_server_endpoint = c.api_server;
  node_name = c.node_name;
  kubeconfig_path = c.kubeconfig_path;
  bootstrapped_at = c.bootstrapped_at;
})
status_of (err e) = err (record {
  code = internal;
  message = format ("Failed to load bootstrap configuration: " ∷ describe e ∷ []);
})

unfoldable pub get_bootstrap_status : Codec → Files → Result GetBootstrapStatusResponse Status
unfolding is_bootstrapped load status_of
get_bootstrap_status j files =
    if not (is_bootstrapped bootstrap_state_path files)
    then ok (record {
      is_bootstrapped = false;
      api_server_endpoint = "";
      node_name = "";
      kubeconfig_path = "";
      bootstrapped_at = "";
    })
    else status_of (load j (files bootstrap_state_path))
