-- ===== src/Agent/Examples/Bootstrap.antt =====
-- The theorems about the bootstrap at concrete requests.
use keelos.Prelude.{
  ◌≡◌, refl, arith, String, str_eq, true, none, [], ok, err, Bool, if◌then◌else◌, ◌&&◌, eq_iff,
  contains, split,
}
use keelos.Agent.Status.{Status, internal}
use keelos.Config.Bootstrap.{BootstrapConfig, Codec, Files}
use keelos.Agent.Bootstrap.{
  BootstrapKubernetesRequest, BootstrapKubernetesResponse, Env, bootstrap_kubernetes,
  get_bootstrap_status, kubeconfig_path, ca_cert_path,
}
use keelos.Agent.Bootstrap.Laws.{IsFaithful, bootstrap-status}

-- A text form for the states of one server and time, which differ in the node's name.
abbrev state : String → BootstrapConfig
state node = record {
  api_server = "https://k8s:6443";
  node_name = node;
  kubeconfig_path = kubeconfig_path;
  ca_cert_path = ca_cert_path;
  bootstrapped_at = "2026-01-01T00:00:00Z";
}

abbrev is_state : BootstrapConfig → Bool
is_state c =
    str_eq c.api_server "https://k8s:6443"
    && str_eq c.kubeconfig_path kubeconfig_path
    && str_eq c.ca_cert_path ca_cert_path
    && str_eq c.bootstrapped_at "2026-01-01T00:00:00Z"

abbrev codec : Codec
codec = record {
  to_string = λ c. if is_state c then ok c.node_name else err "unsupported";
  from_str = λ s. ok (state s);
}

codec-IsFaithful : IsFaithful codec
codec-IsFaithful c s h = ground (
  arith,
  eq_iff c.api_server "https://k8s:6443",
  eq_iff c.kubeconfig_path kubeconfig_path,
  eq_iff c.ca_cert_path ca_cert_path,
  eq_iff c.bootstrapped_at "2026-01-01T00:00:00Z",
)

abbrev env : Env
env = record {
  codec = codec;
  encode = λ s. "Q0E=";
  from_utf8 = λ b. err "invalid utf-8";
  hostname = ok "node-1";
  now = "2026-01-01T00:00:00Z";
  dir_fault = none;
  ca_fault = none;
  kubeconfig_fault = none;
  state_fault = none;
  signal_fault = none;
}

abbrev request : String → BootstrapKubernetesRequest
request token = record {
  api_server_endpoint = "https://k8s:6443";
  bootstrap_token = token;
  ca_cert_pem = "CA";
  kubeconfig = [];
  node_name = "";
}

abbrev no_files : Files
no_files path = none

abbrev response : BootstrapKubernetesResponse
response = record {
  success = true;
  message = "Bootstrap successful. Node 'node-1' configured to join cluster. Kubelet will restart.";
  kubeconfig_path = kubeconfig_path;
}

succeeded : (bootstrap_kubernetes (request "abc.def") env no_files).1 ≡ ok response
unfolding bootstrap_kubernetes contains split
succeeded = refl

bootstrap-status_example :
    get_bootstrap_status codec (bootstrap_kubernetes (request "abc.def") env no_files).0
    ≡ ok (record {
      is_bootstrapped = true;
      api_server_endpoint = (request "abc.def").api_server_endpoint;
      node_name = "node-1";
      kubeconfig_path = "/var/lib/keel/kubernetes/kubelet.kubeconfig";
      bootstrapped_at = "2026-01-01T00:00:00Z";
    })
bootstrap-status_example =
    bootstrap-status (request "abc.def") env "node-1" no_files response codec-IsFaithful refl
      succeeded

-- A token without a dot is found out after the CA certificate is written.
abbrev refusal : Status
refusal = record {
  code = internal;
  message =
      "Failed to generate kubeconfig: Invalid configuration: bootstrap_token must be in format <token-id>.<token-secret>";
}

refused : (bootstrap_kubernetes (request "abc") env no_files).1 ≡ err refusal
unfolding bootstrap_kubernetes contains split
refused = refl
