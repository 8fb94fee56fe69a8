-- ===== src/Config/Bootstrap.antt =====
-- pkg/config/src/bootstrap.rs: the state of the bootstrap into Kubernetes, and the kubeconfig text.
-- `serde_json` and the Base64 encoder are parameters.
use keelos.Prelude.{
  ◌==◌, if◌then◌else◌, String, is_empty, str_eq, format, contains, split, length, not, ◌||◌, Bool,
  Option, none, some, [], ◌∷◌, Result, ok, err, is_some, map_err,
}

pub data BootstrapError : Type 0 where
  io json invalid_config missing_field : String → BootstrapError

-- The texts of the `#[error]` attributes.
unfoldable pub describe : BootstrapError → String
describe (io e) = format ("IO error: " ∷ e ∷ [])
describe (json e) = format ("JSON error: " ∷ e ∷ [])
describe (invalid_config m) = format ("Invalid configuration: " ∷ m ∷ [])
describe (missing_field m) = format ("Missing required field: " ∷ m ∷ [])

pub record BootstrapConfig : Type 0 where
  pub api_server : String
  pub node_name : String
  pub kubeconfig_path : String
  pub ca_cert_path : String
  pub bootstrapped_at : String

pub record Codec : Type 0 where
  pub to_string : BootstrapConfig → Result String String
  pub from_str : String → Result BootstrapConfig String

-- The files by path, and a write: the fault says the error and what it leaves.
abbrev pub Files : Type 0
Files = String → Option String

abbrev pub Fault : Type 0
Fault = Option (String × Option String)

abbrev pub set : String → Option String → Files → Files
set path content files p = if str_eq path p then content else files p

abbrev pub write : String → String → Fault → Files → Files × Result (Unit {0}) String
write path text none files = (set path (some text) files, ok tt)
write path text (some (e, left)) files = (set path left files, err e)

abbrev pub io_result : Files × Result (Unit {0}) String → Files × Result (Unit {0}) BootstrapError
io_result (files, r) = (files, map_err io r)

abbrev pub save_text :
    Result String String → String → Fault → Files → Files × Result (Unit {0}) BootstrapError
save_text (ok text) path fault files = io_result (write path text fault files)
save_text (err e) path fault files = (files, err (json e))

unfoldable pub save :
    Codec → BootstrapConfig → String → Fault → Files → Files × Result (Unit {0}) BootstrapError
save j c path fault files = save_text (j.to_string c) path fault files

unfoldable pub load : Codec → Option String → Result BootstrapConfig BootstrapError
load j none = err (io "No such file or directory")
load j (some text) = map_err json (j.from_str text)

unfoldable pub is_bootstrapped : String → Files → Bool
is_bootstrapped path files = is_some (files path)

abbrev pub kubeconfig_text : String → String → String → String
kubeconfig_text ca_data api_server token = format (
    "apiVersion: v1\nkind: Config\nclusters:\n- cluster:\n    certificate-authority-data: "
    ∷ ca_data ∷ "\n    server: " ∷ api_server
    ∷ "\n  name: kubernetes\ncontexts:\n- context:\n    cluster: kubernetes\n    user: kubelet\n  name: kubelet@kubernetes\ncurrent-context: kubelet@kubernetes\nusers:\n- name: kubelet\n  user:\n    token: "
    ∷ token ∷ "\n" ∷ [])

unfoldable pub generate_kubeconfig :
    (String → String) → String → String → String → Result String BootstrapError
unfolding contains split
generate_kubeconfig encode api_server ca_cert_pem token =
    if is_empty api_server
    then err (missing_field "api_server")
    else if is_empty ca_cert_pem
    then err (missing_field "ca_cert_pem")
    else if is_empty token
    then err (missing_field "bootstrap_token")
    else if not (contains token ".") || not (length (split b'.' token) == 2)
    then err (invalid_config "bootstrap_token must be in format <token-id>.<token-secret>")
    else ok (kubeconfig_text (encode ca_cert_pem) api_server token)
