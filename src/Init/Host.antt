-- ===== src/Init/Host.antt =====
-- cmd/keel-init/src/main.rs: the hostname, and the command line of kubelet. The files and what the
-- kernel gives are what a call finds; texts are of ASCII, so that a byte is a character.
pub mod Laws
use keelos.Prelude.{
  ℕ, zero, suc, if◌then◌else◌, String, str_eq, is_empty, format, trim, split_whitespace,
  strip_prefix, contains, Bool, true, false, not, ◌&&◌, Option, none, some, List, [], ◌∷◌, ◌++◌,
  Result, ok, err, unwrap_or, take_prefix,
}

-- The files that are read, whether `sethostname` takes a name, and 16 bytes of /dev/urandom in
-- hexadecimal digits.
pub record Node : Type 0 where
  pub etc_hostname : Option String
  pub cmdline : Option String
  pub machine_id : Option String
  pub random_hex : Option String
  pub accepts : String → Bool

abbrev pub non_empty : Option String → Option String
non_empty none = none
non_empty (some s) = if is_empty (trim s) then none else some (trim s)

unfoldable pub uuid_like_id : Node → String
unfolding trim
uuid_like_id n = elim (non_empty n.machine_id) [
  | some id ↦ id
  | none ↦ unwrap_or n.random_hex "00000000"
]

-- `&id[..8]`: `none` is the panic on a text that is shorter.
unfoldable pub short_id : Node → Option String
unfolding uuid_like_id take_prefix
short_id n = take_prefix 8 (uuid_like_id n)

-- The parameters of the kernel's command line, in their order, until a name is taken.
abbrev pub from_params : (String → Bool) → List String → Option String
from_params accepts [] = none
from_params accepts (p ∷ rest) =
    let later = from_params accepts rest in
    elim (non_empty (strip_prefix p "hostname=")) [
      | some name ↦ if accepts name then some name else later
      | none ↦ later
    ]

abbrev pub from_cmdline : Node → Option String
from_cmdline n = elim n.cmdline [
  | some text ↦ from_params n.accepts (split_whitespace text)
  | none ↦ none
]

abbrev pub from_etc : Node → Option String
from_etc n = elim (non_empty n.etc_hostname) [
  | some name ↦ if n.accepts name then some name else none
  | none ↦ none
]

-- What ends a call: the name that is set, if one is, or a panic.
pub data Outcome : Type 0 where
  set : String → Outcome
  unset panics : Outcome

abbrev pub generated : Node → Option String → Outcome
generated n none = panics
generated n (some id) =
    let name = format ("keelos-" ∷ id ∷ []) in if n.accepts name then set name else unset

abbrev pub or_generated : Node → Option String → Outcome
unfolding short_id
or_generated n (some name) = set name
or_generated n none = generated n (short_id n)

abbrev pub or_cmdline : Node → Option String → Outcome
unfolding trim split_whitespace
or_cmdline n (some name) = set name
or_cmdline n none = or_generated n (from_cmdline n)

unfoldable pub setup_hostname : Node → Outcome
unfolding or_cmdline or_generated trim
setup_hostname n = or_cmdline n (from_etc n)

-- What `spawn_kubelet` finds: the node name of the bootstrap state, if that can be loaded, the
-- hostname of the kernel, and which files exist.
pub record Kubelet : Type 0 where
  pub node : Node
  pub bootstrap_node_name : Option String
  pub hostname : Option String
  pub override_exists : Bool
  pub bootstrap_exists : Bool
  pub permanent_exists : Bool

abbrev pub kubelet_path : Kubelet → String
kubelet_path k = if k.override_exists then "/var/lib/keel/bin/kubelet" else "/usr/bin/kubelet"

abbrev pub host_of : Kubelet → String
host_of k = elim k.bootstrap_node_name [ some name ↦ name | none ↦ unwrap_or k.hostname "" ]

abbrev pub named : String → Option String
named name = some (format ("--hostname-override=" ∷ name ∷ []))

abbrev pub fallback : Option String → Option String
fallback none = none
fallback (some id) = named (format ("keelos-node-" ∷ id ∷ []))

-- `none` is the panic of the slice.
unfoldable pub hostname_arg : Kubelet → Option String
unfolding short_id
hostname_arg k =
    if not (is_empty (host_of k))
      && (not (str_eq (host_of k) "(none)") && not (str_eq (host_of k) "localhost"))
    then named (host_of k)
    else fallback (short_id k.node)

abbrev pub bootstrap_arg : String
bootstrap_arg = "--bootstrap-kubeconfig=/var/lib/keel/kubernetes/kubelet.kubeconfig"

abbrev pub kubeconfig_arg : String
kubeconfig_arg = "--kubeconfig=/var/lib/kubelet/kubeconfig"

abbrev pub kubeconfig_args : Bool → Bool → List String
kubeconfig_args true false = bootstrap_arg ∷ kubeconfig_arg ∷ []
kubeconfig_args true true = kubeconfig_arg ∷ []
kubeconfig_args false true = kubeconfig_arg ∷ []
kubeconfig_args false false = []

abbrev pub with_hostname : Kubelet → Option String → Option (String × List String)
with_hostname k none = none
with_hostname k (some arg) = some (
  kubelet_path k,
  "--config=/etc/kubernetes/kubelet-config.yaml"
      ∷ "--cert-dir=/var/lib/kubelet/pki"
      ∷ "--v=2"
      ∷ arg
      ∷ kubeconfig_args k.bootstrap_exists k.permanent_exists,
)

-- The program and the arguments that `spawn_kubelet` passes to `spawn_service`.
unfoldable pub spawn_kubelet : Kubelet → Option (String × List String)
unfolding hostname_arg
spawn_kubelet k = with_hostname k (hostname_arg k)
