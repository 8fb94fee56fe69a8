-- ===== src/Init/Examples/Startup.antt =====
-- The theorems about the start-up at a node whose disk has no fourth partition.
use keelos.Prelude.{◌≡◌, refl, String, str_eq, Bool, true, false, none, some, List, [], ◌∷◌, In}
use keelos.Init.Storage.{Op, mount, mkfs, data_mount, setup_persistent_storage}
use keelos.Init.Storage.Laws.{storage-careful, formats_whole_disk}
use keelos.Init.Host.{Node, Kubelet, panics, setup_hostname, spawn_kubelet}

-- The kernel knows whether /dev/sda holds a file system; all else succeeds.
abbrev perform : Op → Bool → Bool × Bool
perform (mkfs dev) formatted = (true, true)
perform (mount m) formatted = (formatted, formatted)
perform op formatted = (formatted, true)

abbrev exists : String → Bool → Bool
exists dev formatted = str_eq dev "/dev/sda"

storage-careful_example :
    In
      (data_mount "/dev/sda", false)
      (setup_persistent_storage perform exists (record { kernel = false; trace = [] })).trace
storage-careful_example =
    storage-careful perform exists false "/dev/sda"
      (formats_whole_disk perform exists false refl refl refl).0
      (formats_whole_disk perform exists false refl refl refl).1

abbrev node : Node
node = record {
  etc_hostname = some "\n";
  cmdline = some "quiet";
  machine_id = some "abc\n";
  random_hex = none;
  accepts = λ name. true;
}

short_machine_id : setup_hostname node ≡ panics
unfolding setup_hostname
short_machine_id = refl

abbrev kubelet : Kubelet
kubelet = record {
  node = node;
  bootstrap_node_name = some "node-1";
  hostname = none;
  override_exists = false;
  bootstrap_exists = true;
  permanent_exists = false;
}

abbrev args : List String
args =
    "--config=/etc/kubernetes/kubelet-config.yaml" ∷ "--cert-dir=/var/lib/kubelet/pki" ∷ "--v=2"
    ∷ "--hostname-override=node-1"
    ∷ "--bootstrap-kubeconfig=/var/lib/keel/kubernetes/kubelet.kubeconfig"
    ∷ "--kubeconfig=/var/lib/kubelet/kubeconfig" ∷ []

spawned : spawn_kubelet kubelet ≡ some ("/usr/bin/kubelet", args)
unfolding spawn_kubelet
spawned = refl
