-- ===== src/Init/Storage.antt =====
-- cmd/keel-init/src/main.rs: the mounts of the start-up, as the calls that are made with what each
-- of them gives. What the kernel and mkfs.ext4 do is a parameter.
pub mod Laws
use keelos.Prelude.{
  String, format, if◌then◌else◌, Bool, true, false, not, Option, none, some, List, [], ◌∷◌, ◌++◌,
}

pub data Flag : Type 0 where
  bind rec private : Flag

pub record Mount : Type 0 where
  pub source : Option String
  pub target : String
  pub fstype : Option String
  pub flags : List Flag
  pub options : Option String

-- A call: `create_dir_all`, `mount`, `/sbin/mkfs.ext4 -F`, and `fs::write`.
pub data Op : Type 0 where
  mkdir : String → Op
  mount : Mount → Op
  mkfs : String → Op
  write : String → String → Op

-- The kernel, and the calls made with whether each succeeded, the first one first.
pub record Boot (K : Type 0) : Type 0 where
  pub kernel : K
  pub trace : List (Op × Bool)

abbrev api_mount : String → String → String → Option String → Op
api_mount source target fstype options = mount (record {
  source = some source;
  target = target;
  fstype = some fstype;
  flags = [];
  options = options;
})

-- The calls of `setup_filesystems`, whose errors are only logged.
abbrev pub filesystems : List Op
filesystems =
    mkdir "/proc"
    ∷ mkdir "/sys"
    ∷ mkdir "/dev"
    ∷ mkdir "/tmp"
    ∷ mount (record {
      source = some "/";
      target = "/";
      fstype = none;
      flags = bind ∷ rec ∷ [];
      options = none;
    })
    ∷ mount (record {
      source = none;
      target = "/";
      fstype = none;
      flags = private ∷ rec ∷ [];
      options = none;
    })
    ∷ api_mount "none" "/proc" "proc" none
    ∷ api_mount "none" "/sys" "sysfs" none
    ∷ api_mount "none" "/dev" "devtmpfs" none
    ∷ mkdir "/dev/pts"
    ∷ api_mount "devpts" "/dev/pts" "devpts" (some "newinstance,ptmxmode=0666,mode=0620")
    ∷ mkdir "/dev/shm"
    ∷ api_mount "tmpfs" "/dev/shm" "tmpfs" (some "size=64m")
    ∷ mkdir "/dev/mqueue"
    ∷ api_mount "mqueue" "/dev/mqueue" "mqueue" none
    ∷ api_mount "none" "/tmp" "tmpfs" none
    ∷ []

abbrev pub cgroup2 : Op
cgroup2 = api_mount "cgroup2" "/sys/fs/cgroup" "cgroup2" none

-- The data disk, mounted at /data.
abbrev pub data_mount : String → Op
data_mount dev = mount (record {
  source = some dev;
  target = "/data";
  fstype = some "ext4";
  flags = [];
  options = none;
})

abbrev pub bind_mount : String × String → Op
bind_mount (subdir, target) = mount (record {
  source = some (format ("/data" ∷ "/" ∷ subdir ∷ []));
  target = target;
  fstype = none;
  flags = bind ∷ [];
  options = none;
})

abbrev pub candidates : List String
candidates = "/dev/sda4" ∷ "/dev/sda" ∷ []

abbrev pub bind_dirs : List (String × String)
bind_dirs =
    ("containerd", "/var/lib/containerd")
    ∷ ("kubelet", "/var/lib/kubelet")
    ∷ ("keel", "/var/lib/keel")
    ∷ []

module _ {K : Type 0} (perform : Op → K → K × Bool) (exists : String → K → Bool) where
  abbrev pub logged : Op → Boot K → K × Bool → Boot K × Bool
  logged op b (k, done) = (record b { kernel = k; trace = b.trace ++ ((op, done) ∷ []) }, done)

  unfoldable pub exec : Op → Boot K → Boot K × Bool
  exec op b = logged op b (perform op b.kernel)

  -- Calls whose errors are only logged.
  unfoldable pub run_all : List Op → Boot K → Boot K
  unfolding exec
  run_all [] b = b
  run_all (op ∷ ops) b = run_all ops (exec op b).0

  unfoldable pub setup_filesystems : Boot K → Boot K
  unfolding run_all
  setup_filesystems = run_all filesystems

  abbrev pub enable_controllers : Boot K × Bool → Boot K
  unfolding exec
  enable_controllers (b, true) =
      (exec (write "/sys/fs/cgroup/cgroup.subtree_control" "+cpu +memory +io +pids +cpuset") b).0
  enable_controllers (b, false) = b

  unfoldable pub setup_cgroups : Boot K → Boot K
  unfolding exec
  setup_cgroups b = enable_controllers (exec cgroup2 (exec (mkdir "/sys/fs/cgroup") b).0)

  abbrev pub after_format : String → Boot K × Bool → Boot K × Bool
  unfolding exec
  after_format dev (b, true) = exec (data_mount dev) b
  after_format dev (b, false) = (b, false)

  abbrev pub after_mount : String → Boot K × Bool → Boot K × Bool
  unfolding exec
  after_mount dev (b, true) = (b, true)
  after_mount dev (b, false) = after_format dev (exec (mkfs dev) b)

  -- One round of the loop over the candidates, with whether it set `mounted`.
  unfoldable pub try_device : String → Boot K → Boot K × Bool
  unfolding exec
  try_device dev b =
      if not (exists dev b.kernel) then (b, false) else after_mount dev (exec (data_mount dev) b)

  unfoldable pub try_devices : List String → Boot K → Boot K × Bool
  unfolding try_device
  try_devices [] b = (b, false)
  try_devices (dev ∷ rest) b =
      let (next, mounted) = try_device dev b in
      let later = try_devices rest next in if mounted then (next, true) else later

  abbrev pub bind_ops : List (String × String) → List Op
  bind_ops [] = []
  bind_ops ((subdir, target) ∷ rest) =
      mkdir (format ("/data" ∷ "/" ∷ subdir ∷ []))
      ∷ mkdir target
      ∷ bind_mount (subdir, target)
      ∷ bind_ops rest

  abbrev pub bind_if : Boot K × Bool → Boot K
  unfolding run_all
  bind_if (b, true) = run_all (bind_ops bind_dirs) b
  bind_if (b, false) = b

  unfoldable pub setup_persistent_storage : Boot K → Boot K
  unfolding exec try_devices run_all
  setup_persistent_storage b = bind_if (try_devices candidates (exec (mkdir "/data") b).0)
