-- ===== src/Agent/Examples/Machine.antt =====
-- A machine with two slots, of which the first is booted, and the programs that it has.
use keelos.Prelude.{
  ℕ, String, ◌&&◌, ◌⊎◌, ◌≢◌, inl, inr, Bool-cases, eq_iff, ◌≡◌, ◌==◌, refl, arith, if◌then◌else◌,
  str_eq, show, true, false, none, some, [], ◌∷◌, length, ok, err,
}
use keelos.Agent.Io.{IoError, not_found}
use keelos.Agent.Disk.{System, PartitionInfo, get_active_partition, get_inactive_partition}
use keelos.Agent.Disk.Flash.{Disks, Response, Tools}
use keelos.Agent.Disk.Boot
use keelos.Agent.Disk.Boot.{Table, Output, Args, set_args, clear_args, clear, set, Sgdisk, Boot}
use keelos.Agent.Disk.Boot.Switch.{IsSgdisk}
use keelos.Agent.Executor.Parts.{IsHarmless}
use keelos.Agent.Executor.{Exit}
use keelos.Agent.Executor
use keelos.Agent.Examples.RollbackCodec.{codec}

abbrev missing : IoError
missing = record { kind = not_found; message = "No such file or directory" }

abbrev pub system : System
system = record {
  cmdline = ok "console=ttyS0 root=/dev/sda2 ro";
  mounts = ok "";
  read_link = λ path. err missing;
}

abbrev pub slot_b : PartitionInfo
slot_b = record { device = "/dev/sda3"; index = 3 }

abbrev pub slot_booted : PartitionInfo
slot_booted = record { device = "/dev/sda2"; index = 2 }

pub active : get_active_partition system ≡ ok slot_booted
unfolding get_active_partition
active = refl

pub inactive : get_inactive_partition system ≡ ok slot_b
unfolding get_inactive_partition show
inactive = refl

-- An image of four bytes in two chunks; the digest is its length.
abbrev pub response : Response
response = record {
  is_success = true;
  status = "200 OK";
  content_length = some 4;
  chunks = ok (1 ∷ 2 ∷ []) ∷ ok (3 ∷ 4 ∷ []) ∷ [];
}

abbrev pub tools : Tools
tools = record {
  fetch = λ url. if str_eq url "http://os/image" then ok response else err "no route to host";
  sha256_hex = λ image. if length image == 4 then "ab12" else "00";
  patch = λ old delta. err "corrupt patch";
  temp_fault = none;
  temp_write_fault = none;
  write_fault = λ device offset. none;
  sync_fault = λ device. none;
}

abbrev pub disks : Disks
disks = ("/dev/sda2", 7 ∷ []) ∷ ("/dev/sda3", 9 ∷ 9 ∷ 9 ∷ 9 ∷ 9 ∷ []) ∷ []

abbrev done : Output
done = record { is_success = true; stderr = "" }

abbrev pub flag : Args → Table → Table
flag a t d n =
    if str_eq d a.disk && n == a.partition
    then elim a.action [ set ↦ true | clear ↦ false ]
    else t d n

abbrev pub sgdisk : Sgdisk
sgdisk = record {
  in_usr_sbin = true;
  in_sbin = false;
  run = λ program args t. (flag args t, ok done);
}

-- A test of a disk's name, read as an equation.
same_disk : (d e : String) → str_eq d e ≡ true → d ≡ e
same_disk d e h = ground (arith, eq_iff d e)

own_flag :
    (a : Args) (d : String) (m : ℕ) (t : Table)
    → (d ≢ a.disk) ⊎ (m ≢ a.partition)
    → flag a t d m ≡ t d m
own_flag a d m t (inl n) = elim (Bool-cases (str_eq d a.disk)) [
  | inl e ↦ absurd (n (same_disk d a.disk e))
  | inr e ↦ rw e refl
]
own_flag a d m t (inr n) = ground arith

pub sgdisk-IsSgdisk : IsSgdisk sgdisk
unfolding Boot.set_args Boot.clear_args
sgdisk-IsSgdisk = record {
  sets = λ p n t o e s. ground arith;
  clears = λ p n t o e s. ground arith;
  set_only = λ p n m d t k. own_flag (set_args n) d m t k;
  clear_only = λ p n m d t k. own_flag (clear_args n) d m t k;
}

abbrev pub env : Boot.Env
env = record {
  system = system;
  sgdisk = sgdisk;
  codec = codec;
  now = "2026-01-01T00:00:00Z";
  dir_fault = none;
  state_fault = none;
  marker_fault = none;
}

abbrev pub boot : Boot
boot = record { table = λ d n. str_eq d "/dev/sda" && n == 2; state_file = none; marker = none }

abbrev pub machine : Executor.Machine
machine = record { disks = disks; boot = boot }

abbrev pub exec : Executor.Env
exec = record {
  tools = tools;
  boot = env;
  hook = λ program args m. (m, ok (record { is_success = true; code = "Some(0)" }));
}

pub exec-IsHarmless : IsHarmless exec.hook
exec-IsHarmless program args m = refl

-- A machine whose slots are on /dev/vda, and which has another disk, /dev/sda.
abbrev pub virtio_system : System
virtio_system = record system { cmdline = ok "root=/dev/vda2" }

pub virtio_active :
    get_active_partition virtio_system ≡ ok (record { device = "/dev/vda2"; index = 2 })
unfolding get_active_partition
virtio_active = refl

pub virtio_inactive :
    get_inactive_partition virtio_system ≡ ok (record { device = "/dev/vda3"; index = 3 })
unfolding get_inactive_partition show
virtio_inactive = refl

abbrev pub virtio_exec : Executor.Env
virtio_exec = record exec { boot = record env { system = virtio_system } }

abbrev pub virtio_machine : Executor.Machine
virtio_machine = record {
  disks = ("/dev/vda2", 7 ∷ []) ∷ ("/dev/vda3", 9 ∷ 9 ∷ 9 ∷ 9 ∷ 9 ∷ []) ∷ [];
  boot = record { table = λ d n. str_eq d "/dev/vda" && n == 2; state_file = none; marker = none };
}
