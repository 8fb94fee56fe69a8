-- ===== src/Agent/Disk/Boot.antt =====
-- cmd/keel-agent/src/disk.rs: the boot flag of the partition table, and the state kept for a
-- rollback. `sgdisk`, `serde_json`, the clock and the faults of the files are parameters.
pub mod Switch
pub mod Laws
use keelos.Prelude.{
  ℕ, ◌+◌, ◌%◌, ◌^◌, leb, ◌==◌, if◌then◌else◌, String, format, show, Bool, true, false, ◌||◌, Option,
  none, some, List, [], ◌∷◌, Result, ok, err, ◌>>=◌, ◌>>◌,
}
use keelos.Agent.Io.{not_found, invalid_data, other, IoError, Io}
use keelos.Agent.Disk.{
  System, PartitionInfo, default_disk, slot_a_index, slot_b_index, other_index,
  get_active_partition,
}

-- Attribute bit 2, "legacy BIOS bootable", by disk and by the number of the partition.
abbrev pub Table : Type 0
Table = String → ℕ → Bool

pub record Output : Type 0 where
  pub is_success : Bool
  pub stderr : String

pub data Action : Type 0 where
  clear set : Action

-- The arguments `--attributes=<partition>:<action>:<bit> <disk>`, as sgdisk reads them.
pub record Args : Type 0 where
  pub partition : ℕ
  pub action : Action
  pub bit : ℕ
  pub disk : String

-- The program that is installed under one of two names, or not at all, and what a run of it does.
pub record Sgdisk : Type 0 where
  pub in_usr_sbin : Bool
  pub in_sbin : Bool
  pub run : String → Args → Table → Table × Io Output

pub record RollbackState : Type 0 where
  pub previous_partition : Option ℕ
  pub boot_counter : ℕ  -- u32
  pub last_update_time : Option String

pub record Codec : Type 0 where
  pub to_string : RollbackState → Result String String
  pub from_str : String → Result RollbackState String

-- What a call finds besides the machine's state.
pub record Env : Type 0 where
  pub system : System
  pub sgdisk : Sgdisk
  pub codec : Codec
  pub now : String
  pub dir_fault : Option IoError
  -- the error of a write, and what it leaves in the file
  pub state_fault : Option (IoError × Option String)
  pub marker_fault : Option (IoError × Option String)

-- The partition table, the file of the rollback state, and /tmp/boot.next.
pub record Boot : Type 0 where
  pub table : Table
  pub state_file : Option String
  pub marker : Option String

abbrev pub Step : Type 0
Step = Boot × Io (Unit {0})

abbrev pub legacy_boot : ℕ
legacy_boot = 2

unfoldable pub clear_args : ℕ → Args
clear_args n = record { partition = n; action = clear; bit = legacy_boot; disk = default_disk }

unfoldable pub set_args : ℕ → Args
set_args n = record { partition = n; action = set; bit = legacy_boot; disk = default_disk }

-- `fs::write`, and what is left of the file.
abbrev pub written : Option (IoError × Option String) → String → Option String × Io (Unit {0})
written none text = (some text, ok tt)
written (some (e, left)) text = (left, err e)

-- The last run's output; a marker that cannot be written is only logged.
abbrev pub set_done : Env → ℕ → Boot → Table × Io Output → Step
set_done env n b (t, err e) = (record b { table = t }, err e)
set_done env n b (t, ok o) =
    if o.is_success
    then (record b { table = t; marker = (written env.marker_fault (show n)).0 }, ok tt)
    else (
      record b { table = t },
      err (record {
        kind = other;
        message = format ("Failed to set boot flag on partition " ∷ show n ∷ ": " ∷ o.stderr ∷ []);
      }),
    )

-- A run that clears the other flag and exits with an error is only logged.
abbrev pub clear_done : Env → String → ℕ → Boot → Table × Io Output → Step
clear_done env program n b (t, err e) = (record b { table = t }, err e)
clear_done env program n b (t, ok o) = set_done env n b (env.sgdisk.run program (set_args n) t)

abbrev pub program_of : Sgdisk → String
program_of g = if g.in_usr_sbin then "/usr/sbin/sgdisk" else "/sbin/sgdisk"

unfoldable pub switch_boot_partition : ℕ → Env → Boot → Step
unfolding other_index clear_args
switch_boot_partition n env b =
    if env.sgdisk.in_usr_sbin || env.sgdisk.in_sbin
    then clear_done env (program_of env.sgdisk) n b
        (env.sgdisk.run (program_of env.sgdisk) (clear_args (other_index n)) b.table)
    else (
      b,
      err (record {
        kind = not_found;
        message = "sgdisk not found. Cannot modify partition table.";
      }),
    )

abbrev pub default_state : RollbackState
default_state = record { previous_partition = none; boot_counter = 0; last_update_time = none }

abbrev pub state_or_default : Result RollbackState String → RollbackState
state_or_default (ok s) = s
state_or_default (err e) = default_state

unfoldable pub load_rollback_state : Env → Boot → RollbackState
load_rollback_state env b = elim b.state_file [
  | none ↦ default_state
  | some text ↦ state_or_default (env.codec.from_str text)
]

abbrev pub store : Env → Boot → Result String String → Step
store env b (ok text) =
    let (left, r) = written env.state_fault text in (record b { state_file = left }, r)
store env b (err e) = (b, err (record { kind = invalid_data; message = e }))

unfoldable pub save_rollback_state : RollbackState → Env → Boot → Step
save_rollback_state s env b = elim env.dir_fault [
  | some e ↦ (b, err e)
  | none ↦ store env b (env.codec.to_string s)
]

abbrev pub recorded : PartitionInfo → String → RollbackState → RollbackState
recorded active now s = record s {
  previous_partition = some active.index;
  last_update_time = some now;
}

unfoldable pub record_active_partition_for_rollback : Env → Boot → Step
unfolding get_active_partition load_rollback_state save_rollback_state
record_active_partition_for_rollback env b = elim (get_active_partition env.system) [
  | err e ↦ (b, err e)
  | ok active ↦ save_rollback_state (recorded active env.now (load_rollback_state env b)) env b
]

abbrev pub forgotten : RollbackState → RollbackState
forgotten s = record s { previous_partition = none; boot_counter = 0 }

unfoldable pub forget : Env → Step → Step
unfolding load_rollback_state save_rollback_state
forget env (b, err e) = (b, err e)
forget env (b, ok tt) = save_rollback_state (forgotten (load_rollback_state env b)) env b

unfoldable pub rollback_to_previous_partition : Env → Boot → Step
unfolding load_rollback_state switch_boot_partition forget
rollback_to_previous_partition env b = elim (load_rollback_state env b).previous_partition [
  | none ↦ (
    b,
    err (record { kind = not_found; message = "No previous partition recorded for rollback" }),
  )
  | some n ↦ forget env (switch_boot_partition n env b)
]

unfoldable pub get_boot_counter : Env → Boot → ℕ
unfolding load_rollback_state
get_boot_counter env b = (load_rollback_state env b).boot_counter

abbrev pub counted : RollbackState → RollbackState
counted s = record s { boot_counter = (s.boot_counter + 1) % 2 ^ 32 }

unfoldable pub increment_boot_counter : Env → Boot → Step
unfolding load_rollback_state save_rollback_state
increment_boot_counter env b = save_rollback_state (counted (load_rollback_state env b)) env b

abbrev pub cleared : RollbackState → RollbackState
cleared s = record s { boot_counter = 0 }

unfoldable pub clear_boot_counter : Env → Boot → Step
unfolding load_rollback_state save_rollback_state
clear_boot_counter env b = save_rollback_state (cleared (load_rollback_state env b)) env b

abbrev pub max_boot_attempts : ℕ
max_boot_attempts = 3

unfoldable pub is_boot_loop : Env → Boot → Bool
unfolding get_boot_counter
is_boot_loop env b = leb max_boot_attempts (get_boot_counter env b)
