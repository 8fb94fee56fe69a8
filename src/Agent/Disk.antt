-- ===== src/Agent/Disk.antt =====
-- cmd/keel-agent/src/disk.rs: which partition is booted, and which one may be written.
-- The texts of /proc and the links of /dev/disk/by-partuuid are what the functions are given.
pub mod Flash
pub mod Slots
pub mod Boot
use keelos.Prelude.{
  ℕ, ◌==◌, if◌then◌else◌, String, str_eq, format, show, strip_prefix, has_prefix, split_whitespace,
  split, lines, to_lowercase, take_while, take_while_back, is_digit, parse_u32, not, ◌&&◌, Option,
  none, some, List, [], ◌∷◌, ok, err, ◌>>=◌,
}
use keelos.Agent.Io.{invalid_data, Io}

pub record PartitionInfo : Type 0 where
  pub device : String
  pub index : ℕ  -- u32

abbrev pub default_disk : String
default_disk = "/dev/sda"

abbrev pub slot_a_index : ℕ
slot_a_index = 2

abbrev pub slot_b_index : ℕ
slot_b_index = 3

-- What the detection reads: /proc/cmdline, /proc/mounts, and the links by PARTUUID.
pub record System : Type 0 where
  pub cmdline : Io String
  pub mounts : Io String
  pub read_link : String → Io String

abbrev pub slot_a : PartitionInfo
slot_a = record { device = format (default_disk ∷ show slot_a_index ∷ []); index = slot_a_index }

unfoldable pub numbered : String → Option ℕ → Io PartitionInfo
numbered device (some n) = ok (record { device = device; index = n })
numbered device none = err (record {
  kind = invalid_data;
  message = format ("Cannot parse partition number from: " ∷ device ∷ []);
})

unfoldable pub parse_device_path : String → Io PartitionInfo
unfolding numbered take_while_back parse_u32
parse_device_path device = numbered device (parse_u32 (take_while_back is_digit device))

-- `rsplit('/').next()`: the last piece.
unfoldable pub last_piece : List String → String
last_piece [] = ""
last_piece (s ∷ []) = s
last_piece (s ∷ t ∷ rest) = last_piece (t ∷ rest)

unfoldable pub linked : Io String → Io PartitionInfo
unfolding parse_device_path last_piece split
linked (ok target) = parse_device_path (format ("/dev/" ∷ last_piece (split b'/' target) ∷ []))
linked (err e) = ok slot_a

unfoldable pub resolve_partuuid : System → String → Io PartitionInfo
unfolding linked to_lowercase
resolve_partuuid sys partuuid =
    linked (sys.read_link (format ("/dev/disk/by-partuuid/" ∷ to_lowercase partuuid ∷ [])))

-- The value of one `root=` parameter: `none` if the loop goes on.
unfoldable pub root_partition : System → String → Option (Io PartitionInfo)
unfolding resolve_partuuid parse_device_path
root_partition sys value = elim (strip_prefix value "PARTUUID=") [
  | some partuuid ↦ some (resolve_partuuid sys partuuid)
  | none ↦ if has_prefix value "/dev/" then some (parse_device_path value) else none
]

-- The first answer.
abbrev pub first_of_two :
    Option (Io PartitionInfo) → Option (Io PartitionInfo) → Option (Io PartitionInfo)
first_of_two (some r) later = some r
first_of_two none later = later

unfoldable pub scan_cmdline : System → List String → Option (Io PartitionInfo)
unfolding root_partition
scan_cmdline sys [] = none
scan_cmdline sys (param ∷ rest) =
    let later = scan_cmdline sys rest in
    elim (strip_prefix param "root=") [
      | some value ↦ first_of_two (root_partition sys value) later
      | none ↦ later
    ]

unfoldable pub mounted_root : List String → Option (Io PartitionInfo)
unfolding parse_device_path
mounted_root (device ∷ dir ∷ rest) =
    if str_eq dir "/" && has_prefix device "/dev/" then some (parse_device_path device) else none
mounted_root _ = none

unfoldable pub scan_mounts : List String → Option (Io PartitionInfo)
unfolding mounted_root split_whitespace
scan_mounts [] = none
scan_mounts (line ∷ rest) =
    let later = scan_mounts rest in first_of_two (mounted_root (split_whitespace line)) later

unfoldable pub from_mounts : Io String → Option (Io PartitionInfo)
unfolding scan_mounts lines
from_mounts (ok mounts) = scan_mounts (lines mounts)
from_mounts (err e) = none

abbrev pub or_slot_a : Option (Io PartitionInfo) → Io PartitionInfo
or_slot_a (some r) = r
or_slot_a none = ok slot_a

unfoldable pub get_active_partition : System → Io PartitionInfo
unfolding scan_cmdline from_mounts split_whitespace
get_active_partition sys = do
  cmdline ← sys.cmdline
  or_slot_a (first_of_two (scan_cmdline sys (split_whitespace cmdline)) (from_mounts sys.mounts))

unfoldable pub other_index : ℕ → ℕ
other_index n = if n == slot_a_index then slot_b_index else slot_a_index

unfoldable pub inactive_of : PartitionInfo → PartitionInfo
unfolding other_index take_while
inactive_of active = record {
  device =
      format
        (take_while (λ c. not (is_digit c)) active.device ∷ show (other_index active.index) ∷ []);
  index = other_index active.index;
}

unfoldable pub get_inactive_partition : System → Io PartitionInfo
unfolding get_active_partition inactive_of
get_inactive_partition sys = do active ← get_active_partition sys; ok (inactive_of active)
