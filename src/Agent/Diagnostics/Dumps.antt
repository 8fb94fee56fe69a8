-- ===== src/Agent/Diagnostics/Dumps.antt =====
-- cmd/keel-agent/src/diagnostics.rs: `collect_crash_dump` and `create_system_snapshot`. What the
-- commands print, the files that are read and the clock are what a call is given.
pub mod Laws
pub mod Critical
use Prim.Native.Char.{Char, code}
use keelos.Prelude.{
  ℕ, ◌+◌, ltb, if◌then◌else◌, String, format, trim, lines, Bool, Option, none, some, List, [], ◌∷◌,
  Result, ok, err,
}
use keelos.Prelude.Dict.{Dict, put}
use keelos.Agent.Logs.{last_lines}

-- What `dmesg --time-format=iso` and `ps aux` print, what is read, the clock for a file's name, in
-- nanoseconds, with chrono's formatting of a time, the time as RFC 3339, a fresh UUID, and the
-- faults of the directory and of the write, the latter with what it leaves in the file.
pub record Sources : Type 0 where
  pub dmesg : Result String String
  pub ps : Result String String
  pub meminfo : Result String String
  pub hostname : Result String String
  pub os_release : Result String String
  pub node_config : Option (Result String String)
  pub named_at : ℕ
  pub format_utc : String → ℕ → String
  pub now : String
  pub uuid : String
  pub dir_fault : Option String
  pub write_fault : Option (String × Option String)

-- `String::len`: the bytes of the UTF-8 form.
abbrev width : Char → ℕ
width c =
    if ltb (code c) 128
    then 1
    else if ltb (code c) 2048
    then 2
    else if ltb (code c) 65536
    then 3
    else 4

unfoldable pub byte_len : String → ℕ
byte_len String.[] = 0
byte_len (String.◌∷◌ c s) = width c + byte_len s

abbrev or_failed : String → Result String String → String
or_failed what (ok text) = text
or_failed what (err e) = format (what ∷ e ∷ "\n" ∷ [])

-- A section of a report: its title, what it holds, an empty line.
abbrev pub section : String → String → String
section title text = format (title ∷ text ∷ "\n" ∷ [])

abbrev pub kernel_section : Bool → Sources → String
kernel_section include_kernel env =
    if include_kernel
    then section "--- Kernel Messages (dmesg) ---\n"
        (or_failed "Failed to collect dmesg: " env.dmesg)
    else ""

abbrev pub userspace_section : Bool → Sources → String
userspace_section include_userspace env =
    if include_userspace
    then format (
        section "--- Process List ---\n" (or_failed "Failed to collect process list: " env.ps)
        ∷ section "--- Memory Info ---\n" (or_failed "Failed to read /proc/meminfo: " env.meminfo)
        ∷ [])
    else ""

unfoldable pub dump_content : Bool → Bool → Sources → String
dump_content include_kernel include_userspace env = format (
    "=== KeelOS Crash Dump - "
    ∷ env.now
    ∷ " ===\n\n"
    ∷ kernel_section include_kernel env
    ∷ userspace_section include_userspace env
    ∷ [])

abbrev left_in : Option String → String → Dict String → Dict String
left_in none path files = files
left_in (some text) path files = put path text files

-- `fs::create_dir_all` and `fs::write` of a report, whose size is returned.
abbrev pub written :
    String
    → Option (String × Option String)
    → String
    → String
    → Dict String
    → Dict String × Result ℕ String
written what none path content files = (put path content files, ok (byte_len content))
written what (some (e, left)) path content files =
    (left_in left path files, err (format (what ∷ e ∷ [])))

abbrev pub saved :
    Option String
    → String
    → String
    → Option (String × Option String)
    → String
    → String
    → Dict String
    → Dict String × Result ℕ String
saved none no_dir no_file fault path content files = written no_file fault path content files
saved (some e) no_dir no_file fault path content files = (files, err (format (no_dir ∷ e ∷ [])))

-- The format of the time in the name of a dump or a snapshot.
abbrev pub name_format : String
name_format = "%Y%m%d-%H%M%S"

abbrev pub timestamp : Sources → String
timestamp env = env.format_utc name_format env.named_at

abbrev pub dump_path : String → Sources → String
dump_path dump_dir env = format (dump_dir ∷ "/crash-" ∷ timestamp env ∷ ".txt" ∷ [])

abbrev pub with_path :
    String → Dict String × Result ℕ String → Dict String × Result (String × ℕ) String
with_path path (files, ok size) = (files, ok (path, size))
with_path path (files, err e) = (files, err e)

unfoldable pub collect_crash_dump_to :
    String → Bool → Bool → Sources → Dict String → Dict String × Result (String × ℕ) String
collect_crash_dump_to dump_dir include_kernel include_userspace env files =
    with_path (dump_path dump_dir env) (
      saved env.dir_fault "Failed to create crash dump directory: " "Failed to write crash dump: "
        env.write_fault (dump_path dump_dir env) (dump_content include_kernel include_userspace env)
        files)

abbrev pub collect_crash_dump :
    Bool → Bool → Sources → Dict String → Dict String × Result (String × ℕ) String
collect_crash_dump = collect_crash_dump_to "/var/lib/keel/crash-dumps"

abbrev hostname_text : Result String String → String
hostname_text (ok hostname) = format ("Hostname: " ∷ trim hostname ∷ "\n" ∷ [])
hostname_text (err _) = "Hostname: unavailable\n"

abbrev release_text : Result String String → String
release_text (ok release) = release
release_text (err _) = "  unavailable\n"

abbrev config_text : Option (Result String String) → String
config_text none = ""
config_text (some (ok cfg)) = format ("\nKeelOS Node Config:\n" ∷ cfg ∷ [])
config_text (some (err e)) =
    format ("\nKeelOS Node Config:\n" ∷ "  Failed to read: " ∷ e ∷ "\n" ∷ [])

abbrev pub config_section : Bool → Sources → String
config_section include_config env =
    if include_config
    then section "--- System Configuration ---\n" (
        format (
          hostname_text env.hostname
          ∷ "\nOS Release:\n"
          ∷ release_text env.os_release
          ∷ config_text env.node_config
          ∷ []))
    else ""

abbrev unlines : List String → String
unlines [] = ""
unlines (line ∷ rest) = format (line ∷ "\n" ∷ unlines rest ∷ [])

abbrev recent : Result String String → String
recent (ok full) = unlines (last_lines 200 (lines full))
recent (err e) = format ("Failed to collect dmesg: " ∷ e ∷ "\n" ∷ [])

abbrev pub logs_section : Bool → Sources → String
logs_section include_logs env =
    if include_logs then section "--- Recent Kernel Logs ---\n" (recent env.dmesg) else ""

unfoldable pub snapshot_content : String → Bool → Bool → Sources → String
snapshot_content label include_config include_logs env = format (
    "=== KeelOS System Snapshot ===\nID: "
    ∷ env.uuid
    ∷ "\nLabel: "
    ∷ label
    ∷ "\nCreated: "
    ∷ env.now
    ∷ "\n\n"
    ∷ config_section include_config env
    ∷ logs_section include_logs env
    ∷ [])

abbrev pub snapshot_path : String → Sources → String
snapshot_path snapshot_dir env = format (snapshot_dir ∷ "/snapshot-" ∷ timestamp env ∷ ".txt" ∷ [])

abbrev pub with_id :
    String
    → String
    → Dict String × Result ℕ String
    → Dict String × Result (String × String × ℕ) String
with_id id path (files, ok size) = (files, ok (id, path, size))
with_id id path (files, err e) = (files, err e)

unfoldable pub create_system_snapshot_to :
    String
    → String
    → Bool
    → Bool
    → Sources
    → Dict String
    → Dict String × Result (String × String × ℕ) String
create_system_snapshot_to snapshot_dir label include_config include_logs env files =
    with_id env.uuid (snapshot_path snapshot_dir env) (
      saved env.dir_fault "Failed to create snapshot directory: " "Failed to write snapshot: "
        env.write_fault (snapshot_path snapshot_dir env)
        (snapshot_content label include_config include_logs env) files)

abbrev pub create_system_snapshot :
    String → Bool → Bool → Sources → Dict String → Dict String × Result (String × String × ℕ) String
create_system_snapshot = create_system_snapshot_to "/var/lib/keel/snapshots"
