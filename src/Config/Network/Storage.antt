-- ===== src/Config/Network/Storage.antt =====
-- pkg/config/src/network.rs: loading and saving the configuration file. `serde_json` is a parameter;
-- the file system is one file, with the faults that the environment puts in its way.
pub mod Laws
use keelos.Prelude.{◌≡◌, String, Option, none, some, Result, ok, err, ◌>>=◌, ◌>>◌}
use keelos.Config.Network.{NetworkConfigError, io, json, NetworkConfig, Parsers, Check, validate}

-- `serde_json::to_string_pretty` and `from_str` at this type, with their error texts.
pub record Codec : Type 0 where
  pub to_string : NetworkConfig → Result String String
  pub from_str : String → Result NetworkConfig String

-- What `serde_json` promises of the derived instances: reading gives back what was written.
abbrev pub IsFaithful : Codec → Type 0
IsFaithful j = (c : NetworkConfig) (s : String) → j.to_string c ≡ ok s → j.from_str s ≡ ok c

-- The file at the configuration's path. A write that fails names its error, and what it leaves.
pub record Disk : Type 0 where
  pub file : Option String
  pub dir_fault : Option String
  pub write_fault : Option (String × Option String)

read_file : Option String → Result String NetworkConfigError
read_file none = err (io "No such file or directory")
read_file (some s) = ok s

write_file : Option (String × Option String) → String → Disk → Disk × Check
write_file none s d = (record d { file = some s }, ok tt)
write_file (some (e, left)) s d = (record d { file = left }, err (io e))

create_dir_all : Option String → Check
create_dir_all none = ok tt
create_dir_all (some e) = err (io e)

parsed : Result NetworkConfig String → Result NetworkConfig NetworkConfigError
parsed (ok c) = ok c
parsed (err e) = err (json e)

-- The steps behind `to_string_pretty`.
write_json : Result String String → Disk → Disk × Check
unfolding write_file
write_json (ok s) d = write_file d.write_fault s d
write_json (err e) d = (d, err (json e))

after_checks : Check → Result String String → Disk → Disk × Check
unfolding write_json
after_checks (ok tt) s d = write_json s d
after_checks (err e) s d = (d, err e)

module _ (p : Parsers) (j : Codec) where
  unfoldable pub load : Disk → Result NetworkConfig NetworkConfigError
  unfolding read_file parsed
  load d = do
    content ← read_file d.file
    config ← parsed (j.from_str content)
    validate p config
    ok config

  unfoldable pub save : NetworkConfig → Disk → Disk × Check
  unfolding after_checks create_dir_all
  save c d = after_checks (validate p c >> create_dir_all d.dir_fault) (j.to_string c) d
