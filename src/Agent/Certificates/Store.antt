-- ===== src/Agent/Certificates/Store.antt =====
-- The files of an operational certificate and its key, as cmd/keel-agent/src/lib.rs, main.rs and
-- cert_renewal.rs write them, and the expiry that pkg/crypto/src/lib.rs reads from a certificate.
use keelos.Prelude.{
  ℕ, leb, ◌+◌, ◌*◌, String, format, Bool, Option, none, some, is_some, [], ◌∷◌, Result, ok, err,
  ◌>>=◌, map_err,
}
use keelos.Prelude.Dict.{Dict, get, put}

pub record Paths : Type 0 where
  pub cert : String
  pub key : String

abbrev pub operational : Paths
operational = record {
  cert = "/var/lib/keel/crypto/operational.pem";
  key = "/var/lib/keel/crypto/operational.key";
}

abbrev pub backup_of : String → String
backup_of path = format (path ∷ ".backup" ∷ [])

-- The error of a write, and what the write leaves in the file, if it touches it.
abbrev pub Fault : Type 0
Fault = String × Option String

-- The faults of the copies and the writes of one call.
pub record Faults : Type 0 where
  pub copy_cert : Option Fault
  pub copy_key : Option Fault
  pub write_cert : Option Fault
  pub write_key : Option Fault

-- The files of the node by their paths.
abbrev pub Files : Type 0
Files = Dict String

abbrev left_in : Option String → String → Files → Files
left_in none path files = files
left_in (some text) path files = put path text files

-- `fs::write`.
unfoldable pub write_file :
    Option Fault → String → String → Files → Files × Result (Unit {0}) String
write_file none path text files = (put path text files, ok tt)
write_file (some (e, left)) path text files = (left_in left path files, err e)

abbrev copied : Option String → Option Fault → String → Files → Files
copied none fault to files = files
copied (some text) fault to files = (write_file fault to text files).0

-- `fs::copy`, whose error is only logged.
unfoldable pub copy_file : Option Fault → String → String → Files → Files
copy_file fault from to files = copied (get from files) fault to files

abbrev pub backed_up : Option String → Faults → Paths → Files → Files
backed_up none faults paths files = files
backed_up (some _) faults paths files =
    copy_file faults.copy_key paths.key (backup_of paths.key)
      (copy_file faults.copy_cert paths.cert (backup_of paths.cert) files)

-- The copies of the old pair, made where there is an old certificate.
unfoldable pub back_up : Faults → Paths → Files → Files
back_up faults paths files = backed_up (get paths.cert files) faults paths files

abbrev pub written_key : Files × Result (Unit {0}) String → Files × Result (Unit {0}) String
written_key (files, r) = (files, map_err (λ e. format ("Failed to write new key: " ∷ e ∷ [])) r)

abbrev pub written_cert :
    Faults → Paths → String → Files × Result (Unit {0}) String → Files × Result (Unit {0}) String
written_cert faults paths key (files, err e) =
    (files, err (format ("Failed to write new certificate: " ∷ e ∷ [])))
written_cert faults paths key (files, ok _) =
    written_key (write_file faults.write_key paths.key key files)

-- The certificate is written first, and stays when the key cannot be written.
unfoldable pub write_new :
    Faults → Paths → String → String → Files → Files × Result (Unit {0}) String
write_new faults paths cert key files =
    written_cert faults paths key (write_file faults.write_cert paths.cert cert files)

unfoldable pub store : Faults → Paths → String → String → Files → Files × Result (Unit {0}) String
store faults paths cert key files = write_new faults paths cert key (back_up faults paths files)

-- A time is a number of nanoseconds since the epoch, and a timestamp the same in seconds.
abbrev pub second : ℕ
second = 1000000000

abbrev pub day : ℕ
day = 86400 * second

-- The `pem` and `x509_parser` packages, `timestamp_opt`, and `to_rfc3339`.
pub record Parsers : Type 0 where
  pub pem : String → Result String String
  pub not_after : String → Result ℕ String
  pub timestamp : ℕ → Option ℕ
  pub print : ℕ → String

abbrev single : Option ℕ → Result ℕ String
single (some t) = ok t
single none = err "Invalid timestamp in certificate"

unfoldable pub parse_cert_expiry : Parsers → String → Result ℕ String
parse_cert_expiry p cert_pem = do
  der ← map_err (λ e. format ("Failed to parse PEM: " ∷ e ∷ [])) (p.pem cert_pem)
  t ← map_err (λ e. format ("Failed to parse X.509 certificate: " ∷ e ∷ [])) (p.not_after der)
  single (p.timestamp t)

-- `now >= expiry - days`.
abbrev pub is_due : ℕ → ℕ → ℕ → Bool
is_due threshold_days now expiry = leb expiry (now + threshold_days * day)

abbrev pub exists : String → Files → Bool
exists path files = is_some (get path files)

abbrev pub opened : Option String → Option String → Result String String
opened fault none = err "No such file or directory (os error 2)"
opened none (some text) = ok text
opened (some e) (some text) = err e

-- `fs::read_to_string`, with the fault that a file can have although it is there.
abbrev pub read_file : Option String → String → Files → Result String String
read_file fault path files = opened fault (get path files)

unfoldable pub check_cert_needs_renewal :
    Parsers → Option String → String → ℕ → ℕ → Files → Result Bool String
check_cert_needs_renewal p fault path threshold_days now files = do
  cert_pem ←
      map_err (λ e. format ("Failed to read certificate: " ∷ e ∷ [])) (read_file fault path files)
  expiry ← parse_cert_expiry p cert_pem
  ok (is_due threshold_days now expiry)
