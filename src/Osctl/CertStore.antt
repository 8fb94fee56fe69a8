-- ===== src/Osctl/CertStore.antt =====
-- cmd/osctl/src/cert_store.rs, and what `connect_with_auto_tls` and `init bootstrap` of
-- cmd/osctl/src/main.rs do with it. A path is a text, and the directories that exist are listed.
pub mod Laws
use Prim.Native.Char.{Char, code}
use Prim.Native.String
use keelos.Prelude.{
  ℕ, zero, suc, ◌-◌, ◌==◌, ◌&&◌, ◌||◌, not, is_some, if◌then◌else◌, any, String, str_eq, len,
  format, cons, has_prefix, split, Bool, Option, none, some, List, [], ◌∷◌, Result, ok, err, ◌>>=◌,
}
use keelos.Prelude.Dict.{Dict, get, put}
use keelos.Agent.Certificates.Store.{Fault, write_file}

pub record CertificatePaths : Type 0 where
  pub cert : String
  pub key : String
  pub ca : Option String

-- The files by their paths, the directories, and the modes that were set.
pub record Disk : Type 0 where
  pub files : Dict String
  pub dirs : List String
  pub modes : Dict ℕ

-- The faults of one save: of the directory, of the three writes, and of the mode.
pub record Faults : Type 0 where
  pub dir : Option String
  pub cert : Option Fault
  pub key : Option Fault
  pub mode : Option String
  pub ca : Option Fault

-- `Path::join`: a path from the root replaces what is before it.
abbrev pub join_path : String → String → String
join_path base path = if has_prefix path "/" then path else format (base ∷ "/" ∷ path ∷ [])

abbrev pub cert_dir : String → String → String → String
cert_dir base_dir node_id tier = join_path (join_path base_dir node_id) tier

abbrev pub paths_in : String → Option String → CertificatePaths
paths_in dir ca = record {
  cert = join_path dir "client.pem";
  key = join_path dir "client.key";
  ca = ca;
}

abbrev pub ca_path : String → String
ca_path dir = join_path dir "ca.pem"

-- A step that may fail, with what it leaves on the disk; the rest follows if it does not.
abbrev pub Step : Type 0 → Type 0
Step A = Disk × Result A String

abbrev pub and_then : {A B : Type 0} → Step A → (A → Disk → Step B) → Step B
and_then (d, ok a) next = next a d
and_then (d, err e) next = (d, err e)

abbrev pub make_dir : Option String → String → Disk → Step (Unit {0})
make_dir none dir d = (record d { dirs = dir ∷ d.dirs }, ok tt)
make_dir (some e) dir d = (d, err e)

abbrev pub write_to : Option Fault → String → String → Disk → Step (Unit {0})
write_to fault path text d =
    let (files, r) = write_file fault path text d.files in (record d { files = files }, r)

-- 384 is 0o600.
abbrev pub restrict : Option String → String → Disk → Step (Unit {0})
restrict none path d = (record d { modes = put path 384 d.modes }, ok tt)
restrict (some e) path d = (d, err e)

abbrev pub save_ca : Option Fault → String → Option String → Disk → Step (Option String)
save_ca fault dir none d = (d, ok none)
save_ca fault dir (some ca) d =
    and_then (write_to fault (ca_path dir) ca d) (λ _ e. (e, ok (some (ca_path dir))))

unfoldable pub save_certs :
    String
    → Faults
    → String
    → String
    → String
    → String
    → Option String
    → Disk
    → Step CertificatePaths
save_certs base_dir f node_id tier cert_pem key_pem ca_pem d =
    let dir = cert_dir base_dir node_id tier in
    let to = paths_in dir none in
    and_then (make_dir f.dir dir d) (λ _ d1. and_then (write_to f.cert to.cert cert_pem d1) (λ _ d2.
      and_then (write_to f.key to.key key_pem d2) (λ _ d3.
        and_then (restrict f.mode to.key d3)
          (λ _ d4. and_then (save_ca f.ca dir ca_pem d4) (λ ca d5. (d5, ok (paths_in dir ca)))))))

abbrev pub exists : String → Disk → Bool
exists path d = is_some (get path d.files)

unfoldable pub load_certs : String → String → String → Disk → Result CertificatePaths String
load_certs base_dir node_id tier d =
    let dir = cert_dir base_dir node_id tier in
    let from = paths_in dir (if exists (ca_path dir) d then some (ca_path dir) else none) in
    if not (any (str_eq dir) d.dirs)
    then err (format ("No certificates found for node " ∷ node_id ∷ " tier " ∷ tier ∷ []))
    else if not (exists from.cert d) || not (exists from.key d)
    then err "Certificate files not found"
    else ok from

abbrev pub best :
    String
    → Result CertificatePaths String
    → Result CertificatePaths String
    → Result (String × CertificatePaths) String
best node_id (ok paths) bootstrap = ok ("operational", paths)
best node_id (err _) (ok paths) = ok ("bootstrap", paths)
best node_id (err _) (err _) = err (format ("No certificates found for node " ∷ node_id ∷ []))

unfoldable pub find_best_cert : String → String → Disk → Result (String × CertificatePaths) String
find_best_cert base_dir node_id d =
    best node_id (load_certs base_dir node_id "operational" d)
      (load_certs base_dir node_id "bootstrap" d)

-- `trim_start_matches` of a text that is not empty: how much of an occurrence is still to be
-- skipped, and the text.
unfoldable pub trim_matches : String → ℕ → String → String
trim_matches p k String.[] = ""
trim_matches p (suc k) (String.◌∷◌ c s) = trim_matches p k s
trim_matches p zero (String.◌∷◌ c s) =
    let later = trim_matches p (len p - 1) s in if has_prefix (cons c s) p then later else cons c s

-- `replace(['.', ':'], "_")`.
unfoldable pub underscored : String → String
underscored String.[] = ""
underscored (String.◌∷◌ c s) =
    cons (if code c == b'.' || code c == b':' then "_" else c) (underscored s)

abbrev pub first_of : List String → String
first_of [] = ""
first_of (p ∷ ps) = p

-- The list of the pieces is never empty, so that the function never fails.
unfoldable pub extract_node_from_endpoint : String → String
extract_node_from_endpoint endpoint =
    let url = trim_matches "https://" 0 (trim_matches "http://" 0 endpoint) in
    underscored (first_of (split b':' url))

abbrev pub pair_of : String → Option String → Option String → Option (String × String × String)
pair_of tier (some cert) (some key) = some (tier, cert, key)
pair_of tier _ _ = none

-- What is read of a pair: its files are there, so that reading gives their texts.
abbrev pub identity_in :
    Disk → Result (String × CertificatePaths) String → Option (String × String × String)
identity_in d (ok (tier, paths)) = pair_of tier (get paths.cert d.files) (get paths.key d.files)
identity_in d (err _) = none

-- The tier and the pair with which `connect_with_auto_tls` identifies the client, if any.
unfoldable pub identity_for : String → String → Disk → Option (String × String × String)
identity_for base_dir endpoint d =
    identity_in d (find_best_cert base_dir (extract_node_from_endpoint endpoint) d)
