-- ===== src/Agent/Enrolment.antt =====
-- cmd/keel-agent/src/lib.rs, `init_bootstrap`, with `validate_bootstrap_cert` of pkg/crypto/src/lib.rs,
-- and the directory that it shares with cmd/keel-agent/src/mtls.rs. The hash of the certificate's
-- text and the faults of the disk are what a call is given.
pub mod Laws
use Prim.Native.String
use keelos.Prelude.{
  if◌then◌else◌, String, str_eq, format, contains, not, ◌||◌, ◌&&◌, Bool, true, false, Option, none,
  some, List, [], ◌∷◌, map, Result, ok, err,
}
use keelos.Prelude.Dict.{Dict, put}
use keelos.Agent.Mtls.{Entry}

-- The directory of the trusted bootstrap certificates: the files in it by name, if it is there.
abbrev pub Trusted : Type 0
Trusted = Option (Dict String)

pub record InitBootstrapResponse : Type 0 where
  pub success : Bool
  pub message : String

-- The `{:x}` of the hasher's result, the fault of `create_dir_all`, and that of the write with
-- what it leaves in the file.
pub record Env : Type 0 where
  pub hash : String → String
  pub dir_fault : Option String
  pub write_fault : Option (String × Option String)

-- `CryptoError::Cert` in its text form.
unfoldable pub validate_bootstrap_cert : String → Result (Unit {0}) String
unfolding contains
validate_bootstrap_cert pem =
    if not (contains pem "BEGIN CERTIFICATE")
    then err "Certificate error: Invalid PEM format"
    else ok tt

abbrev pub cert_name : Env → String → String
cert_name env pem = format ("client-" ∷ env.hash pem ∷ ".pem" ∷ [])

abbrev failure : String → String → InitBootstrapResponse
failure what e = record { success = false; message = format (what ∷ e ∷ []) }

abbrev pub in_dir : Trusted → Dict String
in_dir none = []
in_dir (some files) = files

abbrev left_in : Option String → String → Dict String → Dict String
left_in none name files = files
left_in (some text) name files = put name text files

abbrev pub write_cert :
    Option (String × Option String)
    → String
    → String
    → Dict String
    → Trusted × InitBootstrapResponse
write_cert none name pem files = (
  some (put name pem files),
  record { success = true; message = "Bootstrap certificate accepted and stored" },
)
write_cert (some (e, left)) name pem files =
    (some (left_in left name files), failure "Failed to write certificate: " e)

abbrev pub with_dir : Option String → String → Env → Trusted → Trusted × InitBootstrapResponse
with_dir none pem env trusted = write_cert env.write_fault (cert_name env pem) pem (in_dir trusted)
with_dir (some e) pem env trusted = (trusted, failure "Failed to create cert directory: " e)

abbrev pub accepted :
    Result (Unit {0}) String → String → Env → Trusted → Trusted × InitBootstrapResponse
accepted (ok _) pem env trusted = with_dir env.dir_fault pem env trusted
accepted (err e) pem env trusted = (trusted, failure "Invalid certificate: " e)

-- The response is never a `Status`: `success` says what happened. Nobody is asked who they are.
unfoldable pub init_bootstrap : String → Env → Trusted → Trusted × InitBootstrapResponse
init_bootstrap pem env trusted = accepted (validate_bootstrap_cert pem) pem env trusted

-- `path.extension() == "pem"`: the name has a part in front of its last dot.
abbrev pub ends_with : String → String → Bool
ends_with String.[] p = str_eq "" p
ends_with (String.◌∷◌ c s) p = str_eq (String.◌∷◌ c s) p || ends_with s p

unfoldable pub is_pem : String → Bool
is_pem name = ends_with name ".pem" && not (str_eq name ".pem")

abbrev pub entry_of : String × String → Result Entry String
entry_of (name, text) = ok (record { is_pem = is_pem name; content = ok text })

-- The directory as `build_tls_config` reads it, with no fault of the disk.
abbrev pub tls_dir : Trusted → Option (Result (List (Result Entry String)) String)
tls_dir none = none
tls_dir (some files) = some (ok (map entry_of files))
