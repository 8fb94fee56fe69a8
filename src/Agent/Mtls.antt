-- ===== src/Agent/Mtls.antt =====
-- cmd/keel-agent/src/mtls.rs: the TLS configuration of the server. The files that it reads are the
-- state; the handshake itself (tonic, rustls) is a parameter.
pub mod Laws
use keelos.Prelude.{
  String, is_empty, join, if◌then◌else◌, Bool, true, false, ◌&&◌, Option, none, some, List, [], ◌∷◌,
  ◌++◌, Result, is_ok, ok, err, ◌>>=◌, to_option, not,
}

-- A file that exists, with what reading it gives.
abbrev pub File : Type 0
File = Option (Result String String)

-- An entry of the directory of bootstrap certificates: whether its name ends in `.pem`, and what
-- reading it gives.
pub record Entry : Type 0 where
  pub is_pem : Bool
  pub content : Result String String

-- The files at the paths of a `TlsManager`: the directory is there or not, and listing it or going
-- to its next entry may fail.
pub record TlsFiles : Type 0 where
  pub server_cert : File
  pub server_key : File
  pub bootstrap_dir : Option (Result (List (Result Entry String)) String)
  pub operational_ca : Option File  -- `none`: no path is configured

-- `ServerTlsConfig`: the identity, the roots for client certificates, and whether a client may
-- come without one.
pub record ServerTlsConfig : Type 0 where
  pub cert_pem : String
  pub key_pem : String
  pub client_ca_root : Option String
  pub client_auth_optional : Bool

exists : File → Bool
exists none = false
exists (some _) = true

read : File → Result String String
read none = err "No such file or directory"
read (some r) = r

unfoldable pub can_configure : TlsFiles → Bool
unfolding exists
can_configure f = exists f.server_cert && exists f.server_key

-- The loop over the directory: a `.pem` that cannot be read is skipped.
unfoldable pub bootstrap_cas : List (Result Entry String) → Result (List String) String
bootstrap_cas [] = ok []
bootstrap_cas (err e ∷ rest) = err e
bootstrap_cas (ok entry ∷ rest) = do
  later ← bootstrap_cas rest
  ok (if entry.is_pem then (elim entry.content [ ok pem ↦ pem ∷ later | err _ ↦ later ]) else later)

dir_cas : Option (Result (List (Result Entry String)) String) → Result (List String) String
unfolding bootstrap_cas
dir_cas none = ok []
dir_cas (some (err e)) = err e
dir_cas (some (ok entries)) = bootstrap_cas entries

pub operational_cas : Option File → List String
operational_cas (some (some (ok pem))) = pem ∷ []
operational_cas _ = []

with_roots : ServerTlsConfig → String → ServerTlsConfig
with_roots c combined =
    if is_empty combined
    then c
    else record c { client_ca_root = some combined; client_auth_optional = true }

unfoldable pub build_tls_config : TlsFiles → Result ServerTlsConfig String
unfolding read dir_cas operational_cas join with_roots
build_tls_config f = do
  cert_pem ← read f.server_cert
  key_pem ← read f.server_key
  cas ← dir_cas f.bootstrap_dir
  ok (
      with_roots
        (record {
          cert_pem = cert_pem;
          key_pem = key_pem;
          client_ca_root = none;
          client_auth_optional = false;
        })
        (join "\n" (cas ++ operational_cas f.operational_ca)))
