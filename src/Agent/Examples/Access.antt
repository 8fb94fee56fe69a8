-- ===== src/Agent/Examples/Access.antt =====
-- The theorems about authorisation at concrete certificates and files.
use keelos.Prelude.{
  ◌≡◌, ◌≢◌, ◌≤◌, ◌↔◌, refl, arith, if◌then◌else◌, String, true, Option, none, some, List, [], ◌∷◌,
  Result, ok,
}
use keelos.Agent.Rbac.{Role, viewer, admin, privilege_level, authorize}
use keelos.Agent.Rbac.Laws.{Finds, authorize_iff}
use keelos.Agent.Mtls.{TlsFiles, ServerTlsConfig, build_tls_config}
use keelos.Agent.Mtls.Laws.{Handshake, AllowsAnonymous, anonymous_is_admin}

-- A certificate is the list of its Organization values.
abbrev Cert : Type 0
Cert = List (Option String)

abbrev organizations : Cert → Result (List (Option String)) String
organizations c = ok c

abbrev cert : Cert
cert = some "example" ∷ some "keel:operator" ∷ []

authorize_iff_example : (authorize organizations (some (cert ∷ [])) viewer ≡ ok tt) ↔ (
    (r : Role) × (orgs : List (Option String)) × (organizations cert ≡ ok orgs)
    × Finds r orgs
    × (privilege_level viewer ≤ privilege_level r))
authorize_iff_example = authorize_iff organizations cert [] viewer

abbrev files : TlsFiles
files = record {
  server_cert = some (ok "cert");
  server_key = some (ok "key");
  bootstrap_dir = none;
  operational_ca = some (some (ok "ca"));
}

abbrev tls : ServerTlsConfig
tls = record {
  cert_pem = "cert";
  key_pem = "key";
  client_ca_root = some "ca";
  client_auth_optional = true;
}

built : build_tls_config files ≡ ok tls
unfolding build_tls_config
built = refl

has_roots : tls.client_ca_root ≢ none
has_roots h = ground arith

-- A server that asks for a certificate exactly when the configuration says so.
abbrev accept : Handshake Cert
accept c (some chain) = some (some chain)
accept c none = if c.client_auth_optional then some none else none

accept-AllowsAnonymous : AllowsAnonymous accept
accept-AllowsAnonymous c h = ground arith

anonymous_is_admin_example :
    (certs : Option (List Cert)) × (accept tls none ≡ some certs)
    × (authorize organizations certs admin ≡ ok tt)
anonymous_is_admin_example =
    anonymous_is_admin organizations accept files tls admin accept-AllowsAnonymous built has_roots
