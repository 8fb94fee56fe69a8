-- ===== src/Agent/Mtls/Laws.antt =====
-- What the TLS configuration asks of a client, and what that means for the authorisation.
use keelos.Prelude.{
  ◌≡◌, ◌≢◌, refl, arith, String, is_empty, join, true, false, Option, none, some, List, ◌++◌,
  Result, ok,
}
use keelos.Agent.Rbac.{Role, authorize}
use keelos.Agent.Mtls.{
  Entry, TlsFiles, ServerTlsConfig, build_tls_config, bootstrap_cas, operational_cas,
}

-- The handshake: the peer certificates of a connection that is accepted, for what the client shows.
abbrev pub Handshake : Type 0 → Type 0
Handshake Cert = ServerTlsConfig → Option (List Cert) → Option (Option (List Cert))

-- The documented meaning of `client_auth_optional(true)`: a client that shows no certificate is
-- accepted, and has no peer certificates.
abbrev pub AllowsAnonymous : {Cert : Type 0} → Handshake Cert → Type 0
AllowsAnonymous accept =
    (c : ServerTlsConfig) → c.client_auth_optional ≡ true → accept c none ≡ some none

-- Every configuration that the manager builds lets clients in without a certificate as soon as it
-- has roots to check client certificates with.
pub roots-optional :
    (f : TlsFiles) (c : ServerTlsConfig)
    → build_tls_config f ≡ ok c
    → c.client_ca_root ≢ none
    → c.client_auth_optional ≡ true
unfolding build_tls_config
roots-optional f c h r = ground arith

-- The roots of a configuration, where the directory can be listed and there is a root at all.
pub client_ca_root-build :
    (f : TlsFiles) (c : ServerTlsConfig) (entries : List (Result Entry String)) (cas : List String)
    → f.bootstrap_dir ≡ some (ok entries)
    → bootstrap_cas entries ≡ ok cas
    → is_empty (join "\n" (cas ++ operational_cas f.operational_ca)) ≡ false
    → build_tls_config f ≡ ok c
    → c.client_ca_root ≡ some (join "\n" (cas ++ operational_cas f.operational_ca))
unfolding build_tls_config
client_ca_root-build f c entries cas d b n h = ground (arith, d, b, n, h)

module _ {Cert : Type 0} (organizations : Cert → Result (List (Option String)) String) where
  -- On a server whose TLS configuration has client roots, a client that shows no certificate is
  -- accepted, and `authorize` grants it every role, Admin included.
  pub anonymous_is_admin :
      (accept : Handshake Cert) (f : TlsFiles) (c : ServerTlsConfig) (need : Role)
      → AllowsAnonymous accept
      → build_tls_config f ≡ ok c
      → c.client_ca_root ≢ none
      → (certs : Option (List Cert)) × (accept c none ≡ some certs)
        × (authorize organizations certs need ≡ ok tt)
  unfolding authorize
  anonymous_is_admin accept f c need anonymous h r =
      (none, anonymous c (roots-optional f c h r), refl)
