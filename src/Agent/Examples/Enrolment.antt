-- ===== src/Agent/Examples/Enrolment.antt =====
-- The theorem about `init_bootstrap` at a directory that holds one certificate.
use keelos.Prelude.{◌≡◌, refl, String, contains, join, true, none, some, List, [], ◌∷◌, In, ok}
use keelos.Agent.Mtls.{TlsFiles, ServerTlsConfig, build_tls_config}
use keelos.Agent.Enrolment.{Trusted, Env, init_bootstrap, is_pem, tls_dir, validate_bootstrap_cert}
use keelos.Prelude.Dict.{put}
use keelos.Agent.Enrolment.Laws.{init_bootstrap-root}

abbrev env : Env
env = record { hash = λ pem. "5eed"; dir_fault = none; write_fault = none }

abbrev trusted : Trusted
trusted = some (("README", "no certificate") ∷ ("client-1.pem", "old") ∷ [])

abbrev intruder : String
intruder = "-----BEGIN CERTIFICATE-----"

abbrev files : TlsFiles
files = record {
  server_cert = some (ok "cert");
  server_key = some (ok "key");
  bootstrap_dir = tls_dir (init_bootstrap intruder env trusted).0;
  operational_ca = none;
}

abbrev config : ServerTlsConfig
config = record {
  cert_pem = "cert";
  key_pem = "key";
  client_ca_root = some "old\n-----BEGIN CERTIFICATE-----";
  client_auth_optional = true;
}

is_cert : contains intruder "BEGIN CERTIFICATE" ≡ true
unfolding contains
is_cert = refl

built : build_tls_config files ≡ ok config
unfolding build_tls_config init_bootstrap is_pem validate_bootstrap_cert put
built = refl

init_bootstrap-root_example :
    ((init_bootstrap intruder env trusted).1.success ≡ true)
    × ((cas : List String) × In intruder cas × (config.client_ca_root ≡ some (join "\n" cas)))
init_bootstrap-root_example =
    init_bootstrap-root intruder env trusted files config is_cert refl refl refl built
