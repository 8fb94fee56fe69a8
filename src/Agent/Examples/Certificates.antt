-- ===== src/Agent/Examples/Certificates.antt =====
-- The theorems about certificates at a node with an old pair, and a cluster that signs every request
-- at once and refuses a name that it has.
use keelos.Prelude.{
  ◌+◌, ◌≡◌, refl, ℕ, ◌*◌, ◌/◌, ◌≤◌, Bool, Bool-cases, inl, inr, if◌then◌else◌, arith, true, false,
  ◌||◌, String, str_eq, eq_refl, is_some, none, some, List, [], ◌∷◌, Result, ok, err,
}
use keelos.Prelude.Dict.{get, put}
use keelos.Agent.Status.{Status}
use keelos.Agent.Certificates.Csr.{
  Api, CertificateSigningRequest, request_certificate, wait_for_certificate,
}
use keelos.Agent.Certificates.Store.{
  Faults, Parsers, operational, backup_of, second, parse_cert_expiry, store, back_up, copy_file,
  write_new, write_file,
}
use keelos.Agent.Certificates.Rotation.{
  World, Env, RotateCertificateResponse, service_account, node_name, rotate_certificate,
  init_k8s_certificates,
}
use keelos.Agent.Certificates.Renewal.{
  left, CertificateMetrics, CertRenewalManager, Round, check_and_renew,
}
use keelos.Agent.Certificates.Twice.{Remembers, rotate_twice}
use keelos.Agent.Certificates.Rotated.{rotate-pair, rotate-backup}
use keelos.Agent.Certificates.Mismatched.{rotate-mismatched}
use keelos.Agent.Certificates.Due.{renew-quiet}

abbrev has : String → List String → Bool
has name [] = false
has name (n ∷ names) = str_eq n name || has name names

abbrev create : CertificateSigningRequest → List String → List String × Result (Unit {0}) String
create csr names =
    if has csr.name names then (names, err "AlreadyExists") else (csr.name ∷ names, ok tt)

abbrev api : Api (List String)
api = record {
  create = create;
  approve = λ name names. (names, ok tt);
  fetch = λ name names. (names, ok (some (ok "new")));
  encode = λ pem. pem;
}

creates_lem :
    (csr : CertificateSigningRequest) (names : List String)
    → (create csr names).1 ≡ ok tt
    → has csr.name (create csr names).0 ≡ true
creates_lem csr names h = elim (Bool-cases (has csr.name names)) [
  | inl e ↦ rw e e
  | inr e ↦ rw (e, eq_refl csr.name) refl
]

refuses_lem :
    (csr : CertificateSigningRequest) (names : List String)
    → has csr.name names ≡ true
    → (e : String) × ((create csr names).1 ≡ err e)
refuses_lem csr names h = ("AlreadyExists", rw h refl)

law : Remembers api
law = record {
  has = has;
  creates = creates_lem;
  refuses = refuses_lem;
  approves = λ name other names h. h;
  fetches = λ name other names h. h;
}

abbrev parsers : Parsers
parsers = record {
  pem = λ s. ok s;
  not_after = λ s. ok 9000000;
  timestamp = λ t. some (t * second);
  print = λ t. "1970-04-15T04:00:00+00:00";
}

abbrev no_faults : Faults
no_faults = record { copy_cert = none; copy_key = none; write_cert = none; write_key = none }

abbrev env : Env
env = record {
  node_variable = none;
  hostname = some "node-1";
  client_fault = none;
  generated = ok ("request", "new key");
  dir_fault = none;
  faults = no_faults;
}

abbrev full : Env
full = record env {
  faults = record no_faults { write_key = some ("No space left on device", none) };
}

abbrev world : World (List String)
world = record {
  files =
      (service_account, "token") ∷ (operational.cert, "old") ∷ (operational.key, "old key") ∷ [];
  cluster = "keel-agent-node-2" ∷ [];
}

abbrev response : RotateCertificateResponse
response = record {
  success = true;
  message = "Certificate rotated successfully";
  cert_path = operational.cert;
  expires_at = "1970-04-15T04:00:00+00:00";
}

succeeds : (rotate_certificate api parsers env world).1 ≡ ok response
unfolding rotate_certificate request_certificate wait_for_certificate store back_up copy_file
    write_new write_file parse_cert_expiry get put
succeeds = refl

given :
    (request_certificate api "node-1" (ok ("request", "new key")) world.cluster).1
    ≡ ok ("new", "new key")
unfolding request_certificate wait_for_certificate
given = refl

old_cert : get operational.cert world.files ≡ some "old"
unfolding get
old_cert = refl

old_key : get operational.key world.files ≡ some "old key"
unfolding get
old_key = refl

rotate-pair_example :
    let files = (rotate_certificate api parsers env world).0.files in
    (node cert key : String) × (node_name env ≡ some node)
    × ((request_certificate api node env.generated world.cluster).1 ≡ ok (cert, key))
    × (get operational.cert files ≡ some cert)
    × (get operational.key files ≡ some key)
rotate-pair_example = rotate-pair api parsers env world response succeeds

rotate-backup_example :
    let files = (rotate_certificate api parsers env world).0.files in
    (get (backup_of operational.cert) files ≡ some "old")
    × (get (backup_of operational.key) files ≡ some "old key")
rotate-backup_example =
    rotate-backup api parsers env world response "old" "old key" succeeds old_cert old_key refl refl

rotate_twice_example :
    (s : Status) × ((rotate_certificate api parsers env
        (rotate_certificate api parsers env world).0).1
      ≡ err s)
rotate_twice_example =
    rotate_twice api law parsers env env world (rotate_certificate api parsers env world).0 response
      succeeds refl refl

in_cluster : is_some (get service_account world.files) ≡ true
unfolding get
in_cluster = refl

rotate-mismatched_example :
    let (after, reply) = rotate_certificate api parsers full world in
    ((s : Status) × (reply ≡ err s))
    × (get operational.cert after.files ≡ some "new")
    × (get operational.key after.files ≡ some "old key")
    × (init_k8s_certificates api env after ≡ (after, true))
rotate-mismatched_example =
    rotate-mismatched api parsers full env world "node-1" "node-1" "new" "new key" "old key"
      "No space left on device" in_cluster refl refl refl given old_key refl refl

abbrev manager : CertRenewalManager
manager = record { paths = operational; threshold_days = 30 }

abbrev round : Round
round = record {
  now = 86400 * second;
  shown_at = 86402 * second;
  read_fault = none;
  log_fault = none;
  shown_fault = none;
}

abbrev metrics : CertificateMetrics
metrics = record { renewals_success = 2; renewals_error = []; cert_state = none }

expiry_lem : parse_cert_expiry parsers "old" ≡ ok (9000000 * second)
unfolding parse_cert_expiry
expiry_lem = refl

renew-quiet_example :
    (days : ℕ) × (check_and_renew api parsers manager env round world metrics ≡ (
      world,
      record metrics {
        cert_state =
            some (record {
              expiry_timestamp = (9000000 * second) / second;
              days_remaining = left days;
            });
      },
      ok tt,
    ))
    × (30 ≤ days + 1)
renew-quiet_example =
    renew-quiet api parsers manager env round world metrics "old" (9000000 * second) old_cert refl
      refl expiry_lem (omega arith) (omega arith) (omega arith)
