-- ===== src/Agent/Certificates/Rotation.antt =====
-- `rotate_certificate` of cmd/keel-agent/src/lib.rs, behind its authorisation, and
-- `init_k8s_certificates` of main.rs. The files and the cluster are the state.
use keelos.Prelude.{
  if◌then◌else◌, String, format, Bool, true, false, not, ◌&&◌, Option, none, some, [], ◌∷◌, Result,
  ok, err,
}
use keelos.Agent.Status.{Status, failed_precondition, internal}
use keelos.Agent.Certificates.Csr.{Api, request_certificate}
use keelos.Agent.Certificates.Store.{
  Files, Faults, Parsers, operational, exists, write_file, store, parse_cert_expiry,
}

pub record World (K : Type 0) : Type 0 where
  pub files : Files
  pub cluster : K

-- The variable NODE_NAME, the hostname where it is a text, the fault of `Client::try_default`,
-- what rcgen generates, and the faults of `create_dir_all` and of the files.
pub record Env : Type 0 where
  pub node_variable : Option String
  pub hostname : Option String
  pub client_fault : Option String
  pub generated : Result (String × String) String
  pub dir_fault : Option String
  pub faults : Faults

abbrev pub service_account : String
service_account = "/var/run/secrets/kubernetes.io/serviceaccount/token"

abbrev pub node_name : Env → Option String
node_name env = elim env.node_variable [ some n ↦ some n | none ↦ env.hostname ]

pub record RotateCertificateResponse : Type 0 where
  pub success : Bool
  pub message : String
  pub cert_path : String
  pub expires_at : String

abbrev failed : String → String → Status
failed what e = record { code = internal; message = format (what ∷ e ∷ []) }

abbrev expires_at : Parsers → String → String
expires_at p cert = elim (parse_cert_expiry p cert) [ ok t ↦ p.print t | err _ ↦ "Unknown" ]

module _ {K : Type 0} (api : Api K) where
  abbrev pub reworded :
      (String → String) → K × Result (String × String) String → K × Result (String × String) String
  reworded no_request (k, ok pair) = (k, ok pair)
  reworded no_request (k, err e) = (k, err (no_request e))

  -- The pair that the cluster gives for this node, or the error of the client or of the request.
  abbrev pub requested :
      (String → String)
      → (String → String)
      → Option String
      → Env
      → String
      → K
      → K × Result (String × String) String
  requested no_client no_request (some e) env node k = (k, err (no_client e))
  requested no_client no_request none env node k =
      reworded no_request (request_certificate api node env.generated k)

  abbrev pub rotated :
      Parsers → String → Files × Result (Unit {0}) String → Result RotateCertificateResponse Status
  rotated p cert (files, err e) = err (record { code = internal; message = e })
  rotated p cert (files, ok _) = ok (record {
    success = true;
    message = "Certificate rotated successfully";
    cert_path = operational.cert;
    expires_at = expires_at p cert;
  })

  abbrev pub issued :
      Parsers
      → Env
      → Files
      → K × Result (String × String) String
      → World K × Result RotateCertificateResponse Status
  issued p env files (k, err e) =
      (record { files = files; cluster = k }, err (record { code = internal; message = e }))
  issued p env files (k, ok (cert, key)) =
      let stored = store env.faults operational cert key files in
      (record { files = stored.0; cluster = k }, rotated p cert stored)

  abbrev pub for_node :
      Parsers → Env → Option String → World K → World K × Result RotateCertificateResponse Status
  for_node p env none w =
      (w, err (record { code = internal; message = "Failed to determine node name" }))
  for_node p env (some node) w = issued p env w.files (
      requested (λ e. format ("Failed to initialize CSR manager: " ∷ e ∷ []))
        (λ e. format ("Rotation failed: " ∷ e ∷ [])) env.client_fault env node w.cluster)

  unfoldable pub rotate_certificate :
      Parsers → Env → World K → World K × Result RotateCertificateResponse Status
  rotate_certificate p env w =
      if not (exists service_account w.files)
      then (
        w,
        err (record {
          code = failed_precondition;
          message = "Not running in Kubernetes - rotation only available in K8s clusters";
        }),
      )
      else for_node p env (node_name env) w

  -- Whether the pair is there in the end, and the files. An error of a write is only logged.
  abbrev pub first_key : Files × Result (Unit {0}) String → Files × Bool
  first_key (files, ok _) = (files, true)
  first_key (files, err _) = (files, false)

  abbrev pub first_cert : Env → String → Files × Result (Unit {0}) String → Files × Bool
  first_cert env key (files, err _) = (files, false)
  first_cert env key (files, ok _) =
      first_key (write_file env.faults.write_key operational.key key files)

  abbrev pub first_pair : Env → String → String → Option String → Files → Files × Bool
  first_pair env cert key (some e) files = (files, false)
  first_pair env cert key none files =
      first_cert env key (write_file env.faults.write_cert operational.cert cert files)

  abbrev pub first_issued : Env → Files → K × Result (String × String) String → World K × Bool
  first_issued env files (k, err _) = (record { files = files; cluster = k }, false)
  first_issued env files (k, ok (cert, key)) =
      let (after, there) = first_pair env cert key env.dir_fault files in
      (record { files = after; cluster = k }, there)

  abbrev pub first_for : Env → Option String → World K → World K × Bool
  first_for env none w = (w, false)
  first_for env (some node) w =
      if exists operational.cert w.files && exists operational.key w.files
      then (w, true)
      else first_issued env w.files
          (requested (λ e. e) (λ e. e) env.client_fault env node w.cluster)

  -- At the start of the agent. An existing pair is used as it is.
  unfoldable pub init_k8s_certificates : Env → World K → World K × Bool
  init_k8s_certificates env w =
      if not (exists service_account w.files) then (w, false) else first_for env (node_name env) w
