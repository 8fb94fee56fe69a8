-- ===== src/Agent/Certificates/Issued.antt =====
-- What a rotation that succeeds, of cmd/keel-agent/src/lib.rs, got from the cluster and wrote.
use keelos.Prelude.{
  ◌≡◌, refl, Bool-cases, if◌then◌else◌, arith, inl, inr, String, str_eq, format, Option,
  Option-cases, none, some, [], ◌∷◌, Result, ok, err,
}
use keelos.Prelude.Dict.{get, get-put}
use keelos.Agent.Certificates.Csr.{Api, request_certificate}
use keelos.Agent.Certificates.Store.{
  Files, Faults, Paths, Parsers, operational, exists, write_file, write_new, store,
}
use keelos.Agent.Certificates.Rotation.{
  World, Env, RotateCertificateResponse, service_account, node_name, requested, reworded, rotated,
  issued, for_node, rotate_certificate,
}

pub write_file-get :
    (path text q : String) (files : Files)
    → get q (write_file none path text files).0 ≡ (if str_eq path q then some text else get q files)
unfolding write_file
write_file-get path text q files = get-put path q text files

-- Both writes of a stored pair had no fault.
pub write_new-ok :
    (faults : Faults) (paths : Paths) (cert key : String) (files : Files)
    → (write_new faults paths cert key files).1 ≡ ok tt
    → (faults.write_cert ≡ none) × (faults.write_key ≡ none)
unfolding write_new write_file
write_new-ok faults paths cert key files h =
    ground (arith, Option-cases faults.write_cert, Option-cases faults.write_key)

module _ {K : Type 0} (api : Api K) (p : Parsers) where
  -- A rotation that succeeds got a pair from the cluster, and wrote it.
  pub record IsIssued (env : Env) (w after : World K) : Type 0 where
    pub node : String
    pub named : node_name env ≡ some node
    pub cert : String
    pub key : String
    pub given : (request_certificate api node env.generated w.cluster).1 ≡ ok (cert, key)
    pub cluster_after : after.cluster ≡ (request_certificate api node env.generated w.cluster).0
    pub files_after : after.files ≡ (store env.faults operational cert key w.files).0
    pub written : (store env.faults operational cert key w.files).1 ≡ ok tt

  reworded-ok :
      (no_request : String → String) (x : K × Result (String × String) String) (cert key : String)
      → (reworded api no_request x).1 ≡ ok (cert, key)
      → (x.1 ≡ ok (cert, key)) × ((reworded api no_request x).0 ≡ x.0)
  reworded-ok no_request (k, ok pair) cert key h = (h, refl)
  reworded-ok no_request (k, err e) cert key h = cc

  requested-ok :
      (no_client no_request : String → String) (fault : Option String) (env : Env) (node : String)
      (k : K) (cert key : String)
      → let x = requested api no_client no_request fault env node k in
        let made = request_certificate api node env.generated k in
        x.1 ≡ ok (cert, key) → (made.1 ≡ ok (cert, key)) × (x.0 ≡ made.0)
  requested-ok no_client no_request none env node k cert key h =
      reworded-ok no_request (request_certificate api node env.generated k) cert key h
  requested-ok no_client no_request (some e) env node k cert key h = absurd (ground (arith, h))

  rotated-ok :
      (cert : String) (x : Files × Result (Unit {0}) String) (r : RotateCertificateResponse)
      → rotated api p cert x ≡ ok r
      → x.1 ≡ ok tt
  rotated-ok cert (files, ok _) r h = refl
  rotated-ok cert (files, err e) r h = cc

  issued-IsIssued :
      (env : Env) (w : World K) (node : String) (r : RotateCertificateResponse)
      (x : K × Result (String × String) String)
      → node_name env ≡ some node
      → let made = request_certificate api node env.generated w.cluster in
        ((cert key : String) → x.1 ≡ ok (cert, key) → (made.1 ≡ ok (cert, key)) × (x.0 ≡ made.0))
        → (issued api p env w.files x).1 ≡ ok r
        → IsIssued env w (issued api p env w.files x).0
  issued-IsIssued env w node r (k, err e) n g h = absurd (ground (arith, h))
  issued-IsIssued env w node r (k, ok (cert, key)) n g h = record {
    node = node;
    named = n;
    cert = cert;
    key = key;
    given = (g cert key refl).0;
    cluster_after = (g cert key refl).1;
    files_after = refl;
    written = rotated-ok cert (store env.faults operational cert key w.files) r h;
  }

  for_node-IsIssued :
      (env : Env) (w : World K) (name : Option String) (r : RotateCertificateResponse)
      → node_name env ≡ name
      → (for_node api p env name w).1 ≡ ok r
      → IsIssued env w (for_node api p env name w).0
  for_node-IsIssued env w none r n h = absurd (ground (arith, h))
  for_node-IsIssued env w (some node) r n h =
      let no_client = λ (e : String). format ("Failed to initialize CSR manager: " ∷ e ∷ []) in
      let no_request = λ (e : String). format ("Rotation failed: " ∷ e ∷ []) in
      issued-IsIssued env w node r
        (requested api no_client no_request env.client_fault env node w.cluster) n
        (requested-ok no_client no_request env.client_fault env node w.cluster) h

  pub rotate-IsIssued :
      (env : Env) (w : World K) (r : RotateCertificateResponse)
      → (rotate_certificate api p env w).1 ≡ ok r
      → IsIssued env w (rotate_certificate api p env w).0
  unfolding rotate_certificate
  rotate-IsIssued env w r h = elim (Bool-cases (exists service_account w.files)) [
    | inr e ↦ absurd (ground (arith, e, h))
    | inl e ↦ rw e (for_node-IsIssued env w (node_name env) r refl (rw e at h))
  ]
