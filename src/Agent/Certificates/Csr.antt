-- ===== src/Agent/Certificates/Csr.antt =====
-- cmd/keel-agent/src/k8s_csr.rs: the certificate that the cluster signs. The calls of the
-- Kubernetes API are a parameter, and so are the pair that rcgen makes and base64.
use keelos.Prelude.{
  ℕ, zero, suc, String, format, Option, none, some, List, [], ◌∷◌, Result, ok, err,
}
use keelos.Prelude.Dict.{Dict}

pub record CertificateSigningRequest : Type 0 where
  pub name : String
  pub labels : Dict String
  pub request : String
  pub signer_name : String
  pub usages : List String

-- What `Api<CertificateSigningRequest>` does to a cluster: `create`, the patch of the status that
-- approves, and `get`, which finds no certificate yet, or its bytes as a text.
pub record Api (K : Type 0) : Type 0 where
  pub create : CertificateSigningRequest → K → K × Result (Unit {0}) String
  pub approve : String → K → K × Result (Unit {0}) String
  pub fetch : String → K → K × Result (Option (Result String String)) String
  pub encode : String → String

abbrev pub csr_name : String → String
csr_name node = format ("keel-agent-" ∷ node ∷ [])

-- The number of polls of `wait_for_certificate`, two seconds apart.
abbrev pub max_attempts : ℕ
max_attempts = 30

module _ {K : Type 0} (api : Api K) where
  abbrev pub csr_of : String → String → CertificateSigningRequest
  csr_of node csr_pem = record {
    name = csr_name node;
    labels = ("app", "keel-agent") ∷ ("node", node) ∷ [];
    request = api.encode csr_pem;
    signer_name = "kubernetes.io/kube-apiserver-client";
    usages = "client auth" ∷ [];
  }

  abbrev pub polled :
      K
      → Result (Option (Result String String)) String
      → K × Result String String
      → K × Result String String
  polled k (err e) later = (k, err e)
  polled k (ok (some cert)) later = (k, cert)
  polled k (ok none) later = later

  unfoldable pub wait_for_certificate : ℕ → String → K → K × Result String String
  wait_for_certificate zero name k = (k, err "Timeout waiting for certificate to be signed")
  wait_for_certificate (suc n) name k =
      let (next, reply) = api.fetch name k in
      let later = wait_for_certificate n name next in polled next reply later

  abbrev pub with_key : String → K × Result String String → K × Result (String × String) String
  with_key key (k, ok cert) = (k, ok (cert, key))
  with_key key (k, err e) = (k, err e)

  -- A refused approval is only logged.
  abbrev pub submitted :
      String → String → K × Result (Unit {0}) String → K × Result (String × String) String
  submitted name key (k, err e) = (k, err e)
  submitted name key (k, ok _) =
      with_key key (wait_for_certificate max_attempts name (api.approve name k).0)

  -- `generated` is what `generate_bootstrap_certificate` gives: a certificate and its key.
  unfoldable pub request_certificate :
      String → Result (String × String) String → K → K × Result (String × String) String
  request_certificate node (err e) k = (k, err e)
  request_certificate node (ok (pem, key)) k =
      submitted (csr_name node) key (api.create (csr_of node pem) k)
