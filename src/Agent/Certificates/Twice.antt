-- ===== src/Agent/Certificates/Twice.antt =====
-- Two certificates of one node, one after the other: cmd/keel-agent/src/k8s_csr.rs names every
-- request of a node alike.
use keelos.Prelude.{
  ◌≡◌, refl, ap, ◌∙◌, Bool, Bool-cases, inl, inr, arith, ℕ, zero, suc, true, String, format, [],
  ◌∷◌, Option, none, some, Result, ok, err,
}
use mathlib.Core.Path.{subst}
use keelos.Agent.Status.{Status, internal}
use keelos.Agent.Certificates.Csr.{
  Api, CertificateSigningRequest, csr_name, csr_of, max_attempts, polled, with_key, submitted,
  wait_for_certificate, request_certificate,
}
use keelos.Agent.Certificates.Store.{Parsers, exists}
use keelos.Agent.Certificates.Rotation.{
  World, Env, RotateCertificateResponse, service_account, node_name, requested, reworded, issued,
  for_node, rotate_certificate,
}
use keelos.Agent.Certificates.Issued.{IsIssued, rotate-IsIssued}

-- What Kubernetes documents: an object is there once it is created, a second one of its name is
-- refused, and neither an approval nor a read removes one.
pub record Remembers {K : Type 0} (api : Api K) : Type 0 where
  pub has : String → K → Bool
  pub creates :
      (csr : CertificateSigningRequest) (k : K)
      → (api.create csr k).1 ≡ ok tt
      → has csr.name (api.create csr k).0 ≡ true
  pub refuses :
      (csr : CertificateSigningRequest) (k : K)
      → has csr.name k ≡ true
      → (e : String) × ((api.create csr k).1 ≡ err e)
  pub approves :
      (name other : String) (k : K) → has name k ≡ true → has name (api.approve other k).0 ≡ true
  pub fetches :
      (name other : String) (k : K) → has name k ≡ true → has name (api.fetch other k).0 ≡ true

module _ {K : Type 0} (api : Api K) (law : Remembers api) where
  open law use {has}

  polled-has :
      (name : String) (k : K) (reply : Result (Option (Result String String)) String)
      (later : K × Result String String)
      → has name k ≡ true
      → has name later.0 ≡ true
      → has name (polled api k reply later).0 ≡ true
  polled-has name k (err e) later h l = h
  polled-has name k (ok (some cert)) later h l = h
  polled-has name k (ok none) later h l = l

  wait-has :
      (n : ℕ) (name other : String) (k : K)
      → has name k ≡ true
      → has name (wait_for_certificate api n other k).0 ≡ true
  unfolding wait_for_certificate
  wait-has zero name other k h = h
  wait-has (suc n) name other k h =
      let next = law.fetches name other k h in
      polled-has name (api.fetch other k).0 (api.fetch other k).1
        (wait_for_certificate api n other (api.fetch other k).0) next
        (wait-has n name other (api.fetch other k).0 next)

  with_key-0 : (key : String) (x : K × Result String String) → (with_key api key x).0 ≡ x.0
  with_key-0 key (k, ok cert) = refl
  with_key-0 key (k, err e) = refl

  -- A request that gave a certificate has left its object in the cluster.
  submitted-has :
      (name key : String) (x : K × Result (Unit {0}) String) (pair : String × String)
      → (x.1 ≡ ok tt → has name x.0 ≡ true)
      → (submitted api name key x).1 ≡ ok pair
      → has name (submitted api name key x).0 ≡ true
  submitted-has name key (k, err e) pair c h = absurd (ground (arith, h))
  submitted-has name key (k, ok _) pair c h =
      let before = law.approves name name k (c refl) in
      let waited = wait_for_certificate api max_attempts name (api.approve name k).0 in
      ap (has name) (with_key-0 key waited)
      ∙ wait-has max_attempts name name (api.approve name k).0 before

  request-has :
      (node : String) (g : Result (String × String) String) (k : K) (pair : String × String)
      → (request_certificate api node g k).1 ≡ ok pair
      → has (csr_name node) (request_certificate api node g k).0 ≡ true
  unfolding request_certificate
  request-has node (err e) k pair h = absurd (ground (arith, h))
  request-has node (ok (pem, key)) k pair h =
      submitted-has (csr_name node) key (api.create (csr_of api node pem) k) pair
        (law.creates (csr_of api node pem) k) h

  submitted-err :
      (name key e : String) (x : K × Result (Unit {0}) String)
      → x.1 ≡ err e
      → (submitted api name key x).1 ≡ err e
  submitted-err name key e (k, err d) h = ground (arith, h)
  submitted-err name key e (k, ok _) h = absurd (ground (arith, h))

  request-err :
      (node : String) (g : Result (String × String) String) (k : K)
      → has (csr_name node) k ≡ true
      → (e : String) × ((request_certificate api node g k).1 ≡ err e)
  unfolding request_certificate
  request-err node (err e) k h = (e, refl)
  request-err node (ok (pem, key)) k h =
      let (e, refused) = law.refuses (csr_of api node pem) k h in
      (e, submitted-err (csr_name node) key e (api.create (csr_of api node pem) k) refused)

  module _ (p : Parsers) where
    requested-err :
        (no_client no_request : String → String) (fault : Option String) (env : Env) (node : String)
        (k : K) (e : String)
        → (request_certificate api node env.generated k).1 ≡ err e
        → (d : String) × ((requested api no_client no_request fault env node k).1 ≡ err d)
    requested-err no_client no_request (some d) env node k e h = (no_client d, refl)
    requested-err no_client no_request none env node k e h =
        (no_request e, reworded-err no_request e (request_certificate api node env.generated k) h)
      where
        reworded-err :
            (no_request : String → String) (e : String) (x : K × Result (String × String) String)
            → x.1 ≡ err e
            → (reworded api no_request x).1 ≡ err (no_request e)
        reworded-err no_request e (k, err d) h = cc
        reworded-err no_request e (k, ok pair) h = absurd (ground (arith, h))

    issued-err :
        (env : Env) (w : World K) (d : String) (x : K × Result (String × String) String)
        → x.1 ≡ err d
        → (s : Status) × ((issued api p env w.files x).1 ≡ err s)
    issued-err env w d (k, err e) h = (record { code = internal; message = e }, refl)
    issued-err env w d (k, ok pair) h = absurd (ground (arith, h))

    for_node-err :
        (env : Env) (w : World K) (name : Option String)
        → ((node : String)
            → name ≡ some node
            → (e : String) × ((request_certificate api node env.generated w.cluster).1 ≡ err e))
        → (s : Status) × ((for_node api p env name w).1 ≡ err s)
    for_node-err env w none h =
        (record { code = internal; message = "Failed to determine node name" }, refl)
    for_node-err env w (some node) h =
        let (e, refused) = h node refl in
        let no_client = λ (x : String). format ("Failed to initialize CSR manager: " ∷ x ∷ []) in
        let no_request = λ (x : String). format ("Rotation failed: " ∷ x ∷ []) in
        let (d, failed) =
          requested-err no_client no_request env.client_fault env node w.cluster e refused in
        issued-err env w d (requested api no_client no_request env.client_fault env node w.cluster)
          failed

    second-err :
        (env again : Env) (w after later : World K)
        → IsIssued api p env w after
        → later.cluster ≡ after.cluster
        → node_name again ≡ node_name env
        → (node : String) → node_name again ≡ some node
        → (e : String) × ((request_certificate api node again.generated later.cluster).1 ≡ err e)
    second-err env again w after later i c n node m =
        let same : i.node ≡ node = cc (n, m, i.named) in
        let there = request-has i.node env.generated w.cluster (i.cert, i.key) i.given in
        request-err node again.generated later.cluster (
          subst (λ x. has (csr_name x) later.cluster ≡ true) same
            (ap (has (csr_name i.node)) (c ∙ i.cluster_after) ∙ there))

    rotate-err :
        (env : Env) (w : World K)
        → ((s : Status) × ((for_node api p env (node_name env) w).1 ≡ err s))
        → (s : Status) × ((rotate_certificate api p env w).1 ≡ err s)
    unfolding rotate_certificate
    rotate-err env w h = elim (Bool-cases (exists service_account w.files)) [
      | inl e ↦ rw e h
      | inr e ↦ rw e (_, refl)
    ]

    -- A node whose certificate was issued gets no other one while the cluster keeps the object of
    -- the first request: where a rotation succeeded, the next rotation of a node of that name,
    -- with no other change of the cluster in between, is refused, whatever files the node has by
    -- then.
    pub rotate_twice :
        (env again : Env) (w later : World K) (r : RotateCertificateResponse)
        → (rotate_certificate api p env w).1 ≡ ok r
        → node_name again ≡ node_name env
        → later.cluster ≡ (rotate_certificate api p env w).0.cluster
        → (s : Status) × ((rotate_certificate api p again later).1 ≡ err s)
    rotate_twice env again w later r h n c =
        let i = rotate-IsIssued api p env w r h in
        let refused = second-err env again w (rotate_certificate api p env w).0 later i c n in
        rotate-err again later (for_node-err again later (node_name again) refused)
