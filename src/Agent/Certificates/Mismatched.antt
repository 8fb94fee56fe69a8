-- ===== src/Agent/Certificates/Mismatched.antt =====
-- A rotation of cmd/keel-agent/src/lib.rs whose last write fails, and what the next start of the
-- agent, main.rs, makes of what it leaves.
use keelos.Prelude.{
  ◌≡◌, refl, ap, ◌∙◌, arith, true, false, format, [], ◌∷◌, String, str_eq, none, some, is_some,
  Result, ok, err,
}
use keelos.Prelude.Dict.{get}
use keelos.Agent.Status.{Status, internal}
use keelos.Agent.Certificates.Csr.{Api, request_certificate}
use keelos.Agent.Certificates.Store.{
  Files, Faults, Parsers, operational, backup_of, exists, written_key, write_file, back_up, store,
}
use keelos.Agent.Certificates.Rotation.{
  World, Env, service_account, node_name, reworded, requested, issued, rotated, for_node, first_for,
  rotate_certificate, init_k8s_certificates,
}
use keelos.Agent.Certificates.Issued.{write_file-get}
use keelos.Agent.Certificates.Pairs.{write_file-other, back_up-other, write_new-second}

module _ {K : Type 0} (api : Api K) (p : Parsers) where
  reworded-given :
      (no_request : String → String) (x : K × Result (String × String) String)
      (pair : String × String)
      → x.1 ≡ ok pair
      → reworded api no_request x ≡ (x.0, ok pair)
  reworded-given no_request (k, ok own) pair h =
      ap (λ (r : Result (String × String) String). (k, r)) h
  reworded-given no_request (k, err e) pair h = absurd (ground (arith, h))

  rotate-issued :
      (env : Env) (w : World K) (node cert key : String)
      → is_some (get service_account w.files) ≡ true
      → node_name env ≡ some node
      → env.client_fault ≡ none
      → (request_certificate api node env.generated w.cluster).1 ≡ ok (cert, key)
      → rotate_certificate api p env w
        ≡ issued api p env w.files
            ((request_certificate api node env.generated w.cluster).0, ok (cert, key))
  unfolding rotate_certificate
  rotate-issued env w node cert key t n c g =
      let no_client = λ (e : String). format ("Failed to initialize CSR manager: " ∷ e ∷ []) in
      let no_request = λ (e : String). format ("Rotation failed: " ∷ e ∷ []) in
      let made = request_certificate api node env.generated w.cluster in
      rw t (
        ap (λ name. for_node api p env name w) n
        ∙ ap
            (λ fault.
              issued api p env w.files
                (requested api no_client no_request fault env node w.cluster))
            c
        ∙ ap (issued api p env w.files) (reworded-given no_request made (cert, key) g))

  store-second :
      (faults : Faults) (cert key e : String) (files : Files)
      → faults.write_cert ≡ none
      → faults.write_key ≡ some (e, none)
      → store faults operational cert key files ≡ (
        (write_file none operational.cert cert (back_up faults operational files)).0,
        err (format ("Failed to write new key: " ∷ e ∷ [])),
      )
  unfolding store write_file
  store-second faults cert key e files c k =
      write_new-second faults cert key (back_up faults operational files) c
      ∙ ap
          (λ fault. written_key (
            write_file fault operational.key key
              (write_file none operational.cert cert (back_up faults operational files)).0))
          k

  init-existing :
      (start : Env) (w : World K) (name : String)
      → exists service_account w.files ≡ true
      → node_name start ≡ some name
      → exists operational.cert w.files ≡ true
      → exists operational.key w.files ≡ true
      → init_k8s_certificates api start w ≡ (w, true)
  unfolding init_k8s_certificates
  init-existing start w name t m c k =
      rw t (ap (λ node. first_for api start node w) m ∙ rw (c, k) refl)

  -- Where the certificate can be written and the key cannot, and the write of the key leaves the
  -- file alone, the rotation fails and leaves the new certificate beside the old key; every start
  -- of the agent on that node afterwards takes this pair for operational certificates.
  pub rotate-mismatched :
      (env start : Env) (w : World K) (node name cert key old_key e : String)
      → is_some (get service_account w.files) ≡ true
      → node_name env ≡ some node
      → node_name start ≡ some name
      → env.client_fault ≡ none
      → (request_certificate api node env.generated w.cluster).1 ≡ ok (cert, key)
      → get operational.key w.files ≡ some old_key
      → env.faults.write_cert ≡ none
      → env.faults.write_key ≡ some (e, none)
      → let (after, reply) = rotate_certificate api p env w in
        ((s : Status) × (reply ≡ err s))
        × (get operational.cert after.files ≡ some cert)
        × (get operational.key after.files ≡ some old_key)
        × (init_k8s_certificates api start after ≡ (after, true))
  rotate-mismatched env start w node name cert key old_key e t n m c g k wc wk =
      let before = back_up env.faults operational w.files in
      let files = (write_file none operational.cert cert before).0 in
      let after : World K = record {
        files = files;
        cluster = (request_certificate api node env.generated w.cluster).0;
      } in
      let status : Status = record {
        code = internal;
        message = format ("Failed to write new key: " ∷ e ∷ []);
      } in
      let forward : rotate_certificate api p env w ≡ (after, err status) =
        rotate-issued env w node cert key t n c g
        ∙ ap
            (λ (stored : Files × Result (Unit {0}) String).
              (record after { files = stored.0 }, rotated api p cert stored))
            (store-second env.faults cert key e w.files wc wk) in
      let kept =
        λ (q : String) (o : str_eq operational.cert q ≡ false)
            (bc : str_eq (backup_of operational.cert) q ≡ false)
            (bk : str_eq (backup_of operational.key) q ≡ false).
          write_file-other none operational.cert cert q before o
          ∙ back_up-other env.faults w.files q bc bk in
      let new = write_file-get operational.cert cert operational.cert before in
      let old = kept operational.key refl refl refl ∙ k in
      rw forward (
        (status, refl),
        new,
        old,
        init-existing start after name (ap is_some (kept service_account refl refl refl) ∙ t) m
            (ap is_some new) (ap is_some old),
      )
