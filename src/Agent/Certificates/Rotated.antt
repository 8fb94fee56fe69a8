-- ===== src/Agent/Certificates/Rotated.antt =====
-- The pair of files that a rotation of cmd/keel-agent/src/lib.rs leaves.
use keelos.Prelude.{
  ◌≡◌, refl, ap, ◌∙◌, Bool-cases, inl, inr, arith, format, [], ◌∷◌, String, Option, none, some,
  Result, ok, err,
}
use keelos.Prelude.Dict.{get}
use keelos.Agent.Status.{Status}
use keelos.Agent.Certificates.Csr.{Api, request_certificate}
use keelos.Agent.Certificates.Store.{
  Files, Faults, Parsers, operational, backup_of, exists, write_file, back_up, store,
}
use keelos.Agent.Certificates.Rotation.{
  World, Env, RotateCertificateResponse, service_account, node_name, requested, issued, rotated,
  for_node, rotate_certificate,
}
use keelos.Agent.Certificates.Issued.{rotate-IsIssued, write_new-ok}
use keelos.Agent.Certificates.Pairs.{
  back_up-get, write_new-second, write_new-cert, write_new-key, write_new-other,
}

module _ {K : Type 0} (api : Api K) (p : Parsers) where
  -- A rotation that succeeds leaves the pair that the cluster has given for this node, both files
  -- of it, whether or not there was a pair before and its copies were made.
  pub rotate-pair :
      (env : Env) (w : World K) (r : RotateCertificateResponse)
      → (rotate_certificate api p env w).1 ≡ ok r
      → let files = (rotate_certificate api p env w).0.files in
        (node cert key : String) × (node_name env ≡ some node)
        × ((request_certificate api node env.generated w.cluster).1 ≡ ok (cert, key))
        × (get operational.cert files ≡ some cert)
        × (get operational.key files ≡ some key)
  unfolding store
  rotate-pair env w r h =
      let i = rotate-IsIssued api p env w r h in
      let before = back_up env.faults operational w.files in
      let (wc, wk) = write_new-ok env.faults operational i.cert i.key before i.written in
      let at = λ (q : String). ap (get q) i.files_after in
      (
        i.node,
        i.cert,
        i.key,
        i.named,
        i.given,
        at operational.cert ∙ write_new-cert env.faults i.cert i.key before wc,
        at operational.key ∙ write_new-key env.faults i.cert i.key before wc wk,
      )

  -- A rotation that succeeds, on a node that has a pair, and where neither copy fails, leaves the
  -- old certificate and the old key in the backups.
  pub rotate-backup :
      (env : Env) (w : World K) (r : RotateCertificateResponse) (old_cert old_key : String)
      → (rotate_certificate api p env w).1 ≡ ok r
      → get operational.cert w.files ≡ some old_cert
      → get operational.key w.files ≡ some old_key
      → env.faults.copy_cert ≡ none
      → env.faults.copy_key ≡ none
      → let files = (rotate_certificate api p env w).0.files in
        (get (backup_of operational.cert) files ≡ some old_cert)
        × (get (backup_of operational.key) files ≡ some old_key)
  unfolding store
  rotate-backup env w r old_cert old_key h c k fc fk =
      let i = rotate-IsIssued api p env w r h in
      let before = back_up env.faults operational w.files in
      let (wc, wk) = write_new-ok env.faults operational i.cert i.key before i.written in
      let (bc, bk) = back_up-get env.faults w.files old_cert old_key fc fk c k in
      let other = write_new-other env.faults i.cert i.key in
      (
        ap (get (backup_of operational.cert)) i.files_after
            ∙ other (backup_of operational.cert) before wc refl refl
            ∙ bc,
        ap (get (backup_of operational.key)) i.files_after
            ∙ other (backup_of operational.key) before wc refl refl
            ∙ bk,
      )

  written-ok :
      (faults : Faults) (cert key : String) (files : Files)
      → faults.write_cert ≡ none
      → faults.write_key ≡ none
      → (store faults operational cert key files).1 ≡ ok tt
  unfolding store write_file
  written-ok faults cert key files c k =
      rw (write_new-second faults cert key (back_up faults operational files) c, k) refl

  rotated-err :
      (cert : String) (x : Files × Result (Unit {0}) String) (s : Status)
      → x.1 ≡ ok tt
      → rotated api p cert x ≡ err s
      → ⊥
  rotated-err cert (files, ok _) s h e = ground (arith, e)
  rotated-err cert (files, err d) s h e = ground (arith, h)

  issued-files :
      (env : Env) (files : Files) (x : K × Result (String × String) String) (s : Status)
      → env.faults.write_cert ≡ none
      → env.faults.write_key ≡ none
      → (issued api p env files x).1 ≡ err s
      → (issued api p env files x).0.files ≡ files
  issued-files env files (k, err e) s c d h = refl
  issued-files env files (k, ok (cert, key)) s c d h = absurd (
      rotated-err cert (store env.faults operational cert key files) s
        (written-ok env.faults cert key files c d) h)

  for_node-files :
      (env : Env) (name : Option String) (w : World K) (s : Status)
      → env.faults.write_cert ≡ none
      → env.faults.write_key ≡ none
      → (for_node api p env name w).1 ≡ err s
      → (for_node api p env name w).0.files ≡ w.files
  for_node-files env none w s c d h = refl
  for_node-files env (some node) w s c d h =
      issued-files env w.files
        (requested api (λ (e : String). format ("Failed to initialize CSR manager: " ∷ e ∷ []))
          (λ (e : String). format ("Rotation failed: " ∷ e ∷ [])) env.client_fault env node
          w.cluster)
        s c d h

  -- A rotation that is refused for a reason other than a failed write leaves every file alone, the
  -- backups too.
  rotate_refused :
      (env : Env) (w : World K) (s : Status)
      → env.faults.write_cert ≡ none
      → env.faults.write_key ≡ none
      → (rotate_certificate api p env w).1 ≡ err s
      → (rotate_certificate api p env w).0.files ≡ w.files
  unfolding rotate_certificate
  rotate_refused env w s c d h = elim (Bool-cases (exists service_account w.files)) [
    | inl e ↦ rw e (for_node-files env (node_name env) w s c d (rw e at h))
    | inr e ↦ rw e refl
  ]
