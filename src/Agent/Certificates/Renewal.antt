-- ===== src/Agent/Certificates/Renewal.antt =====
-- cmd/keel-agent/src/cert_renewal.rs: one round of the renewal loop, with the metrics of
-- cert_metrics.rs. No one else writes the certificate between the readings of a round.
use keelos.Prelude.{
  ℕ, ◌+◌, ◌-◌, ◌/◌, leb, if◌then◌else◌, String, format, Bool, not, Option, none, some, List, [],
  ◌∷◌, ◌++◌, Result, ok, err, ◌>>=◌, map_err,
}
use keelos.Agent.Certificates.Csr.{Api}
use keelos.Agent.Certificates.Store.{
  Files, Paths, Parsers, second, exists, read_file, store, parse_cert_expiry,
  check_cert_needs_renewal,
}
use keelos.Agent.Certificates.Rotation.{World, Env, service_account, node_name, requested}

-- `days_remaining`, an i64: the days until the expiry, or since it, whole days towards zero.
pub data Days : Type 0 where
  left since : ℕ → Days

pub record CertState : Type 0 where
  pub expiry_timestamp : ℕ
  pub days_remaining : Days

-- The counters and the state that the gauges show; an error is counted under its text.
pub record CertificateMetrics : Type 0 where
  pub renewals_success : ℕ
  pub renewals_error : List String
  pub cert_state : Option CertState

pub record CertRenewalManager : Type 0 where
  pub paths : Paths
  pub threshold_days : ℕ

-- The time at which the certificate is checked and the later one that the metrics read, and the
-- faults of reading the certificate: for the check, for the log, and for the metrics.
pub record Round : Type 0 where
  pub now : ℕ
  pub shown_at : ℕ
  pub read_fault : Option String
  pub log_fault : Option String
  pub shown_fault : Option String

abbrev pub days_between : ℕ → ℕ → Days
days_between now expiry =
    if leb now expiry then left ((expiry - now) / 86400) else since ((now - expiry) / 86400)

abbrev pub state_of : ℕ → ℕ → CertState
state_of now expiry = record {
  expiry_timestamp = expiry / second;
  days_remaining = days_between (now / second) (expiry / second);
}

-- An error is only logged.
abbrev pub shown : ℕ → CertificateMetrics → Result ℕ String → CertificateMetrics
shown now m (ok expiry) = record m { cert_state = some (state_of now expiry) }
shown now m (err _) = m

unfoldable pub update_cert_expiry :
    Parsers → Round → String → Files → CertificateMetrics → CertificateMetrics
update_cert_expiry p round path files m =
    shown round.shown_at m (read_file round.shown_fault path files >>= parse_cert_expiry p)

abbrev pub record_renewal_success : CertificateMetrics → CertificateMetrics
record_renewal_success m = record m { renewals_success = m.renewals_success + 1 }

abbrev pub record_renewal_error : String → CertificateMetrics → CertificateMetrics
record_renewal_error e m = record m { renewals_error = m.renewals_error ++ (e ∷ []) }

module _ {K : Type 0} (api : Api K) where
  abbrev pub issued :
      CertRenewalManager
      → Env
      → Files
      → K × Result (String × String) String
      → World K × Result (Unit {0}) String
  issued manager env files (k, err e) = (record { files = files; cluster = k }, err e)
  issued manager env files (k, ok (cert, key)) =
      let (after, r) = store env.faults manager.paths cert key files in
      (record { files = after; cluster = k }, r)

  abbrev pub for_node :
      CertRenewalManager → Env → Option String → World K → World K × Result (Unit {0}) String
  for_node manager env none w = (w, err "Failed to determine node name")
  for_node manager env (some node) w = issued manager env w.files (
      requested api (λ e. format ("Failed to initialize CSR manager: " ∷ e ∷ []))
        (λ e. format ("Failed to request certificate: " ∷ e ∷ [])) env.client_fault env node
        w.cluster)

  unfoldable pub trigger_renewal :
      CertRenewalManager → Env → World K → World K × Result (Unit {0}) String
  trigger_renewal manager env w =
      if not (exists service_account w.files)
      then (w, err "Not running in Kubernetes - auto-renewal only available in K8s clusters")
      else for_node manager env (node_name env) w

  -- A round's outcome: what is there afterwards, the metrics, and the result that the loop logs.
  abbrev pub Outcome : Type 0
  Outcome = World K × CertificateMetrics × Result (Unit {0}) String

  abbrev pub triggered :
      Parsers
      → CertRenewalManager
      → Round
      → CertificateMetrics
      → World K × Result (Unit {0}) String
      → Outcome
  triggered p manager round m (w, ok _) =
      (w, update_cert_expiry p round manager.paths.cert w.files (record_renewal_success m), ok tt)
  triggered p manager round m (w, err e) = (w, record_renewal_error e m, err e)

  -- The expiry that the log tells.
  abbrev pub logged : Parsers → CertRenewalManager → Round → Files → Result ℕ String
  logged p manager round files =
      map_err (λ e. format ("Failed to read cert: " ∷ e ∷ []))
        (read_file round.log_fault manager.paths.cert files)
      >>= parse_cert_expiry p

  abbrev pub renewed :
      Parsers
      → CertRenewalManager
      → Env
      → Round
      → World K
      → CertificateMetrics
      → Result ℕ String
      → Outcome
  renewed p manager env round w m (err e) = (w, m, err e)
  renewed p manager env round w m (ok expiry) =
      triggered p manager round m (trigger_renewal manager env w)

  abbrev pub decided :
      Parsers
      → CertRenewalManager
      → Env
      → Round
      → World K
      → CertificateMetrics
      → Result Bool String
      → Outcome
  decided p manager env round w m (err e) = (w, m, err e)
  decided p manager env round w m (ok due) =
      if due
      then renewed p manager env round w m (logged p manager round w.files)
      else (w, update_cert_expiry p round manager.paths.cert w.files m, ok tt)

  unfoldable pub check_and_renew :
      Parsers → CertRenewalManager → Env → Round → World K → CertificateMetrics → Outcome
  check_and_renew p manager env round w m =
      if not (exists manager.paths.cert w.files)
      then (w, m, ok tt)
      else decided p manager env round w m (
          check_cert_needs_renewal p round.read_fault manager.paths.cert manager.threshold_days
            round.now w.files)
