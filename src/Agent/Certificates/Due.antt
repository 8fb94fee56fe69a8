-- ===== src/Agent/Certificates/Due.antt =====
-- When a round of cmd/keel-agent/src/cert_renewal.rs renews, and what the metrics of
-- cert_metrics.rs show behind it.
use keelos.Prelude.{
  ◌≡◌, refl, ap, ◌∙◌, ℕ, ◌+◌, ◌-◌, ◌*◌, ◌/◌, ◌≤◌, ◌<◌, le→leb, arith, true, false, [], ◌∷◌, ◌++◌,
  String, Option, none, some, is_some, Result, ok, err, ◌>>=◌, map_err, format,
}
use keelos.Prelude.Dict.{get}
use keelos.Agent.Certificates.Csr.{Api}
use keelos.Agent.Certificates.Store.{
  Files, Parsers, second, day, is_due, read_file, parse_cert_expiry, check_cert_needs_renewal,
}
use keelos.Agent.Certificates.Rotation.{World, Env}
use keelos.Agent.Certificates.Renewal.{
  Days, left, CertificateMetrics, CertRenewalManager, Round, days_between, state_of, shown,
  update_cert_expiry, record_renewal_success, trigger_renewal, triggered, logged, decided,
  check_and_renew,
}

-- What is shown within a day of the check is at least the threshold less one.
days-bound :
    (threshold now later expiry : ℕ)
    → now + threshold * day < expiry
    → later ≤ now + day
    → later ≤ expiry
    → (days_between (later / second) (expiry / second)
        ≡ left ((expiry / second - later / second) / 86400))
      × (threshold ≤ (expiry / second - later / second) / 86400 + 1)
days-bound threshold now later expiry h k l =
    (rw (le→leb (later / second) (expiry / second) (omega (arith, l))) refl, omega (arith, h, k, l))

module _ {K : Type 0} (api : Api K) (p : Parsers) (manager : CertRenewalManager) where
  read-ok :
      (fault : Option String) (files : Files) (text : String)
      → get manager.paths.cert files ≡ some text
      → fault ≡ none
      → read_file fault manager.paths.cert files ≡ ok text
  read-ok fault files text t f = rw (t, f) refl

  update-state :
      (round : Round) (files : Files) (m : CertificateMetrics) (text : String) (expiry : ℕ)
      → get manager.paths.cert files ≡ some text
      → round.shown_fault ≡ none
      → parse_cert_expiry p text ≡ ok expiry
      → update_cert_expiry p round manager.paths.cert files m
        ≡ record m { cert_state = some (state_of round.shown_at expiry) }
  unfolding update_cert_expiry
  update-state round files m text expiry t f e =
      ap (λ (r : Result String String). shown round.shown_at m (r >>= parse_cert_expiry p))
        (read-ok round.shown_fault files text t f)
      ∙ ap (shown round.shown_at m) e

  logged-ok :
      (round : Round) (files : Files) (text : String) (expiry : ℕ)
      → get manager.paths.cert files ≡ some text
      → round.log_fault ≡ none
      → parse_cert_expiry p text ≡ ok expiry
      → logged api p manager round files ≡ ok expiry
  logged-ok round files text expiry t f e =
      ap
        (λ (r : Result String String).
          map_err (λ x. format ("Failed to read cert: " ∷ x ∷ [])) r >>= parse_cert_expiry p)
        (read-ok round.log_fault files text t f)
      ∙ e

  check-due :
      (round : Round) (files : Files) (text : String) (expiry : ℕ)
      → get manager.paths.cert files ≡ some text
      → round.read_fault ≡ none
      → parse_cert_expiry p text ≡ ok expiry
      → check_cert_needs_renewal p round.read_fault manager.paths.cert manager.threshold_days
          round.now files
        ≡ ok (is_due manager.threshold_days round.now expiry)
  unfolding check_cert_needs_renewal
  check-due round files text expiry t f e =
      ap
        (λ (r : Result String String).
          map_err (λ x. format ("Failed to read certificate: " ∷ x ∷ [])) r >>= λ cert_pem.
          parse_cert_expiry p cert_pem >>= λ expiry.
          ok (is_due manager.threshold_days round.now expiry))
        (read-ok round.read_fault files text t f)
      ∙ ap
          (λ (r : Result ℕ String).
            r >>= λ expiry. ok (is_due manager.threshold_days round.now expiry))
          e

  check-decided :
      (env : Env) (round : Round) (w : World K) (m : CertificateMetrics) (text : String)
      (expiry : ℕ)
      → get manager.paths.cert w.files ≡ some text
      → round.read_fault ≡ none
      → parse_cert_expiry p text ≡ ok expiry
      → check_and_renew api p manager env round w m
        ≡ decided api p manager env round w m (ok (is_due manager.threshold_days round.now expiry))
  unfolding check_and_renew
  check-decided env round w m text expiry t f e =
      rw (ap is_some t)
        (ap (decided api p manager env round w m) (check-due round w.files text expiry t f e))

  -- A round that finds a certificate that is valid for longer than the threshold asks the cluster
  -- for nothing, leaves every file and both counters alone, and shows the certificate's expiry. The
  -- days left that it shows are at least the threshold less one, where the clock that the metrics
  -- read is at most a day past the check's and the certificate has not expired by then. Neither
  -- reading of the file fails, and nobody writes it in between.
  pub renew-quiet :
      (env : Env) (round : Round) (w : World K) (m : CertificateMetrics) (text : String)
      (expiry : ℕ)
      → get manager.paths.cert w.files ≡ some text
      → round.read_fault ≡ none
      → round.shown_fault ≡ none
      → parse_cert_expiry p text ≡ ok expiry
      → round.now + manager.threshold_days * day < expiry
      → round.shown_at ≤ round.now + day
      → round.shown_at ≤ expiry
      → (days : ℕ) × (check_and_renew api p manager env round w m ≡ (
        w,
        record m {
          cert_state =
              some (record { expiry_timestamp = expiry / second; days_remaining = left days });
        },
        ok tt,
      ))
        × (manager.threshold_days ≤ days + 1)
  renew-quiet env round w m text expiry t f g e h k l =
      let (shows, bound) =
        days-bound manager.threshold_days round.now round.shown_at expiry h k l in
      let days = (expiry / second - round.shown_at / second) / 86400 in
      let quiet : is_due manager.threshold_days round.now expiry ≡ false = ground (arith, h) in
      (
        days,
        check-decided env round w m text expiry t f e
            ∙ ap (λ due. decided api p manager env round w m (ok due)) quiet
            ∙ ap (λ (n : CertificateMetrics). (w, n, ok tt))
                (update-state round w.files m text expiry t g e)
            ∙ ap
                (λ (d : Days). (
                  w,
                  record m {
                    cert_state =
                        some (record { expiry_timestamp = expiry / second; days_remaining = d });
                  },
                  ok tt,
                ))
                shows,
        bound,
      )

  -- Exactly one of the counters rises by one, the one that the result says.
  abbrev Counts : CertificateMetrics → CertificateMetrics → Result (Unit {0}) String → Type 0
  Counts m after (ok _) =
      (after.renewals_success ≡ m.renewals_success + 1) × (after.renewals_error ≡ m.renewals_error)
  Counts m after (err e) =
      (after.renewals_success ≡ m.renewals_success)
      × (after.renewals_error ≡ m.renewals_error ++ (e ∷ []))

  shown-Counts :
      (now : ℕ) (m : CertificateMetrics) (r : Result ℕ String)
      → Counts m (shown now (record_renewal_success m) r) (ok tt)
  shown-Counts now m (ok expiry) = (refl, refl)
  shown-Counts now m (err e) = (refl, refl)

  triggered-Counts :
      (round : Round) (m : CertificateMetrics) (x : World K × Result (Unit {0}) String)
      → ((triggered api p manager round m x).0 ≡ x.0)
        × ((triggered api p manager round m x).2 ≡ x.1)
        × Counts m (triggered api p manager round m x).1 x.1
  unfolding update_cert_expiry
  triggered-Counts round m (w, ok _) = (
    refl,
    refl,
    shown-Counts round.shown_at m
        (read_file round.shown_fault manager.paths.cert w.files >>= parse_cert_expiry p),
  )
  triggered-Counts round m (w, err e) = (refl, refl, (refl, refl))

  -- A round that finds a certificate that expires within the threshold does what trigger_renewal
  -- does, gives its result, and raises by one the counter of successes or, under the text of the
  -- error, that of the errors, as the result says, and not the other.
  renew-due :
      (env : Env) (round : Round) (w : World K) (m : CertificateMetrics) (text : String)
      (expiry : ℕ)
      → get manager.paths.cert w.files ≡ some text
      → round.read_fault ≡ none
      → round.log_fault ≡ none
      → parse_cert_expiry p text ≡ ok expiry
      → expiry ≤ round.now + manager.threshold_days * day
      → let (after, counted, result) = check_and_renew api p manager env round w m in
        let (renewed, done) = trigger_renewal api manager env w in
        (after ≡ renewed) × (result ≡ done) × Counts m counted done
  renew-due env round w m text expiry t f g e h =
      let due : is_due manager.threshold_days round.now expiry ≡ true = ground (arith, h) in
      rw
        (
          check-decided env round w m text expiry t f e,
          due,
          logged-ok round w.files text expiry t g e,
        )
        (triggered-Counts round m (trigger_renewal api manager env w))
