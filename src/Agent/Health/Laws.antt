-- ===== src/Agent/Health/Laws.antt =====
-- What the overall status says of the checks, and that the retries end.
use keelos.Prelude.{
  ℕ, zero, suc, ◌+◌, ◌≤◌, ◌<◌, ◌≡◌, ◌↔◌, ◌⊎◌, inl, inr, refl, sym, arith, String, Bool, true, false,
  not, ◌&&◌, [], ◌∷◌, In, Bool-cases,
}
use keelos.Prelude.Dict.{Dict}
use mathlib.Core.Path.{subst}
use keelos.Agent.Health.{
  HealthStatus, healthy, unhealthy, HealthCheck, HealthCheckerConfig, HealthChecker, is_fail,
  is_healthy, failures, overall, run_all_checks, retry, run_with_retry,
}

-- A check of the map that failed, of the criticality asked for.
abbrev pub Failed : (Bool → Bool) → Dict HealthCheck → Type 0
Failed p m =
    (e : String × HealthCheck) × In e m × (is_fail e.1.result ≡ true) × (p e.1.is_critical ≡ true)

failures_iff : (p : Bool → Bool) (m : Dict HealthCheck) → (0 < failures p m) ↔ Failed p m
unfolding failures
failures_iff p [] = ((λ h. absurd (omega (arith, h))), (λ h. absurd h.1))
failures_iff p ((name, c) ∷ rest) = elim (Bool-cases (is_fail c.result && p c.is_critical)) [
  | inl e ↦ ((λ h. ((name, c), inl refl, ground arith, ground arith)), (λ h. ground arith))
  | inr e ↦ (
    (λ h. let (x, m, f, q) = (failures_iff p rest).0 (ground arith) in (x, inr m, f, q)),
    (λ h. elim h.1 [
      | inl i ↦
          let q =
            subst (λ (x : String × HealthCheck). (is_fail x.1.result && p x.1.is_critical) ≡ false)
              i e in
          absurd (ground (arith, q, h.2, h.3))
      | inr m ↦ let k = (failures_iff p rest).1 (h.0, m, h.2, h.3) in ground arith
    ]),
  )
]

zero_failures :
    (critical non_critical : ℕ)
    → (0 < critical → ⊥)
    → (0 < non_critical → ⊥)
    → overall critical non_critical ≡ healthy
unfolding overall
zero_failures zero zero h k = refl
zero_failures zero (suc n) h k = absurd (k (omega arith))
zero_failures (suc n) m h k = absurd (h (omega arith))

-- The status is Unhealthy exactly when a critical check failed, and Healthy exactly when no check
-- failed; a check whose result is unknown counts as no failure.
pub run_all_checks_iff :
    (h : HealthChecker)
    → (((run_all_checks h).1 ≡ unhealthy) ↔ Failed (λ b. b) h.checks)
      × (((run_all_checks h).1 ≡ healthy)
          ↔ ((Failed (λ b. b) h.checks → ⊥) × (Failed not h.checks → ⊥)))
unfolding run_all_checks overall
run_all_checks_iff h =
    let c = failures_iff (λ b. b) h.checks in
    let n = failures_iff not h.checks in
    (
      ((λ e. c.0 (ground arith)), (λ f. let k = c.1 f in ground arith)),
      (
        (λ e. ((λ f. let k = c.1 f in ground arith), (λ f. let k = n.1 f in ground arith))),
        (λ k.
            zero_failures (failures (λ b. b) h.checks) (failures not h.checks) (λ l. k.0 (c.0 l))
              (λ l. k.1 (n.0 l))),
      ),
    )

le_or_lt : (a b : ℕ) → (a ≤ b) ⊎ (b < a)
le_or_lt a b = omega arith

lt_or_eq : (a b : ℕ) → a ≤ b → (a ≡ b) ⊎ (a < b)
lt_or_eq a b h = omega (arith, h)

module _ (config : HealthCheckerConfig) (status : ℕ → HealthStatus) (elapsed : ℕ → ℕ) where
  -- The attempt with which the loop ends, when it starts at an attempt and has the fuel.
  abbrev pub EndsAt : ℕ → ℕ → ℕ → Type 0
  EndsAt fuel first last =
      (first ≤ last)
      × (retry config status elapsed fuel first ≡ (status last, true))
      × ((i : ℕ)
          → first ≤ i
          → i < last
          → (is_healthy (status i) ≡ false)
            × (i < config.max_retries)
            × (elapsed i < config.timeout_secs))
      × ((is_healthy (status last) ≡ true)
          ⊎ (config.timeout_secs ≤ elapsed last)
          ⊎ (config.max_retries ≤ last))

  ends_here :
      (fuel first : ℕ)
      → (is_healthy (status first) ≡ true)
        ⊎ (config.timeout_secs ≤ elapsed first)
        ⊎ (config.max_retries ≤ first)
      → EndsAt (suc fuel) first first
  unfolding retry
  ends_here fuel first h = (omega arith, ground arith, (λ i l k. absurd (omega (arith, l, k))), h)

  or_cases :
      (i : ℕ)
      → ((is_healthy (status i) ≡ true)
          ⊎ (config.timeout_secs ≤ elapsed i)
          ⊎ (config.max_retries ≤ i))
        ⊎ ((is_healthy (status i) ≡ false)
            × (elapsed i < config.timeout_secs)
            × (i < config.max_retries))
  or_cases i = elim (Bool-cases (is_healthy (status i))) [
    | inl e ↦ inl (inl e)
    | inr e ↦ elim (le_or_lt config.timeout_secs (elapsed i)) [
      | inl t ↦ inl (inr (inl t))
      | inr t ↦ elim (le_or_lt config.max_retries i) [
        | inl m ↦ inl (inr (inr m))
        | inr m ↦ inr (e, t, m)
      ]
    ]
  ]

  retry-EndsAt :
      (fuel first : ℕ)
      → config.max_retries < fuel + first
      → 0 < fuel
      → (last : ℕ) × EndsAt fuel first last
  unfolding retry
  retry-EndsAt zero first e p = absurd (omega (arith, p))
  retry-EndsAt (suc fuel) first e p = elim (or_cases first) [
    | inl h ↦ (first, ends_here fuel first h)
    | inr (n, t, m) ↦
        let (last, (le, r, before, end)) =
          retry-EndsAt fuel (suc first) (omega (arith, e)) (omega (arith, e, m)) in
        (
          last,
          (
            omega (arith, le),
            ground (arith, n, t, m, r),
            (λ i l k. elim (lt_or_eq first i l) [
              | inl q ↦ rw (sym q) (n, m, t)
              | inr q ↦ before i q k
            ]),
            end,
          ),
        )
  ]

  -- The retries end, with an attempt that found the system healthy, came after the time limit or was
  -- the last one allowed; the status returned is the one it found, and every attempt before it
  -- found the system not healthy, within the time limit, and below the limit of the attempts.
  pub run_with_retry-ends :
      (last : ℕ) × EndsAt (suc config.max_retries) 1 last
      × (run_with_retry config status elapsed ≡ (status last, true))
  unfolding run_with_retry
  run_with_retry-ends =
      let (last, e) = retry-EndsAt (suc config.max_retries) 1 (omega arith) (omega arith) in
      (last, e, e.1)
