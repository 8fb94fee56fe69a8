-- ===== src/Agent/Health/Checks/Laws.antt =====
-- What the answer of `get_health` says of the node.
use keelos.Prelude.{
  ◌+◌, ◌<◌, ◌≡◌, ◌↔◌, ◌⊎◌, inl, inr, refl, sym, ap, arith, if◌then◌else◌, ◌&&◌, String, str_eq, ◌∙◌,
  lines, Bool, true, false, Option, none, some, List, [], ◌∷◌, length, Result, ok, err,
}
use mathlib.Core.Path.{subst}
use keelos.Agent.Health.{
  HealthCheckResult, HealthStatus, HealthCheckerConfig, healthy, degraded, unhealthy, is_fail,
  failures, overall, run_all_checks,
}
use keelos.Agent.Health.Checks.{
  Probe, GetHealthResponse, boot_check, network_check, interfaces_result, net_dev_result, api_check,
  api_port, new, health_name, reported, answered, get_health,
}

interfaces_result-none : (ls : List String) → (interfaces_result ls ≡ none) ↔ (length ls < 2)
unfolding interfaces_result
interfaces_result-none [] = ((λ h. omega arith), (λ h. refl))
interfaces_result-none (a ∷ []) = ((λ h. omega arith), (λ h. refl))
interfaces_result-none (a ∷ b ∷ rest) =
    ((λ h. absurd (ground (arith, h))), (λ h. absurd (omega (arith, h))))

-- The status that is reported for what the three checks give.
abbrev status_for : Bool → Bool → Bool → HealthStatus
status_for boot network api =
    if boot then unhealthy else if api then unhealthy else if network then degraded else healthy

overall-status :
    (b n a : Bool)
    → overall
        ((if b && true then 1 else 0)
          + ((if n && false then 1 else 0) + ((if a && true then 1 else 0) + 0)))
        ((if b && false then 1 else 0)
          + ((if n && true then 1 else 0) + ((if a && false then 1 else 0) + 0)))
      ≡ status_for b n a
unfolding overall
overall-status true true true = refl
overall-status true true false = refl
overall-status true false true = refl
overall-status true false false = refl
overall-status false true true = refl
overall-status false true false = refl
overall-status false false true = refl
overall-status false false false = refl

run-status :
    (config : HealthCheckerConfig) (p : Probe) (network : HealthCheckResult)
    → (run_all_checks (new config p network)).1
      ≡ status_for (is_fail (boot_check p)) (is_fail network) (is_fail (api_check p api_port))
unfolding run_all_checks failures new boot_check
run-status config p network =
    overall-status (is_fail (boot_check p)) (is_fail network) (is_fail (api_check p api_port))

answered-none :
    (now : String) (config : HealthCheckerConfig) (p : Probe) (o : Option HealthCheckResult)
    → (answered now config p o ≡ none) ↔ (o ≡ none)
unfolding answered
answered-none now config p none = ((λ h. refl), (λ h. refl))
answered-none now config p (some n) =
    ((λ h. absurd (ground (arith, h))), (λ h. absurd (ground (arith, h))))

net_dev_result-none :
    (r : Result String String)
    → (net_dev_result r ≡ none) ↔ ((text : String) × (r ≡ ok text) × (length (lines text) < 2))
unfolding net_dev_result
net_dev_result-none (err e) = ((λ h. absurd (ground (arith, h))), (λ (text, q, l). cc))
net_dev_result-none (ok text) =
    let (there, back) = interfaces_result-none (lines text) in
    (
      (λ h. (text, refl, there h)),
      (λ (other, q, l).
          back (let same : other ≡ text = cc in subst (λ s. length (lines s) < 2) same l)),
    )

-- The RPC panics exactly when /proc/net/dev can be read and has fewer than two lines.
pub get_health-panics_iff :
    (now : String) (config : HealthCheckerConfig) (p : Probe)
    → (get_health now config p ≡ none)
      ↔ ((text : String) × (p.net_dev ≡ ok text) × (length (lines text) < 2))
unfolding get_health network_check
get_health-panics_iff now config p =
    let (a, a') = answered-none now config p (network_check p) in
    let (b, b') = net_dev_result-none p.net_dev in ((λ h. b (a h)), (λ h. a' (b' h)))

-- The status with a given name.
abbrev of_name : String → HealthStatus
of_name s =
    if str_eq s "unhealthy" then unhealthy else if str_eq s "degraded" then degraded else healthy

of_name-health_name : (s : HealthStatus) → of_name (health_name s) ≡ s
unfolding health_name
of_name-health_name healthy = refl
of_name-health_name degraded = refl
of_name-health_name unhealthy = refl

name_iff : (s u : HealthStatus) → (health_name s ≡ health_name u) ↔ (s ≡ u)
name_iff s u = (
  (λ h. sym (of_name-health_name s) ∙ ap of_name h ∙ of_name-health_name u),
  (λ h. ap health_name h),
)

unhealthy_iff : (b n a : Bool) → (status_for b n a ≡ unhealthy) ↔ ((b ≡ true) ⊎ (a ≡ true))
unhealthy_iff true n a = ((λ h. inl refl), (λ h. refl))
unhealthy_iff false n true = ((λ h. inr refl), (λ h. refl))
unhealthy_iff false n false = ((λ h. absurd (ground (arith, h))), (λ h. absurd (ground (arith, h))))

healthy_iff :
    (b n a : Bool) → (status_for b n a ≡ healthy) ↔ ((b ≡ false) × (a ≡ false) × (n ≡ false))
healthy_iff true n a = ((λ h. cc), (λ h. cc (h.0)))
healthy_iff false n true = ((λ h. cc), (λ h. cc (h.1)))
healthy_iff false true false = ((λ h. cc), (λ h. cc (h.2)))
healthy_iff false false false = ((λ h. (refl, refl, refl)), (λ h. refl))

-- The status that the RPC answers with its default checks: "unhealthy" exactly when the boot
-- check or the check of the API's port fails, and "healthy" exactly when neither does and the check
-- of the network does not fail either.
pub get_health-status_iff :
    (now : String) (config : HealthCheckerConfig) (p : Probe) (network : HealthCheckResult)
    → network_check p ≡ some network
    → (resp : GetHealthResponse) × (get_health now config p ≡ some resp)
      × ((resp.status ≡ "unhealthy")
          ↔ ((is_fail (boot_check p) ≡ true) ⊎ (is_fail (api_check p api_port) ≡ true)))
      × ((resp.status ≡ "healthy") ↔ (
          (is_fail (boot_check p) ≡ false)
          × (is_fail (api_check p api_port) ≡ false)
          × (is_fail network ≡ false)))
unfolding get_health answered reported health_name
get_health-status_iff now config p network h =
    let ran = run_all_checks (new config p network) in
    let (n, n') = name_iff ran.1 unhealthy in
    let (m, m') = name_iff ran.1 healthy in
    let e = run-status config p network in
    let (u, u') =
      unhealthy_iff (is_fail (boot_check p)) (is_fail network) (is_fail (api_check p api_port)) in
    let (v, v') =
      healthy_iff (is_fail (boot_check p)) (is_fail network) (is_fail (api_check p api_port)) in
    (
      reported now ran,
      rw h refl,
      ((λ q. u (sym e ∙ n q)), (λ q. n' (e ∙ u' q))),
      ((λ q. v (sym e ∙ m q)), (λ q. m' (e ∙ v' q))),
    )
