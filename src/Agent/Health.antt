-- ===== src/Agent/Health.antt =====
-- cmd/keel-agent/src/health_check.rs: the checks that are registered, a run of all of them, and the
-- runs with retries. What a check returns, and how long it takes, is what a run is given.
pub mod Laws
pub mod Checks
use keelos.Prelude.{
  ℕ, zero, suc, ◌+◌, ◌*◌, ltb, leb, if◌then◌else◌, String, Bool, true, false, ◌&&◌, not, List, [],
  ◌∷◌, map,
}
use keelos.Prelude.Dict.{Dict, put}

pub data HealthCheckResult : Type 0 where
  pass : HealthCheckResult
  fail : String → HealthCheckResult
  unknown : String → HealthCheckResult

pub data HealthStatus : Type 0 where
  healthy degraded unhealthy : HealthStatus

unfoldable pub message : HealthCheckResult → String
message pass = "OK"
message (fail msg) = msg
message (unknown msg) = msg

pub record CheckExecution : Type 0 where
  pub name : String
  pub result : HealthCheckResult
  pub duration_ms : ℕ

-- A registered check: what it returns when it is run now, the milliseconds it takes, and whether
-- its failure is critical.
pub record HealthCheck : Type 0 where
  pub result : HealthCheckResult
  pub elapsed : ℕ
  pub is_critical : Bool

pub record HealthCheckerConfig : Type 0 where
  pub timeout_secs : ℕ
  pub retry_interval_secs : ℕ
  pub max_retries : ℕ

pub record HealthChecker : Type 0 where
  pub checks : Dict HealthCheck
  pub config : HealthCheckerConfig
  pub last_results : List CheckExecution

unfoldable pub register_check : String → HealthCheck → HealthChecker → HealthChecker
register_check name check h = record h { checks = put name check h.checks }

abbrev pub is_fail : HealthCheckResult → Bool
is_fail (fail _) = true
is_fail _ = false

abbrev pub execution : String × HealthCheck → CheckExecution
execution (name, c) = record { name = name; result = c.result; duration_ms = c.elapsed }

-- The two counters, for the checks whose criticality is the one asked for.
unfoldable pub failures : (Bool → Bool) → Dict HealthCheck → ℕ
failures p [] = 0
failures p ((name, c) ∷ rest) =
    (if is_fail c.result && p c.is_critical then 1 else 0) + failures p rest

unfoldable pub overall : ℕ → ℕ → HealthStatus
overall critical non_critical =
    if ltb 0 critical then unhealthy else if ltb 0 non_critical then degraded else healthy

unfoldable pub run_all_checks : HealthChecker → HealthChecker × HealthStatus
unfolding failures overall
run_all_checks h = (
  record h { last_results = map execution h.checks },
  overall (failures (λ b. b) h.checks) (failures not h.checks),
)

abbrev pub is_healthy : HealthStatus → Bool
is_healthy healthy = true
is_healthy _ = false

-- The loop of `run_with_retry`: `status i` and `elapsed i` are what the attempt `i` finds, in
-- seconds; `none` is never a result of the code, but of too little fuel.
module _ (config : HealthCheckerConfig) (status : ℕ → HealthStatus) (elapsed : ℕ → ℕ) where
  unfoldable pub retry : ℕ → ℕ → HealthStatus × Bool
  retry zero attempt = (status attempt, false)
  retry (suc fuel) attempt =
      let later = retry fuel (suc attempt) in
      if is_healthy (status attempt)
      then (status attempt, true)
      else if leb config.timeout_secs (elapsed attempt)
      then (status attempt, true)
      else if leb config.max_retries attempt
      then (status attempt, true)
      else later

  unfoldable pub run_with_retry : HealthStatus × Bool
  unfolding retry
  run_with_retry = retry (suc config.max_retries) 1
