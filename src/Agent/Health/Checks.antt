-- ===== src/Agent/Health/Checks.antt =====
-- cmd/keel-agent/src/health_check.rs: the built-in checks, and `get_health` of lib.rs behind its
-- authorisation. What /proc, pgrep and the port give is what a check finds; reading a decimal number
-- and comparing it with 10.0 (`f64`) is a parameter of it. A result of `none` is a panic.
pub mod Laws
use keelos.Prelude.{
  ℕ, ◌==◌, if◌then◌else◌, String, str_eq, is_empty, format, show, contains, lines, split_whitespace,
  not, ◌&&◌, ◌||◌, any, Bool, true, false, Option, none, some, List, [], ◌∷◌, ◌++◌, map, drop,
  length, ltb, Result, ok, err, is_ok, trim_colons,
}
use keelos.Agent.Health.{
  HealthCheckResult, HealthStatus, HealthCheck, HealthChecker, HealthCheckerConfig, CheckExecution,
  pass, fail, unknown, healthy, degraded, unhealthy, message, run_all_checks,
}

pub record Probe : Type 0 where
  pub uptime : Result String String
  pub over_ten : String → Bool
  pub net_dev : Result String String
  pub connect : ℕ → Result (Unit {0}) String
  pub pgrep : String → Result Bool String

abbrev pub first_word : String → Option String
unfolding split_whitespace
first_word text = elim (split_whitespace text) [ [] ↦ none | w ∷ rest ↦ some w ]

abbrev pub uptime_result : Probe → Result String String → HealthCheckResult
unfolding first_word
uptime_result p (ok text) = elim (first_word text) [
  | some secs ↦ if p.over_ten secs then pass else fail "System uptime too low"
  | none ↦ fail "System uptime too low"
]
uptime_result p (err e) = fail (format ("Cannot read uptime: " ∷ e ∷ []))

-- `BootCheck`.
unfoldable pub boot_check : Probe → HealthCheckResult
unfolding uptime_result
boot_check p = uptime_result p p.uptime

abbrev pub found : String → Result Bool String → HealthCheckResult
found service (ok true) = pass
found service (ok false) = fail (format ("Service " ∷ service ∷ " not running" ∷ []))
found service (err e) = fail (format ("Cannot check service: " ∷ e ∷ []))

-- `ServiceCheck`, which no checker registers by default.
unfoldable pub service_check : Probe → String → HealthCheckResult
service_check p service = found service (p.pgrep service)

-- The test of one line of /proc/net/dev: an interface other than the loopback whose line does not
-- have three zeros in columns of eight.
unfoldable pub is_active : String → Bool
unfolding first_word contains trim_colons
is_active line = elim (first_word line) [
  | some iface ↦ not (str_eq (trim_colons iface) "lo") && not (contains line "0       0       0")
  | none ↦ false
]

abbrev pub interfaces_result : List String → Option HealthCheckResult
unfolding is_active
interfaces_result (h1 ∷ h2 ∷ interfaces) =
    some (if any is_active interfaces then pass else fail "No active network interfaces")
interfaces_result _ = none

abbrev pub net_dev_result : Result String String → Option HealthCheckResult
unfolding interfaces_result lines
net_dev_result (ok text) = interfaces_result (lines text)
net_dev_result (err e) = some (fail (format ("Cannot read network interfaces: " ∷ e ∷ [])))

-- `NetworkCheck`: `&lines[2..]` panics when there are fewer than two lines.
unfoldable pub network_check : Probe → Option HealthCheckResult
unfolding net_dev_result
network_check p = net_dev_result p.net_dev

abbrev pub connected : ℕ → Result (Unit {0}) String → HealthCheckResult
unfolding show
connected port (ok _) = pass
connected port (err e) = fail (format ("API port " ∷ show port ∷ " not reachable: " ∷ e ∷ []))

-- `ApiCheck`.
unfoldable pub api_check : Probe → ℕ → HealthCheckResult
unfolding connected
api_check p port = connected port (p.connect port)

abbrev pub api_port : ℕ
api_port = 50051

-- `HealthChecker::new`: the default checks, each with what it gives when it is run.
abbrev pub new : HealthCheckerConfig → Probe → HealthCheckResult → HealthChecker
unfolding boot_check api_check
new config p network = record {
  checks =
      ("boot", record { result = boot_check p; elapsed = 0; is_critical = true })
      ∷ ("network", record { result = network; elapsed = 0; is_critical = false })
      ∷ ("api", record { result = api_check p api_port; elapsed = 0; is_critical = true })
      ∷ [];
  config = config;
  last_results = [];
}

-- `Display for HealthStatus`.
unfoldable pub health_name : HealthStatus → String
health_name healthy = "healthy"
health_name degraded = "degraded"
health_name unhealthy = "unhealthy"

pub record ProtoHealthCheckResult : Type 0 where
  pub name : String
  pub status : String
  pub message : String
  pub duration_ms : ℕ

pub record GetHealthResponse : Type 0 where
  pub status : String
  pub checks : List ProtoHealthCheckResult
  pub last_update_time : String

abbrev pub result_name : HealthCheckResult → String
result_name pass = "pass"
result_name (fail _) = "fail"
result_name (unknown _) = "unknown"

abbrev pub proto_check : CheckExecution → ProtoHealthCheckResult
unfolding message
proto_check e = record {
  name = e.name;
  status = result_name e.result;
  message = message e.result;
  duration_ms = e.duration_ms;
}

abbrev pub reported : String → HealthChecker × HealthStatus → GetHealthResponse
unfolding proto_check health_name
reported now (h, status) = record {
  status = health_name status;
  checks = map proto_check h.last_results;
  last_update_time = now;
}

abbrev pub answered :
    String → HealthCheckerConfig → Probe → Option HealthCheckResult → Option GetHealthResponse
unfolding run_all_checks new reported
answered now config p none = none
answered now config p (some network) = some (reported now (run_all_checks (new config p network)))

unfoldable pub get_health : String → HealthCheckerConfig → Probe → Option GetHealthResponse
unfolding answered network_check
get_health now config p = answered now config p (network_check p)
