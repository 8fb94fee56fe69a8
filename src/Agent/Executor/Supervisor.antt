-- ===== src/Agent/Executor/Supervisor.antt =====
-- cmd/keel-agent/src/main.rs: the supervisor that checks the system once after a boot, and rolls back.
pub mod Laws
use keelos.Prelude.{ℕ, if◌then◌else◌, Bool, true, false, Option, none, some, Result, ok, err}
use keelos.Agent.Io.{Io}
use keelos.Agent.Disk.Boot
use keelos.Agent.Disk.Boot.{Boot, rollback_to_previous_partition}
use keelos.Agent.Health.{HealthChecker, HealthStatus, healthy, degraded, unhealthy, run_all_checks}
use keelos.Agent.Scheduler
use keelos.Agent.Scheduler.{UpdateSchedule, UpdateScheduler, get_latest_active_schedule}
use keelos.Agent.Scheduler.Writes.{register_rollback}

abbrev pub default_health_check_grace_secs : ℕ
default_health_check_grace_secs = 60

abbrev pub grace_of : Option UpdateSchedule → ℕ
grace_of none = default_health_check_grace_secs
grace_of (some s) = elim s.health_check_timeout_secs [
  | none ↦ default_health_check_grace_secs
  | some secs ↦ secs
]

-- How long the supervisor sleeps before it checks.
unfoldable pub grace_secs : UpdateScheduler → ℕ
unfolding get_latest_active_schedule
grace_secs u = grace_of (get_latest_active_schedule u)

abbrev pub auto_rollback : Option UpdateSchedule → Bool
auto_rollback none = false
auto_rollback (some s) = s.enable_auto_rollback

-- What the supervisor leaves: the schedules, the boot flags and files, and whether it rebooted.
pub record Verdict : Type 0 where
  pub scheduler : UpdateScheduler
  pub boot : Boot
  pub reboot : Bool

abbrev pub rolled : UpdateScheduler → Boot × Io (Unit {0}) → Verdict
rolled u (b, ok tt) = record { scheduler = u; boot = b; reboot = true }
rolled u (b, err e) = record { scheduler = u; boot = b; reboot = false }

module _ (j : Scheduler.Codec) where
  -- The branch for a system that is not healthy enough; an error of `register_rollback` is logged.
  unfoldable pub roll_back : Scheduler.Env → Boot.Env → UpdateScheduler → Boot → Verdict
  unfolding get_latest_active_schedule register_rollback rollback_to_previous_partition
  roll_back e env u b =
      if auto_rollback (get_latest_active_schedule u)
      then rolled (register_rollback j "Critical health failure at boot" e u).0
          (rollback_to_previous_partition env b)
      else record { scheduler = u; boot = b; reboot = false }

  judge : HealthStatus → Scheduler.Env → Boot.Env → UpdateScheduler → Boot → Verdict
  unfolding roll_back
  judge unhealthy e env u b = roll_back e env u b
  judge _ e env u b = record { scheduler = u; boot = b; reboot = false }

  -- What happens behind the sleep.
  unfoldable pub start_rollback_supervisor :
      HealthChecker → Scheduler.Env → Boot.Env → UpdateScheduler → Boot → HealthChecker × Verdict
  unfolding judge run_all_checks
  start_rollback_supervisor h e env u b =
      ((run_all_checks h).0, judge (run_all_checks h).1 e env u b)
