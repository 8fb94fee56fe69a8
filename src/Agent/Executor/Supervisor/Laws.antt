-- ===== src/Agent/Executor/Supervisor/Laws.antt =====
-- When the supervisor reboots the machine, and what it has done before.
use keelos.Prelude.{◌≡◌, ◌≢◌, refl, false}
use keelos.Agent.Io.{Io}
use keelos.Agent.Disk.Boot
use keelos.Agent.Disk.Boot.{Boot}
use keelos.Agent.Health.{HealthChecker, HealthStatus, healthy, degraded, unhealthy, run_all_checks}
use keelos.Agent.Health.Laws.{Failed, run_all_checks_iff}
use keelos.Agent.Scheduler
use keelos.Agent.Scheduler.{UpdateSchedule, UpdateScheduler}
use keelos.Agent.Executor.Supervisor.{judge, start_rollback_supervisor}

module _ (j : Scheduler.Codec) where
  no_reboot :
      (s : HealthStatus) (e : Scheduler.Env) (env : Boot.Env) (u : UpdateScheduler) (b : Boot)
      → s ≢ unhealthy
      → judge j s e env u b ≡ record { scheduler = u; boot = b; reboot = false }
  unfolding judge
  no_reboot healthy e env u b n = refl
  no_reboot degraded e env u b n = refl
  no_reboot unhealthy e env u b n = absurd (n refl)

  -- Where no critical check failed, the supervisor changes nothing and does not reboot.
  pub supervisor-stable :
      (h : HealthChecker) (e : Scheduler.Env) (env : Boot.Env) (u : UpdateScheduler) (b : Boot)
      → (Failed (λ c. c) h.checks → ⊥)
      → (start_rollback_supervisor j h e env u b).1
        ≡ record { scheduler = u; boot = b; reboot = false }
  unfolding start_rollback_supervisor
  supervisor-stable h e env u b f =
      no_reboot (run_all_checks h).1 e env u b (λ s. f ((run_all_checks_iff h).0.0 s))
