-- ===== src/Agent/Examples/Supervisor.antt =====
-- The theorems about the health checks and the supervisor after an update.
use keelos.Prelude.{
  ℕ, ◌≡◌, ◌*◌, ◌==◌, if◌then◌else◌, arith, inl, inr, Bool, true, false, none, some, [], ◌∷◌,
}
use keelos.Agent.Disk.Boot.{Boot}
use keelos.Agent.Health.{HealthChecker, HealthStatus, pass, fail, healthy, degraded, run_with_retry}
use keelos.Agent.Health.Laws.{Failed, run_with_retry-ends, EndsAt}
use keelos.Agent.Scheduler.{UpdateScheduler, completed}
use keelos.Agent.Scheduler.Writes.{set_status}
use keelos.Agent.Executor.Supervisor.{start_rollback_supervisor}
use keelos.Agent.Executor.Supervisor.Laws.{supervisor-stable}
use keelos.Agent.Examples.RollbackCodec.{write_state}
use keelos.Agent.Examples.Machine.{env, boot}
use keelos.Agent.Examples.Executor.{schedule, codec, at}

-- A checker whose critical check fails, and one whose network check fails.
abbrev checker : Bool → HealthChecker
checker critical = record {
  checks =
      ("boot", record { result = pass; elapsed = 1; is_critical = true })
      ∷ ("api", record { result = fail "refused"; elapsed = 2; is_critical = critical })
      ∷ [];
  config = record { timeout_secs = 300; retry_interval_secs = 10; max_retries = 30 };
  last_results = [];
}

-- The third attempt finds the system healthy.
abbrev attempts : ℕ → HealthStatus
attempts n = if n == 3 then healthy else degraded

run_with_retry-ends_example :
    (last : ℕ) × EndsAt (checker true).config attempts (λ n. 10 * n) 31 1 last
    × (run_with_retry (checker true).config attempts (λ n. 10 * n) ≡ (attempts last, true))
run_with_retry-ends_example = run_with_retry-ends (checker true).config attempts (λ n. 10 * n)

-- The boot state after the active partition was recorded, with a schedule that is completed.
abbrev updated : UpdateScheduler
updated = record { schedules = ("s1", set_status completed none 200 schedule) ∷ []; file = none }

abbrev after : Boot
after = record boot {
  state_file = some (
      write_state
        (record { previous_partition = some 2; boot_counter = 0; last_update_time = none }));
}

no_critical : Failed (λ c. c) (checker false).checks → ⊥
no_critical h = elim h.1 [
  | inl i ↦ ground arith
  | inr m ↦ elim m [ inl i ↦ ground arith | inr n ↦ absurd n ]
]

supervisor-stable_example :
    (start_rollback_supervisor codec (checker false) (at 300) env updated after).1
    ≡ record { scheduler = updated; boot = after; reboot = false }
supervisor-stable_example =
    supervisor-stable codec (checker false) (at 300) env updated after no_critical
