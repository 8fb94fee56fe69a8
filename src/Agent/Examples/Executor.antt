-- ===== src/Agent/Examples/Executor.antt =====
-- The theorems about the executor and the installation at a concrete machine.
use keelos.Prelude.{
  ℕ, ◌≡◌, ◌≢◌, ◌⊎◌, show, String, refl, arith, eq_iff, any, is_ok, All, true, false, none, some,
  List, [], ◌∷◌, ok,
}
use keelos.Prelude.Dict.{get}
use keelos.Agent.Disk.Flash.Laws.{Holds}
use keelos.Agent.Disk.Boot.{load_rollback_state}
use keelos.Agent.Scheduler
use keelos.Agent.Scheduler.{
  ScheduleRequest, UpdateSchedule, UpdateScheduler, get_latest_active_schedule,
  is_within_maintenance_window, new_schedule, running, completed,
}
use keelos.Agent.Scheduler.Writes.{cancel, set_status}
use keelos.Agent.Scheduler.Durable.{Op}
use keelos.Agent.Scheduler.Lifecycle.{IsSound}
use keelos.Agent.Executor.{
  World, Phase, Event, step, call, asleep, executing, history, execute_scheduled_update,
}
use keelos.Agent.Executor.Laws.{execute-boot, execute-other}
use keelos.Agent.Executor.Histories.{history-IsSound, cancelled_is_executed}
use keelos.Agent.Executor.Install.{InstallUpdateRequest, run_install}
use keelos.Agent.Executor.Install.Laws.{succeeded, install-reports}
use keelos.Agent.Examples.Machine.{
  slot_booted, slot_b, active, inactive, tools, env, boot, machine, exec, exec-IsHarmless,
  virtio_exec, virtio_machine,
}

abbrev pub schedule : UpdateSchedule
schedule = record {
  id = "s1";
  source_url = "http://os/image";
  expected_sha256 = some "AB12";
  scheduled_at = some 100;
  maintenance_window_secs = none;
  enable_auto_rollback = true;
  pre_update_hook = some "/bin/true now";
  post_update_hook = none;
  health_check_timeout_secs = none;
  is_delta = false;
  fallback_to_full = false;
  full_image_url = none;
  rollback_triggered = false;
  rollback_reason = none;
  status = Scheduler.pending;
  created_at = 50;
  started_at = none;
  completed_at = none;
  error_message = none;
}

execute-boot_example :
    ((execute_scheduled_update exec schedule machine).0.boot ≡ machine.boot)
    ⊎ Holds tools "/dev/sda3" "AB12" (execute_scheduled_update exec schedule machine).0.disks
execute-boot_example =
    execute-boot exec schedule slot_b "AB12" machine exec-IsHarmless inactive refl refl

not_target : ◌≢◌ {A = String} "/dev/sda1" slot_b.device
not_target h = ground (arith, eq_iff "/dev/sda1" "/dev/sda3")

execute-other_example :
    (get "/dev/sda1" (execute_scheduled_update exec schedule machine).0.disks
      ≡ get "/dev/sda1" machine.disks)
    × (get "/dev/sda2" (execute_scheduled_update exec schedule machine).0.disks
        ≡ get "/dev/sda2" machine.disks)
execute-other_example =
    execute-other exec schedule slot_b slot_booted "/dev/sda1" machine exec-IsHarmless active
      inactive not_target

-- On a machine whose slots are on /dev/vda an execution succeeds too.
executed_virtio : (execute_scheduled_update virtio_exec schedule virtio_machine).1 ≡ ok tt
unfolding execute_scheduled_update get show
executed_virtio = refl

-- A text form that holds nothing, for theorems that ask nothing of it.
abbrev pub codec : Scheduler.Codec
codec = record { to_string = λ m. ok "{}"; from_str = λ s. ok [] }

abbrev scheduler : UpdateScheduler
scheduler = record { schedules = ("s1", schedule) ∷ []; file = none }

abbrev world : Phase → World
world p = record { scheduler = scheduler; machine = machine; phase = p }

abbrev pub at : ℕ → Scheduler.Env
at t = record { now = t; write_fault = none }

-- The executor wakes, takes the schedule, is asked to cancel it, executes it, and sleeps.
abbrev events : List (Event codec)
events =
    step exec (at 100)
    ∷ call (Op.cancel "s1") (at 101)
    ∷ step exec (at 102)
    ∷ step exec (at 103)
    ∷ step exec (at 104)
    ∷ []

schedules-IsSound : All IsSound scheduler.schedules
schedules-IsSound = ground arith

history-IsSound_example : All IsSound (history codec events (world asleep)).scheduler.schedules
history-IsSound_example = history-IsSound codec events (world asleep) schedules-IsSound

in_window : is_within_maintenance_window 103 schedule ≡ true
unfolding is_within_maintenance_window
in_window = refl

-- Another schedule, which is being executed.
abbrev earlier : UpdateSchedule
earlier = record schedule { id = "s0" }

abbrev busy : World
busy = record {
  scheduler = record { schedules = ("s0", earlier) ∷ ("s1", schedule) ∷ []; file = none };
  machine = machine;
  phase = executing earlier (schedule ∷ []);
}

found : get "s1" busy.scheduler.schedules ≡ some schedule
unfolding get
found = refl

not_earlier : ◌≢◌ {A = String} "s1" "s0"
not_earlier h = ground (arith, eq_iff "s1" "s0")

cancelled_is_executed_example :
    (get "s1" (history codec (call (Op.cancel "s1") (at 101) ∷ []) busy).scheduler.schedules
      ≡ some (cancel schedule))
    × (get "s1"
          (history codec
            (call (Op.cancel "s1") (at 101) ∷ step exec (at 102) ∷ step exec (at 103) ∷ [])
            busy).scheduler.schedules
        ≡ some (set_status running none 103 (cancel schedule)))
    × ((history codec
          (call (Op.cancel "s1") (at 101) ∷ step exec (at 102) ∷ step exec (at 103) ∷ [])
          busy).phase
        ≡ executing schedule [])
cancelled_is_executed_example =
    cancelled_is_executed codec exec exec (at 101) (at 102) (at 103) earlier schedule schedule []
      busy refl not_earlier found refl in_window

abbrev request : InstallUpdateRequest
request = record {
  source_url = "http://os/delta";
  expected_sha256 = "ab12";
  is_delta = true;
  fallback_to_full = true;
  full_image_url = "http://os/image";
}

install-reports_example :
    any succeeded (run_install request exec machine).1.items
    ≡ is_ok (run_install request exec machine).1.end
install-reports_example = install-reports request exec machine

no_record : (load_rollback_state env boot).previous_partition ≡ none
unfolding load_rollback_state
no_record = refl
