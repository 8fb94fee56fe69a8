-- ===== src/Agent/Executor.antt =====
-- cmd/keel-agent/src/main.rs and hooks.rs: the task that executes due schedules, and the supervisor
-- that rolls back. The executor awaits between its calls, so it is a state machine with one call of
-- the scheduler in a step, and a request of a client may come between any two steps.
pub mod Install
pub mod Parts
pub mod Laws
pub mod Histories
pub mod Requests
pub mod Supervisor
use keelos.Prelude.{
  ℕ, zero, suc, if◌then◌else◌, String, is_empty, format, split_whitespace, Bool, true, false,
  Option, none, some, List, [], ◌∷◌, Result, ok, err,
}
use keelos.Agent.Io.{IoError, Io}
use keelos.Agent.Disk.{PartitionInfo, get_inactive_partition}
use keelos.Agent.Disk.Flash.{Disks, Tools, flash_image}
use keelos.Agent.Disk.Boot
use keelos.Agent.Disk.Boot.{Boot, switch_boot_partition, record_active_partition_for_rollback}
use keelos.Agent.Scheduler
use keelos.Agent.Scheduler.{
  ScheduleStatus, running, completed, failed, UpdateSchedule, UpdateScheduler, get_due_schedules,
  is_within_maintenance_window,
}
use keelos.Agent.Scheduler.Writes.{update_status}
use keelos.Agent.Scheduler.Durable.{Op, run}

pub record Exit : Type 0 where
  pub is_success : Bool
  pub code : String  -- `{:?}` of `ExitStatus::code`

-- The devices, and the boot flags and files.
pub record Machine : Type 0 where
  pub disks : Disks
  pub boot : Boot

-- A hook is a program that is run with its arguments, and may change the machine.
abbrev pub Hook : Type 0
Hook = String → List String → Machine → Machine × Io Exit

-- What an execution finds besides the machine's state.
pub record Env : Type 0 where
  pub tools : Tools
  pub boot : Boot.Env
  pub hook : Hook

abbrev pub Act : Type 0
Act = Machine × Result (Unit {0}) String

abbrev pub ran : Machine × Io Exit → Act
ran (m, ok exit) =
    if exit.is_success
    then (m, ok tt)
    else (m, err (format ("Hook failed with exit code: " ∷ exit.code ∷ [])))
ran (m, err e) = (m, err (format ("Failed to execute hook: " ∷ e.message ∷ [])))

abbrev pub run_parts : Hook → List String → Machine → Act
run_parts hook [] m = (m, ok tt)
run_parts hook (program ∷ args) m = ran (hook program args m)

unfoldable pub execute_hook : Hook → String → Machine → Act
unfolding split_whitespace
execute_hook hook command m =
    if is_empty command then (m, ok tt) else run_parts hook (split_whitespace command) m

unfoldable pub run_hook : Hook → Option String → Machine → Act
unfolding execute_hook
run_hook hook none m = (m, ok tt)
run_hook hook (some command) m = execute_hook hook command m

-- `fallback_to_full.then_some(full_image_url).flatten()`.
abbrev pub fallback_url : UpdateSchedule → Option String
fallback_url s = if s.fallback_to_full then s.full_image_url else none

abbrev pub switched : Machine → Boot × Io (Unit {0}) → Act
switched m (b, ok tt) = (record m { boot = b }, ok tt)
switched m (b, err e) = (record m { boot = b }, err e.message)

-- A record that fails is only logged.
unfoldable pub record_and_switch : Env → PartitionInfo → Machine → Act
unfolding record_active_partition_for_rollback switch_boot_partition
record_and_switch env inactive m = switched m (
    switch_boot_partition inactive.index env.boot
      (record_active_partition_for_rollback env.boot m.boot).0)

abbrev pub post_hook : Env → PartitionInfo → Act → Act
unfolding record_and_switch
post_hook env inactive (m, ok tt) = record_and_switch env inactive m
post_hook env inactive (m, err e) = (m, err e)

abbrev pub flashed : Env → UpdateSchedule → PartitionInfo → Machine → Disks × Io ℕ → Act
unfolding post_hook run_hook
flashed env s inactive m (d, ok saved) =
    post_hook env inactive (run_hook env.hook s.post_update_hook (record m { disks = d }))
flashed env s inactive m (d, err e) = (record m { disks = d }, err e.message)

-- The flash of a schedule's image to a device.
unfoldable pub flash_schedule : Env → UpdateSchedule → String → Disks → Disks × Io ℕ
unfolding flash_image
flash_schedule env s device d =
    flash_image env.tools env.boot.system s.source_url device s.expected_sha256 s.is_delta
      (fallback_url s) d

abbrev pub pre_hook : Env → UpdateSchedule → PartitionInfo → Act → Act
unfolding flashed flash_schedule
pre_hook env s inactive (m, ok tt) =
    flashed env s inactive m (flash_schedule env s inactive.device m.disks)
pre_hook env s inactive (m, err e) = (m, err e)

unfoldable pub execute_scheduled_update : Env → UpdateSchedule → Machine → Act
unfolding pre_hook get_inactive_partition run_hook
execute_scheduled_update env s m = elim (get_inactive_partition env.boot.system) [
  | err e ↦ (m, err e.message)
  | ok inactive ↦ pre_hook env s inactive (run_hook env.hook s.pre_update_hook m)
]

-- Where the executor stands: asleep, with schedules left of those that were due, or with one of
-- them marked as running.
pub data Phase : Type 0 where
  asleep : Phase
  queue : List UpdateSchedule → Phase
  executing : UpdateSchedule → List UpdateSchedule → Phase

pub record World : Type 0 where
  pub scheduler : UpdateScheduler
  pub machine : Machine
  pub phase : Phase

-- The status and the error message that an execution is registered with.
abbrev pub outcome : Result (Unit {0}) String → ScheduleStatus × Option String
outcome (ok tt) = (completed, none)
outcome (err e) = (failed, some e)

module _ (j : Scheduler.Codec) where
  -- The result of `update_status` is dropped.
  unfoldable pub start : Scheduler.Env → UpdateSchedule → List UpdateSchedule → World → World
  unfolding is_within_maintenance_window update_status
  start e s rest w =
      if is_within_maintenance_window e.now s
      then record w {
        scheduler = (update_status j s.id running none e w.scheduler).0;
        phase = executing s rest;
      }
      else record w {
        scheduler =
            (update_status j s.id failed (some "Maintenance window expired") e w.scheduler).0;
        phase = queue rest;
      }

  abbrev pub register : Scheduler.Env → UpdateSchedule → List UpdateSchedule → Act → World → World
  unfolding update_status
  register e s rest (m, r) w = record w {
    scheduler = (update_status j s.id (outcome r).0 (outcome r).1 e w.scheduler).0;
    machine = m;
    phase = queue rest;
  }

  -- The body of the loop, one call at a time.
  advance : Env → Scheduler.Env → Phase → World → World
  unfolding start register execute_scheduled_update get_due_schedules
  advance env e asleep w = record w { phase = queue (get_due_schedules e.now w.scheduler) }
  advance env e (queue []) w = record w { phase = asleep }
  advance env e (queue (s ∷ rest)) w = start e s rest w
  advance env e (executing s rest) w =
      register e s rest (execute_scheduled_update env s w.machine) w

  unfoldable pub tick : Env → Scheduler.Env → World → World
  unfolding advance
  tick env e w = advance env e w.phase w

  -- A request of a client changes the scheduler alone.
  unfoldable pub request : Op → Scheduler.Env → World → World
  request op e w = record w { scheduler = (run j op e w.scheduler).0 }

  pub data Event : Type 0 where
    step : Env → Scheduler.Env → Event
    call : Op → Scheduler.Env → Event

  unfoldable pub happen : Event → World → World
  unfolding tick request
  happen (step env e) w = tick env e w
  happen (call op e) w = request op e w

  unfoldable pub history : List Event → World → World
  unfolding happen
  history [] w = w
  history (e ∷ rest) w = history rest (happen e w)
