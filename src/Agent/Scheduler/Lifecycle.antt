-- ===== src/Agent/Scheduler/Lifecycle.antt =====
-- What holds of every schedule in the map, whatever operations were run.
use keelos.Prelude.{
  ℕ, ◌≡◌, ◌≢◌, ◌⊎◌, inl, inr, arith, String, str_eq, eq_iff, true, Option, Option-cases, none, some,
  All, ok, if◌then◌else◌,
}
use keelos.Prelude.Dict.{Dict, get, put, modify, All-put, All-modify, get-modify}
use keelos.Agent.Scheduler.{
  ScheduleStatus, pending, running, completed, failed, UpdateSchedule, UpdateScheduler, Env, Codec,
  ScheduleRequest, new_schedule, get_latest_active_schedule, get_schedule,
}
use keelos.Agent.Scheduler.Writes.{
  persist_schedules, schedule_update, cancel_schedule, update_status, trigger_rollback,
  register_rollback, set_status, roll_back, cancel,
}
use keelos.Agent.Scheduler.Durable.{Op, run}

-- An entry is stored under its own id; a running schedule has a start time; a completed or failed
-- one has an end time; a rollback has its reason and its time.
pub record IsSound (entry : String × UpdateSchedule) : Type 0 where
  pub keyed : entry.0 ≡ entry.1.id
  pub started : entry.1.status ≡ running → entry.1.started_at ≢ none
  pub ended : (entry.1.status ≡ completed) ⊎ (entry.1.status ≡ failed) → entry.1.completed_at ≢ none
  pub reasoned : entry.1.rollback_triggered ≡ true → entry.1.rollback_reason ≢ none
  pub rolled : entry.1.rollback_triggered ≡ true → entry.1.completed_at ≢ none

new-IsSound : (r : ScheduleRequest) (id : String) (now : ℕ) → IsSound (id, new_schedule r id now)
unfolding new_schedule
new-IsSound r id now = ground arith

cancel-IsSound : (k : String) (s : UpdateSchedule) → IsSound (k, s) → IsSound (k, cancel s)
cancel-IsSound k s h = ground arith

set_status-IsSound :
    (st : ScheduleStatus) (e : Option String) (now : ℕ) (k : String) (s : UpdateSchedule)
    → IsSound (k, s)
    → IsSound (k, set_status st e now s)
set_status-IsSound st e now k s h = ground arith

roll_back-IsSound :
    (reason : String) (now : ℕ) (k : String) (s : UpdateSchedule)
    → IsSound (k, s)
    → IsSound (k, roll_back reason now s)
roll_back-IsSound reason now k s h = ground arith

abbrev pub roll_back_found :
    Option UpdateSchedule → String → ℕ → Dict UpdateSchedule → Dict UpdateSchedule
roll_back_found none reason now m = m
roll_back_found (some s) reason now m = modify s.id (roll_back reason now) m

roll_back_found-IsSound :
    (o : Option UpdateSchedule) (reason : String) (now : ℕ) (m : Dict UpdateSchedule)
    → All IsSound m
    → All IsSound (roll_back_found o reason now m)
roll_back_found-IsSound none reason now m h = h
roll_back_found-IsSound (some s) reason now m h =
    All-modify IsSound s.id (roll_back reason now) m (roll_back-IsSound reason now) h

-- The map that an operation writes, if it writes one.
abbrev pub changed : Op → Env → UpdateScheduler → Dict UpdateSchedule
changed (Op.schedule r id) env u = put id (new_schedule r id env.now) u.schedules
changed (Op.cancel id) env u = modify id cancel u.schedules
changed (Op.set_status id st e) env u = modify id (set_status st e env.now) u.schedules
changed (Op.rollback id reason) env u = modify id (roll_back reason env.now) u.schedules
changed (Op.register reason) env u =
    roll_back_found (get_latest_active_schedule u) reason env.now u.schedules

changed-IsSound :
    (op : Op) (env : Env) (u : UpdateScheduler)
    → All IsSound u.schedules
    → All IsSound (changed op env u)
changed-IsSound (Op.schedule r id) env u h =
    All-put IsSound id (new_schedule r id env.now) u.schedules (new-IsSound r id env.now) h
changed-IsSound (Op.cancel id) env u h = All-modify IsSound id cancel u.schedules cancel-IsSound h
changed-IsSound (Op.set_status id st e) env u h =
    All-modify IsSound id (set_status st e env.now) u.schedules (set_status-IsSound st e env.now) h
changed-IsSound (Op.rollback id reason) env u h =
    All-modify IsSound id (roll_back reason env.now) u.schedules (roll_back-IsSound reason env.now)
      h
changed-IsSound (Op.register reason) env u h =
    roll_back_found-IsSound (get_latest_active_schedule u) reason env.now u.schedules h

module _ (j : Codec) where
  persist-schedules :
      (env : Env) (u : UpdateScheduler) → (persist_schedules j env u).0.schedules ≡ u.schedules
  unfolding persist_schedules
  persist-schedules env u = ground arith

  -- An operation that returns an error may have changed the map all the same, when the write failed.
  pub run-schedules :
      (op : Op) (env : Env) (u : UpdateScheduler)
      → ((run j op env u).0.schedules ≡ u.schedules)
        ⊎ ((run j op env u).0.schedules ≡ changed op env u)
  unfolding schedule_update cancel_schedule update_status trigger_rollback register_rollback
  run-schedules (Op.schedule r id) env u = inr (ground arith)
  run-schedules (Op.cancel id) env u = elim (Option-cases (get id u.schedules)) [
    | inl e ↦ inl (ground arith)
    | inr (s, e) ↦ ground arith
  ]
  run-schedules (Op.set_status id st x) env u = elim (Option-cases (get id u.schedules)) [
    | inl e ↦ inl (ground arith)
    | inr (s, e) ↦ inr (ground arith)
  ]
  run-schedules (Op.rollback id reason) env u = elim (Option-cases (get id u.schedules)) [
    | inl e ↦ inl (ground arith)
    | inr (s, e) ↦ inr (ground arith)
  ]
  run-schedules (Op.register reason) env u = inr (ground arith)

  -- Every operation keeps every entry of the map sound, whether it returns `Ok` or an error: stored
  -- under its own id, started if it runs, ended if it is completed or failed, and with a reason and
  -- an end time if it was rolled back.
  pub run-IsSound :
      (op : Op) (env : Env) (u : UpdateScheduler)
      → All IsSound u.schedules
      → All IsSound (run j op env u).0.schedules
  run-IsSound op env u h = elim (run-schedules op env u) [
    | inl e ↦ rw e h
    | inr e ↦ rw e (changed-IsSound op env u h)
  ]

  -- `cancel_schedule` turns a pending schedule into a cancelled one and touches nothing else of it;
  -- a schedule in another status, and every other schedule, stays as it was.
  pub get-cancel :
      (id k : String) (env : Env) (u : UpdateScheduler) (s : UpdateSchedule)
      → get k u.schedules ≡ some s
      → get_schedule k (cancel_schedule j id env u).0
        ≡ some (if str_eq id k then (elim s.status [ pending ↦ cancel s | _ ↦ s ]) else s)
  unfolding cancel_schedule get_schedule
  get-cancel id k env u s h = ground (arith, eq_iff id k, get-modify id k cancel u.schedules)

  -- `cancel_schedule` returns `Ok` only for a pending schedule.
  pub cancel-pending :
      (id : String) (env : Env) (u : UpdateScheduler) (s : UpdateSchedule)
      → get id u.schedules ≡ some s
      → (cancel_schedule j id env u).1 ≡ ok tt
      → s.status ≡ pending
  unfolding cancel_schedule
  cancel-pending id env u s h k = ground arith
