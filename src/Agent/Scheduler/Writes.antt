-- ===== src/Agent/Scheduler/Writes.antt =====
-- cmd/keel-agent/src/update_scheduler.rs: the methods that change the map, and its storage.
use keelos.Prelude.{ℕ, String, format, true, Option, none, some, [], ◌∷◌, Result, ok, err}
use keelos.Prelude.Dict.{Dict, get, put, modify}
use keelos.Agent.Scheduler.{
  ScheduleStatus, pending, running, completed, failed, cancelled, rolled_back, UpdateSchedule,
  status_name, UpdateScheduler, Env, Codec, Outcome, ScheduleRequest, new_schedule,
  get_latest_active_schedule,
}

-- `cancel_schedule`'s change of the entry, and `update_status`'s.
abbrev pub cancel : UpdateSchedule → UpdateSchedule
cancel s = record s { status = cancelled }

abbrev pub stamp : ScheduleStatus → ℕ → UpdateSchedule → UpdateSchedule
stamp running now s = record s { started_at = some now }
stamp completed now s = record s { completed_at = some now }
stamp failed now s = record s { completed_at = some now }
stamp cancelled now s = record s { completed_at = some now }
stamp _ now s = s

abbrev pub set_status : ScheduleStatus → Option String → ℕ → UpdateSchedule → UpdateSchedule
set_status st e now s = stamp st now (record s { status = st; error_message = e })

abbrev pub roll_back : String → ℕ → UpdateSchedule → UpdateSchedule
roll_back reason now s = record s {
  rollback_triggered = true;
  rollback_reason = some reason;
  status = rolled_back;
  completed_at = some now;
}

write_file : Option (String × Option String) → String → UpdateScheduler → Outcome
write_file none text u = (record u { file = some text }, ok tt)
write_file (some (e, left)) text u =
    (record u { file = left }, err (format ("Failed to write schedules: " ∷ e ∷ [])))

persist_text : Result String String → Env → UpdateScheduler → Outcome
unfolding write_file
persist_text (ok text) env u = write_file env.write_fault text u
persist_text (err e) env u = (u, err (format ("Failed to serialize schedules: " ∷ e ∷ [])))

abbrev pub with_map : Dict UpdateSchedule → UpdateScheduler → UpdateScheduler
with_map m u = record u { schedules = m }

module _ (j : Codec) where
  -- A directory that cannot be made is only logged.
  unfoldable pub persist_schedules : Env → UpdateScheduler → Outcome
  unfolding persist_text
  persist_schedules env u = persist_text (j.to_string u.schedules) env u

  with_schedule : UpdateSchedule → Outcome → UpdateScheduler × Result UpdateSchedule String
  with_schedule s (u, ok tt) = (u, ok s)
  with_schedule s (u, err e) = (u, err e)

  unfoldable pub schedule_update :
      ScheduleRequest
      → String
      → Env
      → UpdateScheduler
      → UpdateScheduler × Result UpdateSchedule String
  unfolding with_schedule new_schedule persist_schedules
  schedule_update r id env u =
      with_schedule (new_schedule r id env.now)
        (persist_schedules env (with_map (put id (new_schedule r id env.now) u.schedules) u))

  abbrev not_found : String → UpdateScheduler → Outcome
  not_found id u = (u, err (format ("Schedule not found: " ∷ id ∷ [])))

  refuse : ScheduleStatus → UpdateScheduler → Outcome
  unfolding status_name
  refuse st u = (u, err (format ("Cannot cancel schedule in status: " ∷ status_name st ∷ [])))

  cancel_found : ScheduleStatus → String → Env → UpdateScheduler → Outcome
  unfolding persist_schedules refuse
  cancel_found pending id env u = persist_schedules env (with_map (modify id cancel u.schedules) u)
  cancel_found st id env u = refuse st u

  unfoldable pub cancel_schedule : String → Env → UpdateScheduler → Outcome
  unfolding cancel_found
  cancel_schedule id env u = elim (get id u.schedules) [
    | none ↦ not_found id u
    | some s ↦ cancel_found s.status id env u
  ]

  unfoldable pub update_status :
      String → ScheduleStatus → Option String → Env → UpdateScheduler → Outcome
  unfolding persist_schedules
  update_status id st e env u = elim (get id u.schedules) [
    | none ↦ not_found id u
    | some s ↦ persist_schedules env (with_map (modify id (set_status st e env.now) u.schedules) u)
  ]

  unfoldable pub trigger_rollback : String → String → Env → UpdateScheduler → Outcome
  unfolding persist_schedules
  trigger_rollback id reason env u = elim (get id u.schedules) [
    | none ↦ not_found id u
    | some s ↦ persist_schedules env (with_map (modify id (roll_back reason env.now) u.schedules) u)
  ]

  -- The target is looked up again by its id; the map is persisted whether or not that finds it.
  unfoldable pub register_rollback : String → Env → UpdateScheduler → Outcome
  unfolding persist_schedules get_latest_active_schedule
  register_rollback reason env u = elim (get_latest_active_schedule u) [
    | none ↦ (u, ok tt)
    | some s ↦
        persist_schedules env (with_map (modify s.id (roll_back reason env.now) u.schedules) u)
  ]

  parsed_or_new : Result (Dict UpdateSchedule) String → Dict UpdateSchedule
  parsed_or_new (ok m) = m
  parsed_or_new (err e) = []

  -- `load_schedules`, over the file at the storage path, and the scheduler that `new` builds.
  unfoldable pub load_schedules : Option String → Dict UpdateSchedule
  unfolding parsed_or_new
  load_schedules none = []
  load_schedules (some text) = parsed_or_new (j.from_str text)

  unfoldable pub new : Option String → UpdateScheduler
  unfolding load_schedules
  new file = record { schedules = load_schedules file; file = file }
